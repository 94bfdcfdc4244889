-- ===== src/TcpServer/Changes.antt =====
-- How a step of a thread of Src/Network/TCPServer.cpp changes the tables.
use rtype_ci_cd.Common.{
  ℕ, ◌+◌, ◌≤◌, ◌<◌, ◌%◌, ◌≡◌, ◌≢◌, refl, ap, subst, ◌∙◌, inl, inr, Bool, Option, none, some, List,
  ◌==◌, if◌then◌else◌, Bool-cases, Option-cases, arith, u32,
}
use rtype_ci_cd.Common.Int.{ℤ}
use rtype_ci_cd.Common.Maps.{
  find, insert, find-insert_self, find-insert_other, find-erase_self, find-erase_other,
}
use rtype_ci_cd.TcpServer.{
  TcpServer, Phase, connecting, in_lobby, in_room, finished, leave_server, leave_room, register,
}
use rtype_ci_cd.TcpServer.System.{set_phase}
use rtype_ci_cd.TcpServer.Tables.{
  Entered, Agree, SameBut, OfOrNone, Change, ne_of_eqb, eq_of_eqb, set_phase_self, set_phase_other,
}

some_ne_none : {A : Type 0} {a : A} {o : Option A} → o ≡ none → o ≢ some a
some_ne_none e h = ground (arith, e, h)

some_inj : {i j : ℕ} {o : Option ℕ} → o ≡ some i → j ≢ i → o ≢ some j
some_inj e ne h = ne (ground (arith, e, h))

-- The tables stay, and the thread's place in them.
pub stay-Agree :
    (n k : ℕ) (s : TcpServer) (phases : ℕ → Phase) (ph : Phase)
    → Agree n s phases
    → Entered s k ph
    → ((q : ℕ) (u : List ℕ) (r : ℤ) → phases k ≡ in_room q u r → ph ≡ in_room q u r)
    → Agree n s (set_phase phases k ph)
stay-Agree n k s phases ph v e keeps = record {
  next = v.next;
  fresh = v.fresh;
  names = v.names;
  entered = λ j. elim (Bool-cases (j == k)) [
    | inl at ↦ rw (eq_of_eqb j k at, set_phase_self) e
    | inr far ↦ rw (set_phase_other phases k j ph (ne_of_eqb j k far)) (v.entered j)
  ];
  roomed = λ q r at.
      let (j, u, was) = v.roomed q r at in
      elim (Bool-cases (j == k)) [
        | inl near ↦ (
          k,
          u,
          set_phase_self phases k ph
              ∙ keeps q u r (subst (λ i. phases i ≡ in_room q u r) (eq_of_eqb j k near) was),
        )
        | inr far ↦ (j, u, set_phase_other phases k j ph (ne_of_eqb j k far) ∙ was)
      ];
}

-- A player whose id is still free stands in no room.
roomless :
    (n p : ℕ) (s : TcpServer) (phases : ℕ → Phase)
    → Agree n s phases
    → find p s.player_sockets ≡ none
    → find p s.player_room_map ≡ none
roomless n p s phases v gone = elim (Option-cases (find p s.player_room_map)) [
  | inl e ↦ e
  | inr (r, e) ↦
      let (j, u, was) = v.roomed p r e in
      absurd (some_ne_none gone (subst (Entered s j) was (v.entered j)).0)
]

register-SameBut :
    (k : ℕ) (u : List ℕ) (s : TcpServer) → SameBut s.next_player_id s (register k u s)
unfolding register
register-SameBut k u s = record {
  sockets = λ q ne. find-insert_other q s.next_player_id _ _ ne;
  usernames = λ q ne. find-insert_other q s.next_player_id _ _ ne;
  rooms = λ q ne. refl;
}

abbrev pub after : Bool → ℕ → List ℕ → Phase
after fails p u = if fails then finished else in_lobby p u

pub register-Change :
    (n k : ℕ) (u : List ℕ) (fails : Bool) (s : TcpServer) (phases : ℕ → Phase)
    → n + 1 < u32
    → phases k ≡ connecting
    → Agree n s phases
    → Change (n + 1) s.next_player_id k s (register k u s) phases (after fails s.next_player_id u)
unfolding register
register-Change n k u fails s phases small e v = record {
  same = register-SameBut k u s;
  mine = rw e tt;
  owner = λ j ne. some_ne_none free;
  next = omega (arith, v.next);
  fresh = fresh';
  names = (
    λ h. absurd (some_ne_none h (find-insert_self _ _ _)),
    λ h. absurd (some_ne_none h (find-insert_self _ _ _)),
  );
  entered = entered';
  roomed = λ r h. absurd (some_ne_none (roomless n s.next_player_id s phases v free) h);
}
  where
    free : find s.next_player_id s.player_sockets ≡ none
    free = v.fresh s.next_player_id (omega arith)

    fresh' :
        (q : ℕ)
        → (s.next_player_id + 1) % u32 ≤ q
        → find q (insert s.next_player_id k s.player_sockets) ≡ none
    fresh' q le =
        let ne : q ≢ s.next_player_id = λ h. omega (arith, v.next) in
        find-insert_other q s.next_player_id k s.player_sockets ne
        ∙ v.fresh q (omega (arith, v.next))

    entered' : Entered (register k u s) k (after fails s.next_player_id u)
    entered' = elim (Bool-cases fails) [
      | inl down ↦ rw down tt
      | inr up ↦ rw up (
        find-insert_self s.next_player_id k s.player_sockets,
        find-insert_self s.next_player_id u s.player_usernames,
        roomless n s.next_player_id s phases v free,
      )
    ]

pub join_room-Change :
    (n k p : ℕ) (u : List ℕ) (r : ℤ) (s : TcpServer) (phases : ℕ → Phase)
    → phases k ≡ in_lobby p u
    → Agree n s phases
    → Change n p k s
        (record s { player_room_map = insert p r s.player_room_map })
        phases
        (in_room p u r)
join_room-Change n k p u r s phases e v =
    let at = subst (Entered s k) e (v.entered k) in
    record {
      same = record {
        sockets = λ q ne. refl;
        usernames = λ q ne. refl;
        rooms = λ q ne. find-insert_other q p r s.player_room_map ne;
      };
      mine = rw e refl;
      owner = λ j ne. some_inj at.0 ne;
      next = v.next;
      fresh = v.fresh;
      names = v.names p;
      entered = (at.0, at.1, find-insert_self p r s.player_room_map);
      roomed =
          λ q h. (u, ap (in_room p u) (ground (arith, h, find-insert_self p r s.player_room_map)));
    }

leave-Change :
    (n k p : ℕ) (s s' : TcpServer) (phases : ℕ → Phase)
    → find p s.player_sockets ≡ some k
    → OfOrNone p (phases k)
    → SameBut p s s'
    → s'.next_player_id ≡ s.next_player_id
    → find p s'.player_sockets ≡ none
    → find p s'.player_usernames ≡ none
    → find p s'.player_room_map ≡ none
    → Agree n s phases
    → Change n p k s s' phases finished
leave-Change n k p s s' phases at mine same next no_socket no_name no_room v = record {
  same = same;
  mine = mine;
  owner = λ j ne. some_inj at ne;
  next = rw next v.next;
  fresh = λ q le. elim (Bool-cases (q == p)) [
    | inl here ↦ rw (eq_of_eqb q p here) no_socket
    | inr far ↦ same.sockets q (ne_of_eqb q p far) ∙ v.fresh q (omega (arith, next))
  ];
  names = (λ _. no_name, λ _. no_socket);
  entered = tt;
  roomed = λ r h. absurd (some_ne_none no_room h);
}

pub leave_lobby-Change :
    (n k p : ℕ) (u : List ℕ) (s : TcpServer) (phases : ℕ → Phase)
    → phases k ≡ in_lobby p u
    → Agree n s phases
    → Change n p k s (leave_server p s) phases finished
unfolding leave_server
leave_lobby-Change n k p u s phases e v =
    let at = subst (Entered s k) e (v.entered k) in
    leave-Change n k p s (leave_server p s) phases at.0 (rw e refl)
      (record {
        sockets = λ q ne. find-erase_other q p s.player_sockets ne;
        usernames = λ q ne. find-erase_other q p s.player_usernames ne;
        rooms = λ q ne. refl;
      })
      refl (find-erase_self p s.player_sockets) (find-erase_self p s.player_usernames) at.2 v

pub leave_both-Change :
    (n k p : ℕ) (u : List ℕ) (r : ℤ) (s : TcpServer) (phases : ℕ → Phase)
    → phases k ≡ in_room p u r
    → Agree n s phases
    → Change n p k s (leave_server p (leave_room p s)) phases finished
unfolding leave_server leave_room
leave_both-Change n k p u r s phases e v =
    let at = subst (Entered s k) e (v.entered k) in
    leave-Change n k p s (leave_server p (leave_room p s)) phases at.0 (rw e refl)
      (record {
        sockets = λ q ne. find-erase_other q p s.player_sockets ne;
        usernames = λ q ne. find-erase_other q p s.player_usernames ne;
        rooms = λ q ne. find-erase_other q p s.player_room_map ne;
      })
      refl (find-erase_self p s.player_sockets) (find-erase_self p s.player_usernames)
      (find-erase_self p s.player_room_map) v
