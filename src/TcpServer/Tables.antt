-- ===== src/TcpServer/Tables.antt =====
-- The tables of Src/Network/TCPServer.cpp and the threads of its clients agree.
use rtype_ci_cd.Common.{
  ℕ, ◌≤◌, ◌≡◌, ◌≢◌, sym, ap, subst, ◌∙◌, ◌↔◌, inl, inr, true, false, none, some, List, ◌==◌,
  Bool-cases, arith,
}
use rtype_ci_cd.Common.Int.{ℤ}
use rtype_ci_cd.Common.Maps.{find}
use rtype_ci_cd.TcpServer.{TcpServer, Phase, connecting, in_lobby, in_room, finished}
use rtype_ci_cd.TcpServer.System.{set_phase}

-- What the tables hold for the thread of the socket `k`.
abbrev pub Entered : TcpServer → ℕ → Phase → Type 0
Entered s k connecting = Unit
Entered s k (in_lobby p u) =
    (find p s.player_sockets ≡ some k)
    × (find p s.player_usernames ≡ some u)
    × (find p s.player_room_map ≡ none)
Entered s k (in_room p u r) =
    (find p s.player_sockets ≡ some k)
    × (find p s.player_usernames ≡ some u)
    × (find p s.player_room_map ≡ some r)
Entered s k finished = Unit

-- Ids from the next one on are free; the sockets and the user names have the same players; each thread
-- stands in the tables as what it is; and a player that stands in a room has a thread that is there.
pub record Agree (n : ℕ) (s : TcpServer) (phases : ℕ → Phase) : Type 0 where
  pub next : s.next_player_id ≤ n
  pub fresh : (p : ℕ) → s.next_player_id ≤ p → find p s.player_sockets ≡ none
  pub names : (p : ℕ) → (find p s.player_sockets ≡ none) ↔ (find p s.player_usernames ≡ none)
  pub entered : (k : ℕ) → Entered s k (phases k)
  pub roomed :
      (p : ℕ) (r : ℤ)
      → find p s.player_room_map ≡ some r
      → (k : ℕ) × (u : List ℕ) × (phases k ≡ in_room p u r)

-- The tables of two states hold the same but for the player `p`.
pub record SameBut (p : ℕ) (s s' : TcpServer) : Type 0 where
  pub sockets : (q : ℕ) → q ≢ p → find q s'.player_sockets ≡ find q s.player_sockets
  pub usernames : (q : ℕ) → q ≢ p → find q s'.player_usernames ≡ find q s.player_usernames
  pub rooms : (q : ℕ) → q ≢ p → find q s'.player_room_map ≡ find q s.player_room_map

-- The thread is not that of the player `p`.
abbrev pub NotOf : ℕ → Phase → Type 0
NotOf p connecting = Unit
NotOf p (in_lobby q u) = q ≢ p
NotOf p (in_room q u r) = q ≢ p
NotOf p finished = Unit

Entered-SameBut :
    (p k : ℕ) (s s' : TcpServer) (ph : Phase)
    → SameBut p s s'
    → NotOf p ph
    → Entered s k ph
    → Entered s' k ph
Entered-SameBut p k s s' connecting same other e = tt
Entered-SameBut p k s s' (in_lobby q u) same other e =
    (same.sockets q other ∙ e.0, same.usernames q other ∙ e.1, same.rooms q other ∙ e.2)
Entered-SameBut p k s s' (in_room q u r) same other e =
    (same.sockets q other ∙ e.0, same.usernames q other ∙ e.1, same.rooms q other ∙ e.2)
Entered-SameBut p k s s' finished same other e = tt

-- A thread whose socket is not the player's is not the player's thread.
NotOf-socket :
    (p k : ℕ) (s : TcpServer) (ph : Phase)
    → Entered s k ph
    → find p s.player_sockets ≢ some k
    → NotOf p ph
NotOf-socket p k s connecting e ne = tt
NotOf-socket p k s (in_lobby q u) e ne = λ same. ne (let at = e.0 in ground (arith, at, same))
NotOf-socket p k s (in_room q u r) e ne = λ same. ne (let at = e.0 in ground (arith, at, same))
NotOf-socket p k s finished e ne = tt

-- The thread is that of the player `p`, or of none.
abbrev pub OfOrNone : ℕ → Phase → Type 0
OfOrNone p connecting = Unit
OfOrNone p (in_lobby q u) = q ≡ p
OfOrNone p (in_room q u r) = q ≡ p
OfOrNone p finished = Unit

-- The thread of the socket `k` goes on to the phase `ph`, and writes to the tables of the player `p`.
pub record Change (n p k : ℕ) (s s' : TcpServer) (phases : ℕ → Phase) (ph : Phase) : Type 0 where
  pub same : SameBut p s s'
  pub mine : OfOrNone p (phases k)
  pub owner : (j : ℕ) → j ≢ k → find p s.player_sockets ≢ some j
  pub next : s'.next_player_id ≤ n
  pub fresh : (q : ℕ) → s'.next_player_id ≤ q → find q s'.player_sockets ≡ none
  pub names : (find p s'.player_sockets ≡ none) ↔ (find p s'.player_usernames ≡ none)
  pub entered : Entered s' k ph
  pub roomed : (r : ℤ) → find p s'.player_room_map ≡ some r → (u : List ℕ) × (ph ≡ in_room p u r)

pub ne_of_eqb : (a b : ℕ) → (a == b) ≡ false → a ≢ b
ne_of_eqb a b h e = ground (arith, h, e)

pub eq_of_eqb : (a b : ℕ) → (a == b) ≡ true → a ≡ b
eq_of_eqb a b h = ground arith

pub set_phase_self : (phases : ℕ → Phase) (k : ℕ) (ph : Phase) → set_phase phases k ph k ≡ ph
unfolding set_phase
set_phase_self phases k ph = ground arith

pub set_phase_other :
    (phases : ℕ → Phase) (k j : ℕ) (ph : Phase) → j ≢ k → set_phase phases k ph j ≡ phases j
unfolding set_phase
set_phase_other phases k j ph h = ground arith

not_mine : (p q : ℕ) (u : List ℕ) (r : ℤ) (ph : Phase) → OfOrNone p ph → ph ≡ in_room q u r → q ≡ p
not_mine p q u r ph h e = subst (OfOrNone p) e h

pub Change-Agree :
    (n0 n p k : ℕ) (s s' : TcpServer) (phases : ℕ → Phase) (ph : Phase)
    → Agree n0 s phases
    → Change n p k s s' phases ph
    → Agree n s' (set_phase phases k ph)
Change-Agree n0 n p k s s' phases ph v c = record {
  next = c.next;
  fresh = c.fresh;
  names = names';
  entered = entered';
  roomed = roomed';
}
  where
    names' : (q : ℕ) → (find q s'.player_sockets ≡ none) ↔ (find q s'.player_usernames ≡ none)
    names' q = elim (Bool-cases (q == p)) [
      | inl e ↦ rw (eq_of_eqb q p e) c.names
      | inr e ↦
          rw (c.same.sockets q (ne_of_eqb q p e), c.same.usernames q (ne_of_eqb q p e)) (v.names q)
    ]

    entered' : (j : ℕ) → Entered s' j (set_phase phases k ph j)
    entered' j = elim (Bool-cases (j == k)) [
      | inl e ↦ rw (eq_of_eqb j k e, set_phase_self) c.entered
      | inr e ↦
          let far = ne_of_eqb j k e in
          rw (set_phase_other phases k j ph far) (
            Entered-SameBut p j s s' (phases j) c.same
              (NotOf-socket p j s (phases j) (v.entered j) (c.owner j far)) (v.entered j))
    ]

    roomed' :
        (q : ℕ) (r : ℤ)
        → find q s'.player_room_map ≡ some r
        → (j : ℕ) × (u : List ℕ) × (set_phase phases k ph j ≡ in_room q u r)
    roomed' q r at = elim (Bool-cases (q == p)) [
      | inl e ↦
          let same_player = eq_of_eqb q p e in
          let (u, at') =
            c.roomed r (subst (λ x. find x s'.player_room_map ≡ some r) same_player at) in
          (k, u, set_phase_self phases k ph ∙ at' ∙ ap (λ x. in_room x u r) (sym same_player))
      | inr e ↦
          let other = ne_of_eqb q p e in
          let (j, u, was) = v.roomed q r (sym (c.same.rooms q other) ∙ at) in
          let far : j ≢ k = λ near. other (
            not_mine p q u r (phases j) (subst (λ x. OfOrNone p (phases x)) (sym near) c.mine)
              was) in
          (j, u, set_phase_other phases k j ph far ∙ was)
    ]
