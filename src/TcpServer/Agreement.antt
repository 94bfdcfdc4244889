-- ===== src/TcpServer/Agreement.antt =====
-- Every step of the threads of Src/Network/TCPServer.cpp keeps the agreement of the tables.
use rtype_ci_cd.Common.{
  ℕ, ◌+◌, ◌≤◌, ◌<◌, ◌≡◌, refl, sym, subst, ◌∙◌, inl, inr, Bool, true, false, List, [], ◌∷◌, length,
  ◌==◌, Bool-cases, arith, u32, until_nul,
}
use rtype_ci_cd.Common.Int.{ℤ}
use rtype_ci_cd.Common.Maps.{find}
use rtype_ci_cd.Protocol.Tcp.MessageType
use rtype_ci_cd.TcpServer.Handler.{TcpHandler}
use rtype_ci_cd.TcpServer.{
  TcpServer, new_server, Phase, connecting, in_lobby, in_room, finished, ConnectRead, Input,
  received, failed, stopped, start, stop,
}
use rtype_ci_cd.TcpServer.Threads.{
  handshake, leave_lobby, join_message, lobby_message, lobby_round, leave_both, room_round,
}
use rtype_ci_cd.TcpServer.System.{
  System, Event, accepts, connects, rounds, starts, stops, kicks, set_phase, initial, settle,
  accept_at, connect_at, round_at, perform, run,
}
use rtype_ci_cd.TcpServer.Tables.{Entered, Agree, Change-Agree}
use rtype_ci_cd.TcpServer.Changes.{
  stay-Agree, register-Change, join_room-Change, leave_lobby-Change, leave_both-Change,
}

-- The agreement in a system.
abbrev pub Agrees : {H : Type 0} → ℕ → System H → Type 0
Agrees n st = Agree n st.server st.phases

-- The bound on the ids can be raised, and the flag does not matter.
raise-Agree :
    (n n' : ℕ) (s : TcpServer) (b : Bool) (phases : ℕ → Phase)
    → n ≤ n'
    → Agree n s phases
    → Agree n' (record s { running = b }) phases
raise-Agree n n' s b phases le v = record {
  next = omega (arith, v.next);
  fresh = v.fresh;
  names = v.names;
  entered = λ k. flag_Entered k (phases k) (v.entered k);
  roomed = v.roomed;
}
  where
    flag_Entered : (k : ℕ) (ph : Phase) → Entered s k ph → Entered (record s { running = b }) k ph
    flag_Entered k connecting e = e
    flag_Entered k (in_lobby p u) e = e
    flag_Entered k (in_room p u r) e = e
    flag_Entered k finished e = e

module _ {H : Type 0} (handler : TcpHandler H) (n k : ℕ) (st : System H) (v : Agrees n st) where
  -- The thread goes on where it stands.
  same_place : (ph : Phase) → st.phases k ≡ ph → Agree n st.server (set_phase st.phases k ph)
  same_place ph e =
      stay-Agree n k st.server st.phases ph v (subst (Entered st.server k) e (v.entered k))
        (λ q u r at. sym e ∙ at)

  -- A thread that is in no table moves to a phase that is in none.
  outside :
      (old ph : Phase)
      → st.phases k ≡ old
      → ((q : ℕ) (u : List ℕ) (r : ℤ) → old ≡ in_room q u r → ⊥)
      → Entered st.server k ph
      → Agree n st.server (set_phase st.phases k ph)
  outside old ph e never enter =
      stay-Agree n k st.server st.phases ph v enter (λ q u r at. absurd (never q u r (sym e ∙ at)))

  accept_at-Agrees : (ph : Phase) → st.phases k ≡ ph → Agrees n (accept_at k ph st)
  unfolding accept_at
  accept_at-Agrees connecting e = v
  accept_at-Agrees (in_lobby p u) e = v
  accept_at-Agrees (in_room p u r) e = v
  accept_at-Agrees finished e = outside finished connecting e (λ q u r at. ground (arith, at)) tt

  handshake-Agrees :
      (req : ConnectRead) (fails : Bool) (time : ℕ)
      → n + 1 < u32
      → st.phases k ≡ connecting
      → Agrees (n + 1) (settle st k (handshake handler k req fails time st.server st.handler))
  unfolding settle handshake
  handshake-Agrees req fails time small e = elim (Bool-cases req.eof) [
    | inl eof ↦ rw eof away
    | inr more ↦ rw more (elim (Bool-cases (req.type == MessageType.connect)) [
      | inr odd ↦ rw odd away
      | inl right ↦ rw right (
          Change-Agree n (n + 1) _ k _ _ _ _ v
            (register-Change n k (until_nul req.username) fails st.server st.phases small e v))
    ])
  ]
    where
      away : Agree (n + 1) st.server (set_phase st.phases k finished)
      away =
          raise-Agree n (n + 1) st.server st.server.running (set_phase st.phases k finished)
            (omega arith) (outside connecting finished e (λ q u r at. ground (arith, at)) tt)

  join_message-Agrees :
      (p : ℕ) (u : List ℕ) (r : ℤ)
      → st.phases k ≡ in_lobby p u
      → Agrees n (settle st k (join_message handler k p u r st.server st.handler))
  unfolding settle join_message
  join_message-Agrees p u r e = elim (Bool-cases (handler.on_join_room r p u st.handler).1) [
    | inl let_in ↦
        rw let_in
          (Change-Agree n n p k _ _ _ _ v (join_room-Change n k p u r st.server st.phases e v))
    | inr turned_away ↦ rw turned_away (same_place (in_lobby p u) e)
  ]

  lobby_message-Agrees :
      (p : ℕ) (u : List ℕ) (type : ℕ) (r : ℤ)
      → st.phases k ≡ in_lobby p u
      → Agrees n (settle st k (lobby_message handler k p u type r st.server st.handler))
  unfolding settle lobby_message
  lobby_message-Agrees p u type r e = elim (Bool-cases (type == MessageType.list_rooms)) [
    | inl a ↦ rw a (same_place (in_lobby p u) e)
    | inr b ↦ rw b (elim (Bool-cases (type == MessageType.create_room)) [
      | inl a ↦ rw a (same_place (in_lobby p u) e)
      | inr c ↦ rw c (elim (Bool-cases (type == MessageType.join_room)) [
        | inl a ↦ rw a (join_message-Agrees p u r e)
        | inr d ↦ rw d (same_place (in_lobby p u) e)
      ])
    ])
  ]

  round_at-Agrees :
      (ph : Phase) (i : Input) → st.phases k ≡ ph → Agrees n (round_at handler k ph i st)
  unfolding round_at settle lobby_round room_round leave_lobby leave_both
  round_at-Agrees connecting i e = v
  round_at-Agrees (in_lobby p u) (received type r text) e = lobby_message-Agrees p u type r e
  round_at-Agrees (in_lobby p u) failed e =
      Change-Agree n n p k _ _ _ _ v (leave_lobby-Change n k p u st.server st.phases e v)
  round_at-Agrees (in_lobby p u) stopped e =
      Change-Agree n n p k _ _ _ _ v (leave_lobby-Change n k p u st.server st.phases e v)
  round_at-Agrees (in_room p u r) (received type _ text) e = same_place (in_room p u r) e
  round_at-Agrees (in_room p u r) failed e =
      Change-Agree n n p k _ _ _ _ v (leave_both-Change n k p u r st.server st.phases e v)
  round_at-Agrees (in_room p u r) stopped e =
      Change-Agree n n p k _ _ _ _ v (leave_both-Change n k p u r st.server st.phases e v)
  round_at-Agrees finished i e = v

raise : {H : Type 0} → (n : ℕ) (st : System H) → Agrees n st → Agrees (n + 1) st
raise n st v = raise-Agree n (n + 1) st.server st.server.running st.phases (omega arith) v

module _ {H : Type 0} (handler : TcpHandler H) where
  connect_at-Agrees :
      (n k : ℕ) (ph : Phase) (req : ConnectRead) (fails : Bool) (time : ℕ) (st : System H)
      → n + 1 < u32
      → st.phases k ≡ ph
      → Agrees n st
      → Agrees (n + 1) (connect_at handler k ph req fails time st)
  unfolding connect_at
  connect_at-Agrees n k connecting req fails time st small e v =
      handshake-Agrees handler n k st v req fails time small e
  connect_at-Agrees n k (in_lobby p u) req fails time st small e v = raise n st v
  connect_at-Agrees n k (in_room p u r) req fails time st small e v = raise n st v
  connect_at-Agrees n k finished req fails time st small e v = raise n st v

  pub perform-Agrees :
      (e : Event) (n : ℕ) (st : System H)
      → n + 1 < u32
      → Agrees n st
      → Agrees (n + 1) (perform handler e st)
  unfolding perform start stop
  perform-Agrees (accepts k) n st small v =
      raise n (accept_at k (st.phases k) st) (accept_at-Agrees handler n k st v (st.phases k) refl)
  perform-Agrees (connects k req fails time) n st small v =
      connect_at-Agrees n k (st.phases k) req fails time st small refl v
  perform-Agrees (rounds k i) n st small v =
      raise n (round_at handler k (st.phases k) i st)
        (round_at-Agrees handler n k st v (st.phases k) i refl)
  perform-Agrees starts n st small v = elim (Bool-cases st.server.running) [
    | inl on ↦ simp on (raise n st v)
    | inr off ↦ simp off (raise-Agree n (n + 1) st.server true st.phases (omega arith) v)
  ]
  perform-Agrees stops n st small v = elim (Bool-cases st.server.running) [
    | inl on ↦ simp on (raise-Agree n (n + 1) st.server false st.phases (omega arith) v)
    | inr off ↦ simp off (raise n st v)
  ]
  perform-Agrees (kicks p) n st small v = raise n st v

  run-Agrees :
      (es : List Event) (n : ℕ) (st : System H)
      → n + length es < u32
      → Agrees n st
      → Agrees (n + length es) (run handler es st)
  unfolding run
  run-Agrees [] n st small v =
      raise-Agree n (n + 0) st.server st.server.running st.phases (omega arith) v
  run-Agrees (e ∷ es) n st small v =
      subst (λ m. Agrees m (run handler es (perform handler e st)))
        (let sum : (n + 1) + length es ≡ n + length (e ∷ es) = omega arith in sum)
        (run-Agrees es (n + 1) (perform handler e st) (omega arith)
          (perform-Agrees e n st (omega arith) v))

  initial-Agrees : (h : H) → Agrees 1 (initial h)
  unfolding initial new_server find
  initial-Agrees h = record {
    next = omega arith;
    fresh = λ p le. refl;
    names = λ p. (λ _. refl, λ _. refl);
    entered = λ k. tt;
    roomed = λ p r at. absurd (ground (arith, at));
  }

  -- However the threads of the clients, `start`, `stop` and `kickPlayer` take turns, and whatever the
  -- handler does, in fewer than 2 ^ 32 - 1 steps of a new server: the sockets and the user names have the
  -- same players, ids from the next one on are free, every thread in the lobby or in a room stands in the
  -- tables with its socket, its user name and its room or none, and every player that stands in a room has
  -- a thread that is in that room.
  pub run-initial-Agrees :
      (h : H) (es : List Event)
      → 1 + length es < u32
      → Agrees (1 + length es) (run handler es (initial h))
  run-initial-Agrees h es small = run-Agrees es 1 (initial h) small (initial-Agrees h)
