-- ===== src/TcpServer/Delivery.antt =====
-- Where the chat of `TCPServer::handleInRoomClient` of Src/Network/TCPServer.cpp goes.
use rtype_ci_cd.Common.{
  ℕ, suc, ◌+◌, ◌<◌, ◌≡◌, ◌≢◌, refl, ap, subst, inl, inr, ◌⊎◌, Bool, true, false, not, ◌&&◌, none,
  some, List, [], ◌∷◌, ◌++◌, length, ◌==◌, if◌then◌else◌, Bool-cases, Option-cases, arith, u32,
}
use rtype_ci_cd.Common.Int.{ℤ, eq_ℤ, eq_ℤ_iff}
use rtype_ci_cd.Common.Maps.{find, Ascending, Ascending-find, find-rest}
use rtype_ci_cd.Protocol.Tcp.MessageType
use rtype_ci_cd.Protocol.Tcp.Messages.{TcpMessage, chat_message}
use rtype_ci_cd.TcpServer.Handler.{TcpHandler}
use rtype_ci_cd.TcpServer.{
  TcpServer, new_server, Phase, connecting, in_lobby, in_room, finished, Action, write, close,
  received, in_same_room, chat_loop, full_message,
}
use rtype_ci_cd.TcpServer.Threads.{chat_text, room_actions, room_round}
use rtype_ci_cd.TcpServer.System.{Event, initial, run}
use rtype_ci_cd.TcpServer.Tables.{Entered, Agree, eq_of_eqb}
use rtype_ci_cd.TcpServer.Order.{IsOrdered, run-IsOrdered}
use rtype_ci_cd.TcpServer.Agreement.{run-initial-Agrees}

-- What is done to the socket `k`.
abbrev pub to_socket : ℕ → List Action → List Action
to_socket k [] = []
to_socket k (write j message ∷ acts) =
    let rest = to_socket k acts in if j == k then write j message ∷ rest else rest
to_socket k (close j ∷ acts) =
    let rest = to_socket k acts in if j == k then close j ∷ rest else rest

-- The thread is in the room.
abbrev pub is_in : ℤ → Phase → Bool
is_in room connecting = false
is_in room (in_lobby p u) = false
is_in room (in_room p u r) = eq_ℤ r room
is_in room finished = false

is_in-cases :
    (room : ℤ) (ph : Phase)
    → ((is_in room ph ≡ true) × ((p : ℕ) × (u : List ℕ) × (ph ≡ in_room p u room)))
      ⊎ ((is_in room ph ≡ false) × ((p : ℕ) (u : List ℕ) → ph ≢ in_room p u room))
is_in-cases room connecting = inr (refl, λ p u e. ground (arith, e))
is_in-cases room (in_lobby p u) = inr (refl, λ q v e. ground (arith, e))
is_in-cases room (in_room p u r) = elim (Bool-cases (eq_ℤ r room)) [
  | inl e ↦ inl (e, (p, u, ap (in_room p u) ((eq_ℤ_iff r room).0 e)))
  | inr ne ↦ inr (ne, λ q v e. ground (arith, ne, e, (eq_ℤ_iff r room).1))
]
is_in-cases room finished = inr (refl, λ p u e. ground (arith, e))

in_same_room_iff :
    (p q : ℕ) (room : ℤ) (rooms : List (ℕ × ℤ))
    → in_same_room p room rooms q ≡ true
    → (q ≢ p) × (find q rooms ≡ some room)
unfolding in_same_room
in_same_room_iff p q room rooms h = elim (Option-cases (find q rooms)) [
  | inl e ↦ ground (arith, h, e)
  | inr (r, e) ↦ (λ same. ground (arith, h, e, same), ground (arith, h, e, (eq_ℤ_iff r room).0))
]

in_same_room_of :
    (p q : ℕ) (room : ℤ) (rooms : List (ℕ × ℤ))
    → q ≢ p
    → find q rooms ≡ some room
    → in_same_room p room rooms q ≡ true
unfolding in_same_room
in_same_room_of p q room rooms ne h = ground (arith, ne, h, (eq_ℤ_iff room room).1 refl)

-- The loop over the sockets, `p` the sender.
module _ (p : ℕ) (room : ℤ) (rooms : List (ℕ × ℤ)) (message : TcpMessage) (k : ℕ) where
  -- No other player in the room has the socket.
  chat_loop-none :
      (lo : ℕ) (sockets : List (ℕ × ℕ))
      → Ascending lo sockets
      → ((q : ℕ) → find q sockets ≡ some k → in_same_room p room rooms q ≡ false)
      → to_socket k (chat_loop p room rooms message sockets) ≡ []
  unfolding chat_loop
  chat_loop-none lo [] up none_there = refl
  chat_loop-none lo ((q, s) ∷ sockets) up none_there =
      let rest =
        chat_loop-none (suc q) sockets up.1
          (λ i h. none_there i (find-rest lo q i k s sockets up h)) in
      let here : find q ((q, s) ∷ sockets) ≡ some s = unfold find in ground arith in
      ground (arith, rest, none_there q, here)

  -- One does.
  chat_loop-one :
      (lo q : ℕ) (sockets : List (ℕ × ℕ))
      → Ascending lo sockets
      → find q sockets ≡ some k
      → in_same_room p room rooms q ≡ true
      → ((i : ℕ) → find i sockets ≡ some k → in_same_room p room rooms i ≡ true → i ≡ q)
      → to_socket k (chat_loop p room rooms message sockets) ≡ write k message ∷ []
  unfolding chat_loop
  chat_loop-one lo q [] up at same only = unfold find in ground (arith, at)
  chat_loop-one lo q ((i, s) ∷ sockets) up at same only = elim (Bool-cases (i == q)) [
    | inl e ↦
        let here : i ≡ q = eq_of_eqb i q e in
        let mine : s ≡ k = unfold find in ground (arith, at, e) in
        let gone : find q sockets ≡ none =
          Ascending-find (suc i) q sockets (omega (arith, here)) up.1 in
        let rest = chat_loop-none (suc i) sockets up.1 (λ j h.
          elim (Bool-cases (in_same_room p room rooms j)) [
            | inl yes_in ↦
                let also : j ≡ q = only j (find-rest lo i j k s sockets up h) yes_in in
                ground (arith, also, h, gone)
            | inr out ↦ out
          ]) in
        ground (arith, rest, mine, here, same)
    | inr ne ↦
        let there : find q sockets ≡ some k = unfold find in ground (arith, at, ne) in
        let rest =
          chat_loop-one (suc i) q sockets up.1 there same
            (λ j h yes_in. only j (find-rest lo i j k s sockets up h) yes_in) in
        let here : find i ((i, s) ∷ sockets) ≡ some s = unfold find in ground arith in
        ground (arith, rest, ne, here, only i)
  ]

module _ (n : ℕ) (s : TcpServer) (phases : ℕ → Phase) (v : Agree n s phases) where
  -- A recipient's socket is that of a thread in the room.
  recipient :
      (p q j : ℕ) (room : ℤ)
      → find q s.player_sockets ≡ some j
      → in_same_room p room s.player_room_map q ≡ true
      → (u : List ℕ) × (phases j ≡ in_room q u room)
  recipient p q j room at same =
      let (i, u, was) = v.roomed q room (in_same_room_iff p q room s.player_room_map same).1 in
      let mine = (subst (Entered s i) was (v.entered i)).0 in
      let here : i ≡ j = ground (arith, at, mine) in
      (u, subst (λ x. phases x ≡ in_room q u room) here was)

  -- What the player `p`, whose thread is that of the socket `k`, says in its room.
  pub chat_loop-to_socket :
      (k p : ℕ) (u : List ℕ) (room : ℤ) (message : TcpMessage) (j : ℕ)
      → IsOrdered s
      → phases k ≡ in_room p u room
      → to_socket j (chat_loop p room s.player_room_map message s.player_sockets)
        ≡ (if not (j == k) && is_in room (phases j) then write j message ∷ [] else [])
  chat_loop-to_socket k p u room message j up at = elim (Bool-cases (j == k)) [
    | inl same ↦ rw same (
        nobody λ q w here.
          let back = subst (λ i. phases i ≡ in_room q w room) (eq_of_eqb j k same) here in
          ground (arith, at, back))
    | inr far ↦ rw far (elim (is_in-cases room (phases j)) [
      | inr (out, never) ↦ rw out (nobody λ q w here. absurd (never q w here))
      | inl (yes_in, (q, w, here)) ↦
          let e = subst (Entered s j) here (v.entered j) in
          let mine = (subst (Entered s k) at (v.entered k)).0 in
          let other : q ≢ p = λ x. ground (arith, x, e.0, mine, far) in
          rw yes_in (
            chat_loop-one p room s.player_room_map message j 0 q s.player_sockets up e.0
              (in_same_room_of p q room s.player_room_map other e.2)
              (λ i found same.
                let (w', there) = recipient p i j room found same in ground (arith, here, there)))
    ])
  ]
    where
      nobody :
          ((q : ℕ) (w : List ℕ) → phases j ≡ in_room q w room → q ≡ p)
          → to_socket j (chat_loop p room s.player_room_map message s.player_sockets) ≡ []
      nobody own =
          chat_loop-none p room s.player_room_map message j 0 s.player_sockets up (λ q found.
            elim (Bool-cases (in_same_room p room s.player_room_map q)) [
              | inl same ↦
                  let (w, here) = recipient p q j room found same in
                  absurd ((in_same_room_iff p q room s.player_room_map same).0 (own q w here))
              | inr out ↦ out
            ])

module _ {H : Type 0} (handler : TcpHandler H) where
  -- After any steps of a new server, fewer than 2 ^ 32 - 1: when the thread of the socket `k`, which is in a
  -- room as the user `u`, has read a chat message, then "`u`: " and the text are written once to the socket
  -- of every other thread that is in that room, and nothing is done to any other socket.
  pub run-room_round-chat :
      (h : H) (es : List Event) (k p : ℕ) (u : List ℕ) (room other : ℤ) (msg : List ℕ) (j : ℕ)
      → 1 + length es < u32
      → (run handler es (initial h)).phases k ≡ in_room p u room
      → let st = run handler es (initial h) in
        let said = chat_message (u ++ 58 ∷ 32 ∷ msg) in
        let input = received MessageType.chat_message other (some msg) in
        to_socket j (room_round handler k p u room input st.server st.handler).actions
        ≡ (if not (j == k) && is_in room (st.phases j) then write j said ∷ [] else [])
  unfolding room_round room_actions chat_text full_message
  run-room_round-chat h es k p u room other msg j small at =
      let st = run handler es (initial h) in
      let v = run-initial-Agrees handler h es small in
      let up = run-IsOrdered handler es (initial h) (unfold initial new_server in tt) in
      let name = (subst (Entered st.server k) at (v.entered k)).1 in
      rw name (
        chat_loop-to_socket (1 + length es) st.server st.phases v k p u room
          (chat_message (u ++ 58 ∷ 32 ∷ msg)) j up at)
