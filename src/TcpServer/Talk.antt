-- ===== src/TcpServer/Talk.antt =====
-- What the clients of Src/Network/TCPServer.cpp say in a room, and what it does to the socket of one of them.
use rtype_ci_cd.Common.{
  ℕ, ◌≡◌, ◌≢◌, refl, ap, subst, ◌∙◌, inl, inr, ◌⊎◌, Bool, none, some, List, [], ◌∷◌, ◌++◌, length,
  map, ◌==◌, if◌then◌else◌, arith,
}
use rtype_ci_cd.Common.Int.{ℤ, pos, eq_ℤ}
use rtype_ci_cd.Common.Strings.{Text}
use rtype_ci_cd.Protocol.Tcp.MessageType
use rtype_ci_cd.Protocol.Tcp.Messages.{TcpMessage, list_rooms_response, chat_message}
use rtype_ci_cd.TcpServer.Handler.{TcpHandler}
use rtype_ci_cd.TcpServer.{
  TcpServer, Phase, connecting, in_lobby, in_room, finished, Action, write, close, ConnectRead,
  Input, received, failed, stopped, full_message, room_infos, writes,
}
use rtype_ci_cd.TcpServer.Threads.{
  handshake, leave_lobby, join_message, lobby_message, lobby_round, leave_both, chat_text,
  room_actions, room_round, lobby_state,
}
use rtype_ci_cd.TcpServer.System.{
  System, Event, accepts, connects, rounds, starts, stops, kicks, connect_actions, round_actions,
  actions_of,
}
use rtype_ci_cd.TcpServer.Tables.{Entered}
use rtype_ci_cd.TcpServer.Order.{IsOrdered}
use rtype_ci_cd.TcpServer.Agreement.{Agrees}
use rtype_ci_cd.TcpServer.Delivery.{to_socket, is_in, chat_loop-to_socket}

abbrev IsChat : Input → Type 0
IsChat (received type r text) = type ≡ MessageType.chat_message
IsChat failed = ⊥
IsChat stopped = ⊥

-- Nobody stops the server or kicks a player, and of the client of the socket `j` nothing but chat arrives.
abbrev pub IsTalk : ℕ → Event → Type 0
IsTalk j (accepts k) = Unit
IsTalk j (connects k req fails time) = Unit
IsTalk j (rounds k i) = (k ≢ j) ⊎ IsChat i
IsTalk j starts = Unit
IsTalk j stops = ⊥
IsTalk j (kicks player) = ⊥

abbrev pub AllTalk : ℕ → List Event → Type 0
AllTalk j [] = Unit
AllTalk j (e ∷ es) = IsTalk j e × AllTalk j es

-- What the user says.
abbrev texts_of : List ℕ → Input → List Text
texts_of u (received type r none) = []
texts_of u (received type r (some msg)) =
    if type == MessageType.chat_message then (u ++ 58 ∷ 32 ∷ msg) ∷ [] else []
texts_of u failed = []
texts_of u stopped = []

-- What the thread with the phase says in the room.
abbrev said_in : ℤ → Phase → Input → List Text
said_in room connecting i = []
said_in room (in_lobby p u) i = []
said_in room (in_room p u r) i = if eq_ℤ room r then texts_of u i else []
said_in room finished i = []

module _ {H : Type 0} where
  -- What others than the client of the socket `j` say in the room in the course of an event.
  abbrev pub said : ℤ → ℕ → Event → System H → List Text
  said room j (accepts k) st = []
  said room j (connects k req fails time) st = []
  said room j (rounds k i) st = if j == k then [] else said_in room (st.phases k) i
  said room j starts st = []
  said room j stops st = []
  said room j (kicks player) st = []

abbrev pub tell : ℕ → Text → Action
tell j text = write j (chat_message text)

pub to_socket-append :
    (j : ℕ) (xs ys : List Action) → to_socket j (xs ++ ys) ≡ to_socket j xs ++ to_socket j ys
to_socket-append j [] ys = refl
to_socket-append j (write k message ∷ xs) ys = ground (arith, to_socket-append j xs ys)
to_socket-append j (close k ∷ xs) ys = ground (arith, to_socket-append j xs ys)

to_socket-writes : (j k : ℕ) (ms : List TcpMessage) → k ≢ j → to_socket j (writes k ms) ≡ []
to_socket-writes j k [] far = refl
to_socket-writes j k (message ∷ ms) far = ground (arith, far, to_socket-writes j k ms far)

module _ {H : Type 0} (handler : TcpHandler H) (j : ℕ) where
  handshake-apart :
      (k : ℕ) (req : ConnectRead) (fails : Bool) (time : ℕ) (s : TcpServer) (h : H)
      → k ≢ j
      → to_socket j (handshake handler k req fails time s h).actions ≡ []
  unfolding handshake
  handshake-apart k req fails time s h far = ground (arith, far)

  lobby_round-apart :
      (k p : ℕ) (u : List ℕ) (i : Input) (s : TcpServer) (h : H)
      → k ≢ j
      → to_socket j (lobby_round handler k p u i s h).actions ≡ []
  unfolding lobby_round lobby_message join_message leave_lobby
  lobby_round-apart k p u (received type r text) s h far =
      let rooms = handler.on_get_rooms h in
      let list = list_rooms_response (pos (length rooms)) ∷ room_infos rooms in
      ground (arith, far, to_socket-writes j k list far)
  lobby_round-apart k p u failed s h far = ground (arith, far)
  lobby_round-apart k p u stopped s h far = ground (arith, far)

  module _ (n : ℕ) (st : System H) (v : Agrees n st) (up : IsOrdered st.server) (q : ℕ) (w : List ℕ)
      (room : ℤ) (here : st.phases j ≡ in_room q w room) where
    -- A text of the thread of the socket `k`, as it reaches the socket `j`.
    chat_text-told :
        (k p : ℕ) (u : List ℕ) (r : ℤ) (msg : List ℕ)
        → st.phases k ≡ in_room p u r
        → to_socket j (chat_text handler p r (some msg) st.server)
          ≡ (if j == k then [] else if eq_ℤ room r then tell j (u ++ 58 ∷ 32 ∷ msg) ∷ [] else [])
    unfolding chat_text full_message
    chat_text-told k p u r msg at =
        let name = (subst (Entered st.server k) at (v.entered k)).1 in
        let heard =
          chat_loop-to_socket n st.server st.phases v k p u r (chat_message (u ++ 58 ∷ 32 ∷ msg)) j
            up at in
        let inside = ap (is_in r) here in rw name (ground (arith, heard, inside))

    room_round-told :
        (k p : ℕ) (u : List ℕ) (r : ℤ) (i : Input)
        → st.phases k ≡ in_room p u r
        → IsTalk j (rounds k i)
        → to_socket j (room_round handler k p u r i st.server st.handler).actions
          ≡ map (tell j) (if j == k then [] else said_in room (in_room p u r) i)
    unfolding room_round room_actions leave_both leave_lobby
    room_round-told k p u r (received type x none) at (inl far) =
        unfold chat_text in
        ground (arith, far, to_socket-writes j k (lobby_state handler r st.handler) far)
    room_round-told k p u r (received type x none) at (inr chat) =
        unfold chat_text in ground (arith, chat)
    room_round-told k p u r (received type x (some msg)) at (inl far) = ground (
      arith,
      far,
      to_socket-writes j k (lobby_state handler r st.handler) far,
      chat_text-told k p u r msg at,
    )
    room_round-told k p u r (received type x (some msg)) at (inr chat) =
        ground (arith, chat, chat_text-told k p u r msg at)
    room_round-told k p u r failed at (inl far) = ground (arith, far)
    room_round-told k p u r stopped at (inl far) = ground (arith, far)
    room_round-told k p u r failed at (inr no_chat) = absurd no_chat
    room_round-told k p u r stopped at (inr no_chat) = absurd no_chat

    connect_actions-apart :
        (k : ℕ) (ph : Phase) (req : ConnectRead) (fails : Bool) (time : ℕ)
        → st.phases k ≡ ph
        → to_socket j (connect_actions handler k ph req fails time st) ≡ []
    unfolding connect_actions
    connect_actions-apart k connecting req fails time at =
        let far : k ≢ j = λ e.
          (let back = subst (λ i. st.phases i ≡ connecting) e at in ground (arith, back, here)) in
        handshake-apart k req fails time st.server st.handler far
    connect_actions-apart k (in_lobby p u) req fails time at = refl
    connect_actions-apart k (in_room p u r) req fails time at = refl
    connect_actions-apart k finished req fails time at = refl

    round_actions-told :
        (k : ℕ) (ph : Phase) (i : Input)
        → st.phases k ≡ ph
        → IsTalk j (rounds k i)
        → to_socket j (round_actions handler k ph i st)
          ≡ map (tell j) (if j == k then [] else said_in room ph i)
    unfolding round_actions
    round_actions-told k connecting i at talk = ground arith
    round_actions-told k (in_lobby p u) i at talk =
        let far : k ≢ j = λ e.
          (let back = subst (λ x. st.phases x ≡ in_lobby p u) e at in ground (arith, back, here)) in
        lobby_round-apart k p u i st.server st.handler far ∙ ground arith
    round_actions-told k (in_room p u r) i at talk = room_round-told k p u r i at talk
    round_actions-told k finished i at talk = ground arith

    pub actions_of-told :
        (e : Event)
        → IsTalk j e
        → to_socket j (actions_of handler e st) ≡ map (tell j) (said room j e st)
    unfolding actions_of
    actions_of-told (accepts k) talk = refl
    actions_of-told (connects k req fails time) talk =
        connect_actions-apart k (st.phases k) req fails time refl
    actions_of-told (rounds k i) talk = round_actions-told k (st.phases k) i refl talk
    actions_of-told starts talk = refl
    actions_of-told stops talk = absurd talk
    actions_of-told (kicks player) talk = absurd talk
