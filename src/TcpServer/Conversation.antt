-- ===== src/TcpServer/Conversation.antt =====
-- A conversation in a room: from `TCPServer::handleInRoomClient` of Src/Network/TCPServer.cpp to
-- `TCPClient::receiveChatMessages` of Src/Network/TCPClient.cpp.
use rtype_ci_cd.Common.{
  some, ℕ, ◌+◌, ◌<◌, ◌≡◌, ◌≢◌, refl, sym, ap, ap₂, subst, ◌∙◌, inl, inr, Bool, List, [], ◌∷◌, ◌++◌,
  length, map, ◌==◌, Bool-cases, arith, u32,
}
use mathlib.Core.List.{append-nil, map-append}
use rtype_ci_cd.Common.Int.{ℤ}
use rtype_ci_cd.Common.Strings.{Text}
use rtype_ci_cd.Protocol.Tcp.Messages.{bytes_of, chat_message}
use rtype_ci_cd.TcpServer.Handler.{TcpHandler}
use rtype_ci_cd.TcpServer.{
  Phase, connecting, in_lobby, in_room, finished, Action, write, close, ConnectRead, Input,
  received, failed, stopped, new_server,
}
use rtype_ci_cd.TcpServer.Threads.{room_round}
use rtype_ci_cd.TcpServer.System.{
  System, Event, accepts, connects, rounds, starts, stops, kicks, initial, perform, run, set_phase,
  settle, accept_at, connect_at, round_at, actions_of, log,
}
use rtype_ci_cd.TcpServer.Tables.{ne_of_eqb, eq_of_eqb, set_phase_other}
use rtype_ci_cd.TcpServer.Order.{IsOrdered, perform-IsOrdered, run-IsOrdered}
use rtype_ci_cd.TcpServer.Agreement.{Agrees, perform-Agrees, run-initial-Agrees}
use rtype_ci_cd.TcpServer.Delivery.{to_socket}
use rtype_ci_cd.TcpClient.Socket.{Socket, Delivers}
use rtype_ci_cd.TcpClient.Chat.{receive_chat_messages}
use rtype_ci_cd.TcpClient.Framing.{packets, Short, receive_chat_messages-packets}
use rtype_ci_cd.TcpServer.Talk.{IsTalk, AllTalk, said, tell, to_socket-append, actions_of-told}

-- The bytes that are written.
abbrev pub stream_of : List Action → List ℕ
stream_of [] = []
stream_of (write k message ∷ acts) = bytes_of message ++ stream_of acts
stream_of (close k ∷ acts) = stream_of acts

module _ {H : Type 0} (j q : ℕ) (w : List ℕ) (room : ℤ) (st : System H)
    (here : st.phases j ≡ in_room q w room) where
  -- Another thread goes on.
  settle-stays : (k : ℕ) (ph : Phase) → k ≢ j → set_phase st.phases k ph j ≡ in_room q w room
  settle-stays k ph far = set_phase_other st.phases k j ph (λ e. far (sym e)) ∙ here

  -- A thread that is not in the room is another.
  apart : (k : ℕ) (ph : Phase) → st.phases k ≡ ph → (ph ≢ in_room q w room) → k ≢ j
  apart k ph at out e = out (sym at ∙ ap st.phases e ∙ here)

  accept_at-stays :
      (k : ℕ) (ph : Phase) → st.phases k ≡ ph → (accept_at k ph st).phases j ≡ in_room q w room
  unfolding accept_at
  accept_at-stays k connecting at = here
  accept_at-stays k (in_lobby p u) at = here
  accept_at-stays k (in_room p u r) at = here
  accept_at-stays k finished at =
      settle-stays k connecting (apart k finished at (λ e. ground (arith, e)))

  module _ (handler : TcpHandler H) where
    connect_at-stays :
        (k : ℕ) (ph : Phase) (req : ConnectRead) (fails : Bool) (time : ℕ)
        → st.phases k ≡ ph
        → (connect_at handler k ph req fails time st).phases j ≡ in_room q w room
    unfolding connect_at settle
    connect_at-stays k connecting req fails time at =
        settle-stays k _ (apart k connecting at (λ e. ground (arith, e)))
    connect_at-stays k (in_lobby p u) req fails time at = here
    connect_at-stays k (in_room p u r) req fails time at = here
    connect_at-stays k finished req fails time at = here

    round_at-stays :
        (k : ℕ) (ph : Phase) (i : Input)
        → st.phases k ≡ ph
        → IsTalk j (rounds k i)
        → (round_at handler k ph i st).phases j ≡ in_room q w room
    unfolding round_at settle
    round_at-stays k connecting i at talk = here
    round_at-stays k (in_lobby p u) i at talk =
        settle-stays k _ (apart k (in_lobby p u) at (λ e. ground (arith, e)))
    round_at-stays k (in_room p u r) i at (inl far) = settle-stays k _ far
    round_at-stays k (in_room p u r) (received type x text) at (inr chat) =
        elim (Bool-cases (j == k)) [
          | inl e ↦
              unfold room_round set_phase in
              (let back = subst (λ i. st.phases i ≡ in_room p u r) (sym (eq_of_eqb j k e)) at in
                rw e (sym back ∙ here))
          | inr ne ↦ settle-stays k _ (λ same. ne_of_eqb j k ne (sym same))
        ]
    round_at-stays k (in_room p u r) failed at (inr no_chat) = absurd no_chat
    round_at-stays k (in_room p u r) stopped at (inr no_chat) = absurd no_chat
    round_at-stays k finished i at talk = here

    perform-stays : (e : Event) → IsTalk j e → (perform handler e st).phases j ≡ in_room q w room
    unfolding perform
    perform-stays (accepts k) talk = accept_at-stays k (st.phases k) refl
    perform-stays (connects k req fails time) talk =
        connect_at-stays k (st.phases k) req fails time refl
    perform-stays (rounds k i) talk = round_at-stays k (st.phases k) i refl talk
    perform-stays starts talk = here
    perform-stays stops talk = absurd talk
    perform-stays (kicks player) talk = absurd talk

stream_of-tell : (j : ℕ) (texts : List Text) → stream_of (map (tell j) texts) ≡ packets texts
stream_of-tell j [] = refl
stream_of-tell j (text ∷ texts) =
    ap (λ l. bytes_of (chat_message text) ++ l) (stream_of-tell j texts)

module _ {H : Type 0} (handler : TcpHandler H) where
  -- What others than the client of the socket `j` say in the room in the course of the events.
  abbrev pub conversation : ℤ → ℕ → List Event → System H → List Text
  conversation room j [] st = []
  conversation room j (e ∷ es) st =
      said room j e st ++ conversation room j es (perform handler e st)

  log-told :
      (j q : ℕ) (w : List ℕ) (room : ℤ) (es : List Event) (n : ℕ) (st : System H)
      → n + length es < u32
      → Agrees n st
      → IsOrdered st.server
      → st.phases j ≡ in_room q w room
      → AllTalk j es
      → to_socket j (log handler es st) ≡ map (tell j) (conversation room j es st)
  unfolding log
  log-told j q w room [] n st small v up here talk = refl
  log-told j q w room (e ∷ es) n st small v up here talk =
      let next = perform handler e st in
      to_socket-append j (actions_of handler e st) (log handler es next)
      ∙ ap₂ ◌++◌ (actions_of-told handler j n st v up q w room here e talk.0) (
          log-told j q w room es (n + 1) next (omega (arith, small))
            (perform-Agrees handler e n st (omega (arith, small)) v)
            (perform-IsOrdered handler e st up) (perform-stays j q w room st here handler e talk.0)
            talk.1)
      ∙ sym (map-append (tell j) (said room j e st) (conversation room j es next))

  -- After any steps of a new server, the client of the socket `j` is in a room. Then come any other steps, in
  -- which nobody stops the server or kicks a player, and the client of `j` sends nothing but chat: fewer than
  -- 2 ^ 32 - 1 steps in all. When the bytes that the server has written to `j` in the meantime have arrived,
  -- `receiveChatMessages` gives what the others said while they were in that room, each text behind the name
  -- of its speaker, all and in their order, if each is shorter than 2 ^ 16; and no byte is left.
  pub receive_chat_messages-conversation :
      {S : Type 0} (io : Socket S) (arrived : S → List ℕ) (law : Delivers io arrived) (s : S)
      (h : H) (before es : List Event) (j q : ℕ) (w : List ℕ) (room : ℤ)
      → 1 + length before + length es < u32
      → (run handler before (initial h)).phases j ≡ in_room q w room
      → AllTalk j es
      → Short (conversation room j es (run handler before (initial h)))
      → arrived s ≡ stream_of (to_socket j (log handler es (run handler before (initial h))))
      → let heard = conversation room j es (run handler before (initial h)) in
        (last : S) × (receive_chat_messages io s ≡ some (heard, last)) × (arrived last ≡ [])
  receive_chat_messages-conversation io arrived law s h before es j q w room small here talk short
        all =
      let st = run handler before (initial h) in
      let heard = conversation room j es st in
      let v = run-initial-Agrees handler h before (omega (arith, small)) in
      let up = run-IsOrdered handler before (initial h) (unfold initial new_server in tt) in
      let told = log-told j q w room es (1 + length before) st small v up here talk in
      receive_chat_messages-packets io arrived law heard [] s short (inl (omega arith))
        (all ∙ ap stream_of told ∙ stream_of-tell j heard ∙ sym (append-nil (packets heard)))
