-- ===== src/TcpServer/Order.antt =====
-- The order of the players in `_playerSockets` of Src/Network/TCPServer.cpp.
use rtype_ci_cd.Common.{ℕ, Bool, List, [], ◌∷◌, arith}
use rtype_ci_cd.Common.Maps.{Ascending, Ascending-insert, Ascending-erase}
use rtype_ci_cd.TcpServer.Handler.{TcpHandler}
use rtype_ci_cd.TcpServer.{
  TcpServer, Phase, connecting, in_lobby, in_room, finished, ConnectRead, Input, received, failed,
  stopped, leave_server, leave_room, register, start, stop,
}
use rtype_ci_cd.TcpServer.Threads.{
  handshake, leave_lobby, join_message, lobby_message, lobby_round, leave_both, room_round,
}
use rtype_ci_cd.TcpServer.System.{
  System, Event, accepts, connects, rounds, starts, stops, kicks, settle, accept_at, connect_at,
  round_at, perform, run,
}

-- The sockets stand in the order of their players.
abbrev pub IsOrdered : TcpServer → Type 0
IsOrdered s = Ascending 0 s.player_sockets

module _ {H : Type 0} (handler : TcpHandler H) where
  handshake-IsOrdered :
      (k : ℕ) (req : ConnectRead) (fails : Bool) (time : ℕ) (s : TcpServer) (h : H)
      → IsOrdered s
      → IsOrdered (handshake handler k req fails time s h).server
  unfolding handshake register
  handshake-IsOrdered k req fails time s h up =
      ground (arith, up, Ascending-insert 0 s.next_player_id k s.player_sockets (omega arith) up)

  round_at-IsOrdered :
      (k : ℕ) (ph : Phase) (i : Input) (st : System H)
      → IsOrdered st.server
      → IsOrdered (round_at handler k ph i st).server
  unfolding round_at settle lobby_round lobby_message join_message room_round leave_lobby leave_both
      leave_server leave_room
  round_at-IsOrdered k connecting i st up = up
  round_at-IsOrdered k (in_lobby p u) (received type r text) st up = ground (arith, up)
  round_at-IsOrdered k (in_lobby p u) failed st up = Ascending-erase 0 p st.server.player_sockets up
  round_at-IsOrdered k (in_lobby p u) stopped st up =
      Ascending-erase 0 p st.server.player_sockets up
  round_at-IsOrdered k (in_room p u r) (received type _ text) st up = up
  round_at-IsOrdered k (in_room p u r) failed st up =
      Ascending-erase 0 p st.server.player_sockets up
  round_at-IsOrdered k (in_room p u r) stopped st up =
      Ascending-erase 0 p st.server.player_sockets up
  round_at-IsOrdered k finished i st up = up

  accept_at-IsOrdered :
      (k : ℕ) (ph : Phase) (st : System H)
      → IsOrdered st.server
      → IsOrdered (accept_at k ph st).server
  unfolding accept_at
  accept_at-IsOrdered k connecting st up = up
  accept_at-IsOrdered k (in_lobby p u) st up = up
  accept_at-IsOrdered k (in_room p u r) st up = up
  accept_at-IsOrdered k finished st up = up

  connect_at-IsOrdered :
      (k : ℕ) (ph : Phase) (req : ConnectRead) (fails : Bool) (time : ℕ) (st : System H)
      → IsOrdered st.server
      → IsOrdered (connect_at handler k ph req fails time st).server
  unfolding connect_at settle
  connect_at-IsOrdered k connecting req fails time st up =
      handshake-IsOrdered k req fails time st.server st.handler up
  connect_at-IsOrdered k (in_lobby p u) req fails time st up = up
  connect_at-IsOrdered k (in_room p u r) req fails time st up = up
  connect_at-IsOrdered k finished req fails time st up = up

  pub perform-IsOrdered :
      (e : Event) (st : System H) → IsOrdered st.server → IsOrdered (perform handler e st).server
  unfolding perform start stop
  perform-IsOrdered (accepts k) st up = accept_at-IsOrdered k (st.phases k) st up
  perform-IsOrdered (connects k req fails time) st up =
      connect_at-IsOrdered k (st.phases k) req fails time st up
  perform-IsOrdered (rounds k i) st up = round_at-IsOrdered k (st.phases k) i st up
  perform-IsOrdered starts st up = ground (arith, up)
  perform-IsOrdered stops st up = ground (arith, up)
  perform-IsOrdered (kicks p) st up = up

  pub run-IsOrdered :
      (es : List Event) (st : System H) → IsOrdered st.server → IsOrdered (run handler es st).server
  unfolding run
  run-IsOrdered [] st up = up
  run-IsOrdered (e ∷ es) st up = run-IsOrdered es (perform handler e st) (perform-IsOrdered e st up)
