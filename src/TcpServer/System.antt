-- ===== src/TcpServer/System.antt =====
-- The threads of Src/Network/TCPServer.cpp together: any thread can take the next round.
use rtype_ci_cd.Common.{ℕ, Bool, List, [], ◌∷◌, ◌++◌, ◌==◌, if◌then◌else◌}
use rtype_ci_cd.TcpServer.Handler.{TcpHandler}
use rtype_ci_cd.TcpServer.{
  TcpServer, new_server, Phase, connecting, in_lobby, in_room, finished, Outcome, ConnectRead,
  Input, Action, start, stop, kick_player,
}
use rtype_ci_cd.TcpServer.Threads.{handshake, lobby_round, room_round}

-- The server, the state behind its handler, and the thread of each socket.
pub record System (H : Type 0) : Type 0 where
  pub server : TcpServer
  pub handler : H
  pub phases : ℕ → Phase

-- What can happen next: `acceptLoop` starts a thread, a thread does its handshake or a round, or another
-- part of the program calls `start`, `stop` or `kickPlayer`.
pub data Event : Type 0 where
  accepts : ℕ → Event
  connects : ℕ → ConnectRead → Bool → ℕ → Event
  rounds : ℕ → Input → Event
  starts stops : Event
  kicks : ℕ → Event

unfoldable pub set_phase : (ℕ → Phase) → ℕ → Phase → ℕ → Phase
set_phase phases k ph j = if j == k then ph else phases j

module _ {H : Type 0} where
  unfoldable pub initial : H → System H
  initial h = record { server = new_server; handler = h; phases = λ _. finished }

  unfoldable pub settle : System H → ℕ → Outcome H → System H
  settle st k out = record {
    server = out.server;
    handler = out.handler;
    phases = set_phase st.phases k out.phase;
  }

  unfoldable pub accept_at : ℕ → Phase → System H → System H
  accept_at k connecting st = st
  accept_at k (in_lobby p u) st = st
  accept_at k (in_room p u r) st = st
  accept_at k finished st = record st { phases = set_phase st.phases k connecting }

module _ {H : Type 0} (handler : TcpHandler H) where
  unfoldable pub connect_at : ℕ → Phase → ConnectRead → Bool → ℕ → System H → System H
  connect_at k connecting req fails time st =
      settle st k (handshake handler k req fails time st.server st.handler)
  connect_at k (in_lobby p u) req fails time st = st
  connect_at k (in_room p u r) req fails time st = st
  connect_at k finished req fails time st = st

  unfoldable pub round_at : ℕ → Phase → Input → System H → System H
  round_at k connecting i st = st
  round_at k (in_lobby p u) i st = settle st k (lobby_round handler k p u i st.server st.handler)
  round_at k (in_room p u r) i st = settle st k (room_round handler k p u r i st.server st.handler)
  round_at k finished i st = st

  unfoldable pub perform : Event → System H → System H
  perform (accepts k) st = accept_at k (st.phases k) st
  perform (connects k req fails time) st = connect_at k (st.phases k) req fails time st
  perform (rounds k i) st = round_at k (st.phases k) i st
  perform starts st = record st { server = start st.server }
  perform stops st = record st { server = (stop st.server).0 }
  perform (kicks player) st = st

  unfoldable pub run : List Event → System H → System H
  run [] st = st
  run (e ∷ es) st = run es (perform e st)

  -- What an event does to the sockets.
  unfoldable pub connect_actions : ℕ → Phase → ConnectRead → Bool → ℕ → System H → List Action
  connect_actions k connecting req fails time st =
      (handshake handler k req fails time st.server st.handler).actions
  connect_actions k (in_lobby p u) req fails time st = []
  connect_actions k (in_room p u r) req fails time st = []
  connect_actions k finished req fails time st = []

  unfoldable pub round_actions : ℕ → Phase → Input → System H → List Action
  round_actions k connecting i st = []
  round_actions k (in_lobby p u) i st = (lobby_round handler k p u i st.server st.handler).actions
  round_actions k (in_room p u r) i st = (room_round handler k p u r i st.server st.handler).actions
  round_actions k finished i st = []

  unfoldable pub actions_of : Event → System H → List Action
  actions_of (accepts k) st = []
  actions_of (connects k req fails time) st = connect_actions k (st.phases k) req fails time st
  actions_of (rounds k i) st = round_actions k (st.phases k) i st
  actions_of starts st = []
  actions_of stops st = (stop st.server).1
  actions_of (kicks player) st = kick_player player st.server

  unfoldable pub log : List Event → System H → List Action
  log [] st = []
  log (e ∷ es) st = actions_of e st ++ log es (perform e st)
