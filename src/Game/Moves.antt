-- ===== src/Game/Moves.antt =====
-- Runs of a match of Src/Server/Game.cpp.
use rtype_ci_cd.Common.{ℕ, List, [], ◌∷◌}
use rtype_ci_cd.Common.Machine.{Machine}
use rtype_ci_cd.Network.{Datagram}
use rtype_ci_cd.Protocol.Udp.Messages.{PlayerInputPacket}
use rtype_ci_cd.Game.Types.{Game}
use rtype_ci_cd.Game.Players.{add_player}
use rtype_ci_cd.Game.Shots.{handle_player_input}
use rtype_ci_cd.Game.Update.{Frame, ◌and_then◌, update}

-- What the server calls of a match while it is being played: a frame, the input of a player, or a player
-- that joins.
pub data Move : Type 0 where
  frame : Frame → Move
  input : PlayerInputPacket → Move
  join : ℕ → List ℕ → Move

abbrev pub perform : Machine → Move → Game → Game × List Datagram
perform m (frame fr) g = update m fr g
perform m (input pkt) g = handle_player_input m g pkt
perform m (join id name) g = (add_player g id name, [])

abbrev pub run : Machine → List Move → Game → Game × List Datagram
run m [] g = (g, [])
run m (mv ∷ mvs) g = perform m mv g and_then run m mvs
