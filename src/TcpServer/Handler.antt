-- ===== src/TcpServer/Handler.antt =====
-- The interface `ITCPHandler` of Include/Network/ITCPHandler.hpp, over the state `H` behind it.
use rtype_ci_cd.Common.{ℕ, Bool, Option, List}
use rtype_ci_cd.Common.Int.{ℤ}

pub record TcpHandler (H : Type 0) : Type 0 where
  pub on_create_room : H → H × ℤ
  pub on_join_room : ℤ → ℕ → List ℕ → H → H × Bool
  -- What is written to `hostId` and appended to `players`, if anything is.
  pub on_get_lobby_state : ℤ → H → Option (ℕ × List (ℕ × List ℕ))
  pub on_start_game : ℤ → ℕ → H → H
  pub on_player_disconnect : ℕ → ℤ → H → H
  pub on_get_rooms : H → List (ℤ × ℕ)
  pub is_game_starting : ℤ → H → Bool
