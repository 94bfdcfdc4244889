-- ===== src/RTypeClient.antt =====
-- Src/Client/RTypeClient.cpp, Include/Client/RTypeClient.hpp and Include/Client/GameState.hpp: the match as
-- one player sees it. What raylib reads from the keyboard, and the clock, is the environment; what the
-- client sends and the explosions that it shows are results.
pub mod Types
pub mod Keys
pub mod Loss
pub mod Packets
pub mod Frame
pub mod Show
pub mod Handled
pub mod Prediction
pub mod Served
pub mod Events
pub mod Window
pub mod Status
pub mod Session
pub mod Runs
pub mod Wire
pub mod Mirror
pub mod Resync
pub mod Replica
pub mod Match
mod Tests
