-- ===== src/ClientManager.antt =====
-- Src/Client/ClientManager.cpp and Include/Client/ClientManager.hpp: the screens of the client, from the
-- user name to the match.
pub mod Types
pub mod Rooms
pub mod Frames
pub mod Select
pub mod Rounds
pub mod Path
mod Tests
