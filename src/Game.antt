-- ===== src/Game.antt =====
-- Src/Server/Game.cpp and Include/Server/Game.hpp: one room's match. A method that sends takes no
-- `UDPServer`: it returns the calls of `queueMessage` that it makes, in order.
pub mod Types
pub mod Players
pub mod Shots
pub mod Statistics
pub mod Input
pub mod Steering
pub mod Entities
pub mod Collision
pub mod Boss
pub mod Update
pub mod Moves
pub mod Ranges
pub mod Samples
mod Tests
