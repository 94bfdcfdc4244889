-- ===== src/Renderer.antt =====
-- Src/Client/Renderer.cpp and Include/Client/Renderer.hpp: what a frame's clicks and keys make of the menus,
-- and what is drawn of a match. The mouse, the keyboard and the window are raylib's.
pub mod Types
pub mod Menus
pub mod Parallax
pub mod Players
pub mod Entities
pub mod Scene
pub mod Overlay
pub mod KeyNames
pub mod Username
pub mod Bank
pub mod Bursts
pub mod Chat
pub mod Sprites
pub mod Labels
pub mod Background
mod Tests
