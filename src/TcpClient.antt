-- ===== src/TcpClient.antt =====
-- Src/Network/TCPClient.cpp and Include/Network/TCP/TCPClient.hpp: the lobby side of the client, over the
-- stream of asio.
pub mod Socket
pub mod Requests
pub mod Lobby
pub mod Chat
pub mod Framing
pub mod Answers
pub mod Samples
pub mod Connection
mod Tests
