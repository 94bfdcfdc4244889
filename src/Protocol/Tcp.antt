-- ===== src/Protocol/Tcp.antt =====
-- Include/Network/Protocole/ProtocoleTCP.hpp: the packets of the lobby.
pub mod MessageType
pub mod Messages
pub mod Roundtrip
mod Tests
