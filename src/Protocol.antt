-- ===== src/Protocol.antt =====
-- The packets of the two protocols, Include/Network/Protocole.
pub mod Udp
pub mod Tcp
