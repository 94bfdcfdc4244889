-- ===== src/Network.antt =====
-- What travels between the parts of the server: addresses, the packets of Include/Network/Packet.hpp,
-- and the messages that the game hands to `UDPServer::queueMessage`.
use rtype_ci_cd.Common.{ℕ, List}
use rtype_ci_cd.Protocol.Udp.Messages.{UdpMessage}

-- What is used of `sockaddr_in`: the IPv4 address and the port.
pub record SockAddr : Type 0 where
  pub ip : ℕ
  pub port : ℕ

-- `Network::Packet`. Of the array `data` the model keeps the `length` bytes that were written: the
-- others are never read.
pub record Packet : Type 0 where
  pub bytes : List ℕ
  pub length : ℕ
  pub addr : SockAddr

-- One call `queueMessage(message, addr)`.
pub record Datagram : Type 0 where
  pub message : UdpMessage
  pub addr : SockAddr
