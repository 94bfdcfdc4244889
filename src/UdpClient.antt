-- ===== src/UdpClient.antt =====
-- Src/Network/UDPClient.cpp and Include/Network/UDP/UDPClient.hpp: the socket of a match.
mod Tests
use rtype_ci_cd.Common.{ℕ, Bool, true, Option, none, some, List, if◌then◌else◌}
use rtype_ci_cd.Network.{SockAddr}
use rtype_ci_cd.Protocol.Udp.Messages.{UdpMessage, bytes_of}

-- What is used of the socket of asio. Nothing is an exception, and `false` an error code.
pub record UdpSocket (S : Type 0) : Type 0 where
  pub open_v4 : S → Option S
  pub set_non_blocking : Bool → S → Option S
  pub send_to : List ℕ → SockAddr → S → Bool × S
  pub is_open : S → Bool
  pub close : S → S

pub record UdpClient (S : Type 0) : Type 0 where
  pub socket : S
  pub server_endpoint : SockAddr

module _ {S : Type 0} (io : UdpSocket S) where
  -- The constructor, with the first address that the resolver gives.
  unfoldable pub new_udp_client : Option SockAddr → S → Option (UdpClient S)
  new_udp_client none closed = none
  new_udp_client (some endpoint) closed = elim (io.open_v4 closed) [
    | none ↦ none
    | some opened ↦ elim (io.set_non_blocking true opened) [
      | none ↦ none
      | some ready ↦ some (record { socket = ready; server_endpoint = endpoint })
    ]
  ]

  -- The bytes of the packet go to the server, and whether they went.
  unfoldable pub send_message : UdpMessage → UdpClient S → Bool × UdpClient S
  send_message packet c =
      let (ok, s) = io.send_to (bytes_of packet) c.server_endpoint c.socket in
      (ok, record c { socket = s })

  -- `~UDPClient`.
  unfoldable pub destroy_udp_client : UdpClient S → UdpClient S
  destroy_udp_client c = record c {
    socket = if io.is_open c.socket then io.close c.socket else c.socket;
  }
