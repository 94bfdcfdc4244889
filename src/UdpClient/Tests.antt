-- ===== src/UdpClient/Tests.antt =====
-- A run of Src/Network/UDPClient.cpp over a socket that keeps what is sent.
use rtype_ci_cd.Common.{ℕ, ◌≡◌, refl, Bool, true, false, Option, none, some, List, [], ◌∷◌}
use rtype_ci_cd.Network.{SockAddr}
use rtype_ci_cd.Protocol.Udp.Messages.{ping, bytes_of}
use rtype_ci_cd.UdpClient.{UdpSocket, UdpClient, new_udp_client, send_message, destroy_udp_client}

-- Whether the socket is open, and the datagrams, the last one first.
abbrev State : Type 0
State = Bool × List (List ℕ × SockAddr)

abbrev socket : UdpSocket State
socket = record {
  open_v4 = λ s. some (true, s.1);
  set_non_blocking = λ b s. some s;
  send_to = λ bytes addr s. (true, (s.0, (bytes, addr) ∷ s.1));
  is_open = λ s. s.0;
  close = λ s. (false, s.1);
}

abbrev server : SockAddr
server = record { ip = 2130706433; port = 5252 }

abbrev sent : Option (UdpClient State) → Option State
sent none = none
sent (some c) =
    some
      (destroy_udp_client socket
        (send_message socket (ping (record { timestamp = 258 })) c).1).socket

-- A ping of the time 258 goes to the server, and the socket is closed.
send_message_test :
    sent (new_udp_client socket (some server) (false, []))
    ≡ some (false, (6 ∷ 2 ∷ 1 ∷ 0 ∷ 0 ∷ [], server) ∷ [])
unfolding new_udp_client send_message destroy_udp_client bytes_of
send_message_test = refl

unresolved_test : sent (new_udp_client socket none (false, [])) ≡ none
unfolding new_udp_client
unresolved_test = refl
