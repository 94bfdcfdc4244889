-- ===== src/Protocol/Tcp/Tests.antt =====
-- Packets of Include/Network/Protocole/ProtocoleTCP.hpp, written and read.
use rtype_ci_cd.Common.{◌≡◌, refl, [], ◌∷◌, ◌++◌, length, arith}
use rtype_ci_cd.Protocol.Tcp.Messages.{
  TcpMessage, lobby_player_info, chat_message, bytes_of, size_of,
}
use rtype_ci_cd.Protocol.Tcp.Roundtrip.{ReadsBack, tcp_bytes_of-ReadsBack}

-- Player 3, "bob".
abbrev bob : TcpMessage
bob = lobby_player_info 3 (98 ∷ 111 ∷ 98 ∷ [])

bytes_of_test : bytes_of (chat_message (104 ∷ 105 ∷ [])) ≡ 14 ∷ 2 ∷ 0 ∷ 104 ∷ 105 ∷ []
unfolding bytes_of
bytes_of_test = refl

tcp_bytes_of-ReadsBack_example :
    (length (bytes_of bob) ≡ size_of bob) × ReadsBack bob (bytes_of bob ++ 7 ∷ [])
tcp_bytes_of-ReadsBack_example = tcp_bytes_of-ReadsBack bob (7 ∷ []) (
  omega arith,
  (λ e. ground (arith, e), (λ e. ground (arith, e), (λ e. ground (arith, e), tt))),
  omega arith,
)
