-- ===== src/TcpClient/Tests.antt =====
-- Runs of Src/Network/TCPClient.cpp over a stream whose bytes have all arrived.
use rtype_ci_cd.Common.{some, ℕ, ◌≡◌, refl, Bool, true, false, List, [], ◌∷◌, ◌++◌, inl, arith}
use rtype_ci_cd.Common.Int.{ℤ, pos}
use rtype_ci_cd.Common.Strings.{Text}
use rtype_ci_cd.Protocol.Udp.Messages.{bits_of_int}
use rtype_ci_cd.Protocol.Tcp.Messages.{create_room}
use rtype_ci_cd.TcpClient.Samples.{stream, stream-Delivers}
use rtype_ci_cd.TcpClient.Requests.{sent_request, answered, no_request}
use rtype_ci_cd.TcpClient.Chat.{chat_rounds, receive_chat_messages}
use rtype_ci_cd.TcpClient.Framing.{
  packets, receive_chat_messages-packets, receive_chat_messages-rounds,
}
use rtype_ci_cd.TcpClient.Connection.{
  Port, no_error, new_connection, close_if_open, make_non_blocking, connect_to_server,
  tcp_disconnect, judge, probe, check_connection,
}
use rtype_ci_cd.TcpClient.Answers.{strays, call, call_answer}

-- Two messages, one of them empty, and two bytes of a third.
abbrev texts : List Text
texts = (b'h' ∷ b'i' ∷ []) ∷ [] ∷ []

abbrev arrived : List ℕ
arrived = packets texts ++ (14 ∷ 5 ∷ [])

receive_chat_messages-packets_example :
    (last : List ℕ) × (receive_chat_messages stream arrived ≡ some (texts, last))
    × (last ≡ 14 ∷ 5 ∷ [])
receive_chat_messages-packets_example =
    receive_chat_messages-packets stream (λ s. s) stream-Delivers texts (14 ∷ 5 ∷ []) arrived
      (omega arith, (omega arith, tt)) (inl (omega arith)) refl

receive_chat_messages-rounds_example :
    (r : List Text × List ℕ) × (receive_chat_messages stream (14 ∷ 1 ∷ 0 ∷ 65 ∷ 9 ∷ 9 ∷ 9 ∷ [])
      ≡ some r)
    × (chat_rounds stream 100 (14 ∷ 1 ∷ 0 ∷ 65 ∷ 9 ∷ 9 ∷ 9 ∷ []) ≡ some r)
receive_chat_messages-rounds_example =
    receive_chat_messages-rounds stream (λ s. s) stream-Delivers 100
      (14 ∷ 1 ∷ 0 ∷ 65 ∷ 9 ∷ 9 ∷ 9 ∷ []) (omega arith)

-- A list of one room, and then the new room's id.
abbrev lists : List (List (ℤ × ℤ × ℤ))
lists = ((pos 2, pos 1, pos 4) ∷ []) ∷ []

call_answer_example :
    (s' : List ℕ) × (call stream 2 create_room 7
        (record { state = sent_request; pending_resp_type = 0 })
        (strays lists ++ (7 ∷ 3 ∷ 0 ∷ 0 ∷ 0 ∷ 14 ∷ []))
      ≡ (answered (pos 3), no_request, s'))
    × (s' ≡ 14 ∷ [])
call_answer_example =
    call_answer stream (λ s. s) stream-Delivers create_room 7 lists (pos 3) (14 ∷ []) 0
      (strays lists ++ (7 ∷ 3 ∷ 0 ∷ 0 ∷ 0 ∷ 14 ∷ [])) (omega arith) (omega arith, tt)
      (omega arith, omega arith) (unfold bits_of_int in refl)

-- Whether the socket is open, and whether it is non-blocking.
abbrev port : Port (Bool × Bool)
port = record {
  is_open = λ s. s.0;
  connect = λ ip n s. (true, (true, false));
  set_non_blocking = λ b s. (true, (s.0, b));
  read_none = λ s. (no_error, s);
  close = λ s. (false, s.1);
}

-- A client that connects does not block; once its connection is checked it does.
check_connection_test :
    let c = (connect_to_server port (new_connection [] 4242 (false, false))).1 in
    let checked = check_connection port c in
    (c.socket ≡ (true, true))
    × (checked.0 ≡ true)
    × (checked.1.socket ≡ (true, false))
    × (checked.1.socket_non_blocking_set ≡ true)
    × ((tcp_disconnect port c).socket ≡ (false, true))
unfolding new_connection connect_to_server make_non_blocking tcp_disconnect close_if_open judge
    probe check_connection
check_connection_test = (refl, refl, refl, refl, refl)
