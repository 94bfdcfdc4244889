-- ===== src/TcpServer/Tests.antt =====
-- A run of the server of Src/Network/TCPServer.cpp over the rooms of Src/Server/ServerManager.cpp.
use rtype_ci_cd.Common.{
  ℕ, ◌+◌, ◌≡◌, refl, sym, subst, inl, inr, true, false, none, some, List, [], ◌∷◌, ◌++◌, length,
  if◌then◌else◌, arith,
}
use rtype_ci_cd.Common.Int.{pos, eq_ℤ, ltb_ℤ}
use rtype_ci_cd.Common.Maps.{find, insert, erase}
use rtype_ci_cd.Protocol.Tcp.MessageType
use rtype_ci_cd.Protocol.Tcp.Messages.{chat_message}
use rtype_ci_cd.Game.Types.{new_game}
use rtype_ci_cd.Game.Players.{add_player, copy_username}
use rtype_ci_cd.ServerManager
use rtype_ci_cd.ServerManager.{ServerManager, new_manager}
use rtype_ci_cd.ServerManager.Lobby.{lobby_handler}
use rtype_ci_cd.TcpServer
use rtype_ci_cd.TcpServer.{in_room, ConnectRead, received, write}
use rtype_ci_cd.TcpServer.Handler.{TcpHandler}
use rtype_ci_cd.TcpServer.Threads
use rtype_ci_cd.TcpServer.System.{
  Event, accepts, connects, rounds, starts, set_phase, initial, settle, accept_at, connect_at,
  round_at, perform, run, log,
}
use rtype_ci_cd.TcpServer.Delivery.{to_socket, is_in, run-room_round-chat}
use rtype_ci_cd.TcpServer.Conversation.{stream_of, conversation, receive_chat_messages-conversation}
use rtype_ci_cd.TcpClient.Samples.{stream, stream-Delivers}
use rtype_ci_cd.TcpClient.Chat.{receive_chat_messages}
use rtype_ci_cd.TcpClient.Framing.{Short}
use rtype_ci_cd.TcpServer.Agreement.{Agrees, run-initial-Agrees}

abbrev rooms : TcpHandler ServerManager
rooms = lobby_handler (λ _. (100, 9))

-- The request of "bob".
abbrev bob : ConnectRead
bob = record { eof = false; type = 1; username = 98 ∷ 111 ∷ 98 ∷ 0 ∷ 0 ∷ [] }

-- Bob connects over the socket 7, creates a room and joins it.
abbrev events : List Event
events =
    starts
    ∷ accepts 7
    ∷ connects 7 bob false 40
    ∷ rounds 7 (received MessageType.create_room (pos 0) none)
    ∷ rounds 7 (received MessageType.join_room (pos 0) none)
    ∷ []

run_test :
    (run rooms events (initial new_manager)).phases 7 ≡ in_room 1 (98 ∷ 111 ∷ 98 ∷ []) (pos 0)
unfolding run perform accept_at connect_at round_at settle set_phase initial new_manager
    lobby_handler find insert erase eq_ℤ ltb_ℤ new_game add_player copy_username
    ServerManager.on_create_room ServerManager.on_join_room ServerManager.find_room
    ServerManager.insert_room ServerManager.change_room TcpServer.new_server TcpServer.start
    TcpServer.register Threads.handshake Threads.lobby_round Threads.lobby_message
    Threads.join_message
run_test = refl

run-initial-Agrees_example : Agrees (1 + length events) (run rooms events (initial new_manager))
run-initial-Agrees_example = run-initial-Agrees rooms new_manager events (omega arith)

abbrev ann : ConnectRead
ann = record { eof = false; type = 1; username = 97 ∷ 110 ∷ 110 ∷ 0 ∷ [] }

-- Ann connects over the socket 9 and joins Bob's room.
abbrev ann_comes : List Event
ann_comes =
    accepts 9
    ∷ connects 9 ann false 50
    ∷ rounds 9 (received MessageType.join_room (pos 0) none)
    ∷ []

bob_stays :
    (run rooms (events ++ ann_comes) (initial new_manager)).phases 7
    ≡ in_room 1 (98 ∷ 111 ∷ 98 ∷ []) (pos 0)
unfolding run perform accept_at connect_at round_at settle set_phase initial new_manager
    lobby_handler find insert erase eq_ℤ ltb_ℤ new_game add_player copy_username
    ServerManager.on_create_room ServerManager.on_join_room ServerManager.find_room
    ServerManager.insert_room ServerManager.change_room TcpServer.new_server TcpServer.start
    TcpServer.register Threads.handshake Threads.lobby_round Threads.lobby_message
    Threads.join_message
bob_stays = refl

-- Bob says "hi", and Ann's socket is looked at.
run-room_round-chat_example :
    let st = run rooms (events ++ ann_comes) (initial new_manager) in
    let input = received MessageType.chat_message (pos 0) (some (104 ∷ 105 ∷ [])) in
    to_socket 9
      (Threads.room_round rooms 7 1 (98 ∷ 111 ∷ 98 ∷ []) (pos 0) input st.server st.handler).actions
    ≡ (if is_in (pos 0) (st.phases 9)
        then write 9 (chat_message (98 ∷ 111 ∷ 98 ∷ 58 ∷ 32 ∷ 104 ∷ 105 ∷ [])) ∷ []
        else [])
run-room_round-chat_example =
    run-room_round-chat rooms new_manager (events ++ ann_comes) 7 1 (98 ∷ 111 ∷ 98 ∷ []) (pos 0)
      (pos 0) (104 ∷ 105 ∷ []) 9 (omega arith) bob_stays

-- Bob says "hi", Ann answers, and Bob says "ok"; in between, Bob asks for the lobby.
abbrev talk : List Event
talk =
    rounds 7 (received MessageType.chat_message (pos 0) (some (104 ∷ 105 ∷ [])))
    ∷ rounds 9 (received MessageType.chat_message (pos 0) (some (111 ∷ 105 ∷ [])))
    ∷ rounds 7 (received MessageType.get_lobby_state (pos 0) none)
    ∷ rounds 7 (received MessageType.chat_message (pos 0) (some (111 ∷ 107 ∷ [])))
    ∷ []

ann_is_there :
    (run rooms (events ++ ann_comes) (initial new_manager)).phases 9
    ≡ in_room 2 (97 ∷ 110 ∷ 110 ∷ []) (pos 0)
unfolding run perform accept_at connect_at round_at settle set_phase initial new_manager
    lobby_handler find insert erase eq_ℤ ltb_ℤ new_game add_player copy_username
    ServerManager.on_create_room ServerManager.on_join_room ServerManager.find_room
    ServerManager.insert_room ServerManager.change_room TcpServer.new_server TcpServer.start
    TcpServer.register Threads.handshake Threads.lobby_round Threads.lobby_message
    Threads.join_message
ann_is_there = refl

ann_hears :
    conversation rooms (pos 0) 9 talk (run rooms (events ++ ann_comes) (initial new_manager))
    ≡ (98 ∷ 111 ∷ 98 ∷ 58 ∷ 32 ∷ 104 ∷ 105 ∷ []) ∷ (98 ∷ 111 ∷ 98 ∷ 58 ∷ 32 ∷ 111 ∷ 107 ∷ []) ∷ []
unfolding run perform accept_at connect_at round_at settle set_phase initial new_manager
    lobby_handler find insert erase eq_ℤ ltb_ℤ new_game add_player copy_username
    ServerManager.on_create_room ServerManager.on_join_room ServerManager.find_room
    ServerManager.insert_room ServerManager.change_room TcpServer.new_server TcpServer.start
    TcpServer.register Threads.handshake Threads.lobby_round Threads.lobby_message
    Threads.join_message Threads.room_round
ann_hears = refl

ann_is_in : is_in (pos 0) ((run rooms (events ++ ann_comes) (initial new_manager)).phases 9) ≡ true
ann_is_in = rw ann_is_there (unfold eq_ℤ in refl)

abbrev to_ann : List ℕ
to_ann =
    stream_of (to_socket 9 (log rooms talk (run rooms (events ++ ann_comes) (initial new_manager))))

receive_chat_messages-conversation_example :
    (last : List ℕ) × (receive_chat_messages stream to_ann
      ≡ some (
        conversation rooms (pos 0) 9 talk (run rooms (events ++ ann_comes) (initial new_manager)),
        last,
      ))
    × (last ≡ [])
receive_chat_messages-conversation_example =
    receive_chat_messages-conversation rooms stream (λ s. s) stream-Delivers to_ann new_manager
      (events ++ ann_comes) talk 9 2 (97 ∷ 110 ∷ 110 ∷ []) (pos 0) (omega arith) ann_is_there
      (inl (omega arith), (inr refl, (inl (omega arith), (inl (omega arith), tt))))
      (subst Short (sym ann_hears) (omega arith, (omega arith, tt))) refl
