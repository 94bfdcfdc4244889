-- ===== src/Protocol/Tcp/Roundtrip.antt =====
-- What is read from a lobby packet is what was put into it.
use rtype_ci_cd.Common.{
  ℕ, zero, suc, ◌+◌, ◌≤◌, ◌<◌, ◌≡◌, ◌≢◌, refl, ap, ◌∙◌, List, ◌∷◌, [], ◌++◌, length, take, drop,
  uint_at, le_bytes, from_le, until_nul, u32, ◌%◌, arith,
}
use rtype_ci_cd.Common.Int.{ℤ}
use rtype_ci_cd.Protocol.Udp.Messages.{int_of_bits}
use rtype_ci_cd.Protocol.Udp.Integers.{IsInt32, uint16-roundtrip, uint32-roundtrip, int32-roundtrip}
use rtype_ci_cd.Protocol.Tcp.Messages.{
  TcpMessage, connect, connect_ok, connect_error, list_rooms, create_room, get_lobby_state,
  start_game_request, game_starting_notification, list_rooms_response, room_info,
  create_room_response, join_room, join_room_response, lobby_player_info, lobby_state_response,
  chat_message, char_array, bytes_of, size_of,
}
use rtype_ci_cd.Protocol.Tcp.MessageType

-- No character is zero.
abbrev pub NulFree : List ℕ → Type 0
NulFree [] = Unit
NulFree (c ∷ cs) = (c ≢ 0) × NulFree cs

abbrev pub Fits : TcpMessage → Type 0
Fits (connect username) = NulFree username × (length username ≤ 31)
Fits (connect_ok player_id udp_port server_time_ms) =
    (player_id < u32) × (udp_port < 65536) × (server_time_ms < u32)
Fits (connect_error message) = NulFree message × (length message ≤ 63)
Fits list_rooms = Unit
Fits create_room = Unit
Fits get_lobby_state = Unit
Fits start_game_request = Unit
Fits game_starting_notification = Unit
Fits (list_rooms_response count) = IsInt32 count
Fits (room_info id player_count max_players) =
    IsInt32 id × IsInt32 player_count × IsInt32 max_players
Fits (create_room_response room_id) = IsInt32 room_id
Fits (join_room room_id) = IsInt32 room_id
Fits (join_room_response status) = IsInt32 status
Fits (lobby_player_info player_id username) =
    (player_id < u32) × NulFree username × (length username ≤ 31)
Fits (lobby_state_response host_id player_count) = (host_id < u32) × IsInt32 player_count
Fits (chat_message text) = length text < 65536

-- The fields of a struct in memory: an `int32_t`, and a C string in a `char` array of `n` elements.
abbrev pub int_at : ℕ → List ℕ → ℤ
int_at offset bytes = int_of_bits (uint_at 4 offset bytes)

abbrev pub string_at : ℕ → ℕ → List ℕ → List ℕ
string_at n offset bytes = until_nul (take n (drop offset bytes))

-- Each field of the struct gives back what the message holds.
abbrev pub ReadsBack : TcpMessage → List ℕ → Type 0
ReadsBack (connect username) bytes =
    (uint_at 1 0 bytes ≡ MessageType.connect) × (string_at 32 1 bytes ≡ username)
ReadsBack (connect_ok player_id udp_port server_time_ms) bytes =
    (uint_at 1 0 bytes ≡ MessageType.connect_ok)
    × (uint_at 4 1 bytes ≡ player_id)
    × (uint_at 2 5 bytes ≡ udp_port)
    × (uint_at 4 7 bytes ≡ server_time_ms)
ReadsBack (connect_error message) bytes =
    (uint_at 1 0 bytes ≡ MessageType.connect_error) × (string_at 64 1 bytes ≡ message)
ReadsBack list_rooms bytes = uint_at 1 0 bytes ≡ MessageType.list_rooms
ReadsBack create_room bytes = uint_at 1 0 bytes ≡ MessageType.create_room
ReadsBack get_lobby_state bytes = uint_at 1 0 bytes ≡ MessageType.get_lobby_state
ReadsBack start_game_request bytes = uint_at 1 0 bytes ≡ MessageType.start_game_request
ReadsBack game_starting_notification bytes =
    uint_at 1 0 bytes ≡ MessageType.game_starting_notification
ReadsBack (list_rooms_response count) bytes =
    (uint_at 1 0 bytes ≡ MessageType.list_rooms_response) × (int_at 1 bytes ≡ count)
ReadsBack (room_info id player_count max_players) bytes =
    (int_at 0 bytes ≡ id) × (int_at 4 bytes ≡ player_count) × (int_at 8 bytes ≡ max_players)
ReadsBack (create_room_response room_id) bytes =
    (uint_at 1 0 bytes ≡ MessageType.create_room_response) × (int_at 1 bytes ≡ room_id)
ReadsBack (join_room room_id) bytes =
    (uint_at 1 0 bytes ≡ MessageType.join_room) × (int_at 1 bytes ≡ room_id)
ReadsBack (join_room_response status) bytes =
    (uint_at 1 0 bytes ≡ MessageType.join_room_response) × (int_at 1 bytes ≡ status)
ReadsBack (lobby_player_info player_id username) bytes =
    (uint_at 4 0 bytes ≡ player_id) × (string_at 32 4 bytes ≡ username)
ReadsBack (lobby_state_response host_id player_count) bytes =
    (uint_at 1 0 bytes ≡ MessageType.lobby_state_response)
    × (uint_at 4 1 bytes ≡ host_id)
    × (int_at 5 bytes ≡ player_count)
ReadsBack (chat_message text) bytes =
    (uint_at 1 0 bytes ≡ MessageType.chat_message)
    × (take (uint_at 2 1 bytes) (drop 3 bytes) ≡ text)

-- A string that is shorter than its array is followed by a zero there.
string_at-char_array :
    (n : ℕ) (s rest : List ℕ)
    → NulFree s
    → length s ≤ n
    → until_nul (take (suc n) (char_array n s ++ rest)) ≡ s
string_at-char_array zero [] rest h k = refl
string_at-char_array (suc n) [] rest h k = refl
string_at-char_array zero (c ∷ cs) rest h k = absurd (omega arith)
string_at-char_array (suc n) (c ∷ cs) rest h k =
    ground (arith, string_at-char_array n cs rest h.1 (omega arith))

take-length : (xs ys : List ℕ) → take (length xs) (xs ++ ys) ≡ xs
take-length [] ys = refl
take-length (x ∷ xs) ys = ap (λ (l : List ℕ). x ∷ l) (take-length xs ys)

length-char_array : (n : ℕ) (s : List ℕ) → length (char_array n s) ≡ n + 1
length-char_array zero s = refl
length-char_array (suc n) [] = omega (arith, length-char_array n [])
length-char_array (suc n) (c ∷ cs) = omega (arith, length-char_array n cs)

-- A lobby message whose fields lie in the ranges of their types, whose strings hold no zero and fit their
-- arrays, and whose chat text is shorter than 2 ^ 16, takes `sizeof` bytes, and whatever follows them,
-- each field of its struct, and the text of a chat packet by its length, is read back.
pub tcp_bytes_of-ReadsBack :
    (m : TcpMessage) (rest : List ℕ)
    → Fits m
    → (length (bytes_of m) ≡ size_of m) × ReadsBack m (bytes_of m ++ rest)
unfolding bytes_of size_of
tcp_bytes_of-ReadsBack (connect username) rest h = (
  omega (arith, length-char_array 31 username),
  (refl, string_at-char_array 31 username rest h.0 h.1),
)
tcp_bytes_of-ReadsBack (connect_ok player_id udp_port server_time_ms) rest h = (
  refl,
  (
    refl,
    uint32-roundtrip player_id h.0,
    uint16-roundtrip udp_port h.1,
    uint32-roundtrip server_time_ms h.2,
  ),
)
tcp_bytes_of-ReadsBack (connect_error message) rest h = (
  omega (arith, length-char_array 63 message),
  (refl, string_at-char_array 63 message rest h.0 h.1),
)
tcp_bytes_of-ReadsBack list_rooms rest h = (refl, refl)
tcp_bytes_of-ReadsBack create_room rest h = (refl, refl)
tcp_bytes_of-ReadsBack get_lobby_state rest h = (refl, refl)
tcp_bytes_of-ReadsBack start_game_request rest h = (refl, refl)
tcp_bytes_of-ReadsBack game_starting_notification rest h = (refl, refl)
tcp_bytes_of-ReadsBack (list_rooms_response count) rest h = (refl, (refl, int32-roundtrip count h))
tcp_bytes_of-ReadsBack (room_info id player_count max_players) rest h = (
  refl,
  (int32-roundtrip id h.0, int32-roundtrip player_count h.1, int32-roundtrip max_players h.2),
)
tcp_bytes_of-ReadsBack (create_room_response room_id) rest h =
    (refl, (refl, int32-roundtrip room_id h))
tcp_bytes_of-ReadsBack (join_room room_id) rest h = (refl, (refl, int32-roundtrip room_id h))
tcp_bytes_of-ReadsBack (join_room_response status) rest h = (refl, (refl, int32-roundtrip status h))
tcp_bytes_of-ReadsBack (lobby_player_info player_id username) rest h = (
  omega (arith, length-char_array 31 username),
  (uint32-roundtrip player_id h.0, string_at-char_array 31 username rest h.1 h.2),
)
tcp_bytes_of-ReadsBack (lobby_state_response host_id player_count) rest h =
    (refl, (refl, uint32-roundtrip host_id h.0, int32-roundtrip player_count h.1))
tcp_bytes_of-ReadsBack (chat_message text) rest h = (
  omega arith,
  (
    refl,
    ap (λ (n : ℕ). take n (text ++ rest))
          (let e : from_le (le_bytes 2 (length text % 65536)) ≡ length text = omega arith in e)
        ∙ take-length text rest,
  ),
)
