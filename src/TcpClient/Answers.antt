-- ===== src/TcpClient/Answers.antt =====
-- How `createRoom` and `joinRoom` of Src/Network/TCPClient.cpp come to the answer of the server.
use rtype_ci_cd.Common.{
  drop-append, ℕ, zero, suc, ◌+◌, ◌*◌, ◌≤◌, ◌<◌, ◌≡◌, ◌≢◌, refl, ap, ◌∙◌, Bool, true, false, List,
  [], ◌∷◌, ◌++◌, length, length-append, take, drop, from_le, arith,
}
use mathlib.Core.List.{append_assoc}
use rtype_ci_cd.Common.Int.{ℤ, pos}
use rtype_ci_cd.Protocol.Udp.Messages.{int_of_bits}
use rtype_ci_cd.Protocol.Udp.Integers.{IsInt32, int32-roundtrip}
use rtype_ci_cd.Protocol.Tcp.MessageType
use rtype_ci_cd.Protocol.Tcp.Messages.{
  TcpMessage, int_bytes, bytes_of, list_rooms_response, room_info,
}
use rtype_ci_cd.TcpClient.Socket.{Socket, Delivers}
use rtype_ci_cd.TcpClient.Requests.{
  sent_request, Request, Reply, pending, failed, answered, no_request, int_of_read, drain_rooms,
  drain_list, read_body, exchange,
}

-- What the server writes for a list of rooms: ids, players and greatest numbers of players.
abbrev pub room_bytes : List (ℤ × ℤ × ℤ) → List ℕ
room_bytes [] = []
room_bytes ((id, count, most) ∷ rooms) = bytes_of (room_info id count most) ++ room_bytes rooms

abbrev pub list_bytes : List (ℤ × ℤ × ℤ) → List ℕ
list_bytes rooms = bytes_of (list_rooms_response (pos (length rooms))) ++ room_bytes rooms

-- Several lists of rooms, one behind the other.
abbrev pub strays : List (List (ℤ × ℤ × ℤ)) → List ℕ
strays [] = []
strays (rooms ∷ lists) = list_bytes rooms ++ strays lists

abbrev pub AllShort : List (List (ℤ × ℤ × ℤ)) → Type 0
AllShort [] = Unit
AllShort (rooms ∷ lists) = (length rooms < 0x8000_0000) × AllShort lists

length-room_bytes : (rooms : List (ℤ × ℤ × ℤ)) → length (room_bytes rooms) ≡ length rooms * 12
unfolding bytes_of
length-room_bytes [] = refl
length-room_bytes ((id, count, most) ∷ rooms) = omega (arith, length-room_bytes rooms)

-- Another call, where the last one gave no value.
abbrev pub again :
    {S : Type 0} → (Request → S → Reply × Request × S) → Reply × Request × S → Reply × Request × S
again next (pending, q, s) = next q s
again next (failed, q, s) = (failed, q, s)
again next (answered v, q, s) = (answered v, q, s)

module _ {S : Type 0} (io : Socket S) where
  -- The method is called again as long as it gives no value, at most `calls` times.
  unfoldable pub call : ℕ → TcpMessage → ℕ → Request → S → Reply × Request × S
  call zero request expected q s = (pending, q, s)
  call (suc calls) request expected q s =
      again (call calls request expected) (exchange io request expected q s)

module _ {S : Type 0} (io : Socket S) (arrived : S → List ℕ) (law : Delivers io arrived) where
  abbrev waiting : ℕ → Request
  waiting type = record { state = sent_request; pending_resp_type = type }

  -- The type byte is read.
  receive_type :
      (request : TcpMessage) (expected type last : ℕ) (more : List ℕ) (s : S)
      → arrived s ≡ type ∷ more
      → (s' : S) × (exchange io request expected (waiting last) s ≡ read_body io expected type s')
        × (arrived s' ≡ more)
  unfolding exchange
  receive_type request expected type last more s h =
      let ready = io.set_non_blocking false s in
      let here : arrived ready ≡ type ∷ more = law.mode_lem false s ∙ h in
      let size : length (arrived ready) ≡ suc (length more) = ap length here in
      let enough : 1 ≤ length (arrived ready) = omega (arith, size) in
      let byte : from_le (io.read 1 ready).bytes ≡ type =
        ap from_le (law.read_bytes 1 ready enough ∙ ap (take 1) here) ∙ omega arith in
      (
        (io.read 1 ready).next,
        ground (
          arith,
          byte,
          law.read_ok 1 ready enough,
          law.available_lem s,
          (let e : length (arrived s) ≡ suc (length more) = ap length h in e),
        ),
        law.read_next 1 ready enough ∙ ap (drop 1) here,
      )

  read_int :
      (v : ℤ) (more : List ℕ) (s : S)
      → IsInt32 v
      → arrived s ≡ int_bytes v ++ more
      → ((io.read 4 s).ok ≡ true)
        × (int_of_bits (from_le (io.read 4 s).bytes) ≡ v)
        × (arrived (io.read 4 s).next ≡ more)
  read_int v more s fits h =
      let size : length (arrived s) ≡ suc (suc (suc (suc (length more)))) = ap length h in
      let enough : 4 ≤ length (arrived s) = omega (arith, size) in
      (
        law.read_ok 4 s enough,
        ap (λ (l : List ℕ). int_of_bits (from_le l)) (law.read_bytes 4 s enough ∙ ap (take 4) h)
            ∙ int32-roundtrip v fits,
        law.read_next 4 s enough ∙ ap (drop 4) h,
      )

  read_answer :
      (expected : ℕ) (v : ℤ) (more : List ℕ) (s : S)
      → IsInt32 v
      → arrived s ≡ int_bytes v ++ more
      → (s' : S) × (read_body io expected expected s ≡ (answered v, no_request, s'))
        × (arrived s' ≡ more)
  unfolding read_body
  read_answer expected v more s fits h =
      let (ok, value, next) = read_int v more s fits h in
      (
        io.set_non_blocking true (io.read 4 s).next,
        ground (arith, ok, value),
        law.mode_lem true (io.read 4 s).next ∙ next,
      )

  drain_rooms_lem :
      (rooms : List (ℤ × ℤ × ℤ)) (more : List ℕ) (s : S)
      → arrived s ≡ room_bytes rooms ++ more
      → arrived (drain_rooms io true (pos (length rooms)) s) ≡ more
  drain_rooms_lem [] more s h = h
  drain_rooms_lem (room ∷ rooms) more s h =
      let size : length (arrived s) ≡ length (room ∷ rooms) * 12 + length more =
        ap length h
        ∙ omega (
          arith,
          length-append (room_bytes (room ∷ rooms)) more,
          length-room_bytes (room ∷ rooms),
        ) in
      let enough : length (room ∷ rooms) * 12 ≤ length (arrived s) = omega (arith, size) in
      let next =
        law.read_next (length (room ∷ rooms) * 12) s enough
        ∙ ap (drop (length (room ∷ rooms) * 12)) h
        ∙ drop-append (length (room ∷ rooms) * 12) (room_bytes (room ∷ rooms)) more
            (length-room_bytes (room ∷ rooms)) in
      ground (arith, next)

  drain_stray :
      (rooms : List (ℤ × ℤ × ℤ)) (more : List ℕ) (s : S)
      → length rooms < 0x8000_0000
      → arrived s ≡ int_bytes (pos (length rooms)) ++ (room_bytes rooms ++ more)
      → arrived (drain_list io s) ≡ more
  unfolding drain_list
  drain_stray rooms more s small h =
      let (ok, value, next) =
        read_int (pos (length rooms)) (room_bytes rooms ++ more) s
          (omega arith, omega (arith, small)) h in
      ap
        (λ (b : Bool). arrived (drain_rooms io b (int_of_read io (io.read 4 s)) (io.read 4 s).next))
        ok
      ∙ ap (λ (v : ℤ). arrived (drain_rooms io true v (io.read 4 s).next)) value
      ∙ drain_rooms_lem rooms more (io.read 4 s).next next

  -- A stray list is drained, and the request waits on.
  exchange_stray :
      (request : TcpMessage) (expected last : ℕ) (rooms : List (ℤ × ℤ × ℤ)) (more : List ℕ) (s : S)
      → expected ≢ MessageType.list_rooms_response
      → length rooms < 0x8000_0000
      → arrived s ≡ list_bytes rooms ++ more
      → (s' : S) × (exchange io request expected (waiting last) s
          ≡ (pending, waiting MessageType.list_rooms_response, s'))
        × (arrived s' ≡ more)
  unfolding read_body bytes_of
  exchange_stray request expected last rooms more s other small h =
      let (s1, read, left) =
        receive_type request expected 5 last
          (int_bytes (pos (length rooms)) ++ (room_bytes rooms ++ more)) s h in
      (
        io.set_non_blocking true (drain_list io s1),
        read ∙ ground (arith, other),
        law.mode_lem true (drain_list io s1) ∙ drain_stray rooms more s1 small left,
      )

  -- Over a stream that delivers the bytes that arrived: where these are lists of rooms that nobody waits for,
  -- each of fewer than 2 ^ 31 rooms, then the answer to a request that was sent, with an integer in the range
  -- of `int`, and then others: one call for each list, and one more, come to the integer, with the request
  -- at rest and only the bytes behind the answer left. The type of the answer is not that of a list.
  pub call_answer :
      (request : TcpMessage) (expected : ℕ) (lists : List (List (ℤ × ℤ × ℤ))) (v : ℤ)
      (more : List ℕ) (last : ℕ) (s : S)
      → expected ≢ MessageType.list_rooms_response
      → AllShort lists
      → IsInt32 v
      → arrived s ≡ strays lists ++ (expected ∷ (int_bytes v ++ more))
      → (s' : S) × (call io (suc (length lists)) request expected (waiting last) s
          ≡ (answered v, no_request, s'))
        × (arrived s' ≡ more)
  unfolding call
  call_answer request expected [] v more last s other small fits h =
      let (s1, read, left) =
        receive_type request expected expected last (int_bytes v ++ more) s h in
      let (s2, answer, rest) = read_answer expected v more s1 fits left in
      (s2, ap (again (call io 0 request expected)) (read ∙ answer), rest)
  call_answer request expected (rooms ∷ lists) v more last s other small fits h =
      let (s1, stray, left) =
        exchange_stray request expected last rooms
          (strays lists ++ (expected ∷ (int_bytes v ++ more))) s other small.0
          (h ∙ append_assoc (list_bytes rooms) (strays lists) (expected ∷ (int_bytes v ++ more))) in
      let (s2, answer, rest) =
        call_answer request expected lists v more 5 s1 other small.1 fits left in
      (s2, ap (again (call io (suc (length lists)) request expected)) stray ∙ answer, rest)
