-- ===== src/TcpClient/Framing.antt =====
-- The chat packets of the server, as `TCPClient::receiveChatMessages` of Src/Network/TCPClient.cpp takes
-- them from the stream.
use rtype_ci_cd.Common.{
  take-append, drop-append, ℕ, zero, suc, ◌+◌, ◌*◌, ◌/◌, ◌%◌, Bool-cases, ◌≤◌, ◌<◌, ◌≡◌, refl, sym,
  ap, subst, ◌∙◌, ◌⊎◌, inl, inr, some, List, [], ◌∷◌, ◌++◌, length, length-append, length-drop,
  take, drop, get_or, uint_at, ltb, ◌==◌, arith,
}
use mathlib.Core.List.{append_assoc}
use rtype_ci_cd.Common.Strings.{Text}
use rtype_ci_cd.Protocol.Tcp.MessageType
use rtype_ci_cd.Protocol.Tcp.Messages.{bytes_of, chat_message}
use rtype_ci_cd.TcpClient.Socket.{Socket, Delivers}
use rtype_ci_cd.TcpClient.Chat.{chat_rounds, receive_chat_messages}

-- The packets of the texts, one behind the other.
abbrev pub packets : List Text → List ℕ
packets [] = []
packets (text ∷ texts) = bytes_of (chat_message text) ++ packets texts

abbrev pub Short : List Text → Type 0
Short [] = Unit
Short (text ∷ texts) = (length text < 65536) × Short texts

-- The start of a chat packet that has not arrived whole: too few bytes for a header, or fewer than the header
-- announces.
abbrev pub Incomplete : List ℕ → Type 0
Incomplete bytes =
    (length bytes < 3)
    ⊎ ((get_or bytes 0 0 ≡ MessageType.chat_message)
        × (length bytes < 3 + uint_at 2 1 (take 3 bytes)))

module _ {S : Type 0} (io : Socket S) (arrived : S → List ℕ) (law : Delivers io arrived) where
  chat_step :
      (fuel : ℕ) (s : S) (a b : ℕ) (text more : List ℕ)
      → arrived s ≡ 14 ∷ a ∷ b ∷ (text ++ more)
      → a + 256 * b ≡ length text
      → let next = (io.read (3 + length text) s).next in
        (arrived next ≡ more)
        × ((texts : List Text) (last : S)
            → chat_rounds io fuel next ≡ some (texts, last)
            → chat_rounds io (suc fuel) s ≡ some (text ∷ texts, last))
  unfolding chat_rounds
  chat_step fuel s a b text more h e =
      let size : length (arrived s) ≡ 3 + length text + length more =
        ap length h ∙ omega (arith, length-append text more) in
      let enough : 3 + length text ≤ length (arrived s) = omega (arith, size) in
      let peeked : io.peek 3 s ≡ 14 ∷ a ∷ b ∷ [] = law.peek_lem 3 s ∙ ap (take 3) h in
      let len : uint_at 2 1 (io.peek 3 s) ≡ length text =
        ap (uint_at 2 1) peeked ∙ omega (arith, e) in
      let three : 3 + length text ≡ suc (suc (suc (length text))) = omega arith in
      let bytes : (io.read (3 + length text) s).bytes ≡ 14 ∷ a ∷ b ∷ text =
        law.read_bytes (3 + length text) s enough
        ∙ ap (take (3 + length text)) h
        ∙ ap (λ (n : ℕ). take n (14 ∷ a ∷ b ∷ (text ++ more))) three
        ∙ take-append (14 ∷ a ∷ b ∷ text) more in
      let next : arrived (io.read (3 + length text) s).next ≡ more =
        law.read_next (3 + length text) s enough
        ∙ ap (drop (3 + length text)) h
        ∙ ap (λ (n : ℕ). drop n (14 ∷ a ∷ b ∷ (text ++ more))) three
        ∙ drop-append (suc (suc (suc (length text)))) (14 ∷ a ∷ b ∷ text) more refl in
      (
        next,
        λ texts last ends. ground (
          arith,
          size,
          len,
          peeked,
          bytes,
          ends,
          law.available_lem s,
          law.read_ok (3 + length text) s enough,
        ),
      )

  get_or-take : (xs : List ℕ) → get_or (take 3 xs) 0 0 ≡ get_or xs 0 0
  get_or-take [] = refl
  get_or-take (x ∷ xs) = refl

  chat_stop :
      (fuel : ℕ) (s : S) → Incomplete (arrived s) → chat_rounds io (suc fuel) s ≡ some ([], s)
  unfolding chat_rounds
  chat_stop fuel s (inl few) = ground (arith, few, law.available_lem s)
  chat_stop fuel s (inr (chat, few)) =
      let head : get_or (io.peek 3 s) 0 0 ≡ 14 =
        ap (λ (l : List ℕ). get_or l 0 0) (law.peek_lem 3 s) ∙ get_or-take (arrived s) ∙ chat in
      let len = ap (uint_at 2 1) (law.peek_lem 3 s) in
      ground (arith, head, len, few, law.available_lem s)

  chat_rounds-packets :
      (texts : List Text) (rest : List ℕ) (fuel : ℕ) (s : S)
      → Short texts
      → Incomplete rest
      → arrived s ≡ packets texts ++ rest
      → length (arrived s) ≤ fuel
      → (last : S) × (chat_rounds io (suc fuel) s ≡ some (texts, last)) × (arrived last ≡ rest)
  unfolding bytes_of
  chat_rounds-packets [] rest fuel s short cut h enough =
      (s, chat_stop fuel s (subst Incomplete (sym h) cut), h)
  chat_rounds-packets (text ∷ texts) rest zero s short cut h enough =
      absurd (let size = ap length h in omega (arith, size, enough))
  chat_rounds-packets (text ∷ texts) rest (suc fuel) s short cut h enough =
      let size : length (arrived s) ≡ suc (suc (suc (length (text ++ (packets texts ++ rest))))) =
        ap length (h ∙ reassoc) in
      let (next, step) =
        chat_step (suc fuel) s (length text % 65536 % 256) (length text % 65536 / 256 % 256) text
          (packets texts ++ rest) (h ∙ reassoc) (omega (arith, short.0)) in
      let smaller : length (packets texts ++ rest) ≤ fuel =
        omega (arith, size, enough, length-append text (packets texts ++ rest)) in
      let (last, all, left) =
        chat_rounds-packets texts rest fuel (io.read (3 + length text) s).next short.1 cut next
          (subst (λ (l : List ℕ). length l ≤ fuel) (sym next) smaller) in
      (last, step texts last all, left)
    where
      reassoc :
          (bytes_of (chat_message text) ++ packets texts) ++ rest
          ≡ 14
            ∷ (length text % 65536 % 256)
            ∷ (length text % 65536 / 256 % 256)
            ∷ (text ++ (packets texts ++ rest))
      reassoc =
          ap
            (λ (l : List ℕ).
              14 ∷ (length text % 65536 % 256) ∷ (length text % 65536 / 256 % 256) ∷ l)
            (append_assoc text (packets texts) rest)

  -- Over a stream that delivers the bytes that arrived: where these are the server's chat packets of some
  -- texts, each shorter than 2 ^ 16, and then the start of a packet that has not arrived whole, the loop
  -- ends, the texts are given, all and in their order, and the start of the packet stays in the stream.
  pub receive_chat_messages-packets :
      (texts : List Text) (rest : List ℕ) (s : S)
      → Short texts
      → Incomplete rest
      → arrived s ≡ packets texts ++ rest
      → (last : S) × (receive_chat_messages io s ≡ some (texts, last)) × (arrived last ≡ rest)
  unfolding receive_chat_messages
  receive_chat_messages-packets texts rest s short cut h =
      chat_rounds-packets texts rest (io.available s) s short cut h
        (let e = law.available_lem s in omega (arith, e))

  read_shrinks :
      (n size : ℕ) (s : S)
      → 0 < size
      → size ≤ length (arrived s)
      → length (arrived s) < suc n
      → length (arrived (io.read size s).next) < n
  read_shrinks n size s some_bytes enough h =
      let left = ap length (law.read_next size s enough) in
      omega (arith, enough, some_bytes, h, left, length-drop size (arrived s))

  -- With a round more than bytes, the loop comes to its end.
  chat_rounds-ends :
      (n k : ℕ) (s : S)
      → length (arrived s) < n
      → length (arrived s) < k
      → (r : List Text × S) × (chat_rounds io n s ≡ some r) × (chat_rounds io k s ≡ some r)
  unfolding chat_rounds
  chat_rounds-ends zero k s h l = absurd (omega (arith, h))
  chat_rounds-ends (suc n) zero s h l = absurd (omega (arith, l))
  chat_rounds-ends (suc n) (suc k) s h l = elim (Bool-cases (ltb (io.available s) 3)) [
    | inl few ↦ (([], s), ground (arith, few), ground (arith, few))
    | inr more ↦
        let three : 3 ≤ length (arrived s) = ground (arith, more, law.available_lem s) in
        elim (Bool-cases (get_or (io.peek 3 s) 0 0 == MessageType.chat_message)) [
          | inl chat ↦
              let size = 3 + uint_at 2 1 (io.peek 3 s) in
              elim (Bool-cases (ltb (io.available s) size)) [
                | inl cut ↦
                    (([], s), ground (arith, more, chat, cut), ground (arith, more, chat, cut))
                | inr whole ↦
                    let enough : size ≤ length (arrived s) =
                      ground (arith, whole, law.available_lem s) in
                    let ok = law.read_ok size s enough in
                    let (r, a, b) =
                      chat_rounds-ends n k (io.read size s).next
                        (read_shrinks n size s (omega arith) enough h)
                        (read_shrinks k size s (omega arith) enough l) in
                    (
                      (drop 3 (io.read size s).bytes ∷ r.0, r.1),
                      ground (arith, more, chat, whole, ok, a),
                      ground (arith, more, chat, whole, ok, b),
                    )
              ]
          | inr trash ↦
              let ok = law.read_ok 1 s (omega (arith, three)) in
              let (r, a, b) =
                chat_rounds-ends n k (io.read 1 s).next
                  (read_shrinks n 1 s (omega arith) (omega (arith, three)) h)
                  (read_shrinks k 1 s (omega arith) (omega (arith, three)) l) in
              (r, ground (arith, more, trash, ok, a), ground (arith, more, trash, ok, b))
        ]
  ]

  -- Over a stream that delivers the bytes that arrived, whatever they are: the loop comes to its end within
  -- one round more than there are bytes, and more rounds would give nothing else.
  pub receive_chat_messages-rounds :
      (rounds : ℕ) (s : S)
      → length (arrived s) < rounds
      → (r : List Text × S) × (receive_chat_messages io s ≡ some r)
        × (chat_rounds io rounds s ≡ some r)
  unfolding receive_chat_messages
  receive_chat_messages-rounds rounds s h =
      chat_rounds-ends (suc (io.available s)) rounds s
        (let e = law.available_lem s in omega (arith, e)) h
