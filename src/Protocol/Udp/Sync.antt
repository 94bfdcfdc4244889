-- ===== src/Protocol/Udp/Sync.antt =====
-- The variable-length packet of `Game::sendGlobalStateSync`: its states are read back, and those that
-- a cut leaves out are lost.
use rtype_ci_cd.Common.{
  ℕ, zero, suc, ◌+◌, ◌-◌, ◌*◌, ◌<◌, ◌≤◌, ◌≡◌, refl, ap, ◌∙◌, sym, subst, List, ◌∷◌, [], ◌++◌,
  length, length-drop, length-take, ◌/◌, inl, inr, le_bytes, take, drop, u32, Bool-cases, leb→le,
  leb, if◌then◌else◌, arith,
}
use rtype_ci_cd.Protocol.Udp.Messages.{
  SyncedEntityState, bytes_of_state, bytes_of_states, cast_state, read_count, bytes_of,
  global_state_sync, read_state, read_states,
}
use rtype_ci_cd.Protocol.Udp.MessageType
use rtype_ci_cd.Protocol.Udp.Integers.{uint32-roundtrip, uint16-roundtrip}

abbrev pub StateFits : SyncedEntityState → Type 0
StateFits s = (s.entity_id < u32) × (s.entity_type < 65536) × (s.x < u32) × (s.y < u32)

abbrev pub StatesFit : List SyncedEntityState → Type 0
StatesFit [] = Unit
StatesFit (s ∷ ss) = StateFits s × StatesFit ss

-- The reader of `RTypeClient::update` over what is left of the packet.
parse : ℕ → List ℕ → List SyncedEntityState
parse zero left = []
parse (suc n) left =
    let rest = parse n (drop 14 left) in if leb 14 (length left) then cast_state left ∷ rest else []

drop-nil : (n : ℕ) → drop {A = ℕ} n [] ≡ []
drop-nil zero = refl
drop-nil (suc n) = refl

drop-drop : (m n : ℕ) (xs : List ℕ) → drop m (drop n xs) ≡ drop (n + m) xs
drop-drop m zero xs = ap (λ (k : ℕ). drop k xs) (let e : m ≡ 0 + m = omega arith in e)
drop-drop m (suc n) [] = drop-nil m ∙ sym (drop-nil (suc n + m))
drop-drop m (suc n) (x ∷ xs) =
    drop-drop m n xs
    ∙ ap (λ (k : ℕ). drop k (x ∷ xs)) (let e : suc (n + m) ≡ suc n + m = omega arith in e)

read_states-parse :
    (n offset : ℕ) (bytes : List ℕ) → read_states n offset bytes ≡ parse n (drop offset bytes)
unfolding read_states parse read_state
read_states-parse zero offset bytes = refl
read_states-parse (suc n) offset bytes = ground (
  arith,
  read_states-parse n (offset + 14) bytes,
  drop-drop 14 offset bytes,
  length-drop offset bytes,
)

cast_state-bytes_of :
    (s : SyncedEntityState) (rest : List ℕ)
    → StateFits s
    → cast_state (bytes_of_state s ++ rest) ≡ s
cast_state-bytes_of s rest h = λ i. record {
  entity_id = uint32-roundtrip s.entity_id h.0 i;
  entity_type = uint16-roundtrip s.entity_type h.1 i;
  x = uint32-roundtrip s.x h.2 i;
  y = uint32-roundtrip s.y h.3 i;
}

take-length_add : (k : ℕ) (xs ys : List ℕ) → take (length xs + k) (xs ++ ys) ≡ xs ++ take k ys
take-length_add k [] ys = ap (λ (j : ℕ). take j ys) (let e : 0 + k ≡ k = omega arith in e)
take-length_add k (x ∷ xs) ys =
    ap (λ (j : ℕ). take j (x ∷ (xs ++ ys)))
      (let e : suc (length xs) + k ≡ suc (length xs + k) = omega arith in e)
    ∙ ap (λ (l : List ℕ). x ∷ l) (take-length_add k xs ys)

parse-bytes_of :
    (n : ℕ) (s : SyncedEntityState) (rest : List ℕ)
    → StateFits s
    → parse (suc n) (bytes_of_state s ++ rest) ≡ s ∷ parse n rest
unfolding parse
parse-bytes_of n s rest h = ground (arith, cast_state-bytes_of s rest h)

parse_short : (n : ℕ) (left : List ℕ) → length left < 14 → parse n left ≡ []
unfolding parse
parse_short zero left h = refl
parse_short (suc n) left h = ground arith

take-nil {ℓ} : {A : Type ℓ} (n : ℕ) → take {A = A} n [] ≡ []
take-nil zero = refl
take-nil (suc n) = refl

-- A packet cut to `k` bytes of states reads as the states that fit whole.
parse-take :
    (ss : List SyncedEntityState) (k : ℕ) (z : List ℕ)
    → StatesFit ss
    → parse (length ss) (take k (bytes_of_states ss ++ z)) ≡ take (k / 14) ss
unfolding parse
parse-take [] k z h = sym (take-nil (k / 14))
parse-take (s ∷ ss) k z h = elim (Bool-cases (leb 14 k)) [
  | inl more ↦
      let fits : 14 ≤ k = leb→le 14 k more in
      let front : k ≡ 14 + (k - 14) = omega arith in
      let states : suc ((k - 14) / 14) ≡ k / 14 = omega arith in
      ap (λ (j : ℕ). parse (suc (length ss)) (take j (bytes_of_states (s ∷ ss) ++ z))) front
      ∙ ap (parse (suc (length ss)))
          (take-length_add (k - 14) (bytes_of_state s) (bytes_of_states ss ++ z))
      ∙ parse-bytes_of (length ss) s (take (k - 14) (bytes_of_states ss ++ z)) h.0
      ∙ ap (λ (l : List SyncedEntityState). s ∷ l) (parse-take ss (k - 14) z h.1)
      ∙ ap (λ (j : ℕ). take j (s ∷ ss)) states
  | inr cut ↦
      parse_short (suc (length ss)) (take k (bytes_of_states (s ∷ ss) ++ z))
        (ground (arith, length-take k (bytes_of_states (s ∷ ss) ++ z)))
      ∙ ap (λ (j : ℕ). take j (s ∷ ss)) (let e : 0 ≡ k / 14 = ground arith in e)
]

parse-bytes_of_states :
    (ss : List SyncedEntityState) (z : List ℕ)
    → StatesFit ss
    → parse (length ss) (bytes_of_states ss ++ z) ≡ ss
unfolding parse
parse-bytes_of_states [] z h = refl
parse-bytes_of_states (s ∷ ss) z h =
    parse-bytes_of (length ss) s (bytes_of_states ss ++ z) h.0
    ∙ ap (λ (l : List SyncedEntityState). s ∷ l) (parse-bytes_of_states ss z h.1)

pub length-bytes_of_states :
    (ss : List SyncedEntityState) → length (bytes_of_states ss) ≡ length ss * 14
length-bytes_of_states [] = refl
length-bytes_of_states (s ∷ ss) = omega (arith, length-bytes_of_states ss)

-- The header and the states of a sync packet, of which the first `5 + k` bytes arrive, whatever the
-- rest of the buffer `z` holds: the count is the one sent, and the states are those that fit whole.
pub sync_cut :
    (ss : List SyncedEntityState) (k : ℕ) (z : List ℕ)
    → StatesFit ss
    → length ss < u32
    → let buffer = take (5 + k) (bytes_of (global_state_sync (length ss) ss) ++ z) in
      (read_count buffer ≡ length ss)
      × (read_states (read_count buffer) 5 buffer ≡ take (k / 14) ss)
unfolding read_count bytes_of
sync_cut ss k z h small =
    let header : List ℕ = MessageType.global_state_sync ∷ le_bytes 4 (length ss) in
    let left = take k (bytes_of_states ss ++ z) in
    subst
      (λ (b : List ℕ).
        (read_count b ≡ length ss) × (read_states (read_count b) 5 b ≡ take (k / 14) ss))
      (sym (take-length_add k header (bytes_of_states ss ++ z)))
      (
        uint32-roundtrip (length ss) small,
        ap (λ (n : ℕ). read_states n 5 (header ++ left)) (uint32-roundtrip (length ss) small)
            ∙ read_states-parse (length ss) 5 (header ++ left)
            ∙ parse-take ss k z h,
      )

-- A whole packet reads as it was written.
pub read_states-bytes_of :
    (ss : List SyncedEntityState) (rest : List ℕ)
    → StatesFit ss
    → length ss < u32
    → let buffer = bytes_of (global_state_sync (length ss) ss) ++ rest in
      (read_count buffer ≡ length ss) × (read_states (read_count buffer) 5 buffer ≡ ss)
unfolding read_count bytes_of
read_states-bytes_of ss rest h small =
    let header : List ℕ = MessageType.global_state_sync ∷ le_bytes 4 (length ss) in
    (
      uint32-roundtrip (length ss) small,
      ap (λ (n : ℕ). read_states n 5 (header ++ (bytes_of_states ss ++ rest)))
            (uint32-roundtrip (length ss) small)
          ∙ read_states-parse (length ss) 5 (header ++ (bytes_of_states ss ++ rest))
          ∙ parse-bytes_of_states ss rest h,
    )
