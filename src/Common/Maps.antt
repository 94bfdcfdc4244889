-- ===== src/Common/Maps.antt =====
-- `std::map<uint32_t, A>`: its entries, in the order of the keys.
use rtype_ci_cd.Common.{
  ℕ, suc, ◌≤◌, ◌<◌, ◌≡◌, ◌≢◌, refl, inl, inr, Option, none, some, List, [], ◌∷◌, ◌==◌, ltb,
  if◌then◌else◌, Bool-cases, arith,
}

module _ {ℓ} {A : Type ℓ} where
  -- `find`.
  unfoldable pub find : ℕ → List (ℕ × A) → Option A
  find k [] = none
  find k ((j, a) ∷ m) = if j == k then some a else find k m

  -- `m[k] = a`.
  unfoldable pub insert : ℕ → A → List (ℕ × A) → List (ℕ × A)
  insert k a [] = (k, a) ∷ []
  insert k a ((j, b) ∷ m) =
      if j == k then (k, a) ∷ m else if ltb k j then (k, a) ∷ (j, b) ∷ m else (j, b) ∷ insert k a m

  -- `m.erase(k)`.
  unfoldable pub erase : ℕ → List (ℕ × A) → List (ℕ × A)
  erase k [] = []
  erase k ((j, b) ∷ m) = if j == k then erase k m else (j, b) ∷ erase k m

  pub find-insert :
      (i k : ℕ) (a : A) (m : List (ℕ × A))
      → find i (insert k a m) ≡ (if k == i then some a else find i m)
  unfolding find insert
  find-insert i k a [] = refl
  find-insert i k a ((j, b) ∷ m) = ground (arith, find-insert i k a m)

  pub find-erase :
      (i k : ℕ) (m : List (ℕ × A)) → find i (erase k m) ≡ (if k == i then none else find i m)
  unfolding find erase
  find-erase i k [] = ground arith
  find-erase i k ((j, b) ∷ m) = ground (arith, find-erase i k m)

  pub find-insert_self : (k : ℕ) (a : A) (m : List (ℕ × A)) → find k (insert k a m) ≡ some a
  find-insert_self k a m = ground (arith, find-insert k k a m)

  pub find-insert_other :
      (i k : ℕ) (a : A) (m : List (ℕ × A)) → i ≢ k → find i (insert k a m) ≡ find i m
  find-insert_other i k a m h = ground (arith, find-insert i k a m)

  pub find-erase_self : (k : ℕ) (m : List (ℕ × A)) → find k (erase k m) ≡ none
  find-erase_self k m = ground (arith, find-erase k k m)

  pub find-erase_other : (i k : ℕ) (m : List (ℕ × A)) → i ≢ k → find i (erase k m) ≡ find i m
  find-erase_other i k m h = ground (arith, find-erase i k m)

  -- The keys ascend, from `lo` up: what the standard promises of a map.
  abbrev pub Ascending : ℕ → List (ℕ × A) → Type 0
  Ascending lo [] = Unit
  Ascending lo ((j, a) ∷ m) = (lo ≤ j) × Ascending (suc j) m

  pub Ascending-le : (lo hi : ℕ) (m : List (ℕ × A)) → lo ≤ hi → Ascending hi m → Ascending lo m
  Ascending-le lo hi [] h up = tt
  Ascending-le lo hi ((j, a) ∷ m) h up = (omega (arith, h, up.0), up.1)

  pub Ascending-insert :
      (lo k : ℕ) (a : A) (m : List (ℕ × A)) → lo ≤ k → Ascending lo m → Ascending lo (insert k a m)
  unfolding insert
  Ascending-insert lo k a [] h up = (h, tt)
  Ascending-insert lo k a ((j, b) ∷ m) h up = elim (Bool-cases (j == k)) [
    | inl e ↦ rw e (h, Ascending-le (suc k) (suc j) m (ground (arith, e)) up.1)
    | inr ne ↦ rw ne (elim (Bool-cases (ltb k j)) [
      | inl lt ↦ rw lt (h, (ground (arith, lt), up.1))
      | inr ge ↦ rw ge (up.0, Ascending-insert (suc j) k a m (ground (arith, ne, ge)) up.1)
    ])
  ]

  pub Ascending-erase : (lo k : ℕ) (m : List (ℕ × A)) → Ascending lo m → Ascending lo (erase k m)
  unfolding erase
  Ascending-erase lo k [] up = tt
  Ascending-erase lo k ((j, b) ∷ m) up = elim (Bool-cases (j == k)) [
    | inl e ↦ rw e (Ascending-erase lo k m (Ascending-le lo (suc j) m (omega (arith, up.0)) up.1))
    | inr ne ↦ rw ne (up.0, Ascending-erase (suc j) k m up.1)
  ]

  pub Ascending-find : (lo k : ℕ) (m : List (ℕ × A)) → k < lo → Ascending lo m → find k m ≡ none
  unfolding find
  Ascending-find lo k [] h up = refl
  Ascending-find lo k ((j, b) ∷ m) h up =
      ground (arith, h, up.0, Ascending-find (suc j) k m (omega (arith, h, up.0)) up.1)

  -- What the rest of a map holds, the map holds.
  pub find-rest :
      (lo j k : ℕ) (a b : A) (m : List (ℕ × A))
      → Ascending lo ((j, b) ∷ m)
      → find k m ≡ some a
      → find k ((j, b) ∷ m) ≡ some a
  unfolding find
  find-rest lo j k a b m up h = elim (Bool-cases (j == k)) [
    | inl e ↦ ground (arith, h, e, Ascending-find (suc j) k m (ground (arith, e)) up.1)
    | inr ne ↦ rw ne h
  ]
