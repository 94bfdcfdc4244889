-- ===== src/RTypeClient/Events.antt =====
-- The events of the packet loss of `RTypeClient::update` that are not older than a time.
use rtype_ci_cd.Common.{
  ℕ, ◌≤◌, ◌<◌, ◌≡◌, refl, List, [], ◌∷◌, ◌++◌, inl, inr, Bool-cases, leb, ltb, if◌then◌else◌, arith,
}
use rtype_ci_cd.RTypeClient.Types.{PacketEvent}
use rtype_ci_cd.RTypeClient.Loss.{drop_before}

-- The events from the time `t` on.
abbrev pub within : ℕ → List PacketEvent → List PacketEvent
within t [] = []
within t (e ∷ es) = let rest = within t es in if leb t e.timestamp then e ∷ rest else rest

-- The times do not fall, from `a` to `t`.
abbrev pub Between : ℕ → List PacketEvent → ℕ → Type 0
Between a [] t = a ≤ t
Between a (e ∷ es) t = (a ≤ e.timestamp) × Between e.timestamp es t

pub Between-weaken :
    (a b : ℕ) (es : List PacketEvent) (t : ℕ) → a ≤ b → Between b es t → Between a es t
Between-weaken a b [] t h k = omega arith
Between-weaken a b (e ∷ es) t h k = (omega (arith, k.0), k.1)

pub Between-le : (a : ℕ) (es : List PacketEvent) (t : ℕ) → Between a es t → a ≤ t
Between-le a [] t h = h
Between-le a (e ∷ es) t h = omega (arith, h.0, Between-le e.timestamp es t h.1)

pub Between-append :
    (a : ℕ) (es fs : List PacketEvent) (t u : ℕ)
    → Between a es t
    → Between t fs u
    → Between a (es ++ fs) u
Between-append a [] fs t u h k = Between-weaken a t fs u h k
Between-append a (e ∷ es) fs t u h k = (h.0, Between-append e.timestamp es fs t u h.1 k)

pub within-Between :
    (b a : ℕ) (es : List PacketEvent) (t : ℕ) → Between a es t → Between a (within b es) t
within-Between b a [] t h = h
within-Between b a (e ∷ es) t h = elim (Bool-cases (leb b e.timestamp)) [
  | inl new ↦ rw new (h.0, within-Between b e.timestamp es t h.1)
  | inr old ↦
      rw old
        (Between-weaken a e.timestamp (within b es) t h.0 (within-Between b e.timestamp es t h.1))
]

pub within_all :
    (b a : ℕ) (es : List PacketEvent) (t : ℕ) → Between a es t → b ≤ a → within b es ≡ es
within_all b a [] t h k = refl
within_all b a (e ∷ es) t h k =
    ground (arith, h.0, within_all b e.timestamp es t h.1 (omega (arith, h.0)))

pub within_none :
    (b a : ℕ) (es : List PacketEvent) (t : ℕ) → Between a es t → t < b → within b es ≡ []
within_none b a [] t h k = refl
within_none b a (e ∷ es) t h k =
    ground (arith, h.0, Between-le e.timestamp es t h.1, within_none b e.timestamp es t h.1 k)

pub drop_before-within :
    (b a : ℕ) (es : List PacketEvent) (t : ℕ) → Between a es t → drop_before b es ≡ within b es
unfolding drop_before
drop_before-within b a [] t h = refl
drop_before-within b a (e ∷ es) t h = elim (Bool-cases (ltb e.timestamp b)) [
  | inl old ↦ ground (arith, old, drop_before-within b e.timestamp es t h.1)
  | inr new ↦ ground (arith, new, within_all b e.timestamp es t h.1 (ground (arith, new)))
]

pub within_earlier :
    (c a : ℕ) (es : List PacketEvent) → c ≤ a → within c (within a es) ≡ within a es
within_earlier c a [] h = refl
within_earlier c a (e ∷ es) h = ground (arith, within_earlier c a es h)

pub within_later : (c a : ℕ) (es : List PacketEvent) → a ≤ c → within c (within a es) ≡ within c es
within_later c a [] h = refl
within_later c a (e ∷ es) h = ground (arith, within_later c a es h)

pub within-append :
    (b : ℕ) (es fs : List PacketEvent) → within b (es ++ fs) ≡ within b es ++ within b fs
within-append b [] fs = refl
within-append b (e ∷ es) fs = ground (arith, within-append b es fs)
