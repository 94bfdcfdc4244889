-- ===== src/RingBuffer/Invariant.antt =====
-- The representation invariant of Include/Network/RingBuffer.hpp.
use rtype_ci_cd.Common.{
  ℕ, ◌+◌, ◌%◌, ◌≤◌, ◌<◌, ◌≡◌, ◌⊎◌, inl, arith, length, length-set, length-replicate, u64,
}
use rtype_ci_cd.RingBuffer.Defs.{RingBuffer, empty, push, pop}

-- One step round an array of `cap` elements.
pub next_cases :
    (h cap : ℕ)
    → h < cap
    → cap < u64
    → ((h + 1 < cap) × ((h + 1) % u64 % cap ≡ h + 1)) ⊎ ((h + 1 ≡ cap) × ((h + 1) % u64 % cap ≡ 0))
next_cases h cap lt small = grind arith

module _ {ℓ} {A : Type ℓ} (cap : ℕ) where
  -- The indices lie in the array, and the two of them are `count` apart, going round at `cap`.
  pub record IsValid (r : RingBuffer A) : Type 0 where
    pub storage : length r.buffer ≡ cap
    pub small : cap < u64
    pub head_in : r.head < cap
    pub tail_in : r.tail < cap
    pub count_in : r.count ≤ cap
    pub apart : (r.head ≡ r.tail + r.count) ⊎ (r.head + cap ≡ r.tail + r.count)

  pub empty-IsValid : (a : A) → 0 < cap → cap < u64 → IsValid (empty cap a)
  unfolding empty
  empty-IsValid a h k = record {
    storage = length-replicate cap a;
    small = k;
    head_in = h;
    tail_in = h;
    count_in = omega arith;
    apart = inl (omega arith);
  }

  pub push-IsValid : {r : RingBuffer A} (a : A) → IsValid r → IsValid (push cap r a).0
  unfolding push
  push-IsValid {r} a v =
      ground (arith, length-set r.buffer r.head a, next_cases r.head cap v.head_in v.small)

  pub pop-IsValid : {r : RingBuffer A} → IsValid r → IsValid (pop cap r).0
  unfolding pop
  pop-IsValid {r} v = ground (arith, next_cases r.tail cap v.tail_in v.small)
