-- ===== src/RingBuffer/Defs.antt =====
-- The operations of Include/Network/RingBuffer.hpp.
use rtype_ci_cd.Common.{
  ℕ, ◌+◌, ◌-◌, ◌%◌, Bool, true, false, Option, none, List, get_elem?, set, replicate, ◌==◌,
  if◌then◌else◌, u64,
}

-- The template's parameters `T` and `Capacity`.
module _ {ℓ} (A : Type ℓ) where
  pub record RingBuffer : Type ℓ where
    pub buffer : List A
    pub head : ℕ
    pub tail : ℕ
    pub count : ℕ

module _ {ℓ} {A : Type ℓ} where
  -- The constructor. The elements of `std::array` are default-initialised; `a` stands for that value.
  unfoldable pub empty : ℕ → A → RingBuffer A
  empty cap a = record { buffer = replicate cap a; head = 0; tail = 0; count = 0 }

  module _ (cap : ℕ) where
    unfoldable pub push : RingBuffer A → A → RingBuffer A × Bool
    push r item = if r.count == cap then (r, false) else (
      record r {
        buffer = set r.buffer r.head item;
        head = (r.head + 1) % u64 % cap;
        count = (r.count + 1) % u64;
      },
      true,
    )

    -- `none` for the item would be a read out of range; `Invariant` rules it out.
    unfoldable pub pop : RingBuffer A → RingBuffer A × Option A
    pop r = if r.count == 0 then (r, none) else (
      record r { tail = (r.tail + 1) % u64 % cap; count = r.count - 1 },
      get_elem? r.buffer r.tail,
    )

    unfoldable pub is_full : RingBuffer A → Bool
    is_full r = r.count == cap

  unfoldable pub is_empty : RingBuffer A → Bool
  is_empty r = r.count == 0

  unfoldable pub count : RingBuffer A → ℕ
  count r = r.count

unfoldable pub capacity : ℕ → ℕ
capacity cap = cap
