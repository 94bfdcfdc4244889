-- ===== src/RingBuffer/Queue.antt =====
-- What Include/Network/RingBuffer.hpp promises: a queue of at most `cap` items, oldest first.
use rtype_ci_cd.Common.{
  ℕ, Bool, true, false, Option, none, some, List, [], ◌∷◌, ◌++◌, length, ◌==◌, if◌then◌else◌,
}

-- What a client can ask of the ring.
pub data Op {ℓ} (A : Type ℓ) : Type ℓ where
  put : A → Op A
  get : Op A

-- What it sees of a call.
pub data Reply {ℓ} (A : Type ℓ) : Type ℓ where
  stored : Bool → Reply A
  item : Option A → Reply A

module _ {ℓ} {A : Type ℓ} where
  unfoldable pub pop : List A → List A × Option A
  pop [] = ([], none)
  pop (x ∷ q) = (q, some x)

  unfoldable pub push : ℕ → List A → A → List A × Bool
  push cap q x = if length q == cap then (q, false) else (q ++ x ∷ [], true)

  unfoldable pub run : ℕ → List A → List (Op A) → List (Reply A)
  run cap q [] = []
  run cap q (put x ∷ ops) = let (q', b) = push cap q x in stored b ∷ run cap q' ops
  run cap q (get ∷ ops) = let (q', a) = pop q in item a ∷ run cap q' ops
