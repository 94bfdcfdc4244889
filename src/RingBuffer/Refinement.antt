-- ===== src/RingBuffer/Refinement.antt =====
-- A valid ring of Include/Network/RingBuffer.hpp behaves as the bounded queue of what it holds.
use rtype_ci_cd.Common.{
  ℕ, ◌+◌, ◌%◌, ◌<◌, ◌≡◌, refl, ◌∙◌, ◌⊎◌, inl, inr, some, List, [], ◌∷◌, ◌++◌, length, length-append,
  get_elem?, set, get_elem?-set_self, get_elem?-set_ne, ◌==◌, Bool-cases, arith, u64,
}
use rtype_ci_cd.RingBuffer.Defs.{RingBuffer, empty, push, pop}
use rtype_ci_cd.RingBuffer.Invariant.{IsValid, next_cases, empty-IsValid, push-IsValid, pop-IsValid}
use rtype_ci_cd.RingBuffer.Queue
use rtype_ci_cd.RingBuffer.Queue.{Op, put, get, Reply, stored, item}

module _ {ℓ} {A : Type ℓ} (cap : ℕ) where
  -- The items stand one after the other from index `t` on, going round at `cap`.
  abbrev pub Holds : List A → ℕ → List A → Type ℓ
  Holds buffer t [] = Unit
  Holds buffer t (x ∷ q) = (get_elem? buffer t ≡ some x) × Holds buffer ((t + 1) % u64 % cap) q

  pub record Represents (r : RingBuffer A) (q : List A) : Type ℓ where
    pub valid : IsValid cap r
    pub counted : length q ≡ r.count
    pub held : Holds r.buffer r.tail q

  Holds-set :
      (buffer : List A) (t h : ℕ) (q : List A) (x : A)
      → length buffer ≡ cap
      → cap < u64
      → t < cap
      → h < cap
      → length q < cap
      → (h ≡ t + length q) ⊎ (h + cap ≡ t + length q)
      → Holds buffer t q
      → Holds (set buffer h x) t (q ++ x ∷ [])
  Holds-set buffer t h [] x len small ht hh room at k =
      (subst_self (omega arith) (get_elem?-set_self buffer t x (omega arith)), tt)
    where
      subst_self :
          t ≡ h → get_elem? (set buffer t x) t ≡ some x → get_elem? (set buffer h x) t ≡ some x
      subst_self e p = cc
  Holds-set buffer t h (y ∷ q) x len small ht hh room at (k, ks) = (
    get_elem?-set_ne buffer x (omega arith) ∙ k,
    Holds-set buffer ((t + 1) % u64 % cap) h q x len small
        (omega (arith, next_cases t cap ht small)) hh (omega arith)
        (ground (arith, next_cases t cap ht small)) ks,
  )

  pub push_refines :
      {r : RingBuffer A} {q : List A} (x : A)
      → Represents r q
      → ((push cap r x).1 ≡ (Queue.push cap q x).1)
        × Represents (push cap r x).0 (Queue.push cap q x).0
  unfolding push Queue.push
  push_refines {r} {q} x v = elim (Bool-cases (r.count == cap)) [
    | inl full ↦ rw (v.counted, full) (refl, v)
    | inr room ↦
        rw (v.counted, room)
          (
            refl,
            record {
              valid = rw (push, room) at (push-IsValid cap x v.valid);
              counted = ground (arith, length-append q (x ∷ []));
              held =
                  Holds-set r.buffer r.tail r.head q x v.valid.storage v.valid.small v.valid.tail_in
                    v.valid.head_in (ground arith) (ground arith) v.held;
            },
          )
  ]

  pub pop_refines :
      {r : RingBuffer A} (q : List A)
      → Represents r q
      → ((pop cap r).1 ≡ (Queue.pop q).1) × Represents (pop cap r).0 (Queue.pop q).0
  unfolding pop Queue.pop
  pop_refines {r} [] v = ground (arith, pop-IsValid cap v.valid)
  pop_refines {r} (x ∷ q) v = ground (arith, pop-IsValid cap v.valid)

  -- A client's calls in order, with what each returns.
  unfoldable pub run : RingBuffer A → List (Op A) → List (Reply A)
  run r [] = []
  run r (put x ∷ ops) = let (r', b) = push cap r x in stored b ∷ run r' ops
  run r (get ∷ ops) = let (r', a) = pop cap r in item a ∷ run r' ops

  pub run_refines :
      (ops : List (Op A)) {r : RingBuffer A} {q : List A}
      → Represents r q
      → run r ops ≡ Queue.run cap q ops
  unfolding run Queue.run
  run_refines [] v = refl
  run_refines (put x ∷ ops) v =
      ground (arith, push_refines x v, run_refines ops (push_refines x v).1)
  run_refines (get ∷ ops) {q} v =
      ground (arith, pop_refines q v, run_refines ops (pop_refines q v).1)

  pub empty-Represents : (a : A) → 0 < cap → cap < u64 → Represents (empty cap a) []
  unfolding empty
  empty-Represents a h k = record { valid = empty-IsValid cap a h k; counted = refl; held = tt }

  -- Whatever a client does with a new ring, it sees the bounded first-in first-out queue: pushes are
  -- refused exactly when `cap` items are stored, and pops return the items in order of their pushes.
  pub run-empty_refines :
      (a : A) (ops : List (Op A))
      → 0 < cap
      → cap < u64
      → run (empty cap a) ops ≡ Queue.run cap [] ops
  run-empty_refines a ops h k = run_refines ops (empty-Represents a h k)
