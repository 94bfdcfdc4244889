-- ===== src/RingBuffer/Tests.antt =====
-- Runs of the ring of Include/Network/RingBuffer.hpp.
use rtype_ci_cd.Common.{ℕ, ◌≡◌, refl, true, false, none, some, List, [], ◌∷◌, arith}
use rtype_ci_cd.RingBuffer.Defs.{empty, push, pop}
use rtype_ci_cd.RingBuffer.Queue
use rtype_ci_cd.RingBuffer.Queue.{Op, put, get, Reply, stored, item}
use rtype_ci_cd.RingBuffer.Refinement.{run, run-empty_refines}

-- The third push meets a full ring; the last pop an empty one.
abbrev calls : List (Op ℕ)
calls = put 5 ∷ put 6 ∷ put 7 ∷ get ∷ put 8 ∷ get ∷ get ∷ get ∷ []

abbrev replies : List (Reply ℕ)
replies =
    stored true
    ∷ stored true
    ∷ stored false
    ∷ item (some 5)
    ∷ stored true
    ∷ item (some 6)
    ∷ item (some 8)
    ∷ item none
    ∷ []

run_test : run 2 (empty 2 0) calls ≡ replies
unfolding run empty push pop
run_test = refl

run-empty_refines_example : run 2 (empty 2 0) calls ≡ Queue.run 2 [] calls
run-empty_refines_example = run-empty_refines 2 0 calls (omega arith) (omega arith)
