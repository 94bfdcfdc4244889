-- ===== src/NetworkUtils/Tests.antt =====
-- Runs of Include/Server/Utils.hpp over a stream that moves at most two bytes a call.
use rtype_ci_cd.Common.{
  ℕ, zero, suc, ◌≤◌, ◌≡◌, refl, true, ◌||◌, ◌==◌, List, [], ◌∷◌, ◌++◌, length, take, arith,
}
use rtype_ci_cd.NetworkUtils.{Sock, recv_all, send_all, send_loop}
use rtype_ci_cd.NetworkUtils.Transfer.{Receives, Sends, Got, recv_all-Got, recv_all-send_all}

-- At most two of the bytes, and at most `n`.
abbrev some_of : ℕ → List ℕ → List ℕ
some_of zero bs = []
some_of (suc n) [] = []
some_of (suc zero) (b ∷ bs) = b ∷ []
some_of (suc (suc n)) (b ∷ []) = b ∷ []
some_of (suc (suc n)) (b ∷ c ∷ bs) = b ∷ c ∷ []

abbrev rest_of : ℕ → List ℕ → List ℕ
rest_of zero bs = bs
rest_of (suc n) [] = []
rest_of (suc zero) (b ∷ bs) = bs
rest_of (suc (suc n)) (b ∷ []) = []
rest_of (suc (suc n)) (b ∷ c ∷ bs) = bs

abbrev fits : List ℕ → ℕ
fits [] = 0
fits (b ∷ []) = 1
fits (b ∷ c ∷ bs) = 2

-- The state is the bytes to come, or those that were sent.
abbrev slow : Sock (List ℕ)
slow = record {
  recv = λ n s. (some_of n s, rest_of n s);
  send = λ bs s. (fits bs, s ++ take (fits bs) bs);
}

some_of-rest_of : (n : ℕ) (s : List ℕ) → some_of n s ++ rest_of n s ≡ s
some_of-rest_of zero s = refl
some_of-rest_of (suc n) [] = refl
some_of-rest_of (suc zero) (b ∷ bs) = refl
some_of-rest_of (suc (suc n)) (b ∷ []) = refl
some_of-rest_of (suc (suc n)) (b ∷ c ∷ bs) = refl

length-some_of : (n : ℕ) (s : List ℕ) → length (some_of n s) ≤ n
length-some_of zero s = omega arith
length-some_of (suc n) [] = omega arith
length-some_of (suc zero) (b ∷ bs) = omega arith
length-some_of (suc (suc n)) (b ∷ []) = omega arith
length-some_of (suc (suc n)) (b ∷ c ∷ bs) = omega arith

nothing_to_come :
    (n : ℕ) (s : List ℕ) → length (some_of n s) ≡ 0 → ((n == 0) || (length s == 0)) ≡ true
nothing_to_come zero s e = refl
nothing_to_come (suc n) [] e = ground arith
nothing_to_come (suc zero) (b ∷ bs) e = absurd (omega (arith, e))
nothing_to_come (suc (suc n)) (b ∷ []) e = absurd (omega (arith, e))
nothing_to_come (suc (suc n)) (b ∷ c ∷ bs) e = absurd (omega (arith, e))

slow-Receives : Receives slow (λ s. s)
slow-Receives = record {
  next_bytes = some_of-rest_of;
  at_most = length-some_of;
  at_least = nothing_to_come;
}

fits-le : (bs : List ℕ) → fits bs ≤ length bs
fits-le [] = omega arith
fits-le (b ∷ []) = omega arith
fits-le (b ∷ c ∷ bs) = omega arith

slow-Sends : Sends slow (λ s. s)
slow-Sends = record { taken = λ bs s. fits-le bs; first_bytes = λ bs s. refl }

recv_all-Got_example : Got (λ s. s) 3 (5 ∷ 6 ∷ 7 ∷ 8 ∷ []) (recv_all slow 3 (5 ∷ 6 ∷ 7 ∷ 8 ∷ []))
recv_all-Got_example = recv_all-Got slow (λ s. s) 3 (5 ∷ 6 ∷ 7 ∷ 8 ∷ []) slow-Receives

recv_all-send_all_example :
    let got = recv_all slow 3 (5 ∷ 6 ∷ 7 ∷ 8 ∷ []) in
    (got.0 ≡ 5 ∷ 6 ∷ 7 ∷ []) × (got.1 ≡ true) × (got.2 ≡ 8 ∷ [])
unfolding send_all send_loop
recv_all-send_all_example =
    recv_all-send_all slow slow (λ s. s) (λ s. s) (5 ∷ 6 ∷ 7 ∷ []) (8 ∷ []) [] (5 ∷ 6 ∷ 7 ∷ 8 ∷ [])
      slow-Sends slow-Receives refl refl refl
