-- ===== src/NetworkUtils/Transfer.antt =====
-- What `recvAll` and `sendAll` of Include/Server/Utils.hpp promise.
use rtype_ci_cd.Common.{
  ℕ, zero, suc, ◌+◌, ◌-◌, ◌≤◌, ◌≡◌, refl, sym, ap, ◌∙◌, subst, inl, inr, Bool, true, false, ◌||◌,
  List, [], ◌∷◌, ◌++◌, length, length-append, take, drop, take_all, length-drop, take-append,
  drop-append, ◌==◌, leb, Bool-cases, arith,
}
use mathlib.Core.List.{append_assoc, append-nil}
use rtype_ci_cd.NetworkUtils.{Sock, recv_loop, recv_all, send_loop, send_all}

-- What the manual says of `recv` on a stream whose bytes to come are `coming`: the next ones, at most as
-- many as asked for, and none only if none is asked for or none comes.
pub record Receives {S : Type 0} (io : Sock S) (coming : S → List ℕ) : Type 0 where
  pub next_bytes : (n : ℕ) (s : S) → (io.recv n s).0 ++ coming (io.recv n s).1 ≡ coming s
  pub at_most : (n : ℕ) (s : S) → length (io.recv n s).0 ≤ n
  pub at_least :
      (n : ℕ) (s : S) → length (io.recv n s).0 ≡ 0 → ((n == 0) || (length (coming s) == 0)) ≡ true

-- And of `send`, where `sent` is all that it took: it takes the first bytes.
pub record Sends {S : Type 0} (io : Sock S) (sent : S → List ℕ) : Type 0 where
  pub taken : (bytes : List ℕ) (s : S) → (io.send bytes s).0 ≤ length bytes
  pub first_bytes :
      (bytes : List ℕ) (s : S) → sent (io.send bytes s).1 ≡ sent s ++ take (io.send bytes s).0 bytes

suc_ne_zero : (n : ℕ) → (suc n == 0) ≡ false
suc_ne_zero n = ground arith

take-nil : (n : ℕ) → take {A = ℕ} n [] ≡ []
take-nil zero = refl
take-nil (suc n) = refl

take-add : (n k : ℕ) (xs : List ℕ) → take (n + k) xs ≡ take n xs ++ take k (drop n xs)
take-add zero k xs = ap (λ (i : ℕ). take i xs) (omega arith)
take-add (suc n) zero [] = take-nil (suc n + 0)
take-add (suc n) (suc k) [] = take-nil (suc n + suc k)
take-add (suc n) k (x ∷ xs) =
    let e : suc n + k ≡ suc (n + k) = omega arith in
    ap (λ (i : ℕ). take i (x ∷ xs)) e ∙ ap (λ (l : List ℕ). x ∷ l) (take-add n k xs)

take-longer :
    (xs ys : List ℕ) (n : ℕ) → length xs ≤ n → take n (xs ++ ys) ≡ xs ++ take (n - length xs) ys
take-longer [] ys n h = ap (λ (k : ℕ). take k ys) (omega arith)
take-longer (x ∷ xs) ys zero h = absurd (let e : suc (length xs) ≤ 0 = h in omega (arith, e))
take-longer (x ∷ xs) ys (suc n) h = ground (arith, take-longer xs ys n)

drop-longer : (xs ys : List ℕ) (n : ℕ) → length xs ≤ n → drop n (xs ++ ys) ≡ drop (n - length xs) ys
drop-longer [] ys n h = ap (λ (k : ℕ). drop k ys) (omega arith)
drop-longer (x ∷ xs) ys zero h = absurd (let e : suc (length xs) ≤ 0 = h in omega (arith, e))
drop-longer (x ∷ xs) ys (suc n) h = ground (arith, drop-longer xs ys n)

-- The result of receiving `n` bytes, where `bytes` are to come.
abbrev pub Got : {S : Type 0} → (S → List ℕ) → ℕ → List ℕ → List ℕ × Bool × S → Type 0
Got coming n bytes r =
    (r.0 ≡ take n bytes) × (r.1 ≡ leb n (length bytes)) × (coming r.2 ≡ drop n bytes)

Got-append :
    {S : Type 0} (coming : S → List ℕ) (n : ℕ) (front bytes : List ℕ) (r : List ℕ × Bool × S)
    → length front ≤ n
    → Got coming (n - length front) bytes r
    → Got coming n (front ++ bytes) (front ++ r.0, r.1, r.2)
Got-append coming n front bytes r h (p, q, d) = (
  ap (λ (l : List ℕ). front ++ l) p ∙ sym (take-longer front bytes n h),
  q ∙ ground (arith, length-append front bytes),
  d ∙ sym (drop-longer front bytes n h),
)

-- Nothing was received, since nothing is to come.
stop-Got :
    {S : Type 0} (coming : S → List ℕ) (n : ℕ) (got bytes rest : List ℕ) (next : S)
    → length got ≡ 0
    → length bytes ≡ 0
    → got ++ rest ≡ bytes
    → coming next ≡ rest
    → Got coming (suc n) bytes ([], false, next)
stop-Got coming n [] [] rest next p q e d = (refl, ground arith, d ∙ e)
stop-Got coming n (x ∷ got) bytes rest next p q e d = absurd (omega (arith, p))
stop-Got coming n [] (x ∷ bytes) rest next p q e d = absurd (omega (arith, q))

module _ {S : Type 0} (io : Sock S) where
  recv_loop-Got :
      (coming : S → List ℕ) (fuel n : ℕ) (s : S)
      → Receives io coming
      → n ≤ fuel
      → Got coming n (coming s) (recv_loop io fuel n s)
  unfolding recv_loop
  recv_loop-Got coming zero zero s laws h = (refl, ground arith, refl)
  recv_loop-Got coming zero (suc n) s laws h = absurd (omega (arith, h))
  recv_loop-Got coming (suc fuel) zero s laws h = (refl, ground arith, refl)
  recv_loop-Got coming (suc fuel) (suc n) s laws h =
      let bytes = (io.recv (suc n) s).0 in
      let next = (io.recv (suc n) s).1 in
      elim (Bool-cases (length bytes == 0)) [
        | inl none ↦
            rw (suc_ne_zero n, none, recv_loop)
              (stop-Got coming n bytes (coming s) (coming next) next (ground (arith, none))
                (ground (arith, laws.at_least (suc n) s, none)) (laws.next_bytes (suc n) s) refl)
        | inr some ↦
            rw (suc_ne_zero n, some, recv_loop)
              (subst
                (λ (l : List ℕ). Got coming (suc n) l (
                  bytes ++ (recv_loop io fuel (suc n - length bytes) next).0,
                  (recv_loop io fuel (suc n - length bytes) next).1,
                  (recv_loop io fuel (suc n - length bytes) next).2,
                ))
                (laws.next_bytes (suc n) s)
                (Got-append coming (suc n) bytes (coming next)
                  (recv_loop io fuel (suc n - length bytes) next) (laws.at_most (suc n) s)
                  (recv_loop-Got coming fuel (suc n - length bytes) next laws (ground arith))))
      ]

-- What was sent of the bytes: all of them, or the first `k`.
abbrev pub Put : {S : Type 0} → (S → List ℕ) → S → List ℕ → Bool × S → Type 0
Put sent s bytes r =
    (k : ℕ) × (k ≤ length bytes) × (sent r.1 ≡ sent s ++ take k bytes) × (r.0 ≡ (k == length bytes))

Put-drop :
    {S : Type 0} (sent : S → List ℕ) (s next : S) (n : ℕ) (bytes : List ℕ) (r : Bool × S)
    → n ≤ length bytes
    → sent next ≡ sent s ++ take n bytes
    → Put sent next (drop n bytes) r
    → Put sent s bytes r
Put-drop sent s next n bytes r h e (k, le, p, q) = (
  n + k,
  omega (arith, h, le, length-drop n bytes),
  p
      ∙ (ap (λ (l : List ℕ). l ++ take k (drop n bytes)) e
          ∙ (append_assoc (sent s) (take n bytes) (take k (drop n bytes))
              ∙ ap (λ (l : List ℕ). sent s ++ l) (sym (take-add n k bytes)))),
  q ∙ ground (arith, length-drop n bytes, le),
)

module _ {S : Type 0} (io : Sock S) where
  send_loop-Put :
      (sent : S → List ℕ) (fuel : ℕ) (bytes : List ℕ) (s : S)
      → Sends io sent
      → length bytes ≤ fuel
      → Put sent s bytes (send_loop io fuel bytes s)
  unfolding send_loop
  send_loop-Put sent zero [] s laws h = (0, omega arith, sym (append-nil (sent s)), ground arith)
  send_loop-Put sent zero (x ∷ xs) s laws h = absurd (omega (arith, h))
  send_loop-Put sent (suc fuel) [] s laws h =
      (0, omega arith, sym (append-nil (sent s)), ground arith)
  send_loop-Put sent (suc fuel) (x ∷ xs) s laws h =
      let bytes : List ℕ = x ∷ xs in
      let n = (io.send bytes s).0 in
      let next = (io.send bytes s).1 in
      elim (Bool-cases (n == 0)) [
        | inl none ↦
            rw (suc_ne_zero (length xs), none, send_loop)
              (
                0,
                omega arith,
                laws.first_bytes bytes s
                    ∙ ap (λ (i : ℕ). sent s ++ take i bytes) {y = 0} (ground (arith, none)),
                ground arith,
              )
        | inr some ↦
            rw (suc_ne_zero (length xs), some, send_loop)
              (Put-drop sent s next n bytes (send_loop io fuel (drop n bytes) next)
                (laws.taken bytes s) (laws.first_bytes bytes s)
                (send_loop-Put sent fuel (drop n bytes) next laws
                  (ground (arith, length-drop n bytes, some))))
      ]

-- Over a stream as the manual describes it, `recvAll` of `n` bytes takes the next `n` bytes, leaves the
-- others, and returns true, if so many are to come; if not, it takes those that are, and returns false.
pub recv_all-Got :
    {S : Type 0} (io : Sock S) (coming : S → List ℕ) (n : ℕ) (s : S)
    → Receives io coming
    → Got coming n (coming s) (recv_all io n s)
unfolding recv_all
recv_all-Got io coming n s laws = recv_loop-Got io coming n n s laws (omega arith)

sent-all :
    {S : Type 0} (sent : S → List ℕ) (bytes : List ℕ) (s : S) (r : Bool × S)
    → sent s ≡ []
    → r.0 ≡ true
    → Put sent s bytes r
    → sent r.1 ≡ bytes
sent-all sent bytes s r new ok (k, le, p, q) =
    p
    ∙ (ap (λ (l : List ℕ). l ++ take k bytes) new
        ∙ take_all k bytes (let same = sym ok ∙ q in ground (arith, same)))

-- Where `sendAll` returns true on a new stream, `recvAll` of as many bytes at the other end returns true with
-- the same bytes, in whatever pieces they went, and leaves what was sent after them.
pub recv_all-send_all :
    {S R : Type 0} (out : Sock S) (io : Sock R) (sent : S → List ℕ) (coming : R → List ℕ)
    (bytes rest : List ℕ) (s : S) (r : R)
    → Sends out sent
    → Receives io coming
    → sent s ≡ []
    → (send_all out bytes s).0 ≡ true
    → coming r ≡ sent (send_all out bytes s).1 ++ rest
    → let got = recv_all io (length bytes) r in
      (got.0 ≡ bytes) × (got.1 ≡ true) × (coming got.2 ≡ rest)
unfolding send_all
recv_all-send_all out io sent coming bytes rest s r sends receives new ok e =
    let put = send_loop-Put out sent (length bytes) bytes s sends (omega arith) in
    let whole = sent-all sent bytes s (send_all out bytes s) new ok put in
    let all : coming r ≡ bytes ++ rest = e ∙ ap (λ (l : List ℕ). l ++ rest) whole in
    let got : Got coming (length bytes) (bytes ++ rest) (recv_all io (length bytes) r) =
      subst (λ (l : List ℕ). Got coming (length bytes) l (recv_all io (length bytes) r)) all
        (recv_all-Got io coming (length bytes) r receives) in
    (
      got.0 ∙ take-append bytes rest,
      got.1 ∙ ground (arith, length-append bytes rest),
      got.2 ∙ drop-append (length bytes) bytes rest refl,
    )
