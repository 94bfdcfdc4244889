-- ===== src/ConfigManager/Numbers.antt =====
-- What Src/Client/ConfigManager.cpp uses of the standard library's numbers: `<<` of an `int`, and
-- `std::stoi`.
use rtype_ci_cd.Common.{
  ℕ, zero, suc, ◌+◌, ◌-◌, ◌*◌, ◌/◌, ◌%◌, ◌^◌, ◌≤◌, ◌<◌, ◌≡◌, refl, ap, ◌∙◌, sym, ◌⊎◌, inl, inr,
  Bool, true, false, ◌&&◌, ◌||◌, Option, none, some, [], ◌∷◌, ◌++◌, ltb, leb, ◌==◌, if◌then◌else◌,
  Bool-cases, arith,
}
use rtype_ci_cd.Common.Int.{ℤ, pos, negsuc}
use rtype_ci_cd.Common.Strings.{Text}
use rtype_ci_cd.Protocol.Udp.Integers.{IsInt32}

-- The decimal digits of a number with at most `f` of them.
unfoldable pub show_digits : ℕ → ℕ → Text
show_digits zero n = []
show_digits (suc f) n =
    let front = show_digits f (n / 10) in
    if ltb n 10 then (48 + n) ∷ [] else front ++ (48 + n % 10) ∷ []

-- An `int` has at most ten digits.
unfoldable pub show_int : ℤ → Text
show_int (pos n) = show_digits 10 n
show_int (negsuc n) = b'-' ∷ show_digits 10 (n + 1)

abbrev pub is_digit : ℕ → Bool
is_digit c = leb 48 c && leb c 57

-- `isspace`.
abbrev pub is_space : ℕ → Bool
is_space c = c == 32 || leb 9 c && leb c 13

-- The number that the digits at the front stand for, after those with the value `n`.
unfoldable pub read_digits : ℕ → Text → ℕ
read_digits n [] = n
read_digits n (c ∷ cs) =
    let more = read_digits (n * 10 + (c - 48)) cs in if is_digit c then more else n

-- The digits are wanted; the value has to lie in the range of `int`.
unfoldable pub read_magnitude : Bool → Text → Option ℤ
read_magnitude negative [] = none
read_magnitude negative (c ∷ cs) =
    if is_digit c
    then (let n = read_digits 0 (c ∷ cs) in
        if negative
        then (if ltb 0x8000_0000 n then none else some (if n == 0 then pos 0 else negsuc (n - 1)))
        else (if ltb n 0x8000_0000 then some (pos n) else none))
    else none

unfoldable pub read_signed : Text → Option ℤ
read_signed [] = none
read_signed (c ∷ cs) =
    if c == b'-'
    then read_magnitude true cs
    else if c == b'+'
    then read_magnitude false cs
    else read_magnitude false (c ∷ cs)

-- Nothing where `stoi` throws. What stands behind the digits is passed over.
unfoldable pub stoi : Text → Option ℤ
stoi [] = none
stoi (c ∷ cs) = let rest = stoi cs in if is_space c then rest else read_signed (c ∷ cs)

abbrev pub AllDigits : Text → Type 0
AllDigits [] = Unit
AllDigits (c ∷ cs) = (is_digit c ≡ true) × AllDigits cs

AllDigits-append : (s : Text) (c : ℕ) → AllDigits s → is_digit c ≡ true → AllDigits (s ++ c ∷ [])
AllDigits-append [] c h k = (k, tt)
AllDigits-append (x ∷ s) c h k = (h.0, AllDigits-append s c h.1 k)

read_digits-append :
    (s : Text) (n d : ℕ)
    → AllDigits s
    → d < 10
    → read_digits n (s ++ (48 + d) ∷ []) ≡ read_digits n s * 10 + d
unfolding read_digits
read_digits-append [] n d h k = ground arith
read_digits-append (c ∷ s) n d h k =
    ground (arith, h.0, read_digits-append s (n * 10 + (c - 48)) d h.1 k)

show_digits-AllDigits : (f n : ℕ) → AllDigits (show_digits f n)
unfolding show_digits
show_digits-AllDigits zero n = tt
show_digits-AllDigits (suc f) n = elim (Bool-cases (ltb n 10)) [
  | inl small ↦ rw small (ground arith, tt)
  | inr large ↦ rw large (
      AllDigits-append (show_digits f (n / 10)) _ (show_digits-AllDigits f (n / 10)) (ground arith))
]

read_digits-show_digits : (f n : ℕ) → n < 10 ^ f → read_digits 0 (show_digits f n) ≡ n
unfolding show_digits
read_digits-show_digits zero n h = unfold read_digits in omega arith
read_digits-show_digits (suc f) n h =
    let power : 10 ^ suc f ≡ 10 * 10 ^ f = omega arith in
    let fewer : n / 10 < 10 ^ f = omega arith in
    elim (Bool-cases (ltb n 10)) [
      | inl small ↦ rw small (unfold read_digits in ground arith)
      | inr large ↦ rw large (
          read_digits-append (show_digits f (n / 10)) 0 (n % 10) (show_digits-AllDigits f (n / 10))
            (omega arith)
          ∙ rw (read_digits-show_digits f (n / 10) fewer) (omega arith))
    ]

-- The first digit, and the rest.
show_digits_cases :
    (f n : ℕ) → (c : ℕ) × (cs : Text) × (show_digits (suc f) n ≡ c ∷ cs) × (is_digit c ≡ true)
unfolding show_digits
show_digits_cases zero n = elim (Bool-cases (ltb n 10)) [
  | inl small ↦ (48 + n, [], rw small refl, ground arith)
  | inr large ↦ (48 + n % 10, [], rw large refl, ground arith)
]
show_digits_cases (suc f) n = elim (Bool-cases (ltb n 10)) [
  | inl small ↦ (48 + n, [], rw small refl, ground arith)
  | inr large ↦
      let (c, cs, e, digit) = show_digits_cases f (n / 10) in
      (c, cs ++ (48 + n % 10) ∷ [], rw large (ap (λ (s : Text). s ++ (48 + n % 10) ∷ []) e), digit)
]

stoi_digits :
    (f n : ℕ) → n < 10 ^ suc f → n < 0x8000_0000 → stoi (show_digits (suc f) n) ≡ some (pos n)
unfolding stoi read_signed read_magnitude
stoi_digits f n h k =
    let (c, cs, e, digit) = show_digits_cases f n in
    let value = read_digits-show_digits (suc f) n h in
    rw e (ground (arith, digit, ap (read_digits 0) (sym e) ∙ value))

read_negative :
    (f n : ℕ)
    → n < 10 ^ suc f
    → 0 < n
    → n ≤ 0x8000_0000
    → read_magnitude true (show_digits (suc f) n) ≡ some (negsuc (n - 1))
unfolding read_magnitude
read_negative f n h low high =
    let (c, cs, e, digit) = show_digits_cases f n in
    let value = read_digits-show_digits (suc f) n h in
    rw e (ground (arith, digit, ap (read_digits 0) (sym e) ∙ value))

-- What is written of an `int` is read back.
pub stoi-show_int : (a : ℤ) → IsInt32 a → stoi (show_int a) ≡ some a
unfolding show_int
stoi-show_int (pos n) h = stoi_digits 9 n (omega arith) (omega arith)
stoi-show_int (negsuc n) h =
    unfold stoi read_signed in
    (read_negative 9 (n + 1) (omega arith) (omega arith) (omega arith)
      ∙ ap (λ (k : ℕ). some (negsuc k)) (let e : n + 1 - 1 ≡ n = omega arith in e))

-- The characters of a number: digits, behind a sign if it is negative.
pub show_int_cases :
    (a : ℤ) → (AllDigits (show_int a)) ⊎ ((s : Text) × (show_int a ≡ b'-' ∷ s) × AllDigits s)
unfolding show_int
show_int_cases (pos n) = inl (show_digits-AllDigits 10 n)
show_int_cases (negsuc n) = inr (show_digits 10 (n + 1), refl, show_digits-AllDigits 10 (n + 1))

pub show_int-cons : (a : ℤ) → (c : ℕ) × (cs : Text) × (show_int a ≡ c ∷ cs)
unfolding show_int
show_int-cons (pos n) = let (c, cs, e, _) = show_digits_cases 9 n in (c, cs, e)
show_int-cons (negsuc n) = (b'-', show_digits 10 (n + 1), refl)
