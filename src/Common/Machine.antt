-- ===== src/Common/Machine.antt =====
-- What the program takes from the processor and the C library: the arithmetic of `float`, and the
-- value that an uninitialised field happens to hold. A `float` is its bit pattern, so that it can be
-- stored and sent; the operations on it are parameters, of which nothing is assumed.
use rtype_ci_cd.Common.{ℕ, Bool}
use rtype_ci_cd.Common.Int.{ℤ}

-- The IEEE 754 bit pattern, below 2 ^ 32.
abbrev pub Float : Type 0
Float = ℕ

-- The bit pattern of a `double`, below 2 ^ 64.
abbrev pub Double : Type 0
Double = ℕ

pub record Machine : Type 0 where
  pub add : Float → Float → Float
  pub sub : Float → Float → Float
  pub mul : Float → Float → Float
  pub div : Float → Float → Float
  pub lt : Float → Float → Bool
  pub le : Float → Float → Bool
  pub eq : Float → Float → Bool
  -- `std::sin`
  pub sin : Float → Float
  -- The conversions of an `int`, and of a `uint32_t` or a `size_t`.
  pub of_int : ℤ → Float
  pub of_uint : ℕ → Float
  -- `double`: the conversion of a `float`, the arithmetic, and `static_cast<int>`.
  pub wide : Float → Double
  pub sub_double : Double → Double → Double
  pub mul_double : Double → Double → Double
  pub lt_double : Double → Double → Bool
  pub to_int : Double → ℤ
  -- What a `uint32_t` field holds that the code never sets.
  pub indeterminate : ℕ
