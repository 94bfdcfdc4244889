-- ===== src/Common/Bytes.antt =====
-- Little-endian fields of packed structs (`#pragma pack(push, 1)`), as `memcpy` reads and writes them
-- on the x86 targets. A byte is a number below 256.
use Prim.Native.Nat.{ℕ, zero, suc, ◌+◌, ◌*◌, ◌/◌, ◌%◌, ◌^◌}
use mathlib.Core.Path.{◌≡◌, refl}
use mathlib.Core.List.{List, [], ◌∷◌}
use native.Mathlib.Omega.{arith}
use rtype_ci_cd.Common.Lists.{take, drop, length}
use rtype_ci_cd.Common.Tests.{◌==◌, if◌then◌else◌}

-- The `k` bytes of an unsigned integer.
abbrev pub le_bytes : ℕ → ℕ → List ℕ
le_bytes zero v = []
le_bytes (suc k) v = (v % 256) ∷ le_bytes k (v / 256)

abbrev pub from_le : List ℕ → ℕ
from_le [] = 0
from_le (b ∷ bs) = b + 256 * from_le bs

-- The unsigned integer of `k` bytes at an offset.
abbrev pub uint_at : ℕ → ℕ → List ℕ → ℕ
uint_at k offset bytes = from_le (take k (drop offset bytes))

abbrev pub u32 : ℕ
u32 = 2 ^ 32

abbrev pub u64 : ℕ
u64 = 2 ^ 64

pub length-le_bytes : (k v : ℕ) → length (le_bytes k v) ≡ k
length-le_bytes zero v = refl
length-le_bytes (suc k) v = omega (arith, length-le_bytes k (v / 256))

-- The characters of a C string: those before the first zero.
abbrev pub until_nul : List ℕ → List ℕ
until_nul [] = []
until_nul (c ∷ cs) = if c == 0 then [] else c ∷ until_nul cs
