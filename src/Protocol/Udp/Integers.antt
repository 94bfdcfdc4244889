-- ===== src/Protocol/Udp/Integers.antt =====
-- The integer fields of the packets survive the wire.
use rtype_ci_cd.Common.{ℕ, ◌<◌, ◌≡◌, from_le, le_bytes, u32, arith}
use rtype_ci_cd.Common.Int.{ℤ, pos, negsuc, ◌≤ℤ◌}
use rtype_ci_cd.Protocol.Udp.Messages.{bits_of_int, int_of_bits}

-- The range of an `int32_t`.
abbrev pub IsInt32 : ℤ → Type 0
IsInt32 a = (negsuc 0x7fff_ffff ≤ℤ a) × (a ≤ℤ pos 0x7fff_ffff)

int_of_bits-bits_of_int : (a : ℤ) → IsInt32 a → int_of_bits (bits_of_int a) ≡ a
unfolding int_of_bits bits_of_int
int_of_bits-bits_of_int a h = ground arith

pub uint8-roundtrip : (v : ℕ) → v < 256 → from_le (le_bytes 1 v) ≡ v
uint8-roundtrip v h = omega arith

pub uint16-roundtrip : (v : ℕ) → v < 65536 → from_le (le_bytes 2 v) ≡ v
uint16-roundtrip v h = omega arith

pub uint32-roundtrip : (v : ℕ) → v < u32 → from_le (le_bytes 4 v) ≡ v
uint32-roundtrip v h = omega arith

bits_of_int-lt : (a : ℤ) → bits_of_int a < u32
unfolding bits_of_int
bits_of_int-lt a = ground arith

pub int32-roundtrip : (a : ℤ) → IsInt32 a → int_of_bits (from_le (le_bytes 4 (bits_of_int a))) ≡ a
int32-roundtrip a h =
    rw (uint32-roundtrip (bits_of_int a) (bits_of_int-lt a)) (int_of_bits-bits_of_int a h)
