-- ===== src/Protocol/Udp.antt =====
-- Include/Network/Protocole/ProtocoleUDP.hpp: the input bits here, the packed structs in `Messages`.
pub mod MessageType
pub mod Messages
pub mod Integers
pub mod Sync
pub mod Roundtrip
mod Tests
use rtype_ci_cd.Common.{
  ℕ, ◌+◌, ◌-◌, ◌*◌, ◌%◌, Bool, not, List, ◌∷◌, [], ◌++◌, le_bytes, uint_at, u32, ◌==◌,
  if◌then◌else◌, ltb,
}
use rtype_ci_cd.Common.Int.{ℤ, pos, negsuc}
use rtype_ci_cd.Common.Machine.{Float}
use Prim.Native.Nat.{bit_and}

abbrev pub max_udp_packet_size : ℕ
max_udp_packet_size = 1024

-- `enum Input`: the bits of `PlayerInputPacket::inputs`.
pub data Input : Type 0 where
  up down left right pressed hold : Input

unfoldable pub mask : Input → ℕ
mask Input.up = 1
mask Input.down = 2
mask Input.left = 4
mask Input.right = 8
mask Input.pressed = 16
mask Input.hold = 32

-- `inputs & bit`, as a condition.
unfoldable pub has_input : ℕ → Input → Bool
has_input inputs i = not (bit_and inputs (mask i) == 0)
