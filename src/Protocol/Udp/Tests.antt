-- ===== src/Protocol/Udp/Tests.antt =====
-- Packets of Include/Network/Protocole/ProtocoleUDP.hpp, written and read.
use rtype_ci_cd.Common.{◌+◌, ◌≡◌, refl, List, [], ◌∷◌, ◌++◌, length, take, ◌/◌, arith}
use rtype_ci_cd.Common.Int.{pos, negsuc}
use rtype_ci_cd.Protocol.Udp.Messages.{
  SyncedEntityState, UdpMessage, boss_state, global_state_sync, bits_of_int, bytes_of, size_of,
  read_count, read_states,
}
use rtype_ci_cd.Protocol.Udp.Roundtrip.{ReadsBack, bytes_of-ReadsBack}
use rtype_ci_cd.Protocol.Udp.Sync.{sync_cut}

-- The boss after the blow that killed it.
abbrev dead_boss : UdpMessage
dead_boss = boss_state (record { hp = negsuc 39; max_hp = pos 1000 })

bytes_of_test : bytes_of dead_boss ≡ 11 ∷ 0xd8 ∷ 0xff ∷ 0xff ∷ 0xff ∷ 0xe8 ∷ 3 ∷ 0 ∷ 0 ∷ []
unfolding bytes_of bits_of_int
bytes_of_test = refl

bytes_of-ReadsBack_example :
    (length (bytes_of dead_boss) ≡ size_of dead_boss)
    × ReadsBack dead_boss (bytes_of dead_boss ++ 7 ∷ [])
bytes_of-ReadsBack_example =
    bytes_of-ReadsBack dead_boss (7 ∷ []) ((omega arith, omega arith), (omega arith, omega arith))

abbrev states : List SyncedEntityState
states =
    record { entity_id = 1; entity_type = 2; x = 0x44f00000; y = 0x43480000 }
    ∷ record { entity_id = 70000; entity_type = 10; x = 0x44bb8000; y = 0x43c80000 }
    ∷ []

-- Of two states, 20 bytes arrive: one is whole.
sync_cut_example :
    let buffer = take (5 + 20) (bytes_of (global_state_sync (length states) states) ++ 9 ∷ []) in
    (read_count buffer ≡ length states)
    × (read_states (read_count buffer) 5 buffer ≡ take (20 / 14) states)
sync_cut_example =
    sync_cut states 20 (9 ∷ [])
      (
        (omega arith, omega arith, omega arith, omega arith),
        ((omega arith, omega arith, omega arith, omega arith), tt),
      )
      (omega arith)
