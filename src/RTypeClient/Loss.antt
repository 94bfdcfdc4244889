-- ===== src/RTypeClient/Loss.antt =====
-- The packet loss that `RTypeClient::update` shows: the events of the last seconds, and their percentage.
use rtype_ci_cd.Common.{
  ℕ, ◌+◌, ◌-◌, ◌%◌, Bool, true, false, List, [], ◌∷◌, ◌++◌, length, replicate, ltb, if◌then◌else◌,
  u32,
}
use rtype_ci_cd.Common.Machine.{Machine, Float}
use rtype_ci_cd.Common.Floats
use rtype_ci_cd.RTypeClient.Types.{PacketEvent, PacketStatus, received, lost, LossStats}

-- `PACKET_LOSS_WINDOW_SECONDS * 1000`
abbrev pub window_ms : ℕ
window_ms = 5000

abbrev pub event : PacketStatus → ℕ → PacketEvent
event status now = record { status = status; timestamp = now }

-- What a state packet of the own player with the number `sequence` adds to the events.
unfoldable pub note_sequence : ℕ → ℕ → LossStats → LossStats
note_sequence sequence now s =
    if s.is_first_server_packet
    then record s {
      last_server_seq = sequence;
      packet_events = s.packet_events ++ event received now ∷ [];
      is_first_server_packet = false;
    }
    else if ltb s.last_server_seq sequence
    then record s {
      packet_events =
          s.packet_events
          ++ (replicate (sequence - s.last_server_seq - 1) (event lost now)
              ++ event received now ∷ []);
      last_server_seq = sequence;
    }
    else s

unfoldable pub cutoff : ℕ → ℕ
cutoff now = (now + u32 - window_ms) % u32

-- `while (!empty() && front().timestamp < cutoffTime) pop_front()`
unfoldable pub drop_before : ℕ → List PacketEvent → List PacketEvent
drop_before time [] = []
drop_before time (e ∷ es) =
    let rest = drop_before time es in if ltb e.timestamp time then rest else e ∷ es

unfoldable pub is_lost : PacketStatus → Bool
is_lost received = false
is_lost lost = true

unfoldable pub count_lost : List PacketEvent → ℕ
count_lost [] = 0
count_lost (e ∷ es) = let rest = count_lost es in if is_lost e.status then rest + 1 else rest

module _ (m : Machine) where
  unfoldable pub percentage : List PacketEvent → Float
  percentage [] = Floats.zero_f
  percentage (e ∷ es) =
      m.mul (m.div (m.of_uint (count_lost (e ∷ es))) (m.of_uint (length (e ∷ es)))) Floats.hundred

  unfoldable pub note_state : ℕ → ℕ → LossStats → LossStats
  note_state sequence now s =
      let noted = note_sequence sequence now s in
      let kept = drop_before (cutoff now) noted.packet_events in
      record noted { packet_events = kept; packet_loss_percentage = percentage kept }
