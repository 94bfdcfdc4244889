-- ===== src/Clock/Elapsed.antt =====
-- The differences of two readings of the clock of Include/Clock.hpp, as `RTypeClient` takes them.
use rtype_ci_cd.Common.{ℕ, ◌+◌, ◌-◌, ◌*◌, ◌/◌, ◌%◌, ◌≤◌, ◌<◌, u32, arith}
use rtype_ci_cd.Clock.{Clock, get_elapsed_time_ms}

-- Of two readings of one clock less than 2^32 - 1 milliseconds apart, the unsigned difference is the time
-- between them in whole milliseconds, or one more, also where the count of milliseconds wraps in between.
pub get_elapsed_time_ms-difference :
    (c : Clock) (before now : ℕ)
    → c.start_time ≤ before
    → before ≤ now
    → now - before < 4_294_967_295 * 1_000_000
    → let past = (get_elapsed_time_ms now c + u32 - get_elapsed_time_ms before c) % u32 in
      ((now - before) / 1_000_000 ≤ past) × (past ≤ (now - before) / 1_000_000 + 1)
unfolding get_elapsed_time_ms
get_elapsed_time_ms-difference c before now h k small = (omega arith, omega arith)
