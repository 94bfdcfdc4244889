-- ===== src/Clock/Tests.antt =====
-- Readings of the clock of Include/Clock.hpp.
use rtype_ci_cd.Common.{◌+◌, ◌-◌, ◌/◌, ◌%◌, ◌≤◌, u32, arith}
use rtype_ci_cd.Clock.{Clock, get_elapsed_time_ms}
use rtype_ci_cd.Clock.Elapsed.{get_elapsed_time_ms-difference}

abbrev clock : Clock
clock = record { start_time = 77 }

-- The count of milliseconds wraps between the two readings.
get_elapsed_time_ms-difference_example :
    let past =
      (get_elapsed_time_ms 4_294_967_300_000_077 clock
        + u32
        - get_elapsed_time_ms 4_294_967_290_000_077 clock)
      % u32 in
    ((4_294_967_300_000_077 - 4_294_967_290_000_077) / 1_000_000 ≤ past)
    × (past ≤ (4_294_967_300_000_077 - 4_294_967_290_000_077) / 1_000_000 + 1)
get_elapsed_time_ms-difference_example =
    get_elapsed_time_ms-difference clock 4_294_967_290_000_077 4_294_967_300_000_077 (omega arith)
      (omega arith) (omega arith)
