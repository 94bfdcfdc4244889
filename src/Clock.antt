-- ===== src/Clock.antt =====
-- Include/Clock.hpp: the milliseconds since a start, as the match measures its times.
pub mod Elapsed
mod Tests
use rtype_ci_cd.Common.{ℕ, ◌-◌, ◌/◌, ◌%◌, u32}

-- `_startTime`, in nanoseconds of the steady part of the high-resolution clock.
pub record Clock : Type 0 where
  pub start_time : ℕ

-- `duration_cast` cuts to whole milliseconds, and the cast to 32 bits. `now` is not before the start.
unfoldable pub get_elapsed_time_ms : ℕ → Clock → ℕ
get_elapsed_time_ms now c = ((now - c.start_time) / 1_000_000) % u32
