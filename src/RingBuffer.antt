-- ===== src/RingBuffer.antt =====
-- Include/Network/RingBuffer.hpp: `RingBuffer<T, Capacity>`. Each operation holds `_mutex` from its
-- first line to its last, so it is one step; the lock itself is left out.
mod Defs
pub mod Queue
pub mod Invariant
pub mod Refinement
mod Tests
pub use Defs.{RingBuffer}
unfoldable pub use Defs.{empty, push, pop, is_empty, is_full, count, capacity}
