-- ===== src/Loss.antt =====
-- A chunk of a log block is no longer valid: the three calls of `decrementValidChunks` that stand
-- together throughout `ftl_page_mapped/read.c`, `ftl_page_mapped/write.c` and `ftl_page_mapped/ftl.c`.
pub mod View
use fast2016_ftl.Common.{ℕ, Option, ◌>>=◌}
use fast2016_ftl.Heap.{decrement_valid_chunks}
use fast2016_ftl.World.{World, first, second, cold, on_dram}

pub lose_chunk : ℕ → ℕ → World → Option World
lose_chunk bank lbn w = on_dram (decrement_valid_chunks (first w) bank lbn) w >>= λ w1.
    on_dram (decrement_valid_chunks (second w1) bank lbn) w1 >>= λ w2.
    on_dram (decrement_valid_chunks (cold w2) bank lbn) w2
