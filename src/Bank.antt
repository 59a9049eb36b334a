-- ===== src/Bank.antt =====
-- A bank as its users see it: for each of the three heaps the number of valid chunks of each log block
-- and the blocks that may become victims, and the queue of the clean blocks. `IsBank` says that
-- the state of `ftl_page_mapped/heap.c` and `ftl_page_mapped/cleanList.c` stands for such a view.
pub mod Heaps
pub mod Drop
pub mod Start
use fast2016_ftl.Common.{
  ◌*◌, ℕ, ◌+◌, ◌≤◌, ◌<◌, ◌≡◌, ◌⊎◌, Bool, true, false, List, ◌∷◌, [], ◌++◌, ◌==◌, if◌then◌else◌,
}
use fast2016_ftl.Layout.{
  heap_valid_chunks_addr_first_usage, heap_valid_chunks_addr_second_usage,
  heap_valid_chunks_addr_cold,
}
use fast2016_ftl.Dram.{Dram, InDram, read_dram_32}
use fast2016_ftl.Heap.{HeapData}
use fast2016_ftl.Heap.View.{count, in_heap, IsValid}
use fast2016_ftl.Log.Start.{CleanHolds}
use fast2016_ftl.World.{World, first, second, cold}

-- The log blocks of a bank as one heap counts them.
pub record Blocks : Type 0 where
  pub counts : ℕ → ℕ
  pub members : ℕ → Bool

pub record BankView : Type 0 where
  pub first_usage : Blocks
  pub second_usage : Blocks
  pub cold_usage : Blocks
  pub clean_queue : List ℕ

-- Block `l` gets the number `v` and is no longer in the heap.
abbrev pub drop_blk : ℕ → ℕ → Blocks → Blocks
drop_blk l v b = record {
  counts = λ x. if l == x then v else b.counts x;
  members = λ x. if l == x then false else b.members x;
}

-- Block `l` is in the heap, with the number that it has.
abbrev pub join_blk : ℕ → Blocks → Blocks
join_blk l b = record b { members = λ x. if l == x then true else b.members x }

-- Block `l` leaves the heaps, with the number of chunks of an unused block, and is clean.
abbrev pub released : ℕ → BankView → BankView
released l v = record {
  first_usage = drop_blk l 1008 v.first_usage;
  second_usage = drop_blk l 1016 v.second_usage;
  cold_usage = drop_blk l 1016 v.cold_usage;
  clean_queue = v.clean_queue ++ l ∷ [];
}

-- The block is not in the heap, or no block of the heap has fewer valid chunks.
abbrev pub IsDroppable : ℕ → Blocks → Type 0
IsDroppable l b =
    (b.members l ≡ false) ⊎ ((x : ℕ) → x < 512 → b.members x ≡ true → b.counts l ≤ b.counts x)

-- The heap whose tables start at `start` stands for `b`.
pub record Shows (start bank : ℕ) (b : Blocks) (d : HeapData) (m : Dram) : Type 0 where
  pub els_at : d.dram_start_addr ≡ start
  pub positions_at : d.positions_ptr ≡ start + 32768
  pub blks : d.log_blks_per_bank ≡ 512
  pub base : d.first_lbn ≡ 0
  pub valid : IsValid d bank m
  pub counts : (l : ℕ) → l < 512 → count d bank l m ≡ b.counts l
  pub members : (l : ℕ) → l < 512 → in_heap d bank l m ≡ b.members l

pub record IsBank (bank : ℕ) (v : BankView) (w : World) : Type 0 where
  pub first_usage : Shows heap_valid_chunks_addr_first_usage bank v.first_usage (first w) w.dram
  pub second_usage : Shows heap_valid_chunks_addr_second_usage bank v.second_usage (second w) w.dram
  pub cold_usage : Shows heap_valid_chunks_addr_cold bank v.cold_usage (cold w) w.dram
  pub clean : CleanHolds w.ftl.log bank v.clean_queue w.dram

-- The word at `a` lies outside the rows that the bank has in the heap at `start`.
pub record OutsideRows (start bank a : ℕ) : Type 0 where
  pub inside : InDram a
  pub els : (a < start + bank * 2048) ⊎ (start + bank * 2048 + 2048 ≤ a)
  pub positions : (a < start + 32768 + bank * 2048) ⊎ (start + 32768 + bank * 2048 + 2048 ≤ a)

-- Only the rows of the bank in the heap at `start` have changed.
abbrev pub OnlyRows : ℕ → ℕ → Dram → Dram → Type 0
OnlyRows start bank m m' = (a : ℕ) → OutsideRows start bank a → read_dram_32 a m' ≡ read_dram_32 a m
