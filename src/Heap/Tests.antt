-- ===== src/Heap/Tests.antt =====
-- The theorems of `heap.c` on a heap of six blocks.
use fast2016_ftl.Common.{◌/◌, ℕ, ◌+◌, ◌-◌, ◌≡◌, false, arith, Ends, u32}
use fast2016_ftl.Dram.{Dram}
use fast2016_ftl.Heap.{
  HeapData, decrement_valid_chunks, decrement_valid_chunks_all_by_n, set_valid_chunks,
  reset_valid_chunks_and_remove, insert_blk_in_heap, get_victim, get_victim_valid_pages_number,
  bubble_down, bubble_up, valid_chunks_heap_init,
}
use fast2016_ftl.Heap.View.{count, in_heap, IsHeapTo, IsValid}
use fast2016_ftl.Heap.Down.{Restored, bubble_down-Restored}
use fast2016_ftl.Heap.Up.{bubble_up-Restored}
use fast2016_ftl.Heap.Change.{Changed, assigned, key-assigned, Indexed-assigned}
use fast2016_ftl.Heap.Update.{decrement_valid_chunks-Changed, set_valid_chunks-Changed}
use fast2016_ftl.Heap.Underflow.{decrement_valid_chunks-underflow}
use fast2016_ftl.Heap.Disorder.{reset_and_remove-disorder}
use fast2016_ftl.Heap.Remove.{Removed}
use fast2016_ftl.Heap.Reset.{reset_and_remove-Removed}
use fast2016_ftl.Heap.Insert.{Inserted, insert_blk_in_heap-Inserted}
use fast2016_ftl.Heap.Victim.{IsLeast, get_victim-IsLeast}
use fast2016_ftl.Heap.Init.{FitsAll, valid_chunks_heap_init-IsValid}
use fast2016_ftl.Heap.DecrementAll.{AllLowered, decrement_all-AllLowered}
use fast2016_ftl.Heap.Sample.{
  six, memory, six-Fits, six-IsValid, six-counts, six-inner, six-last, six-ordered, six-root,
}

-- Block 4 stands at position 3 and leaves the heap.
reset_and_remove-Removed_example :
    Ends
      (λ (d', m'). IsValid d' 0 m' × Removed six 0 4 1016 memory d' m')
      (reset_valid_chunks_and_remove six 0 4 1016 memory)
reset_and_remove-Removed_example =
    reset_and_remove-Removed six 0 4 1016 memory ⦃fits = six-Fits⦄ six-IsValid (omega arith)
      (omega arith) six-last

insert_blk_in_heap-Inserted_example :
    Ends
      (λ (d', m'). IsValid d' 0 m' × Inserted six 0 6 memory d' m')
      (insert_blk_in_heap six 0 6 memory)
insert_blk_in_heap-Inserted_example =
    insert_blk_in_heap-Inserted six 0 6 memory ⦃fits = six-Fits⦄ six-IsValid (omega arith)
      six-counts.2

decrement_valid_chunks-Changed_example :
    Ends
      (λ m'. IsValid six 0 m' × Changed six 0 1 (count six 0 1 memory - 1) memory m')
      (decrement_valid_chunks six 0 1 memory)
decrement_valid_chunks-Changed_example =
    decrement_valid_chunks-Changed six 0 1 memory ⦃fits = six-Fits⦄ six-IsValid (omega arith)
      (omega (arith, six-counts))

set_valid_chunks-Changed_example :
    IsValid six 0 (set_valid_chunks six 0 6 1008 memory)
    × Changed six 0 6 1008 memory (set_valid_chunks six 0 6 1008 memory)
set_valid_chunks-Changed_example =
    set_valid_chunks-Changed six 0 6 memory ⦃fits = six-Fits⦄ six-IsValid (omega arith) 1008
      (omega arith) six-counts.2

decrement_all-AllLowered_example :
    IsValid six 0 (decrement_valid_chunks_all_by_n six 0 3 memory)
    × AllLowered six 0 3 memory (decrement_valid_chunks_all_by_n six 0 3 memory)
decrement_all-AllLowered_example =
    decrement_all-AllLowered six 0 3 memory ⦃fits = six-Fits⦄ six-IsValid

get_victim-IsLeast_example :
    (l : ℕ) × IsLeast six 0 memory l
    × (get_victim six 0 memory ≡ u32 (l + 0))
    × (get_victim_valid_pages_number six 0 memory ≡ count six 0 l memory)
get_victim-IsLeast_example =
    get_victim-IsLeast six 0 memory ⦃fits = six-Fits⦄ six-IsValid (omega arith)

-- The element at the root is too large: both edges below it are out of order.
abbrev heavy : Dram
heavy = assigned six 0 1 20 memory

bubble_down-Restored_example : Ends (Restored six 0 6 heavy) (bubble_down six 0 1 heavy)
bubble_down-Restored_example =
    let at =
      key-assigned six 0 memory 1 20 ⦃fits = six-Fits⦄ six-IsValid.indexed
        (omega arith, omega arith) (omega arith) in
    bubble_down-Restored six 0 ⦃fits = six-Fits⦄ (omega arith) 1 heavy (omega arith, omega arith)
      (Indexed-assigned six 0 memory 1 20 ⦃fits = six-Fits⦄ six-IsValid.indexed
        (omega arith, omega arith) (omega arith))
      (record {
        edges = λ c low high e. ground (
          arith,
          six-ordered c low high,
          at c (omega arith, omega arith),
          at (c / 2) (omega arith, omega arith),
        );
        bridged = λ c low high e more. absurd (omega arith);
      })

-- The last element is too small for its place.
abbrev light : Dram
light = assigned six 0 6 0 memory

bubble_up-Restored_example : Ends (Restored six 0 6 light) (bubble_up six 0 6 light)
bubble_up-Restored_example =
    let at =
      key-assigned six 0 memory 6 0 ⦃fits = six-Fits⦄ six-IsValid.indexed (omega arith, omega arith)
        (omega arith) in
    bubble_up-Restored six 0 ⦃fits = six-Fits⦄ (omega arith) 6 light (omega arith, omega arith)
      (omega arith)
      (Indexed-assigned six 0 memory 6 0 ⦃fits = six-Fits⦄ six-IsValid.indexed
        (omega arith, omega arith) (omega arith))
      (record {
        edges = λ c low high e. ground (
          arith,
          six-ordered c low high,
          at c (omega arith, omega arith),
          at (c / 2) (omega arith, omega arith),
        );
        bridged = λ c low high e more. absurd (omega arith);
      })

decrement_valid_chunks-underflow_example :
    Ends
      (λ m'. (count six 0 2 m' ≡ 65535) × ¬ IsHeapTo six 0 6 m')
      (decrement_valid_chunks six 0 2 memory)
decrement_valid_chunks-underflow_example =
    decrement_valid_chunks-underflow six 0 2 memory ⦃fits = six-Fits⦄ six-IsValid (omega arith) 3
      six-counts.1 six-root.0 (omega arith) six-root.1

reset_and_remove-disorder_example :
    Ends
      (λ (d', m'). ¬ IsHeapTo d' 0 (d'.n_el_in_heap 0) m')
      (reset_valid_chunks_and_remove six 0 1 1016 memory)
reset_and_remove-disorder_example =
    reset_and_remove-disorder six 0 1 1016 memory ⦃fits = six-Fits⦄ six-IsValid (omega arith)
      (omega arith) six-inner.0 six-inner.1 six-inner.2

-- The same rows, set up for 7 blocks in each bank.
six-FitsAll : FitsAll (record six { log_blks_per_bank = 7; first_lbn = 0 })
six-FitsAll b h = record {
  bank_lt = h;
  blks = omega arith;
  start = omega arith;
  apart = omega arith;
  inside = omega arith;
}

abbrev set_up : HeapData × Dram
set_up = valid_chunks_heap_init six 7 0 1016 memory

valid_chunks_heap_init-IsValid_example :
    IsValid set_up.0 3 set_up.1
    × (in_heap set_up.0 3 5 set_up.1 ≡ false)
    × (count set_up.0 3 5 set_up.1 ≡ 1016)
valid_chunks_heap_init-IsValid_example =
    valid_chunks_heap_init-IsValid six 7 0 1016 memory 3 5 six-FitsAll (omega arith) (omega arith)
      (omega arith)
