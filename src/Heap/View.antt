-- ===== src/Heap/View.antt =====
-- What the heap of a bank stands for: a number of valid chunks for each log block, and the set of
-- the blocks that may be chosen as victims.
use fast2016_ftl.Common.{ℕ, ◌/◌, ◌≤◌, ◌<◌, ◌≡◌, Bool, leb}
use fast2016_ftl.Dram.{Dram}
use fast2016_ftl.Heap.{HeapData, get_heap_el, get_pos}
use fast2016_ftl.Heap.Cells.{IsPos}

-- The number recorded for block `l`.
unfoldable pub count : HeapData → ℕ → ℕ → Dram → ℕ
count d bank l m = (get_heap_el d bank (get_pos d bank l m) m).value

-- Block `l` stands among the first `n` elements.
unfoldable pub is_within : HeapData → ℕ → ℕ → ℕ → Dram → Bool
is_within d bank n l m = leb (get_pos d bank l m) n

-- Block `l` is in the heap.
abbrev pub in_heap : HeapData → ℕ → ℕ → Dram → Bool
in_heap d bank = is_within d bank (d.n_el_in_heap bank)

-- The table of positions is the inverse of the table of elements.
pub record Indexed (d : HeapData) (bank : ℕ) (m : Dram) : Type 0 where
  pub lbn_lt : (p : ℕ) → IsPos d p → (get_heap_el d bank p m).lbn < d.log_blks_per_bank
  pub pos_lbn : (p : ℕ) → IsPos d p → get_pos d bank (get_heap_el d bank p m).lbn m ≡ p
  pub pos_IsPos : (l : ℕ) → l < d.log_blks_per_bank → IsPos d (get_pos d bank l m)
  pub lbn_pos :
      (l : ℕ) → l < d.log_blks_per_bank → (get_heap_el d bank (get_pos d bank l m) m).lbn ≡ l

abbrev pub key : HeapData → ℕ → Dram → ℕ → ℕ
key d bank m p = (get_heap_el d bank p m).value

-- The first `n` elements are ordered: no father has more valid chunks than its child.
abbrev pub IsHeapTo : HeapData → ℕ → ℕ → Dram → Type 0
IsHeapTo d bank n m = (c : ℕ) → 1 < c → c ≤ n → key d bank m (c / 2) ≤ key d bank m c

-- The invariant of the heap of a bank.
pub record IsValid (d : HeapData) (bank : ℕ) (m : Dram) : Type 0 where
  pub bounded : d.n_el_in_heap bank ≤ d.log_blks_per_bank
  pub indexed : Indexed d bank m
  pub ordered : IsHeapTo d bank (d.n_el_in_heap bank) m
