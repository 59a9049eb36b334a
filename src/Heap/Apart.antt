-- ===== src/Heap/Apart.antt =====
-- The heaps of different banks, and different heaps, do not interfere.
use fast2016_ftl.Common.{ℕ, ◌+◌, ◌*◌, ◌/◌, ◌≤◌, ◌<◌, ◌≡◌, ◌≢◌, ◌⊎◌, arith}
use fast2016_ftl.Dram.{Dram, read_dram_32}
use fast2016_ftl.Heap.{HeapData, get_heap_el, get_pos}
use fast2016_ftl.Heap.Cells.{
  Fits, IsPos, Outside, el_addr, pos_addr, el_addr-eq, pos_addr-eq, el_addr-InDram, pos_addr-InDram,
}
use fast2016_ftl.Heap.View.{count, in_heap, is_within, Indexed, IsValid}

-- The rows that start at `a` and at `b` share no address.
abbrev RowApart : ℕ → ℕ → Type 0
RowApart a b = (a + 2048 ≤ b) ⊎ (b + 2048 ≤ a)

-- The rows of bank `b` in the heap `e` lie outside those of `bank` in `d`.
pub record RowsApart (d : HeapData) (bank : ℕ) (e : HeapData) (b : ℕ) : Type 0 where
  pub els : RowApart (d.dram_start_addr + bank * 2048) (e.dram_start_addr + b * 2048)
  pub els_positions : RowApart (d.dram_start_addr + bank * 2048) (e.positions_ptr + b * 2048)
  pub positions_els : RowApart (d.positions_ptr + bank * 2048) (e.dram_start_addr + b * 2048)
  pub positions : RowApart (d.positions_ptr + bank * 2048) (e.positions_ptr + b * 2048)

-- The rows of two banks of one heap.
pub RowsApart-banks :
    (d : HeapData) (bank b : ℕ) → Fits d bank → Fits d b → bank ≢ b → RowsApart d bank d b
RowsApart-banks d bank b f g ne = omega arith

-- Two heaps of which one lies behind the other, in either order.
pub RowsApart-heaps :
    (d e : HeapData) (bank b : ℕ)
    → Fits d bank
    → Fits e b
    → (d.positions_ptr + 32768 ≤ e.dram_start_addr) ⊎ (e.positions_ptr + 32768 ≤ d.dram_start_addr)
    → RowsApart d bank e b
RowsApart-heaps d e bank b f g h = omega arith

-- Bank `b` of the heap reads the same in both memories.
pub record Same (e : HeapData) (b : ℕ) (m m' : Dram) : Type 0 where
  pub els : (p : ℕ) → IsPos e p → get_heap_el e b p m' ≡ get_heap_el e b p m
  pub positions : (l : ℕ) → l < e.log_blks_per_bank → get_pos e b l m' ≡ get_pos e b l m

module _ (d e : HeapData) (bank b : ℕ) (m m' : Dram) ⦃fits : Fits e b⦄ where
  -- What writes only to the rows of `bank` in `d` leaves bank `b` of `e` as it was.
  pub Same-elsewhere :
      RowsApart d bank e b
      → ((a : ℕ) → Outside d bank a → read_dram_32 a m' ≡ read_dram_32 a m)
      → Same e b m m'
  unfolding get_heap_el get_pos
  Same-elsewhere apart same = record {
    els = λ p hp. rw (
        same (el_addr e b p) (record {
          inside = el_addr-InDram e b p hp;
          els = ground (arith, el_addr-eq e b p hp, apart);
          positions = ground (arith, el_addr-eq e b p hp, apart);
        }));
    positions = λ l hl. same (pos_addr e b l) (record {
      inside = pos_addr-InDram e b l hl;
      els = ground (arith, pos_addr-eq e b l hl, apart);
      positions = ground (arith, pos_addr-eq e b l hl, apart);
    });
  }

module _ (e : HeapData) (b : ℕ) (m m' : Dram) (same : Same e b m m') where
  pub Indexed-Same : Indexed e b m → Indexed e b m'
  Indexed-Same ix = record {
    lbn_lt = λ p hp. rw (same.els p hp) (ix.lbn_lt p hp);
    pos_lbn = λ p hp. rw (same.els p hp, same.positions _ (ix.lbn_lt p hp)) (ix.pos_lbn p hp);
    pos_IsPos = λ l hl. rw (same.positions l hl) (ix.pos_IsPos l hl);
    lbn_pos = λ l hl. rw (same.positions l hl, same.els _ (ix.pos_IsPos l hl)) (ix.lbn_pos l hl);
  }

  pub IsValid-Same : IsValid e b m → IsValid e b m'
  IsValid-Same v = record {
    bounded = v.bounded;
    indexed = Indexed-Same v.indexed;
    ordered = λ c p q. ground (arith, same.els c, same.els (c / 2), v.ordered c, v.bounded);
  }

  pub count-Same :
      (l : ℕ) → Indexed e b m → l < e.log_blks_per_bank → count e b l m' ≡ count e b l m
  unfolding count
  count-Same l ix hl = rw (same.positions l hl, same.els _ (ix.pos_IsPos l hl), count)

  pub in_heap-Same : (l : ℕ) → l < e.log_blks_per_bank → in_heap e b l m' ≡ in_heap e b l m
  unfolding is_within
  in_heap-Same l hl = rw (same.positions l hl)
