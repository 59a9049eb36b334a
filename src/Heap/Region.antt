-- ===== src/Heap/Region.antt =====
-- The two tables of a heap as one region of DRAM: `ValidChunksHeapInit` writes nowhere else, and a
-- run that does not write there leaves the heap as it was.
use fast2016_ftl.Common.{ℕ, zero, suc, ◌+◌, ◌≤◌, ◌<◌, ◌≡◌, ◌⊎◌, refl, ◌∙◌, false, arith}
use fast2016_ftl.Params.{num_banks}
use fast2016_ftl.Dram.{Dram, InDram, read_dram_32}
use fast2016_ftl.Heap.{
  HeapData, get_heap_el, get_pos, set_n_el, init_blks, init_banks, valid_chunks_heap_init,
}
use fast2016_ftl.Heap.Cells.{
  Fits, Outside, el_addr-eq, el_addr-InDram, pos_addr-eq, pos_addr-InDram, el_addr, pos_addr,
}
use fast2016_ftl.Heap.View.{count, in_heap, IsValid}
use fast2016_ftl.Heap.Apart.{Same, IsValid-Same, count-Same, in_heap-Same}
use fast2016_ftl.Heap.Init.{
  init_blks-Filled, FitsAll, FitsAll-resized, valid_chunks_heap_init-IsValid,
}

-- The word at `a` lies in neither of the tables that start at `els` and at `positions`.
pub record OutsideTables (els positions a : ℕ) : Type 0 where
  pub inside : InDram a
  pub els_out : (a < els) ⊎ (els + 32768 ≤ a)
  pub positions_out : (a < positions) ⊎ (positions + 32768 ≤ a)

init_banks-elsewhere :
    (k bank v : ℕ) (d : HeapData) (m : Dram)
    → bank + k ≡ num_banks
    → FitsAll d
    → (a : ℕ) → OutsideTables d.dram_start_addr d.positions_ptr a
    → read_dram_32 a (init_banks k d bank v m).1 ≡ read_dram_32 a m
unfolding init_banks
init_banks-elsewhere zero bank v d m all fits a out = refl
init_banks-elsewhere (suc k) bank v d m all fits a out =
    let here : Fits d bank = fits bank (omega arith) in
    let outside : Outside d bank a = record {
      inside = out.inside;
      els = omega (arith, out);
      positions = omega (arith, out);
    } in
    init_banks-elsewhere k (suc bank) v (set_n_el d bank 0)
      (init_blks d.log_blks_per_bank d bank v 0 1 m) (omega arith) (FitsAll-resized d bank fits) a
      out
    ∙ (init_blks-Filled d bank v ⦃fits = here⦄ d.log_blks_per_bank 0 m (omega arith)).elsewhere a
        outside

pub valid_chunks_heap_init-elsewhere :
    (d : HeapData) (blks first v : ℕ) (m : Dram)
    → FitsAll (record d { log_blks_per_bank = blks; first_lbn = first })
    → (a : ℕ) → OutsideTables d.dram_start_addr d.positions_ptr a
    → read_dram_32 a (valid_chunks_heap_init d blks first v m).1 ≡ read_dram_32 a m
unfolding valid_chunks_heap_init
valid_chunks_heap_init-elsewhere d blks first v m fits a out =
    init_banks-elsewhere num_banks 0 v (record d { log_blks_per_bank = blks; first_lbn = first }) m
      refl fits a out

-- The fields that `ValidChunksHeapInit` sets once.
record SameTables (d d' : HeapData) : Type 0 where
  els : d'.dram_start_addr ≡ d.dram_start_addr
  positions : d'.positions_ptr ≡ d.positions_ptr
  blks : d'.log_blks_per_bank ≡ d.log_blks_per_bank
  base : d'.first_lbn ≡ d.first_lbn

init_banks-SameTables :
    (k bank v : ℕ) (d : HeapData) (m : Dram) → SameTables d (init_banks k d bank v m).0
unfolding init_banks
init_banks-SameTables zero bank v d m = record {
  els = refl;
  positions = refl;
  blks = refl;
  base = refl;
}
init_banks-SameTables (suc k) bank v d m =
    let t =
      init_banks-SameTables k (suc bank) v (set_n_el d bank 0)
        (init_blks d.log_blks_per_bank d bank v 0 1 m) in
    record { els = t.els; positions = t.positions; blks = t.blks; base = t.base }

-- Every bank has a valid heap without members, in which the blocks have the number `v`.
pub record IsEmptyHeap (e : HeapData) (els positions blks v : ℕ) (m : Dram) : Type 0 where
  pub els_at : e.dram_start_addr ≡ els
  pub positions_at : e.positions_ptr ≡ positions
  pub blks_per_bank : e.log_blks_per_bank ≡ blks
  pub base : e.first_lbn ≡ 0
  pub valid : (b : ℕ) → b < num_banks → IsValid e b m
  pub outside : (b l : ℕ) → b < num_banks → l < blks → in_heap e b l m ≡ false
  pub counts : (b l : ℕ) → b < num_banks → l < blks → count e b l m ≡ v

pub valid_chunks_heap_init-IsEmptyHeap :
    (d : HeapData) (blks v : ℕ) (m : Dram)
    → FitsAll (record d { log_blks_per_bank = blks; first_lbn = 0 })
    → v < 65536
    → 0 < blks
    → (let r = valid_chunks_heap_init d blks 0 v m in
        IsEmptyHeap r.0 d.dram_start_addr d.positions_ptr blks v r.1)
unfolding valid_chunks_heap_init
valid_chunks_heap_init-IsEmptyHeap d blks v m fits word some_blk =
    let t =
      init_banks-SameTables num_banks 0 v (record d { log_blks_per_bank = blks; first_lbn = 0 })
        m in
    record {
      els_at = t.els;
      positions_at = t.positions;
      blks_per_bank = t.blks;
      base = t.base;
      valid = λ b hb. (valid_chunks_heap_init-IsValid d blks 0 v m b 0 fits word hb some_blk).0;
      outside = λ b l hb hl. (valid_chunks_heap_init-IsValid d blks 0 v m b l fits word hb hl).1;
      counts = λ b l hb hl. (valid_chunks_heap_init-IsValid d blks 0 v m b l fits word hb hl).2;
    }

-- A run that writes to neither table.
pub Same-tables :
    (e : HeapData) (b : ℕ) (m m' : Dram)
    → Fits e b
    → ((a : ℕ)
        → InDram a
        → (e.dram_start_addr ≤ a)
        → (a < e.positions_ptr + 32768)
        → read_dram_32 a m' ≡ read_dram_32 a m)
    → Same e b m m'
unfolding get_heap_el get_pos
Same-tables e b m m' fits same = record {
  els = λ p hp. rw (
      same (el_addr e b p) (el_addr-InDram e b ⦃fits = fits⦄ p hp)
        (omega (arith, el_addr-eq e b ⦃fits = fits⦄ p hp, fits))
        (omega (arith, el_addr-eq e b ⦃fits = fits⦄ p hp, fits)));
  positions = λ l hl.
      same (pos_addr e b l) (pos_addr-InDram e b ⦃fits = fits⦄ l hl)
        (omega (arith, pos_addr-eq e b ⦃fits = fits⦄ l hl, fits))
        (omega (arith, pos_addr-eq e b ⦃fits = fits⦄ l hl, fits));
}

pub IsEmptyHeap-Same :
    (e : HeapData) (els positions blks v : ℕ) (m m' : Dram)
    → FitsAll e
    → ((a : ℕ)
        → InDram a
        → (els ≤ a)
        → (a < positions + 32768)
        → read_dram_32 a m' ≡ read_dram_32 a m)
    → IsEmptyHeap e els positions blks v m
    → IsEmptyHeap e els positions blks v m'
IsEmptyHeap-Same e els positions blks v m m' fits same h =
    let same' : (b : ℕ) → b < num_banks → Same e b m m' = λ b hb.
      Same-tables e b m m' (fits b hb)
        (λ a ok low high. same a ok (omega (arith, h.els_at)) (omega (arith, h.positions_at))) in
    record {
      els_at = h.els_at;
      positions_at = h.positions_at;
      blks_per_bank = h.blks_per_bank;
      base = h.base;
      valid = λ b hb. IsValid-Same e b m m' (same' b hb) (h.valid b hb);
      outside = λ b l hb hl.
          in_heap-Same e b m m' (same' b hb) l (omega (arith, h.blks_per_bank))
          ∙ h.outside b l hb hl;
      counts = λ b l hb hl.
          count-Same e b m m' (same' b hb) l (h.valid b hb).indexed (omega (arith, h.blks_per_bank))
          ∙ h.counts b l hb hl;
    }
