-- ===== src/Heap/Init.antt =====
-- `ValidChunksHeapInit`: every bank starts with an empty heap and the same number for each block.
use native.Mathlib.Decide.{ℕ_discrete}
use fast2016_ftl.Common.{
  ℕ, zero, suc, ◌+◌, ◌-◌, ◌%◌, ◌<◌, ◌≡◌, ◌≢◌, refl, sym, subst, ◌∙◌, false, arith, leb, ltb,
  if◌then◌else◌, u16,
}
use fast2016_ftl.Params.{num_banks}
use fast2016_ftl.Dram.{Dram, read_dram_32}
use fast2016_ftl.Heap.{
  HeapEl, HeapData, get_heap_el, get_pos, set_heap_el, set_pos, set_n_el, init_blks, init_banks,
  valid_chunks_heap_init,
}
use fast2016_ftl.Heap.Cells.{
  Fits, IsPos, Outside, get_heap_el-set_heap_el, get_heap_el-set_pos, get_pos-set_pos,
  get_pos-set_heap_el, read-set_heap_el, read-set_pos,
}
use fast2016_ftl.Heap.Resize.{Indexed-resized, count-resized, n_el-resized}
use fast2016_ftl.Heap.Apart.{RowsApart-banks, Same-elsewhere, Indexed-Same, count-Same}
use fast2016_ftl.Heap.View.{count, in_heap, is_within, Indexed, IsValid}

-- From block `i` on the rows hold the initial elements; before they are those of `m`.
pub record Filled (d : HeapData) (bank v i : ℕ) (m m' : Dram) : Type 0 where
  els :
      (q : ℕ)
      → IsPos d q
      → get_heap_el d bank q m'
        ≡ (if ltb i q then record { value = u16 v; lbn = q - 1 } else get_heap_el d bank q m)
  positions :
      (l : ℕ)
      → l < d.log_blks_per_bank
      → get_pos d bank l m' ≡ (if leb i l then suc l else get_pos d bank l m)
  pub elsewhere : (a : ℕ) → Outside d bank a → read_dram_32 a m' ≡ read_dram_32 a m

module _ (d : HeapData) (bank v : ℕ) ⦃fits : Fits d bank⦄ where
  pub init_blks-Filled :
      (k i : ℕ) (m : Dram)
      → i + k ≡ d.log_blks_per_bank
      → Filled d bank v i m (init_blks k d bank v i (suc i) m)
  unfolding init_blks
  init_blks-Filled zero i m all = record {
    els = λ q hq. ground arith;
    positions = λ l hl. ground arith;
    elsewhere = λ a out. refl;
  }
  init_blks-Filled (suc k) i m all =
      let m1 = set_pos d bank i (suc i) m in
      let e : HeapEl = record { value = u16 v; lbn = u16 i } in
      let m2 = set_heap_el d bank (suc i) e m1 in
      let next : (suc i + 1) % 65536 ≡ suc (suc i) = omega arith in
      let here : IsPos d (suc i) = omega arith in
      let rest = init_blks-Filled k (suc i) m2 (omega arith) in
      rw next (record {
        els = λ q hq. ground (
          arith,
          rest.els q hq,
          get_heap_el-set_heap_el d bank (suc i) q e m1 here hq,
          get_heap_el-set_pos d bank q i (suc i) m hq (omega arith),
        );
        positions = λ l hl. ground (
          arith,
          rest.positions l hl,
          get_pos-set_heap_el d bank l (suc i) e m1 here hl,
          get_pos-set_pos d bank i l (suc i) m (omega arith) hl,
        );
        elsewhere = λ a out.
            rest.elsewhere a out
            ∙ read-set_heap_el d bank a (suc i) e m1 here out
            ∙ read-set_pos d bank a i (suc i) m (omega arith) out;
      })

  -- The rows after the inner loop of one bank.
  module _ (m m' : Dram) (filled : Filled d bank v 0 m m') where
    el-filled :
        (q : ℕ) → IsPos d q → get_heap_el d bank q m' ≡ record { value = u16 v; lbn = q - 1 }
    el-filled q hq = ground (arith, filled.els q hq)

    pos-filled : (l : ℕ) → l < d.log_blks_per_bank → get_pos d bank l m' ≡ suc l
    pos-filled l hl = ground (arith, filled.positions l hl)

    Indexed-filled : Indexed d bank m'
    Indexed-filled = record {
      lbn_lt = λ q hq. rw (el-filled q hq) (omega arith);
      pos_lbn = λ q hq. rw (el-filled q hq, pos-filled (q - 1) (omega arith)) (omega arith);
      pos_IsPos = λ l hl. rw (pos-filled l hl) (omega arith);
      lbn_pos = λ l hl. rw (pos-filled l hl, el-filled (suc l) (omega arith)) (omega arith);
    }

    count-filled : (l : ℕ) → l < d.log_blks_per_bank → count d bank l m' ≡ u16 v
    unfolding count
    count-filled l hl = rw (pos-filled l hl, el-filled (suc l) (omega arith), count)

-- Bank `b` has an empty heap, and every block the number `v`.
pub record Fresh (d : HeapData) (b v : ℕ) (m : Dram) : Type 0 where
  pub empty : d.n_el_in_heap b ≡ 0
  pub indexed : Indexed d b m
  pub counts : (l : ℕ) → l < d.log_blks_per_bank → count d b l m ≡ v

pub Fresh-IsValid : (d : HeapData) (b v : ℕ) (m : Dram) → Fresh d b v m → IsValid d b m
Fresh-IsValid d b v m f = record {
  bounded = rw f.empty (omega arith);
  indexed = f.indexed;
  ordered = λ c p q. absurd (omega (arith, f.empty));
}

pub Fresh-empty :
    (d : HeapData) (b v l : ℕ) (m : Dram)
    → Fresh d b v m
    → l < d.log_blks_per_bank
    → in_heap d b l m ≡ false
unfolding is_within
Fresh-empty d b v l m f hl = rw f.empty (ground (arith, f.indexed.pos_IsPos l))

Fresh-Filled :
    (d : HeapData) (b v : ℕ) (m m' : Dram) ⦃fits : Fits d b⦄
    → Filled d b v 0 m m'
    → Fresh (set_n_el d b 0) b (u16 v) m'
Fresh-Filled d b v m m' f = record {
  empty = n_el-resized d b 0;
  indexed = Indexed-resized d b 0 (Indexed-filled d b v m m' f);
  counts = λ l hl. count-resized d b 0 l m' ∙ count-filled d b v m m' f l hl;
}

-- The inner loop for `bank` spares the banks before it.
Fresh-before :
    (d : HeapData) (bank b v w : ℕ) (m m' : Dram)
    → Fits d bank
    → Fits d b
    → b ≢ bank
    → Filled d bank w 0 m m'
    → Fresh d b v m
    → Fresh (set_n_el d bank 0) b v m'
unfolding count get_heap_el get_pos
Fresh-before d bank b v w m m' fits fits' ne filled fresh =
    let same =
      Same-elsewhere d d bank b m m' ⦃fits = fits'⦄
        (RowsApart-banks d bank b fits fits' (λ e. ne (sym e))) filled.elsewhere in
    let ix = Indexed-Same d b m m' same fresh.indexed in
    record {
      empty = ground (arith, fresh.empty);
      indexed = record {
        lbn_lt = ix.lbn_lt;
        pos_lbn = ix.pos_lbn;
        pos_IsPos = ix.pos_IsPos;
        lbn_pos = ix.lbn_pos;
      };
      counts = λ l hl. count-Same d b m m' same l fresh.indexed hl ∙ fresh.counts l hl;
    }

abbrev pub FitsAll : HeapData → Type 0
FitsAll d = (b : ℕ) → b < num_banks → Fits d b

pub FitsAll-resized : (d : HeapData) (bank : ℕ) → FitsAll d → FitsAll (set_n_el d bank 0)
FitsAll-resized d bank all b hb =
    let f = all b hb in
    record {
      bank_lt = f.bank_lt;
      blks = f.blks;
      start = f.start;
      apart = f.apart;
      inside = f.inside;
    }

abbrev FreshAll : HeapData → ℕ → ℕ → Dram → Type 0
FreshAll d n v m = (b : ℕ) → b < n → Fresh d b v m

init_banks-Fresh :
    (k bank v : ℕ) (d : HeapData) (m : Dram)
    → bank + k ≡ num_banks
    → FitsAll d
    → FreshAll d bank (u16 v) m
    → (let r = init_banks k d bank v m in FreshAll r.0 num_banks (u16 v) r.1)
unfolding init_banks
init_banks-Fresh zero bank v d m all fits fresh = λ b hb. fresh b (omega arith)
init_banks-Fresh (suc k) bank v d m all fits fresh =
    let m' = init_blks d.log_blks_per_bank d bank v 0 1 m in
    let here : Fits d bank = fits bank (omega arith) in
    let filled = init_blks-Filled d bank v ⦃fits = here⦄ d.log_blks_per_bank 0 m (omega arith) in
    init_banks-Fresh k (suc bank) v (set_n_el d bank 0) m' (omega arith)
      (FitsAll-resized d bank fits)
      λ b hb. elim (ℕ_discrete b bank) [
        | yes same ↦
            subst (λ x. Fresh (set_n_el d bank 0) x (u16 v) m') (sym same)
              (Fresh-Filled d bank v m m' ⦃fits = here⦄ filled)
        | no ne ↦
            Fresh-before d bank b (u16 v) v m m' here (fits b (omega arith)) ne filled
              (fresh b (omega arith))
      ]

pub init_banks-log_blks :
    (k bank v : ℕ) (d : HeapData) (m : Dram)
    → (init_banks k d bank v m).0.log_blks_per_bank ≡ d.log_blks_per_bank
unfolding init_banks
init_banks-log_blks zero bank v d m = refl
init_banks-log_blks (suc k) bank v d m =
    init_banks-log_blks k (suc bank) v (set_n_el d bank 0)
      (init_blks d.log_blks_per_bank d bank v 0 1 m)

-- After `ValidChunksHeapInit` every bank has a valid, empty heap in which each block has the
-- initial number of valid chunks. The two tables must lie in DRAM, with a row for each bank.
pub valid_chunks_heap_init-IsValid :
    (d : HeapData) (blks first v : ℕ) (m : Dram) (b l : ℕ)
    → FitsAll (record d { log_blks_per_bank = blks; first_lbn = first })
    → v < 65536
    → b < num_banks
    → l < blks
    → (let r = valid_chunks_heap_init d blks first v m in
        IsValid r.0 b r.1 × (in_heap r.0 b l r.1 ≡ false) × (count r.0 b l r.1 ≡ v))
unfolding valid_chunks_heap_init
valid_chunks_heap_init-IsValid d blks first v m b l fits word hb hl =
    let d' = record d { log_blks_per_bank = blks; first_lbn = first } in
    let same : u16 v ≡ v = omega arith in
    let fresh =
      init_banks-Fresh num_banks 0 v d' m refl fits (λ b' hb'. absurd (omega arith)) b hb in
    let r = init_banks num_banks d' 0 v m in
    let blk : l < r.0.log_blks_per_bank = rw (init_banks-log_blks num_banks 0 v d' m) hl in
    (
      Fresh-IsValid _ b (u16 v) _ fresh,
      Fresh-empty _ b (u16 v) l _ fresh blk,
      fresh.counts l blk ∙ same,
    )
