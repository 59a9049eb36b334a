-- ===== src/Log/Complete.antt =====
-- `getLpnForCompletePage` of `ftl_page_mapped/log.c`: the page that a full log buffer is written to. A
-- recycled low page is not written again; its chunks go to the next high page. PrintStats is 0.
use fast2016_ftl.Common.{
  ℕ, ◌+◌, ◌-◌, ◌/◌, ◌%◌, ◌≤◌, ◌<◌, ◌≡◌, ◌≢◌, ap, ==_self, subst, true, Option, some, arith, ◌==◌,
  if◌then◌else◌, ◌>>=◌, u32, Ends, ends, Ends-bind, Ends-if,
}
use fast2016_ftl.Params.{pages_per_blk, chunks_per_page}
use fast2016_ftl.Dram.{Dram}
use fast2016_ftl.Heap.{HeapData, log_lbn_of, decrement_valid_chunks_by_n}
use fast2016_ftl.Heap.Cells.{Fits}
use fast2016_ftl.Heap.View.{count, IsValid}
use fast2016_ftl.Heap.Change.{Changed}
use fast2016_ftl.Heap.Update.{decrement_valid_chunks_by_n-Changed}
use fast2016_ftl.Log.{LogCtrlBlock, put_ctrl}

unfoldable pub log_page_to_offset : ℕ → ℕ
log_page_to_offset log_lpn = log_lpn % pages_per_blk

unfoldable pub log_page_to_log_blk : ℕ → ℕ
log_page_to_log_blk log_lpn = log_lpn / pages_per_blk

-- `ctrlBlock[bank].logLpn = lpn`
abbrev pub set_log_lpn : (ℕ → LogCtrlBlock) → ℕ → ℕ → ℕ → LogCtrlBlock
set_log_lpn ctrl bank lpn = put_ctrl ctrl bank (record (ctrl bank) { log_lpn = lpn })

-- On the heap of the second usage; it returns the page, the control blocks and the memory.
pub get_lpn_for_complete_page :
    HeapData → ℕ → (ℕ → LogCtrlBlock) → Dram → Option (ℕ × (ℕ → LogCtrlBlock) × Dram)
get_lpn_for_complete_page d bank ctrl m =
    let lpn = (ctrl bank).log_lpn in
    let page_offset = log_page_to_offset lpn in
    let taken = decrement_valid_chunks_by_n d bank (log_page_to_log_blk lpn) chunks_per_page m in
    if (ctrl bank).use_recycled_page
    then (if page_offset == 0
        then (taken >>= λ m'. some (u32 (lpn + 2), set_log_lpn ctrl bank (u32 (lpn + 2)), m'))
        else if page_offset % 2 == 1
        then (taken >>= λ m'. some (u32 (lpn + 1), set_log_lpn ctrl bank (u32 (lpn + 1)), m'))
        else some (lpn, ctrl, m))
    else some (lpn, ctrl, m)

put_ctrl_self :
    (ctrl : ℕ → LogCtrlBlock) (bank : ℕ) (v : LogCtrlBlock) → put_ctrl ctrl bank v bank ≡ v
put_ctrl_self ctrl bank v = ground (arith, ==_self bank)

module _ (d : HeapData) (bank : ℕ) (ctrl : ℕ → LogCtrlBlock) (m : Dram) ⦃fits : Fits d bank⦄
    (valid : IsValid d bank m) (base : d.first_lbn ≡ 0) where
  abbrev lpn : ℕ
  lpn = (ctrl bank).log_lpn

  abbrev blk : ℕ
  blk = log_page_to_log_blk lpn

  abbrev page : ℕ
  page = log_page_to_offset lpn

  -- The page after a recycled low page: the high page that follows it.
  abbrev high_page : ℕ
  high_page = if page == 0 then lpn + 2 else lpn + 1

  -- The low page `page` is given up for the next high page.
  pub record MovedUp (r : ℕ × (ℕ → LogCtrlBlock) × Dram) : Type 0 where
    pub returned : r.0 ≡ high_page
    pub high : log_page_to_offset r.0 % 2 ≡ 0
    pub same_blk : log_page_to_log_blk r.0 ≡ blk
    pub kept : (r.1 bank).log_lpn ≡ r.0
    pub valid_after : IsValid d bank r.2
    pub changed : Changed d bank blk (count d bank blk m - chunks_per_page) m r.2

  blk-eq : blk < d.log_blks_per_bank → log_lbn_of d blk ≡ blk
  unfolding log_page_to_log_blk
  blk-eq hl = omega (arith, base, fits)

  taken :
      blk < d.log_blks_per_bank
      → chunks_per_page ≤ count d bank blk m
      → Ends
          (λ m'. IsValid d bank m' × Changed d bank blk (count d bank blk m - chunks_per_page) m m')
          (decrement_valid_chunks_by_n d bank blk chunks_per_page m)
  taken hl enough =
      subst
        (λ l.
          Ends
            (λ m'. IsValid d bank m' × Changed d bank l (count d bank l m - chunks_per_page) m m')
            (decrement_valid_chunks_by_n d bank blk chunks_per_page m))
        (blk-eq hl)
        (decrement_valid_chunks_by_n-Changed d bank blk m valid (rw (blk-eq hl) hl) chunks_per_page
          (rw (blk-eq hl) enough))

  -- `getLpnForCompletePage` on a recycled low page, which is page 0 or an odd one before the last, ends:
  -- it returns the high page that follows in the same block, makes it the current page, and takes the
  -- chunks of the low page from the number of the block in the heap, which stays valid. The heap must
  -- count at least these chunks for the block.
  pub get_lpn_for_complete_page-MovedUp :
      blk < d.log_blks_per_bank
      → chunks_per_page ≤ count d bank blk m
      → (ctrl bank).use_recycled_page ≡ true
      → (page ≢ 0 → page % 2 ≡ 1)
      → page < pages_per_blk - 1
      → Ends MovedUp (get_lpn_for_complete_page d bank ctrl m)
  unfolding get_lpn_for_complete_page log_page_to_offset log_page_to_log_blk
  get_lpn_for_complete_page-MovedUp hl enough recycled low room = rw recycled (
      Ends-if (page == 0)
        (λ first. Ends-bind (taken hl enough) λ m' (v, c). ends (record {
          returned = ground (arith, hl, fits);
          high = ground (arith, hl, fits);
          same_blk = ground (arith, hl, fits);
          kept = ap (λ c. c.log_lpn) (put_ctrl_self ctrl bank _);
          valid_after = v;
          changed = c;
        }))
        λ later.
          Ends-if (page % 2 == 1)
            (λ odd. Ends-bind (taken hl enough) λ m' (v, c). ends (record {
              returned = ground (arith, hl, fits);
              high = ground (arith, hl, fits);
              same_blk = ground (arith, hl, fits);
              kept = ap (λ c. c.log_lpn) (put_ctrl_self ctrl bank _);
              valid_after = v;
              changed = c;
            }))
            λ even. absurd (ground (arith, low)))
