-- ===== src/Trim/Chunk.antt =====
-- One chunk under TRIM.
use fast2016_ftl.Common.{
  ℕ, ◌+◌, ◌*◌, ◌<◌, ◌≡◌, ◌≢◌, ◌⊎◌, inl, inr, ◌∙◌, ap, arith, none, true, false, ltb, lt→ltb,
  le→ltb-false, invalid, Ends, ends, Ends-bind,
}
use fast2016_ftl.Params.{num_banks, data_blk_per_bank, pages_per_blk, chunks_per_page}
use fast2016_ftl.Dram.{InDram, write_dram_32, read-write_self, read-write_other}
use fast2016_ftl.Log.Chunk.{
  flash_w_log, flash_w_log_encoded, dram_cold_log, find_chunk_location, chunk_to_bank, chunk_to_lbn,
  chunk_to_lbn-lt, chunk_to_bank-flag,
}
use fast2016_ftl.World.{World, first, second, cold, hot_ctrl, cold_ctrl, chunks_map_table}
use fast2016_ftl.Bank.{BankView, IsBank}
use fast2016_ftl.Bank.Heaps.{Shows-keeps}
use fast2016_ftl.Bank.Drop.{clean-keeps}
use fast2016_ftl.Loss.View.{lowered, OnlyDram, lose_chunk-IsBank}
use fast2016_ftl.Read.View.{entry}
use fast2016_ftl.Trim.{trim_old, trim_chunk}

-- A chunk that is encoded in flash or in the cold log buffer: `trimRange` does not take the bit of the
-- cold log off its address, and uses an entry of the arrays for a bank that there is not.
pub trim_chunk-outside :
    (lpn c : ℕ) (w : World)
    → (find_chunk_location (entry lpn w c) ≡ flash_w_log_encoded)
      ⊎ (find_chunk_location (entry lpn w c) ≡ dram_cold_log)
    → trim_chunk lpn c w ≡ none
unfolding trim_chunk trim_old
trim_chunk-outside lpn c w h =
    let bank = chunk_to_bank (entry lpn w c) in
    let t : ltb bank num_banks ≡ false =
      le→ltb-false bank num_banks (chunk_to_bank-flag (entry lpn w c) h) in
    elim h [ inl e ↦ rw e (rw t) | inr e ↦ rw e (rw t) ]

-- Whether the map leads nowhere for chunk `c` of the page, and as before for the others.
pub record IsUnmapped (lpn c : ℕ) (w w' : World) : Type 0 where
  pub here : entry lpn w' c ≡ invalid
  pub others :
      (p x : ℕ)
      → p < num_banks * data_blk_per_bank * pages_per_blk
      → x < chunks_per_page
      → p * chunks_per_page + x ≢ lpn * chunks_per_page + c
      → entry p w' x ≡ entry p w x
  pub hot_ctrl : hot_ctrl w' ≡ hot_ctrl w
  pub cold_ctrl : cold_ctrl w' ≡ cold_ctrl w
  pub issued : w'.issued ≡ w.issued

module _ (lpn c : ℕ) (hl : lpn < num_banks * data_blk_per_bank * pages_per_blk)
    (hc : c < chunks_per_page) where
  -- A write to the map.
  abbrev pub map_chunk : ℕ → World → World
  map_chunk addr w = record w { dram = write_dram_32 (chunks_map_table lpn c) addr w.dram }

  pub map_chunk-IsBank :
      (addr bank : ℕ) (v : BankView) (w : World)
      → bank < num_banks
      → IsBank bank v w
      → IsBank bank v (map_chunk addr w)
  map_chunk-IsBank addr bank v w hb is =
      let same = λ (a : ℕ) (ok : InDram a) (behind : chunks_map_table lpn c < a).
        read-write_other (chunks_map_table lpn c) a addr w.dram (omega arith) ok (omega arith) in
      record {
        first_usage =
            Shows-keeps _ bank (omega arith) v.first_usage (first w) w.dram is.first_usage _
              (λ a ok low high. same a ok (omega arith));
        second_usage =
            Shows-keeps _ bank (omega arith) v.second_usage (second w) w.dram is.second_usage _
              (λ a ok low high. same a ok (omega arith));
        cold_usage =
            Shows-keeps _ bank (omega arith) v.cold_usage (cold w) w.dram is.cold_usage _
              (λ a ok low high. same a ok (omega arith));
        clean = clean-keeps bank hb v w is _ (λ a ok low. same a ok (omega arith));
      }

  -- A whole chunk that is in flash, not encoded: the block that it is in has one valid chunk less in
  -- each of the three heaps of its bank, in each of which it must have one, and the map leads nowhere
  -- for the chunk and as before for every other one.
  pub trim_chunk-IsBank :
      (v : BankView) (w : World)
      → (let a = entry lpn w c in
          find_chunk_location a ≡ flash_w_log
          → chunk_to_bank a < num_banks
          → IsBank (chunk_to_bank a) v w
          → 0 < v.first_usage.counts (chunk_to_lbn a)
          → 0 < v.second_usage.counts (chunk_to_lbn a)
          → 0 < v.cold_usage.counts (chunk_to_lbn a)
          → Ends
              (λ w'.
                IsBank (chunk_to_bank a) (lowered (chunk_to_lbn a) v) w' × IsUnmapped lpn c w w')
              (trim_chunk lpn c w))
  unfolding trim_chunk trim_old
  trim_chunk-IsBank v w e hb is h1 h2 h3 =
      let a = entry lpn w c in
      let bank = chunk_to_bank a in
      let t : ltb bank num_banks ≡ true = lt→ltb bank num_banks hb in
      let entry-same =
        λ (w1 : World) (only : OnlyDram bank w w1) (p x : ℕ)
            (hp : p < num_banks * data_blk_per_bank * pages_per_blk) (hx : x < chunks_per_page).
          only.memory (chunks_map_table p x) (omega arith) in
      rw e (
        rw t (
          Ends-bind (lose_chunk-IsBank bank hb (chunk_to_lbn a) (chunk_to_lbn-lt a) v w is h1 h2 h3)
            λ w1 (is1, only). ends (
              map_chunk-IsBank invalid bank (lowered (chunk_to_lbn a) v) w1 hb is1,
              record {
                here = read-write_self (chunks_map_table lpn c) invalid w1.dram (omega arith);
                others = λ p x hp hx other.
                    read-write_other (chunks_map_table lpn c) (chunks_map_table p x) invalid w1.dram
                      (omega arith) (omega arith) (omega (arith, other))
                    ∙ entry-same w1 only p x hp hx;
                hot_ctrl = ap hot_ctrl only.same;
                cold_ctrl = ap cold_ctrl only.same;
                issued = ap (λ (z : World). z.issued) only.same;
              },
            )))
