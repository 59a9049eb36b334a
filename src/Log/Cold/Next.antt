-- ===== src/Log/Cold/Next.antt =====
-- Where the cold data goes after a page: to the next page, or to the first clean block.
use fast2016_ftl.Common.{
  ℕ, suc, ◌≢◌, ◌+◌, ◌*◌, ◌/◌, ◌%◌, ◌≤◌, ◌<◌, ◌≡◌, refl, subst, ◌∙◌, ap, inl, inr, false, true,
  arith, List, ◌∷◌, Option, some, ◌==◌, Ends, ends, Ends-bind, u32, invalid, ==_self, ne→==-false,
  le→ltb-false,
}
use fast2016_ftl.Params.{num_banks, dram_base}
use fast2016_ftl.Layout.{
  heap_valid_chunks_addr_first_usage, heap_valid_chunks_addr_second_usage,
  heap_valid_chunks_addr_cold, clean_list,
}
use fast2016_ftl.Dram.{Dram, InDram, read_dram_32}
use fast2016_ftl.Heap.{insert_blk_in_heap}
use fast2016_ftl.CleanList.{ListData, clean_list_size}
use fast2016_ftl.CleanList.Queue.{length, Holds, length-contents}
use fast2016_ftl.CleanList.Pop.{clean_list_pop-Holds}
use fast2016_ftl.CleanList.Apart.{Holds-same}
use fast2016_ftl.Log.{LogCtrlBlock}
use fast2016_ftl.Log.Complete.{log_page_to_offset, log_page_to_log_blk}
use fast2016_ftl.Flash.{Hardware}
use fast2016_ftl.Flash.Laws.{IsHardware, transfer-nand_page_ptprogram}
use fast2016_ftl.World.{
  World, first, second, cold, clean, cold_ctrl, set_cold_ctrl, on_cold, set_words-outside,
}
use fast2016_ftl.Bank.{BankView, join_blk, IsBank}
use fast2016_ftl.Bank.Drop.{cold-IsBank}
use fast2016_ftl.Bank.Heaps.{Shows-keeps, Shows-join}
use fast2016_ftl.Log.Cold.{close_blk, pop_clean, collect_while_short, increase_lpn_cold_blk}

-- The cold log is at the first page of block `x`, and the rest of the queue of clean blocks is `xs`.
pub record IsFirstPage (bank : ℕ) (v : BankView) (x : ℕ) (xs : List ℕ) (w' : World) : Type 0 where
  pub bank_view : IsBank bank (record v { clean_queue = xs }) w'
  pub log_lpn : (cold_ctrl w' bank).log_lpn ≡ u32 (x * 128)

module _ (hw : Hardware) (ok : IsHardware hw) (bank : ℕ) (hb : bank < num_banks) (v : BankView)
    (w : World) (is : IsBank bank v w) where
  abbrev A : ℕ
  A = heap_valid_chunks_addr_first_usage

  abbrev B : ℕ
  B = heap_valid_chunks_addr_second_usage

  abbrev C : ℕ
  C = heap_valid_chunks_addr_cold

  abbrev c : LogCtrlBlock
  c = cold_ctrl w bank

  abbrev lo : ℕ
  lo = clean_list 0 + 8 * (512 * bank)

  -- A change below the heaps.
  below-IsBank :
      (m' : Dram)
      → ((a : ℕ) → InDram a → A ≤ a → read_dram_32 a m' ≡ read_dram_32 a w.dram)
      → IsBank bank v (record w { dram = m' })
  below-IsBank m' same = record {
    first_usage =
        Shows-keeps A bank (omega arith) v.first_usage (first w) w.dram is.first_usage m'
          (λ a ok low high. same a ok low);
    second_usage =
        Shows-keeps B bank (omega arith) v.second_usage (second w) w.dram is.second_usage m'
          (λ a ok low high. same a ok (omega arith));
    cold_usage =
        Shows-keeps C bank (omega arith) v.cold_usage (cold w) w.dram is.cold_usage m'
          (λ a ok low high. same a ok (omega arith));
    clean =
        Holds-same (clean w) bank lo 512 v.clean_queue w.dram m'
          (λ a ok low high. same a ok (omega arith)) is.clean;
  }

  module _ (list_low : dram_base ≤ c.lpns_list_addr) (list_high : c.lpns_list_addr + 4096 ≤ A) where
    closed-same :
        (a : ℕ)
        → InDram a
        → A ≤ a
        → read_dram_32 a (close_blk hw bank w).dram ≡ read_dram_32 a w.dram
    closed-same a inside above =
        set_words-outside 1024 c.lpns_list_addr invalid _ a inside list_low (omega arith)
          (inr (omega arith))
        ∙ ap (read_dram_32 a) (transfer-nand_page_ptprogram hw ok w.issued bank _ _ _ _ _ _ w.dram)

    closed-IsBank : IsBank bank v (close_blk hw bank w)
    closed-IsBank =
        let n = below-IsBank (close_blk hw bank w).dram closed-same in
        record {
          first_usage = n.first_usage;
          second_usage = n.second_usage;
          cold_usage = n.cold_usage;
          clean = n.clean;
        }

  on_cold-join :
      (l : ℕ)
      → l < 512
      → v.cold_usage.members l ≡ false
      → Ends
          (λ w'.
            IsBank bank (record v { cold_usage = join_blk l v.cold_usage }) w'
            × (cold_ctrl w' bank ≡ cold_ctrl w bank))
          (on_cold (λ d m. insert_blk_in_heap d bank l m) w)
  on_cold-join l small out =
      Ends-bind
        (Shows-join C bank (omega arith) v.cold_usage (cold w) w.dram is.cold_usage l small out)
        λ (d', m') (s, only).
          ends (cold-IsBank bank hb v w is (join_blk l v.cold_usage) d' m' s only, refl)

  Holds-size :
      (d : ListData) (xs : List ℕ) (m : Dram) → Holds d bank lo 512 xs m → d.size bank ≡ length xs
  Holds-size d xs m h = omega (arith, h.queue.size, length-contents m h.bs, ap length h.blocks)

  pop_clean-IsFirstPage :
      (k : ℕ) (gc : ℕ → World → Option World) (x : ℕ) (xs : List ℕ)
      → v.clean_queue ≡ x ∷ xs
      → 2 ≤ length xs
      → Ends (IsFirstPage bank v x xs) (
          pop_clean bank w λ lbn w2.
            collect_while_short
              (suc k)
              gc
              bank
              (set_cold_ctrl bank (record (cold_ctrl w2 bank) { log_lpn = u32 (lbn * 128) }) w2))
  unfolding collect_while_short clean_list_size
  pop_clean-IsFirstPage k gc x xs e room =
      Ends-bind
        (clean_list_pop-Holds (clean w) bank lo 512 w.dram x xs
          (subst (λ q. Holds (clean w) bank lo 512 q w.dram) e is.clean))
        λ (lbn, d', m') (first_blk, h, u).
          let enough : 2 ≤ d'.size bank = omega (arith, Holds-size d' xs m' h, room) in
          rw (le→ltb-false (d'.size bank) 2 enough) (
            ends (record {
              bank_view = record {
                first_usage =
                    Shows-keeps A bank (omega arith) v.first_usage (first w) w.dram is.first_usage
                      m' (λ a ok low high. u.memory a ok (inl (omega arith)));
                second_usage =
                    Shows-keeps B bank (omega arith) v.second_usage (second w) w.dram
                      is.second_usage m' (λ a ok low high. u.memory a ok (inl (omega arith)));
                cold_usage =
                    Shows-keeps C bank (omega arith) v.cold_usage (cold w) w.dram is.cold_usage m'
                      (λ a ok low high. u.memory a ok (inl (omega arith)));
                clean = h;
              };
              log_lpn = rw (==_self bank, first_blk);
            }))

module _ (hw : Hardware) (ok : IsHardware hw) (bank : ℕ) (hb : bank < num_banks) (v : BankView)
    (w : World) (is : IsBank bank v w) where
  abbrev ctrl : LogCtrlBlock
  ctrl = cold_ctrl w bank

  -- `increaseLpnColdBlk` before the last page that is used moves to the next page of the block.
  pub increase_lpn_cold_blk-next :
      (k : ℕ) (gc : ℕ → World → Option World)
      → ctrl.log_lpn < 65536
      → ctrl.log_lpn % 128 ≢ 126
      → increase_lpn_cold_blk k gc hw bank w
        ≡ some (set_cold_ctrl bank (record ctrl { log_lpn = ctrl.log_lpn + 1 }) w)
  unfolding increase_lpn_cold_blk log_page_to_offset
  increase_lpn_cold_blk-next k gc word more =
      let next : u32 (ctrl.log_lpn + 1) ≡ ctrl.log_lpn + 1 = omega (arith, word) in
      rw (ne→==-false (ctrl.log_lpn % 128) 126 more, next)

  -- `increaseLpnColdBlk` at the last page that is used puts the full block into the cold heap, where
  -- it must not be already, and goes on with the first page of the first clean block. With at least
  -- three clean blocks the garbage collector is not called, and the rest of the bank's view stays.
  -- The list of data pages must lie below the heaps.
  pub increase_lpn_cold_blk-IsFirstPage :
      (k : ℕ) (gc : ℕ → World → Option World) (x : ℕ) (xs : List ℕ)
      → dram_base ≤ ctrl.lpns_list_addr
      → ctrl.lpns_list_addr + 4096 ≤ heap_valid_chunks_addr_first_usage
      → ctrl.log_lpn < 65536
      → ctrl.log_lpn % 128 ≡ 126
      → v.cold_usage.members (ctrl.log_lpn / 128) ≡ false
      → v.clean_queue ≡ x ∷ xs
      → 2 ≤ length xs
      → Ends
          (IsFirstPage bank
            (record v { cold_usage = join_blk (ctrl.log_lpn / 128) v.cold_usage })
            x
            xs)
          (increase_lpn_cold_blk (suc k) gc hw bank w)
  unfolding increase_lpn_cold_blk log_page_to_offset log_page_to_log_blk
  increase_lpn_cold_blk-IsFirstPage k gc x xs low high word last out queue room =
      let full : (ctrl.log_lpn % 128 == 126) ≡ true = rw last in
      let l = ctrl.log_lpn / 128 in
      rw full (
        Ends-bind
          (on_cold-join hw ok bank hb v (close_blk hw bank w)
            (closed-IsBank hw ok bank hb v w is low high) l (omega (arith, word)) out)
          λ w1 (is1, e).
            pop_clean-IsFirstPage hw ok bank hb (record v { cold_usage = join_blk l v.cold_usage })
              w1 is1 k gc x xs queue room)
