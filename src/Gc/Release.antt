-- ===== src/Gc/Release.antt =====
-- The end of a collection: the victim leaves the heaps, is erased and becomes a clean block.
use fast2016_ftl.Common.{
  ℕ, ◌<◌, ◌≡◌, sym, ◌∙◌, subst, ap, arith, ◌∷◌, Ends, ends, Ends-bind, ==_self,
}
use fast2016_ftl.Params.{num_banks}
use fast2016_ftl.Dram.{read_dram_32}
use fast2016_ftl.CleanList.Queue.{length}
use fast2016_ftl.Flash.{Hardware, nand_block_erase}
use fast2016_ftl.Flash.Laws.{IsHardware, transfer-nand_block_erase}
use fast2016_ftl.World.{World, gc_idle, issue}
use fast2016_ftl.Bank.{BankView, IsBank, IsDroppable, released}
use fast2016_ftl.Bank.Drop.{
  OutsideBank, OnlyBank-trans, on_first-drop, on_second-drop, on_cold-drop, on_clean-push,
}
use fast2016_ftl.Gc.{release_victim}

-- The collection of the bank is over, with the erasure of the victim as the last command.
pub record IsReleased (bank : ℕ) (w w' : World) : Type 0 where
  pub gc_state : (w'.gc bank).gc_state ≡ gc_idle
  pub issued : w'.issued ≡ nand_block_erase bank (w.gc bank).victim_vbn ∷ w.issued
  pub hot_ctrl : w'.ftl.log.hot_log_ctrl ≡ w.ftl.log.hot_log_ctrl
  pub cold_ctrl : w'.ftl.log.cold_log_ctrl ≡ w.ftl.log.cold_log_ctrl
  pub memory : (a : ℕ) → OutsideBank bank a → read_dram_32 a w'.dram ≡ read_dram_32 a w.dram

module _ (hw : Hardware) (ok : IsHardware hw) (bank : ℕ) (hb : bank < num_banks) (v : BankView)
    (w : World) (is : IsBank bank v w) where
  abbrev l : ℕ
  l = (w.gc bank).victim_lbn

  abbrev erased : World → World
  erased w3 = issue hw (nand_block_erase bank (w3.gc bank).victim_vbn) w3

  erased-same : (w3 : World) (a : ℕ) → read_dram_32 a (erased w3).dram ≡ read_dram_32 a w3.dram
  erased-same w3 a =
      ap (read_dram_32 a)
        (transfer-nand_block_erase hw ok w3.issued bank (w3.gc bank).victim_vbn w3.dram)

  erased-IsBank : (v3 : BankView) (w3 : World) → IsBank bank v3 w3 → IsBank bank v3 (erased w3)
  erased-IsBank v3 w3 is3 =
      let e = transfer-nand_block_erase hw ok w3.issued bank (w3.gc bank).victim_vbn w3.dram in
      subst (λ m. IsBank bank v3 (record (erased w3) { dram = m })) (sym e)
        (record {
          first_usage = is3.first_usage;
          second_usage = is3.second_usage;
          cold_usage = is3.cold_usage;
          clean = is3.clean;
        })

  -- The victim leaves the heaps and becomes clean: the view of the bank after it is the view before
  -- with the block dropped from the three heaps, its numbers of valid chunks those of an unused
  -- block, and the block at the end of the queue of clean blocks. The block is erased, the
  -- collection is over, and the memory outside the bank's heaps and list stays. In each heap the
  -- victim must be absent or have the least number of valid chunks, and the queue must have room.
  pub release_victim-IsBank :
      l < 512
      → IsDroppable l v.first_usage
      → IsDroppable l v.second_usage
      → IsDroppable l v.cold_usage
      → length v.clean_queue < 512
      → Ends (λ w'. IsBank bank (released l v) w' × IsReleased bank w w') (release_victim hw bank w)
  unfolding release_victim
  release_victim-IsBank small in_first in_second in_cold room =
      Ends-bind (on_first-drop bank hb v w is l 1008 small (omega arith) in_first) λ w1 (is1, o1).
        Ends-bind (on_second-drop bank hb _ w1 is1 l 1016 small (omega arith) in_second)
          λ w2 (is2, o2).
            Ends-bind (on_cold-drop bank hb _ w2 is2 l 1016 small (omega arith) in_cold)
              λ w3 (is3, o3).
                let keeps = OnlyBank-trans bank w w2 w3 (OnlyBank-trans bank w w1 w2 o1 o2) o3 in
                Ends-bind
                  (on_clean-push bank hb _ (erased w3) (erased-IsBank _ w3 is3) l small room)
                  λ w4 (is4, o4). ends (
                    record {
                      first_usage = is4.first_usage;
                      second_usage = is4.second_usage;
                      cold_usage = is4.cold_usage;
                      clean = is4.clean;
                    },
                    record {
                      gc_state = rw (==_self bank);
                      issued =
                          o4.issued ∙ rw (ap (λ gs. (gs bank).victim_vbn) keeps.gc, keeps.issued);
                      hot_ctrl = o4.hot_ctrl ∙ keeps.hot_ctrl;
                      cold_ctrl = o4.cold_ctrl ∙ keeps.cold_ctrl;
                      memory = λ a out. o4.memory a out ∙ erased-same w3 a ∙ keeps.memory a out;
                    },
                  )
