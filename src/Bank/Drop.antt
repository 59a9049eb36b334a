-- ===== src/Bank/Drop.antt =====
-- `resetValidChunksAndRemove` and `cleanListPush` under the view of a bank.
use fast2016_ftl.Common.{
  ℕ, ◌+◌, ◌*◌, ◌≤◌, ◌<◌, ◌≡◌, ◌⊎◌, inl, refl, ◌∙◌, arith, [], ◌∷◌, ◌++◌, Ends, ends, Ends-bind,
}
use fast2016_ftl.Params.{num_banks}
use fast2016_ftl.Layout.{
  heap_valid_chunks_addr_first_usage, heap_valid_chunks_addr_second_usage,
  heap_valid_chunks_addr_cold, clean_list,
}
use fast2016_ftl.Dram.{Dram, InDram, read_dram_32}
use fast2016_ftl.Heap.{HeapData, reset_valid_chunks_and_remove}
use fast2016_ftl.CleanList.{clean_list_push}
use fast2016_ftl.CleanList.Queue.{length, Holds}
use fast2016_ftl.CleanList.Push.{clean_list_push-Holds}
use fast2016_ftl.CleanList.Apart.{Holds-same}
use fast2016_ftl.World.{World, first, second, cold, clean, on_first, on_second, on_cold, on_clean}
use fast2016_ftl.Bank.{
  BankView, Blocks, Shows, OnlyRows, drop_blk, IsDroppable, IsBank, OutsideRows,
}
use fast2016_ftl.Bank.Heaps.{IsPlace, Shows-keeps, Shows-drop}

-- The word at `a` belongs neither to a heap nor to the list of the bank.
pub record OutsideBank (bank a : ℕ) : Type 0 where
  pub first_usage : OutsideRows heap_valid_chunks_addr_first_usage bank a
  pub second_usage : OutsideRows heap_valid_chunks_addr_second_usage bank a
  pub cold_usage : OutsideRows heap_valid_chunks_addr_cold bank a
  pub clean :
      (a < clean_list 0 + 8 * (512 * bank)) ⊎ (clean_list 0 + 8 * (512 * bank) + 8 * 512 ≤ a)

-- Nothing has changed but the heaps and the list of the bank.
pub record OnlyBank (bank : ℕ) (w w' : World) : Type 0 where
  pub gc : w'.gc ≡ w.gc
  pub tuning : w'.tuning ≡ w.tuning
  pub issued : w'.issued ≡ w.issued
  pub hot_ctrl : w'.ftl.log.hot_log_ctrl ≡ w.ftl.log.hot_log_ctrl
  pub cold_ctrl : w'.ftl.log.cold_log_ctrl ≡ w.ftl.log.cold_log_ctrl
  pub memory : (a : ℕ) → OutsideBank bank a → read_dram_32 a w'.dram ≡ read_dram_32 a w.dram

pub OnlyBank-trans :
    (bank : ℕ) (w w1 w2 : World) → OnlyBank bank w w1 → OnlyBank bank w1 w2 → OnlyBank bank w w2
OnlyBank-trans bank w w1 w2 p q = record {
  gc = q.gc ∙ p.gc;
  tuning = q.tuning ∙ p.tuning;
  issued = q.issued ∙ p.issued;
  hot_ctrl = q.hot_ctrl ∙ p.hot_ctrl;
  cold_ctrl = q.cold_ctrl ∙ p.cold_ctrl;
  memory = λ a out. q.memory a out ∙ p.memory a out;
}

module _ (bank : ℕ) (hb : bank < num_banks) (v : BankView) (w : World) (is : IsBank bank v w) where
  abbrev A : ℕ
  A = heap_valid_chunks_addr_first_usage

  abbrev B : ℕ
  B = heap_valid_chunks_addr_second_usage

  abbrev C : ℕ
  C = heap_valid_chunks_addr_cold

  abbrev lo : ℕ
  lo = clean_list 0 + 8 * (512 * bank)

  a-IsPlace : IsPlace A bank
  a-IsPlace = omega arith

  b-IsPlace : IsPlace B bank
  b-IsPlace = omega arith

  c-IsPlace : IsPlace C bank
  c-IsPlace = omega arith

  pub clean-keeps :
      (m' : Dram)
      → ((a : ℕ) → InDram a → lo ≤ a → read_dram_32 a m' ≡ read_dram_32 a w.dram)
      → Holds (clean w) bank lo 512 v.clean_queue m'
  clean-keeps m' same =
      Holds-same (clean w) bank lo 512 v.clean_queue w.dram m' (λ a ok low high. same a ok low)
        is.clean

  -- A change of the cold heap only.
  pub cold-IsBank :
      (b : Blocks) (d' : HeapData) (m' : Dram)
      → Shows C bank b d' m'
      → OnlyRows C bank w.dram m'
      → IsBank bank
          (record v { cold_usage = b })
          (record w { ftl = record w.ftl { heap_data_cold = d' }; dram = m' })
  cold-IsBank b d' m' s only = record {
    first_usage =
        Shows-keeps A bank a-IsPlace v.first_usage (first w) w.dram is.first_usage m'
          (λ a ok low high. only a (omega arith));
    second_usage =
        Shows-keeps B bank b-IsPlace v.second_usage (second w) w.dram is.second_usage m'
          (λ a ok low high. only a (omega arith));
    cold_usage = s;
    clean = clean-keeps m' (λ a ok low. only a (omega arith));
  }

  module _ (l n : ℕ) (small : l < 512) (word : n < 65536) where
    pub on_first-drop :
        IsDroppable l v.first_usage
        → Ends
            (λ w'.
              IsBank bank (record v { first_usage = drop_blk l n v.first_usage }) w'
              × OnlyBank bank w w')
            (on_first (λ d m. reset_valid_chunks_and_remove d bank l n m) w)
    on_first-drop ok =
        Ends-bind
          (Shows-drop A bank a-IsPlace v.first_usage (first w) w.dram is.first_usage l n small word
            ok)
          λ (d', m') (s, only). ends (
            record {
              first_usage = s;
              second_usage =
                  Shows-keeps B bank b-IsPlace v.second_usage (second w) w.dram is.second_usage m'
                    (λ a ok low high. only a (omega arith));
              cold_usage =
                  Shows-keeps C bank c-IsPlace v.cold_usage (cold w) w.dram is.cold_usage m'
                    (λ a ok low high. only a (omega arith));
              clean = clean-keeps m' (λ a ok low. only a (omega arith));
            },
            record {
              gc = refl;
              tuning = refl;
              issued = refl;
              hot_ctrl = refl;
              cold_ctrl = refl;
              memory = λ a out. only a out.first_usage;
            },
          )

    pub on_second-drop :
        IsDroppable l v.second_usage
        → Ends
            (λ w'.
              IsBank bank (record v { second_usage = drop_blk l n v.second_usage }) w'
              × OnlyBank bank w w')
            (on_second (λ d m. reset_valid_chunks_and_remove d bank l n m) w)
    on_second-drop ok =
        Ends-bind
          (Shows-drop B bank b-IsPlace v.second_usage (second w) w.dram is.second_usage l n small
            word ok)
          λ (d', m') (s, only). ends (
            record {
              first_usage =
                  Shows-keeps A bank a-IsPlace v.first_usage (first w) w.dram is.first_usage m'
                    (λ a ok low high. only a (omega arith));
              second_usage = s;
              cold_usage =
                  Shows-keeps C bank c-IsPlace v.cold_usage (cold w) w.dram is.cold_usage m'
                    (λ a ok low high. only a (omega arith));
              clean = clean-keeps m' (λ a ok low. only a (omega arith));
            },
            record {
              gc = refl;
              tuning = refl;
              issued = refl;
              hot_ctrl = refl;
              cold_ctrl = refl;
              memory = λ a out. only a out.second_usage;
            },
          )

    pub on_cold-drop :
        IsDroppable l v.cold_usage
        → Ends
            (λ w'.
              IsBank bank (record v { cold_usage = drop_blk l n v.cold_usage }) w'
              × OnlyBank bank w w')
            (on_cold (λ d m. reset_valid_chunks_and_remove d bank l n m) w)
    on_cold-drop ok =
        Ends-bind
          (Shows-drop C bank c-IsPlace v.cold_usage (cold w) w.dram is.cold_usage l n small word ok)
          λ (d', m') (s, only). ends (
            cold-IsBank (drop_blk l n v.cold_usage) d' m' s only,
            record {
              gc = refl;
              tuning = refl;
              issued = refl;
              hot_ctrl = refl;
              cold_ctrl = refl;
              memory = λ a out. only a out.cold_usage;
            },
          )

  pub on_clean-push :
      (l : ℕ)
      → l < 512
      → length v.clean_queue < 512
      → Ends
          (λ w'.
            IsBank bank (record v { clean_queue = v.clean_queue ++ l ∷ [] }) w'
            × OnlyBank bank w w')
          (on_clean (λ d m. clean_list_push d bank l m) w)
  on_clean-push l small room =
      Ends-bind
        (clean_list_push-Holds (clean w) bank lo 512 w.dram l (omega arith) v.clean_queue is.clean
          room)
        λ (d', m') (h, u). ends (
          record {
            first_usage =
                Shows-keeps A bank a-IsPlace v.first_usage (first w) w.dram is.first_usage m'
                  (λ a ok low high. u.memory a ok (inl (omega arith)));
            second_usage =
                Shows-keeps B bank b-IsPlace v.second_usage (second w) w.dram is.second_usage m'
                  (λ a ok low high. u.memory a ok (inl (omega arith)));
            cold_usage =
                Shows-keeps C bank c-IsPlace v.cold_usage (cold w) w.dram is.cold_usage m'
                  (λ a ok low high. u.memory a ok (inl (omega arith)));
            clean = h;
          },
          record {
            gc = refl;
            tuning = refl;
            issued = refl;
            hot_ctrl = refl;
            cold_ctrl = refl;
            memory = λ a out. u.memory a out.first_usage.inside out.clean;
          },
        )
