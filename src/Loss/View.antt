-- ===== src/Loss/View.antt =====
-- A lost chunk under the view of a bank.
use fast2016_ftl.Common.{
  ℕ, ◌-◌, ◌<◌, ◌≡◌, refl, ◌∙◌, arith, if◌then◌else◌, ◌==◌, Ends, ends, Ends-bind, Ends-weaken, ap,
}
use fast2016_ftl.Params.{num_banks}
use fast2016_ftl.Layout.{
  heap_valid_chunks_addr_first_usage, heap_valid_chunks_addr_second_usage,
  heap_valid_chunks_addr_cold,
}
use fast2016_ftl.Dram.{Dram, read_dram_32}
use fast2016_ftl.Heap.{HeapData, log_lbn_of, decrement_valid_chunks}
use fast2016_ftl.Heap.View.{count}
use fast2016_ftl.Heap.Update.{decrement_valid_chunks-Changed}
use fast2016_ftl.World.{World, first, second, cold, on_dram, set_dram}
use fast2016_ftl.Bank.{Blocks, BankView, Shows, IsBank, OnlyRows}
use fast2016_ftl.Bank.Heaps.{IsPlace, fits, Shows-keeps}
use fast2016_ftl.Bank.Drop.{OutsideBank, clean-keeps}
use fast2016_ftl.Loss.{lose_chunk}

-- The block has one valid chunk less.
abbrev pub lower_blk : ℕ → Blocks → Blocks
lower_blk l b = record b { counts = λ x. if l == x then b.counts l - 1 else b.counts x }

abbrev pub lowered : ℕ → BankView → BankView
lowered l v = record v {
  first_usage = lower_blk l v.first_usage;
  second_usage = lower_blk l v.second_usage;
  cold_usage = lower_blk l v.cold_usage;
}

module _ (start bank : ℕ) (place : IsPlace start bank) (b : Blocks) (d : HeapData) (m : Dram)
    (s : Shows start bank b d m) (l : ℕ) (small : l < 512) where
  same_blk : log_lbn_of d l ≡ l
  same_blk = omega (arith, s.base)

  abbrev n : ℕ
  n = count d bank (log_lbn_of d l) m

  n-counts : n ≡ b.counts l
  n-counts = ap (λ x. count d bank x m) same_blk ∙ s.counts l small

  Shows-lower :
      0 < b.counts l
      → Ends
          (λ m'. Shows start bank (lower_blk l b) d m' × OnlyRows start bank m m')
          (decrement_valid_chunks d bank l m)
  Shows-lower some_left =
      Ends-weaken
        (decrement_valid_chunks-Changed d bank l m ⦃fits = fits start bank place b d m s⦄ s.valid
          (omega (arith, same_blk, s.blks)) (omega (arith, n-counts)))
        λ m' (valid, c). (
          record {
            els_at = s.els_at;
            positions_at = s.positions_at;
            blks = s.blks;
            base = s.base;
            valid = valid;
            counts = λ x h.
                c.counts x (omega (arith, s.blks)) ∙ rw (same_blk, s.counts x h, s.counts l small);
            members = λ x h. c.members x (omega (arith, s.blks)) ∙ s.members x h;
          },
          λ a out. c.elsewhere a (record {
            inside = out.inside;
            els = omega (arith, out.els, s.els_at);
            positions = omega (arith, out.positions, s.positions_at);
          }),
        )

-- Only the memory of the bank's heaps has changed.
pub record OnlyDram (bank : ℕ) (w w' : World) : Type 0 where
  pub same : w' ≡ set_dram w'.dram w
  pub memory : (a : ℕ) → OutsideBank bank a → read_dram_32 a w'.dram ≡ read_dram_32 a w.dram

OnlyDram-trans :
    (bank : ℕ) (w w1 w2 : World) → OnlyDram bank w w1 → OnlyDram bank w1 w2 → OnlyDram bank w w2
OnlyDram-trans bank w w1 w2 p q = record {
  same = q.same ∙ ap (set_dram w2.dram) p.same;
  memory = λ a out. q.memory a out ∙ p.memory a out;
}

module _ (bank : ℕ) (hb : bank < num_banks) (l : ℕ) (small : l < 512) where
  abbrev A : ℕ
  A = heap_valid_chunks_addr_first_usage

  abbrev B : ℕ
  B = heap_valid_chunks_addr_second_usage

  abbrev C : ℕ
  C = heap_valid_chunks_addr_cold

  abbrev Lowers : BankView → World → World → Type 0
  Lowers v w w' = IsBank bank v w' × OnlyDram bank w w'

  module _ (v : BankView) (w : World) (is : IsBank bank v w) where
    first-lower :
        0 < v.first_usage.counts l
        → Ends
            (Lowers (record v { first_usage = lower_blk l v.first_usage }) w)
            (on_dram (decrement_valid_chunks (first w) bank l) w)
    first-lower h =
        Ends-bind
          (Shows-lower A bank (omega arith) v.first_usage (first w) w.dram is.first_usage l small h)
          λ m' (s, only). ends (
            record {
              first_usage = s;
              second_usage =
                  Shows-keeps B bank (omega arith) v.second_usage (second w) w.dram is.second_usage
                    m' (λ a ok low high. only a (omega arith));
              cold_usage =
                  Shows-keeps C bank (omega arith) v.cold_usage (cold w) w.dram is.cold_usage m'
                    (λ a ok low high. only a (omega arith));
              clean = clean-keeps bank hb v w is m' (λ a ok low. only a (omega arith));
            },
            record { same = refl; memory = λ a out. only a out.first_usage },
          )

    second-lower :
        0 < v.second_usage.counts l
        → Ends
            (Lowers (record v { second_usage = lower_blk l v.second_usage }) w)
            (on_dram (decrement_valid_chunks (second w) bank l) w)
    second-lower h =
        Ends-bind
          (Shows-lower B bank (omega arith) v.second_usage (second w) w.dram is.second_usage l small
            h)
          λ m' (s, only). ends (
            record {
              first_usage =
                  Shows-keeps A bank (omega arith) v.first_usage (first w) w.dram is.first_usage m'
                    (λ a ok low high. only a (omega arith));
              second_usage = s;
              cold_usage =
                  Shows-keeps C bank (omega arith) v.cold_usage (cold w) w.dram is.cold_usage m'
                    (λ a ok low high. only a (omega arith));
              clean = clean-keeps bank hb v w is m' (λ a ok low. only a (omega arith));
            },
            record { same = refl; memory = λ a out. only a out.second_usage },
          )

    cold-lower :
        0 < v.cold_usage.counts l
        → Ends
            (Lowers (record v { cold_usage = lower_blk l v.cold_usage }) w)
            (on_dram (decrement_valid_chunks (cold w) bank l) w)
    cold-lower h =
        Ends-bind
          (Shows-lower C bank (omega arith) v.cold_usage (cold w) w.dram is.cold_usage l small h)
          λ m' (s, only). ends (
            record {
              first_usage =
                  Shows-keeps A bank (omega arith) v.first_usage (first w) w.dram is.first_usage m'
                    (λ a ok low high. only a (omega arith));
              second_usage =
                  Shows-keeps B bank (omega arith) v.second_usage (second w) w.dram is.second_usage
                    m' (λ a ok low high. only a (omega arith));
              cold_usage = s;
              clean = clean-keeps bank hb v w is m' (λ a ok low. only a (omega arith));
            },
            record { same = refl; memory = λ a out. only a out.cold_usage },
          )

  -- A lost chunk under the view of its bank: the block has one valid chunk less in each of the three
  -- heaps, in each of which it must have one, and nothing else changes.
  pub lose_chunk-IsBank :
      (v : BankView) (w : World)
      → IsBank bank v w
      → 0 < v.first_usage.counts l
      → 0 < v.second_usage.counts l
      → 0 < v.cold_usage.counts l
      → Ends (λ w'. IsBank bank (lowered l v) w' × OnlyDram bank w w') (lose_chunk bank l w)
  unfolding lose_chunk
  lose_chunk-IsBank v w is h1 h2 h3 = Ends-bind (first-lower v w is h1) λ w1 (is1, o1).
      Ends-bind (second-lower _ w1 is1 h2) λ w2 (is2, o2).
        Ends-weaken (cold-lower _ w2 is2 h3) λ w3 (is3, o3). (
          record {
            first_usage = is3.first_usage;
            second_usage = is3.second_usage;
            cold_usage = is3.cold_usage;
            clean = is3.clean;
          },
          OnlyDram-trans bank w w1 w3 o1 (OnlyDram-trans bank w1 w2 w3 o2 o3),
        )
