-- ===== src/Log/Start.antt =====
-- `initLog`: every bank starts with one block for hot data, one for cold data and all others clean.
use native.Mathlib.Decide.{dec_le}
use fast2016_ftl.Common.{
  ◌∙◌, refl, inl, ℕ, zero, suc, ◌+◌, ◌*◌, ◌≤◌, ◌<◌, ◌≡◌, ◌≢◌, subst, List, [], arith, Ends, ends,
  Ends-weaken, Ends-bind, invalid, ==_self,
}
use fast2016_ftl.Params.{num_banks, log_blk_per_bank}
use fast2016_ftl.Layout.{clean_list}
use fast2016_ftl.Dram.{Dram, InDram, read_dram_32}
use fast2016_ftl.CleanList.{ListData, clean_list_init}
use fast2016_ftl.CleanList.Queue.{Holds, Untouched}
use fast2016_ftl.CleanList.Init.{clean_list_init-Holds, clean_list_init-below}
use fast2016_ftl.CleanList.Pop.{clean_list_pop-Holds}
use fast2016_ftl.CleanList.Apart.{Untouched-trans, Holds-Untouched}
use fast2016_ftl.Log.{LogState, hot_start, cold_start, started, init_bank, init_log_banks, init_log}
use fast2016_ftl.Log.Fill.{range, push_blks-Holds}

-- The clean list of bank `b` is the queue `xs`, in the row that the layout gives it.
abbrev pub CleanHolds : LogState → ℕ → List ℕ → Dram → Type 0
CleanHolds s b xs m = Holds s.clean_list_data_write b (clean_list 0 + 8 * (512 * b)) 512 xs m

-- What `initLog` sets for a bank.
pub record Started (s : LogState) (b : ℕ) (m : Dram) : Type 0 where
  pub clean : CleanHolds s b (range 2 510) m
  pub hot : s.hot_log_ctrl b ≡ hot_start b 0
  pub cold : s.cold_log_ctrl b ≡ cold_start b 1
  pub step_down : s.adaptive_step_down b ≡ s.init_step_down
  pub step_up : s.adaptive_step_up b ≡ s.init_step_up
  pub step_ups : s.n_step_ups b ≡ 0
  pub step_downs : s.n_step_downs b ≡ 0
  pub from_heap : s.n_valid_chunks_from_heap b ≡ invalid

-- What lies before the clean lists stays.
abbrev pub SameBelow : Dram → Dram → Type 0
SameBelow m m' = (a : ℕ) → InDram a → a < clean_list 0 → read_dram_32 a m' ≡ read_dram_32 a m

-- What setting up `bank` leaves alone.
record Spares (bank : ℕ) (s : LogState) (m : Dram) (s' : LogState) (m' : Dram) : Type 0 where
  below : SameBelow m m'
  started : (b : ℕ) → b ≢ bank → Started s b m → Started s' b m'
  clean : (b : ℕ) → b ≢ bank → (xs : List ℕ) → CleanHolds s b xs m → CleanHolds s' b xs m'

module _ (s : LogState) (bank : ℕ) (m : Dram) where
  abbrev d : ListData
  d = s.clean_list_data_write

  started-Started :
      (d' : ListData) (m' : Dram)
      → Holds d' bank (clean_list 0 + 8 * (512 * bank)) 512 (range 2 510) m'
      → Started (started s bank d' 0 1) bank m'
  started-Started d' m' h = record {
    clean = h;
    hot = ground (arith, ==_self bank);
    cold = ground (arith, ==_self bank);
    step_down = ground (arith, ==_self bank);
    step_up = ground (arith, ==_self bank);
    step_ups = ground (arith, ==_self bank);
    step_downs = ground (arith, ==_self bank);
    from_heap = ground (arith, ==_self bank);
  }

  started-Spares :
      (d' : ListData) (m' : Dram) (hot cold : ℕ)
      → Untouched d bank (clean_list 0 + 8 * (512 * bank)) 512 m d' m'
      → Spares bank s m (started s bank d' hot cold) m'
  started-Spares d' m' hot cold u =
      let clean : (b : ℕ)
          → b ≢ bank
          → (xs : List ℕ) → CleanHolds s b xs m
          → Holds d' b (clean_list 0 + 8 * (512 * b)) 512 xs m' =
        λ b ne xs h.
          Holds-Untouched d d' bank (clean_list 0 + 8 * (512 * bank)) 512 b
            (clean_list 0 + 8 * (512 * b)) 512 xs m m' u ne (omega arith) h in
      record {
        below = λ a ok low. u.memory a ok (inl (omega arith));
        started = λ b ne r. record {
          clean = clean b ne (range 2 510) r.clean;
          hot = ground (arith, r.hot);
          cold = ground (arith, r.cold);
          step_down = ground (arith, r.step_down);
          step_up = ground (arith, r.step_up);
          step_ups = ground (arith, r.step_ups);
          step_downs = ground (arith, r.step_downs);
          from_heap = ground (arith, r.from_heap);
        };
        clean = clean;
      }

  init_bank-Started :
      CleanHolds s bank [] m
      → Ends (λ (s', m'). Started s' bank m' × Spares bank s m s' m') (init_bank s bank m)
  unfolding init_bank
  init_bank-Started h =
      let lo = clean_list 0 + 8 * (512 * bank) in
      Ends-bind
        (push_blks-Holds log_blk_per_bank 0 d bank lo 512 [] m (omega arith) (omega arith) h)
        λ (d1, m1) (h1, u1).
          Ends-bind (clean_list_pop-Holds d1 bank lo 512 m1 0 (range 1 511) h1)
            λ (hot, d2, m2) (e, h2, u2).
              Ends-bind (clean_list_pop-Holds d2 bank lo 512 m2 1 (range 2 510) h2)
                λ (cold, d3, m3) (e', h3, u3).
                  let u =
                    Untouched-trans d d1 d3 bank lo 512 m m1 m3 u1
                      (Untouched-trans d1 d2 d3 bank lo 512 m1 m2 m3 u2 u3) in
                  rw (e, e') (ends (started-Started d3 m3 h3, started-Spares d3 m3 0 1 u))

-- All banks are set up, and what lies before the clean lists is as in `m`.
abbrev pub AllStarted : Dram → LogState × Dram → Type 0
AllStarted m (s', m') = ((b : ℕ) → b < num_banks → Started s' b m') × SameBelow m m'

init_log_banks-Started :
    (k : ℕ) (s : LogState) (bank : ℕ) (m : Dram)
    → bank + k ≡ num_banks
    → ((b : ℕ) → bank ≤ b → b < num_banks → CleanHolds s b [] m)
    → ((b : ℕ) → b < bank → Started s b m)
    → Ends (AllStarted m) (init_log_banks k s bank m)
unfolding init_log_banks
init_log_banks-Started zero s bank m all todo done =
    ends (λ b h. done b (omega arith), λ a ok low. refl)
init_log_banks-Started (suc k) s bank m all todo done =
    Ends-bind (init_bank-Started s bank m (todo bank (omega arith) (omega arith)))
      λ (s1, m1) (here, spares).
        Ends-weaken
          (init_log_banks-Started k s1 (suc bank) m1 (omega arith)
            (λ b low high. spares.clean b (omega arith) [] (todo b (omega arith) high))
            (λ b h. elim (dec_le bank b) [
              | yes le ↦ subst (λ x. Started s1 x m1) (omega arith) here
              | no gt ↦ spares.started b (omega arith) (done b (omega arith))
            ]))
          λ (s2, m2) (ready, same). (ready, λ a ok low. same a ok low ∙ spares.below a ok low)

-- `initLog` ends; in each bank block 0 then takes the hot data and block 1 the cold data, from their
-- first page on, the adaptive counters are reset, and the list of clean blocks holds the blocks
-- from 2 to 511 in this order; what lies before the clean lists in DRAM stays.
pub init_log-Started : (s : LogState) (m : Dram) → Ends (AllStarted m) (init_log s m)
unfolding init_log
init_log-Started s m =
    let r = clean_list_init s.clean_list_data_write (clean_list 0) log_blk_per_bank m in
    Ends-weaken
      (init_log_banks-Started num_banks (record s { clean_list_data_write = r.0 }) 0 r.1 refl
        (λ b low high.
          clean_list_init-Holds s.clean_list_data_write (clean_list 0) log_blk_per_bank m
            (omega arith) (omega arith) b high)
        (λ b h. absurd (omega arith)))
      λ (s2, m2) (ready, same). (
        ready,
        λ a ok low.
            same a ok low
            ∙ clean_list_init-below s.clean_list_data_write (clean_list 0) log_blk_per_bank m
                (omega arith) (omega arith) a ok low,
      )
