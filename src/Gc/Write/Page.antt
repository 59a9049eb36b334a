-- ===== src/Gc/Write/Page.antt =====
-- `writePage` on a page that is written chunk by chunk: it ends, and the next page follows.
use fast2016_ftl.Common.{
  ℕ, ◌+◌, ◌%◌, ◌≤◌, ◌<◌, ◌≡◌, Bool, true, false, Option, some, ◌==◌, if◌then◌else◌, u32, sub32,
}
use fast2016_ftl.Log.{IncreaseLpn}
use fast2016_ftl.Flash.{Hardware}
use fast2016_ftl.World.{World, GcBank, gc_read, cold_ctrl, set_gc, gc_buf}
use fast2016_ftl.Gc.Page.{count_true}
use fast2016_ftl.Gc.Write.{write_chunk_on_log_block_during_gc, unmark, mapped_to, increase_cold}
use fast2016_ftl.Gc.Write.Takes.{Takes}

module _ (hw : Hardware) (rounds : ℕ) (gc : ℕ → World → Option World)
    (other : IncreaseLpn → ℕ → World → Option World) (bank : ℕ) where
  abbrev increase : IncreaseLpn → ℕ → World → Option World
  increase = increase_cold rounds gc hw other

  -- The counters of the bank fit `k` chunks from `c` on.
  record Counts (k c : ℕ) (g : GcBank) : Type 0 where
    in_page : g.n_valid_chunks_in_page ≡ count_true k c g.valid_chunks
    in_blk : g.n_valid_chunks_in_page ≤ g.n_valid_chunks_in_blk
    word : g.n_valid_chunks_in_blk < 4294967296

  -- All chunks of the page have been taken from it; as many of them at most have been moved.
  record Emptied (g g' : GcBank) : Type 0 where
    in_page : g'.n_valid_chunks_in_page ≡ 0
    low : g.n_valid_chunks_in_blk ≤ g'.n_valid_chunks_in_blk + g.n_valid_chunks_in_page
    high : g'.n_valid_chunks_in_blk ≤ g.n_valid_chunks_in_blk
    gc_state : g'.gc_state ≡ g.gc_state
    page_offset : g'.page_offset ≡ g.page_offset
    victim_lbn : g'.victim_lbn ≡ g.victim_lbn

  -- The bank reads the next page, and the chunks of this one are written or have been moved.
  pub record IsWritten (g : GcBank) (w' : World) : Type 0 where
    pub gc_state : (w'.gc bank).gc_state ≡ gc_read
    pub page_offset : (w'.gc bank).page_offset ≡ (g.page_offset + 1) % 256
    pub victim_lbn : (w'.gc bank).victim_lbn ≡ g.victim_lbn
    pub in_page : (w'.gc bank).n_valid_chunks_in_page ≡ 0
    pub low :
        g.n_valid_chunks_in_blk ≤ (w'.gc bank).n_valid_chunks_in_blk + g.n_valid_chunks_in_page
    pub high : (w'.gc bank).n_valid_chunks_in_blk ≤ g.n_valid_chunks_in_blk
    pub all_valid : (cold_ctrl w' bank).all_chunks_in_log_are_valid ≡ true

  -- A chunk is taken from the page; `lost` says whether it has left the block.
  abbrev took : ℕ → Bool → GcBank → GcBank
  took c lost g = record g {
    valid_chunks = unmark hw increase g.valid_chunks c;
    n_valid_chunks_in_page = sub32 g.n_valid_chunks_in_page 1;
    n_valid_chunks_in_blk =
        if lost then sub32 g.n_valid_chunks_in_blk 1 else g.n_valid_chunks_in_blk;
  }

  abbrev Outcome : World → World → Type 0
  Outcome w w' =
      Emptied (w.gc bank) (w'.gc bank) × ((cold_ctrl w' bank).all_chunks_in_log_are_valid ≡ true)

  -- A round of the loop: a chunk is taken, or there is none to take.
  data Round (c : ℕ) (g : GcBank) : GcBank → Type 0 where
    takes : (lost : Bool) → g.valid_chunks c ≡ true → Round c g (took c lost g)
    passes : g.valid_chunks c ≡ false → Round c g g

  abbrev Rounds : ℕ → ℕ → World → World → Type 0
  Rounds k c w w1 = Round c (w.gc bank) (w1.gc bank) × Takes hw rounds gc other bank k w1

  -- The chunk at `c` of the page.
  abbrev chunk_step : ℕ → ℕ → World → Option World
  chunk_step base c w =
      let g = w.gc bank in
      let taken = record g {
        valid_chunks = unmark hw increase g.valid_chunks c;
        n_valid_chunks_in_page = sub32 g.n_valid_chunks_in_page 1;
      } in
      if g.valid_chunks c
      then (if mapped_to hw increase g c w.dram == u32 (base + c)
          then write_chunk_on_log_block_during_gc hw increase bank (g.data_lpns c)
              (g.data_chunk_offsets c) c (gc_buf bank) (set_gc bank taken w)
          else some (
              set_gc bank (record taken { n_valid_chunks_in_blk = sub32 g.n_valid_chunks_in_blk 1 })
                w))
      else some w
