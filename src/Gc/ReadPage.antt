-- ===== src/Gc/ReadPage.antt =====
-- `readPage`: how far it goes through the pages of the victim, and where it ends.
use fast2016_ftl.Common.{ℕ, ◌+◌, ◌≤◌, ◌<◌, ◌≡◌, ◌≢◌, none, Bool, Option, some, ◌∷◌}
use fast2016_ftl.Dram.{Dram}
use fast2016_ftl.Flash.{Hardware, nand_page_ptread, return_on_issue}
use fast2016_ftl.World.{GcBank, World, gc_write, gc_buf}
use fast2016_ftl.Gc.{release_victim}
use fast2016_ftl.Gc.Page.{IsPage, IsBlank}

module _ (bank : ℕ) (m : Dram) (kind : ℕ → Bool) (lbn : ℕ) where
  -- The collection of the bank stands at page `q`, and nothing else has changed.
  pub record IsAt (w w1 : World) (q : ℕ) : Type 0 where
    pub dram : w1.dram ≡ w.dram
    pub ftl : w1.ftl ≡ w.ftl
    pub issued : w1.issued ≡ w.issued
    pub victim_lbn : (w1.gc bank).victim_lbn ≡ (w.gc bank).victim_lbn
    pub victim_vbn : (w1.gc bank).victim_vbn ≡ (w.gc bank).victim_vbn
    pub in_blk : (w1.gc bank).n_valid_chunks_in_blk ≡ (w.gc bank).n_valid_chunks_in_blk
    pub page_offset : (w1.gc bank).page_offset ≡ q

  -- From the page that `w` stands at up to page `q` the map leads to no chunk.
  abbrev pub Skips : World → ℕ → Type 0
  Skips w q = (x : ℕ) → (w.gc bank).page_offset ≤ x → x < q → IsBlank bank m (kind x) lbn x

  -- Page `q` has valid chunks and is being read into the buffer of the collector.
  pub record IsRead (w : World) (q : ℕ) (w' : World) : Type 0 where
    pub page_lt : q < 127
    pub skips : Skips w q
    pub gc_state : (w'.gc bank).gc_state ≡ gc_write
    pub some_valid : 0 < (w'.gc bank).n_valid_chunks_in_page
    pub in_blk :
        (w'.gc bank).n_valid_chunks_in_blk
        ≡ (w.gc bank).n_valid_chunks_in_blk + (w'.gc bank).n_valid_chunks_in_page
    pub start : GcBank
    pub start_lbn : start.victim_lbn ≡ lbn
    pub start_page : start.page_offset ≡ q
    pub page : IsPage bank m (kind q) start (w'.gc bank)
    pub issued :
        w'.issued
        ≡ nand_page_ptread bank (w.gc bank).victim_vbn q 0 64 (gc_buf bank) return_on_issue
          ∷ w.issued

  -- The ways in which `readPage` may end.
  pub data Outcome (hw : Hardware) (w : World) : Option World → Type 0 where
    found : (q : ℕ) (w' : World) → IsRead w q w' → Outcome hw w (some w')
    released :
        (w1 : World)
        → IsAt w w1 127
        → Skips w 127
        → (w.gc bank).n_valid_chunks_in_blk ≡ w.ftl.log.n_valid_chunks_from_heap bank
        → Outcome hw w (release_victim hw bank w1)
    stopped :
        Skips w 127
        → (w.gc bank).n_valid_chunks_in_blk ≢ w.ftl.log.n_valid_chunks_from_heap bank
        → Outcome hw w none
