-- ===== src/Read/Gather.antt =====
-- The chunks that `setupFlashPageRead` gathers from one flash page.
use native.Mathlib.Decide.{ℕ_discrete}
use fast2016_ftl.Common.{
  ℕ, zero, suc, ◌+◌, ◌≤◌, ◌<◌, ◌≡◌, refl, arith, Bool, true, inl, inr, Bool-cases, ==_self,
  ne→==-false,
}
use fast2016_ftl.Dram.{Dram}
use fast2016_ftl.Log.Chunk.{
  ChunkLocation, invalid_chunk, flash_w_log, flash_w_log_encoded, dram_hot_log, dram_cold_log,
  find_chunk_location, chunk_to_bank, chunk_to_lbn, chunk_to_page_offset,
}
use fast2016_ftl.Read.{
  Sources, mapped_addr, src_offset_of, chunks_in_same_flash_page, one_source, add_source,
  join_source, setup_flash_page_read,
}

-- Two chunks of the log in one flash page.
pub record AreTogether (a b : ℕ) : Type 0 where
  pub bank : chunk_to_bank a ≡ chunk_to_bank b
  pub lbn : chunk_to_lbn a ≡ chunk_to_lbn b
  pub page_offset : chunk_to_page_offset a ≡ chunk_to_page_offset b

AreTogether-test : (a b : ℕ) → chunks_in_same_flash_page a b ≡ true → AreTogether b a
unfolding chunks_in_same_flash_page
AreTogether-test a b h = record {
  bank = ground arith;
  lbn = ground arith;
  page_offset = ground arith;
}

-- `entry` is the map of the page; chunk `idx` of it is the one that is looked for.
module _ (entry : ℕ → ℕ) (last idx : ℕ) where
  pub record IsSource (c offset : ℕ) : Type 0 where
    pub in_page : c < last
    pub located : find_chunk_location (entry c) ≡ flash_w_log
    pub together : AreTogether (entry c) (entry idx)
    pub placed : offset ≡ src_offset_of (entry c)

  pub record AreSources (s : Sources) : Type 0 where
    pub some_chunk : 1 ≤ s.chunks_in_page
    pub at_zero : s.chunk_idxs 0 ≡ idx
    pub each : (j : ℕ) → j < s.chunks_in_page → IsSource (s.chunk_idxs j) (s.src_offsets j)

  pub AreSources-one :
      idx < last
      → find_chunk_location (entry idx) ≡ flash_w_log
      → AreSources (one_source (entry idx) idx)
  AreSources-one in_page located = record {
    some_chunk = omega arith;
    at_zero = refl;
    each = λ j h. record {
      in_page = in_page;
      located = located;
      together = record { bank = refl; lbn = refl; page_offset = refl };
      placed = refl;
    };
  }

  AreSources-add :
      (s : Sources) (c : ℕ)
      → AreSources s
      → IsSource c (src_offset_of (entry c))
      → AreSources (add_source (entry c) c s)
  AreSources-add s c are is = record {
    some_chunk = omega arith;
    at_zero = rw (ne→==-false 0 s.chunks_in_page (omega (arith, are.some_chunk))) are.at_zero;
    each = λ j h. elim (ℕ_discrete j s.chunks_in_page) [
      | yes e ↦ rw e (rw (==_self s.chunks_in_page) is)
      | no ne ↦ rw (ne→==-false j s.chunks_in_page ne) (are.each j (omega arith))
    ];
  }

  AreSources-join :
      (location : ChunkLocation) (s : Sources) (c : ℕ)
      → c < last
      → find_chunk_location (entry c) ≡ location
      → AreSources s
      → AreSources (join_source location (entry idx) (entry c) c s)
  unfolding join_source
  AreSources-join flash_w_log s c h e are =
      elim (Bool-cases (chunks_in_same_flash_page (entry idx) (entry c))) [
        | inl same ↦ rw same (
            AreSources-add s c are (record {
              in_page = h;
              located = e;
              together = AreTogether-test (entry idx) (entry c) same;
              placed = refl;
            }))
        | inr other ↦ rw other are
      ]
  AreSources-join invalid_chunk s c h e are = are
  AreSources-join flash_w_log_encoded s c h e are = are
  AreSources-join dram_hot_log s c h e are = are
  AreSources-join dram_cold_log s c h e are = are

  pub setup_flash_page_read-AreSources :
      (k lpn : ℕ) (done : ℕ → Bool) (m : Dram) (i : ℕ) (s : Sources)
      → ((c : ℕ) → c < last → mapped_addr lpn c m ≡ entry c)
      → i + k ≤ last
      → AreSources s
      → AreSources (setup_flash_page_read k lpn (entry idx) done m i s)
  unfolding setup_flash_page_read
  setup_flash_page_read-AreSources zero lpn done m i s same fits are = are
  setup_flash_page_read-AreSources (suc k) lpn done m i s same fits are =
      let rest = λ (t : Sources) (is : AreSources t).
        setup_flash_page_read-AreSources k lpn done m (suc i) t same (omega arith) is in
      elim (Bool-cases (done i)) [
        | inl d ↦ rw d (rest s are)
        | inr d ↦ rw d (
            rw (same i (omega arith))
              (rest _ (AreSources-join (find_chunk_location (entry i)) s i (omega arith) refl are)))
      ]
