-- ===== src/Read/View.antt =====
-- What the log holds for a chunk, and how far a page has been rebuilt.
use native.Mathlib.Decide.{ℕ_discrete}
use fast2016_ftl.Common.{
  ℕ, ◌+◌, ◌*◌, ◌/◌, ◌≤◌, ◌<◌, ◌≡◌, ◌⊎◌, inl, inr, sym, subst, ◌∙◌, ap, arith, Bool, true, invalid,
  u32,
}
use fast2016_ftl.Params.{
  num_banks, log_blk_per_bank, pages_per_blk, data_blk_per_bank, chunks_per_page, bytes_per_chunk,
  bytes_per_page, words_per_chunk, words_per_sector,
}
use fast2016_ftl.Layout.{
  ftl_buf, temp_buf_addr, hot_log_buf, cold_log_buf, log_bmt_addr, wr_buf_addr,
}
use fast2016_ftl.Dram.{Dram, InDram, read_dram_32}
use fast2016_ftl.Dram.Bytes.{aligned_addr}
use fast2016_ftl.Dram.Bytes.Laws.{read_dram_16-same}
use fast2016_ftl.Log.Chunk.{
  ChunkLocation, invalid_chunk, flash_w_log, flash_w_log_encoded, dram_hot_log, dram_cold_log,
  find_chunk_location, without_cold_flag, chunk_to_bank, chunk_to_lbn, chunk_to_page_offset,
  chunk_to_sect_offset, chunk_to_lbn-lt,
}
use fast2016_ftl.Flash.{row_of}
use fast2016_ftl.Flash.Reader.{PageWord}
use fast2016_ftl.World.{World, hot_ctrl, cold_ctrl, get_log_vbn, chunks_map_table}
use fast2016_ftl.World.Words.{IsOutside}
use fast2016_ftl.Read.{mapped_addr, src_offset_of}

-- The row of the flash page that holds the chunk.
abbrev pub chunk_row : ℕ → Dram → ℕ
chunk_row a m = row_of (get_log_vbn (chunk_to_bank a) (chunk_to_lbn a) m) (chunk_to_page_offset a)

abbrev pub flash_word : PageWord → World → ℕ → ℕ → ℕ
flash_word page_word w a i =
    page_word w.issued (chunk_to_bank a) (chunk_row a w.dram)
      (chunk_to_sect_offset a * words_per_sector + i)

-- Word `i` of the chunk at the address `a` of the log.
abbrev pub word_at : ChunkLocation → PageWord → World → ℕ → ℕ → ℕ
word_at invalid_chunk page_word w a i = invalid
word_at flash_w_log page_word w a i = flash_word page_word w a i
word_at flash_w_log_encoded page_word w a i = flash_word page_word w (without_cold_flag a) i
word_at dram_hot_log page_word w a i =
    read_dram_32 ((hot_ctrl w (chunk_to_bank a)).log_buffer_addr + src_offset_of a + 4 * i) w.dram
word_at dram_cold_log page_word w a i =
    let real = without_cold_flag a in
    read_dram_32 ((cold_ctrl w (chunk_to_bank real)).log_buffer_addr + src_offset_of real + 4 * i)
      w.dram

abbrev pub chunk_word : PageWord → World → ℕ → ℕ → ℕ
chunk_word page_word w a i = word_at (find_chunk_location a) page_word w a i

-- The chunk is in a bank of the device, and not encoded.
abbrev pub IsPlainAt : ChunkLocation → ℕ → Type 0
IsPlainAt invalid_chunk a = Unit
IsPlainAt flash_w_log a = chunk_to_bank a < num_banks
IsPlainAt flash_w_log_encoded a = ⊥
IsPlainAt dram_hot_log a = chunk_to_bank a < num_banks
IsPlainAt dram_cold_log a = chunk_to_bank (without_cold_flag a) < num_banks

abbrev pub IsPlain : ℕ → Type 0
IsPlain a = IsPlainAt (find_chunk_location a) a

-- Word `a` lies outside the two buffers that a page is rebuilt in.
pub record OutsideBufs (a : ℕ) : Type 0 where
  pub inside : InDram a
  pub ftl : IsOutside (ftl_buf 0) (bytes_per_page / 4) a
  pub temp : IsOutside temp_buf_addr (bytes_per_page / 4) a

-- The log buffers are where the layout puts them, and hold words.
pub record IsLaidOut (w : World) : Type 0 where
  pub hot_at : (b : ℕ) → b < num_banks → (hot_ctrl w b).log_buffer_addr ≡ hot_log_buf b
  pub cold_at : (b : ℕ) → b < num_banks → (cold_ctrl w b).log_buffer_addr ≡ cold_log_buf b
  pub words : (a : ℕ) → OutsideBufs a → wr_buf_addr ≤ a → read_dram_32 a w.dram < 4294967296

-- Between the two worlds only the `n` words from `addr` on have changed, and flash was only read.
pub record Changes (page_word : PageWord) (addr n : ℕ) (w w' : World) : Type 0 where
  pub ftl : w'.ftl ≡ w.ftl
  pub pages : (b r i : ℕ) → page_word w'.issued b r i ≡ page_word w.issued b r i
  pub memory :
      (a : ℕ) → InDram a → IsOutside addr n a → read_dram_32 a w'.dram ≡ read_dram_32 a w.dram

abbrev pub chunk_buf : ℕ → ℕ
chunk_buf c = ftl_buf 0 + c * bytes_per_chunk

-- Where the map leads for chunk `c` of the page `lpn`.
abbrev pub entry : ℕ → World → ℕ → ℕ
entry lpn w c = mapped_addr lpn c w.dram

-- In the world `w` the buffer holds chunk `c` of the page as it is in the world `w0`.
abbrev pub Holds : PageWord → ℕ → World → ℕ → World → Type 0
Holds page_word lpn w0 c w =
    (i : ℕ)
    → i < words_per_chunk
    → read_dram_32 (chunk_buf c + 4 * i) w.dram ≡ chunk_word page_word w0 (entry lpn w0 c) i

-- What the rebuilding leaves as it was.
pub record IsKept (page_word : PageWord) (w0 w : World) : Type 0 where
  pub ftl : w.ftl ≡ w0.ftl
  pub pages : (b r i : ℕ) → page_word w.issued b r i ≡ page_word w0.issued b r i
  pub memory : (a : ℕ) → OutsideBufs a → read_dram_32 a w.dram ≡ read_dram_32 a w0.dram

-- The same, where pages are handed to the host: the buffers of its reads may have changed too.
pub record IsServed (page_word : PageWord) (w0 w : World) : Type 0 where
  pub ftl : w.ftl ≡ w0.ftl
  pub pages : (b r i : ℕ) → page_word w.issued b r i ≡ page_word w0.issued b r i
  pub memory :
      (a : ℕ) → OutsideBufs a → wr_buf_addr ≤ a → read_dram_32 a w.dram ≡ read_dram_32 a w0.dram

pub IsServed-kept :
    (page_word : PageWord) (w0 w : World) → IsKept page_word w0 w → IsServed page_word w0 w
IsServed-kept page_word w0 w kept = record {
  ftl = kept.ftl;
  pages = kept.pages;
  memory = λ a out behind. kept.memory a out;
}

-- The map and the table of the blocks are read as at the start.
module _ (page_word : PageWord) (w0 w : World) (served : IsServed page_word w0 w) where
  pub entry-served :
      (lpn c : ℕ)
      → lpn < num_banks * data_blk_per_bank * pages_per_blk
      → c < chunks_per_page
      → entry lpn w c ≡ entry lpn w0 c
  entry-served lpn c hl hc = served.memory (chunks_map_table lpn c) (omega arith) (omega arith)

  pub chunk_row-served :
      (a : ℕ) → chunk_to_bank a < num_banks → chunk_row a w.dram ≡ chunk_row a w0.dram
  chunk_row-served a hb =
      let small = chunk_to_lbn-lt a in
      let addr = u32 (log_bmt_addr + (chunk_to_bank a * log_blk_per_bank + chunk_to_lbn a) * 2) in
      let same =
        served.memory (aligned_addr addr) (omega (arith, small, hb)) (omega (arith, small, hb)) in
      ap (λ vbn. row_of vbn (chunk_to_page_offset a)) (read_dram_16-same addr w0.dram w.dram same)

-- A request for chunks of the page `lpn`, before `last`, in the world `w0`.
module _ (page_word : PageWord) (lpn last : ℕ) (w0 : World) where
  -- The chunks that are marked are in the buffer.
  pub record IsRebuilt (done : ℕ → Bool) (w : World) : Type 0 where
    pub kept : IsKept page_word w0 w
    pub chunks : (c : ℕ) → c < last → done c ≡ true → Holds page_word lpn w0 c w

  module _ (small : last ≤ chunks_per_page) (done : ℕ → Bool) (w w' : World)
      (rebuilt : IsRebuilt done w) where
    -- The chunk `c` is written to its place in the buffer.
    pub IsRebuilt-chunk :
        (done' : ℕ → Bool) (c : ℕ)
        → c < chunks_per_page
        → Changes page_word (chunk_buf c) words_per_chunk w w'
        → Holds page_word lpn w0 c w'
        → ((x : ℕ) → done' x ≡ true → (x ≡ c) ⊎ (done x ≡ true))
        → IsRebuilt done' w'
    IsRebuilt-chunk done' c in_page changes holds marks = record {
      kept = record {
        ftl = changes.ftl ∙ rebuilt.kept.ftl;
        pages = λ b r i. changes.pages b r i ∙ rebuilt.kept.pages b r i;
        memory = λ a out.
            changes.memory a out.inside (omega (arith, out.ftl)) ∙ rebuilt.kept.memory a out;
      };
      chunks = λ x h marked. elim (ℕ_discrete x c) [
        | yes e ↦ subst (λ y. Holds page_word lpn w0 y w') (sym e) holds
        | no ne ↦ λ i hi.
            let old : done x ≡ true = elim (marks x marked) [ inl e ↦ absurd (ne e) | inr d ↦ d ] in
            changes.memory (chunk_buf x + 4 * i) (omega arith) (omega arith)
            ∙ rebuilt.chunks x h old i hi
      ];
    }

    -- The other buffer is written.
    pub IsRebuilt-temp :
        Changes page_word temp_buf_addr (bytes_per_page / 4) w w' → IsRebuilt done w'
    IsRebuilt-temp changes = record {
      kept = record {
        ftl = changes.ftl ∙ rebuilt.kept.ftl;
        pages = λ b r i. changes.pages b r i ∙ rebuilt.kept.pages b r i;
        memory = λ a out. changes.memory a out.inside out.temp ∙ rebuilt.kept.memory a out;
      };
      chunks = λ x h marked i hi.
          changes.memory (chunk_buf x + 4 * i) (omega arith) (omega arith)
          ∙ rebuilt.chunks x h marked i hi;
    }
