-- ===== src/Read/Served.antt =====
-- What the log holds for a chunk stays while pages are handed to the host.
use fast2016_ftl.Common.{ℕ, ◌+◌, ◌*◌, ◌<◌, ◌≡◌, refl, ◌∙◌, ap, arith}
use fast2016_ftl.Params.{words_per_chunk, words_per_sector}
use fast2016_ftl.Dram.{read_dram_32}
use fast2016_ftl.Log.Chunk.{
  ChunkLocation, invalid_chunk, flash_w_log, flash_w_log_encoded, dram_hot_log, dram_cold_log,
  find_chunk_location, chunk_to_bank, chunk_to_sect_offset, chunk_to_sect_offset-lt,
  without_cold_flag,
}
use fast2016_ftl.Flash.{Hardware}
use fast2016_ftl.Flash.Reader.{PageWord, IsReader}
use fast2016_ftl.Ftl.{FtlState}
use fast2016_ftl.World.{World}
use fast2016_ftl.Read.{src_offset_of}
use fast2016_ftl.Read.View.{
  word_at, chunk_word, chunk_row, IsPlainAt, IsPlain, IsLaidOut, IsServed, chunk_row-served,
}

module _ (page_word : PageWord) (w0 : World) (laid : IsLaidOut w0) where
  module _ (w : World) (served : IsServed page_word w0 w) where
    word_at-served :
        (location : ChunkLocation) (a i : ℕ)
        → IsPlainAt location a
        → i < words_per_chunk
        → word_at location page_word w a i ≡ word_at location page_word w0 a i
    word_at-served invalid_chunk a i plain h = refl
    word_at-served flash_w_log a i plain h =
        let j = chunk_to_sect_offset a * words_per_sector + i in
        served.pages (chunk_to_bank a) (chunk_row a w.dram) j
        ∙ ap (λ r. page_word w0.issued (chunk_to_bank a) r j)
            (chunk_row-served page_word w0 w served a plain)
    word_at-served flash_w_log_encoded a i plain h = absurd plain
    word_at-served dram_hot_log a i plain h =
        let at = laid.hot_at (chunk_to_bank a) plain in
        let in_page = chunk_to_sect_offset-lt a in
        ap
          (λ (f : FtlState).
            read_dram_32
              ((f.log.hot_log_ctrl (chunk_to_bank a)).log_buffer_addr + src_offset_of a + 4 * i)
              w.dram)
          served.ftl
        ∙ served.memory _ (omega (arith, at, plain, in_page)) (omega (arith, at, plain, in_page))
    word_at-served dram_cold_log a i plain h =
        let real = without_cold_flag a in
        let at = laid.cold_at (chunk_to_bank real) plain in
        let in_page = chunk_to_sect_offset-lt real in
        ap
          (λ (f : FtlState).
            read_dram_32
              ((f.log.cold_log_ctrl (chunk_to_bank real)).log_buffer_addr
                + src_offset_of real
                + 4 * i)
              w.dram)
          served.ftl
        ∙ served.memory _ (omega (arith, at, plain, in_page)) (omega (arith, at, plain, in_page))

    pub chunk_word-served :
        (a i : ℕ)
        → IsPlain a
        → i < words_per_chunk
        → chunk_word page_word w a i ≡ chunk_word page_word w0 a i
    chunk_word-served a i plain h = word_at-served (find_chunk_location a) a i plain h

    -- The layout stays, too.
    pub IsLaidOut-served : IsLaidOut w
    IsLaidOut-served = record {
      hot_at = λ b h.
          ap (λ (f : FtlState). (f.log.hot_log_ctrl b).log_buffer_addr) served.ftl
          ∙ laid.hot_at b h;
      cold_at = λ b h.
          ap (λ (f : FtlState). (f.log.cold_log_ctrl b).log_buffer_addr) served.ftl
          ∙ laid.cold_at b h;
      words = λ a out behind. omega (arith, served.memory a out behind, laid.words a out behind);
    }

  -- The log holds words.
  module _ (hw : Hardware) (reader : IsReader hw page_word) where
    word_at-lt :
        (location : ChunkLocation) (a i : ℕ)
        → IsPlainAt location a
        → i < words_per_chunk
        → word_at location page_word w0 a i < 4294967296
    word_at-lt invalid_chunk a i plain h = omega arith
    word_at-lt flash_w_log a i plain h =
        reader.word w0.issued (chunk_to_bank a) (chunk_row a w0.dram)
          (chunk_to_sect_offset a * words_per_sector + i)
    word_at-lt flash_w_log_encoded a i plain h = absurd plain
    word_at-lt dram_hot_log a i plain h =
        let at = laid.hot_at (chunk_to_bank a) plain in
        let in_page = chunk_to_sect_offset-lt a in
        laid.words _ (omega (arith, at, plain, in_page)) (omega (arith, at, plain, in_page))
    word_at-lt dram_cold_log a i plain h =
        let real = without_cold_flag a in
        let at = laid.cold_at (chunk_to_bank real) plain in
        let in_page = chunk_to_sect_offset-lt real in
        laid.words _ (omega (arith, at, plain, in_page)) (omega (arith, at, plain, in_page))

    pub chunk_word-lt :
        (a i : ℕ) → IsPlain a → i < words_per_chunk → chunk_word page_word w0 a i < 4294967296
    chunk_word-lt a i plain h = word_at-lt (find_chunk_location a) a i plain h
