-- ===== src/Read/Copy.antt =====
-- The copies of a chunk to its place in the buffer, and the reads of a part of a flash page.
use fast2016_ftl.Common.{ℕ, ◌+◌, ◌*◌, ◌≤◌, ◌<◌, ◌≡◌, refl, ◌∙◌, arith, u32}
use fast2016_ftl.Params.{
  chunks_per_page, bytes_per_sector, words_per_chunk, words_per_sector, sectors_per_page,
}
use fast2016_ftl.Dram.{read_dram_32}
use fast2016_ftl.Log.Chunk.{chunk_to_bank, chunk_to_lbn, chunk_to_page_offset}
use fast2016_ftl.Flash.{Hardware, return_when_done}
use fast2016_ftl.Flash.Reader.{
  PageWord, IsReader, nand_page_ptread-placed, nand_page_ptread-outside, nand_page_ptread-kept,
}
use fast2016_ftl.World.{World, get_log_vbn}
use fast2016_ftl.World.Words.{IsRange, AreApart, copy_words-inside, copy_words-outside}
use fast2016_ftl.Read.{copy_chunk, read_part}
use fast2016_ftl.Read.View.{Changes, chunk_buf, chunk_word, chunk_row, entry, Holds}

-- A chunk is copied to its place in the buffer.
pub copy_chunk-Changes :
    (page_word : PageWord) (c src : ℕ) (w : World)
    → c < chunks_per_page
    → Changes page_word (chunk_buf c) words_per_chunk w (copy_chunk (chunk_buf c) src w)
copy_chunk-Changes page_word c src w h = record {
  ftl = refl;
  pages = λ b r i. refl;
  memory = λ a ok out.
      copy_words-outside words_per_chunk (chunk_buf c) src w.dram a ok (omega arith) out;
}

pub copy_chunk-Holds :
    (page_word : PageWord) (lpn : ℕ) (w0 : World) (c src : ℕ) (w : World)
    → c < chunks_per_page
    → IsRange src words_per_chunk
    → AreApart (chunk_buf c) src words_per_chunk
    → ((i : ℕ)
        → i < words_per_chunk
        → (read_dram_32 (src + 4 * i) w.dram ≡ chunk_word page_word w0 (entry lpn w0 c) i)
          × (read_dram_32 (src + 4 * i) w.dram < 4294967296))
    → Holds page_word lpn w0 c (copy_chunk (chunk_buf c) src w)
copy_chunk-Holds page_word lpn w0 c src w h range apart content i hi =
    let (e, small) = content i hi in
    let fits : u32 (read_dram_32 (src + 4 * i) w.dram) ≡ read_dram_32 (src + 4 * i) w.dram =
      omega arith in
    copy_words-inside words_per_chunk (chunk_buf c) src w.dram i (omega arith) range apart hi
    ∙ fits
    ∙ e

module _ (hw : Hardware) (page_word : PageWord) (reader : IsReader hw page_word) where
  -- A part of a page is read to the words from `dst` on.
  pub read_part-Changes :
      (a sect n buf : ℕ) (w : World)
      → n ≤ sectors_per_page
      → IsRange (buf + sect * bytes_per_sector) (n * words_per_sector)
      → Changes page_word
          (buf + sect * bytes_per_sector)
          (n * words_per_sector)
          w
          (read_part hw a sect n buf w)
  read_part-Changes a sect n buf w small range =
      let vbn = get_log_vbn (chunk_to_bank a) (chunk_to_lbn a) w.dram in
      record {
        ftl = refl;
        pages = λ b r i.
            nand_page_ptread-kept hw page_word reader w.issued (chunk_to_bank a) vbn
              (chunk_to_page_offset a) sect n buf return_when_done b r i;
        memory = λ x ok out.
            nand_page_ptread-outside hw page_word reader w.issued (chunk_to_bank a) vbn
              (chunk_to_page_offset a) sect n buf return_when_done w.dram small range.low range.high
              x ok out;
      }

  pub read_part-placed :
      (a sect n buf : ℕ) (w : World)
      → n ≤ sectors_per_page
      → IsRange (buf + sect * bytes_per_sector) (n * words_per_sector)
      → (i : ℕ) → i < n * words_per_sector
      → read_dram_32 (buf + sect * bytes_per_sector + 4 * i) (read_part hw a sect n buf w).dram
        ≡ page_word w.issued (chunk_to_bank a) (chunk_row a w.dram) (sect * words_per_sector + i)
  read_part-placed a sect n buf w small range i h =
      nand_page_ptread-placed hw page_word reader w.issued (chunk_to_bank a)
        (get_log_vbn (chunk_to_bank a) (chunk_to_lbn a) w.dram) (chunk_to_page_offset a) sect n buf
        return_when_done w.dram small range.low range.high i h
