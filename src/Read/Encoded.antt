-- ===== src/Read/Encoded.antt =====
-- A single chunk of a recycled page: `readOneChunkEncoded`.
use fast2016_ftl.Common.{ℕ, ◌+◌, ◌-◌, ◌*◌, ◌/◌, ◌<◌, ◌≡◌, ◌∙◌, ap, arith, u32, Ends, ends}
use fast2016_ftl.Params.{
  chunks_per_page, bytes_per_sector, words_per_chunk, sectors_per_encoded_chunk,
}
use fast2016_ftl.Layout.{temp_buf_addr}
use fast2016_ftl.Dram.{read_dram_32}
use fast2016_ftl.Log.Chunk.{
  chunk_to_sect_offset, chunk_to_sect_offset-lt, chunk_to_sect_offset-whole,
}
use fast2016_ftl.Flash.{Hardware}
use fast2016_ftl.Flash.Reader.{PageWord, IsReader}
use fast2016_ftl.World.{World}
use fast2016_ftl.World.Words.{copy_words-inside, copy_words-outside}
use fast2016_ftl.Read.{
  read_mode, one_source, aligned_dst, src_offset_of, read_part, read_one_chunk_encoded, account,
}
use fast2016_ftl.Read.View.{chunk_buf}
use fast2016_ftl.Read.Copy.{read_part-Changes}

-- `readOneChunkEncoded` on a chunk that is not the first one of its page: its place in the buffer
-- keeps what it had, and what stood at the start of the other buffer before the read is written in
-- front of that place.
pub read_one_chunk_encoded-misplaced :
    (hw : Hardware) (page_word : PageWord) (reader : IsReader hw page_word) (a idx : ℕ) (w : World)
    → idx < chunks_per_page
    → 0 < chunk_to_sect_offset a
    → Ends
        (λ w'.
          ((i : ℕ)
            → i < words_per_chunk
            → read_dram_32 (chunk_buf idx + 4 * i) w'.dram
              ≡ read_dram_32 (chunk_buf idx + 4 * i) w.dram)
          × ((i : ℕ)
              → i < words_per_chunk
              → read_dram_32 (chunk_buf idx - src_offset_of a + 4 * i) w'.dram
                ≡ u32 (read_dram_32 (temp_buf_addr + 4 * i) w.dram)))
        (read_one_chunk_encoded hw read_mode a (one_source a idx) w)
unfolding read_one_chunk_encoded account
read_one_chunk_encoded-misplaced hw page_word reader a idx w h behind =
    let sect = chunk_to_sect_offset a in
    let in_page = chunk_to_sect_offset-lt a in
    let n : src_offset_of a / bytes_per_sector ≡ sect = omega arith in
    let dst : aligned_dst (one_source a idx) ≡ chunk_buf idx - src_offset_of a =
      omega (arith, in_page) in
    let at = chunk_buf idx - src_offset_of a in
    let w1 = read_part hw a sect sectors_per_encoded_chunk temp_buf_addr w in
    let read =
      read_part-Changes hw page_word reader a sect sectors_per_encoded_chunk temp_buf_addr w
        (omega arith) (omega (arith, in_page)) in
    rw n (
      rw dst (
        ends (
          λ i hi.
              copy_words-outside words_per_chunk at temp_buf_addr w1.dram (chunk_buf idx + 4 * i)
                (omega arith) (omega (arith, in_page))
                (omega (arith, chunk_to_sect_offset-whole a, in_page))
              ∙ read.memory (chunk_buf idx + 4 * i) (omega arith) (omega arith),
          λ i hi.
              copy_words-inside words_per_chunk at temp_buf_addr w1.dram i (omega (arith, in_page))
                (omega arith) (omega (arith, in_page)) hi
              ∙ ap u32 (
                  read.memory (temp_buf_addr + 4 * i) (omega arith)
                    (omega (arith, chunk_to_sect_offset-whole a, in_page))),
        )))
