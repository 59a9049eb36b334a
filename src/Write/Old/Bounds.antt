-- ===== src/Write/Old/Bounds.antt =====
-- What `writeChunkNew` writes to when a part of a chunk is written.
use native.Mathlib.Decide.{ℕ_discrete}
use fast2016_ftl.Common.{
  ℕ, ◌+◌, ◌*◌, ◌%◌, ◌≤◌, ◌≡◌, ◌∙◌, arith, true, false, ◌==◌, ne→==-false, invalid,
}
use fast2016_ftl.Params.{
  num_banks, sectors_per_page, sectors_per_chunk, bytes_per_sector, bytes_per_chunk,
  words_per_sector, words_per_chunk,
}
use fast2016_ftl.Layout.{wr_buf_ptr, hot_log_buf, cold_log_buf}
use fast2016_ftl.Dram.{Dram, InDram, read_dram_32}
use fast2016_ftl.World.{World, set_words, set_words-outside}
use fast2016_ftl.World.Words.{IsOutside, copy_words-outside}
use fast2016_ftl.Write.{Writer, write_chunk_new, next_place}
use fast2016_ftl.Write.Old.{sects_to_write}

-- The sectors that are written lie in one chunk.
sects_to_write-le :
    (q : Writer)
    → q.remaining_sects ≤ sectors_per_page
    → q.sect_offset % sectors_per_chunk + sects_to_write q ≤ sectors_per_chunk
sects_to_write-le q h = ground arith

-- `writeChunkNew`, with the number of sectors that `writeChunkOld` computes, changes no word outside
-- of the place of the chunk in the log buffer.
pub write_chunk_new-inside :
    (id : ℕ) (q : Writer) (w : World) (a : ℕ)
    → q.remaining_sects ≤ sectors_per_page
    → hot_log_buf 0 ≤ next_place q w
    → next_place q w + bytes_per_chunk ≤ cold_log_buf num_banks
    → InDram a
    → IsOutside (next_place q w) words_per_chunk a
    → read_dram_32 a (write_chunk_new id (sects_to_write q) q w).dram ≡ read_dram_32 a w.dram
unfolding write_chunk_new
write_chunk_new-inside id q w a small low high ok out =
    let n = sects_to_write q in
    let le = sects_to_write-le q small in
    let dst = next_place q w + q.sect_offset % sectors_per_chunk * bytes_per_sector in
    let src = wr_buf_ptr id + q.sect_offset * bytes_per_sector in
    let copy = λ (m : Dram).
      copy_words-outside (n * words_per_sector) dst src m a ok
        (record { low = omega arith; high = omega (arith, le) }) (omega (arith, le, out)) in
    elim (ℕ_discrete n sectors_per_chunk) [
      | yes e ↦ let t : (n == sectors_per_chunk) ≡ true = ground (arith, e) in rw t (copy w.dram)
      | no ne ↦
          let t : (n == sectors_per_chunk) ≡ false = ne→==-false n sectors_per_chunk ne in
          rw t (
            copy (set_words words_per_chunk (next_place q w) invalid w.dram)
            ∙ set_words-outside words_per_chunk (next_place q w) invalid w.dram a ok (omega arith)
                (omega arith) out)
    ]
