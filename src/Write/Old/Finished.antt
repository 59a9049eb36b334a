-- ===== src/Write/Old/Finished.antt =====
-- The end of `writeChunkOld`: the chunk is copied to the log buffer and recorded there.
use fast2016_ftl.Common.{
  ℕ, ◌+◌, ◌*◌, ◌%◌, ◌≤◌, ◌<◌, ◌≡◌, refl, ◌∙◌, ap, arith, Bool, ==_self, List, Option, Ends, ends,
}
use fast2016_ftl.Params.{
  num_banks, chunks_per_page, sectors_per_chunk, bytes_per_sector, bytes_per_chunk,
}
use fast2016_ftl.Layout.{hot_log_buf, cold_log_buf}
use fast2016_ftl.Dram.{read_dram_32}
use fast2016_ftl.Log.{IncreaseLpn, any_page}
use fast2016_ftl.Log.Chunk.{
  log_buf_chunk_addr, with_cold_flag, with_cold_flag-word, log_buf_chunk_addr-word,
}
use fast2016_ftl.Flash.{Hardware, FlashCommand}
use fast2016_ftl.Flash.Reader.{PageWord}
use fast2016_ftl.World.{World, hot_ctrl, cold_ctrl}
use fast2016_ftl.Read.View.{chunk_word}
use fast2016_ftl.Write.{
  LogSide, hot_log, cold_log, ctrl, Writer, write_chunk_new, update_dram_buf_metadata,
}
use fast2016_ftl.Write.Flush.{advance, call_update, call_update-advance}
use fast2016_ftl.Write.Old.Buffer.{
  IsReady, IsAtChunk, IsWritten, after-data, after-entry, after-others, buffer_word-hot,
  buffer_word-cold, writer,
}
use fast2016_ftl.Write.Old.Recorded.{IsRecorded, hot-IsRecorded, cold-IsRecorded}

module _ (hw : Hardware) (busy : List FlashCommand → ℕ → Bool)
    (increase : IncreaseLpn → LogSide → ℕ → World → Option World) (page_word : PageWord) where
  abbrev pub finished : ℕ → Writer → World → Option World
  finished id q w =
      call_update hw busy increase any_page q.side q.bank
        (update_dram_buf_metadata q (write_chunk_new id sectors_per_chunk q w))

  -- The steps behind the `switch` of `writeChunkOld`.
  pub finished-IsWritten :
      (side : LogSide) (bank lpn sect n rem id : ℕ) (w : World)
      → IsAtChunk id (writer side bank lpn sect n rem)
      → IsReady side bank w
      → Ends
          (λ w'.
            IsWritten page_word id (writer side bank lpn sect n rem) w w'
            × IsRecorded (writer side bank lpn sect n rem) w w')
          (finished id (writer side bank lpn sect n rem) w)
  unfolding write_chunk_new update_dram_buf_metadata
  finished-IsWritten hot_log bank lpn sect n rem id w at ready =
      let c = hot_ctrl w bank in
      let full : c.chunk_ptr < chunks_per_page = omega (arith, ready.room) in
      let start = c.log_buffer_addr + c.chunk_ptr * bytes_per_chunk in
      let dst = start + sect % sectors_per_chunk * bytes_per_sector in
      let a = log_buf_chunk_addr bank c.chunk_ptr in
      let low : hot_log_buf 0 ≤ dst = omega (arith, ready.at) in
      let high : dst + bytes_per_chunk ≤ cold_log_buf num_banks =
        omega (arith, ready.at, ready.room, at.bank, at.aligned) in
      let there =
        after-entry id lpn sect dst a w.dram at.buf at.lpn at.inside low high
          (log_buf_chunk_addr-word bank c.chunk_ptr) in
      let q = writer hot_log bank lpn sect n rem in
      let w2 = update_dram_buf_metadata q (write_chunk_new id sectors_per_chunk q w) in
      let w3 = advance hw busy increase chunks_per_page hot_log bank w2 in
      rw
        (call_update-advance hw busy increase hot_log bank w2 (rw (==_self bank) ready.room)
          (rw (==_self bank) ready.none_ahead))
        (ends (
          record {
            stored = λ i h.
                ap (λ x. chunk_word page_word w3 x i) there
                ∙ buffer_word-hot page_word bank c.chunk_ptr i w3 at.bank full
                ∙ rw (==_self bank) (
                    ap (λ x. read_dram_32 x w3.dram) (omega (arith, at.aligned))
                    ∙ after-data id lpn sect dst a w.dram at.buf at.lpn at.inside low high i
                        at.aligned h);
            others = after-others id lpn sect dst a w.dram at.buf at.lpn at.inside low high;
            ptr = rw (==_self bank) (omega (arith, ready.room));
            issued = refl;
          },
          hot-IsRecorded bank lpn sect n rem (((hot_ctrl w2 bank).chunk_ptr + 1) % chunks_per_page)
              w w3 refl refl,
        ))
  finished-IsWritten cold_log bank lpn sect n rem id w at ready =
      let c = cold_ctrl w bank in
      let full : c.chunk_ptr < chunks_per_page = omega (arith, ready.room) in
      let start = c.log_buffer_addr + c.chunk_ptr * bytes_per_chunk in
      let dst = start + sect % sectors_per_chunk * bytes_per_sector in
      let a = with_cold_flag (log_buf_chunk_addr bank c.chunk_ptr) in
      let low : hot_log_buf 0 ≤ dst = omega (arith, ready.at) in
      let high : dst + bytes_per_chunk ≤ cold_log_buf num_banks =
        omega (arith, ready.at, ready.room, at.bank, at.aligned) in
      let there = after-entry id lpn sect dst a w.dram at.buf at.lpn at.inside low high (
        with_cold_flag-word (log_buf_chunk_addr bank c.chunk_ptr)
          (log_buf_chunk_addr-word bank c.chunk_ptr)) in
      let q = writer cold_log bank lpn sect n rem in
      let w2 = update_dram_buf_metadata q (write_chunk_new id sectors_per_chunk q w) in
      let w3 = advance hw busy increase chunks_per_page cold_log bank w2 in
      rw
        (call_update-advance hw busy increase cold_log bank w2 (rw (==_self bank) ready.room)
          (rw (==_self bank) ready.none_ahead))
        (ends (
          record {
            stored = λ i h.
                ap (λ x. chunk_word page_word w3 x i) there
                ∙ buffer_word-cold page_word bank c.chunk_ptr i w3 at.bank full
                ∙ rw (==_self bank) (
                    ap (λ x. read_dram_32 x w3.dram) (omega (arith, at.aligned))
                    ∙ after-data id lpn sect dst a w.dram at.buf at.lpn at.inside low high i
                        at.aligned h);
            others = after-others id lpn sect dst a w.dram at.buf at.lpn at.inside low high;
            ptr = rw (==_self bank) (omega (arith, ready.room));
            issued = refl;
          },
          cold-IsRecorded bank lpn sect n rem
              (((cold_ctrl w2 bank).chunk_ptr + 1) % chunks_per_page) w w3 refl refl,
        ))

pub stays-plain :
    (side : LogSide) (bank lpn sect n rem id : ℕ) (w : World)
    → IsReady side bank w
    → (let q = writer side bank lpn sect n rem in
        let w2 = update_dram_buf_metadata q (write_chunk_new id sectors_per_chunk q w) in
        (ctrl side w2 bank).update_chunk_ptr ≡ any_page)
unfolding write_chunk_new update_dram_buf_metadata
stays-plain hot_log bank lpn sect n rem id w ready = rw (==_self bank) ready.plain
stays-plain cold_log bank lpn sect n rem id w ready = rw (==_self bank) ready.plain
