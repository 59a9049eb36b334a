-- ===== src/Write/Old/Written.antt =====
-- A whole chunk on its way to a log buffer can be read back.
use fast2016_ftl.Common.{
  ◌>>=◌, Ends-bind, Ends-weaken, ℕ, ◌+◌, ◌/◌, ◌≡◌, refl, ◌∙◌, ap, arith, Bool, some, List, Option,
  Ends, ends,
}
use fast2016_ftl.Params.{sectors_per_chunk}
use fast2016_ftl.Log.{IncreaseLpn}
use fast2016_ftl.Log.Chunk.{
  ChunkLocation, invalid_chunk, dram_hot_log, dram_cold_log, find_chunk_location, chunk_to_bank,
  chunk_to_sect_offset, without_cold_flag,
}
use fast2016_ftl.Flash.{Hardware, FlashCommand}
use fast2016_ftl.Flash.Reader.{PageWord}
use fast2016_ftl.World.{World}
use fast2016_ftl.Read.View.{entry}
use fast2016_ftl.Write.{
  LogSide, hot_log, cold_log, ctrl, Writer, write_chunk_new, update_dram_buf_metadata,
}
use fast2016_ftl.Write.Flush.{call_update}
use fast2016_ftl.Write.Old.{replace_chunk, advanced, sects_to_write, write_chunk_old}
use fast2016_ftl.Write.Old.Buffer.{IsReady, IsAtChunk, IsWritten}
use fast2016_ftl.Write.Old.Dropped.{dropped, same_ptr, dropped-IsReady}
use fast2016_ftl.Write.Old.Logged.{
  IsOld, in_hot, in_cold, IsLogged, IsRecorded-IsLogged, dropped-IsLogged,
}
use fast2016_ftl.Write.Old.Recorded.{IsRecorded}
use fast2016_ftl.Write.Old.Finished.{finished-IsWritten, stays-plain}

-- The old chunk is in a log buffer or nowhere.
pub data IsUnflashed : ChunkLocation → Type 0 where
  nowhere : IsUnflashed invalid_chunk
  hot : IsUnflashed dram_hot_log
  cold : IsUnflashed dram_cold_log

module _ (hw : Hardware) (busy : List FlashCommand → ℕ → Bool)
    (increase : IncreaseLpn → LogSide → ℕ → World → Option World) (page_word : PageWord) where
  -- The rest of `writeChunkOld` after its `switch`.
  abbrev rest : ℕ → Writer → World → Option (Writer × World)
  rest id q w1 =
      let w2 = update_dram_buf_metadata q w1 in
      call_update hw busy increase (ctrl q.side w2 q.bank).update_chunk_ptr q.side q.bank w2
      >>= λ w3. some (advanced sectors_per_chunk q, w3)

  abbrev Recorded : ℕ → Writer → World → Writer × World → Type 0
  Recorded id q w (q', w') =
      (q' ≡ advanced sectors_per_chunk q) × IsWritten page_word id q w w' × IsRecorded q w w'

  abbrev pub Replaced : (LogSide → ℕ → ℕ → Type 0) → ℕ → Writer → World → Writer × World → Type 0
  Replaced Old id q w (q', w') =
      (q' ≡ advanced sectors_per_chunk q) × IsWritten page_word id q w w' × IsLogged Old q w w'

  rest-IsWritten :
      (id : ℕ) (q : Writer) (w : World)
      → IsAtChunk id q
      → IsReady q.side q.bank w
      → Ends (Recorded id q w) (rest id q (write_chunk_new id sectors_per_chunk q w))
  rest-IsWritten id q w at ready =
      let plain =
        stays-plain q.side q.bank q.lpn q.sect_offset q.n_sects q.remaining_sects id w ready in
      rw plain (
        Ends-bind
          (finished-IsWritten hw busy increase page_word q.side q.bank q.lpn q.sect_offset q.n_sects
            q.remaining_sects id w at ready)
          λ w3 (written, recorded). ends (refl, written, recorded))

  -- The same, from the world in which the old chunk is no longer valid.
  rest-dropped :
      (s2 : LogSide) (b2 o id : ℕ) (q : Writer) (w : World) (Old : LogSide → ℕ → ℕ → Type 0)
      → ((s : LogSide) (b x : ℕ) → Old s b x → (s ≡ s2) × (b ≡ b2) × (x ≡ o))
      → Old s2 b2 o
      → IsAtChunk id q
      → IsReady q.side q.bank w
      → Ends
          (Replaced Old id q w)
          (rest id q (write_chunk_new id sectors_per_chunk q (dropped s2 b2 o w)))
  rest-dropped hot_log b2 o id q w Old only has at ready =
      Ends-weaken
        (rest-IsWritten id q (dropped hot_log b2 o w) at
          (dropped-IsReady o hot_log q.side b2 q.bank w ready))
        λ (q', w') (e, done, recorded). (
          e,
          record {
            stored = done.stored;
            others = done.others;
            ptr = done.ptr ∙ ap (λ x. x + 1) (same_ptr o hot_log q.side b2 q.bank w);
            issued = done.issued;
          },
          dropped-IsLogged b2 o Old hot_log q w w' only has recorded,
        )
  rest-dropped cold_log b2 o id q w Old only has at ready =
      Ends-weaken
        (rest-IsWritten id q (dropped cold_log b2 o w) at
          (dropped-IsReady o cold_log q.side b2 q.bank w ready))
        λ (q', w') (e, done, recorded). (
          e,
          record {
            stored = done.stored;
            others = done.others;
            ptr = done.ptr ∙ ap (λ x. x + 1) (same_ptr o cold_log q.side b2 q.bank w);
            issued = done.issued;
          },
          dropped-IsLogged b2 o Old cold_log q w w' only has recorded,
        )

  nothing_old : (a : ℕ) (s : LogSide) (b x : ℕ) → ¬ IsOld invalid_chunk a s b x
  nothing_old a s b x old = elim old [ ]

  only_hot :
      (a : ℕ) (s : LogSide) (b x : ℕ)
      → IsOld dram_hot_log a s b x
      → (s ≡ hot_log) × (b ≡ chunk_to_bank a) × (x ≡ chunk_to_sect_offset a / sectors_per_chunk)
  only_hot a _ _ _ in_hot = (refl, refl, refl)

  only_cold :
      (a : ℕ) (s : LogSide) (b x : ℕ)
      → IsOld dram_cold_log a s b x
      → (let real = without_cold_flag a in
          (s ≡ cold_log)
          × (b ≡ chunk_to_bank real)
          × (x ≡ chunk_to_sect_offset real / sectors_per_chunk))
  only_cold a _ _ _ in_cold = (refl, refl, refl)

  replace_chunk-IsWritten :
      (l : ChunkLocation) (id a : ℕ) (q : Writer) (w : World)
      → IsAtChunk id q
      → IsReady q.side q.bank w
      → IsUnflashed l
      → Ends
          (Replaced (IsOld l a) id q w)
          (replace_chunk l hw id sectors_per_chunk a q w >>= rest id q)
  unfolding replace_chunk
  replace_chunk-IsWritten _ id a q w at ready nowhere =
      Ends-weaken (rest-IsWritten id q w at ready) λ (q', w') (e, done, recorded).
        (e, done, IsRecorded-IsLogged (IsOld invalid_chunk a) q w w' (nothing_old a) recorded)
  replace_chunk-IsWritten _ id a q w at ready hot =
      rest-dropped hot_log (chunk_to_bank a) (chunk_to_sect_offset a / sectors_per_chunk) id q w
        (IsOld dram_hot_log a) (only_hot a) in_hot at ready
  replace_chunk-IsWritten _ id a q w at ready cold =
      let real = without_cold_flag a in
      rest-dropped cold_log (chunk_to_bank real) (chunk_to_sect_offset real / sectors_per_chunk) id
        q w (IsOld dram_cold_log a) (only_cold a) in_cold at ready

  -- `writeChunkOld` on a whole chunk whose old copy is in a log buffer or nowhere ends. The map leads
  -- to a place in the log buffer that holds the chunk of the write buffer, and as before for every
  -- other chunk. The log buffer records the chunk's page and its number there, and its pointer moves
  -- on by one. The old place in a log buffer, unless it is the new one, is marked as holding no valid
  -- chunk, and its buffer as one that has lost a chunk; what the log buffers say of every other place
  -- stays. No command is issued, and the writer is behind the chunk. The log buffer must be where the
  -- layout puts it, its page must not be a recycled one and must have room behind the chunk, and no
  -- low page is to be read ahead.
  pub write_chunk_old-IsWritten :
      (id : ℕ) (q : Writer) (w : World)
      → IsAtChunk id q
      → IsReady q.side q.bank w
      → (let a = entry q.lpn w (q.sect_offset / sectors_per_chunk) in
          IsUnflashed (find_chunk_location a)
          → Ends
              (Replaced (IsOld (find_chunk_location a) a) id q w)
              (write_chunk_old hw busy increase id (q, w)))
  unfolding write_chunk_old
  write_chunk_old-IsWritten id q w at ready from =
      let n : sects_to_write q ≡ sectors_per_chunk =
        ground (arith, at.aligned, at.whole, at.small) in
      let a = entry q.lpn w (q.sect_offset / sectors_per_chunk) in
      rw n (replace_chunk-IsWritten (find_chunk_location a) id a q w at ready from)
