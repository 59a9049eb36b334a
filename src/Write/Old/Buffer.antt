-- ===== src/Write/Old/Buffer.antt =====
-- The memory when a chunk is put into a log buffer, and what stands for a chunk in a log buffer.
use fast2016_ftl.Common.{
  ℕ, ◌+◌, ◌-◌, ◌*◌, ◌/◌, ◌%◌, ◌≤◌, ◌<◌, ◌≡◌, ◌≢◌, refl, ◌∙◌, arith, u32, invalid,
}
use fast2016_ftl.Params.{
  num_banks, data_blk_per_bank, pages_per_blk, chunks_per_page, sectors_per_page, sectors_per_chunk,
  bytes_per_sector, bytes_per_chunk, words_per_chunk,
}
use fast2016_ftl.Layout.{wr_buf_ptr, num_wr_buffers, hot_log_buf, cold_log_buf}
use fast2016_ftl.Dram.{Dram, read_dram_32, write_dram_32, read-write_self, read-write_other}
use fast2016_ftl.Log.{any_page}
use fast2016_ftl.Log.Chunk.{
  log_buf_chunk_addr, with_cold_flag, find_chunk_location-buffer, without_cold_flag-with_cold_flag,
  chunk_to_sect_offset-buffer,
}
use fast2016_ftl.Flash.Reader.{PageWord}
use fast2016_ftl.World.{World, hot_ctrl, cold_ctrl, chunks_map_table, copy_words}
use fast2016_ftl.World.Words.{copy_words-inside, copy_words-outside}
use fast2016_ftl.Read.View.{entry, chunk_word}
use fast2016_ftl.Write.{LogSide, hot_log, cold_log, ctrl, Writer}

abbrev pub buf_of : LogSide → ℕ → ℕ
buf_of hot_log bank = hot_log_buf bank
buf_of cold_log bank = cold_log_buf bank

abbrev pub writer : LogSide → ℕ → ℕ → ℕ → ℕ → ℕ → Writer
writer side bank lpn sect n rem = record {
  bank = bank;
  side = side;
  lpn = lpn;
  sect_offset = sect;
  n_sects = n;
  remaining_sects = rem;
}

-- The log buffer is where the layout puts it, its page is not a recycled one and has room behind the
-- next chunk, and no low page is to be read ahead.
pub record IsReady (side : LogSide) (bank : ℕ) (w : World) : Type 0 where
  pub at : (ctrl side w bank).log_buffer_addr ≡ buf_of side bank
  pub room : (ctrl side w bank).chunk_ptr < chunks_per_page - 1
  pub plain : (ctrl side w bank).update_chunk_ptr ≡ any_page
  pub none_ahead : (ctrl side w bank).next_low_page_offset ≡ invalid

-- The writer is at the start of a chunk, all of which it is to write.
pub record IsAtChunk (id : ℕ) (q : Writer) : Type 0 where
  pub buf : id < num_wr_buffers
  pub bank : q.bank < num_banks
  pub lpn : q.lpn < num_banks * data_blk_per_bank * pages_per_blk
  pub inside : q.sect_offset < sectors_per_page
  pub aligned : q.sect_offset % sectors_per_chunk ≡ 0
  pub whole : sectors_per_chunk ≤ q.remaining_sects
  pub small : q.remaining_sects ≤ sectors_per_page

-- The map leads to the new chunk, which is the one of the write buffer, and as before for the others.
pub record IsWritten (page_word : PageWord) (id : ℕ) (q : Writer) (w w' : World) : Type 0 where
  pub stored :
      (i : ℕ)
      → i < words_per_chunk
      → chunk_word page_word w' (entry q.lpn w' (q.sect_offset / sectors_per_chunk)) i
        ≡ u32 (read_dram_32 (wr_buf_ptr id + q.sect_offset * bytes_per_sector + 4 * i) w.dram)
  pub others :
      (p x : ℕ)
      → p < num_banks * data_blk_per_bank * pages_per_blk
      → x < chunks_per_page
      → p * chunks_per_page + x ≢ q.lpn * chunks_per_page + q.sect_offset / sectors_per_chunk
      → entry p w' x ≡ entry p w x
  pub ptr : (ctrl q.side w' q.bank).chunk_ptr ≡ (ctrl q.side w q.bank).chunk_ptr + 1
  pub issued : w'.issued ≡ w.issued

-- The memory: a chunk is copied to `dst`, and its address is put into the map.
module _ (id lpn sect dst a : ℕ) (m : Dram) (hid : id < num_wr_buffers)
    (hl : lpn < num_banks * data_blk_per_bank * pages_per_blk) (hs : sect < sectors_per_page)
    (low : hot_log_buf 0 ≤ dst) (high : dst + bytes_per_chunk ≤ cold_log_buf num_banks) where
  abbrev src : ℕ
  src = wr_buf_ptr id + sect * bytes_per_sector

  abbrev table : ℕ
  table = chunks_map_table lpn (sect / sectors_per_chunk)

  abbrev after : Dram
  after = write_dram_32 table a (copy_words words_per_chunk dst src m)

  pub after-data :
      (i : ℕ)
      → sect % sectors_per_chunk ≡ 0
      → i < words_per_chunk
      → read_dram_32 (dst + 4 * i) after ≡ u32 (read_dram_32 (src + 4 * i) m)
  after-data i al h =
      read-write_other table (dst + 4 * i) a _ (omega arith) (omega arith) (omega arith)
      ∙ copy_words-inside words_per_chunk dst src m i
          (record { low = omega arith; high = omega arith })
          (record { low = omega arith; high = omega arith }) (omega arith) h

  pub after-entry : a < 4294967296 → read_dram_32 table after ≡ a
  after-entry h = read-write_self table a _ (omega arith) ∙ omega arith

  pub after-others :
      (p x : ℕ)
      → p < num_banks * data_blk_per_bank * pages_per_blk
      → x < chunks_per_page
      → p * chunks_per_page + x ≢ lpn * chunks_per_page + sect / sectors_per_chunk
      → read_dram_32 (chunks_map_table p x) after ≡ read_dram_32 (chunks_map_table p x) m
  after-others p x hp hx other =
      read-write_other table (chunks_map_table p x) a _ (omega arith) (omega arith)
        (omega (arith, other))
      ∙ copy_words-outside words_per_chunk dst src m (chunks_map_table p x) (omega arith)
          (record { low = omega arith; high = omega arith }) (omega arith)

-- Word `i` of a chunk in a log buffer.
pub buffer_word-hot :
    (page_word : PageWord) (bank ptr i : ℕ) (w : World)
    → bank < num_banks
    → ptr < chunks_per_page
    → chunk_word page_word w (log_buf_chunk_addr bank ptr) i
      ≡ read_dram_32
          ((hot_ctrl w bank).log_buffer_addr + ptr * sectors_per_chunk * bytes_per_sector + 4 * i)
          w.dram
buffer_word-hot page_word bank ptr i w hb hp =
    let place = find_chunk_location-buffer bank ptr hb hp in
    let offset = chunk_to_sect_offset-buffer bank ptr hb hp in
    rw (place.0) (rw (place.2) (rw offset refl))

pub buffer_word-cold :
    (page_word : PageWord) (bank ptr i : ℕ) (w : World)
    → bank < num_banks
    → ptr < chunks_per_page
    → chunk_word page_word w (with_cold_flag (log_buf_chunk_addr bank ptr)) i
      ≡ read_dram_32
          ((cold_ctrl w bank).log_buffer_addr + ptr * sectors_per_chunk * bytes_per_sector + 4 * i)
          w.dram
buffer_word-cold page_word bank ptr i w hb hp =
    let place = find_chunk_location-buffer bank ptr hb hp in
    let offset = chunk_to_sect_offset-buffer bank ptr hb hp in
    rw (place.1)
      (rw (without_cold_flag-with_cold_flag bank ptr hb hp) (rw (place.2) (rw offset refl)))
