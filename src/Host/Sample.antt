-- ===== src/Host/Sample.antt =====
-- Devices that read from flash, and a world in which a page lies in a flash page, in a log buffer
-- and nowhere.
use fast2016_ftl.Common.{ℕ, ◌+◌, ◌*◌, ◌/◌, ◌<◌, ◌≡◌, refl, ◌∙◌, arith, List, u32, invalid}
use fast2016_ftl.Params.{bytes_per_sector, words_per_sector}
use fast2016_ftl.Dram.{Dram, read_dram_32, write_dram_32, real_addr}
use fast2016_ftl.Log.Chunk.{log_chunk_addr, log_buf_chunk_addr}
use fast2016_ftl.Flash.{FlashCommand, read_out, in_prog, erase, Hardware}
use fast2016_ftl.Flash.Reader.{PageWord, IsReader}
use fast2016_ftl.World.{World, chunks_map_table, write_words}
use fast2016_ftl.World.Words.{write_words-inside, write_words-outside}
use fast2016_ftl.Read.View.{IsLaidOut}
use fast2016_ftl.Gc.Sample.{blank, off, find_word}

-- Every page holds other words.
abbrev pub stored : PageWord
stored before bank row i = u32 (bank + 100 * row + i)

abbrev pub transferred : List FlashCommand → FlashCommand → Dram → Dram
transferred before (read_out bank option dma_addr dma_cnt col row flag) m =
    write_words (dma_cnt / 4) (dma_addr + col * bytes_per_sector)
      (λ i. stored before bank row (col * words_per_sector + i)) 0 m
transferred before (in_prog bank option dma_addr dma_cnt col row flag) m = m
transferred before (erase bank option row flag) m = m

abbrev pub readers : Hardware
readers = record { transfer = transferred; search_equ = λ addr n val m. find_word n 0 addr val m }

pub readers-IsReader : IsReader readers stored
readers-IsReader = record {
  word = λ before bank row i. omega arith;
  kept = λ before bank option dma_addr dma_cnt col row flag b r i. refl;
  placed = λ before bank dma_addr words col row flag m i low high h.
      let n : 4 * words / 4 ≡ words = omega arith in
      let dst = dma_addr + col * bytes_per_sector in
      rw n (
        write_words-inside words dst (λ i. stored before bank row (col * words_per_sector + i)) 0 m
          i (omega arith) (omega arith) (omega arith)
        ∙ omega arith);
  outside = λ before bank dma_addr words col row flag m a low high ok out.
      let n : 4 * words / 4 ≡ words = omega arith in
      let dst = dma_addr + col * bytes_per_sector in
      rw n (
        write_words-outside words dst (λ i. stored before bank row (col * words_per_sector + i)) 0 m
          a ok (omega arith) (omega (arith, out)));
}

-- Page 5: three chunks in one flash page, one in the hot log buffer of bank 1, and one nowhere.
abbrev map_chunk : ℕ → ℕ → Dram → Dram
map_chunk c a m = write_dram_32 (chunks_map_table 5 c) a m

abbrev pub mapped : Dram
mapped = map_chunk 0 (log_chunk_addr 2 7 3 1) (
    map_chunk 1 (log_chunk_addr 2 7 3 6) (
      map_chunk 2 (log_chunk_addr 2 7 3 4)
        (map_chunk 3 (log_buf_chunk_addr 1 4) (map_chunk 4 invalid blank))))

abbrev pub full_world : World
full_world = record off { dram = mapped }

write-word :
    (a v : ℕ) (m : Dram)
    → ((p : ℕ) → m p < 4294967296)
    → (p : ℕ) → write_dram_32 a v m p < 4294967296
unfolding write_dram_32
write-word a v m words p = ground (arith, words p)

mapped-word : (p : ℕ) → mapped p < 4294967296
mapped-word =
    write-word _ _ _
      (write-word _ _ _ (write-word _ _ _ (write-word _ _ _ (write-word _ _ _ (λ p. omega arith)))))

pub full_world-IsLaidOut : IsLaidOut full_world
unfolding read_dram_32
full_world-IsLaidOut = record {
  hot_at = λ b h. refl;
  cold_at = λ b h. refl;
  words = λ a out behind. mapped-word (real_addr a);
}
