-- ===== src/Host/Tests.antt =====
-- Requests of the host on a world with one page.
use fast2016_ftl.Common.{
  ℕ, zero, suc, invalid, ◌-◌, ◌+◌, ◌*◌, ◌/◌, ◌%◌, ◌≤◌, ◌<◌, ◌≡◌, refl, sym, subst, arith, Ends, u32,
}
use fast2016_ftl.Params.{sectors_per_chunk, words_per_chunk}
use fast2016_ftl.Layout.{temp_buf_addr}
use fast2016_ftl.Dram.{read_dram_32, write_dram_32, real_addr}
use fast2016_ftl.Log.Chunk.{
  log_chunk_addr, log_buf_chunk_addr, find_chunk_location-flash, find_chunk_location-buffer,
  log_chunk_addr-parts, find_chunk_location-invalid, chunk_to_sect_offset,
}
use fast2016_ftl.Read.{read_mode, one_source, read_one_chunk_encoded, src_offset_of}
use fast2016_ftl.Read.View.{entry, IsPlain, IsKept, Holds, chunk_buf}
use fast2016_ftl.Read.Encoded.{read_one_chunk_encoded-misplaced}
use fast2016_ftl.Rebuild.{rebuild_page_to_ftl_buf}
use fast2016_ftl.Rebuild.Page.{rebuild_page-Holds}
use fast2016_ftl.Host.{ReadSide, ftl_read}
use fast2016_ftl.Host.Read.{IsPlainSector}
use fast2016_ftl.Host.Request.{IsRead, ftl_read-IsRead}
use fast2016_ftl.Host.Sample.{stored, readers, readers-IsReader, full_world, full_world-IsLaidOut}

flash-IsPlain :
    (bank lbn page chunk : ℕ)
    → bank < 16
    → lbn < 512
    → page < 127
    → chunk < 8
    → IsPlain (log_chunk_addr bank lbn page chunk)
flash-IsPlain bank lbn page chunk hb hl hp hc =
    let there = (find_chunk_location-flash bank lbn page chunk hb hl (omega arith) hc hp).0 in
    let parts = log_chunk_addr-parts bank lbn page chunk hb hl (omega arith) hc in
    rw there (omega (arith, parts.0))

buffer-IsPlain : (bank chunk : ℕ) → bank < 16 → chunk < 8 → IsPlain (log_buf_chunk_addr bank chunk)
buffer-IsPlain bank chunk hb hc =
    let there = find_chunk_location-buffer bank chunk hb hc in rw (there.0) (omega (arith, there.2))

nowhere-IsPlain : IsPlain invalid
nowhere-IsPlain = rw find_chunk_location-invalid tt

-- Where the map leads for the chunks of the page.
entry_0 : entry 5 full_world 0 ≡ log_chunk_addr 2 7 3 1
unfolding read_dram_32 write_dram_32 real_addr log_chunk_addr
entry_0 = refl

entry_1 : entry 5 full_world 1 ≡ log_chunk_addr 2 7 3 6
unfolding read_dram_32 write_dram_32 real_addr log_chunk_addr
entry_1 = refl

entry_2 : entry 5 full_world 2 ≡ log_chunk_addr 2 7 3 4
unfolding read_dram_32 write_dram_32 real_addr log_chunk_addr
entry_2 = refl

entry_3 : entry 5 full_world 3 ≡ log_buf_chunk_addr 1 4
unfolding read_dram_32 write_dram_32 real_addr log_buf_chunk_addr
entry_3 = refl

entry_4 : entry 5 full_world 4 ≡ invalid
unfolding read_dram_32 write_dram_32 real_addr
entry_4 = refl

page-IsPlain : (c : ℕ) → c < 5 → IsPlain (entry 5 full_world c)
page-IsPlain zero h =
    subst IsPlain (sym entry_0)
      (flash-IsPlain 2 7 3 1 (omega arith) (omega arith) (omega arith) (omega arith))
page-IsPlain (suc zero) h =
    subst IsPlain (sym entry_1)
      (flash-IsPlain 2 7 3 6 (omega arith) (omega arith) (omega arith) (omega arith))
page-IsPlain (suc (suc zero)) h =
    subst IsPlain (sym entry_2)
      (flash-IsPlain 2 7 3 4 (omega arith) (omega arith) (omega arith) (omega arith))
page-IsPlain (suc (suc (suc zero))) h =
    subst IsPlain (sym entry_3) (buffer-IsPlain 1 4 (omega arith) (omega arith))
page-IsPlain (suc (suc (suc (suc zero)))) h = subst IsPlain (sym entry_4) nowhere-IsPlain
page-IsPlain (suc (suc (suc (suc (suc c))))) h = absurd (omega arith)

rebuild_page-Holds_example :
    Ends
      (λ w'.
        IsKept stored full_world w'
        × ((c : ℕ)
            → 3 / sectors_per_chunk ≤ c
            → c * sectors_per_chunk < 3 + 30
            → Holds stored 5 full_world c w'))
      (rebuild_page_to_ftl_buf readers 5 3 30 read_mode full_world)
rebuild_page-Holds_example =
    rebuild_page-Holds readers stored readers-IsReader full_world full_world-IsLaidOut 5 3 30
      (omega arith) (omega arith) (λ c low high. page-IsPlain c (omega arith))

abbrev idle_host : ReadSide
idle_host = record { read_buf_id = 415; stack_rdset = 415; stack_reset = 2 }

sectors-IsPlain : (x : ℕ) → 323 ≤ x → x < 353 → IsPlainSector full_world x
sectors-IsPlain x low high =
    let page : x / 64 ≡ 5 = omega arith in rw page (page-IsPlain (x % 64 / 8) (omega arith))

ftl_read-IsRead_example :
    Ends
      (λ (h', w'). IsRead readers stored readers-IsReader idle_host h' full_world w' 323 30)
      (ftl_read readers 323 30 (idle_host, full_world))
ftl_read-IsRead_example =
    ftl_read-IsRead readers stored readers-IsReader idle_host full_world 323 30 full_world-IsLaidOut
      (omega arith) refl (omega arith) (omega arith) (omega arith) sectors-IsPlain

second_chunk : 0 < chunk_to_sect_offset (log_chunk_addr 2 7 3 1)
second_chunk =
    let parts =
      log_chunk_addr-parts 2 7 3 1 (omega arith) (omega arith) (omega arith) (omega arith) in
    omega (arith, parts.5)

read_one_chunk_encoded-misplaced_example :
    (let a = log_chunk_addr 2 7 3 1 in
      Ends
        (λ w'.
          ((i : ℕ)
            → i < words_per_chunk
            → read_dram_32 (chunk_buf 0 + 4 * i) w'.dram
              ≡ read_dram_32 (chunk_buf 0 + 4 * i) full_world.dram)
          × ((i : ℕ)
              → i < words_per_chunk
              → read_dram_32 (chunk_buf 0 - src_offset_of a + 4 * i) w'.dram
                ≡ u32 (read_dram_32 (temp_buf_addr + 4 * i) full_world.dram)))
        (read_one_chunk_encoded readers read_mode a (one_source a 0) full_world))
read_one_chunk_encoded-misplaced_example =
    read_one_chunk_encoded-misplaced readers stored readers-IsReader (log_chunk_addr 2 7 3 1) 0
      full_world (omega arith) second_chunk
