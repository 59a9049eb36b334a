-- ===== src/Gc/Write/Takes.antt =====
-- A chunk on its way to the cold log, while the block for cold data has pages left.
use fast2016_ftl.Common.{
  ◌-◌, ◌/◌, ◌*◌, ℕ, suc, ◌+◌, ◌%◌, ◌<◌, ◌≡◌, refl, true, Option, arith, ◌==◌, Ends, ends, Ends-if,
  ==_self,
}
use fast2016_ftl.Params.{chunks_per_page, pages_per_blk, log_blk_per_bank, used_pages_per_log_blk}
use fast2016_ftl.Log.{IncreaseLpn, cold_blk}
use fast2016_ftl.Log.Cold.{increase_lpn_cold_blk-within}
use fast2016_ftl.Log.Complete.{log_page_to_offset}
use fast2016_ftl.Flash.{Hardware}
use fast2016_ftl.World.{World, GcBank, cold_ctrl, set_gc, set_dram}
use fast2016_ftl.Gc.Write.{
  flush_log_buffer_during_gc, update_chunk_ptr_during_gc, update_dram_buf_metadata_during_gc,
  write_chunk_on_log_block_during_gc, increase_cold, program_page, map_page,
}

module _ (hw : Hardware) (rounds : ℕ) (gc : ℕ → World → Option World)
    (other : IncreaseLpn → ℕ → World → Option World) (bank : ℕ) where
  abbrev increase : IncreaseLpn → ℕ → World → Option World
  increase = increase_cold rounds gc hw other

  -- The cold log takes `k` more chunks within its block, and none in its buffer has been given up.
  pub record Takes (k : ℕ) (w : World) : Type 0 where
    pub all_valid : (cold_ctrl w bank).all_chunks_in_log_are_valid ≡ true
    pub next : (cold_ctrl w bank).increase_lpn ≡ cold_blk
    pub ptr : (cold_ctrl w bank).chunk_ptr < chunks_per_page
    pub lpn : (cold_ctrl w bank).log_lpn < log_blk_per_bank * pages_per_blk
    pub room :
        log_page_to_offset (cold_ctrl w bank).log_lpn
          + ((cold_ctrl w bank).chunk_ptr + k) / chunks_per_page
        < used_pages_per_log_blk

  -- The collection of the bank stands where it stood.
  abbrev pub Keeps : ℕ → World → World → Type 0
  Keeps k w w' = (w'.gc bank ≡ w.gc bank) × Takes k w'

  module _ (k : ℕ) where
    flush-Ends :
        (w : World)
        → Takes (k + chunks_per_page) w
        → Ends (Keeps k w) (flush_log_buffer_during_gc hw increase bank w)
    unfolding flush_log_buffer_during_gc log_page_to_offset
    flush-Ends w t =
        let within : log_page_to_offset (cold_ctrl w bank).log_lpn < used_pages_per_log_blk - 1 =
          omega (arith, t.room) in
        let c = cold_ctrl w bank in
        let w1 = program_page hw bank c.log_buffer_addr c.data_lpn w in
        let m = map_page chunks_per_page bank c.log_lpn c.data_lpn c.chunk_idx 0 w1.dram in
        rw (t.all_valid, t.next)
          (rw (increase_lpn_cold_blk-within rounds gc hw bank (set_dram m w1) within) (
            ends (
              refl,
              record {
                all_valid = rw (==_self bank) t.all_valid;
                next = rw (==_self bank) t.next;
                ptr = rw (==_self bank) t.ptr;
                lpn = rw (==_self bank) (omega (arith, within, t.lpn));
                room = rw (==_self bank) (omega (arith, within, t.lpn, t.room));
              },
            )))

    chunk_ptr-Ends :
        (w : World)
        → Takes (suc k) w
        → Ends (Keeps k w) (update_chunk_ptr_during_gc hw increase bank w)
    unfolding update_chunk_ptr_during_gc
    chunk_ptr-Ends w t =
        let ptr = (cold_ctrl w bank).chunk_ptr in
        let next = (ptr + 1) % chunks_per_page in
        Ends-if (next == 0)
          (λ full. flush-Ends _ (record {
            all_valid = rw (==_self bank) t.all_valid;
            next = rw (==_self bank) t.next;
            ptr = rw (==_self bank) (omega arith);
            lpn = rw (==_self bank) t.lpn;
            room = rw (==_self bank) (ground (arith, full, t.ptr, t.room));
          }))
          (λ more. ends (
            refl,
            record {
              all_valid = rw (==_self bank) t.all_valid;
              next = rw (==_self bank) t.next;
              ptr = rw (==_self bank) (omega arith);
              lpn = rw (==_self bank) t.lpn;
              room = rw (==_self bank) (ground (arith, more, t.ptr, t.room));
            },
          ))

    pub write_chunk-Ends :
        (data_lpn chunk_offset chunk buf : ℕ) (w : World)
        → Takes (suc k) w
        → Ends
            (Keeps k w)
            (write_chunk_on_log_block_during_gc hw increase bank data_lpn chunk_offset chunk buf w)
    unfolding write_chunk_on_log_block_during_gc update_dram_buf_metadata_during_gc
    write_chunk-Ends data_lpn chunk_offset chunk buf w t = chunk_ptr-Ends _ (record {
      all_valid = rw (==_self bank) t.all_valid;
      next = rw (==_self bank) t.next;
      ptr = rw (==_self bank) t.ptr;
      lpn = rw (==_self bank) t.lpn;
      room = rw (==_self bank) t.room;
    })

  pub Takes-fewer : (k : ℕ) (w : World) → Takes (suc k) w → Takes k w
  Takes-fewer k w t = record {
    all_valid = t.all_valid;
    next = t.next;
    ptr = t.ptr;
    lpn = t.lpn;
    room = omega (arith, t.room);
  }

  pub Takes-gc : (k : ℕ) (w : World) (g : GcBank) → Takes k w → Takes k (set_gc bank g w)
  Takes-gc k w g t = record {
    all_valid = t.all_valid;
    next = t.next;
    ptr = t.ptr;
    lpn = t.lpn;
    room = t.room;
  }
