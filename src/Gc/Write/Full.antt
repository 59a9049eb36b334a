-- ===== src/Gc/Write/Full.antt =====
-- `writePage` on a page with eight valid chunks.
use native.Mathlib.Decide.{dec_le}
use fast2016_ftl.Common.{
  ℕ, zero, suc, ◌+◌, ◌%◌, ◌≤◌, ◌<◌, ◌≡◌, ◌≢◌, refl, sym, subst, ◌∙◌, ap, true, Option, none, some,
  ◌∷◌, arith, ◌==◌, u32, ==_self, ne→==-false,
}
use fast2016_ftl.Dram.{Dram, InDram, read_dram_32, write_dram_32, read-write}
use fast2016_ftl.Log.{IncreaseLpn}
use fast2016_ftl.Log.Complete.{log_page_to_offset, log_page_to_log_blk}
use fast2016_ftl.Flash.{Hardware, nand_page_program, return_on_issue}
use fast2016_ftl.World.{World, gc_read, cold_ctrl, set_gc, get_log_vbn, chunks_map_table, gc_buf}
use fast2016_ftl.Gc.Write.{
  map_page, dst_chunk_addr, call_increase, mapped_to, first_moved, log_chunk_base, write_full_page,
  write_partial_page, without_chunk, write_page, copied,
}

module _ (bank log_lpn : ℕ) (data_lpn chunk_idx : ℕ → ℕ) where
  -- The address of the entry of the map for chunk `c`.
  abbrev pub entry : ℕ → ℕ
  entry c = chunks_map_table (data_lpn c) (chunk_idx c)

  map_page-other :
      (k i : ℕ) (m : Dram) (a : ℕ)
      → InDram a
      → ((c : ℕ) → i ≤ c → c < i + k → InDram (entry c))
      → ((c : ℕ) → i ≤ c → c < i + k → entry c ≢ a)
      → read_dram_32 a (map_page k bank log_lpn data_lpn chunk_idx i m) ≡ read_dram_32 a m
  unfolding map_page
  map_page-other zero i m a ok inside apart = refl
  map_page-other (suc k) i m a ok inside apart =
      let here = apart i (omega arith) (omega arith) in
      let v = dst_chunk_addr bank log_lpn i in
      map_page-other k (suc i) (write_dram_32 (entry i) v m) a ok
        (λ c low high. inside c (omega arith) (omega arith))
        (λ c low high. apart c (omega arith) (omega arith))
      ∙ read-write (entry i) a v m (inside i (omega arith) (omega arith)) ok
      ∙ rw (ne→==-false (entry i) a here)

  pub map_page-entry :
      (k i : ℕ) (m : Dram)
      → ((c : ℕ) → i ≤ c → c < i + k → InDram (entry c))
      → ((c c' : ℕ) → i ≤ c → c < c' → c' < i + k → entry c ≢ entry c')
      → (c : ℕ) → i ≤ c
      → c < i + k
      → read_dram_32 (entry c) (map_page k bank log_lpn data_lpn chunk_idx i m)
        ≡ dst_chunk_addr bank log_lpn c
  unfolding map_page
  map_page-entry zero i m inside apart c low high = absurd (omega arith)
  map_page-entry (suc k) i m inside apart c low high =
      let v = dst_chunk_addr bank log_lpn i in
      let m1 = write_dram_32 (entry i) v m in
      let inside' : (c : ℕ) → suc i ≤ c → c < suc i + k → InDram (entry c) =
        λ c low high. inside c (omega arith) (omega arith) in
      elim (dec_le c i) [
        | yes le ↦
            let here : i ≡ c = omega arith in
            let e =
              map_page-other k (suc i) m1 (entry i) (inside i (omega arith) (omega arith)) inside'
                (λ x from to e. apart i x (omega arith) (omega arith) (omega arith) (sym e))
              ∙ read-write (entry i) (entry i) v m (inside i (omega arith) (omega arith))
                  (inside i (omega arith) (omega arith)) in
            let fits : u32 v ≡ v = omega arith in
            subst
              (λ x.
                read_dram_32 (entry x) (map_page k bank log_lpn data_lpn chunk_idx (suc i) m1)
                ≡ dst_chunk_addr bank log_lpn x)
              here (e ∙ rw (==_self (entry i)) fits)
        | no gt ↦
            map_page-entry k (suc i) m1 inside'
              (λ x y from less to. apart x y (omega arith) less (omega arith)) c (omega arith)
              (omega arith)
      ]

module _ (hw : Hardware) (increase : IncreaseLpn → ℕ → World → Option World) (bank : ℕ) where
  -- The map still leads to chunk `c` of the page of the victim.
  abbrev pub InPlace : World → ℕ → Type 0
  InPlace w c =
      mapped_to hw increase (w.gc bank) c w.dram
      ≡ u32 (log_chunk_base hw increase bank (w.gc bank) + c)

  first_moved-none :
      (k c : ℕ) (w : World)
      → ((x : ℕ) → c ≤ x → x < c + k → InPlace w x)
      → first_moved hw increase k (log_chunk_base hw increase bank (w.gc bank)) (w.gc bank) c w.dram
        ≡ none
  unfolding first_moved
  first_moved-none zero c w all = refl
  first_moved-none (suc k) c w all =
      let rest = first_moved-none k (suc c) w (λ x low high. all x (omega arith) (omega arith)) in
      ground (arith, all c (omega arith) (omega arith), rest)

  first_moved-some :
      (k c j : ℕ) (w : World)
      → c ≤ j
      → j < c + k
      → ((x : ℕ) → c ≤ x → x < j → InPlace w x)
      → ¬ InPlace w j
      → first_moved hw increase k (log_chunk_base hw increase bank (w.gc bank)) (w.gc bank) c w.dram
        ≡ some j
  unfolding first_moved
  first_moved-some zero c j w low high all moved = absurd (omega arith)
  first_moved-some (suc k) c j w low high all moved = elim (dec_le j c) [
    | yes le ↦
        let here : j ≡ c = omega arith in
        let moved' : ¬ InPlace w c = subst (λ x. ¬ InPlace w x) here moved in
        let stop = ne→==-false (mapped_to hw increase (w.gc bank) c w.dram) _ moved' in
        rw stop (ap some (sym here))
    | no gt ↦
        let rest =
          first_moved-some k (suc c) j w (omega arith) (omega arith)
            (λ x low high. all x (omega arith) high) moved in
        ground (arith, all c (omega arith) (omega arith), rest)
  ]

  -- The world in which `increaseLpn` is called after a full page.
  pub record IsCopied (w w' : World) : Type 0 where
    pub gc_state : (w'.gc bank).gc_state ≡ gc_read
    pub page_offset : (w'.gc bank).page_offset ≡ ((w.gc bank).page_offset + 1) % 256
    pub in_page : (w'.gc bank).n_valid_chunks_in_page ≡ 0
    pub in_blk : (w'.gc bank).n_valid_chunks_in_blk ≡ (w.gc bank).n_valid_chunks_in_blk
    pub victim_lbn : (w'.gc bank).victim_lbn ≡ (w.gc bank).victim_lbn
    pub log_lpn : (cold_ctrl w' bank).log_lpn ≡ (cold_ctrl w bank).log_lpn
    pub issued :
        w'.issued
        ≡ nand_page_program bank
            (get_log_vbn bank (log_page_to_log_blk (cold_ctrl w bank).log_lpn) w.dram)
            (log_page_to_offset (cold_ctrl w bank).log_lpn)
            (gc_buf bank)
            return_on_issue
          ∷ w.issued
    pub map :
        (c : ℕ)
        → c < 8
        → read_dram_32
            (entry bank
              (cold_ctrl w bank).log_lpn
              (w.gc bank).data_lpns
              (w.gc bank).data_chunk_offsets
              c)
            w'.dram
          ≡ dst_chunk_addr bank (cold_ctrl w bank).log_lpn c

  module _ (w : World) (full : (w.gc bank).n_valid_chunks_in_page ≡ 8) where
    abbrev place : ℕ → ℕ
    place =
        entry bank (cold_ctrl w bank).log_lpn (w.gc bank).data_lpns (w.gc bank).data_chunk_offsets

    eight : ((w.gc bank).n_valid_chunks_in_page == 8) ≡ true
    eight = rw full

    -- `writePage` on a page with eight valid chunks, to all of which the map still leads: the page is
    -- programmed from the buffer of the collector to the current page of the cold log, the map
    -- leads to the new places, and the collection goes on to the next page before `increaseLpn`
    -- is called. The entries of the map for the chunks must be different words of the DRAM.
    pub write_page-IsCopied :
        ((c : ℕ) → c < 8 → InPlace w c)
        → ((c : ℕ) → c < 8 → InDram (place c))
        → ((c c' : ℕ) → c < c' → c' < 8 → place c ≢ place c')
        → (w' : World) × (write_page hw increase bank w ≡ call_increase hw increase bank w')
          × IsCopied w w'
    unfolding write_page write_full_page
    write_page-IsCopied all inside apart = (
      copied hw increase bank w,
      rw (eight, first_moved-none 8 0 w (λ x low high. all x (omega arith))),
      record {
        gc_state = rw (==_self bank);
        page_offset = rw (==_self bank);
        in_page = rw (==_self bank);
        in_blk = rw (==_self bank);
        victim_lbn = rw (==_self bank);
        log_lpn = refl;
        issued = refl;
        map = λ c small.
            map_page-entry bank (cold_ctrl w bank).log_lpn (w.gc bank).data_lpns
              (w.gc bank).data_chunk_offsets 8 0 _ (λ x low high. inside x (omega arith))
              (λ x y low less high. apart x y less (omega arith)) c (omega arith) (omega arith);
      },
    )

    -- If the map does not lead to chunk `j` of the eight, and does to those before it, this chunk is
    -- given up and the page is written chunk by chunk.
    pub write_page-moved :
        (j : ℕ)
        → j < 8
        → ((c : ℕ) → c < j → InPlace w c)
        → ¬ InPlace w j
        → write_page hw increase bank w
          ≡ write_partial_page hw increase bank
              (set_gc bank (without_chunk hw increase j (w.gc bank)) w)
    unfolding write_page
    write_page-moved j small all moved = rw (
      eight,
      first_moved-some 8 0 j w (omega arith) (omega arith) (λ x low high. all x high) moved,
    )
