-- ===== src/Heap/Change.antt =====
-- A new value for the element of one block.
use fast2016_ftl.Common.{ℕ, ◌≤◌, ◌<◌, ◌≡◌, ◌∙◌, arith, ◌==◌, ==_self, if◌then◌else◌}
use fast2016_ftl.Dram.{Dram, read_dram_32}
use fast2016_ftl.Heap.{HeapData, set_heap_el, get_heap_el, get_pos}
use fast2016_ftl.Heap.Cells.{
  Fits, IsPos, Outside, get_heap_el-set_heap_el, get_pos-set_heap_el, read-set_heap_el,
  get_heap_el-Word,
}
use fast2016_ftl.Heap.View.{count, is_within, Indexed, key, IsValid}
use fast2016_ftl.Heap.Down.{Restored}

-- Block `l` has `v` valid chunks now, and all else is as before.
pub record Changed (d : HeapData) (bank l v : ℕ) (m m' : Dram) : Type 0 where
  pub counts :
      (l' : ℕ)
      → l' < d.log_blks_per_bank
      → count d bank l' m' ≡ (if l == l' then v else count d bank l' m)
  pub members :
      (l' : ℕ)
      → l' < d.log_blks_per_bank
      → is_within d bank (d.n_el_in_heap bank) l' m' ≡ is_within d bank (d.n_el_in_heap bank) l' m
  pub elsewhere : (a : ℕ) → Outside d bank a → read_dram_32 a m' ≡ read_dram_32 a m

-- The memory after `setHeapEl` with a new value for the element at `p`.
abbrev pub assigned : HeapData → ℕ → ℕ → ℕ → Dram → Dram
assigned d bank p v m = set_heap_el d bank p (record (get_heap_el d bank p m) { value = v }) m

module _ (d : HeapData) (bank : ℕ) (m : Dram) (p v : ℕ) ⦃fits : Fits d bank⦄ (ix : Indexed d bank m)
    (hp : IsPos d p) (word : v < 65536) where
  pub el-assigned :
      (q : ℕ)
      → IsPos d q
      → get_heap_el d bank q (assigned d bank p v m)
        ≡ (if p == q then record (get_heap_el d bank p m) { value = v } else get_heap_el d bank q m)
  el-assigned q hq =
      rw (get_heap_el-set_heap_el d bank p q _ m hp hq)
        (ground (arith, get_heap_el-Word d bank p m))

  pub el-assigned_self :
      get_heap_el d bank p (assigned d bank p v m) ≡ record (get_heap_el d bank p m) { value = v }
  el-assigned_self = rw (el-assigned p hp, ==_self p)

  pub key-assigned :
      (q : ℕ)
      → IsPos d q
      → key d bank (assigned d bank p v m) q ≡ (if p == q then v else key d bank m q)
  key-assigned q hq = ground (arith, el-assigned q hq)

  pub lbn-assigned :
      (q : ℕ)
      → IsPos d q
      → (get_heap_el d bank q (assigned d bank p v m)).lbn ≡ (get_heap_el d bank q m).lbn
  lbn-assigned q hq = ground (arith, el-assigned q hq)

  pub get_pos-assigned :
      (l : ℕ)
      → l < d.log_blks_per_bank
      → get_pos d bank l (assigned d bank p v m) ≡ get_pos d bank l m
  get_pos-assigned l hl = get_pos-set_heap_el d bank l p _ m hp hl

  pub Indexed-assigned : Indexed d bank (assigned d bank p v m)
  Indexed-assigned = record {
    lbn_lt = λ q hq. rw (lbn-assigned q hq) (ix.lbn_lt q hq);
    pos_lbn = λ q hq. rw (lbn-assigned q hq, get_pos-assigned _ (ix.lbn_lt q hq)) (ix.pos_lbn q hq);
    pos_IsPos = λ l hl. rw (get_pos-assigned l hl) (ix.pos_IsPos l hl);
    lbn_pos =
        λ l hl. rw (get_pos-assigned l hl, lbn-assigned _ (ix.pos_IsPos l hl)) (ix.lbn_pos l hl);
  }

module _ (d : HeapData) (bank : ℕ) (m : Dram) (l v : ℕ) ⦃fits : Fits d bank⦄ (ix : Indexed d bank m)
    (hl : l < d.log_blks_per_bank) (word : v < 65536) where
  abbrev p : ℕ
  p = get_pos d bank l m

  count-assigned :
      (l' : ℕ)
      → l' < d.log_blks_per_bank
      → count d bank l' (assigned d bank p v m) ≡ (if l == l' then v else count d bank l' m)
  unfolding count
  count-assigned l' hl' =
      rw
        (
          get_pos-assigned d bank m p v ix (ix.pos_IsPos l hl) word l' hl',
          key-assigned d bank m p v ix (ix.pos_IsPos l hl) word (get_pos d bank l' m)
              (ix.pos_IsPos l' hl'),
          count,
        )
        (ground (arith, ix.lbn_pos l hl, ix.lbn_pos l' hl'))

  pub Changed-assigned : Changed d bank l v m (assigned d bank p v m)
  unfolding is_within
  Changed-assigned = record {
    counts = count-assigned;
    members = λ l' hl'. rw (get_pos-assigned d bank m p v ix (ix.pos_IsPos l hl) word l' hl');
    elsewhere = λ a out. read-set_heap_el d bank a p _ m (ix.pos_IsPos l hl) out;
  }

  -- What a restoring run after the assignment makes of the memory before it.
  pub Changed-Restored :
      (m' : Dram)
      → d.n_el_in_heap bank ≤ d.log_blks_per_bank
      → Restored d bank (d.n_el_in_heap bank) (assigned d bank p v m) m'
      → IsValid d bank m' × Changed d bank l v m m'
  Changed-Restored m' small (kept, order) =
      let now = Changed-assigned in
      (
        record { bounded = small; indexed = kept.indexed; ordered = order },
        record {
          counts = λ l' h. kept.counts l' h ∙ now.counts l' h;
          members = λ l' h. kept.members l' h ∙ now.members l' h;
          elsewhere = λ a h. kept.elsewhere a h ∙ now.elsewhere a h;
        },
      )
