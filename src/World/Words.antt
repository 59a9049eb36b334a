-- ===== src/World/Words.antt =====
-- What the copies of words leave in the memory: `mem_copy` and `mem_set_dram`.
use native.Mathlib.Decide.{dec_le}
use fast2016_ftl.Common.{
  ℕ, zero, suc, ◌+◌, ◌*◌, ◌≤◌, ◌<◌, ◌≡◌, ◌⊎◌, inl, refl, ap, subst, ◌∙◌, arith, u32, ==_self,
  ne→==-false,
}
use fast2016_ftl.Params.{dram_base, dram_size}
use fast2016_ftl.Dram.{Dram, InDram, read-write, read_dram_32, write_dram_32}
use fast2016_ftl.World.{copy_words, set_words, write_words, set_words-outside}

-- `n` words from `addr` on lie in the DRAM.
pub record IsRange (addr n : ℕ) : Type 0 where
  pub low : dram_base ≤ addr
  pub high : addr + 4 * n ≤ dram_base + dram_size

-- `a` lies before the `n` words from `addr` on, or behind them.
abbrev pub IsOutside : ℕ → ℕ → ℕ → Type 0
IsOutside addr n a = (a < addr) ⊎ (addr + 4 * n ≤ a)

write-other :
    (addr v : ℕ) (m : Dram) (n a : ℕ)
    → InDram a
    → IsRange addr (suc n)
    → IsOutside addr (suc n) a
    → read_dram_32 a (write_dram_32 addr v m) ≡ read_dram_32 a m
write-other addr v m n a ok range out =
    read-write addr a v m (omega arith) ok ∙ rw (ne→==-false addr a (omega (arith, out)))

pub copy_words-outside :
    (k dst src : ℕ) (m : Dram) (a : ℕ)
    → InDram a
    → IsRange dst k
    → IsOutside dst k a
    → read_dram_32 a (copy_words k dst src m) ≡ read_dram_32 a m
unfolding copy_words
copy_words-outside zero dst src m a ok range out = refl
copy_words-outside (suc k) dst src m a ok range out =
    copy_words-outside k (dst + 4) (src + 4) (write_dram_32 dst (read_dram_32 src m) m) a ok
      (omega arith) (omega (arith, out))
    ∙ write-other dst (read_dram_32 src m) m k a ok range out

-- The two ranges have no word in common.
abbrev pub AreApart : ℕ → ℕ → ℕ → Type 0
AreApart dst src k = (src + 4 * k ≤ dst) ⊎ (dst + 4 * k ≤ src)

-- Word `i` of the copy.
pub copy_words-inside :
    (k dst src : ℕ) (m : Dram) (i : ℕ)
    → IsRange dst k
    → IsRange src k
    → AreApart dst src k
    → i < k
    → read_dram_32 (dst + 4 * i) (copy_words k dst src m) ≡ u32 (read_dram_32 (src + 4 * i) m)
unfolding copy_words
copy_words-inside zero dst src m i range_dst range_src apart h = absurd (omega arith)
copy_words-inside (suc k) dst src m zero range_dst range_src apart h =
    let m1 = write_dram_32 dst (read_dram_32 src m) m in
    let e : dst + 4 * 0 ≡ dst = omega arith in
    let e' : src + 4 * 0 ≡ src = omega arith in
    rw e (
      rw e' (
        copy_words-outside k (dst + 4) (src + 4) m1 dst (omega arith) (omega arith)
          (inl (omega arith))
        ∙ read-write dst dst (read_dram_32 src m) m (omega arith) (omega arith)
        ∙ rw (==_self dst)))
copy_words-inside (suc k) dst src m (suc i) range_dst range_src apart h =
    let m1 = write_dram_32 dst (read_dram_32 src m) m in
    let e : dst + 4 * suc i ≡ dst + 4 + 4 * i = omega arith in
    let e' : src + 4 * suc i ≡ src + 4 + 4 * i = omega arith in
    rw e (
      rw e' (
        copy_words-inside k (dst + 4) (src + 4) m1 i (omega arith) (omega arith)
          (omega (arith, apart)) (omega arith)
        ∙ ap u32 (
            write-other dst (read_dram_32 src m) m k (src + 4 + 4 * i) (omega arith) range_dst
              (omega (arith, apart)))))

pub set_words-inside :
    (k addr val : ℕ) (m : Dram) (i : ℕ)
    → IsRange addr k
    → i < k
    → read_dram_32 (addr + 4 * i) (set_words k addr val m) ≡ u32 val
unfolding set_words
set_words-inside zero addr val m i range h = absurd (omega arith)
set_words-inside (suc k) addr val m zero range h =
    let e : addr + 4 * 0 ≡ addr = omega arith in
    rw e (
      set_words-outside k (addr + 4) val (write_dram_32 addr val m) addr (omega arith) (omega arith)
        (omega arith) (inl (omega arith))
      ∙ read-write addr addr val m (omega arith) (omega arith)
      ∙ rw (==_self addr))
set_words-inside (suc k) addr val m (suc i) range h =
    let e : addr + 4 * suc i ≡ addr + 4 + 4 * i = omega arith in
    rw e
      (set_words-inside k (addr + 4) val (write_dram_32 addr val m) i (omega arith) (omega arith))

pub write_words-outside :
    (k dst : ℕ) (f : ℕ → ℕ) (i : ℕ) (m : Dram) (a : ℕ)
    → InDram a
    → IsRange (dst + 4 * i) k
    → IsOutside (dst + 4 * i) k a
    → read_dram_32 a (write_words k dst f i m) ≡ read_dram_32 a m
unfolding write_words
write_words-outside zero dst f i m a ok range out = refl
write_words-outside (suc k) dst f i m a ok range out =
    write_words-outside k dst f (suc i) (write_dram_32 (dst + 4 * i) (f i) m) a ok (omega arith)
      (omega (arith, out))
    ∙ write-other (dst + 4 * i) (f i) m k a ok range out

-- Word `j` of an array that is written from its word `i` on.
pub write_words-inside :
    (k dst : ℕ) (f : ℕ → ℕ) (i : ℕ) (m : Dram) (j : ℕ)
    → IsRange (dst + 4 * i) k
    → i ≤ j
    → j < i + k
    → read_dram_32 (dst + 4 * j) (write_words k dst f i m) ≡ u32 (f j)
unfolding write_words
write_words-inside zero dst f i m j range low high = absurd (omega arith)
write_words-inside (suc k) dst f i m j range low high =
    let m1 = write_dram_32 (dst + 4 * i) (f i) m in
    elim (dec_le j i) [
      | yes le ↦
          let here : i ≡ j = omega arith in
          subst (λ x. read_dram_32 (dst + 4 * x) (write_words k dst f (suc i) m1) ≡ u32 (f x)) here
            (write_words-outside k dst f (suc i) m1 (dst + 4 * i) (omega arith) (omega arith)
                (inl (omega arith))
              ∙ read-write (dst + 4 * i) (dst + 4 * i) (f i) m (omega arith) (omega arith)
              ∙ rw (==_self (dst + 4 * i)))
      | no gt ↦ write_words-inside k dst f (suc i) m1 j (omega arith) (omega arith) (omega arith)
    ]
