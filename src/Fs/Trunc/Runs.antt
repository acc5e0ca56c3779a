-- ===== src/Fs/Trunc/Runs.antt =====
-- The loops of `itrunc` of Lab-5 Task 5.1, kernel/fs.c, over the words of an index block.
use cs344_os_lab.Base.{
  ℕ, zero, suc, ◌+◌, ◌*◌, ◌<◌, ◌≤◌, ◌≡◌, ◌≢◌, refl, sym, ap, ◌∙◌, Option, arith, inl, inr,
}
use cs344_os_lab.Base.Tests.{Bool-cases, ◌==◌, ==→eq, ==→ne}
use cs344_os_lab.Base.Partial.{◌>>=◌}
use cs344_os_lab.Fs.{Disk, Open, read_word, bfree, nindirect}
use cs344_os_lab.Fs.Slots.{
  Slot, top, sub, Legal, value, through, through_none, through_nonzero, Inv,
}
use cs344_os_lab.Fs.Trunc.{free_if, free_words, free_index, free_index_if, free_outer, free_double}
use cs344_os_lab.Fs.Trunc.Ranks.{rank}
use cs344_os_lab.Fs.Trunc.Frees.{
  Freed, Ends, passes-Freed, bfree-Freed, free_if-Freed, Freed-at, Ends-at,
}

-- The slots below `s` come one after another from rank `base` on, and `s` after them.
pub record Run (s : Slot) (base : ℕ) : Type 0 where
  pub legal : Legal s
  pub words : (i : ℕ) → i < nindirect → Legal (sub s i)
  pub ranks : (i : ℕ) → i < nindirect → rank (sub s i) ≡ base + i
  pub after : rank s ≡ base + nindirect

then-Ends :
    {o : Open} {m n : ℕ} (r : Option Disk) (f : Disk → Option Disk)
    → Ends o m r
    → ((d : Disk) → Freed o m d → Ends o n (f d))
    → Ends o n (r >>= f)
then-Ends r f e h = rw e.is (h e.disk e.freed)

value_word :
    (o : Open) (s : Slot) (i : ℕ)
    → value o s ≢ 0
    → read_word (o.disk.bytes (value o s)) i ≡ value o (sub s i)
unfolding value
value_word o s i nz = sym (through_nonzero o.disk.bytes (value o s) i nz)

pub value_below : (o : Open) (s : Slot) (i : ℕ) → value o s ≡ 0 → value o (sub s i) ≡ 0
unfolding value
value_below o s i z = ap (λ b. through o.disk.bytes b i) z ∙ through_none _ i

module _ (size : ℕ) (o : Open) (v : Inv size o) where
  module _ (s : Slot) (base : ℕ) (r : Run s base) where
    next_rank : (j : ℕ) → j < nindirect → rank (sub s j) + 1 ≡ base + (j + 1)
    next_rank j l = omega (arith, r.ranks j l)

    last_rank : rank s + 1 ≡ base + 257
    last_rank = omega (arith, r.after)

    full_rank : base + 0 + nindirect ≡ rank s
    full_rank = omega (arith, r.after)

    free_words-Freed :
        (n j : ℕ) (d : Disk)
        → value o s ≢ 0
        → j + n ≤ nindirect
        → Freed o (base + j) d
        → Ends o (base + j + n) (free_words n j (o.disk.bytes (value o s)) d)
    unfolding free_words
    free_words-Freed zero j d nz l f = (record {
      disk = d;
      is = refl;
      freed = Freed-at (omega arith) f;
    })
    free_words-Freed (suc n) j d nz l f = rw (value_word o s j nz) (
        then-Ends (free_if (value o (sub s j)) d) _
          (Ends-at (next_rank j (omega arith)) (
            free_if-Freed size o v (sub s j) d (r.words j (omega arith))
              (Freed-at (sym (r.ranks j (omega arith))) f)))
          (λ d' g. Ends-at (omega arith) (free_words-Freed n (j + 1) d' nz (omega arith) g)))

    passes_words :
        (n j : ℕ) (d : Disk)
        → value o s ≡ 0
        → j + n ≤ nindirect
        → Freed o (base + j) d
        → Freed o (base + j + n) d
    passes_words zero j d z l f = Freed-at (omega arith) f
    passes_words (suc n) j d z l f = Freed-at (omega arith) (
        passes_words n (j + 1) d z (omega arith) (
          Freed-at (next_rank j (omega arith)) (
            passes-Freed size o v (sub s j) d (r.words j (omega arith)) (value_below o s j z)
              (Freed-at (sym (r.ranks j (omega arith))) f))))

    pub passes_index : (d : Disk) → value o s ≡ 0 → Freed o base d → Freed o (base + 257) d
    passes_index d z f = Freed-at last_rank (
        passes-Freed size o v s d r.legal z (
          Freed-at full_rank
            (passes_words nindirect 0 d z (omega arith) (Freed-at (omega arith) f))))

    pub free_index-Freed :
        (d : Disk) → value o s ≢ 0 → Freed o base d → Ends o (base + 257) (free_index (value o s) d)
    unfolding free_index
    free_index-Freed d nz f = rw (ap (λ b. b (value o s)) f.bytes) (
        then-Ends (free_words nindirect 0 (o.disk.bytes (value o s)) d) (bfree (value o s))
          (free_words-Freed nindirect 0 d nz (omega arith) (Freed-at (omega arith) f))
          (λ d' g. Ends-at last_rank (bfree-Freed size o v s d' r.legal nz (Freed-at full_rank g))))

    pub free_index_if-Freed :
        (d : Disk) → Freed o base d → Ends o (base + 257) (free_index_if (value o s) d)
    unfolding free_index_if
    free_index_if-Freed d f = elim (Bool-cases (value o s == 0)) [
      | inl z ↦ rw z (record { disk = d; is = refl; freed = passes_index d (==→eq _ 0 z) f })
      | inr z ↦ rw z (free_index-Freed d (==→ne _ 0 z) f)
    ]

  single-Run : Run (top 11) 11
  unfolding Legal rank
  single-Run = record {
    legal = omega arith;
    words = λ i l. (inl refl, l);
    ranks = λ i l. refl;
    after = refl;
  }

  double-Run : (h : ℕ) → h < nindirect → Run (sub (top 12) h) (268 + 257 * h)
  unfolding Legal rank
  double-Run h l = record {
    legal = (inr refl, l);
    words = λ i m. (refl, l, m);
    ranks = λ i m. refl;
    after = omega arith;
  }

  -- The blocks below the doubly-indirect block, and that block.
  module _ (nz : value o (top 12) ≢ 0) where
    free_outer-Freed :
        (n j : ℕ) (d : Disk)
        → j + n ≤ nindirect
        → Freed o (268 + 257 * j) d
        → Ends o (268 + 257 * (j + n)) (free_outer n j (o.disk.bytes (value o (top 12))) d)
    unfolding free_outer
    free_outer-Freed zero j d l f = (record {
      disk = d;
      is = refl;
      freed = Freed-at (omega arith) f;
    })
    free_outer-Freed (suc n) j d l f = rw (value_word o (top 12) j nz) (
        then-Ends (free_index_if (value o (sub (top 12) j)) d) _
          (free_index_if-Freed (sub (top 12) j) (268 + 257 * j) (double-Run j (omega arith)) d f)
          (λ d' g.
            Ends-at (omega arith)
              (free_outer-Freed n (j + 1) d' (omega arith) (Freed-at (omega arith) g))))

    pub free_double-Freed :
        (d : Disk) → Freed o 268 d → Ends o 66061 (free_double (value o (top 12)) d)
    unfolding free_double Legal rank
    free_double-Freed d f = rw (ap (λ b. b (value o (top 12))) f.bytes) (
        then-Ends (free_outer nindirect 0 (o.disk.bytes (value o (top 12))) d) _
          (free_outer-Freed nindirect 0 d (omega arith) f)
          (λ d' g. bfree-Freed size o v (top 12) d' (omega arith) nz g))

  passes_outer :
      (n j : ℕ) (d : Disk)
      → value o (top 12) ≡ 0
      → j + n ≤ nindirect
      → Freed o (268 + 257 * j) d
      → Freed o (268 + 257 * (j + n)) d
  passes_outer zero j d z l f = Freed-at (omega arith) f
  passes_outer (suc n) j d z l f = Freed-at (omega arith) (
      passes_outer n (j + 1) d z (omega arith) (
        Freed-at (omega arith) (
          passes_index (sub (top 12) j) (268 + 257 * j) (double-Run j (omega arith)) d
            (value_below o (top 12) j z) f)))

  pub passes_double : (d : Disk) → value o (top 12) ≡ 0 → Freed o 268 d → Freed o 66061 d
  unfolding Legal rank
  passes_double d z f =
      passes-Freed size o v (top 12) d (omega arith) z
        (passes_outer nindirect 0 d z (omega arith) f)

  pub passes_single : (d : Disk) → value o (top 11) ≡ 0 → Freed o 11 d → Freed o 268 d
  passes_single = passes_index (top 11) 11 single-Run

  pub free_single-Freed :
      (d : Disk)
      → value o (top 11) ≢ 0
      → Freed o 11 d
      → Ends o 268 (free_index (value o (top 11)) d)
  free_single-Freed = free_index-Freed (top 11) 11 single-Run
