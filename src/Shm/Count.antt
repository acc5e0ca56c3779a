-- ===== src/Shm/Count.antt =====
-- How many processes map a region (Lab-3 Task 3.1, kernel/shm.c).
use cs344_os_lab.Base.{ℕ, zero, suc, ◌+◌, ◌<◌, ◌≡◌, refl, ◌≢◌, Bool, true, false, arith, inl, inr}
use cs344_os_lab.Base.Tests.{if◌then◌else◌, Bool-cases, ◌==◌, ==→eq, ==→ne}

-- how many of the first `n` pass
pub count : ℕ → (ℕ → Bool) → ℕ
count zero f = 0
count (suc n) f = count n f + (if f n then 1 else 0)

pub count_same : (n : ℕ) (f g : ℕ → Bool) → ((p : ℕ) → p < n → g p ≡ f p) → count n g ≡ count n f
unfolding count
count_same zero f g h = refl
count_same (suc n) f g h = rw (h n (omega arith), count_same n f g (λ p l. h p (omega arith))) refl

-- One more passes.
pub count_more :
    (n p : ℕ) (f g : ℕ → Bool)
    → p < n
    → f p ≡ false
    → g p ≡ true
    → ((q : ℕ) → q ≢ p → g q ≡ f q)
    → count n g ≡ count n f + 1
unfolding count
count_more zero p f g l e e' h = absurd (omega arith)
count_more (suc n) p f g l e e' h = elim (Bool-cases (n == p)) [
  | inl q ↦
      let w : n ≡ p = ==→eq n p q in
      rw (w, e, e', count_same p f g (λ r m. h r (ground arith))) (omega arith)
  | inr q ↦ rw (h n (==→ne n p q), count_more n p f g (ground (arith, q)) e e' h) (omega arith)
]

pub count_none : (n : ℕ) (f : ℕ → Bool) → count n f ≡ 0 → (p : ℕ) → p < n → f p ≡ false
unfolding count
count_none zero f z p l = absurd (omega arith)
count_none (suc n) f z p l = elim (Bool-cases (n == p)) [
  | inl q ↦ ground (arith, z, q)
  | inr q ↦ count_none n f (omega (arith, z)) p (ground (arith, q))
]

pub count_empty : (n : ℕ) (f : ℕ → Bool) → ((p : ℕ) → p < n → f p ≡ false) → count n f ≡ 0
unfolding count
count_empty zero f h = refl
count_empty (suc n) f h = rw (h n (omega arith), count_empty n f (λ p l. h p (omega arith))) refl
