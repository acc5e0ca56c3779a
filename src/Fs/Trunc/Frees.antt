-- ===== src/Fs/Trunc/Frees.antt =====
-- `itrunc` of Lab-5 Task 5.1, kernel/fs.c, frees the blocks of an inode one slot after another.
use cs344_os_lab.Base.{
  ℕ, ◌+◌, ◌<◌, ◌≤◌, ◌≡◌, ◌≢◌, refl, ap, ◌∙◌, subst, Option, some, true, false, inl, inr, arith,
}
use native.Mathlib.Decide.{dec_le}
use cs344_os_lab.Base.Tests.{Bool-cases, ◌==◌, ==→eq, ==→ne}
use cs344_os_lab.Fs.{Disk, Open, bfree}
use cs344_os_lab.Fs.Blocks.{upd_same, upd_ne}
use cs344_os_lab.Fs.Slots.{Slot, Legal, value, Inv}
use cs344_os_lab.Fs.Trunc.{free_if}
use cs344_os_lab.Fs.Trunc.Ranks.{rank, rank_injective}

-- The blocks of the slots up to rank `n` are free again, and nothing else has changed.
pub record Freed (o : Open) (n : ℕ) (d : Disk) : Type 0 where
  pub bytes : d.bytes ≡ o.disk.bytes
  pub dinodes : d.dinodes ≡ o.disk.dinodes
  pub gone : (t : Slot) → Legal t → value o t ≢ 0 → rank t < n → d.bitmap (value o t) ≡ false
  pub still : (t : Slot) → Legal t → value o t ≢ 0 → n ≤ rank t → d.bitmap (value o t) ≡ true
  pub others :
      (b : ℕ)
      → ((t : Slot) → Legal t → value o t ≢ 0 → b ≢ value o t)
      → d.bitmap b ≡ o.disk.bitmap b

pub record Ends (o : Open) (n : ℕ) (r : Option Disk) : Type 0 where
  pub disk : Disk
  pub is : r ≡ some disk
  pub freed : Freed o n disk

module _ {o : Open} {m n : ℕ} (e : m ≡ n) where
  pub Freed-at : {d : Disk} → Freed o m d → Freed o n d
  Freed-at {d} f = subst (λ k. Freed o k d) e f

  pub Ends-at : {r : Option Disk} → Ends o m r → Ends o n r
  Ends-at {r} f = subst (λ k. Ends o k r) e f

module _ (size : ℕ) (o : Open) (v : Inv size o) where
  pub starts-Freed : Freed o 0 o.disk
  starts-Freed = record {
    bytes = refl;
    dinodes = refl;
    gone = λ t l nz m. absurd (omega arith);
    still = λ t l nz m. v.used t l nz;
    others = λ b n. refl;
  }

  -- An empty slot is passed over.
  pub passes-Freed :
      (s : Slot) (d : Disk) → Legal s → value o s ≡ 0 → Freed o (rank s) d → Freed o (rank s + 1) d
  passes-Freed s d l z f = record {
    bytes = f.bytes;
    dinodes = f.dinodes;
    gone = λ t m nz u. elim (dec_le (rank s) (rank t)) [
      | yes g ↦ absurd (nz (ap (value o) (rank_injective t s m l (omega arith)) ∙ z))
      | no ¬g ↦ f.gone t m nz (omega arith)
    ];
    still = λ t m nz u. f.still t m nz (omega arith);
    others = f.others;
  }

  pub bfree-Freed :
      (s : Slot) (d : Disk)
      → Legal s
      → value o s ≢ 0
      → Freed o (rank s) d
      → Ends o (rank s + 1) (bfree (value o s) d)
  unfolding bfree
  bfree-Freed s d l nz f = rw (f.still s l nz (omega arith)) (record {
    disk = _;
    is = refl;
    freed = record {
      bytes = f.bytes;
      dinodes = f.dinodes;
      gone = λ t m y u. elim (dec_le (rank s) (rank t)) [
        | yes g ↦ rw (rank_injective t s m l (omega arith)) (upd_same d.bitmap (value o s) false)
        | no ¬g ↦
            upd_ne d.bitmap (value o s) false (value o t)
              (λ e. ¬g (rw (v.apart t s m l y e) (omega arith)))
            ∙ f.gone t m y (omega arith)
      ];
      still = λ t m y u.
          upd_ne d.bitmap (value o s) false (value o t)
            (λ e. absurd (earlier t (rank s) (ap rank (v.apart t s m l y e)) u))
          ∙ f.still t m y (omega arith);
      others = λ b n. upd_ne d.bitmap (value o s) false b (n s l nz) ∙ f.others b n;
    };
  })
    where
      earlier : (t : Slot) (k : ℕ) → rank t ≡ k → ¬ (k + 1 ≤ rank t)
      earlier t k e u = omega arith

  pub free_if-Freed :
      (s : Slot) (d : Disk)
      → Legal s
      → Freed o (rank s) d
      → Ends o (rank s + 1) (free_if (value o s) d)
  unfolding free_if
  free_if-Freed s d l f = elim (Bool-cases (value o s == 0)) [
    | inl z ↦ rw z (record { disk = d; is = refl; freed = passes-Freed s d l (==→eq _ 0 z) f })
    | inr z ↦ rw z (bfree-Freed s d l (==→ne _ 0 z) f)
  ]
