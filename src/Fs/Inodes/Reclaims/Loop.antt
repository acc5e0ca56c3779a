-- ===== src/Fs/Inodes/Reclaims/Loop.antt =====
-- The loop of `ireclaim` of Lab-5 Task 5.1, kernel/fs.c.
use cs344_os_lab.Base.{
  ℕ, zero, suc, ◌+◌, ◌-◌, ◌<◌, ◌≤◌, ◌≡◌, ◌≢◌, refl, sym, ap, ◌∙◌, subst, true, false, some, ◌⊎◌,
  inl, inr, arith,
}
use mathlib.Core.Bool.{false≢true}
use cs344_os_lab.Base.Tests.{Bool-cases, if◌then◌else◌, ◌==◌, ==→eq}
use cs344_os_lab.Fs.Inodes.{Fsys, is_orphan, reclaim, reclaim_from, ireclaim}
use cs344_os_lab.Fs.Inodes.Reclaims.{Sound, Idle, reclaim_at, Reclaimed}
use cs344_os_lab.Fs.Inodes.Reclaims.Step.{iput-Reclaimed}

module _ (size ninodes dev : ℕ) (f : Fsys) (sound : Sound size ninodes f.disk) where
  skipped :
      (n : ℕ) (g : Fsys)
      → Reclaimed f ninodes n g
      → is_orphan (f.disk.dinodes n) ≡ false
      → Reclaimed f ninodes (n + 1) g
  skipped n g r h = record {
    idle = r.idle;
    boot = r.boot;
    bytes = r.bytes;
    done = λ k w l o. r.done k w (before k l o) o;
    freed = λ k w l o. r.freed k w (before k l o) o;
    kept = λ k q. r.kept k (later k q);
    used = λ k w q. r.used k w (later k q);
  }
    where
      before : (k : ℕ) → k < n + 1 → is_orphan (f.disk.dinodes k) ≡ true → k < n
      before k l o = elim (Bool-cases (k == n)) [
        | inl e ↦
            absurd
              (false≢true (sym h ∙ ap (λ j. is_orphan (f.disk.dinodes j)) (sym (==→eq k n e)) ∙ o))
        | inr e ↦ ground (arith, l, e)
      ]

      later :
          (k : ℕ)
          → (n + 1 ≤ k) ⊎ (is_orphan (f.disk.dinodes k) ≡ false)
          → (n ≤ k) ⊎ (is_orphan (f.disk.dinodes k) ≡ false)
      later k (inl q) = inl (omega arith)
      later k (inr q) = inr q

  round :
      (n : ℕ) (g : Fsys)
      → 0 < n
      → n < ninodes
      → Reclaimed f ninodes n g
      → (g' : Fsys) × ((if is_orphan (g.disk.dinodes n) then reclaim dev n g else some g) ≡ some g')
        × Reclaimed f ninodes (n + 1) g'
  round n g pos_n below r =
      rw (r.kept n (inl (omega arith))) (elim (Bool-cases (is_orphan (f.disk.dinodes n))) [
        | inr h ↦ rw h (g, refl, skipped n g r h)
        | inl h ↦
            let nz : (f.disk.dinodes n).type ≢ 0 = λ z. ground (arith, h, z) in
            let a =
              reclaim_at dev n g r.idle
                (λ z. nz (sym (ap (λ e. e.type) (r.kept n (inl (omega arith)))) ∙ z)) in
            let b = iput-Reclaimed size ninodes dev f sound n g r (pos_n, below, nz) h a.0 a.1 in
            rw h (b.0, a.2 ∙ b.1, b.2)
      ])

  rounds :
      (m n : ℕ) (g : Fsys)
      → 0 < n
      → n + m ≤ ninodes
      → Reclaimed f ninodes n g
      → (g' : Fsys) × (reclaim_from dev m n g ≡ some g') × Reclaimed f ninodes (n + m) g'
  unfolding reclaim_from
  rounds zero n g l h r = (g, refl, subst (λ k. Reclaimed f ninodes k g) (omega arith) r)
  rounds (suc m) n g l h r =
      let a = round n g l (omega arith) r in
      let b = rounds m (n + 1) a.0 (omega arith) (omega arith) a.2 in
      rw a.1 (b.0, b.1, subst (λ k. Reclaimed f ninodes k b.0) (omega arith) b.2)

  -- On a disk where the blocks of the inodes in use are marked and different from one another, and
  -- with a table in which no entry is used or locked, `ireclaim` returns. Then every inode below
  -- `ninodes` that was in use without links is free on the disk, and the blocks that it named are
  -- free. Every other inode is as it was, with its blocks still marked; the bytes of no block have
  -- changed, and no entry of the table is used.
  pub ireclaim-Reclaimed :
      1 ≤ ninodes
      → f.disk.bitmap 0 ≡ true
      → Idle f
      → (g : Fsys) × (ireclaim ninodes dev f ≡ some g) × Reclaimed f ninodes ninodes g
  unfolding ireclaim
  ireclaim-Reclaimed l b d =
      let r = rounds (ninodes - 1) 1 f (omega arith) (omega arith) start in
      (r.0, r.1, subst (λ k. Reclaimed f ninodes k r.0) (omega arith) r.2)
    where
      start : Reclaimed f ninodes 1 f
      start = record {
        idle = d;
        boot = b;
        bytes = refl;
        done = λ k w h o. absurd (omega (arith, w.0));
        freed = λ k w h o s m nz. absurd (omega (arith, w.0));
        kept = λ k h. refl;
        used = λ k w h s m nz. (sound.each k w).used s m nz;
      }
