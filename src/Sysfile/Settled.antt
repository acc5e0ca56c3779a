-- ===== src/Sysfile/Settled.antt =====
-- Counts inside a transaction of a system call (Lab-5 Task 5.2, kernel/sysfile.c).
use cs344_os_lab.Base.{ℕ, ◌+◌, ◌≡◌, Option, some, none, List, [], ◌∷◌, arith}
use cs344_os_lab.Base.Bags.{times}
use cs344_os_lab.Base.Int.{ℤ}
use cs344_os_lab.Base.Partial.{On, returns, map-On}
use cs344_os_lab.Sysfile.Calls.{
  FileSystem, Accounts, Sum, Change, nil, one_op, found, Effect, iunlockput, iunlockput-Effect,
  end_op-Effect,
}

module _ {S : Type 0} (fs : FileSystem S) (laws : Accounts fs) where
  -- What a call gives to the counts, before its result is known.
  abbrev pub Gains : Sum → Change → S → Type 0
  Gains a gain s = Effect a (laws.sum s) nil gain

  -- A system call that has given back everything, whatever it returns.
  abbrev pub Settled : Sum → ℤ × S → Type 0
  Settled a x = Gains a nil x.1

  -- In a transaction, with references to the inodes `rs` and the locks of the inodes `ls`.
  abbrev pub holding : List ℕ → List ℕ → Change
  holding rs ls = record one_op { refs = rs; locks = ls }

  module _ (a : Sum) where
    pub ended : (r : ℤ) (s : S) → Gains a (holding [] []) s → On (Settled a) (some (r, fs.end_op s))
    ended r s h = returns (r, fs.end_op s) (end_op-Effect fs laws a s [] [] h)

    -- The gain that is left after a step.
    pub after :
        (s t : S) (gain loss won left : Change)
        → Gains a gain s
        → Effect (laws.sum s) (laws.sum t) loss won
        → ((j : ℕ) → times gain.refs j + times won.refs j ≡ times left.refs j + times loss.refs j)
        → ((j : ℕ)
            → times gain.locks j + times won.locks j ≡ times left.locks j + times loss.locks j)
        → gain.ops + won.ops ≡ left.ops + loss.ops
        → ((j : ℕ)
            → times gain.files j + times won.files j ≡ times left.files j + times loss.files j)
        → Gains a left t
    after s t gain loss won left h e r l o f = record {
      by_refs = λ j. omega (arith, h.by_refs j, e.by_refs j, r j);
      by_locks = λ j. omega (arith, h.by_locks j, e.by_locks j, l j);
      by_ops = omega (arith, h.by_ops, e.by_ops, o);
      by_files = λ j. omega (arith, h.by_files j, e.by_files j, f j);
    }

    pub put_back :
        (i : ℕ) (rs ls : List ℕ) (s : S)
        → Gains a (holding (i ∷ rs) (i ∷ ls)) s
        → On (Gains a (holding rs ls)) (iunlockput fs i s)
    put_back i rs ls s h = map-On (iunlockput fs i s) (iunlockput-Effect fs laws i s) (λ t e.
        after s t _ _ _ _ h e (λ j. omega arith) (λ j. omega arith) (omega arith)
          (λ j. omega arith))

    pub locked :
        (i : ℕ) (rs ls : List ℕ) (s : S)
        → Gains a (holding rs ls) s
        → On (Gains a (holding rs (i ∷ ls))) (fs.ilock i s)
    locked i rs ls s h = map-On (fs.ilock i s) (laws.ilock i s) (λ t e.
        after s t _ _ _ _ h e (λ j. omega arith) (λ j. omega arith) (omega arith)
          (λ j. omega arith))

    pub same :
        (rs ls : List ℕ) (s t : S)
        → Gains a (holding rs ls) s
        → Effect (laws.sum s) (laws.sum t) nil nil
        → Gains a (holding rs ls) t
    same rs ls s t h e =
        after s t _ _ _ _ h e (λ j. omega arith) (λ j. omega arith) (omega arith) (λ j. omega arith)

    pub counted :
        (i k : ℕ) (rs ls : List ℕ) (s : S)
        → Gains a (holding rs ls) s
        → Gains a (holding rs ls) (fs.iupdate i (fs.set_nlink i k s))
    counted i k rs ls s h =
        same rs ls _ _ (same rs ls s _ h (laws.set_nlink i k s))
          (laws.iupdate i (fs.set_nlink i k s))

    pub began : (s : S) → a ≡ laws.sum s → On (Gains a (holding [] [])) (fs.begin_op s)
    began s e = rw e (laws.begin_op s)

    pub unlocked :
        (i : ℕ) (rs ls : List ℕ) (s : S)
        → Gains a (holding rs (i ∷ ls)) s
        → On (Gains a (holding rs ls)) (fs.iunlock i s)
    unlocked i rs ls s h = map-On (fs.iunlock i s) (laws.iunlock i s) (λ t e.
        after s t _ _ _ _ h e (λ j. omega arith) (λ j. omega arith) (omega arith)
          (λ j. omega arith))

    pub put :
        (i : ℕ) (rs ls : List ℕ) (s : S)
        → Gains a (holding (i ∷ rs) ls) s
        → On (Gains a (holding rs ls)) (fs.iput i s)
    put i rs ls s h = map-On (fs.iput i s) (laws.iput i s) (λ t e.
        after s t _ _ _ _ h e (λ j. omega arith) (λ j. omega arith) (omega arith)
          (λ j. omega arith))

    -- The first two references, in either order, and likewise the locks.
    pub swap_refs :
        (i k : ℕ) (ls : List ℕ) (s : S)
        → Gains a (holding (i ∷ k ∷ []) ls) s
        → Gains a (holding (k ∷ i ∷ []) ls) s
    swap_refs i k ls s h = record {
      by_refs = λ j. omega (arith, h.by_refs j);
      by_locks = h.by_locks;
      by_ops = h.by_ops;
      by_files = h.by_files;
    }

    pub swap_locks :
        (rs : List ℕ) (i k : ℕ) (s : S)
        → Gains a (holding rs (i ∷ k ∷ [])) s
        → Gains a (holding rs (k ∷ i ∷ [])) s
    swap_locks rs i k s h = record {
      by_refs = h.by_refs;
      by_locks = λ j. omega (arith, h.by_locks j);
      by_ops = h.by_ops;
      by_files = h.by_files;
    }

    -- A lookup: one more reference when it finds something.
    abbrev pub Looked {ℓ} : {A : Type ℓ} → (A → ℕ) → List ℕ → List ℕ → Option A × S → Type 0
    Looked key rs ls (none, s) = Gains a (holding rs ls) s
    Looked key rs ls (some x, s) = Gains a (holding (key x ∷ rs) ls) s

    pub looked {ℓ} :
        {A : Type ℓ} (key : A → ℕ) (rs ls : List ℕ) (s : S) (r : Option (Option A × S))
        → Gains a (holding rs ls) s
        → On (λ x. Effect (laws.sum s) (laws.sum x.1) nil (found key x.0)) r
        → On (Looked key rs ls) r
    looked {A = A} key rs ls s r h e = map-On r e (λ x f. of x f)
      where
        of :
            (x : Option A × S)
            → Effect (laws.sum s) (laws.sum x.1) nil (found key x.0)
            → Looked key rs ls x
        of (none, t) f = same rs ls s t h f
        of (some y, t) f =
            after s t _ _ _ _ h f (λ j. omega arith) (λ j. omega arith) (omega arith)
              (λ j. omega arith)
