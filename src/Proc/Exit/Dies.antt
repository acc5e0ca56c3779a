-- ===== src/Proc/Exit/Dies.antt =====
-- `exit` of kernel/proc.c (Lab-2 Task 2.2).
use cs344_os_lab.Base.{
  ℕ, ◌<◌, ◌≡◌, refl, sym, ap, ◌∙◌, subst, ◌≢◌, inl, inr, true, false, some, arith,
}
use cs344_os_lab.Base.Tests.{◌==◌, ==_ne, ==→eq, Bool-cases}
use cs344_os_lab.Base.Lists.{get_or-set, get_or-set_self}
use cs344_os_lab.Base.Int.{ℤ}
use cs344_os_lab.Proc.{
  unused, zombie, eq_state, Proc, Kernel, nproc, no_proc, proc, set_proc, wake, wakeup,
}
use cs344_os_lab.Proc.Inv.{is_live, Inv, Fits, set_proc-Inv}
use cs344_os_lab.Proc.Kept.{wakeup-Inv, proc-wakeup, initproc-wakeup}
use cs344_os_lab.Proc.Exit.{reparent, parent_chan, exit}
use cs344_os_lab.Proc.Exit.Orphans.{Moved, reparent-Swept}

module _ {k : Kernel} (inv : Inv k) (p : ℕ) (h : p < nproc) (live : is_live (proc k p).state ≡ true)
    (ne : p ≢ k.initproc) (status : ℤ) where
  abbrev k₁ : Kernel
  k₁ = reparent k p

  abbrev k₂ : Kernel
  k₂ = wakeup k₁ p (parent_chan (proc k₁ p).parent)

  abbrev dead : Proc
  dead = record (proc k₂ p) { xstate = status; state = zombie }

  inv₁ : Inv k₁
  inv₁ = (reparent-Swept k p inv ne).0

  inv₂ : Inv k₂
  inv₂ = wakeup-Inv inv₁ p (parent_chan (proc k₁ p).parent)

  init₂ : k₂.initproc ≡ k.initproc
  init₂ = initproc-wakeup k₁ p (parent_chan (proc k₁ p).parent) ∙ (reparent-Swept k p inv ne).1

  moved : (j : ℕ) → j < nproc → Moved true p k.initproc (proc k j) (proc k₁ j)
  moved = (reparent-Swept k p inv ne).2

  read₂ : (j : ℕ) → j < nproc → proc k₂ j ≡ wake p (parent_chan (proc k₁ p).parent) j (proc k₁ j)
  read₂ j lt = proc-wakeup inv₁ p (parent_chan (proc k₁ p).parent) j lt

  childless : (j : ℕ) → j < nproc → (proc k₂ j).parent ≢ some p
  childless j lt e = ground (arith, ne, e, read₂ j lt, (moved j lt).same)

  still_named : eq_state (proc k₂ p).state unused ≡ false
  still_named = ground (arith, live, read₂ p h, (moved p h).same, (moved p h).state)

  dead-Fits : Fits k₂ p dead
  dead-Fits = record {
    clean = λ u. ground arith;
    pid = inl refl;
    named = λ u. inv₂.named p h still_named;
    root = λ e. absurd (ne (e ∙ init₂));
    parent_live = λ j lt e. absurd (childless j lt e);
    parent = λ j e. inv₂.alive p j h e;
    dead = λ j e z. ground (arith, e, read₂ p h, read₂ j, inv₁.alive p j h);
    patient = λ j lt e z. absurd (childless j lt e);
  }

  done : exit k p status ≡ some (set_proc k₂ p dead)
  unfolding exit
  done = rw (==_ne p k.initproc ne) refl

  exit-Inv : (k' : Kernel) → exit k p status ≡ some k' → Inv k'
  exit-Inv k' e = subst Inv (ground (arith, done)) (set_proc-Inv inv₂ p h dead dead-Fits)

  -- What `exit` leaves of the process.
  abbrev pub Died : Kernel → Type 0
  Died k' =
      ((proc k' p).state ≡ zombie)
      × ((proc k' p).xstate ≡ status)
      × ((proc k' p).pid ≡ (proc k p).pid)
      × ((proc k' p).parent ≡ (proc k p).parent)
      × ((j : ℕ) → j < nproc → (proc k' j).parent ≢ some p)
      × ((j : ℕ) → j < nproc → (proc k j).parent ≡ some p → (proc k' j).parent ≡ some k.initproc)
      × ((j : ℕ) → j < nproc → (proc k j).parent ≢ some p → (proc k' j).parent ≡ (proc k j).parent)

  own_parent : (proc k p).parent ≢ some p
  own_parent e = (inv.alive p p h e).1 refl

  kept_parent : (j : ℕ) → j < nproc → (proc (set_proc k₂ p dead) j).parent ≡ (proc k₂ j).parent
  kept_parent j lt = elim (Bool-cases (p == j)) [
    | inl e ↦
        rw (get_or-set k₂.procs p j dead no_proc (ground (arith, inv₂.size)), e)
          (ap (λ i. (proc k₂ i).parent) (==→eq p j e))
    | inr e ↦ rw (get_or-set k₂.procs p j dead no_proc (ground (arith, inv₂.size)), e) refl
  ]

  died : Died (set_proc k₂ p dead)
  died = rw (get_or-set_self k₂.procs p dead no_proc (ground (arith, inv₂.size))) (
    refl,
    refl,
    ground (arith, read₂ p h, (moved p h).same),
    ground (arith, read₂ p h, (moved p h).same, own_parent),
    λ j lt e. childless j lt (sym (kept_parent j lt) ∙ e),
    λ j lt e. kept_parent j lt ∙ ground (arith, e, read₂ j lt, (moved j lt).same),
    λ j lt e. kept_parent j lt ∙ ground (arith, e, read₂ j lt, (moved j lt).same),
  )

  -- `exit` of a live process other than the init process does not panic. It keeps the invariant of
  -- the table, so no parent sleeps in `wait` over the new dead child, and leaves a zombie with the
  -- status, its process id and its parent. Its children have the init process as their parent, every
  -- other process keeps the parent that it had, and no process has the dead one as its parent.
  pub exit-Died : (k' : Kernel) × (exit k p status ≡ some k') × Inv k' × Died k'
  exit-Died = (_, done, exit-Inv _ done, died)
