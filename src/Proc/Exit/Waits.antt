-- ===== src/Proc/Exit/Waits.antt =====
-- `wait` of kernel/proc.c (Lab-2 Task 2.2).
use cs344_os_lab.Base.{ℕ, ◌<◌, ◌≡◌, refl, ap, ◌≢◌, inl, inr, Bool, true, false, some, arith}
use cs344_os_lab.Base.Tests.{Bool-cases}
use cs344_os_lab.Base.Search.{first_cases, IsFirst, NonePasses}
use cs344_os_lab.Base.Int.{pos, minus_one}
use cs344_os_lab.Proc.{
  zombie, entry, eq_state, Kernel, nproc, no_proc, proc, set_proc, freeproc, sleep,
}
use cs344_os_lab.Proc.Inv.{is_live, Inv, live-Inv}
use cs344_os_lab.Proc.Kept.{freed-Inv}
use cs344_os_lab.Proc.Exit.{is_child, is_dead_child, Waited, returns, sleeps, reap, wait}

-- No process is a child of `p`; no dead process is.
abbrev pub Childless : Kernel → ℕ → Type 0
Childless k p = (j : ℕ) → j < nproc → (proc k j).parent ≢ some p

abbrev pub NoneDead : Kernel → ℕ → Type 0
NoneDead k p =
    (j : ℕ) → j < nproc → (proc k j).parent ≡ some p → eq_state (proc k j).state zombie ≡ false

-- How a round of `wait` by `p` may end.
pub data WaitsFor (k : Kernel) (p : ℕ) (copied : Bool) : Waited → Type 0 where
  -- a dead child is freed, and its process id returned
  reaps :
      (i : ℕ)
      → i < nproc
      → (proc k i).parent ≡ some p
      → eq_state (proc k i).state zombie ≡ true
      → copied ≡ true
      → WaitsFor k p copied (returns (pos (proc k i).pid) (set_proc k i (freeproc (proc k i))))
  -- its status cannot be copied out: it stays a zombie
  uncopied :
      (i : ℕ)
      → (proc k i).parent ≡ some p
      → eq_state (proc k i).state zombie ≡ true
      → copied ≡ false
      → WaitsFor k p copied (returns minus_one k)
  childless : Childless k p → WaitsFor k p copied (returns minus_one k)
  killed : NoneDead k p → (proc k p).killed ≡ true → WaitsFor k p copied (returns minus_one k)
  -- a child lives
  blocks :
      (i : ℕ)
      → (proc k i).parent ≡ some p
      → NoneDead k p
      → (proc k p).killed ≡ false
      → WaitsFor k p copied (sleeps (sleep k p (entry p)))

module _ {k : Kernel} (inv : Inv k) (p : ℕ) where
  reap-WaitsFor :
      (copied : Bool) (i : ℕ)
      → IsFirst (is_dead_child p) no_proc k.procs i
      → WaitsFor k p copied (reap k i copied)
  unfolding reap
  reap-WaitsFor true i f =
      reaps i (omega (arith, f.within, inv.size)) (ground (arith, f.passes))
        (ground (arith, f.passes)) refl
  reap-WaitsFor false i f = uncopied i (ground (arith, f.passes)) (ground (arith, f.passes)) refl

  none_dead : NonePasses (is_dead_child p) no_proc k.procs → NoneDead k p
  none_dead f j lt e = ground (arith, f j, inv.size)

  -- A round of `wait` with a dead child frees one and returns its process id, or, when its status
  -- cannot be copied out, returns -1 and leaves it a zombie. Without a dead child it fails when there
  -- are no children or when the caller is killed, and otherwise sleeps on the caller's own entry.
  pub wait-WaitsFor : (copied : Bool) → WaitsFor k p copied (wait k p copied)
  unfolding wait
  wait-WaitsFor copied = elim (first_cases (is_dead_child p) no_proc k.procs) [
    | inr (i, e, f) ↦ rw (e, wait) (reap-WaitsFor copied i f)
    | inl (e, f) ↦ elim (first_cases (is_child p) no_proc k.procs) [
      | inl (e', g) ↦ rw (e, e', wait) (childless λ j lt q. ground (arith, g j, inv.size))
      | inr (i, e', g) ↦
          rw (e, e', wait)
            (elim (Bool-cases (proc k p).killed) [
              | inl q ↦ rw q (killed (none_dead f) q)
              | inr q ↦ rw q (blocks i (ground (arith, g.passes)) (none_dead f) q)
            ])
    ]
  ]

abbrev pub state_of : Waited → Kernel
state_of (returns r k) = k
state_of (sleeps k) = k

module _ {k : Kernel} (inv : Inv k) (p : ℕ) (h : p < nproc)
    (live : is_live (proc k p).state ≡ true) where
  WaitsFor-Inv : (copied : Bool) (w : Waited) → WaitsFor k p copied w → Inv (state_of w)
  WaitsFor-Inv copied w (reaps i lt e z c) =
      freed-Inv inv i lt (proc k i) (λ q. ground (arith, z, inv.root, ap (proc k) q))
        (λ j jlt q. ground (arith, z, inv.alive j i jlt q))
  WaitsFor-Inv copied w (uncopied i e z c) = inv
  WaitsFor-Inv copied w (childless f) = inv
  WaitsFor-Inv copied w (killed f e) = inv
  WaitsFor-Inv copied w (blocks i e f q) =
      unfold sleep in
      live-Inv inv p h _ live refl refl refl (λ j lt par z. ground (arith, f j lt par))

  -- Every round of `wait` keeps the invariant of the table.
  pub wait-Inv : (copied : Bool) → Inv (state_of (wait k p copied))
  wait-Inv copied = WaitsFor-Inv copied (wait k p copied) (wait-WaitsFor inv p copied)
