-- ===== src/Proc/Exit.antt =====
-- Exit and wait: Lab-2 Task 2.2, kernel/proc.c.
pub mod Orphans
pub mod Dies
pub mod Waits
use cs344_os_lab.Base.{ℕ, zero, suc, ◌+◌, Bool, true, false, not, ◌&&◌, Option, none, some}
use cs344_os_lab.Base.Tests.{◌==◌, if◌then◌else◌}
use cs344_os_lab.Base.Search.{first}
use cs344_os_lab.Base.Int.{ℤ, pos, minus_one}
use cs344_os_lab.Proc.{
  Proc, Kernel, Chan, nothing, entry, nproc, zombie, eq_state, proc, set_proc, freeproc, wakeup,
  sleep,
}

abbrev pub eq_parent : Option ℕ → ℕ → Bool
eq_parent none p = false
eq_parent (some q) p = q == p

-- the loop body of `reparent(p)`, run by `p` itself
pub adopt : ℕ → ℕ → Kernel → Kernel
adopt p i k =
    if eq_parent (proc k i).parent p
    then wakeup (set_proc k i (record (proc k i) { parent = some k.initproc })) p (entry k.initproc)
    else k

-- `n` rounds of the loop from index `i` on
pub reparent_from : ℕ → ℕ → ℕ → Kernel → Kernel
reparent_from zero i p k = k
reparent_from (suc n) i p k = reparent_from n (i + 1) p (adopt p i k)

pub reparent : Kernel → ℕ → Kernel
unfolding reparent_from
reparent k p = reparent_from nproc 0 p k

-- `wakeup(p->parent)`; without a parent the channel is 0
abbrev pub parent_chan : Option ℕ → Chan
parent_chan none = nothing
parent_chan (some q) = entry q

-- `exit(status)` of `p` up to `sched()`; `none` is the panic of the init process. Closing the files
-- and dropping the directory are left out.
pub exit : Kernel → ℕ → ℤ → Option Kernel
exit k p status =
    if p == k.initproc
    then none
    else let k₁ = reparent k p in
      let k₂ = wakeup k₁ p (parent_chan (proc k₁ p).parent) in
      some (set_proc k₂ p (record (proc k₂ p) { xstate = status; state = zombie }))

abbrev pub is_child : ℕ → Proc → Bool
is_child p q = eq_parent q.parent p

abbrev pub is_dead_child : ℕ → Proc → Bool
is_dead_child p q = eq_parent q.parent p && eq_state q.state zombie

-- How a round of the loop of `wait` ends: with a result, or in `sleep(p, &wait_lock)`.
pub data Waited : Type 0 where
  returns : ℤ → Kernel → Waited
  sleeps : Kernel → Waited

-- `copied` says that `addr` is 0 or that `copyout` succeeds.
pub reap : Kernel → ℕ → Bool → Waited
reap k i copied =
    if not copied
    then returns minus_one k
    else returns (pos (proc k i).pid) (set_proc k i (freeproc (proc k i)))

-- One round of `wait`: the scan for the first dead child, then the test for any child at all.
pub wait : Kernel → ℕ → Bool → Waited
unfolding first
wait k p copied = elim (first (is_dead_child p) k.procs) [
  | some i ↦ reap k i copied
  | none ↦ elim (first (is_child p) k.procs) [
    | none ↦ returns minus_one k
    | some _ ↦ if (proc k p).killed then returns minus_one k else sleeps (sleep k p (entry p))
  ]
]
