-- ===== src/Proc/BornKilled.antt =====
-- `kill(0)` and the next `fork`: kernel/proc.c of Lab-2 Task 2.2 (and of every other task).
use cs344_os_lab.Base.{ℕ, ◌<◌, ◌≡◌, refl, sym, ap, ◌∙◌, subst, ◌≢◌, true, some, arith}
use cs344_os_lab.Base.Search.{IsFirst, IsFirst-first}
use cs344_os_lab.Base.Lists.{get_or-set_self, get_or-set_ne}
use cs344_os_lab.Base.Int.{pos}
use cs344_os_lab.Proc.{runnable, Kernel, nproc, no_proc, proc, Memory, is_unused, fork, hit, kill}
use cs344_os_lab.Proc.Inv.{is_live, Inv}
use cs344_os_lab.Proc.Fork.{Forks, fails, makes, child_of, fork-Forks}
use cs344_os_lab.Proc.Signals.{kill-Inv, kill_zero, kill-IsFirst}

module _ {k : Kernel} (inv : Inv k) (m : Memory) (p i : ℕ) (hp : p < nproc)
    (live : is_live (proc k p).state ≡ true) (free : IsFirst is_unused no_proc k.procs i) where
  other : i ≢ p
  other e = ground (arith, live, free.passes, ap (proc k) e)

  live_after : is_live (proc (kill k (pos 0)).1 p).state ≡ true
  live_after =
      rw (kill_zero inv i free, get_or-set_ne k.procs i p (hit (proc k i)) no_proc other) live

  marked : (proc (kill k (pos 0)).1 i).killed ≡ true
  marked =
      rw (kill_zero inv i free, get_or-set_self k.procs i (hit (proc k i)) no_proc free.within) refl

  -- After `kill(0)` the next `fork` that succeeds makes a child that is already marked as killed:
  -- `kill` takes a free entry for a process with the id 0, and `allocproc` does not clear the mark.
  pub kill_zero-fork :
      (n : ℕ)
      → (fork (kill k (pos 0)).1 m p).0 ≡ pos n
      → let child = proc (fork (kill k (pos 0)).1 m p).1 i in
        (child.pid ≡ n) × (child.state ≡ runnable) × (child.parent ≡ some p) × (child.killed ≡ true)
  kill_zero-fork n e = go (fork-Forks (kill-Inv inv (pos 0)) p hp live_after m)
    where
      go :
          Forks (kill k (pos 0)).1 p (fork (kill k (pos 0)).1 m p)
          → let child = proc (fork (kill k (pos 0)).1 m p).1 i in
            (child.pid ≡ n)
            × (child.state ≡ runnable)
            × (child.parent ≡ some p)
            × (child.killed ≡ true)
      go (fails r _) = absurd (ground arith)
      go (makes j lt first_free r c o) =
          let same : j ≡ i = ground (
            arith,
            IsFirst-first is_unused no_proc (kill k (pos 0)).1.procs j first_free,
            IsFirst-first is_unused no_proc (kill k (pos 0)).1.procs i (kill-IsFirst inv i free),
          ) in
          let child =
            subst
              (λ z.
                proc (fork (kill k (pos 0)).1 m p).1 z
                ≡ child_of (kill k (pos 0)).1 p (proc (kill k (pos 0)).1 z))
              same c in
          rw child (ground (arith, sym r ∙ e), refl, refl, marked)
