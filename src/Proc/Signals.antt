-- ===== src/Proc/Signals.antt =====
-- `kill`, `sleep`, `yield` and the tickets: kernel/proc.c and kernel/sysproc.c of Lab-2 Task 2.2.
use cs344_os_lab.Base.{ℕ, ◌<◌, ◌≡◌, refl, ap, ◌∙◌, ◌≢◌, inl, inr, true, false, arith}
use cs344_os_lab.Base.Tests.{Bool-cases}
use cs344_os_lab.Base.Search.{first_cases, IsFirst, IsFirst-first}
use cs344_os_lab.Base.Lists.{length-set, get_or-set, get_or-set_self, get_or-set_ne}
use cs344_os_lab.Base.Int.{ℤ, pos, lt_int}
use cs344_os_lab.Proc.{
  unused, sleeping, Chan, entry, eq_chan, eq_state, Kernel, nproc, no_proc, is_unused, proc,
  set_proc, sleep, after_sleep, has_pid, hit, kill, setkilled, yield, dispatch, settickets,
}
use cs344_os_lab.Proc.Inv.{is_live, Inv, live-Inv, same-Inv}

module _ {k : Kernel} (inv : Inv k) where
  hit-Inv : (i : ℕ) → i < nproc → Inv (set_proc k i (hit (proc k i)))
  hit-Inv i h = elim (Bool-cases (eq_state (proc k i).state sleeping)) [
    | inl e ↦
        live-Inv inv i h (hit (proc k i)) (ground arith) (ground arith) refl refl
          (λ j lt q z. ground arith)
    | inr e ↦ same-Inv inv i h (hit (proc k i)) (ground arith) refl refl refl refl refl
  ]

  -- `kill` keeps the invariant of the process table, whatever its argument.
  pub kill-Inv : (pid : ℤ) → Inv (kill k pid).1
  unfolding kill
  kill-Inv pid = elim (first_cases (has_pid pid) no_proc k.procs) [
    | inl (e, f) ↦ rw (e, kill) inv
    | inr (i, e, f) ↦ rw (e, kill) (hit-Inv i (omega (arith, f.within, inv.size)))
  ]

  -- `kill(pid)` of a process in the table returns 0, marks it killed, makes it runnable if it sleeps,
  -- and leaves every other entry as it was: no other process is hit.
  pub kill_lem :
      (i : ℕ)
      → i < nproc
      → eq_state (proc k i).state unused ≡ false
      → let out = kill k (pos (proc k i).pid) in
        (out.0 ≡ pos 0)
        × (proc out.1 i ≡ hit (proc k i))
        × ((j : ℕ) → i ≢ j → proc out.1 j ≡ proc k j)
  unfolding kill
  kill_lem i h u = elim (first_cases (has_pid (pos (proc k i).pid)) no_proc k.procs) [
    | inl (e, f) ↦ absurd (ground (arith, f i, inv.size))
    | inr (j, e, f) ↦
        let same : i ≡ j =
          ground (arith, f.within, f.passes, inv.size, inv.unique i j h, inv.named i h u) in
        rw (e, kill)
          (
            refl,
            ground (
              arith,
              f.within,
              get_or-set k.procs j i (hit (proc k j)) no_proc,
              ap (proc k) same,
            ),
            λ l ne. get_or-set_ne k.procs j l (hit (proc k j)) no_proc (λ q. ne (same ∙ q)),
          )
  ]

  pub sleep-Inv :
      (p : ℕ) (c : Chan)
      → p < nproc
      → is_live (proc k p).state ≡ true
      → eq_chan c (entry p) ≡ false
      → Inv (sleep k p c)
  unfolding sleep
  sleep-Inv p c h l e = live-Inv inv p h _ l refl refl refl (λ j lt q z. e)

  pub after_sleep-Inv :
      (p : ℕ) → p < nproc → is_live (proc k p).state ≡ true → Inv (after_sleep k p)
  unfolding after_sleep
  after_sleep-Inv p h l = live-Inv inv p h _ l l refl refl (λ j lt q z. ground arith)

  pub yield-Inv : (p : ℕ) → p < nproc → is_live (proc k p).state ≡ true → Inv (yield k p)
  unfolding yield
  yield-Inv p h l = live-Inv inv p h _ l refl refl refl (λ j lt q z. refl)

  pub dispatch-Inv : (p : ℕ) → p < nproc → is_live (proc k p).state ≡ true → Inv (dispatch k p)
  unfolding dispatch
  dispatch-Inv p h l = live-Inv inv p h _ l refl refl refl (λ j lt q z. refl)

  pub settickets-Inv : (p : ℕ) (n : ℤ) → p < nproc → Inv (settickets k p n).1
  unfolding settickets
  settickets-Inv p n h = elim (Bool-cases (lt_int n (pos 1))) [
    | inl e ↦ rw e inv
    | inr e ↦ rw e (same-Inv inv p h _ refl refl refl refl refl refl)
  ]

  pub setkilled-Inv : (p : ℕ) → p < nproc → Inv (setkilled k p)
  unfolding setkilled
  setkilled-Inv p h = same-Inv inv p h _ refl refl refl refl refl refl

  -- A free entry is the first with process id 0.
  has_pid-IsFirst :
      (i : ℕ) → IsFirst is_unused no_proc k.procs i → IsFirst (has_pid (pos 0)) no_proc k.procs i
  has_pid-IsFirst i f = record {
    within = f.within;
    passes = ground (arith, f.passes, f.within, inv.size, inv.clean i);
    earlier = λ j lt. ground (arith, f.earlier j lt, f.within, inv.size, inv.named j);
  }

  -- `kill(0)` returns 0 and marks the first free entry as killed, though no process has the id 0.
  pub kill_zero :
      (i : ℕ)
      → IsFirst is_unused no_proc k.procs i
      → kill k (pos 0) ≡ (pos 0, set_proc k i (hit (proc k i)))
  unfolding kill
  kill_zero i f =
      rw (IsFirst-first (has_pid (pos 0)) no_proc k.procs i (has_pid-IsFirst i f), kill) refl

  pub kill-IsFirst :
      (i : ℕ)
      → IsFirst is_unused no_proc k.procs i
      → IsFirst is_unused no_proc (kill k (pos 0)).1.procs i
  kill-IsFirst i f = rw (kill_zero i f) (record {
    within = omega (arith, length-set k.procs i (hit (proc k i)), f.within);
    passes =
        rw (get_or-set_self k.procs i (hit (proc k i)) no_proc f.within) (ground (arith, f.passes));
    earlier = λ j lt.
        ground (arith, f.within, get_or-set k.procs i j (hit (proc k i)) no_proc, f.earlier j lt);
  })
