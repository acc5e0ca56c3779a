-- ===== src/Wrr/Quantum.antt =====
-- How long a process runs under kernel/trap.c (Lab-2 Task 2.1).
use cs344_os_lab.Base.{ℕ, zero, suc, ◌+◌, ◌-◌, ◌<◌, ◌≤◌, ◌≡◌, refl, true, arith, inl, inr, ◌⊎◌}
use cs344_os_lab.Base.Tests.{ltb, leb, ltb→lt, ltb_ge, Bool-cases, if◌then◌else◌}
use cs344_os_lab.Base.Int.{ℤ, pos, negsuc, minus_one}
use cs344_os_lab.Proc.{runnable, running}
use cs344_os_lab.Wrr.{Task, setpriority, schedule, timer}

-- The priority is in the range that `setpriority` accepts.
pub record InRange (max : ℕ) (t : Task) : Type 0 where
  pub low : 1 ≤ t.priority
  pub high : t.priority ≤ max
  pub counted : t.ticks ≤ t.priority

-- `n` timer interrupts that `t` sits through; it stops at the first that makes it yield. The number
-- is of those that did not.
pub sits_through : ℕ → Task → ℕ × Task
sits_through zero t = (0, t)
sits_through (suc n) t =
    let rest = sits_through n (timer t).0 in
    if (timer t).1 then (0, (timer t).0) else (rest.0 + 1, rest.1)

-- A running process with `ticks` below its priority sits through all interrupts but the last of
-- the `priority - ticks` that are left, and yields at that one, with its counter at 0.
pub sits_through_lem :
    (n : ℕ) (t : Task)
    → t.state ≡ running
    → t.ticks < t.priority
    → t.priority ≤ t.ticks + n
    → ((sits_through n t).0 + 1 ≡ t.priority - t.ticks)
      × ((sits_through n t).1 ≡ record t { state = runnable; ticks = 0 })
unfolding sits_through timer
sits_through_lem zero t r lt le = absurd (omega arith)
sits_through_lem (suc n) t r lt le = elim (Bool-cases (leb t.priority (t.ticks + 1))) [
  | inl e ↦ rw (r, e) (ground (arith, e), ground (arith, r))
  | inr e ↦
      rw (r, e)
        (ground (
          arith,
          e,
          sits_through_lem n (record t { state = running; ticks = t.ticks + 1 }) refl
              (ground (arith, e)) (omega arith),
        ))
]

-- What a call of `setpriority` gives a running process.
pub Slices : ℕ → Task → ℤ → Type 0
Slices max t (negsuc n) = setpriority max t (negsuc n) ≡ (minus_one, t)
Slices max t (pos n) =
    ((n < 1) ⊎ (max < n)) × (setpriority max t (pos n) ≡ (minus_one, t))
    ⊎ ((1 ≤ n)
        × (n ≤ max)
        × ((setpriority max t (pos n)).0 ≡ pos 0)
        × ((sits_through n (setpriority max t (pos n)).1).0 + 1 ≡ n)
        × ((sits_through n (setpriority max t (pos n)).1).1
            ≡ record t { state = runnable; priority = n; ticks = 0 }))

-- `setpriority` refuses what is not from 1 to `max`, with -1 and without a change. Otherwise a
-- process that keeps running sits through all but the last of the next `n` interrupts, where `n` is
-- its new priority, and yields at that one with its counter at 0.
pub setpriority-Slices : (max : ℕ) (t : Task) (z : ℤ) → t.state ≡ running → Slices max t z
unfolding Slices setpriority
setpriority-Slices max t (negsuc n) r = refl
setpriority-Slices max t (pos n) r = elim (Bool-cases (ltb n 1)) [
  | inl e ↦ inl (inl (ltb→lt n 1 e), rw e refl)
  | inr e ↦ elim (Bool-cases (ltb max n)) [
    | inl f ↦ inl (inr (ltb→lt max n f), rw (e, f) refl)
    | inr f ↦
        let s =
          sits_through_lem n (record t { priority = n; ticks = 0 }) r (ltb_ge n 1 e)
            (omega arith) in
        inr (
          ltb_ge n 1 e,
          ltb_ge max n f,
          rw (e, f) refl,
          rw (e, f) (ground (arith, s.0)),
          rw (e, f) s.1,
        )
  ]
]

-- The scheduler sets `ticks` to the priority, so a process that it has just picked yields at its
-- first timer interrupt, whatever its priority; its counter is then 0.
pub timer-schedule :
    (t : Task) → timer (schedule t) ≡ (record t { state = runnable; ticks = 0 }, true)
unfolding timer schedule
timer-schedule t = ground arith
