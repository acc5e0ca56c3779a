-- ===== src/Wrr/Tests.antt =====
-- The timer and the traps of Lab-2 Task 2.1, kernel/trap.c, at small inputs.
use cs344_os_lab.Base.{ℕ, ◌≡◌, refl, ◌≢◌, true, List, [], ◌∷◌, arith}
use cs344_os_lab.Base.Lists.{get_or, set, get_or-set_ne}
use cs344_os_lab.Base.Int.{pos}
use cs344_os_lab.Proc.{runnable, running}
use cs344_os_lab.Wrr.{Task, no_task, schedule, timer}
use cs344_os_lab.Wrr.Quantum.{Slices, setpriority-Slices, timer-schedule}

abbrev busy : Task
busy = record no_task { state = running; priority = 5 }

setpriority-Slices_example : Slices 10 busy (pos 3)
setpriority-Slices_example = setpriority-Slices 10 busy (pos 3) refl

timer-schedule_example : timer (schedule busy) ≡ (record busy { state = runnable; ticks = 0 }, true)
timer-schedule_example = timer-schedule busy

-- each process runs its slice and is preempted
abbrev preempt : ℕ → List Task → List Task
preempt i ts = set ts i (timer (get_or ts i no_task)).0

abbrev tasks : List Task
tasks =
    record busy { state = runnable } ∷ no_task ∷ record busy { state = runnable; priority = 1 } ∷ []

preempt_alone :
    (i j : ℕ) (ts : List Task) → j ≢ i → get_or (preempt i ts) j no_task ≡ get_or ts j no_task
preempt_alone i j ts h = get_or-set_ne ts i j _ no_task (λ e. h (ground (arith, e)))
