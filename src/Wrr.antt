-- ===== src/Wrr.antt =====
-- Weighted round robin: Lab-2 Task 2.1, kernel/trap.c, `scheduler` of kernel/proc.c, and the two
-- system calls of kernel/sysproc.c. DEFAULT_PRIORITY and MAX_PRIORITY are defined in a header that
-- the repository does not hold: they are arguments.
pub mod Pass
pub mod Quantum
pub mod Traps
mod Tests
use cs344_os_lab.Base.{
  ℕ, zero, suc, ◌+◌, ◌%◌, ◌^◌, Bool, true, false, not, ◌||◌, Option, none, some, List, [], ◌∷◌,
  ◌&&◌, ◌||◌,
}
use cs344_os_lab.Base.Tests.{ltb, leb, ◌==◌, if◌then◌else◌}
use cs344_os_lab.Base.Lists.{get_or, set}
use cs344_os_lab.Base.Int.{ℤ, pos, negsuc, minus_one}
use cs344_os_lab.Proc.{ProcState, unused, used, runnable, running, zombie, eq_state}

-- The fields of `struct proc` that the task reads. `priority` is at least 1 once it is set, and
-- `ticks` never passes it by more than one, so neither is negative or overflows.
pub record Task : Type 0 where
  pub state : ProcState
  pub killed : Bool
  pub epc : ℕ
  pub priority : ℕ
  pub ticks : ℕ

-- `allocproc` and `fork`: the child has the parent's priority and no ticks.
pub alloc_task : ℕ → Task → Task
alloc_task default t = record t { state = used; priority = default; ticks = 0 }

pub fork_task : Task → Task → Task
fork_task parent t = record t { state = runnable; priority = parent.priority; ticks = 0 }

pub setpriority : ℕ → Task → ℤ → ℤ × Task
setpriority max t (negsuc n) = (minus_one, t)
setpriority max t (pos n) =
    if ltb n 1 || ltb max n then (minus_one, t) else (pos 0, record t { priority = n; ticks = 0 })

pub getpriority : Task → ℕ
getpriority t = t.priority

-- the scheduler's choice of a runnable process
pub schedule : Task → Task
schedule t = record t { ticks = t.priority; state = running }

abbrev pub yield : Task → Task
yield t = record t { state = runnable }

-- The timer code that `usertrap` and `kerneltrap` share; the mark says that `yield` was called.
pub timer : Task → Task × Bool
timer t =
    if eq_state t.state running
    then (if leb t.priority (t.ticks + 1)
        then (yield (record t { ticks = 0 }), true)
        else (record t { ticks = t.ticks + 1 }, false))
    else (yield t, true)

-- `devintr`: 1 for a device, 2 for the timer, 0 for anything else
pub data Device : Type 0 where
  unknown : Device
  other : Device
  clock : Device

pub devintr : ℕ → Device
devintr scause =
    if scause == 0x8000000000000009
    then other
    else if scause == 0x8000000000000005
    then clock
    else unknown

-- `clockintr` on CPU `cpu`: the clock counts on CPU 0 only; the second part is the time of the next
-- interrupt.
pub clockintr : ℕ → ℕ → ℕ → ℕ × ℕ
clockintr cpu time ticks =
    (if cpu == 0 then (ticks + 1) % 2 ^ 32 else ticks, (time + 1000000) % 2 ^ 64)

-- How a trap ends.
pub data Trap : Type 0 where
  panics : Trap
  exits : Task → Trap
  returns : Task → Bool → Trap

-- Back from `yield`, if it was called; `marked` is whether another process has killed this one meanwhile.
abbrev pub resumed : Bool → Task × Bool → Trap
resumed marked r = returns (record (r.0) { killed = r.0.killed || r.1 && marked }) r.1

-- the end of `usertrap`, after the cause has been dealt with
pub user_end : Bool → Device → Task → Trap
user_end marked dev t =
    if t.killed
    then exits t
    else elim dev [ clock ↦ resumed marked (timer t) | _ ↦ returns t false ]

-- `usertrap`. `from_user` is SPP being clear; `syscall` is what the system call does to the process, what other
-- processes do to it meanwhile included.
pub usertrap : Bool → (Task → Task) → Bool → ℕ → ℕ → Task → Trap
usertrap marked syscall from_user scause sepc t =
    let t₁ = record t { epc = sepc } in
    if not from_user
    then panics
    else if scause == 8
    then (if t₁.killed
        then exits t₁
        else user_end marked unknown (syscall (record t₁ { epc = (sepc + 4) % 2 ^ 64 })))
    else elim (devintr scause) [
      | unknown ↦ user_end marked unknown (record t₁ { killed = true })
      | other ↦ user_end marked other t₁
      | clock ↦ user_end marked clock t₁
    ]

-- `kerneltrap`; there may be no current process.
pub kerneltrap : Bool → Bool → ℕ → Option Task → Option (Option Task × Bool)
kerneltrap from_kernel interrupts scause current =
    if not from_kernel then none else if interrupts then none else elim (devintr scause) [
      | unknown ↦ none
      | other ↦ some (current, false)
      | clock ↦ elim current [
        | none ↦ some (none, false)
        | some t ↦ some (some (timer t).0, (timer t).1)
      ]
    ]

-- What an index past the table would read.
abbrev pub no_task : Task
no_task = record { state = unused; killed = false; epc = 0; priority = 0; ticks = 0 }

-- The scheduler's pass over the table, `n` entries from index `i` on. `slice i` is what the machine
-- does from the switch to process `i` until the switch back. The list collects whom it switched to;
-- `found` is whether it is not empty.
pub pass_from : ℕ → ℕ → (ℕ → List Task → List Task) → List Task → List Task × List ℕ
pass_from zero i slice ts = (ts, [])
pass_from (suc n) i slice ts =
    let t = get_or ts i no_task in
    let ts' = slice i (set ts i (schedule t)) in
    let ran = pass_from n (i + 1) slice ts' in
    let skipped = pass_from n (i + 1) slice ts in
    if eq_state t.state runnable then (ran.0, i ∷ ran.1) else skipped
