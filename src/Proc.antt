-- ===== src/Proc.antt =====
-- The process table: Lab-2 Task 2.2, kernel/proc.c and kernel/proc.h (Tasks 2.1 and 3.1 keep these
-- functions as they are, but for the fields that the tasks add). A function runs to its end with no
-- other CPU in between; where it sleeps, it returns to its caller's loop when it is run again.
pub mod Inv
pub mod Kept
pub mod Fork
pub mod Signals
pub mod BornKilled
pub mod Exit
pub mod Lottery
mod Tests
use cs344_os_lab.Base.{ℕ, ◌+◌, Bool, true, false, not, ◌&&◌, ◌||◌, Option, none, some, List, map}
use cs344_os_lab.Base.Tests.{◌==◌, if◌then◌else◌}
use cs344_os_lab.Base.Search.{first}
use cs344_os_lab.Base.Lists.{get_or, set, map_index}
use cs344_os_lab.Base.Int.{ℤ, pos, minus_one, lt_int, eq_int}

abbrev pub nproc : ℕ
nproc = 64

-- `enum procstate`
pub data ProcState : Type 0 where
  unused used sleeping runnable running zombie : ProcState

-- What `chan` points at: nothing, an entry of the process table, or something else.
pub data Chan : Type 0 where
  nothing : Chan
  entry : ℕ → Chan
  address : ℕ → Chan

abbrev pub eq_chan : Chan → Chan → Bool
eq_chan nothing nothing = true
eq_chan (entry i) (entry j) = i == j
eq_chan (address a) (address b) = a == b
eq_chan _ _ = false

abbrev pub eq_state : ProcState → ProcState → Bool
eq_state unused unused = true
eq_state used used = true
eq_state sleeping sleeping = true
eq_state runnable runnable = true
eq_state running running = true
eq_state zombie zombie = true
eq_state _ _ = false

-- `struct proc`, less its lock, kernel stack, saved context, open files, directory and name.
-- `parent` is an index of the table; of the trapframe and the page table only whether they exist.
pub record Proc : Type 0 where
  pub state : ProcState
  pub chan : Chan
  pub killed : Bool
  pub xstate : ℤ
  pub pid : ℕ
  pub parent : Option ℕ
  pub sz : ℕ
  pub pagetable : Bool
  pub trapframe : Bool
  pub tickets : ℤ

-- `proc[]`, `nextpid`, `initproc`. `nextpid` and the process ids are `int`s that only count up: below
-- 2 ^ 31 - 1 a number of the model is the number of the code, and beyond that C does not define the sum.
pub record Kernel : Type 0 where
  pub procs : List Proc
  pub nextpid : ℕ
  pub initproc : ℕ

-- What an index past the table would read; `i < nproc` rules it out.
abbrev pub no_proc : Proc
no_proc = record {
  state = unused;
  chan = nothing;
  killed = false;
  xstate = pos 0;
  pid = 0;
  parent = none;
  sz = 0;
  pagetable = false;
  trapframe = false;
  tickets = pos 0;
}

abbrev pub proc : Kernel → ℕ → Proc
proc k i = get_or k.procs i no_proc

abbrev pub set_proc : Kernel → ℕ → Proc → Kernel
set_proc k i p = record k { procs = set k.procs i p }

abbrev pub is_unused : Proc → Bool
is_unused p = eq_state p.state unused

-- `freeproc` on one entry. `tickets` stays.
pub freeproc : Proc → Proc
freeproc p = record p {
  trapframe = false;
  pagetable = false;
  sz = 0;
  pid = 0;
  parent = none;
  chan = nothing;
  killed = false;
  xstate = pos 0;
  state = unused;
}

-- Whether the allocator gives a trapframe, whether `proc_pagetable` succeeds, and whether `uvmcopy`
-- does: the memory of the kernel decides.
pub record Memory : Type 0 where
  pub frame_given : Bool
  pub table_given : Bool
  pub copy_done : Bool

-- `allocproc` at the entry that its loop found
pub alloc_at : Kernel → Memory → ℕ → Kernel × Bool
alloc_at k m i =
    let p = record (proc k i) { pid = k.nextpid; state = used; tickets = pos 10 } in
    let k' = record k { nextpid = k.nextpid + 1 } in
    if not m.frame_given
    then (set_proc k' i (freeproc p), false)
    else if not m.table_given
    then (set_proc k' i (freeproc (record p { trapframe = true })), false)
    else (set_proc k' i (record p { trapframe = true; pagetable = true }), true)

-- `none` is the return of 0.
pub allocproc : Kernel → Memory → Kernel × Option ℕ
unfolding first
allocproc k m = elim (first is_unused k.procs) [
  | none ↦ (k, none)
  | some i ↦ let (k', done) = alloc_at k m i in (k', if done then some i else none)
]

-- `fork` of `p` once `allocproc` has returned entry `i`
pub fork_at : Kernel → Memory → ℕ → ℕ → ℤ × Kernel
fork_at k m p i =
    let np = record (proc k i) { tickets = (proc k p).tickets } in
    if not m.copy_done then (minus_one, set_proc k i (freeproc np)) else (
      pos np.pid,
      set_proc k i (record np { sz = (proc k p).sz; parent = some p; state = runnable }),
    )

-- the test of `allocproc`'s result in `fork`
pub fork_with : Memory → ℕ → Kernel × Option ℕ → ℤ × Kernel
fork_with m p (k, none) = (minus_one, k)
fork_with m p (k, some i) = fork_at k m p i

pub fork : Kernel → Memory → ℕ → ℤ × Kernel
unfolding fork_with
fork k m p = fork_with m p (allocproc k m)

-- `wakeup` on one entry; `me` is `myproc()`
abbrev pub wake : ℕ → Chan → ℕ → Proc → Proc
wake me c i p =
    if not (i == me) && (eq_state p.state sleeping && eq_chan p.chan c)
    then record p { state = runnable }
    else p

pub wakeup : Kernel → ℕ → Chan → Kernel
wakeup k me c = record k { procs = map_index (wake me c) k.procs }

-- `sleep(chan, lk)` up to `sched()`
pub sleep : Kernel → ℕ → Chan → Kernel
sleep k p c = set_proc k p (record (proc k p) { chan = c; state = sleeping })

-- and after it, when `p` runs again
pub after_sleep : Kernel → ℕ → Kernel
after_sleep k p = set_proc k p (record (proc k p) { chan = nothing })

abbrev pub has_pid : ℤ → Proc → Bool
has_pid pid p = eq_int (pos p.pid) pid

abbrev pub hit : Proc → Proc
hit p = record p { killed = true; state = if eq_state p.state sleeping then runnable else p.state }

pub kill : Kernel → ℤ → ℤ × Kernel
unfolding first
kill k pid = elim (first (has_pid pid) k.procs) [
  | none ↦ (minus_one, k)
  | some i ↦ (pos 0, set_proc k i (hit (proc k i)))
]

pub setkilled : Kernel → ℕ → Kernel
setkilled k p = set_proc k p (record (proc k p) { killed = true })

pub yield : Kernel → ℕ → Kernel
yield k p = set_proc k p (record (proc k p) { state = runnable })

-- the scheduler's `p->state = RUNNING`
pub dispatch : Kernel → ℕ → Kernel
dispatch k p = set_proc k p (record (proc k p) { state = running })

-- `sys_settickets` and `sys_gettickets` of kernel/sysproc.c
pub settickets : Kernel → ℕ → ℤ → ℤ × Kernel
settickets k p n =
    if lt_int n (pos 1)
    then (minus_one, k)
    else (pos 0, set_proc k p (record (proc k p) { tickets = n }))

pub gettickets : Kernel → ℕ → ℤ
gettickets k p = (proc k p).tickets

abbrev pub init_proc : Proc → Proc
init_proc p = record p { state = unused }

-- the loop of `procinit`; the kernel's memory is zeroed before
pub procinit : List Proc → List Proc
procinit = map init_proc
