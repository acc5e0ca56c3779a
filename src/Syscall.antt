-- ===== src/Syscall.antt =====
-- The arguments and the dispatch of system calls: kernel/syscall.c and kernel/syscall.h, which every task
-- brings along with calls of its own. User memory is a parameter: `copyin` and `copyinstr` of
-- kernel/vm.c are not in the repository.
pub mod Fetch
pub mod Dispatch
mod Tests
use cs344_os_lab.Base.{
  ℕ, zero, suc, ◌+◌, ◌-◌, ◌*◌, ◌%◌, ◌^◌, Bool, true, false, ◌&&◌, ◌||◌, Option, none, some, List,
  [], ◌∷◌,
}
use cs344_os_lab.Base.Tests.{ltb, leb, ◌==◌, if◌then◌else◌}
use cs344_os_lab.Base.Partial.{◌>>=◌}
use cs344_os_lab.Base.Int.{ℤ, pos, negsuc, to_int}

-- The process that makes the call: `p->sz`, and what the copies from its memory give. `copyinstr` of at
-- most `max` bytes gives the bytes before the NUL.
pub record User : Type 0 where
  pub sz : ℕ
  pub copyin : ℕ → ℕ → Option (ℕ → ℕ)
  pub copyinstr : ℕ → ℕ → Option (List ℕ)

-- The registers of the trap frame that hold the arguments and the number of the call.
pub record Trapframe : Type 0 where
  pub a0 : ℕ
  pub a1 : ℕ
  pub a2 : ℕ
  pub a3 : ℕ
  pub a4 : ℕ
  pub a5 : ℕ
  pub a7 : ℕ

-- The number in `n` bytes, the lowest first.
unfoldable pub word : ℕ → (ℕ → ℕ) → ℕ
word zero b = 0
word (suc n) b = b 0 + 256 * word n (λ j. b (j + 1))

-- -1 is `none`.
unfoldable pub fetchaddr : User → ℕ → Option ℕ
fetchaddr p addr =
    if leb p.sz addr || ltb p.sz ((addr + 8) % 2 ^ 64)
    then none
    else (do b ← p.copyin addr 8; some (word 8 b))

-- -1 is `none`; the length that is returned is that of the list.
unfoldable pub fetchstr : User → ℕ → ℕ → Option (List ℕ)
fetchstr p addr max = p.copyinstr addr max

-- `none` is the panic.
unfoldable pub argraw : Trapframe → ℕ → Option ℕ
argraw t n =
    if n == 0
    then some t.a0
    else if n == 1
    then some t.a1
    else if n == 2
    then some t.a2
    else if n == 3
    then some t.a3
    else if n == 4
    then some t.a4
    else if n == 5
    then some t.a5
    else none

unfoldable pub argint : Trapframe → ℕ → Option ℤ
argint t n = do x ← argraw t n; some (to_int x)

unfoldable pub argaddr : Trapframe → ℕ → Option ℕ
argaddr t n = argraw t n

unfoldable pub argstr : User → Trapframe → ℕ → ℕ → Option (Option (List ℕ))
argstr p t n max = do addr ← argaddr t n; some (fetchstr p addr max)

pub data Call : Type 0 where
  sys_fork : Call
  sys_exit : Call
  sys_wait : Call
  sys_pipe : Call
  sys_read : Call
  sys_kill : Call
  sys_exec : Call
  sys_fstat : Call
  sys_chdir : Call
  sys_dup : Call
  sys_getpid : Call
  sys_sbrk : Call
  sys_pause : Call
  sys_uptime : Call
  sys_open : Call
  sys_write : Call
  sys_mknod : Call
  sys_unlink : Call
  sys_link : Call
  sys_mkdir : Call
  sys_close : Call
  sys_shm_create : Call
  sys_shm_get : Call
  sys_shm_close : Call
  sys_mbox_create : Call
  sys_mbox_send : Call
  sys_mbox_recv : Call
  sys_mbox_close : Call
  sys_symlink : Call
  sys_sleep : Call
  sys_setpriority : Call
  sys_getpriority : Call
  sys_settickets : Call
  sys_gettickets : Call

-- `SYS_fork` and the others. The tasks give numbers from 22 on to calls of their own, and Lab-2 has
-- `SYS_sleep` for `SYS_pause`.
abbrev pub number : Call → ℕ
number sys_fork = 1
number sys_exit = 2
number sys_wait = 3
number sys_pipe = 4
number sys_read = 5
number sys_kill = 6
number sys_exec = 7
number sys_fstat = 8
number sys_chdir = 9
number sys_dup = 10
number sys_getpid = 11
number sys_sbrk = 12
number sys_pause = 13
number sys_uptime = 14
number sys_open = 15
number sys_write = 16
number sys_mknod = 17
number sys_unlink = 18
number sys_link = 19
number sys_mkdir = 20
number sys_close = 21
number sys_shm_create = 22
number sys_shm_get = 23
number sys_shm_close = 24
number sys_mbox_create = 25
number sys_mbox_send = 26
number sys_mbox_recv = 27
number sys_mbox_close = 28
number sys_symlink = 22
number sys_sleep = 13
number sys_setpriority = 22
number sys_getpriority = 23
number sys_settickets = 22
number sys_gettickets = 23

-- The array `syscalls` of a task has each call of its list at its number, and null pointers elsewhere.
-- Task_3.1:
abbrev pub ipc_calls : List Call
ipc_calls =
    sys_fork ∷ sys_exit ∷ sys_wait ∷ sys_pipe ∷ sys_read ∷ sys_kill ∷ sys_exec ∷ sys_fstat
    ∷ sys_chdir ∷ sys_dup ∷ sys_getpid ∷ sys_sbrk ∷ sys_pause ∷ sys_uptime ∷ sys_open ∷ sys_write
    ∷ sys_mknod ∷ sys_unlink ∷ sys_link ∷ sys_mkdir ∷ sys_close ∷ sys_shm_create ∷ sys_shm_get
    ∷ sys_shm_close ∷ sys_mbox_create ∷ sys_mbox_send ∷ sys_mbox_recv ∷ sys_mbox_close ∷ []

-- Lab-5 Task 5.2:
abbrev pub link_calls : List Call
link_calls =
    sys_fork ∷ sys_exit ∷ sys_wait ∷ sys_pipe ∷ sys_read ∷ sys_kill ∷ sys_exec ∷ sys_fstat
    ∷ sys_chdir ∷ sys_dup ∷ sys_getpid ∷ sys_sbrk ∷ sys_pause ∷ sys_uptime ∷ sys_open ∷ sys_write
    ∷ sys_mknod ∷ sys_unlink ∷ sys_link ∷ sys_mkdir ∷ sys_close ∷ sys_symlink ∷ []

-- Lab-2 Task 2.1:
abbrev pub priority_calls : List Call
priority_calls =
    sys_fork ∷ sys_exit ∷ sys_wait ∷ sys_pipe ∷ sys_read ∷ sys_kill ∷ sys_exec ∷ sys_fstat
    ∷ sys_chdir ∷ sys_dup ∷ sys_getpid ∷ sys_sbrk ∷ sys_sleep ∷ sys_uptime ∷ sys_open ∷ sys_write
    ∷ sys_mknod ∷ sys_unlink ∷ sys_link ∷ sys_mkdir ∷ sys_close ∷ sys_setpriority ∷ sys_getpriority
    ∷ []

-- Lab-2 Task 2.2:
abbrev pub ticket_calls : List Call
ticket_calls =
    sys_fork ∷ sys_exit ∷ sys_wait ∷ sys_pipe ∷ sys_read ∷ sys_kill ∷ sys_exec ∷ sys_fstat
    ∷ sys_chdir ∷ sys_dup ∷ sys_getpid ∷ sys_sbrk ∷ sys_sleep ∷ sys_uptime ∷ sys_open ∷ sys_write
    ∷ sys_mknod ∷ sys_unlink ∷ sys_link ∷ sys_mkdir ∷ sys_close ∷ sys_settickets ∷ sys_gettickets
    ∷ []

pub data Task : Type 0 where
  ipc : Task
  links : Task
  priorities : Task
  tickets : Task

abbrev pub calls : Task → List Call
calls ipc = ipc_calls
calls links = link_calls
calls priorities = priority_calls
calls tickets = ticket_calls

unfoldable pub entry_in : List Call → ℕ → Option Call
entry_in [] num = none
entry_in (c ∷ cs) num = let rest = entry_in cs num in if number c == num then some c else rest

-- `syscalls[num]`
unfoldable pub syscalls : Task → ℕ → Option Call
syscalls task num = entry_in (calls task) num

-- `NELEM` of the array
unfoldable pub length_of : List Call → ℕ
length_of [] = 0
length_of (c ∷ cs) = let rest = length_of cs in if leb rest (number c) then number c + 1 else rest

unfoldable pub nelem : Task → ℕ
nelem task = length_of (calls task)

-- What the call returns goes to `a0`. `run` makes the call: it gives what the call returns, the trap
-- frame, which `exec` changes, and the rest of the state.
module _ {S : Type 0} (task : Task) (run : Call → Trapframe → S → ℕ × Trapframe × S) where
  abbrev pub call_or_fail : Option Call → Trapframe → S → ℕ × Trapframe × S
  call_or_fail none t s = (2 ^ 64 - 1, t, s)
  call_or_fail (some c) t s = run c t s

  -- By the number of the call.
  abbrev pub syscall_at : ℤ → Trapframe → S → ℕ × Trapframe × S
  syscall_at (negsuc n) t s = (2 ^ 64 - 1, t, s)
  syscall_at (pos num) t s =
      if ltb 0 num && ltb num (nelem task)
      then call_or_fail (syscalls task num) t s
      else (2 ^ 64 - 1, t, s)

  unfoldable pub syscall : Trapframe → S → Trapframe × S
  syscall t s = let r = syscall_at (to_int t.a7) t s in (record (r.1) { a0 = r.0 }, r.2)
