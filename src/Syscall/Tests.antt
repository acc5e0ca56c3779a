-- ===== src/Syscall/Tests.antt =====
-- A process of one page, and the calls that it makes (kernel/syscall.c).
use cs344_os_lab.Base.{ℕ, ◌+◌, ◌-◌, ◌^◌, ◌≡◌, refl, none, some, [], arith}
use cs344_os_lab.Base.Int.{to_int}
use cs344_os_lab.Syscall.{User, Trapframe, Call, sys_exec, ipc, number, word, fetchaddr, syscall}
use cs344_os_lab.Syscall.Fetch.{Fetches, fetchaddr-Fetches}
use cs344_os_lab.Syscall.Dispatch.{Dispatches, syscall-Dispatches}

abbrev process : User
process = record { sz = 4096; copyin = λ a n. some (λ j. 7); copyinstr = λ a n. some [] }

-- the last whole word, and an address whose end wraps around
fetched : fetchaddr process 4088 ≡ some 506381209866536711
unfolding fetchaddr word
fetched = refl

wrapped : fetchaddr process (2 ^ 64 - 4) ≡ none
unfolding fetchaddr
wrapped = refl

fetchaddr-Fetches_example : Fetches process (2 ^ 64 - 4) (fetchaddr process (2 ^ 64 - 4))
fetchaddr-Fetches_example = fetchaddr-Fetches process (2 ^ 64 - 4) (omega arith) (omega arith)

abbrev frame : Trapframe
frame = record { a0 = 1; a1 = 0; a2 = 0; a3 = 0; a4 = 0; a5 = 0; a7 = 2 ^ 32 + 22 }

-- a call that returns its number, and counts; `exec` sets `a1`
abbrev serve : Call → Trapframe → ℕ → ℕ × Trapframe × ℕ
serve sys_exec t s = (number sys_exec, record t { a1 = 3 }, s + 1)
serve c t s = (number c, t, s + 1)

syscall-Dispatches_example :
    Dispatches ipc serve (to_int frame.a7) frame 5 (syscall ipc serve frame 5)
syscall-Dispatches_example = syscall-Dispatches ipc serve frame 5
