-- ===== src/Syscall/Dispatch.antt =====
-- The dispatch of system calls, kernel/syscall.c of Lab-2, Task_3.1 and Lab-5 Task 5.2.
use cs344_os_lab.Base.{
  ℕ, ◌^◌, ◌-◌, ◌<◌, ◌≡◌, ◌≢◌, refl, sym, ◌∙◌, ap, subst, Bool, true, ◌&&◌, Option, none, some, List,
  [], ◌∷◌, arith, inl, inr,
}
use cs344_os_lab.Base.Tests.{ltb, ◌==◌, ==→eq, ==_self, ==_ne, Bool-cases, Option-cases}
use cs344_os_lab.Base.Int.{ℤ, pos, negsuc, to_int}
use cs344_os_lab.Syscall.{
  Trapframe, Call, number, Task, ipc, links, priorities, tickets, calls, entry_in, syscalls,
  length_of, nelem, syscall_at, syscall,
}

-- A task has the call.
pub data In (c : Call) : List Call → Type 0 where
  here : (cs : List Call) → In c (c ∷ cs)
  there : (d : Call) (cs : List Call) → In c cs → In c (d ∷ cs)

-- An entry of the array is a call of the task, at its number.
abbrev AtNumber : List Call → ℕ → Option Call → Type 0
AtNumber cs num none = Unit
AtNumber cs num (some c) = (number c ≡ num) × In c cs

entry_in-AtNumber : (cs : List Call) (num : ℕ) → AtNumber cs num (entry_in cs num)
unfolding entry_in
entry_in-AtNumber [] num = tt
entry_in-AtNumber (d ∷ ds) num = elim (Bool-cases (number d == num)) [
  | inl q ↦ rw (entry_in, q) (==→eq (number d) num q, here ds)
  | inr q ↦ rw (entry_in, q) (later (entry_in ds num) (entry_in-AtNumber ds num))
]
  where
    later : (r : Option Call) → AtNumber ds num r → AtNumber (d ∷ ds) num r
    later none h = tt
    later (some c) h = (h.0, there d ds h.1)

-- The numbers go up from above `m`.
rising : ℕ → List Call → Bool
rising m [] = true
rising m (c ∷ cs) = let rest = rising (number c) cs in ltb m (number c) && rest

rising_above : (c : Call) (m : ℕ) (cs : List Call) → rising m cs ≡ true → In c cs → m < number c
unfolding rising
rising_above c m _ e (here cs) = ground (arith, e)
rising_above c m _ e (there d cs z) =
    let h = rising_above c (number d) cs (ground (arith, e)) z in ground (arith, e, h)

entry_in_own :
    (c : Call) (m : ℕ) (cs : List Call)
    → rising m cs ≡ true
    → In c cs
    → entry_in cs (number c) ≡ some c
unfolding entry_in rising
entry_in_own c m _ e (here cs) = rw (entry_in, ==_self (number c)) refl
entry_in_own c m _ e (there d cs z) =
    let up : rising (number d) cs ≡ true = ground (arith, e) in
    let h = rising_above c (number d) cs up z in
    rw (entry_in, ==_ne (number d) (number c) (λ q. omega (arith, h, q)))
      (entry_in_own c (number d) cs up z)

length_of-above : (c : Call) (cs : List Call) → In c cs → number c < length_of cs
unfolding length_of
length_of-above c _ (here cs) = ground arith
length_of-above c _ (there d cs z) = let h = length_of-above c cs z in ground (arith, h)

calls-rising : (task : Task) → rising 0 (calls task) ≡ true
unfolding rising
calls-rising ipc = refl
calls-rising links = refl
calls-rising priorities = refl
calls-rising tickets = refl

module _ {S : Type 0} (task : Task) (run : Call → Trapframe → S → ℕ × Trapframe × S) where
  -- The result goes to `a0`.
  abbrev pub finished : ℕ × Trapframe × S → Trapframe × S
  finished r = (record (r.1) { a0 = r.0 }, r.2)

  -- How a system call with the number `n` ends.
  pub data Dispatches (n : ℤ) (t : Trapframe) (s : S) : Trapframe × S → Type 0 where
    runs :
        (c : Call)
        → In c (calls task)
        → n ≡ pos (number c)
        → Dispatches n t s (finished (run c t s))
    unknown :
        ((c : Call) → In c (calls task) → n ≢ pos (number c))
        → Dispatches n t s (record t { a0 = 2 ^ 64 - 1 }, s)

  same : (num : ℕ) (c : Call) → pos num ≡ pos (number c) → num ≡ number c
  same num c q = ground (arith, q)

  at_number :
      (n : ℤ) (t : Trapframe) (s : S) → Dispatches n t s (finished (syscall_at task run n t s))
  unfolding syscalls nelem
  at_number (negsuc n) t s = unknown (λ c z e. ground (arith, e))
  at_number (pos num) t s = elim (Bool-cases (ltb 0 num && ltb num (nelem task))) [
    | inr e ↦ rw (e) (
        unknown (λ c z q.
          let lo = rising_above c 0 (calls task) (calls-rising task) z in
          let hi = length_of-above c (calls task) z in ground (arith, e, same num c q, lo, hi)))
    | inl e ↦ elim (Option-cases (syscalls task num)) [
      | inl n ↦
          rw (e, n)
            (unknown (λ c z q.
              let h =
                sym n
                ∙ ap (syscalls task) (same num c q)
                ∙ entry_in_own c 0 (calls task) (calls-rising task) z in
              ground (arith, h)))
      | inr (c, n) ↦
          let h = subst (AtNumber (calls task) num) n (entry_in-AtNumber (calls task) num) in
          rw (e, n) (runs c h.1 (ap pos (sym h.0)))
    ]
  ]

  -- In each task `syscall` makes the call of the task whose number is in `a7`, cut to an `int`, with the
  -- trap frame as it is, and then puts what the call returns into `a0` of the frame that it leaves; when
  -- no call of the task has that number, it puts -1 into `a0` and changes nothing else.
  pub syscall-Dispatches :
      (t : Trapframe) (s : S) → Dispatches (to_int t.a7) t s (syscall task run t s)
  unfolding syscall
  syscall-Dispatches t s = at_number (to_int t.a7) t s
