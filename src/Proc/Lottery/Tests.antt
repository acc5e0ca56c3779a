-- ===== src/Proc/Lottery/Tests.antt =====
-- The lottery scheduler of Lab-2 Task 2.2, kernel/proc.c, at a table of two processes.
use cs344_os_lab.Base.{◌+◌, ◌<◌, ◌≡◌, refl, ◌≢◌, [], ◌∷◌, ◌^◌, arith}
use cs344_os_lab.Base.Int.{pos}
use cs344_os_lab.Proc.{runnable, Kernel, no_proc, dispatch}
use cs344_os_lab.Proc.Lottery.{next_state, seed, missed, runs, run_winner, scheduler_round}
use cs344_os_lab.Proc.Lottery.Draw.{tickets_of, holder_from, drawn, scheduler_round-holder}
use cs344_os_lab.Proc.Lottery.Starve.{last_ticket_misses, first_starves}

-- a process with one ticket before one with three
abbrev two : Kernel
two = record {
  procs =
      record no_proc { state = runnable; pid = 1; tickets = pos 1 }
      ∷ record no_proc { state = runnable; pid = 2; tickets = pos 3 }
      ∷ [];
  nextpid = 3;
  initproc = 0;
}

some_run : 0 < tickets_of two.procs
unfolding tickets_of
some_run = omega arith

few : tickets_of two.procs < 2 ^ 31
unfolding tickets_of
few = omega arith

scheduler_round-holder_example :
    scheduler_round two seed
    ≡ (run_winner two (holder_from (drawn two seed some_run few + 1) 0 two.procs), next_state seed)
scheduler_round-holder_example = scheduler_round-holder two seed some_run few

first_starves_example : (scheduler_round two seed).0 ≢ runs 0 (dispatch two 0)
first_starves_example =
    first_starves two seed some_run few 0 (dispatch two 0)
      (record { within = omega arith; passes = refl; earlier = λ j l. absurd (omega arith) }) refl

last_ticket_misses_example : scheduler_round two seed ≡ (missed, next_state seed)
unfolding tickets_of
last_ticket_misses_example = last_ticket_misses two seed some_run few refl
