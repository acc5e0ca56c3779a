-- ===== src/Proc/Lottery.antt =====
-- The lottery scheduler: Lab-2 Task 2.2, `rand32` and `scheduler` of kernel/proc.c.
-- A round of `scheduler` runs with no other CPU changing the table between its two loops. `int` and
-- `uint` values are kept modulo 2 ^ 32.
pub mod Draw
pub mod Starve
mod Tests
use cs344_os_lab.Base.{
  ℕ, ◌+◌, ◌-◌, ◌*◌, ◌/◌, ◌%◌, ◌^◌, Bool, true, false, Option, none, some, List, [], ◌∷◌,
}
use cs344_os_lab.Base.Tests.{ltb, if◌then◌else◌}
use cs344_os_lab.Base.Search.{first}
use cs344_os_lab.Base.Int.{ℤ, pos, negsuc}
use cs344_os_lab.Proc.{runnable, eq_state, Proc, Kernel, dispatch}

-- `randstate = randstate * 6364136223846793005 + 1`
abbrev pub next_state : ℕ → ℕ
next_state s = (s * 6364136223846793005 + 1) % 2 ^ 64

-- the result of `rand32` in the new state: `(uint)(randstate >> 33)`
abbrev pub rand_of : ℕ → ℕ
rand_of s = s / 2 ^ 33 % 2 ^ 32

pub rand32 : ℕ → ℕ × ℕ
rand32 s = (rand_of (next_state s), next_state s)

abbrev pub seed : ℕ
seed = 88172645463393265

-- `(p->tickets < 1) ? 1 : p->tickets`
abbrev pub weight_of : ℤ → ℕ
weight_of (pos n) = if ltb n 1 then 1 else n
weight_of (negsuc n) = 1

abbrev pub weight : Proc → ℕ
weight p = weight_of p.tickets

abbrev pub is_runnable : Proc → Bool
is_runnable p = eq_state p.state runnable

-- the first loop: `total`
pub total_from : ℕ → List Proc → ℕ
total_from acc [] = acc
total_from acc (p ∷ ps) = total_from (if is_runnable p then (acc + weight p) % 2 ^ 32 else acc) ps

-- the second loop, from entry `i` on: the first runnable entry with `winner < prefix + t - 1`
pub pick_from : ℕ → ℕ → ℕ → List Proc → Option ℕ
pick_from winner prefix i [] = none
pick_from winner prefix i (p ∷ ps) =
    let rest =
      pick_from winner (if is_runnable p then (prefix + weight p) % 2 ^ 32 else prefix) (i + 1)
        ps in
    if is_runnable p
    then (if ltb winner ((prefix + weight p - 1) % 2 ^ 32) then some i else rest)
    else rest

-- What a round of the loop of `scheduler` does: it finds nothing runnable, it draws and schedules
-- nobody, or it switches to an entry. In the first two cases the CPU waits for an interrupt.
pub data Round : Type 0 where
  idle : Round
  missed : Round
  runs : ℕ → Kernel → Round

abbrev pub run_winner : Kernel → Option ℕ → Round
run_winner k none = missed
run_winner k (some i) = runs i (dispatch k i)

-- `rand32() % (uint)total`; a remainder by 0 is the dividend, as on RISC-V.
pub scheduler_round : Kernel → ℕ → Round × ℕ
unfolding first total_from pick_from rand32
scheduler_round k s = elim (first is_runnable k.procs) [
  | none ↦ (idle, s)
  | some _ ↦
      let (r, s') = rand32 s in
      (run_winner k (pick_from (r % total_from 0 k.procs) 0 0 k.procs), s')
]
