-- ===== src/Wrr/Pass.antt =====
-- Whom a pass of the scheduler (Lab-2 Task 2.1, kernel/proc.c) switches to.
use cs344_os_lab.Base.{
  ℕ, zero, suc, ◌+◌, ◌≤◌, ◌≡◌, ◌≢◌, refl, ap, List, [], ◌∷◌, arith, inl, inr, ◌∙◌,
}
use cs344_os_lab.Base.Tests.{Bool-cases, if◌then◌else◌}
use cs344_os_lab.Base.Lists.{get_or, get_or-set_ne}
use cs344_os_lab.Proc.{runnable, eq_state}
use cs344_os_lab.Wrr.{Task, no_task, pass_from}

-- The runnable processes among the `n` entries from `i` on, in the order of the table.
pub runnable_from : ℕ → ℕ → List Task → List ℕ
runnable_from zero i ts = []
runnable_from (suc n) i ts =
    let rest = runnable_from n (i + 1) ts in
    if eq_state (get_or ts i no_task).state runnable then i ∷ rest else rest

runnable_from_same :
    (n i : ℕ) (ts us : List Task)
    → ((j : ℕ) → i ≤ j → get_or ts j no_task ≡ get_or us j no_task)
    → runnable_from n i ts ≡ runnable_from n i us
unfolding runnable_from
runnable_from_same zero i ts us h = refl
runnable_from_same (suc n) i ts us h =
    rw (h i (omega arith), runnable_from_same n (i + 1) ts us (λ j le. h j (omega arith))) refl

-- If what runs between the switch to a process and the switch back leaves the other entries of the
-- table alone, a pass switches to exactly the processes that were runnable when it began, once each
-- and in the order of the table, whatever their priorities.
pub pass_from-runnable :
    (slice : ℕ → List Task → List Task)
    → ((i j : ℕ) (ts : List Task) → j ≢ i → get_or (slice i ts) j no_task ≡ get_or ts j no_task)
    → (n i : ℕ) (ts : List Task) → (pass_from n i slice ts).1 ≡ runnable_from n i ts
unfolding pass_from runnable_from
pass_from-runnable slice alone zero i ts = refl
pass_from-runnable slice alone (suc n) i ts =
    elim (Bool-cases (eq_state (get_or ts i no_task).state runnable)) [
      | inl e ↦ rw e (
          ap (λ l. i ∷ l)
            (pass_from-runnable slice alone n (i + 1) _
              ∙ runnable_from_same n (i + 1) _ ts (λ j le.
                alone i j _ (ground arith) ∙ get_or-set_ne ts i j _ no_task (ground arith))))
      | inr e ↦ rw e (pass_from-runnable slice alone n (i + 1) ts)
    ]
