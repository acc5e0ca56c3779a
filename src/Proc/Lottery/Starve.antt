-- ===== src/Proc/Lottery/Starve.antt =====
-- Who runs under the lottery of kernel/proc.c (Lab-2 Task 2.2), and who never does: the test
-- `winner < prefix + t - 1` moves every interval down by one ticket.
use cs344_os_lab.Base.{
  ℕ, zero, suc, ◌+◌, ◌-◌, ◌^◌, ◌<◌, ◌≤◌, ◌≡◌, refl, ap, ◌∙◌, ◌≢◌, true, Option, none, some, List,
  [], ◌∷◌, arith,
}
use cs344_os_lab.Base.Tests.{le→ltb}
use cs344_os_lab.Base.Search.{IsFirst}
use cs344_os_lab.Base.Lists.{length, get_or}
use cs344_os_lab.Proc.{Proc, Kernel, no_proc, proc, dispatch}
use cs344_os_lab.Proc.Lottery.{
  weight, is_runnable, next_state, run_winner, scheduler_round, missed, runs,
}
use cs344_os_lab.Proc.Lottery.Draw.{
  tickets_of, tickets_before, holder_from, holder_from-before, holder_from-none, drawn,
  scheduler_round-holder,
}

-- A holder's index is not before the first entry searched.
holder_from-ge : (t n x : ℕ) (ps : List Proc) → holder_from t n ps ≡ some x → n ≤ x
unfolding holder_from
holder_from-ge t n x [] e = absurd (ground arith)
holder_from-ge t n x (p ∷ ps) e =
    ground (arith, holder_from-ge t (n + 1) x ps, holder_from-ge (t - weight p) (n + 1) x ps)

-- The first runnable entry holds ticket 0, and no other if it has one ticket.
not_holder :
    (t n i x : ℕ) (ps : List Proc)
    → 0 < t
    → x ≡ n + i
    → IsFirst is_runnable no_proc ps i
    → weight (get_or ps i no_proc) ≡ 1
    → holder_from t n ps ≢ some x
unfolding holder_from
not_holder t n i x [] pos_t q f w = elim f.within [ ]
not_holder t n zero x (p ∷ ps) pos_t q f w =
    rw (f.passes, le→ltb t (weight p) (omega arith))
      λ e. absurd (omega (arith, holder_from-ge (t - weight p) (n + 1) x ps e))
not_holder t n (suc i) x (p ∷ ps) pos_t q f w = rw (f.earlier 0 (omega arith)) (
    not_holder t (n + 1) i x ps pos_t (omega arith)
      (record {
        within = omega (arith, f.within);
        passes = f.passes;
        earlier = λ j lt. f.earlier (suc j) (omega arith);
      })
      w)

module _ (k : Kernel) (s : ℕ) (some_runs : 0 < tickets_of k.procs)
    (fits : tickets_of k.procs < 2 ^ 31) where
  -- Drawing the last ticket schedules nobody, though there are runnable processes.
  pub last_ticket_misses :
      drawn k s some_runs fits ≡ tickets_of k.procs - 1
      → scheduler_round k s ≡ (missed, next_state s)
  last_ticket_misses e =
      scheduler_round-holder k s some_runs fits
      ∙ ap (λ o. (run_winner k o, next_state s)) (holder_from-none _ 0 k.procs (omega arith))

  -- A runnable process is run by every draw in its interval of tickets, moved down by one.
  pub interval_runs :
      (i : ℕ)
      → i < length k.procs
      → is_runnable (proc k i) ≡ true
      → tickets_before k.procs i ≤ drawn k s some_runs fits + 1
      → drawn k s some_runs fits + 1 < tickets_before k.procs i + weight (proc k i)
      → scheduler_round k s ≡ (runs i (dispatch k i), next_state s)
  interval_runs i h r lo hi =
      scheduler_round-holder k s some_runs fits
      ∙ ap (λ o. (run_winner k o, next_state s))
          (holder_from-before _ 0 i i k.procs (omega arith) h r lo hi)

  -- The first runnable process of the table is never run if it has one ticket, whatever the state of
  -- the generator.
  pub first_starves :
      (i : ℕ) (k' : Kernel)
      → IsFirst is_runnable no_proc k.procs i
      → weight (proc k i) ≡ 1
      → (scheduler_round k s).0 ≢ runs i k'
  first_starves i k' f w e = go (holder_from (drawn k s some_runs fits + 1) 0 k.procs) refl
    where
      go : (o : Option ℕ) → holder_from (drawn k s some_runs fits + 1) 0 k.procs ≡ o → ⊥
      go none q = absurd (ground (arith, q, scheduler_round-holder k s some_runs fits))
      go (some x) q =
          not_holder (drawn k s some_runs fits + 1) 0 i x k.procs (omega arith)
            (ground (arith, q, e, scheduler_round-holder k s some_runs fits)) f w q
