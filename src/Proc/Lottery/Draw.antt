-- ===== src/Proc/Lottery/Draw.antt =====
-- Which process a draw of kernel/proc.c's lottery (Lab-2 Task 2.2) picks.
use cs344_os_lab.Base.{
  ℕ, ◌+◌, ◌-◌, ◌%◌, ◌^◌, ◌<◌, ◌≤◌, zero, suc, ◌≡◌, refl, ap, ◌∙◌, inl, inr, true, Option, none,
  some, List, [], ◌∷◌, arith,
}
use cs344_os_lab.Base.Tests.{ltb, ltb_ge, lt→ltb, le→ltb, if◌then◌else◌, Bool-cases}
use cs344_os_lab.Base.Search.{first_cases, NonePasses}
use cs344_os_lab.Base.Lists.{length, get_or}
use cs344_os_lab.Proc.{Proc, Kernel, no_proc}
use cs344_os_lab.Proc.Lottery.{
  weight, is_runnable, total_from, pick_from, rand_of, next_state, rand32, run_winner,
  scheduler_round,
}

-- The tickets of the runnable processes.
unfoldable pub tickets_of : List Proc → ℕ
tickets_of [] = 0
tickets_of (p ∷ ps) = (if is_runnable p then weight p else 0) + tickets_of ps

-- The runnable processes hold the tickets from 0 on, in the order of the table: who holds `t`?
-- `i` is the index of the first entry of the list.
unfoldable pub holder_from : ℕ → ℕ → List Proc → Option ℕ
holder_from t i [] = none
holder_from t i (p ∷ ps) =
    let rest = holder_from t (i + 1) ps in
    let passed = holder_from (t - weight p) (i + 1) ps in
    if is_runnable p then (if ltb t (weight p) then some i else passed) else rest

weight_pos : (p : Proc) → 0 < weight p
weight_pos p = ground arith

-- As long as the tickets fit an `int`, the first loop counts them.
pub total_from-tickets :
    (acc : ℕ) (ps : List Proc)
    → acc + tickets_of ps < 2 ^ 31
    → total_from acc ps ≡ acc + tickets_of ps
unfolding total_from tickets_of
total_from-tickets acc [] h = omega arith
total_from-tickets acc (p ∷ ps) h = elim (Bool-cases (is_runnable p)) [
  | inl e ↦ rw e (ground (arith, e, total_from-tickets ((acc + weight p) % 2 ^ 32) ps))
  | inr e ↦ rw e (ground (arith, e, total_from-tickets acc ps))
]

same_test :
    (winner prefix w : ℕ)
    → 0 < w
    → prefix ≤ winner + 1
    → prefix + w < 2 ^ 31
    → ltb winner ((prefix + w - 1) % 2 ^ 32) ≡ ltb (winner + 1 - prefix) w
same_test winner prefix w h le lt = ground arith

-- The second loop looks for the holder of the ticket after the one drawn.
pub pick_from-holder :
    (winner prefix i : ℕ) (ps : List Proc)
    → prefix ≤ winner + 1
    → prefix + tickets_of ps < 2 ^ 31
    → pick_from winner prefix i ps ≡ holder_from (winner + 1 - prefix) i ps
unfolding pick_from holder_from tickets_of
pick_from-holder winner prefix i [] le h = refl
pick_from-holder winner prefix i (p ∷ ps) le h = elim (Bool-cases (is_runnable p)) [
  | inr e ↦ rw e (pick_from-holder winner prefix (i + 1) ps le (ground (arith, e)))
  | inl e ↦
      let lt : prefix + weight p < 2 ^ 31 = ground (arith, e) in
      rw (e, same_test winner prefix (weight p) (weight_pos p) le lt)
        (elim (Bool-cases (ltb (winner + 1 - prefix) (weight p))) [
          | inl t ↦ rw t refl
          | inr t ↦
              let past : weight p ≤ winner + 1 - prefix = ltb_ge _ _ t in
              rw t (
                pick_from-holder winner ((prefix + weight p) % 2 ^ 32) (i + 1) ps
                  (omega (arith, weight_pos p)) (ground (arith, e))
                ∙ ap (λ n. holder_from n (i + 1) ps) (omega arith))
        ])
]

-- The tickets of the runnable processes before entry `i`.
unfoldable pub tickets_before : List Proc → ℕ → ℕ
tickets_before ps zero = 0
tickets_before [] (suc i) = 0
tickets_before (p ∷ ps) (suc i) =
    let rest = tickets_before ps i in if is_runnable p then weight p + rest else rest

pub holder_from-before :
    (t n i j : ℕ) (ps : List Proc)
    → j ≡ n + i
    → i < length ps
    → is_runnable (get_or ps i no_proc) ≡ true
    → tickets_before ps i ≤ t
    → t < tickets_before ps i + weight (get_or ps i no_proc)
    → holder_from t n ps ≡ some j
unfolding holder_from tickets_before
holder_from-before t n i j [] q h r lo hi = elim h [ ]
holder_from-before t n zero j (p ∷ ps) q h r lo hi =
    rw (r, lt→ltb t (weight p) (omega arith)) (ap some (omega arith))
holder_from-before t n (suc i) j (p ∷ ps) q h r lo hi = elim (Bool-cases (is_runnable p)) [
  | inl e ↦
      rw (e, le→ltb t (weight p) (ground (arith, e)))
        (holder_from-before (t - weight p) (n + 1) i j ps (omega arith) (omega arith) r
          (ground (arith, e)) (ground (arith, e)))
  | inr e ↦ rw e (
      holder_from-before t (n + 1) i j ps (omega arith) (omega arith) r (ground (arith, e))
        (ground (arith, e)))
]

-- Past the last ticket there is no holder.
pub holder_from-none : (t n : ℕ) (ps : List Proc) → tickets_of ps ≤ t → holder_from t n ps ≡ none
unfolding holder_from tickets_of
holder_from-none t n [] h = refl
holder_from-none t n (p ∷ ps) h = elim (Bool-cases (is_runnable p)) [
  | inl e ↦
      rw (e, le→ltb t (weight p) (ground (arith, e)))
        (holder_from-none (t - weight p) (n + 1) ps (ground (arith, e)))
  | inr e ↦ rw e (holder_from-none t (n + 1) ps (ground (arith, e)))
]

module _ (k : Kernel) (s : ℕ) (some_runs : 0 < tickets_of k.procs)
    (fits : tickets_of k.procs < 2 ^ 31) where
  -- the ticket number that the round draws, from 0 on
  abbrev pub drawn : ℕ
  drawn = rand_of (next_state s) % tickets_of k.procs

  found : (ps : List Proc) (h : NonePasses is_runnable no_proc ps) → tickets_of ps ≡ 0
  unfolding tickets_of
  found [] h = refl
  found (p ∷ ps) h = ground (arith, h 0, found ps (λ j lt. h (suc j) (omega arith)))

  total : total_from 0 k.procs ≡ tickets_of k.procs
  total = total_from-tickets 0 k.procs (omega arith) ∙ omega arith

  round_lem : scheduler_round k s ≡ (run_winner k (pick_from drawn 0 0 k.procs), next_state s)
  unfolding scheduler_round rand32
  round_lem = elim (first_cases is_runnable no_proc k.procs) [
    | inl (e, f) ↦ absurd (omega (arith, found k.procs f))
    | inr (i, e, f) ↦ rw (e, scheduler_round, total) refl
  ]

  -- A round with runnable processes, whose tickets fit an `int`, runs the holder of the ticket after
  -- the one drawn, and nobody where there is no such holder.
  pub scheduler_round-holder :
      scheduler_round k s ≡ (run_winner k (holder_from (drawn + 1) 0 k.procs), next_state s)
  scheduler_round-holder =
      round_lem
      ∙ ap (λ o. (run_winner k o, next_state s))
          (pick_from-holder drawn 0 0 k.procs (omega arith) (omega arith))
      ∙ ap (λ n. (run_winner k (holder_from n 0 k.procs), next_state s)) (omega arith)
