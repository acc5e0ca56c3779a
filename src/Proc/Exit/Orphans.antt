-- ===== src/Proc/Exit/Orphans.antt =====
-- `reparent` and `exit` of kernel/proc.c (Lab-2 Task 2.2): what becomes of the children.
use cs344_os_lab.Base.{
  ℕ, zero, suc, ◌+◌, ◌<◌, ◌≡◌, refl, ap, ◌∙◌, subst, ◌≢◌, ◌⊎◌, inl, inr, Bool, true, ◌||◌, Option,
  some, arith,
}
use cs344_os_lab.Base.Tests.{◌==◌, leb, Bool-cases, if◌then◌else◌}
use cs344_os_lab.Base.Lists.{set, length-set, length-map_index, get_or-set}
use cs344_os_lab.Proc.{
  sleeping, runnable, zombie, entry, eq_chan, eq_state, Proc, Kernel, nproc, no_proc, proc,
  set_proc, wake, wakeup,
}
use cs344_os_lab.Proc.Inv.{is_live, Inv}
use cs344_os_lab.Proc.Kept.{proc-wakeup_of_size, nextpid-wakeup, initproc-wakeup}
use cs344_os_lab.Proc.Exit.{eq_parent, adopt, reparent_from, reparent}

abbrev pub new_parent : ℕ → ℕ → Option ℕ → Option ℕ
new_parent p init parent = if eq_parent parent p then some init else parent

-- What `reparent(p)` may do to an entry: give it the parent `init` in place of `p`, if its turn has
-- come, and wake it if it sleeps on `init`.
pub record Moved (come : Bool) (p init : ℕ) (q q' : Proc) : Type 0 where
  pub same : q' ≡ record q {
    parent = (if come then new_parent p init q.parent else q.parent);
    state = q'.state;
  }
  pub state :
      (q'.state ≡ q.state)
      ⊎ ((q.state ≡ sleeping) × (eq_chan q.chan (entry init) ≡ true) × (q'.state ≡ runnable))

Moved-trans :
    (a b : Bool) (p init : ℕ) (q r t : Proc)
    → p ≢ init
    → Moved a p init q r
    → Moved b p init r t
    → Moved (a || b) p init q t
Moved-trans a b p init q r t ne m n = record {
  same = ground (arith, m.same, n.same, m.state, n.state);
  state = ground (arith, m.same, n.same, m.state, n.state);
}

module _ {k : Kernel} (inv : Inv k) (p i : ℕ) (h : i < nproc) (other : p ≢ k.initproc) where
  abbrev child : Proc
  child = record (proc k i) { parent = some k.initproc }

  abbrev after : Kernel
  after = wakeup (set_proc k i child) p (entry k.initproc)

  proc-after :
      (j : ℕ)
      → j < nproc
      → proc after j
        ≡ wake p
            (entry k.initproc)
            j
            (if i == j then record (proc k i) { parent = some k.initproc } else proc k j)
  proc-after j lt =
      proc-wakeup_of_size (set_proc k i child) p (entry k.initproc) j
        (length-set k.procs i child ∙ inv.size) lt
      ∙ ap (wake p (entry k.initproc) j)
          (get_or-set k.procs i j child no_proc (ground (arith, inv.size)))

  after-Inv :
      i ≢ k.initproc
      → is_live (proc k i).state ≡ true ⊎ (eq_state (proc k i).state zombie ≡ true)
      → Inv after
  after-Inv ne st = record {
    size =
        unfold wakeup in
        length-map_index _ (set k.procs i child) ∙ length-set k.procs i child ∙ inv.size;
    root =
        rw (initproc-wakeup (set_proc k i child) p (entry k.initproc))
          (ground (arith, inv.root, proc-after k.initproc));
    clean = λ j lt.
        rw (proc-after j lt) (λ e. ground (arith, st, inv.clean j lt, ap (proc k) {x = i} {y = j}));
    named = λ j lt. rw (proc-after j lt) (λ e. ground (
      arith,
      inv.named j lt,
      nextpid-wakeup (set_proc k i child) p (entry k.initproc),
      ap (proc k) {x = i} {y = j},
    ));
    unique = λ a b la lb.
        rw (proc-after a la, proc-after b lb)
          (λ e e'. ground (
            arith,
            inv.unique a b la lb,
            ap (proc k) {x = i} {y = a},
            ap (proc k) {x = i} {y = b},
          ));
    alive = λ a b la. rw (proc-after a la) (λ e. ground (
      arith,
      inv.root,
      inv.alive a b la,
      proc-after b,
      ap (proc k) {x = i} {y = b},
      ap (proc k) {x = k.initproc} {y = b},
    ));
    patient = λ a b la.
        rw (proc-after a la)
          (λ e z. ground (arith, inv.root, inv.alive a b la, inv.patient a b la, proc-after b));
  }

  adopt-Inv : Inv (adopt p i k)
  unfolding adopt
  adopt-Inv = elim (Bool-cases (eq_parent (proc k i).parent p)) [
    | inr e ↦ rw e inv
    | inl e ↦ rw e (
        after-Inv (λ q. ground (arith, inv.root, e, ap (proc k) q))
          (ground (arith, e, inv.clean i h)))
  ]

  initproc-adopt : (adopt p i k).initproc ≡ k.initproc
  unfolding adopt
  initproc-adopt = elim (Bool-cases (eq_parent (proc k i).parent p)) [
    | inr e ↦ rw e refl
    | inl e ↦ rw e (initproc-wakeup (set_proc k i child) p (entry k.initproc))
  ]

  adopt-Moved : (j : ℕ) → j < nproc → Moved (i == j) p k.initproc (proc k j) (proc (adopt p i k) j)
  unfolding adopt
  adopt-Moved j lt = elim (Bool-cases (eq_parent (proc k i).parent p)) [
    | inr e ↦
        rw e (record { same = ground (arith, e, ap (proc k) {x = i} {y = j}); state = inl refl })
    | inl e ↦ rw e (record {
      same = ground (arith, e, proc-after j lt, ap (proc k) {x = i} {y = j});
      state = ground (arith, e, proc-after j lt, ap (proc k) {x = i} {y = j});
    })
  ]

-- What the loop of `reparent(p)` has done when it ends, started at index `i`.
record Swept (k : Kernel) (p i : ℕ) (k' : Kernel) : Type 0 where
  inv : Inv k'
  init : k'.initproc ≡ k.initproc
  moved : (j : ℕ) → j < nproc → Moved (leb i j) p k.initproc (proc k j) (proc k' j)

-- One more round in front.
sweep_on :
    (i p : ℕ) (k k' : Kernel)
    → Inv k
    → i < nproc
    → p ≢ k.initproc
    → Swept (adopt p i k) p (i + 1) k'
    → Swept k p i k'
sweep_on i p k k' inv h ne rest = record {
  inv = rest.inv;
  init = rest.init ∙ init;
  moved = λ j lt.
      subst (λ b. Moved b p k.initproc (proc k j) (proc k' j)) (turn j)
        (Moved-trans (i == j) (leb (i + 1) j) p k.initproc _ _ _ ne (adopt-Moved inv p i h ne j lt)
          (subst (λ m. Moved (leb (i + 1) j) p m (proc (adopt p i k) j) (proc k' j)) init
            (rest.moved j lt)));
}
  where
    init : (adopt p i k).initproc ≡ k.initproc
    init = initproc-adopt inv p i h ne

    turn : (j : ℕ) → ((i == j) || leb (i + 1) j) ≡ leb i j
    turn j = ground arith

reparent_from-Swept :
    (n i p : ℕ) (k : Kernel)
    → Inv k
    → i + n ≡ nproc
    → p ≢ k.initproc
    → Swept k p i (reparent_from n i p k)
unfolding reparent_from
reparent_from-Swept zero i p k inv e ne = record {
  inv = inv;
  init = refl;
  moved = λ j lt. record { same = ground arith; state = inl refl };
}
reparent_from-Swept (suc n) i p k inv e ne =
    let h : i < nproc = omega arith in
    sweep_on i p k _ inv h ne (
      reparent_from-Swept n (i + 1) p (adopt p i k) (adopt-Inv inv p i h ne) (omega arith)
        (λ q. ne (q ∙ initproc-adopt inv p i h ne)))

-- `reparent(p)`, for `p` other than the init process: every child of `p` gets the init process for
-- its parent, nothing else changes but that processes asleep on the init process are woken, and the
-- invariant of the table is kept.
pub reparent-Swept :
    (k : Kernel) (p : ℕ)
    → Inv k
    → p ≢ k.initproc
    → Inv (reparent k p)
      × ((reparent k p).initproc ≡ k.initproc)
      × ((j : ℕ) → j < nproc → Moved true p k.initproc (proc k j) (proc (reparent k p) j))
unfolding reparent
reparent-Swept k p inv ne = (
  swept.inv,
  swept.init,
  λ j lt.
      subst (λ b. Moved b p k.initproc (proc k j) (proc (reparent_from nproc 0 p k) j)) (always j)
        (swept.moved j lt),
)
  where
    swept : Swept k p 0 (reparent_from nproc 0 p k)
    swept = reparent_from-Swept nproc 0 p k inv (omega arith) ne

    always : (j : ℕ) → leb 0 j ≡ true
    always j = ground arith
