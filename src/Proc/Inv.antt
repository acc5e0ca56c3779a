-- ===== src/Proc/Inv.antt =====
-- Invariant of the process table of kernel/proc.c (Lab-2 Task 2.2), and what keeps it.
use cs344_os_lab.Base.{
  ℕ, ◌<◌, ◌≡◌, sym, ap, ◌∙◌, ◌≢◌, ◌⊎◌, inl, Bool, true, false, ◌&&◌, none, some, arith,
}
use cs344_os_lab.Base.Lists.{length, length-set, get_or-set}
use cs344_os_lab.Proc.{
  ProcState, unused, sleeping, zombie, nothing, entry, eq_chan, eq_state, Proc, Kernel, nproc,
  no_proc, proc, set_proc,
}

-- in the table and not yet dead
abbrev pub is_live : ProcState → Bool
is_live unused = false
is_live zombie = false
is_live _ = true

abbrev pub IsClean : Proc → Type 0
IsClean p =
    (p.pid ≡ 0)
    × (p.parent ≡ none)
    × (p.chan ≡ nothing)
    × (p.pagetable ≡ false)
    × (p.trapframe ≡ false)

-- asleep in `wait`, as entry `i` of the table
abbrev pub in_wait : ℕ → Proc → Bool
in_wait i p = eq_state p.state sleeping && eq_chan p.chan (entry i)

pub record Inv (k : Kernel) : Type 0 where
  pub size : length k.procs ≡ nproc
  -- the init process lives, and is nobody's child
  pub root :
      (k.initproc < nproc)
      × (is_live (proc k k.initproc).state ≡ true)
      × ((proc k k.initproc).parent ≡ none)
  -- a free entry holds nothing
  pub clean : (i : ℕ) → i < nproc → eq_state (proc k i).state unused ≡ true → IsClean (proc k i)
  -- the others have process ids that were given out, each its own
  pub named :
      (i : ℕ)
      → i < nproc
      → eq_state (proc k i).state unused ≡ false
      → (0 < (proc k i).pid) × ((proc k i).pid < k.nextpid)
  pub unique :
      (i j : ℕ)
      → i < nproc
      → j < nproc
      → 0 < (proc k i).pid
      → (proc k i).pid ≡ (proc k j).pid
      → i ≡ j
  -- parents live, and nobody is his own
  pub alive :
      (i j : ℕ)
      → i < nproc
      → (proc k i).parent ≡ some j
      → (j < nproc) × (j ≢ i) × (is_live (proc k j).state ≡ true)
  -- nobody sleeps in `wait` while a child of his is dead
  pub patient :
      (i j : ℕ)
      → i < nproc
      → (proc k i).parent ≡ some j
      → eq_state (proc k i).state zombie ≡ true
      → in_wait j (proc k j) ≡ false

-- What one entry may become without breaking the invariant.
pub record Fits (k : Kernel) (i : ℕ) (p : Proc) : Type 0 where
  pub clean : eq_state p.state unused ≡ true → IsClean p
  pub pid : (p.pid ≡ (proc k i).pid) ⊎ (p.pid ≡ 0)
  pub named : eq_state p.state unused ≡ false → (0 < p.pid) × (p.pid < k.nextpid)
  pub root : i ≡ k.initproc → (is_live p.state ≡ true) × (p.parent ≡ none)
  pub parent_live : (j : ℕ) → j < nproc → (proc k j).parent ≡ some i → is_live p.state ≡ true
  pub parent :
      (j : ℕ) → p.parent ≡ some j → (j < nproc) × (j ≢ i) × (is_live (proc k j).state ≡ true)
  pub dead :
      (j : ℕ) → p.parent ≡ some j → eq_state p.state zombie ≡ true → in_wait j (proc k j) ≡ false
  pub patient :
      (j : ℕ)
      → j < nproc
      → (proc k j).parent ≡ some i
      → eq_state (proc k j).state zombie ≡ true
      → in_wait i p ≡ false

module _ {k : Kernel} (inv : Inv k) (i : ℕ) (h : i < nproc) where
  abbrev at : Proc → ℕ → Proc
  at p j = proc (set_proc k i p) j

  read_self : (p : Proc) → proc (set_proc k i p) i ≡ p
  read_self p = ground (arith, inv.size, get_or-set k.procs i i p no_proc)

  read_other : (p : Proc) (j : ℕ) → i ≢ j → proc (set_proc k i p) j ≡ proc k j
  read_other p j ne = ground (arith, inv.size, get_or-set k.procs i j p no_proc)

  pub set_proc-Inv : (p : Proc) → Fits k i p → Inv (set_proc k i p)
  set_proc-Inv p f = record {
    size = omega (arith, length-set k.procs i p, inv.size);
    root = ground (arith, inv.size, get_or-set k.procs i k.initproc p no_proc, inv.root, f.root);
    clean =
        λ j lt. ground (arith, inv.size, get_or-set k.procs i j p no_proc, inv.clean j lt, f.clean);
    named =
        λ j lt. ground (arith, inv.size, get_or-set k.procs i j p no_proc, inv.named j lt, f.named);
    unique = λ a b la lb. ground (
      arith,
      inv.size,
      get_or-set k.procs i a p no_proc,
      get_or-set k.procs i b p no_proc,
      inv.unique a b la lb,
      f.pid,
    );
    alive = λ a b la e. ground (
      arith,
      e,
      inv.size,
      get_or-set k.procs i a p no_proc,
      get_or-set k.procs i b p no_proc,
      inv.alive a b la,
      f.parent b,
      f.parent_live a la,
    );
    patient = λ a b la e z. ground (
      arith,
      e,
      z,
      inv.size,
      get_or-set k.procs i a p no_proc,
      get_or-set k.procs i b p no_proc,
      inv.alive a b la,
      inv.patient a b la,
      f.parent b,
      f.dead b,
      f.patient a la,
    );
  }

  -- A live process that stays live and keeps its names.
  pub live-Inv :
      (p : Proc)
      → is_live (proc k i).state ≡ true
      → is_live p.state ≡ true
      → p.pid ≡ (proc k i).pid
      → p.parent ≡ (proc k i).parent
      → ((j : ℕ)
          → j < nproc
          → (proc k j).parent ≡ some i
          → eq_state (proc k j).state zombie ≡ true
          → in_wait i p ≡ false)
      → Inv (set_proc k i p)
  live-Inv p old new ep eq w = set_proc-Inv p (record {
    clean = λ u. ground arith;
    pid = inl ep;
    named = λ u. ground (arith, inv.named i h, ep);
    root = λ e. (new, eq ∙ ap (λ n. (proc k n).parent) e ∙ inv.root.2);
    parent_live = λ j lt e. new;
    parent = λ j e. inv.alive i j h (sym eq ∙ e);
    dead = λ j e z. ground arith;
    patient = w;
  })

  -- An edit that leaves the state, the names, the channel and the memory.
  pub same-Inv :
      (p : Proc)
      → p.state ≡ (proc k i).state
      → p.pid ≡ (proc k i).pid
      → p.parent ≡ (proc k i).parent
      → p.chan ≡ (proc k i).chan
      → p.pagetable ≡ (proc k i).pagetable
      → p.trapframe ≡ (proc k i).trapframe
      → Inv (set_proc k i p)
  same-Inv p es ep eq ec et ef = set_proc-Inv p (record {
    clean = λ u. ground (arith, inv.clean i h);
    pid = inl ep;
    named = λ u. ground (arith, inv.named i h);
    root = λ e. ground (arith, inv.root, es, eq, ap (proc k) e);
    parent_live = λ j lt e. ground (arith, inv.alive j i lt e);
    parent = λ j e. inv.alive i j h (sym eq ∙ e);
    dead = λ j e z. inv.patient i j h (sym eq ∙ e) (ground arith);
    patient = λ j lt e z. ground (arith, inv.patient j i lt e z);
  })
