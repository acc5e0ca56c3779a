-- ===== src/Proc/Kept.antt =====
-- The operations of kernel/proc.c (Lab-2 Task 2.2) keep the invariant of the process table.
use cs344_os_lab.Base.{
  ℕ, ◌+◌, ◌<◌, ◌≡◌, refl, ap, ◌∙◌, ◌≢◌, ◌⊎◌, inr, true, false, none, some, arith,
}
use cs344_os_lab.Base.Lists.{
  length, set, length-set, get_or-set, get_or-map_index, length-map_index,
}
use cs344_os_lab.Proc.{
  unused, Chan, eq_state, Proc, Kernel, nproc, no_proc, proc, set_proc, wake, wakeup, freeproc,
}
use cs344_os_lab.Proc.Inv.{is_live, in_wait, Inv, set_proc-Inv}

pub proc-wakeup_of_size :
    (k : Kernel) (me : ℕ) (c : Chan) (j : ℕ)
    → length k.procs ≡ nproc
    → j < nproc
    → proc (wakeup k me c) j ≡ wake me c j (proc k j)
unfolding wakeup
proc-wakeup_of_size k me c j size lt = get_or-map_index (wake me c) j k.procs no_proc (ground arith)

pub nextpid-wakeup : (k : Kernel) (me : ℕ) (c : Chan) → (wakeup k me c).nextpid ≡ k.nextpid
unfolding wakeup
nextpid-wakeup k me c = refl

pub initproc-wakeup : (k : Kernel) (me : ℕ) (c : Chan) → (wakeup k me c).initproc ≡ k.initproc
unfolding wakeup
initproc-wakeup k me c = refl

module _ {k : Kernel} (inv : Inv k) where
  pub proc-wakeup :
      (me : ℕ) (c : Chan) (j : ℕ) → j < nproc → proc (wakeup k me c) j ≡ wake me c j (proc k j)
  proc-wakeup me c j lt = proc-wakeup_of_size k me c j inv.size lt

  pub wakeup-Inv : (me : ℕ) (c : Chan) → Inv (wakeup k me c)
  wakeup-Inv me c = record {
    size = unfold wakeup in length-map_index (wake me c) k.procs ∙ inv.size;
    root = unfold wakeup in ground (arith, inv.root, proc-wakeup me c k.initproc);
    clean = λ j lt. rw (proc-wakeup me c j lt) (λ e. ground (arith, inv.clean j lt));
    named = λ j lt.
        rw (proc-wakeup me c j lt) (λ e. ground (arith, inv.named j lt, nextpid-wakeup k me c));
    unique = λ a b la lb.
        rw (proc-wakeup me c a la, proc-wakeup me c b lb)
          (λ p e. ground (arith, inv.unique a b la lb));
    alive = λ a b la.
        rw (proc-wakeup me c a la) (λ e. ground (arith, inv.alive a b la, proc-wakeup me c b));
    patient = λ a b la.
        rw (proc-wakeup me c a la)
          (λ e z. ground (arith, inv.alive a b la, inv.patient a b la, proc-wakeup me c b));
  }

  -- `alloc_at` and `freeproc` of a fresh entry leave it clean and use up a process id.
  pub spend-Inv : Inv (record k { nextpid = k.nextpid + 1 })
  spend-Inv = record {
    size = inv.size;
    root = inv.root;
    clean = inv.clean;
    named = λ j lt e. ground (arith, inv.named j lt e);
    unique = inv.unique;
    alive = inv.alive;
    patient = inv.patient;
  }

  module _ (i : ℕ) (h : i < nproc) where
    -- Nobody is the child of a free entry, and it is not the init process.
    pub no_child :
        eq_state (proc k i).state unused ≡ true → (j : ℕ) → j < nproc → (proc k j).parent ≢ some i
    no_child u j lt e = ground (arith, inv.alive j i lt e)

    -- An entry without children that is not the init process may be freed.
    pub freed-Inv :
        (p : Proc)
        → i ≢ k.initproc
        → ((j : ℕ) → j < nproc → (proc k j).parent ≢ some i)
        → Inv (set_proc k i (freeproc p))
    unfolding freeproc
    freed-Inv p ne none_left = set_proc-Inv inv i h (freeproc p) (record {
      clean = λ u. ground arith;
      pid = inr refl;
      named = λ u. ground arith;
      root = λ e. absurd (ne e);
      parent_live = λ j lt e. absurd (none_left j lt e);
      parent = λ j e. ground arith;
      dead = λ j e z. ground arith;
      patient = λ j lt e z. ground arith;
    })

    -- A free entry may become a child of a live process, under a fresh process id.
    pub born-Inv :
        (p : Proc) (q : ℕ)
        → eq_state (proc k i).state unused ≡ true
        → is_live p.state ≡ true
        → in_wait i p ≡ false
        → p.pid ≡ k.nextpid
        → 0 < k.nextpid
        → (p.parent ≡ none)
          ⊎ ((p.parent ≡ some q) × (q < nproc) × (is_live (proc k q).state ≡ true))
        → Inv (record k { procs = set k.procs i p; nextpid = k.nextpid + 1 })
    born-Inv p q u l w ep pos_next par = record {
      size = omega (arith, length-set k.procs i p, inv.size);
      root = ground (
        arith,
        inv.size,
        get_or-set k.procs i k.initproc p no_proc,
        inv.root,
        ap (proc k) {x = i} {y = k.initproc},
      );
      clean = λ j lt. ground (arith, inv.size, get_or-set k.procs i j p no_proc, inv.clean j lt);
      named = λ j lt. ground (arith, inv.size, get_or-set k.procs i j p no_proc, inv.named j lt);
      unique = λ a b la lb. ground (
        arith,
        inv.size,
        get_or-set k.procs i a p no_proc,
        get_or-set k.procs i b p no_proc,
        inv.unique a b la lb,
        inv.named a la,
        inv.named b lb,
        inv.clean a la,
        inv.clean b lb,
      );
      alive = λ a b la e. ground (
        arith,
        e,
        par,
        l,
        inv.size,
        get_or-set k.procs i a p no_proc,
        get_or-set k.procs i b p no_proc,
        inv.alive a b la,
        ap (proc k) {x = q} {y = i},
      );
      patient = λ a b la e z. ground (
        arith,
        e,
        z,
        l,
        w,
        inv.size,
        get_or-set k.procs i a p no_proc,
        get_or-set k.procs i b p no_proc,
        inv.alive a b la,
        inv.patient a b la,
      );
    }
