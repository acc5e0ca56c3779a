-- ===== src/Proc/Fork.antt =====
-- `allocproc` and `fork` of kernel/proc.c (Lab-2 Task 2.2).
use cs344_os_lab.Base.{
  ℕ, ◌+◌, ◌<◌, ◌≤◌, ◌≡◌, refl, sym, ap, ◌∙◌, subst, ◌≢◌, inl, inr, true, false, Option, none, some,
  arith,
}
use cs344_os_lab.Base.Tests.{◌==◌, ==→eq, ==→ne, Bool-cases, if◌then◌else◌}
use cs344_os_lab.Base.Search.{first_cases, IsFirst}
use cs344_os_lab.Base.Lists.{length, set, get_or-set, get_or-set_self, get_or-set_ne}
use cs344_os_lab.Base.Int.{ℤ, pos, minus_one}
use cs344_os_lab.Proc.{
  unused, used, runnable, eq_state, Proc, Kernel, nproc, no_proc, proc, set_proc, Memory, is_unused,
  freeproc, alloc_at, allocproc, fork_at, fork_with, fork,
}
use cs344_os_lab.Proc.Inv.{is_live, Inv, Fits, set_proc-Inv}
use cs344_os_lab.Proc.Kept.{spend-Inv, freed-Inv, born-Inv, no_child}

-- The entry that `allocproc` makes of the free entry `q`.
abbrev pub fresh_entry : Kernel → Proc → Proc
fresh_entry k q = record q {
  pid = k.nextpid;
  state = used;
  tickets = pos 10;
  trapframe = true;
  pagetable = true;
}

-- Entry `i` was free and has been taken; everything else is as before.
pub record Allocated (k k' : Kernel) (i : ℕ) : Type 0 where
  pub within : i < nproc
  pub chosen : IsFirst is_unused no_proc k.procs i
  pub free : eq_state (proc k i).state unused ≡ true
  pub self : proc k' i ≡ fresh_entry k (proc k i)
  pub others : (j : ℕ) → i ≢ j → proc k' j ≡ proc k j
  pub init : k'.initproc ≡ k.initproc
  pub inv : Inv k'

module _ {k : Kernel} (inv : Inv k) where
  not_init : (i : ℕ) → eq_state (proc k i).state unused ≡ true → i ≢ k.initproc
  not_init i u e = ground (arith, inv.root, ap (proc k) e)

  nextpid_pos : 0 < k.nextpid
  nextpid_pos = ground (arith, inv.root, inv.named k.initproc)

  clean_parent :
      (i : ℕ) → i < nproc → eq_state (proc k i).state unused ≡ true → (proc k i).parent ≡ none
  clean_parent i h u = (inv.clean i h u).1

  -- The three ways in which `allocproc` ends; memory that could not be had leaves the entry free.
  pub data Allocs (out : Kernel × Option ℕ) : Type 0 where
    none_free :
        out ≡ (k, none)
        → ((j : ℕ) → j < nproc → eq_state (proc k j).state unused ≡ false)
        → Allocs out
    no_memory :
        out.1 ≡ none
        → Inv out.0
        → ((j : ℕ) → eq_state (proc k j).state unused ≡ false → proc out.0 j ≡ proc k j)
        → Allocs out
    given : (i : ℕ) → out.1 ≡ some i → Allocated k out.0 i → Allocs out

  module _ (i : ℕ) (f : IsFirst is_unused no_proc k.procs i) where
    in_table : i < nproc
    in_table = omega (arith, f.within, inv.size)

    given_back : (p : Proc) → Inv (set_proc (record k { nextpid = k.nextpid + 1 }) i (freeproc p))
    given_back p =
        freed-Inv (spend-Inv inv) i in_table p (not_init i f.passes)
          (no_child inv i in_table f.passes)

    others_kept :
        (p : Proc) (j : ℕ)
        → eq_state (proc k j).state unused ≡ false
        → proc (set_proc (record k { nextpid = k.nextpid + 1 }) i p) j ≡ proc k j
    others_kept p j e = ground (arith, get_or-set k.procs i j p no_proc, f.within, f.passes)

    taken :
        Allocated k
          (record k { procs = set k.procs i (fresh_entry k (proc k i)); nextpid = k.nextpid + 1 })
          i
    taken = record {
      within = in_table;
      chosen = f;
      free = f.passes;
      self = get_or-set_self k.procs i (fresh_entry k (proc k i)) no_proc f.within;
      others = λ j ne. get_or-set_ne k.procs i j (fresh_entry k (proc k i)) no_proc ne;
      init = refl;
      inv =
          born-Inv inv i in_table (fresh_entry k (proc k i)) 0 f.passes refl refl refl nextpid_pos
            (inl (clean_parent i in_table f.passes));
    }

    alloc_at-Allocs :
        (m : Memory) → Allocs ((alloc_at k m i).0, if (alloc_at k m i).1 then some i else none)
    unfolding alloc_at
    alloc_at-Allocs m = elim (Bool-cases m.frame_given) [
      | inr e ↦ rw e (no_memory refl (given_back _) (others_kept _))
      | inl e ↦ elim (Bool-cases m.table_given) [
        | inr e' ↦ rw (e, e') (no_memory refl (given_back _) (others_kept _))
        | inl e' ↦ rw (e, e') (given i refl taken)
      ]
    ]

  pub allocproc-Allocs : (m : Memory) → Allocs (allocproc k m)
  unfolding allocproc
  allocproc-Allocs m = elim (first_cases is_unused no_proc k.procs) [
    | inl (e, f) ↦ rw (e, allocproc) (none_free refl (λ j lt. f j (omega (arith, lt, inv.size))))
    | inr (i, e, f) ↦ rw (e, allocproc) (alloc_at-Allocs i f m)
  ]

-- The child that `fork` makes of the free entry `q`: runnable, a child of `p`, under the next
-- process id, with the memory size and the tickets of `p`.
abbrev pub child_of : Kernel → ℕ → Proc → Proc
child_of k p q = record (fresh_entry k q) {
  tickets = (proc k p).tickets;
  sz = (proc k p).sz;
  parent = some p;
  state = runnable;
}

-- What `fork` of `p` does: it fails and leaves every process as it was, or returns the next process
-- id, fills the first free entry with the child, and leaves all other entries as they were.
pub data Forks (k : Kernel) (p : ℕ) (out : ℤ × Kernel) : Type 0 where
  fails :
      out.0 ≡ minus_one
      → ((j : ℕ) → eq_state (proc k j).state unused ≡ false → proc out.1 j ≡ proc k j)
      → Forks k p out
  makes :
      (i : ℕ)
      → i < nproc
      → IsFirst is_unused no_proc k.procs i
      → out.0 ≡ pos k.nextpid
      → proc out.1 i ≡ child_of k p (proc k i)
      → ((j : ℕ) → i ≢ j → proc out.1 j ≡ proc k j)
      → Forks k p out

module _ {k : Kernel} (inv : Inv k) (p : ℕ) (hp : p < nproc)
    (live : is_live (proc k p).state ≡ true) where
  module _ (k' : Kernel) (i : ℕ) (a : Allocated k k' i) where
    parent_kept : proc k' p ≡ proc k p
    parent_kept = a.others p (λ e. ground (arith, live, a.free, ap (proc k) e))

    childless : (j : ℕ) → j < nproc → (proc k' j).parent ≢ some i
    childless j lt = elim (Bool-cases (i == j)) [
      | inl e ↦ λ q.
          ground (arith, a.self, clean_parent inv i a.within a.free, ap (proc k') (==→eq i j e))
      | inr e ↦ λ q.
          no_child inv i a.within a.free j lt
            (ap (λ (r : Proc). r.parent) (sym (a.others j (==→ne i j e))) ∙ q)
    ]

    grown : Proc
    grown = record (proc k' i) {
      tickets = (proc k' p).tickets;
      sz = (proc k' p).sz;
      parent = some p;
      state = runnable;
    }

    grown-Fits : Fits k' i grown
    unfolding grown
    grown-Fits = record {
      clean = λ u. ground arith;
      pid = inl refl;
      named = λ u. a.inv.named i a.within (ap (λ (q : Proc). eq_state q.state unused) a.self);
      root = λ e. absurd (not_init inv i a.free (e ∙ a.init));
      parent_live = λ j lt e. refl;
      parent = λ j e. ground (arith, e, hp, live, a.free, a.others p, ap (proc k) {x = p} {y = i});
      dead = λ j e z. ground arith;
      patient = λ j lt e z. refl;
    }

    fork_at-Inv : (m : Memory) → Inv (fork_at k' m p i).1
    unfolding fork_at grown
    fork_at-Inv m = elim (Bool-cases m.copy_done) [
      | inr e ↦
          rw e (freed-Inv a.inv i a.within _ (λ q. not_init inv i a.free (q ∙ a.init)) childless)
      | inl e ↦ rw e (set_proc-Inv a.inv i a.within grown grown-Fits)
    ]

    length-procs : i < length k'.procs
    length-procs = ground (arith, a.within, a.inv.size)

    fork_at-Forks : (m : Memory) → Forks k p (fork_at k' m p i)
    unfolding fork_at
    fork_at-Forks m = elim (Bool-cases m.copy_done) [
      | inr e ↦
          rw e
            (fails refl λ j u. get_or-set_ne k'.procs i j _ no_proc (ne j u) ∙ a.others j (ne j u))
      | inl e ↦ rw e (
          makes i a.within a.chosen (ap (λ (q : Proc). pos q.pid) a.self)
            (get_or-set_self k'.procs i _ no_proc length-procs ∙ child)
            (λ j ne. get_or-set_ne k'.procs i j _ no_proc ne ∙ a.others j ne))
    ]
      where
        ne : (j : ℕ) → eq_state (proc k j).state unused ≡ false → i ≢ j
        ne j u e = ground (arith, a.free, ap (proc k) e)

        child :
            record (proc k' i) {
              tickets = (proc k' p).tickets;
              sz = (proc k' p).sz;
              parent = some p;
              state = runnable;
            }
            ≡ child_of k p (proc k i)
        child = ground (arith, a.self, parent_kept)

  fork_with-Inv :
      (m : Memory) (out : Kernel × Option ℕ) → Allocs inv out → Inv (fork_with m p out).1
  unfolding fork_with
  fork_with-Inv m (k', none) (none_free q f) =
      subst Inv (sym (ap (λ (r : Kernel × Option ℕ). r.0) q)) inv
  fork_with-Inv m (k', none) (no_memory q i f) = i
  fork_with-Inv m (k', none) (given i q b) = absurd (ground arith)
  fork_with-Inv m (k', some i) (none_free q f) = absurd (ground arith)
  fork_with-Inv m (k', some i) (no_memory q i' f) = absurd (ground arith)
  fork_with-Inv m (k', some i) (given j q b) =
      fork_at-Inv k' i (subst (Allocated k k') (ground arith) b) m

  fork_with-Forks :
      (m : Memory) (out : Kernel × Option ℕ) → Allocs inv out → Forks k p (fork_with m p out)
  unfolding fork_with
  fork_with-Forks m (k', none) (none_free q f) =
      fails refl λ j u. ap (λ (r : Kernel × Option ℕ). proc r.0 j) q
  fork_with-Forks m (k', none) (no_memory q i f) = fails refl f
  fork_with-Forks m (k', none) (given i q b) = absurd (ground arith)
  fork_with-Forks m (k', some i) (none_free q f) = absurd (ground arith)
  fork_with-Forks m (k', some i) (no_memory q i' f) = absurd (ground arith)
  fork_with-Forks m (k', some i) (given j q b) =
      fork_at-Forks k' i (subst (Allocated k k') (ground arith) b) m

  fork-nextpid : (m : Memory) → (fork k m p).1.nextpid ≤ k.nextpid + 1
  unfolding fork allocproc fork_with alloc_at fork_at
  fork-nextpid m = elim (first_cases is_unused no_proc k.procs) [
    | inl (e, f) ↦ rw (fork, allocproc, e) (omega arith)
    | inr (i, e, f) ↦ elim (Bool-cases m.frame_given) [
      | inr a ↦ rw (fork, allocproc, e, a) (omega arith)
      | inl a ↦ elim (Bool-cases m.table_given) [
        | inr b ↦ rw (fork, allocproc, e, a, b) (omega arith)
        | inl b ↦ elim (Bool-cases m.copy_done) [
          | inr c ↦ rw (fork, allocproc, e, a, b, c) (omega arith)
          | inl c ↦ rw (fork, allocproc, e, a, b, c) (omega arith)
        ]
      ]
    ]
  ]

  -- `fork` of a live process, while the next process id is below the largest `int`, keeps the invariant
  -- of the table, whether or not it finds an entry and memory; the ids stay `int`s.
  pub fork-Inv :
      (m : Memory)
      → k.nextpid < 2147483647
      → Inv (fork k m p).1 × ((fork k m p).1.nextpid ≤ 2147483647)
  unfolding fork
  fork-Inv m l =
      (fork_with-Inv m (allocproc k m) (allocproc-Allocs inv m), omega (arith, fork-nextpid m, l))

  pub fork-Forks : (m : Memory) → Forks k p (fork k m p)
  unfolding fork
  fork-Forks m = fork_with-Forks m (allocproc k m) (allocproc-Allocs inv m)
