-- ===== src/Proc/Tests.antt =====
-- Runs of the process table of Lab-2 Task 2.2, kernel/proc.c, and the theorems at a small table.
use cs344_os_lab.Base.{ℕ, ◌<◌, ◌≡◌, refl, ap, ◌∙◌, ◌≢◌, true, some, arith, ◌≤◌}
use cs344_os_lab.Base.Tests.{◌==◌, if◌then◌else◌}
use cs344_os_lab.Base.Lists.{length, set, replicate, get_or-set, get_or-replicate}
use cs344_os_lab.Base.Int.{pos}
use cs344_os_lab.Proc.{
  alloc_at, fork_at, runnable, running, Proc, Kernel, nproc, no_proc, proc, Memory, allocproc, fork,
  kill,
}
use cs344_os_lab.Proc.Inv.{is_live, Inv}
use cs344_os_lab.Proc.Fork.{fork-Inv}
use cs344_os_lab.Proc.BornKilled.{kill_zero-fork}
use cs344_os_lab.Proc.Exit.{exit, wait}
use cs344_os_lab.Proc.Exit.Dies.{Died, exit-Died}
use cs344_os_lab.Proc.Exit.Waits.{WaitsFor, wait-WaitsFor}

-- the table after `userinit`: the init process, and 63 free entries
abbrev pub init_entry : Proc
init_entry = record no_proc {
  state = running;
  pid = 1;
  pagetable = true;
  trapframe = true;
  tickets = pos 10;
}

abbrev pub booted : Kernel
booted = record { procs = set (replicate nproc no_proc) 0 init_entry; nextpid = 2; initproc = 0 }

proc-booted : (i : ℕ) → i < nproc → proc booted i ≡ (if 0 == i then init_entry else no_proc)
proc-booted i h =
    get_or-set (replicate nproc no_proc) 0 i init_entry no_proc (omega arith)
    ∙ ap (λ p. if 0 == i then init_entry else p) (get_or-replicate nproc i no_proc no_proc h)

alone-Inv :
    (k : Kernel)
    → length k.procs ≡ nproc
    → k.initproc ≡ 0
    → k.nextpid ≡ 2
    → ((i : ℕ) → i < nproc → proc k i ≡ (if 0 == i then init_entry else no_proc))
    → Inv k
alone-Inv k size root next only = record {
  size = size;
  root = ground (arith, root, only 0);
  clean = λ i h u. ground (arith, only i h);
  named = λ i h u. ground (arith, only i h);
  unique = λ i j h g n e. ground (arith, only i h, only j g);
  alive = λ i j h e. absurd (ground (arith, only i h));
  patient = λ i j h e z. absurd (ground (arith, only i h));
}

booted-Inv : Inv booted
booted-Inv = alone-Inv booted refl refl refl proc-booted

abbrev plenty : Memory
plenty = record { frame_given = true; table_given = true; copy_done = true }

-- the init process with a child in entry 1
abbrev family : Kernel
family = (fork booted plenty 0).1

family-Inv : Inv family
family-Inv = (fork-Inv booted-Inv 0 (omega arith) refl plenty (omega arith)).0

fork_first : (fork booted plenty 0).0 ≡ pos 2
unfolding fork allocproc alloc_at fork_at
fork_first = refl

family_child : proc family 1 ≡ record init_entry { state = runnable; pid = 2; parent = some 0 }
unfolding fork allocproc alloc_at fork_at
family_child = refl

fork-Inv_example : Inv (fork booted plenty 0).1 × ((fork booted plenty 0).1.nextpid ≤ 2147483647)
fork-Inv_example = fork-Inv booted-Inv 0 (omega arith) refl plenty (omega arith)

kill_zero-fork_example :
    let child = proc (fork (kill booted (pos 0)).1 plenty 0).1 1 in
    (child.pid ≡ 2) × (child.state ≡ runnable) × (child.parent ≡ some 0) × (child.killed ≡ true)
unfolding fork allocproc alloc_at fork_at kill
kill_zero-fork_example =
    kill_zero-fork booted-Inv plenty 0 1 (omega arith) refl
      (record {
        within = omega arith;
        passes = refl;
        earlier = λ j l. ground (arith, proc-booted j);
      })
      2 refl

not_root : 1 ≢ family.initproc
unfolding fork allocproc alloc_at fork_at
not_root e = ground (arith, e)

child_lives : is_live (proc family 1).state ≡ true
unfolding fork allocproc alloc_at fork_at
child_lives = refl

exit-Died_example :
    (k : Kernel) × (exit family 1 (pos 7) ≡ some k)
    × Inv k
    × Died family-Inv 1 (omega arith) child_lives not_root (pos 7) k
exit-Died_example = exit-Died family-Inv 1 (omega arith) child_lives not_root (pos 7)

init_lives : is_live (proc family 0).state ≡ true
unfolding fork allocproc alloc_at fork_at
init_lives = refl

wait-WaitsFor_example : WaitsFor family 0 true (wait family 0 true)
wait-WaitsFor_example = wait-WaitsFor family-Inv 0 true
