-- ===== src/Sysfile/Tests.antt =====
-- File descriptors of Lab-5 Task 5.2, kernel/sysfile.c, over a table of counts.
use cs344_os_lab.Base.{
  ℕ, ◌+◌, ◌-◌, refl, Bool, true, false, Option, List, [], none, some, ◌∷◌, arith,
}
use cs344_os_lab.Base.Tests.{if◌then◌else◌, ◌==◌, ==_self, ==_ne}
use cs344_os_lab.Base.Lists.{replicate}
use cs344_os_lab.Base.Int.{pos}
use cs344_os_lab.Sysfile.Files.{FileTable, Counts}
use cs344_os_lab.Sysfile.{State, sys_dup}
use cs344_os_lab.Sysfile.Pipe.{sys_pipe}
use cs344_os_lab.Sysfile.Pipe.Ends.{Piped, has_pipe, sys_pipe-Ends}
use cs344_os_lab.Sysfile.Balance.{one, uses, Balanced, Dups, sys_dup-Dups}

abbrev tally : FileTable (ℕ → ℕ)
tally = record {
  filedup = λ t f g. if g == f then t g + 1 else t g;
  fileclose = λ t f g. if g == f then t g - 1 else t g;
  refs = λ t f. t f;
}

tally-Counts : Counts tally
tally-Counts = record {
  dup_here = λ t f. rw (==_self f) refl;
  dup_else = λ t f g n. rw (==_ne g f n) refl;
  close_here = λ t f. rw (==_self f) refl;
  close_else = λ t f g n. rw (==_ne g f n) refl;
}

-- descriptor 0 holds file 7, to which another process has a reference too
abbrev opened : State tally
opened = record { ofile = some 7 ∷ replicate 15 none; table = λ g. if 7 == g then 2 else 0 }

abbrev elsewhere : ℕ → ℕ
elsewhere g = if 7 == g then 1 else 0

opened-Balanced : Balanced tally tally-Counts elsewhere opened
unfolding uses one
opened-Balanced = record { size = refl; balance = λ g. ground arith }

sys_dup-Dups_example :
    Balanced tally tally-Counts elsewhere (sys_dup tally opened (pos 0)).1
    × Dups tally tally-Counts elsewhere opened (pos 0) (sys_dup tally opened (pos 0))
sys_dup-Dups_example = sys_dup-Dups tally tally-Counts elsewhere opened (pos 0) opened-Balanced

-- Files 8 and 9 are the ends of a new pipe.
abbrev new_pipe : (ℕ → ℕ) → Option (ℕ × ℕ) × (ℕ → ℕ)
new_pipe t = (some (8, 9), λ g. t g + one (some 8) g + one (some 9) g)

-- The first copy to memory succeeds, and a second one fails; memory is the list of what was copied.
abbrev copy_one : ℕ → ℕ → List ℕ → Bool × List ℕ
copy_one a fd [] = (true, fd ∷ [])
copy_one a fd (x ∷ xs) = (false, x ∷ xs)

sys_pipe-Ends_example :
    Balanced tally tally-Counts elsewhere (sys_pipe tally copy_one 64 new_pipe [] opened).2
    × Piped tally copy_one 64 opened.ofile []
        (new_pipe opened.table).0
        (sys_pipe tally copy_one 64 new_pipe [] opened)
sys_pipe-Ends_example =
    sys_pipe-Ends tally tally-Counts elsewhere copy_one 64 [] new_pipe opened
      (has_pipe 8 9 _ (λ h. refl)) opened-Balanced
