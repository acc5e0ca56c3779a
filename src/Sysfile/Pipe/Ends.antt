-- ===== src/Sysfile/Pipe/Ends.antt =====
-- Descriptors and reference counts under `sys_pipe` of Lab-5 Task 5.2, kernel/sysfile.c.
use cs344_os_lab.Base.{
  ℕ, ◌+◌, ◌≡◌, ◌≢◌, refl, sym, ◌∙◌, ap, subst, true, false, Option, none, some, arith, inl, inr,
}
use mathlib.Core.Bool.{false≢true}
use cs344_os_lab.Base.Tests.{Bool-cases}
use cs344_os_lab.Base.Search.{first_cases, IsFirst, NonePasses}
use cs344_os_lab.Base.Lists.{
  length, get_or, set, length-set, get_or-set_self, get_or-set_ne, set-set, set-get_or, set_comm,
}
use cs344_os_lab.Base.Int.{ℤ, pos, minus_one}
use cs344_os_lab.Sysfile.Files.{FileTable, Counts}
use cs344_os_lab.Sysfile.{nofile, Descriptors, is_empty, fdalloc, State}
use cs344_os_lab.Sysfile.Balance.{one, uses, uses-set, Balanced, close_refs, empty_one}
use cs344_os_lab.Sysfile.Pipe.{Copyout, pipe_fails, pipe_copies, pipe_files, sys_pipe}

empty_none : (d : Option ℕ) → is_empty d ≡ true → d ≡ none
empty_none none e = refl
empty_none (some f) e = absurd (false≢true e)

-- A descriptor that was free is freed again.
undo :
    (ofile : Descriptors) (k : ℕ) (d : Option ℕ)
    → get_or ofile k none ≡ none
    → set (set ofile k d) k none ≡ ofile
undo ofile k d e =
    set-set ofile k d none ∙ ap (λ x. set ofile k x) (sym e) ∙ set-get_or ofile k none

undo_both :
    (ofile : Descriptors) (k l : ℕ) (d e : Option ℕ)
    → k ≢ l
    → get_or ofile k none ≡ none
    → get_or ofile l none ≡ none
    → set (set (set (set ofile k d) l e) k none) l none ≡ ofile
undo_both ofile k l d e ne h q =
    ap (λ x. set x l none) (set_comm (set ofile k d) l k e none (λ z. ne (sym z)))
    ∙ ap (λ x. set (set x l e) l none) (undo ofile k d h)
    ∙ undo ofile l e q

module _ {F : Type 0} (files : FileTable F) where
  -- `pipealloc` fails and leaves no reference, or gives two files a reference each.
  pub data Pipes (t : F) : Option (ℕ × ℕ) × F → Type 0 where
    no_pipe : (u : F) → ((h : ℕ) → files.refs u h ≡ files.refs t h) → Pipes t (none, u)
    has_pipe :
        (rf wf : ℕ) (u : F)
        → ((h : ℕ) → files.refs u h ≡ files.refs t h + one (some rf) h + one (some wf) h)
        → Pipes t (some (rf, wf), u)

  module _ {M : Type 0} (copyout : Copyout M) (fdarray : ℕ) where
    -- How a call ends, for what `pipealloc` returns: without a pipe; without two free descriptors; with a
    -- descriptor that cannot be copied to the caller; or with the first two free descriptors, each of
    -- which has been copied. Only the last leaves the descriptors changed.
    pub data Piped (ofile : Descriptors) (m : M)
        : Option (ℕ × ℕ) → ℤ × M × State files → Type 0 where
      no_files : (t : F) → Piped ofile m none (minus_one, m, record { ofile = ofile; table = t })
      full :
          (rf wf : ℕ) (t : F)
          → NonePasses is_empty none ofile
          → Piped ofile m (some (rf, wf)) (minus_one, m, record { ofile = ofile; table = t })
      one_left :
          (rf wf fd0 : ℕ) (t : F)
          → IsFirst is_empty none ofile fd0
          → NonePasses is_empty none (set ofile fd0 (some rf))
          → Piped ofile m (some (rf, wf)) (minus_one, m, record { ofile = ofile; table = t })
      first_lost :
          (rf wf fd0 fd1 : ℕ) (t : F)
          → IsFirst is_empty none ofile fd0
          → IsFirst is_empty none (set ofile fd0 (some rf)) fd1
          → (copyout fdarray fd0 m).0 ≡ false
          → Piped ofile m
              (some (rf, wf))
              (minus_one, (copyout fdarray fd0 m).1, record { ofile = ofile; table = t })
      second_lost :
          (rf wf fd0 fd1 : ℕ) (t : F)
          → IsFirst is_empty none ofile fd0
          → IsFirst is_empty none (set ofile fd0 (some rf)) fd1
          → (copyout fdarray fd0 m).0 ≡ true
          → (copyout (fdarray + 4) fd1 (copyout fdarray fd0 m).1).0 ≡ false
          → Piped ofile m (some (rf, wf)) (
            minus_one,
            (copyout (fdarray + 4) fd1 (copyout fdarray fd0 m).1).1,
            record { ofile = ofile; table = t },
          )
      piped :
          (rf wf fd0 fd1 : ℕ) (t : F)
          → IsFirst is_empty none ofile fd0
          → IsFirst is_empty none (set ofile fd0 (some rf)) fd1
          → (copyout fdarray fd0 m).0 ≡ true
          → (copyout (fdarray + 4) fd1 (copyout fdarray fd0 m).1).0 ≡ true
          → Piped ofile m (some (rf, wf)) (
            pos 0,
            (copyout (fdarray + 4) fd1 (copyout fdarray fd0 m).1).1,
            record { ofile = set (set ofile fd0 (some rf)) fd1 (some wf); table = t },
          )

  module _ (counts : Counts files) (others : ℕ → ℕ) where
    -- The counts after `pipealloc`.
    abbrev Holds : Descriptors → ℕ → ℕ → F → Type 0
    Holds ofile rf wf u =
        (length ofile ≡ nofile)
        × ((h : ℕ) → files.refs u h ≡ others h + uses ofile h + one (some rf) h + one (some wf) h)

    -- Both files are closed, and the descriptors are as they were.
    closed :
        (ofile : Descriptors) (rf wf : ℕ) (u : F)
        → Holds ofile rf wf u
        → Balanced files counts others
            (record { ofile = ofile; table = files.fileclose (files.fileclose u rf) wf })
    closed ofile rf wf u h = record {
      size = h.0;
      balance = λ g. omega (
        arith,
        close_refs files counts others (files.fileclose u rf) wf g,
        close_refs files counts others u rf g,
        h.1 g,
      );
    }

    module _ {M : Type 0} (copyout : Copyout M) (fdarray : ℕ) (m : M) where
      abbrev Ends : Descriptors → Option (ℕ × ℕ) → ℤ × M × State files → Type 0
      Ends ofile r x = Balanced files counts others x.2 × Piped copyout fdarray ofile m r x

      -- Both descriptors are found.
      pipe_copies-Ends :
          (ofile : Descriptors) (rf wf fd0 fd1 : ℕ) (u : F)
          → Holds ofile rf wf u
          → IsFirst is_empty none ofile fd0
          → IsFirst is_empty none (set ofile fd0 (some rf)) fd1
          → Ends ofile (some (rf, wf)) (
              pipe_copies files copyout fdarray rf wf fd0 fd1 m
                (set (set ofile fd0 (some rf)) fd1 (some wf))
                u)
      unfolding pipe_copies pipe_fails
      pipe_copies-Ends ofile rf wf fd0 fd1 u h p q = elim (Bool-cases (copyout fdarray fd0 m).0) [
        | inr e ↦
            rw (pipe_copies, e, back) (closed ofile rf wf u h, first_lost rf wf fd0 fd1 _ p q e)
        | inl e ↦ elim (Bool-cases (copyout (fdarray + 4) fd1 (copyout fdarray fd0 m).1).0) [
          | inr f ↦
              rw (pipe_copies, e, f, back)
                (closed ofile rf wf u h, second_lost rf wf fd0 fd1 _ p q e f)
          | inl f ↦ rw (pipe_copies, e, f) (both, piped rf wf fd0 fd1 _ p q e f)
        ]
      ]
        where
          ne : fd0 ≢ fd1
          ne e = false≢true (
              ap is_empty (sym (get_or-set_self ofile fd0 (some rf) none p.within))
              ∙ subst (λ k. is_empty (get_or (set ofile fd0 (some rf)) k none) ≡ true) (sym e)
                  q.passes)

          back : set (set (set (set ofile fd0 (some rf)) fd1 (some wf)) fd0 none) fd1 none ≡ ofile
          back =
              undo_both ofile fd0 fd1 (some rf) (some wf) ne (empty_none _ p.passes)
                (sym (get_or-set_ne ofile fd0 fd1 (some rf) none ne) ∙ empty_none _ q.passes)

          both :
              Balanced files counts others
                (record { ofile = set (set ofile fd0 (some rf)) fd1 (some wf); table = u })
          both = record {
            size =
                length-set (set ofile fd0 (some rf)) fd1 (some wf)
                ∙ length-set ofile fd0 (some rf)
                ∙ h.0;
            balance = λ g. omega (
              arith,
              h.1 g,
              uses-set ofile fd0 (some rf) g p.within,
              empty_one files counts others _ g p.passes,
              uses-set (set ofile fd0 (some rf)) fd1 (some wf) g q.within,
              empty_one files counts others _ g q.passes,
            );
          }

      pipe_files-Ends :
          (ofile : Descriptors) (t : F) (r : Option (ℕ × ℕ) × F)
          → (length ofile ≡ nofile)
          → ((h : ℕ) → files.refs t h ≡ others h + uses ofile h)
          → Pipes t r
          → Ends ofile r.0 (pipe_files files copyout fdarray m ofile r.0 r.1)
      unfolding pipe_files pipe_fails fdalloc
      pipe_files-Ends ofile t _ l h (no_pipe u e) =
          (record { size = l; balance = λ g. e g ∙ h g }, no_files u)
      pipe_files-Ends ofile t _ l h (has_pipe rf wf u e) =
          let holds : Holds ofile rf wf u = (l, λ g. omega (arith, e g, h g)) in
          elim (first_cases is_empty none ofile) [
            | inl (n, g) ↦ rw (pipe_files, fdalloc, n) (closed ofile rf wf u holds, full rf wf _ g)
            | inr (k, n, g) ↦ elim (first_cases is_empty none (set ofile k (some rf))) [
              | inl (j, z) ↦
                  rw (pipe_files, fdalloc, n, j, undo ofile k (some rf) (empty_none _ g.passes))
                    (closed ofile rf wf u holds, one_left rf wf k _ g z)
              | inr (i, j, z) ↦
                  rw (pipe_files, fdalloc, n, j) (pipe_copies-Ends ofile rf wf k i u holds g z)
            ]
          ]

      -- `sys_pipe`, when `pipealloc` gives two files a reference each or fails and leaves none: it
      -- returns 0 exactly when there is a pipe, two descriptors are free, and both copies to the caller's
      -- memory succeed. Then the first two free descriptors hold the two files, and those two numbers
      -- are what has been copied, to `fdarray` and 4 bytes on. Otherwise it returns -1 and the
      -- descriptors are as they were. On every branch each file has one reference for each descriptor
      -- that holds it.
      pub sys_pipe-Ends :
          (pipealloc : F → Option (ℕ × ℕ) × F) (st : State files)
          → Pipes st.table (pipealloc st.table)
          → Balanced files counts others st
          → Balanced files counts others (sys_pipe files copyout fdarray pipealloc m st).2
            × Piped copyout fdarray st.ofile m
                (pipealloc st.table).0
                (sys_pipe files copyout fdarray pipealloc m st)
      unfolding sys_pipe
      sys_pipe-Ends pipealloc st p i =
          pipe_files-Ends st.ofile st.table (pipealloc st.table) i.size i.balance p
