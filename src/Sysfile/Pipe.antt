-- ===== src/Sysfile/Pipe.antt =====
-- `sys_pipe` of Lab-5 Task 5.2, kernel/sysfile.c, over the table of open files. `pipealloc` of
-- kernel/pipe.c and `copyout` of kernel/vm.c are not in the repository: what they do is a parameter.
pub mod Ends
use cs344_os_lab.Base.{ℕ, ◌+◌, Bool, true, false, Option, none, some}
use cs344_os_lab.Base.Tests.{if◌then◌else◌}
use cs344_os_lab.Base.Lists.{set}
use cs344_os_lab.Base.Int.{ℤ, pos, minus_one}
use cs344_os_lab.Sysfile.Files.{FileTable}
use cs344_os_lab.Sysfile.{Descriptors, State, fdalloc}

-- `copyout` of an `int` to an address of the caller's memory: whether it succeeds, and the memory after it.
abbrev pub Copyout : Type 0 → Type 0
Copyout M = ℕ → ℕ → M → Bool × M

module _ {F M : Type 0} (files : FileTable F) (copyout : Copyout M) (fdarray : ℕ) where
  -- Both files are closed.
  unfoldable pub pipe_fails : ℕ → ℕ → M → Descriptors → F → ℤ × M × State files
  pipe_fails rf wf m ofile t =
      (minus_one, m, record { ofile = ofile; table = files.fileclose (files.fileclose t rf) wf })

  -- The files have the descriptors `fd0` and `fd1`.
  unfoldable pub pipe_copies : ℕ → ℕ → ℕ → ℕ → M → Descriptors → F → ℤ × M × State files
  pipe_copies rf wf fd0 fd1 m ofile t =
      let c = copyout fdarray fd0 m in
      let d = copyout (fdarray + 4) fd1 c.1 in
      if c.0
      then (if d.0
          then (pos 0, d.1, record { ofile = ofile; table = t })
          else pipe_fails rf wf d.1 (set (set ofile fd0 none) fd1 none) t)
      else pipe_fails rf wf c.1 (set (set ofile fd0 none) fd1 none) t

  -- After `pipealloc`, which gives the file to read from and the one to write to.
  unfoldable pub pipe_files : M → Descriptors → Option (ℕ × ℕ) → F → ℤ × M × State files
  pipe_files m ofile none t = (minus_one, m, record { ofile = ofile; table = t })
  pipe_files m ofile (some p) t = elim (fdalloc ofile p.0) [
    | none ↦ pipe_fails p.0 p.1 m ofile t
    | some d ↦ elim (fdalloc d.1 p.1) [
      | none ↦ pipe_fails p.0 p.1 m (set d.1 d.0 none) t
      | some e ↦ pipe_copies p.0 p.1 d.0 e.0 m e.1 t
    ]
  ]

  unfoldable pub sys_pipe : (F → Option (ℕ × ℕ) × F) → M → State files → ℤ × M × State files
  sys_pipe pipealloc m st = pipe_files m st.ofile (pipealloc st.table).0 (pipealloc st.table).1
