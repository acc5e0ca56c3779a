-- ===== src/Sysfile.antt =====
-- File descriptors: Lab-5 Task 5.2, kernel/sysfile.c. The files themselves (kernel/file.c) are not in
-- the repository: `Files` is what the system calls do to them.
pub mod Files
pub mod Calls
pub mod Settled
pub mod Links
pub mod Create
pub mod Open
pub mod Pipe
pub mod Exec
pub mod OverFs
pub mod Balance
mod Tests
use cs344_os_lab.Base.{ℕ, ◌+◌, Bool, true, false, Option, none, some, List}
use cs344_os_lab.Base.Tests.{ltb, if◌then◌else◌}
use cs344_os_lab.Base.Search.{first}
use cs344_os_lab.Base.Lists.{get_or, set}
use cs344_os_lab.Base.Int.{ℤ, pos, negsuc, minus_one}
use cs344_os_lab.Sysfile.Files.{FileTable}

abbrev pub nofile : ℕ
nofile = 16

-- `ofile` of a process: the file of each descriptor, `none` for a null pointer
abbrev pub Descriptors : Type 0
Descriptors = List (Option ℕ)

abbrev pub file_of : Descriptors → ℕ → Option ℕ
file_of ofile fd = get_or ofile fd none

-- The descriptor and its file; `none` is the return of -1.
pub argfd : Descriptors → ℤ → Option (ℕ × ℕ)
argfd ofile (negsuc n) = none
argfd ofile (pos fd) =
    if ltb fd nofile then elim (file_of ofile fd) [ none ↦ none | some f ↦ some (fd, f) ] else none

abbrev pub is_empty : Option ℕ → Bool
is_empty none = true
is_empty (some f) = false

pub fdalloc : Descriptors → ℕ → Option (ℕ × Descriptors)
unfolding first
fdalloc ofile f = elim (first is_empty ofile) [
  | none ↦ none
  | some fd ↦ some (fd, set ofile fd (some f))
]

module _ {F : Type 0} (files : FileTable F) where
  pub record State : Type 0 where
    pub ofile : Descriptors
    pub table : F

  pub sys_dup : State → ℤ → ℤ × State
  sys_dup st n = elim (argfd st.ofile n) [
    | none ↦ (minus_one, st)
    | some a ↦ elim (fdalloc st.ofile a.1) [
      | none ↦ (minus_one, st)
      | some d ↦ (pos d.0, record { ofile = d.1; table = files.filedup st.table a.1 })
    ]
  ]

  pub sys_close : State → ℤ → ℤ × State
  sys_close st n = elim (argfd st.ofile n) [
    | none ↦ (minus_one, st)
    | some a ↦
        (pos 0, record { ofile = set st.ofile a.0 none; table = files.fileclose st.table a.1 })
  ]

  -- `sys_read`, `sys_write` and `sys_fstat`: `call` is fileread, filewrite or filestat with its other
  -- arguments.
  pub sys_on_file : (F → ℕ → ℤ × F) → State → ℤ → ℤ × State
  sys_on_file call st n = elim (argfd st.ofile n) [
    | none ↦ (minus_one, st)
    | some a ↦ ((call st.table a.1).0, record st { table = (call st.table a.1).1 })
  ]
