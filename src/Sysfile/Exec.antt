-- ===== src/Sysfile/Exec.antt =====
-- `sys_exec` of Lab-5 Task 5.2, kernel/sysfile.c. The page allocator and `kexec` of kernel/exec.c are not
-- in the repository: they are a parameter, on a state `P`.
pub mod Runs
mod Tests
use cs344_os_lab.Base.{
  ℕ, zero, suc, ◌+◌, ◌*◌, ◌%◌, ◌^◌, Bool, true, false, Option, none, some, List, [], ◌∷◌, ◌++◌,
}
use cs344_os_lab.Base.Int.{ℤ, minus_one}
use cs344_os_lab.Syscall.{User, fetchaddr, fetchstr}

-- MAXARG of kernel/param.h
abbrev pub maxarg : ℕ
maxarg = 32

-- `kalloc` returns no null pointer but for failing, which is `none`. `kexec` has the path and the strings
-- in the pages of `argv`.
pub record Pages (P : Type 0) : Type 0 where
  pub kalloc : P → Option ℕ × P
  pub kfree : ℕ → P → P
  pub kexec : List ℕ → List (List ℕ) → P → ℤ × P

-- The entries of `argv` up to the first null pointer: each page and the string in it.
abbrev pub Argv : Type 0
Argv = List (ℕ × List ℕ)

abbrev pub texts : Argv → List (List ℕ)
texts [] = []
texts (a ∷ rest) = a.1 ∷ texts rest

module _ {P : Type 0} (pages : Pages P) (p : User) where
  -- The loop that frees the pages.
  unfoldable pub free_args : Argv → P → P
  free_args [] s = s
  free_args (a ∷ rest) s = free_args rest (pages.kfree a.0 s)

  -- The loop over the arguments from number `i` on, `fuel` short of MAXARG; `false` is a jump to `bad`.
  unfoldable pub fetch_args : ℕ → ℕ → ℕ → Argv → P → Bool × Argv × P
  fetch_args zero uargv i argv s = (false, argv, s)
  fetch_args (suc fuel) uargv i argv s = elim (fetchaddr p ((uargv + 8 * i) % 2 ^ 64)) [
    | none ↦ (false, argv, s)
    | some zero ↦ (true, argv, s)
    | some (suc a) ↦ elim ((pages.kalloc s).0) [
      | none ↦ (false, argv, (pages.kalloc s).1)
      | some page ↦ elim (fetchstr p (suc a) 4096) [
        | none ↦ (false, argv ++ ((page, []) ∷ []), (pages.kalloc s).1)
        | some text ↦ fetch_args fuel uargv (i + 1) (argv ++ ((page, text) ∷ [])) (pages.kalloc s).1
      ]
    ]
  ]

  -- After the loop.
  unfoldable pub exec_args : List ℕ → Bool × Argv × P → ℤ × P
  exec_args path (false, argv, s) = (minus_one, free_args argv s)
  exec_args path (true, argv, s) =
      ((pages.kexec path (texts argv) s).0, free_args argv (pages.kexec path (texts argv) s).1)

  unfoldable pub sys_exec : Option (List ℕ) → ℕ → P → ℤ × P
  sys_exec none uargv s = (minus_one, s)
  sys_exec (some path) uargv s = exec_args path (fetch_args maxarg uargv 0 [] s)
