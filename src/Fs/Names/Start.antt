-- ===== src/Fs/Names/Start.antt =====
-- Where `namex` of Lab-5 Task 5.1, kernel/fs.c, starts, and what it promises.
use cs344_os_lab.Base.{ℕ, ◌≡◌, ◌≢◌, Bool, Option, none, some, List, [], ◌∷◌}
use cs344_os_lab.Base.Tests.{if◌then◌else◌, ◌==◌}
use cs344_os_lab.Base.Search.{NonePasses}
use cs344_os_lab.Base.Lists.{length}
use cs344_os_lab.Fs.Itable.{no_inode, inode, holds, is_spare}
use cs344_os_lab.Fs.Inodes.{Fsys}
use cs344_os_lab.Fs.Path.{slash}
use cs344_os_lab.Fs.Path.Elements.{elements}
use cs344_os_lab.Fs.Names.{Outcome, panics}
use cs344_os_lab.Fs.Accounts.{ref_at}
use cs344_os_lab.Fs.Names.Steps.{Ready}
use cs344_os_lab.Fs.Names.Resolves.{Reached, Counted}

-- The inode that the walk starts from: the root, or the current directory.
pub start_of : List ℕ → ℕ → Fsys → ℕ
start_of [] cwd f = (inode f.table cwd).inum
start_of (c ∷ path) cwd f = if c == slash then 1 else (inode f.table cwd).inum

-- The first reference of the walk.
data Begins (f : Fsys) (path : List ℕ) (k : ℕ) : Option (ℕ × Fsys) → Type 0 where
  begins :
      (ip : ℕ) (g : Fsys)
      → g.disk ≡ f.disk
      → Ready g
      → (inode g.table ip).ref ≢ 0
      → (inode g.table ip).inum ≡ k
      → Counted (ref_at f.table) (length f.table) ip g
      → Begins f path k (some (ip, g))
  no_room :
      (rest : List ℕ)
      → path ≡ slash ∷ rest
      → NonePasses (holds 1 1) no_inode f.table
      → NonePasses is_spare no_inode f.table
      → Begins f path k none

-- How `namex` ends: as the walk from where the path starts, with the counts of the table at its start, or
-- in the panic of `iget` at the root, when a path that begins with a slash finds no entry for it and
-- every entry is in use.
pub data Resolved (f : Fsys) (parent : Bool) (path : List ℕ) (cwd : ℕ) : Outcome → Type 0 where
  no_root :
      (rest : List ℕ)
      → path ≡ slash ∷ rest
      → NonePasses (holds 1 1) no_inode f.table
      → NonePasses is_spare no_inode f.table
      → Resolved f parent path cwd panics
  walks :
      (o : Outcome)
      → Reached f.disk
          (ref_at f.table)
          (length f.table)
          parent
          (start_of path cwd f)
          []
          (elements path)
          o
      → Resolved f parent path cwd o
