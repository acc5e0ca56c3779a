-- ===== src/Fs/Names.antt =====
-- Path lookup: `namex`, `namei` and `nameiparent` of Lab-5 Task 5.1, kernel/fs.c.
pub mod Tidy
pub mod Got
pub mod Walk
pub mod Steps
pub mod Descend
pub mod Resolves
pub mod Start
pub mod Tests
use cs344_os_lab.Base.{
  ℕ, zero, suc, ◌+◌, Bool, true, false, not, ◌&&◌, Option, none, some, List, [], ◌∷◌,
}
use cs344_os_lab.Base.Tests.{◌==◌, ltb, if◌then◌else◌}
use cs344_os_lab.Base.Partial.{◌>>=◌}
use cs344_os_lab.Base.Lists.{length}
use cs344_os_lab.Fs.Path.{slash, skipelem}
use cs344_os_lab.Fs.Itable.{inode, iget, idup}
use cs344_os_lab.Fs.Inodes.{Fsys, ilock, iunlock, iput, iunlockput}
use cs344_os_lab.Fs.Dirs.{t_dir, dirlookup}

-- How a round of the loop of `namex` ends: it returns an entry of the table or 0, or the walk is now
-- at another entry.
pub data Round : Type 0 where
  returns : Option ℕ → Fsys → Round
  goes : ℕ → Fsys → Round

-- How the lookup ends: the fuel is used up; a panic; a wait for the sleep lock of an entry, which the caller
-- may never get; or a return, with what is in `name`.
pub data Outcome : Type 0 where
  endless : Outcome
  panics : Outcome
  waits : ℕ → Outcome
  gives : Option ℕ → List ℕ → Fsys → Outcome

abbrev pub is_nil : List ℕ → Bool
is_nil [] = true
is_nil (c ∷ s) = false

-- `ilock` waits: its test for a panic has passed, and the lock is held.
abbrev pub lock_waits : ℕ → Fsys → Bool
lock_waits i f = not (ltb (inode f.table i).ref 1) && f.locked i

-- `iput` waits: it is about to free the inode, and the lock is held.
abbrev pub put_waits : ℕ → Fsys → Bool
put_waits i f = let ip = inode f.table i in ip.ref == 1 && (ip.valid && ip.nlink == 0) && f.locked i

-- `if(nameiparent){ iput(ip); return 0; } return ip;`
unfoldable pub finish : Bool → List ℕ → ℕ → Fsys → Outcome
finish parent name ip f =
    if parent
    then (if put_waits ip f
        then waits ip
        else elim (iput ip f) [ none ↦ panics | some g ↦ gives none name g ])
    else gives (some ip) name f

-- `if(*path == '/') ip = iget(ROOTDEV, ROOTINO); else ip = idup(myproc()->cwd);`
unfoldable pub first_inode : List ℕ → ℕ → Fsys → Option (ℕ × Fsys)
first_inode [] cwd f = some (cwd, record f { table = idup f.table cwd })
first_inode (c ∷ path) cwd f =
    if c == slash
    then (do g ← iget f.table 1 1; some (g.0, record f { table = g.1 }))
    else some (cwd, record f { table = idup f.table cwd })

module _ (size : ℕ) (parent : Bool) where
  -- `if((next = dirlookup(ip, name, 0)) == 0){ ... } iunlockput(ip); ip = next;`
  unfoldable pub descend : List ℕ → ℕ → Fsys → Option Round
  descend name ip f = do
    r ← dirlookup size ip name f
    h ← iunlockput ip r.1
    some (elim (r.0) [ none ↦ returns none h | some next ↦ goes next.0 h ])

  -- The body of the loop after `skipelem` has given the rest of the path and the name.
  unfoldable pub name_round : List ℕ → List ℕ → ℕ → Fsys → Option Round
  name_round path name ip f = do
    g ← ilock ip f
    (if (inode g.table ip).type == t_dir
        then (if parent && is_nil path
            then (do h ← iunlock ip g; some (returns (some ip) h))
            else descend name ip g)
        else (do h ← iunlockput ip g; some (returns none h)))

  unfoldable pub namex_loop : ℕ → List ℕ → List ℕ → ℕ → Fsys → Outcome
  namex_loop zero path name ip f = endless
  namex_loop (suc fuel) path name ip f = elim (skipelem path) [
    | none ↦ finish parent name ip f
    | some e ↦ elim (lock_waits ip f) [
      | true ↦ waits ip
      | false ↦ elim (name_round e.0 e.1 ip f) [
        | none ↦ panics
        | some r ↦ elim r [
          | returns q g ↦ gives q e.1 g
          | goes next g ↦ namex_loop fuel e.0 e.1 next g
        ]
      ]
    ]
  ]

  -- Every round takes at least one byte off the path.
  unfoldable pub namex : List ℕ → ℕ → Fsys → Outcome
  namex path cwd f = elim (first_inode path cwd f) [
    | none ↦ panics
    | some s ↦ namex_loop (length path + 1) path [] s.0 s.1
  ]

unfoldable pub namei : ℕ → List ℕ → ℕ → Fsys → Outcome
namei size path cwd f = namex size false path cwd f

unfoldable pub nameiparent : ℕ → List ℕ → ℕ → Fsys → Outcome
nameiparent size path cwd f = namex size true path cwd f
