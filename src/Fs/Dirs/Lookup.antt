-- ===== src/Fs/Dirs/Lookup.antt =====
-- What `dirlookup` of Lab-5 Task 5.1, kernel/fs.c, finds.
use cs344_os_lab.Base.{ℕ, ◌≡◌, refl, Option, none, some, List, arith}
use cs344_os_lab.Base.Partial.{◌>>=◌}
use cs344_os_lab.Base.Lists.{set-get_or}
use cs344_os_lab.Fs.{Inode}
use cs344_os_lab.Fs.Itable.{no_inode, inode, iget}
use cs344_os_lab.Fs.Inodes.{Fsys, open_at, back}
use cs344_os_lab.Fs.Dirs.{t_dir, dirlookup}
use cs344_os_lab.Fs.Dirs.Scan.{Dense, Finds, find_entry-Finds}

-- How `dirlookup` ends: no entry in use has the name; or the first that has it, at offset `off`, gives
-- an inode, to which `iget` gives an entry of the table; or `iget` panics.
pub data Looks (name : List ℕ) (f : Fsys) (i : ℕ) : Option (Option (ℕ × ℕ) × Fsys) → Type 0 where
  missing : Finds name (open_at f i) 0 none → Looks name f i (some (none, f))
  present :
      (off inum : ℕ) (g : ℕ × List Inode)
      → Finds name (open_at f i) 0 (some (off, inum))
      → iget f.table (inode f.table i).dev inum ≡ some g
      → Looks name f i (some (some (g.0, off), record f { table = g.1 }))
  no_room :
      (off inum : ℕ)
      → Finds name (open_at f i) 0 (some (off, inum))
      → iget f.table (inode f.table i).dev inum ≡ none
      → Looks name f i none

looked :
    (name : List ℕ) (f : Fsys) (i off inum : ℕ) (r : Option (ℕ × List Inode))
    → Finds name (open_at f i) 0 (some (off, inum))
    → iget f.table (inode f.table i).dev inum ≡ r
    → Looks name f i (r >>= (λ g. some (some (g.0, off), record f { table = g.1 })))
looked name f i off inum none h e = no_room off inum h e
looked name f i off inum (some g) h e = present off inum g h e

-- `dirlookup` of a directory that has whole entries and a block for each of its bytes: its only panic
-- is that of `iget`. It returns 0, with nothing changed, exactly when no entry in use has the name;
-- otherwise what `iget` gives for the inode of the first entry that has it, and that entry's offset.
pub dirlookup-Looks :
    (size i : ℕ) (name : List ℕ) (f : Fsys)
    → (inode f.table i).type ≡ t_dir
    → Dense (open_at f i)
    → Looks name f i (dirlookup size i name f)
unfolding dirlookup
dirlookup-Looks size i name f t d =
    let r =
      find_entry-Finds size (open_at f i) name (inode f.table i).size 0 d refl (omega arith) in
    rw (dirlookup, t, r.1) (ends r.0 r.2)
  where
    ends :
        (r : Option (ℕ × ℕ))
        → Finds name (open_at f i) 0 r
        → Looks name f i (elim r as (λ x. Option (Option (ℕ × ℕ) × Fsys)) [
          | none ↦ some (none, back i f (open_at f i))
          | some e ↦
              (iget (back i f (open_at f i)).table (inode f.table i).dev e.1
                >>= (λ g. some (some (g.0, e.0), record (back i f (open_at f i)) { table = g.1 })))
        ])
    ends none h = rw (set-get_or f.table i no_inode) (missing h)
    ends (some e) h = rw (set-get_or f.table i no_inode) (looked name f i e.0 e.1 _ h refl)
