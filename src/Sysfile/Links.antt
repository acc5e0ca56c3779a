-- ===== src/Sysfile/Links.antt =====
-- `sys_link`, `isdirempty` and `sys_unlink` of Lab-5 Task 5.2, kernel/sysfile.c. A path argument is
-- `none` when `argstr` returns -1; the counts of links are 16-bit numbers, negative from 2 ^ 15 on.
pub mod Balance
use cs344_os_lab.Base.{
  ℕ, zero, suc, ◌+◌, ◌%◌, Bool, true, false, not, ◌&&◌, ◌||◌, Option, none, some, List, [], ◌∷◌,
}
use cs344_os_lab.Base.Tests.{ltb, leb, ◌==◌, if◌then◌else◌}
use cs344_os_lab.Base.Int.{ℤ, pos, minus_one, eq_int, is_neg}
use cs344_os_lab.Base.Partial.{◌>>=◌}
use cs344_os_lab.Fs.Dirs.{t_dir, dirent_size, inum_at, namecmp, string}
use cs344_os_lab.Sysfile.Calls.{FileSystem, iunlockput}

abbrev pub nlink_up : ℕ → ℕ
nlink_up n = (n + 1) % 65536

abbrev pub nlink_down : ℕ → ℕ
nlink_down n = (n + 65535) % 65536

module _ {S : Type 0} (fs : FileSystem S) where
  -- `end_op(); return r;`
  abbrev pub ends : ℤ → S → ℤ × S
  ends r s = (r, fs.end_op s)

  -- `ip->nlink++; iupdate(ip);`
  abbrev pub count_up : ℕ → S → S
  count_up i s = fs.iupdate i (fs.set_nlink i (nlink_up (fs.ip s i).nlink) s)

  -- `ip->nlink--; iupdate(ip);`
  abbrev pub count_down : ℕ → S → S
  count_down i s = fs.iupdate i (fs.set_nlink i (nlink_down (fs.ip s i).nlink) s)

  -- The label `bad` of `sys_link`.
  unfoldable pub link_bad : ℕ → S → Option (ℤ × S)
  link_bad ip s = do
    t ← fs.ilock ip s
    u ← iunlockput fs ip (count_down ip t)
    some (ends minus_one u)

  -- From `nameiparent` on: `dp` and the name, or nothing.
  unfoldable pub link_new : ℕ → Option (ℕ × List ℕ) → S → Option (ℤ × S)
  link_new ip none s = link_bad ip s
  link_new ip (some p) s = do
    t ← fs.ilock p.0 s
    (if not ((fs.ip t p.0).dev == (fs.ip t ip).dev)
        then (do u ← iunlockput fs p.0 t; link_bad ip u)
        else (do
          w ← fs.dirlink p.0 p.1 (fs.ip t ip).inum t
          u ← iunlockput fs p.0 w.1
          (if is_neg w.0 then link_bad ip u else (do v ← fs.iput ip u; some (ends (pos 0) v)))))

  -- From `namei(old)` on.
  unfoldable pub link_old : ℕ → Option ℕ → List ℕ → S → Option (ℤ × S)
  link_old cwd none new s = some (ends minus_one s)
  link_old cwd (some ip) new s = do
    t ← fs.ilock ip s
    (if (fs.ip t ip).type == t_dir
        then (do u ← iunlockput fs ip t; some (ends minus_one u))
        else (do
          u ← fs.iunlock ip (count_up ip t)
          r ← fs.nameiparent cwd new u
          link_new ip r.0 r.1))

  unfoldable pub sys_link : ℕ → Option (List ℕ) → Option (List ℕ) → S → Option (ℤ × S)
  sys_link cwd none new s = some (minus_one, s)
  sys_link cwd (some old) none s = some (minus_one, s)
  sys_link cwd (some old) (some new) s = do
    a ← fs.begin_op s
    r ← fs.namei cwd old a
    link_old cwd r.0 new r.1

  -- The loop of `isdirempty`, with fuel: from the third entry on, all are unused.
  unfoldable pub all_unused : ℕ → ℕ → ℕ → S → Option (Bool × S)
  all_unused zero dp off s = some (true, s)
  all_unused (suc fuel) dp off s = elim (ltb off (fs.ip s dp).size) [
    | false ↦ some (true, s)
    | true ↦ do
      r ← fs.readi dp off dirent_size s
      (if not (eq_int r.0 (pos dirent_size))
          then none
          else if not (inum_at r.1 0 == 0)
          then some (false, r.2)
          else all_unused fuel dp (off + dirent_size) r.2)
  ]

  unfoldable pub isdirempty : ℕ → S → Option (Bool × S)
  isdirempty dp s = all_unused (fs.ip s dp).size dp 32 s

  -- The label `bad` of `sys_unlink`.
  unfoldable pub unlink_bad : ℕ → S → Option (ℤ × S)
  unlink_bad dp s = do u ← iunlockput fs dp s; some (ends minus_one u)

  -- The entry is written over with zeros, and the counts of links go down.
  unfoldable pub erase : ℕ → ℕ → ℕ → S → Option (ℤ × S)
  erase dp ip off s = do
    w ← fs.writei dp (λ j. 0) off dirent_size s
    (if not (eq_int w.0 (pos dirent_size)) then none else (do
      t ← iunlockput fs dp (if (fs.ip w.1 ip).type == t_dir then count_down dp w.1 else w.1)
      u ← iunlockput fs ip (count_down ip t)
      some (ends (pos 0) u)))

  -- From `dirlookup` on.
  unfoldable pub unlink_entry : ℕ → Option (ℕ × ℕ) → S → Option (ℤ × S)
  unlink_entry dp none s = unlink_bad dp s
  unlink_entry dp (some e) s = do
    t ← fs.ilock e.0 s
    (if (fs.ip t e.0).nlink == 0 || leb 32768 (fs.ip t e.0).nlink
        then none
        else if (fs.ip t e.0).type == t_dir
        then (do
          r ← isdirempty e.0 t
          (if r.0 then erase dp e.0 e.1 r.1 else (do u ← iunlockput fs e.0 r.1; unlink_bad dp u)))
        else erase dp e.0 e.1 t)

  -- `namecmp(name, ".") == 0 || namecmp(name, "..") == 0`
  abbrev pub is_dots : List ℕ → Bool
  is_dots name =
      eq_int (namecmp (string name) (string (46 ∷ []))) (pos 0)
      || eq_int (namecmp (string name) (string (46 ∷ 46 ∷ []))) (pos 0)

  -- From `nameiparent` on.
  unfoldable pub unlink_in : Option (ℕ × List ℕ) → S → Option (ℤ × S)
  unlink_in none s = some (ends minus_one s)
  unlink_in (some p) s = do
    t ← fs.ilock p.0 s
    (if is_dots p.1
        then unlink_bad p.0 t
        else (do r ← fs.dirlookup p.0 p.1 t; unlink_entry p.0 r.0 r.1))

  unfoldable pub sys_unlink : ℕ → Option (List ℕ) → S → Option (ℤ × S)
  sys_unlink cwd none s = some (minus_one, s)
  sys_unlink cwd (some path) s = do
    a ← fs.begin_op s
    r ← fs.nameiparent cwd path a
    unlink_in r.0 r.1
