-- ===== src/Fs/Dirs.antt =====
-- Directories: `namecmp`, `dirlookup` and `dirlink` of Lab-5 Task 5.1, kernel/fs.c. `none` is a panic.
-- The C library's `strncmp` and `strncpy` are written out; a name is the list of its bytes before the
-- NUL. `de` is the kernel's own memory, so the copies to and from it do not fail.
pub mod Scan
pub mod Lookup
pub mod Link
pub mod Adds
use cs344_os_lab.Base.{
  ℕ, zero, suc, ◌+◌, ◌-◌, ◌*◌, ◌/◌, ◌%◌, Bool, true, false, not, ◌&&◌, ◌||◌, Option, none, some,
  List,
}
use cs344_os_lab.Base.Tests.{ltb, ◌==◌, if◌then◌else◌}
use cs344_os_lab.Base.Int.{ℤ, pos, minus_one, eq_int, minus}
use cs344_os_lab.Base.Partial.{◌>>=◌}
use cs344_os_lab.Base.Lists.{get_or}
use cs344_os_lab.Fs.{Open}
use cs344_os_lab.Fs.Io.{readi, writei}
use cs344_os_lab.Fs.Path.{dirsiz}
use cs344_os_lab.Fs.Itable.{inode, iget}
use cs344_os_lab.Fs.Inodes.{Fsys, open_at, back, iput}

-- `T_DIR` of kernel/stat.h
abbrev pub t_dir : ℕ
t_dir = 1

-- `sizeof(struct dirent)`
abbrev pub dirent_size : ℕ
dirent_size = 16

unfoldable pub strncmp : ℕ → (ℕ → ℕ) → (ℕ → ℕ) → ℤ
strncmp zero p q = pos 0
strncmp (suc n) p q =
    let rest = strncmp n (λ i. p (i + 1)) (λ i. q (i + 1)) in
    if p 0 == 0 || not (p 0 == q 0) then minus (p 0) (q 0) else rest

-- The bytes of a string: 0 from its NUL on.
abbrev pub string : List ℕ → ℕ → ℕ
string s i = get_or s i 0

unfoldable pub namecmp : (ℕ → ℕ) → (ℕ → ℕ) → ℤ
namecmp s t = strncmp dirsiz s t

-- The fields of an entry at offset `off` of `p`.
abbrev pub inum_at : (ℕ → ℕ) → ℕ → ℕ
inum_at p off = p off + 256 * p (off + 1)

abbrev pub name_at : (ℕ → ℕ) → ℕ → ℕ → ℕ
name_at p off i = p (off + 2 + i)

abbrev pub kernel_copy : ℕ → ℕ → ℕ
kernel_copy tot m = m

-- Memory before something is read into it.
abbrev pub no_bytes : ℕ → ℕ
no_bytes i = 0

-- `strncpy(de.name, name, DIRSIZ); de.inum = inum;`
unfoldable pub new_entry : List ℕ → ℕ → ℕ → ℕ
new_entry name inum j =
    if j == 0
    then inum % 256
    else if j == 1
    then inum / 256 % 256
    else if ltb (j - 2) dirsiz
    then string name (j - 2)
    else 0

module _ (size : ℕ) where
  -- `if(readi(dp, 0, (uint64)&de, off, sizeof(de)) != sizeof(de)) panic(...)`
  unfoldable pub read_entry : ℕ → Open → Option ((ℕ → ℕ) × Open)
  read_entry off o = do
    r ← readi size kernel_copy off dirent_size no_bytes o
    if eq_int r.0 (pos dirent_size) then some (r.1, r.2) else none

  -- The loop of `dirlookup`, with as much fuel as the directory has bytes: the offset and the inode
  -- number of the entry.
  unfoldable pub find_entry : ℕ → List ℕ → ℕ → Open → Option (Option (ℕ × ℕ) × Open)
  find_entry zero name off o = some (none, o)
  find_entry (suc fuel) name off o = elim (ltb off o.ip.size) [
    | false ↦ some (none, o)
    | true ↦ do
      r ← read_entry off o
      (let rest = find_entry fuel name (off + dirent_size) r.1 in
          if inum_at r.0 0 == 0
          then rest
          else if eq_int (namecmp (string name) (name_at r.0 0)) (pos 0)
          then some (some (off, inum_at r.0 0), r.1)
          else rest)
  ]

  -- The entry of the table that the found inode has, and the offset for `*poff`.
  unfoldable pub dirlookup : ℕ → List ℕ → Fsys → Option (Option (ℕ × ℕ) × Fsys)
  dirlookup i name f =
      let dp = inode f.table i in
      if dp.type == t_dir
      then (do
        r ← find_entry dp.size name 0 (open_at f i)
        elim (r.0) [
          | none ↦ some (none, back i f r.1)
          | some e ↦ do
            g ← iget (back i f r.1).table dp.dev e.1
            some (some (g.0, e.0), record (back i f r.1) { table = g.1 })
        ])
      else none

  -- The loop of `dirlink`: the offset of an empty entry, or of the end.
  unfoldable pub empty_entry : ℕ → ℕ → Open → Option (ℕ × Open)
  empty_entry zero off o = some (off, o)
  empty_entry (suc fuel) off o = elim (ltb off o.ip.size) [
    | false ↦ some (off, o)
    | true ↦ do
      r ← read_entry off o
      (let rest = empty_entry fuel (off + dirent_size) r.1 in
          if inum_at r.0 0 == 0 then some (off, r.1) else rest)
  ]

  -- What `dirlink` does when the name is not present.
  unfoldable pub add_entry : List ℕ → ℕ → Open → Option (ℤ × Open)
  add_entry name inum o = do
    r ← empty_entry o.ip.size 0 o
    w ← writei size kernel_copy (new_entry name inum) r.0 dirent_size r.1
    some (if eq_int w.0 (pos dirent_size) then pos 0 else minus_one, w.1)

  unfoldable pub dirlink : ℕ → List ℕ → ℕ → Fsys → Option (ℤ × Fsys)
  dirlink i name inum f = do
    r ← dirlookup i name f
    elim (r.0) [
      | some e ↦ do g ← iput e.0 r.1; some (minus_one, g)
      | none ↦ do w ← add_entry name inum (open_at r.1 i); some (w.0, back i r.1 w.1)
    ]
