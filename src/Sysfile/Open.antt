-- ===== src/Sysfile/Open.antt =====
-- `sys_open` of Lab-5 Task 5.2, kernel/sysfile.c, with its symbolic links. The path lies in a buffer of
-- MAXPATH bytes, which the content of a link is read into; `none` when `argstr` returns -1.
pub mod Balance
use cs344_os_lab.Base.{
  ℕ, zero, suc, ◌+◌, ◌/◌, ◌%◌, Bool, true, false, not, ◌&&◌, ◌||◌, Option, none, some, List, [],
  ◌∷◌,
}
use cs344_os_lab.Base.Tests.{ltb, leb, ◌==◌, if◌then◌else◌}
use cs344_os_lab.Base.Int.{ℤ, pos, minus_one, eq_int}
use cs344_os_lab.Base.Partial.{◌>>=◌}
use cs344_os_lab.Fs.Dirs.{t_dir}
use cs344_os_lab.Sysfile.{Descriptors, fdalloc}
use cs344_os_lab.Sysfile.Calls.{FileSystem, File, iunlockput}
use cs344_os_lab.Sysfile.Create.{t_file, t_device, t_symlink, create}

-- MAXPATH and NDEV of kernel/param.h
abbrev pub maxpath : ℕ
maxpath = 128

abbrev pub ndev : ℕ
ndev = 10

-- The flags of kernel/fcntl.h, each a single bit.
abbrev pub o_wronly : ℕ
o_wronly = 1

abbrev pub o_rdwr : ℕ
o_rdwr = 2

abbrev pub o_create : ℕ
o_create = 512

abbrev pub o_trunc : ℕ
o_trunc = 1024

abbrev pub o_nofollow : ℕ
o_nofollow = 2048

-- `omode & bit`
abbrev pub has : ℕ → ℕ → Bool
has omode bit = not (omode / bit % 2 == 0)

-- The string at the start of a buffer of `n` bytes.
pub text_of : ℕ → (ℕ → ℕ) → List ℕ
text_of zero p = []
text_of (suc n) p = let rest = text_of n (λ j. p (j + 1)) in if p 0 == 0 then [] else p 0 ∷ rest

-- The buffer after `readi` has copied `n` bytes to its start.
abbrev pub read_into : ℕ → (ℕ → ℕ) → (ℕ → ℕ) → ℕ → ℕ
read_into n new old j = if ltb j n then new j else old j

module _ {S : Type 0} (fs : FileSystem S) (cwd : ℕ) (omode : ℕ) where
  -- `end_op(); return -1;`
  abbrev pub fails : Descriptors → S → ℤ × Descriptors × S
  fails ofile s = (minus_one, ofile, fs.end_op s)

  -- `iunlockput(ip); end_op(); return -1;`
  unfoldable pub open_fails : ℕ → Descriptors → S → Option (ℤ × Descriptors × S)
  open_fails ip ofile s = do t ← iunlockput fs ip s; some (fails ofile t)

  -- The fields of the new file: a device has a major number, another file an offset.
  abbrev pub fill_in : ℕ → S → File → File
  fill_in ip s f =
      record (if (fs.ip s ip).type == t_device
        then record f { is_device = true; major = (fs.ip s ip).major }
        else record f { is_device = false; off = 0 }) {
          inode = ip;
          readable = not (has omode o_wronly);
          writable = has omode o_wronly || has omode o_rdwr;
        }

  -- The descriptor holds the file.
  unfoldable pub open_done : ℕ → ℕ → ℕ → Descriptors → S → Option (ℤ × Descriptors × S)
  open_done ip f fd ofile s = do
    u ←
        (let t = fs.set_file f (fill_in ip s) s in
          if has omode o_trunc && (fs.ip t ip).type == t_file then fs.itrunc ip t else some t)
    v ← fs.iunlock ip u
    some (pos fd, ofile, fs.end_op v)

  -- After `filealloc`.
  unfoldable pub open_file : ℕ → Descriptors → Option ℕ → S → Option (ℤ × Descriptors × S)
  open_file ip ofile none s = open_fails ip ofile s
  open_file ip ofile (some f) s = elim (fdalloc ofile f) [
    | none ↦ open_fails ip ofile (fs.fileclose f s)
    | some d ↦ open_done ip f d.0 d.1 s
  ]

  -- The inode is found and locked. A major number is 16-bit, negative from 2 ^ 15 on.
  unfoldable pub open_inode : ℕ → Descriptors → S → Option (ℤ × Descriptors × S)
  open_inode ip ofile s =
      if (fs.ip s ip).type == t_device
        && (leb 32768 (fs.ip s ip).major || leb ndev (fs.ip s ip).major)
      then open_fails ip ofile s
      else open_file ip ofile (fs.filealloc s).0 (fs.filealloc s).1

  -- `if(ip->type == T_DIR && omode != O_RDONLY)`
  unfoldable pub open_plain : ℕ → Descriptors → S → Option (ℤ × Descriptors × S)
  open_plain ip ofile s =
      if (fs.ip s ip).type == t_dir && not (omode == 0)
      then open_fails ip ofile s
      else open_inode ip ofile s

  -- The loop over symbolic links: `n` is 10 - count.
  unfoldable pub follow : ℕ → (ℕ → ℕ) → ℕ → Descriptors → S → Option (ℤ × Descriptors × S)
  follow zero buf ip ofile s = open_fails ip ofile s
  follow (suc n) buf ip ofile s = elim ((fs.ip s ip).type == t_symlink) [
    | false ↦ open_plain ip ofile s
    | true ↦ do
      r ← fs.readi ip 0 1 s
      (if not (eq_int r.0 (pos 1)) then open_fails ip ofile r.2 else (do
        t ← iunlockput fs ip r.2
        q ← fs.namei cwd (text_of maxpath (read_into 1 r.1 buf)) t
        elim (q.0) [
          | none ↦ some (fails ofile q.1)
          | some to ↦ do u ← fs.ilock to q.1; follow n (read_into 1 r.1 buf) to ofile u
        ]))
  ]

  -- After `namei`.
  unfoldable pub open_found : (ℕ → ℕ) → Option ℕ → Descriptors → S → Option (ℤ × Descriptors × S)
  open_found buf none ofile s = some (fails ofile s)
  open_found buf (some ip) ofile s = do
    t ← fs.ilock ip s
    (if (fs.ip t ip).type == t_symlink && not (has omode o_nofollow)
        then follow 10 buf ip ofile t
        else open_plain ip ofile t)

  -- After `create`, which returns the inode locked.
  unfoldable pub open_created : Option ℕ → Descriptors → S → Option (ℤ × Descriptors × S)
  open_created none ofile s = some (fails ofile s)
  open_created (some ip) ofile s = open_inode ip ofile s

  unfoldable pub sys_open : Option (ℕ → ℕ) → Descriptors → S → Option (ℤ × Descriptors × S)
  sys_open none ofile s = some (minus_one, ofile, s)
  sys_open (some buf) ofile s = do
    a ← fs.begin_op s
    (if has omode o_create
        then (do r ← create fs cwd (text_of maxpath buf) t_file 0 0 a; open_created r.0 ofile r.1)
        else (do r ← fs.namei cwd (text_of maxpath buf) a; open_found buf r.0 ofile r.1))
