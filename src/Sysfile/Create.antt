-- ===== src/Sysfile/Create.antt =====
-- `create`, `sys_symlink`, `sys_mkdir`, `sys_mknod` and `sys_chdir` of Lab-5 Task 5.2,
-- kernel/sysfile.c. A path argument is `none` when `argstr` returns -1.
pub mod Balance
use cs344_os_lab.Base.{
  ℕ, zero, suc, ◌+◌, Bool, true, false, not, ◌&&◌, ◌||◌, Option, none, some, List, [], ◌∷◌,
}
use cs344_os_lab.Base.Tests.{ltb, leb, ◌==◌, if◌then◌else◌}
use cs344_os_lab.Base.Lists.{length}
use cs344_os_lab.Base.Int.{ℤ, pos, minus_one, eq_int, is_neg}
use cs344_os_lab.Base.Partial.{◌>>=◌}
use cs344_os_lab.Fs.Dirs.{t_dir, string}
use cs344_os_lab.Sysfile.Calls.{FileSystem, iunlockput}
use cs344_os_lab.Sysfile.Links.{nlink_up}

-- `T_FILE`, `T_DEVICE` and `T_SYMLINK` of kernel/stat.h
abbrev pub t_file : ℕ
t_file = 2

abbrev pub t_device : ℕ
t_device = 3

abbrev pub t_symlink : ℕ
t_symlink = 4

module _ {S : Type 0} (fs : FileSystem S) where
  -- The label `fail` of `create`.
  unfoldable pub create_fail : ℕ → ℕ → S → Option (Option ℕ × S)
  create_fail dp ip s = do
    t ← iunlockput fs ip (fs.iupdate ip (fs.set_nlink ip 0 s))
    u ← iunlockput fs dp t
    some (none, u)

  -- The name exists.
  unfoldable pub create_found : ℕ → ℕ → ℕ → S → Option (Option ℕ × S)
  create_found type dp ip s = do
    t ← iunlockput fs dp s
    u ← fs.ilock ip t
    (if type == t_symlink
          || (type == t_file && ((fs.ip u ip).type == t_file || (fs.ip u ip).type == t_device))
        then some (some ip, u)
        else (do v ← iunlockput fs ip u; some (none, v)))

  -- From the last `dirlink` on.
  unfoldable pub create_link : ℕ → List ℕ → ℕ → ℕ → S → Option (Option ℕ × S)
  create_link type name dp ip s = do
    w ← fs.dirlink dp name (fs.ip s ip).inum s
    (if is_neg w.0 then create_fail dp ip w.1 else (do
      t ← iunlockput fs dp (
          if type == t_dir
          then fs.iupdate dp (fs.set_nlink dp (nlink_up (fs.ip w.1 dp).nlink) w.1)
          else w.1)
      some (some ip, t)))

  -- The entries "." and ".." of a new directory.
  unfoldable pub create_dots : List ℕ → ℕ → ℕ → S → Option (Option ℕ × S)
  create_dots name dp ip s = do
    w ← fs.dirlink ip (46 ∷ []) (fs.ip s ip).inum s
    (if is_neg w.0 then create_fail dp ip w.1 else (do
      v ← fs.dirlink ip (46 ∷ 46 ∷ []) (fs.ip w.1 dp).inum w.1
      (if is_neg v.0 then create_fail dp ip v.1 else create_link t_dir name dp ip v.1)))

  -- From `ialloc` on.
  unfoldable pub create_new : ℕ → ℕ → ℕ → List ℕ → ℕ → Option ℕ → S → Option (Option ℕ × S)
  create_new type major minor name dp none s = do t ← iunlockput fs dp s; some (none, t)
  create_new type major minor name dp (some ip) s = do
    t ← fs.ilock ip s
    (let u = fs.iupdate ip (fs.set_nlink ip 1 (fs.set_device ip major minor t)) in
        if type == t_dir then create_dots name dp ip u else create_link type name dp ip u)

  -- From `dirlookup` on.
  unfoldable pub create_name : ℕ → ℕ → ℕ → List ℕ → ℕ → Option (ℕ × ℕ) → S → Option (Option ℕ × S)
  create_name type major minor name dp (some e) s = create_found type dp e.0 s
  create_name type major minor name dp none s = do
    r ← fs.ialloc (fs.ip s dp).dev type s
    create_new type major minor name dp r.0 r.1

  -- From `nameiparent` on.
  unfoldable pub create_in : ℕ → ℕ → ℕ → Option (ℕ × List ℕ) → S → Option (Option ℕ × S)
  create_in type major minor none s = some (none, s)
  create_in type major minor (some p) s = do
    t ← fs.ilock p.0 s
    r ← fs.dirlookup p.0 p.1 t
    create_name type major minor p.1 p.0 r.0 r.1

  -- The inode is returned locked.
  unfoldable pub create : ℕ → List ℕ → ℕ → ℕ → ℕ → S → Option (Option ℕ × S)
  create cwd path type major minor s = do
    r ← fs.nameiparent cwd path s
    create_in type major minor r.0 r.1

  -- `sys_mkdir` and `sys_mknod` after `create`.
  unfoldable pub made : Option ℕ → S → Option (ℤ × S)
  made none s = some (minus_one, fs.end_op s)
  made (some ip) s = do t ← iunlockput fs ip s; some (pos 0, fs.end_op t)

  unfoldable pub sys_mkdir : ℕ → Option (List ℕ) → S → Option (ℤ × S)
  sys_mkdir cwd none s = do a ← fs.begin_op s; some (minus_one, fs.end_op a)
  sys_mkdir cwd (some path) s = do a ← fs.begin_op s; r ← create cwd path t_dir 0 0 a; made r.0 r.1

  unfoldable pub sys_mknod : ℕ → Option (List ℕ) → ℕ → ℕ → S → Option (ℤ × S)
  sys_mknod cwd none major minor s = do a ← fs.begin_op s; some (minus_one, fs.end_op a)
  sys_mknod cwd (some path) major minor s = do
    a ← fs.begin_op s
    r ← create cwd path t_device major minor a
    made r.0 r.1

  -- `sys_symlink` after `create`: the target with its NUL is the content.
  unfoldable pub symlink_to : List ℕ → Option ℕ → S → Option (ℤ × S)
  symlink_to target none s = some (minus_one, fs.end_op s)
  symlink_to target (some ip) s = do
    w ← fs.writei ip (string target) 0 (length target + 1) s
    (if not (eq_int w.0 (pos (length target + 1)))
        then (do
          t ← iunlockput fs ip (fs.iupdate ip (fs.set_nlink ip 0 w.1))
          some (minus_one, fs.end_op t))
        else (do t ← iunlockput fs ip w.1; some (pos 0, fs.end_op t)))

  unfoldable pub sys_symlink : ℕ → Option (List ℕ) → Option (List ℕ) → S → Option (ℤ × S)
  sys_symlink cwd none path s = some (minus_one, s)
  sys_symlink cwd (some target) none s = some (minus_one, s)
  sys_symlink cwd (some target) (some path) s = do
    a ← fs.begin_op s
    r ← create cwd path t_symlink 0 0 a
    symlink_to target r.0 r.1

  -- `sys_chdir` after `namei`: the result, the new current directory and the state.
  unfoldable pub chdir_to : ℕ → Option ℕ → S → Option (ℤ × ℕ × S)
  chdir_to cwd none s = some (minus_one, cwd, fs.end_op s)
  chdir_to cwd (some ip) s = do
    t ← fs.ilock ip s
    (if not ((fs.ip t ip).type == t_dir)
        then (do u ← iunlockput fs ip t; some (minus_one, cwd, fs.end_op u))
        else (do u ← fs.iunlock ip t; v ← fs.iput cwd u; some (pos 0, ip, fs.end_op v)))

  unfoldable pub sys_chdir : ℕ → Option (List ℕ) → S → Option (ℤ × ℕ × S)
  sys_chdir cwd none s = do a ← fs.begin_op s; some (minus_one, cwd, fs.end_op a)
  sys_chdir cwd (some path) s = do a ← fs.begin_op s; r ← fs.namei cwd path a; chdir_to cwd r.0 r.1
