-- ===== src/Sysfile/OverFs.antt =====
-- The calls that kernel/sysfile.c (Lab-5 Task 5.2) makes, over the file system of kernel/fs.c (Lab-5
-- Task 5.1). The log and the table of files are stand-ins: any number of transactions may be open, and
-- a file is given up by its count alone, since only files without an inode are closed here.
pub mod Laws
mod Tests
use cs344_os_lab.Base.{ℕ, ◌+◌, ◌-◌, Bool, true, false, Option, none, some, List}
use cs344_os_lab.Base.Search.{first}
use cs344_os_lab.Base.Tests.{ltb, ◌==◌, if◌then◌else◌}
use cs344_os_lab.Base.Partial.{◌>>=◌}
use cs344_os_lab.Base.Lists.{length, get_or, set}
use cs344_os_lab.Fs.{Inode, upd}
use cs344_os_lab.Fs.Io.{iupdate, readi, writei}
use cs344_os_lab.Fs.Trunc.{itrunc}
use cs344_os_lab.Fs.Itable.{inode, ialloc}
use cs344_os_lab.Fs.Inodes.{Fsys, open_at, back, ilock, iunlock, iput}
use cs344_os_lab.Fs.Dirs.{kernel_copy, no_bytes, dirlookup, dirlink}
use cs344_os_lab.Fs.Names.{Outcome, endless, panics, waits, gives, namex}
use cs344_os_lab.Sysfile.Calls.{FileSystem, File}

-- The file system, the transactions that are open, and the table of files: the count of references of
-- each, and its other fields.
pub record Kernel : Type 0 where
  pub fsys : Fsys
  pub ops : ℕ
  pub files : List ℕ
  pub contents : ℕ → File

abbrev pub is_free : ℕ → Bool
is_free n = n == 0

abbrev pub with : Kernel → Fsys → Kernel
with k f = record k { fsys = f }

abbrev pub on_fsys : Kernel → Option Fsys → Option Kernel
on_fsys k r = do f ← r; some (with k f)

abbrev pub on_pair {ℓ} : {A : Type ℓ} → Kernel → Option (A × Fsys) → Option (A × Kernel)
on_pair k r = do x ← r; some (x.0, with k x.1)

-- What `namei` and `nameiparent` return; a number past the table is no pointer to an inode.
abbrev pub walked : Kernel → Outcome → Option (Option ℕ × List ℕ × Kernel)
walked k endless = none
walked k panics = none
walked k (waits i) = none
walked k (gives q n f) = some (q, n, with k f)

abbrev pub walk : ℕ → Bool → ℕ → List ℕ → Kernel → Option (Option ℕ × List ℕ × Kernel)
walk size parent cwd path k =
    if ltb cwd (length k.fsys.table) then walked k (namex size parent path cwd k.fsys) else none

abbrev pub named : Option ℕ → List ℕ → Option (ℕ × List ℕ)
named none n = none
named (some i) n = some (i, n)

abbrev pub change_ip : ℕ → (Inode → Inode) → Kernel → Kernel
change_ip i f k = with k (record (k.fsys) { table = set k.fsys.table i (f (inode k.fsys.table i)) })

-- The first file with no reference gets one.
abbrev pub new_file : Kernel → Option ℕ → Option ℕ × Kernel
new_file k none = (none, k)
new_file k (some f) = (some f, record k { files = set k.files f 1 })

unfoldable pub over_fs : ℕ → ℕ → FileSystem Kernel
over_fs size ninodes = record {
  ip = λ k i. inode k.fsys.table i;
  set_nlink = λ i n k. change_ip i (λ ip. record ip { nlink = n }) k;
  set_device = λ i a b k. change_ip i (λ ip. record ip { major = a; minor = b }) k;
  begin_op = λ k. some (record k { ops = k.ops + 1 });
  end_op = λ k. record k { ops = k.ops - 1 };
  namei = λ cwd path k. (do r ← walk size false cwd path k; some (r.0, r.2));
  nameiparent = λ cwd path k. (do r ← walk size true cwd path k; some (named r.0 r.1, r.2));
  ilock = λ i k. on_fsys k (ilock i k.fsys);
  iunlock = λ i k. on_fsys k (iunlock i k.fsys);
  iput = λ i k. on_fsys k (iput i k.fsys);
  iupdate = λ i k. with k (back i k.fsys (iupdate (open_at k.fsys i)));
  itrunc = λ i k. (do o ← itrunc (open_at k.fsys i); some (with k (back i k.fsys o)));
  ialloc = λ dev type k. (do
    r ← ialloc ninodes dev type k.fsys.disk k.fsys.table
    some (r.0, with k (record (k.fsys) { disk = r.1; table = r.2 })));
  dirlookup = λ i name k. on_pair k (dirlookup size i name k.fsys);
  dirlink = λ i name inum k. on_pair k (dirlink size i name inum k.fsys);
  readi = λ i off n k. (do
    r ← readi size kernel_copy off n no_bytes (open_at k.fsys i)
    some (r.0, r.1, with k (back i k.fsys r.2)));
  writei = λ i src off n k. (do
    r ← writei size kernel_copy src off n (open_at k.fsys i)
    some (r.0, with k (back i k.fsys r.1)));
  filealloc = λ k. new_file k (first is_free k.files);
  fileclose = λ f k. record k { files = set k.files f (get_or k.files f 0 - 1) };
  file = λ k f. k.contents f;
  set_file = λ f x k. record k { contents = upd k.contents f (x (k.contents f)) };
}
