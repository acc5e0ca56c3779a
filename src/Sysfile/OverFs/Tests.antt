-- ===== src/Sysfile/OverFs/Tests.antt =====
-- Calls of Lab-5 Task 5.2, kernel/sysfile.c, on a root directory with the file "a" in it.
use cs344_os_lab.Base.{ℕ, false, ◌++◌, Option, none, some, List, [], ◌∷◌}
use cs344_os_lab.Base.Tests.{◌==◌, if◌then◌else◌}
use cs344_os_lab.Base.Partial.{◌>>=◌, On, in_some}
use cs344_os_lab.Base.Lists.{replicate}
use cs344_os_lab.Base.Int.{ℤ}
use cs344_os_lab.Fs.Names.Tests.{root}
use cs344_os_lab.Sysfile.{Descriptors}
use cs344_os_lab.Sysfile.Calls.{FileSystem, File, Accounts, nil, one_op, Effect}
use cs344_os_lab.Sysfile.Settled.{Settled}
use cs344_os_lab.Sysfile.Links.{sys_link, sys_unlink}
use cs344_os_lab.Sysfile.Links.Balance.{sys_link-Settled, sys_unlink-Settled}
use cs344_os_lab.Sysfile.Create.{create, t_file, sys_symlink}
use cs344_os_lab.Sysfile.Create.Balance.{Created, create-Created}
use cs344_os_lab.Sysfile.Open.{sys_open}
use cs344_os_lab.Sysfile.OverFs.{Kernel, over_fs}
use cs344_os_lab.Sysfile.OverFs.Laws.{over_fs-Accounts}

abbrev fs : FileSystem Kernel
fs = over_fs 8 200

abbrev laws : Accounts fs
laws = over_fs-Accounts 8 200

abbrev blank_file : File
blank_file = record {
  is_device = false;
  major = 0;
  off = 0;
  inode = 0;
  readable = false;
  writable = false;
}

-- files 0 to 7 are in use
abbrev kernel : Kernel
kernel = record {
  fsys = root;
  ops = 0;
  files = replicate 8 1 ++ replicate 92 0;
  contents = λ f. blank_file;
}

-- the paths "a" and "b"
abbrev a : List ℕ
a = 97 ∷ []

abbrev b : List ℕ
b = 98 ∷ []

abbrev buffer : ℕ → ℕ
buffer j = if j == 0 then 97 else 0

abbrev ofile : Descriptors
ofile = some 7 ∷ replicate 15 none

-- a disk with inode 5 free, and a call whose result is looked at
abbrev with_room : Kernel
with_room = record kernel {
  fsys = record root {
    disk = record (root.disk) {
      dinodes = λ k. record (root.disk.dinodes k) {
        type = if k == 5 then 0 else (root.disk.dinodes k).type;
      };
    };
  };
}

abbrev result : Option (ℤ × Kernel) → Option ℤ
result r = do x ← r; some x.0

open_a : Option ℤ
open_a = do r ← sys_open fs 0 0 (some buffer) ofile kernel; some r.0

make_b : Option ℤ
make_b = result (sys_symlink fs 0 (some a) (some b) with_room)

link_b : Option ℤ
link_b = result (sys_link fs 0 (some a) (some b) kernel)

unlink_a : Option ℤ
unlink_a = result (sys_unlink fs 0 (some a) kernel)

-- "b" is made a link to "aa", which does not exist, and opened.
open_b : Option ℤ
open_b = do
  k ← sys_symlink fs 0 (some (97 ∷ 97 ∷ [])) (some b) with_room
  r ← sys_open fs 0 0 (some (λ j. if j == 0 then 98 else 0)) ofile k.1
  some r.0

begun : Effect (laws.sum kernel) (laws.sum (record kernel { ops = 1 })) nil one_op
unfolding over_fs
begun = in_some (laws.begin_op kernel)

create-Created_example :
    On (Created fs laws (laws.sum kernel)) (create fs 0 b t_file 0 0 (record kernel { ops = 1 }))
create-Created_example =
    create-Created fs laws (laws.sum kernel) 0 b t_file 0 0 (record kernel { ops = 1 }) begun

sys_link-Settled_example :
    On (Settled fs laws (laws.sum kernel)) (sys_link fs 0 (some a) (some b) kernel)
sys_link-Settled_example = sys_link-Settled fs laws 0 (some a) (some b) kernel

sys_unlink-Settled_example :
    On (Settled fs laws (laws.sum kernel)) (sys_unlink fs 0 (some a) kernel)
sys_unlink-Settled_example = sys_unlink-Settled fs laws 0 (some a) kernel
