-- ===== src/Fs/Inodes.antt =====
-- Inodes in use: `ilock`, `iunlock`, `iput`, `iunlockput`, `stati`, `ireclaim` and `fsinit` of Lab-5
-- Task 5.1, kernel/fs.c. One process runs at a time: `none` is a panic, or the wait for a sleep lock
-- that is held. An inode is named by its entry of the table, which is never the null pointer.
pub mod Puts
pub mod Reclaims
mod Tests
use cs344_os_lab.Base.{
  ℕ, zero, suc, ◌+◌, ◌-◌, Bool, true, false, not, ◌&&◌, ◌||◌, Option, none, some, List,
}
use cs344_os_lab.Base.Tests.{ltb, ◌==◌, if◌then◌else◌}
use cs344_os_lab.Base.Partial.{◌>>=◌}
use cs344_os_lab.Base.Lists.{set}
use cs344_os_lab.Fs.{Inode, Dinode, Disk, Open, upd}
use cs344_os_lab.Fs.Io.{iupdate}
use cs344_os_lab.Fs.Trunc.{itrunc}
use cs344_os_lab.Fs.Itable.{inode, iget}

-- The disk, the table of inodes, and which entries' sleep locks are held.
pub record Fsys : Type 0 where
  pub disk : Disk
  pub table : List Inode
  pub locked : ℕ → Bool

abbrev pub open_at : Fsys → ℕ → Open
open_at f i = record { disk = f.disk; ip = inode f.table i }

abbrev pub back : ℕ → Fsys → Open → Fsys
back i f o = record f { disk = o.disk; table = set f.table i o.ip }

abbrev pub hold : ℕ → Fsys → Fsys
hold i f = record f { locked = upd f.locked i true }

abbrev pub release : ℕ → Fsys → Fsys
release i f = record f { locked = upd f.locked i false }

-- The fields that `ilock` reads from the disk.
abbrev pub load : Dinode → Inode → Inode
load d ip = record ip {
  valid = true;
  type = d.type;
  major = d.major;
  minor = d.minor;
  nlink = d.nlink;
  size = d.size;
  addrs = d.addrs;
}

-- `none` is the panic of the first test, and, past it, the wait in `acquiresleep` for a lock that is held:
-- `lock_waits` of Fs.Names tells which.
unfoldable pub ilock : ℕ → Fsys → Option Fsys
ilock i f =
    let ip = inode f.table i in
    let d = f.disk.dinodes ip.inum in
    if ltb ip.ref 1 || f.locked i
    then none
    else if ip.valid
    then some (hold i f)
    else if d.type == 0
    then none
    else some (record (hold i f) { table = set f.table i (load d ip) })

unfoldable pub iunlock : ℕ → Fsys → Option Fsys
iunlock i f = if not (f.locked i) || ltb (inode f.table i).ref 1 then none else some (release i f)

-- `ip->type = 0; iupdate(ip); ip->valid = 0;`
abbrev pub no_type : Open → Open
no_type o = record o { ip = record (o.ip) { type = 0 } }

abbrev pub no_valid : Open → Open
no_valid o = record o { ip = record (o.ip) { valid = false } }

-- The inode has no links and no other references. The lock is given back at the end.
unfoldable pub free_inode : ℕ → Fsys → Option Fsys
free_inode i f =
    if f.locked i
    then none
    else (do o ← itrunc (open_at f i); some (back i (release i f) (no_valid (iupdate (no_type o)))))

-- `ip->ref--;`. The count of an entry without references would be -1, which no caller leaves: the
-- model stops there.
unfoldable pub drop_ref : ℕ → Fsys → Option Fsys
drop_ref i f =
    let ip = inode f.table i in
    if ip.ref == 0
    then none
    else some (record f { table = set f.table i (record ip { ref = ip.ref - 1 }) })

unfoldable pub iput : ℕ → Fsys → Option Fsys
iput i f =
    let ip = inode f.table i in
    if ip.ref == 1 && (ip.valid && ip.nlink == 0)
    then (do g ← free_inode i f; drop_ref i g)
    else drop_ref i f

unfoldable pub iunlockput : ℕ → Fsys → Option Fsys
iunlockput i f = do g ← iunlock i f; iput i g

-- `struct stat`
pub record Stat : Type 0 where
  pub dev : ℕ
  pub ino : ℕ
  pub type : ℕ
  pub nlink : ℕ
  pub size : ℕ

pub stati : Inode → Stat
stati ip = record { dev = ip.dev; ino = ip.inum; type = ip.type; nlink = ip.nlink; size = ip.size }

abbrev pub is_orphan : Dinode → Bool
is_orphan d = not (d.type == 0) && d.nlink == 0

-- `ilock(ip); iunlock(ip); iput(ip);`, which frees the inode.
pub touch : ℕ → Fsys → Option Fsys
touch i f = do a ← ilock i f; b ← iunlock i a; iput i b

-- An orphan: `ip = iget(dev, inum)`, and what follows `if (ip)`.
pub reclaim : ℕ → ℕ → Fsys → Option Fsys
reclaim dev inum f = do g ← iget f.table dev inum; touch g.0 (record f { table = g.1 })

-- `n` rounds of the loop of `ireclaim`, from inode `inum` on.
unfoldable pub reclaim_from : ℕ → ℕ → ℕ → Fsys → Option Fsys
reclaim_from dev zero inum f = some f
reclaim_from dev (suc n) inum f = do
  g ← if is_orphan (f.disk.dinodes inum) then reclaim dev inum f else some f
  reclaim_from dev n (inum + 1) g

unfoldable pub ireclaim : ℕ → ℕ → Fsys → Option Fsys
unfolding reclaim_from
ireclaim ninodes dev f = reclaim_from dev (ninodes - 1) 1 f

abbrev pub fsmagic : ℕ
fsmagic = 270544960

-- The superblock is an argument here; `initlog`, which is not in the repository, replays the log and gives the disk
-- after it.
pub fsinit : (Disk → Disk) → ℕ → ℕ → ℕ → Fsys → Option Fsys
fsinit initlog magic ninodes dev f =
    if magic == fsmagic then ireclaim ninodes dev (record f { disk = initlog f.disk }) else none
