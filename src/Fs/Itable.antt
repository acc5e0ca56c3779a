-- ===== src/Fs/Itable.antt =====
-- The table of inodes in memory: `iget`, `idup` and `ialloc` of Lab-5 Task 5.1, kernel/fs.c.
pub mod Unique
use cs344_os_lab.Base.{ℕ, zero, suc, ◌+◌, ◌-◌, Bool, true, false, ◌&&◌, Option, none, some, List}
use cs344_os_lab.Base.Tests.{ltb, ◌==◌, if◌then◌else◌}
use cs344_os_lab.Base.Search.{first}
use cs344_os_lab.Base.Lists.{get_or, set, replicate}
use cs344_os_lab.Fs.{Inode, Dinode, Disk, upd}

-- What an index past the table would read.
abbrev pub no_inode : Inode
no_inode = record {
  dev = 0;
  inum = 0;
  ref = 0;
  valid = false;
  type = 0;
  major = 0;
  minor = 0;
  nlink = 0;
  size = 0;
  addrs = replicate 13 0;
}

abbrev pub inode : List Inode → ℕ → Inode
inode t i = get_or t i no_inode

abbrev pub holds : ℕ → ℕ → Inode → Bool
holds dev inum ip = ltb 0 ip.ref && (ip.dev == dev && ip.inum == inum)

abbrev pub is_spare : Inode → Bool
is_spare ip = ip.ref == 0

abbrev pub dup : Inode → Inode
dup ip = record ip { ref = ip.ref + 1 }

abbrev pub recycle : ℕ → ℕ → Inode → Inode
recycle dev inum ip = record ip { dev = dev; inum = inum; ref = 1; valid = false }

-- The second half of `iget`, on the first free entry; `none` is the panic.
unfoldable pub recycle_at : List Inode → ℕ → ℕ → Option ℕ → Option (ℕ × List Inode)
recycle_at t dev inum none = none
recycle_at t dev inum (some i) = some (i, set t i (recycle dev inum (inode t i)))

-- The loop returns at the first entry that holds the inode; otherwise it has seen the whole table,
-- and `empty` is the first entry without references.
unfoldable pub iget : List Inode → ℕ → ℕ → Option (ℕ × List Inode)
unfolding first
iget t dev inum = elim (first (holds dev inum) t) [
  | some i ↦ some (i, set t i (dup (inode t i)))
  | none ↦ recycle_at t dev inum (first is_spare t)
]

unfoldable pub idup : List Inode → ℕ → List Inode
idup t i = set t i (dup (inode t i))

-- The loop of `ialloc`: `n` inodes from number `i` on.
pub spare_from : ℕ → ℕ → (ℕ → Dinode) → Option ℕ
spare_from zero i f = none
spare_from (suc n) i f =
    let rest = spare_from n (i + 1) f in if (f i).type == 0 then some i else rest

abbrev pub marked : ℕ → Dinode
marked type = record {
  type = type;
  major = 0;
  minor = 0;
  nlink = 0;
  size = 0;
  addrs = replicate 13 0;
}

-- The entry of the table, or nothing when no inode is free; the outer `none` is the panic of `iget`.
unfoldable pub ialloc : ℕ → ℕ → ℕ → Disk → List Inode → Option (Option ℕ × Disk × List Inode)
unfolding spare_from
ialloc ninodes dev type d t = elim (spare_from (ninodes - 1) 1 d.dinodes) [
  | none ↦ some (none, d, t)
  | some inum ↦ elim (iget t dev inum) [
    | none ↦ none
    | some g ↦ some (some g.0, record d { dinodes = upd d.dinodes inum (marked type) }, g.1)
  ]
]
