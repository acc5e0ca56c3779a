-- ===== src/Fs.antt =====
-- The file system of Lab-5 Task 5.1, kernel/fs.c and kernel/fs.h. The buffer cache and the log are
-- not in the repository: `bread` gives the block as it is and `log_write` keeps what was changed.
-- mkfs lays the bitmap, the inodes and the data blocks in ranges of blocks that do not meet, so
-- they are three parts of the disk here.
pub mod Blocks
pub mod Slots
pub mod Bmap
pub mod Content
pub mod Io
pub mod Path
pub mod Trunc
pub mod Itable
pub mod Inodes
pub mod Dirs
pub mod Names
pub mod Accounts
mod Tests
use cs344_os_lab.Base.{
  ℕ, zero, suc, ◌+◌, ◌-◌, ◌*◌, ◌/◌, ◌%◌, ◌^◌, Bool, true, false, Option, none, some, List, [], ◌∷◌,
}
use cs344_os_lab.Base.Tests.{ltb, leb, ◌==◌, if◌then◌else◌}
use cs344_os_lab.Base.Lists.{get_or, set}

abbrev pub bsize : ℕ
bsize = 1024

abbrev pub ndirect : ℕ
ndirect = 11

abbrev pub nindirect : ℕ
nindirect = 256

abbrev pub ndoubly_indirect : ℕ
ndoubly_indirect = 65536

abbrev pub maxfile : ℕ
maxfile = 65803

-- `struct dinode`; a type is 0 for a free inode, and `addrs` has NDIRECT + 2 entries.
pub record Dinode : Type 0 where
  pub type : ℕ
  pub major : ℕ
  pub minor : ℕ
  pub nlink : ℕ
  pub size : ℕ
  pub addrs : List ℕ

-- `struct inode`
pub record Inode : Type 0 where
  pub dev : ℕ
  pub inum : ℕ
  pub ref : ℕ
  pub valid : Bool
  pub type : ℕ
  pub major : ℕ
  pub minor : ℕ
  pub nlink : ℕ
  pub size : ℕ
  pub addrs : List ℕ

-- `bitmap b` is bit `b % 8` of byte `b % BPB / 8` of the bitmap block BBLOCK(b), `dinodes i` is entry
-- `i % IPB` of the inode block IBLOCK(i), and `bytes b` is block `b`.
pub record Disk : Type 0 where
  pub bitmap : ℕ → Bool
  pub dinodes : ℕ → Dinode
  pub bytes : ℕ → ℕ → ℕ

pub upd {ℓ} : {A : Type ℓ} → (ℕ → A) → ℕ → A → ℕ → A
upd f k v j = if j == k then v else f j

-- A block as an array of 32-bit words, little-endian.
pub read_word : (ℕ → ℕ) → ℕ → ℕ
read_word p i = p (4 * i) + 256 * p (4 * i + 1) + 65536 * p (4 * i + 2) + 16777216 * p (4 * i + 3)

pub write_word : (ℕ → ℕ) → ℕ → ℕ → ℕ → ℕ
write_word p i v =
    upd
      (upd (upd (upd p (4 * i) (v % 256)) (4 * i + 1) (v / 256 % 256)) (4 * i + 2)
        (v / 65536 % 256))
      (4 * i + 3) (v / 16777216 % 256)

pub bzero : ℕ → Disk → Disk
bzero b d = record d { bytes = upd d.bytes b (λ i. 0) }

-- The two loops of `balloc`: they visit the block numbers below `sb.size` in order, BPB in each
-- round of the outer one.
pub free_from : ℕ → ℕ → (ℕ → Bool) → Option ℕ
free_from zero b used = none
free_from (suc n) b used = let rest = free_from n (b + 1) used in if used b then rest else some b

pub balloc : ℕ → Disk → ℕ × Disk
balloc size d = elim (free_from size 0 d.bitmap) [
  | none ↦ (0, d)
  | some b ↦ (b, bzero b (record d { bitmap = upd d.bitmap b true }))
]

-- `none` is the panic of freeing a free block.
pub bfree : ℕ → Disk → Option Disk
bfree b d = if d.bitmap b then some (record d { bitmap = upd d.bitmap b false }) else none

-- An inode that is locked, and the disk.
pub record Open : Type 0 where
  pub disk : Disk
  pub ip : Inode

-- `if((addr = ip->addrs[k]) == 0){ addr = balloc(ip->dev); ... ip->addrs[k] = addr; }`
pub fill_addr : ℕ → ℕ → Open → ℕ × Open
fill_addr size k o =
    let addr = get_or o.ip.addrs k 0 in
    let r = balloc size o.disk in
    if addr == 0
    then (if r.0 == 0
        then (0, record o { disk = r.1 })
        else (r.0, record { disk = r.1; ip = record o.ip { addrs = set o.ip.addrs k r.0 } }))
    else (addr, o)

-- The same for entry `i` of the index block `b`: `bp` is what was read before `balloc`, so it is
-- what goes back with the entry changed.
pub fill_word : ℕ → ℕ → ℕ → Open → ℕ × Open
fill_word size b i o =
    let addr = read_word (o.disk.bytes b) i in
    let r = balloc size o.disk in
    if addr == 0
    then (if r.0 == 0 then (0, record o { disk = r.1 }) else (
      r.0,
      record o {
        disk = record (r.1) { bytes = upd (r.1).bytes b (write_word (o.disk.bytes b) i r.0) };
      },
    ))
    else (addr, o)

-- `bmap`; `none` is the panic "out of range".
pub bmap : ℕ → ℕ → Open → Option (ℕ × Open)
bmap size bn o =
    if ltb bn ndirect
    then some (fill_addr size bn o)
    else if ltb (bn - ndirect) nindirect
    then (let top = fill_addr size ndirect o in
        if top.0 == 0 then some (0, top.1) else some (fill_word size top.0 (bn - ndirect) top.1))
    else let n = bn - ndirect - nindirect in
      if ltb n ndoubly_indirect
      then (let top = fill_addr size (ndirect + 1) o in
          let outer = fill_word size top.0 (n / nindirect) top.1 in
          if top.0 == 0
          then some (0, top.1)
          else if outer.0 == 0
          then some (0, outer.1)
          else some (fill_word size outer.0 (n % nindirect) outer.1))
      else none
