-- ===== src/Fs/Inodes/Reclaims.antt =====
-- Recovery of inodes that a crash has left without links: `ireclaim` of Lab-5 Task 5.1, kernel/fs.c.
pub mod Step
pub mod Loop
use cs344_os_lab.Base.{
  ℕ, zero, suc, ◌+◌, ◌-◌, ◌<◌, ◌≤◌, ◌≡◌, ◌≢◌, refl, sym, ap, ◌∙◌, subst, Bool, true, false, Option,
  none, some, List, ◌⊎◌, inl, inr, arith,
}
use mathlib.Core.Bool.{false≢true}
use cs344_os_lab.Base.Tests.{Bool-cases, if◌then◌else◌, ltb, ◌==◌, ==→eq, ==→ne, ==_ne, ==_self}
use cs344_os_lab.Base.Partial.{◌>>=◌}
use cs344_os_lab.Base.Search.{IsFirst, NonePasses}
use cs344_os_lab.Base.Lists.{
  length, set, get_or-set, get_or-set_self, get_or-set_ne, length-set, set-set,
}
use cs344_os_lab.Fs.{Inode, Dinode, Disk, Open, upd}
use cs344_os_lab.Fs.Blocks.{upd_same, upd_ne}
use cs344_os_lab.Fs.Slots.{Slot, Legal, value, Inv}
use cs344_os_lab.Fs.Content.{value_same}
use cs344_os_lab.Fs.Itable.{no_inode, inode, holds, is_spare, recycle, iget}
use cs344_os_lab.Fs.Itable.Unique.{Unique, Gets, hits, recycles, panics, iget-Gets}
use cs344_os_lab.Fs.Inodes.{
  Fsys, open_at, hold, release, load, ilock, iunlock, iput, is_orphan, reclaim, reclaim_from,
  ireclaim, touch,
}
use cs344_os_lab.Fs.Inodes.Puts.{last_use, Discarded, Puts, drops, discards, iput-Puts}

-- The inode `k` as its entry on the disk has it.
abbrev pub file_at : Disk → ℕ → Open
file_at d k = record { disk = d; ip = load (d.dinodes k) no_inode }

abbrev pub InUse : ℕ → Disk → ℕ → Type 0
InUse ninodes d k = (0 < k) × (k < ninodes) × ((d.dinodes k).type ≢ 0)

-- The blocks of every inode in use are marked and different from one another and from those of the
-- other inodes.
pub record Sound (size ninodes : ℕ) (d : Disk) : Type 0 where
  pub each : (k : ℕ) → InUse ninodes d k → Inv size (file_at d k)
  pub disjoint :
      (j k : ℕ)
      → InUse ninodes d j
      → InUse ninodes d k
      → j ≢ k
      → (s t : Slot) → Legal s
      → Legal t
      → value (file_at d j) s ≢ 0
      → value (file_at d j) s ≢ value (file_at d k) t

-- No entry of the table is referenced or locked, as after the start.
pub record Idle (f : Fsys) : Type 0 where
  pub room : 0 < length f.table
  pub spare : (i : ℕ) → (inode f.table i).ref ≡ 0
  pub unlocked : (i : ℕ) → f.locked i ≡ false

pub Idle-Unique : (f : Fsys) → Idle f → Unique f.table
unfolding Unique
Idle-Unique f d v n i j hi hj pi pj = absurd (ground (arith, d.spare i, pi))

-- The state after `ilock` has read inode `k` into entry `i`.
unfoldable pub loaded : ℕ → ℕ → ℕ → Fsys → Fsys
loaded dev k i f = record f {
  table = set f.table i (load (f.disk.dinodes k) (recycle dev k (inode f.table i)));
  locked = upd (upd f.locked i true) i false;
}

-- The inode is not in the table, so it takes a free entry, and comes to `iput` with its fields read.
touch-loaded :
    (dev k i : ℕ) (f : Fsys)
    → i < length f.table
    → f.locked i ≡ false
    → (f.disk.dinodes k).type ≢ 0
    → touch i (record f { table = set f.table i (recycle dev k (inode f.table i)) })
      ≡ iput i (loaded dev k i f)
unfolding touch ilock iunlock loaded
touch-loaded dev k i f l u nz =
    rw
      (
        get_or-set_self f.table i (recycle dev k (inode f.table i)) no_inode l,
        u,
        ==_ne _ 0 nz,
        set-set f.table i (recycle dev k (inode f.table i))
            (load (f.disk.dinodes k) (recycle dev k (inode f.table i))),
        upd_same f.locked i true,
        get_or-set_self f.table i (load (f.disk.dinodes k) (recycle dev k (inode f.table i)))
            no_inode l,
      )
      refl

pub reclaim_at :
    (dev k : ℕ) (f : Fsys)
    → Idle f
    → (f.disk.dinodes k).type ≢ 0
    → (i : ℕ) × (i < length f.table) × (reclaim dev k f ≡ iput i (loaded dev k i f))
unfolding reclaim
reclaim_at dev k f d nz = got (iget f.table dev k) (iget-Gets f.table dev k (Idle-Unique f d))
  where
    got :
        (r : Option (ℕ × List Inode))
        → Gets f.table dev k r
        → (i : ℕ) × (i < length f.table)
          × ((r >>= (λ g. touch g.0 (record f { table = g.1 }))) ≡ iput i (loaded dev k i f))
    got _ (hits i p u) = absurd (ground (arith, d.spare i, p.passes))
    got _ (panics p q) = absurd (ground (arith, d.spare 0, d.room, q 0))
    got _ (recycles i p q u) = (i, q.within, touch-loaded dev k i f q.within (d.unlocked i) nz)

-- After `inum` inodes: those without links are free on the disk, with the blocks that they named; the
-- other inodes and the blocks that those name are as they were.
pub record Reclaimed (f : Fsys) (ninodes n : ℕ) (g : Fsys) : Type 0 where
  pub idle : Idle g
  pub boot : g.disk.bitmap 0 ≡ true
  pub bytes : g.disk.bytes ≡ f.disk.bytes
  pub done :
      (k : ℕ)
      → InUse ninodes f.disk k
      → k < n
      → is_orphan (f.disk.dinodes k) ≡ true
      → (g.disk.dinodes k).type ≡ 0
  pub freed :
      (k : ℕ)
      → InUse ninodes f.disk k
      → k < n
      → is_orphan (f.disk.dinodes k) ≡ true
      → (s : Slot) → Legal s
      → value (file_at f.disk k) s ≢ 0
      → g.disk.bitmap (value (file_at f.disk k) s) ≡ false
  pub kept :
      (k : ℕ)
      → (n ≤ k) ⊎ (is_orphan (f.disk.dinodes k) ≡ false)
      → g.disk.dinodes k ≡ f.disk.dinodes k
  pub used :
      (k : ℕ)
      → InUse ninodes f.disk k
      → (n ≤ k) ⊎ (is_orphan (f.disk.dinodes k) ≡ false)
      → (s : Slot) → Legal s
      → value (file_at f.disk k) s ≢ 0
      → g.disk.bitmap (value (file_at f.disk k) s) ≡ true
