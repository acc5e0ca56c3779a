-- ===== src/Fs/Itable/Unique.antt =====
-- An inode has one entry in the table: `iget` of Lab-5 Task 5.1, kernel/fs.c.
use cs344_os_lab.Base.{ℕ, ◌<◌, ◌≡◌, true, none, some, Option, List, arith, inl, inr}
use cs344_os_lab.Base.Search.{first_cases, IsFirst, NonePasses}
use cs344_os_lab.Base.Lists.{length, set, length-set, get_or-set}
use cs344_os_lab.Fs.{Inode}
use cs344_os_lab.Fs.Itable.{no_inode, inode, holds, is_spare, dup, recycle, recycle_at, iget}

unfoldable pub Unique : List Inode → Type 0
Unique t =
    (dev inum i j : ℕ)
    → i < length t
    → j < length t
    → holds dev inum (inode t i) ≡ true
    → holds dev inum (inode t j) ≡ true
    → i ≡ j

-- How `iget` ends: with one more reference to the entry that the inode has, with a fresh entry when
-- it has none, or in the panic when there is neither.
pub data Gets (t : List Inode) (dev inum : ℕ) : Option (ℕ × List Inode) → Type 0 where
  hits :
      (i : ℕ)
      → IsFirst (holds dev inum) no_inode t i
      → Unique (set t i (dup (inode t i)))
      → Gets t dev inum (some (i, set t i (dup (inode t i))))
  recycles :
      (i : ℕ)
      → NonePasses (holds dev inum) no_inode t
      → IsFirst is_spare no_inode t i
      → Unique (set t i (recycle dev inum (inode t i)))
      → Gets t dev inum (some (i, set t i (recycle dev inum (inode t i))))
  panics :
      NonePasses (holds dev inum) no_inode t → NonePasses is_spare no_inode t → Gets t dev inum none

dup-Unique :
    (t : List Inode) (k : ℕ) (dev inum : ℕ)
    → IsFirst (holds dev inum) no_inode t k
    → Unique t
    → Unique (set t k (dup (inode t k)))
unfolding Unique
dup-Unique t k dev inum f u d n i j hi hj pi pj = ground (
  arith,
  f.within,
  f.passes,
  length-set t k (dup (inode t k)),
  get_or-set t k i (dup (inode t k)) no_inode,
  get_or-set t k j (dup (inode t k)) no_inode,
  u d n i j,
)

recycle-Unique :
    (t : List Inode) (k : ℕ) (dev inum : ℕ)
    → NonePasses (holds dev inum) no_inode t
    → IsFirst is_spare no_inode t k
    → Unique t
    → Unique (set t k (recycle dev inum (inode t k)))
unfolding Unique
recycle-Unique t k dev inum absent f u d n i j hi hj pi pj = ground (
  arith,
  f.within,
  length-set t k (recycle dev inum (inode t k)),
  get_or-set t k i (recycle dev inum (inode t k)) no_inode,
  get_or-set t k j (recycle dev inum (inode t k)) no_inode,
  u d n i j,
  absent i,
  absent j,
)

-- In a table where no inode has two entries, `iget` gives the entry that the inode has one more
-- reference, or a free entry to an inode that has none, and no inode gets two entries; it panics
-- only when the inode has no entry and none is free.
pub iget-Gets : (t : List Inode) (dev inum : ℕ) → Unique t → Gets t dev inum (iget t dev inum)
unfolding iget recycle_at
iget-Gets t dev inum u = elim (first_cases (holds dev inum) no_inode t) [
  | inr (i, e, f) ↦ rw (iget, e) (hits i f (dup-Unique t i dev inum f u))
  | inl (e, f) ↦ elim (first_cases is_spare no_inode t) [
    | inl (e', g) ↦ rw (iget, e, e') (panics f g)
    | inr (i, e', g) ↦ rw (iget, e, e') (recycles i f g (recycle-Unique t i dev inum f g u))
  ]
]
