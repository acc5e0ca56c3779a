-- ===== src/Fs/Dirs/Adds.antt =====
-- `dirlink` of Lab-5 Task 5.1, kernel/fs.c, against `dirlookup`.
use cs344_os_lab.Base.{
  ℕ, ◌+◌, ◌*◌, ◌<◌, ◌≡◌, ◌≢◌, refl, sym, ap, ◌∙◌, true, false, Option, none, some, List, ◌⊎◌, inl,
  inr, arith,
}
use mathlib.Core.Bool.{false≢true}
use cs344_os_lab.Base.Tests.{Bool-cases, if◌then◌else◌, ◌==◌, ==→eq, ==→ne}
use cs344_os_lab.Base.Int.{ℤ, pos, minus_one, eq_int}
use cs344_os_lab.Base.Partial.{◌>>=◌}
use cs344_os_lab.Fs.{Open, bsize, maxfile}
use cs344_os_lab.Fs.Slots.{Inv}
use cs344_os_lab.Fs.Io.Write.{Short}
use cs344_os_lab.Fs.Io.Writei.{Wrote, longer, writei-Wrote}
use cs344_os_lab.Fs.Itable.{inode}
use cs344_os_lab.Fs.Inodes.{Fsys, open_at, back}
use cs344_os_lab.Fs.Dirs.{t_dir, kernel_copy, new_entry, add_entry, dirlookup, dirlink}
use cs344_os_lab.Fs.Dirs.Scan.{Dense, Finds, absent, found, Stops, empty_entry-Stops}
use cs344_os_lab.Fs.Dirs.Lookup.{Looks, missing, present, no_room, dirlookup-Looks}
use cs344_os_lab.Fs.Dirs.Link.{Differs, Written, links-Finds, keeps-Finds}

-- How adding an entry ends: the directory cannot get longer; or the disk is full; or the name is
-- found, and every other name as before.
pub data Adds (size : ℕ) (name : List ℕ) (inum : ℕ) (o : Open) : ℤ → Open → Type 0 where
  longest : maxfile * bsize < o.ip.size + 16 → Adds size name inum o minus_one o
  full :
      (o' : Open)
      → ((b : ℕ) → b < size → o'.disk.bitmap b ≡ true)
      → Inv size o'
      → Adds size name inum o minus_one o'
  adds :
      (o' : Open) (off : ℕ)
      → Inv size o'
      → Finds name o' 0 (some (off, inum))
      → ((other : List ℕ) (r : Option (ℕ × ℕ))
          → Differs other name
          → Finds other o 0 r
          → Finds other o' 0 r)
      → Adds size name inum o (pos 0) o'

module _ (size : ℕ) (name : List ℕ) (inum : ℕ) (o : Open) (v : Inv size o) (d : Dense o)
    (l : inum < 65536) (nz : inum ≢ 0) (free : Finds name o 0 none) where
  abbrev AddsTo : Option (ℤ × Open) → Type 0
  AddsTo r = (p : ℤ × Open) × (r ≡ some p) × Adds size name inum o p.0 p.1

  Wrote-Adds :
      (off : ℕ) (r : Option (ℤ × Open))
      → Stops o 0 off
      → Wrote size kernel_copy (new_entry name inum) off 16 o r
      → AddsTo (r >>= (λ w. some (if eq_int w.0 (pos 16) then pos 0 else minus_one, w.1)))
  Wrote-Adds off r s w = rw (w.ends) (elim (Bool-cases (w.total == 16)) [
    | inl e ↦ rw e (
      (pos 0, w.o'),
      refl,
      adds w.o' off w.inv (links-Finds name inum o w.o' off d (written e) l nz free)
          (keeps-Finds name inum o w.o' off d (written e)),
    )
    | inr e ↦ rw e ((minus_one, w.o'), refl, full w.o' (is_full e w.short) w.inv)
  ])
    where
      written : (w.total == 16) ≡ true → Written name inum o w.o' off
      written e = record {
        stops = s;
        bytes = λ i h. w.wrote i (ground (arith, e, h));
        rest = w.rest;
        size =
            ap (λ ip. ip.size) w.sized ∙ ap (λ t. longer o.ip.size (off + t)) (==→eq w.total 16 e);
      }

      is_full :
          (w.total == 16) ≡ false
          → (w.total ≡ 16) ⊎ Short size kernel_copy (new_entry name inum) off 16 w.o'
          → (b : ℕ) → b < size
          → w.o'.disk.bitmap b ≡ true
      is_full e (inl h) = absurd (==→ne w.total 16 e h)
      is_full e (inr (inl h)) = h
      is_full e (inr (inr (t, m, h))) = absurd (omega (arith, h))

  add_entry-Adds : AddsTo (add_entry size name inum o)
  unfolding add_entry
  add_entry-Adds =
      let s = empty_entry-Stops size o o.ip.size 0 d refl (omega arith) (omega arith) in
      rw (add_entry, s.1)
        (elim (writei-Wrote size kernel_copy (new_entry name inum) s.0 16 o v
          (omega (arith, (s.2).at_most, d.fits)) (omega arith)) [
            | inl (h, e) ↦ rw e ((minus_one, o), refl, longest (too_long s.0 s.2 h))
            | inr w ↦ Wrote-Adds s.0 _ s.2 w
          ])
    where
      too_long :
          (off : ℕ)
          → Stops o 0 off
          → (o.ip.size < off) ⊎ (maxfile * bsize < off + 16)
          → maxfile * bsize < o.ip.size + 16
      too_long off s (inl h) = absurd (omega (arith, s.at_most))
      too_long off s (inr h) = omega (arith, s.at_most)

lookup_missing :
    (size i : ℕ) (name : List ℕ) (f : Fsys)
    → (inode f.table i).type ≡ t_dir
    → Dense (open_at f i)
    → Finds name (open_at f i) 0 none
    → dirlookup size i name f ≡ some (none, f)
lookup_missing size i name f t d (absent h) = ends _ refl (dirlookup-Looks size i name f t d)
  where
    never : (off inum : ℕ) → ¬ (Finds name (open_at f i) 0 (some (off, inum)))
    never off _ (found _ u a l m e) = false≢true (sym (h off u a l) ∙ m)

    ends :
        (r : Option (Option (ℕ × ℕ) × Fsys))
        → dirlookup size i name f ≡ r
        → Looks name f i r
        → dirlookup size i name f ≡ some (none, f)
    ends _ e (missing p) = e
    ends _ e (present off inum g p q) = absurd (never off inum p)
    ends _ e (no_room off inum p q) = absurd (never off inum p)

-- `dirlink` of a name that a directory does not have, with an inode number that is not 0 and fits in
-- 16 bits, returns, when the directory has whole entries, a block for each byte, and blocks that are
-- in use and all different. It returns -1 when the directory is as long as a file can be, and then
-- changes nothing, or when the disk is full. Otherwise it returns 0, the name is found with that inode
-- number, and the search for every other name finds what it found before; the blocks of the
-- directory are in use and all different again.
pub dirlink-Adds :
    (size i : ℕ) (name : List ℕ) (inum : ℕ) (f : Fsys)
    → (inode f.table i).type ≡ t_dir
    → Inv size (open_at f i)
    → Dense (open_at f i)
    → inum < 65536
    → inum ≢ 0
    → Finds name (open_at f i) 0 none
    → (p : ℤ × Open) × (dirlink size i name inum f ≡ some (p.0, back i f p.1))
      × Adds size name inum (open_at f i) p.0 p.1
unfolding dirlink
dirlink-Adds size i name inum f t v d l nz free =
    let a = add_entry-Adds size name inum (open_at f i) v d l nz free in
    rw (dirlink, lookup_missing size i name f t d free, a.1) (a.0, refl, a.2)
