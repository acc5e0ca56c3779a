-- ===== src/Fs/Names/Tests.antt =====
-- A root directory with a file in it (Lab-5 Task 5.1, kernel/fs.c): look up, add and follow a path.
use cs344_os_lab.Base.{
  ℕ, ◌/◌, ◌%◌, ◌<◌, ◌≡◌, refl, ap, subst, false, some, none, List, [], ◌∷◌, arith, inl, inr, ◌⊎◌,
}
use cs344_os_lab.Base.Tests.{◌==◌, if◌then◌else◌}
use cs344_os_lab.Base.Lists.{replicate, get_or}
use cs344_os_lab.Base.Int.{ℤ, minus}
use cs344_os_lab.Fs.{Disk, Open, bsize}
use cs344_os_lab.Fs.Tests.{small, one_block, block_file, block_file-Inv}
use cs344_os_lab.Fs.Slots.{Inv, value}
use cs344_os_lab.Fs.Bmap.Maps.{slot_of}
use cs344_os_lab.Fs.Content.{Inv_same, file_byte, content}
use cs344_os_lab.Fs.Itable.{no_inode}
use cs344_os_lab.Fs.Inodes.{Fsys, open_at, back}
use cs344_os_lab.Fs.Dirs.{strncmp, namecmp, dirlookup, dirlink}
use cs344_os_lab.Fs.Dirs.Scan.{Dense, Finds, absent}
use cs344_os_lab.Fs.Dirs.Lookup.{Looks, dirlookup-Looks}
use cs344_os_lab.Fs.Dirs.Adds.{Adds, dirlink-Adds}
use cs344_os_lab.Fs.Names.{namex}
use cs344_os_lab.Fs.Accounts.Names.{Balances, namex-Balances}
use cs344_os_lab.Fs.Itable.Unique.{Unique}

-- ".", and "a" for inode 2
abbrev entries : List ℕ
entries = 1 ∷ 0 ∷ 46 ∷ 0 ∷ 0 ∷ 0 ∷ 0 ∷ 0 ∷ 0 ∷ 0 ∷ 0 ∷ 0 ∷ 0 ∷ 0 ∷ 0 ∷ 0 ∷ 2 ∷ 0 ∷ 97 ∷ []

abbrev two_files : Disk
two_files = record small {
  dinodes = λ k. record {
    type = if k == 1 then 1 else 2;
    major = 0;
    minor = 0;
    nlink = 1;
    size = if k == 1 then 32 else 0;
    addrs = 3 ∷ replicate 12 0;
  };
  bytes = λ b j. get_or entries j 0;
}

abbrev pub root : Fsys
root = record {
  disk = two_files;
  table = record one_block.ip { inum = 1; type = 1; size = 32 } ∷ no_inode ∷ no_inode ∷ [];
  locked = λ i. false;
}

one_slot : (k : ℕ) → k < 32 → slot_of (k / bsize) ≡ slot_of 0
one_slot k l = ap slot_of (omega arith)

root-Dense : (o : Open) → o.ip.size ≡ 32 → value o (slot_of 0) ≡ 3 → Dense o
root-Dense o s v = record {
  fits = omega (arith, s);
  whole = rw s refl;
  present =
      λ k l z. absurd (omega (arith, v, z, ap (value o) (one_slot k (subst (λ n. k < n) s l))));
}

open_root : Dense (open_at root 0)
unfolding value slot_of
open_root = root-Dense (open_at root 0) refl refl

root-Inv : Inv 8 (open_at root 0)
root-Inv =
    Inv_same (block_file two_files.bytes) (open_at root 0) refl refl 8 refl
      (block_file-Inv two_files.bytes)

-- "b"
abbrev other : List ℕ
other = 98 ∷ []

no_other : Finds other (open_at root 0) 0 none
unfolding file_byte content slot_of value strncmp namecmp minus
no_other = absent (λ off l a u. elim (two off a u) [ inl e ↦ rw e refl | inr e ↦ rw e refl ])
  where
    two : (off : ℕ) → off % 16 ≡ 0 → off < 32 → (off ≡ 0) ⊎ (off ≡ 16)
    two off a u = ground (arith, a, u)

dirlookup-Looks_example : Looks (97 ∷ []) root 0 (dirlookup 8 0 (97 ∷ []) root)
dirlookup-Looks_example = dirlookup-Looks 8 0 (97 ∷ []) root refl open_root

dirlink-Adds_example :
    (p : ℤ × Open) × (dirlink 8 0 other 5 root ≡ some (p.0, back 0 root p.1))
    × Adds 8 other 5 (open_at root 0) p.0 p.1
dirlink-Adds_example =
    dirlink-Adds 8 0 other 5 root refl root-Inv open_root (omega arith) (omega arith) no_other

-- the path "/a"
abbrev path : List ℕ
path = 47 ∷ 97 ∷ []

namex-Balances_example : Balances root [] (namex 8 false path 0 root)
namex-Balances_example = namex-Balances 8 false path 0 root (omega arith)
