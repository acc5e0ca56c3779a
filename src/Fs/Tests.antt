-- ===== src/Fs/Tests.antt =====
-- The file system of Lab-5 Task 5.1, kernel/fs.c, on a disk of eight blocks, and the theorems there.
use cs344_os_lab.Base.{
  zero, suc, List, ◌∷◌, [], ℕ, ◌+◌, ◌*◌, ◌<◌, ◌≤◌, ◌≡◌, refl, sym, ap, ◌∙◌, subst, true, some,
  arith, inl, inr, ◌⊎◌,
}
use cs344_os_lab.Base.Tests.{ltb}
use cs344_os_lab.Base.Lists.{replicate, get_or-replicate}
use cs344_os_lab.Base.Int.{pos, minus_one}
use cs344_os_lab.Fs.{Inode, Disk, Open, balloc, free_from, bmap, maxfile, bsize}
use cs344_os_lab.Fs.Slots.{Slot, top, sub, Legal, parent-Legal, value, through, through_none, Inv}
use cs344_os_lab.Fs.Bmap.Grows.{Filled}
use cs344_os_lab.Fs.Bmap.Maps.{OnWay, slot_of, bmap-Filled}
use cs344_os_lab.Fs.Path.{skipelem}
use cs344_os_lab.Fs.Path.Elements.{Skips, skipelem-Skips}
use cs344_os_lab.Fs.Itable.{no_inode, iget}
use cs344_os_lab.Fs.Itable.Unique.{Unique, Gets, iget-Gets}
use cs344_os_lab.Fs.Io.{writei, readi}
use cs344_os_lab.Fs.Io.Writei.{Wrote, writei-Wrote}
use cs344_os_lab.Fs.Io.Read.{Reads, available, readi-Reads}

-- blocks 0 to 3 in use, and an empty file
abbrev pub small : Disk
small = record {
  bitmap = λ b. ltb b 4;
  dinodes = λ i. record { type = 2; major = 0; minor = 0; nlink = 1; size = 0; addrs = [] };
  bytes = λ b i. 7;
}

abbrev pub empty : Open
empty = record {
  disk = small;
  ip = record {
    dev = 1;
    inum = 9;
    ref = 1;
    valid = true;
    type = 2;
    major = 0;
    minor = 0;
    nlink = 1;
    size = 0;
    addrs = replicate 13 0;
  };
}

empty_value : (s : Slot) → Legal s → value empty s ≡ 0
unfolding value Legal
empty_value (top k) l = get_or-replicate 13 k 0 0 l
empty_value (sub s i) l =
    ap (λ v. through empty.disk.bytes v i) (empty_value s (parent-Legal s i l)) ∙ through_none _ i

empty-Inv : Inv 8 empty
empty-Inv = record {
  boot = refl;
  entries = refl;
  small = omega arith;
  used = λ s l nz. absurd (nz (empty_value s l));
  within = λ s l nz. absurd (nz (empty_value s l));
  apart = λ s t l m nz e. absurd (nz (empty_value s l));
}

balloc_first : (balloc 8 small).0 ≡ 4
unfolding balloc free_from
balloc_first = refl

bmap-Filled_example :
    (r : ℕ × Open) × (bmap 8 300 empty ≡ some r)
    × Filled 8 (OnWay (slot_of 300)) empty (slot_of 300) r.0 r.1
bmap-Filled_example = bmap-Filled 8 300 empty empty-Inv (omega arith)

-- a file of one block, on a disk with the bytes `p`
abbrev pub block_file : (ℕ → ℕ → ℕ) → Open
block_file p = record {
  disk = record small { bytes = p };
  ip = record empty.ip { addrs = 3 ∷ replicate 12 0; size = 1024 };
}

block_value : (p : ℕ → ℕ → ℕ) (s : Slot) → Legal s → (s ≡ top 0) ⊎ (value (block_file p) s ≡ 0)
unfolding value Legal
block_value p (top zero) l = inl refl
block_value p (top (suc k)) l = inr (get_or-replicate 12 k 0 0 (omega arith))
block_value p (sub s i) l = elim (block_value p s (parent-Legal s i l)) [
  | inl e ↦ absurd (none_below (subst (λ s. Legal (sub s i)) e l))
  | inr e ↦ inr (ap (λ v. through p v i) e ∙ through_none _ i)
]
  where
    none_below : ¬ (Legal (sub (top 0) i))
    none_below (inl e, m) = absurd (omega arith)
    none_below (inr e, m) = absurd (omega arith)

pub block_file-Inv : (p : ℕ → ℕ → ℕ) → Inv 8 (block_file p)
unfolding value
block_file-Inv p = record {
  boot = refl;
  entries = refl;
  small = omega arith;
  used = λ s l nz. elim (block_value p s l) [ inl e ↦ rw e refl | inr e ↦ absurd (nz e) ];
  within =
      λ s l nz. elim (block_value p s l) [ inl e ↦ rw e (omega arith) | inr e ↦ absurd (nz e) ];
  apart = λ s t l m nz q. elim (block_value p s l) [
    | inr e ↦ absurd (nz e)
    | inl e ↦ elim (block_value p t m) [ inl f ↦ e ∙ sym f | inr f ↦ absurd (nz (q ∙ f)) ]
  ];
}

abbrev pub one_block : Open
one_block = block_file (λ b i. 7)

pub one_block-Inv : Inv 8 one_block
one_block-Inv = block_file-Inv (λ b i. 7)

writei-Wrote_example :
    ((one_block.ip.size < 1020) ⊎ (maxfile * bsize < 1020 + 5))
      × (writei 8 (λ t m. m) (λ i. 65 + i) 1020 5 one_block ≡ some (minus_one, one_block))
    ⊎ Wrote 8
        (λ t m. m)
        (λ i. 65 + i)
        1020
        5
        one_block
        (writei 8 (λ t m. m) (λ i. 65 + i) 1020 5 one_block)
writei-Wrote_example =
    writei-Wrote 8 (λ t m. m) (λ i. 65 + i) 1020 5 one_block one_block-Inv (omega arith)
      (omega arith)

readi-Reads_example :
    ((one_block.ip.size < 1000) ⊎ (4294967296 ≤ 1000 + 50))
      × (readi 8 (λ t m. m) 1000 50 (λ i. 0) one_block ≡ some (pos 0, (λ i. 0), one_block))
    ⊎ Reads 8
        (λ t m. m)
        1000
        (available one_block.ip.size 1000 50)
        one_block
        (readi 8 (λ t m. m) 1000 50 (λ i. 0) one_block)
readi-Reads_example =
    readi-Reads 8 (λ t m. m) 1000 50 (λ i. 0) one_block one_block-Inv (omega arith) (omega arith)
      (omega arith)

-- "//ab/c", byte by byte
abbrev path : List ℕ
path = 47 ∷ 47 ∷ 97 ∷ 98 ∷ 47 ∷ 99 ∷ []

skipelem-Skips_example : Skips path (skipelem path)
skipelem-Skips_example = skipelem-Skips path

-- inode 9 in the first entry, and a free one
abbrev inodes : List Inode
inodes = empty.ip ∷ no_inode ∷ []

inodes-Unique : Unique inodes
unfolding Unique
inodes-Unique d n zero zero h g p q = refl
inodes-Unique d n zero (suc j) h g p q = ground (arith, q, g)
inodes-Unique d n (suc i) zero h g p q = ground (arith, p, h)
inodes-Unique d n (suc i) (suc j) h g p q = omega arith

iget-Gets_example : Gets inodes 1 9 (iget inodes 1 9)
iget-Gets_example = iget-Gets inodes 1 9 inodes-Unique
