-- ===== src/Fs/Inodes/Tests.antt =====
-- An unlinked file of one block (Lab-5 Task 5.1, kernel/fs.c): its last use, and its recovery at the
-- start.
use cs344_os_lab.Base.{ℕ, zero, suc, ◌≡◌, refl, sym, ◌∙◌, false, some, [], ◌∷◌, arith, inl, inr}
use cs344_os_lab.Base.Tests.{◌==◌, if◌then◌else◌, ==→eq, Bool-cases}
use cs344_os_lab.Base.Lists.{replicate}
use cs344_os_lab.Fs.{Disk, Open}
use cs344_os_lab.Fs.Tests.{small, one_block, one_block-Inv}
use cs344_os_lab.Fs.Slots.{Inv}
use cs344_os_lab.Fs.Content.{Inv_same}
use cs344_os_lab.Fs.Itable.{no_inode, inode}
use cs344_os_lab.Fs.Trunc.{itrunc}
use cs344_os_lab.Fs.Trunc.Clears.{Truncated, itrunc-Truncated}
use cs344_os_lab.Fs.Inodes.{Fsys, open_at, iput, ireclaim}
use cs344_os_lab.Fs.Inodes.Puts.{Puts, iput-Puts}
use cs344_os_lab.Fs.Inodes.Reclaims.{file_at, InUse, Sound, Idle, Reclaimed}
use cs344_os_lab.Fs.Inodes.Reclaims.Loop.{ireclaim-Reclaimed}

itrunc-Truncated_example : (r : Open) × (itrunc one_block ≡ some r) × Truncated 8 one_block r
itrunc-Truncated_example = itrunc-Truncated 8 one_block one_block-Inv

abbrev last_open : Fsys
last_open = record {
  disk = small;
  table = record one_block.ip { nlink = 0 } ∷ no_inode ∷ [];
  locked = λ i. false;
}

last_open-Inv : Inv 8 (open_at last_open 0)
last_open-Inv = Inv_same one_block (open_at last_open 0) refl refl 8 refl one_block-Inv

iput-Puts_example : (g : Fsys) × (iput 0 last_open ≡ some g) × Puts last_open 0 (some g)
iput-Puts_example = iput-Puts 8 last_open 0 (omega arith) last_open-Inv (omega arith) refl

-- inode 1 is an orphan with block 3
abbrev crashed : Disk
crashed = record small {
  dinodes = λ k. record {
    type = if k == 1 then 2 else 0;
    major = 0;
    minor = 0;
    nlink = 0;
    size = 1024;
    addrs = 3 ∷ replicate 12 0;
  };
}

only_one : (k : ℕ) → InUse 3 crashed k → k ≡ 1
only_one k (l, u, nz) = elim (Bool-cases (k == 1)) [
  | inl e ↦ ==→eq k 1 e
  | inr e ↦ absurd (nz (rw e refl))
]

crashed-Sound : Sound 8 3 crashed
crashed-Sound = record {
  each = λ k u. Inv_same one_block (file_at crashed k) refl refl 8 refl one_block-Inv;
  disjoint = λ j k u v ne s t l m nz e. ne (only_one j u ∙ sym (only_one k v));
}

abbrev booting : Fsys
booting = record { disk = crashed; table = no_inode ∷ no_inode ∷ []; locked = λ i. false }

booting-Idle : Idle booting
booting-Idle = record { room = omega arith; spare = spare; unlocked = λ i. refl }
  where
    spare : (i : ℕ) → (inode booting.table i).ref ≡ 0
    spare zero = refl
    spare (suc zero) = refl
    spare (suc (suc i)) = refl

ireclaim-Reclaimed_example : (g : Fsys) × (ireclaim 3 1 booting ≡ some g) × Reclaimed booting 3 3 g
ireclaim-Reclaimed_example =
    ireclaim-Reclaimed 8 3 1 booting crashed-Sound (omega arith) refl booting-Idle
