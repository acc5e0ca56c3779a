-- ===== src/Fs/Names/Tidy.antt =====
-- The table of inodes while names are looked up (Lab-5 Task 5.1, kernel/fs.c).
use cs344_os_lab.Base.{ℕ, ◌<◌, ◌≡◌, ◌≢◌, sym, ap, ◌∙◌, subst, true, List, ◌⊎◌, inl, inr, arith}
use native.Mathlib.Decide.{dec_le}
use cs344_os_lab.Base.Tests.{Bool-cases, ◌==◌, ==→eq, ==→ne}
use cs344_os_lab.Base.Lists.{length, set, get_or-set_self, get_or-set_ne, get_or-past, length-set}
use cs344_os_lab.Fs.{Inode, Disk}
use cs344_os_lab.Fs.Itable.{no_inode, inode, holds}
use cs344_os_lab.Fs.Itable.Unique.{Unique}
use cs344_os_lab.Fs.Inodes.{load}

-- An entry that is loaded agrees with the disk.
abbrev pub Synced : Disk → Inode → Type 0
Synced d ip = ip ≡ load (d.dinodes ip.inum) ip

-- No inode has two entries; the loaded ones agree with the disk; those with references hold inodes that are in use.
pub record Tidy (d : Disk) (t : List Inode) : Type 0 where
  pub unique : Unique t
  pub synced : (i : ℕ) → (inode t i).ref ≢ 0 → (inode t i).valid ≡ true → Synced d (inode t i)
  pub live : (i : ℕ) → (inode t i).ref ≢ 0 → (d.dinodes (inode t i).inum).type ≢ 0

pub in_table : (t : List Inode) (i : ℕ) → (inode t i).ref ≢ 0 → i < length t
in_table t i nz = elim (dec_le (length t) i) [
  | yes l ↦ absurd (nz (ap (λ ip. ip.ref) (get_or-past t i no_inode l)))
  | no ¬l ↦ omega arith
]

-- An entry changes, but not the inode that it holds.
pub record Refresh (d : Disk) (old new : Inode) : Type 0 where
  pub dev : new.dev ≡ old.dev
  pub inum : new.inum ≡ old.inum
  pub held : new.ref ≢ 0 → old.ref ≢ 0
  pub synced : new.ref ≢ 0 → new.valid ≡ true → Synced d new

-- The entry that index `j` has after a change at `i`.
pub after_set :
    (t : List Inode) (i j : ℕ) (x : Inode)
    → i < length t
    → ((j ≡ i) × (inode (set t i x) j ≡ x)) ⊎ ((j ≢ i) × (inode (set t i x) j ≡ inode t j))
after_set t i j x l = elim (Bool-cases (i == j)) [
  | inl e ↦ inl (
    sym (==→eq i j e),
    subst (λ k. inode (set t i x) k ≡ x) (==→eq i j e) (get_or-set_self t i x no_inode l),
  )
  | inr e ↦ inr ((λ q. ==→ne i j e (sym q)), get_or-set_ne t i j x no_inode (==→ne i j e))
]

module _ (d : Disk) (t : List Inode) (i : ℕ) (x : Inode) (l : i < length t) where
  still_held :
      (dev inum j : ℕ)
      → Refresh d (inode t i) x
      → holds dev inum (inode (set t i x) j) ≡ true
      → holds dev inum (inode t j) ≡ true
  still_held dev inum j r h = elim (after_set t i j x l) [
    | inr e ↦ ap (holds dev inum) (sym e.1) ∙ h
    | inl e ↦ ground (arith, e.0, e.1, h, r.dev, r.inum, r.held)
  ]

  pub Refresh-Tidy : Refresh d (inode t i) x → Tidy d t → Tidy d (set t i x)
  unfolding Unique
  Refresh-Tidy r y = record {
    unique = λ dev inum j k hj hk pj pk.
        y.unique dev inum j k (subst (λ n. j < n) (length-set t i x) hj)
          (subst (λ n. k < n) (length-set t i x) hk) (still_held dev inum j r pj)
          (still_held dev inum k r pk);
    synced = λ j nz v. elim (after_set t i j x l) [
      | inl e ↦
          subst (λ ip. Synced d ip) (sym e.1)
            (r.synced (λ z. nz (ap (λ ip. ip.ref) e.1 ∙ z)) (sym (ap (λ ip. ip.valid) e.1) ∙ v))
      | inr e ↦
          subst (λ ip. Synced d ip) (sym e.1)
            (y.synced j (λ z. nz (ap (λ ip. ip.ref) e.1 ∙ z)) (sym (ap (λ ip. ip.valid) e.1) ∙ v))
    ];
    live = λ j nz z. elim (after_set t i j x l) [
      | inl e ↦
          y.live i (r.held (λ q. nz (ap (λ ip. ip.ref) e.1 ∙ q)))
            (ap (λ n. (d.dinodes n).type) (sym r.inum ∙ sym (ap (λ ip. ip.inum) e.1)) ∙ z)
      | inr e ↦
          y.live j (λ q. nz (ap (λ ip. ip.ref) e.1 ∙ q))
            (ap (λ n. (d.dinodes n).type) (sym (ap (λ ip. ip.inum) e.1)) ∙ z)
    ];
  }
