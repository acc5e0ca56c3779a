-- ===== src/Fs/Accounts.antt =====
-- References and locks under the operations of Lab-5 Task 5.1, kernel/fs.c, from any state of the file
-- system: which entries of the table each takes them from and gives them back to, when it returns.
pub mod Refs
pub mod Writes
pub mod Entries
pub mod Inodes
pub mod Directories
pub mod Names
use cs344_os_lab.Base.{
  ℕ, ◌+◌, ◌<◌, ◌≡◌, refl, sym, ap, ◌∙◌, Bool, true, false, List, arith, inl, inr,
}
use native.Mathlib.Decide.{dec_le}
use cs344_os_lab.Base.Tests.{if◌then◌else◌, ◌==◌, Bool-cases, ==→eq, ==→ne}
use cs344_os_lab.Base.Bags.{at, times}
use cs344_os_lab.Base.Lists.{length, set, get_or-set_self, get_or-set_ne, set_past}
use cs344_os_lab.Fs.{Inode, upd}
use cs344_os_lab.Fs.Itable.{no_inode, inode}
use cs344_os_lab.Fs.Blocks.{upd_same, upd_ne}
use cs344_os_lab.Fs.Inodes.{Fsys}

-- What a lock counts for.
abbrev pub one_if : Bool → ℕ
one_if b = if b then 1 else 0

abbrev pub ref_at : List Inode → ℕ → ℕ
ref_at t j = (inode t j).ref

self :
    (t : List Inode) (i j : ℕ) (x : Inode)
    → i < length t
    → (i == j) ≡ true
    → ref_at (set t i x) j ≡ x.ref
self t i j x l e =
    ap (λ k. ref_at (set t i x) k) (sym (==→eq i j e))
    ∙ ap (λ ip. ip.ref) (get_or-set_self t i x no_inode l)

other :
    (t : List Inode) (i j : ℕ) (x : Inode) → (i == j) ≡ false → ref_at (set t i x) j ≡ ref_at t j
other t i j x e = ap (λ ip. ip.ref) (get_or-set_ne t i j x no_inode (==→ne i j e))

-- An entry changes, but not its count.
pub ref_kept :
    (t : List Inode) (i j : ℕ) (x : Inode) → x.ref ≡ ref_at t i → ref_at (set t i x) j ≡ ref_at t j
ref_kept t i j x h = elim (dec_le (length t) i) [
  | yes l ↦ ap (λ u. ref_at u j) (set_past t i x l)
  | no ¬l ↦ elim (Bool-cases (i == j)) [
    | inl e ↦ self t i j x (omega arith) e ∙ h ∙ ap (λ k. ref_at t k) (==→eq i j e)
    | inr e ↦ other t i j x e
  ]
]

-- A count goes up or down at one entry.
pub ref_up :
    (t : List Inode) (i j : ℕ) (x : Inode)
    → i < length t
    → x.ref ≡ ref_at t i + 1
    → ref_at (set t i x) j ≡ ref_at t j + at i j
unfolding at
ref_up t i j x l h = elim (Bool-cases (i == j)) [
  | inl e ↦ rw (e) (self t i j x l e ∙ h ∙ ap (λ k. ref_at t k + 1) (==→eq i j e))
  | inr e ↦ rw (e) (other t i j x e ∙ omega arith)
]

pub ref_down :
    (t : List Inode) (i j : ℕ) (x : Inode)
    → i < length t
    → x.ref + 1 ≡ ref_at t i
    → ref_at (set t i x) j + at i j ≡ ref_at t j
unfolding at
ref_down t i j x l h = elim (Bool-cases (i == j)) [
  | inl e ↦ rw (e) (ap (λ n. n + 1) (self t i j x l e) ∙ h ∙ ap (λ k. ref_at t k) (==→eq i j e))
  | inr e ↦ rw (e) (let o = other t i j x e in omega arith)
]

pub lock_on :
    (l : ℕ → Bool) (i j : ℕ) → l i ≡ false → one_if (upd l i true j) ≡ one_if (l j) + at i j
unfolding at
lock_on l i j u = elim (Bool-cases (i == j)) [
  | inl e ↦ rw (e) (
      ap (λ k. one_if (upd l i true k)) (sym (==→eq i j e))
      ∙ ap one_if (upd_same l i true)
      ∙ ap (λ b. one_if b + 1) (sym u)
      ∙ ap (λ k. one_if (l k) + 1) (==→eq i j e))
  | inr e ↦ rw (e, upd_ne l i true j (λ q. ==→ne i j e (sym q))) (omega arith)
]

pub lock_off :
    (l : ℕ → Bool) (i j : ℕ) → l i ≡ true → one_if (upd l i false j) + at i j ≡ one_if (l j)
unfolding at
lock_off l i j u = elim (Bool-cases (i == j)) [
  | inl e ↦ rw (e) (
      ap (λ k. one_if (upd l i false k) + 1) (sym (==→eq i j e))
      ∙ ap (λ b. one_if b + 1) (upd_same l i false)
      ∙ ap one_if (sym u)
      ∙ ap (λ k. one_if (l k)) (==→eq i j e))
  | inr e ↦ rw (e, upd_ne l i false j (λ q. ==→ne i j e (sym q))) (omega arith)
]

pub lock_free : (l : ℕ → Bool) (i j : ℕ) → l i ≡ false → one_if (upd l i false j) ≡ one_if (l j)
lock_free l i j u = elim (Bool-cases (i == j)) [
  | inl e ↦
      ap (λ k. one_if (upd l i false k)) (sym (==→eq i j e))
      ∙ ap one_if (upd_same l i false ∙ sym u)
      ∙ ap (λ k. one_if (l k)) (==→eq i j e)
  | inr e ↦ rw (upd_ne l i false j (λ q. ==→ne i j e (sym q))) refl
]

-- The entries that lose a reference or get one, and those whose lock is given up or taken; the others
-- keep what they have.
pub record Shift (f : Fsys) (lost won off on : List ℕ) (g : Fsys) : Type 0 where
  pub size : length g.table ≡ length f.table
  pub by_refs : (j : ℕ) → ref_at g.table j + times lost j ≡ ref_at f.table j + times won j
  pub by_locks : (j : ℕ) → one_if (g.locked j) + times off j ≡ one_if (f.locked j) + times on j
