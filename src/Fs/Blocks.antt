-- ===== src/Fs/Blocks.antt =====
-- Words of a block and the block allocator of Lab-5 Task 5.1, kernel/fs.c.
use cs344_os_lab.Base.{
  ℕ, zero, suc, ◌+◌, ◌<◌, ◌≤◌, ◌≡◌, ◌≢◌, refl, Bool, true, false, Option, none, some, arith, inl,
  inr,
}
use native.Mathlib.Decide.{dec_le}
use cs344_os_lab.Base.Tests.{Bool-cases, ==_self, ==_ne}
use cs344_os_lab.Fs.{Disk, upd, read_word, write_word, bzero, free_from, balloc}

pub upd_same {ℓ} : {A : Type ℓ} (f : ℕ → A) (k : ℕ) (v : A) → upd f k v k ≡ v
unfolding upd
upd_same f k v = rw (==_self k) refl

pub upd_ne {ℓ} : {A : Type ℓ} (f : ℕ → A) (k : ℕ) (v : A) (j : ℕ) → j ≢ k → upd f k v j ≡ f j
unfolding upd
upd_ne f k v j h = rw (==_ne j k h) refl

pub read_word-write_word :
    (p : ℕ → ℕ) (i v : ℕ) → v < 4294967296 → read_word (write_word p i v) i ≡ v
unfolding read_word write_word upd
read_word-write_word p i v h = ground arith

pub read_word-write_word_ne :
    (p : ℕ → ℕ) (i v j : ℕ) → j ≢ i → read_word (write_word p i v) j ≡ read_word p j
unfolding read_word write_word upd
read_word-write_word_ne p i v j h = ground arith

-- 0 and no change when no block below `size` is free; otherwise the first
-- free block, which is marked and zeroed, and nothing else changes.
pub data Allocates (size : ℕ) (d : Disk) : ℕ → Disk → Type 0 where
  full : ((b : ℕ) → b < size → d.bitmap b ≡ true) → Allocates size d 0 d
  gives :
      (b : ℕ)
      → b < size
      → d.bitmap b ≡ false
      → ((c : ℕ) → c < b → d.bitmap c ≡ true)
      → Allocates size d b
          (record d { bitmap = upd d.bitmap b true; bytes = upd d.bytes b (λ i. 0) })

FreeFrom : ℕ → ℕ → (ℕ → Bool) → Option ℕ → Type 0
FreeFrom n i used none = (b : ℕ) → i ≤ b → b < i + n → used b ≡ true
FreeFrom n i used (some b) =
    (i ≤ b) × (b < i + n) × (used b ≡ false) × ((c : ℕ) → i ≤ c → c < b → used c ≡ true)

skip_used :
    (n i : ℕ) (used : ℕ → Bool) (r : Option ℕ)
    → used i ≡ true
    → FreeFrom n (i + 1) used r
    → FreeFrom (suc n) i used r
unfolding FreeFrom
skip_used n i used none e h = λ b l u. elim (dec_le b i) [
  | yes le ↦ ground (arith, e)
  | no ¬le ↦ h b (omega arith) (omega arith)
]
skip_used n i used (some b) e (l, u, f, h) = (
  omega arith,
  omega arith,
  f,
  λ c m v. elim (dec_le c i) [ yes le ↦ ground (arith, e) | no ¬le ↦ h c (omega arith) v ],
)

free_from-FreeFrom : (n i : ℕ) (used : ℕ → Bool) → FreeFrom n i used (free_from n i used)
unfolding free_from FreeFrom
free_from-FreeFrom zero i used = λ b l u. absurd (omega arith)
free_from-FreeFrom (suc n) i used = elim (Bool-cases (used i)) [
  | inl e ↦ rw e (skip_used n i used _ e (free_from-FreeFrom n (i + 1) used))
  | inr e ↦ rw e (omega arith, omega arith, e, λ c l u. absurd (omega arith))
]

-- `balloc` returns 0 and changes nothing when no block below `sb.size` is free; otherwise it returns
-- the first free block, marked as in use and zeroed, and changes nothing else.
pub balloc-Allocates : (size : ℕ) (d : Disk) → Allocates size d (balloc size d).0 (balloc size d).1
unfolding balloc bzero FreeFrom
balloc-Allocates size d = allocated (free_from size 0 d.bitmap) (free_from-FreeFrom size 0 d.bitmap)
  where
    allocated :
        (r : Option ℕ)
        → FreeFrom size 0 d.bitmap r
        → Allocates size d
            (elim r as (λ _. ℕ × Disk) [
              | none ↦ (0, d)
              | some b ↦ (b, bzero b (record d { bitmap = upd d.bitmap b true }))
            ]).0
            (elim r as (λ _. ℕ × Disk) [
              | none ↦ (0, d)
              | some b ↦ (b, bzero b (record d { bitmap = upd d.bitmap b true }))
            ]).1
    allocated none h = full (λ b u. h b (omega arith) (omega arith))
    allocated (some b) (l, u, f, h) = gives b (omega arith) f (λ c v. h c (omega arith) v)
