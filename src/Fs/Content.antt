-- ===== src/Fs/Content.antt =====
-- The content of a file as a function of the offset (Lab-5 Task 5.1, kernel/fs.c): what `bmap` and
-- a change of one block do to it.
use cs344_os_lab.Base.{ℕ, ◌/◌, ◌%◌, ◌≡◌, ◌≢◌, refl, sym, ap, ap₂, ◌∙◌, subst, inl, inr}
use cs344_os_lab.Base.Tests.{if◌then◌else◌, ◌==◌, Bool-cases, ==→eq, ==→ne, ==_ne}
use cs344_os_lab.Base.Lists.{get_or}
use cs344_os_lab.Fs.{Open, upd, bsize}
use cs344_os_lab.Fs.Blocks.{upd_same, upd_ne}
use cs344_os_lab.Fs.Slots.{Slot, top, sub, Legal, parent-Legal, value, through, through_same, Inv}
use cs344_os_lab.Fs.Bmap.Grows.{Grows, Leaf}
use cs344_os_lab.Fs.Bmap.Maps.{slot_of}

-- The bytes of a block of the content; a block that is not there reads as zero.
unfoldable pub content : Open → Slot → ℕ → ℕ
content o t j = if value o t == 0 then 0 else o.disk.bytes (value o t) j

unfoldable pub file_byte : Open → ℕ → ℕ
file_byte o k = content o (slot_of (k / bsize)) (k % bsize)

pub content_absent : (o : Open) (t : Slot) (j : ℕ) → value o t ≡ 0 → content o t j ≡ 0
unfolding content
content_absent o t j e = rw e refl

pub content_present :
    (o : Open) (t : Slot) (j : ℕ) → value o t ≢ 0 → content o t j ≡ o.disk.bytes (value o t) j
unfolding content
content_present o t j nz = rw (==_ne _ 0 nz) refl

content_at :
    (o o' : Open) (t : Slot) (j : ℕ)
    → value o' t ≡ value o t
    → (value o t ≢ 0 → o'.disk.bytes (value o t) j ≡ o.disk.bytes (value o t) j)
    → content o' t j ≡ content o t j
content_at o o' t j e f = elim (Bool-cases (value o t == 0)) [
  | inl z ↦ content_absent o' t j (e ∙ ==→eq _ 0 z) ∙ sym (content_absent o t j (==→eq _ 0 z))
  | inr z ↦
      content_present o' t j (λ y. ==→ne _ 0 z (sym e ∙ y))
      ∙ ap (λ b. o'.disk.bytes b j) e
      ∙ f (==→ne _ 0 z)
      ∙ sym (content_present o t j (==→ne _ 0 z))
]

-- Only the blocks and the entries count.
module _ (o o' : Open) (b : o'.disk.bytes ≡ o.disk.bytes) (a : o'.ip.addrs ≡ o.ip.addrs) where
  pub value_same : (s : Slot) → value o' s ≡ value o s
  unfolding value
  value_same (top k) = ap (λ l. get_or l k 0) a
  value_same (sub s i) = ap₂ (λ c d. through c d i) b (value_same s)

  pub file_byte_same : (k : ℕ) → file_byte o' k ≡ file_byte o k
  unfolding file_byte
  file_byte_same k =
      content_at o o' (slot_of (k / bsize)) (k % bsize) (value_same _)
        (λ _. ap (λ c. c (value o (slot_of (k / bsize))) (k % bsize)) b)

  pub Inv_same : (size : ℕ) → o'.disk.bitmap ≡ o.disk.bitmap → Inv size o → Inv size o'
  Inv_same size m v = record {
    boot = rw m v.boot;
    entries = rw a v.entries;
    small = v.small;
    used = λ s l nz.
        ap (λ f. f (value o' s)) m
        ∙ ap o.disk.bitmap (value_same s)
        ∙ v.used s l (λ z. nz (value_same s ∙ z));
    within = λ s l nz. rw (value_same s) (v.within s l (λ z. nz (value_same s ∙ z)));
    apart = λ s t l n nz e.
        v.apart s t l n (λ z. nz (value_same s ∙ z)) (sym (value_same s) ∙ e ∙ value_same t);
  }

-- A block of the content is no index block.
not_index :
    (size : ℕ) (o : Open) (t : Slot)
    → Inv size o
    → Legal t
    → Leaf t
    → value o t ≢ 0
    → (p : Slot) (i : ℕ) → Legal (sub p i)
    → value o t ≢ value o p
not_index size o t v l leaf nz p i m q =
    leaf i (subst (λ s. Legal (sub s i)) (sym (v.apart t p l (parent-Legal p i m) nz q)) m)

-- Filling slots leaves the content as it is.
pub Grows-content :
    (size : ℕ) (P : Slot → Type 0) (o o' : Open) (t : Slot) (j : ℕ)
    → Inv size o
    → Grows size P o o'
    → Legal t
    → Leaf t
    → content o' t j ≡ content o t j
Grows-content size P o o' t j v g l leaf = elim (g.slots t l) [
  | inl e ↦
      content_at o o' t j e
        (λ nz. ap (λ p. p j) (g.bytes _ (v.used t l nz) (not_index size o t v l leaf nz)))
  | inr e ↦ elim (Bool-cases (value o' t == 0)) [
    | inl z ↦ content_absent o' t j (==→eq _ 0 z) ∙ sym (content_absent o t j e.1)
    | inr z ↦
        content_present o' t j (==→ne _ 0 z)
        ∙ ap (λ p. p j) (e.3 leaf)
        ∙ sym (content_absent o t j e.1)
  ]
]

-- The block `b` becomes `p`.
abbrev pub put : ℕ → (ℕ → ℕ) → Open → Open
put b p o = record o { disk = record (o.disk) { bytes = upd o.disk.bytes b p } }

module _ (size : ℕ) (o : Open) (v : Inv size o) (t : Slot) (l : Legal t) (leaf : Leaf t)
    (nz : value o t ≢ 0) (p : ℕ → ℕ) where
  pub put-value : (s : Slot) → Legal s → value (put (value o t) p o) s ≡ value o s
  unfolding value
  put-value (top k) m = refl
  put-value (sub s i) m =
      ap (λ b. through (upd o.disk.bytes (value o t) p) b i) (put-value s (parent-Legal s i m))
      ∙ through_same _ _ (value o s) i
          (upd_ne _ _ _ _ (λ e. not_index size o t v l leaf nz s i m (sym e)))

  pub put-Inv : Inv size (put (value o t) p o)
  put-Inv = record {
    boot = v.boot;
    entries = v.entries;
    small = v.small;
    used = λ s m n. rw (put-value s m) (v.used s m (λ z. n (put-value s m ∙ z)));
    within = λ s m n. rw (put-value s m) (v.within s m (λ z. n (put-value s m ∙ z)));
    apart = λ s u m n y e.
        v.apart s u m n (λ z. y (put-value s m ∙ z)) (sym (put-value s m) ∙ e ∙ put-value u n);
  }

  pub put-content : (j : ℕ) → content (put (value o t) p o) t j ≡ p j
  put-content j =
      content_present (put (value o t) p o) t j (λ z. nz (sym (put-value t l) ∙ z))
      ∙ ap (λ b. upd o.disk.bytes (value o t) p b j) (put-value t l)
      ∙ ap (λ q. q j) (upd_same o.disk.bytes (value o t) p)

  pub put-content_ne :
      (s : Slot) (j : ℕ) → Legal s → s ≢ t → content (put (value o t) p o) s j ≡ content o s j
  put-content_ne s j m n = content_at o (put (value o t) p o) s j (put-value s m) (λ y.
      ap (λ q. q j) (upd_ne o.disk.bytes (value o t) p (value o s) (λ e. n (v.apart s t m l y e))))
