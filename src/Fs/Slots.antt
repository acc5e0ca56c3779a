-- ===== src/Fs/Slots.antt =====
-- The block numbers that an inode reaches (Lab-5 Task 5.1, kernel/fs.c): which slots hold them, and
-- what putting a fresh block into an empty slot does to the others.
use cs344_os_lab.Base.{ℕ, ◌<◌, ◌≤◌, ◌≡◌, ◌≢◌, refl, sym, ap, ◌∙◌, true, false, arith, inl, inr, ◌⊎◌}
use mathlib.Core.Bool.{false≢true}
use cs344_os_lab.Base.Tests.{if◌then◌else◌, ◌==◌, Bool-cases, ==→eq, ==→ne, ==_ne}
use cs344_os_lab.Base.Lists.{length, get_or}
use cs344_os_lab.Fs.{Open, upd, read_word, nindirect}
use cs344_os_lab.Fs.Blocks.{upd_same, upd_ne}

-- An entry of `ip->addrs`, or entry `i` of the index block that another slot names.
pub data Slot : Type 0 where
  top : ℕ → Slot
  sub : Slot → ℕ → Slot

-- The slots of an inode: 13 entries, the words of the indirect block, and the doubly-indirect
-- block with the words of the blocks that it names.
unfoldable pub Legal : Slot → Type 0
Legal (top k) = k < 13
Legal (sub (top k) i) = ((k ≡ 11) ⊎ (k ≡ 12)) × (i < nindirect)
Legal (sub (sub (top k) i) j) = (k ≡ 12) × (i < nindirect) × (j < nindirect)
Legal (sub (sub (sub s h) i) j) = ⊥

pub parent-Legal : (s : Slot) (i : ℕ) → Legal (sub s i) → Legal s
unfolding Legal
parent-Legal (top k) i (inl e, l) = omega arith
parent-Legal (top k) i (inr e, l) = omega arith
parent-Legal (sub (top k) h) i (e, l, u) = (inr e, l)
parent-Legal (sub (sub s g) h) i l = elim l [ ]

pub no_deeper : (s : Slot) (h i j : ℕ) → ¬ (Legal (sub (sub (sub s h) i) j))
unfolding Legal
no_deeper s h i j l = l

-- The block number in a slot: 0 below an index block that is not there.
pub through : (ℕ → ℕ → ℕ) → ℕ → ℕ → ℕ
through bytes b i = if b == 0 then 0 else read_word (bytes b) i

unfoldable pub value : Open → Slot → ℕ
value o (top k) = get_or o.ip.addrs k 0
value o (sub s i) = through o.disk.bytes (value o s) i

-- Every block number that the inode reaches is marked in use and below `size`, and no two slots
-- hold the same one. The boot block is in use.
pub record Inv (size : ℕ) (o : Open) : Type 0 where
  pub boot : o.disk.bitmap 0 ≡ true
  pub entries : length o.ip.addrs ≡ 13
  pub small : size ≤ 4294967296
  pub used : (s : Slot) → Legal s → value o s ≢ 0 → o.disk.bitmap (value o s) ≡ true
  pub within : (s : Slot) → Legal s → value o s ≢ 0 → value o s < size
  pub apart : (s t : Slot) → Legal s → Legal t → value o s ≢ 0 → value o s ≡ value o t → s ≡ t

-- Slot `s`, empty in `o`, holds the fresh block `b` in `o'`, and that block reads as zero.
pub record Change (size : ℕ) (o o' : Open) (s : Slot) (b : ℕ) : Type 0 where
  pub legal : Legal s
  pub empty : value o s ≡ 0
  pub holds : value o' s ≡ b
  pub free : o.disk.bitmap b ≡ false
  pub below : b < size
  pub marks : o'.disk.bitmap ≡ upd o.disk.bitmap b true
  pub counts : length o'.ip.addrs ≡ 13
  pub blank : o'.disk.bytes b ≡ (λ j. 0)
  pub tops : (j : ℕ) → (top j ≡ s) ⊎ (value o' (top j) ≡ value o (top j))
  pub words :
      (u : Slot) (h : ℕ)
      → Legal u
      → value o u ≢ 0
      → (sub u h ≡ s) ⊎ (value o' u ≡ value o u → value o' (sub u h) ≡ value o (sub u h))

pub through_none : (bytes : ℕ → ℕ → ℕ) (i : ℕ) → through bytes 0 i ≡ 0
unfolding through
through_none bytes i = refl

read_word_blank : (i : ℕ) → read_word (λ j. 0) i ≡ 0
unfolding read_word
read_word_blank i = refl

pub through_blank : (bytes : ℕ → ℕ → ℕ) (b i : ℕ) → bytes b ≡ (λ j. 0) → through bytes b i ≡ 0
unfolding through
through_blank bytes b i e = elim (Bool-cases (b == 0)) [
  | inl z ↦ rw z refl
  | inr z ↦ rw (z, e) (read_word_blank i)
]

pub through_same :
    (bytes bytes' : ℕ → ℕ → ℕ) (b i : ℕ)
    → bytes' b ≡ bytes b
    → through bytes' b i ≡ through bytes b i
unfolding through
through_same bytes bytes' b i e = rw e refl

pub through_nonzero :
    (bytes : ℕ → ℕ → ℕ) (b i : ℕ) → b ≢ 0 → through bytes b i ≡ read_word (bytes b) i
unfolding through
through_nonzero bytes b i nz = rw (==_ne b 0 nz) refl

-- No other slot changes.
pub Change-others :
    (size : ℕ) (o o' : Open) (s : Slot) (b : ℕ)
    → Change size o o' s b
    → (t : Slot) → Legal t
    → (t ≡ s) ⊎ (value o' t ≡ value o t)
unfolding value
Change-others size o o' s b c (top j) l = c.tops j
Change-others size o o' s b c (sub t i) l =
    below_of (Change-others size o o' s b c t (parent-Legal t i l))
  where
    from_zero : (p : Open) → value p t ≡ 0 → value p (sub t i) ≡ 0
    from_zero p e = ap (λ v. through p.disk.bytes v i) e ∙ through_none p.disk.bytes i

    below_of :
        (t ≡ s) ⊎ (value o' t ≡ value o t)
        → (sub t i ≡ s) ⊎ (value o' (sub t i) ≡ value o (sub t i))
    below_of (inl e) = inr (
        ap (λ v. through o'.disk.bytes v i) (ap (value o') e ∙ c.holds)
        ∙ through_blank _ b i c.blank
        ∙ sym (from_zero o (ap (value o) e ∙ c.empty)))
    below_of (inr e) = elim (Bool-cases (value o t == 0)) [
      | inl z ↦ inr (from_zero o' (e ∙ ==→eq _ 0 z) ∙ sym (from_zero o (==→eq _ 0 z)))
      | inr nz ↦ elim (c.words t i (parent-Legal t i l) (==→ne _ 0 nz)) [
        | inl f ↦ inl f
        | inr f ↦ inr (f e)
      ]
    ]

-- It keeps the invariant.
pub Change-Inv :
    (size : ℕ) (o o' : Open) (s : Slot) (b : ℕ) → Change size o o' s b → Inv size o → Inv size o'
Change-Inv size o o' s b c v = record {
  boot = is_used 0 v.boot;
  entries = c.counts;
  small = v.small;
  used = λ t l nz. elim (others t l) [
    | inl e ↦ rw (e, c.holds, c.marks) (upd_same _ b true)
    | inr e ↦ rw e (is_used _ (v.used t l (λ z. nz (e ∙ z))))
  ];
  within = λ t l nz. elim (others t l) [
    | inl e ↦ rw (e, c.holds) c.below
    | inr e ↦ rw e (v.within t l (λ z. nz (e ∙ z)))
  ];
  apart = λ t u l m nz eq. elim (others t l) [
    | inl e ↦ elim (others u m) [
      | inl f ↦ e ∙ sym f
      | inr f ↦ absurd (is_new u m f (sym (ap (value o') e ∙ c.holds) ∙ eq))
    ]
    | inr e ↦ elim (others u m) [
      | inl f ↦ absurd (is_new t l e (sym (eq ∙ ap (value o') f ∙ c.holds)))
      | inr f ↦ v.apart t u l m (λ z. nz (e ∙ z)) (sym e ∙ eq ∙ f)
    ]
  ];
}
  where
    others : (t : Slot) → Legal t → (t ≡ s) ⊎ (value o' t ≡ value o t)
    others = Change-others size o o' s b c

    is_used : (k : ℕ) → o.disk.bitmap k ≡ true → o'.disk.bitmap k ≡ true
    is_used k e = rw c.marks (
        upd_ne o.disk.bitmap b true k (λ f. false≢true (sym c.free ∙ ap o.disk.bitmap (sym f) ∙ e))
        ∙ e)

    is_free : o.disk.bitmap b ≢ true
    is_free e = false≢true (sym c.free ∙ e)

    is_new : (t : Slot) → Legal t → value o' t ≡ value o t → b ≢ value o' t
    is_new t l e eq = elim (Bool-cases (value o t == 0)) [
      | inl z ↦ is_free (ap o.disk.bitmap (eq ∙ e ∙ ==→eq _ 0 z) ∙ v.boot)
      | inr nz ↦ is_free (ap o.disk.bitmap (eq ∙ e) ∙ v.used t l (==→ne _ 0 nz))
    ]
