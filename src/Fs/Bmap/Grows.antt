-- ===== src/Fs/Bmap/Grows.antt =====
-- What filling slots, as `bmap` of Lab-5 Task 5.1, kernel/fs.c, does, leaves as it was.
use cs344_os_lab.Base.{
  ℕ, ◌<◌, ◌≡◌, ◌≢◌, refl, sym, ap, ◌∙◌, subst, Bool, true, false, inl, inr, ◌⊎◌,
}
use mathlib.Core.Bool.{false≢true}
use cs344_os_lab.Base.Tests.{Bool-cases}
use cs344_os_lab.Fs.{Inode, Open}
use cs344_os_lab.Fs.Blocks.{upd_ne}
use cs344_os_lab.Fs.Slots.{Slot, sub, Legal, parent-Legal, value, Inv, Change-others, Change-Inv}
use cs344_os_lab.Fs.Bmap.{Fills, kept, none_free, fresh}

-- A slot that names a block of the file's content.
abbrev pub Leaf : Slot → Type 0
Leaf t = (i : ℕ) → ¬ (Legal (sub t i))

-- From `o` to `o'` only empty slots of `P` are filled, with blocks that were free; a block in use
-- stays in use, and its contents stay what they were unless it is an index block of the inode; the
-- rest of the inode and the inodes on the disk stay too. A fresh block of the content is zero.
pub record Grows (size : ℕ) (P : Slot → Type 0) (o o' : Open) : Type 0 where
  pub inv : Inv size o'
  pub slots :
      (t : Slot)
      → Legal t
      → (value o' t ≡ value o t)
        ⊎ (P t
            × (value o t ≡ 0)
            × (o.disk.bitmap (value o' t) ≡ false)
            × (Leaf t → o'.disk.bytes (value o' t) ≡ (λ j. 0)))
  pub in_use : (b : ℕ) → o.disk.bitmap b ≡ true → o'.disk.bitmap b ≡ true
  pub bytes :
      (c : ℕ)
      → o.disk.bitmap c ≡ true
      → ((p : Slot) (i : ℕ) → Legal (sub p i) → c ≢ value o p)
      → o'.disk.bytes c ≡ o.disk.bytes c
  pub meta : o'.ip ≡ record o.ip { addrs = o'.ip.addrs }
  pub dinodes : o'.disk.dinodes ≡ o.disk.dinodes

clash : {b : Bool} → b ≡ true → b ≢ false
clash e f = false≢true (sym f ∙ e)

Grows-refl : {size : ℕ} {P : Slot → Type 0} {o : Open} → Inv size o → Grows size P o o
Grows-refl v = record {
  inv = v;
  slots = λ t l. inl refl;
  in_use = λ b e. e;
  bytes = λ c u n. refl;
  meta = refl;
  dinodes = refl;
}

pub Grows-trans :
    {size : ℕ} {P : Slot → Type 0} (o o' o'' : Open)
    → Inv size o
    → Grows size P o o'
    → Grows size P o' o''
    → Grows size P o o''
Grows-trans {size} {P} o o' o'' v g h = record {
  inv = h.inv;
  slots = λ t l. elim (h.slots t l) [
    | inl e ↦ elim (g.slots t l) [
      | inl f ↦ inl (e ∙ f)
      | inr f ↦ inr (
        f.0,
        f.1,
        ap o.disk.bitmap e ∙ f.2,
        λ leaf. ap o''.disk.bytes e ∙ still_zero t l leaf e f.2 f.3,
      )
    ]
    | inr e ↦ elim (g.slots t l) [
      | inl f ↦ inr (e.0, sym f ∙ e.1, was_free _ e.2, e.3)
      | inr f ↦ absurd (clash v.boot (ap o.disk.bitmap (sym e.1) ∙ f.2))
    ]
  ];
  in_use = λ b e. h.in_use b (g.in_use b e);
  bytes = λ c u n.
      h.bytes c (g.in_use c u) (λ p i l. elim (g.slots p (parent-Legal p i l)) [
        | inl e ↦ λ q. n p i l (q ∙ e)
        | inr e ↦ λ q. clash u (ap o.disk.bitmap q ∙ e.2)
      ])
      ∙ g.bytes c u n;
  meta = h.meta ∙ ap {A = Inode} {B = Inode} (λ i. record i { addrs = o''.ip.addrs }) g.meta;
  dinodes = h.dinodes ∙ g.dinodes;
}
  where
    still_zero :
        (t : Slot)
        → Legal t
        → Leaf t
        → value o'' t ≡ value o' t
        → o.disk.bitmap (value o' t) ≡ false
        → (Leaf t → o'.disk.bytes (value o' t) ≡ (λ j. 0))
        → o''.disk.bytes (value o' t) ≡ (λ j. 0)
    still_zero t l leaf e f z =
        h.bytes (value o' t) (g.inv.used t l there) (λ p i m q.
          leaf i
            (subst (λ s. Legal (sub s i)) (sym (g.inv.apart t p l (parent-Legal p i m) there q)) m))
        ∙ z leaf
      where
        there : value o' t ≢ 0
        there y = clash v.boot (ap o.disk.bitmap (sym y) ∙ f)

    was_free : (b : ℕ) → o'.disk.bitmap b ≡ false → o.disk.bitmap b ≡ false
    was_free b f = elim (Bool-cases (o.disk.bitmap b)) [
      | inl e ↦ absurd (clash (g.in_use b e) f)
      | inr e ↦ e
    ]

-- Filling slot `s` gives what the slot then holds, and 0 only when no block is free.
pub record Filled (size : ℕ) (P : Slot → Type 0) (o : Open) (s : Slot) (b : ℕ) (o' : Open)
    : Type 0 where
  pub grows : Grows size P o o'
  pub result : b ≡ value o' s
  pub failed : b ≡ 0 → (c : ℕ) → c < size → o'.disk.bitmap c ≡ true

pub Fills-Filled :
    {size : ℕ} {P : Slot → Type 0} (o : Open) (s : Slot) (b : ℕ) (o' : Open)
    → Inv size o
    → P s
    → Fills size o s b o'
    → Filled size P o s b o'
Fills-Filled o s _ _ v p (kept nz) = record {
  grows = Grows-refl v;
  result = refl;
  failed = λ z. absurd (nz z);
}
Fills-Filled o s _ _ v p (none_free e h) = record {
  grows = Grows-refl v;
  result = sym e;
  failed = λ z. h;
}
Fills-Filled {size} {P} o s _ _ v p (fresh b o' nz c m) = record {
  grows = record {
    inv = Change-Inv size o o' s b c v;
    slots = λ t l. elim (Change-others size o o' s b c t l) [
      | inl e ↦ inr (
        subst P (sym e) p,
        ap (value o) e ∙ c.empty,
        ap o.disk.bitmap (ap (value o') e ∙ c.holds) ∙ c.free,
        λ leaf. ap o'.disk.bytes (ap (value o') e ∙ c.holds) ∙ c.blank,
      )
      | inr e ↦ inl e
    ];
    in_use = λ k e. rw c.marks (upd_ne o.disk.bitmap b true k (differs k e) ∙ e);
    bytes = λ k u n. m.bytes k (differs k u) (λ q i e. n q i (subst Legal e c.legal));
    meta = m.meta;
    dinodes = m.dinodes;
  };
  result = sym c.holds;
  failed = λ z. absurd (nz z);
}
  where
    differs : (k : ℕ) → o.disk.bitmap k ≡ true → k ≢ b
    differs k e q = clash e (ap o.disk.bitmap q ∙ c.free)
