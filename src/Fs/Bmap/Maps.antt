-- ===== src/Fs/Bmap/Maps.antt =====
-- What `bmap` of Lab-5 Task 5.1, kernel/fs.c, promises.
use cs344_os_lab.Base.{
  ℕ, ◌+◌, ◌-◌, ◌/◌, ◌%◌, ◌<◌, ◌≡◌, ◌≢◌, refl, sym, ap, ◌∙◌, subst, Option, some, arith, inl, inr,
  ◌⊎◌,
}
use cs344_os_lab.Base.Tests.{
  if◌then◌else◌, ltb, ltb→lt, ◌==◌, Bool-cases, ==→eq, ==→ne, ==_ne, lt→ltb,
}
use cs344_os_lab.Fs.{
  Open, fill_addr, fill_word, bmap, ndirect, nindirect, ndoubly_indirect, maxfile,
}
use cs344_os_lab.Fs.Slots.{Slot, top, sub, Legal, value, through, through_none, Inv}
use cs344_os_lab.Fs.Bmap.{
  fill_addr-Fills, fill_word-Fills, fill_addr_full, fill_word_full, value_above,
}
use cs344_os_lab.Fs.Bmap.Grows.{Leaf, Grows-trans, Filled, Fills-Filled}

-- The slot of block `bn` of the file, and the slots on the way to it.
unfoldable pub slot_of : ℕ → Slot
slot_of bn =
    if ltb bn ndirect
    then top bn
    else if ltb (bn - ndirect) nindirect
    then sub (top ndirect) (bn - ndirect)
    else sub (sub (top (ndirect + 1)) ((bn - ndirect - nindirect) / nindirect))
        ((bn - ndirect - nindirect) % nindirect)

pub OnWay : Slot → Slot → Type 0
OnWay (top k) t = t ≡ top k
OnWay (sub s i) t = (t ≡ sub s i) ⊎ OnWay s t

-- A slot below one that was filled first.
below :
    {size : ℕ} {P : Slot → Type 0} (o : Open) (s : Slot) (i b : ℕ) (o' : Open)
    → Inv size o
    → Filled size P o s b o'
    → Legal (sub s i)
    → P (sub s i)
    → b ≢ 0
    → Filled size P o (sub s i) (fill_word size b i o').0 (fill_word size b i o').1
below {size} {P} o s i b o' v f l p nz = record {
  grows = Grows-trans o o' _ v f.grows next.grows;
  result = next.result;
  failed = next.failed;
}
  where
    next : Filled size P o' (sub s i) (fill_word size b i o').0 (fill_word size b i o').1
    next =
        subst (λ b. Filled size P o' (sub s i) (fill_word size b i o').0 (fill_word size b i o').1)
          (sym f.result)
          (Fills-Filled o' (sub s i) _ _ f.grows.inv p
            (fill_word-Fills size o' f.grows.inv s i l (λ z. nz (f.result ∙ z))))

-- No block was free for a slot on the way, so there is none below it.
stuck :
    {size : ℕ} {P : Slot → Type 0} (o : Open) (s : Slot) (i b : ℕ) (o' : Open)
    → Filled size P o s b o'
    → b ≡ 0
    → Filled size P o (sub s i) 0 o'
unfolding value
stuck o s i b o' f z = record {
  grows = f.grows;
  result = sym (ap (λ v. through o'.disk.bytes v i) (sym f.result ∙ z) ∙ through_none _ i);
  failed = λ _. f.failed z;
}

entry :
    {size : ℕ} (P : Slot → Type 0) (k : ℕ) (o : Open)
    → Inv size o
    → k < 13
    → P (top k)
    → Filled size P o (top k) (fill_addr size k o).0 (fill_addr size k o).1
entry {size} P k o v l p = Fills-Filled o (top k) _ _ v p (fill_addr-Fills size o v k l)

abbrev Mapped : ℕ → ℕ → Open → Slot → Option (ℕ × Open) → Type 0
Mapped size bn o s m = (r : ℕ × Open) × (m ≡ some r) × Filled size (OnWay s) o s r.0 r.1

indirect :
    (size i : ℕ) (o : Open)
    → Inv size o
    → i < nindirect
    → (top : ℕ × Open)
    → Filled size (OnWay (sub (Slot.top ndirect) i)) o (Slot.top ndirect) top.0 top.1
    → Mapped size i o
        (sub (Slot.top ndirect) i)
        (if top.0 == 0 then some (0, top.1) else some (fill_word size top.0 i top.1))
unfolding OnWay Legal
indirect size i o v l r f = elim (Bool-cases (r.0 == 0)) [
  | inl z ↦ rw z (_, refl, stuck o (top ndirect) i r.0 r.1 f (==→eq _ 0 z))
  | inr z ↦
      rw z (_, refl, below o (top ndirect) i r.0 r.1 v f (inl refl, l) (inl refl) (==→ne _ 0 z))
]

doubly :
    (size h i : ℕ) (o : Open)
    → Inv size o
    → h < nindirect
    → i < nindirect
    → (top : ℕ × Open)
    → Filled size
        (OnWay (sub (sub (Slot.top (ndirect + 1)) h) i))
        o
        (Slot.top (ndirect + 1))
        top.0
        top.1
    → Mapped size i o (sub (sub (Slot.top (ndirect + 1)) h) i) (
        let outer = fill_word size top.0 h top.1 in
        if top.0 == 0
        then some (0, top.1)
        else if outer.0 == 0
        then some (0, outer.1)
        else some (fill_word size outer.0 i outer.1))
unfolding OnWay Legal
doubly size h i o v l m r f = elim (Bool-cases (r.0 == 0)) [
  | inl z ↦ rw z (
    _,
    refl,
    stuck o (sub (top (ndirect + 1)) h) i 0 r.1
        (stuck o (top (ndirect + 1)) h r.0 r.1 f (==→eq _ 0 z)) refl,
  )
  | inr z ↦ rw z (
      outer_of _
        (below o (top (ndirect + 1)) h r.0 r.1 v f (inr refl, l) (inr (inl refl)) (==→ne _ 0 z)))
]
  where
    outer_of :
        (q : ℕ × Open)
        → Filled size
            (OnWay (sub (sub (top (ndirect + 1)) h) i))
            o
            (sub (top (ndirect + 1)) h)
            q.0
            q.1
        → Mapped size i o
            (sub (sub (top (ndirect + 1)) h) i)
            (if q.0 == 0 then some (0, q.1) else some (fill_word size q.0 i q.1))
    outer_of q g = elim (Bool-cases (q.0 == 0)) [
      | inl z ↦ rw z (_, refl, stuck o (sub (top (ndirect + 1)) h) i q.0 q.1 g (==→eq _ 0 z))
      | inr z ↦ rw z (
        _,
        refl,
        below o (sub (top (ndirect + 1)) h) i q.0 q.1 v g (refl, l, m) (inl refl) (==→ne _ 0 z),
      )
    ]

-- For an inode whose blocks are in use and all different, `bmap` of a block number below MAXFILE
-- returns, and what it returns is the block number that the slot of `bn` then holds. Only the empty slots on the way to it were filled, with blocks that were
-- free, so no block that the file had has moved and no two slots share one; a block in use is not
-- changed unless it is an index block of the file. It returns 0 only when no block is free.
pub bmap-Filled :
    (size bn : ℕ) (o : Open)
    → Inv size o
    → bn < maxfile
    → (r : ℕ × Open) × (bmap size bn o ≡ some r)
      × Filled size (OnWay (slot_of bn)) o (slot_of bn) r.0 r.1
unfolding bmap slot_of OnWay
bmap-Filled size bn o v l = elim (Bool-cases (ltb bn ndirect)) [
  | inl e ↦ rw e (_, refl, entry (OnWay (top bn)) bn o v (ground (arith, ltb→lt bn ndirect e)) refl)
  | inr e ↦ elim (Bool-cases (ltb (bn - ndirect) nindirect)) [
    | inl f ↦
        rw (e, f)
          (indirect size (bn - ndirect) o v (ltb→lt _ _ f) (fill_addr size ndirect o)
            (entry _ ndirect o v (omega arith) (inr refl)))
    | inr f ↦
        rw (e, f, lt→ltb (bn - ndirect - nindirect) ndoubly_indirect (ground (arith, l)))
          (doubly size _ _ o v (omega arith) (omega arith) (fill_addr size (ndirect + 1) o)
            (entry _ (ndirect + 1) o v (omega arith) (inr (inr refl))))
  ]
]

-- Two blocks of a file have different slots.
pub slot_of_injective :
    (bn bm : ℕ) → bn < maxfile → bm < maxfile → slot_of bn ≡ slot_of bm → bn ≡ bm
unfolding slot_of
slot_of_injective bn bm l m e = ground (arith, e)

-- A block of a file that has a disk block keeps it: `bmap` returns it and changes nothing.
pub bmap_again :
    (size bn : ℕ) (o : Open)
    → bn < maxfile
    → value o (slot_of bn) ≢ 0
    → bmap size bn o ≡ some (value o (slot_of bn), o)
unfolding bmap slot_of
bmap_again size bn o l nz = elim (Bool-cases (ltb bn ndirect)) [
  | inl e ↦ rw e (ap some (fill_addr_full size bn o (moved (rw e refl))))
  | inr e ↦ elim (Bool-cases (ltb (bn - ndirect) nindirect)) [
    | inl f ↦ rw (e, f) (once (bn - ndirect) (moved (rw (e, f) refl)))
    | inr f ↦
        rw (e, f, lt→ltb (bn - ndirect - nindirect) ndoubly_indirect (ground (arith, l)))
          (twice _ _ (moved (rw (e, f) refl)))
  ]
]
  where
    moved : {s : Slot} → slot_of bn ≡ s → value o s ≢ 0
    moved e = subst (λ s. value o s ≢ 0) e nz

    once :
        (i : ℕ)
        → value o (sub (top ndirect) i) ≢ 0
        → (let r = fill_addr size ndirect o in
            if r.0 == 0 then some (0, r.1) else some (fill_word size r.0 i r.1))
          ≡ some (value o (sub (top ndirect) i), o)
    once i z =
        rw (fill_addr_full size ndirect o (value_above o _ i z), ==_ne _ 0 (value_above o _ i z))
          (ap some (fill_word_full size (top ndirect) i o z))

    twice :
        (h i : ℕ)
        → value o (sub (sub (top (ndirect + 1)) h) i) ≢ 0
        → (let r = fill_addr size (ndirect + 1) o in
            let q = fill_word size r.0 h r.1 in
            if r.0 == 0
            then some (0, r.1)
            else if q.0 == 0
            then some (0, q.1)
            else some (fill_word size q.0 i q.1))
          ≡ some (value o (sub (sub (top (ndirect + 1)) h) i), o)
    twice h i z =
        let y = value_above o (sub (top (ndirect + 1)) h) i z in
        let x = value_above o (top (ndirect + 1)) h y in
        rw
          (
            fill_addr_full size (ndirect + 1) o x,
            fill_word_full size (top (ndirect + 1)) h o y,
            ==_ne _ 0 x,
            ==_ne _ 0 y,
          )
          (ap some (fill_word_full size (sub (top (ndirect + 1)) h) i o z))

-- The slot of a block is one of the inode's, and names no index block.
pub slot_of-Legal : (bn : ℕ) → bn < maxfile → Legal (slot_of bn)
unfolding Legal slot_of
slot_of-Legal bn l = elim (Bool-cases (ltb bn ndirect)) [
  | inl e ↦ rw e (ground (arith, ltb→lt bn ndirect e))
  | inr e ↦ elim (Bool-cases (ltb (bn - ndirect) nindirect)) [
    | inl f ↦ rw (e, f) (inl refl, ltb→lt _ _ f)
    | inr f ↦ rw (e, f) (refl, omega arith, omega arith)
  ]
]

pub slot_of-Leaf : (bn : ℕ) → Leaf (slot_of bn)
unfolding Legal slot_of
slot_of-Leaf bn i = elim (Bool-cases (ltb bn ndirect)) [
  | inl e ↦ rw e (λ m. absurd (ground (arith, ltb→lt bn ndirect e, m.0)))
  | inr e ↦ elim (Bool-cases (ltb (bn - ndirect) nindirect)) [
    | inl f ↦ rw (e, f) (λ m. absurd (ground (arith, m.0)))
    | inr f ↦ rw (e, f) (λ m. m)
  ]
]
