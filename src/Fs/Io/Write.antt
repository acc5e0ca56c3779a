-- ===== src/Fs/Io/Write.antt =====
-- What `writei` of Lab-5 Task 5.1, kernel/fs.c, does to the content of a file.
use cs344_os_lab.Base.{
  ℕ, ◌+◌, ◌-◌, ◌*◌, ◌/◌, ◌%◌, ◌<◌, ◌≤◌, ◌≡◌, ◌≢◌, refl, sym, ap, ◌∙◌, true, arith, inl, inr, ◌⊎◌,
}
use cs344_os_lab.Base.Tests.{ltb, ltb→lt, ltb_ge, ◌==◌, Bool-cases, ==→eq, ==→ne}
use cs344_os_lab.Fs.{Inode, Open, bsize, maxfile}
use cs344_os_lab.Fs.Slots.{Slot, Legal, value, Inv}
use cs344_os_lab.Fs.Bmap.Grows.{Grows}
use cs344_os_lab.Fs.Bmap.Maps.{slot_of, slot_of_injective, slot_of-Legal, slot_of-Leaf}
use cs344_os_lab.Fs.Content.{
  content, content_present, file_byte, Grows-content, put, put-Inv, put-content, put-content_ne,
}
use cs344_os_lab.Fs.Io.{overlay}

pub overlay_in :
    (at m : ℕ) (s p : ℕ → ℕ) (j : ℕ) → at ≤ j → j < at + m → overlay at m s p j ≡ s (j - at)
unfolding overlay
overlay_in at m s p j l h = ground arith

pub overlay_out :
    (at m : ℕ) (s p : ℕ → ℕ) (j : ℕ) → (j < at) ⊎ (at + m ≤ j) → overlay at m s p j ≡ p j
unfolding overlay
overlay_out at m s p j h = ground arith

module _ (size : ℕ) (copied : ℕ → ℕ → ℕ) (src : ℕ → ℕ) (start n : ℕ) where
  -- Between `lo` and `hi` the content of `o'` is what was to be written; below `lo`, and from the end
  -- of the write on, it is that of `o`; in between it is one or the other.
  pub record Writes (lo hi : ℕ) (o o' : Open) : Type 0 where
    pub inv : Inv size o'
    pub meta : o'.ip ≡ record o.ip { addrs = o'.ip.addrs }
    pub dinodes : o'.disk.dinodes ≡ o.disk.dinodes
    pub wrote : (k : ℕ) → lo ≤ k → k < hi → file_byte o' k ≡ src (k - start)
    pub rest :
        (k : ℕ)
        → k < maxfile * bsize
        → ((lo ≤ k) × (k < start + n) × (file_byte o' k ≡ src (k - start)))
          ⊎ (file_byte o' k ≡ file_byte o k)

  -- Why the loop ends early: the disk is full, or a copy failed.
  abbrev pub Short : Open → Type 0
  Short o = ((b : ℕ) → b < size → o.disk.bitmap b ≡ true) ⊎ ((t : ℕ) × (m : ℕ) × (copied t m < m))

  pub Grows-Writes :
      {P : Slot → Type 0} (lo : ℕ) (o o' : Open)
      → Inv size o
      → Grows size P o o'
      → Writes lo lo o o'
  unfolding file_byte
  Grows-Writes {P} lo o o' v g = record {
    inv = g.inv;
    meta = g.meta;
    dinodes = g.dinodes;
    wrote = λ k l u. absurd (omega arith);
    rest = λ k l. inr (
        Grows-content size P o o' (slot_of (k / bsize)) (k % bsize) v g
          (slot_of-Legal (k / bsize) (omega arith)) (slot_of-Leaf (k / bsize)));
  }

  pub Writes-trans :
      (lo mid hi : ℕ) (o o' o'' : Open)
      → mid ≤ maxfile * bsize
      → Writes lo mid o o'
      → Writes mid hi o' o''
      → lo ≤ mid
      → Writes lo hi o o''
  Writes-trans lo mid hi o o' o'' b w x l = record {
    inv = x.inv;
    meta = x.meta ∙ ap {A = Inode} {B = Inode} (λ i. record i { addrs = o''.ip.addrs }) w.meta;
    dinodes = x.dinodes ∙ w.dinodes;
    wrote = λ k m u. elim (Bool-cases (ltb k mid)) [
      | inr q ↦ x.wrote k (ltb_ge k mid q) u
      | inl q ↦ elim (x.rest k (ground (arith, ltb→lt k mid q))) [
        | inl e ↦ e.2
        | inr e ↦ e ∙ w.wrote k m (ltb→lt k mid q)
      ]
    ];
    rest = λ k m. elim (x.rest k m) [
      | inl e ↦ inl (omega (arith, e.0), e.1, e.2)
      | inr e ↦ elim (w.rest k m) [ inl f ↦ inl (f.0, f.1, e ∙ f.2) | inr f ↦ inr (e ∙ f) ]
    ];
  }

  -- The copy of `c` bytes into the block that holds offset `off`.
  pub put-Writes :
      (tot off c : ℕ) (o : Open)
      → Inv size o
      → off ≡ start + tot
      → start + n ≤ maxfile * bsize
      → tot + c ≤ n
      → off % bsize + c ≤ bsize
      → off / bsize < maxfile
      → (nz : value o (slot_of (off / bsize)) ≢ 0)
      → Writes off (off + c) o (
          put
            (value o (slot_of (off / bsize)))
            (overlay
              (off % bsize)
              c
              (λ j. src (tot + j))
              (o.disk.bytes (value o (slot_of (off / bsize)))))
            o)
  unfolding file_byte
  put-Writes tot off c o v at top fits room low nz = record {
    inv = put-Inv size o v t l (slot_of-Leaf (off / bsize)) nz p;
    meta = refl;
    dinodes = refl;
    wrote = λ k m u. elim (byte_of k (omega arith)) [
      | inl e ↦ e.2
      | inr e ↦ absurd (ground (arith, e.0))
    ];
    rest =
        λ k m. elim (byte_of k m) [ inl e ↦ inl (e.0, omega (arith, e.1), e.2) | inr e ↦ inr e.1 ];
  }
    where
      t : Slot
      t = slot_of (off / bsize)

      l : Legal t
      l = slot_of-Legal (off / bsize) low

      p : ℕ → ℕ
      p = overlay (off % bsize) c (λ j. src (tot + j)) (o.disk.bytes (value o t))

      o' : Open
      o' = put (value o t) p o

      here : (q : Open) (k : ℕ) → k / bsize ≡ off / bsize → file_byte q k ≡ content q t (k % bsize)
      here q k e = ap (λ b. content q (slot_of b) (k % bsize)) e

      written : (k : ℕ) → k / bsize ≡ off / bsize → file_byte o' k ≡ p (k % bsize)
      written k e =
          here o' k e ∙ put-content size o v t l (slot_of-Leaf (off / bsize)) nz p (k % bsize)

      untouched :
          (k : ℕ)
          → k / bsize ≡ off / bsize
          → (k % bsize < off % bsize) ⊎ (off % bsize + c ≤ k % bsize)
          → file_byte o' k ≡ file_byte o k
      untouched k e h =
          written k e
          ∙ overlay_out (off % bsize) c _ _ (k % bsize) h
          ∙ sym (content_present o t (k % bsize) nz)
          ∙ sym (here o k e)

      in_block :
          (k : ℕ)
          → k / bsize ≡ off / bsize
          → ((off ≤ k) × (k < off + c) × (file_byte o' k ≡ src (k - start)))
            ⊎ (((k < off) ⊎ (off + c ≤ k)) × (file_byte o' k ≡ file_byte o k))
      in_block k e = elim (Bool-cases (ltb k off)) [
        | inl q ↦ inr (inl (ltb→lt k off q), untouched k e (inl (omega (arith, ltb→lt k off q))))
        | inr q ↦ elim (Bool-cases (ltb k (off + c))) [
          | inr r ↦ inr (
            inr (ltb_ge k (off + c) r),
            untouched k e (inr (omega (arith, ltb_ge k (off + c) r))),
          )
          | inl r ↦
              let low = ltb_ge k off q in
              let high = ltb→lt k (off + c) r in
              inl (
                low,
                high,
                written k e
                    ∙ overlay_in (off % bsize) c _ _ (k % bsize) (omega arith) (omega arith)
                    ∙ ap src (omega arith),
              )
        ]
      ]

      byte_of :
          (k : ℕ)
          → k < maxfile * bsize
          → ((off ≤ k) × (k < off + c) × (file_byte (put (value o t) p o) k ≡ src (k - start)))
            ⊎ (((k < off) ⊎ (off + c ≤ k)) × (file_byte (put (value o t) p o) k ≡ file_byte o k))
      byte_of k m = elim (Bool-cases (k / bsize == off / bsize)) [
        | inl e ↦ in_block k (==→eq _ _ e)
        | inr e ↦ inr (
          ground (arith, e),
          put-content_ne size o v t l (slot_of-Leaf (off / bsize)) nz p (slot_of (k / bsize))
              (k % bsize) (slot_of-Legal _ (omega arith))
              (λ q. ==→ne _ _ e (slot_of_injective _ _ (omega arith) low q)),
        )
      ]
