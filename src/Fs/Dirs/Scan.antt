-- ===== src/Fs/Dirs/Scan.antt =====
-- The loops of `dirlookup` and `dirlink` of Lab-5 Task 5.1, kernel/fs.c, on a directory without holes.
use cs344_os_lab.Base.{
  ℕ, zero, suc, ◌+◌, ◌-◌, ◌*◌, ◌/◌, ◌%◌, ◌^◌, ◌<◌, ◌≤◌, ◌≡◌, ◌≢◌, refl, sym, ap, ap₂, ◌∙◌, subst,
  Bool, true, false, ◌&&◌, not, Option, none, some, List, [], inl, inr, arith,
}
use cs344_os_lab.Base.Tests.{Bool-cases, ltb, ◌==◌, ltb→lt, le→ltb, ltb_ge, ==→eq, ==_ne}
use cs344_os_lab.Base.Int.{pos, eq_int}
use cs344_os_lab.Fs.{Open, bsize, maxfile}
use cs344_os_lab.Fs.Slots.{value}
use cs344_os_lab.Fs.Bmap.Maps.{slot_of, bmap_again}
use cs344_os_lab.Fs.Content.{content_present, file_byte}
use cs344_os_lab.Fs.Io.{goes, overlay, least, read_chunk, read_loop, readi}
use cs344_os_lab.Fs.Io.Write.{overlay_in}
use cs344_os_lab.Fs.Dirs.{
  inum_at, name_at, namecmp, string, strncmp, kernel_copy, no_bytes, read_entry, find_entry,
  empty_entry,
}

-- Whole entries, and a block for each byte.
pub record Dense (o : Open) : Type 0 where
  pub fits : o.ip.size ≤ maxfile * bsize
  pub whole : o.ip.size % 16 ≡ 0
  pub present : (k : ℕ) → k < o.ip.size → value o (slot_of (k / bsize)) ≢ 0

module _ (size : ℕ) (o : Open) (d : Dense o) where
  module _ (off : ℕ) (aligned : off % 16 ≡ 0) (within : off < o.ip.size) where
    block : ℕ
    block = value o (slot_of (off / bsize))

    entry_fits : off + 16 ≤ o.ip.size
    entry_fits = omega (arith, d.whole, d.fits)

    entry_bytes : ℕ → ℕ
    entry_bytes = overlay 0 16 (λ j. o.disk.bytes block (off % bsize + j)) no_bytes

    one_chunk : least (16 - 0) (bsize - off % bsize) ≡ 16
    one_chunk = ground (arith, aligned)

    read_entry_chunk :
        read_chunk size kernel_copy 16 0 off no_bytes o ≡ some (goes 16, entry_bytes, o)
    unfolding read_chunk block entry_bytes
    read_entry_chunk =
        rw
          (
            read_chunk,
            bmap_again size (off / bsize) o (omega (arith, d.fits)) (d.present off within),
            ==_ne _ 0 (d.present off within),
            one_chunk,
          )
          refl

    read_loop_entry :
        read_loop size kernel_copy 16 16 0 off no_bytes o ≡ some (pos 16, entry_bytes, o)
    unfolding read_loop
    read_loop_entry = rw (read_loop, read_entry_chunk) refl

    readi_entry : readi size kernel_copy off 16 no_bytes o ≡ some (pos 16, entry_bytes, o)
    unfolding readi
    readi_entry =
        rw
          (
            readi,
            le→ltb o.ip.size off (omega arith),
            le→ltb ((off + 16) % 2 ^ 32) off (omega (arith, d.fits)),
            le→ltb o.ip.size ((off + 16) % 2 ^ 32) (omega (arith, d.fits, entry_fits)),
          )
          read_loop_entry

    -- A read of an entry gives the file's bytes, and changes nothing.
    pub read_entry_lem :
        (p : ℕ → ℕ) × (read_entry size off o ≡ some (p, o))
        × ((j : ℕ) → j < 16 → p (0 + j) ≡ file_byte o (off + j))
    unfolding read_entry entry_bytes block
    read_entry_lem =
        (entry_bytes, rw readi_entry refl, λ j l. ap entry_bytes (omega arith) ∙ same_bytes j l)
      where
        same_bytes : (j : ℕ) → j < 16 → entry_bytes j ≡ file_byte o (off + j)
        same_bytes j l =
            overlay_in 0 16 _ no_bytes j (omega arith) (omega arith)
            ∙ ap₂ (λ b i. o.disk.bytes (value o (slot_of b)) i) (omega arith) (omega arith)
            ∙ sym (
                content_present o (slot_of ((off + j) / bsize)) ((off + j) % bsize)
                  (d.present (off + j) (omega (arith, entry_fits))))
            ∙ unfold file_byte in refl

-- Only the first `n` bytes count.
pub strncmp_ext :
    (n : ℕ) (p q q' : ℕ → ℕ) → ((j : ℕ) → j < n → q' j ≡ q j) → strncmp n p q' ≡ strncmp n p q
unfolding strncmp
strncmp_ext zero p q q' h = refl
strncmp_ext (suc n) p q q' h =
    rw
      (
        h 0 (omega arith),
        strncmp_ext n (λ i. p (i + 1)) (λ i. q (i + 1)) (λ i. q' (i + 1))
            (λ j l. h (j + 1) (omega arith)),
      )
      refl

-- The entry at offset `off` of the bytes `p` is in use and has the name.
abbrev pub matches : List ℕ → (ℕ → ℕ) → ℕ → Bool
matches name p off =
    not (inum_at p off == 0) && eq_int (namecmp (string name) (name_at p off)) (pos 0)

module _ (name : List ℕ) (p q : ℕ → ℕ) (a b : ℕ)
    (h : (j : ℕ) → j < 16 → p (a + j) ≡ q (b + j)) where
  pub inum_ext : inum_at p a ≡ inum_at q b
  inum_ext =
      ap₂ (λ x y. x + 256 * y) (ap p (omega arith) ∙ h 0 (omega arith) ∙ ap q (omega arith))
        (h 1 (omega arith))

  name_ext : (j : ℕ) → j < 14 → name_at p a j ≡ name_at q b j
  name_ext j l = ap p (omega arith) ∙ h (2 + j) (omega arith) ∙ ap q (omega arith)

  pub matches_ext : matches name p a ≡ matches name q b
  unfolding namecmp
  matches_ext =
      rw (inum_ext, strncmp_ext 14 (string name) (name_at q b) (name_at p a) name_ext) refl

-- What the loop of `dirlookup` finds from offset `start` on: the first entry with the name.
pub data Finds (name : List ℕ) (o : Open) (start : ℕ) : Option (ℕ × ℕ) → Type 0 where
  absent :
      ((off : ℕ)
        → start ≤ off
        → off % 16 ≡ 0
        → off < o.ip.size
        → matches name (file_byte o) off ≡ false)
      → Finds name o start none
  found :
      (off : ℕ)
      → start ≤ off
      → off % 16 ≡ 0
      → off < o.ip.size
      → matches name (file_byte o) off ≡ true
      → ((e : ℕ) → start ≤ e → e % 16 ≡ 0 → e < off → matches name (file_byte o) e ≡ false)
      → Finds name o start (some (off, inum_at (file_byte o) off))

skip-Finds :
    (name : List ℕ) (o : Open) (start : ℕ) (r : Option (ℕ × ℕ))
    → start % 16 ≡ 0
    → matches name (file_byte o) start ≡ false
    → Finds name o (start + 16) r
    → Finds name o start r
skip-Finds name o start _ a m (absent h) = absent later
  where
    later :
        (off : ℕ)
        → start ≤ off
        → off % 16 ≡ 0
        → off < o.ip.size
        → matches name (file_byte o) off ≡ false
    later off l b w = elim (Bool-cases (start == off)) [
      | inl e ↦ subst (λ k. matches name (file_byte o) k ≡ false) (==→eq start off e) m
      | inr e ↦ h off (ground (arith, l, a, b, e)) b w
    ]
skip-Finds name o start _ a m (found off l b w t h) = found off (omega arith) b w t earlier
  where
    earlier : (e : ℕ) → start ≤ e → e % 16 ≡ 0 → e < off → matches name (file_byte o) e ≡ false
    earlier e u c v = elim (Bool-cases (start == e)) [
      | inl q ↦ subst (λ k. matches name (file_byte o) k ≡ false) (==→eq start e q) m
      | inr q ↦ h e (ground (arith, u, a, c, q)) c v
    ]

-- With as much fuel as there are bytes left the loop comes to its end.
pub find_entry-Finds :
    (size : ℕ) (o : Open) (name : List ℕ) (fuel off : ℕ)
    → Dense o
    → off % 16 ≡ 0
    → o.ip.size ≤ off + fuel
    → (r : Option (ℕ × ℕ)) × (find_entry size fuel name off o ≡ some (r, o)) × Finds name o off r
unfolding find_entry
find_entry-Finds size o name zero off d a l = (none, refl, absurd_all)
  where
    absurd_all : Finds name o off none
    absurd_all = absent (λ e u b w. absurd (omega arith))
find_entry-Finds size o name (suc fuel) off d a l = elim (Bool-cases (ltb off o.ip.size)) [
  | inr e ↦
      rw (find_entry, e)
        (none, refl, absent (λ k u b w. absurd (omega (arith, ltb_ge off o.ip.size e))))
  | inl e ↦
      let q = read_entry_lem size o d off a (ltb→lt off o.ip.size e) in
      let m = matches_ext name q.0 (file_byte o) 0 off (λ j u. q.2 j u) in
      let i = inum_ext name q.0 (file_byte o) 0 off (λ j u. q.2 j u) in
      let t = find_entry-Finds size o name fuel (off + 16) d (omega arith) (omega arith) in
      rw (find_entry, e, q.1, t.1)
        (elim (Bool-cases (inum_at q.0 0 == 0)) [
          | inl z ↦ rw z (t.0, refl, skip-Finds name o off t.0 a (sym m ∙ rw z refl) t.2)
          | inr z ↦ elim (Bool-cases (eq_int (namecmp (string name) (name_at q.0 0)) (pos 0))) [
            | inr y ↦
                rw (z, y) (t.0, refl, skip-Finds name o off t.0 a (sym m ∙ rw (z, y) refl) t.2)
            | inl y ↦
                rw (z, y)
                  (
                    some (off, inum_at (file_byte o) off),
                    ap (λ n. some (some (off, n), o)) i,
                    found off (omega arith) a (ltb→lt off o.ip.size e) (sym m ∙ rw (z, y) refl)
                        (λ k u b w. absurd (omega arith)),
                  )
          ]
        ])
]

-- Where the loop of `dirlink` stops: at the first entry that is not in use, or at the end.
pub record Stops (o : Open) (start off : ℕ) : Type 0 where
  pub from_start : start ≤ off
  pub aligned : off % 16 ≡ 0
  pub at_most : off ≤ o.ip.size
  pub empty : off < o.ip.size → inum_at (file_byte o) off ≡ 0

pub empty_entry-Stops :
    (size : ℕ) (o : Open) (fuel off : ℕ)
    → Dense o
    → off % 16 ≡ 0
    → off ≤ o.ip.size
    → o.ip.size ≤ off + fuel
    → (r : ℕ) × (empty_entry size fuel off o ≡ some (r, o)) × Stops o off r
unfolding empty_entry
empty_entry-Stops size o zero off d a u l = (
  off,
  refl,
  record { from_start = omega arith; aligned = a; at_most = u; empty = λ w. absurd (omega arith) },
)
empty_entry-Stops size o (suc fuel) off d a u l = elim (Bool-cases (ltb off o.ip.size)) [
  | inr e ↦
      rw (empty_entry, e)
        (
          off,
          refl,
          record {
            from_start = omega arith;
            aligned = a;
            at_most = u;
            empty = λ w. absurd (omega (arith, ltb_ge off o.ip.size e));
          },
        )
  | inl e ↦
      let w = ltb→lt off o.ip.size e in
      let q = read_entry_lem size o d off a w in
      let i = inum_ext [] q.0 (file_byte o) 0 off (λ j v. q.2 j v) in
      let t =
        empty_entry-Stops size o fuel (off + 16) d (omega arith) (omega (arith, d.whole))
          (omega arith) in
      rw (empty_entry, e, q.1, t.1)
        (elim (Bool-cases (inum_at q.0 0 == 0)) [
          | inl z ↦ rw z (
            off,
            refl,
            record {
              from_start = omega arith;
              aligned = a;
              at_most = u;
              empty = λ _. sym i ∙ ==→eq _ 0 z;
            },
          )
          | inr z ↦ rw z (
            t.0,
            refl,
            record {
              from_start = omega (arith, (t.2).from_start);
              aligned = (t.2).aligned;
              at_most = (t.2).at_most;
              empty = (t.2).empty;
            },
          )
        ])
]
