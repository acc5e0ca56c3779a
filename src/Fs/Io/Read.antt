-- ===== src/Fs/Io/Read.antt =====
-- What `readi` of Lab-5 Task 5.1, kernel/fs.c, reads.
use cs344_os_lab.Base.{
  ℕ, zero, suc, ◌+◌, ◌-◌, ◌*◌, ◌/◌, ◌%◌, ◌^◌, ◌<◌, ◌≤◌, ◌≡◌, ◌≢◌, refl, sym, ap, ap₂, ◌∙◌, true,
  ◌||◌, Option, none, some, arith, inl, inr, ◌⊎◌,
}
use cs344_os_lab.Base.Tests.{
  if◌then◌else◌, ltb, leb, ltb→lt, ltb_ge, ◌==◌, Bool-cases, ==→eq, ==→ne,
}
use cs344_os_lab.Base.Int.{ℤ, pos, minus_one}
use cs344_os_lab.Fs.{Open, bsize, maxfile}
use cs344_os_lab.Fs.Slots.{Slot, value, Inv}
use cs344_os_lab.Fs.Bmap.Grows.{Grows, Filled}
use cs344_os_lab.Fs.Bmap.Maps.{slot_of, slot_of-Legal, slot_of-Leaf, bmap-Filled, OnWay}
use cs344_os_lab.Fs.Content.{content, content_present, file_byte, Grows-content}
use cs344_os_lab.Fs.Io.{least, overlay, Round, stops, fails, goes, read_chunk, read_loop, readi}
use cs344_os_lab.Fs.Io.Write.{overlay_in, overlay_out}

module _ (size : ℕ) (copied : ℕ → ℕ → ℕ) (start n : ℕ) (base : Open) where
  -- The content is that of `base`.
  pub record Views (o : Open) : Type 0 where
    pub inv : Inv size o
    pub view : (k : ℕ) → k < maxfile * bsize → file_byte o k ≡ file_byte base k

  abbrev pub Full : Open → Type 0
  Full o = (b : ℕ) → b < size → o.disk.bitmap b ≡ true

  abbrev pub Copied : (ℕ → ℕ) → ℕ → Type 0
  Copied dst tot = (i : ℕ) → i < tot → dst i ≡ file_byte base (start + i)

  Grows-Views : {P : Slot → Type 0} (o o' : Open) → Views o → Grows size P o o' → Views o'
  unfolding file_byte
  Grows-Views {P} o o' v g = record {
    inv = g.inv;
    view = λ k l.
        Grows-content size P o o' (slot_of (k / bsize)) (k % bsize) v.inv g
          (slot_of-Legal (k / bsize) (omega arith)) (slot_of-Leaf (k / bsize))
        ∙ v.view k l;
  }

  data Chunk (tot : ℕ) : Option (Round × (ℕ → ℕ) × Open) → Type 0 where
    ended :
        (dst : ℕ → ℕ) (o : Open)
        → Views o
        → Full o
        → Copied dst tot
        → Chunk tot (some (stops, dst, o))
    faulted :
        (dst : ℕ → ℕ) (o : Open) (t m : ℕ)
        → Views o
        → copied t m < m
        → Chunk tot (some (fails, dst, o))
    went :
        (m : ℕ) (dst : ℕ → ℕ) (o : Open)
        → 0 < m
        → tot + m ≤ n
        → Views o
        → Copied dst (tot + m)
        → Chunk tot (some (goes m, dst, o))

  -- A block's bytes, as the file's.
  block_byte :
      (o : Open) (off j : ℕ)
      → value o (slot_of (off / bsize)) ≢ 0
      → off % bsize + j < bsize
      → o.disk.bytes (value o (slot_of (off / bsize))) (off % bsize + j) ≡ file_byte o (off + j)
  unfolding file_byte
  block_byte o off j nz l =
      sym (content_present o (slot_of (off / bsize)) (off % bsize + j) nz)
      ∙ ap₂ (λ b i. content o (slot_of b) i) (omega arith) (omega arith)

  read_chunk-Chunk :
      (tot off : ℕ) (dst : ℕ → ℕ) (o : Open)
      → Views o
      → Copied dst tot
      → off ≡ start + tot
      → start + n ≤ maxfile * bsize
      → tot < n
      → Chunk tot (read_chunk size copied n tot off dst o)
  unfolding read_chunk
  read_chunk-Chunk tot off dst o v old at top more =
      let b = bmap-Filled size (off / bsize) o v.inv (omega arith) in
      rw (read_chunk, b.1) (round_of b.0 b.2)
    where
      m : ℕ
      m = least (n - tot) (bsize - off % bsize)

      t : Slot
      t = slot_of (off / bsize)

      landed :
          (r : ℕ × Open)
          → Filled size (OnWay t) o t r.0 r.1
          → r.0 ≢ 0
          → (c : ℕ) → c ≡ m
          → Copied (overlay tot c (λ j. r.1.disk.bytes r.0 (off % bsize + j)) dst) (tot + m)
      landed r f nz c e i l = elim (Bool-cases (ltb i tot)) [
        | inl q ↦ overlay_out tot c _ dst i (inl (ltb→lt i tot q)) ∙ old i (ltb→lt i tot q)
        | inr q ↦
            let p = ltb_ge i tot q in
            overlay_in tot c _ dst i p (omega arith)
            ∙ ap (λ b. r.1.disk.bytes b (off % bsize + (i - tot))) f.result
            ∙ block_byte r.1 off (i - tot) (λ z. nz (f.result ∙ z)) (ground arith)
            ∙ (Grows-Views o r.1 v f.grows).view (off + (i - tot)) (ground arith)
            ∙ ap (file_byte base) (omega arith)
      ]

      round_of :
          (r : ℕ × Open)
          → Filled size (OnWay t) o t r.0 r.1
          → Chunk tot (
              if r.0 == 0
              then some (stops, dst, r.1)
              else some (
                if leb m (copied tot m) then goes m else fails,
                overlay tot
                    (least (copied tot m) m)
                    (λ j. r.1.disk.bytes r.0 (off % bsize + j))
                    dst,
                r.1,
              ))
      round_of r f = elim (Bool-cases (r.0 == 0)) [
        | inl z ↦ rw z (ended dst r.1 (Grows-Views o r.1 v f.grows) (f.failed (==→eq _ 0 z)) old)
        | inr z ↦ rw z (elim (Bool-cases (leb m (copied tot m))) [
          | inl e ↦ rw e (
              went m _ r.1 (ground arith) (ground arith) (Grows-Views o r.1 v f.grows)
                (landed r f (==→ne _ 0 z) (least (copied tot m) m) (ground (arith, e))))
          | inr e ↦ rw e (faulted _ r.1 tot m (Grows-Views o r.1 v f.grows) (ground (arith, e)))
        ])
      ]

  -- What the loop returns: the bytes read, all of them unless the disk is full, or -1 when a copy
  -- failed. The content stays.
  pub data Reads : Option (ℤ × (ℕ → ℕ) × Open) → Type 0 where
    read :
        (total : ℕ) (dst : ℕ → ℕ) (o : Open)
        → total ≤ n
        → Views o
        → Copied dst total
        → (total ≡ n) ⊎ Full o
        → Reads (some (pos total, dst, o))
    faults :
        (dst : ℕ → ℕ) (o : Open) (t m : ℕ)
        → Views o
        → copied t m < m
        → Reads (some (minus_one, dst, o))

  abbrev resume : ℕ → ℕ → ℕ → Option (Round × (ℕ → ℕ) × Open) → Option (ℤ × (ℕ → ℕ) × Open)
  resume fuel tot off c = elim c [
    | none ↦ none
    | some c ↦ elim (c.0) [
      | stops ↦ some (pos tot, c.1, c.2)
      | fails ↦ some (minus_one, c.1, c.2)
      | goes m ↦ read_loop size copied fuel n (tot + m) (off + m) c.1 c.2
    ]
  ]

  resume-Reads :
      (fuel tot off : ℕ) (c : Option (Round × (ℕ → ℕ) × Open))
      → tot ≤ n
      → Chunk tot c
      → ((m : ℕ) (dst : ℕ → ℕ) (o : Open)
          → Views o
          → 0 < m
          → tot + m ≤ n
          → Copied dst (tot + m)
          → Reads (read_loop size copied fuel n (tot + m) (off + m) dst o))
      → Reads (resume fuel tot off c)
  resume-Reads fuel tot off _ le (ended dst o v full old) next = read tot dst o le v old (inr full)
  resume-Reads fuel tot off _ le (faulted dst o t m v l) next = faults dst o t m v l
  resume-Reads fuel tot off _ le (went m dst o p fits v old) next = next m dst o v p fits old

  pub read_loop-Reads :
      (fuel tot off : ℕ) (dst : ℕ → ℕ) (o : Open)
      → Views o
      → Copied dst tot
      → off ≡ start + tot
      → start + n ≤ maxfile * bsize
      → tot ≤ n
      → n ≤ tot + fuel
      → Reads (read_loop size copied fuel n tot off dst o)
  unfolding read_loop
  read_loop-Reads zero tot off dst o v old at top le enough =
      read tot dst o le v old (inl (omega arith))
  read_loop-Reads (suc fuel) tot off dst o v old at top le enough = elim (Bool-cases (ltb tot n)) [
    | inr e ↦ rw (read_loop, e) (read tot dst o le v old (inl (omega (arith, ltb_ge tot n e))))
    | inl e ↦
        rw (read_loop, e)
          (resume-Reads fuel tot off _ le
            (read_chunk-Chunk tot off dst o v old at top (ltb→lt tot n e))
            (λ m dst' o' w p fits new.
              read_loop-Reads fuel (tot + m) (off + m) dst' o' w new (omega arith) top fits
                (omega arith)))
  ]

-- How many bytes of `n` there are from offset `off` on.
pub available : ℕ → ℕ → ℕ → ℕ
available size off n = if ltb size (off + n) then size - off else n

-- `readi` of a file that is no longer than MAXFILE blocks and whose blocks are in use and all
-- different, with 32-bit `off` and `n`: past its end, or when `off + n` wraps
-- around, it returns 0. Otherwise it returns the bytes of the file from `off` on, `n` or as many as
-- there are, fewer only when the disk is full, or -1 only when a copy failed. It may fill holes of
-- the file with blocks, but the content of the file stays.
pub readi-Reads :
    (size : ℕ) (copied : ℕ → ℕ → ℕ) (off n : ℕ) (dst : ℕ → ℕ) (o : Open)
    → Inv size o
    → o.ip.size ≤ maxfile * bsize
    → off < 4294967296
    → n < 4294967296
    → ((o.ip.size < off) ⊎ (4294967296 ≤ off + n))
        × (readi size copied off n dst o ≡ some (pos 0, dst, o))
      ⊎ Reads size copied off (available o.ip.size off n) o (readi size copied off n dst o)
unfolding readi available
readi-Reads size copied off n dst o v sb ob nb =
    elim (Bool-cases (ltb o.ip.size off || ltb ((off + n) % 2 ^ 32) off)) [
      | inl e ↦ inl (ground (arith, e), rw (readi, e) refl)
      | inr e ↦
          let whole : (off + n) % 2 ^ 32 ≡ off + n = ground (arith, e) in
          inr (
            rw (readi, e, whole)
              (read_loop-Reads size copied off
                (if ltb o.ip.size (off + n) then o.ip.size - off else n) o
                (if ltb o.ip.size (off + n) then o.ip.size - off else n) 0 off dst o
                (record { inv = v; view = λ k l. refl }) (λ i l. absurd (omega arith)) (omega arith)
                (ground (arith, e)) (omega arith) (omega arith)))
    ]
