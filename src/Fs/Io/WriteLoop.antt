-- ===== src/Fs/Io/WriteLoop.antt =====
-- The loop of `writei` of Lab-5 Task 5.1, kernel/fs.c.
use cs344_os_lab.Base.{
  ℕ, zero, suc, ◌+◌, ◌-◌, ◌*◌, ◌/◌, ◌%◌, ◌<◌, ◌≤◌, ◌≡◌, ◌≢◌, refl, sym, ◌∙◌, subst, Option, none,
  some, arith, inl, inr, ◌⊎◌,
}
use cs344_os_lab.Base.Tests.{
  if◌then◌else◌, ltb, leb, ltb→lt, ltb_ge, ◌==◌, Bool-cases, ==→eq, ==→ne,
}
use cs344_os_lab.Fs.{Open, bsize, maxfile}
use cs344_os_lab.Fs.Slots.{value, Inv}
use cs344_os_lab.Fs.Bmap.Grows.{Filled}
use cs344_os_lab.Fs.Bmap.Maps.{slot_of, bmap-Filled, OnWay}
use cs344_os_lab.Fs.Content.{put}
use cs344_os_lab.Fs.Io.{least, overlay, Round, stops, goes, write_chunk, write_loop}
use cs344_os_lab.Fs.Io.Write.{Writes, Short, Grows-Writes, Writes-trans, put-Writes}

module _ (size : ℕ) (copied : ℕ → ℕ → ℕ) (src : ℕ → ℕ) (start n : ℕ) where
  abbrev W : ℕ → ℕ → Open → Open → Type 0
  W = Writes size copied src start n

  data Chunk (tot off : ℕ) (o : Open) : Option (Round × Open) → Type 0 where
    ended :
        (o' : Open)
        → W off off o o'
        → Short size copied src start n o'
        → Chunk tot off o (some (stops, o'))
    went :
        (m : ℕ) (o' : Open)
        → 0 < m
        → tot + m ≤ n
        → W off (off + m) o o'
        → Chunk tot off o (some (goes m, o'))

  -- What was written may be counted for less.
  began : (lo hi : ℕ) (o o' : Open) → W lo hi o o' → W lo lo o o'
  began lo hi o o' w = record {
    inv = w.inv;
    meta = w.meta;
    dinodes = w.dinodes;
    wrote = λ k l u. absurd (omega arith);
    rest = w.rest;
  }

  write_chunk-Chunk :
      (tot off : ℕ) (o : Open)
      → Inv size o
      → off ≡ start + tot
      → start + n ≤ maxfile * bsize
      → tot < n
      → Chunk tot off o (write_chunk size copied src n tot off o)
  unfolding write_chunk
  write_chunk-Chunk tot off o v at top more =
      let b = bmap-Filled size (off / bsize) o v (omega arith) in
      rw (write_chunk, b.1) (round_of b.0 b.2)
    where
      m : ℕ
      m = least (n - tot) (bsize - off % bsize)

      laid :
          (r : ℕ × Open)
          → Filled size (OnWay (slot_of (off / bsize))) o (slot_of (off / bsize)) r.0 r.1
          → r.0 ≢ 0
          → (c c' : ℕ) → c ≡ c'
          → tot + c' ≤ n
          → off % bsize + c' ≤ bsize
          → W off
              (off + c')
              o
              (put r.0 (overlay (off % bsize) c (λ j. src (tot + j)) (r.1.disk.bytes r.0)) r.1)
      laid r f nz c c' e fits room =
          subst
            (λ b.
              W off (off + c') o
                (put b (overlay (off % bsize) c (λ j. src (tot + j)) (r.1.disk.bytes b)) r.1))
            (sym f.result)
            (subst
              (λ c. W off (off + c') o (
                put (value r.1 (slot_of (off / bsize)))
                  (overlay (off % bsize) c (λ j. src (tot + j))
                    (r.1.disk.bytes (value r.1 (slot_of (off / bsize)))))
                  r.1))
              (sym e)
              (Writes-trans size copied src start n off off (off + c') o r.1 _ (omega arith)
                (Grows-Writes size copied src start n off o r.1 v f.grows)
                (put-Writes size copied src start n tot off c' r.1 f.grows.inv at top fits room
                  (omega arith) (λ z. nz (f.result ∙ z)))
                (omega arith)))

      round_of :
          (r : ℕ × Open)
          → Filled size (OnWay (slot_of (off / bsize))) o (slot_of (off / bsize)) r.0 r.1
          → Chunk tot off o (
              if r.0 == 0
              then some (stops, r.1)
              else some (
                if leb m (copied tot m) then goes m else stops,
                put r.0
                    (overlay
                      (off % bsize)
                      (least (copied tot m) m)
                      (λ j. src (tot + j))
                      (r.1.disk.bytes r.0))
                    r.1,
              ))
      round_of r f = elim (Bool-cases (r.0 == 0)) [
        | inl z ↦ rw z (
            ended r.1 (Grows-Writes size copied src start n off o r.1 v f.grows)
              (inl (f.failed (==→eq _ 0 z))))
        | inr z ↦ rw z (elim (Bool-cases (leb m (copied tot m))) [
          | inl e ↦ rw e (
              went m _ (ground arith) (ground arith) (
                laid r f (==→ne _ 0 z) (least (copied tot m) m) m (ground (arith, e)) (ground arith)
                  (ground arith)))
          | inr e ↦ rw e (
              ended _
                (began off (off + least (copied tot m) m) _ _
                  (laid r f (==→ne _ 0 z) _ _ refl (ground arith) (ground arith)))
                (inr (tot, m, ground (arith, e))))
        ])
      ]

  -- What the loop gives from `tot` bytes on, when it has enough fuel.
  pub record Loop (tot off : ℕ) (o : Open) (r : Option (ℕ × ℕ × Open)) : Type 0 where
    pub total : ℕ
    pub after : ℕ
    pub o' : Open
    pub ends : r ≡ some (total, after, o')
    pub counted : after ≡ start + total
    pub more : tot ≤ total
    pub most : total ≤ n
    pub writes : W off after o o'
    pub short : (total ≡ n) ⊎ Short size copied src start n o'

  finished :
      (tot off : ℕ) (o : Open)
      → Inv size o
      → off ≡ start + tot
      → tot ≡ n
      → Loop tot off o (some (tot, off, o))
  finished tot off o v at e = record {
    total = tot;
    after = off;
    o' = o;
    ends = refl;
    counted = at;
    more = omega arith;
    most = omega arith;
    writes = record {
      inv = v;
      meta = refl;
      dinodes = refl;
      wrote = λ k l u. absurd (omega arith);
      rest = λ k l. inr refl;
    };
    short = inl e;
  }

  -- The rest of the loop after a round.
  abbrev resume : ℕ → ℕ → ℕ → Option (Round × Open) → Option (ℕ × ℕ × Open)
  resume fuel tot off c = elim c [
    | none ↦ none
    | some c ↦ elim (c.0) [
      | goes m ↦ write_loop size copied fuel src n (tot + m) (off + m) c.1
      | _ ↦ some (tot, off, c.1)
    ]
  ]

  resume-Loop :
      (fuel tot off : ℕ) (o : Open) (c : Option (Round × Open))
      → off ≡ start + tot
      → start + n ≤ maxfile * bsize
      → tot ≤ n
      → Chunk tot off o c
      → ((m : ℕ) (o' : Open)
          → Inv size o'
          → 0 < m
          → tot + m ≤ n
          → Loop (tot + m) (off + m) o' (write_loop size copied fuel src n (tot + m) (off + m) o'))
      → Loop tot off o (resume fuel tot off c)
  resume-Loop fuel tot off o _ at top le (ended o' w s) next = record {
    total = tot;
    after = off;
    o' = o';
    ends = refl;
    counted = at;
    more = omega arith;
    most = le;
    writes = w;
    short = inr s;
  }
  resume-Loop fuel tot off o _ at top le (went m o' p fits w) next =
      let l = next m o' w.inv p fits in
      record {
        total = l.total;
        after = l.after;
        o' = l.o';
        ends = l.ends;
        counted = l.counted;
        more = omega (arith, l.more);
        most = l.most;
        writes =
            Writes-trans size copied src start n off (off + m) l.after o o' l.o' (omega arith) w
              l.writes (omega arith);
        short = l.short;
      }

  pub write_loop-Loop :
      (fuel tot off : ℕ) (o : Open)
      → Inv size o
      → off ≡ start + tot
      → start + n ≤ maxfile * bsize
      → tot ≤ n
      → n ≤ tot + fuel
      → Loop tot off o (write_loop size copied fuel src n tot off o)
  unfolding write_loop
  write_loop-Loop zero tot off o v at top le enough = finished tot off o v at (omega arith)
  write_loop-Loop (suc fuel) tot off o v at top le enough = elim (Bool-cases (ltb tot n)) [
    | inr e ↦ rw (write_loop, e) (finished tot off o v at (omega (arith, ltb_ge tot n e)))
    | inl e ↦
        rw (write_loop, e)
          (resume-Loop fuel tot off o _ at top le
            (write_chunk-Chunk tot off o v at top (ltb→lt tot n e))
            (λ m o' w p fits.
              write_loop-Loop fuel (tot + m) (off + m) o' w (omega arith) top fits (omega arith)))
  ]
