-- ===== src/Fs/Accounts/Refs.antt =====
-- What is done to the content of an inode leaves its count of references alone (Lab-5 Task 5.1,
-- kernel/fs.c).
use cs344_os_lab.Base.{
  ℕ, zero, suc, ◌+◌, ◌-◌, ◌/◌, ◌%◌, ◌≡◌, Bool, true, false, Option, none, some, arith,
}
use cs344_os_lab.Base.Tests.{if◌then◌else◌, ltb, leb, ◌==◌}
use cs344_os_lab.Base.Int.{ℤ, pos, minus_one}
use cs344_os_lab.Base.Partial.{On, stops, returns, if-On}
use cs344_os_lab.Fs.{Open, fill_addr, fill_word, bmap, bsize, ndirect, nindirect, ndoubly_indirect}
use cs344_os_lab.Fs.Io.{Round, goes, least, overlay, read_chunk, read_loop, readi}

-- The count of `o'` is `n`.
abbrev pub HasRef : ℕ → Open → Type 0
HasRef n o = o.ip.ref ≡ n

module _ (size : ℕ) (n : ℕ) where
  fill_addr-ref : (k : ℕ) (o : Open) → HasRef n o → HasRef n (fill_addr size k o).1
  unfolding fill_addr
  fill_addr-ref k o h = ground (arith, h)

  fill_word-ref : (b i : ℕ) (o : Open) → HasRef n o → HasRef n (fill_word size b i o).1
  unfolding fill_word
  fill_word-ref b i o h = ground (arith, h)

  pub bmap-On : (bn : ℕ) (o : Open) → HasRef n o → On (λ r. HasRef n r.1) (bmap size bn o)
  unfolding bmap
  bmap-On bn o h = if-On (ltb bn ndirect) _ _ (returns _ (fill_addr-ref bn o h)) (
      if-On (ltb (bn - ndirect) nindirect) _ _
        (single (fill_addr size ndirect o) (fill_addr-ref ndirect o h))
        (if-On (ltb (bn - ndirect - nindirect) ndoubly_indirect) _ _
          (double (fill_addr size (ndirect + 1) o) (fill_addr-ref (ndirect + 1) o h)) stops))
    where
      single :
          (top : ℕ × Open)
          → HasRef n top.1
          → On
              (λ r. HasRef n r.1)
              (if top.0 == 0
                then some (0, top.1)
                else some (fill_word size top.0 (bn - ndirect) top.1))
      single top g = if-On _ _ _ (returns _ g) (returns _ (fill_word-ref top.0 _ top.1 g))

      double :
          (top : ℕ × Open)
          → HasRef n top.1
          → On
              (λ r. HasRef n r.1)
              (let m = bn - ndirect - nindirect in
                let outer = fill_word size top.0 (m / nindirect) top.1 in
                if top.0 == 0
                then some (0, top.1)
                else if outer.0 == 0
                then some (0, outer.1)
                else some (fill_word size outer.0 (m % nindirect) outer.1))
      double top g =
          let m = bn - ndirect - nindirect in
          let outer = fill_word size top.0 (m / nindirect) top.1 in
          let q = fill_word-ref top.0 (m / nindirect) top.1 g in
          if-On (top.0 == 0) (some (0, top.1)) _ (returns _ g) (
            if-On (outer.0 == 0) (some (0, outer.1))
              (some (fill_word size outer.0 (m % nindirect) outer.1)) (returns _ q)
              (returns _ (fill_word-ref outer.0 (m % nindirect) outer.1 q)))

  module _ (copied : ℕ → ℕ → ℕ) where
    read_chunk-On :
        (m tot off : ℕ) (dst : ℕ → ℕ) (o : Open)
        → HasRef n o
        → On (λ r. HasRef n r.2) (read_chunk size copied m tot off dst o)
    unfolding read_chunk
    read_chunk-On m tot off dst o h = of (bmap size (off / bsize) o) (bmap-On (off / bsize) o h)
      where
        of :
            (x : Option (ℕ × Open))
            → On (λ r. HasRef n r.1) x
            → On
                (λ r. HasRef n r.2)
                (let k = least (m - tot) (bsize - off % bsize) in
                  elim x as (λ _. Option (Round × (ℕ → ℕ) × Open)) [
                    | none ↦ none
                    | some r ↦
                        if r.0 == 0
                        then some (Round.stops, dst, r.1)
                        else some (
                          if leb k (copied tot k) then goes k else Round.fails,
                          overlay tot
                              (least (copied tot k) k)
                              (λ j. r.1.disk.bytes r.0 (off % bsize + j))
                              dst,
                          r.1,
                        )
                  ])
        of _ stops = stops
        of _ (returns r g) = if-On (r.0 == 0) _ _ (returns _ g) (returns _ g)

    read_loop-On :
        (fuel m tot off : ℕ) (dst : ℕ → ℕ) (o : Open)
        → HasRef n o
        → On (λ r. HasRef n r.2) (read_loop size copied fuel m tot off dst o)
    unfolding read_loop
    read_loop-On zero m tot off dst o h = returns _ h
    read_loop-On (suc fuel) m tot off dst o h =
        round (ltb tot m) (λ k d p g. read_loop-On fuel m (tot + k) (off + k) d p g)
      where
        chunk :
            (x : Option (Round × (ℕ → ℕ) × Open))
            → On (λ r. HasRef n r.2) x
            → ((k : ℕ) (d : ℕ → ℕ) (p : Open)
                → HasRef n p
                → On (λ r. HasRef n r.2) (read_loop size copied fuel m (tot + k) (off + k) d p))
            → On
                (λ r. HasRef n r.2)
                (elim x as (λ _. Option (ℤ × (ℕ → ℕ) × Open)) [
                  | none ↦ none
                  | some c ↦ elim (c.0) as (λ _. Option (ℤ × (ℕ → ℕ) × Open)) [
                    | Round.stops ↦ some (pos tot, c.1, c.2)
                    | Round.fails ↦ some (minus_one, c.1, c.2)
                    | goes k ↦ read_loop size copied fuel m (tot + k) (off + k) c.1 c.2
                  ]
                ])
        chunk _ stops k = stops
        chunk _ (returns (Round.stops, d, p) g) k = returns _ g
        chunk _ (returns (Round.fails, d, p) g) k = returns _ g
        chunk _ (returns (goes j, d, p) g) k = k j d p g

        round :
            (c : Bool)
            → ((k : ℕ) (d : ℕ → ℕ) (p : Open)
                → HasRef n p
                → On (λ r. HasRef n r.2) (read_loop size copied fuel m (tot + k) (off + k) d p))
            → On
                (λ r. HasRef n r.2)
                (elim c as (λ _. Option (ℤ × (ℕ → ℕ) × Open)) [
                  | false ↦ some (pos tot, dst, o)
                  | true ↦
                      elim (read_chunk size copied m tot off dst o)
                        as (λ _. Option (ℤ × (ℕ → ℕ) × Open)) [
                          | none ↦ none
                          | some c ↦ elim (c.0) as (λ _. Option (ℤ × (ℕ → ℕ) × Open)) [
                            | Round.stops ↦ some (pos tot, c.1, c.2)
                            | Round.fails ↦ some (minus_one, c.1, c.2)
                            | goes k ↦ read_loop size copied fuel m (tot + k) (off + k) c.1 c.2
                          ]
                        ]
                ])
        round false k = returns _ h
        round true k =
            chunk (read_chunk size copied m tot off dst o) (read_chunk-On m tot off dst o h) k

    pub readi-On :
        (off m : ℕ) (dst : ℕ → ℕ) (o : Open)
        → HasRef n o
        → On (λ r. HasRef n r.2) (readi size copied off m dst o)
    unfolding readi
    readi-On off m dst o h = if-On _ _ _ (returns _ h) (read_loop-On _ _ 0 off dst o h)
