-- ===== src/Fs/Accounts/Writes.antt =====
-- `writei` leaves the count of references of an inode alone (Lab-5 Task 5.1, kernel/fs.c).
use cs344_os_lab.Base.{
  ℕ, zero, suc, ◌+◌, ◌-◌, ◌*◌, ◌/◌, ◌%◌, ◌^◌, Bool, true, false, ◌||◌, Option, none, some, arith,
}
use cs344_os_lab.Base.Tests.{if◌then◌else◌, ltb, leb, ◌==◌}
use cs344_os_lab.Base.Int.{ℤ, pos, minus_one}
use cs344_os_lab.Base.Partial.{On, stops, returns, if-On}
use cs344_os_lab.Fs.{Open, bmap, bsize, maxfile}
use cs344_os_lab.Fs.Content.{put}
use cs344_os_lab.Fs.Io.{Round, goes, least, overlay, iupdate, grow, write_chunk, write_loop, writei}
use cs344_os_lab.Fs.Accounts.Refs.{HasRef, bmap-On}

module _ (size : ℕ) (n : ℕ) where
  module _ (copied : ℕ → ℕ → ℕ) where
    write_chunk-On :
        (src : ℕ → ℕ) (m tot off : ℕ) (o : Open)
        → HasRef n o
        → On (λ r. HasRef n r.1) (write_chunk size copied src m tot off o)
    unfolding write_chunk
    write_chunk-On src m tot off o h =
        of (bmap size (off / bsize) o) (bmap-On size n (off / bsize) o h)
      where
        of :
            (x : Option (ℕ × Open))
            → On (λ r. HasRef n r.1) x
            → On
                (λ r. HasRef n r.1)
                (let k = least (m - tot) (bsize - off % bsize) in
                  elim x as (λ _. Option (Round × Open)) [
                    | none ↦ none
                    | some r ↦
                        if r.0 == 0
                        then some (Round.stops, r.1)
                        else some (
                          if leb k (copied tot k) then goes k else Round.stops,
                          put r.0
                              (overlay
                                (off % bsize)
                                (least (copied tot k) k)
                                (λ j. src (tot + j))
                                (r.1.disk.bytes r.0))
                              r.1,
                        )
                  ])
        of _ stops = stops
        of _ (returns r g) = if-On (r.0 == 0) _ _ (returns _ g) (returns _ g)

    write_loop-On :
        (fuel : ℕ) (src : ℕ → ℕ) (m tot off : ℕ) (o : Open)
        → HasRef n o
        → On (λ r. HasRef n r.2) (write_loop size copied fuel src m tot off o)
    unfolding write_loop
    write_loop-On zero src m tot off o h = returns _ h
    write_loop-On (suc fuel) src m tot off o h =
        round (ltb tot m) (λ k p g. write_loop-On fuel src m (tot + k) (off + k) p g)
      where
        chunk :
            (x : Option (Round × Open))
            → On (λ r. HasRef n r.1) x
            → ((k : ℕ) (p : Open)
                → HasRef n p
                → On (λ r. HasRef n r.2) (write_loop size copied fuel src m (tot + k) (off + k) p))
            → On
                (λ r. HasRef n r.2)
                (elim x as (λ _. Option (ℕ × ℕ × Open)) [
                  | none ↦ none
                  | some c ↦ elim (c.0) as (λ _. Option (ℕ × ℕ × Open)) [
                    | goes k ↦ write_loop size copied fuel src m (tot + k) (off + k) c.1
                    | _ ↦ some (tot, off, c.1)
                  ]
                ])
        chunk _ stops k = stops
        chunk _ (returns (Round.stops, p) g) k = returns _ g
        chunk _ (returns (Round.fails, p) g) k = returns _ g
        chunk _ (returns (goes j, p) g) k = k j p g

        round :
            (c : Bool)
            → ((k : ℕ) (p : Open)
                → HasRef n p
                → On (λ r. HasRef n r.2) (write_loop size copied fuel src m (tot + k) (off + k) p))
            → On
                (λ r. HasRef n r.2)
                (elim c as (λ _. Option (ℕ × ℕ × Open)) [
                  | false ↦ some (tot, off, o)
                  | true ↦
                      elim (write_chunk size copied src m tot off o)
                        as (λ _. Option (ℕ × ℕ × Open)) [
                          | none ↦ none
                          | some c ↦ elim (c.0) as (λ _. Option (ℕ × ℕ × Open)) [
                            | goes k ↦ write_loop size copied fuel src m (tot + k) (off + k) c.1
                            | _ ↦ some (tot, off, c.1)
                          ]
                        ]
                ])
        round false k = returns _ h
        round true k =
            chunk (write_chunk size copied src m tot off o) (write_chunk-On src m tot off o h) k

    pub writei-On :
        (src : ℕ → ℕ) (off m : ℕ) (o : Open)
        → HasRef n o
        → On (λ r. HasRef n r.1) (writei size copied src off m o)
    unfolding writei iupdate grow
    writei-On src off m o h =
        if-On (ltb o.ip.size off || ltb ((off + m) % 2 ^ 32) off) (some (minus_one, o)) _
          (returns _ h)
          (if-On (ltb (maxfile * bsize) ((off + m) % 2 ^ 32)) (some (minus_one, o)) _ (returns _ h)
            (of (write_loop size copied m src m 0 off o) (write_loop-On m src m 0 off o h)))
      where
        of :
            (x : Option (ℕ × ℕ × Open))
            → On (λ r. HasRef n r.2) x
            → On
                (λ r. HasRef n r.1)
                (elim x as (λ _. Option (ℤ × Open)) [
                  | none ↦ none
                  | some w ↦ some (pos w.0, iupdate (grow w.1 w.2))
                ])
        of _ stops = stops
        of _ (returns (a, b, p) g) = returns _ (ground (arith, g))
