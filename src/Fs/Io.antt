-- ===== src/Fs/Io.antt =====
-- `iupdate`, `readi` and `writei` of Lab-5 Task 5.1, kernel/fs.c. The copies to and from user space
-- are not in the repository: `copied tot m` is how many of the `m` bytes are copied when `tot` have
-- been before; the copy fails, with -1, when that is less than `m`.
pub mod Write
pub mod WriteLoop
pub mod Writei
pub mod Read
use cs344_os_lab.Base.{
  ℕ, zero, suc, ◌+◌, ◌-◌, ◌*◌, ◌/◌, ◌%◌, ◌^◌, Bool, true, false, ◌&&◌, ◌||◌, Option, none, some,
}
use cs344_os_lab.Base.Tests.{ltb, leb, ◌==◌, if◌then◌else◌}
use cs344_os_lab.Base.Int.{ℤ, pos, minus_one}
use cs344_os_lab.Fs.{Inode, Open, upd, bmap, bsize, maxfile}
use cs344_os_lab.Fs.Content.{put}

-- The in-memory inode, written back to its entry on the disk.
unfoldable pub iupdate : Open → Open
iupdate o = record o {
  disk = record (o.disk) {
    dinodes = upd o.disk.dinodes o.ip.inum (record {
      type = o.ip.type;
      major = o.ip.major;
      minor = o.ip.minor;
      nlink = o.ip.nlink;
      size = o.ip.size;
      addrs = o.ip.addrs;
    });
  };
}

abbrev pub least : ℕ → ℕ → ℕ
least a b = if ltb a b then a else b

-- `m` bytes of `s`, laid over `p` from `at` on
unfoldable pub overlay : ℕ → ℕ → (ℕ → ℕ) → (ℕ → ℕ) → ℕ → ℕ
overlay at m s p j = if leb at j && ltb j (at + m) then s (j - at) else p j

-- `if(off > ip->size) ip->size = off;`
unfoldable pub grow : ℕ → Open → Open
grow off o = if ltb o.ip.size off then record o { ip = record (o.ip) { size = off } } else o

-- How a round of a loop ends: it breaks out, with the bytes counted so far; it breaks out with -1; or
-- it goes on after so many bytes.
pub data Round : Type 0 where
  stops : Round
  fails : Round
  goes : ℕ → Round

module _ (size : ℕ) (copied : ℕ → ℕ → ℕ) where
  -- One round of the loop of `writei`.
  unfoldable pub write_chunk : (ℕ → ℕ) → ℕ → ℕ → ℕ → Open → Option (Round × Open)
  write_chunk src n tot off o =
      let m = least (n - tot) (bsize - off % bsize) in
      elim (bmap size (off / bsize) o) [
        | none ↦ none
        | some r ↦
            if r.0 == 0
            then some (stops, r.1)
            else some (
              if leb m (copied tot m) then goes m else stops,
              put r.0
                  (overlay (off % bsize) (least (copied tot m) m) (λ j. src (tot + j))
                    (r.1.disk.bytes r.0))
                  r.1,
            )
      ]

  -- The loop, with fuel: the bytes written, the offset after them, and the inode.
  unfoldable pub write_loop : ℕ → (ℕ → ℕ) → ℕ → ℕ → ℕ → Open → Option (ℕ × ℕ × Open)
  write_loop zero src n tot off o = some (tot, off, o)
  write_loop (suc fuel) src n tot off o = elim (ltb tot n) [
    | false ↦ some (tot, off, o)
    | true ↦ elim (write_chunk src n tot off o) [
      | none ↦ none
      | some c ↦ elim (c.0) [
        | goes m ↦ write_loop fuel src n (tot + m) (off + m) c.1
        | _ ↦ some (tot, off, c.1)
      ]
    ]
  ]

  -- `off` and `n` are 32-bit.
  unfoldable pub writei : (ℕ → ℕ) → ℕ → ℕ → Open → Option (ℤ × Open)
  writei src off n o =
      if ltb o.ip.size off || ltb ((off + n) % 2 ^ 32) off
      then some (minus_one, o)
      else if ltb (maxfile * bsize) ((off + n) % 2 ^ 32)
      then some (minus_one, o)
      else elim (write_loop n src n 0 off o) [
        | none ↦ none
        | some w ↦ some (pos w.0, iupdate (grow w.1 w.2))
      ]

  -- One round of the loop of `readi`, which copies to the memory `dst`.
  unfoldable pub read_chunk : ℕ → ℕ → ℕ → (ℕ → ℕ) → Open → Option (Round × (ℕ → ℕ) × Open)
  read_chunk n tot off dst o =
      let m = least (n - tot) (bsize - off % bsize) in
      elim (bmap size (off / bsize) o) [
        | none ↦ none
        | some r ↦
            if r.0 == 0
            then some (stops, dst, r.1)
            else some (
              if leb m (copied tot m) then goes m else fails,
              overlay tot (least (copied tot m) m) (λ j. r.1.disk.bytes r.0 (off % bsize + j)) dst,
              r.1,
            )
      ]

  unfoldable pub read_loop : ℕ → ℕ → ℕ → ℕ → (ℕ → ℕ) → Open → Option (ℤ × (ℕ → ℕ) × Open)
  read_loop zero n tot off dst o = some (pos tot, dst, o)
  read_loop (suc fuel) n tot off dst o = elim (ltb tot n) [
    | false ↦ some (pos tot, dst, o)
    | true ↦ elim (read_chunk n tot off dst o) [
      | none ↦ none
      | some c ↦ elim (c.0) [
        | stops ↦ some (pos tot, c.1, c.2)
        | fails ↦ some (minus_one, c.1, c.2)
        | goes m ↦ read_loop fuel n (tot + m) (off + m) c.1 c.2
      ]
    ]
  ]

  unfoldable pub readi : ℕ → ℕ → (ℕ → ℕ) → Open → Option (ℤ × (ℕ → ℕ) × Open)
  readi off n dst o =
      if ltb o.ip.size off || ltb ((off + n) % 2 ^ 32) off
      then some (pos 0, dst, o)
      else (let n' = if ltb o.ip.size ((off + n) % 2 ^ 32) then o.ip.size - off else n in
          read_loop n' n' 0 off dst o)
