-- ===== src/Fs/Io/Writei.antt =====
-- What `writei` of Lab-5 Task 5.1, kernel/fs.c, does as a whole.
use cs344_os_lab.Base.{
  ℕ, ◌+◌, ◌*◌, ◌%◌, ◌^◌, ◌<◌, ◌≤◌, ◌≡◌, refl, sym, ap, ap₂, ◌∙◌, List, ◌||◌, Option, none, some,
  arith, inl, inr, ◌⊎◌,
}
use cs344_os_lab.Base.Tests.{if◌then◌else◌, ltb, Bool-cases}
use cs344_os_lab.Base.Int.{ℤ, pos, minus_one}
use cs344_os_lab.Fs.{Dinode, Inode, Open, bsize, maxfile}
use cs344_os_lab.Fs.Blocks.{upd_same}
use cs344_os_lab.Fs.Slots.{Inv}
use cs344_os_lab.Fs.Content.{file_byte, file_byte_same, Inv_same}
use cs344_os_lab.Fs.Io.{writei, grow, iupdate}
use cs344_os_lab.Fs.Io.Write.{Short}
use cs344_os_lab.Fs.Io.WriteLoop.{Loop, write_loop-Loop}

-- The `size` field that `writei` leaves.
unfoldable pub longer : ℕ → ℕ → ℕ
longer size off = if ltb size off then off else size

-- A call of `writei` that is not refused.
pub record Wrote (size : ℕ) (copied : ℕ → ℕ → ℕ) (src : ℕ → ℕ) (off n : ℕ) (o : Open)
    (r : Option (ℤ × Open)) : Type 0 where
  pub total : ℕ
  pub o' : Open
  pub ends : r ≡ some (pos total, o')
  pub most : total ≤ n
  pub inv : Inv size o'
  pub wrote : (i : ℕ) → i < total → file_byte o' (off + i) ≡ src i
  pub rest :
      (k : ℕ) → k < maxfile * bsize → (k < off) ⊎ (off + n ≤ k) → file_byte o' k ≡ file_byte o k
  pub sized : o'.ip ≡ record o.ip { addrs = o'.ip.addrs; size = longer o.ip.size (off + total) }
  pub saved : o'.disk.dinodes o.ip.inum ≡ record {
    type = o.ip.type;
    major = o.ip.major;
    minor = o.ip.minor;
    nlink = o.ip.nlink;
    size = o'.ip.size;
    addrs = o'.ip.addrs;
  }
  pub short : (total ≡ n) ⊎ Short size copied src off n o'

-- The inode with its new size, on the disk.
record Stored (a : ℕ) (p q : Open) : Type 0 where
  bytes : q.disk.bytes ≡ p.disk.bytes
  bitmap : q.disk.bitmap ≡ p.disk.bitmap
  ip : q.ip ≡ record p.ip { size = longer p.ip.size a }
  saved : q.disk.dinodes p.ip.inum ≡ record {
    type = p.ip.type;
    major = p.ip.major;
    minor = p.ip.minor;
    nlink = p.ip.nlink;
    size = q.ip.size;
    addrs = q.ip.addrs;
  }

iupdate-Stored : (a : ℕ) (p : Open) → Stored a p (iupdate (grow a p))
unfolding iupdate grow longer
iupdate-Stored a p = elim (Bool-cases (ltb p.ip.size a)) [
  | inl e ↦ record {
    bytes = rw e refl;
    bitmap = rw e refl;
    ip = rw e refl;
    saved = rw e (upd_same _ p.ip.inum _);
  }
  | inr e ↦ record {
    bytes = rw e refl;
    bitmap = rw e refl;
    ip = rw e refl;
    saved = rw e (upd_same _ p.ip.inum _);
  }
]

stored-Wrote :
    (size : ℕ) (copied : ℕ → ℕ → ℕ) (src : ℕ → ℕ) (off n : ℕ) (o : Open) (r : Option (ℕ × ℕ × Open))
    → off + n ≤ maxfile * bsize
    → Loop size copied src off n 0 off o r
    → Wrote size copied src off n o
        (elim r [ none ↦ none | some w ↦ some (pos w.0, iupdate (grow w.1 w.2)) ])
stored-Wrote size copied src off n o r top l =
    let q = iupdate (grow l.after l.o') in
    let st = iupdate-Stored l.after l.o' in
    let a = ap {A = Inode} {B = List ℕ} (λ i. i.addrs) st.ip in
    record {
      total = l.total;
      o' = q;
      ends = rw l.ends refl;
      most = l.most;
      inv = Inv_same l.o' q st.bytes a size st.bitmap l.writes.inv;
      wrote = λ i h.
          file_byte_same l.o' q st.bytes a (off + i)
          ∙ l.writes.wrote (off + i) (omega arith) (omega (arith, l.counted))
          ∙ ap src (omega arith);
      rest = λ k m h.
          file_byte_same l.o' q st.bytes a k
          ∙ elim (l.writes.rest k m) [ inl e ↦ absurd (ground (arith, e.0, e.1, h)) | inr e ↦ e ];
      sized =
          st.ip
          ∙ ap {A = Inode} {B = Inode} (λ i. record i { size = longer i.size l.after })
              l.writes.meta
          ∙ ap₂ {A = List ℕ} {B = ℕ} {C = Inode}
              (λ x y. record o.ip { addrs = x; size = longer o.ip.size y }) (sym a) l.counted;
      saved =
          ap q.disk.dinodes (sym (ap {A = Inode} {B = ℕ} (λ i. i.inum) l.writes.meta))
          ∙ st.saved
          ∙ ap {A = Inode} {B = Dinode}
              (λ i. record {
                type = i.type;
                major = i.major;
                minor = i.minor;
                nlink = i.nlink;
                size = q.ip.size;
                addrs = q.ip.addrs;
              })
              l.writes.meta;
      short = elim l.short [
        | inl e ↦ inl e
        | inr e ↦
            inr (elim e [ inl f ↦ inl (λ b h. ap (λ m. m b) st.bitmap ∙ f b h) | inr f ↦ inr f ])
      ];
    }

-- What `writei` of `n` bytes at offset `off`, both 32-bit, does to an inode whose blocks are in use
-- and all different. It refuses, without a change, only when `off` is past the end or the last byte
-- past MAXFILE blocks. Otherwise it returns how many bytes it wrote: all of them unless the disk is
-- full or a copy failed. Those bytes of the file are then the source's, the size covers them, the
-- bytes outside of the range are what they were, the inode is on the disk, and its blocks are in use
-- and all different.
pub writei-Wrote :
    (size : ℕ) (copied : ℕ → ℕ → ℕ) (src : ℕ → ℕ) (off n : ℕ) (o : Open)
    → Inv size o
    → off < 4294967296
    → n < 4294967296
    → ((o.ip.size < off) ⊎ (maxfile * bsize < off + n))
        × (writei size copied src off n o ≡ some (minus_one, o))
      ⊎ Wrote size copied src off n o (writei size copied src off n o)
unfolding writei
writei-Wrote size copied src off n o v ob nb =
    elim (Bool-cases (ltb o.ip.size off || ltb ((off + n) % 2 ^ 32) off)) [
      | inl e ↦ inl (ground (arith, e), rw (writei, e) refl)
      | inr e ↦ elim (Bool-cases (ltb (maxfile * bsize) ((off + n) % 2 ^ 32))) [
        | inl f ↦ inl (ground (arith, e, f), rw (writei, e, f) refl)
        | inr f ↦ inr (
            rw (writei, e, f)
              (stored-Wrote size copied src off n o _ (ground (arith, e, f)) (
                write_loop-Loop size copied src off n n 0 off o v (omega arith)
                  (ground (arith, e, f)) (omega arith) (omega arith))))
      ]
    ]
