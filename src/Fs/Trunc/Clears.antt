-- ===== src/Fs/Trunc/Clears.antt =====
-- What `itrunc` of Lab-5 Task 5.1, kernel/fs.c, leaves behind.
use cs344_os_lab.Base.{
  ℕ, zero, suc, ◌+◌, ◌<◌, ◌≤◌, ◌≡◌, ◌≢◌, refl, sym, ap, ◌∙◌, subst, Option, some, false, arith, inl,
  inr,
}
use cs344_os_lab.Base.Tests.{Bool-cases, ◌==◌, ==→eq, ==→ne}
use cs344_os_lab.Base.Lists.{length, get_or, set, length-set, get_or-set_self, get_or-set_ne}
use cs344_os_lab.Base.Partial.{◌>>=◌}
use cs344_os_lab.Fs.{Disk, Dinode, Inode, Open, bfree, upd, ndirect}
use cs344_os_lab.Fs.Io.{iupdate}
use cs344_os_lab.Fs.Slots.{Slot, top, sub, Legal, parent-Legal, value, Inv}
use cs344_os_lab.Fs.Trunc.{clear_entry, clear_direct, free_index, free_double, no_size, itrunc}
use cs344_os_lab.Fs.Trunc.Ranks.{rank_below, rank_direct, direct-Legal}
use cs344_os_lab.Fs.Trunc.Frees.{
  Freed, Ends, starts-Freed, passes-Freed, bfree-Freed, Freed-at, Ends-at,
}
use cs344_os_lab.Fs.Trunc.Runs.{
  value_below, passes_single, free_single-Freed, passes_double, free_double-Freed,
}

-- The first `k` entries are 0, the others are as they were, and the slots below rank `n` are free.
record Cleared (o : Open) (k n : ℕ) (a : Open) : Type 0 where
  pub freed : Freed o n a.disk
  pub meta : a.ip ≡ record o.ip { addrs = a.ip.addrs }
  pub entries : length a.ip.addrs ≡ 13
  pub zeroed : (j : ℕ) → j < k → get_or a.ip.addrs j 0 ≡ 0
  pub kept : (j : ℕ) → k ≤ j → get_or a.ip.addrs j 0 ≡ get_or o.ip.addrs j 0

record ClearsTo (o : Open) (k n : ℕ) (r : Option Open) : Type 0 where
  pub left : Open
  pub is : r ≡ some left
  pub cleared : Cleared o k n left

and_then-ClearsTo :
    {o : Open} {k n k' n' : ℕ} (r : Option Open) (f : Open → Option Open)
    → ClearsTo o k n r
    → ((a : Open) → Cleared o k n a → ClearsTo o k' n' (f a))
    → ClearsTo o k' n' (r >>= f)
and_then-ClearsTo r f c h = rw c.is (h c.left c.cleared)

-- What freeing the blocks of entry `k` has to do.
record Clears (o : Open) (free : ℕ → Disk → Option Disk) (k m n : ℕ) : Type 0 where
  pub passes : (d : Disk) → value o (top k) ≡ 0 → Freed o m d → Freed o n d
  pub frees : (d : Disk) → value o (top k) ≢ 0 → Freed o m d → Ends o n (free (value o (top k)) d)

clear_entry-ClearsTo :
    (o : Open) (free : ℕ → Disk → Option Disk) (k m n : ℕ) (a : Open)
    → Clears o free k m n
    → k < 13
    → Cleared o k m a
    → ClearsTo o (k + 1) n (clear_entry free k a)
unfolding clear_entry value
clear_entry-ClearsTo o free k m n a s l c =
    rw (c.kept k (omega arith)) (elim (Bool-cases (get_or o.ip.addrs k 0 == 0)) [
      | inl z ↦ rw z (record {
        left = a;
        is = refl;
        cleared = record {
          freed = s.passes a.disk (==→eq _ 0 z) c.freed;
          meta = c.meta;
          entries = c.entries;
          zeroed = λ j u. elim (Bool-cases (j == k)) [
            | inl e ↦ rw (==→eq j k e) (c.kept k (omega arith) ∙ ==→eq _ 0 z)
            | inr e ↦ c.zeroed j (ground (arith, u, e))
          ];
          kept = λ j u. c.kept j (omega arith);
        };
      })
      | inr z ↦
          rw z (
            freed_entry (free (get_or o.ip.addrs k 0) a.disk)
              (s.frees a.disk (==→ne _ 0 z) c.freed))
    ])
  where
    freed_entry :
        (r : Option Disk)
        → Ends o n r
        → ClearsTo o (k + 1) n (
            r >>= (λ d.
              some (record { disk = d; ip = record (a.ip) { addrs = set a.ip.addrs k 0 } })))
    freed_entry r e = rw e.is (record {
      left = _;
      is = refl;
      cleared = record {
        freed = e.freed;
        meta = ap {A = Inode} {B = Inode} (λ i. record i { addrs = set a.ip.addrs k 0 }) c.meta;
        entries = length-set a.ip.addrs k 0 ∙ c.entries;
        zeroed = λ j u. elim (Bool-cases (k == j)) [
          | inl q ↦ rw (sym (==→eq k j q)) (get_or-set_self a.ip.addrs k 0 0 (rw c.entries l))
          | inr q ↦
              get_or-set_ne a.ip.addrs k j 0 0 (==→ne k j q) ∙ c.zeroed j (ground (arith, u, q))
        ];
        kept = λ j u. get_or-set_ne a.ip.addrs k j 0 0 (λ q. omega arith) ∙ c.kept j (omega arith);
      };
    })

abbrev pub dinode_of : Inode → Dinode
dinode_of i = record {
  type = i.type;
  major = i.major;
  minor = i.minor;
  nlink = i.nlink;
  size = i.size;
  addrs = i.addrs;
}

-- What is left of an inode and the disk when its content is gone: the blocks that its slots named are
-- free, the other blocks and the bytes of all are as they were, and the entry on the disk is saved.
pub record Truncated (size : ℕ) (o o' : Open) : Type 0 where
  pub inv : Inv size o'
  pub no_block : (s : Slot) → Legal s → value o' s ≡ 0
  pub meta : o'.ip ≡ record o.ip { addrs = o'.ip.addrs; size = 0 }
  pub saved : o'.disk.dinodes ≡ upd o.disk.dinodes o.ip.inum (dinode_of o'.ip)
  pub bytes : o'.disk.bytes ≡ o.disk.bytes
  pub gone : (s : Slot) → Legal s → value o s ≢ 0 → o'.disk.bitmap (value o s) ≡ false
  pub others :
      (b : ℕ)
      → ((s : Slot) → Legal s → value o s ≢ 0 → b ≢ value o s)
      → o'.disk.bitmap b ≡ o.disk.bitmap b

module _ (size : ℕ) (o : Open) (v : Inv size o) where
  direct-Clears : (k : ℕ) → k < ndirect → Clears o bfree k k (k + 1)
  direct-Clears k l = record {
    passes = λ d z f.
        Freed-at (ap (λ n. n + 1) (rank_direct k l))
          (passes-Freed size o v (top k) d legal z (Freed-at (sym (rank_direct k l)) f));
    frees = λ d nz f.
        Ends-at (ap (λ n. n + 1) (rank_direct k l))
          (bfree-Freed size o v (top k) d legal nz (Freed-at (sym (rank_direct k l)) f));
  }
    where
      legal : Legal (top k)
      legal = direct-Legal k l

  single-Clears : Clears o free_index 11 11 268
  single-Clears = record { passes = passes_single size o v; frees = free_single-Freed size o v }

  double-Clears : Clears o free_double 12 268 66061
  double-Clears = record {
    passes = passes_double size o v;
    frees = λ d nz f. free_double-Freed size o v nz d f;
  }

  clear_direct-ClearsTo :
      (n k : ℕ) (a : Open)
      → k + n ≤ ndirect
      → Cleared o k k a
      → ClearsTo o (k + n) (k + n) (clear_direct n k a)
  unfolding clear_direct
  clear_direct-ClearsTo zero k a l c = record {
    left = a;
    is = refl;
    cleared = subst (λ n. Cleared o n n a) (omega arith) c;
  }
  clear_direct-ClearsTo (suc n) k a l c =
      and_then-ClearsTo (clear_entry bfree k a) _
        (clear_entry-ClearsTo o bfree k k (k + 1) a (direct-Clears k (omega arith)) (omega arith) c)
        (λ b d.
          subst (λ m. ClearsTo o m m (clear_direct n (k + 1) b)) (omega arith)
            (clear_direct-ClearsTo n (k + 1) b (omega arith) d))

  starts-Cleared : Cleared o 0 0 o
  starts-Cleared = record {
    freed = starts-Freed size o v;
    meta = refl;
    entries = v.entries;
    zeroed = λ j l. absurd (omega arith);
    kept = λ j l. refl;
  }

  emptied :
      (a : Open)
      → ((j : ℕ) → j < 13 → get_or a.ip.addrs j 0 ≡ 0)
      → (s : Slot) → Legal s
      → value a s ≡ 0
  unfolding value Legal
  emptied a z (top k) l = z k l
  emptied a z (sub s i) l = value_below a s i (emptied a z s (parent-Legal s i l))

  Cleared-Truncated : (a : Open) → Cleared o 13 66061 a → Truncated size o (iupdate (no_size a))
  unfolding iupdate
  Cleared-Truncated a c = record {
    inv = record {
      boot = c.freed.others 0 (λ s l nz e. nz (sym e)) ∙ v.boot;
      entries = c.entries;
      small = v.small;
      used = λ s l nz. absurd (nz (none_left s l));
      within = λ s l nz. absurd (nz (none_left s l));
      apart = λ s t l m nz e. absurd (nz (none_left s l));
    };
    no_block = none_left;
    meta = ap {A = Inode} {B = Inode} (λ i. record i { size = 0 }) c.meta;
    saved =
        ap (λ f. upd f a.ip.inum (dinode_of (no_size a).ip)) c.freed.dinodes
        ∙ ap (λ n. upd o.disk.dinodes n (dinode_of (no_size a).ip)) (ap (λ i. i.inum) c.meta);
    bytes = c.freed.bytes;
    gone = λ s l nz. c.freed.gone s l nz (rank_below s l);
    others = c.freed.others;
  }
    where
      none_left : (s : Slot) → Legal s → value (iupdate (no_size a)) s ≡ 0
      none_left = emptied (iupdate (no_size a)) c.zeroed

  -- For an inode whose blocks are in use and all different, `itrunc` returns: no block that it frees
  -- is free already. Then no slot names a block and the size is 0, in memory and in the inode's
  -- entry on the disk, whose other fields are the inode's; the blocks that the slots named are
  -- free; all other blocks, the bytes of every block and the other inodes are as they were.
  pub itrunc-Truncated : (r : Open) × (itrunc o ≡ some r) × Truncated size o r
  unfolding itrunc
  itrunc-Truncated =
      cleared (clear_direct ndirect 0 o) (clear_direct-ClearsTo 11 0 o (omega arith) starts-Cleared)
    where
      doubly :
          (r : Option Open)
          → ClearsTo o 13 66061 r
          → (x : Open) × (r >>= (λ c. some (iupdate (no_size c))) ≡ some x) × Truncated size o x
      doubly r c = rw c.is (_, refl, Cleared-Truncated c.left c.cleared)

      singly :
          (r : Option Open)
          → ClearsTo o 12 268 r
          → (x : Open) × (r >>= (λ b.
                (clear_entry free_double (ndirect + 1) b) >>= (λ c. some (iupdate (no_size c))))
              ≡ some x)
            × Truncated size o x
      singly r c = rw c.is (
          doubly _ (
            clear_entry-ClearsTo o free_double 12 268 66061 c.left double-Clears (omega arith)
              c.cleared))

      cleared :
          (r : Option Open)
          → ClearsTo o 11 11 r
          → (x : Open) × (r >>= (λ a. (clear_entry free_index ndirect a) >>= (λ b.
                (clear_entry free_double (ndirect + 1) b) >>= (λ c. some (iupdate (no_size c)))))
              ≡ some x)
            × Truncated size o x
      cleared r c = rw c.is (
          singly _ (
            clear_entry-ClearsTo o free_index 11 11 268 c.left single-Clears (omega arith)
              c.cleared))
