-- ===== src/Sysfile/OverFs/Laws.antt =====
-- The file system of Lab-5 Task 5.1, kernel/fs.c, accounts for what the system calls of Task 5.2,
-- kernel/sysfile.c, hold.
use cs344_os_lab.Base.{
  ℕ, ◌+◌, ◌-◌, ◌<◌, ◌≡◌, refl, sym, ap, subst, Bool, true, false, Option, none, some, List, [], ◌∷◌,
  arith, inl, inr,
}
use mathlib.Core.Bool.{true≢false}
use mathlib.Core.Option.{some-injective}
use native.Mathlib.Decide.{dec_le}
use cs344_os_lab.Base.Tests.{ltb, ltb→lt, ◌==◌, ==→eq, Bool-cases}
use cs344_os_lab.Base.Bags.{at, maybe}
use cs344_os_lab.Base.Search.{first, IsFirst, first-IsFirst}
use cs344_os_lab.Base.Partial.{On, stops, returns, bind-On, any-On}
use cs344_os_lab.Base.Lists.{length, get_or, set, get_or-set, get_or-set_self, get_or-past}
use cs344_os_lab.Fs.{Inode, Open}
use cs344_os_lab.Fs.Blocks.{upd_same}
use cs344_os_lab.Fs.Io.{iupdate, readi, writei}
use cs344_os_lab.Fs.Trunc.{itrunc}
use cs344_os_lab.Fs.Itable.{inode, ialloc}
use cs344_os_lab.Fs.Inodes.{Fsys, open_at, back, ilock, iunlock, iput}
use cs344_os_lab.Fs.Dirs.{kernel_copy, no_bytes, dirlookup, dirlink}
use cs344_os_lab.Fs.Names.{Outcome, namex}
use cs344_os_lab.Fs.Accounts.{one_if, ref_at, Shift}
use cs344_os_lab.Fs.Accounts.Refs.{readi-On}
use cs344_os_lab.Fs.Accounts.Writes.{writei-On}
use cs344_os_lab.Fs.Accounts.Entries.{itrunc-On}
use cs344_os_lab.Fs.Accounts.Inodes.{set-Shift, ilock-Shift, iunlock-Shift, iput-Shift}
use cs344_os_lab.Fs.Accounts.Directories.{
  entry_of, back-Shift, dirlookup-Shift, dirlink-Shift, ialloc-Shift,
}
use cs344_os_lab.Fs.Accounts.Names.{Balances, stopped, stuck, gave, namex-Balances}
use cs344_os_lab.Sysfile.Calls.{Accounts, Sum, nil, found, entry, of_pair, Effect}
use cs344_os_lab.Sysfile.OverFs.{
  Kernel, is_free, with, on_fsys, walked, walk, named, change_ip, new_file, over_fs,
}

abbrev counts : Kernel → Sum
counts k = record {
  refs = λ j. ref_at k.fsys.table j;
  locks = λ j. one_if (k.fsys.locked j);
  ops = k.ops;
  files = λ g. get_or k.files g 0;
}

-- A free file is taken, and a file is given up.
taken :
    (xs : List ℕ) (f g : ℕ)
    → f < length xs
    → get_or xs f 0 ≡ 0
    → get_or (set xs f 1) g 0 ≡ get_or xs g 0 + at f g
unfolding at
taken xs f g l z = elim (Bool-cases (f == g)) [
  | inl e ↦
      rw (get_or-set xs f g 1 0 l, e)
        (omega (arith, ap (λ k. get_or xs k 0) (sym (==→eq f g e)), z))
  | inr e ↦ rw (get_or-set xs f g 1 0 l, e) (omega arith)
]

given_up :
    (xs : List ℕ) (f g : ℕ)
    → 0 < get_or xs f 0
    → get_or (set xs f (get_or xs f 0 - 1)) g 0 + at f g ≡ get_or xs g 0
unfolding at
given_up xs f g h = elim (Bool-cases (f == g)) [
  | inl e ↦
      rw (get_or-set xs f g (get_or xs f 0 - 1) 0 within, e)
        (omega (arith, ap (λ k. get_or xs k 0) (==→eq f g e), h))
  | inr e ↦ rw (get_or-set xs f g (get_or xs f 0 - 1) 0 within, e) (omega arith)
]
  where
    within : f < length xs
    within = elim (dec_le (length xs) f) [
      | yes l ↦ absurd (omega (arith, get_or-past xs f 0 l, h))
      | no ¬l ↦ omega arith
    ]

shift-Effect :
    (k : Kernel) (lost won off on : List ℕ) (f : Fsys)
    → Shift k.fsys lost won off on f
    → Effect
        (counts k)
        (counts (with k f))
        (record nil { refs = lost; locks = off })
        (record nil { refs = won; locks = on })
shift-Effect k lost won off on f h = record {
  by_refs = h.by_refs;
  by_locks = h.by_locks;
  by_ops = refl;
  by_files = λ g. refl;
}

fsys-Effect :
    (k : Kernel) (lost off on : List ℕ) (r : Option Fsys)
    → On (Shift k.fsys lost [] off on) r
    → On
        (λ t.
          Effect
            (counts k)
            (counts t)
            (record nil { refs = lost; locks = off })
            (record nil { locks = on }))
        (on_fsys k r)
fsys-Effect k lost off on r h = bind-On r _ h (λ f s. returns _ (shift-Effect k lost [] off on f s))

found-Effect :
    (k : Kernel) (q : Option ℕ) (f : Fsys)
    → Shift k.fsys [] (maybe q) [] [] f
    → Effect (counts k) (counts (with k f)) nil (found entry q)
found-Effect k none f h = shift-Effect k [] [] [] [] f h
found-Effect k (some a) f h = shift-Effect k [] (a ∷ []) [] [] f h

entry-Effect :
    (k : Kernel) (q : Option (ℕ × ℕ)) (f : Fsys)
    → Shift k.fsys [] (entry_of q) [] [] f
    → Effect (counts k) (counts (with k f)) nil (found of_pair q)
entry-Effect k none f h = shift-Effect k [] [] [] [] f h
entry-Effect k (some a) f h = shift-Effect k [] (a.0 ∷ []) [] [] f h

opened-Effect :
    (k : Kernel) (i : ℕ) (o : Open)
    → o.ip.ref ≡ (inode k.fsys.table i).ref
    → Effect (counts k) (counts (with k (back i k.fsys o))) nil nil
opened-Effect k i o h = shift-Effect k [] [] [] [] (back i k.fsys o) (back-Shift i k.fsys o h)

changed-Effect :
    (k : Kernel) (i : ℕ) (f : Inode → Inode)
    → (f (inode k.fsys.table i)).ref ≡ (inode k.fsys.table i).ref
    → Effect (counts k) (counts (change_ip i f k)) nil nil
changed-Effect k i f h =
    shift-Effect k [] [] [] [] (change_ip i f k).fsys
      (set-Shift k.fsys i (f (inode k.fsys.table i)) k.fsys.disk h)

walked-Effect :
    (k : Kernel) (r : Outcome)
    → Balances k.fsys [] r
    → On (λ x. Effect (counts k) (counts x.2) nil (found entry x.0)) (walked k r)
walked-Effect k _ stopped = stops
walked-Effect k _ (stuck i h) = stops
walked-Effect k _ (gave q n g h) = returns _ (found-Effect k q g h)

walk-Effect :
    (size : ℕ) (parent : Bool) (cwd : ℕ) (path : List ℕ) (k : Kernel)
    → On (λ x. Effect (counts k) (counts x.2) nil (found entry x.0)) (walk size parent cwd path k)
walk-Effect size parent cwd path k = elim (Bool-cases (ltb cwd (length k.fsys.table))) [
  | inr e ↦ rw (e) stops
  | inl e ↦ rw (e) (
      walked-Effect k (namex size parent path cwd k.fsys)
        (namex-Balances size parent path cwd k.fsys (ltb→lt _ _ e)))
]

named-Effect :
    (a b : Sum) (q : Option ℕ) (n : List ℕ)
    → Effect a b nil (found entry q)
    → Effect a b nil (found of_pair (named q n))
named-Effect a b none n h = h
named-Effect a b (some i) n h = h

no_file : {i : ℕ} → Path (Option ℕ) none (some i) → ⊥
no_file h = true≢false (ap (λ q. elim q [ none ↦ true | some k ↦ false ]) h)

new_file-Effect :
    (k : Kernel) (r : Option ℕ)
    → ((f : ℕ) → r ≡ some f → IsFirst is_free 0 k.files f)
    → Effect
        (counts k)
        (counts (new_file k r).1)
        nil
        (record nil { files = maybe (new_file k r).0 })
      × ((f : ℕ)
          → (new_file k r).0 ≡ some f
          → ((counts k).files f ≡ 0) × (ltb 0 (get_or (new_file k r).1.files f 0) ≡ true))
new_file-Effect k none n = (
  record { by_refs = λ j. refl; by_locks = λ j. refl; by_ops = refl; by_files = λ g. refl },
  λ f h. absurd (no_file h),
)
new_file-Effect k (some i) n = (
  record {
    by_refs = λ j. refl;
    by_locks = λ j. refl;
    by_ops = refl;
    by_files = λ g. omega (arith, taken k.files i g is.within zero_refs);
  },
  λ f h.
      subst (λ f. (get_or k.files f 0 ≡ 0) × (ltb 0 (get_or (set k.files i 1) f 0) ≡ true))
        (some-injective i f h) (zero_refs, rw (get_or-set_self k.files i 1 0 is.within) refl),
)
  where
    is : IsFirst is_free 0 k.files i
    is = n i refl

    zero_refs : get_or k.files i 0 ≡ 0
    zero_refs = ==→eq (get_or k.files i 0) 0 is.passes

pub over_fs-Accounts : (size ninodes : ℕ) → Accounts (over_fs size ninodes)
unfolding over_fs iupdate
over_fs-Accounts size ninodes = record {
  sum = counts;
  blank = λ k f. ltb 0 (get_or k.files f 0);
  set_nlink = λ i n k. changed-Effect k i (λ ip. record ip { nlink = n }) refl;
  set_device = λ i a b k. changed-Effect k i (λ ip. record ip { major = a; minor = b }) refl;
  begin_op = λ k. returns _ (record {
    by_refs = λ j. refl;
    by_locks = λ j. refl;
    by_ops = omega arith;
    by_files = λ g. refl;
  });
  end_op = λ k l. record {
    by_refs = λ j. refl;
    by_locks = λ j. refl;
    by_ops = omega (arith, l);
    by_files = λ g. refl;
  };
  end_op_file = λ k f. refl;
  namei = λ cwd path k.
      bind-On (walk size false cwd path k) _ (walk-Effect size false cwd path k)
        (λ r h. returns _ h);
  nameiparent = λ cwd path k.
      bind-On (walk size true cwd path k) _ (walk-Effect size true cwd path k)
        (λ r h. returns _ (named-Effect _ _ r.0 r.1 h));
  ilock = λ i k. fsys-Effect k [] [] (i ∷ []) (ilock i k.fsys) (ilock-Shift i k.fsys);
  iunlock = λ i k. fsys-Effect k [] (i ∷ []) [] (iunlock i k.fsys) (iunlock-Shift i k.fsys);
  iunlock_file = λ i k.
      bind-On (iunlock i k.fsys) _ (any-On (iunlock i k.fsys)) (λ f u. returns _ (λ g. refl));
  iput = λ i k. fsys-Effect k (i ∷ []) [] [] (iput i k.fsys) (iput-Shift i k.fsys);
  iupdate = λ i k. opened-Effect k i (iupdate (open_at k.fsys i)) refl;
  itrunc = λ i k.
      bind-On (itrunc (open_at k.fsys i)) _
        (itrunc-On 0 (inode k.fsys.table i).ref (open_at k.fsys i) refl)
        (λ o h. returns _ (opened-Effect k i o h));
  itrunc_file = λ i k.
      bind-On (itrunc (open_at k.fsys i)) _ (any-On (itrunc (open_at k.fsys i)))
        (λ o u. returns _ (λ g. refl));
  ialloc = λ dev type k.
      bind-On (ialloc ninodes dev type k.fsys.disk k.fsys.table) _
        (ialloc-Shift ninodes dev type k.fsys)
        (λ r h. returns _ (found-Effect k r.0 (record (k.fsys) { disk = r.1; table = r.2 }) h));
  dirlookup = λ i name k.
      bind-On (dirlookup size i name k.fsys) _ (dirlookup-Shift size i name k.fsys)
        (λ r h. returns _ (entry-Effect k r.0 r.1 h));
  dirlink = λ i name inum k.
      bind-On (dirlink size i name inum k.fsys) _ (dirlink-Shift size i name inum k.fsys)
        (λ r h. returns _ (shift-Effect k [] [] [] [] r.1 h));
  readi = λ i off n k.
      bind-On (readi size kernel_copy off n no_bytes (open_at k.fsys i)) _
        (readi-On size (inode k.fsys.table i).ref kernel_copy off n no_bytes (open_at k.fsys i)
          refl)
        (λ r h. returns _ (opened-Effect k i r.2 h));
  writei = λ i src off n k.
      bind-On (writei size kernel_copy src off n (open_at k.fsys i)) _
        (writei-On size (inode k.fsys.table i).ref kernel_copy src off n (open_at k.fsys i) refl)
        (λ r h. returns _ (opened-Effect k i r.1 h));
  filealloc = λ k. new_file-Effect k (first is_free k.files) (first-IsFirst is_free 0 k.files);
  fileclose = λ f k l. record {
    by_refs = λ j. refl;
    by_locks = λ j. refl;
    by_ops = refl;
    by_files = λ g. omega (arith, given_up k.files f g (ltb→lt _ _ l));
  };
  set_file = λ f x k. (
    record { by_refs = λ j. refl; by_locks = λ j. refl; by_ops = refl; by_files = λ g. refl },
    upd_same k.contents f (x (k.contents f)),
  );
}
