-- ===== src/Fs/Accounts/Names.antt =====
-- References and locks under `namex` of Lab-5 Task 5.1, kernel/fs.c.
use cs344_os_lab.Base.{
  ℕ, zero, suc, ◌+◌, ◌<◌, refl, Bool, true, false, ◌&&◌, Option, none, some, List, [], ◌∷◌, arith,
  ◌∙◌, ◌≡◌, inl, inr,
}
use cs344_os_lab.Base.Tests.{◌==◌, Bool-cases}
use cs344_os_lab.Base.Bags.{maybe}
use cs344_os_lab.Base.Partial.{On, stops, returns, bind-On, if-On}
use cs344_os_lab.Base.Lists.{length, length-set}
use cs344_os_lab.Fs.Path.{slash, skipelem}
use cs344_os_lab.Fs.Itable.{inode, dup, idup, iget}
use cs344_os_lab.Fs.Inodes.{Fsys, ilock, iunlock, iput, iunlockput}
use cs344_os_lab.Fs.Dirs.{t_dir, dirlookup}
use cs344_os_lab.Fs.Names.{
  Round, goes, Outcome, panics, waits, gives, lock_waits, put_waits, is_nil, descend, name_round,
  finish, namex_loop, first_inode, namex,
}
use cs344_os_lab.Fs.Path.Elements.{Skips, ended, next, skipelem-Skips}
use cs344_os_lab.Fs.Accounts.{Shift, ref_up}
use cs344_os_lab.Fs.Accounts.Inodes.{ilock-Shift, iunlock-Shift, iput-Shift, iunlockput-Shift}
use cs344_os_lab.Fs.Accounts.Directories.{entry_of, iget-OneMore, more-Shift, dirlookup-Shift}

-- After a round the walk has its reference still, or has returned, with it or without.
data AfterRound (f : Fsys) (ip : ℕ) : Round → Type 0 where
  gone : (g : Fsys) → Shift f (ip ∷ []) [] [] [] g → AfterRound f ip (Round.returns none g)
  kept : (g : Fsys) → Shift f [] [] [] [] g → AfterRound f ip (Round.returns (some ip) g)
  on : (e : ℕ) (g : Fsys) → Shift f (ip ∷ []) (e ∷ []) [] [] g → AfterRound f ip (goes e g)

-- A lookup that has the references `lost` of its own comes to an end: a panic, a wait for a lock that was
-- held at the start, or a return with a reference to the entry that it returns, if any.
pub data Balances (f : Fsys) (lost : List ℕ) : Outcome → Type 0 where
  stopped : Balances f lost panics
  stuck : (i : ℕ) → f.locked i ≡ true → Balances f lost (waits i)
  gave :
      (q : Option ℕ) (n : List ℕ) (g : Fsys)
      → Shift f lost (maybe q) [] [] g
      → Balances f lost (gives q n g)

module _ (size : ℕ) (parent : Bool) where
  descend-AfterRound :
      (name : List ℕ) (ip : ℕ) (f g : Fsys)
      → Shift f [] [] [] (ip ∷ []) g
      → On (AfterRound f ip) (descend size parent name ip g)
  unfolding descend
  descend-AfterRound name ip f g h =
      bind-On (dirlookup size ip name g) _ (dirlookup-Shift size ip name g) (λ r q.
        bind-On (iunlockput ip r.1) _ (iunlockput-Shift ip r.1)
          (λ k p. returns _ (ends r.0 r.1 k q p)))
    where
      ends :
          (r : Option (ℕ × ℕ)) (t k : Fsys)
          → Shift g [] (entry_of r) [] [] t
          → Shift t (ip ∷ []) [] (ip ∷ []) [] k
          → AfterRound f ip
              (elim r as (λ _. Round) [ none ↦ Round.returns none k | some e ↦ goes e.0 k ])
      ends none t k q p = gone k (record {
        size = p.size ∙ q.size ∙ h.size;
        by_refs = λ j. omega (arith, h.by_refs j, q.by_refs j, p.by_refs j);
        by_locks = λ j. omega (arith, h.by_locks j, q.by_locks j, p.by_locks j);
      })
      ends (some e) t k q p = on e.0 k (record {
        size = p.size ∙ q.size ∙ h.size;
        by_refs = λ j. omega (arith, h.by_refs j, q.by_refs j, p.by_refs j);
        by_locks = λ j. omega (arith, h.by_locks j, q.by_locks j, p.by_locks j);
      })

  name_round-AfterRound :
      (path name : List ℕ) (ip : ℕ) (f : Fsys)
      → On (AfterRound f ip) (name_round size parent path name ip f)
  unfolding name_round
  name_round-AfterRound path name ip f = bind-On (ilock ip f) _ (ilock-Shift ip f) (λ g h.
      if-On ((inode g.table ip).type == t_dir) _ _
        (if-On (parent && is_nil path) _ _
          (bind-On (iunlock ip g) _ (iunlock-Shift ip g) (λ k q. returns _ (
            kept k (record {
              size = q.size ∙ h.size;
              by_refs = λ j. omega (arith, h.by_refs j, q.by_refs j);
              by_locks = λ j. omega (arith, h.by_locks j, q.by_locks j);
            }))))
          (descend-AfterRound name ip f g h))
        (bind-On (iunlockput ip g) _ (iunlockput-Shift ip g) (λ k q. returns _ (
          gone k (record {
            size = q.size ∙ h.size;
            by_refs = λ j. omega (arith, h.by_refs j, q.by_refs j);
            by_locks = λ j. omega (arith, h.by_locks j, q.by_locks j);
          })))))

-- A part of the walk before the rest of it.
shifted :
    (f g : Fsys) (a b : List ℕ) (o : Outcome)
    → Shift f a b [] [] g
    → Balances g b o
    → Balances f a o
shifted f g a b _ h stopped = stopped
shifted f g a b _ h (stuck i u) = stuck i (ground (arith, h.by_locks i, u))
shifted f g a b _ h (gave q n k s) = gave q n k (record {
  size = s.size ∙ h.size;
  by_refs = λ j. omega (arith, h.by_refs j, s.by_refs j);
  by_locks = λ j. omega (arith, h.by_locks j, s.by_locks j);
})

round-Balances :
    (f : Fsys) (ip : ℕ) (n : List ℕ) (onward : ℕ → Fsys → Outcome) (r : Option Round)
    → On (AfterRound f ip) r
    → ((e : ℕ) (g : Fsys) → Balances g (e ∷ []) (onward e g))
    → Balances f (ip ∷ []) (elim r as (λ _. Outcome) [
      | none ↦ panics
      | some x ↦ elim x as (λ _. Outcome) [
        | Round.returns q g ↦ gives q n g
        | goes e g ↦ onward e g
      ]
    ])
round-Balances f ip n onward _ stops k = stopped
round-Balances f ip n onward _ (returns _ (gone g h)) k = gave none n g h
round-Balances f ip n onward _ (returns _ (kept g h)) k =
    gave (some ip) n g
      (record { size = h.size; by_refs = λ j. omega (arith, h.by_refs j); by_locks = h.by_locks })
round-Balances f ip n onward _ (returns _ (on e g h)) k =
    shifted f g (ip ∷ []) (e ∷ []) (onward e g) h (k e g)

finish-Balances :
    (parent : Bool) (name : List ℕ) (ip : ℕ) (f : Fsys)
    → Balances f (ip ∷ []) (finish parent name ip f)
unfolding finish
finish-Balances false name ip f =
    gave (some ip) name f (record { size = refl; by_refs = λ j. refl; by_locks = λ j. refl })
finish-Balances true name ip f = elim (Bool-cases (put_waits ip f)) [
  | inl e ↦ rw (finish, e) (stuck ip (ground (arith, e)))
  | inr e ↦ rw (finish, e) (of (iput ip f) (iput-Shift ip f))
]
  where
    of :
        (r : Option Fsys)
        → On (Shift f (ip ∷ []) [] [] []) r
        → Balances f
            (ip ∷ [])
            (elim r as (λ _. Outcome) [ none ↦ panics | some g ↦ gives none name g ])
    of _ stops = stopped
    of _ (returns g h) = gave none name g h

module _ (size : ℕ) (parent : Bool) where
  -- What a round does, when the lock is there or not.
  abbrev round_of : ℕ → List ℕ → List ℕ → ℕ → Fsys → Bool → Outcome
  round_of fuel rest n ip f b = elim b [
    | true ↦ waits ip
    | false ↦ elim (name_round size parent rest n ip f) [
      | none ↦ panics
      | some r ↦ elim r [
        | Round.returns q g ↦ gives q n g
        | goes to g ↦ namex_loop size parent fuel rest n to g
      ]
    ]
  ]

  loop-Balances :
      (fuel : ℕ) (path name : List ℕ) (ip : ℕ) (f : Fsys)
      → length path < fuel
      → Balances f (ip ∷ []) (namex_loop size parent fuel path name ip f)
  unfolding namex_loop
  loop-Balances zero path name ip f l = absurd (omega arith)
  loop-Balances (suc fuel) path name ip f l =
      of (skipelem path) (skipelem-Skips path) (λ rest n e g. loop-Balances fuel rest n e g)
    where
      round :
          (rest n : List ℕ) (b : Bool)
          → lock_waits ip f ≡ b
          → ((e : ℕ) (g : Fsys) → Balances g (e ∷ []) (namex_loop size parent fuel rest n e g))
          → Balances f (ip ∷ []) (round_of fuel rest n ip f b)
      round rest n true e k = stuck ip (ground (arith, e))
      round rest n false e k =
          round-Balances f ip n (λ to g. namex_loop size parent fuel rest n to g)
            (name_round size parent rest n ip f) (name_round-AfterRound size parent rest n ip f) k

      of :
          (x : Option (List ℕ × List ℕ))
          → Skips path x
          → ((rest n : List ℕ) (e : ℕ) (g : Fsys)
              → length rest < fuel
              → Balances g (e ∷ []) (namex_loop size parent fuel rest n e g))
          → Balances f (ip ∷ []) (elim x as (λ _. Outcome) [
            | none ↦ finish parent name ip f
            | some e ↦ round_of fuel e.0 e.1 ip f (lock_waits ip f)
          ])
      of _ (ended e) k = finish-Balances parent name ip f
      of _ (next e rest p u q) k =
          round rest _ (lock_waits ip f) refl (λ to g. k rest _ to g (omega (arith, u)))

  dup-Shift :
      (cwd : ℕ) (f : Fsys)
      → cwd < length f.table
      → Shift f [] (cwd ∷ []) [] [] (record f { table = idup f.table cwd })
  unfolding idup
  dup-Shift cwd f l = record {
    size = length-set f.table cwd (dup (inode f.table cwd));
    by_refs = λ j. omega (arith, ref_up f.table cwd j (dup (inode f.table cwd)) l refl);
    by_locks = λ j. refl;
  }

  first_inode-Shift :
      (path : List ℕ) (cwd : ℕ) (f : Fsys)
      → cwd < length f.table
      → On (λ x. Shift f [] (x.0 ∷ []) [] [] x.1) (first_inode path cwd f)
  unfolding first_inode
  first_inode-Shift [] cwd f l = returns _ (dup-Shift cwd f l)
  first_inode-Shift (c ∷ path) cwd f l =
      if-On (c == slash) _ _
        (bind-On (iget f.table 1 1) _ (iget-OneMore f.table 1 1)
          (λ g m. returns _ (more-Shift f g m)))
        (returns _ (dup-Shift cwd f l))

  -- From any state of the file system, with a current directory that is an entry of the table, `namex` comes
  -- to an end for every path: it returns, panics, or waits for the lock of an entry that was held
  -- when it started, so never for one that it has taken itself. When it returns an inode, that entry
  -- has one reference more than before and every other as many as before; when it returns none, every
  -- entry has as many as before. In both cases the same locks are held as before.
  pub namex-Balances :
      (path : List ℕ) (cwd : ℕ) (f : Fsys)
      → cwd < length f.table
      → Balances f [] (namex size parent path cwd f)
  unfolding namex
  namex-Balances path cwd f l = of (first_inode path cwd f) (first_inode-Shift path cwd f l)
    where
      of :
          (x : Option (ℕ × Fsys))
          → On (λ s. Shift f [] (s.0 ∷ []) [] [] s.1) x
          → Balances f [] (elim x as (λ _. Outcome) [
            | none ↦ panics
            | some s ↦ namex_loop size parent (length path + 1) path [] s.0 s.1
          ])
      of _ stops = stopped
      of _ (returns s h) =
          shifted f s.1 [] (s.0 ∷ []) _ h
            (loop-Balances (length path + 1) path [] s.0 s.1 (omega arith))
