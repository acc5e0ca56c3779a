-- ===== src/Sysfile/Create/Balance.antt =====
-- `create` and the calls around it (Lab-5 Task 5.2, kernel/sysfile.c) give back what they take.
use cs344_os_lab.Base.{
  ℕ, ◌+◌, refl, Bool, true, false, not, Option, none, some, List, [], ◌∷◌, arith,
}
use cs344_os_lab.Base.Tests.{◌==◌, if◌then◌else◌}
use cs344_os_lab.Base.Lists.{length}
use cs344_os_lab.Base.Int.{ℤ, pos, minus_one, eq_int, is_neg}
use cs344_os_lab.Base.Partial.{On, returns, bind-On, if-On}
use cs344_os_lab.Fs.Dirs.{t_dir, string}
use cs344_os_lab.Sysfile.Calls.{
  FileSystem, Accounts, Sum, Effect, nil, entry, of_pair, iunlockput, end_op-Effect,
}
use cs344_os_lab.Sysfile.Settled.{
  Gains, Settled, holding, ended, put_back, locked, counted, began, unlocked, swap_refs, swap_locks,
  Looked, looked, same,
}
use cs344_os_lab.Sysfile.Create.{
  t_device, t_symlink, create_fail, create_found, create_link, create_dots, create_new, create_name,
  create_in, create, made, sys_mkdir, sys_mknod, symlink_to, sys_symlink, chdir_to, sys_chdir,
}

module _ {S : Type 0} (fs : FileSystem S) (laws : Accounts fs) where
  -- The inode that `create` returns has a reference more, and its lock is held.
  abbrev pub Created : Sum → Option ℕ × S → Type 0
  Created a (none, s) = Gains fs laws a (holding fs laws [] []) s
  Created a (some ip, s) = Gains fs laws a (holding fs laws (ip ∷ []) (ip ∷ [])) s

  module _ (a : Sum) where
    abbrev Has : List ℕ → List ℕ → S → Type 0
    Has rs ls = Gains fs laws a (holding fs laws rs ls)

    -- The new inode and its directory, both locked.
    abbrev Both : ℕ → ℕ → S → Type 0
    Both i k = Has (i ∷ k ∷ []) (i ∷ k ∷ [])

    turned : (i k : ℕ) (s : S) → Both i k s → Both k i s
    turned i k s h =
        swap_refs fs laws a i k (k ∷ i ∷ []) s (swap_locks fs laws a (i ∷ k ∷ []) i k s h)

    abbrev Made : Option (Option ℕ × S) → Type 0
    Made = On (Created a)

    abbrev Done : Option (ℤ × S) → Type 0
    Done = On (Settled fs laws a)

    create_fail-Created : (dp ip : ℕ) (s : S) → Both ip dp s → Made (create_fail fs dp ip s)
    unfolding create_fail
    create_fail-Created dp ip s h =
        bind-On (iunlockput fs ip _) _
          (put_back fs laws a ip (dp ∷ []) (dp ∷ []) _
            (counted fs laws a ip 0 (ip ∷ dp ∷ []) (ip ∷ dp ∷ []) s h))
          (λ t g.
            bind-On (iunlockput fs dp t) _ (put_back fs laws a dp [] [] t g)
              (λ u k. returns (none, u) k))

    create_found-Created :
        (type dp ip : ℕ) (s : S)
        → Has (ip ∷ dp ∷ []) (dp ∷ []) s
        → Made (create_found fs type dp ip s)
    unfolding create_found
    create_found-Created type dp ip s h =
        bind-On (iunlockput fs dp s) _
          (put_back fs laws a dp (ip ∷ []) [] s (swap_refs fs laws a ip dp (dp ∷ []) s h))
          (λ t g. bind-On (fs.ilock ip t) _ (locked fs laws a ip (ip ∷ []) [] t g) (λ u k.
            if-On _ _ _ (returns (some ip, u) k) (
              bind-On (iunlockput fs ip u) _ (put_back fs laws a ip [] [] u k)
                (λ v q. returns (none, v) q))))

    create_link-Created :
        (type : ℕ) (name : List ℕ) (dp ip : ℕ) (s : S)
        → Both ip dp s
        → Made (create_link fs type name dp ip s)
    unfolding create_link
    create_link-Created type name dp ip s h =
        bind-On (fs.dirlink dp name (fs.ip s ip).inum s) _
          (laws.dirlink dp name (fs.ip s ip).inum s)
          (λ w e.
            if-On (is_neg w.0) _ _
              (create_fail-Created dp ip w.1
                (same fs laws a (ip ∷ dp ∷ []) (ip ∷ dp ∷ []) s w.1 h e))
              (bind-On (iunlockput fs dp _) _
                (put_back fs laws a dp (ip ∷ []) (ip ∷ []) _ (
                  maybe (type == t_dir) w.1 _
                    (turned ip dp w.1 (same fs laws a (ip ∷ dp ∷ []) (ip ∷ dp ∷ []) s w.1 h e))))
                (λ t g. returns (some ip, t) g)))
      where
        maybe :
            (c : Bool) (t : S) (k : ℕ)
            → Both dp ip t
            → Both dp ip (if c then fs.iupdate dp (fs.set_nlink dp k t) else t)
        maybe true t k g = counted fs laws a dp _ (dp ∷ ip ∷ []) (dp ∷ ip ∷ []) t g
        maybe false t k g = g

    create_dots-Created :
        (name : List ℕ) (dp ip : ℕ) (s : S) → Both ip dp s → Made (create_dots fs name dp ip s)
    unfolding create_dots
    create_dots-Created name dp ip s h =
        bind-On (fs.dirlink ip (46 ∷ []) (fs.ip s ip).inum s) _
          (laws.dirlink ip (46 ∷ []) (fs.ip s ip).inum s)
          (λ w e.
            let g = same fs laws a (ip ∷ dp ∷ []) (ip ∷ dp ∷ []) s w.1 h e in
            if-On (is_neg w.0) _ _ (create_fail-Created dp ip w.1 g) (
              bind-On (fs.dirlink ip (46 ∷ 46 ∷ []) (fs.ip w.1 dp).inum w.1) _
                (laws.dirlink ip (46 ∷ 46 ∷ []) (fs.ip w.1 dp).inum w.1)
                (λ v f.
                  let k = same fs laws a (ip ∷ dp ∷ []) (ip ∷ dp ∷ []) w.1 v.1 g f in
                  if-On (is_neg v.0) _ _ (create_fail-Created dp ip v.1 k)
                    (create_link-Created t_dir name dp ip v.1 k))))

    create_new-Created :
        (type major minor : ℕ) (name : List ℕ) (dp : ℕ) (r : Option ℕ) (s : S)
        → Looked fs laws a entry (dp ∷ []) (dp ∷ []) (r, s)
        → Made (create_new fs type major minor name dp r s)
    unfolding create_new
    create_new-Created type major minor name dp none s h =
        bind-On (iunlockput fs dp s) _ (put_back fs laws a dp [] [] s h)
          (λ t g. returns (none, t) g)
    create_new-Created type major minor name dp (some ip) s h =
        bind-On (fs.ilock ip s) _ (locked fs laws a ip (ip ∷ dp ∷ []) (dp ∷ []) s h) (λ t g.
          let k = counted fs laws a ip 1 (ip ∷ dp ∷ []) (ip ∷ dp ∷ []) _ (
            same fs laws a (ip ∷ dp ∷ []) (ip ∷ dp ∷ []) t _ g
              (laws.set_device ip major minor t)) in
          if-On (type == t_dir) _ _ (create_dots-Created name dp ip _ k)
            (create_link-Created type name dp ip _ k))

    create_name-Created :
        (type major minor : ℕ) (name : List ℕ) (dp : ℕ) (r : Option (ℕ × ℕ)) (s : S)
        → Looked fs laws a of_pair (dp ∷ []) (dp ∷ []) (r, s)
        → Made (create_name fs type major minor name dp r s)
    unfolding create_name
    create_name-Created type major minor name dp (some e) s h = create_found-Created type dp e.0 s h
    create_name-Created type major minor name dp none s h =
        bind-On (fs.ialloc (fs.ip s dp).dev type s) _
          (looked fs laws a entry (dp ∷ []) (dp ∷ []) s _ h (laws.ialloc (fs.ip s dp).dev type s))
          (λ r g. create_new-Created type major minor name dp r.0 r.1 g)

    create_in-Created :
        (type major minor : ℕ) (r : Option (ℕ × List ℕ)) (s : S)
        → Looked fs laws a of_pair [] [] (r, s)
        → Made (create_in fs type major minor r s)
    unfolding create_in
    create_in-Created type major minor none s h = returns (none, s) h
    create_in-Created type major minor (some p) s h =
        bind-On (fs.ilock p.0 s) _ (locked fs laws a p.0 (p.0 ∷ []) [] s h) (λ t g.
          bind-On (fs.dirlookup p.0 p.1 t) _
            (looked fs laws a of_pair (p.0 ∷ []) (p.0 ∷ []) t _ g (laws.dirlookup p.0 p.1 t))
            (λ r k. create_name-Created type major minor p.1 p.0 r.0 r.1 k))

    -- Over a file system whose calls keep the counts of `Accounts`, `create`, in a transaction and
    -- whenever it returns, returns an inode that has one reference more than before and whose lock it
    -- has taken, or none; every other inode, and every inode when there is none, has the references
    -- and the lock it had. It leaves the transaction and the references of the files alone. That holds
    -- on every branch: for a name that exists, a full disk, and a link that fails half way.
    pub create-Created :
        (cwd : ℕ) (path : List ℕ) (type major minor : ℕ) (s : S)
        → Has [] [] s
        → Made (create fs cwd path type major minor s)
    unfolding create
    create-Created cwd path type major minor s h =
        bind-On (fs.nameiparent cwd path s) _
          (looked fs laws a of_pair [] [] s _ h (laws.nameiparent cwd path s))
          (λ r g. create_in-Created type major minor r.0 r.1 g)

    made-Settled : (r : Option ℕ) (s : S) → Created a (r, s) → Done (made fs r s)
    unfolding made
    made-Settled none s h = ended fs laws a minus_one s h
    made-Settled (some ip) s h =
        bind-On (iunlockput fs ip s) _ (put_back fs laws a ip [] [] s h)
          (λ t g. ended fs laws a (pos 0) t g)

    symlink_to-Settled :
        (target : List ℕ) (r : Option ℕ) (s : S)
        → Created a (r, s)
        → Done (symlink_to fs target r s)
    unfolding symlink_to
    symlink_to-Settled target none s h = ended fs laws a minus_one s h
    symlink_to-Settled target (some ip) s h =
        bind-On (fs.writei ip (string target) 0 (length target + 1) s) _
          (laws.writei ip (string target) 0 (length target + 1) s)
          (λ w e.
            let g = same fs laws a (ip ∷ []) (ip ∷ []) s w.1 h e in
            if-On (not (eq_int w.0 (pos (length target + 1)))) _ _
              (bind-On (iunlockput fs ip _) _
                (put_back fs laws a ip [] [] _ (counted fs laws a ip 0 (ip ∷ []) (ip ∷ []) w.1 g))
                (λ t k. ended fs laws a minus_one t k))
              (bind-On (iunlockput fs ip w.1) _ (put_back fs laws a ip [] [] w.1 g)
                (λ t k. ended fs laws a (pos 0) t k)))

    -- The reference of the old current directory is given up, that of the new one is taken.
    abbrev Moves : ℕ → ℤ × ℕ × S → Type 0
    Moves cwd x =
        Effect a (laws.sum x.2) (record nil { refs = cwd ∷ [] }) (record nil { refs = x.1 ∷ [] })

    stays : (cwd : ℕ) (s : S) → Has [] [] s → Moves cwd (minus_one, cwd, fs.end_op s)
    stays cwd s h =
        let e = end_op-Effect fs laws a s [] [] h in
        record {
          by_refs = λ j. omega (arith, e.by_refs j);
          by_locks = e.by_locks;
          by_ops = e.by_ops;
          by_files = e.by_files;
        }

    moves :
        (cwd ip : ℕ) (s t : S)
        → Has (ip ∷ []) [] s
        → Effect (laws.sum s) (laws.sum t) (record nil { refs = cwd ∷ [] }) nil
        → Moves cwd (pos 0, ip, fs.end_op t)
    moves cwd ip s t h e =
        let f = laws.end_op t (omega (arith, h.by_ops, e.by_ops)) in
        record {
          by_refs = λ j. omega (arith, h.by_refs j, e.by_refs j, f.by_refs j);
          by_locks = λ j. omega (arith, h.by_locks j, e.by_locks j, f.by_locks j);
          by_ops = omega (arith, h.by_ops, e.by_ops, f.by_ops);
          by_files = λ j. omega (arith, h.by_files j, e.by_files j, f.by_files j);
        }

    chdir_to-Moves :
        (cwd : ℕ) (r : Option ℕ) (s : S)
        → Looked fs laws a entry [] [] (r, s)
        → On (Moves cwd) (chdir_to fs cwd r s)
    unfolding chdir_to
    chdir_to-Moves cwd none s h = returns _ (stays cwd s h)
    chdir_to-Moves cwd (some ip) s h =
        bind-On (fs.ilock ip s) _ (locked fs laws a ip (ip ∷ []) [] s h) (λ t g.
          if-On (not ((fs.ip t ip).type == t_dir)) _ _
            (bind-On (iunlockput fs ip t) _ (put_back fs laws a ip [] [] t g)
              (λ u k. returns _ (stays cwd u k)))
            (bind-On (fs.iunlock ip t) _ (unlocked fs laws a ip (ip ∷ []) [] t g) (λ u k.
              bind-On (fs.iput cwd u) _ (laws.iput cwd u)
                (λ v q. returns _ (moves cwd ip u v k q)))))

  unchanged : (s : S) → Settled fs laws (laws.sum s) (minus_one, s)
  unchanged s = record {
    by_refs = λ j. refl;
    by_locks = λ j. refl;
    by_ops = refl;
    by_files = λ j. refl;
  }

  -- Over a file system whose calls keep the counts of `Accounts`, every branch of `sys_symlink` that
  -- returns has given back what it took: the references and the lock of every inode, the transactions
  -- and the references of every file are as before.
  pub sys_symlink-Settled :
      (cwd : ℕ) (target path : Option (List ℕ)) (s : S)
      → On (Settled fs laws (laws.sum s)) (sys_symlink fs cwd target path s)
  unfolding sys_symlink
  sys_symlink-Settled cwd none path s = returns (minus_one, s) (unchanged s)
  sys_symlink-Settled cwd (some target) none s = returns (minus_one, s) (unchanged s)
  sys_symlink-Settled cwd (some target) (some path) s =
      bind-On (fs.begin_op s) _ (began fs laws (laws.sum s) s refl) (λ t h.
        bind-On (create fs cwd path t_symlink 0 0 t) _
          (create-Created (laws.sum s) cwd path t_symlink 0 0 t h)
          (λ r k. symlink_to-Settled (laws.sum s) target r.0 r.1 k))

  sys_mkdir-Settled :
      (cwd : ℕ) (path : Option (List ℕ)) (s : S)
      → On (Settled fs laws (laws.sum s)) (sys_mkdir fs cwd path s)
  unfolding sys_mkdir
  sys_mkdir-Settled cwd none s =
      bind-On (fs.begin_op s) _ (began fs laws (laws.sum s) s refl)
        (λ t h. ended fs laws (laws.sum s) minus_one t h)
  sys_mkdir-Settled cwd (some path) s =
      bind-On (fs.begin_op s) _ (began fs laws (laws.sum s) s refl) (λ t h.
        bind-On (create fs cwd path t_dir 0 0 t) _
          (create-Created (laws.sum s) cwd path t_dir 0 0 t h)
          (λ r k. made-Settled (laws.sum s) r.0 r.1 k))

  sys_mknod-Settled :
      (cwd : ℕ) (path : Option (List ℕ)) (major minor : ℕ) (s : S)
      → On (Settled fs laws (laws.sum s)) (sys_mknod fs cwd path major minor s)
  unfolding sys_mknod
  sys_mknod-Settled cwd none major minor s =
      bind-On (fs.begin_op s) _ (began fs laws (laws.sum s) s refl)
        (λ t h. ended fs laws (laws.sum s) minus_one t h)
  sys_mknod-Settled cwd (some path) major minor s =
      bind-On (fs.begin_op s) _ (began fs laws (laws.sum s) s refl) (λ t h.
        bind-On (create fs cwd path t_device major minor t) _
          (create-Created (laws.sum s) cwd path t_device major minor t h)
          (λ r k. made-Settled (laws.sum s) r.0 r.1 k))

  sys_chdir-Moves :
      (cwd : ℕ) (path : Option (List ℕ)) (s : S)
      → On (Moves (laws.sum s) cwd) (sys_chdir fs cwd path s)
  unfolding sys_chdir
  sys_chdir-Moves cwd none s =
      bind-On (fs.begin_op s) _ (began fs laws (laws.sum s) s refl)
        (λ t h. returns _ (stays (laws.sum s) cwd t h))
  sys_chdir-Moves cwd (some path) s =
      bind-On (fs.begin_op s) _ (began fs laws (laws.sum s) s refl) (λ t h.
        bind-On (fs.namei cwd path t) _
          (looked fs laws (laws.sum s) entry [] [] t _ h (laws.namei cwd path t))
          (λ r k. chdir_to-Moves (laws.sum s) cwd r.0 r.1 k))
