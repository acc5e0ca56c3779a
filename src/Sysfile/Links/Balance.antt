-- ===== src/Sysfile/Links/Balance.antt =====
-- `sys_link` and `sys_unlink` of Lab-5 Task 5.2, kernel/sysfile.c, give back what they take.
use cs344_os_lab.Base.{
  ℕ, zero, suc, ◌+◌, refl, Bool, true, false, not, Option, none, some, List, [], ◌∷◌,
}
use cs344_os_lab.Base.Tests.{ltb, ◌==◌, if◌then◌else◌}
use cs344_os_lab.Base.Int.{ℤ, pos, minus_one, eq_int, is_neg}
use cs344_os_lab.Base.Partial.{◌>>=◌, On, stops, returns, bind-On, if-On}
use cs344_os_lab.Fs.Dirs.{t_dir, dirent_size, inum_at}
use cs344_os_lab.Sysfile.Calls.{FileSystem, Accounts, Sum, entry, of_pair, iunlockput}
use cs344_os_lab.Sysfile.Settled.{
  Gains, Settled, holding, ended, put_back, locked, counted, began, unlocked, put, swap_refs,
  swap_locks, Looked, looked, same,
}
use cs344_os_lab.Sysfile.Links.{
  count_up, count_down, link_bad, link_new, link_old, sys_link, all_unused, isdirempty, unlink_bad,
  erase, unlink_entry, unlink_in, sys_unlink, is_dots,
}

module _ {S : Type 0} (fs : FileSystem S) (laws : Accounts fs) where
  module _ (a : Sum) where
    abbrev Has : List ℕ → List ℕ → S → Type 0
    Has rs ls = Gains fs laws a (holding fs laws rs ls)

    abbrev Done : Option (ℤ × S) → Type 0
    Done = On (Settled fs laws a)

    link_bad-Settled : (ip : ℕ) (s : S) → Has (ip ∷ []) [] s → Done (link_bad fs ip s)
    unfolding link_bad
    link_bad-Settled ip s h =
        bind-On (fs.ilock ip s) _ (locked fs laws a ip (ip ∷ []) [] s h) (λ t g.
          bind-On (iunlockput fs ip (count_down fs ip t)) _
            (put_back fs laws a ip [] [] _ (counted fs laws a ip _ (ip ∷ []) (ip ∷ []) t g))
            (λ u k. ended fs laws a minus_one u k))

    link_new-Settled :
        (ip : ℕ) (r : Option (ℕ × List ℕ)) (s : S)
        → Looked fs laws a of_pair (ip ∷ []) [] (r, s)
        → Done (link_new fs ip r s)
    unfolding link_new
    link_new-Settled ip none s h = link_bad-Settled ip s h
    link_new-Settled ip (some p) s h =
        bind-On (fs.ilock p.0 s) _ (locked fs laws a p.0 (p.0 ∷ ip ∷ []) [] s h) (λ t g.
          if-On (not ((fs.ip t p.0).dev == (fs.ip t ip).dev)) _ _
            (bind-On (iunlockput fs p.0 t) _ (put_back fs laws a p.0 (ip ∷ []) [] t g)
              (λ u k. link_bad-Settled ip u k))
            (bind-On (fs.dirlink p.0 p.1 (fs.ip t ip).inum t) _
              (laws.dirlink p.0 p.1 (fs.ip t ip).inum t)
              (λ w e.
                bind-On (iunlockput fs p.0 w.1) _
                  (put_back fs laws a p.0 (ip ∷ []) [] w.1
                    (same fs laws a (p.0 ∷ ip ∷ []) (p.0 ∷ []) t w.1 g e))
                  (λ u k. if-On (is_neg w.0) _ _ (link_bad-Settled ip u k) (
                    bind-On (fs.iput ip u) _ (put fs laws a ip [] [] u k)
                      (λ v q. ended fs laws a (pos 0) v q))))))

    link_old-Settled :
        (cwd : ℕ) (r : Option ℕ) (new : List ℕ) (s : S)
        → Looked fs laws a entry [] [] (r, s)
        → Done (link_old fs cwd r new s)
    unfolding link_old
    link_old-Settled cwd none new s h = ended fs laws a minus_one s h
    link_old-Settled cwd (some ip) new s h =
        bind-On (fs.ilock ip s) _ (locked fs laws a ip (ip ∷ []) [] s h) (λ t g.
          if-On ((fs.ip t ip).type == t_dir) _ _
            (bind-On (iunlockput fs ip t) _ (put_back fs laws a ip [] [] t g)
              (λ u k. ended fs laws a minus_one u k))
            (bind-On (fs.iunlock ip (count_up fs ip t)) _
              (unlocked fs laws a ip (ip ∷ []) [] _
                (counted fs laws a ip _ (ip ∷ []) (ip ∷ []) t g))
              (λ u k.
                bind-On (fs.nameiparent cwd new u) _
                  (looked fs laws a of_pair (ip ∷ []) [] u _ k (laws.nameiparent cwd new u))
                  (λ r q. link_new-Settled ip r.0 r.1 q))))

    -- The loop only reads.
    all_unused-Has :
        (fuel dp off : ℕ) (rs ls : List ℕ) (s : S)
        → Has rs ls s
        → On (λ x. Has rs ls x.1) (all_unused fs fuel dp off s)
    unfolding all_unused
    all_unused-Has zero dp off rs ls s h = returns (true, s) h
    all_unused-Has (suc fuel) dp off rs ls s h =
        tested (ltb off (fs.ip s dp).size)
          (λ t g. all_unused-Has fuel dp (off + dirent_size) rs ls t g)
      where
        tested :
            (c : Bool)
            → ((t : S)
                → Has rs ls t
                → On (λ x. Has rs ls x.1) (all_unused fs fuel dp (off + dirent_size) t))
            → On
                (λ x. Has rs ls x.1)
                (elim c as (λ _. Option (Bool × S)) [
                  | false ↦ some (true, s)
                  | true ↦
                      (fs.readi dp off dirent_size s >>= (λ r.
                        if not (eq_int r.0 (pos dirent_size))
                        then none
                        else if not (inum_at r.1 0 == 0)
                        then some (false, r.2)
                        else all_unused fs fuel dp (off + dirent_size) r.2))
                ])
        tested false k = returns (true, s) h
        tested true k =
            bind-On (fs.readi dp off dirent_size s) _ (laws.readi dp off dirent_size s) (λ r e.
              if-On (not (eq_int r.0 (pos dirent_size))) _ _ stops (
                if-On (not (inum_at r.1 0 == 0)) _ _
                  (returns (false, r.2) (same fs laws a rs ls s r.2 h e))
                  (k r.2 (same fs laws a rs ls s r.2 h e))))

    unlink_bad-Settled : (dp : ℕ) (s : S) → Has (dp ∷ []) (dp ∷ []) s → Done (unlink_bad fs dp s)
    unfolding unlink_bad
    unlink_bad-Settled dp s h =
        bind-On (iunlockput fs dp s) _ (put_back fs laws a dp [] [] s h)
          (λ u k. ended fs laws a minus_one u k)

    erase-Settled :
        (dp ip off : ℕ) (s : S) → Has (ip ∷ dp ∷ []) (ip ∷ dp ∷ []) s → Done (erase fs dp ip off s)
    unfolding erase
    erase-Settled dp ip off s h =
        bind-On (fs.writei dp (λ j. 0) off dirent_size s) _
          (laws.writei dp (λ j. 0) off dirent_size s)
          (λ w e. if-On (not (eq_int w.0 (pos dirent_size))) _ _ stops (
            bind-On (iunlockput fs dp _) _
              (put_back fs laws a dp (ip ∷ []) (ip ∷ []) _ (
                maybe ((fs.ip w.1 ip).type == t_dir) w.1
                  (same fs laws a (dp ∷ ip ∷ []) (dp ∷ ip ∷ []) s w.1 turned e)))
              (λ t g.
                bind-On (iunlockput fs ip (count_down fs ip t)) _
                  (put_back fs laws a ip [] [] _ (counted fs laws a ip _ (ip ∷ []) (ip ∷ []) t g))
                  (λ u k. ended fs laws a (pos 0) u k))))
      where
        -- The directory is given back first.
        turned : Has (dp ∷ ip ∷ []) (dp ∷ ip ∷ []) s
        turned =
            swap_refs fs laws a ip dp (dp ∷ ip ∷ []) s
              (swap_locks fs laws a (ip ∷ dp ∷ []) ip dp s h)

        maybe :
            (c : Bool) (t : S)
            → Has (dp ∷ ip ∷ []) (dp ∷ ip ∷ []) t
            → Has (dp ∷ ip ∷ []) (dp ∷ ip ∷ []) (if c then count_down fs dp t else t)
        maybe true t g = counted fs laws a dp _ (dp ∷ ip ∷ []) (dp ∷ ip ∷ []) t g
        maybe false t g = g

    unlink_entry-Settled :
        (dp : ℕ) (r : Option (ℕ × ℕ)) (s : S)
        → Looked fs laws a of_pair (dp ∷ []) (dp ∷ []) (r, s)
        → Done (unlink_entry fs dp r s)
    unfolding unlink_entry isdirempty
    unlink_entry-Settled dp none s h = unlink_bad-Settled dp s h
    unlink_entry-Settled dp (some e) s h =
        bind-On (fs.ilock e.0 s) _ (locked fs laws a e.0 (e.0 ∷ dp ∷ []) (dp ∷ []) s h) (λ t g.
          if-On _ _ _ stops (
            if-On ((fs.ip t e.0).type == t_dir) _ _
              (bind-On (isdirempty fs e.0 t) _
                (all_unused-Has (fs.ip t e.0).size e.0 32 (e.0 ∷ dp ∷ []) (e.0 ∷ dp ∷ []) t g)
                (λ r k. if-On (r.0) _ _ (erase-Settled dp e.0 e.1 r.1 k) (
                  bind-On (iunlockput fs e.0 r.1) _
                    (put_back fs laws a e.0 (dp ∷ []) (dp ∷ []) r.1 k)
                    (λ u q. unlink_bad-Settled dp u q))))
              (erase-Settled dp e.0 e.1 t g)))

    unlink_in-Settled :
        (r : Option (ℕ × List ℕ)) (s : S)
        → Looked fs laws a of_pair [] [] (r, s)
        → Done (unlink_in fs r s)
    unfolding unlink_in
    unlink_in-Settled none s h = ended fs laws a minus_one s h
    unlink_in-Settled (some p) s h =
        bind-On (fs.ilock p.0 s) _ (locked fs laws a p.0 (p.0 ∷ []) [] s h) (λ t g.
          if-On (is_dots fs p.1) _ _ (unlink_bad-Settled p.0 t g) (
            bind-On (fs.dirlookup p.0 p.1 t) _
              (looked fs laws a of_pair (p.0 ∷ []) (p.0 ∷ []) t _ g (laws.dirlookup p.0 p.1 t))
              (λ r k. unlink_entry-Settled p.0 r.0 r.1 k)))

  unchanged : (s : S) → Settled fs laws (laws.sum s) (minus_one, s)
  unchanged s = record {
    by_refs = λ j. refl;
    by_locks = λ j. refl;
    by_ops = refl;
    by_files = λ j. refl;
  }

  -- Over a file system whose calls keep the counts of `Accounts`, `sys_link`, whenever it returns, has
  -- given back what it took, on every branch: every inode has as many references as before and its
  -- lock is held exactly when it was, the transaction is ended, and every file has its references.
  pub sys_link-Settled :
      (cwd : ℕ) (old new : Option (List ℕ)) (s : S)
      → On (Settled fs laws (laws.sum s)) (sys_link fs cwd old new s)
  unfolding sys_link
  sys_link-Settled cwd none new s = returns (minus_one, s) (unchanged s)
  sys_link-Settled cwd (some old) none s = returns (minus_one, s) (unchanged s)
  sys_link-Settled cwd (some old) (some new) s =
      bind-On (fs.begin_op s) _ (began fs laws (laws.sum s) s refl) (λ t h.
        bind-On (fs.namei cwd old t) _
          (looked fs laws (laws.sum s) entry [] [] t _ h (laws.namei cwd old t))
          (λ r k. link_old-Settled (laws.sum s) cwd r.0 new r.1 k))

  -- Over a file system whose calls keep the counts of `Accounts`, `sys_unlink`, whenever it returns,
  -- has given back what it took, on every branch: every inode has as many references as before and its
  -- lock is held exactly when it was, the transaction is ended, and every file has its references.
  pub sys_unlink-Settled :
      (cwd : ℕ) (path : Option (List ℕ)) (s : S)
      → On (Settled fs laws (laws.sum s)) (sys_unlink fs cwd path s)
  unfolding sys_unlink
  sys_unlink-Settled cwd none s = returns (minus_one, s) (unchanged s)
  sys_unlink-Settled cwd (some path) s =
      bind-On (fs.begin_op s) _ (began fs laws (laws.sum s) s refl) (λ t h.
        bind-On (fs.nameiparent cwd path t) _
          (looked fs laws (laws.sum s) of_pair [] [] t _ h (laws.nameiparent cwd path t))
          (λ r k. unlink_in-Settled (laws.sum s) r.0 r.1 k))
