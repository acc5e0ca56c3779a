-- ===== src/Fs/Accounts/Entries.antt =====
-- `itrunc`, and the loops over the entries of a directory, leave the count of references of an inode
-- alone (Lab-5 Task 5.1, kernel/fs.c).
use cs344_os_lab.Base.{ℕ, zero, suc, ◌+◌, Option, List, inl, inr}
use cs344_os_lab.Base.Tests.{ltb, Bool-cases}
use cs344_os_lab.Base.Partial.{On, stops, returns, bind-On, if-On, any-On}
use cs344_os_lab.Fs.{Disk, Open, ndirect, bfree}
use cs344_os_lab.Fs.Io.{iupdate, writei, readi}
use cs344_os_lab.Fs.Trunc.{clear_entry, clear_direct, free_index, free_double, itrunc}
use cs344_os_lab.Fs.Dirs.{
  kernel_copy, no_bytes, dirent_size, read_entry, find_entry, empty_entry, new_entry, add_entry,
}
use cs344_os_lab.Fs.Accounts.Refs.{HasRef, readi-On}
use cs344_os_lab.Fs.Accounts.Writes.{writei-On}

module _ (size : ℕ) (n : ℕ) where
  clear_entry-On :
      (free : ℕ → Disk → Option Disk) (k : ℕ) (o : Open)
      → HasRef n o
      → On (HasRef n) (clear_entry free k o)
  unfolding clear_entry
  clear_entry-On free k o h =
      if-On _ _ _ (returns o h)
        (bind-On (free _ o.disk) _ (any-On (free _ o.disk)) (λ d _. returns _ h))

  clear_direct-On : (m k : ℕ) (o : Open) → HasRef n o → On (HasRef n) (clear_direct m k o)
  unfolding clear_direct
  clear_direct-On zero k o h = returns o h
  clear_direct-On (suc m) k o h =
      bind-On (clear_entry bfree k o) _ (clear_entry-On bfree k o h)
        (λ p g. clear_direct-On m (k + 1) p g)

  pub itrunc-On : (o : Open) → HasRef n o → On (HasRef n) (itrunc o)
  unfolding itrunc iupdate
  itrunc-On o h = bind-On (clear_direct ndirect 0 o) _ (clear_direct-On ndirect 0 o h) (λ a g.
      bind-On (clear_entry free_index ndirect a) _ (clear_entry-On free_index ndirect a g) (λ b k.
        bind-On (clear_entry free_double (ndirect + 1) b) _
          (clear_entry-On free_double (ndirect + 1) b k) (λ c q. returns _ q)))

  read_entry-On : (off : ℕ) (o : Open) → HasRef n o → On (λ r. HasRef n r.1) (read_entry size off o)
  unfolding read_entry
  read_entry-On off o h =
      bind-On (readi size kernel_copy off dirent_size no_bytes o) _
        (readi-On size n kernel_copy off dirent_size no_bytes o h)
        (λ r g. if-On _ _ _ (returns _ g) stops)

  pub find_entry-On :
      (fuel : ℕ) (name : List ℕ) (off : ℕ) (o : Open)
      → HasRef n o
      → On (λ r. HasRef n r.1) (find_entry size fuel name off o)
  unfolding find_entry
  find_entry-On zero name off o h = returns _ h
  find_entry-On (suc fuel) name off o h = elim (Bool-cases (ltb off o.ip.size)) [
    | inr e ↦ rw (find_entry, e) (returns _ h)
    | inl e ↦
        rw (find_entry, e)
          (bind-On (read_entry size off o) _ (read_entry-On off o h) (λ r g.
            let k = find_entry-On fuel name (off + dirent_size) r.1 g in
            if-On _ _ _ k (if-On _ _ _ (returns _ g) k)))
  ]

  empty_entry-On :
      (fuel off : ℕ) (o : Open) → HasRef n o → On (λ r. HasRef n r.1) (empty_entry size fuel off o)
  unfolding empty_entry
  empty_entry-On zero off o h = returns _ h
  empty_entry-On (suc fuel) off o h = elim (Bool-cases (ltb off o.ip.size)) [
    | inr e ↦ rw (empty_entry, e) (returns _ h)
    | inl e ↦
        rw (empty_entry, e)
          (bind-On (read_entry size off o) _ (read_entry-On off o h)
            (λ r g. if-On _ _ _ (returns _ g) (empty_entry-On fuel (off + dirent_size) r.1 g)))
  ]

  pub add_entry-On :
      (name : List ℕ) (inum : ℕ) (o : Open)
      → HasRef n o
      → On (λ r. HasRef n r.1) (add_entry size name inum o)
  unfolding add_entry
  add_entry-On name inum o h =
      bind-On (empty_entry size o.ip.size 0 o) _ (empty_entry-On o.ip.size 0 o h) (λ r g.
        bind-On (writei size kernel_copy (new_entry name inum) r.0 dirent_size r.1) _
          (writei-On size n kernel_copy (new_entry name inum) r.0 dirent_size r.1 g)
          (λ w k. returns _ k))
