-- ===== src/Sysfile/Calls.antt =====
-- What kernel/sysfile.c (Lab-5 Task 5.2) calls: kernel/fs.c, kernel/file.c and kernel/log.c, which that
-- task does not bring along. `FileSystem` names the calls, and `Accounts` says what each does to the
-- references to each inode, its lock, the transactions and each open file. `none` is a call that does not return: a
-- panic, or a wait without end.
use cs344_os_lab.Base.{ℕ, ◌+◌, ◌<◌, ◌≡◌, Option, none, some, List, [], ◌∷◌, Bool, true, arith}
use cs344_os_lab.Base.Bags.{times, maybe}
use cs344_os_lab.Base.Partial.{◌>>=◌, On, bind-On, map-On}
use cs344_os_lab.Base.Int.{ℤ}
use cs344_os_lab.Fs.{Inode}

-- `struct file`, as `sys_open` fills it in
pub record File : Type 0 where
  pub is_device : Bool
  pub major : ℕ
  pub off : ℕ
  pub inode : ℕ
  pub readable : Bool
  pub writable : Bool

-- An inode is named by its entry of the table. `namei` and `nameiparent` take the current directory.
pub record FileSystem (S : Type 0) : Type 0 where
  pub ip : S → ℕ → Inode
  pub set_nlink : ℕ → ℕ → S → S
  pub set_device : ℕ → ℕ → ℕ → S → S
  pub begin_op : S → Option S
  pub end_op : S → S
  pub namei : ℕ → List ℕ → S → Option (Option ℕ × S)
  pub nameiparent : ℕ → List ℕ → S → Option (Option (ℕ × List ℕ) × S)
  pub ilock : ℕ → S → Option S
  pub iunlock : ℕ → S → Option S
  pub iput : ℕ → S → Option S
  pub iupdate : ℕ → S → S
  pub itrunc : ℕ → S → Option S
  pub ialloc : ℕ → ℕ → S → Option (Option ℕ × S)
  pub dirlookup : ℕ → List ℕ → S → Option (Option (ℕ × ℕ) × S)
  pub dirlink : ℕ → List ℕ → ℕ → S → Option (ℤ × S)
  pub readi : ℕ → ℕ → ℕ → S → Option (ℤ × (ℕ → ℕ) × S)
  pub writei : ℕ → (ℕ → ℕ) → ℕ → ℕ → S → Option (ℤ × S)
  pub filealloc : S → Option ℕ × S
  pub fileclose : ℕ → S → S
  pub file : S → ℕ → File
  pub set_file : ℕ → (File → File) → S → S

-- The references and locks of each inode, the open transactions and the references of each file.
pub record Sum : Type 0 where
  pub refs : ℕ → ℕ
  pub locks : ℕ → ℕ
  pub ops : ℕ
  pub files : ℕ → ℕ

-- What is taken or given back: a reference or a lock for each inode of the list, a file for each of
-- its list, and transactions.
pub record Change : Type 0 where
  pub refs : List ℕ
  pub locks : List ℕ
  pub ops : ℕ
  pub files : List ℕ

abbrev pub nil : Change
nil = record { refs = []; locks = []; ops = 0; files = [] }

abbrev pub one_op : Change
one_op = record nil { ops = 1 }

-- A reference to the inode that is found; `key` is its entry of the table.
abbrev pub found {ℓ} : {A : Type ℓ} → (A → ℕ) → Option A → Change
found key none = nil
found key (some a) = record nil { refs = key a ∷ [] }

abbrev pub entry : ℕ → ℕ
entry i = i

-- A name comes with its inode.
abbrev pub of_pair {ℓ} : {A : Type ℓ} → ℕ × A → ℕ
of_pair p = p.0

-- The counts go down by `loss` and up by `gain`, for every inode and every file.
pub record Effect (a b : Sum) (loss gain : Change) : Type 0 where
  pub by_refs : (j : ℕ) → b.refs j + times loss.refs j ≡ a.refs j + times gain.refs j
  pub by_locks : (j : ℕ) → b.locks j + times loss.locks j ≡ a.locks j + times gain.locks j
  pub by_ops : b.ops + loss.ops ≡ a.ops + gain.ops
  pub by_files : (g : ℕ) → b.files g + times loss.files g ≡ a.files g + times gain.files g

-- What each call does to the counts when it returns, and which leave the fields of the files alone. A
-- new file was not in use and has no inode yet (`blank`), so closing it gives up only the file.
pub record Accounts {S : Type 0} (fs : FileSystem S) : Type 0 where
  pub sum : S → Sum
  pub blank : S → ℕ → Bool
  pub set_nlink : (i n : ℕ) (s : S) → Effect (sum s) (sum (fs.set_nlink i n s)) nil nil
  pub set_device : (i a b : ℕ) (s : S) → Effect (sum s) (sum (fs.set_device i a b s)) nil nil
  pub begin_op : (s : S) → On (λ t. Effect (sum s) (sum t) nil one_op) (fs.begin_op s)
  pub end_op : (s : S) → 0 < (sum s).ops → Effect (sum s) (sum (fs.end_op s)) one_op nil
  pub end_op_file : (s : S) (f : ℕ) → fs.file (fs.end_op s) f ≡ fs.file s f
  pub namei :
      (cwd : ℕ) (path : List ℕ) (s : S)
      → On (λ x. Effect (sum s) (sum x.1) nil (found entry x.0)) (fs.namei cwd path s)
  pub nameiparent :
      (cwd : ℕ) (path : List ℕ) (s : S)
      → On (λ x. Effect (sum s) (sum x.1) nil (found of_pair x.0)) (fs.nameiparent cwd path s)
  pub ilock :
      (i : ℕ) (s : S)
      → On (λ t. Effect (sum s) (sum t) nil (record nil { locks = i ∷ [] })) (fs.ilock i s)
  pub iunlock :
      (i : ℕ) (s : S)
      → On (λ t. Effect (sum s) (sum t) (record nil { locks = i ∷ [] }) nil) (fs.iunlock i s)
  pub iunlock_file :
      (i : ℕ) (s : S) → On (λ t. (f : ℕ) → fs.file t f ≡ fs.file s f) (fs.iunlock i s)
  pub iput :
      (i : ℕ) (s : S)
      → On (λ t. Effect (sum s) (sum t) (record nil { refs = i ∷ [] }) nil) (fs.iput i s)
  pub iupdate : (i : ℕ) (s : S) → Effect (sum s) (sum (fs.iupdate i s)) nil nil
  pub itrunc : (i : ℕ) (s : S) → On (λ t. Effect (sum s) (sum t) nil nil) (fs.itrunc i s)
  pub itrunc_file : (i : ℕ) (s : S) → On (λ t. (f : ℕ) → fs.file t f ≡ fs.file s f) (fs.itrunc i s)
  pub ialloc :
      (dev type : ℕ) (s : S)
      → On (λ x. Effect (sum s) (sum x.1) nil (found entry x.0)) (fs.ialloc dev type s)
  pub dirlookup :
      (i : ℕ) (name : List ℕ) (s : S)
      → On (λ x. Effect (sum s) (sum x.1) nil (found of_pair x.0)) (fs.dirlookup i name s)
  pub dirlink :
      (i : ℕ) (name : List ℕ) (inum : ℕ) (s : S)
      → On (λ x. Effect (sum s) (sum x.1) nil nil) (fs.dirlink i name inum s)
  pub readi :
      (i off n : ℕ) (s : S) → On (λ x. Effect (sum s) (sum x.2) nil nil) (fs.readi i off n s)
  pub writei :
      (i : ℕ) (src : ℕ → ℕ) (off n : ℕ) (s : S)
      → On (λ x. Effect (sum s) (sum x.1) nil nil) (fs.writei i src off n s)
  pub filealloc :
      (s : S)
      → Effect
          (sum s)
          (sum (fs.filealloc s).1)
          nil
          (record nil { files = maybe (fs.filealloc s).0 })
        × ((f : ℕ)
            → (fs.filealloc s).0 ≡ some f
            → ((sum s).files f ≡ 0) × (blank (fs.filealloc s).1 f ≡ true))
  pub fileclose :
      (f : ℕ) (s : S)
      → blank s f ≡ true
      → Effect (sum s) (sum (fs.fileclose f s)) (record nil { files = f ∷ [] }) nil
  pub set_file :
      (f : ℕ) (x : File → File) (s : S)
      → Effect (sum s) (sum (fs.set_file f x s)) nil nil
        × (fs.file (fs.set_file f x s) f ≡ x (fs.file s f))

module _ {S : Type 0} (fs : FileSystem S) where
  -- `iunlockput`
  unfoldable pub iunlockput : ℕ → S → Option S
  iunlockput i s = do t ← fs.iunlock i s; fs.iput i t

  module _ (laws : Accounts fs) where
    pub iunlockput-Effect :
        (i : ℕ) (s : S)
        → On
            (λ t.
              Effect (laws.sum s) (laws.sum t) (record nil { refs = i ∷ []; locks = i ∷ [] }) nil)
            (iunlockput i s)
    unfolding iunlockput
    iunlockput-Effect i s =
        bind-On (fs.iunlock i s) (λ t. fs.iput i t) (laws.iunlock i s)
          (λ t h. map-On (fs.iput i t) (laws.iput i t) (λ u k. record {
            by_refs = λ j. omega (arith, h.by_refs j, k.by_refs j);
            by_locks = λ j. omega (arith, h.by_locks j, k.by_locks j);
            by_ops = omega (arith, h.by_ops, k.by_ops);
            by_files = λ j. omega (arith, h.by_files j, k.by_files j);
          }))

    -- The end of a transaction.
    pub end_op-Effect :
        (a : Sum) (t : S) (gs : List ℕ) (rs : List ℕ)
        → Effect a (laws.sum t) nil (record { refs = rs; locks = []; ops = 1; files = gs })
        → Effect a
            (laws.sum (fs.end_op t))
            nil
            (record { refs = rs; locks = []; ops = 0; files = gs })
    end_op-Effect a t gs rs h =
        let e = laws.end_op t (omega (arith, h.by_ops)) in
        record {
          by_refs = λ j. omega (arith, h.by_refs j, e.by_refs j);
          by_locks = λ j. omega (arith, h.by_locks j, e.by_locks j);
          by_ops = omega (arith, h.by_ops, e.by_ops);
          by_files = λ j. omega (arith, h.by_files j, e.by_files j);
        }
