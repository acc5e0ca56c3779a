-- ===== src/Sysfile/Open/Balance.antt =====
-- `sys_open` of Lab-5 Task 5.2, kernel/sysfile.c, on every branch.
use cs344_os_lab.Base.{ℕ, ◌≡◌, not, ◌||◌, none, some, List, [], ◌∷◌}
use cs344_os_lab.Base.Search.{IsFirst}
use cs344_os_lab.Base.Lists.{set}
use cs344_os_lab.Base.Int.{ℤ, pos, minus_one}
use cs344_os_lab.Sysfile.{Descriptors, is_empty}
use cs344_os_lab.Sysfile.Calls.{FileSystem, File, Accounts, Sum, Change, nil, one_op}
use cs344_os_lab.Sysfile.Settled.{Gains, holding}
use cs344_os_lab.Sysfile.Open.{has, o_wronly, o_rdwr}

module _ {S : Type 0} (fs : FileSystem S) (laws : Accounts fs) (cwd omode : ℕ) (a : Sum)
    (ofile : Descriptors) where
  -- What the file holds.
  pub record Fills (ip : ℕ) (x : File) : Type 0 where
    pub of_inode : x.inode ≡ ip
    pub to_read : x.readable ≡ not (has omode o_wronly)
    pub to_write : x.writable ≡ has omode o_wronly || has omode o_rdwr

  -- How an open ends: with -1 and everything given back, or with the first free descriptor, which
  -- holds a file that was not in use and that holds the one reference the call has taken.
  pub data Opens : ℤ × Descriptors × S → Type 0 where
    refused : (s : S) → Gains fs laws a nil s → Opens (minus_one, ofile, s)
    opens :
        (fd f ip : ℕ) (s : S)
        → IsFirst is_empty none ofile fd
        → a.files f ≡ 0
        → Gains fs laws a (record nil { refs = ip ∷ []; files = f ∷ [] }) s
        → Fills ip (fs.file s f)
        → Opens (pos fd, set ofile fd (some f), s)

  -- An inode, locked.
  abbrev Has : ℕ → S → Type 0
  Has ip = Gains fs laws a (holding fs laws (ip ∷ []) (ip ∷ []))

  abbrev with_file : ℕ → ℕ → List ℕ → Change
  with_file ip f ls = record one_op { refs = ip ∷ []; locks = ls; files = f ∷ [] }

  abbrev HasFile : ℕ → ℕ → List ℕ → S → Type 0
  HasFile ip f ls = Gains fs laws a (with_file ip f ls)

  -- The file keeps its fields.
  abbrev Kept : ℕ → ℕ → List ℕ → S → Type 0
  Kept ip f ls t = HasFile ip f ls t × Fills ip (fs.file t f)
