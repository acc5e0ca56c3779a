-- ===== src/Fs/Trunc.antt =====
-- `itrunc` of Lab-5 Task 5.1, kernel/fs.c. `none` is the panic of `bfree` on a free block. A buffer that
-- is read before the blocks below it are freed still holds what it held: `bfree` changes the bitmap.
pub mod Ranks
pub mod Frees
pub mod Runs
pub mod Clears
use cs344_os_lab.Base.{ℕ, zero, suc, ◌+◌, Option, none, some}
use cs344_os_lab.Base.Tests.{◌==◌, if◌then◌else◌}
use cs344_os_lab.Base.Partial.{◌>>=◌}
use cs344_os_lab.Base.Lists.{get_or, set}
use cs344_os_lab.Fs.{Disk, Open, read_word, bfree, ndirect, nindirect}
use cs344_os_lab.Fs.Io.{iupdate}

-- `if(a[j]) bfree(ip->dev, a[j]);`
pub free_if : ℕ → Disk → Option Disk
free_if b d = if b == 0 then some d else bfree b d

-- `n` rounds of the loop over the words of the index block `p`, from word `j` on.
pub free_words : ℕ → ℕ → (ℕ → ℕ) → Disk → Option Disk
free_words zero j p d = some d
free_words (suc n) j p d = do d' ← free_if (read_word p j) d; free_words n (j + 1) p d'

-- The blocks that the index block `b` names, then `b`.
pub free_index : ℕ → Disk → Option Disk
free_index b d = do d' ← free_words nindirect 0 (d.bytes b) d; bfree b d'

-- `if (a[j]){ ... }`
pub free_index_if : ℕ → Disk → Option Disk
free_index_if b d = if b == 0 then some d else free_index b d

pub free_outer : ℕ → ℕ → (ℕ → ℕ) → Disk → Option Disk
free_outer zero j p d = some d
free_outer (suc n) j p d = do d' ← free_index_if (read_word p j) d; free_outer n (j + 1) p d'

pub free_double : ℕ → Disk → Option Disk
free_double b d = do d' ← free_outer nindirect 0 (d.bytes b) d; bfree b d'

-- `if(ip->addrs[k]){ ... ip->addrs[k] = 0; }`, where `free` is what frees the blocks.
unfoldable pub clear_entry : (ℕ → Disk → Option Disk) → ℕ → Open → Option Open
clear_entry free k o =
    let b = get_or o.ip.addrs k 0 in
    if b == 0 then some o else (do
      d ← free b o.disk
      some (record { disk = d; ip = record (o.ip) { addrs = set o.ip.addrs k 0 } }))

-- The loop over the direct blocks.
unfoldable pub clear_direct : ℕ → ℕ → Open → Option Open
clear_direct zero k o = some o
clear_direct (suc n) k o = do a ← clear_entry bfree k o; clear_direct n (k + 1) a

abbrev pub no_size : Open → Open
no_size o = record o { ip = record (o.ip) { size = 0 } }

unfoldable pub itrunc : Open → Option Open
itrunc o = do
  a ← clear_direct ndirect 0 o
  b ← clear_entry free_index ndirect a
  c ← clear_entry free_double (ndirect + 1) b
  some (iupdate (no_size c))
