-- ===== src/Fs/Names/Walk.antt =====
-- What a path names, from the directories on the disk (Lab-5 Task 5.1, kernel/fs.c).
use cs344_os_lab.Base.{
  ℕ, ◌/◌, ◌<◌, ◌≡◌, ◌≢◌, sym, ap, ◌∙◌, subst, fun_ext, Bool, true, false, Option, none, some, List,
  [], ◌∷◌, ◌⊎◌,
}
use cs344_os_lab.Base.Tests.{leb, if◌then◌else◌}
use cs344_os_lab.Base.Lists.{length}
use cs344_os_lab.Fs.{Disk, Open, bsize}
use cs344_os_lab.Fs.Content.{value_same, file_byte, file_byte_same}
use cs344_os_lab.Fs.Bmap.Maps.{slot_of}
use cs344_os_lab.Fs.Path.{dirsiz, take}
use cs344_os_lab.Fs.Dirs.{t_dir, inum_at}
use cs344_os_lab.Fs.Dirs.Scan.{Dense, matches, Finds, absent, found}
use cs344_os_lab.Fs.Inodes.Reclaims.{file_at}

-- An element as a name in a directory.
abbrev pub clip : List ℕ → List ℕ
clip e = if leb dirsiz (length e) then take dirsiz e else e

-- Every inode in use has a link; directories have whole entries and a block for each byte, and name
-- inodes that are in use.
pub record Sane (d : Disk) : Type 0 where
  pub linked : (k : ℕ) → (d.dinodes k).type ≢ 0 → (d.dinodes k).nlink ≢ 0
  pub dense : (k : ℕ) → (d.dinodes k).type ≡ t_dir → Dense (file_at d k)
  pub closed :
      (k off j : ℕ) (name : List ℕ)
      → (d.dinodes k).type ≡ t_dir
      → Finds name (file_at d k) 0 (some (off, j))
      → (d.dinodes j).type ≢ 0

-- The walk from inode `k` along the elements, to the inode or to none, with the last name that was
-- looked at. With `parent` it stops one element early, at a directory.
pub data Walks (d : Disk) (parent : Bool)
    : ℕ → List ℕ → List (List ℕ) → Option ℕ → List ℕ → Type 0 where
  ended : (k : ℕ) (n : List ℕ) → parent ≡ false → Walks d parent k n [] (some k) n
  no_last : (k : ℕ) (n : List ℕ) → parent ≡ true → Walks d parent k n [] none n
  no_dir :
      (k : ℕ) (n e : List ℕ) (es : List (List ℕ))
      → (d.dinodes k).type ≢ t_dir
      → Walks d parent k n (e ∷ es) none (clip e)
  at_parent :
      (k : ℕ) (n e : List ℕ)
      → parent ≡ true
      → (d.dinodes k).type ≡ t_dir
      → Walks d parent k n (e ∷ []) (some k) (clip e)
  lost :
      (k : ℕ) (n e : List ℕ) (es : List (List ℕ))
      → (parent ≡ false) ⊎ (es ≢ [])
      → (d.dinodes k).type ≡ t_dir
      → Finds (clip e) (file_at d k) 0 none
      → Walks d parent k n (e ∷ es) none (clip e)
  down :
      (k off j : ℕ) (n e m : List ℕ) (es : List (List ℕ)) (r : Option ℕ)
      → (parent ≡ false) ⊎ (es ≢ [])
      → (d.dinodes k).type ≡ t_dir
      → Finds (clip e) (file_at d k) 0 (some (off, j))
      → Walks d parent j (clip e) es r m
      → Walks d parent k n (e ∷ es) r m

-- Only the blocks, the entries and the size of a directory count.
module _ (o o' : Open) (b : o'.disk.bytes ≡ o.disk.bytes) (a : o'.ip.addrs ≡ o.ip.addrs)
    (s : o'.ip.size ≡ o.ip.size) where
  pub Dense-same : Dense o → Dense o'
  Dense-same d = record {
    fits = rw s d.fits;
    whole = rw s d.whole;
    present = λ k l z.
        d.present k (subst (λ n. k < n) s l) (sym (value_same o o' b a (slot_of (k / bsize))) ∙ z);
  }

  same_bytes : file_byte o' ≡ file_byte o
  same_bytes = fun_ext (file_byte_same o o' b a)

  pub Finds-same :
      (name : List ℕ) (start : ℕ) (r : Option (ℕ × ℕ))
      → Finds name o' start r
      → Finds name o start r
  Finds-same name start _ (absent h) = absent (λ off l u v.
      ap (λ p. matches name p off) (sym same_bytes) ∙ h off l u (subst (λ n. off < n) (sym s) v))
  Finds-same name start _ (found off l u v m h) =
      subst (λ n. Finds name o start (some (off, n))) (ap (λ p. inum_at p off) (sym same_bytes))
        (found off l u (subst (λ n. off < n) s v)
          (ap (λ p. matches name p off) (sym same_bytes) ∙ m)
          (λ e x y z. ap (λ p. matches name p e) (sym same_bytes) ∙ h e x y z))
