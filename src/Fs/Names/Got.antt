-- ===== src/Fs/Names/Got.antt =====
-- What `iget` of Lab-5 Task 5.1, kernel/fs.c, does to the table while names are looked up.
use cs344_os_lab.Base.{
  ℕ, ◌+◌, ◌≡◌, ◌≢◌, refl, sym, ap, ◌∙◌, subst, Option, none, some, List, ◌⊎◌, inl, inr, arith,
}
use mathlib.Core.Bool.{false≢true}
use cs344_os_lab.Base.Search.{IsFirst, NonePasses}
use cs344_os_lab.Base.Lists.{length, set, length-set, get_or-set_self}
use cs344_os_lab.Fs.{Inode, Disk}
use cs344_os_lab.Fs.Itable.{no_inode, inode, holds, is_spare, dup, recycle, iget}
use cs344_os_lab.Base.Bags.{at}
use cs344_os_lab.Fs.Accounts.{ref_at, ref_up}
use cs344_os_lab.Fs.Itable.Unique.{Unique, Gets, hits, recycles, panics, iget-Gets}
use cs344_os_lab.Fs.Names.Tidy.{Synced, Tidy, Refresh, after_set, Refresh-Tidy}

-- What `iget` leaves.
pub record Got (d : Disk) (t : List Inode) (dev inum : ℕ) (i : ℕ) (t' : List Inode) : Type 0 where
  pub tidy : Tidy d t'
  pub held : (inode t' i).ref ≢ 0
  pub is_inum : (inode t' i).inum ≡ inum
  pub is_dev : (inode t' i).dev ≡ dev
  pub counts : (j : ℕ) → ref_at t' j ≡ ref_at t j + at i j
  pub size : length t' ≡ length t
  pub again : (inode t i).ref ≢ 0 → inode t' i ≡ dup (inode t i)
  pub others :
      (j : ℕ) → (inode t j).ref ≢ 0 → (inode t' j ≡ inode t j) ⊎ (inode t' j ≡ dup (inode t j))

module _ (d : Disk) (t : List Inode) (dev inum : ℕ) (y : Tidy d t)
    (live : (d.dinodes inum).type ≢ 0) where
  hit-Got :
      (i : ℕ)
      → IsFirst (holds dev inum) no_inode t i
      → Got d t dev inum i (set t i (dup (inode t i)))
  hit-Got i f = record {
    tidy = Refresh-Tidy d t i (dup (inode t i)) f.within same y;
    held = rw here (omega arith);
    is_inum = rw here (ground (arith, f.passes));
    is_dev = rw here (ground (arith, f.passes));
    again = λ _. here;
    counts = λ j. ref_up t i j (dup (inode t i)) f.within refl;
    size = length-set t i (dup (inode t i));
    others = λ j nz. elim (after_set t i j (dup (inode t i)) f.within) [
      | inl e ↦ inr (e.1 ∙ ap (λ k. dup (inode t k)) (sym e.0))
      | inr e ↦ inl e.1
    ];
  }
    where
      here : inode (set t i (dup (inode t i))) i ≡ dup (inode t i)
      here = get_or-set_self t i (dup (inode t i)) no_inode f.within

      used : (inode t i).ref ≢ 0
      used z = ground (arith, f.passes, z)

      same : Refresh d (inode t i) (dup (inode t i))
      same = record {
        dev = refl;
        inum = refl;
        held = λ _. used;
        synced = λ _ v. ap {A = Inode} {B = Inode} (λ ip. dup ip) (y.synced i used v);
      }

  recycle-Got :
      (i : ℕ)
      → IsFirst is_spare no_inode t i
      → Unique (set t i (recycle dev inum (inode t i)))
      → Got d t dev inum i (set t i (recycle dev inum (inode t i)))
  recycle-Got i f u = record {
    tidy = record {
      unique = u;
      synced = λ j nz v. elim (after_set t i j new f.within) [
        | inl e ↦ absurd (false≢true (ap (λ ip. ip.valid) (sym e.1) ∙ v))
        | inr e ↦
            subst (λ ip. Synced d ip) (sym e.1)
              (y.synced j (λ z. nz (ap (λ ip. ip.ref) e.1 ∙ z)) (sym (ap (λ ip. ip.valid) e.1) ∙ v))
      ];
      live = λ j nz z. elim (after_set t i j new f.within) [
        | inl e ↦ live (ap (λ n. (d.dinodes n).type) (sym (ap (λ ip. ip.inum) e.1)) ∙ z)
        | inr e ↦
            y.live j (λ q. nz (ap (λ ip. ip.ref) e.1 ∙ q))
              (ap (λ n. (d.dinodes n).type) (sym (ap (λ ip. ip.inum) e.1)) ∙ z)
      ];
    };
    held = rw here (omega arith);
    is_inum = rw here refl;
    is_dev = rw here refl;
    again = λ nz. absurd (nz spare);
    counts = λ j. ref_up t i j new f.within (ap (λ n. n + 1) (sym spare));
    size = length-set t i new;
    others = λ j nz. elim (after_set t i j new f.within) [
      | inl e ↦ absurd (nz (ap (λ k. (inode t k).ref) e.0 ∙ spare))
      | inr e ↦ inl e.1
    ];
  }
    where
      new : Inode
      new = recycle dev inum (inode t i)

      here : inode (set t i new) i ≡ new
      here = get_or-set_self t i new no_inode f.within

      spare : (inode t i).ref ≡ 0
      spare = ground (arith, f.passes)

  -- The outcome of `iget`: an entry, or no entry is free.
  pub data Gots : Option (ℕ × List Inode) → Type 0 where
    got : (i : ℕ) (t' : List Inode) → Got d t dev inum i t' → Gots (some (i, t'))
    all_used : NonePasses (holds dev inum) no_inode t → NonePasses is_spare no_inode t → Gots none

  pub iget-Gots : Gots (iget t dev inum)
  iget-Gots = of (iget t dev inum) (iget-Gets t dev inum y.unique)
    where
      of : (r : Option (ℕ × List Inode)) → Gets t dev inum r → Gots r
      of _ (hits i f u) = got i _ (hit-Got i f)
      of _ (recycles i a f u) = got i _ (recycle-Got i f u)
      of _ (panics a f) = all_used a f
