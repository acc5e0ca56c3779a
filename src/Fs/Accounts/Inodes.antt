-- ===== src/Fs/Accounts/Inodes.antt =====
-- References and locks under the operations on inodes of Lab-5 Task 5.1, kernel/fs.c.
use cs344_os_lab.Base.{
  ℕ, ◌-◌, ◌≡◌, refl, ◌∙◌, true, false, not, ◌||◌, List, arith, inl, inr, [], ◌∷◌,
}
use cs344_os_lab.Base.Tests.{ltb, ◌==◌, Bool-cases, ==→ne}
use cs344_os_lab.Base.Partial.{On, stops, returns, bind-On, map-On, if-On}
use cs344_os_lab.Base.Lists.{set, length-set}
use cs344_os_lab.Fs.{Inode, Disk, Open}
use cs344_os_lab.Fs.Io.{iupdate}
use cs344_os_lab.Fs.Trunc.{itrunc}
use cs344_os_lab.Fs.Itable.{inode}
use cs344_os_lab.Fs.Inodes.{
  Fsys, open_at, back, hold, release, load, ilock, iunlock, no_type, no_valid, free_inode, drop_ref,
  iput, iunlockput,
}
use cs344_os_lab.Fs.Names.Tidy.{in_table}
use cs344_os_lab.Fs.Accounts.{Shift, ref_kept, ref_down, lock_on, lock_off, lock_free}
use cs344_os_lab.Fs.Accounts.Refs.{HasRef}
use cs344_os_lab.Fs.Accounts.Entries.{itrunc-On}

-- A change of one entry with the same count, and of the disk.
pub set-Shift :
    (f : Fsys) (i : ℕ) (x : Inode) (d : Disk)
    → x.ref ≡ (inode f.table i).ref
    → Shift f [] [] [] [] (record f { disk = d; table = set f.table i x })
set-Shift f i x d h = record {
  size = length-set f.table i x;
  by_refs = λ j. let e = ref_kept f.table i j x h in omega arith;
  by_locks = λ j. refl;
}

-- One change after another that leaves the counts alone.
pub then-Shift :
    (f g k : Fsys) (a b c d : List ℕ)
    → Shift f [] [] [] [] g
    → Shift g a b c d k
    → Shift f a b c d k
then-Shift f g k a b c d h q = record {
  size = q.size ∙ h.size;
  by_refs = λ j. omega (arith, h.by_refs j, q.by_refs j);
  by_locks = λ j. omega (arith, h.by_locks j, q.by_locks j);
}

hold-Shift : (f : Fsys) (i : ℕ) → f.locked i ≡ false → Shift f [] [] [] (i ∷ []) (hold i f)
hold-Shift f i u = record {
  size = refl;
  by_refs = λ j. refl;
  by_locks = λ j. let e = lock_on f.locked i j u in omega arith;
}

pub ilock-Shift : (i : ℕ) (f : Fsys) → On (Shift f [] [] [] (i ∷ [])) (ilock i f)
unfolding ilock
ilock-Shift i f = elim (Bool-cases (ltb (inode f.table i).ref 1 || f.locked i)) [
  | inl e ↦ rw (ilock, e) stops
  | inr e ↦
      let h = hold-Shift f i (ground (arith, e)) in
      rw (ilock, e) (if-On _ _ _ (returns _ h) (if-On _ _ _ stops (returns _ (loaded h))))
]
  where
    loaded :
        Shift f [] [] [] (i ∷ []) (hold i f)
        → Shift f [] [] [] (i ∷ []) (record (hold i f) {
          table = set f.table i (load (f.disk.dinodes (inode f.table i).inum) (inode f.table i));
        })
    loaded h =
        let s =
          set-Shift (hold i f) i (load (f.disk.dinodes (inode f.table i).inum) (inode f.table i))
            f.disk refl in
        record {
          size = s.size ∙ h.size;
          by_refs = λ j. omega (arith, s.by_refs j, h.by_refs j);
          by_locks = λ j. omega (arith, s.by_locks j, h.by_locks j);
        }

pub iunlock-Shift : (i : ℕ) (f : Fsys) → On (Shift f [] [] (i ∷ []) []) (iunlock i f)
unfolding iunlock
iunlock-Shift i f = elim (Bool-cases (not (f.locked i) || ltb (inode f.table i).ref 1)) [
  | inl e ↦ rw (iunlock, e) stops
  | inr e ↦
      let u : f.locked i ≡ true = ground (arith, e) in
      rw (iunlock, e)
        (returns _ (record {
          size = refl;
          by_refs = λ j. refl;
          by_locks = λ j. let o = lock_off f.locked i j u in omega arith;
        }))
]

drop_ref-Shift : (i : ℕ) (f : Fsys) → On (Shift f (i ∷ []) [] [] []) (drop_ref i f)
unfolding drop_ref
drop_ref-Shift i f = elim (Bool-cases ((inode f.table i).ref == 0)) [
  | inl e ↦ rw (drop_ref, e) stops
  | inr e ↦
      let nz = ==→ne (inode f.table i).ref 0 e in
      let x = record (inode f.table i) { ref = (inode f.table i).ref - 1 } in
      rw (drop_ref, e)
        (returns _ (record {
          size = length-set f.table i x;
          by_refs = λ j.
              let d = ref_down f.table i j x (in_table f.table i nz) (omega (arith, nz)) in
              omega arith;
          by_locks = λ j. refl;
        }))
]

free_inode-Shift : (i : ℕ) (f : Fsys) → On (Shift f [] [] [] []) (free_inode i f)
unfolding free_inode iupdate
free_inode-Shift i f = elim (Bool-cases (f.locked i)) [
  | inl e ↦ rw (free_inode, e) stops
  | inr e ↦
      rw (free_inode, e)
        (bind-On (itrunc (open_at f i)) _ (itrunc-On 0 (inode f.table i).ref (open_at f i) refl)
          (λ o h. returns _ (freed o h e)))
]
  where
    freed :
        (o : Open)
        → HasRef (inode f.table i).ref o
        → f.locked i ≡ false
        → Shift f [] [] [] [] (back i (release i f) (no_valid (iupdate (no_type o))))
    freed o h u =
        let p = no_valid (iupdate (no_type o)) in
        let s = set-Shift (release i f) i p.ip p.disk h in
        record {
          size = s.size;
          by_refs = λ j. s.by_refs j;
          by_locks = λ j. let e = lock_free f.locked i j u in omega arith;
        }

pub iput-Shift : (i : ℕ) (f : Fsys) → On (Shift f (i ∷ []) [] [] []) (iput i f)
unfolding iput
iput-Shift i f =
    if-On _ _ _
      (bind-On (free_inode i f) _ (free_inode-Shift i f) (λ g h.
        map-On (drop_ref i g) (drop_ref-Shift i g) (λ k q. then-Shift f g k (i ∷ []) [] [] [] h q)))
      (drop_ref-Shift i f)

pub iunlockput-Shift : (i : ℕ) (f : Fsys) → On (Shift f (i ∷ []) [] (i ∷ []) []) (iunlockput i f)
unfolding iunlockput
iunlockput-Shift i f = bind-On (iunlock i f) _ (iunlock-Shift i f) (λ g h.
    map-On (iput i g) (iput-Shift i g) (λ k q. record {
      size = q.size ∙ h.size;
      by_refs = λ j. omega (arith, h.by_refs j, q.by_refs j);
      by_locks = λ j. omega (arith, h.by_locks j, q.by_locks j);
    }))
