-- ===== src/Fs/Accounts/Directories.antt =====
-- References and locks under `iget`, `ialloc`, `dirlookup` and `dirlink` of Lab-5 Task 5.1, kernel/fs.c.
use cs344_os_lab.Base.{
  ℕ, ◌+◌, ◌-◌, ◌≡◌, refl, ◌∙◌, Option, none, some, List, arith, inl, inr, [], ◌∷◌,
}
use cs344_os_lab.Base.Tests.{◌==◌}
use cs344_os_lab.Base.Search.{first_cases}
use cs344_os_lab.Base.Partial.{◌>>=◌, On, stops, returns, bind-On, if-On}
use cs344_os_lab.Base.Lists.{length, length-set}
use cs344_os_lab.Base.Int.{ℤ, minus_one}
use cs344_os_lab.Fs.{Inode, Disk, Open, upd}
use cs344_os_lab.Fs.Itable.{
  no_inode, inode, holds, is_spare, dup, recycle, recycle_at, iget, spare_from, marked, ialloc,
}
use cs344_os_lab.Fs.Inodes.{Fsys, open_at, back, iput}
use cs344_os_lab.Fs.Dirs.{t_dir, dirlookup, dirlink, find_entry, add_entry}
use cs344_os_lab.Base.Bags.{at, maybe}
use cs344_os_lab.Fs.Accounts.{Shift, ref_at, ref_up}
use cs344_os_lab.Fs.Accounts.Refs.{HasRef}
use cs344_os_lab.Fs.Accounts.Entries.{find_entry-On, add_entry-On}
use cs344_os_lab.Fs.Accounts.Inodes.{set-Shift, then-Shift, iput-Shift}

-- The table after `iget`: the entry that it returns has one reference more.
pub record OneMore (t : List Inode) (x : ℕ × List Inode) : Type 0 where
  pub size : length x.1 ≡ length t
  pub more : (j : ℕ) → ref_at x.1 j ≡ ref_at t j + at x.0 j

pub iget-OneMore : (t : List Inode) (dev inum : ℕ) → On (OneMore t) (iget t dev inum)
unfolding iget recycle_at
iget-OneMore t dev inum = elim (first_cases (holds dev inum) no_inode t) [
  | inr (i, e, f) ↦
      rw (iget, e)
        (returns _ (record {
          size = length-set t i (dup (inode t i));
          more = λ j. ref_up t i j (dup (inode t i)) f.within refl;
        }))
  | inl (e, f) ↦ elim (first_cases is_spare no_inode t) [
    | inl (e', g) ↦ rw (iget, e, e') stops
    | inr (i, e', g) ↦
        rw (iget, e, e')
          (returns _ (record {
            size = length-set t i (recycle dev inum (inode t i));
            more = λ j.
                ref_up t i j (recycle dev inum (inode t i)) g.within (ground (arith, g.passes));
          }))
  ]
]

pub more-Shift :
    (f : Fsys) (x : ℕ × List Inode)
    → OneMore f.table x
    → Shift f [] (x.0 ∷ []) [] [] (record f { table = x.1 })
more-Shift f x m = record {
  size = m.size;
  by_refs = λ j. omega (arith, m.more j);
  by_locks = λ j. refl;
}

-- The entry of what is found.
abbrev pub entry_of : Option (ℕ × ℕ) → List ℕ
entry_of none = []
entry_of (some e) = e.0 ∷ []

pub back-Shift :
    (i : ℕ) (f : Fsys) (o : Open)
    → HasRef (inode f.table i).ref o
    → Shift f [] [] [] [] (back i f o)
back-Shift i f o h = set-Shift f i o.ip o.disk h

pub dirlookup-Shift :
    (size i : ℕ) (name : List ℕ) (f : Fsys)
    → On (λ x. Shift f [] (entry_of x.0) [] [] x.1) (dirlookup size i name f)
unfolding dirlookup
dirlookup-Shift size i name f =
    if-On ((inode f.table i).type == t_dir) _ _
      (bind-On (find_entry size (inode f.table i).size name 0 (open_at f i)) _
        (find_entry-On size (inode f.table i).ref (inode f.table i).size name 0 (open_at f i) refl)
        (λ r h. ends r.0 r.1 (back-Shift i f r.1 h)))
      stops
  where
    ends :
        (r : Option (ℕ × ℕ)) (o : Open)
        → Shift f [] [] [] [] (back i f o)
        → On
            (λ x. Shift f [] (entry_of x.0) [] [] x.1)
            (elim r as (λ _. Option (Option (ℕ × ℕ) × Fsys)) [
              | none ↦ some (none, back i f o)
              | some e ↦
                  (iget (back i f o).table (inode f.table i).dev e.1
                    >>= (λ g. some (some (g.0, e.0), record (back i f o) { table = g.1 })))
            ])
    ends none o h = returns _ h
    ends (some e) o h =
        bind-On (iget (back i f o).table (inode f.table i).dev e.1) _
          (iget-OneMore (back i f o).table (inode f.table i).dev e.1)
          (λ g m.
            returns _
              (then-Shift f (back i f o) _ [] (g.0 ∷ []) [] [] h (more-Shift (back i f o) g m)))

pub dirlink-Shift :
    (size i : ℕ) (name : List ℕ) (inum : ℕ) (f : Fsys)
    → On (λ x. Shift f [] [] [] [] x.1) (dirlink size i name inum f)
unfolding dirlink
dirlink-Shift size i name inum f =
    bind-On (dirlookup size i name f) _ (dirlookup-Shift size i name f) (λ r h. ends r.0 r.1 h)
  where
    ends :
        (r : Option (ℕ × ℕ)) (g : Fsys)
        → Shift f [] (entry_of r) [] [] g
        → On
            (λ x. Shift f [] [] [] [] x.1)
            (elim r as (λ _. Option (ℤ × Fsys)) [
              | some e ↦ (iput e.0 g >>= (λ k. some (minus_one, k)))
              | none ↦ (add_entry size name inum (open_at g i) >>= (λ w. some (w.0, back i g w.1)))
            ])
    ends (some e) g h = bind-On (iput e.0 g) _ (iput-Shift e.0 g) (λ k q. returns _ (record {
      size = q.size ∙ h.size;
      by_refs = λ j. omega (arith, h.by_refs j, q.by_refs j);
      by_locks = λ j. omega (arith, h.by_locks j, q.by_locks j);
    }))
    ends none g h =
        bind-On (add_entry size name inum (open_at g i)) _
          (add_entry-On size (inode g.table i).ref name inum (open_at g i) refl)
          (λ w q. returns _ (then-Shift f g _ [] [] [] [] h (back-Shift i g w.1 q)))

pub ialloc-Shift :
    (ninodes dev type : ℕ) (f : Fsys)
    → On
        (λ x. Shift f [] (maybe x.0) [] [] (record f { disk = x.1; table = x.2 }))
        (ialloc ninodes dev type f.disk f.table)
unfolding ialloc
ialloc-Shift ninodes dev type f = of (spare_from (ninodes - 1) 1 f.disk.dinodes)
  where
    got :
        (inum : ℕ) (r : Option (ℕ × List Inode))
        → On (OneMore f.table) r
        → On
            (λ x. Shift f [] (maybe x.0) [] [] (record f { disk = x.1; table = x.2 }))
            (elim r as (λ _. Option (Option ℕ × Disk × List Inode)) [
              | none ↦ none
              | some g ↦ some (
                some g.0,
                record (f.disk) { dinodes = upd f.disk.dinodes inum (marked type) },
                g.1,
              )
            ])
    got inum _ stops = stops
    got inum _ (returns g m) =
        let h = more-Shift f g m in
        returns _ (record { size = h.size; by_refs = h.by_refs; by_locks = h.by_locks })

    of :
        (r : Option ℕ)
        → On
            (λ x. Shift f [] (maybe x.0) [] [] (record f { disk = x.1; table = x.2 }))
            (elim r as (λ _. Option (Option ℕ × Disk × List Inode)) [
              | none ↦ some (none, f.disk, f.table)
              | some inum ↦
                  elim (iget f.table dev inum) as (λ _. Option (Option ℕ × Disk × List Inode)) [
                    | none ↦ none
                    | some g ↦ some (
                      some g.0,
                      record (f.disk) { dinodes = upd f.disk.dinodes inum (marked type) },
                      g.1,
                    )
                  ]
            ])
    of none = returns _ (record { size = refl; by_refs = λ j. refl; by_locks = λ j. refl })
    of (some inum) = got inum (iget f.table dev inum) (iget-OneMore f.table dev inum)
