-- ===== src/Fs/Names/Descend.antt =====
-- One round of `namex` of Lab-5 Task 5.1, kernel/fs.c.
use cs344_os_lab.Base.{
  ℕ, ◌+◌, ◌≡◌, ◌≢◌, refl, sym, ap, ◌∙◌, subst, Bool, true, false, ◌&&◌, Option, none, some, List,
  ◌⊎◌, inl, inr, arith,
}
use cs344_os_lab.Base.Tests.{Bool-cases, ◌==◌, ==→eq, ==→ne}
use cs344_os_lab.Base.Partial.{◌>>=◌}
use cs344_os_lab.Base.Search.{NonePasses}
use cs344_os_lab.Fs.{Inode}
use cs344_os_lab.Base.Bags.{at}
use cs344_os_lab.Base.Lists.{length, length-set}
use cs344_os_lab.Fs.Accounts.{ref_at}
use cs344_os_lab.Fs.Itable.{no_inode, inode, holds, is_spare, dup}
use cs344_os_lab.Fs.Inodes.{Fsys, open_at, release, iunlockput}
use cs344_os_lab.Fs.Inodes.Reclaims.{file_at}
use cs344_os_lab.Fs.Dirs.{t_dir, dirlookup}
use cs344_os_lab.Fs.Dirs.Scan.{Dense, Finds}
use cs344_os_lab.Fs.Dirs.Lookup.{Looks, missing, present, no_room, dirlookup-Looks}
use cs344_os_lab.Fs.Names.{Round, returns, goes, is_nil, descend, name_round}
use cs344_os_lab.Fs.Names.Got.{Got, Gots, got, all_used, iget-Gots}
use cs344_os_lab.Fs.Names.Walk.{Dense-same, Finds-same}
use cs344_os_lab.Fs.Names.Steps.{
  Ready, Held, locked_at, ilock_lem, locked_ip, locked-Held, locked_refs, Put, iunlock_lem,
  release-Ready, iunlockput-Put,
}

-- The walk has given its reference to entry `ip` for one to inode `j` at entry `e`.
pub record At (f : Fsys) (ip e j : ℕ) (g : Fsys) : Type 0 where
  pub ready : Ready g
  pub disk : g.disk ≡ f.disk
  pub used : (inode g.table e).ref ≢ 0
  pub inum : (inode g.table e).inum ≡ j
  pub counts : (i : ℕ) → ref_at g.table i + at ip i ≡ ref_at f.table i + at e i
  pub size : length g.table ≡ length f.table

-- The walk has given up its reference.
pub record Left (f : Fsys) (ip : ℕ) (g : Fsys) : Type 0 where
  pub ready : Ready g
  pub disk : g.disk ≡ f.disk
  pub counts : (i : ℕ) → ref_at g.table i + at ip i ≡ ref_at f.table i
  pub size : length g.table ≡ length f.table

-- How a round at inode `k` ends.
pub data After (parent : Bool) (rest name : List ℕ) (f : Fsys) (ip k : ℕ)
    : Option Round → Type 0 where
  no_dir :
      (g : Fsys)
      → (f.disk.dinodes k).type ≢ t_dir
      → Left f ip g
      → After parent rest name f ip k (some (returns none g))
  at_parent :
      (g : Fsys)
      → (f.disk.dinodes k).type ≡ t_dir
      → (parent && is_nil rest) ≡ true
      → At f ip ip k g
      → After parent rest name f ip k (some (returns (some ip) g))
  misses :
      (g : Fsys)
      → (f.disk.dinodes k).type ≡ t_dir
      → (parent && is_nil rest) ≡ false
      → Finds name (file_at f.disk k) 0 none
      → Left f ip g
      → After parent rest name f ip k (some (returns none g))
  moves :
      (off j next : ℕ) (g : Fsys)
      → (f.disk.dinodes k).type ≡ t_dir
      → (parent && is_nil rest) ≡ false
      → Finds name (file_at f.disk k) 0 (some (off, j))
      → At f ip next j g
      → After parent rest name f ip k (some (goes next g))
  full :
      (off j : ℕ) (t : List Inode)
      → (f.disk.dinodes k).type ≡ t_dir
      → (parent && is_nil rest) ≡ false
      → Finds name (file_at f.disk k) 0 (some (off, j))
      → (inode t ip).inum ≡ k
      → length t ≡ length f.table
      → ((i : ℕ) → ref_at t i ≡ ref_at f.table i)
      → NonePasses (holds (inode t ip).dev j) no_inode t
      → NonePasses is_spare no_inode t
      → After parent rest name f ip k none

module _ (size : ℕ) (parent : Bool) (rest name : List ℕ) (f : Fsys) (ip : ℕ) (r : Ready f)
    (u : (inode f.table ip).ref ≢ 0) where
  abbrev k : ℕ
  k = (inode f.table ip).inum

  abbrev g : Fsys
  g = locked_at ip f

  held : Held ip g
  held = locked-Held ip f r u

  ip_type : (inode g.table ip).type ≡ (f.disk.dinodes k).type
  ip_type = ap (λ i. i.type) (locked_ip ip f r u)

  same_size : length g.table ≡ length f.table
  same_size = length-set f.table ip _

  Put-Left : (h : Fsys) → Put ip g h → Left f ip h
  Put-Left h p = record {
    ready = p.ready;
    disk = p.disk;
    counts = λ i. p.counts i ∙ locked_refs ip f r u i;
    size = p.size ∙ same_size;
  }

  abbrev Dir : Type 0
  Dir = (f.disk.dinodes k).type ≡ t_dir

  open_at-Dense : Dir → Dense (open_at g ip)
  open_at-Dense t =
      Dense-same (file_at f.disk k) (open_at g ip) refl (ap (λ i. i.addrs) (locked_ip ip f r u))
        (ap (λ i. i.size) (locked_ip ip f r u)) (r.sane.dense k t)

  on_disk : (q : Option (ℕ × ℕ)) → Finds name (open_at g ip) 0 q → Finds name (file_at f.disk k) 0 q
  on_disk q =
      Finds-same (file_at f.disk k) (open_at g ip) refl (ap (λ i. i.addrs) (locked_ip ip f r u))
        (ap (λ i. i.size) (locked_ip ip f r u)) name 0 q

  module _ (j next : ℕ) (t : List Inode)
      (o : Got f.disk g.table (inode g.table ip).dev j next t) where
    abbrev h : Fsys
    h = record g { table = t }

    same_or_more : (inode t ip ≡ inode g.table ip) ⊎ (inode t ip ≡ dup (inode g.table ip))
    same_or_more = o.others ip held.used

    still-Held : Held ip h
    still-Held = record {
      sane = r.sane;
      tidy = o.tidy;
      used = elim same_or_more [ inl e ↦ rw e held.used | inr e ↦ rw e (omega arith) ];
      valid = elim same_or_more [ inl e ↦ rw e held.valid | inr e ↦ rw e held.valid ];
      lock = held.lock;
      others = held.others;
    }

    -- The directory names itself: its entry has two references, and one is given up.
    again :
        next ≡ ip
        → (h' : Fsys) → Put ip h h'
        → (inode h'.table next).ref ≡ 0
        → (inode g.table ip).ref ≡ 0
    again e h' p z = omega (
      arith,
      z,
      ap (λ n. (inode h'.table n).ref) e,
      ap (λ i. i.ref) p.here,
      ap (λ n. (inode t n).ref) e,
      ap (λ i. i.ref) (o.again (λ y. held.used (sym (ap (λ n. (inode g.table n).ref) e) ∙ y))),
      ap (λ n. (inode g.table n).ref) e,
    )

    Put-At : (h' : Fsys) → Put ip h h' → At f ip next j h'
    Put-At h' p = record {
      ready = p.ready;
      disk = p.disk;
      used = elim (Bool-cases (next == ip)) [
        | inl e ↦ λ z. held.used (again (==→eq next ip e) h' p z)
        | inr e ↦ rw (p.others next (==→ne next ip e)) o.held
      ];
      inum = elim (Bool-cases (next == ip)) [
        | inl e ↦
            ap (λ n. (inode h'.table n).inum) (==→eq next ip e)
            ∙ ap (λ i. i.inum) p.here
            ∙ ap (λ n. (inode t n).inum) (sym (==→eq next ip e))
            ∙ o.is_inum
        | inr e ↦ rw (p.others next (==→ne next ip e)) o.is_inum
      ];
      counts = λ i. omega (arith, p.counts i, o.counts i, locked_refs ip f r u i);
      size = p.size ∙ o.size ∙ same_size;
    }

  no_spare :
      (j : ℕ) (l : (f.disk.dinodes j).type ≢ 0)
      → Gots f.disk g.table (inode g.table ip).dev j held.tidy l none
      → NonePasses (holds (inode g.table ip).dev j) no_inode g.table
        × NonePasses is_spare no_inode g.table
  no_spare j l (all_used a h) = (a, h)

  found :
      (off j : ℕ) (e : ℕ × List Inode)
      → Dir
      → (parent && is_nil rest) ≡ false
      → Finds name (file_at f.disk k) 0 (some (off, j))
      → (l : (f.disk.dinodes j).type ≢ 0)
      → Gots f.disk g.table (inode g.table ip).dev j held.tidy l (some e)
      → After parent rest name f ip k
          (iunlockput ip (record g { table = e.1 }) >>= (λ h. some (goes e.0 h)))
  found off j _ t n p l (got next t' o) =
      let b = iunlockput-Put ip (record g { table = t' }) (still-Held j next t' o) in
      rw (b.1) (moves off j next b.0 t n p (Put-At j next t' o b.0 b.2))

  descend-After :
      Dir
      → (parent && is_nil rest) ≡ false
      → After parent rest name f ip k (descend size parent name ip g)
  unfolding descend
  descend-After t n =
      looked (dirlookup size ip name g)
        (dirlookup-Looks size ip name g (ip_type ∙ t) (open_at-Dense t))
    where
      looked :
          (q : Option (Option (ℕ × ℕ) × Fsys))
          → Looks name g ip q
          → After parent rest name f ip k (
              q >>= (λ x. iunlockput ip x.1 >>= (λ h.
                some (elim (x.0) as (λ y. Round) [ none ↦ returns none h | some e ↦ goes e.0 h ]))))
      looked _ (missing p) =
          let b = iunlockput-Put ip g held in
          rw (b.1) (misses b.0 t n (on_disk none p) (Put-Left b.0 b.2))
      looked _ (present off j e p q) =
          let l = r.sane.closed k off j name t (on_disk (some (off, j)) p) in
          found off j e t n (on_disk (some (off, j)) p) l (
            subst (Gots f.disk g.table (inode g.table ip).dev j held.tidy l) q
              (iget-Gots f.disk g.table (inode g.table ip).dev j held.tidy l))
      looked _ (no_room off j p q) =
          let l = r.sane.closed k off j name t (on_disk (some (off, j)) p) in
          let z = no_spare j l (
            subst (Gots f.disk g.table (inode g.table ip).dev j held.tidy l) q
              (iget-Gots f.disk g.table (inode g.table ip).dev j held.tidy l)) in
          full off j g.table t n (on_disk (some (off, j)) p) (ap (λ i. i.inum) (locked_ip ip f r u))
            same_size (locked_refs ip f r u) z.0 z.1

  pub name_round-After : After parent rest name f ip k (name_round size parent rest name ip f)
  unfolding name_round
  name_round-After =
      rw (name_round, ilock_lem ip f r u, ip_type)
        (elim (Bool-cases ((f.disk.dinodes k).type == t_dir)) [
          | inr e ↦
              let b = iunlockput-Put ip g held in
              rw (e, b.1) (no_dir b.0 (==→ne _ t_dir e) (Put-Left b.0 b.2))
          | inl e ↦ rw e (elim (Bool-cases (parent && is_nil rest)) [
            | inr n ↦ rw n (descend-After (==→eq _ t_dir e) n)
            | inl n ↦
                rw (n, iunlock_lem ip g held)
                  (at_parent (release ip g) (==→eq _ t_dir e) n (record {
                    ready = release-Ready ip g held;
                    disk = refl;
                    used = held.used;
                    inum = ap (λ i. i.inum) (locked_ip ip f r u);
                    counts = λ i. ap (λ n. n + at ip i) (locked_refs ip f r u i);
                    size = same_size;
                  }))
          ])
        ])
