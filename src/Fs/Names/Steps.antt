-- ===== src/Fs/Names/Steps.antt =====
-- The steps of a round of `namex` of Lab-5 Task 5.1, kernel/fs.c: `ilock` at its start and `iunlock` or
-- `iunlockput` at its end.
use cs344_os_lab.Base.{
  ℕ, ◌+◌, ◌-◌, ◌≡◌, ◌≢◌, refl, sym, ap, ◌∙◌, true, false, Option, some, List, inl, inr, arith,
}
use cs344_os_lab.Base.Tests.{Bool-cases, ltb, ◌==◌, ==→eq, ==→ne, ==_ne}
use cs344_os_lab.Base.Lists.{length, set, length-set, get_or-set_self, get_or-set_ne, set-get_or}
use cs344_os_lab.Fs.{Inode, upd}
use cs344_os_lab.Fs.Blocks.{upd_same, upd_ne}
use cs344_os_lab.Fs.Itable.{no_inode, inode}
use cs344_os_lab.Fs.Inodes.{Fsys, hold, release, load, ilock, iunlock, iput, drop_ref, iunlockput}
use cs344_os_lab.Fs.Names.Tidy.{Tidy, in_table, Refresh-Tidy}
use cs344_os_lab.Base.Bags.{at}
use cs344_os_lab.Fs.Accounts.{ref_at, ref_kept, ref_down}
use cs344_os_lab.Fs.Names.Walk.{Sane}

-- No lock is held.
pub record Ready (f : Fsys) : Type 0 where
  pub sane : Sane f.disk
  pub tidy : Tidy f.disk f.table
  pub unlocked : (j : ℕ) → f.locked j ≡ false

-- Only the lock of entry `i` is held, and the entry is loaded.
pub record Held (i : ℕ) (f : Fsys) : Type 0 where
  pub sane : Sane f.disk
  pub tidy : Tidy f.disk f.table
  pub used : (inode f.table i).ref ≢ 0
  pub valid : (inode f.table i).valid ≡ true
  pub lock : f.locked i ≡ true
  pub others : (j : ℕ) → j ≢ i → f.locked j ≡ false

abbrev pub locked_at : ℕ → Fsys → Fsys
locked_at i f = record (hold i f) {
  table = set f.table i (load (f.disk.dinodes (inode f.table i).inum) (inode f.table i));
}

module _ (i : ℕ) (f : Fsys) (r : Ready f) (u : (inode f.table i).ref ≢ 0) where
  pub ilock_lem : ilock i f ≡ some (locked_at i f)
  unfolding ilock
  ilock_lem =
      let nonzero : ltb (inode f.table i).ref 1 ≡ false = ground (arith, u) in
      rw (ilock, nonzero, r.unlocked i)
        (elim (Bool-cases (inode f.table i).valid) [
          | inl e ↦ rw e (
              ap {A = List Inode} {B = Option Fsys} (λ t. some (record (hold i f) { table = t }))
                (sym
                  (ap (set f.table i) (sym (r.tidy.synced i u e)) ∙ set-get_or f.table i no_inode)))
          | inr e ↦ rw (e, ==_ne _ 0 (r.tidy.live i u)) refl
        ])

  pub locked_ip :
      inode (locked_at i f).table i ≡ load (f.disk.dinodes (inode f.table i).inum) (inode f.table i)
  locked_ip = get_or-set_self f.table i _ no_inode (in_table f.table i u)

  pub locked-Held : Held i (locked_at i f)
  locked-Held = record {
    sane = r.sane;
    tidy =
        Refresh-Tidy f.disk f.table i _ (in_table f.table i u)
          (record { dev = refl; inum = refl; held = λ _. u; synced = λ _ _. refl }) r.tidy;
    used = rw locked_ip u;
    valid = rw locked_ip refl;
    lock = upd_same f.locked i true;
    others = λ j ne. upd_ne f.locked i true j ne ∙ r.unlocked j;
  }

  pub locked_refs : (j : ℕ) → ref_at (locked_at i f).table j ≡ ref_at f.table j
  locked_refs j =
      ref_kept f.table i j (load (f.disk.dinodes (inode f.table i).inum) (inode f.table i)) refl

-- Entry `i` has lost a reference.
pub record Put (i : ℕ) (f g : Fsys) : Type 0 where
  pub disk : g.disk ≡ f.disk
  pub ready : Ready g
  pub counts : (j : ℕ) → ref_at g.table j + at i j ≡ ref_at f.table j
  pub size : length g.table ≡ length f.table
  pub here : inode g.table i ≡ record (inode f.table i) { ref = (inode f.table i).ref - 1 }
  pub others : (j : ℕ) → j ≢ i → inode g.table j ≡ inode f.table j

module _ (i : ℕ) (f : Fsys) (h : Held i f) where
  pub iunlock_lem : iunlock i f ≡ some (release i f)
  unfolding iunlock
  iunlock_lem =
      let nonzero : ltb (inode f.table i).ref 1 ≡ false = ground (arith, h.used) in
      rw (iunlock, h.lock, nonzero) refl

  pub release-Ready : Ready (release i f)
  release-Ready = record { sane = h.sane; tidy = h.tidy; unlocked = free }
    where
      free : (j : ℕ) → upd f.locked i false j ≡ false
      free j = elim (Bool-cases (j == i)) [
        | inl e ↦ ap (upd f.locked i false) (==→eq j i e) ∙ upd_same f.locked i false
        | inr e ↦ upd_ne f.locked i false j (==→ne j i e) ∙ h.others j (==→ne j i e)
      ]

module _ (i : ℕ) (f : Fsys) (r : Ready f) (u : (inode f.table i).ref ≢ 0) where
  -- An inode in use has a link, so its last reference does not free it.
  kept : (inode f.table i).valid ≡ true → (inode f.table i).nlink ≢ 0
  kept v z =
      r.sane.linked (inode f.table i).inum (r.tidy.live i u)
        (sym (ap (λ ip. ip.nlink) (r.tidy.synced i u v)) ∙ z)

  dropped : Fsys
  dropped = record f {
    table = set f.table i (record (inode f.table i) { ref = (inode f.table i).ref - 1 });
  }

  drops : drop_ref i f ≡ some dropped
  unfolding drop_ref dropped
  drops = rw (drop_ref, ==_ne _ 0 u) refl

  iput-drops : iput i f ≡ some dropped
  unfolding iput
  iput-drops = elim (Bool-cases (inode f.table i).valid) [
    | inr e ↦ rw (iput, e) (ground (arith, drops))
    | inl e ↦ rw (iput, e, ==_ne _ 0 (kept e)) (ground (arith, drops))
  ]

  dropped-Put : Put i f dropped
  unfolding dropped
  dropped-Put = record {
    disk = refl;
    ready = record {
      sane = r.sane;
      tidy =
          Refresh-Tidy f.disk f.table i _ (in_table f.table i u)
            (record {
              dev = refl;
              inum = refl;
              held = λ _. u;
              synced = λ _ v.
                  ap {A = Inode} {B = Inode} (λ ip. record ip { ref = (inode f.table i).ref - 1 })
                    (r.tidy.synced i u v);
            })
            r.tidy;
      unlocked = r.unlocked;
    };
    counts = λ j.
        ref_down f.table i j (record (inode f.table i) { ref = (inode f.table i).ref - 1 })
          (in_table f.table i u) (omega (arith, u));
    size = length-set f.table i (record (inode f.table i) { ref = (inode f.table i).ref - 1 });
    here = get_or-set_self f.table i _ no_inode (in_table f.table i u);
    others = λ j ne. get_or-set_ne f.table i j _ no_inode (λ e. ne (sym e));
  }

  pub iput-Put : (g : Fsys) × (iput i f ≡ some g) × Put i f g
  iput-Put = (dropped, iput-drops, dropped-Put)

pub iunlockput-Put :
    (i : ℕ) (f : Fsys) → Held i f → (g : Fsys) × (iunlockput i f ≡ some g) × Put i f g
unfolding iunlockput
iunlockput-Put i f h =
    let p = iput-Put i (release i f) (release-Ready i f h) h.used in
    rw (iunlockput, iunlock_lem i f h)
      (
        p.0,
        p.1,
        record {
          disk = (p.2).disk;
          ready = (p.2).ready;
          counts = (p.2).counts;
          size = (p.2).size;
          here = (p.2).here;
          others = (p.2).others;
        },
      )
