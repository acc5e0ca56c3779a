-- ===== src/Fs/Inodes/Puts.antt =====
-- The end of an inode's use: `iput` of Lab-5 Task 5.1, kernel/fs.c.
use cs344_os_lab.Base.{
  ℕ, ◌-◌, ◌<◌, ◌≡◌, ◌≢◌, refl, sym, ap, ◌∙◌, fun_ext, Bool, true, false, ◌&&◌, Option, some, inl,
  inr, arith,
}
use cs344_os_lab.Base.Tests.{Bool-cases, ◌==◌, ==→eq, ==_ne}
use cs344_os_lab.Base.Lists.{length, set, get_or-set_self, set-set}
use cs344_os_lab.Fs.{Inode, Dinode, Open, upd}
use cs344_os_lab.Fs.Io.{iupdate}
use cs344_os_lab.Fs.Slots.{Slot, Legal, value, Inv}
use cs344_os_lab.Fs.Trunc.Clears.{Truncated, dinode_of, itrunc-Truncated}
use cs344_os_lab.Fs.Itable.{no_inode, inode}
use cs344_os_lab.Fs.Inodes.{
  Fsys, open_at, back, release, free_inode, drop_ref, iput, no_type, no_valid,
}

-- No other process can reach the file: the entry has its last reference and is loaded, and the inode
-- has no links.
unfoldable pub last_use : Inode → Bool
last_use ip = ip.ref == 1 && (ip.valid && ip.nlink == 0)

-- The inode of entry `i` is gone in `g`: its entry of the table is free and its entry on the disk
-- too, its blocks are free, and nothing else has changed.
pub record Discarded (f : Fsys) (i : ℕ) (g : Fsys) : Type 0 where
  pub entry : (ip : Inode) × (g.table ≡ set f.table i ip) × (ip.ref ≡ 0) × (ip.valid ≡ false)
  pub dinode :
      (e : Dinode) × (e.type ≡ 0) × (g.disk.dinodes ≡ upd f.disk.dinodes (inode f.table i).inum e)
  pub bytes : g.disk.bytes ≡ f.disk.bytes
  pub gone :
      (s : Slot)
      → Legal s
      → value (open_at f i) s ≢ 0
      → g.disk.bitmap (value (open_at f i) s) ≡ false
  pub others :
      (b : ℕ)
      → ((s : Slot) → Legal s → value (open_at f i) s ≢ 0 → b ≢ value (open_at f i) s)
      → g.disk.bitmap b ≡ f.disk.bitmap b
  pub locks : (j : ℕ) → g.locked j ≡ f.locked j

-- How `iput` ends.
pub data Puts (f : Fsys) (i : ℕ) : Option Fsys → Type 0 where
  drops :
      last_use (inode f.table i) ≡ false
      → Puts f i (
          some (record f {
            table = set f.table i (record (inode f.table i) { ref = (inode f.table i).ref - 1 });
          }))
  discards : (g : Fsys) → last_use (inode f.table i) ≡ true → Discarded f i g → Puts f i (some g)

upd-upd {ℓ} :
    {A : Type ℓ} (f : ℕ → A) (k : ℕ) (v w : A) (j : ℕ) → upd (upd f k v) k w j ≡ upd f k w j
unfolding upd
upd-upd f k v w j = ground arith

module _ (size : ℕ) (f : Fsys) (i : ℕ) (l : i < length f.table) where
  held_back : f.locked i ≡ false → (j : ℕ) → upd f.locked i false j ≡ f.locked j
  unfolding upd
  held_back u j = elim (Bool-cases (j == i)) [
    | inl e ↦ rw e (sym u ∙ ap f.locked (sym (==→eq j i e)))
    | inr e ↦ rw e refl
  ]

  module _ (r : (inode f.table i).ref ≡ 1) (u : f.locked i ≡ false) (o : Open)
      (t : Truncated size (open_at f i) o) where
    left : Fsys
    left = back i (release i f) (no_valid (iupdate (no_type o)))

    abbrev gone_ip : Inode
    gone_ip = record (o.ip) { type = 0; valid = false; ref = o.ip.ref - 1 }

    one_ref : o.ip.ref ≡ 1
    one_ref = ap (λ ip. ip.ref) t.meta ∙ r

    drop_ref-Discarded : (g : Fsys) × (drop_ref i left ≡ some g) × Discarded f i g
    unfolding drop_ref iupdate left
    drop_ref-Discarded =
        rw
          (
            get_or-set_self f.table i (record (o.ip) { type = 0; valid = false }) no_inode l,
            one_ref,
          )
          (
            _,
            refl,
            record {
              entry = (
                record (o.ip) { type = 0; valid = false; ref = 0 },
                set-set f.table i _ _,
                refl,
                refl,
              );
              dinode = (record (dinode_of o.ip) { type = 0 }, refl, written);
              bytes = t.bytes;
              gone = t.gone;
              others = t.others;
              locks = held_back u;
            },
          )
      where
        same_inum : o.ip.inum ≡ (inode f.table i).inum
        same_inum = ap (λ ip. ip.inum) t.meta

        written :
            upd o.disk.dinodes o.ip.inum (record (dinode_of o.ip) { type = 0 })
            ≡ upd f.disk.dinodes (inode f.table i).inum (record (dinode_of o.ip) { type = 0 })
        written =
            ap (λ n. upd o.disk.dinodes n (record (dinode_of o.ip) { type = 0 })) same_inum
            ∙ ap (λ d. upd d (inode f.table i).inum (record (dinode_of o.ip) { type = 0 })) t.saved
            ∙ fun_ext (upd-upd f.disk.dinodes (inode f.table i).inum _ _)

  -- The reference is dropped on its own.
  drops_only :
      last_use (inode f.table i) ≡ false
      → (inode f.table i).ref ≢ 0
      → (r : Fsys) × (drop_ref i f ≡ some r) × Puts f i (some r)
  unfolding drop_ref
  drops_only e nz = rw (==_ne _ 0 nz) (_, refl, drops e)

  -- `iput` of an entry of the table that has a reference, is not locked, and names blocks that are in
  -- use and all different, returns. At the last reference to a loaded inode without links the inode
  -- is gone: its entry in the table and its entry on the disk are free, the blocks that it named are
  -- free, and all other blocks, the bytes of every block, the other inodes and the locks are as they
  -- were. Otherwise only the count of references falls by one.
  pub iput-Puts :
      Inv size (open_at f i)
      → (inode f.table i).ref ≢ 0
      → f.locked i ≡ false
      → (g : Fsys) × (iput i f ≡ some g) × Puts f i (some g)
  unfolding iput free_inode last_use left
  iput-Puts v nz u = elim (Bool-cases (last_use (inode f.table i))) [
    | inr e ↦ rw (iput, e) (drops_only e nz)
    | inl e ↦
        let t = itrunc-Truncated size (open_at f i) v in
        let d = drop_ref-Discarded (ground (arith, e)) u t.0 t.2 in
        rw (iput, e, u, t.1) (d.0, d.1, discards d.0 e d.2)
  ]
