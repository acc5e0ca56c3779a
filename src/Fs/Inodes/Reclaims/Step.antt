-- ===== src/Fs/Inodes/Reclaims/Step.antt =====
-- A round of `ireclaim` of Lab-5 Task 5.1, kernel/fs.c, on an orphan.
use cs344_os_lab.Base.{
  ℕ, ◌+◌, ◌<◌, ◌≤◌, ◌≡◌, ◌≢◌, sym, ap, ◌∙◌, true, false, Option, some, ◌⊎◌, inl, inr, arith,
}
use mathlib.Core.Bool.{false≢true}
use cs344_os_lab.Base.Tests.{Bool-cases, ◌==◌, ==→eq, ==→ne}
use cs344_os_lab.Base.Lists.{length, get_or-set, get_or-set_self, length-set, set-set}
use cs344_os_lab.Fs.{upd}
use cs344_os_lab.Fs.Blocks.{upd_same, upd_ne}
use cs344_os_lab.Fs.Slots.{Slot, Legal, value, Inv}
use cs344_os_lab.Fs.Content.{value_same}
use cs344_os_lab.Fs.Itable.{no_inode, inode, recycle}
use cs344_os_lab.Fs.Inodes.{Fsys, open_at, load, iput, is_orphan}
use cs344_os_lab.Fs.Inodes.Puts.{last_use, Discarded, Puts, drops, discards, iput-Puts}
use cs344_os_lab.Fs.Inodes.Reclaims.{file_at, InUse, Sound, Idle, loaded, Reclaimed}

module _ (size ninodes dev : ℕ) (f : Fsys) (sound : Sound size ninodes f.disk) where
  module _ (n : ℕ) (g : Fsys) (r : Reclaimed f ninodes n g) (u : InUse ninodes f.disk n)
      (orphan : is_orphan (f.disk.dinodes n) ≡ true) (i : ℕ) (l : i < length g.table) where
    same_dinode : g.disk.dinodes n ≡ f.disk.dinodes n
    same_dinode = r.kept n (inl (omega arith))

    loaded_ip :
        inode (loaded dev n i g).table i ≡ load (g.disk.dinodes n) (recycle dev n (inode g.table i))
    unfolding loaded
    loaded_ip = get_or-set_self g.table i _ no_inode l

    value-loaded : (s : Slot) → value (open_at (loaded dev n i g) i) s ≡ value (file_at f.disk n) s
    unfolding loaded
    value-loaded =
        value_same (file_at f.disk n) (open_at (loaded dev n i g) i) r.bytes
          (ap (λ ip. ip.addrs) loaded_ip ∙ ap (λ e. e.addrs) same_dinode)

    loaded-Inv : Inv size (open_at (loaded dev n i g) i)
    unfolding loaded
    loaded-Inv = record {
      boot = r.boot;
      entries =
          ap (λ ip. length ip.addrs) loaded_ip
          ∙ ap (λ e. length e.addrs) same_dinode
          ∙ (sound.each n u).entries;
      small = (sound.each n u).small;
      used = λ s m nz.
          ap g.disk.bitmap (value-loaded s)
          ∙ r.used n u (inl (omega arith)) s m (λ z. nz (value-loaded s ∙ z));
      within = λ s m nz.
          rw (value-loaded s) ((sound.each n u).within s m (λ z. nz (value-loaded s ∙ z)));
      apart = λ s t m p nz e.
          (sound.each n u).apart s t m p (λ z. nz (value-loaded s ∙ z))
            (sym (value-loaded s) ∙ e ∙ value-loaded t);
    }

    loaded_in : i < length (loaded dev n i g).table
    unfolding loaded
    loaded_in =
        rw (length-set g.table i (load (g.disk.dinodes n) (recycle dev n (inode g.table i)))) l

    loaded_ref : (inode (loaded dev n i g).table i).ref ≢ 0
    loaded_ref = rw loaded_ip (omega arith)

    loaded_free : (loaded dev n i g).locked i ≡ false
    unfolding loaded
    loaded_free = upd_same (upd g.locked i true) i false

    loaded-last : last_use (inode (loaded dev n i g).table i) ≡ true
    unfolding last_use
    loaded-last = rw (loaded_ip, same_dinode) (ground (arith, orphan))

    module _ (g' : Fsys) (d : Discarded (loaded dev n i g) i g') where
      at_inum : g'.disk.dinodes ≡ upd g.disk.dinodes n (d.dinode.0)
      unfolding loaded
      at_inum =
          d.dinode.2 ∙ ap (λ k. upd g.disk.dinodes k d.dinode.0) (ap (λ ip. ip.inum) loaded_ip)

      -- A block of another inode is not touched.
      untouched :
          (k : ℕ)
          → InUse ninodes f.disk k
          → k ≢ n
          → (s : Slot) → Legal s
          → value (file_at f.disk k) s ≢ 0
          → g'.disk.bitmap (value (file_at f.disk k) s) ≡ g.disk.bitmap (value (file_at f.disk k) s)
      unfolding loaded
      untouched k w ne s m nz =
          d.others (value (file_at f.disk k) s)
            (λ t p y e. sound.disjoint k n w u ne s t m p nz (e ∙ value-loaded t))

      passed : (k : ℕ) → (n + 1 ≤ k) ⊎ (is_orphan (f.disk.dinodes k) ≡ false) → k ≢ n
      passed k (inl h) e = omega arith
      passed k (inr h) e = false≢true (sym h ∙ ap (λ j. is_orphan (f.disk.dinodes j)) e ∙ orphan)

      earlier :
          (k : ℕ)
          → (n + 1 ≤ k) ⊎ (is_orphan (f.disk.dinodes k) ≡ false)
          → (n ≤ k) ⊎ (is_orphan (f.disk.dinodes k) ≡ false)
      earlier k (inl h) = inl (omega arith)
      earlier k (inr h) = inr h

      spare_after : (j : ℕ) → (inode g'.table j).ref ≡ 0
      unfolding loaded
      spare_after j =
          let e = d.entry.1 in
          rw
            (
              e,
              set-set g.table i (load (g.disk.dinodes n) (recycle dev n (inode g.table i)))
                  d.entry.0,
            )
            (ground (arith, get_or-set g.table i j d.entry.0 no_inode l, d.entry.2, r.idle.spare j))

      discarded-Idle : Idle g'
      unfolding loaded upd
      discarded-Idle = record {
        room = rw (d.entry.1, length-set, length-set) r.idle.room;
        spare = spare_after;
        unlocked = λ j. d.locks j ∙ ground (arith, r.idle.unlocked j);
      }

      discarded-Reclaimed : Reclaimed f ninodes (n + 1) g'
      unfolding loaded
      discarded-Reclaimed = record {
        idle = discarded-Idle;
        boot = d.others 0 (λ s m nz e. nz (sym e)) ∙ r.boot;
        bytes = d.bytes ∙ r.bytes;
        done = λ k w h o. elim (Bool-cases (k == n)) [
          | inl e ↦
              ap (λ t. (t k).type) at_inum
              ∙ ap (λ j. (upd g.disk.dinodes n d.dinode.0 j).type) (==→eq k n e)
              ∙ ap (λ t. t.type) (upd_same g.disk.dinodes n d.dinode.0)
              ∙ d.dinode.1
          | inr e ↦
              ap (λ t. (t k).type) at_inum
              ∙ ap (λ t. t.type) (upd_ne g.disk.dinodes n d.dinode.0 k (==→ne k n e))
              ∙ r.done k w (ground (arith, h, e)) o
        ];
        freed = λ k w h o s m nz. elim (Bool-cases (k == n)) [
          | inl e ↦
              ap (λ j. g'.disk.bitmap (value (file_at f.disk j) s)) (==→eq k n e)
              ∙ ap g'.disk.bitmap (sym (value-loaded s))
              ∙ d.gone s m (λ z.
                nz (ap (λ j. value (file_at f.disk j) s) (==→eq k n e) ∙ sym (value-loaded s) ∙ z))
          | inr e ↦ untouched k w (==→ne k n e) s m nz ∙ r.freed k w (ground (arith, h, e)) o s m nz
        ];
        kept = λ k h.
            ap (λ t. t k) at_inum
            ∙ upd_ne g.disk.dinodes n d.dinode.0 k (passed k h)
            ∙ r.kept k (earlier k h);
        used = λ k w h s m nz. untouched k w (passed k h) s m nz ∙ r.used k w (earlier k h) s m nz;
      }

    ends_at :
        (x : Option Fsys)
        → (g' : Fsys) × (x ≡ some g') × Puts (loaded dev n i g) i (some g')
        → (g' : Fsys) × (x ≡ some g') × Reclaimed f ninodes (n + 1) g'
    ends_at x (_, e, drops h) = absurd (false≢true (sym h ∙ loaded-last))
    ends_at x (g', e, discards _ h d) = (g', e, discarded-Reclaimed g' d)

    -- One round on an orphan.
    pub iput-Reclaimed :
        (g' : Fsys) × (iput i (loaded dev n i g) ≡ some g') × Reclaimed f ninodes (n + 1) g'
    iput-Reclaimed =
        ends_at (iput i (loaded dev n i g))
          (iput-Puts size (loaded dev n i g) i loaded_in loaded-Inv loaded_ref loaded_free)
