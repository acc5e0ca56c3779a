-- ===== src/Fs/Bmap.antt =====
-- The two ways in which `bmap` of Lab-5 Task 5.1, kernel/fs.c, fills a slot that is empty.
pub mod Grows
pub mod Maps
use cs344_os_lab.Base.{
  ℕ, zero, suc, ◌+◌, ◌*◌, ◌<◌, ◌≤◌, ◌≡◌, ◌≢◌, refl, sym, ap, ap₂, ◌∙◌, subst, Bool, true, false,
  List, arith, inl, inr, ◌⊎◌,
}
use mathlib.Core.Bool.{false≢true}
use cs344_os_lab.Base.Tests.{if◌then◌else◌, ◌==◌, Bool-cases, ==→eq, ==→ne, ==_self, ==_ne, tests}
use cs344_os_lab.Base.Lists.{length, get_or, set, get_or-set_self, get_or-set_ne, length-set}
use cs344_os_lab.Fs.{
  Disk, Dinode, Inode, Open, upd, read_word, write_word, balloc, fill_addr, fill_word, nindirect,
}
use cs344_os_lab.Fs.Blocks.{
  upd_same, upd_ne, read_word-write_word, read_word-write_word_ne, Allocates, full, gives,
  balloc-Allocates,
}
use cs344_os_lab.Fs.Slots.{
  Slot, top, sub, Legal, parent-Legal, value, Inv, Change, through, no_deeper, through_none,
  through_same, through_nonzero,
}

-- How slot `s` is filled: it is full already, no block is free, or it takes a fresh one. In that
-- case nothing but the blocks it names, the entries and the block that holds the slot change.
pub record Same (o o' : Open) (s : Slot) (b : ℕ) : Type 0 where
  pub meta : o'.ip ≡ record o.ip { addrs = o'.ip.addrs }
  pub dinodes : o'.disk.dinodes ≡ o.disk.dinodes
  pub bytes :
      (c : ℕ)
      → c ≢ b
      → ((p : Slot) (i : ℕ) → s ≡ sub p i → c ≢ value o p)
      → o'.disk.bytes c ≡ o.disk.bytes c

pub data Fills (size : ℕ) (o : Open) (s : Slot) : ℕ → Open → Type 0 where
  kept : value o s ≢ 0 → Fills size o s (value o s) o
  none_free : value o s ≡ 0 → ((b : ℕ) → b < size → o.disk.bitmap b ≡ true) → Fills size o s 0 o
  fresh : (b : ℕ) (o' : Open) → b ≢ 0 → Change size o o' s b → Same o o' s b → Fills size o s b o'

abbrev FilledBy : ℕ → Open → Slot → ℕ × Open → Type 0
FilledBy size o s r = Fills size o s r.0 r.1

pub fill_addr_full :
    (size k : ℕ) (o : Open) → value o (top k) ≢ 0 → fill_addr size k o ≡ (value o (top k), o)
unfolding fill_addr value
fill_addr_full size k o nz = rw (==_ne _ 0 nz) refl

-- An index block that a full entry names is there.
pub value_above : (o : Open) (s : Slot) (i : ℕ) → value o (sub s i) ≢ 0 → value o s ≢ 0
unfolding value
value_above o s i nz z = nz (ap (λ v. through o.disk.bytes v i) z ∙ through_none o.disk.bytes i)

pub fill_word_full :
    (size : ℕ) (s : Slot) (i : ℕ) (o : Open)
    → value o (sub s i) ≢ 0
    → fill_word size (value o s) i o ≡ (value o (sub s i), o)
unfolding fill_word value
fill_word_full size s i o nz =
    rw (sym (through_nonzero o.disk.bytes (value o s) i (value_above o s i nz)), ==_ne _ 0 nz) refl

module _ (size : ℕ) (o : Open) (v : Inv size o) where
  not_boot : (b : ℕ) → o.disk.bitmap b ≡ false → b ≢ 0
  not_boot b f e = false≢true (sym f ∙ ap o.disk.bitmap e ∙ v.boot)

  not_used : (b : ℕ) (t : Slot) → o.disk.bitmap b ≡ false → Legal t → value o t ≢ 0 → value o t ≢ b
  not_used b t f l nz e = false≢true (sym f ∙ ap o.disk.bitmap (sym e) ∙ v.used t l nz)

  pub fill_addr-Fills :
      (k : ℕ) → k < 13 → Fills size o (top k) (fill_addr size k o).0 (fill_addr size k o).1
  unfolding fill_addr value Legal
  fill_addr-Fills k l = elim (Bool-cases (get_or o.ip.addrs k 0 == 0)) [
    | inl e ↦ rw e (
        filled (==→eq _ 0 e) (balloc size o.disk).0 (balloc size o.disk).1
          (balloc-Allocates size o.disk))
    | inr e ↦ rw e (kept (==→ne _ 0 e))
  ]
    where
      filled :
          get_or o.ip.addrs k 0 ≡ 0
          → (b : ℕ) (d : Disk) → Allocates size o.disk b d
          → FilledBy size o (top k) (
              if b == 0
              then (0, record o { disk = d })
              else (b, record { disk = d; ip = record o.ip { addrs = set o.ip.addrs k b } }))
      filled e _ _ (full h) = none_free e h
      filled e _ _ (gives b w f h) = rw (==_ne b 0 (not_boot b f)) (
          fresh b o' (not_boot b f)
            (record {
              legal = l;
              empty = e;
              holds = get_or-set_self o.ip.addrs k b 0 (rw v.entries l);
              free = f;
              below = w;
              marks = refl;
              counts = length-set o.ip.addrs k b ∙ v.entries;
              blank = upd_same o.disk.bytes b _;
              tops = λ j. elim (Bool-cases (k == j)) [
                | inl q ↦ inl (ap top (sym (==→eq k j q)))
                | inr q ↦ inr (get_or-set_ne o.ip.addrs k j b 0 (==→ne k j q))
              ];
              words = λ u h m nz. inr (λ q. rw q (
                  through_same _ _ (value o u) h
                    (upd_ne o.disk.bytes b _ (value o u) (not_used b u f m nz))));
            })
            (record { meta = refl; dinodes = refl; bytes = λ c n _. upd_ne o.disk.bytes b _ c n }))
        where
          o' : Open
          o' = record {
            disk = record {
              bitmap = upd o.disk.bitmap b true;
              dinodes = o.disk.dinodes;
              bytes = upd o.disk.bytes b (λ j. 0);
            };
            ip = record o.ip { addrs = set o.ip.addrs k b };
          }

  pub fill_word-Fills :
      (p : Slot) (i : ℕ)
      → Legal (sub p i)
      → value o p ≢ 0
      → Fills size o (sub p i) (fill_word size (value o p) i o).0 (fill_word size (value o p) i o).1
  unfolding fill_word value
  fill_word-Fills p i l nz = elim (Bool-cases (read_word (o.disk.bytes (value o p)) i == 0)) [
    | inl e ↦ rw e (
        filled (through_nonzero _ _ i nz ∙ ==→eq _ 0 e) (balloc size o.disk).0
          (balloc size o.disk).1 (balloc-Allocates size o.disk))
    | inr e ↦ rw e (
        subst (λ r. Fills size o (sub p i) r o) (through_nonzero _ _ i nz)
          (kept (λ z. ==→ne _ 0 e (sym (through_nonzero _ _ i nz) ∙ z))))
  ]
    where
      filled :
          value o (sub p i) ≡ 0
          → (b : ℕ) (d : Disk) → Allocates size o.disk b d
          → FilledBy size o (sub p i) (
              if b == 0 then (0, record o { disk = d }) else (
                b,
                record o {
                  disk = record d {
                    bytes = upd d.bytes (value o p) (write_word (o.disk.bytes (value o p)) i b);
                  };
                },
              ))
      filled e _ _ (full h) = none_free e h
      filled e _ _ (gives b w f h) = rw (==_ne b 0 (not_boot b f)) (
          fresh b o' (not_boot b f)
            (record {
              legal = l;
              empty = e;
              holds =
                  ap (λ q. through bytes' q i) (still p nz refl l)
                  ∙ through_nonzero _ _ i nz
                  ∙ ap (λ w'. read_word w' i) (upd_same _ (value o p) _)
                  ∙ read_word-write_word _ i b (ground (arith, w, v.small));
              free = f;
              below = w;
              marks = refl;
              counts = v.entries;
              blank =
                  upd_ne _ _ _ b (λ q. not_used b p f (parent-Legal p i l) nz (sym q))
                  ∙ upd_same o.disk.bytes b _;
              tops = λ j. inr refl;
              words = λ u h' m nzu. elim (Bool-cases (value o u == value o p)) [
                | inl q ↦ elim (Bool-cases (h' == i)) [
                  | inl z ↦
                      inl (
                        ap₂ sub (v.apart u p m (parent-Legal p i l) nzu (==→eq _ _ q))
                          (==→eq _ _ z))
                  | inr z ↦ inr (rewritten u h' (==→eq _ _ q) (==→ne _ _ z))
                ]
                | inr q ↦
                    inr (λ z.
                      rw z (through_same _ _ (value o u) h' (elsewhere u m nzu (==→ne _ _ q))))
              ];
            })
            (record {
              meta = refl;
              dinodes = refl;
              bytes = λ c n q. upd_ne _ _ _ c (q p i refl) ∙ upd_ne o.disk.bytes b _ c n;
            }))
        where
          bytes' : ℕ → ℕ → ℕ
          bytes' =
              upd (upd o.disk.bytes b (λ j. 0)) (value o p)
                (write_word (o.disk.bytes (value o p)) i b)

          o' : Open
          o' = record o {
            disk = record {
              bitmap = upd o.disk.bitmap b true;
              dinodes = o.disk.dinodes;
              bytes = bytes';
            };
          }

          elsewhere :
              (u : Slot)
              → Legal u
              → value o u ≢ 0
              → value o u ≢ value o p
              → bytes' (value o u) ≡ o.disk.bytes (value o u)
          elsewhere u m nzu q =
              upd_ne _ _ _ (value o u) q
              ∙ upd_ne o.disk.bytes b _ (value o u) (not_used b u f m nzu)

          above : (k g : ℕ) → Legal (sub (sub (top k) g) i) → Legal (top k)
          above k g m = parent-Legal (top k) g (parent-Legal (sub (top k) g) i m)

          named : (k g : ℕ) → value o (sub (top k) g) ≢ 0 → value o (top k) ≢ 0
          named k g z y = z (ap (λ x. through o.disk.bytes x g) y ∙ through_none o.disk.bytes g)

          top_sub : (k g : ℕ) → top k ≢ sub (top k) g
          top_sub k g y = ground (arith, y)

          rewritten :
              (u : Slot) (h : ℕ)
              → value o u ≡ value o p
              → h ≢ i
              → value o' u ≡ value o u
              → value o' (sub u h) ≡ value o (sub u h)
          rewritten u h q z y =
              ap (λ x. through bytes' x h) (y ∙ q)
              ∙ through_nonzero _ _ h nz
              ∙ ap (λ x. read_word x h) (upd_same _ (value o p) _)
              ∙ read_word-write_word_ne (o.disk.bytes (value o p)) i b h z
              ∙ sym (through_nonzero o.disk.bytes _ h nz)
              ∙ ap (λ x. through o.disk.bytes x h) (sym q)

          still :
              (t : Slot)
              → value o t ≢ 0
              → value o t ≡ value o p
              → Legal (sub t i)
              → value o' t ≡ value o t
          still (top k) z q m = refl
          still (sub (top k) g) z q m = through_same _ _ (value o (top k)) g (
              elsewhere (top k) (above k g m) (named k g z) (λ y. top_sub k g (
                v.apart (top k) (sub (top k) g) (above k g m) (parent-Legal _ i m) (named k g z)
                  (y ∙ sym q))))
          still (sub (sub t g') g) z q m = absurd (no_deeper t g' g i m)
