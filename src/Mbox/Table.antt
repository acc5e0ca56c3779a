-- ===== src/Mbox/Table.antt =====
-- The table of kernel/mbox.c: what `mbox_create` finds and claims.
use cs344_os_lab.Base.{ℕ, ◌<◌, ◌≡◌, refl, ◌≢◌, inl, inr, true, some, arith}
use cs344_os_lab.Base.Tests.{==_self}
use cs344_os_lab.Base.Search.{first_cases, IsFirst-first, first-IsFirst, IsFirst, NonePasses}
use cs344_os_lab.Base.Lists.{length, set, length-set, get_or-set}
use cs344_os_lab.Base.Int.{ℤ, pos, minus_one, eq_int_iff}
use cs344_os_lab.Mbox.{Table, no_box, box, has_key, find_id_by_key, is_free, claim, mbox_create}

-- Two boxes in use never have the same key.
abbrev pub UniqueKeys : Table → Type 0
UniqueKeys t =
    (key : ℤ) (i j : ℕ)
    → i < length t
    → j < length t
    → has_key key (box t i) ≡ true
    → has_key key (box t j) ≡ true
    → i ≡ j

-- The three ways in which `mbox_create` ends.
pub data Creates (t : Table) (key : ℤ) (out : ℤ × Table) : Type 0 where
  present : (k : ℕ) → out ≡ (pos k, t) → IsFirst (has_key key) no_box t k → Creates t key out
  claimed :
      (k : ℕ)
      → out ≡ (pos k, set t k (claim key (box t k)))
      → NonePasses (has_key key) no_box t
      → IsFirst is_free no_box t k
      → Creates t key out
  full :
      out ≡ (minus_one, t)
      → NonePasses (has_key key) no_box t
      → NonePasses is_free no_box t
      → Creates t key out

pub mbox_create-Creates : (t : Table) (key : ℤ) → Creates t key (mbox_create t key)
unfolding mbox_create
mbox_create-Creates t key = elim (first_cases (has_key key) no_box t) [
  | inr (k, e, f) ↦ present k (rw (e, mbox_create) refl) f
  | inl (e, f) ↦ elim (first_cases is_free no_box t) [
    | inr (k, e', f') ↦ claimed k (rw (e, e', mbox_create) refl) f f'
    | inl (e', f') ↦ full (rw (e, e', mbox_create) refl) f f'
  ]
]

-- `mbox_create` never gives two boxes one key.
pub mbox_create-UniqueKeys : (t : Table) (key : ℤ) → UniqueKeys t → UniqueKeys (mbox_create t key).1
mbox_create-UniqueKeys t key u = keep (mbox_create-Creates t key)
  where
    keep : Creates t key (mbox_create t key) → UniqueKeys (mbox_create t key).1
    keep (present k e f) = rw e u
    keep (full e _ _) = rw e u
    keep (claimed k e absent f) = rw e λ key' i j hi hj pi pj. ground (
      arith,
      f.within,
      length-set t k (claim key (box t k)),
      get_or-set t k i (claim key (box t k)) no_box,
      get_or-set t k j (claim key (box t k)) no_box,
      u key' i j,
      absent i,
      absent j,
    )

claimed-IsFirst :
    (t : Table) (key : ℤ) (k : ℕ)
    → NonePasses (has_key key) no_box t
    → k < length t
    → IsFirst (has_key key) no_box (set t k (claim key (box t k))) k
claimed-IsFirst t key k absent h = record {
  within = omega (arith, length-set t k (claim key (box t k)));
  passes =
      rw (get_or-set t k k (claim key (box t k)) no_box h, ==_self) ((eq_int_iff key key).1 refl);
  earlier = λ j lt. ground (arith, get_or-set t k j (claim key (box t k)) no_box, absent j);
}

mbox_create_present :
    (t : Table) (key : ℤ) (k : ℕ)
    → IsFirst (has_key key) no_box t k
    → mbox_create t key ≡ (pos k, t)
unfolding mbox_create
mbox_create_present t key k f = rw (IsFirst-first (has_key key) no_box t k f, mbox_create) refl

-- A key that has a box keeps it: when `mbox_create` has returned an id, calling it again with the
-- same key returns the same id and changes nothing.
pub mbox_create_again :
    (t : Table) (key : ℤ) (k : ℕ) (t' : Table)
    → mbox_create t key ≡ (pos k, t')
    → mbox_create t' key ≡ (pos k, t')
mbox_create_again t key k t' e = again (mbox_create-Creates t key)
  where
    again : Creates t key (mbox_create t key) → mbox_create t' key ≡ (pos k, t')
    again (present j e' f) = cc
    again (full e' _ _) = cc
    again (claimed j e' absent f) = cc (
        mbox_create_present (set t j (claim key (box t j))) key j
          (claimed-IsFirst t key j absent f.within))

-- Creating a box leaves every other key at its id.
pub mbox_create_keeps :
    (t : Table) (key other : ℤ) (k : ℕ)
    → other ≢ key
    → find_id_by_key t other ≡ some k
    → find_id_by_key (mbox_create t key).1 other ≡ some k
unfolding find_id_by_key
mbox_create_keeps t key other k ne e = keep (mbox_create-Creates t key)
  where
    old : IsFirst (has_key other) no_box t k
    old = first-IsFirst (has_key other) no_box t k e

    still :
        (j : ℕ)
        → IsFirst is_free no_box t j
        → IsFirst (has_key other) no_box (set t j (claim key (box t j))) k
    still j f = record {
      within = omega (arith, length-set t j (claim key (box t j)), old.within);
      passes =
          ground
            (arith, old.passes, f.passes, f.within, get_or-set t j k (claim key (box t j)) no_box);
      earlier = λ i lt. ground (
        arith,
        f.within,
        get_or-set t j i (claim key (box t j)) no_box,
        old.earlier i,
        eq_int_iff key other,
      );
    }

    keep : Creates t key (mbox_create t key) → find_id_by_key (mbox_create t key).1 other ≡ some k
    keep (present j e' f) = rw e' e
    keep (full e' _ _) = rw e' e
    keep (claimed j e' absent f) = rw e' (IsFirst-first (has_key other) no_box _ k (still j f))
