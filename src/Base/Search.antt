-- ===== src/Base/Search.antt =====
-- The loop `for (i = 0; i < n; i++) if (test(a[i])) return i; return -1;` over an array.
use cs344_os_lab.Base.Tests.{if◌then◌else◌, Bool-cases}
use cs344_os_lab.Base.Lists.{length, get_or}
use Prim.Native.Nat.{ℕ, zero, suc, ◌+◌, ◌<◌, ◌≤◌}
use mathlib.Core.Path.{◌≡◌, refl, ap, ◌∙◌, sym, subst}
use mathlib.Core.Logic.{◌⊎◌, inl, inr}
use mathlib.Core.Bool.{Bool, true, false, false≢true}
use mathlib.Core.Option.{Option, none, some}
use mathlib.Core.List.{List, [], ◌∷◌}
use native.Mathlib.Decide.{dec_le}
use native.Mathlib.Omega.{arith}

module _ {ℓ} {A : Type ℓ} (test : A → Bool) where
  -- `i` counts the elements before the list; `none` is the return of -1.
  unfoldable pub first_from : ℕ → List A → Option ℕ
  first_from i [] = none
  first_from i (x ∷ xs) = let rest = first_from (i + 1) xs in if test x then some i else rest

  unfoldable pub first : List A → Option ℕ
  unfolding first_from
  first xs = first_from 0 xs

  -- `k` is the first index whose element passes.
  pub record IsFirst (d : A) (xs : List A) (k : ℕ) : Type 0 where
    pub within : k < length xs
    pub passes : test (get_or xs k d) ≡ true
    pub earlier : (j : ℕ) → j < k → test (get_or xs j d) ≡ false

  abbrev pub NonePasses : A → List A → Type 0
  NonePasses d xs = (j : ℕ) → j < length xs → test (get_or xs j d) ≡ false

  abbrev Found : A → List A → Option ℕ → Type 0
  Found d xs none = NonePasses d xs
  Found d xs (some k) = IsFirst d xs k

  -- the same with the offset of `first_from`
  FoundFrom : A → ℕ → List A → Option ℕ → Type 0
  FoundFrom d i xs r =
      ((r ≡ none) × NonePasses d xs) ⊎ ((k : ℕ) × (r ≡ some (i + k)) × IsFirst d xs k)

  skip :
      (d x : A) (i : ℕ) (xs : List A) (r : Option ℕ)
      → test x ≡ false
      → FoundFrom d (i + 1) xs r
      → FoundFrom d i (x ∷ xs) r
  unfolding FoundFrom
  skip d x i xs r miss (inl (e, f)) = inl (e, later)
    where
      later : NonePasses d (x ∷ xs)
      later zero h = miss
      later (suc j) h = f j (omega arith)
  skip d x i xs r miss (inr (k, e, f)) = inr (
    suc k,
    e ∙ ap some (omega arith),
    record { within = omega (arith, f.within); passes = f.passes; earlier = later },
  )
    where
      later : (j : ℕ) → j < suc k → test (get_or (x ∷ xs) j d) ≡ false
      later zero h = miss
      later (suc j) h = f.earlier j (omega arith)

  first_from-FoundFrom : (d : A) (i : ℕ) (xs : List A) → FoundFrom d i xs (first_from i xs)
  unfolding first_from FoundFrom
  first_from-FoundFrom d i [] = inl (refl, λ j h. elim h [ ])
  first_from-FoundFrom d i (x ∷ xs) = elim (Bool-cases (test x)) [
    | inl hit ↦ rw hit (
        inr (
          0,
          ap some (omega arith),
          record { within = omega arith; passes = hit; earlier = λ j h. absurd (omega arith) },
        ))
    | inr miss ↦
        rw miss (skip d x i xs (first_from (i + 1) xs) miss (first_from-FoundFrom d (i + 1) xs))
  ]

  -- The loop either finds the first element that passes, or none does.
  pub first_cases :
      (d : A) (xs : List A)
      → ((first xs ≡ none) × NonePasses d xs) ⊎ ((k : ℕ) × (first xs ≡ some k) × IsFirst d xs k)
  unfolding first FoundFrom
  first_cases d xs = elim (first_from-FoundFrom d 0 xs) [
    | inl f ↦ inl f
    | inr (k, e, f) ↦ inr (k, e ∙ ap some (omega arith), f)
  ]

  first_le : (d : A) (xs : List A) (j k : ℕ) → IsFirst d xs j → IsFirst d xs k → j ≤ k
  first_le d xs j k f g = elim (dec_le j k) [
    | yes h ↦ h
    | no h ↦ absurd (false≢true (sym (f.earlier k (omega arith)) ∙ g.passes))
  ]

  pub IsFirst-first : (d : A) (xs : List A) (k : ℕ) → IsFirst d xs k → first xs ≡ some k
  IsFirst-first d xs k f = elim (first_cases d xs) [
    | inl (e, g) ↦ absurd (false≢true (sym (g k f.within) ∙ f.passes))
    | inr (j, e, g) ↦ e ∙ ap some (omega (arith, first_le d xs j k g f, first_le d xs k j f g))
  ]

  pub first-IsFirst : (d : A) (xs : List A) (k : ℕ) → first xs ≡ some k → IsFirst d xs k
  first-IsFirst d xs k e = elim (first_cases d xs) [
    | inl (e', g) ↦ cc
    | inr (j, e', g) ↦ subst (IsFirst d xs) (ground arith) g
  ]
