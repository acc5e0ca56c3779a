-- ===== src/Base/Lists.antt =====
-- Lists measured and indexed by native numbers, under the library's names. C arrays are such lists.
use Prim.Native.Nat.{ℕ, zero, suc, ◌+◌, ◌<◌, ◌≤◌}
use mathlib.Core.Path.{◌≡◌, refl, ap}
use mathlib.Core.Logic.{◌≢◌}
use mathlib.Core.List.{List, [], ◌∷◌, ◌++◌}
use mathlib.Core.Option.{Option, none, some}
use cs344_os_lab.Base.Tests.{◌==◌, if◌then◌else◌}
use native.Mathlib.Omega.{arith}

module _ {ℓ} {A : Type ℓ} where
  abbrev pub length : List A → ℕ
  length [] = 0
  length (x ∷ xs) = suc (length xs)

  abbrev pub get_elem? : List A → ℕ → Option A
  get_elem? [] i = none
  get_elem? (x ∷ xs) zero = some x
  get_elem? (x ∷ xs) (suc i) = get_elem? xs i

  abbrev pub get_or : List A → ℕ → A → A
  get_or [] i d = d
  get_or (x ∷ xs) zero d = x
  get_or (x ∷ xs) (suc i) d = get_or xs i d

  -- A write out of bounds changes nothing.
  abbrev pub set : List A → ℕ → A → List A
  set [] i v = []
  set (x ∷ xs) zero v = v ∷ xs
  set (x ∷ xs) (suc i) v = x ∷ set xs i v

  abbrev pub replicate : ℕ → A → List A
  replicate zero a = []
  replicate (suc n) a = a ∷ replicate n a

module _ {ℓ} {A : Type ℓ} where
  pub length-set : (xs : List A) (i : ℕ) (v : A) → length (set xs i v) ≡ length xs
  length-set [] i v = refl
  length-set (x ∷ xs) zero v = refl
  length-set (x ∷ xs) (suc i) v = ap suc (length-set xs i v)

  pub length-append : (xs ys : List A) → length (xs ++ ys) ≡ length xs + length ys
  length-append [] ys = omega arith
  length-append (x ∷ xs) ys = omega (arith, length-append xs ys)

  pub length-replicate : (n : ℕ) (a : A) → length (replicate n a) ≡ n
  length-replicate zero a = refl
  length-replicate (suc n) a = ap suc (length-replicate n a)

  pub get_or-set_self :
      (xs : List A) (i : ℕ) (v d : A) → i < length xs → get_or (set xs i v) i d ≡ v
  get_or-set_self [] i v d h = absurd (omega arith)
  get_or-set_self (x ∷ xs) zero v d h = refl
  get_or-set_self (x ∷ xs) (suc i) v d h = get_or-set_self xs i v d (omega arith)

  pub get_or-set_ne :
      (xs : List A) (i j : ℕ) (v d : A) → i ≢ j → get_or (set xs i v) j d ≡ get_or xs j d
  get_or-set_ne [] i j v d h = refl
  get_or-set_ne (x ∷ xs) zero zero v d h = absurd (h refl)
  get_or-set_ne (x ∷ xs) zero (suc j) v d h = refl
  get_or-set_ne (x ∷ xs) (suc i) zero v d h = refl
  get_or-set_ne (x ∷ xs) (suc i) (suc j) v d h = get_or-set_ne xs i j v d (λ e. h (ap suc e))

  pub set-set : (xs : List A) (i : ℕ) (v w : A) → set (set xs i v) i w ≡ set xs i w
  set-set [] i v w = refl
  set-set (x ∷ xs) zero v w = refl
  set-set (x ∷ xs) (suc i) v w = ap (λ ys. x ∷ ys) (set-set xs i v w)

  pub set_comm :
      (xs : List A) (i j : ℕ) (v w : A) → i ≢ j → set (set xs i v) j w ≡ set (set xs j w) i v
  set_comm [] i j v w h = refl
  set_comm (x ∷ xs) zero zero v w h = absurd (h refl)
  set_comm (x ∷ xs) zero (suc j) v w h = refl
  set_comm (x ∷ xs) (suc i) zero v w h = refl
  set_comm (x ∷ xs) (suc i) (suc j) v w h =
      ap (λ ys. x ∷ ys) (set_comm xs i j v w (λ e. h (ap suc e)))

  pub set-get_or : (xs : List A) (i : ℕ) (d : A) → set xs i (get_or xs i d) ≡ xs
  set-get_or [] i d = refl
  set-get_or (x ∷ xs) zero d = refl
  set-get_or (x ∷ xs) (suc i) d = ap (λ ys. x ∷ ys) (set-get_or xs i d)

  pub set_past : (xs : List A) (i : ℕ) (v : A) → length xs ≤ i → set xs i v ≡ xs
  set_past [] i v h = refl
  set_past (x ∷ xs) zero v h = absurd (omega arith)
  set_past (x ∷ xs) (suc i) v h = ap (λ ys. x ∷ ys) (set_past xs i v (omega arith))

  pub get_or-past : (xs : List A) (i : ℕ) (d : A) → length xs ≤ i → get_or xs i d ≡ d
  get_or-past [] i d h = refl
  get_or-past (x ∷ xs) zero d h = absurd (omega arith)
  get_or-past (x ∷ xs) (suc i) d h = get_or-past xs i d (omega arith)

  pub get_or-replicate : (n i : ℕ) (a d : A) → i < n → get_or (replicate n a) i d ≡ a
  get_or-replicate zero i a d h = elim h [ ]
  get_or-replicate (suc n) zero a d h = refl
  get_or-replicate (suc n) (suc i) a d h = get_or-replicate n i a d (omega arith)

  -- A read after a write in bounds.
  pub get_or-set :
      (xs : List A) (i j : ℕ) (v d : A)
      → i < length xs
      → get_or (set xs i v) j d ≡ (if i == j then v else get_or xs j d)
  get_or-set [] i j v d h = absurd (omega arith)
  get_or-set (x ∷ xs) zero zero v d h = refl
  get_or-set (x ∷ xs) zero (suc j) v d h = ground arith
  get_or-set (x ∷ xs) (suc i) zero v d h = ground arith
  get_or-set (x ∷ xs) (suc i) (suc j) v d h = ground (arith, get_or-set xs i j v d)

-- A loop that rewrites every element, with the element's index.
module _ {ℓ} {A : Type ℓ} (f : ℕ → A → A) where
  map_from : ℕ → List A → List A
  map_from i [] = []
  map_from i (x ∷ xs) = f i x ∷ map_from (i + 1) xs

  length-map_from : (i : ℕ) (xs : List A) → length (map_from i xs) ≡ length xs
  unfolding map_from
  length-map_from i [] = refl
  length-map_from i (x ∷ xs) = ap suc (length-map_from (i + 1) xs)

  get_or-map_from_at :
      (i k j : ℕ) (xs : List A) (d : A)
      → k ≡ i + j
      → j < length xs
      → get_or (map_from i xs) j d ≡ f k (get_or xs j d)
  unfolding map_from
  get_or-map_from_at i k j [] d e h = elim h [ ]
  get_or-map_from_at i k zero (x ∷ xs) d e h = ap (λ n. f n x) (omega arith)
  get_or-map_from_at i k (suc j) (x ∷ xs) d e h =
      get_or-map_from_at (i + 1) k j xs d (omega arith) (omega arith)

  unfoldable pub map_index : List A → List A
  unfolding map_from
  map_index xs = map_from 0 xs

  pub length-map_index : (xs : List A) → length (map_index xs) ≡ length xs
  unfolding map_index
  length-map_index xs = length-map_from 0 xs

  pub get_or-map_index :
      (j : ℕ) (xs : List A) (d : A)
      → j < length xs
      → get_or (map_index xs) j d ≡ f j (get_or xs j d)
  unfolding map_index
  get_or-map_index j xs d h = get_or-map_from_at 0 j j xs d (omega arith) h
