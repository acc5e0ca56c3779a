-- ===== src/Ulib/Strings.antt =====
-- Strings in user/ulib.c (Lab-3 Task 3.2).
use cs344_os_lab.Base.{
  ℕ, ◌+◌, ◌<◌, ◌≡◌, refl, ◌∙◌, ap, ap₂, subst, ◌≢◌, ◌||◌, List, [], ◌∷◌, ◌++◌, ◌⊎◌, arith, inl, inr,
  none, some,
}
use cs344_os_lab.Base.Tests.{Bool-cases, ltb, ltb→lt, ◌==◌, if◌then◌else◌, ==→eq, ==_self}
use cs344_os_lab.Base.Lists.{length}
use cs344_os_lab.Base.Search.{first_from, first, first_cases, NonePasses, IsFirst}
use cs344_os_lab.Base.Int.{minus, pos}
use cs344_os_lab.Ulib.{strcmp, strchr, strchr_from, gets, gets_from}

-- No byte of a string is 0.
unfoldable pub NoNul : List ℕ → Type 0
NoNul [] = Unit {0}
NoNul (c ∷ s) = (c ≢ 0) × NoNul s

equal_of_strcmp : (p q : List ℕ) → NoNul p → NoNul q → strcmp p q ≡ pos 0 → p ≡ q
unfolding strcmp minus NoNul
equal_of_strcmp [] [] n m e = refl
equal_of_strcmp [] (q ∷ qs) n m e = absurd (ground (arith, e, m.0))
equal_of_strcmp (p ∷ ps) [] n m e = absurd (ground (arith, e, n.0))
equal_of_strcmp (p ∷ ps) (q ∷ qs) n m e = elim (Bool-cases (p == q)) [
  | inl w ↦ ap₂ (λ c s. c ∷ s) (==→eq p q w) (equal_of_strcmp ps qs n.1 m.1 (ground (arith, e, w)))
  | inr w ↦ absurd (ground (arith, e, w))
]

strcmp_self : (p : List ℕ) → strcmp p p ≡ pos 0
unfolding strcmp
strcmp_self [] = refl
strcmp_self (p ∷ ps) = rw (==_self p) (strcmp_self ps)

-- `strcmp` of two strings gives 0 exactly when they are equal.
pub strcmp_zero :
    (p q : List ℕ) → NoNul p → NoNul q → (strcmp p q ≡ pos 0 → p ≡ q) × (p ≡ q → strcmp p q ≡ pos 0)
strcmp_zero p q n m =
    (equal_of_strcmp p q n m, λ e. subst (λ r. strcmp p r ≡ pos 0) e (strcmp_self p))

strchr_from-first_from :
    (i : ℕ) (s : List ℕ) (c : ℕ) → strchr_from i s c ≡ first_from (λ b. b == c) i s
unfolding strchr_from first_from
strchr_from-first_from i [] c = refl
strchr_from-first_from i (b ∷ s) c =
    ap (λ r. if b == c then some i else r) (strchr_from-first_from (i + 1) s c)

-- `strchr` gives the first place where the byte stands, and a null pointer when it stands nowhere.
pub strchr-IsFirst :
    (s : List ℕ) (c : ℕ)
    → ((strchr s c ≡ none) × NonePasses (λ b. b == c) 0 s)
      ⊎ ((i : ℕ) × (strchr s c ≡ some i) × IsFirst (λ b. b == c) 0 s i)
unfolding strchr first
strchr-IsFirst s c = elim (first_cases (λ b. b == c) 0 s) [
  | inl (e, f) ↦ inl (strchr_from-first_from 0 s c ∙ e, f)
  | inr (i, e, f) ↦ inr (i, strchr_from-first_from 0 s c ∙ e, f)
]

gets_from_fits :
    (max i : ℕ) (input : List ℕ)
    → i < max
    → (length (gets_from max i input) + i < max)
      × ((rest : List ℕ) × (gets_from max i input ++ rest ≡ input))
unfolding gets_from
gets_from_fits max i [] h = (omega arith, ([], refl))
gets_from_fits max i (c ∷ input) h = elim (Bool-cases (ltb (i + 1) max)) [
  | inr e ↦ rw e (omega arith, (c ∷ input, refl))
  | inl e ↦ elim (Bool-cases (c == 10 || c == 13)) [
    | inl w ↦ rw (e, w) (ground (arith, e), (input, refl))
    | inr w ↦
        let r = gets_from_fits max (i + 1) input (ltb→lt (i + 1) max e) in
        rw (e, w) (omega (arith, r.0), (r.1.0, ap (λ s. c ∷ s) r.1.1))
  ]
]

-- What `gets` stores is the beginning of the input, and with its NUL it fits the buffer.
pub gets_fits :
    (max : ℕ) (input : List ℕ)
    → 0 < max
    → (length (gets max input) < max) × ((rest : List ℕ) × (gets max input ++ rest ≡ input))
unfolding gets
gets_fits max input h = let r = gets_from_fits max 0 input h in (omega (arith, r.0), r.1)
