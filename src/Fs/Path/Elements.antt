-- ===== src/Fs/Path/Elements.antt =====
-- `skipelem` of Lab-5 Task 5.1, kernel/fs.c, against the list of a path's elements.
use cs344_os_lab.Base.{
  ℕ, ◌<◌, ◌≤◌, ◌≡◌, ◌≢◌, refl, ◌∙◌, ap, sym, ◌⊎◌, inl, inr, true, false, Option, none, some, List,
  [], ◌∷◌, arith,
}
use cs344_os_lab.Base.Tests.{Bool-cases, leb, ◌==◌, if◌then◌else◌}
use cs344_os_lab.Base.Lists.{length}
use cs344_os_lab.Fs.Path.{dirsiz, slash, skip_slashes, pass_elem, take, elem_at, skipelem}

-- A path cut at every slash, and the parts that are not empty.
extend : ℕ → List (List ℕ) → List (List ℕ)
extend c [] = (c ∷ []) ∷ []
extend c (h ∷ t) = (c ∷ h) ∷ t

pub cut : List ℕ → List (List ℕ)
cut [] = [] ∷ []
cut (c ∷ s) = if c == slash then [] ∷ cut s else extend c (cut s)

pub nonempty : List (List ℕ) → List (List ℕ)
nonempty [] = []
nonempty ([] ∷ t) = nonempty t
nonempty ((c ∷ h) ∷ t) = (c ∷ h) ∷ nonempty t

pub elements : List ℕ → List (List ℕ)
elements s = nonempty (cut s)

skip_at : (c : ℕ) (s : List ℕ) → (c == slash) ≡ true → skip_slashes (c ∷ s) ≡ skip_slashes s
unfolding skip_slashes
skip_at c s e = rw e refl

skip_stop : (c : ℕ) (s : List ℕ) → (c == slash) ≡ false → skip_slashes (c ∷ s) ≡ c ∷ s
unfolding skip_slashes
skip_stop c s e = rw e refl

cut_at : (c : ℕ) (s : List ℕ) → (c == slash) ≡ true → cut (c ∷ s) ≡ [] ∷ cut s
unfolding cut
cut_at c s e = rw e refl

elements-skip_slashes : (s : List ℕ) → elements (skip_slashes s) ≡ elements s
unfolding elements nonempty
elements-skip_slashes [] = unfold skip_slashes in refl
elements-skip_slashes (c ∷ s) = elim (Bool-cases (c == slash)) [
  | inl e ↦ ap elements (skip_at c s e) ∙ elements-skip_slashes s ∙ sym (ap nonempty (cut_at c s e))
  | inr e ↦ ap elements (skip_stop c s e)
]

-- what the cut gives after the first part
after : List ℕ → List (List ℕ)
after [] = []
after (c ∷ s) = cut s

cut-pass_elem : (s : List ℕ) → cut s ≡ (pass_elem s).0 ∷ after (pass_elem s).1
unfolding cut pass_elem after extend
cut-pass_elem [] = refl
cut-pass_elem (c ∷ s) = elim (Bool-cases (c == slash)) [
  | inl e ↦ rw e refl
  | inr e ↦ rw e (ap (extend c) (cut-pass_elem s))
]

-- What is left begins with a slash or is empty, so skipping it leaves the elements after.
after-elements :
    (s : List ℕ) → elements (skip_slashes (pass_elem s).1) ≡ nonempty (after (pass_elem s).1)
unfolding pass_elem after
after-elements [] = unfold skip_slashes elements cut nonempty in refl
after-elements (c ∷ s) = elim (Bool-cases (c == slash)) [
  | inl e ↦ rw e (ap elements (skip_at c s e) ∙ elements-skip_slashes s ∙ unfold elements in refl)
  | inr e ↦ rw e (after-elements s)
]

-- How `skipelem` ends: at a path without elements, or with the first element, cut to DIRSIZ bytes,
-- and a shorter path with the other elements that has no slash at its start.
pub data Skips (path : List ℕ) : Option (List ℕ × List ℕ) → Type 0 where
  ended : elements path ≡ [] → Skips path none
  next :
      (e rest : List ℕ)
      → elements path ≡ e ∷ elements rest
      → length rest < length path
      → skip_slashes rest ≡ rest
      → Skips path (some (rest, if leb dirsiz (length e) then take dirsiz e else e))

length-skip_slashes : (s : List ℕ) → length (skip_slashes s) ≤ length s
unfolding skip_slashes
length-skip_slashes [] = omega arith
length-skip_slashes (c ∷ s) = elim (Bool-cases (c == slash)) [
  | inl e ↦ rw e (omega (arith, length-skip_slashes s))
  | inr e ↦ rw e (omega arith)
]

length-pass_elem : (s : List ℕ) → length (pass_elem s).1 ≤ length s
unfolding pass_elem
length-pass_elem [] = omega arith
length-pass_elem (c ∷ s) = elim (Bool-cases (c == slash)) [
  | inl e ↦ rw e (omega arith)
  | inr e ↦ rw e (omega (arith, length-pass_elem s))
]

skip_slashes_again : (s : List ℕ) → skip_slashes (skip_slashes s) ≡ skip_slashes s
unfolding skip_slashes
skip_slashes_again [] = refl
skip_slashes_again (c ∷ s) = elim (Bool-cases (c == slash)) [
  | inl e ↦ rw e (skip_slashes_again s)
  | inr e ↦ rw e (skip_stop c s e)
]

elements_cons :
    (c : ℕ) (s : List ℕ)
    → (c == slash) ≡ false
    → elements (c ∷ s) ≡ (pass_elem (c ∷ s)).0 ∷ nonempty (after (pass_elem (c ∷ s)).1)
unfolding elements pass_elem nonempty
elements_cons c s e = ap nonempty (cut-pass_elem (c ∷ s)) ∙ rw e refl

length-pass_elem_cons :
    (c : ℕ) (s : List ℕ) → (c == slash) ≡ false → length (pass_elem (c ∷ s)).1 < length (c ∷ s)
unfolding pass_elem
length-pass_elem_cons c s e = rw e (omega (arith, length-pass_elem s))

-- After the slashes the path is empty, or begins with another byte.
starts :
    (s : List ℕ)
    → (skip_slashes s ≡ [])
      ⊎ ((c : ℕ) × (r : List ℕ) × (skip_slashes s ≡ c ∷ r) × ((c == slash) ≡ false))
starts [] = unfold skip_slashes in inl refl
starts (c ∷ s) = elim (Bool-cases (c == slash)) [
  | inl e ↦ elim (starts s) [
    | inl f ↦ inl (skip_at c s e ∙ f)
    | inr f ↦ inr (f.0, f.1, skip_at c s e ∙ f.2, f.3)
  ]
  | inr e ↦ inr (c, s, skip_stop c s e, e)
]

pub elements_nil : elements [] ≡ []
unfolding elements cut nonempty
elements_nil = refl

-- A path that does not begin with a slash has an element, unless it is empty.
pub elements_more : (c : ℕ) (s : List ℕ) → skip_slashes (c ∷ s) ≡ c ∷ s → elements (c ∷ s) ≢ []
elements_more c s e n = elim (Bool-cases (c == slash)) [
  | inl q ↦ absurd (omega (arith, ap length (sym (skip_at c s q) ∙ e), length-skip_slashes s))
  | inr q ↦ absurd (cons_not_nil (sym (elements_cons c s q) ∙ n))
]
  where
    cons_not_nil : {x : List ℕ} {xs : List (List ℕ)} → x ∷ xs ≢ []
    cons_not_nil m = absurd (omega (arith, ap length m))

-- `skipelem` takes the first element off a path: it returns 0 exactly when there is none; otherwise
-- the name is the element, cut to DIRSIZ bytes, and the rest is a shorter path with the other
-- elements that does not begin with a slash, so it is empty when the name is the last.
pub skipelem-Skips : (path : List ℕ) → Skips path (skipelem path)
unfolding skipelem
skipelem-Skips path = elim (starts path) [
  | inl e ↦
      rw (skipelem, e)
        (unfold elem_at in
          ended (
            sym (elements-skip_slashes path)
            ∙ ap elements e
            ∙ unfold elements cut nonempty in refl))
  | inr (c, r, e, n) ↦
      rw (skipelem, e)
        (unfold elem_at in
          next (pass_elem (c ∷ r)).0 (skip_slashes (pass_elem (c ∷ r)).1)
            (sym (elements-skip_slashes path)
              ∙ ap elements e
              ∙ elements_cons c r n
              ∙ ap (λ t. (pass_elem (c ∷ r)).0 ∷ t) (sym (after-elements (c ∷ r))))
            (omega (
              arith,
              length-skip_slashes (pass_elem (c ∷ r)).1,
              length-pass_elem_cons c r n,
              length-skip_slashes path,
              ap length e,
            ))
            (skip_slashes_again (pass_elem (c ∷ r)).1))
]
