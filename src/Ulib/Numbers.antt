-- ===== src/Ulib/Numbers.antt =====
-- Decimal numbers in user/ulib.c (Lab-3 Task 3.2).
use cs344_os_lab.Base.{
  ℕ, zero, suc, ◌+◌, ◌*◌, ◌/◌, ◌%◌, ◌<◌, ◌≡◌, refl, ◌∙◌, ap, List, [], ◌∷◌, arith, inl, inr,
}
use cs344_os_lab.Base.Tests.{Bool-cases, ==→eq, ◌==◌, if◌then◌else◌}
use cs344_os_lab.Base.Int.{pos, negsuc, to_int}
use cs344_os_lab.Ulib.{atoi_from, atoi, digits, itoa10}

-- ten to the power
pub limit : ℕ → ℕ
limit zero = 1
limit (suc f) = 10 * limit f

atoi_from_digit :
    (n d : ℕ) (s : List ℕ)
    → d < 10
    → n * 10 + d < 4294967296
    → atoi_from n ((48 + d) ∷ s) ≡ atoi_from (n * 10 + d) s
unfolding atoi_from
atoi_from_digit n d s l h = ground arith

atoi_from-digits :
    (fuel u : ℕ) (s : List ℕ)
    → u < limit fuel
    → u < 4294967296
    → atoi_from 0 (digits fuel u s) ≡ atoi_from u s
unfolding digits limit
atoi_from-digits zero u s l h = ap (λ n. atoi_from n s) (omega arith)
atoi_from-digits (suc fuel) u s l h = elim (Bool-cases (u / 10 == 0)) [
  | inl e ↦ rw e (
      atoi_from_digit 0 (u % 10) s (omega arith) (omega arith)
      ∙ ap (λ n. atoi_from n s) (omega (arith, ==→eq (u / 10) 0 e)))
  | inr e ↦ rw e (
      atoi_from-digits fuel (u / 10) ((48 + u % 10) ∷ s) (omega arith) (omega arith)
      ∙ atoi_from_digit (u / 10) (u % 10) s (omega arith) (omega arith)
      ∙ ap (λ n. atoi_from n s) (omega arith))
]

-- For a number that is not negative `atoi` reads back what `itoa10` wrote. For a negative one `itoa10`
-- writes a minus sign and digits that `atoi` reads as the magnitude, except for the smallest `int`,
-- whose magnitude no `int` has and which `atoi` reads as itself; with the sign `atoi` gives 0.
pub atoi-itoa10 :
    (x : ℕ)
    → x < 2147483648
    → (atoi (itoa10 (pos x)) ≡ pos x)
      × ((s : List ℕ) × (itoa10 (negsuc x) ≡ 45 ∷ s)
          × (atoi s ≡ (if x == 2147483647 then negsuc x else pos (x + 1))))
      × (atoi (itoa10 (negsuc x)) ≡ pos 0)
unfolding atoi atoi_from itoa10 limit
atoi-itoa10 x h = (
  ap to_int (atoi_from-digits 10 x [] (omega arith) (omega arith)) ∙ ground (arith, h),
  (
    _,
    refl,
    ap to_int (atoi_from-digits 10 (x + 1) [] (omega arith) (omega arith)) ∙ ground (arith, h),
  ),
  refl,
)
