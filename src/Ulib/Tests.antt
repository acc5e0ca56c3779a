-- ===== src/Ulib/Tests.antt =====
-- The user library of Lab-3 Task 3.2, user/ulib.c, at small inputs.
use cs344_os_lab.Base.{ℕ, ◌≡◌, refl, List, [], ◌∷◌, arith}
use cs344_os_lab.Base.Int.{pos, negsuc}
use cs344_os_lab.Ulib.{atoi, itoa10, digits, memmove}
use cs344_os_lab.Ulib.Strings.{NoNul}
use cs344_os_lab.Ulib.Numbers.{atoi-itoa10}
use cs344_os_lab.Ulib.Move.{Moves, memmove-Moves}

itoa_42 : itoa10 (negsuc 41) ≡ 45 ∷ 52 ∷ 50 ∷ []
unfolding itoa10 digits
itoa_42 = refl

atoi-itoa10_example :
    (atoi (itoa10 (pos 2025)) ≡ pos 2025)
    × ((s : List ℕ) × (itoa10 (negsuc 2025) ≡ 45 ∷ s) × (atoi s ≡ pos 2026))
    × (atoi (itoa10 (negsuc 2025)) ≡ pos 0)
atoi-itoa10_example = atoi-itoa10 2025 (omega arith)

-- two bytes up, over one of them
memmove-Moves_example : Moves 2 5 4 (λ a. a) (memmove 5 4 2 (λ a. a))
memmove-Moves_example = memmove-Moves 2 5 4 (λ a. a)

abbrev word : List ℕ
word = 97 ∷ 98 ∷ 97 ∷ []

word-NoNul : NoNul word
unfolding NoNul
word-NoNul = ((λ e. ground (arith, e)), ((λ e. ground (arith, e)), ((λ e. ground (arith, e)), tt)))
