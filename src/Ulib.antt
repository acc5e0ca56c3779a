-- ===== src/Ulib.antt =====
-- The user library of Lab-3 Task 3.2, user/ulib.c. A string is the list of its bytes before the NUL,
-- so the byte at the end of the list is 0; what is moved about is memory, a byte for each address.
pub mod Strings
pub mod Numbers
pub mod Move
mod Tests
use cs344_os_lab.Base.{
  ℕ, zero, suc, ◌+◌, ◌-◌, ◌*◌, ◌/◌, ◌%◌, ◌^◌, Bool, true, false, ◌&&◌, ◌||◌, Option, none, some,
  List, [], ◌∷◌,
}
use cs344_os_lab.Base.Tests.{ltb, leb, ◌==◌, if◌then◌else◌}
use cs344_os_lab.Base.Int.{ℤ, pos, negsuc, minus, to_int}

pub strcmp : List ℕ → List ℕ → ℤ
strcmp [] [] = pos 0
strcmp [] (q ∷ qs) = minus 0 q
strcmp (p ∷ ps) [] = minus p 0
strcmp (p ∷ ps) (q ∷ qs) = let rest = strcmp ps qs in if p == q then rest else minus p q

pub strlen : List ℕ → ℕ
strlen [] = 0
strlen (c ∷ s) = strlen s + 1

-- The offset of the byte, `none` for a null pointer.
pub strchr_from : ℕ → List ℕ → ℕ → Option ℕ
strchr_from i [] c = none
strchr_from i (b ∷ s) c = let rest = strchr_from (i + 1) s c in if b == c then some i else rest

pub strchr : List ℕ → ℕ → Option ℕ
unfolding strchr_from
strchr s c = strchr_from 0 s c

-- What `gets(buf, max)` stores before the NUL from index `i` on, when `input` is what `read` has.
pub gets_from : ℕ → ℕ → List ℕ → List ℕ
gets_from max i [] = []
gets_from max i (c ∷ input) =
    let rest = gets_from max (i + 1) input in
    if ltb (i + 1) max then c ∷ (if c == 10 || c == 13 then [] else rest) else []

pub gets : ℕ → List ℕ → List ℕ
unfolding gets_from
gets max input = gets_from max 0 input

abbrev pub is_digit : ℕ → Bool
is_digit c = leb 48 c && leb c 57

-- The loop of `atoi`; the 32 bits of the `int`, as a number from 0 on, which `to_int` reads as signed.
pub atoi_from : ℕ → List ℕ → ℕ
atoi_from n [] = n
atoi_from n (c ∷ s) =
    let rest = atoi_from ((n * 10 + c - 48) % 2 ^ 32) s in if is_digit c then rest else n

pub atoi : List ℕ → ℤ
unfolding atoi_from
atoi s = to_int (atoi_from 0 s)

-- The digits that the `do` loop of `itoa10` puts into `tmp` and the last loop takes out from its end:
-- the next digit goes before those that are there. The first argument is fuel.
pub digits : ℕ → ℕ → List ℕ → List ℕ
digits zero ux after = after
digits (suc fuel) ux after =
    let rest = digits fuel (ux / 10) ((48 + ux % 10) ∷ after) in
    if ux / 10 == 0 then (48 + ux % 10) ∷ after else rest

-- `itoa10` of a 32-bit `int`, with fuel for ten digits
pub itoa10 : ℤ → List ℕ
unfolding digits
itoa10 (pos x) = digits 10 x []
itoa10 (negsuc n) = 45 ∷ digits 10 (n + 1) []

abbrev pub store : (ℕ → ℕ) → ℕ → ℕ → ℕ → ℕ
store mem a v j = if j == a then v else mem j

-- `while(n-- > 0) *dst++ = *src++;`
pub copy_up : ℕ → ℕ → ℕ → (ℕ → ℕ) → ℕ → ℕ
copy_up zero dst src mem = mem
copy_up (suc n) dst src mem = copy_up n (dst + 1) (src + 1) (store mem dst (mem src))

-- `while(n-- > 0) *--dst = *--src;`, from the ends down
pub copy_down : ℕ → ℕ → ℕ → (ℕ → ℕ) → ℕ → ℕ
copy_down zero dst src mem = mem
copy_down (suc n) dst src mem = copy_down n dst src (store mem (dst + n) (mem (src + n)))

pub memmove : ℕ → ℕ → ℕ → (ℕ → ℕ) → ℕ → ℕ
unfolding copy_up copy_down
memmove dst src n mem =
    let up = copy_up n dst src mem in
    let down = copy_down n dst src mem in if ltb dst src then up else down

abbrev pub memcpy : ℕ → ℕ → ℕ → (ℕ → ℕ) → ℕ → ℕ
memcpy = memmove

pub memset : ℕ → ℕ → ℕ → (ℕ → ℕ) → ℕ → ℕ
memset zero dst c mem = mem
memset (suc n) dst c mem = memset n (dst + 1) c (store mem dst (c % 256))

pub memcmp : ℕ → ℕ → ℕ → (ℕ → ℕ) → ℤ
memcmp zero a b mem = pos 0
memcmp (suc n) a b mem =
    let rest = memcmp n (a + 1) (b + 1) mem in
    if mem a == mem b then rest else minus (mem a) (mem b)
