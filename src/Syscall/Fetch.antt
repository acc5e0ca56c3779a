-- ===== src/Syscall/Fetch.antt =====
-- Bounds of `fetchaddr`, kernel/syscall.c.
use cs344_os_lab.Base.{ℕ, ◌+◌, ◌%◌, ◌^◌, ◌<◌, ◌≤◌, ◌≡◌, ◌||◌, Option, none, some, arith, inl, inr}
use cs344_os_lab.Base.Tests.{ltb, leb, Bool-cases, Option-cases}
use cs344_os_lab.Syscall.{User, word, fetchaddr}

-- How `fetchaddr` ends.
pub data Fetches (p : User) (addr : ℕ) : Option ℕ → Type 0 where
  outside : p.sz < addr + 8 → Fetches p addr none
  unmapped : addr + 8 ≤ p.sz → p.copyin addr 8 ≡ none → Fetches p addr none
  fetched :
      (b : ℕ → ℕ) → addr + 8 ≤ p.sz → p.copyin addr 8 ≡ some b → Fetches p addr (some (word 8 b))

-- `fetchaddr` of a 64-bit address, in a process whose size is below MAXVA, fails when the eight bytes are
-- not all below the process's size, an address whose end wraps around included, or when they cannot be
-- copied. Otherwise it gives the word that they hold.
pub fetchaddr-Fetches :
    (p : User) (addr : ℕ) → addr < 2 ^ 64 → p.sz ≤ 2 ^ 38 → Fetches p addr (fetchaddr p addr)
unfolding fetchaddr
fetchaddr-Fetches p addr l m = elim (Bool-cases (leb p.sz addr || ltb p.sz ((addr + 8) % 2 ^ 64))) [
  | inl e ↦ rw (fetchaddr, e) (outside (ground (arith, e, l, m)))
  | inr e ↦ elim (Option-cases (p.copyin addr 8)) [
    | inl n ↦ rw (fetchaddr, e, n) (unmapped (ground (arith, e, l, m)) n)
    | inr (b, n) ↦ rw (fetchaddr, e, n) (fetched b (ground (arith, e, l, m)) n)
  ]
]
