-- ===== src/Sysfile/Exec/Tests.antt =====
-- `sys_exec` (Lab-5 Task 5.2, kernel/sysfile.c) with two pages of memory and one argument.
use cs344_os_lab.Base.{ℕ, ◌+◌, ◌-◌, ◌<◌, ◌≡◌, refl, ap, ◌&&◌, none, some, [], ◌∷◌, arith, inl, inr}
use cs344_os_lab.Base.Tests.{if◌then◌else◌, ◌==◌, ==→eq, Bool-cases}
use cs344_os_lab.Base.Int.{pos}
use cs344_os_lab.Syscall.{User}
use cs344_os_lab.Sysfile.Exec.{Pages, sys_exec}
use cs344_os_lab.Sysfile.Exec.Runs.{at_page, Books, Execs, sys_exec-Execs}

-- how often each page is handed out
abbrev two_pages : Pages (ℕ → ℕ)
two_pages = record {
  kalloc = λ u.
      if u 1 == 0
      then (some 1, λ q. u q + at_page 1 q)
      else if u 2 == 0
      then (some 2, λ q. u q + at_page 2 q)
      else (none, u);
  kfree = λ a u q. u q - at_page a q;
  kexec = λ path args u. (pos 0, u);
}

freed : (a q : ℕ) (u : ℕ → ℕ) → 0 < u a → (u q - at_page a q) + at_page a q ≡ u q
freed a q u h = elim (Bool-cases (a == q)) [
  | inl e ↦ let z = ap u (==→eq a q e) in rw (e) (omega (arith, z))
  | inr e ↦ rw (e) (omega arith)
]

two_pages-Books : Books two_pages
two_pages-Books = record {
  used = λ u q. u q;
  by_kalloc = λ u q. elim (Bool-cases (u 1 == 0)) [
    | inl e ↦ rw (e) refl
    | inr e ↦ elim (Bool-cases (u 2 == 0)) [
      | inl f ↦ rw (e, f) refl
      | inr f ↦ rw (e, f) (omega arith)
    ]
  ];
  by_kfree = λ a q u h. freed a q u h;
  by_kexec = λ path args u q. refl;
}

-- one pointer, and a null pointer
abbrev process : User
process = record {
  sz = 4096;
  copyin = λ a n. some (λ j. if a == 0 && j == 0 then 65 else 0);
  copyinstr = λ a n. some (97 ∷ []);
}

sys_exec-Execs_example :
    Execs two_pages two_pages-Books process 0
      (some (98 ∷ []))
      (λ q. 0)
      (sys_exec two_pages process (some (98 ∷ [])) 0 (λ q. 0))
sys_exec-Execs_example =
    sys_exec-Execs two_pages two_pages-Books process 0 (some (98 ∷ [])) (λ q. 0)
