-- ===== src/Sysfile/Balance.antt =====
-- Reference counts of open files under `sys_dup` and `sys_close` (Lab-5 Task 5.2, kernel/sysfile.c).
use cs344_os_lab.Base.{
  ℕ, zero, suc, ◌+◌, ◌-◌, ◌<◌, ◌≡◌, refl, sym, ◌∙◌, ap, subst, ◌⊎◌, true, Option, none, some, [],
  ◌∷◌, arith, inl, inr,
}
use mathlib.Core.Bool.{false≢true}
use cs344_os_lab.Base.Tests.{
  if◌then◌else◌, ltb, ltb→lt, ◌==◌, Bool-cases, Option-cases, ==→eq, ==→ne,
}
use cs344_os_lab.Base.Search.{first_cases, IsFirst, NonePasses}
use cs344_os_lab.Base.Lists.{length, get_or, set, length-set}
use cs344_os_lab.Base.Int.{ℤ, pos, negsuc, minus_one}
use cs344_os_lab.Sysfile.Files.{FileTable, Counts}
use cs344_os_lab.Sysfile.{
  nofile, Descriptors, file_of, argfd, is_empty, fdalloc, State, sys_dup, sys_close,
}

-- 1 for a descriptor that holds file `g`
unfoldable pub one : Option ℕ → ℕ → ℕ
one none g = 0
one (some f) g = if f == g then 1 else 0

-- how many descriptors hold it
unfoldable pub uses : Descriptors → ℕ → ℕ
uses [] g = 0
uses (d ∷ ds) g = one d g + uses ds g

pub uses-set :
    (ds : Descriptors) (i : ℕ) (d : Option ℕ) (g : ℕ)
    → i < length ds
    → uses (set ds i d) g + one (get_or ds i none) g ≡ uses ds g + one d g
unfolding uses
uses-set [] i d g h = absurd (omega arith)
uses-set (e ∷ ds) zero d g h = omega arith
uses-set (e ∷ ds) (suc i) d g h = omega (arith, uses-set ds i d g (omega arith))

-- The valid arguments.
argfd_cases :
    (ofile : Descriptors) (n : ℤ)
    → (argfd ofile n ≡ none)
      ⊎ ((fd : ℕ) × (f : ℕ) × (argfd ofile n ≡ some (fd, f))
          × (n ≡ pos fd)
          × (fd < nofile)
          × (file_of ofile fd ≡ some f))
unfolding argfd
argfd_cases ofile (negsuc n) = inl refl
argfd_cases ofile (pos fd) = elim (Bool-cases (ltb fd nofile)) [
  | inr e ↦ inl (rw e refl)
  | inl e ↦ elim (Option-cases (file_of ofile fd)) [
    | inl q ↦ inl (rw (e, q) refl)
    | inr (f, q) ↦ inr (fd, f, rw (e, q) refl, refl, ltb→lt fd nofile e, q)
  ]
]

module _ {F : Type 0} (files : FileTable F) (counts : Counts files) (others : ℕ → ℕ) where
  -- Each file has a reference for every descriptor of the process that holds it, and the `others`.
  pub record Balanced (st : State files) : Type 0 where
    pub size : length st.ofile ≡ nofile
    pub balance : (f : ℕ) → files.refs st.table f ≡ others f + uses st.ofile f

  dup_refs : (t : F) (f h : ℕ) → files.refs (files.filedup t f) h ≡ files.refs t h + one (some f) h
  unfolding one
  dup_refs t f h = elim (Bool-cases (f == h)) [
    | inl e ↦ rw e (
        subst (λ g. files.refs (files.filedup t f) g ≡ files.refs t g + 1) (==→eq f h e)
          (counts.dup_here t f))
    | inr e ↦ rw e (counts.dup_else t f h (λ q. ==→ne f h e (sym q)) ∙ omega arith)
  ]

  pub close_refs :
      (t : F) (f h : ℕ) → files.refs (files.fileclose t f) h ≡ files.refs t h - one (some f) h
  unfolding one
  close_refs t f h = elim (Bool-cases (f == h)) [
    | inl e ↦ rw e (
        subst (λ g. files.refs (files.fileclose t f) g ≡ files.refs t g - 1) (==→eq f h e)
          (counts.close_here t f))
    | inr e ↦ rw e (counts.close_else t f h (λ q. ==→ne f h e (sym q)) ∙ omega arith)
  ]

  pub empty_one : (d : Option ℕ) (h : ℕ) → is_empty d ≡ true → one d h ≡ 0
  unfolding one
  empty_one none h e = refl
  empty_one (some f) h e = absurd (false≢true e)

  -- How `sys_dup` ends: with -1 and no change, for a bad descriptor or a full table, or with the first
  -- free descriptor, which holds the same file.
  pub data Dups (st : State files) (n : ℤ) : ℤ × State files → Type 0 where
    refuses :
        (argfd st.ofile n ≡ none) ⊎ NonePasses is_empty none st.ofile → Dups st n (minus_one, st)
    copies :
        (fd k f : ℕ) (st' : State files)
        → n ≡ pos fd
        → file_of st.ofile fd ≡ some f
        → IsFirst is_empty none st.ofile k
        → st'.ofile ≡ set st.ofile k (some f)
        → Dups st n (pos k, st')

  -- `sys_dup` returns -1 and changes nothing for a bad descriptor or a full table, and otherwise the
  -- first free descriptor, which then holds the same file. Every file keeps one reference for each
  -- descriptor that holds it.
  pub sys_dup-Dups :
      (st : State files) (n : ℤ)
      → Balanced st
      → Balanced (sys_dup files st n).1 × Dups st n (sys_dup files st n)
  unfolding sys_dup fdalloc
  sys_dup-Dups st n b = elim (argfd_cases st.ofile n) [
    | inl e ↦ rw (sys_dup, e) (b, refuses (inl e))
    | inr (fd, f, e, m, l, q) ↦ elim (first_cases is_empty none st.ofile) [
      | inl (e', g) ↦ rw (sys_dup, fdalloc, e, e') (b, refuses (inr g))
      | inr (k, e', g) ↦
          rw (sys_dup, fdalloc, e, e')
            (
              record {
                size = length-set st.ofile k (some f) ∙ b.size;
                balance = λ h. omega (
                  arith,
                  dup_refs st.table f h,
                  b.balance h,
                  uses-set st.ofile k (some f) h g.within,
                  empty_one (get_or st.ofile k none) h g.passes,
                );
              },
              copies fd k f _ m q g refl,
            )
    ]
  ]

  -- How `sys_close` ends: with -1 and no change for a bad descriptor, or with the descriptor free.
  pub data Shuts (st : State files) (n : ℤ) : ℤ × State files → Type 0 where
    bad : argfd st.ofile n ≡ none → Shuts st n (minus_one, st)
    shut :
        (fd : ℕ) (st' : State files)
        → n ≡ pos fd
        → st'.ofile ≡ set st.ofile fd none
        → Shuts st n (pos 0, st')

  -- `sys_close` returns -1 and changes nothing for a bad descriptor, and otherwise frees the
  -- descriptor. Every file keeps one reference for each descriptor that holds it.
  pub sys_close-Shuts :
      (st : State files) (n : ℤ)
      → Balanced st
      → Balanced (sys_close files st n).1 × Shuts st n (sys_close files st n)
  unfolding sys_close
  sys_close-Shuts st n b = elim (argfd_cases st.ofile n) [
    | inl e ↦ rw (sys_close, e) (b, bad e)
    | inr (fd, f, e, m, l, q) ↦
        rw (sys_close, e)
          (
            record {
              size = length-set st.ofile fd none ∙ b.size;
              balance = λ h. omega (
                arith,
                close_refs st.table f h,
                b.balance h,
                uses-set st.ofile fd none h (omega (arith, b.size)),
                ap (λ d. one d h) q,
                empty_one none h refl,
              );
            },
            shut fd _ m refl,
          )
  ]
