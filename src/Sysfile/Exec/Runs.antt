-- ===== src/Sysfile/Exec/Runs.antt =====
-- Pages and arguments of `sys_exec`, Lab-5 Task 5.2, kernel/sysfile.c.
use cs344_os_lab.Base.{
  ℕ, zero, suc, ◌+◌, ◌*◌, ◌%◌, ◌^◌, ◌<◌, ◌≤◌, ◌≡◌, refl, sym, ◌∙◌, ap, subst, Bool, true, false,
  Option, none, some, List, [], ◌∷◌, ◌++◌, arith, inl, inr,
}
use cs344_os_lab.Base.Tests.{if◌then◌else◌, ◌==◌, ==_self, Option-cases}
use cs344_os_lab.Base.Lists.{length}
use cs344_os_lab.Base.Int.{ℤ, minus_one}
use cs344_os_lab.Syscall.{User, fetchaddr, fetchstr}
use cs344_os_lab.Sysfile.Exec.{
  maxarg, Pages, Argv, texts, free_args, fetch_args, exec_args, sys_exec,
}

-- 1 at the page itself.
abbrev pub at_page : ℕ → ℕ → ℕ
at_page a q = if a == q then 1 else 0

abbrev pub given : Option ℕ → ℕ → ℕ
given none q = 0
given (some a) q = at_page a q

-- How often each page is handed out, the pages of address spaces left out: kalloc hands one out, kfree
-- takes back one that is, and kexec keeps those of its arguments.
pub record Books {P : Type 0} (pages : Pages P) : Type 0 where
  pub used : P → ℕ → ℕ
  pub by_kalloc :
      (s : P) (q : ℕ) → used (pages.kalloc s).1 q ≡ used s q + given (pages.kalloc s).0 q
  pub by_kfree :
      (a q : ℕ) (s : P) → 0 < used s a → used (pages.kfree a s) q + at_page a q ≡ used s q
  pub by_kexec :
      (path : List ℕ) (args : List (List ℕ)) (s : P) (q : ℕ)
      → used (pages.kexec path args s).1 q ≡ used s q

-- How many entries hold a page.
pub holders : Argv → ℕ → ℕ
holders [] q = 0
holders (a ∷ out) q = at_page a.0 q + holders out q

holders-append :
    (out : Argv) (a : ℕ × List ℕ) (q : ℕ)
    → holders (out ++ (a ∷ [])) q ≡ holders out q + at_page a.0 q
unfolding holders
holders-append [] a q = omega arith
holders-append (b ∷ bs) a q = omega (arith, holders-append bs a q)

texts_then :
    (cs : Argv) (a : ℕ × List ℕ) (ts : List (List ℕ))
    → texts (cs ++ (a ∷ [])) ++ ts ≡ texts cs ++ (a.1 ∷ ts)
texts_then [] a ts = refl
texts_then (b ∷ bs) a ts = ap (λ us. b.1 ∷ us) (texts_then bs a ts)

texts_end : (cs : Argv) → texts cs ≡ texts cs ++ []
texts_end [] = refl
texts_end (b ∷ bs) = ap (λ us. b.1 ∷ us) (texts_end bs)

-- The strings at the pointers from number `i` on, up to the null pointer.
pub data Args (p : User) (uargv : ℕ) : ℕ → List (List ℕ) → Type 0 where
  last : (i : ℕ) → fetchaddr p ((uargv + 8 * i) % 2 ^ 64) ≡ some 0 → Args p uargv i []
  more :
      (i a : ℕ) (text : List ℕ) (rest : List (List ℕ))
      → fetchaddr p ((uargv + 8 * i) % 2 ^ 64) ≡ some (suc a)
      → fetchstr p (suc a) 4096 ≡ some text
      → Args p uargv (i + 1) rest
      → Args p uargv i (text ∷ rest)

module _ {P : Type 0} (pages : Pages P) (books : Books pages) (p : User) (uargv : ℕ) where
  abbrev Same : P → P → Type 0
  Same s t = (q : ℕ) → books.used t q ≡ books.used s q

  free_args-used :
      (argv : Argv) (s t : P)
      → ((q : ℕ) → books.used t q ≡ books.used s q + holders argv q)
      → Same s (free_args pages p argv t)
  unfolding free_args holders
  free_args-used [] s t h = λ q. h q ∙ omega arith
  free_args-used (a ∷ out) s t h = free_args-used out s (pages.kfree a.0 t) (λ q.
      let held : 0 < books.used t a.0 = ground (arith, h a.0, ==_self a.0) in
      omega (arith, books.by_kfree a.0 q t held, h q))

  -- `k` pages after each other are had from the allocator.
  pub data Takes : P → ℕ → P → Type 0 where
    enough : (s : P) → Takes s 0 s
    another :
        (s u : P) (k page : ℕ)
        → (pages.kalloc s).0 ≡ some page
        → Takes (pages.kalloc s).1 k u
        → Takes s (suc k) u

  -- Why there is nothing to run: the arguments are not all there, or are too many, or the allocator has
  -- given a page for each of the first `k` of them and has none for the next.
  pub data Fails (s : P) (n i : ℕ) : Type 0 where
    no_args : ((ts : List (List ℕ)) → Args p uargv i ts → n ≤ length ts) → Fails s n i
    no_page :
        (k a : ℕ) (u : P)
        → k < n
        → fetchaddr p ((uargv + 8 * (i + k)) % 2 ^ 64) ≡ some (suc a)
        → Takes s k u
        → (pages.kalloc u).0 ≡ none
        → Fails s n i

  not_none :
      (i : ℕ) (ts : List (List ℕ))
      → fetchaddr p ((uargv + 8 * i) % 2 ^ 64) ≡ none
      → Args p uargv i ts
      → ⊥
  not_none _ _ e (last i h) = let z = sym e ∙ h in ground (arith, z)
  not_none _ _ e (more i a text rest h k z) = let y = sym e ∙ h in ground (arith, y)

  not_unread :
      (i a : ℕ) (ts : List (List ℕ))
      → fetchaddr p ((uargv + 8 * i) % 2 ^ 64) ≡ some (suc a)
      → fetchstr p (suc a) 4096 ≡ none
      → Args p uargv i ts
      → ⊥
  not_unread _ a _ e f (last i h) = let z = sym e ∙ h in ground (arith, z)
  not_unread _ a _ e f (more i b text rest h k z) =
      let y = sym e ∙ h in
      let same : a ≡ b = ground (arith, y) in
      let x = sym f ∙ ap (λ n. fetchstr p (suc n) 4096) same ∙ k in ground (arith, x)

  one_more :
      (n i a : ℕ) (ts : List (List ℕ))
      → fetchaddr p ((uargv + 8 * i) % 2 ^ 64) ≡ some (suc a)
      → ((us : List (List ℕ)) → Args p uargv (i + 1) us → n ≤ length us)
      → Args p uargv i ts
      → suc n ≤ length ts
  one_more n _ a _ e k (last i h) = let z = sym e ∙ h in ground (arith, z)
  one_more n _ a _ e k (more i b text rest h f z) = omega (arith, k rest z)

  -- The loop with `n` rounds left.
  data Loops (s : P) (n i : ℕ) (argv : Argv) : Bool × Argv × P → Type 0 where
    fails :
        (out : Argv) (t : P)
        → Fails s n i
        → ((q : ℕ) → books.used t q + holders argv q ≡ books.used s q + holders out q)
        → Loops s n i argv (false, out, t)
    loads :
        (ts : List (List ℕ)) (out : Argv) (t : P)
        → Args p uargv i ts
        → length ts < n
        → texts out ≡ texts argv ++ ts
        → ((q : ℕ) → books.used t q + holders argv q ≡ books.used s q + holders out q)
        → Loops s n i argv (true, out, t)

  took :
      (s : P) (q : ℕ) (r : Option ℕ)
      → (pages.kalloc s).0 ≡ r
      → books.used (pages.kalloc s).1 q ≡ books.used s q + given r q
  took s q r e =
      subst (λ x. books.used (pages.kalloc s).1 q ≡ books.used s q + given x q) e
        (books.by_kalloc s q)

  -- A round that has loaded one more string.
  stepped :
      (s : P) (n i a page : ℕ) (argv : Argv) (text : List ℕ) (r : Bool × Argv × P)
      → fetchaddr p ((uargv + 8 * i) % 2 ^ 64) ≡ some (suc a)
      → fetchstr p (suc a) 4096 ≡ some text
      → (pages.kalloc s).0 ≡ some page
      → Loops (pages.kalloc s).1 n (i + 1) (argv ++ ((page, text) ∷ [])) r
      → Loops s (suc n) i argv r
  stepped s n i a page argv text _ e f g (fails out t (no_args k) h) =
      fails out t (no_args (λ ts z. one_more n i a ts e k z))
        (λ q. omega (arith, h q, took s q (some page) g, holders-append argv (page, text) q))
  stepped s n i a page argv text _ e f g (fails out t (no_page k b u l x y z) h) =
      fails out t
        (no_page (suc k) b u (omega arith)
          (subst (λ j. fetchaddr p ((uargv + 8 * j) % 2 ^ 64) ≡ some (suc b)) (omega arith) x)
          (another s u k page g y) z)
        (λ q. omega (arith, h q, took s q (some page) g, holders-append argv (page, text) q))
  stepped s n i a page argv text _ e f g (loads ts out t z l w h) =
      loads (text ∷ ts) out t (more i a text ts e f z) (omega arith)
        (w ∙ texts_then argv (page, text) ts)
        (λ q. omega (arith, h q, took s q (some page) g, holders-append argv (page, text) q))

  fetch_args-Loops :
      (n i : ℕ) (argv : Argv) (s : P) → Loops s n i argv (fetch_args pages p n uargv i argv s)
  unfolding fetch_args
  fetch_args-Loops zero i argv s = fails argv s (no_args (λ ts a. omega arith)) (λ q. refl)
  fetch_args-Loops (suc n) i argv s = elim (Option-cases (fetchaddr p ((uargv + 8 * i) % 2 ^ 64))) [
    | inl e ↦
        rw (fetch_args, e) (fails argv s (no_args (λ ts a. absurd (not_none i ts e a))) (λ q. refl))
    | inr (zero, e) ↦
        rw (fetch_args, e) (loads [] argv s (last i e) (omega arith) (texts_end argv) (λ q. refl))
    | inr (suc a, e) ↦ elim (Option-cases (pages.kalloc s).0) [
      | inl g ↦
          rw (fetch_args, e, g)
            (fails argv _
              (no_page 0 a s (omega arith)
                (subst (λ j. fetchaddr p ((uargv + 8 * j) % 2 ^ 64) ≡ some (suc a)) (omega arith) e)
                (enough s) g)
              (λ q. omega (arith, took s q none g)))
      | inr (page, g) ↦ elim (Option-cases (fetchstr p (suc a) 4096)) [
        | inl f ↦
            rw (fetch_args, e, g, f)
              (fails _ _ (no_args (λ ts z. absurd (not_unread i a ts e f z)))
                (λ q. omega (arith, took s q (some page) g, holders-append argv (page, []) q)))
        | inr (text, f) ↦
            rw (fetch_args, e, g, f)
              (stepped s n i a page argv text _ e f g
                (fetch_args-Loops n (i + 1) (argv ++ ((page, text) ∷ [])) (pages.kalloc s).1))
      ]
    ]
  ]

  -- How `sys_exec` ends.
  pub data Execs (path : Option (List ℕ)) (s : P) : ℤ × P → Type 0 where
    no_path : path ≡ none → Execs path s (minus_one, s)
    refused : (t : P) → Fails s maxarg 0 → Same s t → Execs path s (minus_one, t)
    executes :
        (name : List ℕ) (ts : List (List ℕ)) (argv : Argv) (u t : P)
        → path ≡ some name
        → Args p uargv 0 ts
        → length ts < maxarg
        → texts argv ≡ ts
        → ((q : ℕ) → books.used u q ≡ books.used s q + holders argv q)
        → Same s t
        → Execs path s ((pages.kexec name ts u).0, t)

  exec_args-Execs :
      (name : List ℕ) (s : P) (r : Bool × Argv × P)
      → Loops s maxarg 0 [] r
      → Execs (some name) s (exec_args pages p name r)
  unfolding exec_args holders
  exec_args-Execs name s _ (fails out t f h) =
      refused _ f (free_args-used out s t (λ q. omega (arith, h q)))
  exec_args-Execs name s _ (loads ts out t z l w h) =
      subst
        (λ us.
          Execs (some name) s
            ((pages.kexec name us t).0, free_args pages p out (pages.kexec name us t).1))
        (sym w)
        (executes name ts out t _ refl z l w (λ q. omega (arith, h q))
          (free_args-used out s _ (λ q. omega (arith, h q, books.by_kexec name ts t q))))

  -- `sys_exec` runs `kexec` with the path and the strings that `uargv` points to, up to its null pointer,
  -- and returns what it returns; there are fewer than MAXARG, and while `kexec` runs the page of each
  -- string is still held. It returns -1 only without a path, when the strings are not all there or too
  -- many, or when the allocator has no page for one of them, after it has given one for each before. In
  -- each case every page that it has taken is given back, once.
  pub sys_exec-Execs :
      (path : Option (List ℕ)) (s : P) → Execs path s (sys_exec pages p path uargv s)
  unfolding sys_exec
  sys_exec-Execs none s = no_path refl
  sys_exec-Execs (some name) s =
      exec_args-Execs name s (fetch_args pages p maxarg uargv 0 [] s)
        (fetch_args-Loops maxarg 0 [] s)
