-- ===== src/Fs/Dirs/Link.antt =====
-- What `dirlink` of Lab-5 Task 5.1, kernel/fs.c, adds to a directory.
use cs344_os_lab.Base.{
  ℕ, zero, suc, ◌+◌, ◌*◌, ◌%◌, ◌<◌, ◌≤◌, ◌≡◌, ◌≢◌, refl, sym, ap, ap₂, ◌∙◌, subst, true, false,
  Option, none, some, List, ◌⊎◌, inl, inr, arith,
}
use mathlib.Core.Bool.{false≢true}
use cs344_os_lab.Base.Tests.{Bool-cases, ◌==◌, ==→eq, ==→ne, ==_ne}
use cs344_os_lab.Base.Int.{pos, minus, eq_int_iff}
use cs344_os_lab.Fs.{Open, bsize, maxfile}
use cs344_os_lab.Fs.Content.{file_byte}
use cs344_os_lab.Fs.Io.Writei.{longer}
use cs344_os_lab.Fs.Dirs.{inum_at, name_at, namecmp, string, strncmp, new_entry}
use cs344_os_lab.Fs.Dirs.Scan.{
  Dense, matches, matches_ext, inum_ext, strncmp_ext, Finds, absent, found, Stops,
}

strncmp_self : (n : ℕ) (p : ℕ → ℕ) → strncmp n p p ≡ pos 0
unfolding strncmp minus
strncmp_self zero p = refl
strncmp_self (suc n) p = rw (strncmp_self n (λ i. p (i + 1))) (ground arith)

-- The two names are not the same for the kernel.
abbrev pub Differs : List ℕ → List ℕ → Type 0
Differs a b = namecmp (string a) (string b) ≢ pos 0

module _ (name : List ℕ) (inum : ℕ) where
  new_name : (j : ℕ) → j < 14 → name_at (new_entry name inum) 0 j ≡ string name j
  unfolding new_entry
  new_name j l = ground (arith, l)

  new_inum : inum < 65536 → inum_at (new_entry name inum) 0 ≡ inum
  unfolding new_entry
  new_inum l = omega arith

  matches_new : inum < 65536 → inum ≢ 0 → matches name (new_entry name inum) 0 ≡ true
  unfolding namecmp
  matches_new l nz =
      rw
        (
          new_inum l,
          ==_ne inum 0 nz,
          strncmp_ext 14 (string name) (string name) (name_at (new_entry name inum) 0) new_name,
          strncmp_self 14 (string name),
        )
        refl

  matches_other :
      (other : List ℕ) → Differs other name → matches other (new_entry name inum) 0 ≡ false
  unfolding namecmp
  matches_other other d =
      rw (strncmp_ext 14 (string other) (string name) (name_at (new_entry name inum) 0) new_name)
        (ground (arith, eq_int_iff (strncmp 14 (string other) (string name)) (pos 0), d))

-- The entry at `off`, of 16 bytes, is new; the other bytes of the directory are as they were.
pub record Written (name : List ℕ) (inum : ℕ) (o o' : Open) (off : ℕ) : Type 0 where
  pub stops : Stops o 0 off
  pub bytes : (i : ℕ) → i < 16 → file_byte o' (off + i) ≡ new_entry name inum i
  pub rest :
      (k : ℕ) → k < maxfile * bsize → (k < off) ⊎ (off + 16 ≤ k) → file_byte o' k ≡ file_byte o k
  pub size : o'.ip.size ≡ longer o.ip.size (off + 16)

module _ (name : List ℕ) (inum : ℕ) (o o' : Open) (off : ℕ) (d : Dense o)
    (w : Written name inum o o' off) where
  at_new :
      (other : List ℕ) → matches other (file_byte o') off ≡ matches other (new_entry name inum) 0
  at_new other =
      matches_ext other (file_byte o') (new_entry name inum) off 0
        (λ j l. w.bytes j l ∙ ap (new_entry name inum) (omega arith))

  apart : (e : ℕ) → e % 16 ≡ 0 → e ≢ off → (j : ℕ) → j < 16 → (e + j < off) ⊎ (off + 16 ≤ e + j)
  apart e a ne j u = ground (arith, u, a, w.stops.aligned, ne)

  byte_at_rest :
      (e : ℕ)
      → e % 16 ≡ 0
      → e < o.ip.size
      → e ≢ off
      → (j : ℕ) → j < 16
      → file_byte o' (e + j) ≡ file_byte o (e + j)
  byte_at_rest e a l ne j u = w.rest (e + j) (omega (arith, d.fits, d.whole)) (apart e a ne j u)

  at_rest :
      (other : List ℕ) (e : ℕ)
      → e % 16 ≡ 0
      → e < o.ip.size
      → e ≢ off
      → matches other (file_byte o') e ≡ matches other (file_byte o) e
  at_rest other e a l ne =
      matches_ext other (file_byte o') (file_byte o) e e (byte_at_rest e a l ne)

  within : (e : ℕ) → e % 16 ≡ 0 → e < o'.ip.size → e ≢ off → e < o.ip.size
  unfolding longer
  within e a l ne = ground (arith, l, w.size, a, w.stops.aligned, ne, d.whole, w.stops.at_most)

  new_within : off < o'.ip.size
  unfolding longer
  new_within = ground (arith, w.size, d.whole, w.stops.at_most)

  still_within : (e : ℕ) → e < o.ip.size → e < o'.ip.size
  unfolding longer
  still_within e l = ground (arith, w.size, l)

  -- The name is found where it was put.
  pub links-Finds :
      inum < 65536 → inum ≢ 0 → Finds name o 0 none → Finds name o' 0 (some (off, inum))
  links-Finds l nz (absent h) =
      subst (λ n. Finds name o' 0 (some (off, n))) same_inum
        (found off (omega arith) w.stops.aligned new_within
          (at_new name ∙ matches_new name inum l nz)
          (λ e u a v.
            at_rest name e a (omega (arith, w.stops.at_most)) (λ q. omega arith)
            ∙ h e u a (omega (arith, w.stops.at_most))))
    where
      same_inum : inum_at (file_byte o') off ≡ inum
      same_inum =
          ap₂ (λ x y. x + 256 * y) (ap (file_byte o') (omega arith) ∙ w.bytes 0 (omega arith))
            (w.bytes 1 (omega arith))
          ∙ new_inum name inum l

  not_new :
      (other : List ℕ) (e : ℕ)
      → Differs other name
      → e ≡ off
      → matches other (file_byte o') e ≡ false
  not_new other e df q =
      subst (λ k. matches other (file_byte o') k ≡ false) (sym q)
        (at_new other ∙ matches_other name inum other df)

  -- An entry with a name is in use, so it is not the one that was empty.
  in_use : (other : List ℕ) (e : ℕ) → e < o.ip.size → matches other (file_byte o) e ≡ true → e ≢ off
  in_use other e l t q = false≢true (
      rw (w.stops.empty (subst (λ k. k < o.ip.size) q l)) refl
      ∙ sym (ap (matches other (file_byte o)) q)
      ∙ t)

  -- Every other name is found as before.
  pub keeps-Finds :
      (other : List ℕ) (r : Option (ℕ × ℕ))
      → Differs other name
      → Finds other o 0 r
      → Finds other o' 0 r
  keeps-Finds other _ df (absent h) = absent (λ e u a v. elim (Bool-cases (e == off)) [
    | inl q ↦ not_new other e df (==→eq e off q)
    | inr q ↦
        let v' = within e a v (==→ne e off q) in at_rest other e a v' (==→ne e off q) ∙ h e u a v'
  ])
  keeps-Finds other _ df (found e u a v t h) =
      let ne = in_use other e v t in
      subst (λ n. Finds other o' 0 (some (e, n)))
        (inum_ext other (file_byte o') (file_byte o) e e (byte_at_rest e a v ne))
        (found e u a (still_within e v) (at_rest other e a v ne ∙ t) (λ k x b y.
          elim (Bool-cases (k == off)) [
            | inl q ↦ not_new other k df (==→eq k off q)
            | inr q ↦ at_rest other k b (omega arith) (==→ne k off q) ∙ h k x b y
          ]))
