-- ===== src/Fs/Names/Resolves.antt =====
-- `namex` of Lab-5 Task 5.1, kernel/fs.c, finds what the path names.
use cs344_os_lab.Base.{
  ℕ, zero, suc, ◌+◌, ◌<◌, ◌≡◌, ◌≢◌, refl, sym, ◌∙◌, subst, Bool, true, false, ◌&&◌, Option, none,
  some, List, [], ◌∷◌, ◌⊎◌, inl, inr, arith,
}
use mathlib.Core.Bool.{false≢true}
use cs344_os_lab.Base.Search.{NonePasses}
use cs344_os_lab.Base.Lists.{length}
use cs344_os_lab.Fs.{Inode, Disk}
use cs344_os_lab.Fs.Itable.{no_inode, inode, holds, is_spare}
use cs344_os_lab.Fs.Inodes.{Fsys}
use cs344_os_lab.Fs.Inodes.Reclaims.{file_at}
use cs344_os_lab.Fs.Path.{skipelem, skip_slashes}
use cs344_os_lab.Fs.Path.Elements.{
  elements, elements_nil, elements_more, Skips, ended, next, skipelem-Skips,
}
use cs344_os_lab.Fs.Dirs.{t_dir}
use cs344_os_lab.Fs.Dirs.Scan.{Finds}
use cs344_os_lab.Fs.Names.{
  Round, returns, goes, is_nil, Outcome, panics, waits, gives, lock_waits, put_waits, name_round,
  finish, namex_loop,
}
use cs344_os_lab.Fs.Names.Walk.{clip, Walks}
use cs344_os_lab.Base.Bags.{at}
use cs344_os_lab.Fs.Accounts.{ref_at}
use cs344_os_lab.Fs.Names.Steps.{Ready, iput-Put}
use cs344_os_lab.Fs.Names.Descend.{At, Left, After, name_round-After}

-- An answer of the lookup for what the path names, where `base` counts the references of others: the
-- walk keeps its reference to the inode that it returns, or gives it up.
pub data Answers (d : Disk) (base : ℕ → ℕ) (g : Fsys) : Option ℕ → Option ℕ → Type 0 where
  one :
      (e k : ℕ)
      → g.disk ≡ d
      → Ready g
      → (inode g.table e).inum ≡ k
      → ((i : ℕ) → ref_at g.table i ≡ base i + at e i)
      → Answers d base g (some e) (some k)
  nothing :
      g.disk ≡ d → Ready g → ((i : ℕ) → ref_at g.table i ≡ base i) → Answers d base g none none

-- The walk is at a directory that has the next element, with its reference to entry `w`, and the inode of
-- that element has no entry in the table, where every entry is in use.
pub data Full (d : Disk) (base : ℕ → ℕ) (len : ℕ) (parent : Bool) : ℕ → List (List ℕ) → Type 0 where
  here :
      (k off j w : ℕ) (e : List ℕ) (es : List (List ℕ)) (t : List Inode)
      → (parent ≡ false) ⊎ (es ≢ [])
      → (d.dinodes k).type ≡ t_dir
      → Finds (clip e) (file_at d k) 0 (some (off, j))
      → (inode t w).inum ≡ k
      → length t ≡ len
      → ((i : ℕ) → ref_at t i ≡ base i + at w i)
      → NonePasses (holds (inode t w).dev j) no_inode t
      → NonePasses is_spare no_inode t
      → Full d base len parent k (e ∷ es)
  below :
      (k off j : ℕ) (e : List ℕ) (es : List (List ℕ))
      → (parent ≡ false) ⊎ (es ≢ [])
      → (d.dinodes k).type ≡ t_dir
      → Finds (clip e) (file_at d k) 0 (some (off, j))
      → Full d base len parent j es
      → Full d base len parent k (e ∷ es)

-- How the walk from inode `k` ends: with an answer, or in the panic of `iget` at an element on the way.
pub data Reached (d : Disk) (base : ℕ → ℕ) (len : ℕ) (parent : Bool) (k : ℕ) (name : List ℕ)
    (es : List (List ℕ)) : Outcome → Type 0 where
  reaches :
      (q r : Option ℕ) (n : List ℕ) (g : Fsys)
      → Walks d parent k name es r n
      → Answers d base g q r
      → Reached d base len parent k name es (gives q n g)
  no_entry : Full d base len parent k es → Reached d base len parent k name es panics

-- The walk has the reference to entry `ip`.
pub record Counted (base : ℕ → ℕ) (len ip : ℕ) (f : Fsys) : Type 0 where
  pub counts : (i : ℕ) → ref_at f.table i ≡ base i + at ip i
  pub size : length f.table ≡ len

module _ (base : ℕ → ℕ) (len : ℕ) where
  finish-Reached :
      (parent : Bool) (name : List ℕ) (ip : ℕ) (f : Fsys)
      → Ready f
      → (inode f.table ip).ref ≢ 0
      → Counted base len ip f
      → Reached f.disk base len parent (inode f.table ip).inum name [] (finish parent name ip f)
  unfolding finish
  finish-Reached false name ip f r u c =
      reaches (some ip) _ name f (Walks.ended _ name refl) (one ip _ refl r refl c.counts)
  finish-Reached true name ip f r u c =
      let b = iput-Put ip f r u in
      let free : put_waits ip f ≡ false = ground (arith, r.unlocked ip) in
      rw (finish, free, b.1)
        (reaches none none name b.0 (Walks.no_last _ name refl)
          (nothing (b.2).disk (b.2).ready (λ i. omega (arith, (b.2).counts i, c.counts i))))

  -- The walk goes on at another inode.
  module _ (parent : Bool) (f g : Fsys) (k off j ip to : ℕ) (n e : List ℕ) (es : List (List ℕ))
      (m : (parent ≡ false) ⊎ (es ≢ [])) (t : (f.disk.dinodes k).type ≡ t_dir)
      (p : Finds (clip e) (file_at f.disk k) 0 (some (off, j))) (a : At f ip to j g) where
    moved_walk :
        (r : Option ℕ) (n' : List ℕ)
        → Walks g.disk parent (inode g.table to).inum (clip e) es r n'
        → Walks f.disk parent k n (e ∷ es) r n'
    moved_walk r n' w = Walks.down k off j n e n' es r m t p (
        subst (λ i. Walks f.disk parent i (clip e) es r n') a.inum
          (subst (λ d. Walks d parent (inode g.table to).inum (clip e) es r n') a.disk w))

    moved_answer :
        (h : Fsys) (q r : Option ℕ) → Answers g.disk base h q r → Answers f.disk base h q r
    moved_answer h _ _ (one x y b c v w) = one x y (b ∙ a.disk) c v w
    moved_answer h _ _ (nothing b c w) = nothing (b ∙ a.disk) c w

    moved :
        (o : Outcome)
        → Reached g.disk base len parent (inode g.table to).inum (clip e) es o
        → Reached f.disk base len parent k n (e ∷ es) o
    moved _ (reaches q r n' h w x) = reaches q r n' h (moved_walk r n' w) (moved_answer h q r x)
    moved _ (no_entry w) = no_entry (
        below k off j e es m t p (
          subst (λ i. Full f.disk base len parent i es) a.inum
            (subst (λ d. Full d base len parent (inode g.table to).inum es) a.disk w)))

-- A path is empty exactly when it has no more elements, since it does not begin with a slash.
last :
    (parent : Bool) (rest : List ℕ)
    → (parent && is_nil rest) ≡ true
    → (parent ≡ true) × (elements rest ≡ [])
last true [] e = (refl, elements_nil)
last true (c ∷ s) e = absurd (false≢true e)
last false rest e = absurd (false≢true e)

not_last :
    (parent : Bool) (rest : List ℕ)
    → skip_slashes rest ≡ rest
    → (parent && is_nil rest) ≡ false
    → (parent ≡ false) ⊎ (elements rest ≢ [])
not_last false rest s e = inl refl
not_last true [] s e = absurd (false≢true (sym e))
not_last true (c ∷ r) s e = inr (elements_more c r s)

module _ (base : ℕ → ℕ) (len : ℕ) (size : ℕ) (parent : Bool) where
  abbrev ReachedFrom : Fsys → ℕ → List ℕ → List (List ℕ) → Outcome → Type 0
  ReachedFrom f ip name es o = Reached f.disk base len parent (inode f.table ip).inum name es o

  module _ (fuel : ℕ) (f : Fsys) (ip : ℕ) (name e rest : List ℕ) (c : Counted base len ip f)
      (s : skip_slashes rest ≡ rest)
      (ih : (g : Fsys) (to : ℕ)
        → Ready g
        → (inode g.table to).ref ≢ 0
        → Counted base len to g
        → ReachedFrom g to
            (clip e)
            (elements rest)
            (namex_loop size parent fuel rest (clip e) to g)) where
    abbrev next_round : Option Round → Outcome
    next_round r = elim r [
      | none ↦ panics
      | some q ↦ elim q [
        | returns v g ↦ gives v (clip e) g
        | goes to g ↦ namex_loop size parent fuel rest (clip e) to g
      ]
    ]

    fewer_held : (g : Fsys) → Left f ip g → (i : ℕ) → ref_at g.table i ≡ base i
    fewer_held g l i = omega (arith, l.counts i, c.counts i)

    one_held : (to j : ℕ) (g : Fsys) → At f ip to j g → Counted base len to g
    one_held to j g a = record {
      counts = λ i. omega (arith, a.counts i, c.counts i);
      size = a.size ∙ c.size;
    }

    round-Reached :
        (r : Option Round)
        → After parent rest (clip e) f ip (inode f.table ip).inum r
        → ReachedFrom f ip name (e ∷ elements rest) (next_round r)
    round-Reached _ (After.no_dir g t l) =
        reaches none none (clip e) g (Walks.no_dir _ name e (elements rest) t)
          (nothing l.disk l.ready (fewer_held g l))
    round-Reached _ (After.at_parent g t m a) =
        let z = last parent rest m in
        reaches (some ip) (some (inode f.table ip).inum) (clip e) g
          (subst
            (λ es.
              Walks f.disk parent (inode f.table ip).inum name (e ∷ es)
                (some (inode f.table ip).inum) (clip e))
            (sym z.1) (Walks.at_parent _ name e z.0 t))
          (one ip _ a.disk a.ready a.inum (one_held ip _ g a).counts)
    round-Reached _ (After.misses g t m p l) =
        reaches none none (clip e) g
          (Walks.lost _ name e (elements rest) (not_last parent rest s m) t p)
          (nothing l.disk l.ready (fewer_held g l))
    round-Reached _ (After.moves off j to g t m p a) =
        moved base len parent f g _ off j ip to name e (elements rest) (not_last parent rest s m) t
          p a _ (ih g to a.ready a.used (one_held to j g a))
    round-Reached _ (After.full off j t d m p q l w a b) = no_entry (
        here _ off j ip e (elements rest) t (not_last parent rest s m) d p q (l ∙ c.size)
          (λ i. w i ∙ c.counts i) a b)

  -- What a round does, when the lock is there or not.
  abbrev round_of : ℕ → List ℕ → List ℕ → ℕ → Fsys → Bool → Outcome
  round_of fuel rest n ip f b = elim b [
    | true ↦ waits ip
    | false ↦ elim (name_round size parent rest n ip f) [
      | none ↦ panics
      | some r ↦ elim r [
        | returns q g ↦ gives q n g
        | goes to g ↦ namex_loop size parent fuel rest n to g
      ]
    ]
  ]

  pub loop-Reached :
      (fuel : ℕ) (path name : List ℕ) (ip : ℕ) (f : Fsys)
      → length path < fuel
      → Ready f
      → (inode f.table ip).ref ≢ 0
      → Counted base len ip f
      → ReachedFrom f ip name (elements path) (namex_loop size parent fuel path name ip f)
  unfolding namex_loop
  loop-Reached zero path name ip f l r u c = absurd (omega arith)
  loop-Reached (suc fuel) path name ip f l r u c =
      skipped (skipelem path) (skipelem-Skips path) (λ rest n to g. loop-Reached fuel rest n to g)
    where
      unlocked : lock_waits ip f ≡ false
      unlocked = ground (arith, r.unlocked ip)

      skipped :
          (x : Option (List ℕ × List ℕ))
          → Skips path x
          → ((rest n : List ℕ) (to : ℕ) (g : Fsys)
              → length rest < fuel
              → Ready g
              → (inode g.table to).ref ≢ 0
              → Counted base len to g
              → ReachedFrom g to n (elements rest) (namex_loop size parent fuel rest n to g))
          → ReachedFrom f ip name (elements path) (elim x as (λ y. Outcome) [
            | none ↦ finish parent name ip f
            | some e ↦ round_of fuel e.0 e.1 ip f (lock_waits ip f)
          ])
      skipped _ (ended e) h = rw e (finish-Reached base len parent name ip f r u c)
      skipped _ (next e rest p w q) h = rw (p) (
          subst
            (λ b. ReachedFrom f ip name (e ∷ elements rest) (round_of fuel rest (clip e) ip f b))
            (sym unlocked)
            (round-Reached fuel f ip name e rest c q
              (λ g to a b z. h rest (clip e) to g (omega (arith, w)) a b z)
              (name_round size parent rest (clip e) ip f)
              (name_round-After size parent rest (clip e) f ip r u)))
