-- ===== src/Shm/Inv.antt =====
-- The invariant of the shared regions of Lab-3 Task 3.1, kernel/shm.c, under shm_create and shm_get.
use cs344_os_lab.Base.{
  ℕ, ◌+◌, ◌<◌, ◌≡◌, refl, sym, ap, ◌∙◌, subst, ◌≢◌, true, false, some, arith, inl, inr,
}
use mathlib.Core.Bool.{false≢true}
use cs344_os_lab.Base.Tests.{
  if◌then◌else◌, Bool-cases, Option-cases, ◌==◌, ==→eq, ==→ne, ==_self, ==_ne,
}
use cs344_os_lab.Base.Search.{first_cases, IsFirst}
use cs344_os_lab.Base.Lists.{length, get_or, set, length-set, get_or-set}
use cs344_os_lab.Base.Int.{ℤ}
use cs344_os_lab.Proc.{nproc}
use cs344_os_lab.Shm.Memory.{Vm, Laws}
use cs344_os_lab.Shm.{
  Region, no_region, max_shm, shm_va, has_key, is_free, State, region, maps, create_at, shm_create,
  get_at, shm_get,
}
use cs344_os_lab.Shm.Count.{count, count_same, count_more, count_empty}

module _ {PT : Type 0} (vm : Vm PT) where
  -- A region in use has a page, and its count is the number of processes that map it; a region that
  -- is free is mapped by nobody.
  pub record IsRight (st : State vm) (s : ℕ) (r : Region) : Type 0 where
    pub page : r.used ≡ true → r.page ≢ 0
    pub counted : r.used ≡ true → r.refs ≡ count nproc (λ p. maps vm st p s)
    pub free : r.used ≡ false → (p : ℕ) → p < nproc → maps vm st p s ≡ false

  pub record Inv (st : State vm) : Type 0 where
    pub size : length st.regs ≡ max_shm
    pub right : (s : ℕ) → s < max_shm → IsRight st s (region vm st s)

  -- A change of one region, and of who maps it.
  pub region-Inv :
      (st st' : State vm) (s : ℕ) (r : Region)
      → Inv st
      → s < max_shm
      → st'.regs ≡ set st.regs s r
      → ((p t : ℕ) → t ≢ s → maps vm st' p t ≡ maps vm st p t)
      → IsRight st' s r
      → Inv st'
  region-Inv st st' s r v h e same right = record {
    size = ap length e ∙ length-set st.regs s r ∙ v.size;
    right = λ t l. elim (Bool-cases (s == t)) [
      | inl q ↦
          subst (IsRight st' t) (sym (read t ∙ rw q refl))
            (subst (λ u. IsRight st' u r) (==→eq s t q) right)
      | inr q ↦ subst (IsRight st' t) (sym (read t ∙ rw q refl)) (kept t l (==→ne s t q))
    ];
  }
    where
      read : (t : ℕ) → region vm st' t ≡ (if s == t then r else region vm st t)
      read t =
          ap (λ l. get_or l t no_region) e
          ∙ get_or-set st.regs s t r no_region (omega (arith, v.size))

      kept : (t : ℕ) → t < max_shm → s ≢ t → IsRight st' t (region vm st t)
      kept t l n = record {
        page = (v.right t l).page;
        counted = λ u.
            (v.right t l).counted u ∙ sym (count_same nproc _ _ (λ p m. same p t (λ q. n (sym q))));
        free = λ u p m. same p t (λ q. n (sym q)) ∙ (v.right t l).free u p m;
      }

  -- `shm_create` keeps the invariant, for whatever page `kalloc` gives.
  pub shm_create-Inv : (st : State vm) (key : ℤ) (pa : ℕ) → Inv st → Inv (shm_create vm st key pa).1
  unfolding shm_create create_at
  shm_create-Inv st key pa v = elim (first_cases (has_key key) no_region st.regs) [
    | inr (s, e, f) ↦ rw (shm_create, e) v
    | inl (e, f) ↦ elim (first_cases is_free no_region st.regs) [
      | inl (e', g) ↦ rw (shm_create, e, e') v
      | inr (s, e', g) ↦
          rw (shm_create, e, e')
            (elim (Bool-cases (pa == 0)) [
              | inl z ↦ rw z (
                  region-Inv st _ s _ v (omega (arith, g.within, v.size)) refl (λ p t n. refl)
                    (record {
                      page = λ u. absurd (false≢true u);
                      counted = λ u. absurd (false≢true u);
                      free = λ u. unmapped s g;
                    }))
              | inr z ↦ rw z (
                  region-Inv st _ s _ v (omega (arith, g.within, v.size)) refl (λ p t n. refl)
                    (record {
                      page = λ u. ==→ne pa 0 z;
                      counted = λ u. sym (count_empty nproc _ (unmapped s g));
                      free = λ u. absurd (false≢true (sym u));
                    }))
            ])
    ]
  ]
    where
      unmapped :
          (s : ℕ)
          → IsFirst is_free no_region st.regs s
          → (p : ℕ) → p < nproc
          → maps vm st p s ≡ false
      unmapped s g = (v.right s (omega (arith, g.within, v.size))).free (ground (arith, g.passes))

  module _ (laws : Laws vm) where
    -- The table of `p` gets a new entry for the region.
    get_at-Inv :
        (st : State vm) (p s : ℕ)
        → Inv st
        → p < nproc
        → s < max_shm
        → (region vm st s).used ≡ true
        → Inv (get_at vm st p s).1
    unfolding get_at
    get_at-Inv st p s v l h u = elim (Bool-cases ((region vm st s).page == 0)) [
      | inl z ↦ rw z v
      | inr z ↦ elim (Bool-cases (maps vm st p s)) [
        | inl m ↦ rw (z, m) v
        | inr m ↦ elim (Option-cases (vm.map (st.tables p) (shm_va s) (region vm st s).page)) [
          | inl n ↦ rw (z, m, n) v
          | inr (pt, n) ↦
              rw (z, m, n)
                (region-Inv st _ s _ v h refl (others pt n) (record {
                  page = λ w. ==→ne _ 0 z;
                  counted = λ w.
                      ap (λ c. c + 1) ((v.right s h).counted u)
                      ∙ sym (count_more nproc p _ _ l m (mapped pt n) (unchanged pt));
                  free = λ w. absurd (false≢true (sym w ∙ u));
                }))
        ]
      ]
    ]
      where
        unchanged :
            (pt : PT) (q : ℕ)
            → q ≢ p
            → vm.present (if q == p then pt else st.tables q) (shm_va s) ≡ maps vm st q s
        unchanged pt q e = rw (==_ne q p e) refl

        mapped :
            (pt : PT)
            → vm.map (st.tables p) (shm_va s) (region vm st s).page ≡ some pt
            → vm.present (if p == p then pt else st.tables p) (shm_va s) ≡ true
        mapped pt n = rw (==_self p) (laws.map_here _ pt _ _ n)

        others :
            (pt : PT)
            → vm.map (st.tables p) (shm_va s) (region vm st s).page ≡ some pt
            → (q t : ℕ) → t ≢ s
            → vm.present (if q == p then pt else st.tables q) (shm_va t) ≡ maps vm st q t
        others pt n q t e = elim (Bool-cases (q == p)) [
          | inl w ↦ rw (w, ==→eq q p w) (laws.map_else _ pt _ _ (shm_va t) n (ground arith))
          | inr w ↦ rw w refl
        ]

    -- `shm_get` by a process keeps the invariant: a count goes up exactly when a new mapping is made.
    pub shm_get-Inv :
        (st : State vm) (p : ℕ) (key : ℤ) → Inv st → p < nproc → Inv (shm_get vm st p key).1
    unfolding shm_get
    shm_get-Inv st p key v l = elim (first_cases (has_key key) no_region st.regs) [
      | inl (e, f) ↦ rw (shm_get, e) v
      | inr (s, e, f) ↦
          rw (shm_get, e)
            (get_at-Inv st p s v l (omega (arith, f.within, v.size)) (ground (arith, f.passes)))
    ]
