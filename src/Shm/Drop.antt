-- ===== src/Shm/Drop.antt =====
-- Giving up shared memory: `shm_close` and `shm_cleanup` of Lab-3 Task 3.1, kernel/shm.c.
use cs344_os_lab.Base.{
  ℕ, zero, suc, ◌+◌, ◌-◌, ◌<◌, ◌≤◌, ◌≡◌, refl, sym, ap, ◌∙◌, subst, ◌≢◌, true, false, List, [], ◌∷◌,
  arith, inl, inr, ◌⊎◌,
}
use mathlib.Core.Bool.{false≢true}
use cs344_os_lab.Base.Tests.{if◌then◌else◌, Bool-cases, ◌==◌, ==→eq, ==→ne, ==_self, ==_ne}
use cs344_os_lab.Base.Search.{first_cases, IsFirst, NonePasses}
use cs344_os_lab.Base.Lists.{length, get_or-set_self}
use cs344_os_lab.Base.Int.{ℤ, pos, minus_one}
use cs344_os_lab.Proc.{nproc}
use cs344_os_lab.Shm.Memory.{Vm, Laws}
use cs344_os_lab.Shm.{
  Region, no_region, max_shm, shm_va, has_key, State, region, maps, set_table, drop, shm_close,
  cleanup_from, shm_cleanup,
}
use cs344_os_lab.Shm.Count.{count, count_more, count_none}
use cs344_os_lab.Shm.Inv.{Inv, region-Inv}

module _ {PT : Type 0} (vm : Vm PT) (laws : Laws vm) where
  -- How `p` gives up slot `s`. It did not map it, and nothing happens; it was the last to map it, and
  -- the page is freed and the slot too; or others map it still, and nothing is freed.
  pub data Drops (st : State vm) (p s : ℕ) : State vm × List ℕ → Type 0 where
    foreign : maps vm st p s ≡ false → Drops st p s (st, [])
    last :
        (st' : State vm)
        → maps vm st p s ≡ true
        → ((q : ℕ) → q < nproc → maps vm st' q s ≡ false)
        → (region vm st' s).used ≡ false
        → Drops st p s (st', (region vm st s).page ∷ [])
    shared :
        (st' : State vm)
        → maps vm st p s ≡ true
        → maps vm st' p s ≡ false
        → count nproc (λ q. maps vm st' q s) ≢ 0
        → region vm st' s ≡ record (region vm st s) { refs = count nproc (λ q. maps vm st' q s) }
        → Drops st p s (st', [])

  module _ (st : State vm) (p s : ℕ) (v : Inv vm st) (l : p < nproc) (h : s < max_shm)
      (u : (region vm st s).used ≡ true) where
    abbrev st₁ : State vm
    st₁ = set_table vm st p (vm.unmap (st.tables p) (shm_va s))

    gone :
        vm.present (if p == p then vm.unmap (st.tables p) (shm_va s) else st.tables p) (shm_va s)
        ≡ false
    gone = rw (==_self p) (laws.unmap_here (st.tables p) (shm_va s))

    others :
        (q : ℕ)
        → q ≢ p
        → maps vm st q s
          ≡ vm.present
              (if q == p then vm.unmap (st.tables p) (shm_va s) else st.tables q)
              (shm_va s)
    others q n = rw (==_ne q p n) refl

    elsewhere :
        (q t : ℕ)
        → t ≢ s
        → vm.present (if q == p then vm.unmap (st.tables p) (shm_va s) else st.tables q) (shm_va t)
          ≡ maps vm st q t
    elsewhere q t n = elim (Bool-cases (q == p)) [
      | inl w ↦
          rw (w, ==→eq q p w) (laws.unmap_else (st.tables p) (shm_va s) (shm_va t) (ground arith))
      | inr w ↦ rw w refl
    ]

    left : maps vm st p s ≡ true → (region vm st s).refs - 1 ≡ count nproc (λ q. maps vm st₁ q s)
    left m =
        let c = count_more nproc p (λ q. maps vm st₁ q s) (λ q. maps vm st q s) l gone m others in
        omega (arith, (v.right s h).counted u, c)

    in_table : s < length st.regs
    in_table = omega (arith, v.size)

    -- Either way the invariant holds.
    drop_lem : Inv vm (drop vm st p s).0 × Drops st p s (drop vm st p s)
    unfolding drop
    drop_lem = elim (Bool-cases (maps vm st p s)) [
      | inr m ↦ rw m (v, foreign m)
      | inl m ↦ elim (Bool-cases ((region vm st s).refs - 1 == 0)) [
        | inl z ↦
            rw (m, z, ==_ne _ 0 ((v.right s h).page u))
              (
                region-Inv vm st _ s _ v h refl elsewhere (record {
                  page = λ w. absurd (false≢true w);
                  counted = λ w. absurd (false≢true w);
                  free = λ w. count_none nproc _ (sym (left m) ∙ ==→eq _ 0 z);
                }),
                last _ m (count_none nproc _ (sym (left m) ∙ ==→eq _ 0 z))
                    (rw (get_or-set_self st.regs s _ no_region in_table) refl),
              )
        | inr z ↦
            rw (m, z)
              (
                region-Inv vm st _ s _ v h refl elsewhere (record {
                  page = (v.right s h).page;
                  counted = λ w. left m;
                  free = λ w. absurd (false≢true (sym w ∙ u));
                }),
                shared _ m gone (λ y. ==→ne _ 0 z (left m ∙ y))
                    (rw (get_or-set_self st.regs s _ no_region in_table) (
                      ap {A = ℕ} {B = Region} (λ c. record (region vm st s) { refs = c })
                        (left m))),
              )
      ]
    ]

    -- `p` no longer maps the slot, and no other mapping changes.
    record Unmaps (st' : State vm) : Type 0 where
      gone' : maps vm st' p s ≡ false
      same : (q t : ℕ) → (q ≢ p) ⊎ (t ≢ s) → maps vm st' q t ≡ maps vm st q t

    elsewhere_any :
        (q t : ℕ)
        → (q ≢ p) ⊎ (t ≢ s)
        → vm.present (if q == p then vm.unmap (st.tables p) (shm_va s) else st.tables q) (shm_va t)
          ≡ maps vm st q t
    elsewhere_any q t (inl n) = rw (==_ne q p n) refl
    elsewhere_any q t (inr n) = elsewhere q t n

    drop-Unmaps : Unmaps (drop vm st p s).0
    unfolding drop
    drop-Unmaps = elim (Bool-cases (maps vm st p s)) [
      | inr m ↦ rw m (record { gone' = m; same = λ q t n. refl })
      | inl m ↦ elim (Bool-cases ((region vm st s).refs - 1 == 0)) [
        | inl z ↦
            rw (m, z, ==_ne _ 0 ((v.right s h).page u))
              (record { gone' = gone; same = elsewhere_any })
        | inr z ↦ rw (m, z) (record { gone' = gone; same = elsewhere_any })
      ]
    ]

  -- The two ways in which `shm_close` ends.
  pub data Closes (st : State vm) (p : ℕ) (key : ℤ) : ℤ × State vm × List ℕ → Type 0 where
    missing : NonePasses (has_key key) no_region st.regs → Closes st p key (minus_one, st, [])
    closes :
        (s : ℕ) (d : State vm × List ℕ)
        → IsFirst (has_key key) no_region st.regs s
        → Drops st p s d
        → Closes st p key (pos 0, d.0, d.1)

  -- `shm_close` keeps the invariant. It returns -1 and changes nothing for a key that no region has.
  -- Otherwise it returns 0 and the caller gives up the region: the page is freed, and the slot, when
  -- the caller was the last to map it; nothing is freed while others map it; and nothing at all
  -- happens when the caller did not map it, even if nobody does.
  pub shm_close-Closes :
      (st : State vm) (p : ℕ) (key : ℤ)
      → Inv vm st
      → p < nproc
      → Inv vm (shm_close vm st p key).1 × Closes st p key (shm_close vm st p key)
  unfolding shm_close
  shm_close-Closes st p key v l = elim (first_cases (has_key key) no_region st.regs) [
    | inl (e, f) ↦ rw (shm_close, e) (v, missing f)
    | inr (s, e, f) ↦
        let d = drop_lem st p s v l (omega (arith, f.within, v.size)) (ground (arith, f.passes)) in
        rw (shm_close, e) (d.0, closes s _ f d.1)
  ]

  record Cleans (s : ℕ) (st : State vm) (p : ℕ) (st' : State vm) : Type 0 where
    inv : Inv vm st'
    none_left : (t : ℕ) → s ≤ t → t < max_shm → maps vm st' p t ≡ false
    below : (t : ℕ) → t < s → maps vm st' p t ≡ maps vm st p t
    others : (q t : ℕ) → q ≢ p → maps vm st' q t ≡ maps vm st q t

  round_of :
      (st : State vm) (p s : ℕ)
      → Inv vm st
      → p < nproc
      → s < max_shm
      → let d = if (region vm st s).used then drop vm st p s else (st, []) in
        Inv vm d.0
        × (maps vm d.0 p s ≡ false)
        × ((q t : ℕ) → (q ≢ p) ⊎ (t ≢ s) → maps vm d.0 q t ≡ maps vm st q t)
  round_of st p s v l h = elim (Bool-cases (region vm st s).used) [
    | inr u ↦ rw u (v, (v.right s h).free u p l, λ q t n. refl)
    | inl u ↦
        let m = drop-Unmaps st p s v l h u in rw u ((drop_lem st p s v l h u).0, m.gone', m.same)
  ]

  cleanup_from-Cleans :
      (n s : ℕ) (st : State vm) (p : ℕ)
      → Inv vm st
      → p < nproc
      → s + n ≡ max_shm
      → Cleans s st p (cleanup_from vm n s st p).0
  unfolding cleanup_from
  cleanup_from-Cleans zero s st p v l e = record {
    inv = v;
    none_left = λ t m b. absurd (omega arith);
    below = λ t m. refl;
    others = λ q t n. refl;
  }
  cleanup_from-Cleans (suc n) s st p v l e =
      let d = round_of st p s v l (omega arith) in
      let c = cleanup_from-Cleans n (s + 1) _ p d.0 l (omega arith) in
      record {
        inv = c.inv;
        none_left = λ t m b. elim (Bool-cases (s == t)) [
          | inl q ↦
              subst (λ r. maps vm (cleanup_from vm (suc n) s st p).0 p r ≡ false) (==→eq s t q)
                (c.below s (omega arith) ∙ d.1)
          | inr q ↦ c.none_left t (ground (arith, q)) b
        ];
        below = λ t m. c.below t (omega arith) ∙ d.2 p t (inr (ground arith));
        others = λ q t m. c.others q t m ∙ d.2 q t (inl m);
      }

  -- `shm_cleanup` of a process keeps the invariant, leaves the process no region that it maps, and
  -- does not touch the mappings of the others.
  pub shm_cleanup-Inv :
      (st : State vm) (p : ℕ)
      → Inv vm st
      → p < nproc
      → Inv vm (shm_cleanup vm st p).0
        × ((s : ℕ) → s < max_shm → maps vm (shm_cleanup vm st p).0 p s ≡ false)
        × ((q s : ℕ) → q ≢ p → maps vm (shm_cleanup vm st p).0 q s ≡ maps vm st q s)
  unfolding shm_cleanup
  shm_cleanup-Inv st p v l =
      let c = cleanup_from-Cleans max_shm 0 st p v l refl in
      (c.inv, (λ s h. c.none_left s (omega arith) h), c.others)
