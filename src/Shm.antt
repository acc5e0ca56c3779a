-- ===== src/Shm.antt =====
-- Shared memory: Lab-3 Task 3.1, kernel/shm.c and kernel/shm.h. Each function holds the lock of the
-- table from its first access to its last, so it is one function on the state.
pub mod Memory
pub mod Count
pub mod Inv
pub mod Drop
mod Tests
use cs344_os_lab.Base.{
  ℕ, zero, suc, ◌+◌, ◌-◌, ◌*◌, Bool, true, false, not, ◌&&◌, Option, none, some, List, [], ◌∷◌,
  ◌++◌,
}
use cs344_os_lab.Base.Tests.{ltb, ◌==◌, if◌then◌else◌}
use cs344_os_lab.Base.Search.{first}
use cs344_os_lab.Base.Lists.{get_or, set}
use cs344_os_lab.Base.Int.{ℤ, pos, minus_one, eq_int}
use cs344_os_lab.Shm.Memory.{Vm}

abbrev pub max_shm : ℕ
max_shm = 64

-- `struct shm_region`; `page` is a physical address, 0 for none. At most NPROC processes map a
-- region, so the count does not overflow; it is never negative.
pub record Region : Type 0 where
  pub used : Bool
  pub key : ℤ
  pub page : ℕ
  pub refs : ℕ

-- What an index past the table would read.
abbrev pub no_region : Region
no_region = record { used = false; key = pos 0; page = 0; refs = 0 }

-- SHMVA(slot), with pages of 4096 bytes
abbrev pub shm_va : ℕ → ℕ
shm_va s = 0x40000000 + s * 4096

abbrev pub has_key : ℤ → Region → Bool
has_key key r = r.used && eq_int r.key key

pub find_slot_by_key : List Region → ℤ → Option ℕ
unfolding first
find_slot_by_key regs key = first (has_key key) regs

abbrev pub is_free : Region → Bool
is_free r = not r.used

abbrev pub claim : ℤ → Region → Region
claim key r = record r { used = true; key = key; page = 0; refs = 0 }

module _ {PT : Type 0} (vm : Vm PT) where
  -- The table, and the page table of each process.
  pub record State : Type 0 where
    pub regs : List Region
    pub tables : ℕ → PT

  abbrev pub region : State → ℕ → Region
  region st s = get_or st.regs s no_region

  -- whether `walk` finds a valid entry at SHMVA(s) for process `p`
  abbrev pub maps : State → ℕ → ℕ → Bool
  maps st p s = vm.present (st.tables p) (shm_va s)

  abbrev pub set_table : State → ℕ → PT → State
  set_table st p pt = record st { tables = λ q. if q == p then pt else st.tables q }

  abbrev pub set_region : State → ℕ → Region → State
  set_region st s r = record st { regs = set st.regs s r }

  -- `alloc_slot` and what follows it in `shm_create`; `pa` is what `kalloc` returns. A slot whose
  -- page could not be allocated keeps its key and is free again.
  pub create_at : State → ℤ → ℕ → Option ℕ → ℤ × State
  create_at st key pa none = (minus_one, st)
  create_at st key pa (some s) =
      if pa == 0
      then (minus_one, set_region st s (record (claim key (region st s)) { used = false }))
      else (pos s, set_region st s (record (claim key (region st s)) { page = pa }))

  pub shm_create : State → ℤ → ℕ → ℤ × State
  unfolding first
  shm_create st key pa = elim (first (has_key key) st.regs) [
    | some s ↦ (pos s, st)
    | none ↦ create_at st key pa (first is_free st.regs)
  ]

  -- `shm_get` by process `p` once the slot is found
  pub get_at : State → ℕ → ℕ → ℕ × State
  get_at st p s =
      if (region st s).page == 0
      then (0, st)
      else if maps st p s
      then (shm_va s, st)
      else elim (vm.map (st.tables p) (shm_va s) (region st s).page) [
        | none ↦ (0, st)
        | some pt ↦ (
          shm_va s,
          set_region (set_table st p pt) s (record (region st s) { refs = (region st s).refs + 1 }),
        )
      ]

  pub shm_get : State → ℕ → ℤ → ℕ × State
  unfolding first
  shm_get st p key = elim (first (has_key key) st.regs) [ none ↦ (0, st) | some s ↦ get_at st p s ]

  -- What `shm_close` and a round of `shm_cleanup` do with a slot that `p` may map. The list has the
  -- page that `kfree` was called with. `ref_count--` runs only above 0.
  pub drop : State → ℕ → ℕ → State × List ℕ
  drop st p s =
      let r = region st s in
      let r₁ = record r { refs = r.refs - 1 } in
      let st₁ = set_table st p (vm.unmap (st.tables p) (shm_va s)) in
      if maps st p s
      then (if r₁.refs == 0 && not (r.page == 0)
          then (set_region st₁ s (record r₁ { page = 0; used = false }), r.page ∷ [])
          else (set_region st₁ s r₁, []))
      else (st, [])

  pub shm_close : State → ℕ → ℤ → ℤ × State × List ℕ
  unfolding first
  shm_close st p key = elim (first (has_key key) st.regs) [
    | none ↦ (minus_one, st, [])
    | some s ↦ (pos 0, (drop st p s).0, (drop st p s).1)
  ]

  -- `n` rounds of the loop of `shm_cleanup(p)` from slot `s` on
  pub cleanup_from : ℕ → ℕ → State → ℕ → State × List ℕ
  cleanup_from zero s st p = (st, [])
  cleanup_from (suc n) s st p =
      let d = if (region st s).used then drop st p s else (st, []) in
      let rest = cleanup_from n (s + 1) d.0 p in (rest.0, d.1 ++ rest.1)

  pub shm_cleanup : State → ℕ → State × List ℕ
  unfolding cleanup_from
  shm_cleanup st p = cleanup_from max_shm 0 st p
