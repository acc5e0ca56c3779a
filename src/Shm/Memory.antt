-- ===== src/Shm/Memory.antt =====
-- What kernel/shm.c (Lab-3 Task 3.1) needs of the virtual memory, which is not in the repository.
use cs344_os_lab.Base.{ℕ, ◌≡◌, ◌≢◌, Bool, true, false, Option, some}

-- `walk` with the test of PTE_V, `mappages` of one page, and `uvmunmap` of one page, on the page
-- tables of type `PT`; `none` is a `mappages` that fails.
pub record Vm (PT : Type 0) : Type 0 where
  pub present : PT → ℕ → Bool
  pub map : PT → ℕ → ℕ → Option PT
  pub unmap : PT → ℕ → PT

-- Mapping and unmapping a page changes whether it is present, and does so for no other address.
pub record Laws {PT : Type 0} (vm : Vm PT) : Type 0 where
  pub map_here : (pt pt' : PT) (va pa : ℕ) → vm.map pt va pa ≡ some pt' → vm.present pt' va ≡ true
  pub map_else :
      (pt pt' : PT) (va pa a : ℕ)
      → vm.map pt va pa ≡ some pt'
      → a ≢ va
      → vm.present pt' a ≡ vm.present pt a
  pub unmap_here : (pt : PT) (va : ℕ) → vm.present (vm.unmap pt va) va ≡ false
  pub unmap_else : (pt : PT) (va a : ℕ) → a ≢ va → vm.present (vm.unmap pt va) a ≡ vm.present pt a
