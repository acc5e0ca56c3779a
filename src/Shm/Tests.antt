-- ===== src/Shm/Tests.antt =====
-- The shared regions of Lab-3 Task 3.1, kernel/shm.c, over page tables that are functions.
use cs344_os_lab.Base.{
  ℕ, ◌<◌, ◌≡◌, refl, sym, ap, ◌∙◌, subst, ◌≢◌, Bool, true, false, Option, none, some, arith,
}
use mathlib.Core.Bool.{false≢true}
use cs344_os_lab.Base.Tests.{if◌then◌else◌, ◌==◌, ==_self, ==_ne}
use cs344_os_lab.Base.Lists.{replicate, get_or-replicate}
use cs344_os_lab.Base.Int.{pos}
use cs344_os_lab.Shm.Memory.{Vm, Laws}
use cs344_os_lab.Shm.{
  no_region, max_shm, State, maps, shm_create, shm_get, shm_close, shm_cleanup, create_at, get_at,
}
use cs344_os_lab.Shm.Inv.{IsRight, Inv, shm_create-Inv, shm_get-Inv}
use cs344_os_lab.Shm.Drop.{Closes, shm_close-Closes, shm_cleanup-Inv}

-- which addresses are present
abbrev flags : Vm (ℕ → Bool)
flags = record {
  present = λ pt va. pt va;
  map = λ pt va pa. some (λ a. if a == va then true else pt a);
  unmap = λ pt va a. if a == va then false else pt a;
}

flags-Laws : Laws flags
flags-Laws = record {
  map_here = λ pt pt' va pa e. at_va pt pt' va e;
  map_else = λ pt pt' va pa a e n. at_other pt pt' va a e n;
  unmap_here = λ pt va. rw (==_self va) refl;
  unmap_else = λ pt va a n. rw (==_ne a va n) refl;
}
  where
    same :
        (pt pt' : ℕ → Bool) (va : ℕ)
        → ◌≡◌ {A = Option (ℕ → Bool)} (some (λ a. if a == va then true else pt a)) (some pt')
        → (a : ℕ) → (if a == va then true else pt a) ≡ pt' a
    same pt pt' va e a = ap (λ o. elim o [ none ↦ pt' a | some f ↦ f a ]) e

    at_va :
        (pt pt' : ℕ → Bool) (va : ℕ)
        → ◌≡◌ {A = Option (ℕ → Bool)} (some (λ a. if a == va then true else pt a)) (some pt')
        → pt' va ≡ true
    at_va pt pt' va e = sym (same pt pt' va e va) ∙ ap (λ b. if b then true else pt va) (==_self va)

    at_other :
        (pt pt' : ℕ → Bool) (va a : ℕ)
        → ◌≡◌ {A = Option (ℕ → Bool)} (some (λ a. if a == va then true else pt a)) (some pt')
        → a ≢ va
        → pt' a ≡ pt a
    at_other pt pt' va a e n =
        sym (same pt pt' va e a) ∙ ap (λ b. if b then true else pt a) (==_ne a va n)

-- the table after `shminit`
abbrev fresh : State flags
fresh = record { regs = replicate max_shm no_region; tables = λ p va. false }

fresh-Inv : Inv flags fresh
fresh-Inv = record {
  size = refl;
  right = λ s h.
      subst (IsRight flags fresh s) (sym (get_or-replicate max_shm s no_region no_region h))
        (record {
          page = λ u. absurd (false≢true u);
          counted = λ u. absurd (false≢true u);
          free = λ u p l. refl;
        });
}

-- one region, which process 3 maps
abbrev made : State flags
made = (shm_create flags fresh (pos 5) 8192).1

made-Inv : Inv flags made
made-Inv = shm_create-Inv flags fresh (pos 5) 8192 fresh-Inv

abbrev shared : State flags
shared = (shm_get flags made 3 (pos 5)).1

shared-Inv : Inv flags shared
shared-Inv = shm_get-Inv flags flags-Laws made 3 (pos 5) made-Inv (omega arith)

mapped_at : (shm_get flags made 3 (pos 5)).0 ≡ 0x40000000
unfolding shm_get get_at shm_create create_at
mapped_at = refl

shm_close-Closes_example :
    Inv flags (shm_close flags shared 3 (pos 5)).1
    × Closes flags flags-Laws shared 3 (pos 5) (shm_close flags shared 3 (pos 5))
shm_close-Closes_example =
    shm_close-Closes flags flags-Laws shared 3 (pos 5) shared-Inv (omega arith)

shm_cleanup-Inv_example :
    Inv flags (shm_cleanup flags shared 3).0
    × ((s : ℕ) → s < max_shm → maps flags (shm_cleanup flags shared 3).0 3 s ≡ false)
    × ((q s : ℕ) → q ≢ 3 → maps flags (shm_cleanup flags shared 3).0 q s ≡ maps flags shared q s)
shm_cleanup-Inv_example = shm_cleanup-Inv flags flags-Laws shared 3 shared-Inv (omega arith)
