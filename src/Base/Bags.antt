-- ===== src/Base/Bags.antt =====
-- Lists of indices as bags: how often each index is in one.
use Prim.Native.Nat.{ℕ, ◌+◌}
use mathlib.Core.Path.{◌≡◌, refl}
use mathlib.Core.Logic.{◌≢◌}
use mathlib.Core.List.{List, [], ◌∷◌}
use mathlib.Core.Option.{Option, none, some}
use cs344_os_lab.Base.Tests.{◌==◌, ==_self, ==_ne, if◌then◌else◌}

-- 1 at `i` itself
unfoldable pub at : ℕ → ℕ → ℕ
at i j = if i == j then 1 else 0

abbrev pub times : List ℕ → ℕ → ℕ
times [] j = 0
times (i ∷ is) j = at i j + times is j

-- One index, if there is one.
abbrev pub maybe : Option ℕ → List ℕ
maybe none = []
maybe (some i) = i ∷ []

pub at_self : (i : ℕ) → at i i ≡ 1
unfolding at
at_self i = rw (==_self i) refl

pub at_ne : (i j : ℕ) → i ≢ j → at i j ≡ 0
unfolding at
at_ne i j ne = rw (==_ne i j ne) refl
