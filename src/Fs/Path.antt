-- ===== src/Fs/Path.antt =====
-- Path names: `skipelem` and `namecmp` of Lab-5 Task 5.1, kernel/fs.c. A path is the list of its bytes
-- before the NUL.
pub mod Elements
use cs344_os_lab.Base.{ℕ, zero, suc, ◌+◌, Bool, true, false, Option, none, some, List, [], ◌∷◌}
use cs344_os_lab.Base.Tests.{ltb, leb, ◌==◌, if◌then◌else◌}
use cs344_os_lab.Base.Lists.{length}

abbrev pub dirsiz : ℕ
dirsiz = 14

abbrev pub slash : ℕ
slash = 47

-- `while(*path == '/') path++;`
pub skip_slashes : List ℕ → List ℕ
skip_slashes [] = []
skip_slashes (c ∷ s) = let rest = skip_slashes s in if c == slash then rest else c ∷ s

-- `while(*path != '/' && *path != 0) path++;`: what it passes, and what is left
pub pass_elem : List ℕ → List ℕ × List ℕ
pass_elem [] = ([], [])
pass_elem (c ∷ s) =
    let rest = pass_elem s in if c == slash then ([], c ∷ s) else (c ∷ rest.0, rest.1)

pub take : ℕ → List ℕ → List ℕ
take zero s = []
take (suc n) [] = []
take (suc n) (c ∷ s) = c ∷ take n s

-- The name that the buffer holds: DIRSIZ bytes without a NUL, or fewer and a NUL.
pub elem_at : List ℕ → Option (List ℕ × List ℕ)
elem_at [] = none
elem_at (c ∷ s) =
    let p = pass_elem (c ∷ s) in
    some (skip_slashes p.1, if leb dirsiz (length p.0) then take dirsiz p.0 else p.0)

-- The rest of the path and the name; `none` is the return of 0.
pub skipelem : List ℕ → Option (List ℕ × List ℕ)
unfolding elem_at skip_slashes
skipelem path = elem_at (skip_slashes path)
