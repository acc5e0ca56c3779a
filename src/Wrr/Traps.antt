-- ===== src/Wrr/Traps.antt =====
-- Where a trap of kernel/trap.c (Lab-2 Task 2.1) ends, and whom a pass of the scheduler runs.
use cs344_os_lab.Base.{◌≡◌, Bool, true, false, ◌&&◌}
use cs344_os_lab.Wrr.{Trap, panics, exits, returns}

-- Nothing panics, only a process that is marked killed exits, and one that goes back is marked only when
-- it has yielded and was marked meanwhile.
pub EndsWell : Bool → Trap → Type 0
EndsWell marked panics = ⊥
EndsWell marked (exits t) = t.killed ≡ true
EndsWell marked (returns t y) = t.killed ≡ (y && marked)

pub is_exit : Trap → Bool
is_exit (exits t) = true
is_exit _ = false
