-- ===== src/Mbox/System/Create.antt =====
-- `mbox_create` of Lab-3 Task 3.1, kernel/mbox.c, run through without another process between its
-- steps, in the system of `System`.
use cs344_os_lab.Base.{
  ℕ, ◌≡◌, ◌<◌, refl, sym, ap, ◌∙◌, Bool, false, Option, none, some, List, [], ◌∷◌, ◌++◌, inl, inr,
}
use cs344_os_lab.Base.Tests.{Option-cases, ==_self, ==→eq, ◌==◌, Bool-cases}
use cs344_os_lab.Base.Search.{first, first_cases}
use cs344_os_lab.Base.Lists.{set, set-set, get_or-set_self, length}
use cs344_os_lab.Base.Int.{ℤ}
use cs344_os_lab.Mbox.{
  no_box, box, mbox_create, find_id_by_key, is_free, mark, reset, claim, create_new,
}
use cs344_os_lab.Mbox.System.{
  Pc, running, creating, searching, claiming, resetting, System, update, Action, create, resume,
  Event, quiet, moves, changes, create_at, claim_at, advance, resume_at, when_running, step, run,
}

-- Not the start of a create.
abbrev pub Other : Action → Type 0
Other (create p key) = ⊥
Other _ = Unit {0}

-- A history in which every create runs through: its other three steps follow it at once. (They do
-- nothing when it has returned earlier.) The rest is in any order.
pub data Whole : List Action → Type 0 where
  over : Whole []
  acts : (a : Action) (more : List Action) → Other a → Whole more → Whole (a ∷ more)
  creates :
      (p : ℕ) (key : ℤ) (c d e : Bool) (more : List Action)
      → Whole more
      → Whole (create p key ∷ resume p c ∷ resume p d ∷ resume p e ∷ more)

-- Steps that neither put a message into a box nor take one out.
pub data Quietly : System → List Action → System → Type 0 where
  rests : (s : System) → Quietly s [] s
  goes_on :
      (s t u : System) (a : Action) (more : List Action)
      → step s a ≡ (t, quiet)
      → Quietly t more u
      → Quietly s (a ∷ more) u

begins_at :
    (s : System) (p : ℕ) (key : ℤ)
    → s.pc p ≡ running
    → step s (create p key) ≡ (create_at s p key (find_id_by_key s.boxes key), quiet)
unfolding step
begins_at s p key h = rw (h) refl

goes_to :
    (s : System) (p : ℕ) (c : Bool) (v : Pc) → s.pc p ≡ v → step s (resume p c) ≡ resume_at s p c v
unfolding step
goes_to s p c v h = ap (resume_at s p c) h

-- A process in the middle of a call does not begin another.
pub busy_create :
    (s : System) (p : ℕ) (key : ℤ) (v : Pc)
    → s.pc p ≡ v
    → ((r : System × Event) → when_running v s r ≡ (s, quiet))
    → step s (create p key) ≡ (s, quiet)
unfolding step
busy_create s p key v h k = rw (h) (k _)

here : (f : ℕ → Pc) (p : ℕ) (v : Pc) → update f p v p ≡ v
here f p v = rw (==_self p) refl

-- What a whole create by a running process has done.
pub record Created (s : System) (key : ℤ) (t : System) : Type 0 where
  pub boxes_are : t.boxes ≡ (mbox_create s.boxes key).1
  pub others : (q : ℕ) → t.pc q ≡ s.pc q

module _ (s : System) (p : ℕ) (key : ℤ) (c d e : Bool) (h : s.pc p ≡ running) where
  -- When it comes back to `running`, no process stands elsewhere than before.
  back : (f : ℕ → Pc) (q : ℕ) → ((q == p) ≡ false → f q ≡ s.pc q) → update f p running q ≡ s.pc q
  back f q k = elim (Bool-cases (q == p)) [
    | inl same ↦ rw (same) (sym h ∙ ap s.pc (sym (==→eq q p same)))
    | inr other ↦ rw (other) (k other)
  ]

  idle : (t : System) (b : Bool) → t.pc p ≡ running → step t (resume p b) ≡ (t, quiet)
  unfolding resume_at
  idle t b k = goes_to t p b running k

  one : System
  one = moves s p (creating key searching)

  two : ℕ → System
  two i = moves one p (creating key (claiming i))

  three : ℕ → System
  three i = changes (two i) p i (mark key) (creating key (resetting i))

  four : ℕ → System
  four i = changes (three i) p i reset running

  abbrev pub Ends : Type 0
  Ends =
      (t : System) × Quietly s (create p key ∷ resume p c ∷ resume p d ∷ resume p e ∷ []) t
      × Created s key t

  present : (id : ℕ) → find_id_by_key s.boxes key ≡ some id → Ends
  unfolding create_at mbox_create
  present id f = (
    s,
    goes_on s s s _ _ (begins_at s p key h ∙ ap (λ r. (create_at s p key r, quiet)) f) (
        goes_on s s s _ _ (idle s c h)
          (goes_on s s s _ _ (idle s d h) (goes_on s s s _ _ (idle s e h) (rests s)))),
    record { boxes_are = rw (mbox_create, f) refl; others = λ q. refl },
  )

  begun : find_id_by_key s.boxes key ≡ none → step s (create p key) ≡ (one, quiet)
  unfolding create_at one
  begun f = begins_at s p key h ∙ ap (λ r. (create_at s p key r, quiet)) f

  searched :
      (r : Option ℕ)
      → first is_free s.boxes ≡ r
      → step one (resume p c) ≡ (claim_at one p key r, quiet)
  unfolding resume_at advance one
  searched r f =
      goes_to one p c (creating key searching) (here s.pc p (creating key searching))
      ∙ ap (λ q. (claim_at one p key q, quiet)) f

  full : find_id_by_key s.boxes key ≡ none → first is_free s.boxes ≡ none → Ends
  unfolding claim_at one mbox_create create_new first
  full f g =
      let t : System = moves one p running in
      let r : t.pc p ≡ running = here one.pc p running in
      (
        t,
        goes_on s one t _ _ (begun f) (
            goes_on one t t _ _ (searched none g)
              (goes_on t t t _ _ (idle t d r) (goes_on t t t _ _ (idle t e r) (rests t)))),
        record {
          boxes_are = rw (mbox_create, f, create_new, g) refl;
          others = λ q. back one.pc q (λ ne. rw (ne) refl);
        },
      )

  marked : (i : ℕ) → step (two i) (resume p d) ≡ (three i, quiet)
  unfolding resume_at advance one two three
  marked i =
      goes_to (two i) p d (creating key (claiming i)) (here one.pc p (creating key (claiming i)))

  cleared : (i : ℕ) → step (three i) (resume p e) ≡ (four i, quiet)
  unfolding resume_at advance one two three four
  cleared i =
      goes_to (three i) p e (creating key (resetting i))
        (here (two i).pc p (creating key (resetting i)))

  claimed :
      (i : ℕ)
      → find_id_by_key s.boxes key ≡ none
      → first is_free s.boxes ≡ some i
      → i < length s.boxes
      → Ends
  unfolding claim_at one two three four mbox_create create_new first
  claimed i f g l = (
    four i,
    goes_on s one (four i) _ _ (begun f) (
        goes_on one (two i) (four i) _ _ (searched (some i) g) (
          goes_on (two i) (three i) (four i) _ _ (marked i)
            (goes_on (three i) (four i) (four i) _ _ (cleared i) (rests (four i))))),
    record {
      boxes_are =
          rw (mbox_create, f, create_new, g)
            (ap (λ b. set (set s.boxes i (mark key (box s.boxes i))) i (reset b))
                (get_or-set_self s.boxes i (mark key (box s.boxes i)) no_box l)
              ∙ set-set s.boxes i (mark key (box s.boxes i)) (claim key (box s.boxes i)));
      others = λ q. back (three i).pc q (λ ne. rw (ne) refl);
    },
  )

  -- A create that runs through has the outcome of `mbox_create`.
  pub create-Ends : Ends
  create-Ends = elim (Option-cases (find_id_by_key s.boxes key)) [
    | inr (id, f) ↦ present id f
    | inl f ↦ elim (first_cases is_free no_box s.boxes) [
      | inl (g, n) ↦ full f g
      | inr (i, g, n) ↦ claimed i f g n.within
    ]
  ]

pub run-Quietly :
    (s u : System) (steps more : List Action)
    → Quietly s steps u
    → run s (steps ++ more) ≡ run u more
unfolding run
run-Quietly s _ _ more (rests _) = refl
run-Quietly s u _ more (goes_on _ t _ a rest e q) =
    ap (λ x. run x.0 (rest ++ more)) e ∙ run-Quietly t u rest more q
