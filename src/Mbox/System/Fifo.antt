-- ===== src/Mbox/System/Fifo.antt =====
-- Messages through kernel/mbox.c of Lab-3 Task 3.1 over whole histories.
use mathlib.Core.List.{append-nil, append_assoc}
use cs344_os_lab.Base.{ℕ, ◌<◌, ◌≡◌, refl, sym, ap, ◌∙◌, List, [], ◌∷◌, ◌++◌, arith, inl, inr}
use cs344_os_lab.Base.Int.{ℤ}
use cs344_os_lab.Mbox.{max_mbox, box}
use cs344_os_lab.Mbox.Ring.{contents}
use cs344_os_lab.Mbox.System.{System, Action, create, resume, Event, step, run, events, boot}
use cs344_os_lab.Mbox.System.Wakeup.{Inv, step-Inv, whole-Inv, begins, boot-Inv, boot_box}
use cs344_os_lab.Mbox.System.Create.{
  Whole, over, acts, creates, Created, Quietly, rests, goes_on, create-Ends, run-Quietly,
}
use cs344_os_lab.Mbox.System.Flows.{sent_to, received_from, still, create-Flows, step-Flows}

unfoldable pub all_sent : ℕ → List Event → List ℤ
all_sent id [] = []
all_sent id (e ∷ es) = sent_to id e ++ all_sent id es

pub all_received : ℕ → List Event → List ℤ
all_received id [] = []
all_received id (e ∷ es) = received_from id e ++ all_received id es

Kept : ℕ → System → List Action → Type 0
unfolding all_sent all_received events run
Kept id s actions =
    contents (box s.boxes id) ++ all_sent id (events s actions)
    ≡ all_received id (events s actions) ++ contents (box (run s actions).boxes id)

-- One action before the rest.
first_then :
    (s : System) (a : Action) (more : List Action) (id : ℕ)
    → contents (box s.boxes id) ++ sent_to id (step s a).1
      ≡ received_from id (step s a).1 ++ contents (box (step s a).0.boxes id)
    → Kept id (step s a).0 more
    → Kept id s (a ∷ more)
unfolding Kept run events all_sent all_received
first_then s a more id flow rest = ground (
  arith,
  flow,
  rest,
  append_assoc (contents (box s.boxes id)) (sent_to id (step s a).1)
      (all_sent id (events (step s a).0 more)),
  append_assoc (received_from id (step s a).1) (contents (box (step s a).0.boxes id))
      (all_sent id (events (step s a).0 more)),
  append_assoc (received_from id (step s a).1) (all_received id (events (step s a).0 more))
      (contents (box (run (step s a).0 more).boxes id)),
)

-- Quiet steps leave no trace.
sent-Quietly :
    (s u : System) (steps more : List Action) (id : ℕ)
    → Quietly s steps u
    → all_sent id (events s (steps ++ more)) ≡ all_sent id (events u more)
unfolding events all_sent
sent-Quietly s _ _ more id (rests _) = refl
sent-Quietly s u _ more id (goes_on _ t _ a rest e q) =
    ap (λ x. sent_to id x.1 ++ all_sent id (events x.0 (rest ++ more))) e
    ∙ sent-Quietly t u rest more id q

received-Quietly :
    (s u : System) (steps more : List Action) (id : ℕ)
    → Quietly s steps u
    → all_received id (events s (steps ++ more)) ≡ all_received id (events u more)
unfolding events all_received
received-Quietly s _ _ more id (rests _) = refl
received-Quietly s u _ more id (goes_on _ t _ a rest e q) =
    ap (λ x. received_from id x.1 ++ all_received id (events x.0 (rest ++ more))) e
    ∙ received-Quietly t u rest more id q

-- A create that runs through leaves the messages of every box.
messages_kept :
    (s t : System) (key : ℤ) (id : ℕ)
    → Inv s
    → id < max_mbox
    → Created s key t
    → contents (box s.boxes id) ≡ contents (box t.boxes id)
messages_kept s t key id i h c =
    rw (c.boxes_are) (sym (append-nil (contents (box s.boxes id))) ∙ create-Flows i key id h)

before_rest :
    (s u : System) (steps more : List Action) (id : ℕ)
    → Quietly s steps u
    → contents (box s.boxes id) ≡ contents (box u.boxes id)
    → Kept id u more
    → Kept id s (steps ++ more)
unfolding Kept
before_rest s u steps more id q same rest =
    rw
      (
        run-Quietly s u steps more q,
        sent-Quietly s u steps more id q,
        received-Quietly s u steps more id q,
        same,
      )
      rest

run-Kept :
    (actions : List Action) (s : System) (id : ℕ)
    → Whole actions
    → Inv s
    → id < max_mbox
    → Kept id s actions
run-Kept _ s id over i h =
    unfold Kept run events all_sent all_received in append-nil (contents (box s.boxes id))
run-Kept _ s id (acts a more o w) i h =
    first_then s a more id (step-Flows i a o id h)
      (run-Kept more (step s a).0 id w (step-Inv i a o) h)
run-Kept _ s id (creates p key c d e more w) i h = elim (begins i p key) [
  | inl f ↦
      let ends = create-Ends s p key c d e f in
      let rest = run-Kept more ends.0 id w (whole-Inv i key ends.0 ends.2) h in
      before_rest s ends.0 _ more id ends.1 (messages_kept s ends.0 key id i h ends.2) rest
  | inr f ↦
      let j = step-Inv i (resume p c) tt in
      let k = step-Inv j (resume p d) tt in
      let rest = run-Kept more _ id w (step-Inv k (resume p e) tt) h in
      first_then s (create p key) _ id (rw (f) (still s id h)) (
        rw (f) (
          first_then s (resume p c) _ id (step-Flows i (resume p c) tt id h) (
            first_then _ (resume p d) _ id (step-Flows j (resume p d) tt id h)
              (first_then _ (resume p e) more id (step-Flows k (resume p e) tt id h) rest))))
]

-- After any history from the boot on in which every create runs through without another process
-- between its steps, and sends, receives, closes, wake-ups and kills come in any order, the messages
-- sent to a box are, in order, those that `mbox_recv` has taken from it, whether the caller's `copyout`
-- then delivered or lost them, followed by those that wait in it.
pub run-fifo :
    (actions : List Action) (id : ℕ)
    → Whole actions
    → id < max_mbox
    → all_sent id (events boot actions)
      ≡ all_received id (events boot actions) ++ contents (box (run boot actions).boxes id)
unfolding Kept
run-fifo actions id w h = rw (boot_box id h) at (run-Kept actions boot id w boot-Inv h)
