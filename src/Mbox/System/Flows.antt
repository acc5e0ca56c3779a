-- ===== src/Mbox/System/Flows.antt =====
-- Messages through kernel/mbox.c of Lab-3 Task 3.1 in one action: what goes into a box, what comes out, what waits.
use mathlib.Core.List.{append-nil}
use cs344_os_lab.Base.{
  ℕ, ◌<◌, ◌≡◌, refl, ◌∙◌, Bool, true, false, not, ◌||◌, List, [], ◌∷◌, ◌++◌, arith, inl, inr,
}
use cs344_os_lab.Base.Tests.{◌==◌, ==→eq, ltb, ltb→lt, Bool-cases, if◌then◌else◌}
use cs344_os_lab.Base.Lists.{length, get_or-set}
use cs344_os_lab.Base.Int.{ℤ, pos, negsuc}
use cs344_os_lab.Mbox.{
  Mailbox, max_mbox, no_box, box, mbox_create, Pass, sleeps, fails, done, claim, send_pass,
  send_entry, recv_pass, recv_entry, close_entry, valid_id,
}
use cs344_os_lab.Mbox.Ring.{contents, Sends, send_pass-Sends, Receives, recv_pass-Receives}
use cs344_os_lab.Mbox.Table.{Creates, present, claimed, full, mbox_create-Creates}
use cs344_os_lab.Mbox.System.{
  Pc, running, creating, sending, receiving, System, Action, create, send, recv, close, resume,
  kill, Event, quiet, sent, received, finish, send_at, recv_at, close_at, resume_at, when_running,
  step,
}
use cs344_os_lab.Mbox.System.Wakeup.{Inv, Waits}
use cs344_os_lab.Mbox.System.Create.{Other}

-- The messages that an event put into box `id`, and those that it took out, whether they were then copied
-- to the user or lost.
abbrev pub sent_to : ℕ → Event → List ℤ
sent_to id (sent k msg) = if k == id then msg ∷ [] else []
sent_to id _ = []

abbrev pub received_from : ℕ → Event → List ℤ
received_from id (received k copied msg) = if k == id then msg ∷ [] else []
received_from id _ = []

-- What was waiting and what came in is what went out and what is waiting now.
abbrev pub Flows : System → System × Event → Type 0
Flows s out =
    (id : ℕ)
    → id < max_mbox
    → contents (box s.boxes id) ++ sent_to id out.1
      ≡ received_from id out.1 ++ contents (box out.0.boxes id)

pub still : (s : System) → Flows s (s, quiet)
still s id h = append-nil (contents (box s.boxes id))

module _ (s : System) (p k : ℕ) (size : length s.boxes ≡ max_mbox) (h : k < max_mbox) where
  Sends-Flows :
      (waiting : Pc) (msg : ℤ) (r : Pass)
      → Sends (box s.boxes k) msg r
      → Flows s (finish s p k waiting (sent k) r)
  Sends-Flows waiting msg sleeps f = still s
  Sends-Flows waiting msg fails f = still s
  Sends-Flows waiting msg (done m b) f = λ id lt. elim (Bool-cases (k == id)) [
    | inl e ↦
        rw (get_or-set s.boxes k id b no_box (omega (arith, size)), e)
          (ground (arith, ==→eq k id e))
    | inr e ↦
        rw (get_or-set s.boxes k id b no_box (omega (arith, size)), e)
          (append-nil (contents (box s.boxes id)))
  ]

  Receives-Flows :
      (waiting : Pc) (copied : Bool) (r : Pass)
      → Receives (box s.boxes k) r
      → Flows s (finish s p k waiting (received k copied) r)
  Receives-Flows waiting copied sleeps f = still s
  Receives-Flows waiting copied fails f = still s
  Receives-Flows waiting copied (done m b) f = λ id lt. elim (Bool-cases (k == id)) [
    | inl e ↦
        rw (get_or-set s.boxes k id b no_box (omega (arith, size)), e)
          (append-nil (contents (box s.boxes id)) ∙ ground (arith, ==→eq k id e))
    | inr e ↦
        rw (get_or-set s.boxes k id b no_box (omega (arith, size)), e)
          (append-nil (contents (box s.boxes id)))
  ]

  -- A call that only changes marks of the box.
  marks-Flows :
      (waiting : Pc) (r : Pass)
      → ((m : ℤ) (b : Mailbox) → r ≡ done m b → contents b ≡ contents (box s.boxes k))
      → Flows s (finish s p k waiting (λ _. quiet) r)
  marks-Flows waiting sleeps f = still s
  marks-Flows waiting fails f = still s
  marks-Flows waiting (done m b) f = λ id lt. elim (Bool-cases (k == id)) [
    | inl e ↦
        rw (get_or-set s.boxes k id b no_box (omega (arith, size)), e)
          (append-nil (contents (box s.boxes id)) ∙ ground (arith, ==→eq k id e, f m b refl))
    | inr e ↦
        rw (get_or-set s.boxes k id b no_box (omega (arith, size)), e)
          (append-nil (contents (box s.boxes id)))
  ]

module _ {s : System} (inv : Inv s) where
  pub create-Flows : (key : ℤ) → Flows s (record s { boxes = (mbox_create s.boxes key).1 }, quiet)
  create-Flows key = go (mbox_create-Creates s.boxes key)
    where
      go :
          Creates s.boxes key (mbox_create s.boxes key)
          → Flows s (record s { boxes = (mbox_create s.boxes key).1 }, quiet)
      go (present k e f) = rw e (still s)
      go (full e _ _) = rw e (still s)
      go (claimed k e _ f) = rw e λ id lt. elim (Bool-cases (k == id)) [
        | inl same ↦
            rw (get_or-set s.boxes k id (claim key (box s.boxes k)) no_box f.within, same)
              (rw (inv.fresh id lt (ground (arith, f.passes, ==→eq k id same))) refl)
        | inr other ↦
            rw (get_or-set s.boxes k id (claim key (box s.boxes k)) no_box f.within, other)
              (append-nil (contents (box s.boxes id)))
      ]

  send_at-Flows : (p : ℕ) (msg id : ℤ) → Flows s (send_at s p msg (valid_id id))
  unfolding send_at send_entry
  send_at-Flows p msg (negsuc n) = still s
  send_at-Flows p msg (pos n) = elim (Bool-cases (ltb n max_mbox)) [
    | inr e ↦ rw e (still s)
    | inl e ↦ rw e (go (ltb→lt n max_mbox e) (box s.boxes n).used (box s.boxes n).closed)
  ]
    where
      go :
          n < max_mbox
          → (u c : Bool)
          → Flows s (
              finish s p n
                (sending n msg true)
                (sent n)
                (if not u || c then fails else send_pass (box s.boxes n) msg))
      go h false c = still s
      go h true true = still s
      go h true false =
          Sends-Flows s p n inv.size h _ msg _ (send_pass-Sends (box s.boxes n) msg (inv.valid n h))

  recv_at-Flows : (p : ℕ) (copied : Bool) (id : ℤ) → Flows s (recv_at s p copied (valid_id id))
  unfolding recv_at recv_entry
  recv_at-Flows p copied (negsuc n) = still s
  recv_at-Flows p copied (pos n) = elim (Bool-cases (ltb n max_mbox)) [
    | inr e ↦ rw e (still s)
    | inl e ↦ rw e (go (ltb→lt n max_mbox e) (box s.boxes n).used)
  ]
    where
      go :
          n < max_mbox
          → (u : Bool)
          → Flows s (
              finish s p n
                (receiving n true)
                (received n copied)
                (if not u then fails else recv_pass (box s.boxes n)))
      go h false = still s
      go h true =
          Receives-Flows s p n inv.size h _ copied _
            (recv_pass-Receives (box s.boxes n) (inv.valid n h))

  close_at-Flows : (p : ℕ) (id : ℤ) → Flows s (close_at s p (valid_id id))
  unfolding close_at close_entry
  close_at-Flows p (negsuc n) = still s
  close_at-Flows p (pos n) = elim (Bool-cases (ltb n max_mbox)) [
    | inr e ↦ rw e (still s)
    | inl e ↦ rw e (marks-Flows s p n inv.size (ltb→lt n max_mbox e) _ _ λ m b q. ground arith)
  ]

  resume_at-Flows :
      (p : ℕ) (copied : Bool) (pc : Pc) → Waits s.boxes pc → Flows s (resume_at s p copied pc)
  unfolding resume_at
  resume_at-Flows p copied running w = still s
  resume_at-Flows p copied (creating key stage) w = absurd w
  resume_at-Flows p copied (sending id msg true) w = still s
  resume_at-Flows p copied (receiving id true) w = still s
  resume_at-Flows p copied (sending id msg false) w =
      Sends-Flows s p id inv.size w.0 _ msg _
        (send_pass-Sends (box s.boxes id) msg (inv.valid id w.0))
  resume_at-Flows p copied (receiving id false) w =
      Receives-Flows s p id inv.size w.0 _ copied _
        (recv_pass-Receives (box s.boxes id) (inv.valid id w.0))

  when_running-Flows :
      (pc : Pc) (out : System × Event) → Flows s out → Flows s (when_running pc s out)
  when_running-Flows running out f = f
  when_running-Flows (creating key stage) out f = still s
  when_running-Flows (sending k msg b) out f = still s
  when_running-Flows (receiving k b) out f = still s

  pub step-Flows : (a : Action) → Other a → Flows s (step s a)
  unfolding step
  step-Flows (create p key) o = absurd o
  step-Flows (send p id msg) o = when_running-Flows (s.pc p) _ (send_at-Flows p msg id)
  step-Flows (recv p id copied) o = when_running-Flows (s.pc p) _ (recv_at-Flows p copied id)
  step-Flows (close p id) o = when_running-Flows (s.pc p) _ (close_at-Flows p id)
  step-Flows (resume p copied) o = resume_at-Flows p copied (s.pc p) (inv.waits p)
  step-Flows (kill p) o = still s
