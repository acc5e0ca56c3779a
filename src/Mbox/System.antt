-- ===== src/Mbox/System.antt =====
-- Processes that call kernel/mbox.c: the system calls of kernel/sysproc.c, and `sleep` and `wakeup`
-- of kernel/proc.c as far as a mailbox is the channel. A history is a list of actions. A send, a
-- receive and a close run with the box's lock held, from the start or from a wake-up to the return or
-- the sleep. `mbox_create` works without the lock until its last step: its two searches, the two
-- stores that claim a box, and the reset of the box are four actions, which others may come between.
pub mod Create
pub mod Wakeup
pub mod Flows
pub mod Fifo
mod Tests
use cs344_os_lab.Base.{ℕ, ◌≡◌, Bool, true, false, Option, none, some, List, [], ◌∷◌, ◌++◌, ◌&&◌}
use cs344_os_lab.Base.Tests.{◌==◌, if◌then◌else◌}
use cs344_os_lab.Base.Search.{first}
use cs344_os_lab.Base.Lists.{set, replicate}
use cs344_os_lab.Base.Int.{ℤ, pos}
use cs344_os_lab.Mbox.{
  Mailbox, Table, max_mbox, mbox_cap, box, mboxinit, find_id_by_key, is_free, mark, reset, Pass,
  sleeps, fails, done, send_pass, send_entry, recv_pass, recv_entry, close_entry, valid_id,
}

-- How far `mbox_create` has come: its key has no box yet, a free box is found, the box is claimed.
pub data Stage : Type 0 where
  searching : Stage
  claiming : (id : ℕ) → Stage
  resetting : (id : ℕ) → Stage

-- Where a process stands. A sender keeps its message in a register across `sleep`. The mark says
-- whether `p->state` is SLEEPING (on the box's address) or the process has been made runnable.
pub data Pc : Type 0 where
  running : Pc
  creating : (key : ℤ) (stage : Stage) → Pc
  sending : (id : ℕ) (msg : ℤ) (asleep : Bool) → Pc
  receiving : (id : ℕ) (asleep : Bool) → Pc

pub record System : Type 0 where
  pub boxes : Table
  pub pc : ℕ → Pc

abbrev pub update {ℓ} : {A : Type ℓ} → (ℕ → A) → ℕ → A → ℕ → A
update f p v q = if q == p then v else f q

-- `wakeup(b)` for one process of the table
abbrev pub woken : ℕ → Pc → Pc
woken id running = running
woken id (creating key stage) = creating key stage
woken id (sending k msg asleep) = sending k msg (if k == id then false else asleep)
woken id (receiving k asleep) = receiving k (if k == id then false else asleep)

abbrev pub wakeup : ℕ → (ℕ → Pc) → ℕ → Pc
wakeup id pc q = woken id (pc q)

-- `kill(pid)` makes a sleeping process runnable, whatever it sleeps on.
abbrev pub roused : Pc → Pc
roused running = running
roused (creating key stage) = creating key stage
roused (sending k msg asleep) = sending k msg false
roused (receiving k asleep) = receiving k false

-- `copied` says whether the `copyout` of a receive that ends here succeeds. `resume` is the next step of
-- a process in the middle of a call.
pub data Action : Type 0 where
  create : (p : ℕ) (key : ℤ) → Action
  send : (p : ℕ) (id msg : ℤ) → Action
  recv : (p : ℕ) (id : ℤ) (copied : Bool) → Action
  close : (p : ℕ) (id : ℤ) → Action
  resume : (p : ℕ) (copied : Bool) → Action
  kill : (p : ℕ) → Action

-- What an action did, as far as messages are concerned. A message that `mbox_recv` has taken from the
-- box is lost when its `copyout` fails.
pub data Event : Type 0 where
  quiet : Event
  sent : (id : ℕ) (msg : ℤ) → Event
  received : (id : ℕ) (copied : Bool) (msg : ℤ) → Event

-- The end of a pass by `p` through box `id`: it sleeps at `waiting`, or returns.
abbrev pub finish : System → ℕ → ℕ → Pc → (ℤ → Event) → Pass → System × Event
finish s p id waiting event sleeps = (record s { pc = update s.pc p waiting }, quiet)
finish s p id waiting event fails = (record s { pc = update s.pc p running }, quiet)
finish s p id waiting event (done msg b) =
    (record s { boxes = set s.boxes id b; pc = update (wakeup id s.pc) p running }, event msg)

send_at : System → ℕ → ℤ → Option ℕ → System × Event
send_at s p msg none = (s, quiet)
send_at s p msg (some id) =
    finish s p id (sending id msg true) (sent id) (send_entry (box s.boxes id) msg)

recv_at : System → ℕ → Bool → Option ℕ → System × Event
recv_at s p copied none = (s, quiet)
recv_at s p copied (some id) =
    finish s p id (receiving id true) (received id copied) (recv_entry (box s.boxes id))

close_at : System → ℕ → Option ℕ → System × Event
close_at s p none = (s, quiet)
close_at s p (some id) = finish s p id running (λ _. quiet) (close_entry (box s.boxes id))

abbrev pub moves : System → ℕ → Pc → System
moves s p pc = record s { pc = update s.pc p pc }

-- The id is returned if the key has a box.
pub create_at : System → ℕ → ℤ → Option ℕ → System
create_at s p key (some id) = s
create_at s p key none = moves s p (creating key searching)

pub claim_at : System → ℕ → ℤ → Option ℕ → System
claim_at s p key none = moves s p running
claim_at s p key (some id) = moves s p (creating key (claiming id))

abbrev pub changes : System → ℕ → ℕ → (Mailbox → Mailbox) → Pc → System
changes s p id f pc = record s {
  boxes = set s.boxes id (f (box s.boxes id));
  pc = update s.pc p pc;
}

-- The next step of `mbox_create`.
pub advance : System → ℕ → ℤ → Stage → System
unfolding claim_at first
advance s p key searching = claim_at s p key (first is_free s.boxes)
advance s p key (claiming id) = changes s p id (mark key) (creating key (resetting id))
advance s p key (resetting id) = changes s p id reset running

-- A process that has been woken runs its loop test again; one that is asleep does not run.
pub resume_at : System → ℕ → Bool → Pc → System × Event
unfolding advance
resume_at s p copied (creating key stage) = (advance s p key stage, quiet)
resume_at s p copied (sending id msg false) =
    finish s p id (sending id msg true) (sent id) (send_pass (box s.boxes id) msg)
resume_at s p copied (receiving id false) =
    finish s p id (receiving id true) (received id copied) (recv_pass (box s.boxes id))
resume_at s p copied _ = (s, quiet)

-- Only a running process makes a call.
abbrev when_running : Pc → System → System × Event → System × Event
when_running running s out = out
when_running _ s out = (s, quiet)

pub step : System → Action → System × Event
unfolding create_at send_at recv_at close_at resume_at
step s (create p key) =
    when_running (s.pc p) s (create_at s p key (find_id_by_key s.boxes key), quiet)
step s (send p id msg) = when_running (s.pc p) s (send_at s p msg (valid_id id))
step s (recv p id copied) = when_running (s.pc p) s (recv_at s p copied (valid_id id))
step s (close p id) = when_running (s.pc p) s (close_at s p (valid_id id))
step s (resume p copied) = resume_at s p copied (s.pc p)
step s (kill p) = (record s { pc = update s.pc p (roused (s.pc p)) }, quiet)

pub run : System → List Action → System
unfolding step
run s [] = s
run s (a ∷ more) = run (step s a).0 more

pub events : System → List Action → List Event
unfolding step
events s [] = []
events s (a ∷ more) = (step s a).1 ∷ events (step s a).0 more

-- the table in the kernel's zeroed memory
abbrev pub zero_box : Mailbox
zero_box = record {
  used = false;
  key = pos 0;
  buf = replicate mbox_cap (pos 0);
  head = 0;
  tail = 0;
  count = 0;
  closed = false;
}

abbrev pub zeroed : Table
zeroed = replicate max_mbox zero_box

pub boot : System
boot = record { boxes = mboxinit zeroed; pc = λ _. running }
