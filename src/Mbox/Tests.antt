-- ===== src/Mbox/Tests.antt =====
-- Runs of the mailboxes of Lab-3 Task 3.1, kernel/mbox.c, and the theorems at small inputs.
use cs344_os_lab.Base.{zero, suc, ◌≡◌, refl, true, false, List, [], ◌∷◌, ◌++◌, arith}
use cs344_os_lab.Base.Lists.{replicate}
use cs344_os_lab.Base.Int.{pos}
use cs344_os_lab.Mbox.{
  Mailbox, Table, mbox_cap, box, claim, mbox_create, done, send_pass, recv_pass,
}
use cs344_os_lab.Mbox.Ring.{IsValid, Sends, send_pass-Sends, Receives, recv_pass-Receives, contents}
use cs344_os_lab.Mbox.Table.{UniqueKeys, Creates, mbox_create-Creates}
use cs344_os_lab.Mbox.System.{Action, create, send, recv, resume, run, events, boot, zero_box}
use cs344_os_lab.Mbox.System.Create.{Whole, over, acts, creates}
use cs344_os_lab.Mbox.System.Wakeup.{Waits, run-Waits}
use cs344_os_lab.Mbox.System.Fifo.{all_sent, all_received, run-fifo}

-- a box with one message in its last place
abbrev one_left : Mailbox
one_left = record {
  used = true;
  key = pos 5;
  buf = replicate mbox_cap (pos 8);
  head = 15;
  tail = 0;
  count = 1;
  closed = false;
}

one_left-IsValid : IsValid one_left
one_left-IsValid = record {
  storage = refl;
  head_in = omega arith;
  count_in = omega arith;
  tail_at = refl;
}

send_pass-Sends_example : Sends one_left (pos 9) (send_pass one_left (pos 9))
send_pass-Sends_example = send_pass-Sends one_left (pos 9) one_left-IsValid

recv_pass-Receives_example : Receives one_left (recv_pass one_left)
recv_pass-Receives_example = recv_pass-Receives one_left one_left-IsValid

recv_wraps : recv_pass one_left ≡ done (pos 8) (record one_left { head = 0; count = 0 })
unfolding recv_pass
recv_wraps = refl

-- two boxes, the second one in use
abbrev boxes : Table
boxes = zero_box ∷ one_left ∷ []

created : mbox_create boxes (pos 6) ≡ (pos 0, claim (pos 6) zero_box ∷ one_left ∷ [])
unfolding mbox_create
created = refl

boxes-UniqueKeys : UniqueKeys boxes
boxes-UniqueKeys key zero zero h g p q = refl
boxes-UniqueKeys key zero (suc j) h g p q = ground (arith, p)
boxes-UniqueKeys key (suc i) zero h g p q = ground (arith, q)
boxes-UniqueKeys key (suc i) (suc j) h g p q = omega arith

mbox_create-Creates_example : Creates boxes (pos 6) (mbox_create boxes (pos 6))
mbox_create-Creates_example = mbox_create-Creates boxes (pos 6)

-- 1 creates a box and sends; 2, which was waiting for a message, receives.
abbrev history : List Action
history =
    create 1 (pos 5)
    ∷ resume 1 true
    ∷ resume 1 true
    ∷ resume 1 true
    ∷ recv 2 (pos 0) true
    ∷ send 1 (pos 0) (pos 42)
    ∷ resume 2 true
    ∷ recv 2 (pos 0) true
    ∷ []

history-Whole : Whole history
history-Whole =
    creates 1 (pos 5) true true true _ (acts _ _ tt (acts _ _ tt (acts _ _ tt (acts _ _ tt over))))

run-Waits_example : Waits (run boot history).boxes ((run boot history).pc 2)
run-Waits_example = run-Waits history 2 history-Whole

run-fifo_example :
    all_sent 0 (events boot history)
    ≡ all_received 0 (events boot history) ++ contents (box (run boot history).boxes 0)
run-fifo_example = run-fifo history 0 history-Whole (omega arith)
