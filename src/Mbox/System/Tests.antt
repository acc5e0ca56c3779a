-- ===== src/Mbox/System/Tests.antt =====
-- A create of Lab-3 Task 3.1, kernel/mbox.c, with another process between its steps.
use cs344_os_lab.Base.{◌≡◌, refl, true, List, [], ◌∷◌}
use cs344_os_lab.Base.Search.{first}
use cs344_os_lab.Base.Int.{pos}
use cs344_os_lab.Mbox.{box, mboxinit, find_id_by_key, send_entry, send_pass}
use cs344_os_lab.Mbox.Ring.{contents}
use cs344_os_lab.Mbox.System.{
  Action, create, send, resume, create_at, claim_at, advance, send_at, resume_at, step, run, events,
  boot,
}
use cs344_os_lab.Mbox.System.Fifo.{all_sent}

-- 1 has claimed box 0 and has not reset it yet when 2 finds it and sends: the reset loses the message.
abbrev race : List Action
race =
    create 1 (pos 5)
    ∷ resume 1 true
    ∷ resume 1 true
    ∷ create 2 (pos 5)
    ∷ send 2 (pos 0) (pos 42)
    ∷ resume 1 true
    ∷ []

reset_loses : contents (box (run boot race).boxes 0) ≡ []
unfolding run step boot mboxinit create_at claim_at advance resume_at send_at find_id_by_key first
    send_entry send_pass
reset_loses = refl

sent_before : all_sent 0 (events boot race) ≡ pos 42 ∷ []
unfolding events step boot mboxinit create_at claim_at advance resume_at send_at find_id_by_key
    first send_entry send_pass all_sent
sent_before = refl
