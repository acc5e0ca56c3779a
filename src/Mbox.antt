-- ===== src/Mbox.antt =====
-- Mailboxes: Lab-3 Task 3.1, kernel/mbox.c and kernel/mbox.h.
-- A send, a receive and a close run with the box's lock held from the first test to the return or to
-- the `sleep` that gives the lock up, so a pass through that stretch is one function on the box.
pub mod Ring
pub mod Table
pub mod System
mod Tests
use cs344_os_lab.Base.{
  ℕ, ◌+◌, ◌-◌, ◌%◌, Bool, true, false, not, ◌&&◌, ◌||◌, Option, none, some, List, [], map,
}
use cs344_os_lab.Base.Tests.{ltb, ◌==◌, if◌then◌else◌}
use cs344_os_lab.Base.Search.{first}
use cs344_os_lab.Base.Lists.{get_or, set}
use cs344_os_lab.Base.Int.{ℤ, pos, negsuc, minus_one, eq_int}

abbrev pub max_mbox : ℕ
max_mbox = 64

abbrev pub mbox_cap : ℕ
mbox_cap = 16

-- `struct mailbox` less its lock. `used` and `closed` only ever hold 0 and 1. The three counters
-- are never negative; messages and keys are only moved and compared.
pub record Mailbox : Type 0 where
  pub used : Bool
  pub key : ℤ
  pub buf : List ℤ
  pub head : ℕ
  pub tail : ℕ
  pub count : ℕ
  pub closed : Bool

abbrev pub Table : Type 0
Table = List Mailbox

-- What an index past the table would read; `id < max_mbox` rules it out.
abbrev pub no_box : Mailbox
no_box = record {
  used = false;
  key = pos 0;
  buf = [];
  head = 0;
  tail = 0;
  count = 0;
  closed = false;
}

abbrev pub box : Table → ℕ → Mailbox
box t i = get_or t i no_box

-- the body of the loop of `mboxinit`; the message buffer keeps what it holds
abbrev pub init_box : Mailbox → Mailbox
init_box b = record b { used = false; key = pos 0; head = 0; tail = 0; count = 0; closed = false }

pub mboxinit : Table → Table
mboxinit = map init_box

abbrev pub has_key : ℤ → Mailbox → Bool
has_key key b = b.used && eq_int b.key key

-- `none` is the return of -1.
pub find_id_by_key : Table → ℤ → Option ℕ
unfolding first
find_id_by_key t key = first (has_key key) t

-- The two stores of `mbox_create` without the lock, and the rest with it.
abbrev pub mark : ℤ → Mailbox → Mailbox
mark key b = record b { used = true; key = key }

abbrev pub reset : Mailbox → Mailbox
reset b = record b { head = 0; tail = 0; count = 0; closed = false }

abbrev pub claim : ℤ → Mailbox → Mailbox
claim key b = reset (mark key b)

abbrev pub is_free : Mailbox → Bool
is_free b = not b.used

unfoldable pub create_new : Table → ℤ → Option ℕ → ℤ × Table
create_new t key none = (minus_one, t)
create_new t key (some i) = (pos i, set t i (claim key (box t i)))

-- `mbox_create` takes no lock until it has claimed a box: this is a call that runs through with no
-- other in progress. `System` has its steps.
pub mbox_create : Table → ℤ → ℤ × Table
unfolding find_id_by_key first create_new
mbox_create t key = elim (find_id_by_key t key) [
  | some id ↦ (pos id, t)
  | none ↦ create_new t key (first is_free t)
]

-- How a pass with the lock held ends: in `sleep`, with -1 and the box as it was, or with 0, a new
-- box, the message that went in or out, and `wakeup(b)` called.
pub data Pass : Type 0 where
  sleeps : Pass
  fails : Pass
  done : ℤ → Mailbox → Pass

-- `mbox_send` from its loop test on
pub send_pass : Mailbox → ℤ → Pass
send_pass b msg =
    if b.count == mbox_cap && not b.closed
    then sleeps
    else if b.closed
    then fails
    else done msg (record b {
      buf = set b.buf b.tail msg;
      tail = (b.tail + 1) % mbox_cap;
      count = b.count + 1;
    })

-- the test before the loop, which a sender that wakes up does not make again
pub send_entry : Mailbox → ℤ → Pass
send_entry b msg = if not b.used || b.closed then fails else send_pass b msg

-- `mbox_recv` from its loop test on. `count--` runs only at `count ≢ 0`.
pub recv_pass : Mailbox → Pass
recv_pass b =
    if b.count == 0 && not b.closed
    then sleeps
    else if b.count == 0 && b.closed
    then fails
    else done (get_or b.buf b.head (pos 0))
        (record b { head = (b.head + 1) % mbox_cap; count = b.count - 1 })

pub recv_entry : Mailbox → Pass
recv_entry b = if not b.used then fails else recv_pass b

pub close_entry : Mailbox → Pass
close_entry b = if not b.used then fails else done (pos 0) (record b { closed = true })

-- the test `id < 0 || id >= MAX_MBOX`
abbrev pub valid_id : ℤ → Option ℕ
valid_id (negsuc n) = none
valid_id (pos n) = if ltb n max_mbox then some n else none
