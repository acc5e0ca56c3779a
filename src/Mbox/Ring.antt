-- ===== src/Mbox/Ring.antt =====
-- One mailbox of kernel/mbox.c as a bounded queue: the buffer's indices, and what each pass does.
use cs344_os_lab.Base.{
  ℕ, zero, suc, ◌+◌, ◌-◌, ◌%◌, ◌≤◌, ◌<◌, ◌≡◌, refl, ap, ◌≢◌, true, false, List, [], ◌∷◌, ◌++◌,
  arith,
}
use cs344_os_lab.Base.Lists.{length, get_or, set, length-set, get_or-set_self, get_or-set_ne}
use cs344_os_lab.Base.Int.{ℤ, pos}
use cs344_os_lab.Mbox.{Mailbox, mbox_cap, claim, Pass, sleeps, fails, done, send_pass, recv_pass}

-- The `n` messages from index `h` on, going round at the capacity.
abbrev pub messages : List ℤ → ℕ → ℕ → List ℤ
messages buf h zero = []
messages buf h (suc n) = get_or buf h (pos 0) ∷ messages buf ((h + 1) % mbox_cap) n

-- The waiting messages, oldest first.
abbrev pub contents : Mailbox → List ℤ
contents b = messages b.buf b.head b.count

pub record IsValid (b : Mailbox) : Type 0 where
  pub storage : length b.buf ≡ mbox_cap
  pub head_in : b.head < mbox_cap
  pub count_in : b.count ≤ mbox_cap
  pub tail_at : b.tail ≡ (b.head + b.count) % mbox_cap

pub length-messages : (buf : List ℤ) (h n : ℕ) → length (messages buf h n) ≡ n
length-messages buf h zero = refl
length-messages buf h (suc n) = ap suc (length-messages buf ((h + 1) % mbox_cap) n)

-- Storing behind the last waiting message adds it at the end.
messages-set :
    (buf : List ℤ) (msg : ℤ) (n h i : ℕ)
    → length buf ≡ mbox_cap
    → h < mbox_cap
    → n < mbox_cap
    → i ≡ (h + n) % mbox_cap
    → messages (set buf i msg) h (suc n) ≡ messages buf h n ++ msg ∷ []
messages-set buf msg zero h i s hh hn e =
    let e' : i ≡ h = omega arith in ground (arith, get_or-set_self buf i msg (pos 0))
messages-set buf msg (suc n) h i s hh hn e =
    ground (arith, get_or-set_ne buf i h msg (pos 0), messages-set buf msg n ((h + 1) % mbox_cap) i)

messages_of_pos :
    (buf : List ℤ) (h n : ℕ)
    → n ≢ 0
    → messages buf h n ≡ get_or buf h (pos 0) ∷ messages buf ((h + 1) % mbox_cap) (n - 1)
messages_of_pos buf h zero p = absurd (p refl)
messages_of_pos buf h (suc n) p =
    ap (λ k. get_or buf h (pos 0) ∷ messages buf ((h + 1) % mbox_cap) k) (omega arith)

pub claim-IsValid : (key : ℤ) (b : Mailbox) → length b.buf ≡ mbox_cap → IsValid (claim key b)
claim-IsValid key b h = ground arith

-- What a bounded queue of capacity 16 with a `closed` mark allows `mbox_send` to do.
abbrev pub Sends : Mailbox → ℤ → Pass → Type 0
Sends b msg sleeps = (length (contents b) ≡ mbox_cap) × (b.closed ≡ false)
Sends b msg fails = b.closed ≡ true
Sends b msg (done m b') =
    (m ≡ msg)
    × (contents b' ≡ contents b ++ msg ∷ [])
    × (length (contents b) < mbox_cap)
    × (b.closed ≡ false)
    × IsValid b'
    × (b'.used ≡ b.used)
    × (b'.key ≡ b.key)
    × (b'.closed ≡ false)

-- On a well-formed box, `mbox_send` from its loop test on behaves like a queue of bounded length: it
-- sleeps only on a full open box, fails only on a closed one, and otherwise puts the message behind
-- those that wait; the box stays well formed.
pub send_pass-Sends : (b : Mailbox) (msg : ℤ) → IsValid b → Sends b msg (send_pass b msg)
unfolding send_pass
send_pass-Sends b msg v = ground (
  arith,
  length-messages b.buf b.head b.count,
  length-set b.buf b.tail msg,
  messages-set b.buf msg b.count b.head b.tail,
)

-- And `mbox_recv`: an open empty box puts the caller to sleep, a closed one is drained first.
abbrev pub Receives : Mailbox → Pass → Type 0
Receives b sleeps = (contents b ≡ []) × (b.closed ≡ false)
Receives b fails = (contents b ≡ []) × (b.closed ≡ true)
Receives b (done m b') =
    (contents b ≡ m ∷ contents b')
    × IsValid b'
    × (b'.used ≡ b.used)
    × (b'.key ≡ b.key)
    × (b'.closed ≡ b.closed)

-- On a well-formed box, `mbox_recv` from its loop test on behaves like a queue of bounded length: it
-- sleeps only on an empty open box, fails only on an empty closed one, and otherwise takes the oldest
-- message; the box stays well formed.
pub recv_pass-Receives : (b : Mailbox) → IsValid b → Receives b (recv_pass b)
unfolding recv_pass
recv_pass-Receives b v = ground (arith, messages_of_pos b.buf b.head b.count)
