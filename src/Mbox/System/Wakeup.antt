-- ===== src/Mbox/System/Wakeup.antt =====
-- The states that processes reach through kernel/mbox.c of Lab-3 Task 3.1, and who sleeps in them.
use cs344_os_lab.Base.{ℕ, ◌<◌, ◌≡◌, refl, Bool, true, false, some, List, arith, inl, inr, ◌⊎◌}
use cs344_os_lab.Base.Tests.{◌==◌, ltb, ltb→lt, Bool-cases}
use cs344_os_lab.Base.Lists.{length, set, length-set, get_or-set, get_or-replicate}
use cs344_os_lab.Base.Int.{ℤ, pos, negsuc}
use cs344_os_lab.Mbox.{
  Mailbox, Table, max_mbox, mbox_cap, no_box, box, mboxinit, mbox_create, Pass, sleeps, fails, done,
  claim, send_entry, recv_entry, close_entry, valid_id,
}
use cs344_os_lab.Mbox.Ring.{
  IsValid, Sends, send_pass-Sends, Receives, recv_pass-Receives, claim-IsValid, length-messages,
}
use cs344_os_lab.Mbox.Table.{Creates, present, claimed, full, mbox_create-Creates}
use cs344_os_lab.Mbox.System.Create.{
  Other, Whole, over, acts, creates, Created, busy_create, create-Ends, run-Quietly,
}
use cs344_os_lab.Mbox.System.{
  Pc, running, creating, sending, receiving, System, update, woken, roused, when_running, Action,
  create, send, recv, close, resume, kill, Event, quiet, finish, send_at, recv_at, close_at,
  resume_at, step, run, boot, zero_box,
}

-- A sleeping sender's box is full and open, a sleeping receiver's is empty and open. Whoever is in
-- the middle of a send or a receive does so on a box in use, and nobody is in the middle of a create.
abbrev pub Waits : Table → Pc → Type 0
Waits t running = Unit {0}
Waits t (creating key stage) = ⊥
Waits t (sending id msg true) =
    (id < max_mbox)
    × ((box t id).used ≡ true)
    × ((box t id).count ≡ mbox_cap)
    × ((box t id).closed ≡ false)
Waits t (receiving id true) =
    (id < max_mbox)
    × ((box t id).used ≡ true)
    × ((box t id).count ≡ 0)
    × ((box t id).closed ≡ false)
Waits t (sending id msg false) = (id < max_mbox) × ((box t id).used ≡ true)
Waits t (receiving id false) = (id < max_mbox) × ((box t id).used ≡ true)

pub record Inv (s : System) : Type 0 where
  pub size : length s.boxes ≡ max_mbox
  pub valid : (id : ℕ) → id < max_mbox → IsValid (box s.boxes id)
  pub fresh : (id : ℕ) → id < max_mbox → (box s.boxes id).used ≡ false → (box s.boxes id).count ≡ 0
  pub waits : (p : ℕ) → Waits s.boxes (s.pc p)

-- What a pass through a box in use has to bring about.
abbrev Kept : Table → Pc → Pass → Type 0
Kept t waiting sleeps = Waits t waiting
Kept t waiting fails = Unit {0}
Kept t waiting (done msg b) = IsValid b × (b.used ≡ true)

-- A process that waits still waits rightly once box `id` has changed and it has been woken.
Waits-woken :
    (t : Table) (id : ℕ) (b : Mailbox) (pc : Pc)
    → length t ≡ max_mbox
    → id < max_mbox
    → b.used ≡ true
    → Waits t pc
    → Waits (set t id b) (woken id pc)
Waits-woken t id b running size h u w = tt
Waits-woken t id b (creating key stage) size h u w = w
Waits-woken t id b (sending k msg true) size h u w = ground (arith, get_or-set t id k b no_box)
Waits-woken t id b (sending k msg false) size h u w = ground (arith, get_or-set t id k b no_box)
Waits-woken t id b (receiving k true) size h u w = ground (arith, get_or-set t id k b no_box)
Waits-woken t id b (receiving k false) size h u w = ground (arith, get_or-set t id k b no_box)

module _ {s : System} (inv : Inv s) (p : ℕ) where
  set_pc-Inv : (pc : Pc) → Waits s.boxes pc → Inv (record s { pc = update s.pc p pc })
  set_pc-Inv pc w = record {
    size = inv.size;
    valid = inv.valid;
    fresh = inv.fresh;
    waits = λ q. elim (Bool-cases (q == p)) [ inl e ↦ rw e w | inr e ↦ rw e (inv.waits q) ];
  }

  finish-Inv :
      (id : ℕ) (waiting : Pc) (event : ℤ → Event) (r : Pass)
      → id < max_mbox
      → Kept s.boxes waiting r
      → Inv (finish s p id waiting event r).0
  finish-Inv id waiting event sleeps h k = set_pc-Inv waiting k
  finish-Inv id waiting event fails h k = set_pc-Inv running tt
  finish-Inv id waiting event (done msg b) h k = record {
    size = omega (arith, length-set s.boxes id b, inv.size);
    valid = λ j lt. elim (Bool-cases (id == j)) [
      | inl e ↦ rw (get_or-set s.boxes id j b no_box (omega (arith, inv.size)), e) k.0
      | inr e ↦ rw (get_or-set s.boxes id j b no_box (omega (arith, inv.size)), e) (inv.valid j lt)
    ];
    fresh = λ j lt. ground (arith, inv.size, get_or-set s.boxes id j b no_box, inv.fresh j lt);
    waits = λ q. elim (Bool-cases (q == p)) [
      | inl e ↦ rw e tt
      | inr e ↦ rw e (Waits-woken s.boxes id b (s.pc q) inv.size h k.1 (inv.waits q))
    ];
  }

module _ (t : Table) (id : ℕ) (msg : ℤ) (h : id < max_mbox) (u : (box t id).used ≡ true) where
  Sends-Kept : (r : Pass) → Sends (box t id) msg r → Kept t (sending id msg true) r
  Sends-Kept sleeps k =
      ground (arith, h, u, k, length-messages (box t id).buf (box t id).head (box t id).count)
  Sends-Kept fails k = tt
  Sends-Kept (done m b) k = ground (arith, u, k)

  Receives-Kept : (r : Pass) → Receives (box t id) r → Kept t (receiving id true) r
  Receives-Kept sleeps k =
      ground (arith, h, u, k, length-messages (box t id).buf (box t id).head (box t id).count)
  Receives-Kept fails k = tt
  Receives-Kept (done m b) k = ground (arith, u, k)

module _ (t : Table) (id : ℕ) (h : id < max_mbox) (v : IsValid (box t id)) where
  send_entry-Kept : (msg : ℤ) → Kept t (sending id msg true) (send_entry (box t id) msg)
  unfolding send_entry
  send_entry-Kept msg = elim (Bool-cases (box t id).used) [
    | inr e ↦ rw e tt
    | inl u ↦ elim (Bool-cases (box t id).closed) [
      | inl c ↦ rw (u, c) tt
      | inr c ↦ rw (u, c) (Sends-Kept t id msg h u _ (send_pass-Sends (box t id) msg v))
    ]
  ]

  recv_entry-Kept : Kept t (receiving id true) (recv_entry (box t id))
  unfolding recv_entry
  recv_entry-Kept = elim (Bool-cases (box t id).used) [
    | inr e ↦ rw e tt
    | inl u ↦ rw u (Receives-Kept t id (pos 0) h u _ (recv_pass-Receives (box t id) v))
  ]

  close_entry-Kept : Kept t running (close_entry (box t id))
  unfolding close_entry
  close_entry-Kept = ground (arith, v)

valid_id-lt : (id : ℤ) (k : ℕ) → valid_id id ≡ some k → k < max_mbox
valid_id-lt id k e = ground arith

Waits-set :
    (t : Table) (k : ℕ) (b : Mailbox) (pc : Pc)
    → length t ≡ max_mbox
    → k < length t
    → (box t k).used ≡ false
    → Waits t pc
    → Waits (set t k b) pc
Waits-set t id b running size h u w = tt
Waits-set t id b (creating key stage) size h u w = w
Waits-set t id b (sending k msg true) size h u w = ground (arith, get_or-set t id k b no_box)
Waits-set t id b (sending k msg false) size h u w = ground (arith, get_or-set t id k b no_box)
Waits-set t id b (receiving k true) size h u w = ground (arith, get_or-set t id k b no_box)
Waits-set t id b (receiving k false) size h u w = ground (arith, get_or-set t id k b no_box)

module _ {s : System} (inv : Inv s) where
  create-Inv : (key : ℤ) → Inv (record s { boxes = (mbox_create s.boxes key).1 })
  create-Inv key = go (mbox_create-Creates s.boxes key)
    where
      go :
          Creates s.boxes key (mbox_create s.boxes key)
          → Inv (record s { boxes = (mbox_create s.boxes key).1 })
      go (present k e f) = rw e inv
      go (full e _ _) = rw e inv
      go (claimed k e _ f) = rw e (record {
        size = omega (arith, length-set s.boxes k (claim key (box s.boxes k)), inv.size);
        valid = λ j lt. elim (Bool-cases (k == j)) [
          | inl same ↦
              rw (get_or-set s.boxes k j (claim key (box s.boxes k)) no_box f.within, same)
                (claim-IsValid key (box s.boxes k)
                  (ground (arith, inv.valid k, f.within, inv.size)))
          | inr other ↦
              rw (get_or-set s.boxes k j (claim key (box s.boxes k)) no_box f.within, other)
                (inv.valid j lt)
        ];
        fresh = λ j lt. ground (
          arith,
          f.within,
          get_or-set s.boxes k j (claim key (box s.boxes k)) no_box,
          inv.fresh j lt,
        );
        waits = λ q.
            Waits-set s.boxes k (claim key (box s.boxes k)) (s.pc q) inv.size f.within
              (ground (arith, f.passes)) (inv.waits q);
      })

  send_at-Inv : (p : ℕ) (msg id : ℤ) → Inv (send_at s p msg (valid_id id)).0
  unfolding send_at
  send_at-Inv p msg (negsuc n) = inv
  send_at-Inv p msg (pos n) = elim (Bool-cases (ltb n max_mbox)) [
    | inr e ↦ rw e inv
    | inl e ↦
        let h : n < max_mbox = ltb→lt n max_mbox e in
        rw e (finish-Inv inv p n _ _ _ h (send_entry-Kept s.boxes n h (inv.valid n h) msg))
  ]

  recv_at-Inv : (p : ℕ) (copied : Bool) (id : ℤ) → Inv (recv_at s p copied (valid_id id)).0
  unfolding recv_at
  recv_at-Inv p copied (negsuc n) = inv
  recv_at-Inv p copied (pos n) = elim (Bool-cases (ltb n max_mbox)) [
    | inr e ↦ rw e inv
    | inl e ↦
        let h : n < max_mbox = ltb→lt n max_mbox e in
        rw e (finish-Inv inv p n _ _ _ h (recv_entry-Kept s.boxes n h (inv.valid n h)))
  ]

  close_at-Inv : (p : ℕ) (id : ℤ) → Inv (close_at s p (valid_id id)).0
  unfolding close_at
  close_at-Inv p (negsuc n) = inv
  close_at-Inv p (pos n) = elim (Bool-cases (ltb n max_mbox)) [
    | inr e ↦ rw e inv
    | inl e ↦
        let h : n < max_mbox = ltb→lt n max_mbox e in
        rw e (finish-Inv inv p n _ _ _ h (close_entry-Kept s.boxes n h (inv.valid n h)))
  ]

  resume_at-Inv :
      (p : ℕ) (copied : Bool) (pc : Pc) → Waits s.boxes pc → Inv (resume_at s p copied pc).0
  unfolding resume_at
  resume_at-Inv p copied running w = inv
  resume_at-Inv p copied (creating key stage) w = absurd w
  resume_at-Inv p copied (sending id msg true) w = inv
  resume_at-Inv p copied (receiving id true) w = inv
  resume_at-Inv p copied (sending id msg false) w = finish-Inv inv p id _ _ _ w.0 (
      Sends-Kept s.boxes id msg w.0 w.1 _ (send_pass-Sends (box s.boxes id) msg (inv.valid id w.0)))
  resume_at-Inv p copied (receiving id false) w = finish-Inv inv p id _ _ _ w.0 (
      Receives-Kept s.boxes id (pos 0) w.0 w.1 _
        (recv_pass-Receives (box s.boxes id) (inv.valid id w.0)))

  roused-Waits : (pc : Pc) → Waits s.boxes pc → Waits s.boxes (roused pc)
  roused-Waits running w = tt
  roused-Waits (creating key stage) w = w
  roused-Waits (sending k msg true) w = ground arith
  roused-Waits (sending k msg false) w = w
  roused-Waits (receiving k true) w = ground arith
  roused-Waits (receiving k false) w = w

  when_running-Inv : (pc : Pc) (out : System × Event) → Inv out.0 → Inv (when_running pc s out).0
  when_running-Inv running out i = i
  when_running-Inv (creating key stage) out i = inv
  when_running-Inv (sending k msg b) out i = inv
  when_running-Inv (receiving k b) out i = inv

  pub step-Inv : (a : Action) → Other a → Inv (step s a).0
  unfolding step
  step-Inv (create p key) o = absurd o
  step-Inv (send p id msg) o = when_running-Inv (s.pc p) _ (send_at-Inv p msg id)
  step-Inv (recv p id copied) o = when_running-Inv (s.pc p) _ (recv_at-Inv p copied id)
  step-Inv (close p id) o = when_running-Inv (s.pc p) _ (close_at-Inv p id)
  step-Inv (resume p copied) o = resume_at-Inv p copied (s.pc p) (inv.waits p)
  step-Inv (kill p) o = set_pc-Inv inv p (roused (s.pc p)) (roused-Waits (s.pc p) (inv.waits p))

  -- A create that runs through.
  pub whole-Inv : (key : ℤ) (t : System) → Created s key t → Inv t
  whole-Inv key t c =
      let i = create-Inv key in
      record {
        size = rw (c.boxes_are) i.size;
        valid = rw (c.boxes_are) i.valid;
        fresh = rw (c.boxes_are) i.fresh;
        waits = λ q. rw (c.boxes_are, c.others q) (i.waits q);
      }

  -- A process that is not between calls does not begin one.
  pub begins : (p : ℕ) (key : ℤ) → (s.pc p ≡ running) ⊎ (step s (create p key) ≡ (s, quiet))
  begins p key = go (s.pc p) refl (inv.waits p)
    where
      go :
          (v : Pc)
          → s.pc p ≡ v
          → Waits s.boxes v
          → (s.pc p ≡ running) ⊎ (step s (create p key) ≡ (s, quiet))
      go running h w = inl h
      go (creating key stage) h w = absurd w
      go (sending id msg b) h w = inr (busy_create s p key _ h (λ r. refl))
      go (receiving id b) h w = inr (busy_create s p key _ h (λ r. refl))

-- The boxes after `mboxinit`: all unused and empty.
pub boot_box : (id : ℕ) → id < max_mbox → box boot.boxes id ≡ zero_box
unfolding boot mboxinit
boot_box id h = get_or-replicate max_mbox id zero_box no_box h

boot-size : length boot.boxes ≡ max_mbox
unfolding boot mboxinit
boot-size = refl

pub boot-Inv : Inv boot
boot-Inv = record {
  size = boot-size;
  valid = λ id h. rw (boot_box id h) (omega arith);
  fresh = λ id h u. rw (boot_box id h) refl;
  waits = unfold boot in λ p. tt;
}

pub run-Inv : (actions : List Action) (s : System) → Whole actions → Inv s → Inv (run s actions)
unfolding run
run-Inv _ s over i = i
run-Inv _ s (acts a more o w) i = run-Inv more (step s a).0 w (step-Inv i a o)
run-Inv _ s (creates p key c d e more w) i = elim (begins i p key) [
  | inl h ↦
      let ends = create-Ends s p key c d e h in
      rw (run-Quietly s ends.0 _ more ends.1)
        (run-Inv more ends.0 w (whole-Inv i key ends.0 ends.2))
  | inr h ↦
      let j = step-Inv i (resume p c) tt in
      let k = step-Inv j (resume p d) tt in rw (h) (run-Inv more _ w (step-Inv k (resume p e) tt))
]

-- After any history from the boot on in which every create runs through without another process
-- between its steps, and sends, receives, closes, wake-ups and kills come in any order, a process asleep
-- in `mbox_send` sleeps on a full open box, and one asleep in `mbox_recv` on an empty open box: no
-- wake-up is lost.
pub run-Waits :
    (actions : List Action) (p : ℕ)
    → Whole actions
    → Waits (run boot actions).boxes ((run boot actions).pc p)
run-Waits actions p w = (run-Inv actions boot w boot-Inv).waits p

-- After any history from the boot on in which every create runs through, every box is well formed: the
-- indices lie inside the buffer and the count within the capacity.
pub run-IsValid :
    (actions : List Action) (id : ℕ)
    → Whole actions
    → id < max_mbox
    → IsValid (box (run boot actions).boxes id)
run-IsValid actions id w = (run-Inv actions boot w boot-Inv).valid id
