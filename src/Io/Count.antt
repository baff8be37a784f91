-- ===== src/Io/Count.antt =====
-- The event counter of ttw/ioscheduler.cc, `m_eventConut`, against the events waited for.
use ttw.Prelude.{
  ℕ, zero, suc, ◌+◌, ◌-◌, ◌≤◌, ◌≡◌, refl, ap, ◌∙◌, ◌≢◌, inl, inr, Bool, true, false, Option, none,
  some, List, [], ◌∷◌, arith, Bool-cases, Option-cases, if_true,
}
use ttw.Prelude.Dict.{
  find, assign, remove, nat_key, Distinct, find-assign, assign-Distinct, remove-Distinct,
}
use ttw.Prelude.Int.{ℤ, pos, decr}
use ttw.Timer.{Callback}
use ttw.Io.Events.{
  Event, no_event, on_read, on_write, Mask, meets, with_event, without_event, is_none, bits,
}
use ttw.Io.{
  FdContext, EventContext, new_context, set_context, no_context, get_context, IoScheduler, put,
  watch, obtain, register, add_event, add_cb, add_coroutine, add_waiter, trigger_event, fire,
  put_or_delete, delete_event_cb, del_event, cancel_event,
}

abbrev pub bits_of : Option FdContext → ℕ
bits_of none = 0
bits_of (some c) = bits c.events

-- The events waited for, over all descriptors.
abbrev pub total : List (ℕ × FdContext) → ℕ
total [] = 0
total ((_, c) ∷ m) = bits c.events + total m

pub total-assign :
    (k : ℕ) (c : FdContext) (m : List (ℕ × FdContext))
    → total (assign k c m) + bits_of (find k m) ≡ total m + bits c.events
unfolding find assign
total-assign k c [] = omega arith
total-assign k c ((j, d) ∷ m) = ground (arith, total-assign k c m)

pub total-remove :
    (k : ℕ) (m : List (ℕ × FdContext)) → total (remove k m) + bits_of (find k m) ≡ total m
unfolding find remove
total-remove k [] = omega arith
total-remove k ((j, d) ∷ m) = ground (arith, total-remove k m)

-- Each context is stored under its descriptor.
abbrev pub Placed : List (ℕ × FdContext) → Type 0
Placed [] = Unit {0}
Placed ((k, c) ∷ m) = (c.fd ≡ k) × Placed m

pub fd_of_Placed :
    (k : ℕ) (c : FdContext) (m : List (ℕ × FdContext)) → Placed m → find k m ≡ some c → c.fd ≡ k
unfolding find
fd_of_Placed k c [] p e = cc
fd_of_Placed k c ((j, d) ∷ m) p e = ground (arith, fd_of_Placed k c m p.1)

pub Placed-assign :
    (k : ℕ) (c : FdContext) (m : List (ℕ × FdContext)) → c.fd ≡ k → Placed m → Placed (assign k c m)
unfolding assign
Placed-assign k c [] e p = (e, tt)
Placed-assign k c ((j, d) ∷ m) e p = ground (arith, Placed-assign k c m e p.1)

pub Placed-remove : (k : ℕ) (m : List (ℕ × FdContext)) → Placed m → Placed (remove k m)
unfolding remove
Placed-remove k [] p = tt
Placed-remove k ((j, d) ∷ m) p = ground (arith, Placed-remove k m p.1)

-- The counter is the number of events waited for, and each descriptor has one context at most.
pub record IsCounted (s : IoScheduler) : Type 0 where
  pub distinct : Distinct s.contexts
  pub placed : Placed s.contexts
  pub count : s.event_count ≡ pos (total s.contexts)

-- A context that takes the place of one: what the counter has to become.
pub put-IsCounted :
    (fd : ℕ) (c : FdContext) (old : Option FdContext) (z : ℤ) (s : IoScheduler)
    → Distinct s.contexts
    → Placed s.contexts
    → c.fd ≡ fd
    → find fd s.contexts ≡ old
    → z ≡ pos (total s.contexts + bits c.events - bits_of old)
    → IsCounted (record s { contexts = assign fd c s.contexts; event_count = z })
put-IsCounted fd c old z s d p at_fd e h = record {
  distinct = assign-Distinct fd c s.contexts d;
  placed = Placed-assign fd c s.contexts at_fd p;
  count = h ∙ ap pos (rw (← e) (omega (arith, total-assign fd c s.contexts)));
}

pub obtain-IsCounted :
    (fd : ℕ) (s : IoScheduler)
    → IsCounted s
    → IsCounted (obtain fd s).1 × (find fd (obtain fd s).1.contexts ≡ some (obtain fd s).0)
unfolding obtain
obtain-IsCounted fd s is = elim (Option-cases (find fd s.contexts)) [
  | inl e ↦
      rw (e, obtain)
        (
          put-IsCounted fd _ none _ s is.distinct is.placed refl e
              (rw is.count (ap pos (omega arith))),
          ground (arith, find-assign fd fd (new_context fd) s.contexts),
        )
  | inr (c, e) ↦
      rw (e, obtain)
        (
          put-IsCounted fd _ (some c) _ s is.distinct is.placed refl e
              (rw is.count (ap pos (omega arith))),
          ground (arith, find-assign fd fd (record c { fd = fd }) s.contexts),
        )
]

pub put_or_delete-IsCounted :
    (fd : ℕ) (c old : FdContext) (s : IoScheduler)
    → Distinct s.contexts
    → Placed s.contexts
    → c.fd ≡ fd
    → find fd s.contexts ≡ some old
    → s.event_count ≡ pos (total s.contexts + bits c.events - bits old.events)
    → IsCounted (put_or_delete (is_none c.events) fd c s)
unfolding put_or_delete delete_event_cb
put_or_delete-IsCounted fd c old s d p at_fd e h =
    let kept = put-IsCounted fd c (some old) s.event_count s d p at_fd e h in
    elim (Bool-cases (is_none c.events)) [
      | inl gone ↦ rw gone (record {
        distinct = remove-Distinct fd (assign fd c s.contexts) kept.distinct;
        placed = Placed-remove fd (assign fd c s.contexts) kept.placed;
        count =
            kept.count
            ∙ ap pos (
                ground (
                  arith,
                  total-remove fd (assign fd c s.contexts),
                  find-assign fd fd c s.contexts,
                ));
      })
      | inr stays ↦ rw stays kept
    ]

register-IsCounted :
    (current fd : ℕ) (event : Event) (cb : Callback) (c : FdContext) (s : IoScheduler)
    → event ≢ no_event
    → meets c.events event ≡ false
    → find fd s.contexts ≡ some c
    → IsCounted s
    → IsCounted (register current fd event cb c s).0
unfolding register get_context
register-IsCounted current fd no_event cb c s ne free e is = absurd (ne refl)
register-IsCounted current fd on_read cb c s ne free e is =
    put-IsCounted fd _ (some c) _ s is.distinct is.placed (fd_of_Placed fd c s.contexts is.placed e)
      e (rw is.count (ap pos (ground arith)))
register-IsCounted current fd on_write cb c s ne free e is =
    put-IsCounted fd _ (some c) _ s is.distinct is.placed (fd_of_Placed fd c s.contexts is.placed e)
      e (rw is.count (ap pos (ground arith)))

watch-IsCounted : (fd : ℕ) (m : Mask) (s : IoScheduler) → IsCounted s → IsCounted (watch fd m s)
watch-IsCounted fd m s is = record { distinct = is.distinct; placed = is.placed; count = is.count }

-- `addEvent` for READ or WRITE keeps the counter right, whether it succeeds, fails or throws.
pub add_event-IsCounted :
    (ctl : Bool) (current fd : ℕ) (event : Event) (cb : Callback) (s : IoScheduler)
    → event ≢ no_event
    → IsCounted s
    → IsCounted (add_event ctl current fd event cb s).0
unfolding add_event
add_event-IsCounted ctl current fd event cb s ne is =
    let (kept, here) = obtain-IsCounted fd s is in
    let c = (obtain fd s).0 in
    elim (Bool-cases (meets c.events event)) [
      | inl waits ↦ rw waits kept
      | inr free ↦ elim (Bool-cases ctl) [
        | inl done ↦
            rw (free, done)
              (register-IsCounted current fd event cb c
                (watch fd (with_event c.events event) (obtain fd s).1) ne free here
                (watch-IsCounted fd _ (obtain fd s).1 kept))
        | inr failed ↦ rw (free, failed) kept
      ]
    ]

-- The parts that adding waiters to the queue leaves alone.
abbrev pub SameWaits : IoScheduler → IoScheduler → Type 0
SameWaits s t =
    (t.contexts ≡ s.contexts) × (t.event_count ≡ s.event_count) × (t.interest ≡ s.interest)

pub add_waiter-SameWaits : (x : EventContext) (s : IoScheduler) → SameWaits s (add_waiter x s)
unfolding add_waiter add_cb add_coroutine
add_waiter-SameWaits x s = ground arith

-- What `triggerEvent` and `--m_eventConut` leave.
pub fire_lem :
    (event : Event) (c : FdContext) (s : IoScheduler)
    → let (d, t) = fire event (c, s) in
      (d.events ≡ without_event c.events event)
      × (d.fd ≡ c.fd)
      × (t.contexts ≡ s.contexts)
      × (t.event_count ≡ decr s.event_count)
      × (t.interest ≡ s.interest)
unfolding fire trigger_event get_context
fire_lem no_event c s = ground arith
fire_lem on_read c s = ground (arith, add_waiter-SameWaits c.read s)
fire_lem on_write c s = ground (arith, add_waiter-SameWaits c.write s)

pub decr_pos : (n m : ℕ) → n ≡ suc m → decr (pos n) ≡ pos m
decr_pos zero m e = absurd (omega arith)
decr_pos (suc n) m e = ap pos (omega arith)

pub bits_left :
    (event : Event) (m : Mask) → meets m event ≡ true → bits m ≡ suc (bits (without_event m event))
bits_left no_event m e = cc
bits_left on_read m e = ground arith
bits_left on_write m e = ground arith

pub bits-le-total :
    (fd : ℕ) (c : FdContext) (m : List (ℕ × FdContext))
    → find fd m ≡ some c
    → bits c.events ≤ total m
bits-le-total fd c m e = omega (arith, total-remove fd m, ap bits_of e)

-- While a context `d` is to take the place of the stored `c`: what the counter must be.
pub record Owes (fd : ℕ) (c d : FdContext) (s : IoScheduler) : Type 0 where
  pub distinct : Distinct s.contexts
  pub placed : Placed s.contexts
  pub at_fd : d.fd ≡ fd
  pub here : find fd s.contexts ≡ some c
  pub count : s.event_count ≡ pos (total s.contexts + bits d.events - bits c.events)

pub Owes-start :
    (fd : ℕ) (c : FdContext) (m : Mask) (s : IoScheduler)
    → IsCounted s
    → find fd s.contexts ≡ some c
    → Owes fd c c (watch fd m s)
Owes-start fd c m s is e = record {
  distinct = is.distinct;
  placed = is.placed;
  at_fd = fd_of_Placed fd c s.contexts is.placed e;
  here = e;
  count = is.count ∙ ap pos (omega arith);
}

one_less :
    (fd : ℕ) (event : Event) (c d : FdContext) (s : IoScheduler)
    → Owes fd c d s
    → meets d.events event ≡ true
    → decr s.event_count
      ≡ pos (total s.contexts + bits (without_event d.events event) - bits c.events)
one_less fd event c d s o m =
    ap decr o.count
    ∙ decr_pos _ _ (omega (arith, bits_left event d.events m, bits-le-total fd c s.contexts o.here))

pub Owes-fire :
    (fd : ℕ) (event : Event) (c d : FdContext) (s : IoScheduler)
    → Owes fd c d s
    → meets d.events event ≡ true
    → Owes fd c (fire event (d, s)).0 (fire event (d, s)).1
Owes-fire fd event c d s o m =
    let (masked, kept, same, counted, _) = fire_lem event d s in
    record {
      distinct = rw same o.distinct;
      placed = rw same o.placed;
      at_fd = kept ∙ o.at_fd;
      here = rw same o.here;
      count = rw (masked, same) (counted ∙ one_less fd event c d s o m);
    }

pub Owes-put : (fd : ℕ) (c d : FdContext) (s : IoScheduler) → Owes fd c d s → IsCounted (put fd d s)
Owes-put fd c d s o =
    put-IsCounted fd d (some c) s.event_count s o.distinct o.placed o.at_fd o.here o.count

pub Owes-put_or_delete :
    (fd : ℕ) (c d : FdContext) (s : IoScheduler)
    → Owes fd c d s
    → IsCounted (put_or_delete (is_none d.events) fd d s)
Owes-put_or_delete fd c d s o =
    put_or_delete-IsCounted fd d c s o.distinct o.placed o.at_fd o.here o.count

set_context-events :
    (c : FdContext) (event : Event) (x : EventContext) → (set_context c event x).events ≡ c.events
set_context-events c no_event x = refl
set_context-events c on_read x = refl
set_context-events c on_write x = refl

set_context-fd :
    (c : FdContext) (event : Event) (x : EventContext) → (set_context c event x).fd ≡ c.fd
set_context-fd c no_event x = refl
set_context-fd c on_read x = refl
set_context-fd c on_write x = refl

-- `delEvent` keeps the counter right, whether it succeeds or fails.
pub del_event-IsCounted :
    (ctl : Bool) (fd : ℕ) (event : Event) (s : IoScheduler)
    → IsCounted s
    → IsCounted (del_event ctl fd event s).0
unfolding del_event
del_event-IsCounted ctl fd event s is = elim (Option-cases (find fd s.contexts)) [
  | inl e ↦ rw (e, del_event) is
  | inr (c, e) ↦ elim (Bool-cases (meets c.events event)) [
    | inl m ↦ elim (Bool-cases ctl) [
      | inl done ↦
          let left = without_event c.events event in
          let d = set_context (record c { events = left }) event no_context in
          let t = watch fd left (record s { event_count = decr s.event_count }) in
          rw (e, del_event, m, done)
            (Owes-put_or_delete fd c d t (record {
              distinct = is.distinct;
              placed = is.placed;
              at_fd = set_context-fd _ event _ ∙ fd_of_Placed fd c s.contexts is.placed e;
              here = e;
              count =
                  rw set_context-events
                    (one_less fd event c c (watch fd left s) (Owes-start fd c left s is e) m);
            }))
      | inr failed ↦ rw (e, del_event, m, failed) is
    ]
    | inr m ↦ rw (e, del_event, m) is
  ]
]

-- `cancelEvent` keeps the counter right, whether it succeeds or fails.
pub cancel_event-IsCounted :
    (ctl : Bool) (fd : ℕ) (event : Event) (s : IoScheduler)
    → IsCounted s
    → IsCounted (cancel_event ctl fd event s).0
unfolding cancel_event
cancel_event-IsCounted ctl fd event s is = elim (Option-cases (find fd s.contexts)) [
  | inl e ↦ rw (e, cancel_event) is
  | inr (c, e) ↦ elim (Bool-cases (meets c.events event)) [
    | inl m ↦ elim (Bool-cases ctl) [
      | inl done ↦
          let start = Owes-start fd c (without_event c.events event) s is e in
          rw (e, cancel_event, m, done)
            (Owes-put_or_delete fd c _ _ (Owes-fire fd event c c _ start m))
      | inr failed ↦ rw (e, cancel_event, m, failed) is
    ]
    | inr m ↦ rw (e, cancel_event, m) is
  ]
]

-- A descriptor that is forgotten takes its events along.
pub total_forget :
    (fd : ℕ) (c d : FdContext) (m : List (ℕ × FdContext))
    → find fd m ≡ some c
    → total (remove fd (assign fd d m)) + bits c.events ≡ total m
total_forget fd c d m e = omega (
  arith,
  total-assign fd d m,
  total-remove fd (assign fd d m),
  ap bits_of e,
  ap bits_of (find-assign fd fd d m ∙ if_true (some d) (find fd m) (ground arith)),
)
