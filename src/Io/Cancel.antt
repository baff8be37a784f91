-- ===== src/Io/Cancel.antt =====
-- `cancelAll` and `triggerEvent` of ttw/ioscheduler.cc: which waiters reach the queue.
use ttw.Prelude.{
  ℕ, ◌+◌, ◌-◌, ◌≡◌, refl, ap, sym, ◌∙◌, inl, inr, Bool, true, false, Option, none, some, List, [],
  ◌∷◌, ◌++◌, arith, if◌then◌else◌, ◌==◌, Bool-cases, Option-cases, if_true, if_false, subst,
}
use mathlib.Core.List.{append-nil, append_assoc}
use ttw.Prelude.Dict.{find, nat_key, find-remove, remove-Distinct, assign-Distinct}
use ttw.Prelude.Int.{pos, decr}
use ttw.Timer.{Callback, empty}
use ttw.Io.Events.{
  Event, no_event, on_read, on_write, Mask, no_events, meets, without_event, is_none, bits,
}
use ttw.Io.{
  FdContext, EventContext, Task, spawn, resume, IoScheduler, watch, add_cb, add_coroutine,
  add_waiter, get_context, trigger_event, fire, delete_event_cb, put_or_delete, fire_read,
  cancel_all, cancel_event,
}
use ttw.Io.Count.{
  total, IsCounted, Owes, Owes-start, Owes-fire, fire_lem, decr_pos, bits-le-total, bits_left,
  total_forget, Placed-assign, Placed-remove,
}

-- What one waiter adds to the queue: its coroutine, then its function.
abbrev pub spawned : Callback → List Task
spawned empty = []
spawned cb = spawn cb ∷ []

abbrev pub resumed : Option ℕ → List Task
resumed none = []
resumed (some c) = resume c ∷ []

abbrev pub tasks_of : EventContext → List Task
tasks_of x = resumed x.coroutine ++ spawned x.cb

pub add_cb-queue : (cb : Callback) (s : IoScheduler) → (add_cb cb s).queue ≡ s.queue ++ spawned cb
unfolding add_cb
add_cb-queue empty s = sym (append-nil s.queue)
add_cb-queue _ s = refl

pub add_waiter-queue :
    (x : EventContext) (s : IoScheduler) → (add_waiter x s).queue ≡ s.queue ++ tasks_of x
unfolding add_waiter add_coroutine
add_waiter-queue x s = go x.coroutine
  where
    go :
        (o : Option ℕ)
        → (add_cb x.cb (elim o [ none ↦ s | some c ↦ add_coroutine c s ])).queue
          ≡ s.queue ++ (resumed o ++ spawned x.cb)
    go none = add_cb-queue x.cb s
    go (some c) = add_cb-queue x.cb (add_coroutine c s) ∙ append_assoc s.queue _ _

-- The waiters of an event.
abbrev pub waiters : FdContext → Event → List Task
waiters c no_event = []
waiters c on_read = tasks_of c.read
waiters c on_write = tasks_of c.write

pub fire-queue :
    (event : Event) (c : FdContext) (s : IoScheduler)
    → (fire event (c, s)).1.queue ≡ s.queue ++ waiters c event
unfolding fire trigger_event get_context
fire-queue no_event c s = sym (append-nil s.queue)
fire-queue on_read c s = add_waiter-queue c.read s
fire-queue on_write c s = add_waiter-queue c.write s

-- `cancelEvent` on an event that is waited for, once `epoll_ctl` has succeeded, puts the coroutine and
-- the function that wait for it at the end of the queue, and nothing else there.
pub cancel_event-queue :
    (fd : ℕ) (event : Event) (c : FdContext) (s : IoScheduler)
    → find fd s.contexts ≡ some c
    → meets c.events event ≡ true
    → ((cancel_event true fd event s).1 ≡ true)
      × ((cancel_event true fd event s).0.queue ≡ s.queue ++ waiters c event)
unfolding cancel_event put_or_delete delete_event_cb
cancel_event-queue fd event c s e m =
    let u = watch fd (without_event c.events event) s in
    let (d, t) = fire event (c, u) in
    rw (e, cancel_event, m)
      (
        refl,
        elim (Bool-cases (is_none d.events)) [
          | inl gone ↦ rw gone (fire-queue event c u)
          | inr stays ↦ rw stays (fire-queue event c u)
        ],
      )

-- The two tests of `cancelAll` together trigger READ once, if it is waited for.
fire_read_twice :
    (b : Bool) (c : FdContext) (s : IoScheduler)
    → c.events.read ≡ b
    → fire_read (fire_read (c, s)) ≡ (if b then fire on_read (c, s) else (c, s))
unfolding fire_read
fire_read_twice true c s r =
    ap fire_read (if_true (fire on_read (c, s)) (c, s) r)
    ∙ if_false (fire on_read (fire on_read (c, s))) (fire on_read (c, s))
        (ap (λ (m : Mask). m.read) (fire_lem on_read c s).0)
fire_read_twice false c s r =
    ap fire_read (if_false (fire on_read (c, s)) (c, s) r) ∙ if_false (fire on_read (c, s)) (c, s) r

record Cancelled (b : Bool) (c : FdContext) (s : IoScheduler) (t : IoScheduler) : Type 0 where
  contexts : t.contexts ≡ s.contexts
  count : t.event_count ≡ pos (total s.contexts - (if b then 1 else 0))
  queue : t.queue ≡ s.queue ++ (if b then waiters c on_read else [])

fired-Cancelled :
    (fd : ℕ) (b : Bool) (c : FdContext) (s : IoScheduler)
    → c.events.read ≡ b
    → IsCounted s
    → find fd s.contexts ≡ some c
    → let u = watch fd no_events s in Cancelled b c s (if b then fire on_read (c, u) else (c, u)).1
fired-Cancelled fd true c s r is e =
    let u = watch fd no_events s in
    let (_, _, same, counted, _) = fire_lem on_read c u in
    record {
      contexts = same;
      count =
          counted
          ∙ ap decr is.count
          ∙ decr_pos _ _
              (omega (arith, bits-le-total fd c s.contexts e, bits_left on_read c.events r));
      queue = fire-queue on_read c u;
    }
fired-Cancelled fd false c s r is e = record {
  contexts = refl;
  count = is.count ∙ ap pos (omega arith);
  queue = sym (append-nil s.queue);
}

fire_read-Cancelled :
    (fd : ℕ) (c : FdContext) (s : IoScheduler)
    → IsCounted s
    → find fd s.contexts ≡ some c
    → Cancelled c.events.read c s (fire_read (fire_read (c, watch fd no_events s))).1
fire_read-Cancelled fd c s is e =
    subst (λ p. Cancelled c.events.read c s p.1)
      (sym (fire_read_twice c.events.read c (watch fd no_events s) refl))
      (fired-Cancelled fd c.events.read c s refl is e)

-- Where the counter is the number of events waited for and each descriptor has one context: `cancelAll` on a
-- descriptor with an event waited for, once `epoll_ctl` has succeeded, forgets the descriptor. It puts the waiters for READ at
-- the end of the queue, if READ is waited for; the waiters for WRITE it never puts there, and if WRITE is
-- waited for the counter stays one above the number of events that are still waited for.
pub cancel_all_lem :
    (fd : ℕ) (c : FdContext) (s : IoScheduler)
    → IsCounted s
    → find fd s.contexts ≡ some c
    → is_none c.events ≡ false
    → let (t, done) = cancel_all true fd s in
      (done ≡ true)
      × (find fd t.contexts ≡ none)
      × (t.queue ≡ s.queue ++ (if c.events.read then waiters c on_read else []))
      × (t.event_count ≡ pos (total t.contexts + (if c.events.write then 1 else 0)))
unfolding cancel_all delete_event_cb
cancel_all_lem fd c s is e some_event =
    let (d, t) = fire_read (fire_read (c, watch fd no_events s)) in
    let after = fire_read-Cancelled fd c s is e in
    rw (e, cancel_all, some_event)
      (
        refl,
        find-remove fd fd _ (assign-Distinct fd d t.contexts (rw after.contexts is.distinct))
            ∙ rw same_self,
        after.queue,
        after.count ∙ ap pos (rw after.contexts (omega (arith, total_forget fd c d s.contexts e))),
      )
  where
    same_self : (fd == fd) ≡ true
    same_self = ground arith

Owes-fire_read :
    (fd : ℕ) (c d : FdContext) (s : IoScheduler)
    → Owes fd c d s
    → Owes fd c (fire_read (d, s)).0 (fire_read (d, s)).1
unfolding fire_read
Owes-fire_read fd c d s o = elim (Bool-cases d.events.read) [
  | inl r ↦
      subst (λ p. Owes fd c p.0 p.1) (sym (if_true (fire on_read (d, s)) (d, s) r))
        (Owes-fire fd on_read c d s o r)
  | inr r ↦ subst (λ p. Owes fd c p.0 p.1) (sym (if_false (fire on_read (d, s)) (d, s) r)) o
]

bits_read : (m : Mask) → m.write ≡ false → bits m ≡ (if m.read then 1 else 0)
bits_read m e = ground arith

-- `cancelAll` keeps the counter right if WRITE is not waited for, or `epoll_ctl` fails.
pub cancel_all-IsCounted :
    (ctl : Bool) (fd : ℕ) (s : IoScheduler)
    → ((c : FdContext) → find fd s.contexts ≡ some c → c.events.write ≡ false)
    → IsCounted s
    → IsCounted (cancel_all ctl fd s).0
unfolding cancel_all delete_event_cb
cancel_all-IsCounted ctl fd s free is = elim (Option-cases (find fd s.contexts)) [
  | inl e ↦ rw (e, cancel_all) is
  | inr (c, e) ↦ elim (Bool-cases (is_none c.events)) [
    | inl idle ↦ rw (e, cancel_all, idle) is
    | inr some_event ↦ elim (Bool-cases ctl) [
      | inr failed ↦ rw (e, cancel_all, some_event, failed) is
      | inl done ↦
          let (d', t') = fire_read (c, watch fd no_events s) in
          let (d, t) = fire_read (d', t') in
          let after = fire_read-Cancelled fd c s is e in
          let owes =
            Owes-fire_read fd c d' t'
              (Owes-fire_read fd c c _ (Owes-start fd c no_events s is e)) in
          rw (e, cancel_all, some_event, done)
            (record {
              distinct = remove-Distinct fd _ (assign-Distinct fd d t.contexts owes.distinct);
              placed = Placed-remove fd _ (Placed-assign fd d t.contexts owes.at_fd owes.placed);
              count =
                  after.count
                  ∙ ap pos (
                      rw after.contexts (
                        omega (
                          arith,
                          total_forget fd c d s.contexts e,
                          bits_read c.events (free c e),
                        )));
            })
    ]
  ]
]
