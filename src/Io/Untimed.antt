-- ===== src/Io/Untimed.antt =====
-- The operations on events (ttw/ioscheduler.cc) leave the timers alone.
use ttw.Prelude.{
  ℕ, ◌≡◌, refl, ◌∙◌, inl, inr, Bool, true, false, Option, none, some, arith, if◌then◌else◌,
  Option-cases,
}
use ttw.Prelude.Dict.{find, nat_key}
use ttw.Timer.{Callback, empty, call, guarded}
use ttw.Io.Events.{Event, no_event, on_read, on_write, without_event}
use ttw.Io.Count.{IsCounted}
use ttw.Io.{
  returned, FdContext, EventContext, IoScheduler, obtain, register, get_context, add_event, add_cb,
  add_coroutine, add_waiter, trigger_event, fire, put_or_delete, delete_event_cb, cancel_event,
  watch,
}

obtain-timer : (fd : ℕ) (s : IoScheduler) → (obtain fd s).1.timer ≡ s.timer
unfolding obtain
obtain-timer fd s = elim (Option-cases (find fd s.contexts)) [
  | inl e ↦ rw (e, obtain) refl
  | inr (c, e) ↦ rw (e, obtain) refl
]

register-timer :
    (current fd : ℕ) (event : Event) (cb : Callback) (c : FdContext) (s : IoScheduler)
    → (register current fd event cb c s).0.timer ≡ s.timer
unfolding register get_context
register-timer current fd no_event cb c s = refl
register-timer current fd on_read cb c s = refl
register-timer current fd on_write cb c s = refl

pub add_event-timer :
    (ctl : Bool) (current fd : ℕ) (event : Event) (cb : Callback) (s : IoScheduler)
    → (add_event ctl current fd event cb s).0.timer ≡ s.timer
unfolding add_event
add_event-timer ctl current fd event cb s =
    ground (arith, obtain-timer fd s, register-timer current fd event cb)

add_waiter-timer : (x : EventContext) (s : IoScheduler) → (add_waiter x s).timer ≡ s.timer
unfolding add_waiter add_cb add_coroutine
add_waiter-timer x s = go x.cb x.coroutine
  where
    go :
        (cb : Callback) (o : Option ℕ)
        → (add_cb cb (elim o [ none ↦ s | some c ↦ add_coroutine c s ])).timer ≡ s.timer
    go empty none = refl
    go empty (some c) = refl
    go (call f) none = refl
    go (call f) (some c) = refl
    go (guarded w cb) none = refl
    go (guarded w cb) (some c) = refl

fire-timer :
    (event : Event) (c : FdContext) (s : IoScheduler) → (fire event (c, s)).1.timer ≡ s.timer
unfolding fire trigger_event get_context
fire-timer no_event c s = refl
fire-timer on_read c s = add_waiter-timer c.read s
fire-timer on_write c s = add_waiter-timer c.write s

put_or_delete-timer :
    (gone : Bool) (fd : ℕ) (c : FdContext) (s : IoScheduler)
    → (put_or_delete gone fd c s).timer ≡ s.timer
unfolding put_or_delete delete_event_cb
put_or_delete-timer true fd c s = refl
put_or_delete-timer false fd c s = refl

-- A guard, then whether `epoll_ctl` succeeds.
guarded-timer :
    (idle ctl : Bool) (s t : IoScheduler)
    → t.timer ≡ s.timer
    → (let r : IoScheduler × Bool =
          if idle then (s, false) else if ctl then (t, true) else (s, false) in
        r.0.timer)
      ≡ s.timer
guarded-timer true ctl s t e = refl
guarded-timer false true s t e = e
guarded-timer false false s t e = refl

pub cancel_event-timer :
    (ctl : Bool) (fd : ℕ) (event : Event) (s : IoScheduler)
    → (cancel_event ctl fd event s).0.timer ≡ s.timer
unfolding cancel_event
cancel_event-timer ctl fd event s = elim (Option-cases (find fd s.contexts)) [
  | inl e ↦ rw (e, cancel_event) refl
  | inr (c, e) ↦
      rw (e, cancel_event)
        (guarded-timer _ ctl s _ (
          put_or_delete-timer _ fd _ _
          ∙ fire-timer event c (watch fd (without_event c.events event) s)))
]

pub add_cb-timer : (cb : Callback) (s : IoScheduler) → (add_cb cb s).timer ≡ s.timer
unfolding add_cb
add_cb-timer empty s = refl
add_cb-timer (call f) s = refl
add_cb-timer (guarded w cb) s = refl

pub add_cb-IsCounted : (cb : Callback) (s : IoScheduler) → IsCounted s → IsCounted (add_cb cb s)
unfolding add_cb
add_cb-IsCounted empty s is = is
add_cb-IsCounted (call f) s is = record {
  distinct = is.distinct;
  placed = is.placed;
  count = is.count;
}
add_cb-IsCounted (guarded w cb) s is = record {
  distinct = is.distinct;
  placed = is.placed;
  count = is.count;
}

-- `addEvent` on a descriptor without a context succeeds where `epoll_ctl` does.
pub add_event-returned :
    (current fd : ℕ) (s : IoScheduler)
    → find fd s.contexts ≡ none
    → (add_event true current fd on_read empty s).1 ≡ returned true
unfolding add_event obtain register get_context
add_event-returned current fd s e = rw (e, obtain, add_event) refl
