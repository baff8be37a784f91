-- ===== src/Sockets/Invariant.antt =====
-- The scheduler under the operations of ttw/socket.cc and ttw/tcpserver.cc.
use ttw.Prelude.{
  ℕ, zero, suc, ◌≢◌, inl, inr, Bool, true, false, not, Option, none, some, List, [], ◌∷◌,
  if◌then◌else◌, ◌==◌, ◌||◌, Bool-cases, subst, sym,
}
use ttw.Prelude.Word.{u64_max}
use ttw.Timer.{Callback, empty, call, TimerManage}
use ttw.Timer.Manage.{IsTimers, add_condition_timer-IsTimers, cancel_timer-IsTimers}
use ttw.Timer.Reach.{Fresh}
use ttw.Io.Events.{Event, no_event}
use ttw.Io.{IoScheduler, Outcome, returned, threw, add_event}
use ttw.Io.Count.{IsCounted, add_event-IsCounted, cancel_event-IsCounted}
use ttw.Io.Untimed.{add_event-timer, cancel_event-timer}
use ttw.Sockets.{
  Happening, timer_runs, elsewhere, Pause, Call, gave, interrupted, would_block, failed, on_timeout,
  suspended, start_timer, stop_timer, Waited, again, ends, wait_for, transfer, after_wait, thrown,
  unwatched, timed_out,
}

-- The events are counted, and the timers are in order.
pub record IsScheduler (s : IoScheduler) : Type 0 where
  pub counted : IsCounted s
  pub timers : IsTimers s.timer

with_timer-IsScheduler :
    (m : TimerManage) (s : IoScheduler)
    → IsTimers m
    → IsScheduler s
    → IsScheduler (record s { timer = m })
with_timer-IsScheduler m s im is = record {
  counted = record {
    distinct = is.counted.distinct;
    placed = is.counted.placed;
    count = is.counted.count;
  };
  timers = im;
}

pub add_event-IsScheduler :
    (ctl : Bool) (current fd : ℕ) (event : Event) (cb : Callback) (s : IoScheduler)
    → event ≢ no_event
    → IsScheduler s
    → IsScheduler (add_event ctl current fd event cb s).0
add_event-IsScheduler ctl current fd event cb s ne is = record {
  counted = add_event-IsCounted ctl current fd event cb s ne is.counted;
  timers = subst IsTimers (sym (add_event-timer ctl current fd event cb s)) is.timers;
}

on_timeout-IsScheduler :
    (alive ctl : Bool) (fd : ℕ) (event : Event) (p : ℕ × IoScheduler)
    → IsScheduler p.1
    → IsScheduler (on_timeout alive ctl fd event p).1
unfolding on_timeout
on_timeout-IsScheduler alive ctl fd event (t, s) is =
    elim (Bool-cases (not alive || not (t == 0))) [
      | inl y ↦ rw y is
      | inr n ↦ rw n (record {
        counted = cancel_event-IsCounted ctl fd event s is.counted;
        timers = subst IsTimers (sym (cancel_event-timer ctl fd event s)) is.timers;
      })
    ]

-- What happens elsewhere keeps the scheduler well-formed.
abbrev pub Sound : List Happening → Type 0
Sound [] = Unit {0}
Sound (timer_runs ctl ∷ hs) = Sound hs
Sound (elsewhere f ∷ hs) = ((s : IoScheduler) → IsScheduler s → IsScheduler (f s)) × Sound hs

pub suspended-IsScheduler :
    (timer : Option ℕ) (fd : ℕ) (event : Event) (hs : List Happening) (p : ℕ × IoScheduler)
    → Sound hs
    → IsScheduler p.1
    → IsScheduler (suspended timer fd event hs p).1
unfolding suspended
suspended-IsScheduler timer fd event [] p h is = is
suspended-IsScheduler timer fd event (elsewhere f ∷ hs) (t, s) h is =
    suspended-IsScheduler timer fd event hs (t, f s) h.1 (h.0 s is)
suspended-IsScheduler none fd event (timer_runs ctl ∷ hs) p h is =
    suspended-IsScheduler none fd event hs p h is
suspended-IsScheduler (some m) fd event (timer_runs ctl ∷ hs) p h is =
    suspended-IsScheduler (some m) fd event hs (on_timeout true ctl fd event p) h
      (on_timeout-IsScheduler true ctl fd event p is)

pub start_timer-IsScheduler :
    (w : Pause) (timeout : ℕ) (s : IoScheduler)
    → Fresh w.fresh s.timer
    → IsScheduler s
    → IsScheduler (start_timer w timeout s).1
unfolding start_timer
start_timer-IsScheduler w timeout s f is = elim (Bool-cases (timeout == u64_max)) [
  | inl y ↦ rw y is
  | inr n ↦ rw n (
      with_timer-IsScheduler _ s
        (add_condition_timer-IsTimers w.fresh w.now timeout (call w.fn) w.weak false s.timer f.0 f.1
          is.timers)
        is)
]

stop_timer-IsScheduler :
    (timer : Option ℕ) (s : IoScheduler) → IsScheduler s → IsScheduler (stop_timer timer s)
unfolding stop_timer
stop_timer-IsScheduler none s is = is
stop_timer-IsScheduler (some t) s is =
    with_timer-IsScheduler _ s (cancel_timer-IsTimers t s.timer is.timers) is

pub wait_for-IsScheduler :
    (w : Pause) (timeout : Option ℕ) (fd : ℕ) (event : Event) (s : IoScheduler)
    → event ≢ no_event
    → Fresh w.fresh s.timer
    → Sound w.meanwhile
    → IsScheduler s
    → IsScheduler (wait_for w timeout fd event s).1
unfolding wait_for
wait_for-IsScheduler w none fd event s ne f h is = is
wait_for-IsScheduler w (some timeout) fd event s ne f h is =
    go (add_event w.ctl w.current fd event empty t).1
  where
    timer : Option ℕ
    timer = (start_timer w timeout s).0

    t : IoScheduler
    t = (start_timer w timeout s).1

    u : IoScheduler
    u = (add_event w.ctl w.current fd event empty t).0

    added : IsScheduler u
    added =
        add_event-IsScheduler w.ctl w.current fd event empty t ne
          (start_timer-IsScheduler w timeout s f is)

    v : ℕ × IoScheduler
    v = suspended timer fd event w.meanwhile (0, u)

    go :
        (out : Outcome)
        → IsScheduler (
            let r : Waited × IoScheduler = elim out [
              | threw ↦ (ends thrown, u)
              | returned done ↦
                  if not done
                  then (ends unwatched, stop_timer timer u)
                  else (if v.0 == 0 then again else ends timed_out, stop_timer timer v.1)
            ] in
            r.1)
    go threw = added
    go (returned true) =
        stop_timer-IsScheduler timer v.1
          (suspended-IsScheduler timer fd event w.meanwhile (0, u) h added)
    go (returned false) = stop_timer-IsScheduler timer u added

-- The loop goes on after a wait, or it ends.
abbrev pub Follows : (IoScheduler → Type 0) → Waited × IoScheduler → Type 0
Follows next (again, t) = next t
Follows next (ends e, t) = Unit {0}

-- Along the calls, each new timer has a new address, and what happens elsewhere is sound.
abbrev pub Allowed : Option ℕ → ℕ → Event → List Call → IoScheduler → Type 0
Allowed timeout fd event [] s = Unit {0}
Allowed timeout fd event (would_block w ∷ cs) s =
    Fresh w.fresh s.timer
    × Sound w.meanwhile
    × Follows (Allowed timeout fd event cs) (wait_for w timeout fd event s)
Allowed timeout fd event (_ ∷ cs) s = Allowed timeout fd event cs s

pub transfer-IsScheduler :
    (timeout : Option ℕ) (fd : ℕ) (event : Event) (cs : List Call) (s : IoScheduler)
    → event ≢ no_event
    → Allowed timeout fd event cs s
    → IsScheduler s
    → IsScheduler (transfer timeout fd event cs s).1
unfolding transfer
transfer-IsScheduler timeout fd event [] s ne h is = is
transfer-IsScheduler timeout fd event (gave zero ∷ cs) s ne h is =
    transfer-IsScheduler timeout fd event cs s ne h is
transfer-IsScheduler timeout fd event (gave (suc n) ∷ cs) s ne h is = is
transfer-IsScheduler timeout fd event (interrupted ∷ cs) s ne h is =
    transfer-IsScheduler timeout fd event cs s ne h is
transfer-IsScheduler timeout fd event (failed e ∷ cs) s ne h is =
    transfer-IsScheduler timeout fd event cs s ne h is
transfer-IsScheduler timeout fd event (would_block w ∷ cs) s ne h is =
    go (wait_for w timeout fd event s) h.2 (wait_for-IsScheduler w timeout fd event s ne h.0 h.1 is)
      (λ t a kept. transfer-IsScheduler timeout fd event cs t ne a kept)
  where
    go :
        (r : Waited × IoScheduler)
        → Follows (Allowed timeout fd event cs) r
        → IsScheduler r.1
        → ((t : IoScheduler)
            → Allowed timeout fd event cs t
            → IsScheduler t
            → IsScheduler (transfer timeout fd event cs t).1)
        → IsScheduler (after_wait (transfer timeout fd event cs) r).1
    go (again, t) a kept next = next t a kept
    go (ends e, t) a kept next = kept
