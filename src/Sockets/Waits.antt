-- ===== src/Sockets/Waits.antt =====
-- The branch for EWOULDBLOCK of the operations of ttw/socket.cc: its timer and its result.
use ttw.Prelude.{
  ℕ, ◌≡◌, ◌≢◌, refl, Bool, true, false, not, Option, none, some, List, [], ◌∷◌, arith, has,
  if◌then◌else◌, ◌==◌, subst, ap,
}
use ttw.Prelude.Word.{u64_max}
use ttw.Timer.{empty, call, cancel_timer}
use ttw.Timer.Manage.{has-cancel_timer, add_condition_timer_new}
use ttw.Timer.Reach.{Fresh}
use ttw.Io.Events.{Event, no_event}
use ttw.Io.{IoScheduler, Outcome, returned, threw, add_event}
use ttw.Sockets.{
  Happening, timer_runs, elsewhere, Pause, thrown, unwatched, timed_out, on_timeout, suspended,
  start_timer, stop_timer, Waited, again, ends, wait_for, etimedout,
}
use ttw.Sockets.Invariant.{
  IsScheduler, Sound, add_event-IsScheduler, start_timer-IsScheduler, suspended-IsScheduler,
}

-- Whether the timer runs before the coroutine goes on.
abbrev pub has_timeout : List Happening → Bool
has_timeout [] = false
has_timeout (timer_runs ctl ∷ hs) = true
has_timeout (elsewhere f ∷ hs) = has_timeout hs

-- Once the flag is set, it stays.
suspended_set :
    (m fd t : ℕ) (event : Event) (hs : List Happening) (s : IoScheduler)
    → (t == 0) ≡ false
    → (suspended (some m) fd event hs (t, s)).0 ≡ t
unfolding suspended on_timeout
suspended_set m fd t event [] s h = refl
suspended_set m fd t event (elsewhere f ∷ hs) s h = suspended_set m fd t event hs (f s) h
suspended_set m fd t event (timer_runs ctl ∷ hs) s h =
    rw (h, suspended) (suspended_set m fd t event hs s h)

suspended-has_timeout :
    (m fd : ℕ) (event : Event) (hs : List Happening) (s : IoScheduler)
    → ((suspended (some m) fd event hs (0, s)).0 == 0) ≡ not (has_timeout hs)
unfolding suspended on_timeout
suspended-has_timeout m fd event [] s = refl
suspended-has_timeout m fd event (elsewhere f ∷ hs) s = suspended-has_timeout m fd event hs (f s)
suspended-has_timeout m fd event (timer_runs ctl ∷ hs) s =
    ap (λ n. n == 0) (suspended_set m fd etimedout event hs _ refl)

start_timer-some :
    (w : Pause) (timeout : ℕ) (s : IoScheduler)
    → timeout ≢ u64_max
    → (start_timer w timeout s).0 ≡ some w.fresh
unfolding start_timer
start_timer-some w timeout s n =
    rw (never, start_timer)
      (ap some (add_condition_timer_new w.fresh w.now timeout (call w.fn) w.weak false s.timer))
  where
    never : (timeout == u64_max) ≡ false
    never = ground (arith, n)

if_not : {A : Type 0} (b : Bool) (x y : A) → (if not b then x else y) ≡ (if b then y else x)
if_not true x y = refl
if_not false x y = refl

-- A wait with a time on an event that is registered is given up with ETIMEDOUT if the timer runs before the
-- coroutine goes on, whatever else happens, and the call is made again if it does not.
pub wait_for-has_timeout :
    (w : Pause) (timeout fd : ℕ) (event : Event) (s : IoScheduler)
    → timeout ≢ u64_max
    → (add_event w.ctl w.current fd event empty (start_timer w timeout s).1).1 ≡ returned true
    → (wait_for w (some timeout) fd event s).0
      ≡ (if has_timeout w.meanwhile then ends timed_out else again)
unfolding wait_for
wait_for-has_timeout w timeout fd event s n e =
    rw (e, wait_for)
      (rw (start_timer-some w timeout s n) (
        rw (suspended-has_timeout _ fd event w.meanwhile _)
          (if_not (has_timeout w.meanwhile) again (ends timed_out))))

stop_timer-gone :
    (timer : Option ℕ) (t : ℕ) (s : IoScheduler)
    → timer ≡ some t
    → IsScheduler s
    → has t (stop_timer timer s).timer.timers ≡ false
unfolding stop_timer
stop_timer-gone none t s e is = cc
stop_timer-gone (some m) t s e is =
    subst (λ x. has x (cancel_timer m s.timer).0.timers ≡ false) (cc)
      (has-cancel_timer m s.timer is.timers)

-- After a wait for READ or WRITE with a time, in a well-formed scheduler, that lets no exception through, the timer that
-- it has started at a fresh address is no longer held, whether the event could not be registered, the time was over, or the coroutine was
-- woken, if what happens elsewhere keeps the scheduler well-formed.
pub wait_for-stopped :
    (w : Pause) (timeout fd : ℕ) (event : Event) (s : IoScheduler)
    → timeout ≢ u64_max
    → event ≢ no_event
    → Fresh w.fresh s.timer
    → Sound w.meanwhile
    → IsScheduler s
    → (wait_for w (some timeout) fd event s).0 ≢ ends thrown
    → has w.fresh (wait_for w (some timeout) fd event s).1.timer.timers ≡ false
unfolding wait_for
wait_for-stopped w timeout fd event s n ne f h is =
    go (add_event w.ctl w.current fd event empty t).1
  where
    timer : Option ℕ
    timer = (start_timer w timeout s).0

    t : IoScheduler
    t = (start_timer w timeout s).1

    u : IoScheduler
    u = (add_event w.ctl w.current fd event empty t).0

    added : IsScheduler u
    added =
        add_event-IsScheduler w.ctl w.current fd event empty t ne
          (start_timer-IsScheduler w timeout s f is)

    v : ℕ × IoScheduler
    v = suspended timer fd event w.meanwhile (0, u)

    Ended : Outcome → Waited × IoScheduler
    Ended out = elim out [
      | threw ↦ (ends thrown, u)
      | returned done ↦
          if not done
          then (ends unwatched, stop_timer timer u)
          else (if v.0 == 0 then again else ends timed_out, stop_timer timer v.1)
    ]

    go :
        (out : Outcome)
        → (Ended out).0 ≢ ends thrown
        → has w.fresh (Ended out).1.timer.timers ≡ false
    go threw x = absurd (x refl)
    go (returned true) x =
        stop_timer-gone timer w.fresh v.1 (start_timer-some w timeout s n)
          (suspended-IsScheduler timer fd event w.meanwhile (0, u) h added)
    go (returned false) x = stop_timer-gone timer w.fresh u (start_timer-some w timeout s n) added
