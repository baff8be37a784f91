-- ===== src/Io/Tests.antt =====
-- Runs of an `IOScheduler`, and the theorems on it at small states.
use ttw.Prelude.{◌+◌, ◌≡◌, refl, true, false, none, some, [], ◌∷◌, arith}
use ttw.Prelude.Dict.{find, assign, remove, nat_key}
use ttw.Prelude.Int.{pos}
use ttw.Timer.{
  Callback, empty, call, Timer, TimerManage, make_timer, comp, get_next_timer, list_expired_cbs,
}
use ttw.Timer.Manage.{IsTimers}
use ttw.Io.Events.{on_read, on_write}
use ttw.Io.{
  FdContext, spawn, resume, IoScheduler, add_event, cancel_event, cancel_all, expire_timers,
}
use ttw.Io.Count.{IsCounted, total}
use ttw.Io.Cancel.{cancel_event-queue, cancel_all_lem}
use ttw.Io.Stale.{cancel_event_resumes_twice}
use ttw.Io.Round.{expire_timers-queue}
use ttw.Io.Reach.{Reach-IsCounted, here, next, add, cancel}

abbrev no_timers : TimerManage
no_timers = record {
  heap = λ p. record { ms = 0; cb = call 7; recurr = false; next = 50 };
  timers = 1 ∷ [];
  pre_time = 0;
  notified = 0;
}

-- Descriptor 5 waits for READ with coroutine 8 and for WRITE with function 9.
abbrev both : FdContext
both = record {
  fd = 5;
  events = record { read = true; write = true };
  read = record { cb = empty; coroutine = some 8 };
  write = record { cb = call 9; coroutine = none };
}

abbrev waiting : IoScheduler
waiting = record {
  timer = no_timers;
  contexts = (5, both) ∷ [];
  event_count = pos 2;
  interest = (5, record { read = true; write = true }) ∷ [];
  queue = [];
  notified = 0;
  stop = true;
}

waiting-IsCounted : IsCounted waiting
unfolding find
waiting-IsCounted = record { distinct = (refl, tt); placed = (refl, tt); count = refl }

waiting-IsTimers : IsTimers no_timers
waiting-IsTimers = record { sorted = tt; no_null = refl }

woken : (cancel_event true 5 on_read waiting).0.queue ≡ resume 8 ∷ []
unfolding cancel_event find assign remove
woken = refl

Reach-IsCounted_example :
    IsCounted (cancel_event true 6 on_write (add_event true 3 6 on_write (call 1) waiting).0).0
Reach-IsCounted_example =
    Reach-IsCounted
      (next (next here (add true 3 6 on_write (call 1) (λ e. cc))) (cancel true 6 on_write))
      waiting-IsCounted

wakes_writer :
    ((cancel_event true 5 on_write waiting).1 ≡ true)
    × ((cancel_event true 5 on_write waiting).0.queue ≡ spawn (call 9) ∷ [])
unfolding find
wakes_writer = cancel_event-queue 5 on_write both waiting refl refl

-- The function that waits for WRITE is lost, and the counter stays at 1 with no event left.
cancel_all_lem_example :
    let (t, done) = cancel_all true 5 waiting in
    (done ≡ true)
    × (find 5 t.contexts ≡ none)
    × (t.queue ≡ resume 8 ∷ [])
    × (t.event_count ≡ pos (total t.contexts + 1))
unfolding find
cancel_all_lem_example = cancel_all_lem 5 both waiting waiting-IsCounted refl refl

-- Coroutine 8 waited once and is queued twice.
cancel_event_resumes_twice_example :
    let t = (cancel_event true 5 on_read waiting).0 in
    (cancel_event true 5 on_read (add_event true 3 5 on_read (call 4) t).0).0.queue
    ≡ resume 8 ∷ resume 8 ∷ spawn (call 4) ∷ []
unfolding find
cancel_event_resumes_twice_example =
    cancel_event_resumes_twice 3 5 4 8 both waiting refl refl refl refl

expire_timers-queue_example : (expire_timers 9 60 waiting).queue ≡ spawn (call 7) ∷ []
unfolding ttw.Timer.Expire.due
expire_timers-queue_example = expire_timers-queue 9 60 waiting (omega arith) refl waiting-IsTimers
