-- ===== src/Io/Round.antt =====
-- One round of `IOScheduler::wait` (ttw/ioscheduler.cc): its timeout, its stop test and its timers.
use ttw.Prelude.{
  ℕ, suc, ◌-◌, ◌%◌, ◌^◌, ◌≤◌, ◌<◌, ◌≡◌, refl, ap, sym, ◌∙◌, ◌≢◌, ◌↔◌, inl, inr, true, false, List,
  [], ◌∷◌, ◌++◌, arith, has, length, replicate, zero,
}
use Prim.Native.Nat.{min}
use mathlib.Core.List.{append-nil, append_assoc}
use ttw.Prelude.Int.{pos, negsuc}
use ttw.Prelude.Word.{u64_max}
use ttw.Timer.{Callback, empty, list_expired_cbs}
use ttw.Timer.Manage.{IsTimers}
use ttw.Timer.Expire.{due}
use ttw.Timer.Rearm.{callbacks}
use ttw.Timer.Wait.{list_expired_cbs_lem, resize-nil, get_next_timer_empty}
use ttw.Io.{
  Task, IoScheduler, add_cb, add_all, expire_timers, to_int, poll_timeout, is_stop, is_stop_at,
}
use ttw.Io.Count.{total, IsCounted}
use ttw.Io.Cancel.{spawned, add_cb-queue}

abbrev pub all_spawned : List Callback → List Task
all_spawned [] = []
all_spawned (cb ∷ cbs) = spawned cb ++ all_spawned cbs

add_all-queue :
    (cbs : List Callback) (s : IoScheduler) → (add_all cbs s).queue ≡ s.queue ++ all_spawned cbs
unfolding add_all
add_all-queue [] s = sym (append-nil s.queue)
add_all-queue (cb ∷ cbs) s =
    add_all-queue cbs (add_cb cb s)
    ∙ rw (add_cb-queue cb s) (append_assoc s.queue (spawned cb) (all_spawned cbs))

-- The empty functions at the front are dropped.
all_spawned-replicate :
    (n : ℕ) (cbs : List Callback) → all_spawned (replicate n empty ++ cbs) ≡ all_spawned cbs
all_spawned-replicate zero cbs = refl
all_spawned-replicate (suc n) cbs = all_spawned-replicate n cbs

-- The part of a round of `wait` that runs the timers, between `epoll_wait` and the loop over its reports, adds
-- to the queue one new coroutine for each due timer that has a callback, in the order of their times, and no
-- other: the empty functions that `listExpiredCbs` hands out are dropped. The timers are in order and the
-- address of `now_timer` is fresh. What the reports then add is not part of it.
pub expire_timers-queue :
    (probe now : ℕ) (s : IoScheduler)
    → probe ≢ 0
    → has probe s.timer.timers ≡ false
    → IsTimers s.timer
    → (expire_timers probe now s).queue
      ≡ s.queue ++ all_spawned (callbacks s.timer.heap (due s.timer.heap now s.timer.timers))
unfolding expire_timers
expire_timers-queue probe now s np out is =
    let (m, cbs) = list_expired_cbs probe now s.timer [] in
    add_all-queue cbs (record s { timer = m })
    ∙ ap (◌++◌ s.queue) (elim (list_expired_cbs_lem probe now s.timer [] np out is) [
      | inl (e, ran) ↦ rw (ran, e)
      | inr (_, r) ↦
          let ds = due s.timer.heap now s.timer.timers in
          rw (r.handed_out, resize-nil (length ds)) (all_spawned-replicate (length ds) _)
    ])

-- A wait of less than 2^31 milliseconds is handed to `epoll_wait` cut at three seconds, and with no
-- timer the wait is three seconds.
pub poll_timeout_bounds :
    (next : ℕ)
    → (next < 2 ^ 31 → poll_timeout next ≡ pos (min next 3000))
      × (next ≡ u64_max → poll_timeout next ≡ pos 3000)
unfolding poll_timeout to_int
poll_timeout_bounds next = ground arith

-- A wait that `int` reads as negative is handed on as it is: `epoll_wait` then has no timeout, although
-- a timer is due after that time.
pub poll_timeout_negative :
    (next : ℕ)
    → 2 ^ 31 ≤ next % 2 ^ 32
    → next ≢ u64_max
    → poll_timeout next ≡ negsuc (2 ^ 32 - 1 - next % 2 ^ 32)
unfolding poll_timeout to_int
poll_timeout_negative next h ne = ground arith

-- Once told to stop, and with no timer, the loop stops exactly while events are still waited for.
pub is_stop_iff :
    (now : ℕ) (s : IoScheduler)
    → IsCounted s
    → s.stop ≡ true
    → s.timer.timers ≡ []
    → ((is_stop_at now s).1 ≡ true) ↔ (total s.contexts ≢ 0)
unfolding is_stop_at is_stop
is_stop_iff now s is told e =
    let (empty_iff, next) = get_next_timer_empty now s.timer in
    rw (next (empty_iff.1 e), told, is.count) (ground arith)
