-- ===== src/Io.antt =====
-- ttw/ioscheduler.h and ttw/ioscheduler.cc: the waits for events of file descriptors, and the loop
-- that turns events and expired timers into coroutines for the queue of ttw/corscheduler.cc.
-- Whether `epoll_ctl` succeeds is the argument `ctl` of each operation, the running coroutine the
-- argument `current`; the field `interest` is what successful calls of `epoll_ctl` have registered.
pub mod Events
pub mod Count
pub mod Untimed
pub mod Cancel
pub mod Ready
pub mod Stale
pub mod Round
pub mod Reach
mod Tests
use ttw.Prelude.{
  ℕ, suc, ◌+◌, ◌-◌, ◌%◌, ◌^◌, Bool, true, false, ◌&&◌, ◌||◌, not, Option, none, some, List, [], ◌∷◌,
  ◌++◌, ltb, ◌==◌, if◌then◌else◌,
}
use ttw.Prelude.Dict.{find, assign, remove, nat_key}
use ttw.Prelude.Int.{ℤ, pos, negsuc, incr, decr}
use ttw.Prelude.Word.{u64_max}
use ttw.Timer.{Callback, empty, TimerManage, get_next_timer, list_expired_cbs}
use Events.{
  Event, no_event, on_read, on_write, Mask, no_events, meets, with_event, without_event, is_none,
}

pub record EventContext : Type 0 where
  pub cb : Callback
  pub coroutine : Option ℕ

pub record FdContext : Type 0 where
  pub fd : ℕ
  pub events : Mask
  pub read : EventContext
  pub write : EventContext

abbrev pub no_context : EventContext
no_context = record { cb = empty; coroutine = none }

abbrev pub new_context : ℕ → FdContext
new_context fd = record { fd = fd; events = no_events; read = no_context; write = no_context }

-- `getContext`, which throws for any event but the two.
unfoldable pub get_context : FdContext → Event → Option EventContext
get_context c on_read = some c.read
get_context c on_write = some c.write
get_context c no_event = none

abbrev pub set_context : FdContext → Event → EventContext → FdContext
set_context c on_read x = record c { read = x }
set_context c on_write x = record c { write = x }
set_context c no_event x = c

-- An entry of the queue of coroutines: a new one for a function, or one that waited.
pub data Task : Type 0 where
  spawn : Callback → Task
  resume : ℕ → Task

pub record IoScheduler : Type 0 where
  pub timer : TimerManage
  pub contexts : List (ℕ × FdContext)
  pub event_count : ℤ
  pub interest : List (ℕ × Mask)
  pub queue : List Task
  -- how often `notify` wrote to the pipe
  pub notified : ℕ
  pub stop : Bool

-- `CorScheduler::add` of a function: the empty one is dropped.
pub add_cb : Callback → IoScheduler → IoScheduler
add_cb empty s = s
add_cb cb s = record s { queue = s.queue ++ (spawn cb ∷ []); notified = suc s.notified }

-- `CorScheduler::add` of a coroutine.
pub add_coroutine : ℕ → IoScheduler → IoScheduler
add_coroutine c s = record s { queue = s.queue ++ (resume c ∷ []); notified = suc s.notified }

abbrev pub put : ℕ → FdContext → IoScheduler → IoScheduler
put fd c s = record s { contexts = assign fd c s.contexts }

-- `epoll_ctl` with the events that are to be watched from now on.
abbrev pub watch : ℕ → Mask → IoScheduler → IoScheduler
watch fd m s = record s {
  interest = if is_none m then remove fd s.interest else assign fd m s.interest;
}

-- A call that returns, with 0 or `true` for success, or throws `std::invalid_argument`.
pub data Outcome : Type 0 where
  returned : Bool → Outcome
  threw : Outcome

-- The context for a descriptor: the one in the map, or a new one that goes into it.
unfoldable pub obtain : ℕ → IoScheduler → FdContext × IoScheduler
obtain fd s = elim (find fd s.contexts) [
  | some c ↦ (record c { fd = fd }, put fd (record c { fd = fd }) s)
  | none ↦ (new_context fd, put fd (new_context fd) s)
]

-- The waiter of `addEvent`: the function, or else the running coroutine.
unfoldable pub wait_with : ℕ → Callback → EventContext → EventContext
wait_with current empty x = record x { coroutine = some current }
wait_with current cb x = record x { cb = cb }

-- The end of `addEvent`, once `epoll_ctl` has succeeded.
unfoldable pub register : ℕ → ℕ → Event → Callback → FdContext → IoScheduler → IoScheduler × Outcome
unfolding get_context wait_with
register current fd event cb c s =
    let joined = record c { events = with_event c.events event } in
    let counted = record s { event_count = incr s.event_count } in
    elim (get_context joined event) [
      | none ↦ (put fd joined counted, threw)
      | some x ↦ (put fd (set_context joined event (wait_with current cb x)) counted, returned true)
    ]

unfoldable pub add_event : Bool → ℕ → ℕ → Event → Callback → IoScheduler → IoScheduler × Outcome
unfolding obtain register
add_event ctl current fd event cb s =
    let (c, t) = obtain fd s in
    if meets c.events event
    then (t, threw)
    else if ctl
    then register current fd event cb c (watch fd (with_event c.events event) t)
    else (t, returned false)

pub delete_event_cb : ℕ → IoScheduler → IoScheduler
delete_event_cb fd s = record s { contexts = remove fd s.contexts }

-- The changed context, which goes if nothing is waited for.
pub put_or_delete : Bool → ℕ → FdContext → IoScheduler → IoScheduler
unfolding delete_event_cb
put_or_delete gone fd c s = if gone then delete_event_cb fd (put fd c s) else put fd c s

pub del_event : Bool → ℕ → Event → IoScheduler → IoScheduler × Bool
unfolding put_or_delete
del_event ctl fd event s = elim (find fd s.contexts) [
  | none ↦ (s, false)
  | some c ↦
      let left = without_event c.events event in
      if not (meets c.events event)
      then (s, false)
      else if ctl
      then (let d = set_context (record c { events = left }) event no_context in
          let t = watch fd left (record s { event_count = decr s.event_count }) in
          (put_or_delete (is_none d.events) fd d t, true))
      else (s, false)
]

-- What `triggerEvent` adds to the queue: the coroutine and the function of the event.
pub add_waiter : EventContext → IoScheduler → IoScheduler
unfolding add_cb add_coroutine
add_waiter x s = add_cb x.cb (elim x.coroutine [ none ↦ s | some c ↦ add_coroutine c s ])

-- `triggerEvent`: the event is no longer waited for, and its waiters go to the queue.
pub trigger_event : Event → FdContext × IoScheduler → FdContext × IoScheduler
unfolding get_context add_waiter
trigger_event event (c, s) =
    let d = record c { events = without_event c.events event } in
    elim (get_context c event) [ none ↦ (d, s) | some x ↦ (d, add_waiter x s) ]

-- `triggerEvent` and `--m_eventConut`
pub fire : Event → FdContext × IoScheduler → FdContext × IoScheduler
unfolding trigger_event
fire event p =
    let (d, t) = trigger_event event p in (d, record t { event_count = decr t.event_count })

pub cancel_event : Bool → ℕ → Event → IoScheduler → IoScheduler × Bool
unfolding fire put_or_delete
cancel_event ctl fd event s = elim (find fd s.contexts) [
  | none ↦ (s, false)
  | some c ↦
      if not (meets c.events event)
      then (s, false)
      else if ctl
      then (let (d, t) = fire event (c, watch fd (without_event c.events event) s) in
          (put_or_delete (is_none d.events) fd d t, true))
      else (s, false)
]

-- One of the two tests of `cancelAll`; the source has READ in both.
pub fire_read : FdContext × IoScheduler → FdContext × IoScheduler
unfolding fire
fire_read (c, s) = if meets c.events on_read then fire on_read (c, s) else (c, s)

pub cancel_all : Bool → ℕ → IoScheduler → IoScheduler × Bool
unfolding fire_read delete_event_cb
cancel_all ctl fd s = elim (find fd s.contexts) [
  | none ↦ (s, false)
  | some c ↦
      if is_none c.events
      then (s, false)
      else if ctl
      then (let (d, t) = fire_read (fire_read (c, watch fd no_events s)) in
          (delete_event_cb fd (put fd d t), true))
      else (s, false)
]

-- What `epoll_wait` reports: the pipe, or a descriptor with EPOLLIN, EPOLLOUT, EPOLLERR or EPOLLHUP.
pub data Report : Type 0 where
  pipe : Report
  ready : (fd : ℕ) (input output failed : Bool) → Report

-- `real`: the events that a report stands for, given those waited for.
pub real_events : Mask → Bool → Bool → Bool → Mask
real_events m input output failed = record {
  read = input || (failed && m.read);
  write = output || (failed && m.write);
}

pub fire_if : Mask → Event → FdContext × IoScheduler → FdContext × IoScheduler
unfolding fire
fire_if real event p = if meets real event then fire event p else p

-- A report on a context, from the test for nothing to do on.
pub dispatch_real : Bool → Mask → FdContext → IoScheduler → IoScheduler
unfolding fire_if put_or_delete
dispatch_real ctl real c s =
    let left : Mask = record {
      read = c.events.read && not real.read;
      write = c.events.write && not real.write;
    } in
    if not ((c.events.read && real.read) || (c.events.write && real.write))
    then s
    else if ctl
    then (let (d, t) = fire_if real on_write (fire_if real on_read (c, watch c.fd left s)) in
        put_or_delete (is_none left) c.fd d t)
    else s

-- The body of the loop over the reports; nothing where the context of a report was deleted.
pub dispatch : Bool → Report → IoScheduler → Option IoScheduler
unfolding real_events dispatch_real
dispatch ctl pipe s = some s
dispatch ctl (ready fd input output failed) s = elim (find fd s.contexts) [
  | none ↦ none
  | some c ↦ some (dispatch_real ctl (real_events c.events input output failed) c s)
]

pub dispatch_all : List (Bool × Report) → IoScheduler → Option IoScheduler
unfolding dispatch
dispatch_all [] s = some s
dispatch_all ((ctl, r) ∷ rs) s = elim (dispatch ctl r s) [
  | none ↦ none
  | some t ↦ dispatch_all rs t
]

-- `is_stop()` and `is_stop(timeout)`
pub is_stop : IoScheduler → Bool
is_stop s = s.stop && not (elim s.event_count [ pos n ↦ n == 0 | negsuc n ↦ false ])

pub is_stop_at : ℕ → IoScheduler → ℕ × Bool
unfolding is_stop
is_stop_at now s = let next = get_next_timer now s.timer in (next, next == u64_max && is_stop s)

-- `(int) n`
pub to_int : ℕ → ℤ
to_int n = let low = n % 2 ^ 32 in if ltb low (2 ^ 31) then pos low else negsuc (2 ^ 32 - 1 - low)

abbrev pub max_timeout : ℕ
max_timeout = 3000

-- The timeout that `wait` hands to `epoll_wait`.
pub poll_timeout : ℕ → ℤ
unfolding to_int
poll_timeout next = if next == u64_max then pos max_timeout else elim (to_int next) [
  | pos n ↦ if ltb max_timeout n then pos max_timeout else pos n
  | negsuc n ↦ negsuc n
]

pub add_all : List Callback → IoScheduler → IoScheduler
unfolding add_cb
add_all [] s = s
add_all (cb ∷ cbs) s = add_all cbs (add_cb cb s)

-- The timers of one round of `wait`.
pub expire_timers : ℕ → ℕ → IoScheduler → IoScheduler
unfolding add_all
expire_timers probe now s =
    let (m, cbs) = list_expired_cbs probe now s.timer [] in add_all cbs (record s { timer = m })

-- One round of `wait`, up to `swapOut`, if it does not stop at `before`; `epoll_wait` returns the
-- reports, and the timers are looked at at `after`.
pub wait_round : ℕ → ℕ → ℕ → List (Bool × Report) → IoScheduler → Option IoScheduler
unfolding is_stop_at expire_timers dispatch_all
wait_round probe before after reports s =
    if (is_stop_at before s).1 then some s else dispatch_all reports (expire_timers probe after s)
