-- ===== src/Io/Stale.antt =====
-- `addEvent` and `triggerEvent` of ttw/ioscheduler.cc: who is woken by an event.
use ttw.Prelude.{ℕ, ◌≡◌, refl, ap, ◌∙◌, true, false, Option, some, List, [], ◌∷◌, ◌++◌}
use ttw.Prelude.Dict.{find, nat_key, find-assign_self}
use ttw.Timer.{Callback, call}
use ttw.Io.Events.{Event, on_read, on_write, no_event, meets, with_event, without_event}
use ttw.Io.{
  FdContext, Task, spawn, resume, IoScheduler, obtain, register, add_event, get_context, wait_with,
  cancel_event, fire, trigger_event, put_or_delete,
}
use ttw.Io.Cancel.{cancel_event-queue, waiters, resumed, spawned}

-- The context once an event is registered on it.
abbrev pub joined : ℕ → Event → ℕ → Callback → FdContext → FdContext
joined fd on_read current cb c = record c {
  fd = fd;
  events = with_event c.events on_read;
  read = wait_with current cb c.read;
}
joined fd on_write current cb c = record c {
  fd = fd;
  events = with_event c.events on_write;
  write = wait_with current cb c.write;
}
joined fd no_event current cb c = c

-- What `addEvent` leaves, if the event is not waited for and `epoll_ctl` succeeds.
add_event-find :
    (current fd : ℕ) (event : Event) (cb : Callback) (c : FdContext) (s : IoScheduler)
    → find fd s.contexts ≡ some c
    → meets c.events event ≡ false
    → meets (with_event c.events event) event ≡ true
    → let t = (add_event true current fd event cb s).0 in
      (find fd t.contexts ≡ some (joined fd event current cb c)) × (t.queue ≡ s.queue)
unfolding add_event obtain register get_context
add_event-find current fd no_event cb c s e free some_event = cc
add_event-find current fd on_read cb c s e free some_event =
    rw (e, obtain, free) (find-assign_self fd _ _, refl)
add_event-find current fd on_write cb c s e free some_event =
    rw (e, obtain, free) (find-assign_self fd _ _, refl)

meets-joined :
    (current fd : ℕ) (event : Event) (cb : Callback) (c : FdContext)
    → meets (with_event c.events event) event ≡ true
    → meets (joined fd event current cb c).events event ≡ true
meets-joined current fd no_event cb c h = h
meets-joined current fd on_read cb c h = refl
meets-joined current fd on_write cb c h = refl

-- A new wait on a descriptor that has a context with nothing waiting for the event: when the event is
-- then cancelled, its waiters are those of `addEvent` on top of what an earlier wait left in the context.
pub add_event-cancel_event :
    (current fd : ℕ) (event : Event) (cb : Callback) (c : FdContext) (s : IoScheduler)
    → find fd s.contexts ≡ some c
    → meets c.events event ≡ false
    → meets (with_event c.events event) event ≡ true
    → (cancel_event true fd event (add_event true current fd event cb s).0).0.queue
      ≡ s.queue ++ waiters (joined fd event current cb c) event
add_event-cancel_event current fd event cb c s e free some_event =
    let t = (add_event true current fd event cb s).0 in
    let (there, same) = add_event-find current fd event cb c s e free some_event in
    (cancel_event-queue fd event (joined fd event current cb c) t there
      (meets-joined current fd event cb c some_event)).1
    ∙ ap (λ (q : List Task). q ++ waiters (joined fd event current cb c) event) same

-- `cancelEvent` for READ where WRITE is waited for too: only the event leaves the context, which keeps its waiters.
cancel_event-find :
    (fd : ℕ) (c : FdContext) (s : IoScheduler)
    → find fd s.contexts ≡ some c
    → c.events.read ≡ true
    → c.events.write ≡ true
    → find fd (cancel_event true fd on_read s).0.contexts
      ≡ some (record c { events = without_event c.events on_read })
unfolding cancel_event fire trigger_event get_context put_or_delete
cancel_event-find fd c s e reads writes =
    rw (e, cancel_event, reads, writes) (find-assign_self fd _ _)

-- Where READ and WRITE of a descriptor are waited for, and a coroutine waits for READ: `cancelEvent` for READ,
-- `addEvent` for READ with a function, and `cancelEvent` for READ again, with every `epoll_ctl` a success, queue the
-- coroutine twice: with the function that waited beside it, and once more with the new function.
pub cancel_event_resumes_twice :
    (current fd f k : ℕ) (c : FdContext) (s : IoScheduler)
    → find fd s.contexts ≡ some c
    → c.events.read ≡ true
    → c.events.write ≡ true
    → c.read.coroutine ≡ some k
    → let t = (cancel_event true fd on_read s).0 in
      (cancel_event true fd on_read (add_event true current fd on_read (call f) t).0).0.queue
      ≡ (s.queue ++ (resume k ∷ spawned c.read.cb)) ++ (resume k ∷ spawn (call f) ∷ [])
unfolding wait_with
cancel_event_resumes_twice current fd f k c s e reads writes waits =
    let t = (cancel_event true fd on_read s).0 in
    let d = record c { events = without_event c.events on_read } in
    let again =
      add_event-cancel_event current fd on_read (call f) d t
        (cancel_event-find fd c s e reads writes) refl refl in
    again
    ∙ ap (λ (o : Option ℕ). t.queue ++ (resumed o ++ (spawn (call f) ∷ []))) waits
    ∙ ap (λ (q : List Task). q ++ (resume k ∷ spawn (call f) ∷ []))
        ((cancel_event-queue fd on_read c s e reads).1
          ∙ ap (λ (o : Option ℕ). s.queue ++ (resumed o ++ spawned c.read.cb)) waits)
