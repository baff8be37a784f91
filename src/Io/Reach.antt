-- ===== src/Io/Reach.antt =====
-- Histories of an `IOScheduler` (ttw/ioscheduler.cc), and the counter along them.
use ttw.Prelude.{ℕ, ◌≡◌, ◌≢◌, ◌∙◌, Bool, false, some, List, sym, subst}
use ttw.Prelude.Dict.{find, nat_key}
use ttw.Timer.{Callback, TimerManage}
use ttw.Io.Events.{Event, no_event}
use ttw.Io.{
  IoScheduler, FdContext, Task, add_event, del_event, cancel_event, cancel_all, dispatch, ready,
}
use ttw.Io.Count.{IsCounted, add_event-IsCounted, del_event-IsCounted, cancel_event-IsCounted}
use ttw.Io.Cancel.{cancel_all-IsCounted}
use ttw.Io.Ready.{Reported, dispatch-IsCounted}

-- `other` stands for what touches the timers, the queue and the stop flag alone.
pub data Step (s : IoScheduler) : IoScheduler → Type 0 where
  add :
      (ctl : Bool) (current fd : ℕ) (event : Event) (cb : Callback)
      → event ≢ no_event
      → Step s (add_event ctl current fd event cb s).0
  del : (ctl : Bool) (fd : ℕ) (event : Event) → Step s (del_event ctl fd event s).0
  cancel : (ctl : Bool) (fd : ℕ) (event : Event) → Step s (cancel_event ctl fd event s).0
  cancels :
      (ctl : Bool) (fd : ℕ)
      → ((c : FdContext) → find fd s.contexts ≡ some c → c.events.write ≡ false)
      → Step s (cancel_all ctl fd s).0
  report :
      {t : IoScheduler} (ctl : Bool) (fd : ℕ) (input output failed : Bool) (c : FdContext)
      → find fd s.contexts ≡ some c
      → Reported c.events input output
      → dispatch ctl (ready fd input output failed) s ≡ some t
      → Step s t
  other :
      (m : TimerManage) (q : List Task) (n : ℕ) (stop : Bool)
      → Step s (record s { timer = m; queue = q; notified = n; stop = stop })

pub data Reach (s : IoScheduler) : IoScheduler → Type 0 where
  here : Reach s s
  next : {t u : IoScheduler} → Reach s t → Step t u → Reach s u

same_state : {s t : IoScheduler} → some s ≡ some t → s ≡ t
same_state e = cc

Step-IsCounted : {s t : IoScheduler} → Step s t → IsCounted s → IsCounted t
Step-IsCounted {s} (add ctl current fd event cb ne) is =
    add_event-IsCounted ctl current fd event cb s ne is
Step-IsCounted {s} (del ctl fd event) is = del_event-IsCounted ctl fd event s is
Step-IsCounted {s} (cancel ctl fd event) is = cancel_event-IsCounted ctl fd event s is
Step-IsCounted {s} (cancels ctl fd free) is = cancel_all-IsCounted ctl fd s free is
Step-IsCounted {s} (report ctl fd input output failed c e r ran) is =
    let (t, went, kept) = dispatch-IsCounted ctl fd input output failed c s is e r in
    subst IsCounted (same_state (sym went ∙ ran)) kept
Step-IsCounted {s} (other m q n stop) is = record {
  distinct = is.distinct;
  placed = is.placed;
  count = is.count;
}

-- Along every history of calls of `addEvent` for READ or WRITE, `delEvent`, `cancelEvent`, reports
-- of `epoll_wait`, and `cancelAll` on descriptors that WRITE is not waited for on, the counter is the number of
-- events waited for, and each descriptor has one context, stored under it.
pub Reach-IsCounted : {s t : IoScheduler} → Reach s t → IsCounted s → IsCounted t
Reach-IsCounted here is = is
Reach-IsCounted (next r st) is = Step-IsCounted st (Reach-IsCounted r is)
