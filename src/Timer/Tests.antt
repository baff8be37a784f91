-- ===== src/Timer/Tests.antt =====
-- Runs of the timers, and the theorems on them at a manager with three timers.
use ttw.Prelude.{◌≤◌, ◌≡◌, refl, ◌≢◌, ◌↔◌, true, false, [], ◌∷◌, arith, ◌==◌, if◌then◌else◌, has}
use ttw.Timer.{
  Heap, empty, call, comp, write, make_timer, TimerManage, add_timer, cancel_timer, get_next_timer,
  list_expired_cbs, collect, timer_manage, reset_timer,
}
use ttw.Timer.Manage.{IsTimers, reset_timer_lem}
use ttw.Timer.Expire.{due}
use ttw.Timer.Rearm.{Expired, collect-Expired}
use ttw.Timer.Reach.{Reach-IsTimers, here, next, add, cancel}
use ttw.Timer.Wait.{get_next_timer_iff}

-- Timer 1 is due at 100, timer 2 at 50 and recurring, timer 3 at 70.
abbrev heap : Heap
heap p =
    if p == 1
    then make_timer 0 100 (call 10) false
    else if p == 2
    then make_timer 0 50 (call 20) true
    else make_timer 0 70 (call 30) false

abbrev manager : TimerManage
manager = record { heap = heap; timers = 2 ∷ 3 ∷ 1 ∷ []; pre_time = 0; notified = 0 }

manager-IsTimers : IsTimers manager
unfolding comp make_timer
manager-IsTimers = record { sorted = (refl, (refl, tt)); no_null = refl }

-- At 80 timers 2 and 3 expire, and timer 2 is due again at 130, behind timer 1.
expires : (list_expired_cbs 9 80 manager []).0.timers ≡ 1 ∷ 2 ∷ []
unfolding list_expired_cbs collect comp make_timer write
expires = refl

hands_out : (list_expired_cbs 9 80 manager []).1 ≡ empty ∷ empty ∷ call 20 ∷ call 30 ∷ []
unfolding list_expired_cbs comp make_timer write
hands_out = refl

waits : get_next_timer 20 manager ≡ 30
unfolding get_next_timer make_timer
waits = refl

some_due : due heap 80 (2 ∷ 3 ∷ 1 ∷ []) ≡ 2 ∷ 3 ∷ []
unfolding due make_timer
some_due = refl

collect-Expired_example : Expired 9 80 manager [] (collect 9 80 manager [])
collect-Expired_example = collect-Expired 9 80 manager (omega arith) refl manager-IsTimers []

get_next_timer_iff_example : (get_next_timer 20 manager ≤ 30) ↔ (due heap 50 (2 ∷ 3 ∷ 1 ∷ []) ≢ [])
get_next_timer_iff_example = get_next_timer_iff 20 30 manager manager-IsTimers (λ e. cc)

Reach-IsTimers_example :
    IsTimers (cancel_timer 1 (add_timer 1 0 100 (call 10) false (timer_manage heap 0)).0).0
unfolding timer_manage
Reach-IsTimers_example =
    Reach-IsTimers heap 0
      (next (next here (add 1 0 100 (call 10) false (omega arith, refl))) (cancel 1))

-- Timer 1, due at 100, gets the period 20 from its start at 0.
reset_timer_lem_example :
    let (n, done) = reset_timer 60 1 20 false manager in
    (done ≡ true)
    × (has 1 n.timers ≡ true)
    × (n.heap 1 ≡ record (heap 1) { ms = 20; next = 20 })
    × IsTimers n
unfolding make_timer
reset_timer_lem_example = reset_timer_lem 60 1 20 1 false manager manager-IsTimers
