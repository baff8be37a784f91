-- ===== src/Timer/Reach.antt =====
-- Histories of a `TimerManage`: every operation of ttw/timer.cc that changes it, in any order.
use ttw.Prelude.{ℕ, ◌≡◌, ◌≢◌, inl, inr, Bool, false, List, has, subst, sym}
use ttw.Timer.{
  Heap, Callback, TimerManage, timer_manage, add_ptr, add_timer, add_condition_timer, cancel_timer,
  refresh_timer, reset_erase, reset_timer, list_expired_cbs,
}
use ttw.Timer.Manage.{
  IsTimers, timer_manage-IsTimers, add_ptr-IsTimers, add_timer-IsTimers, cancel_timer-IsTimers,
  refresh_timer-IsTimers, reset_erase-IsTimers, reset_timer-IsTimers,
}
use ttw.Timer.Wait.{list_expired_cbs_lem}

-- `new` returns an address that is not null and that no timer of the set has.
abbrev pub Fresh : ℕ → TimerManage → Type 0
Fresh p m = (p ≢ 0) × (has p m.timers ≡ false)

-- `resetTimer` is in one step, or in its two parts with other operations between them: `reset_first`, and then
-- `add_existing`.
pub data Step (m : TimerManage) : TimerManage → Type 0 where
  add_existing : (val : ℕ) → val ≢ 0 → Step m (add_ptr val m)
  add :
      (fresh now ms : ℕ) (cb : Callback) (recurring : Bool)
      → Fresh fresh m
      → Step m (add_timer fresh now ms cb recurring m).0
  add_condition :
      (fresh now ms : ℕ) (cb : Callback) (weak_p : ℕ) (recurring : Bool)
      → Fresh fresh m
      → Step m (add_condition_timer fresh now ms cb weak_p recurring m).0
  cancel : (val : ℕ) → Step m (cancel_timer val m).0
  refresh : (now val : ℕ) → Step m (refresh_timer now val m).0
  reset_first : (now val ms : ℕ) (from_now : Bool) → Step m (reset_erase now val ms from_now m).0
  reset : (now val ms : ℕ) (from_now : Bool) → Step m (reset_timer now val ms from_now m).0
  expire :
      (probe now : ℕ) (cbs : List Callback)
      → Fresh probe m
      → Step m (list_expired_cbs probe now m cbs).0

pub data Reach (m : TimerManage) : TimerManage → Type 0 where
  here : Reach m m
  next : {n k : TimerManage} → Reach m n → Step n k → Reach m k

Step-IsTimers : {m n : TimerManage} → Step m n → IsTimers m → IsTimers n
unfolding add_condition_timer
Step-IsTimers {m} (add_existing val nz) is = add_ptr-IsTimers val m nz is
Step-IsTimers {m} (add fresh now ms cb recurring f) is =
    add_timer-IsTimers fresh now ms cb recurring m f.0 f.1 is
Step-IsTimers {m} (add_condition fresh now ms cb weak_p recurring f) is =
    add_timer-IsTimers fresh now ms _ recurring m f.0 f.1 is
Step-IsTimers {m} (cancel val) is = cancel_timer-IsTimers val m is
Step-IsTimers {m} (refresh now val) is = refresh_timer-IsTimers now val m is
Step-IsTimers {m} (reset_first now val ms from_now) is =
    reset_erase-IsTimers now val ms from_now m is
Step-IsTimers {m} (reset now val ms from_now) is = reset_timer-IsTimers now val ms from_now m is
Step-IsTimers {m} (expire probe now cbs f) is =
    elim (list_expired_cbs_lem probe now m cbs f.0 f.1 is) [
      | inl (_, e) ↦ subst (λ r. IsTimers r.0) (sym e) is
      | inr (_, r) ↦ r.invariant
    ]

Reach-keeps : {m n : TimerManage} → Reach m n → IsTimers m → IsTimers n
Reach-keeps here is = is
Reach-keeps (next r s) is = Step-IsTimers s (Reach-keeps r is)

-- After any history of `addTimer`, `addConditionTimer`, `cancelTimer`, `refreshTimer`, `resetTimer`, also with other
-- operations between its two parts, and `listExpiredCbs` from the constructor on, with fresh addresses from
-- `new`, the timers are in the strict order of `Timer::Comp` by their present times, none is held twice,
-- and none is null.
pub Reach-IsTimers :
    (h : Heap) (now : ℕ) {m : TimerManage} → Reach (timer_manage h now) m → IsTimers m
Reach-IsTimers h now r = Reach-keeps r (timer_manage-IsTimers h now)
