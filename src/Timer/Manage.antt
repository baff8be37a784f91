-- ===== src/Timer/Manage.antt =====
-- The operations of `TimerManage` that add, cancel and move timers (ttw/timer.cc).
use ttw.Prelude.{
  ℕ, suc, ◌≡◌, refl, ◌≢◌, ◌↔◌, inl, inr, Bool, true, false, not, ◌&&◌, ◌||◌, Option, none, some,
  List, [], ◌∷◌, arith, ◌==◌, if◌then◌else◌, has, Bool-cases, ==_iff,
}
use ttw.Prelude.Word.{add64, sub64}
use ttw.Timer.{
  add_condition_timer, guarded, Heap, Timer, Callback, write, set_erase, set_insert, at_begin,
  TimerManage, timer_manage, add_ptr, add_timer, cancel_timer, refresh_timer, reset_erase,
  reset_timer,
}
use ttw.Timer.Order.{comp_irrefl, comp_asymm, comp_total}
use ttw.Timer.Set.{
  Sorted, set_find-has, has-set_insert, set_insert-Sorted, set_erase-Sorted, has-set_erase,
  write-Sorted,
}

-- The timers of a manager: in strict order of `Timer::Comp`, so with none twice, and none null.
pub record IsTimers (m : TimerManage) : Type 0 where
  pub sorted : Sorted m.heap m.timers
  pub no_null : has 0 m.timers ≡ false

pub timer_manage-IsTimers : (h : Heap) (now : ℕ) → IsTimers (timer_manage h now)
unfolding timer_manage
timer_manage-IsTimers h now = record { sorted = tt; no_null = refl }

pub add_ptr-IsTimers : (val : ℕ) (m : TimerManage) → val ≢ 0 → IsTimers m → IsTimers (add_ptr val m)
unfolding add_ptr
add_ptr-IsTimers val m nz is =
    ground
      (arith, set_insert-Sorted m.heap val m.timers is.sorted, has-set_insert m.heap 0 val m.timers)

-- The set holds the added timer and what it held; the heap is as it was.
pub has-add_ptr :
    (val a : ℕ) (m : TimerManage)
    → (has a (add_ptr val m).timers ≡ ((a == val) || has a m.timers))
      × ((add_ptr val m).heap ≡ m.heap)
unfolding add_ptr
has-add_ptr val a m = ground (arith, has-set_insert m.heap a val m.timers)

write-IsTimers :
    (p : ℕ) (t : Timer) (m : TimerManage)
    → has p m.timers ≡ false
    → IsTimers m
    → IsTimers (record m { heap = write m.heap p t })
write-IsTimers p t m out is = record {
  sorted = write-Sorted m.heap p t m.timers out is.sorted;
  no_null = is.no_null;
}

pub add_timer-IsTimers :
    (fresh now ms : ℕ) (cb : Callback) (recurring : Bool) (m : TimerManage)
    → fresh ≢ 0
    → has fresh m.timers ≡ false
    → IsTimers m
    → IsTimers (add_timer fresh now ms cb recurring m).0
unfolding add_timer
add_timer-IsTimers fresh now ms cb recurring m nz out is =
    add_ptr-IsTimers fresh _ nz (write-IsTimers fresh _ m out is)

pub add_condition_timer-IsTimers :
    (fresh now ms : ℕ) (cb : Callback) (weak_p : ℕ) (recurring : Bool) (m : TimerManage)
    → fresh ≢ 0
    → has fresh m.timers ≡ false
    → IsTimers m
    → IsTimers (add_condition_timer fresh now ms cb weak_p recurring m).0
unfolding add_condition_timer
add_condition_timer-IsTimers fresh now ms cb weak_p recurring =
    add_timer-IsTimers fresh now ms (guarded weak_p cb) recurring

pub add_condition_timer_new :
    (fresh now ms : ℕ) (cb : Callback) (weak_p : ℕ) (recurring : Bool) (m : TimerManage)
    → (add_condition_timer fresh now ms cb weak_p recurring m).1 ≡ fresh
unfolding add_condition_timer add_timer
add_condition_timer_new fresh now ms cb weak_p recurring m = refl

pub cancel_timer-IsTimers :
    (val : ℕ) (m : TimerManage) → IsTimers m → IsTimers (cancel_timer val m).0
unfolding cancel_timer
cancel_timer-IsTimers val m is = ground (
  arith,
  set_erase-Sorted m.heap val m.timers is.sorted,
  has-set_erase m.heap 0 val m.timers is.sorted,
)

-- A timer that was cancelled is not in the set.
pub has-cancel_timer :
    (val : ℕ) (m : TimerManage) → IsTimers m → has val (cancel_timer val m).0.timers ≡ false
unfolding cancel_timer
has-cancel_timer val m is =
    ground
      (arith, set_find-has m.heap val m.timers, has-set_erase m.heap val val m.timers is.sorted)

-- Erase a timer, write it anew.
erased-IsTimers :
    (val : ℕ) (t : Timer) (m : TimerManage)
    → IsTimers m
    → IsTimers (record m { heap = write m.heap val t; timers = set_erase m.heap val m.timers })
erased-IsTimers val t m is = record {
  sorted =
      write-Sorted m.heap val t (set_erase m.heap val m.timers)
        (ground (arith, has-set_erase m.heap val val m.timers is.sorted))
        (set_erase-Sorted m.heap val m.timers is.sorted);
  no_null = ground (arith, has-set_erase m.heap 0 val m.timers is.sorted, is.no_null);
}

found-ne-zero : (val : ℕ) (m : TimerManage) → IsTimers m → has val m.timers ≡ true → val ≢ 0
found-ne-zero val m is found e = ground (arith, is.no_null)

insert-IsTimers :
    (val : ℕ) (m : TimerManage)
    → val ≢ 0
    → IsTimers m
    → IsTimers (record m { timers = set_insert m.heap val m.timers })
insert-IsTimers val m nz is = record {
  sorted = set_insert-Sorted m.heap val m.timers is.sorted;
  no_null = ground (arith, has-set_insert m.heap 0 val m.timers, is.no_null);
}

pub refresh_timer-IsTimers :
    (now val : ℕ) (m : TimerManage) → IsTimers m → IsTimers (refresh_timer now val m).0
unfolding refresh_timer
refresh_timer-IsTimers now val m is = elim (Bool-cases (has val m.timers)) [
  | inl found ↦
      rw (set_find-has m.heap val m.timers, found)
        (insert-IsTimers val _ (found-ne-zero val m is found) (erased-IsTimers val _ m is))
  | inr gone ↦ rw (set_find-has m.heap val m.timers, gone) is
]

pub reset_erase-IsTimers :
    (now val ms : ℕ) (from_now : Bool) (m : TimerManage)
    → IsTimers m
    → IsTimers (reset_erase now val ms from_now m).0
unfolding reset_erase
reset_erase-IsTimers now val ms from_now m is = elim (Bool-cases (has val m.timers)) [
  | inl found ↦ rw (set_find-has m.heap val m.timers, found) (erased-IsTimers val _ m is)
  | inr gone ↦ rw (set_find-has m.heap val m.timers, gone) is
]

pub reset_timer-IsTimers :
    (now val ms : ℕ) (from_now : Bool) (m : TimerManage)
    → IsTimers m
    → IsTimers (reset_timer now val ms from_now m).0
unfolding reset_timer reset_erase
reset_timer-IsTimers now val ms from_now m is =
    elim (Bool-cases (ms == (m.heap val).ms && not from_now)) [
      | inl same ↦ rw same is
      | inr other ↦ elim (Bool-cases (has val m.timers)) [
        | inl found ↦
            rw (other, set_find-has m.heap val m.timers, found)
              (add_ptr-IsTimers val _ (found-ne-zero val m is found) (erased-IsTimers val _ m is))
        | inr gone ↦ rw (other, set_find-has m.heap val m.timers, gone) is
      ]
    ]

-- `cancelTimer` says whether the timer was there, and takes out that timer and no other.
pub cancel_timer_lem :
    (val a : ℕ) (m : TimerManage)
    → IsTimers m
    → ((cancel_timer val m).1 ≡ has val m.timers)
      × (has a (cancel_timer val m).0.timers ≡ (not (a == val) && has a m.timers))
unfolding cancel_timer
cancel_timer_lem val a m is = ground (
  arith,
  set_find-has m.heap val m.timers,
  has-set_erase m.heap a val m.timers is.sorted,
  ==_iff a val,
)

-- `refreshTimer` says whether the timer was there. The set holds what it held, and only a timer that
-- was there is due anew, its period from now.
pub refresh_timer_lem :
    (now val a : ℕ) (m : TimerManage)
    → IsTimers m
    → ((refresh_timer now val m).1 ≡ has val m.timers)
      × (has a (refresh_timer now val m).0.timers ≡ has a m.timers)
      × (((refresh_timer now val m).0.heap a).next
          ≡ (if a == val && has val m.timers then add64 now (m.heap a).ms else (m.heap a).next))
unfolding refresh_timer write
refresh_timer_lem now val a m is = ground (
  arith,
  set_find-has m.heap val m.timers,
  has-set_insert (write m.heap val (record (m.heap val) { next = add64 now (m.heap val).ms })) a val
      (set_erase m.heap val m.timers),
  has-set_erase m.heap a val m.timers is.sorted,
  ==_iff a val,
)

-- The time at which `resetTimer` starts the new period.
abbrev pub reset_base : ℕ → Bool → Timer → ℕ
reset_base now from_now t = if from_now then now else sub64 t.next t.ms

-- Where the timers are in order, `resetTimer` with no other operation between its two parts: a period that is the same
-- and is not to start now is a success that changes no timer. Else the result says whether the timer was there, and
-- a timer that was there has the new period from then on and is due one period after now, or after its last
-- start; it keeps its function, and no other timer changes. The set holds what it held, in order.
pub reset_timer_lem :
    (now val ms a : ℕ) (from_now : Bool) (m : TimerManage)
    → IsTimers m
    → let (n, done) = reset_timer now val ms from_now m in
      let same = ms == (m.heap val).ms && not from_now in
      (done ≡ (same || has val m.timers))
      × (has a n.timers ≡ has a m.timers)
      × (n.heap a ≡ (
          if a == val && (not same && has val m.timers)
          then record (m.heap a) { ms = ms; next = add64 (reset_base now from_now (m.heap a)) ms }
          else m.heap a))
      × IsTimers n
unfolding reset_timer reset_erase add_ptr write
reset_timer_lem now val ms a from_now m is = ground (
  reset_timer-IsTimers now val ms from_now m is,
  arith,
  set_find-has m.heap val m.timers,
  has-set_insert
      (write m.heap val (record (m.heap val) {
        ms = ms;
        next = add64 (if from_now then now else sub64 (m.heap val).next (m.heap val).ms) ms;
      }))
      a val (set_erase m.heap val m.timers),
  has-set_erase m.heap a val m.timers is.sorted,
  ==_iff a val,
)

abbrev pub first : List ℕ → Option ℕ
first [] = none
first (x ∷ xs) = some x

first-set_insert :
    (h : Heap) (x : ℕ) (ys : List ℕ)
    → (at_begin h x ys ≡ true) ↔ (first (set_insert h x ys) ≡ some x)
unfolding at_begin set_insert
first-set_insert h x [] = ground arith
first-set_insert h x (y ∷ ys) = ground (arith, comp_asymm h x y, comp_irrefl h x, comp_total h x y)

-- `addTimer` calls `notifyTimer`, once, exactly if the new timer is now the first.
pub add_ptr_notifies :
    (val : ℕ) (m : TimerManage)
    → ((add_ptr val m).notified ≡ suc m.notified) ↔ (first (add_ptr val m).timers ≡ some val)
unfolding add_ptr
add_ptr_notifies val m = ground (arith, first-set_insert m.heap val m.timers)
