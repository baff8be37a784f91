-- ===== src/Timer.antt =====
-- ttw/timer.h and ttw/timer.cc: `Timer`, its order `Timer::Comp`, and `TimerManage`.
-- A `Timer::ptr` is an address of the heap of timers, 0 the null pointer; the `std::set` of them is
-- the list of its elements in order. What `GetCurrentMs` returns is the argument `now` of each
-- operation, the address that `new` returns the argument `fresh`; the locks make each operation one step.
pub mod Order
pub mod Set
pub mod Manage
pub mod Expire
pub mod Rearm
pub mod Wait
pub mod Reach
mod Tests
use ttw.Prelude.{
  ℕ, suc, ◌+◌, ◌-◌, Bool, true, false, ◌&&◌, not, Option, none, some, List, [], ◌∷◌, ◌++◌, ltb, leb,
  ◌==◌, if◌then◌else◌, length, take, replicate,
}
use ttw.Prelude.Word.{u64_max, add64, sub64}

-- A `std::function<void()>`: empty, a function of the program named by a number, or the function
-- that `std::bind(&runTimer, weak_p, cb)` makes.
pub data Callback : Type 0 where
  empty : Callback
  call : ℕ → Callback
  guarded : ℕ → Callback → Callback

pub record Timer : Type 0 where
  pub ms : ℕ
  pub cb : Callback
  pub recurr : Bool
  pub next : ℕ

abbrev pub Heap : Type 0
Heap = ℕ → Timer

pub write : Heap → ℕ → Timer → Heap
write h p t q = if q == p then t else h q

-- The two constructors of `Timer`.
pub make_timer : ℕ → ℕ → Callback → Bool → Timer
make_timer now ms cb recurring = record {
  ms = ms;
  cb = cb;
  recurr = recurring;
  next = add64 now ms;
}

pub make_probe : ℕ → Timer
make_probe ms = record { ms = 0; cb = empty; recurr = false; next = ms }

-- `Timer::Comp`
pub comp : Heap → ℕ → ℕ → Bool
comp h l r =
    if l == 0 && r == 0
    then false
    else if l == 0
    then true
    else if r == 0
    then false
    else if ltb (h l).next (h r).next
    then true
    else if ltb (h r).next (h l).next
    then false
    else ltb l r

-- What the source uses of `std::set`, whose keys are equivalent if neither is less.
abbrev pub equivalent : Heap → ℕ → ℕ → Bool
equivalent h x y = not (comp h x y) && not (comp h y x)

pub set_find : Heap → ℕ → List ℕ → Bool
set_find h x [] = false
set_find h x (y ∷ ys) = if equivalent h x y then true else set_find h x ys

pub set_erase : Heap → ℕ → List ℕ → List ℕ
set_erase h x [] = []
set_erase h x (y ∷ ys) = if equivalent h x y then ys else y ∷ set_erase h x ys

pub set_insert : Heap → ℕ → List ℕ → List ℕ
set_insert h x [] = x ∷ []
set_insert h x (y ∷ ys) =
    if comp h x y then x ∷ y ∷ ys else if comp h y x then y ∷ set_insert h x ys else y ∷ ys

-- `insert(x).first == begin()`
pub at_begin : Heap → ℕ → List ℕ → Bool
at_begin h x [] = true
at_begin h x (y ∷ ys) = not (comp h y x)

-- The elements before `lower_bound(x)`, and those from it on.
pub lower_bound : Heap → ℕ → List ℕ → List ℕ × List ℕ
lower_bound h x [] = ([], [])
lower_bound h x (y ∷ ys) =
    let (front, back) = lower_bound h x ys in if comp h y x then (y ∷ front, back) else ([], y ∷ ys)

pub record TimerManage : Type 0 where
  pub heap : Heap
  pub timers : List ℕ
  pub pre_time : ℕ
  -- how often `notifyTimer` was called
  pub notified : ℕ

pub timer_manage : Heap → ℕ → TimerManage
timer_manage h now = record { heap = h; timers = []; pre_time = now; notified = 0 }

-- `addTimer(Timer::ptr)`
pub add_ptr : ℕ → TimerManage → TimerManage
unfolding set_insert at_begin
add_ptr val m =
    let added = record m { timers = set_insert m.heap val m.timers } in
    if at_begin m.heap val m.timers then record added { notified = suc m.notified } else added

-- `addTimer(ms, cb, recurring)`: the new state and the new timer.
pub add_timer : ℕ → ℕ → ℕ → Callback → Bool → TimerManage → TimerManage × ℕ
unfolding add_ptr make_timer
add_timer fresh now ms cb recurring m =
    (add_ptr fresh (record m { heap = write m.heap fresh (make_timer now ms cb recurring) }), fresh)

pub add_condition_timer : ℕ → ℕ → ℕ → Callback → ℕ → Bool → TimerManage → TimerManage × ℕ
unfolding add_timer
add_condition_timer fresh now ms cb weak_p recurring =
    add_timer fresh now ms (guarded weak_p cb) recurring

-- A call of a callback while the objects with `alive` exist: the functions that run, and nothing for
-- the call of an empty `std::function`, which throws. At `guarded` it is `runTimer`.
pub invoke : (ℕ → Bool) → Callback → Option (List ℕ)
invoke alive empty = none
invoke alive (call f) = some (f ∷ [])
invoke alive (guarded w cb) = let ran = invoke alive cb in if alive w then ran else some []

pub cancel_timer : ℕ → TimerManage → TimerManage × Bool
unfolding set_find set_erase
cancel_timer val m =
    if set_find m.heap val m.timers
    then (record m { timers = set_erase m.heap val m.timers }, true)
    else (m, false)

pub refresh_timer : ℕ → ℕ → TimerManage → TimerManage × Bool
unfolding set_find set_erase set_insert
refresh_timer now val m =
    if set_find m.heap val m.timers
    then (let t = m.heap val in
        let h = write m.heap val (record t { next = add64 now t.ms }) in
        (record m { heap = h; timers = set_insert h val (set_erase m.heap val m.timers) }, true))
    else (m, false)

-- The part of `resetTimer` under its lock, which it gives up before it calls `addTimer`.
pub reset_erase : ℕ → ℕ → ℕ → Bool → TimerManage → TimerManage × Bool
unfolding set_find set_erase
reset_erase now val ms from_now m =
    let t = m.heap val in
    if set_find m.heap val m.timers
    then (let base = if from_now then now else sub64 t.next t.ms in
        let h = write m.heap val (record t { ms = ms; next = add64 base ms }) in
        (record m { heap = h; timers = set_erase m.heap val m.timers }, true))
    else (m, false)

-- The run in which no other operation comes in between.
pub reset_timer : ℕ → ℕ → ℕ → Bool → TimerManage → TimerManage × Bool
unfolding reset_erase add_ptr
reset_timer now val ms from_now m =
    if ms == (m.heap val).ms && not from_now
    then (m, true)
    else (let (n, there) = reset_erase now val ms from_now m in
        if there then (add_ptr val n, true) else (n, false))

pub get_next_timer : ℕ → TimerManage → ℕ
get_next_timer now m = elim m.timers [
  | [] ↦ u64_max
  | p ∷ rest ↦ let next = (m.heap p).next in if leb next now then 0 else next - now
]

pub empty_timer : TimerManage → Bool
empty_timer m = elim m.timers [ [] ↦ true | p ∷ rest ↦ false ]

-- The loop `while(it != end() && (*it)->m_next == now) ++it`: what it passes, and what is left.
pub skip_equal : Heap → ℕ → List ℕ → List ℕ × List ℕ
skip_equal h now [] = ([], [])
skip_equal h now (y ∷ ys) =
    let (front, back) = skip_equal h now ys in
    if (h y).next == now then (y ∷ front, back) else ([], y ∷ ys)

-- `cbs.resize(n)`
pub resize : ℕ → List Callback → List Callback
resize n cbs = take n cbs ++ replicate (n - length cbs) empty

-- The loop over the expired timers, and its body but for the `push_back`.
pub rearm_one : ℕ → ℕ → TimerManage → TimerManage
unfolding set_insert
rearm_one now p m =
    let t = m.heap p in
    let h = write m.heap p (record t { next = add64 now t.ms }) in
    if t.recurr then record m { heap = h; timers = set_insert h p m.timers } else m

pub rearm : ℕ → List ℕ → TimerManage → List Callback → TimerManage × List Callback
unfolding rearm_one
rearm now [] m cbs = (m, cbs)
rearm now (p ∷ ps) m cbs = rearm now ps (rearm_one now p m) (cbs ++ ((m.heap p).cb ∷ []))

-- The part of `listExpiredCbs` under the write lock. The probe is the timer `now_timer`.
pub collect : ℕ → ℕ → TimerManage → List Callback → TimerManage × List Callback
unfolding lower_bound skip_equal resize rearm make_probe
collect probe now m cbs =
    let h = write m.heap probe (make_probe now) in
    let (before, rest) = lower_bound h probe m.timers in
    let (equal, later) = skip_equal h now rest in
    let expired = before ++ equal in
    rearm now expired (record m { heap = h; timers = later }) (resize (length expired) cbs)

pub list_expired_cbs : ℕ → ℕ → TimerManage → List Callback → TimerManage × List Callback
unfolding collect
list_expired_cbs probe now m cbs = elim m.timers [
  | [] ↦ (m, cbs)
  | p ∷ rest ↦ if ltb now (m.heap p).next then (m, cbs) else collect probe now m cbs
]
