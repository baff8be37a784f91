-- ===== src/Schedule.antt =====
-- The loop of `CorScheduler::run` in ttw/corscheduler.cc with the states of ttw/coroutine.h, in one thread.
-- A `Coroutine::ptr` is an address, 0 the null pointer. What the code of a coroutine does between its `swapIn` and the
-- `swapOut` that ends its turn is the parameter `turn`; it can add to the queue and change states.
pub mod Picks
pub mod Fair
mod Tests
use ttw.Prelude.{
  ℕ, zero, suc, ◌+◌, ◌-◌, Bool, true, false, not, Option, none, some, List, [], ◌∷◌, ◌++◌, ◌==◌,
  if◌then◌else◌,
}

-- `Coroutine::CoState`
pub data CoState : Type 0 where
  init : CoState
  ready : CoState
  running : CoState
  suspended : CoState
  finiah : CoState
  except : CoState

abbrev pub is_running : CoState → Bool
is_running running = true
is_running _ = false

abbrev pub has_ended : CoState → Bool
has_ended finiah = true
has_ended except = true
has_ended _ = false

pub record CorScheduler : Type 0 where
  pub coroutines : List ℕ
  pub state : ℕ → CoState
  pub work_threads_count : ℕ
  pub idle_threads_count : ℕ
  pub notified : ℕ

abbrev pub set_state : ℕ → CoState → CorScheduler → CorScheduler
set_state c v s = record s { state = λ d. if d == c then v else s.state d }

-- `add`
abbrev pub add : ℕ → CorScheduler → CorScheduler
add c s = record s { coroutines = s.coroutines ++ (c ∷ []); notified = suc s.notified }

abbrev pub passed : ℕ → Option (Option ℕ × List ℕ) → Option (Option ℕ × List ℕ)
passed c none = none
passed c (some (o, rest)) = some (o, c ∷ rest)

-- The search of the queue: the coroutine, if there is one, and the queue without it; none where the loop goes on from the
-- iterator of a null pointer that it erased.
unfoldable pub pick : (ℕ → CoState) → List ℕ → Option (Option ℕ × List ℕ)
pick state [] = some (none, [])
pick state (c ∷ q) =
    let more = passed c (pick state q) in
    if c == 0 then none else if is_running (state c) then more else some (some c, q)

-- `swapIn`, up to the end of the turn.
abbrev pub swap_in : (ℕ → CorScheduler → CorScheduler) → ℕ → CorScheduler → CorScheduler
swap_in turn c s = turn c (set_state c running s)

abbrev pub after_turn : ℕ → CoState → CorScheduler → CorScheduler
after_turn c ready s = add c s
after_turn c finiah s = s
after_turn c except s = s
after_turn c _ s = set_state c suspended s

abbrev pub work : (ℕ → CorScheduler → CorScheduler) → ℕ → CorScheduler → CorScheduler
work turn c s =
    let t = swap_in turn c s in
    let u = record t { work_threads_count = t.work_threads_count - 1 } in after_turn c (u.state c) u

abbrev pub idle : (ℕ → CorScheduler → CorScheduler) → ℕ → CorScheduler → CorScheduler
idle turn c s =
    let t = swap_in turn c (record s { idle_threads_count = suc s.idle_threads_count }) in
    let u = record t { idle_threads_count = t.idle_threads_count - 1 } in
    if has_ended (u.state c) then u else set_state c suspended u

abbrev pub picked :
    (ℕ → CorScheduler → CorScheduler) → ℕ → CorScheduler → Option ℕ × List ℕ → CorScheduler
picked turn idle_cor s (none, q) = idle turn idle_cor (record s { coroutines = q })
picked turn idle_cor s (some c, q) =
    let t = record s {
      coroutines = q;
      work_threads_count = suc s.work_threads_count;
      notified = suc s.notified;
    } in
    if has_ended (s.state c)
    then record t { work_threads_count = t.work_threads_count - 1 }
    else work turn c t

-- A round of the loop of `run`; `idle_cor` is the coroutine of `wait`.
unfoldable pub round : (ℕ → CorScheduler → CorScheduler) → ℕ → CorScheduler → Option CorScheduler
unfolding pick
round turn idle_cor s = elim (pick s.state s.coroutines) [
  | none ↦ none
  | some x ↦ some (picked turn idle_cor s x)
]

unfoldable pub rounds :
    (ℕ → CorScheduler → CorScheduler) → ℕ → ℕ → CorScheduler → Option CorScheduler
rounds turn idle_cor zero s = some s
rounds turn idle_cor (suc n) s = elim (round turn idle_cor s) [
  | none ↦ none
  | some t ↦ rounds turn idle_cor n t
]
