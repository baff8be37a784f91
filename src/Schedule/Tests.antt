-- ===== src/Schedule/Tests.antt =====
-- A scheduler of ttw/corscheduler.cc with three coroutines, and the theorems at it.
use ttw.Prelude.{ℕ, ◌≡◌, refl, [], ◌∷◌, arith, ◌==◌, if◌then◌else◌, append_nil, sym, if_false, ◌≢◌}
use ttw.Schedule.{init, ready, running, CorScheduler, set_state}
use ttw.Schedule.Fair.{IsFair, Taken, taken}

-- Every turn ends by ToReady.
abbrev yields : ℕ → CorScheduler → CorScheduler
yields d s = set_state d ready s

yields-IsFair : IsFair yields
yields-IsFair = record {
  adds = λ d s. ([], sym (append_nil s.coroutines), refl);
  leaves = λ d c s n. other c d s n;
}
  where
    other : (c d : ℕ) (s : CorScheduler) → c ≢ d → (yields d s).state c ≡ s.state c
    other c d s n = if_false {b = c == d} _ _ (ground (arith, n))

abbrev three : CorScheduler
three = record {
  coroutines = 1 ∷ 2 ∷ 3 ∷ [];
  state = λ d. if d == 1 then running else init;
  work_threads_count = 0;
  idle_threads_count = 0;
  notified = 0;
}

taken_example : Taken yields yields-IsFair 9 2 3 three
taken_example = taken yields yields-IsFair 9 2 (1 ∷ 2 ∷ []) [] 3 three (omega arith) refl refl refl
