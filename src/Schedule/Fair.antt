-- ===== src/Schedule/Fair.antt =====
-- Every coroutine of the queue gets its turn in `CorScheduler::run` (ttw/corscheduler.cc).
use ttw.Prelude.{
  ℕ, zero, suc, ◌-◌, ◌≤◌, ◌≡◌, ◌≢◌, refl, true, false, Option, none, some, List, [], ◌∷◌, ◌++◌,
  arith, ◌==◌, if_true, if_false, length, length-append, has, has-append, append_nil, append_assoc,
  sym, ap, ◌∙◌, Bool-cases, inl, inr, ◌⊎◌, subst,
}
use ttw.Schedule.{
  CoState, init, ready, running, suspended, finiah, except, is_running, has_ended, CorScheduler,
  set_state, pick, swap_in, after_turn, work, picked, round, rounds,
}
use ttw.Schedule.Picks.{all_running, pick-split, first_free}

-- In its turn a coroutine only adds coroutines at the end of the queue, none of them null, and changes no state but its own.
pub record IsFair (turn : ℕ → CorScheduler → CorScheduler) : Type 0 where
  pub adds :
      (d : ℕ) (s : CorScheduler)
      → (more : List ℕ) × ((turn d s).coroutines ≡ s.coroutines ++ more) × (has 0 more ≡ false)
  pub leaves : (d c : ℕ) (s : CorScheduler) → c ≢ d → (turn d s).state c ≡ s.state c

-- What is behind the queue in the new state, and the states of the others.
Keeps : ℕ → List ℕ → (ℕ → CoState) → CorScheduler → Type 0
Keeps d q state t =
    (more : List ℕ) × (t.coroutines ≡ q ++ more)
    × (has 0 more ≡ false)
    × ((c : ℕ) → c ≢ d → t.state c ≡ state c)

abbrev pub Turn : Type 0
Turn = ℕ → CorScheduler → CorScheduler

other_state :
    (c d : ℕ) (v : CoState) (s : CorScheduler) → c ≢ d → (set_state d v s).state c ≡ s.state c
other_state c d v s n = if_false {b = c == d} _ _ (ground (arith, n))

after_turn-Keeps :
    (d : ℕ) (v : CoState) (q : List ℕ) (state : ℕ → CoState) (u : CorScheduler)
    → d ≢ 0
    → Keeps d q state u
    → Keeps d q state (after_turn d v u)
unfolding Keeps
after_turn-Keeps d ready q state u n (more, e, z, same) = (
  more ++ (d ∷ []),
  ap (λ l. l ++ (d ∷ [])) e ∙ append_assoc q more (d ∷ []),
  ground (arith, has-append 0 more (d ∷ []), z, n),
  same,
)
after_turn-Keeps d finiah q state u n k = k
after_turn-Keeps d except q state u n k = k
after_turn-Keeps d init q state u n (more, e, z, same) =
    (more, e, z, λ c x. other_state c d suspended u x ∙ same c x)
after_turn-Keeps d running q state u n (more, e, z, same) =
    (more, e, z, λ c x. other_state c d suspended u x ∙ same c x)
after_turn-Keeps d suspended q state u n (more, e, z, same) =
    (more, e, z, λ c x. other_state c d suspended u x ∙ same c x)

module _ (turn : ℕ → CorScheduler → CorScheduler) (fair : IsFair turn) (idle_cor : ℕ) where
  work-Keeps : (d : ℕ) (s : CorScheduler) → d ≢ 0 → Keeps d s.coroutines s.state (work turn d s)
  unfolding Keeps
  work-Keeps d s n =
      let (more, e, z) = fair.adds d (set_state d running s) in
      let t = swap_in turn d s in
      let u = record t { work_threads_count = t.work_threads_count - 1 } in
      after_turn-Keeps d (u.state d) s.coroutines s.state u n
        (more, e, z, λ c x. fair.leaves d c (set_state d running s) x ∙ other_state c d running s x)

  picked-Keeps :
      (d : ℕ) (s : CorScheduler) (q : List ℕ)
      → d ≢ 0
      → Keeps d q s.state (picked turn idle_cor s (some d, q))
  picked-Keeps d s q n = elim (Bool-cases (has_ended (s.state d))) [
    | inl y ↦
        subst (Keeps d q s.state) (sym (if_true _ _ y))
          (unfold Keeps in ([], sym (append_nil q), refl, λ c x. refl))
    | inr x ↦ subst (Keeps d q s.state) (sym (if_false _ _ x)) (
        work-Keeps d
          (record s {
            coroutines = q;
            work_threads_count = suc s.work_threads_count;
            notified = suc s.notified;
          })
          n)
  ]

  -- The coroutine is the next one that the search takes.
  abbrev pub IsNext : ℕ → CorScheduler → Type 0
  IsNext c t = (rest : List ℕ) × (pick t.state t.coroutines ≡ some (some c, rest))

  abbrev pub Taken : ℕ → ℕ → CorScheduler → Type 0
  Taken m c s =
      (k : ℕ) × (t : CorScheduler) × (k ≤ m) × (rounds turn idle_cor k s ≡ some t) × IsNext c t

  pick_next :
      (c : ℕ) (s : CorScheduler) (front back : List ℕ)
      → s.coroutines ≡ front ++ (c ∷ back)
      → all_running s.state front ≡ true
      → is_running (s.state c) ≡ false
      → c ≢ 0
      → pick s.state s.coroutines ≡ some (some c, front ++ back)
  pick_next c s front back e a r n =
      ap (pick s.state) e
      ∙ pick-split s.state front back c a r
      ∙ if_false {b = c == 0} _ _ (ground (arith, n))

  now :
      (m c : ℕ) (s : CorScheduler) (rest : List ℕ)
      → pick s.state s.coroutines ≡ some (some c, rest)
      → Taken m c s
  now m c s rest e = (0, s, omega arith, unfold rounds in refl, (rest, e))

  round-picked :
      (d : ℕ) (s : CorScheduler) (q : List ℕ)
      → pick s.state s.coroutines ≡ some (some d, q)
      → round turn idle_cor s ≡ some (picked turn idle_cor s (some d, q))
  unfolding round
  round-picked d s q e =
      ap
        (λ o. elim o as (λ x. Option CorScheduler) [
          | none ↦ none
          | some x ↦ some (picked turn idle_cor s x)
        ])
        e

  later :
      (m c : ℕ) (s t : CorScheduler)
      → round turn idle_cor s ≡ some t
      → Taken m c t
      → Taken (suc m) c s
  unfolding rounds
  later m c s t e (k, u, l, r, next) = (
    suc k,
    u,
    omega (arith, l),
    ap
          (λ o. elim o as (λ x. Option CorScheduler) [
            | none ↦ none
            | some v ↦ rounds turn idle_cor k v
          ])
          e
        ∙ r,
    next,
  )

  shuffle :
      (f1 f2 back : List ℕ) (d c : ℕ)
      → (f1 ++ (d ∷ f2)) ++ (c ∷ back) ≡ f1 ++ (d ∷ (f2 ++ (c ∷ back)))
  shuffle f1 f2 back d c = append_assoc f1 (d ∷ f2) (c ∷ back)

  regroup :
      (f1 f2 back more : List ℕ) (c : ℕ)
      → (f1 ++ (f2 ++ (c ∷ back))) ++ more ≡ (f1 ++ f2) ++ (c ∷ (back ++ more))
  regroup f1 f2 back more c =
      append_assoc f1 (f2 ++ (c ∷ back)) more
      ∙ ap (λ l. f1 ++ l) (append_assoc f2 (c ∷ back) more)
      ∙ sym (append_assoc f1 f2 (c ∷ (back ++ more)))

  still_no_null :
      (f1 f2 back more : List ℕ) (d c : ℕ)
      → has 0 (f1 ++ (d ∷ (f2 ++ (c ∷ back)))) ≡ false
      → has 0 more ≡ false
      → has 0 ((f1 ++ f2) ++ (c ∷ (back ++ more))) ≡ false
  still_no_null f1 f2 back more d c z y = ground (
    arith,
    z,
    y,
    has-append 0 (f1 ++ f2) (c ∷ (back ++ more)),
    has-append 0 f1 f2,
    has-append 0 back more,
    has-append 0 f1 (d ∷ (f2 ++ (c ∷ back))),
    has-append 0 f2 (c ∷ back),
  )

  not_null : (front back : List ℕ) (c : ℕ) → has 0 (front ++ (c ∷ back)) ≡ false → c ≢ 0
  not_null front back c z = ground (arith, z, has-append 0 front (c ∷ back))

  free :
      (d : ℕ) (s : CorScheduler)
      → d ≢ 0
      → ((d ≡ 0) ⊎ (is_running (s.state d) ≡ false))
      → is_running (s.state d) ≡ false
  free d s n (inl e) = absurd (n e)
  free d s n (inr f) = f

  -- With turns that only add coroutines behind the queue and change no other's state, and without null pointers in the
  -- queue, a coroutine of the queue that is not running is taken at the latest when as many rounds have passed
  -- as coroutines stood before it.
  pub taken :
      (m : ℕ) (front back : List ℕ) (c : ℕ) (s : CorScheduler)
      → length front ≤ m
      → s.coroutines ≡ front ++ (c ∷ back)
      → has 0 (front ++ (c ∷ back)) ≡ false
      → is_running (s.state c) ≡ false
      → Taken m c s
  unfolding Keeps
  taken zero [] back c s l e z r =
      now zero c s back (pick_next c s [] back e refl r (not_null [] back c z))
  taken zero (x ∷ front) back c s l e z r = absurd (omega (arith, l))
  taken (suc m) front back c s l e z r = elim (first_free s.state front) [
    | inl a ↦
        now (suc m) c s (front ++ back) (pick_next c s front back e a r (not_null front back c z))
    | inr (f1, d, f2, split, a, stop) ↦
        let rest = f1 ++ (f2 ++ (c ∷ back)) in
        let order = ap (λ f. f ++ (c ∷ back)) split ∙ shuffle f1 f2 back d c in
        let no_null = sym (ap (has 0) order) ∙ z in
        let address = not_null f1 (f2 ++ (c ∷ back)) d no_null in
        let found =
          pick_next d s f1 (f2 ++ (c ∷ back)) (e ∙ order) a (free d s address stop) address in
        elim (Bool-cases (c == d)) [
          | inl y ↦ now (suc m) c s rest (found ∙ same_pick d c rest (ground (arith, y)))
          | inr n ↦
              let (more, after, z2, same) = picked-Keeps d s rest address in
              later m c s (picked turn idle_cor s (some d, rest)) (round-picked d s rest found) (
                taken m (f1 ++ f2) (back ++ more) c (picked turn idle_cor s (some d, rest))
                  (omega
                    (arith, l, ap length split, length-append f1 (d ∷ f2), length-append f1 f2))
                  (after ∙ regroup f1 f2 back more c) (still_no_null f1 f2 back more d c no_null z2)
                  (ap is_running (same c (ground (arith, n))) ∙ r))
        ]
  ]
    where
      same_pick :
          (d c : ℕ) (rest : List ℕ)
          → d ≡ c
          → ◌≡◌ {A = Option (Option ℕ × List ℕ)} (some (some d, rest)) (some (some c, rest))
      same_pick d c rest e = ap (λ x. some (some x, rest)) e
