-- ===== src/Schedule/Picks.antt =====
-- What the search of the queue in `CorScheduler::run` (ttw/corscheduler.cc) finds.
use ttw.Prelude.{
  ℕ, ◌≡◌, ◌≢◌, refl, Bool, true, false, not, ◌&&◌, none, some, List, [], ◌∷◌, ◌++◌, arith, ◌==◌,
  if◌then◌else◌, if_true, if_false, ap, ◌∙◌, Bool-cases, inl, inr, ◌⊎◌,
}
use ttw.Schedule.{CoState, is_running, pick, passed}

-- Running coroutines, none of them null.
abbrev pub all_running : (ℕ → CoState) → List ℕ → Bool
all_running state [] = true
all_running state (c ∷ q) = not (c == 0) && (is_running (state c) && all_running state q)

module _ (state : ℕ → CoState) where
  passes :
      (d : ℕ) (q : List ℕ)
      → d ≢ 0
      → is_running (state d) ≡ true
      → pick state (d ∷ q) ≡ passed d (pick state q)
  unfolding pick
  passes d q n r =
      if_false {b = d == 0} _ _ (ground (arith, n)) ∙ if_true {b = is_running (state d)} _ _ r

  pub pick-here :
      (c : ℕ) (back : List ℕ)
      → is_running (state c) ≡ false
      → pick state (c ∷ back) ≡ (if c == 0 then none else some (some c, back))
  unfolding pick
  pick-here c back r =
      ap (λ x. if c == 0 then none else x) (if_false {b = is_running (state c)} _ _ r)

  passed-if :
      (d c : ℕ) (q : List ℕ)
      → passed d (if c == 0 then none else some (some c, q))
        ≡ (if c == 0 then none else some (some c, d ∷ q))
  passed-if d c q = ground arith

  -- Behind running coroutines the first one that is not running is taken, and the others stay in their order; where it is
  -- a null pointer the loop goes on from an iterator that is erased.
  pub pick-split :
      (front back : List ℕ) (c : ℕ)
      → all_running state front ≡ true
      → is_running (state c) ≡ false
      → pick state (front ++ (c ∷ back)) ≡ (if c == 0 then none else some (some c, front ++ back))
  pick-split [] back c a r = pick-here c back r
  pick-split (d ∷ front) back c a r =
      passes d (front ++ (c ∷ back)) (ground (arith, a)) (ground (arith, a))
      ∙ ap (passed d) (pick-split front back c (ground (arith, a)) r)
      ∙ passed-if d c (front ++ back)

  -- Where every coroutine is running, none is taken.
  pub pick-none : (q : List ℕ) → all_running state q ≡ true → pick state q ≡ some (none, q)
  unfolding pick
  pick-none [] a = refl
  pick-none (d ∷ q) a =
      passes d q (ground (arith, a)) (ground (arith, a))
      ∙ ap (passed d) (pick-none q (ground (arith, a)))

  -- The running ones in front, and the first one that is not running, if there is one.
  pub first_free :
      (q : List ℕ)
      → all_running state q ≡ true
        ⊎ ((front : List ℕ) × (d : ℕ) × (back : List ℕ) × (q ≡ front ++ (d ∷ back))
            × (all_running state front ≡ true)
            × ((d ≡ 0) ⊎ (is_running (state d) ≡ false)))
  first_free [] = inl refl
  first_free (x ∷ q) = elim (Bool-cases (not (x == 0) && is_running (state x))) [
    | inr n ↦ inr ([], x, q, refl, refl, stops x n)
    | inl y ↦ elim (first_free q) [
      | inl all ↦ inl (ground (arith, y, all))
      | inr (front, d, back, e, a, f) ↦
          inr (x ∷ front, d, back, ap (λ l. x ∷ l) e, ground (arith, y, a), f)
    ]
  ]
    where
      stops :
          (x : ℕ)
          → (not (x == 0) && is_running (state x)) ≡ false
          → (x ≡ 0) ⊎ (is_running (state x) ≡ false)
      stops x n = elim (Bool-cases (x == 0)) [
        | inl y ↦ inl (ground (arith, y))
        | inr z ↦ inr (ground (arith, n, z))
      ]
