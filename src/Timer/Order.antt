-- ===== src/Timer/Order.antt =====
-- `Timer::Comp` of ttw/timer.cc as an order on the addresses of the timers.
use ttw.Prelude.{ℕ, ◌≡◌, ◌≢◌, ◌≤◌, Bool, true, false, arith, ◌==◌}
use ttw.Timer.{Heap, Timer, comp, equivalent, write}

pub comp_irrefl : (h : Heap) (a : ℕ) → comp h a a ≡ false
unfolding comp
comp_irrefl h a = ground arith

pub comp_asymm : (h : Heap) (a b : ℕ) → comp h a b ≡ true → comp h b a ≡ false
unfolding comp
comp_asymm h a b e = ground arith

pub comp_trans : (h : Heap) (a b c : ℕ) → comp h a b ≡ true → comp h b c ≡ true → comp h a c ≡ true
unfolding comp
comp_trans h a b c p q = ground arith

pub comp_total : (h : Heap) (a b : ℕ) → comp h a b ≡ false → comp h b a ≡ false → a ≡ b
unfolding comp
comp_total h a b p q = ground arith

-- Two addresses are equivalent for the set exactly if they are the same.
pub equivalent-eq : (h : Heap) (a b : ℕ) → equivalent h a b ≡ (a == b)
unfolding comp
equivalent-eq h a b = ground arith

-- What `Timer::Comp` must be for a `std::set`: a strict order in which no two timers tie.
pub record StrictOrder (lt : ℕ → ℕ → Bool) : Type 0 where
  pub irrefl : (a : ℕ) → lt a a ≡ false
  pub trans : (a b c : ℕ) → lt a b ≡ true → lt b c ≡ true → lt a c ≡ true
  pub total : (a b : ℕ) → lt a b ≡ false → lt b a ≡ false → a ≡ b

-- Whatever the timers hold, `Timer::Comp` is a strict total order on their addresses, null included.
pub comp-StrictOrder : (h : Heap) → StrictOrder (comp h)
comp-StrictOrder h = record { irrefl = comp_irrefl h; trans = comp_trans h; total = comp_total h }

-- The order does not see a write to a third timer.
pub comp-write :
    (h : Heap) (p a b : ℕ) (t : Timer)
    → (a == p) ≡ false
    → (b == p) ≡ false
    → comp (write h p t) a b ≡ comp h a b
unfolding comp write
comp-write h p a b t ne nf = ground arith

-- An earlier timer comes first, and a later one does not.
pub comp-next : (h : Heap) (a b : ℕ) → a ≢ 0 → b ≢ 0 → comp h a b ≡ true → (h a).next ≤ (h b).next
unfolding comp
comp-next h a b na nb e = ground arith
