-- ===== src/Timer/Set.antt =====
-- The `std::set` of timers: a list in strict order, what it holds after each operation on it.
use ttw.Prelude.{
  ℕ, ◌≡◌, refl, inl, inr, true, false, not, ◌&&◌, ◌||◌, List, [], ◌∷◌, arith, ◌==◌, has, Bool-cases,
}
use ttw.Timer.{Heap, Timer, comp, write, set_find, set_erase, set_insert}
use ttw.Timer.Order.{comp_irrefl, comp_trans, comp_total, equivalent-eq, comp-write}

-- `x` is before the first of the list, and the list is in strict order.
abbrev pub Above : Heap → ℕ → List ℕ → Type 0
Above h x [] = Unit {0}
Above h x (y ∷ ys) = (comp h x y ≡ true) × Above h y ys

abbrev pub Sorted : Heap → List ℕ → Type 0
Sorted h [] = Unit {0}
Sorted h (x ∷ xs) = Above h x xs

pub Above-Sorted : (h : Heap) (x : ℕ) (ys : List ℕ) → Above h x ys → Sorted h ys
Above-Sorted h x [] s = tt
Above-Sorted h x (y ∷ ys) s = s.1

pub Above-weaken :
    (h : Heap) (w x : ℕ) (ys : List ℕ) → comp h w x ≡ true → Above h x ys → Above h w ys
Above-weaken h w x [] e s = tt
Above-weaken h w x (y ∷ ys) e s = (comp_trans h w x y e s.0, s.1)

pub comp_of_Above :
    (h : Heap) (x a : ℕ) (ys : List ℕ) → Above h x ys → has a ys ≡ true → comp h x a ≡ true
comp_of_Above h x a [] s m = cc
comp_of_Above h x a (y ∷ ys) s m =
    ground (arith, comp_trans h x y a s.0, comp_of_Above h y a ys s.1)

-- The first timer is not met again.
pub has_of_Above : (h : Heap) (x : ℕ) (ys : List ℕ) → Above h x ys → has x ys ≡ false
has_of_Above h x ys s = elim (Bool-cases (has x ys)) [
  | inl m ↦ ground (arith, comp_of_Above h x x ys s m, comp_irrefl h x)
  | inr m ↦ m
]

pub set_find-has : (h : Heap) (x : ℕ) (ys : List ℕ) → set_find h x ys ≡ has x ys
unfolding set_find
set_find-has h x [] = refl
set_find-has h x (y ∷ ys) = ground (arith, equivalent-eq h x y, set_find-has h x ys)

pub has-set_insert :
    (h : Heap) (a x : ℕ) (ys : List ℕ) → has a (set_insert h x ys) ≡ ((a == x) || has a ys)
unfolding set_insert
has-set_insert h a x [] = refl
has-set_insert h a x (y ∷ ys) = ground (arith, comp_total h x y, has-set_insert h a x ys)

Above-set_insert :
    (h : Heap) (w x : ℕ) (ys : List ℕ)
    → comp h w x ≡ true
    → Above h w ys
    → Above h w (set_insert h x ys)
unfolding set_insert
Above-set_insert h w x [] e s = (e, tt)
Above-set_insert h w x (y ∷ ys) e s = ground (arith, Above-set_insert h y x ys)

pub set_insert-Sorted :
    (h : Heap) (x : ℕ) (ys : List ℕ) → Sorted h ys → Sorted h (set_insert h x ys)
unfolding set_insert
set_insert-Sorted h x [] s = tt
set_insert-Sorted h x (y ∷ ys) s = ground (arith, Above-set_insert h y x ys)

Above-set_erase : (h : Heap) (w x : ℕ) (ys : List ℕ) → Above h w ys → Above h w (set_erase h x ys)
unfolding set_erase
Above-set_erase h w x [] s = tt
Above-set_erase h w x (y ∷ ys) s = ground (arith, Above-weaken h w y ys, Above-set_erase h y x ys)

pub set_erase-Sorted : (h : Heap) (x : ℕ) (ys : List ℕ) → Sorted h ys → Sorted h (set_erase h x ys)
unfolding set_erase
set_erase-Sorted h x [] s = tt
set_erase-Sorted h x (y ∷ ys) s = ground (arith, Above-Sorted h y ys, Above-set_erase h y x ys)

pub has-set_erase :
    (h : Heap) (a x : ℕ) (ys : List ℕ)
    → Sorted h ys
    → has a (set_erase h x ys) ≡ (not (a == x) && has a ys)
unfolding set_erase
has-set_erase h a x [] s = ground arith
has-set_erase h a x (y ∷ ys) s = ground (
  arith,
  equivalent-eq h x y,
  has_of_Above h y ys s,
  has-set_erase h a x ys (Above-Sorted h y ys s),
)

Above-write :
    (h : Heap) (p x : ℕ) (t : Timer) (ys : List ℕ)
    → (x == p) ≡ false
    → has p ys ≡ false
    → Above h x ys
    → Above (write h p t) x ys
Above-write h p x t [] e m s = tt
Above-write h p x t (y ∷ ys) e m s = ground (arith, comp-write h p x y t, Above-write h p y t ys)

-- A write to a timer that the set does not hold keeps it in order.
pub write-Sorted :
    (h : Heap) (p : ℕ) (t : Timer) (ys : List ℕ)
    → has p ys ≡ false
    → Sorted h ys
    → Sorted (write h p t) ys
write-Sorted h p t [] m s = tt
write-Sorted h p t (y ∷ ys) m s = ground (arith, Above-write h p y t ys)
