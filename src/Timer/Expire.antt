-- ===== src/Timer/Expire.antt =====
-- `TimerManage::listExpiredCbs` (ttw/timer.cc): which timers expire, what becomes of each, and the
-- callbacks that are handed out.
use ttw.Prelude.{
  ℕ, ◌<◌, ◌≤◌, ◌≡◌, refl, ◌≢◌, ◌↔◌, inl, inr, true, false, not, ◌&&◌, ◌||◌, List, [], ◌∷◌, ◌++◌,
  arith, leb, ◌==◌, if◌then◌else◌, has, Bool-cases, ==_iff,
}
use ttw.Prelude.Word.{add64}
use ttw.Timer.{
  Heap, Timer, comp, write, make_probe, lower_bound, skip_equal, TimerManage, rearm_one,
}
use ttw.Timer.Order.{comp-next}
use ttw.Timer.Set.{
  Above, Sorted, Above-Sorted, Above-weaken, has_of_Above, has-set_insert, set_insert-Sorted,
  write-Sorted,
}
use ttw.Timer.Manage.{IsTimers}

-- The timers that are due at `now`, and the others, each in their order.
unfoldable pub due : Heap → ℕ → List ℕ → List ℕ
due h now [] = []
due h now (p ∷ ps) = if leb (h p).next now then p ∷ due h now ps else due h now ps

pub pending : Heap → ℕ → List ℕ → List ℕ
pending h now [] = []
pending h now (p ∷ ps) = if leb (h p).next now then pending h now ps else p ∷ pending h now ps

pub has-due :
    (h : Heap) (now a : ℕ) (ps : List ℕ) → has a (due h now ps) ≡ (has a ps && leb (h a).next now)
unfolding due
has-due h now a [] = refl
has-due h now a (p ∷ ps) = ground (arith, has-due h now a ps, ==_iff a p)

pub has-pending :
    (h : Heap) (now a : ℕ) (ps : List ℕ)
    → has a (pending h now ps) ≡ (has a ps && not (leb (h a).next now))
unfolding pending
has-pending h now a [] = refl
has-pending h now a (p ∷ ps) = ground (arith, has-pending h now a ps, ==_iff a p)

-- After a timer that is not due none is, in a set in order.
due_late :
    (h : Heap) (now x : ℕ) (ps : List ℕ)
    → x ≢ 0
    → has 0 ps ≡ false
    → now < (h x).next
    → Above h x ps
    → (due h now ps ≡ []) × (pending h now ps ≡ ps)
unfolding due pending
due_late h now x [] nx nz late s = (refl, refl)
due_late h now x (p ∷ ps) nx nz late s = ground (arith, comp-next h x p nx, due_late h now p ps)

-- The probe comes after every timer due before `now`, before every later one.
comp_probe :
    (h : Heap) (probe now y : ℕ)
    → probe ≢ 0
    → y ≢ 0
    → (y == probe) ≡ false
    → let g = write h probe (make_probe now) in
      (comp g y probe ≡ true → (h y).next ≤ now) × (comp g y probe ≡ false → now ≤ (h y).next)
unfolding comp write make_probe
comp_probe h probe now y np ny ne = ground arith

skip_equal_split :
    (h g : Heap) (now p : ℕ) (ps : List ℕ)
    → ((a : ℕ) → has a (p ∷ ps) ≡ true → g a ≡ h a)
    → has 0 (p ∷ ps) ≡ false
    → now ≤ (h p).next
    → Above h p ps
    → skip_equal g now (p ∷ ps) ≡ (due h now (p ∷ ps), pending h now (p ∷ ps))
unfolding skip_equal due pending
skip_equal_split h g now p [] same nz late s = ground (arith, same p)
skip_equal_split h g now p (q ∷ ps) same nz late s = ground (
  arith,
  same p,
  comp-next h p q,
  skip_equal_split h g now q ps (λ a m. same a (ground arith)),
  due_late h now p (q ∷ ps),
)

abbrev pub parts : Heap → ℕ → ℕ → List ℕ → List ℕ × List ℕ
parts g probe now ps =
    let (before, rest) = lower_bound g probe ps in
    let (equal, later) = skip_equal g now rest in (before ++ equal, later)

-- `lower_bound` and the loop after it part the set into the due timers and the others.
pub parts_lem :
    (h : Heap) (probe now : ℕ) (ps : List ℕ)
    → probe ≢ 0
    → has probe ps ≡ false
    → has 0 ps ≡ false
    → Sorted h ps
    → parts (write h probe (make_probe now)) probe now ps ≡ (due h now ps, pending h now ps)
unfolding lower_bound due pending
parts_lem h probe now [] np out nz s = unfold skip_equal in refl
parts_lem h probe now (p ∷ ps) np out nz s = ground (
  arith,
  comp_probe h probe now p,
  parts_lem h probe now ps np,
  Above-Sorted h p ps s,
  skip_equal_split h (write h probe (make_probe now)) now p ps
      (λ a m. unfold write in ground (arith, ==_iff a probe)),
)

-- A recurring timer is due again its period from now; any other is left as it is.
unfoldable pub rearmed : ℕ → Timer → Timer
rearmed now t = if t.recurr then record t { next = add64 now t.ms } else t

module _ (now p : ℕ) (m : TimerManage) where
  pub rearm_one-heap :
      (a : ℕ) → (rearm_one now p m).heap a ≡ (if a == p then rearmed now (m.heap a) else m.heap a)
  unfolding rearm_one rearmed write
  rearm_one-heap a = ground (arith, ==_iff a p)

  pub has-rearm_one :
      (a : ℕ) → has a (rearm_one now p m).timers ≡ (has a m.timers || (a == p && (m.heap p).recurr))
  unfolding rearm_one
  has-rearm_one a = ground (
    arith,
    has-set_insert (write m.heap p (record (m.heap p) { next = add64 now (m.heap p).ms })) a p
        m.timers,
  )

  pub rearm_one-IsTimers :
      p ≢ 0 → has p m.timers ≡ false → IsTimers m → IsTimers (rearm_one now p m)
  unfolding rearm_one
  rearm_one-IsTimers nz out is = elim (Bool-cases (m.heap p).recurr) [
    | inl r ↦ rw r (record {
      sorted = set_insert-Sorted _ p m.timers (write-Sorted m.heap p _ m.timers out is.sorted);
      no_null = ground (
        arith,
        has-set_insert (write m.heap p (record (m.heap p) { next = add64 now (m.heap p).ms })) 0 p
            m.timers,
        is.no_null,
      );
    })
    | inr r ↦ rw r is
  ]

pub Above-pending :
    (h : Heap) (now w : ℕ) (ps : List ℕ) → Above h w ps → Above h w (pending h now ps)
unfolding pending
Above-pending h now w [] s = tt
Above-pending h now w (p ∷ ps) s =
    ground (arith, Above-pending h now p ps, Above-weaken h w p (pending h now ps))

pub pending-Sorted : (h : Heap) (now : ℕ) (ps : List ℕ) → Sorted h ps → Sorted h (pending h now ps)
unfolding pending
pending-Sorted h now [] s = tt
pending-Sorted h now (p ∷ ps) s =
    ground (arith, Above-pending h now p ps, Above-Sorted h p (pending h now ps))

-- None of the timers is met twice, none is null, none is in the set.
abbrev pub Apart : List ℕ → List ℕ → Type 0
Apart [] qs = Unit {0}
Apart (p ∷ ps) qs = (p ≢ 0) × (has p ps ≡ false) × (has p qs ≡ false) × Apart ps qs

pub Apart-due :
    (h : Heap) (now : ℕ) (ps qs : List ℕ)
    → Sorted h ps
    → has 0 ps ≡ false
    → ((a : ℕ) → has a ps ≡ true → leb (h a).next now ≡ true → has a qs ≡ false)
    → Apart (due h now ps) qs
unfolding due
Apart-due h now [] qs s nz free = tt
Apart-due h now (p ∷ ps) qs s nz free =
    let rest =
      Apart-due h now ps qs (Above-Sorted h p ps s) (ground arith) (λ a m. free a (ground arith)) in
    elim (Bool-cases (leb (h p).next now)) [
      | inl e ↦ rw e (
        ground arith,
        ground (arith, has-due h now p ps, has_of_Above h p ps s),
        free p (ground arith) e,
        rest,
      )
      | inr e ↦ rw e rest
    ]

-- No timer is due exactly if the first is not.
pub due-nil_iff :
    (h : Heap) (now p : ℕ) (ps : List ℕ)
    → has 0 (p ∷ ps) ≡ false
    → Above h p ps
    → (due h now (p ∷ ps) ≡ []) ↔ (now < (h p).next)
unfolding due
due-nil_iff h now p ps nz s = ground (arith, due_late h now p ps)

pub due-nil : (h : Heap) (now : ℕ) → due h now [] ≡ []
unfolding due
due-nil h now = refl
