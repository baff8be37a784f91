-- ===== src/Timer/Wait.antt =====
-- `getNextTimer` against `listExpiredCbs` (ttw/timer.cc): how long to wait, and what is then handed out.
use ttw.Prelude.{
  ℕ, suc, ◌+◌, ◌≤◌, ◌≡◌, refl, ◌≢◌, ◌↔◌, ◌⊎◌, inl, inr, true, false, List, [], ◌∷◌, arith, ltb,
  if◌then◌else◌, has, Bool-cases, sym, ap, ◌∙◌, take, drop, zero, take-replicate, drop-replicate,
  length, replicate,
}
use native.Mathlib.Nat.{sub-zero}
use ttw.Prelude.Word.{u64_max}
use ttw.Timer.{
  Callback, empty, TimerManage, get_next_timer, empty_timer, collect, list_expired_cbs, resize,
}
use ttw.Timer.Manage.{IsTimers}
use ttw.Timer.Expire.{due, due-nil, due-nil_iff}
use ttw.Timer.Rearm.{Expired, collect-Expired, callbacks}

-- While there are timers, the wait that `getNextTimer` returns has passed exactly if a timer is due: no
-- timer is due before, and one is from then on.
pub get_next_timer_iff :
    (now t : ℕ) (m : TimerManage)
    → IsTimers m
    → m.timers ≢ []
    → (get_next_timer now m ≤ t) ↔ (due m.heap (now + t) m.timers ≢ [])
unfolding get_next_timer
get_next_timer_iff now t m is some_timer = go m.timers refl
  where
    go :
        (ps : List ℕ)
        → m.timers ≡ ps
        → (get_next_timer now m ≤ t) ↔ (due m.heap (now + t) m.timers ≢ [])
    go [] e = absurd (some_timer e)
    go (p ∷ ps) e =
        rw (e, get_next_timer)
          (ground
            (arith, due-nil_iff m.heap (now + t) p ps (rw e at is.no_null) (rw e at is.sorted)))

-- With no timer `getNextTimer` returns the greatest value, and `emptyTimer` says so.
pub get_next_timer_empty :
    (now : ℕ) (m : TimerManage)
    → ((empty_timer m ≡ true) ↔ (m.timers ≡ []))
      × (empty_timer m ≡ true → get_next_timer now m ≡ u64_max)
unfolding get_next_timer empty_timer
get_next_timer_empty now m = ground arith

list_expired_cbs_none :
    (probe now : ℕ) (m : TimerManage) (cbs : List Callback)
    → m.timers ≡ []
    → list_expired_cbs probe now m cbs ≡ (m, cbs)
unfolding list_expired_cbs
list_expired_cbs_none probe now m cbs e = ground arith

list_expired_cbs_some :
    (probe now p : ℕ) (ps : List ℕ) (m : TimerManage) (cbs : List Callback)
    → m.timers ≡ p ∷ ps
    → list_expired_cbs probe now m cbs
      ≡ (if ltb now (m.heap p).next then (m, cbs) else collect probe now m cbs)
unfolding list_expired_cbs
list_expired_cbs_some probe now p ps m cbs e = ground arith

-- `listExpiredCbs` changes nothing if no timer is due, and else does what `collect` does.
pub list_expired_cbs_lem :
    (probe now : ℕ) (m : TimerManage) (cbs : List Callback)
    → probe ≢ 0
    → has probe m.timers ≡ false
    → IsTimers m
    → ((due m.heap now m.timers ≡ []) × (list_expired_cbs probe now m cbs ≡ (m, cbs)))
      ⊎ ((due m.heap now m.timers ≢ [])
          × Expired probe now m cbs (list_expired_cbs probe now m cbs))
list_expired_cbs_lem probe now m cbs np out is = go m.timers refl
  where
    go :
        (ps : List ℕ)
        → m.timers ≡ ps
        → ((due m.heap now m.timers ≡ []) × (list_expired_cbs probe now m cbs ≡ (m, cbs)))
          ⊎ ((due m.heap now m.timers ≢ [])
              × Expired probe now m cbs (list_expired_cbs probe now m cbs))
    go [] e =
        inl (ap (due m.heap now) e ∙ due-nil m.heap now, list_expired_cbs_none probe now m cbs e)
    go (p ∷ ps) e =
        let first_due = due-nil_iff m.heap now p ps (rw e at is.no_null) (rw e at is.sorted) in
        let same = ap (due m.heap now) e in
        let ran = list_expired_cbs_some probe now p ps m cbs e in
        elim (Bool-cases (ltb now (m.heap p).next)) [
          | inl late ↦ inl (same ∙ first_due.1 (ground arith), ran ∙ rw late)
          | inr over ↦ inr (
            λ none_due. let late = first_due.0 (sym same ∙ none_due) in absurd (ground arith),
            rw (ran, over) (collect-Expired probe now m np out is cbs),
          )
        ]

pub resize-nil : (n : ℕ) → resize n [] ≡ replicate n empty
unfolding resize
resize-nil zero = refl
resize-nil (suc n) = rw sub-zero

-- If a timer is due, `listExpiredCbs` on an empty vector, as the schedulers call it, hands out as many
-- empty functions as timers are due, and behind them the callbacks of the due timers.
pub list_expired_cbs-empty :
    (probe now : ℕ) (m : TimerManage)
    → probe ≢ 0
    → has probe m.timers ≡ false
    → IsTimers m
    → due m.heap now m.timers ≢ []
    → let n = length (due m.heap now m.timers) in
      let cbs = (list_expired_cbs probe now m []).1 in
      (take n cbs ≡ replicate n empty) × (drop n cbs ≡ callbacks m.heap (due m.heap now m.timers))
list_expired_cbs-empty probe now m np out is some_due =
    elim (list_expired_cbs_lem probe now m [] np out is) [
      | inl (e, _) ↦ absurd (some_due e)
      | inr (_, r) ↦
          rw (r.handed_out, resize-nil (length (due m.heap now m.timers)))
            (
              take-replicate (length (due m.heap now m.timers)) empty _,
              drop-replicate (length (due m.heap now m.timers)) empty _,
            )
    ]
