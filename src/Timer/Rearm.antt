-- ===== src/Timer/Rearm.antt =====
-- The loop of `listExpiredCbs` over the expired timers (ttw/timer.cc), and the theorem on the whole.
use ttw.Prelude.{
  ℕ, ◌≡◌, refl, sym, ap, ◌∙◌, ◌≢◌, false, not, ◌&&◌, ◌||◌, List, [], ◌∷◌, ◌++◌, arith, leb, ◌==◌,
  if◌then◌else◌, has, ==_iff, length,
}
use mathlib.Core.List.{append-nil, append_assoc}
use ttw.Timer.{
  Heap, Timer, Callback, write, make_probe, resize, TimerManage, rearm_one, rearm, collect,
}
use ttw.Timer.Set.{write-Sorted}
use ttw.Timer.Manage.{IsTimers}
use ttw.Timer.Expire.{
  due, pending, has-due, has-pending, parts_lem, rearmed, rearm_one-heap, has-rearm_one,
  rearm_one-IsTimers, Apart, Apart-due, pending-Sorted,
}

rearmed-rearmed : (now : ℕ) (t : Timer) → rearmed now (rearmed now t) ≡ rearmed now t
unfolding rearmed
rearmed-rearmed now t = ground arith

rearm-heap :
    (now a : ℕ) (ps : List ℕ) (m : TimerManage) (cbs : List Callback)
    → (rearm now ps m cbs).0.heap a ≡ (if has a ps then rearmed now (m.heap a) else m.heap a)
unfolding rearm
rearm-heap now a [] m cbs = refl
rearm-heap now a (p ∷ ps) m cbs = ground (
  arith,
  rearm-heap now a ps (rearm_one now p m) (cbs ++ ((m.heap p).cb ∷ [])),
  rearm_one-heap now p m a,
  rearmed-rearmed now (m.heap a),
)

rearmed_keeps :
    (now : ℕ) (t : Timer) → ((rearmed now t).cb ≡ t.cb) × ((rearmed now t).recurr ≡ t.recurr)
unfolding rearmed
rearmed_keeps now t = ground arith

has-rearm :
    (now a : ℕ) (ps : List ℕ) (m : TimerManage) (cbs : List Callback)
    → has a (rearm now ps m cbs).0.timers ≡ (has a m.timers || (has a ps && (m.heap a).recurr))
unfolding rearm
has-rearm now a [] m cbs = ground arith
has-rearm now a (p ∷ ps) m cbs = ground (
  arith,
  has-rearm now a ps (rearm_one now p m) (cbs ++ ((m.heap p).cb ∷ [])),
  has-rearm_one now p m a,
  rearm_one-heap now p m a,
  rearmed_keeps now (m.heap a),
  ==_iff a p,
)

abbrev pub callbacks : Heap → List ℕ → List Callback
callbacks h [] = []
callbacks h (p ∷ ps) = (h p).cb ∷ callbacks h ps

callbacks-rearm_one :
    (now p : ℕ) (m : TimerManage) (ps : List ℕ)
    → callbacks (rearm_one now p m).heap ps ≡ callbacks m.heap ps
callbacks-rearm_one now p m [] = refl
callbacks-rearm_one now p m (q ∷ ps) =
    ground (
      arith,
      callbacks-rearm_one now p m ps,
      rearm_one-heap now p m q,
      rearmed_keeps now (m.heap q),
    )

rearm-callbacks :
    (now : ℕ) (ps : List ℕ) (m : TimerManage) (cbs : List Callback)
    → (rearm now ps m cbs).1 ≡ cbs ++ callbacks m.heap ps
unfolding rearm
rearm-callbacks now [] m cbs = sym (append-nil cbs)
rearm-callbacks now (p ∷ ps) m cbs =
    rearm-callbacks now ps (rearm_one now p m) (cbs ++ ((m.heap p).cb ∷ []))
    ∙ rw (callbacks-rearm_one now p m ps) (append_assoc cbs ((m.heap p).cb ∷ []) _)

Apart-rearm_one :
    (now p : ℕ) (m : TimerManage) (ps : List ℕ)
    → has p ps ≡ false
    → Apart ps m.timers
    → Apart ps (rearm_one now p m).timers
Apart-rearm_one now p m [] out ap' = tt
Apart-rearm_one now p m (q ∷ ps) out (nz, once, free, more) = (
  nz,
  once,
  ground (arith, has-rearm_one now p m q, ==_iff q p),
  Apart-rearm_one now p m ps (ground arith) more,
)

callbacks-write :
    (h : Heap) (p : ℕ) (t : Timer) (ps : List ℕ)
    → has p ps ≡ false
    → callbacks (write h p t) ps ≡ callbacks h ps
unfolding write
callbacks-write h p t [] out = refl
callbacks-write h p t (q ∷ ps) out = ground (arith, callbacks-write h p t ps, ==_iff q p)

rearm-IsTimers :
    (now : ℕ) (ps : List ℕ) (m : TimerManage) (cbs : List Callback)
    → Apart ps m.timers
    → IsTimers m
    → IsTimers (rearm now ps m cbs).0
unfolding rearm
rearm-IsTimers now [] m cbs apart is = is
rearm-IsTimers now (p ∷ ps) m cbs (nz, once, free, more) is =
    rearm-IsTimers now ps _ _ (Apart-rearm_one now p m ps once more)
      (rearm_one-IsTimers now p m nz free is)

-- What the second half of `listExpiredCbs` does to a manager, at any address but the probe's.
pub record Expired (probe now : ℕ) (m : TimerManage) (cbs : List Callback)
    (r : TimerManage × List Callback) : Type 0 where
  -- the set stays in order
  pub invariant : IsTimers r.0
  -- a timer stays exactly if it is not due, or recurring
  pub members :
      (a : ℕ)
      → has a r.0.timers ≡ (has a m.timers && (not (leb (m.heap a).next now) || (m.heap a).recurr))
  -- the due recurring timers are due again their period from now, and no other timer changes
  pub timers :
      (a : ℕ)
      → (a == probe) ≡ false
      → r.0.heap a
        ≡ (if has a m.timers && leb (m.heap a).next now then rearmed now (m.heap a) else m.heap a)
  -- the callbacks of the due timers come last, in the order of the times
  pub handed_out :
      r.1
      ≡ resize (length (due m.heap now m.timers)) cbs ++ callbacks m.heap (due m.heap now m.timers)

module _ (probe now : ℕ) (m : TimerManage) (np : probe ≢ 0) (out : has probe m.timers ≡ false)
    (is : IsTimers m) where
  started : TimerManage
  started = record m {
    heap = write m.heap probe (make_probe now);
    timers = pending m.heap now m.timers;
  }

  started-IsTimers : IsTimers started
  unfolding started
  started-IsTimers = record {
    sorted =
        write-Sorted m.heap probe (make_probe now) (pending m.heap now m.timers)
          (ground (arith, has-pending m.heap now probe m.timers))
          (pending-Sorted m.heap now m.timers is.sorted);
    no_null = ground (arith, has-pending m.heap now 0 m.timers, is.no_null);
  }

  -- The part under the write lock, on the two parts of the set.
  collect_lem :
      (cbs : List Callback)
      → collect probe now m cbs
        ≡ rearm now
            (due m.heap now m.timers)
            started
            (resize (length (due m.heap now m.timers)) cbs)
  unfolding collect started
  collect_lem cbs =
      ap
        (λ (d : List ℕ × List ℕ).
          rearm now d.0 (record m { heap = write m.heap probe (make_probe now); timers = d.1 })
            (resize (length d.0) cbs))
        (parts_lem m.heap probe now m.timers np out is.no_null is.sorted)

  -- The part of `listExpiredCbs` under the write lock, whatever happened since its first check: it
  -- takes out the timers that are due and not recurring, sets the due recurring ones anew, touches no
  -- other timer, and hands out the callbacks of the due timers behind the vector resized to their number.
  pub collect-Expired : (cbs : List Callback) → Expired probe now m cbs (collect probe now m cbs)
  unfolding started
  collect-Expired cbs = rw (collect_lem cbs) (record {
    invariant =
        rearm-IsTimers now ds started base
          (Apart-due m.heap now m.timers (pending m.heap now m.timers) is.sorted is.no_null
            (λ a i late. ground (arith, has-pending m.heap now a m.timers)))
          started-IsTimers;
    members = λ a.
        unfold write in
        ground (
          arith,
          has-rearm now a ds started base,
          has-due m.heap now a m.timers,
          has-pending m.heap now a m.timers,
          ==_iff a probe,
        );
    timers = λ a ne.
        unfold write in
        ground (arith, rearm-heap now a ds started base, has-due m.heap now a m.timers);
    handed_out =
        rearm-callbacks now ds started base
        ∙ ap (◌++◌ base) (
            callbacks-write m.heap probe (make_probe now) ds
              (ground (arith, has-due m.heap now probe m.timers)));
  })
    where
      ds : List ℕ
      ds = due m.heap now m.timers

      base : List Callback
      base = resize (length ds) cbs
