-- ===== src/Io/Ready.antt =====
-- The reports of `epoll_wait` in `IOScheduler::wait` (ttw/ioscheduler.cc), and the event counter.
use ttw.Prelude.{
  ℕ, ◌≡◌, ap, subst, ◌∙◌, inl, inr, Bool, true, ◌&&◌, ◌||◌, not, some, arith, if◌then◌else◌,
  Bool-cases,
}
use ttw.Prelude.Dict.{find, nat_key}
use ttw.Io.Events.{Event, on_read, on_write, Mask, meets, without_event, is_none}
use ttw.Io.{
  FdContext, IoScheduler, watch, put_or_delete, ready, real_events, fire_if, dispatch_real,
  dispatch,
}
use ttw.Io.Count.{
  IsCounted, fd_of_Placed, Owes, Owes-start, Owes-fire, Owes-put_or_delete, fire_lem,
}

-- `epoll_wait` reports no event that is not waited for, other than by EPOLLERR and EPOLLHUP.
abbrev pub Reported : Mask → Bool → Bool → Type 0
Reported m input output = (input ≡ true → m.read ≡ true) × (output ≡ true → m.write ≡ true)

fire_if-Owes :
    (fd : ℕ) (real : Mask) (event : Event) (c d : FdContext) (s : IoScheduler)
    → Owes fd c d s
    → (meets real event ≡ true → meets d.events event ≡ true)
    → Owes fd c (fire_if real event (d, s)).0 (fire_if real event (d, s)).1
unfolding fire_if
fire_if-Owes fd real event c d s o h = elim (Bool-cases (meets real event)) [
  | inl m ↦ rw m (Owes-fire fd event c d s o (h m))
  | inr m ↦ rw m o
]

fire_if_lem :
    (real : Mask) (event : Event) (d : FdContext) (s : IoScheduler)
    → (fire_if real event (d, s)).0.events
      ≡ (if meets real event then without_event d.events event else d.events)
unfolding fire_if
fire_if_lem real event d s = ground (arith, fire_lem event d s)

-- The events that are left, as `wait` computes them before it triggers any.
abbrev pub left_of : Mask → Mask → Mask
left_of events real = record {
  read = events.read && not real.read;
  write = events.write && not real.write;
}

module _ (real : Mask) (c : FdContext) (s : IoScheduler) where
  abbrev fired : FdContext × IoScheduler
  fired = fire_if real on_write (fire_if real on_read (c, s))

  fired-events : fired.0.events ≡ left_of c.events real
  fired-events =
      let (d, t) = fire_if real on_read (c, s) in
      ground (arith, fire_if_lem real on_read c s, fire_if_lem real on_write d t)

  fired-Owes :
      (real.read ≡ true → c.events.read ≡ true)
      → (real.write ≡ true → c.events.write ≡ true)
      → Owes c.fd c c s
      → Owes c.fd c fired.0 fired.1
  fired-Owes hr hw o =
      let (d, t) = fire_if real on_read (c, s) in
      fire_if-Owes c.fd real on_write c d t (fire_if-Owes c.fd real on_read c c s o hr)
        (λ m. ground (arith, fire_if_lem real on_read c s, hw m))

-- One report, on a context that is in the map.
pub dispatch_real-IsCounted :
    (ctl : Bool) (real : Mask) (c : FdContext) (s : IoScheduler)
    → (real.read ≡ true → c.events.read ≡ true)
    → (real.write ≡ true → c.events.write ≡ true)
    → find c.fd s.contexts ≡ some c
    → IsCounted s
    → IsCounted (dispatch_real ctl real c s)
unfolding dispatch_real
dispatch_real-IsCounted ctl real c s hr hw e is =
    let left = left_of c.events real in
    let t = watch c.fd left s in
    elim (Bool-cases ((c.events.read && real.read) || (c.events.write && real.write))) [
      | inr idle ↦ rw idle is
      | inl due ↦ elim (Bool-cases ctl) [
        | inr failed ↦ rw (due, failed) is
        | inl done ↦
            rw (due, done)
              (subst
                (λ gone. IsCounted (put_or_delete gone c.fd (fired real c t).0 (fired real c t).1))
                (ap is_none (fired-events real c t))
                (Owes-put_or_delete c.fd c (fired real c t).0 (fired real c t).1
                  (fired-Owes real c t hr hw (Owes-start c.fd c left s is e))))
      ]
    ]

-- A report of `epoll_wait` on a context that is still in the map keeps the counter right.
pub dispatch-IsCounted :
    (ctl : Bool) (fd : ℕ) (input output failed : Bool) (c : FdContext) (s : IoScheduler)
    → IsCounted s
    → find fd s.contexts ≡ some c
    → Reported c.events input output
    → (t : IoScheduler) × (dispatch ctl (ready fd input output failed) s ≡ some t) × IsCounted t
unfolding dispatch real_events
dispatch-IsCounted ctl fd input output failed c s is e r =
    let at_fd = fd_of_Placed fd c s.contexts is.placed e in
    (
      dispatch_real ctl (real_events c.events input output failed) c s,
      rw (e, dispatch),
      dispatch_real-IsCounted ctl (real_events c.events input output failed) c s
          (ground (arith, r.0)) (ground (arith, r.1)) (ap (λ (k : ℕ). find k s.contexts) at_fd ∙ e)
          is,
    )
