-- ===== src/Sessions/Sweep.antt =====
-- `SessionDataMan::timer` of ttw/http/http_sessiondata.cc, and what it has in common with `getSessionData`.
use ttw.Prelude.{
  ℕ, ◌+◌, ◌^◌, ◌≤◌, ◌<◌, ◌≡◌, refl, Bool, true, false, Option, none, some, List, [], ◌∷◌, arith,
  if◌then◌else◌, ◌||◌, leb, Bool-cases, Option-cases, inl, inr, ◌∙◌, sym, ap, subst, if_false,
}
use ttw.Prelude.Word.{sub64}
use ttw.Prelude.Text.{Bytes, eq_bytes, eq_bytes_iff}
use ttw.Prelude.Dict.{find, bytes_key, Distinct, find-remove, remove-Distinct}
use ttw.Sessions.{
  SessionDataMan, get_session_data, has_session_data, del_session_data, del_all, timer, write,
  overtimes, is_overtime, is_valid, refresh_time, with_session,
}

abbrev among : Bytes → List Bytes → Bool
among k [] = false
among k (x ∷ xs) = eq_bytes x k || among k xs

overtimes-among :
    (over : ℕ → Bool) (k : Bytes) (l : List (Bytes × ℕ))
    → Distinct l
    → among k (overtimes over l) ≡ elim (find k l) [ none ↦ false | some p ↦ over p ]
unfolding overtimes find
overtimes-among over k [] d = refl
overtimes-among over k ((j, p) ∷ l) d =
    ground (arith, overtimes-among over k l d.1, eq_bytes_iff j k, d.0)

some_inj : {a b : ℕ} → some a ≡ some b → a ≡ b
some_inj e = cc

answer : (b : Bool) (p : ℕ) → b ≡ elim (if b then some p else none) [ none ↦ false | some _ ↦ true ]
answer true p = refl
answer false p = refl

module _ {V : Type 0} where
  del_all-find :
      (k : Bytes) (ks : List Bytes) (m : SessionDataMan V)
      → Distinct m.sessions
      → find k (del_all ks m).sessions ≡ (if among k ks then none else find k m.sessions)
  unfolding del_all del_session_data
  del_all-find k [] m d = refl
  del_all-find k (j ∷ ks) m d =
      del_all-find k ks (del_session_data j m) (remove-Distinct j m.sessions d)
      ∙ ground (arith, find-remove k j m.sessions d)

  -- `timer` gives up the lock between collecting and deleting, so other operations may run in between. Where each key
  -- has one entry before and after them, whatever they make of the state: the deleting takes out the keys of the sessions that were overtime when they were
  -- collected, also where such a key has a session by now that is not, and no other key.
  pub del_all-overtimes :
      (now : ℕ) (k : Bytes) (m n : SessionDataMan V)
      → Distinct m.sessions
      → Distinct n.sessions
      → find k (del_all (overtimes (is_overtime now m) m.sessions) n).sessions ≡ (
          if elim (find k m.sessions) [ none ↦ false | some p ↦ is_overtime now m p ]
          then none
          else find k n.sessions)
  del_all-overtimes now k m n d c =
      del_all-find k (overtimes (is_overtime now m) m.sessions) n c
      ∙ ap (λ b. if b then none else find k n.sessions)
          (overtimes-among (is_overtime now m) k m.sessions d)

  timer-find :
      (now : ℕ) (k : Bytes) (m : SessionDataMan V)
      → Distinct m.sessions
      → find k (timer now m).sessions ≡ elim (find k m.sessions) [
        | none ↦ none
        | some p ↦ if is_overtime now m p then none else some p
      ]
  unfolding timer
  timer-find now k m d =
      del_all-find k (overtimes (is_overtime now m) m.sessions) m d
      ∙ ground (
        arith,
        overtimes-among (is_overtime now m) k m.sessions d,
        Option-cases (find k m.sessions),
      )

  kept_given :
      (now : ℕ) (k : Bytes) (m : SessionDataMan V) (o : Option ℕ)
      → find k m.sessions ≡ o
      → elim o [ none ↦ none | some p ↦ if is_overtime now m p then none else some p ]
        ≡ (get_session_data now k m).0
  unfolding get_session_data is_overtime is_valid
  kept_given now k m none e = rw (e, get_session_data) refl
  kept_given now k m (some p) e = rw (e, get_session_data) (ground arith)

  -- Where each key has one entry, at one time `timer` leaves for each key what `getSessionData` gives for it:
  -- the sweep deletes just the sessions that are refused.
  pub timer-get_session_data :
      (now : ℕ) (k : Bytes) (m : SessionDataMan V)
      → Distinct m.sessions
      → find k (timer now m).sessions ≡ (get_session_data now k m).0
  timer-get_session_data now k m d =
      timer-find now k m d ∙ kept_given now k m (find k m.sessions) refl

  -- `hasSessionData` answers whether `getSessionData` would give a session, and leaves the same state.
  pub has_session_data_lem :
      (now : ℕ) (k : Bytes) (m : SessionDataMan V)
      → has_session_data now k m ≡ (
        elim (get_session_data now k m).0 [ none ↦ false | some _ ↦ true ],
        (get_session_data now k m).1,
      )
  unfolding has_session_data get_session_data
  has_session_data_lem now k m = elim (Option-cases (find k m.sessions)) [
    | inl e ↦ rw (e, has_session_data, get_session_data) refl
    | inr (p, e) ↦
        rw (e, has_session_data, get_session_data)
          (ap (λ b. (b, with_session p (is_valid now m.ttime (m.heap p)).1 m))
            (answer (is_valid now m.ttime (m.heap p)).0 p))
  ]

  get-none :
      (now : ℕ) (k : Bytes) (m : SessionDataMan V)
      → find k m.sessions ≡ none
      → (get_session_data now k m).0 ≡ none
  unfolding get_session_data
  get-none now k m n = rw (n, get_session_data) refl

  get-valid :
      (now : ℕ) (k : Bytes) (q : ℕ) (m : SessionDataMan V)
      → find k m.sessions ≡ some q
      → leb (sub64 now (m.heap q).time) m.ttime ≡ true
      → get_session_data now k m ≡ (some q, with_session q (refresh_time now (m.heap q)) m)
  unfolding get_session_data is_valid
  get-valid now k q m h v = rw (h, get_session_data) (rw v refl)

  get-refused :
      (now : ℕ) (k : Bytes) (q : ℕ) (m : SessionDataMan V)
      → find k m.sessions ≡ some q
      → leb (sub64 now (m.heap q).time) m.ttime ≡ false
      → (get_session_data now k m).0 ≡ none
  unfolding get_session_data is_valid
  get-refused now k q m h v = rw (h, get_session_data) (rw v refl)

  refreshed :
      (now : ℕ) (k : Bytes) (p : ℕ) (m : SessionDataMan V)
      → (get_session_data now k m).0 ≡ some p
      → (find k m.sessions ≡ some p)
        × ((get_session_data now k m).1 ≡ with_session p (refresh_time now (m.heap p)) m)
  refreshed now k p m e = elim (Option-cases (find k m.sessions)) [
    | inl n ↦ absurd (let none_given = get-none now k m n in cc)
    | inr (q, h) ↦ elim (Bool-cases (leb (sub64 now (m.heap q).time) m.ttime)) [
      | inl v ↦
          let given = get-valid now k q m h v in
          let same : q ≡ p = some_inj (sym (ap (λ x. x.0) given) ∙ e) in
          subst
            (λ x.
              (find k m.sessions ≡ some x)
              × ((get_session_data now k m).1 ≡ with_session x (refresh_time now (m.heap x)) m))
            same (h, ap (λ x. x.1) given)
      | inr v ↦ absurd (let refused = get-refused now k q m h v in cc)
    ]
  ]

  -- Where each key has one entry, a session that `getSessionData` gives is still there after a sweep at most
  -- `m_ttime` later, on a clock that has not wrapped around.
  pub timer-keeps :
      (now later : ℕ) (k : Bytes) (p : ℕ) (m : SessionDataMan V)
      → Distinct m.sessions
      → (get_session_data now k m).0 ≡ some p
      → now ≤ later
      → later ≤ now + m.ttime
      → later < 2 ^ 64
      → find k (timer later (get_session_data now k m).1).sessions ≡ some p
  timer-keeps now later k p m d e h1 h2 h3 =
      let (h, same) = refreshed now k p m e in
      ap (λ n. find k (timer later n).sessions) same
      ∙ timer-find later k (with_session p (refresh_time now (m.heap p)) m) d
      ∙ rw h (
          if_false none (some p)
            (unfold write in unfold refresh_time in unfold is_overtime in ground arith))
