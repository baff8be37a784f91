-- ===== src/Sessions/Manage.antt =====
-- The invariant of a `SessionDataMan` (ttw/http/http_sessiondata.cc), along all its histories.
use ttw.Prelude.{
  ℕ, ◌≡◌, ◌≢◌, refl, true, false, some, List, [], ◌∷◌, arith, if◌then◌else◌, Bool-cases,
  Option-cases, inl, inr, ◌⊎◌, ◌∙◌, sym, subst,
}
use ttw.Prelude.Text.{Bytes, eq_bytes, eq_bytes_iff}
use ttw.Prelude.Dict.{
  find, assign, remove, bytes_key, Distinct, find-assign, find-remove, assign-Distinct,
  remove-Distinct,
}
use ttw.Sessions.{
  SessionData, SessionDataMan, session_data_man, has_session_data, get_session_data,
  del_session_data, set_session_datas, set_session_data, add_session_data, del_all, timer, write,
  overtimes, is_overtime,
}

module _ {V : Type 0} where
  -- Each key has one entry, and each session one key.
  pub record IsSessions (m : SessionDataMan V) : Type 0 where
    pub distinct : Distinct m.sessions
    pub one_key :
        (j k : Bytes) (p : ℕ) → find j m.sessions ≡ some p → find k m.sessions ≡ some p → j ≡ k

  -- `new` returns an address that no session of the map has.
  abbrev pub Fresh : ℕ → SessionDataMan V → Type 0
  Fresh p m = (k : Bytes) → find k m.sessions ≢ some p

  IsSessions-same : (m n : SessionDataMan V) → n.sessions ≡ m.sessions → IsSessions m → IsSessions n
  IsSessions-same m n e is = record {
    distinct = subst Distinct (sym e) is.distinct;
    one_key =
        subst (λ l. (j k : Bytes) (p : ℕ) → find j l ≡ some p → find k l ≡ some p → j ≡ k) (sym e)
          is.one_key;
  }

  has_session_data-sessions :
      (now : ℕ) (key : Bytes) (m : SessionDataMan V)
      → (has_session_data now key m).1.sessions ≡ m.sessions
  unfolding has_session_data
  has_session_data-sessions now key m = ground (arith, Option-cases (find key m.sessions))

  get_session_data-sessions :
      (now : ℕ) (key : Bytes) (m : SessionDataMan V)
      → (get_session_data now key m).1.sessions ≡ m.sessions
  unfolding get_session_data
  get_session_data-sessions now key m = ground (arith, Option-cases (find key m.sessions))

  set_session_datas-sessions :
      (key : Bytes) (datas : List (Bytes × V)) (m : SessionDataMan V)
      → (set_session_datas key datas m).sessions ≡ m.sessions
  unfolding set_session_datas
  set_session_datas-sessions key datas m = ground (arith, Option-cases (find key m.sessions))

  set_session_data-sessions :
      (key key1 : Bytes) (any : V) (m : SessionDataMan V)
      → (set_session_data key key1 any m).sessions ≡ m.sessions
  unfolding set_session_data
  set_session_data-sessions key key1 any m = ground (arith, Option-cases (find key m.sessions))

  pub del_session_data-IsSessions :
      (key : Bytes) (m : SessionDataMan V) → IsSessions m → IsSessions (del_session_data key m)
  unfolding del_session_data
  del_session_data-IsSessions key m is = record {
    distinct = remove-Distinct key m.sessions is.distinct;
    one_key = λ j k p x y. is.one_key j k p (still j p x) (still k p y);
  }
    where
      still :
          (j : Bytes) (p : ℕ) → find j (remove key m.sessions) ≡ some p → find j m.sessions ≡ some p
      still j p x = ground (arith, find-remove j key m.sessions is.distinct, x)

  add_session_data-IsSessions :
      (fresh now : ℕ) (key : Bytes) (m : SessionDataMan V)
      → Fresh fresh m
      → IsSessions m
      → IsSessions (add_session_data fresh now key m)
  unfolding add_session_data
  add_session_data-IsSessions fresh now key m new is = record {
    distinct = assign-Distinct key fresh m.sessions is.distinct;
    one_key =
        λ j k p x y. one j k p x y (Bool-cases (eq_bytes key j)) (Bool-cases (eq_bytes key k));
  }
    where
      found :
          (j : Bytes) (p : ℕ)
          → find j (assign key fresh m.sessions) ≡ some p
          → (if eq_bytes key j then some fresh else find j m.sessions) ≡ some p
      found j p x = sym (find-assign j key fresh m.sessions) ∙ x

      one :
          (j k : Bytes) (p : ℕ)
          → find j (assign key fresh m.sessions) ≡ some p
          → find k (assign key fresh m.sessions) ≡ some p
          → ((eq_bytes key j ≡ true) ⊎ (eq_bytes key j ≡ false))
          → ((eq_bytes key k ≡ true) ⊎ (eq_bytes key k ≡ false))
          → j ≡ k
      one j k p x y (inl a) (inl b) = sym ((eq_bytes_iff key j).0 a) ∙ (eq_bytes_iff key k).0 b
      one j k p x y (inl a) (inr b) = absurd (ground (arith, found j p x, found k p y, a, b, new k))
      one j k p x y (inr a) (inl b) = absurd (ground (arith, found j p x, found k p y, a, b, new j))
      one j k p x y (inr a) (inr b) =
          is.one_key j k p (ground (arith, found j p x, a)) (ground (arith, found k p y, b))

  del_all-IsSessions :
      (ks : List Bytes) (m : SessionDataMan V) → IsSessions m → IsSessions (del_all ks m)
  unfolding del_all
  del_all-IsSessions [] m is = is
  del_all-IsSessions (k ∷ ks) m is =
      del_all-IsSessions ks (del_session_data k m) (del_session_data-IsSessions k m is)

  pub data Step (m : SessionDataMan V) : SessionDataMan V → Type 0 where
    has : (now : ℕ) (key : Bytes) → Step m (has_session_data now key m).1
    get : (now : ℕ) (key : Bytes) → Step m (get_session_data now key m).1
    del : (key : Bytes) → Step m (del_session_data key m)
    set_all : (key : Bytes) (datas : List (Bytes × V)) → Step m (set_session_datas key datas m)
    set_one : (key key1 : Bytes) (any : V) → Step m (set_session_data key key1 any m)
    add : (fresh now : ℕ) (key : Bytes) → Fresh fresh m → Step m (add_session_data fresh now key m)
    sweep : (now : ℕ) → Step m (timer now m)

  pub data Reach (m : SessionDataMan V) : SessionDataMan V → Type 0 where
    here : Reach m m
    next : {n k : SessionDataMan V} → Reach m n → Step n k → Reach m k

  Step-IsSessions : {m n : SessionDataMan V} → Step m n → IsSessions m → IsSessions n
  unfolding timer
  Step-IsSessions {m} (has now key) is =
      IsSessions-same m _ (has_session_data-sessions now key m) is
  Step-IsSessions {m} (get now key) is =
      IsSessions-same m _ (get_session_data-sessions now key m) is
  Step-IsSessions {m} (del key) is = del_session_data-IsSessions key m is
  Step-IsSessions {m} (set_all key datas) is =
      IsSessions-same m _ (set_session_datas-sessions key datas m) is
  Step-IsSessions {m} (set_one key key1 any) is =
      IsSessions-same m _ (set_session_data-sessions key key1 any m) is
  Step-IsSessions {m} (add fresh now key new) is =
      add_session_data-IsSessions fresh now key m new is
  Step-IsSessions {m} (sweep now) is =
      del_all-IsSessions (overtimes (is_overtime now m) m.sessions) m is

  Reach-keeps : {m n : SessionDataMan V} → Reach m n → IsSessions m → IsSessions n
  Reach-keeps here is = is
  Reach-keeps (next r s) is = Step-IsSessions s (Reach-keeps r is)

  -- Along every history of the operations from the constructor on, with fresh addresses from `new`, each key
  -- has one entry and each session one key.
  pub Reach-IsSessions :
      (h : ℕ → SessionData V) (timertime : ℕ) (m : SessionDataMan V)
      → Reach (session_data_man h timertime) m
      → IsSessions m
  unfolding session_data_man find
  Reach-IsSessions h timertime m r =
      Reach-keeps r (record { distinct = tt; one_key = λ j k p x y. cc })

  -- Where each session has one key, what `setSessionData` writes for a key changes no other key's session.
  pub set_session_data-other :
      (j k key1 : Bytes) (any : V) (q : ℕ) (m : SessionDataMan V)
      → IsSessions m
      → j ≢ k
      → find j m.sessions ≡ some q
      → (set_session_data k key1 any m).heap q ≡ m.heap q
  unfolding set_session_data write
  set_session_data-other j k key1 any q m is n e = elim (Option-cases (find k m.sessions)) [
    | inl h ↦ rw (h, set_session_data) refl
    | inr (p, h) ↦ rw (h, set_session_data) (ground (arith, is.one_key j k q e, h, n))
  ]
