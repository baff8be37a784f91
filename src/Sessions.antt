-- ===== src/Sessions.antt =====
-- `SessionData` and `SessionDataMan` of ttw/http/http_sessiondata.h and http_sessiondata.cc.
-- A `SessionData::ptr` is an address of the heap of sessions. What `GetCurrentMs` returns is the argument
-- `now`, the address that `new` returns the argument `fresh`. A `boost::any` is a value of the type `V`, and
-- `boost::any_cast<T>` the parameter `any_cast`, which gives nothing where the source's throws.
pub mod Data
pub mod Manage
pub mod Sweep
mod Tests
use ttw.Prelude.{
  ℕ, Bool, true, false, Option, none, some, List, [], ◌∷◌, ltb, leb, ◌==◌, if◌then◌else◌,
}
use ttw.Prelude.Word.{sub64}
use ttw.Prelude.Text.{Bytes}
use ttw.Prelude.Dict.{find, assign, remove, bytes_key}

-- The keys that `timer` collects.
pub overtimes : (ℕ → Bool) → List (Bytes × ℕ) → List Bytes
overtimes over [] = []
overtimes over ((k, p) ∷ l) = let more = overtimes over l in if over p then k ∷ more else more

module _ (V : Type 0) where
  pub record SessionData : Type 0 where
    pub time : ℕ
    pub m_data : List (Bytes × V)

  pub record SessionDataMan : Type 0 where
    pub heap : ℕ → SessionData
    pub sessions : List (Bytes × ℕ)
    pub ttime : ℕ

module _ {V : Type 0} where
  pub session_data : ℕ → SessionData V
  session_data now = record { time = now; m_data = [] }

  -- `getData<T>`
  pub get_data : {T : Type 0} → (V → Option T) → Bytes → T → SessionData V → T
  unfolding find
  get_data any_cast key def d = elim (find key d.m_data) [
    | none ↦ def
    | some v ↦ elim (any_cast v) [ none ↦ def | some t ↦ t ]
  ]

  -- `addDate`: a key that is there keeps its value.
  pub add_date : Bytes → V → SessionData V → SessionData V
  unfolding find assign
  add_date key val d = elim (find key d.m_data) [
    | none ↦ record d { m_data = assign key val d.m_data }
    | some _ ↦ d
  ]

  pub add_dates : List (Bytes × V) → SessionData V → SessionData V
  unfolding add_date
  add_dates [] d = d
  add_dates ((k, v) ∷ datas) d = add_dates datas (add_date k v d)

  pub set_date : Bytes → V → SessionData V → SessionData V
  unfolding assign
  set_date key val d = record d { m_data = assign key val d.m_data }

  pub set_dates : List (Bytes × V) → SessionData V → SessionData V
  unfolding set_date
  set_dates [] d = d
  set_dates ((k, v) ∷ datas) d = set_dates datas (set_date k v d)

  pub del_date : Bytes → SessionData V → SessionData V
  unfolding remove
  del_date key d = record d { m_data = remove key d.m_data }

  pub refresh_time : ℕ → SessionData V → SessionData V
  refresh_time now d = record d { time = now }

  -- `isValid`: the session is refreshed where it is valid.
  pub is_valid : ℕ → ℕ → SessionData V → Bool × SessionData V
  unfolding refresh_time
  is_valid now time d =
      if leb (sub64 now d.time) time then (true, refresh_time now d) else (false, d)

  pub write : (ℕ → SessionData V) → ℕ → SessionData V → ℕ → SessionData V
  write h p d q = if q == p then d else h q

  abbrev pub with_session : ℕ → SessionData V → SessionDataMan V → SessionDataMan V
  with_session p d m = record m { heap = write m.heap p d }

  pub session_data_man : (ℕ → SessionData V) → ℕ → SessionDataMan V
  session_data_man h timertime = record { heap = h; sessions = []; ttime = timertime }

  pub has_session_data : ℕ → Bytes → SessionDataMan V → Bool × SessionDataMan V
  unfolding find is_valid write
  has_session_data now key m = elim (find key m.sessions) [
    | none ↦ (false, m)
    | some p ↦ (let (valid, d) = is_valid now m.ttime (m.heap p) in (valid, with_session p d m))
  ]

  pub get_session_data : ℕ → Bytes → SessionDataMan V → Option ℕ × SessionDataMan V
  unfolding find is_valid write
  get_session_data now key m = elim (find key m.sessions) [
    | none ↦ (none, m)
    | some p ↦
        (let (valid, d) = is_valid now m.ttime (m.heap p) in
          (if valid then some p else none, with_session p d m))
  ]

  pub del_session_data : Bytes → SessionDataMan V → SessionDataMan V
  unfolding remove
  del_session_data key m = record m { sessions = remove key m.sessions }

  -- The two forms of `setSessionData`.
  pub set_session_datas : Bytes → List (Bytes × V) → SessionDataMan V → SessionDataMan V
  unfolding find set_dates write
  set_session_datas key datas m = elim (find key m.sessions) [
    | none ↦ m
    | some p ↦ with_session p (set_dates datas (m.heap p)) m
  ]

  pub set_session_data : Bytes → Bytes → V → SessionDataMan V → SessionDataMan V
  unfolding find set_date write
  set_session_data key key1 any m = elim (find key m.sessions) [
    | none ↦ m
    | some p ↦ with_session p (set_date key1 any (m.heap p)) m
  ]

  pub add_session_data : ℕ → ℕ → Bytes → SessionDataMan V → SessionDataMan V
  unfolding assign session_data write
  add_session_data fresh now key m = record (with_session fresh (session_data now) m) {
    sessions = assign key fresh m.sessions;
  }

  pub is_overtime : ℕ → SessionDataMan V → ℕ → Bool
  is_overtime now m p = ltb m.ttime (sub64 now (m.heap p).time)

  pub del_all : List Bytes → SessionDataMan V → SessionDataMan V
  unfolding del_session_data
  del_all [] m = m
  del_all (k ∷ ks) m = del_all ks (del_session_data k m)

  -- The run in which no other operation comes in between: the source gives up the lock after collecting, and
  -- `delSessionData` takes it again for each key.
  pub timer : ℕ → SessionDataMan V → SessionDataMan V
  unfolding is_overtime overtimes del_all
  timer now m = del_all (overtimes (is_overtime now m) m.sessions) m
