-- ===== src/Sessions/Tests.antt =====
-- Runs of a `SessionDataMan`, and the theorems on it at small states.
use ttw.Prelude.{ℕ, ◌≡◌, refl, false, none, some, List, [], ◌∷◌, arith}
use ttw.Prelude.Text.{Bytes, codes, eq_bytes}
use ttw.Prelude.Dict.{find, assign, bytes_key}
use ttw.Sessions.{
  SessionData, SessionDataMan, session_data_man, add_session_data, get_session_data, timer,
  session_data, add_dates, set_dates, get_data, del_all, overtimes, is_overtime,
}
use ttw.Sessions.Manage.{Reach-IsSessions, Reach, here, next, add}
use ttw.Sessions.Sweep.{del_all-overtimes, timer-get_session_data, timer-keeps}

abbrev no_session : ℕ → SessionData ℕ
no_session p = session_data 0

abbrev nobody : SessionDataMan ℕ
nobody = session_data_man no_session 100

abbrev one : SessionDataMan ℕ
one = add_session_data 1 1000 (codes "al") nobody

abbrev two : SessionDataMan ℕ
two = add_session_data 2 1050 (codes "bob") one

two-Reach : Reach nobody two
unfolding session_data_man add_session_data
two-Reach =
    next (next here (add 1 1000 (codes "al") (λ k. λ e. unfold find in cc)))
      (add 2 1050 (codes "bob") (λ k. λ e. unfold find in unfold assign in ground (arith, e)))

sweep_two : find (codes "al") (timer 1101 two).sessions ≡ none
unfolding timer session_data_man add_session_data find eq_bytes
sweep_two = refl

abbrev filled : SessionData ℕ
filled = record { time = 5; m_data = (codes "a", 1) ∷ [] }

abbrev pairs : List (Bytes × ℕ)
pairs = (codes "a", 2) ∷ (codes "b", 3) ∷ (codes "b", 4) ∷ []

add_pairs : get_data (λ v. some v) (codes "b") 0 (add_dates pairs filled) ≡ 3
unfolding get_data add_dates eq_bytes
add_pairs = refl

set_pairs : get_data (λ v. some v) (codes "b") 0 (set_dates pairs filled) ≡ 4
unfolding get_data set_dates eq_bytes
set_pairs = refl

timer-get_session_data_example :
    find (codes "bob") (timer 1101 two).sessions ≡ (get_session_data 1101 (codes "bob") two).0
unfolding session_data_man add_session_data
timer-get_session_data_example =
    timer-get_session_data 1101 (codes "bob") two
      (Reach-IsSessions no_session 100 two two-Reach).distinct

timer-keeps_example :
    find (codes "bob") (timer 1190 (get_session_data 1100 (codes "bob") two).1).sessions ≡ some 2
unfolding session_data_man add_session_data get_session_data eq_bytes
timer-keeps_example =
    timer-keeps 1100 1190 (codes "bob") 2 two
      (Reach-IsSessions no_session 100 two two-Reach).distinct refl (omega arith)
      (unfold session_data_man in unfold add_session_data in omega arith) (omega arith)

-- A login anew between the two parts of the sweep, and its state.
abbrev anew : SessionDataMan ℕ
anew = add_session_data 3 1101 (codes "al") two

anew-Reach : Reach nobody anew
unfolding session_data_man add_session_data
anew-Reach =
    next two-Reach
      (add 3 1101 (codes "al") (λ k. λ e. unfold find in unfold assign in ground (arith, e)))

still_valid : is_overtime 1101 anew 3 ≡ false
unfolding is_overtime session_data_man add_session_data find assign eq_bytes
still_valid = refl

-- The new session is deleted all the same.
del_all-overtimes_example :
    find (codes "al") (del_all (overtimes (is_overtime 1101 two) two.sessions) anew).sessions ≡ none
unfolding session_data_man add_session_data find assign is_overtime eq_bytes
del_all-overtimes_example =
    del_all-overtimes 1101 (codes "al") two anew
      (Reach-IsSessions no_session 100 two two-Reach).distinct
      (Reach-IsSessions no_session 100 anew anew-Reach).distinct
