-- ===== src/Json/Reader/RoundTrip/Scalars.antt =====
-- Strings, keys, numbers and words in `Reader::parser` (ttw/json/reader.cc), and the beginning of a container.
use ttw.Prelude.{
  ℕ, suc, ◌≡◌, refl, subst, Bool, true, false, some, List, [], ◌∷◌, ◌++◌, arith, ◌==◌, ◌||◌, ap,
  sym, ◌∙◌,
}
use ttw.Prelude.Int.{ℤ, pos, negsuc}
use ttw.Prelude.Text.{Bytes, codes, eq_bytes}
use ttw.Json.Value.{
  Json, object, array, boolean, string, int, json_null, Place, key, index, JsonPath, get, modify,
  size,
}
use ttw.Json.Print.{show_int, show_nat}
use ttw.Json.Reader.Tokens.{
  token_string, token_number, Legal, only, bit, classify, is_space, is_digit,
}
use ttw.Json.Reader.Digits.{InInt, Stops, read_number-show_int, show_nat-Printed}
use ttw.Json.Reader.{
  Reader, Ptr, at, ok, handle_token, is_eof, Outcome, add_json_element, deref, open_in,
  add_container, end_string, read_null, read_true, read_bool, then_legal, after_value, ◌>>=◌,
}
use ttw.Json.Reader.RoundTrip.Plain.{Unquoted, starts_five}
use ttw.Json.Reader.RoundTrip.Steps.{Gives, one_round}
use ttw.Json.Reader.RoundTrip.Rounds.{
  Opens, Closes, Fits, fill, reading, add_json_element-Fits, read_string-Unquoted, colon,
}

-- The bytes that stand behind an element inside a container.
abbrev pub follows : ℕ → Bool
follows c = c == b',' || c == b']' || c == b'}'

no_space : (c : ℕ) → follows c ≡ true → (is_space c || c == b'\r') ≡ false
unfolding is_space
no_space c f = ground (arith, f)

Stops-follows : (c : ℕ) (cs : Bytes) → follows c ≡ true → Stops (c ∷ cs)
unfolding is_digit
Stops-follows c cs f = (ground (arith, f), λ e. ground (arith, f, e))

end_string-follows :
    (s cs : Bytes) (c : ℕ) (r : Reader)
    → follows c ≡ true
    → end_string s (c ∷ cs) r ≡ add_json_element (string s) (record r { rest = c ∷ cs })
unfolding end_string
end_string-follows s cs c r f = ground (arith, f)

-- What is printed for an int begins with a byte that `scan` takes for a number.
show_int-classify :
    (z : ℤ)
    → starts_five (show_int z) ≡ false
    → (c : ℕ) × (ds : Bytes) × (show_int z ≡ c ∷ ds)
      × (classify c ≡ token_number)
      × (is_space c ≡ false)
unfolding show_int classify is_space is_digit
show_int-classify (pos n) h =
    let (c, ds, e, d, v) = show_nat-Printed n in
    let five : (c == b'5') ≡ false = sym (ap starts_five e) ∙ h in
    (c, ds ++ [], e, ground (arith, d.0, five), ground (arith, d.0))
show_int-classify (negsuc n) h = (b'-', show_nat (suc n), refl, refl, refl)

module _ (stod : Bytes → ℕ) (o : Outcome) (c : ℕ) (cs : Bytes) (f : follows c ≡ true) (p : JsonPath)
    (ps : List Ptr) (name : Bytes) (legal : Legal) (root top : Json) (g : get p root ≡ some top)
    (h : Fits name top) (opens : Opens legal) where
  -- How the loop goes on behind the element.
  abbrev pub Next : Json → Type 0
  Next v =
      (l : Legal)
      → Closes l
      → Gives stod (reading (c ∷ cs) (at p ∷ ps) [] l (modify p (fill name v) root)) o

  pub string_value :
      (s : Bytes)
      → Unquoted s
      → Next (string s)
      → Gives stod (reading (b'"' ∷ (s ++ (b'"' ∷ (c ∷ cs)))) (at p ∷ ps) name legal root) o
  unfolding handle_token is_eof classify is_space only bit
  string_value s u next =
      one_round stod true b'"' (s ++ (b'"' ∷ (c ∷ cs))) (at p ∷ ps) name legal root _ o refl opens.0
        refl
        (ap (then_legal _) (
          read_string-Unquoted s cs c here u (no_space c f) refl
          ∙ end_string-follows s cs c here f
          ∙ add_json_element-Fits (string s) (c ∷ cs) p ps legal root name top g h))
        (next _ (refl, refl, refl))
    where
      here : Reader
      here = reading (b'"' ∷ (s ++ (b'"' ∷ (c ∷ cs)))) (at p ∷ ps) name legal root

  pub null_value :
      Next json_null → Gives stod (reading (codes "null" ++ (c ∷ cs)) (at p ∷ ps) name legal root) o
  unfolding handle_token is_eof classify is_space only bit read_null eq_bytes
  null_value next =
      one_round stod true b'n' (codes "ull" ++ (c ∷ cs)) (at p ∷ ps) name legal root _ o refl
        opens.2 refl
        (ap (then_legal after_value)
          (add_json_element-Fits json_null (c ∷ cs) p ps legal root name top g h))
        (next _ (refl, refl, refl))

  pub true_value :
      Next (boolean true)
      → Gives stod (reading (codes "true" ++ (c ∷ cs)) (at p ∷ ps) name legal root) o
  unfolding handle_token is_eof classify is_space only bit read_true read_bool eq_bytes
  true_value next =
      one_round stod true b't' (codes "rue" ++ (c ∷ cs)) (at p ∷ ps) name legal root _ o refl
        opens.3 refl
        (ap (then_legal after_value)
          (add_json_element-Fits (boolean true) (c ∷ cs) p ps legal root name top g h))
        (next _ (refl, refl, refl))

  pub int_value :
      (z : ℤ)
      → InInt z
      → starts_five (show_int z) ≡ false
      → Next (int z)
      → Gives stod (reading (show_int z ++ (c ∷ cs)) (at p ∷ ps) name legal root) o
  unfolding handle_token is_eof only bit
  int_value z b five next =
      let (c1, ds, e, number, black) = show_int-classify z five in
      let text : show_int z ++ (c ∷ cs) ≡ c1 ∷ (ds ++ (c ∷ cs)) = ap (λ x. x ++ (c ∷ cs)) e in
      let here : Reader = reading (c1 ∷ (ds ++ (c ∷ cs))) (at p ∷ ps) name legal root in
      subst (λ x. Gives stod (reading x (at p ∷ ps) name legal root) o) (sym text)
        (one_round stod true c1 (ds ++ (c ∷ cs)) (at p ∷ ps) name legal root _ o black
          (ap legal number ∙ opens.1) (ap is_eof number)
          (ap (λ x. handle_token stod x here) number
            ∙ (ap (then_legal after_value) (
                read_number-show_int stod z (c ∷ cs) here b (Stops-follows c cs f) (sym text)
                ∙ ap (λ m. m >>= λ s. ok (record s { rest = c ∷ cs }))
                    (add_json_element-Fits (int z) (c1 ∷ (ds ++ (c ∷ cs))) p ps legal root name top
                      g h))))
          (next _ (refl, refl, refl)))

-- A key and its colon, where no name is set.
pub key_colon :
    (stod : Bytes → ℕ) (o : Outcome) (k cs : Bytes) (stack : List Ptr) (legal : Legal) (root : Json)
    → Unquoted k
    → legal token_string ≡ true
    → ((l : Legal) → Opens l → Gives stod (reading cs stack k l root) o)
    → Gives stod (reading (b'"' ∷ (k ++ (b'"' ∷ (b':' ∷ cs)))) stack [] legal root) o
unfolding handle_token is_eof classify is_space only bit end_string
key_colon stod o k cs stack legal root u e next =
    one_round stod true b'"' (k ++ (b'"' ∷ (b':' ∷ cs))) stack [] legal root _ o refl e refl
      (ap (then_legal _) (read_string-Unquoted k cs b':' _ u refl refl))
      (colon stod o cs _ stack k root refl next)

abbrev pub place : Bytes → Json → Place
place [] top = index (size top)
place (c ∷ k) top = key (c ∷ k)

-- `addArray` and `addObject` inside a container: the new element, and the pointer to it.
module _ (t : Json) (c : ℕ) (cs : Bytes) (p : JsonPath) (ps : List Ptr) (legal : Legal)
    (root : Json) where
  abbrev pub Opened : Bytes → Json → Reader
  Opened name top =
      reading cs (at (p ++ (place name top ∷ [])) ∷ at p ∷ ps) [] legal
        (modify p (fill name t) root)

  open_in-Fits :
      (name : Bytes) (top : Json)
      → Fits name top
      → open_in (at p) top t (reading (c ∷ cs) (at p ∷ ps) name legal root) ≡ Opened name top
  unfolding open_in
  open_in-Fits [] (array xs) h = refl
  open_in-Fits (c ∷ k) (object fs) h = refl
  open_in-Fits name top h = absurd h

  pub add_container-Fits :
      (name : Bytes) (top : Json)
      → get p root ≡ some top
      → Fits name top
      → add_container t (reading (c ∷ cs) (at p ∷ ps) name legal root) ≡ ok (Opened name top)
  unfolding add_container deref
  add_container-Fits name top e h = rw (e, add_container) (ap ok (open_in-Fits name top h))
