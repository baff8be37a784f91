-- ===== src/Json/Reader/RoundTrip/Rounds.antt =====
-- The tokens of an element in `Reader::parser` (ttw/json/reader.cc): what each round does to the reader.
use ttw.Prelude.{
  ℕ, ◌≡◌, refl, Bool, true, false, some, List, [], ◌∷◌, ◌++◌, arith, ◌==◌, ◌||◌, ap, ◌∙◌, drop,
}
use ttw.Prelude.Text.{Bytes}
use ttw.Json.Value.{Json, object, array, JsonPath, get, modify, append, is_array, is_object}
use ttw.Json.Reader.Tokens.{
  object_begin, object_end, array_begin, array_end, token_string, token_number, token_null,
  token_true, token_separator, token_colon, Legal, only, all_but, classify, is_space, skip_spaces,
  bit,
}
use ttw.Json.Reader.{
  Reader, Ptr, at, ok, handle_token, is_eof, Outcome, put_field, add_json_element, add_to, deref,
  del_container, find_string_end, end_string, read_string, then_legal, after_container,
}
use ttw.Json.Reader.RoundTrip.Plain.{Unquoted, stops_string}
use ttw.Json.Reader.RoundTrip.Steps.{reader_at, Gives, one_round}

-- An element may come next, and the end of one.
abbrev pub Opens : Legal → Type 0
Opens l =
    (l token_string ≡ true)
    × (l token_number ≡ true)
    × (l token_null ≡ true)
    × (l token_true ≡ true)
    × (l array_begin ≡ true)
    × (l object_begin ≡ true)

abbrev pub Closes : Legal → Type 0
Closes l = (l token_separator ≡ true) × (l array_end ≡ true) × (l object_end ≡ true)

-- The container can take an element: an array without a name, an object with one.
abbrev pub Fits : Bytes → Json → Type 0
Fits [] (array xs) = Unit {0}
Fits (c ∷ k) (object fs) = Unit {0}
Fits _ _ = ⊥

abbrev pub fill : Bytes → Json → Json → Json
fill [] v t = append t v
fill (c ∷ k) v t = put_field (c ∷ k) v t

abbrev pub reading : Bytes → List Ptr → Bytes → Legal → Json → Reader
reading = reader_at true

module _ (stod : Bytes → ℕ) (o : Outcome) (cs : Bytes) (legal : Legal) where
  pub comma :
      (stack : List Ptr) (name : Bytes) (root : Json)
      → legal token_separator ≡ true
      → ((l : Legal) → Opens l → Gives stod (reading cs stack name l root) o)
      → Gives stod (reading (b',' ∷ cs) stack name legal root) o
  unfolding handle_token is_eof classify is_space all_but only bit
  comma stack name root e next =
      one_round stod true b',' cs stack name legal root _ o refl e refl refl
        (next _ (refl, refl, refl, refl, refl, refl))

  pub colon :
      (stack : List Ptr) (name : Bytes) (root : Json)
      → legal token_colon ≡ true
      → ((l : Legal) → Opens l → Gives stod (reading cs stack name l root) o)
      → Gives stod (reading (b':' ∷ cs) stack name legal root) o
  unfolding handle_token is_eof classify is_space all_but only bit
  colon stack name root e next =
      one_round stod true b':' cs stack name legal root _ o refl e refl refl
        (next _ (refl, refl, refl, refl, refl, refl))

  module _ (p : JsonPath) (ps : List Ptr) (name : Bytes) (root top : Json)
      (g : get p root ≡ some top) where
    del_container-at :
        (c : ℕ) (is_it : Json → Bool)
        → is_it top ≡ true
        → del_container is_it (reading (c ∷ cs) (at p ∷ ps) name legal root)
          ≡ ok (reading cs ps name legal root)
    unfolding del_container deref
    del_container-at c is_it i = rw (g, del_container) (rw i refl)

    abbrev pub Closed : Type 0
    Closed = (l : Legal) → Closes l → Gives stod (reading cs ps name l root) o

    pub close_array :
        is_array top ≡ true
        → legal array_end ≡ true
        → Closed
        → Gives stod (reading (b']' ∷ cs) (at p ∷ ps) name legal root) o
    unfolding handle_token is_eof classify is_space only bit
    close_array i e next =
        one_round stod true b']' cs (at p ∷ ps) name legal root _ o refl e refl
          (ap (then_legal after_container) (del_container-at b']' is_array i))
          (next _ (refl, refl, refl))

    pub close_object :
        is_object top ≡ true
        → legal object_end ≡ true
        → Closed
        → Gives stod (reading (b'}' ∷ cs) (at p ∷ ps) name legal root) o
    unfolding handle_token is_eof classify is_space only bit
    close_object i e next =
        one_round stod true b'}' cs (at p ∷ ps) name legal root _ o refl e refl
          (ap (then_legal after_container) (del_container-at b'}' is_object i))
          (next _ (refl, refl, refl))

find_string_end-byte :
    (c : ℕ) (xs s close : Bytes)
    → stops_string c ≡ false
    → find_string_end xs ≡ some (s, close)
    → find_string_end (c ∷ xs) ≡ some (c ∷ s, close)
unfolding find_string_end
find_string_end-byte c [] s close h e = cc
find_string_end-byte c (d ∷ xs) s close h e = rw e (ground (arith, h))

find_string_end-Unquoted :
    (s cs : Bytes) → Unquoted s → find_string_end (s ++ (b'"' ∷ cs)) ≡ some (s, b'"' ∷ cs)
find_string_end-Unquoted [] [] h = unfold find_string_end in refl
find_string_end-Unquoted [] (c ∷ cs) h = unfold find_string_end in refl
find_string_end-Unquoted (c ∷ s) cs h =
    find_string_end-byte c (s ++ (b'"' ∷ cs)) s (b'"' ∷ cs) h.0 (find_string_end-Unquoted s cs h.1)

pub read_string-Unquoted :
    (s cs : Bytes) (c : ℕ) (r : Reader)
    → Unquoted s
    → (is_space c || c == b'\r') ≡ false
    → r.rest ≡ b'"' ∷ (s ++ (b'"' ∷ (c ∷ cs)))
    → read_string r ≡ end_string s (c ∷ cs) r
unfolding read_string skip_spaces
read_string-Unquoted s cs c r h n e =
    rw (ap (λ x. find_string_end (drop 1 x)) e ∙ find_string_end-Unquoted s (c ∷ cs) h, read_string)
      (rw n refl)

module _ (val : Json) (rest : Bytes) (p : JsonPath) (ps : List Ptr) (legal : Legal)
    (root : Json) where
  abbrev Filled : Bytes → Reader
  Filled name = reading rest (at p ∷ ps) [] legal (modify p (fill name val) root)

  add_to-Fits :
      (name : Bytes) (top : Json)
      → Fits name top
      → add_to (at p) top val (reading rest (at p ∷ ps) name legal root) ≡ Filled name
  unfolding add_to
  add_to-Fits [] (array xs) h = refl
  add_to-Fits (c ∷ k) (object fs) h = refl
  add_to-Fits name top h = absurd h

  pub add_json_element-Fits :
      (name : Bytes) (top : Json)
      → get p root ≡ some top
      → Fits name top
      → add_json_element val (reading rest (at p ∷ ps) name legal root) ≡ ok (Filled name)
  unfolding add_json_element deref
  add_json_element-Fits name top e h = rw (e, add_json_element) (ap ok (add_to-Fits name top h))
