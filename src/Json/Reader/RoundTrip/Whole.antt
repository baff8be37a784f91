-- ===== src/Json/Reader/RoundTrip/Whole.antt =====
-- `toString` (ttw/json/jsonelement.cc) and then `Reader::parser` (ttw/json/reader.cc) on a whole element.
use ttw.Prelude.{
  ℕ, zero, suc, ◌≡◌, refl, ◌≢◌, Bool, true, false, not, [], ◌∷◌, sym, subst, length, if◌then◌else◌,
}
use ttw.Prelude.Text.{Bytes}
use ttw.Json.Value.{Json, object, array, nil, end, field, modify}
use ttw.Json.Print.{to_string}
use ttw.Json.Reader.Tokens.{Legal, only, all_but, bit, classify, is_space, scan}
use ttw.Json.Reader.{
  Reader, Run, ok, fault, thrown, at, Outcome, parsed, faulted, raised, out_of_fuel, parser_loop,
  parser, reader, handle_token, is_eof, is_empty, add_array, add_object, add_container,
}
use ttw.Json.Reader.Total.{parser_total}
use ttw.Json.Reader.RoundTrip.Plain.{IsPlain}
use ttw.Json.Reader.RoundTrip.Members.{add_items-array, add_fields-object}
use ttw.Json.Reader.RoundTrip.Steps.{Gives, one_round}
use ttw.Json.Reader.RoundTrip.Rounds.{reading, close_array, close_object}
use ttw.Json.Reader.RoundTrip.Places.{root-Around}
use ttw.Json.Reader.RoundTrip.Elements.{items, fields}

-- The element is a container, as the first token of a text is.
abbrev pub IsContainer : Json → Type 0
IsContainer (object fs) = Unit {0}
IsContainer (array xs) = Unit {0}
IsContainer _ = ⊥

-- The second outcome is the first one, unless it is for want of fuel.
abbrev Agree : Outcome → Outcome → Outcome → Type 0
Agree o x y = x ≡ o → y ≢ out_of_fuel → y ≡ o

choice-Agree :
    (o : Outcome) (b : Bool) (x y z : Outcome)
    → Agree o y z
    → Agree o (if b then x else y) (if b then x else z)
choice-Agree o true x y z a = λ e n. e
choice-Agree o false x y z a = a

-- More fuel does not change what the loop comes to.
parser_loop-Agree :
    (stod : Bytes → ℕ) (o : Outcome) (n : o ≢ out_of_fuel) (f g : ℕ) (r : Reader)
    → Agree o (parser_loop stod f r) (parser_loop stod g r)
unfolding parser_loop
parser_loop-Agree stod o n zero g r = λ e m. absurd (n (sym e))
parser_loop-Agree stod o n (suc f) zero r = λ e m. absurd (m refl)
parser_loop-Agree stod o n (suc f) (suc g) r = choice-Agree o r.is_error _ _ _ (
    choice-Agree o (is_empty r.rest) _ _ _ (
      choice-Agree o (not (r.legal (scan r.rest).0)) _ _ _ (
        choice-Agree o (is_eof (scan r.rest).0) _ _ _ (
          after (parser_loop-Agree stod o n f g)
            (handle_token stod (scan r.rest).0 (record r { rest = (scan r.rest).1 }))))))
  where
    after :
        ((t : Reader) → Agree o (parser_loop stod f t) (parser_loop stod g t))
        → (m : Run)
        → Agree o
            (elim m [ ok t ↦ parser_loop stod f t | fault ↦ faulted | thrown ↦ raised ])
            (elim m [ ok t ↦ parser_loop stod g t | fault ↦ faulted | thrown ↦ raised ])
    after same (ok t) = same t
    after same fault = λ e m. e
    after same thrown = λ e m. e

module _ (show_float show_double : ℕ → Bytes) (stod : Bytes → ℕ) where
  -- The text is at its end.
  at_end : (l : Legal) (root : Json) → Gives stod (reading [] [] [] l root) (parsed true root)
  unfolding parser_loop
  at_end l root = (1, refl)

  whole :
      (v old : Json)
      → IsContainer v
      → IsPlain v
      → Gives stod (reader (to_string show_float show_double v) old) (parsed true v)
  unfolding to_string reader handle_token add_array add_object add_container is_eof classify
      is_space only all_but bit modify
  whole (array xs) old c h =
      one_round stod false b'[' _ (at [] ∷ []) [] _ old _ (parsed true (array xs)) refl refl refl
        refl
        (items show_float show_double stod (parsed true (array xs)) xs h true [] [] [] _ (λ t. t)
          nil root-Around (refl, (refl, refl, refl, refl, refl, refl))
          (λ l e.
            subst
              (λ z. Gives stod (reading (b']' ∷ []) (at [] ∷ []) [] l z) (parsed true (array xs)))
              (sym (add_items-array xs))
              (close_array stod (parsed true (array xs)) [] l [] [] [] (array xs) (array xs)
                (root-Around.0 (array xs)) refl e (λ l2 closes. at_end l2 (array xs)))))
  whole (object end) old c h = absurd h
  whole (object (field k v fs)) old c h =
      one_round stod false b'{' _ (at [] ∷ []) [] _ old _ (parsed true (object (field k v fs))) refl
        refl refl refl
        (fields show_float show_double stod (parsed true (object (field k v fs))) (field k v fs) h
          true [] [] [] _ (λ t. t) end root-Around refl
          (λ l e.
            subst
              (λ z.
                Gives stod (reading (b'}' ∷ []) (at [] ∷ []) [] l z)
                  (parsed true (object (field k v fs))))
              (sym (add_fields-object (field k v fs) h))
              (close_object stod (parsed true (object (field k v fs))) [] l [] [] []
                (object (field k v fs)) (object (field k v fs))
                (root-Around.0 (object (field k v fs))) refl e
                (λ l2 closes. at_end l2 (object (field k v fs))))))
  whole v old c h = absurd c

  -- The reader of the text that is printed for a plain array or object accepts it, and the element
  -- that it has read is the one that was printed, whatever the element was before. Plain are null,
  -- true, texts and keys without a quote or a backslash, ints of 32 bits whose print does not begin
  -- with 5, arrays of plain elements, and non-empty objects of plain elements whose keys ascend and are
  -- not empty.
  pub parser-to_string :
      (v old : Json)
      → IsContainer v
      → IsPlain v
      → parser stod (to_string show_float show_double v) old ≡ parsed true v
  unfolding parser
  parser-to_string v old c h =
      let (f, e) = whole v old c h in
      let text : Bytes = to_string show_float show_double v in
      parser_loop-Agree stod (parsed true v) (λ q. cc) f (suc (suc (length text))) (reader text old)
        e (parser_total stod text old)
