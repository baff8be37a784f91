-- ===== src/Json/Reader/RoundTrip/Elements.antt =====
-- `Reader::parser` (ttw/json/reader.cc) on the print of any plain element inside a container.
use ttw.Prelude.{ℕ, refl, true, false, [], ◌∷◌, sym, subst}
use ttw.Prelude.Text.{Bytes}
use ttw.Json.Value.{
  Json, object, array, boolean, string, int, uint, long, ulong, float, double, json_null, Items,
  nil, cons, Fields, end, field,
}
use ttw.Json.Print.{to_string, show_bool}
use ttw.Json.Reader.{Outcome, at}
use ttw.Json.Reader.Tokens.{only, bit}
use ttw.Json.Reader.Digits.{snoc-append}
use ttw.Json.Reader.RoundTrip.Plain.{IsPlain, ItemsArePlain, FieldsArePlain}
use ttw.Json.Reader.RoundTrip.Steps.{Gives}
use ttw.Json.Reader.RoundTrip.Rounds.{reading, fill}
use ttw.Json.Reader.RoundTrip.Scalars.{string_value, null_value, true_value, int_value}
use ttw.Json.Reader.RoundTrip.Values.{Adds, AddsItems, AddsFields, AddsItems-cons, AddsItems-nil}
use ttw.Json.Reader.RoundTrip.Containers.{AddsFields-field, AddsFields-end, Adds-array, Adds-object}

module _ (show_float show_double : ℕ → Bytes) (stod : Bytes → ℕ) (o : Outcome) where
  abbrev Adds1 : Json → Type 0
  Adds1 = Adds show_float show_double stod o

  mutual
    unfolding to_string show_bool only bit

    pub value : (v : Json) → IsPlain v → Adds1 v
    value (object end) h = absurd h
    value (object (field k v fs)) h =
        Adds-object show_float show_double stod o (field k v fs) h refl (fields (field k v fs) h)
    value (array xs) h = Adds-array show_float show_double stod o xs (items xs h)
    value (boolean true) h = λ c cs p ps name legal w top f a fits opens next.
        true_value stod o c cs f p ps name legal (w top) top (a.0 top) fits opens (λ l closes.
          subst (λ z. Gives stod (reading (c ∷ cs) (at p ∷ ps) [] l z) o)
            (sym (a.1 (fill name (boolean true)) top)) (next l closes))
    value (boolean false) h = absurd h
    value (string s) h = λ c cs p ps name legal w top f a fits opens next.
        subst (λ z. Gives stod (reading (b'"' ∷ z) (at p ∷ ps) name legal (w top)) o)
          (sym (snoc-append b'"' s (c ∷ cs)))
          (string_value stod o c cs f p ps name legal (w top) top (a.0 top) fits opens s h
            (λ l closes.
              subst (λ z. Gives stod (reading (c ∷ cs) (at p ∷ ps) [] l z) o)
                (sym (a.1 (fill name (string s)) top)) (next l closes)))
    value (int n) h = λ c cs p ps name legal w top f a fits opens next.
        int_value stod o c cs f p ps name legal (w top) top (a.0 top) fits opens n h.0 h.1
          (λ l closes.
            subst (λ z. Gives stod (reading (c ∷ cs) (at p ∷ ps) [] l z) o)
              (sym (a.1 (fill name (int n)) top)) (next l closes))
    value json_null h = λ c cs p ps name legal w top f a fits opens next.
        null_value stod o c cs f p ps name legal (w top) top (a.0 top) fits opens (λ l closes.
          subst (λ z. Gives stod (reading (c ∷ cs) (at p ∷ ps) [] l z) o)
            (sym (a.1 (fill name json_null) top)) (next l closes))
    value (uint n) h = absurd h
    value (long n) h = absurd h
    value (ulong n) h = absurd h
    value (float n) h = absurd h
    value (double n) h = absurd h

    pub items : (xs : Items) → ItemsArePlain xs → AddsItems show_float show_double stod o xs
    items nil h = AddsItems-nil show_float show_double stod o
    items (cons x xs) h =
        AddsItems-cons show_float show_double stod o x xs (value x h.0) (items xs h.1)

    pub fields : (fs : Fields) → FieldsArePlain fs → AddsFields show_float show_double stod o fs
    fields end h = AddsFields-end show_float show_double stod o
    fields (field k v fs) h =
        AddsFields-field show_float show_double stod o k v fs h.0 (value v h.1) (fields fs h.3)
