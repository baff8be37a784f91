-- ===== src/Json/Reader/RoundTrip/Values.antt =====
-- `Reader::parser` (ttw/json/reader.cc) on the prints of elements, items and fields inside a container.
use ttw.Prelude.{
  ℕ, ◌≡◌, refl, Bool, true, false, List, [], ◌∷◌, ◌++◌, ap, sym, ◌∙◌, subst, append_assoc,
}
use ttw.Prelude.Text.{Bytes}
use ttw.Json.Value.{
  Json, object, array, Items, nil, cons, Fields, end, field, JsonPath, append, push_item,
}
use ttw.Json.Print.{to_string, items_to_string, fields_to_string}
use ttw.Json.Reader.Tokens.{token_string, token_separator, array_end, object_end, Legal}
use ttw.Json.Reader.{Ptr, at, Outcome}
use ttw.Json.Reader.RoundTrip.Members.{add_items, add_fields}
use ttw.Json.Reader.RoundTrip.Steps.{Gives}
use ttw.Json.Reader.RoundTrip.Rounds.{Opens, Closes, Fits, fill, reading, comma}
use ttw.Json.Reader.RoundTrip.Scalars.{follows}
use ttw.Json.Reader.RoundTrip.Places.{Around}

-- The first item may be followed by the end, a later one by a comma too.
abbrev pub Ready : Bool → Legal → Type 0
Ready true l = (l array_end ≡ true) × Opens l
Ready false l = (l array_end ≡ true) × (l token_separator ≡ true)

-- An object is not empty, and its first key stands without a comma.
abbrev pub FieldsReady : Bool → Fields → Legal → Type 0
FieldsReady true end l = ⊥
FieldsReady true fs l = l token_string ≡ true
FieldsReady false fs l = (l object_end ≡ true) × (l token_separator ≡ true)

module _ (show_float show_double : ℕ → Bytes) (stod : Bytes → ℕ) (o : Outcome) where
  abbrev print : Json → Bytes
  print = to_string show_float show_double

  abbrev print_items : Bool → Items → Bytes
  print_items = items_to_string show_float show_double

  abbrev print_fields : Bool → Fields → Bytes
  print_fields = fields_to_string show_float show_double

  pub items-follow :
      (xs : Items) (rest : Bytes)
      → (c : ℕ) × (cs : Bytes) × (print_items false xs ++ (b']' ∷ rest) ≡ c ∷ cs)
        × (follows c ≡ true)
  unfolding items_to_string
  items-follow nil rest = (b']', rest, refl, refl)
  items-follow (cons x xs) rest = (b',', _, refl, refl)

  pub fields-follow :
      (fs : Fields) (rest : Bytes)
      → (c : ℕ) × (cs : Bytes) × (print_fields false fs ++ (b'}' ∷ rest) ≡ c ∷ cs)
        × (follows c ≡ true)
  unfolding fields_to_string
  fields-follow end rest = (b'}', rest, refl, refl)
  fields-follow (field k v fs) rest = (b',', _, refl, refl)

  -- From the text on, the loop comes to the outcome, with the element `v` added to the container `top`.
  abbrev pub Adds : Json → Type 0
  Adds v =
      (c : ℕ) (cs : Bytes) (p : JsonPath) (ps : List Ptr) (name : Bytes) (legal : Legal)
      (w : Json → Json) (top : Json)
      → follows c ≡ true
      → Around p w
      → Fits name top
      → Opens legal
      → ((l : Legal)
          → Closes l
          → Gives stod (reading (c ∷ cs) (at p ∷ ps) [] l (w (fill name v top))) o)
      → Gives stod (reading (print v ++ (c ∷ cs)) (at p ∷ ps) name legal (w top)) o

  abbrev pub AddsItems : Items → Type 0
  AddsItems xs =
      (first : Bool) (rest : Bytes) (p : JsonPath) (ps : List Ptr) (legal : Legal) (w : Json → Json)
      (ys : Items)
      → Around p w
      → Ready first legal
      → ((l : Legal)
          → l array_end ≡ true
          → Gives stod (reading (b']' ∷ rest) (at p ∷ ps) [] l (w (add_items xs (array ys)))) o)
      → Gives stod
          (reading (print_items first xs ++ (b']' ∷ rest)) (at p ∷ ps) [] legal (w (array ys))) o

  abbrev pub AddsFields : Fields → Type 0
  AddsFields fs =
      (first : Bool) (rest : Bytes) (p : JsonPath) (ps : List Ptr) (legal : Legal) (w : Json → Json)
      (gs : Fields)
      → Around p w
      → FieldsReady first fs legal
      → ((l : Legal)
          → l object_end ≡ true
          → Gives stod (reading (b'}' ∷ rest) (at p ∷ ps) [] l (w (add_fields fs (object gs)))) o)
      → Gives stod
          (reading (print_fields first fs ++ (b'}' ∷ rest)) (at p ∷ ps) [] legal (w (object gs))) o

  -- An item behind its comma, and the items behind it.
  item-items :
      (x : Json) (xs : Items)
      → Adds x
      → AddsItems xs
      → (rest : Bytes) (p : JsonPath) (ps : List Ptr) (legal : Legal) (w : Json → Json) (ys : Items)
      → Around p w
      → Opens legal
      → ((l : Legal)
          → l array_end ≡ true
          → Gives stod
              (reading (b']' ∷ rest) (at p ∷ ps) [] l (w (add_items (cons x xs) (array ys))))
              o)
      → Gives stod
          (reading
            ((print x ++ print_items false xs) ++ (b']' ∷ rest))
            (at p ∷ ps)
            []
            legal
            (w (array ys)))
          o
  unfolding append
  item-items x xs add more rest p ps legal w ys a opens next =
      let (c, cs, e, f) = items-follow xs rest in
      subst (λ z. Gives stod (reading z (at p ∷ ps) [] legal (w (array ys))) o)
        (sym
          (append_assoc (print x) (print_items false xs) (b']' ∷ rest) ∙ ap (λ z. print x ++ z) e))
        (add c cs p ps [] legal w (array ys) f a tt opens (λ l closes.
          subst (λ z. Gives stod (reading z (at p ∷ ps) [] l (w (array (push_item x ys)))) o) e
            (more false rest p ps l w (push_item x ys) a (closes.1, closes.0) next)))

  pub AddsItems-cons : (x : Json) (xs : Items) → Adds x → AddsItems xs → AddsItems (cons x xs)
  unfolding items_to_string
  AddsItems-cons x xs add more true rest p ps legal w ys a ready next =
      item-items x xs add more rest p ps legal w ys a ready.1 next
  AddsItems-cons x xs add more false rest p ps legal w ys a ready next =
      comma stod o _ legal (at p ∷ ps) [] (w (array ys)) ready.1
        (λ l opens. item-items x xs add more rest p ps l w ys a opens next)

  pub AddsItems-nil : AddsItems nil
  unfolding items_to_string
  AddsItems-nil true rest p ps legal w ys a ready next = next legal ready.0
  AddsItems-nil false rest p ps legal w ys a ready next = next legal ready.0
