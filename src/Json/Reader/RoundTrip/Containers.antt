-- ===== src/Json/Reader/RoundTrip/Containers.antt =====
-- `Reader::parser` (ttw/json/reader.cc) on the prints of fields, arrays and objects.
use ttw.Prelude.{
  ℕ, ◌≡◌, refl, Bool, true, false, List, [], ◌∷◌, ◌++◌, ap, sym, ◌∙◌, subst, append_assoc,
}
use ttw.Prelude.Text.{Bytes}
use ttw.Json.Value.{Json, object, array, Items, nil, Fields, end, field, JsonPath, set_field}
use ttw.Json.Print.{to_string, items_to_string, fields_to_string}
use ttw.Json.Reader.Tokens.{token_string, object_end, Legal, only, all_but, bit, classify, is_space}
use ttw.Json.Reader.Digits.{snoc-append}
use ttw.Json.Reader.{Ptr, at, ok, Outcome, handle_token, is_eof, add_array, add_object, then_legal}
use ttw.Json.Reader.RoundTrip.Plain.{FieldsArePlain, IsKey, Unquoted}
use ttw.Json.Reader.RoundTrip.Members.{add_fields, add_items-array, add_fields-object}
use ttw.Json.Reader.RoundTrip.Steps.{Gives, one_round}
use ttw.Json.Reader.RoundTrip.Rounds.{fill, reading, comma, close_array, close_object}
use ttw.Json.Reader.RoundTrip.Scalars.{place, key_colon, add_container-Fits}
use ttw.Json.Reader.RoundTrip.Places.{Around, fill-Around}
use ttw.Json.Reader.RoundTrip.Values.{FieldsReady, Adds, AddsItems, AddsFields, fields-follow}

module _ (show_float show_double : ℕ → Bytes) (stod : Bytes → ℕ) (o : Outcome) where
  abbrev print : Json → Bytes
  print = to_string show_float show_double

  abbrev print_items : Bool → Items → Bytes
  print_items = items_to_string show_float show_double

  abbrev print_fields : Bool → Fields → Bytes
  print_fields = fields_to_string show_float show_double

  abbrev AddsFields1 : Fields → Type 0
  AddsFields1 = AddsFields show_float show_double stod o

  abbrev AddsItems1 : Items → Type 0
  AddsItems1 = AddsItems show_float show_double stod o

  abbrev Adds1 : Json → Type 0
  Adds1 = Adds show_float show_double stod o

  -- The text of a field behind its comma.
  key_text :
      (k text more rest : Bytes)
      → ((b'"' ∷ (k ++ (b'"' ∷ []))) ++ (b':' ∷ (text ++ more))) ++ rest
        ≡ b'"' ∷ (k ++ (b'"' ∷ (b':' ∷ (text ++ (more ++ rest)))))
  key_text k text more rest =
      ap (λ z. b'"' ∷ (z ++ rest)) (snoc-append b'"' k (b':' ∷ (text ++ more)))
      ∙ ap (λ z. b'"' ∷ z) (append_assoc k (b'"' ∷ (b':' ∷ (text ++ more))) rest)
      ∙ ap (λ z. b'"' ∷ (k ++ (b'"' ∷ (b':' ∷ z)))) (append_assoc text more rest)

  field-fields :
      (b : ℕ) (k : Bytes) (v : Json) (fs : Fields)
      → Unquoted (b ∷ k)
      → Adds1 v
      → AddsFields1 fs
      → (rest : Bytes) (p : JsonPath) (ps : List Ptr) (legal : Legal) (w : Json → Json)
        (gs : Fields)
      → Around p w
      → legal token_string ≡ true
      → ((l : Legal)
          → l object_end ≡ true
          → Gives stod
              (reading
                (b'}' ∷ rest)
                (at p ∷ ps)
                []
                l
                (w (add_fields (field (b ∷ k) v fs) (object gs))))
              o)
      → Gives stod
          (reading
            (((b'"' ∷ ((b ∷ k) ++ (b'"' ∷ []))) ++ (b':' ∷ (print v ++ print_fields false fs)))
              ++ (b'}' ∷ rest))
            (at p ∷ ps)
            []
            legal
            (w (object gs)))
          o
  field-fields b k v fs u add more rest p ps legal w gs a e next =
      let (c, cs, e1, f) = fields-follow show_float show_double stod o fs rest in
      subst (λ z. Gives stod (reading z (at p ∷ ps) [] legal (w (object gs))) o)
        (sym (
          key_text (b ∷ k) (print v) (print_fields false fs) (b'}' ∷ rest)
          ∙ ap (λ z. b'"' ∷ ((b ∷ k) ++ (b'"' ∷ (b':' ∷ (print v ++ z))))) e1))
        (key_colon stod o (b ∷ k) (print v ++ (c ∷ cs)) (at p ∷ ps) legal (w (object gs)) u e
          (λ l opens. add c cs p ps (b ∷ k) l w (object gs) f a tt opens (λ l2 closes.
            subst
              (λ z.
                Gives stod (reading z (at p ∷ ps) [] l2 (w (object (set_field (b ∷ k) v gs)))) o)
              e1 (more false rest p ps l2 w (set_field (b ∷ k) v gs) a (closes.2, closes.0) next))))

  pub AddsFields-field :
      (k : Bytes) (v : Json) (fs : Fields)
      → IsKey k
      → Adds1 v
      → AddsFields1 fs
      → AddsFields1 (field k v fs)
  unfolding fields_to_string
  AddsFields-field [] v fs u add more first rest p ps legal w gs a ready next = absurd u
  AddsFields-field (b ∷ k) v fs u add more true rest p ps legal w gs a ready next =
      field-fields b k v fs u add more rest p ps legal w gs a ready next
  AddsFields-field (b ∷ k) v fs u add more false rest p ps legal w gs a ready next =
      comma stod o _ legal (at p ∷ ps) [] (w (object gs)) ready.1
        (λ l opens. field-fields b k v fs u add more rest p ps l w gs a opens.0 next)

  pub AddsFields-end : AddsFields1 end
  unfolding fields_to_string
  AddsFields-end true rest p ps legal w gs a ready next = absurd ready
  AddsFields-end false rest p ps legal w gs a ready next = next legal ready.0

  -- The new array inside a container is filled, and closed.
  pub Adds-array : (xs : Items) → AddsItems1 xs → Adds1 (array xs)
  unfolding to_string handle_token add_array is_eof classify is_space all_but only bit
  Adds-array xs items c cs p ps name legal w top f a h opens next =
      subst (λ z. Gives stod (reading (b'[' ∷ z) (at p ∷ ps) name legal (w top)) o)
        (sym (snoc-append b']' (print_items true xs) (c ∷ cs)))
        (one_round stod true b'[' body (at p ∷ ps) name legal (w top) _ o refl opens.4 refl
          (ap (then_legal _) (
            add_container-Fits (array nil) b'[' body p ps legal (w top) name top (a.0 top) h
            ∙ ap (λ z. ok (reading body (at q ∷ at p ∷ ps) [] legal z))
                (a.1 (fill name (array nil)) top)))
          (items true (c ∷ cs) q (at p ∷ ps) _ outward nil held
            (refl, (refl, refl, refl, refl, refl, refl))
            (λ l e.
              subst
                (λ z. Gives stod (reading (b']' ∷ (c ∷ cs)) (at q ∷ at p ∷ ps) [] l (outward z)) o)
                (sym (add_items-array xs))
                (close_array stod o (c ∷ cs) l q (at p ∷ ps) [] (outward (array xs)) (array xs)
                  (held.0 (array xs)) refl e next))))
    where
      body : Bytes
      body = print_items true xs ++ (b']' ∷ (c ∷ cs))

      q : JsonPath
      q = p ++ (place name top ∷ [])

      outward : Json → Json
      outward t = w (fill name t top)

      held : Around q outward
      held = fill-Around p w name top a h

  -- The new object inside a container is filled, and closed.
  pub Adds-object :
      (fs : Fields)
      → FieldsArePlain fs
      → FieldsReady true fs (only (token_string ∷ []))
      → AddsFields1 fs
      → Adds1 (object fs)
  unfolding to_string handle_token add_object is_eof classify is_space all_but only bit
  Adds-object fs plain ready fields c cs p ps name legal w top f a h opens next =
      subst (λ z. Gives stod (reading (b'{' ∷ z) (at p ∷ ps) name legal (w top)) o)
        (sym (snoc-append b'}' (print_fields true fs) (c ∷ cs)))
        (one_round stod true b'{' body (at p ∷ ps) name legal (w top) _ o refl opens.5 refl
          (ap (then_legal _) (
            add_container-Fits (object end) b'{' body p ps legal (w top) name top (a.0 top) h
            ∙ ap (λ z. ok (reading body (at q ∷ at p ∷ ps) [] legal z))
                (a.1 (fill name (object end)) top)))
          (fields true (c ∷ cs) q (at p ∷ ps) _ outward end held ready (λ l e.
            subst
              (λ z. Gives stod (reading (b'}' ∷ (c ∷ cs)) (at q ∷ at p ∷ ps) [] l (outward z)) o)
              (sym (add_fields-object fs plain))
              (close_object stod o (c ∷ cs) l q (at p ∷ ps) [] (outward (object fs)) (object fs)
                (held.0 (object fs)) refl e next))))
    where
      body : Bytes
      body = print_fields true fs ++ (b'}' ∷ (c ∷ cs))

      q : JsonPath
      q = p ++ (place name top ∷ [])

      outward : Json → Json
      outward t = w (fill name t top)

      held : Around q outward
      held = fill-Around p w name top a h
