-- ===== src/Json/Objects.antt =====
-- What a write through a pointer or a key of a `JsonElement` (ttw/json/jsonelement.h) leaves to read.
use ttw.Prelude.{
  ◌≡◌, refl, Option, none, some, arith, if◌then◌else◌, Option-cases, sym, subst, inl, inr, ◌∙◌,
}
use ttw.Prelude.Text.{Bytes, eq_bytes, eq_bytes_iff}
use ttw.Json.Value.{Json, object, at_key, Fields, end, field, find_field, set_field}

-- A key that was set reads as the value, and any other key as before.
find_field-set_field :
    (j k : Bytes) (v : Json) (fs : Fields)
    → find_field j (set_field k v fs) ≡ (if eq_bytes k j then some v else find_field j fs)
unfolding find_field set_field
find_field-set_field j k v end = refl
find_field-set_field j k v (field i w fs) =
    ground
      (arith, eq_bytes_iff k j, eq_bytes_iff i k, eq_bytes_iff i j, find_field-set_field j k v fs)

objects_same :
    {v w : Json} {fs gs : Fields}
    → ◌≡◌ {A = Option (Json × Json)} (some (v, object fs)) (some (w, object gs))
    → (v ≡ w) × (fs ≡ gs)
objects_same e = (cc, cc)

found-field :
    (k : Bytes) (v : Json) (fs : Fields)
    → find_field k fs ≡ some v
    → at_key k (object fs) ≡ some (v, object fs)
unfolding at_key
found-field k v fs h = rw (h, at_key) refl

missing-field :
    (k : Bytes) (fs : Fields)
    → find_field k fs ≡ none
    → at_key k (object fs) ≡ some (object end, object (set_field k (object end) fs))
unfolding at_key
missing-field k fs h = rw (h, at_key) refl

-- After `operator[]` on a key of an object, the key reads as the element that it gave, and any other key as
-- before.
pub at_key-find_field :
    (j k : Bytes) (v : Json) (fs gs : Fields)
    → at_key k (object fs) ≡ some (v, object gs)
    → find_field j gs ≡ (if eq_bytes k j then some v else find_field j fs)
at_key-find_field j k v fs gs e = elim (Option-cases (find_field k fs)) [
  | inl n ↦
      let (same, rest) = objects_same (sym (missing-field k fs n) ∙ e) in
      subst (λ x. find_field j x ≡ (if eq_bytes k j then some v else find_field j fs)) rest
        (subst
          (λ x.
            find_field j (set_field k (object end) fs)
            ≡ (if eq_bytes k j then some x else find_field j fs))
          same (find_field-set_field j k (object end) fs))
  | inr (w, h) ↦
      let (same, rest) = objects_same (sym (found-field k w fs h) ∙ e) in
      subst (λ x. find_field j x ≡ (if eq_bytes k j then some v else find_field j fs)) rest
        (subst (λ x. find_field j fs ≡ (if eq_bytes k j then some x else find_field j fs)) same
          (ground (arith, h, eq_bytes_iff k j)))
]
