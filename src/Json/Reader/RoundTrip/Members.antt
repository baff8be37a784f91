-- ===== src/Json/Reader/RoundTrip/Members.antt =====
-- The members of an array or an object added one by one, as `addJsonElement` of ttw/json/reader.cc does.
use ttw.Prelude.{◌≡◌, refl, true, false, [], ◌∷◌, arith, ap, sym, ◌∙◌}
use ttw.Prelude.Text.{Bytes, eq_bytes, less_bytes}
use ttw.Json.Value.{
  Json, object, array, Items, nil, cons, Fields, end, field, push_item, set_field, append,
}
use ttw.Json.Reader.{put_field}
use ttw.Json.Reader.RoundTrip.Plain.{Before, FieldsArePlain}

abbrev pub add_items : Items → Json → Json
add_items nil t = t
add_items (cons x xs) t = add_items xs (append t x)

abbrev pub add_fields : Fields → Json → Json
add_fields end t = t
add_fields (field k v fs) t = add_fields fs (put_field k v t)

abbrev joined : Items → Items → Items
joined nil ys = ys
joined (cons x xs) ys = cons x (joined xs ys)

abbrev joined_fields : Fields → Fields → Fields
joined_fields end gs = gs
joined_fields (field k v fs) gs = field k v (joined_fields fs gs)

joined-push_item : (x : Json) (xs ys : Items) → joined (push_item x xs) ys ≡ joined xs (cons x ys)
unfolding push_item
joined-push_item x nil ys = refl
joined-push_item x (cons z xs) ys = ap (cons z) (joined-push_item x xs ys)

joined-nil : (xs : Items) → joined xs nil ≡ xs
joined-nil nil = refl
joined-nil (cons x xs) = ap (cons x) (joined-nil xs)

add_items-joined : (ys xs : Items) → add_items ys (array xs) ≡ array (joined xs ys)
unfolding append
add_items-joined nil xs = ap array (sym (joined-nil xs))
add_items-joined (cons y ys) xs =
    add_items-joined ys (push_item y xs) ∙ ap array (joined-push_item y xs ys)

-- The items of an array, added to an empty one, give this array.
pub add_items-array : (xs : Items) → add_items xs (array nil) ≡ array xs
add_items-array xs = add_items-joined xs nil

abbrev AllBefore : Fields → Fields → Type 0
AllBefore end fs = Unit {0}
AllBefore (field k v gs) fs = Before k fs × AllBefore gs fs

less_bytes-lem :
    (a b : Bytes) → less_bytes a b ≡ true → (eq_bytes a b ≡ false) × (less_bytes b a ≡ false)
unfolding less_bytes eq_bytes
less_bytes-lem [] [] h = cc
less_bytes-lem [] (y ∷ ys) h = (refl, refl)
less_bytes-lem (x ∷ xs) [] h = cc
less_bytes-lem (x ∷ xs) (y ∷ ys) h = ground (arith, less_bytes-lem xs ys, h)

joined-end : (gs : Fields) → joined_fields gs end ≡ gs
joined-end end = refl
joined-end (field k v gs) = ap (field k v) (joined-end gs)

module _ (k : Bytes) (v : Json) (fs : Fields) where
  set_field-last :
      (gs : Fields)
      → AllBefore gs (field k v fs)
      → set_field k v gs ≡ joined_fields gs (field k v end)
  unfolding set_field
  set_field-last end h = refl
  set_field-last (field j w gs) h =
      let (apart, behind) = less_bytes-lem j k h.0.0 in
      rw apart (rw behind (ap (field j w) (set_field-last gs h.1)))

  joined-last :
      (gs : Fields)
      → joined_fields (joined_fields gs (field k v end)) fs ≡ joined_fields gs (field k v fs)
  joined-last end = refl
  joined-last (field j w gs) = ap (field j w) (joined-last gs)

  AllBefore-last :
      (gs : Fields)
      → AllBefore gs (field k v fs)
      → Before k fs
      → AllBefore (joined_fields gs (field k v end)) fs
  AllBefore-last end h b = (b, tt)
  AllBefore-last (field j w gs) h b = (h.0.1, AllBefore-last gs h.1 b)

add_fields-joined :
    (fs gs : Fields)
    → FieldsArePlain fs
    → AllBefore gs fs
    → add_fields fs (object gs) ≡ object (joined_fields gs fs)
add_fields-joined end gs h b = ap object (sym (joined-end gs))
add_fields-joined (field k v fs) gs h b =
    ap (λ x. add_fields fs (object x)) (set_field-last k v fs gs b)
    ∙ add_fields-joined fs (joined_fields gs (field k v end)) h.3 (AllBefore-last k v fs gs b h.2)
    ∙ ap object (joined-last k v fs gs)

-- The fields of an object whose keys ascend, added to an empty one, give this object.
pub add_fields-object : (fs : Fields) → FieldsArePlain fs → add_fields fs (object end) ≡ object fs
add_fields-object fs h = add_fields-joined fs end h tt
