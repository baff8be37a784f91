-- ===== src/Json/Reader/RoundTrip/Pointers.antt =====
-- Reads and writes through the pointers of `Reader` (ttw/json/reader.h).
use ttw.Prelude.{
  ℕ, zero, suc, ◌≡◌, refl, some, [], ◌∷◌, ◌++◌, arith, sym, ap, ◌∙◌, Option-cases, inl, inr,
}
use ttw.Prelude.Text.{Bytes, eq_bytes_self}
use ttw.Json.Value.{
  Json, object, array, Fields, end, field, Items, nil, cons, find_field, set_field, get_item,
  push_item, set_item, length_items, Place, key, index, child, replace_child, JsonPath, get, modify,
}

module _ (k : Bytes) where
  pub find_field-set_field : (v : Json) (fs : Fields) → find_field k (set_field k v fs) ≡ some v
  unfolding find_field set_field
  find_field-set_field v end = ground (arith, eq_bytes_self k)
  find_field-set_field v (field j w fs) = ground (arith, eq_bytes_self k, find_field-set_field v fs)

  pub set_field_twice :
      (v w : Json) (fs : Fields) → set_field k v (set_field k w fs) ≡ set_field k v fs
  unfolding set_field
  set_field_twice v w end = ground (arith, eq_bytes_self k)
  set_field_twice v w (field j u fs) = ground (arith, eq_bytes_self k, set_field_twice v w fs)

pub get_item-push_item :
    (v : Json) (xs : Items) → get_item (length_items xs) (push_item v xs) ≡ some v
unfolding get_item length_items push_item
get_item-push_item v nil = refl
get_item-push_item v (cons x xs) = get_item-push_item v xs

pub set_item-push_item :
    (v w : Json) (xs : Items) → set_item (length_items xs) v (push_item w xs) ≡ push_item v xs
unfolding set_item length_items push_item
set_item-push_item v w nil = refl
set_item-push_item v w (cons x xs) = ap (cons x) (set_item-push_item v w xs)

get_item-set_item :
    (i : ℕ) (c d : Json) (xs : Items)
    → get_item i xs ≡ some d
    → get_item i (set_item i c xs) ≡ some c
unfolding get_item set_item
get_item-set_item i c d nil e = cc
get_item-set_item zero c d (cons x xs) e = refl
get_item-set_item (suc i) c d (cons x xs) e = get_item-set_item i c d xs e

set_item_twice :
    (i : ℕ) (c d : Json) (xs : Items) → set_item i c (set_item i d xs) ≡ set_item i c xs
unfolding set_item
set_item_twice i c d nil = refl
set_item_twice zero c d (cons x xs) = refl
set_item_twice (suc i) c d (cons x xs) = ap (cons x) (set_item_twice i c d xs)

-- What is written to a child is read from it, and a second write replaces the first.
child-replace_child :
    (i : Place) (c j d : Json) → child i j ≡ some d → child i (replace_child i c j) ≡ some c
unfolding child replace_child
child-replace_child (key k) c (object fs) d e = find_field-set_field k c fs
child-replace_child (index i) c (array xs) d e = get_item-set_item i c d xs e
child-replace_child i c j d e = cc

replace_child_twice :
    (i : Place) (c d j : Json) → replace_child i c (replace_child i d j) ≡ replace_child i c j
unfolding replace_child
replace_child_twice (key k) c d (object fs) = ap object (set_field_twice k c d fs)
replace_child_twice (index i) c d (array xs) = ap array (set_item_twice i c d xs)
replace_child_twice i c d j = refl

module _ (i : Place) (j c : Json) (e : child i j ≡ some c) where
  get-child : (p : JsonPath) → get (i ∷ p) j ≡ get p c
  unfolding get
  get-child p = rw (e, get) refl

  modify-child :
      (p : JsonPath) (f : Json → Json) → modify (i ∷ p) f j ≡ replace_child i (modify p f c) j
  unfolding modify
  modify-child p f = rw (e, modify) refl

-- A path that leads somewhere begins with a child.
get-cons :
    (i : Place) (p : JsonPath) (j top : Json)
    → get (i ∷ p) j ≡ some top
    → (c : Json) × (child i j ≡ some c) × (get p c ≡ some top)
get-cons i p j top e = elim (Option-cases (child i j)) [
  | inl n ↦ absurd (unfold get in cc)
  | inr (c, s) ↦ (c, s, sym (get-child i j c s p) ∙ e)
]

-- A write behind a write above it is one write.
pub modify-modify :
    (p r : JsonPath) (f g h : Json → Json) (j top : Json)
    → get p j ≡ some top
    → modify r g (f top) ≡ h top
    → modify (p ++ r) g (modify p f j) ≡ modify p h j
modify-modify [] r f g h j top e m = unfold get modify in cc
modify-modify (i ∷ p) r f g h j top e m =
    let (c, ec, et) = get-cons i p j top e in
    ap (modify (i ∷ (p ++ r)) g) (modify-child i j c ec p f)
    ∙ modify-child i (replace_child i (modify p f c) j) (modify p f c)
        (child-replace_child i (modify p f c) j c ec) (p ++ r) g
    ∙ replace_child_twice i (modify (p ++ r) g (modify p f c)) (modify p f c) j
    ∙ ap (λ x. replace_child i x j) (modify-modify p r f g h c top et m)
    ∙ sym (modify-child i j c ec p h)

-- What is read behind a write is read from what was written.
pub get-modify :
    (p r : JsonPath) (f : Json → Json) (j top : Json)
    → get p j ≡ some top
    → get (p ++ r) (modify p f j) ≡ get r (f top)
get-modify [] r f j top e = unfold get modify in cc
get-modify (i ∷ p) r f j top e =
    let (c, ec, et) = get-cons i p j top e in
    ap (get (i ∷ (p ++ r))) (modify-child i j c ec p f)
    ∙ get-child i (replace_child i (modify p f c) j) (modify p f c)
        (child-replace_child i (modify p f c) j c ec) (p ++ r)
    ∙ get-modify p r f c top et
