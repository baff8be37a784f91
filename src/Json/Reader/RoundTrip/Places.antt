-- ===== src/Json/Reader/RoundTrip/Places.antt =====
-- The element that the top pointer of `Reader` (ttw/json/reader.h) stands for, and the root around it.
use ttw.Prelude.{◌≡◌, refl, some, [], ◌∷◌, ◌++◌, ap, sym, ◌∙◌}
use ttw.Prelude.Text.{Bytes}
use ttw.Json.Value.{Json, object, array, child, replace_child, JsonPath, get, modify, size, append}
use ttw.Json.Reader.RoundTrip.Pointers.{
  modify-modify, get-modify, find_field-set_field, set_field_twice, get_item-push_item,
  set_item-push_item,
}
use ttw.Json.Reader.RoundTrip.Rounds.{Fits, fill}
use ttw.Json.Reader.RoundTrip.Scalars.{place}

-- The root is given by the element at the path: it is read there, and a write there is a write to it.
abbrev pub Around : JsonPath → (Json → Json) → Type 0
Around p w =
    ((t : Json) → get p (w t) ≡ some t)
    × ((g : Json → Json) (t : Json) → modify p g (w t) ≡ w (g t))

pub root-Around : Around [] (λ t. t)
unfolding get modify
root-Around = (λ t. refl, λ g t. refl)

get-fill :
    (name : Bytes) (t top : Json)
    → Fits name top
    → get (place name top ∷ []) (fill name t top) ≡ some t
unfolding get child append size
get-fill [] t (array xs) h = rw (get_item-push_item t xs, get) refl
get-fill (c ∷ k) t (object fs) h = rw (find_field-set_field (c ∷ k) t fs, get) refl
get-fill name t top h = absurd h

modify-fill :
    (name : Bytes) (g : Json → Json) (t top : Json)
    → Fits name top
    → modify (place name top ∷ []) g (fill name t top) ≡ fill name (g t) top
unfolding modify child replace_child append size
modify-fill [] g t (array xs) h =
    rw (get_item-push_item t xs, modify) (ap array (set_item-push_item (g t) t xs))
modify-fill (c ∷ k) g t (object fs) h =
    rw (find_field-set_field (c ∷ k) t fs, modify) (ap object (set_field_twice (c ∷ k) (g t) t fs))
modify-fill name g t top h = absurd h

-- The root around an element that is added to a container.
pub fill-Around :
    (p : JsonPath) (w : Json → Json) (name : Bytes) (top : Json)
    → Around p w
    → Fits name top
    → Around (p ++ (place name top ∷ [])) (λ t. w (fill name t top))
fill-Around p w name top a h = (
  λ t.
      ap (get (p ++ (place name top ∷ []))) (sym (a.1 (fill name t) top))
      ∙ get-modify p (place name top ∷ []) (fill name t) (w top) top (a.0 top)
      ∙ get-fill name t top h,
  λ g t.
      ap (modify (p ++ (place name top ∷ [])) g) (sym (a.1 (fill name t) top))
      ∙ modify-modify p (place name top ∷ []) (fill name t) g (fill name (g t)) (w top) top
          (a.0 top) (modify-fill name g t top h)
      ∙ a.1 (fill name (g t)) top,
)
