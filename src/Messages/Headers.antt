-- ===== src/Messages/Headers.antt =====
-- The headers of an `HttpMsg` (ttw/http/http.cc) after its operations, and `HttpRequest::init`.
use ttw.Prelude.{
  ◌≡◌, refl, Bool, true, false, ◌&&◌, Option, none, some, [], ◌∷◌, arith, if◌then◌else◌, Bool-cases,
  Option-cases, inl, inr, ap, ◌∙◌,
}
use ttw.Prelude.Text.{Bytes, codes, eq_bytes, eq_bytes_iff}
use ttw.Messages.Names.{c_str}
use ttw.Messages.{
  MapType, look_up, put, lower, same_key, get_value, set_value, HttpMsg, HttpRequest,
  get_header_value, set_header_value, add_header_key, init,
}

pub look_up-put :
    (j k v : Bytes) (m : MapType)
    → look_up j (put k v m) ≡ (if same_key k j then some v else look_up j m)
unfolding look_up put
look_up-put j k v [] = refl
look_up-put j k v ((i, w) ∷ m) = ground (
  arith,
  eq_bytes_iff (lower k) (lower j),
  eq_bytes_iff (lower i) (lower k),
  eq_bytes_iff (lower i) (lower j),
  look_up-put j k v m,
)

-- A header that is added reads as its value under each spelling of its key, and any other header as before.
pub get_header_value-add_header_key :
    (j k v : Bytes) (r : HttpMsg)
    → get_header_value j (add_header_key k v r) ≡ (if same_key k j then v else get_header_value j r)
unfolding get_header_value add_header_key get_value
get_header_value-add_header_key j k v r =
    ap (λ o. elim o [ none ↦ codes "0" | some x ↦ x ]) (look_up-put j k v r.headers)
    ∙ ground (arith, Bool-cases (same_key k j))

look_up-same : (j k : Bytes) (m : MapType) → same_key k j ≡ true → look_up j m ≡ look_up k m
unfolding look_up
look_up-same j k [] h = refl
look_up-same j k ((i, w) ∷ m) h = ground (
  arith,
  eq_bytes_iff (lower k) (lower j),
  eq_bytes_iff (lower i) (lower k),
  eq_bytes_iff (lower i) (lower j),
  look_up-same j k m h,
  h,
)

abbrev pub is_some : Option Bytes → Bool
is_some none = false
is_some (some _) = true

set_header-missing :
    (k v : Bytes) (r : HttpMsg)
    → look_up k r.headers ≡ none
    → (set_header_value k v r).headers ≡ r.headers
unfolding set_header_value set_value
set_header-missing k v r n = rw (n, set_value) refl

set_header-found :
    (k v x : Bytes) (r : HttpMsg)
    → look_up k r.headers ≡ some x
    → (set_header_value k v r).headers ≡ put k v r.headers
unfolding set_header_value set_value
set_header-found k v x r h = rw (h, set_value) refl

-- `setHeaderValue` gives a header that is there its new value, under each spelling of its key, and adds none: every
-- other header reads as before.
pub look_up-set_header_value :
    (j k v : Bytes) (r : HttpMsg)
    → look_up j (set_header_value k v r).headers
      ≡ (if same_key k j && is_some (look_up j r.headers) then some v else look_up j r.headers)
look_up-set_header_value j k v r = elim (Option-cases (look_up k r.headers)) [
  | inl n ↦
      ap (look_up j) (set_header-missing k v r n)
      ∙ ground (arith, n, look_up-same j k r.headers, Option-cases (look_up j r.headers))
  | inr (x, h) ↦
      ap (look_up j) (set_header-found k v x r h)
      ∙ look_up-put j k v r.headers
      ∙ ground (arith, h, look_up-same j k r.headers, Option-cases (look_up j r.headers))
]

-- `init` on a request without a Connection header closes the connection, whatever it was set to: the missing
-- header reads as "0".
pub init-close :
    (r : HttpRequest)
    → look_up (codes "connection") r.msg.headers ≡ none
    → (init r).msg.close ≡ true
unfolding init get_header_value get_value
init-close r n = rw (n, init, get_header_value, get_value) (unfold c_str in unfold eq_bytes in refl)

pub add_header_key-headers :
    (k v : Bytes) (r : HttpMsg) → (add_header_key k v r).headers ≡ put k v r.headers
unfolding add_header_key
add_header_key-headers k v r = refl
