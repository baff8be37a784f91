-- ===== src/Json/Print.antt =====
-- `JsonElement::toString` of ttw/json/jsonelement.cc. What the stream prints for a `float` and for a
-- `double` are the parameters `show_float` and `show_double`.
use ttw.Prelude.{
  ◌≡◌, refl, ℕ, zero, suc, ◌+◌, ◌/◌, ◌%◌, Bool, true, false, [], ◌∷◌, ◌++◌, if◌then◌else◌, ltb,
}
use ttw.Prelude.Int.{ℤ, pos, negsuc}
use ttw.Prelude.Text.{Bytes, codes}
use ttw.Json.Value.{
  Json, object, array, boolean, string, int, uint, long, ulong, float, double, json_null, Items,
  nil, cons, Fields, end, field,
}

-- The decimal digits of a number, in front of a text; the number itself is enough fuel.
unfoldable pub digits_onto : ℕ → ℕ → Bytes → Bytes
digits_onto zero n rest = rest
digits_onto (suc f) n rest =
    let out = (b'0' + n % 10) ∷ rest in
    let more = digits_onto f (n / 10) out in if ltb n 10 then out else more

unfoldable pub show_nat : ℕ → Bytes
unfolding digits_onto
show_nat n = digits_onto (suc n) n []

unfoldable pub show_int : ℤ → Bytes
unfolding show_nat
show_int (pos n) = show_nat n
show_int (negsuc n) = b'-' ∷ show_nat (suc n)

unfoldable pub show_bool : Bool → Bytes
show_bool true = codes "true"
show_bool false = codes "false"

abbrev quoted : Bytes → Bytes
quoted s = b'"' ∷ (s ++ (b'"' ∷ []))

module _ (show_float show_double : ℕ → Bytes) where
  unfoldable mutual
    unfolding show_nat show_int show_bool

    pub to_string : Json → Bytes
    to_string (object fs) = b'{' ∷ (fields_to_string true fs ++ (b'}' ∷ []))
    to_string (array xs) = b'[' ∷ (items_to_string true xs ++ (b']' ∷ []))
    to_string (boolean b) = show_bool b
    to_string (string s) = quoted s
    to_string (int n) = show_int n
    to_string (uint n) = show_nat n
    to_string (long n) = show_int n
    to_string (ulong n) = show_nat n
    to_string (float n) = show_float n
    to_string (double n) = show_double n
    to_string json_null = codes "null"

    -- The flag is `it == begin()`.
    pub items_to_string : Bool → Items → Bytes
    items_to_string first nil = []
    items_to_string first (cons x xs) =
        (if first then [] else b',' ∷ []) ++ (to_string x ++ items_to_string false xs)

    pub fields_to_string : Bool → Fields → Bytes
    fields_to_string first end = []
    fields_to_string first (field k v fs) =
        (if first then [] else b',' ∷ [])
        ++ (quoted k ++ (b':' ∷ (to_string v ++ fields_to_string false fs)))

  pub to_string-string : (s : Bytes) → to_string (string s) ≡ b'"' ∷ (s ++ (b'"' ∷ []))
  unfolding to_string
  to_string-string s = refl
