-- ===== src/Json/Reader/RoundTrip/Plain.antt =====
-- The elements that `parser` of ttw/json/reader.cc reads back from what `toString` of ttw/json/jsonelement.cc prints.
-- Left out are what the reader refuses (`false`, an empty object, a number whose print begins with
-- 5), text that `toString` does not escape, and numbers of a type other than `int`.
use ttw.Prelude.{ℕ, ◌≡◌, Bool, true, false, ◌||◌, [], ◌∷◌, ◌==◌}
use ttw.Prelude.Text.{Bytes, less_bytes}
use ttw.Json.Value.{
  Json, object, array, boolean, string, int, json_null, Items, nil, cons, Fields, end, field,
}
use ttw.Json.Print.{show_int}
use ttw.Json.Reader.Digits.{InInt}

-- A byte that the reader of strings stops at.
abbrev pub stops_string : ℕ → Bool
stops_string c = c == b'"' || c == b'\\'

abbrev pub Unquoted : Bytes → Type 0
Unquoted [] = Unit {0}
Unquoted (c ∷ cs) = (stops_string c ≡ false) × Unquoted cs

abbrev pub starts_five : Bytes → Bool
starts_five [] = false
starts_five (c ∷ cs) = c == b'5'

-- The key stands before all keys of the fields, as in a `std::map`.
abbrev pub Before : Bytes → Fields → Type 0
Before k end = Unit {0}
Before k (field j v fs) = (less_bytes k j ≡ true) × Before k fs

abbrev pub IsKey : Bytes → Type 0
IsKey [] = ⊥
IsKey (c ∷ cs) = Unquoted (c ∷ cs)

abbrev mutual
  pub IsPlain : Json → Type 0
  IsPlain (object end) = ⊥
  IsPlain (object fs) = FieldsArePlain fs
  IsPlain (array xs) = ItemsArePlain xs
  IsPlain (boolean true) = Unit
  IsPlain (string s) = Unquoted s
  IsPlain (int n) = InInt n × (starts_five (show_int n) ≡ false)
  IsPlain json_null = Unit
  IsPlain _ = ⊥

  pub ItemsArePlain : Items → Type 0
  ItemsArePlain nil = Unit
  ItemsArePlain (cons x xs) = IsPlain x × ItemsArePlain xs

  pub FieldsArePlain : Fields → Type 0
  FieldsArePlain end = Unit
  FieldsArePlain (field k v fs) = IsKey k × IsPlain v × Before k fs × FieldsArePlain fs
