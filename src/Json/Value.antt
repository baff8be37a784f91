-- ===== src/Json/Value.antt =====
-- `JsonElement` of ttw/json/jsonelement.h and jsonelement.cc as a value: what the flag `m_deep` decides,
-- which element frees a shared object, is not part of it,
-- and a null pointer to an object or an array is the empty one. A `float` or a `double` is its bit pattern.
use ttw.Prelude.{
  ℕ, zero, suc, ◌-◌, ◌^◌, Bool, true, false, Option, none, some, List, [], ◌∷◌, ltb, if◌then◌else◌,
}
use ttw.Prelude.Int.{ℤ, pos, negsuc}
use ttw.Prelude.Text.{Bytes, eq_bytes, less_bytes}

mutual
  pub data Json : Type 0 where
    object : Fields → Json
    array : Items → Json
    boolean : Bool → Json
    string : Bytes → Json
    int : ℤ → Json
    uint : ℕ → Json
    long : ℤ → Json
    ulong : ℕ → Json
    float : ℕ → Json
    double : ℕ → Json
    json_null : Json

  pub data Items : Type 0 where
    nil : Items
    cons : Json → Items → Items

  -- `std::map<std::string, JsonElement>`, in the order of its keys
  pub data Fields : Type 0 where
    end : Fields
    field : Bytes → Json → Fields → Fields

-- `JsonType`
pub data JsonType : Type 0 where
  object_type array_type bool_type string_type int_type uint_type long_type ulong_type : JsonType
  float_type double_type null_type : JsonType

pub type_of : Json → JsonType
type_of (object _) = object_type
type_of (array _) = array_type
type_of (boolean _) = bool_type
type_of (string _) = string_type
type_of (int _) = int_type
type_of (uint _) = uint_type
type_of (long _) = long_type
type_of (ulong _) = ulong_type
type_of (float _) = float_type
type_of (double _) = double_type
type_of json_null = null_type

abbrev pub is_array : Json → Bool
is_array (array _) = true
is_array _ = false

abbrev pub is_object : Json → Bool
is_object (object _) = true
is_object _ = false

-- The conversions: an element of another type gives the empty string or 0.
pub as_string : Json → Bytes
as_string (string s) = s
as_string _ = []

pub as_int : Json → ℤ
as_int (int n) = n
as_int _ = pos 0

pub as_uint : Json → ℕ
as_uint (uint n) = n
as_uint _ = 0

-- A bit pattern of 64 bits as a `long`.
pub to_long : ℕ → ℤ
to_long n = if ltb n (2 ^ 63) then pos n else negsuc (2 ^ 64 - 1 - n)

-- `asLong`, whose test is for the type UNSIGNEDLONG.
pub as_long : Json → ℤ
unfolding to_long
as_long (ulong n) = to_long n
as_long _ = pos 0

unfoldable pub find_field : Bytes → Fields → Option Json
find_field k end = none
find_field k (field j v fs) = if eq_bytes j k then some v else find_field k fs

-- `(*object_val)[key] = v`
unfoldable pub set_field : Bytes → Json → Fields → Fields
unfolding less_bytes
set_field k v end = field k v end
set_field k v (field j w fs) =
    if eq_bytes j k
    then field j v fs
    else if less_bytes k j
    then field k v (field j w fs)
    else field j w (set_field k v fs)

-- `operator[]` on a key: the element and the object, in which a missing key now has the
-- `JsonElement()` that is an empty object; nothing where the element is no object and `exceptionT` throws.
unfoldable pub at_key : Bytes → Json → Option (Json × Json)
unfolding find_field set_field
at_key k (object fs) = elim (find_field k fs) [
  | some v ↦ some (v, object fs)
  | none ↦ some (object end, object (set_field k (object end) fs))
]
at_key k _ = none

unfoldable pub length_items : Items → ℕ
length_items nil = 0
length_items (cons x xs) = suc (length_items xs)

unfoldable pub length_fields : Fields → ℕ
length_fields end = 0
length_fields (field k v fs) = suc (length_fields fs)

-- `size()`
unfoldable pub size : Json → ℕ
unfolding length_items length_fields
size (array xs) = length_items xs
size (object fs) = length_fields fs
size _ = 1

unfoldable pub get_item : ℕ → Items → Option Json
get_item i nil = none
get_item zero (cons x xs) = some x
get_item (suc i) (cons x xs) = get_item i xs

unfoldable pub push_item : Json → Items → Items
push_item v nil = cons v nil
push_item v (cons x xs) = cons x (push_item v xs)

-- `append`: nothing happens unless the element is an array.
unfoldable pub append : Json → Json → Json
unfolding push_item
append (array xs) v = array (push_item v xs)
append j v = j

-- Where `operator[]` leads from an element: a key of an object, an index of an array.
pub data Place : Type 0 where
  key : Bytes → Place
  index : ℕ → Place

unfoldable pub child : Place → Json → Option Json
unfolding find_field get_item
child (key k) (object fs) = find_field k fs
child (index i) (array xs) = get_item i xs
child _ _ = none

unfoldable pub set_item : ℕ → Json → Items → Items
set_item i v nil = nil
set_item zero v (cons x xs) = cons v xs
set_item (suc i) v (cons x xs) = cons x (set_item i v xs)

unfoldable pub replace_child : Place → Json → Json → Json
unfolding set_field set_item
replace_child (key k) v (object fs) = object (set_field k v fs)
replace_child (index i) v (array xs) = array (set_item i v xs)
replace_child _ v j = j

abbrev pub JsonPath : Type 0
JsonPath = List Place

-- The element that a pointer into an element stands for, and a write through the pointer.
unfoldable pub get : JsonPath → Json → Option Json
unfolding child
get [] j = some j
get (p ∷ ps) j = elim (child p j) [ none ↦ none | some c ↦ get ps c ]

unfoldable pub modify : JsonPath → (Json → Json) → Json → Json
unfolding child replace_child
modify [] f j = f j
modify (p ∷ ps) f j = elim (child p j) [ none ↦ j | some c ↦ replace_child p (modify ps f c) j ]
