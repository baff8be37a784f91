-- ===== src/Json/Reader.antt =====
-- `Reader` of ttw/json/reader.h and ttw/json/reader.cc. The text from `m_pos` on is the field `rest`.
-- A pointer into the element that is read is the path to it from the root; `wild` is the pointer that
-- `addArray` and `addObject` push without having set it, and `fault` is its use.
-- `stod` of the standard library is the parameter `stod`.
pub mod Tokens
pub mod Numbers
pub mod Scanning
pub mod Lengths
pub mod Digits
pub mod Progress
pub mod Total
pub mod RoundTrip
mod Tests
use ttw.Prelude.{
  ℕ, zero, suc, ◌+◌, ◌-◌, ◌*◌, ◌^◌, ◌≤◌, Bool, true, false, ◌&&◌, ◌||◌, not, Option, none, some,
  List, [], ◌∷◌, ◌++◌, ltb, leb, ◌==◌, if◌then◌else◌, length, take, drop,
}
use ttw.Prelude.Int.{ℤ, pos, negsuc}
use ttw.Prelude.Text.{Bytes, codes, eq_bytes}
use ttw.Json.Value.{
  Json, object, array, boolean, string, int, double, json_null, nil, end, is_array, is_object, size,
  set_field, append, Place, key, index, JsonPath, get, modify,
}
use Tokens.{
  Token, object_begin, object_end, array_begin, array_end, token_string, token_number, token_null,
  token_true, token_false, token_separator, token_colon, token_eof, token_error, Legal, only,
  all_but, scan, skip_spaces, is_digit,
}

pub data Ptr : Type 0 where
  wild : Ptr
  at : JsonPath → Ptr

pub record Reader : Type 0 where
  pub rest : Bytes
  pub stack : List Ptr
  pub name : Bytes
  pub legal : Legal
  pub is_error : Bool
  pub has_val : Bool
  pub root : Json

-- A call on the reader: it goes on, uses a pointer that is not set, or lets an exception through.
pub data Run : Type 0 where
  ok : Reader → Run
  fault : Run
  thrown : Run

infixl 5 ◌>>=◌
abbrev pub ◌>>=◌ : Run → (Reader → Run) → Run
ok r >>= f = f r
fault >>= f = fault
thrown >>= f = thrown

-- `Reader(string)` and the first line of `parser`: the one pointer is to the element `val`.
pub reader : Bytes → Json → Reader
reader text val = record {
  rest = text;
  stack = at [] ∷ [];
  name = [];
  legal = only (array_begin ∷ object_begin ∷ []);
  is_error = false;
  has_val = false;
  root = val;
}

abbrev pub failed : Reader → Reader
failed r = record r { is_error = true }

-- `m_stackVal.top()` where the stack is not empty.
pub deref : Ptr → Json → Option Json
deref wild j = none
deref (at p) j = get p j

abbrev pub write_at : Ptr → (Json → Json) → Reader → Reader
write_at wild f r = r
write_at (at p) f r = record r { root = modify p f r.root }

abbrev pub put_field : Bytes → Json → Json → Json
put_field k v (object fs) = object (set_field k v fs)
put_field k v j = j

abbrev pub is_empty : Bytes → Bool
is_empty [] = true
is_empty _ = false

-- `addJsonElement`, on the element that the top of the stack points to.
pub add_to : Ptr → Json → Json → Reader → Reader
add_to p top val r =
    if is_object top
    then if is_empty r.name
      then failed r
      else record (write_at p (put_field r.name val) r) { name = [] }
    else if not (is_empty r.name)
    then failed r
    else write_at p (λ j. append j val) r

pub add_json_element : Json → Reader → Run
unfolding add_to deref
add_json_element val r = elim r.stack [
  | [] ↦ ok (failed r)
  | p ∷ ps ↦ elim (deref p r.root) [ none ↦ fault | some top ↦ ok (add_to p top val r) ]
]

abbrev push : Ptr → Reader → Reader
push p r = record r { stack = p ∷ r.stack; rest = drop 1 r.rest }

abbrev extend : Ptr → Place → Ptr
extend wild i = wild
extend (at p) i = at (p ++ (i ∷ []))

-- The branches of `addArray` and `addObject` on the top of the stack, for the new element `t`.
pub open_in : Ptr → Json → Json → Reader → Reader
open_in p top t r =
    if is_object top
    then if is_empty r.name
      then push wild (failed r)
      else push (extend p (key r.name)) (record (write_at p (put_field r.name t) r) { name = [] })
    else if is_array top
    then push (extend p (index (size top))) (write_at p (λ j. append j t) r)
    else push wild r

-- `addArray` and `addObject`, which differ in the element alone.
pub add_container : Json → Reader → Run
unfolding deref open_in
add_container t r = elim r.stack [
  | [] ↦ if not r.has_val then fault else ok (push wild r)
  | p ∷ ps ↦
      if not r.has_val
      then ok (record (write_at p (λ j. t) r) { has_val = true; rest = drop 1 r.rest })
      else elim (deref p r.root) [ none ↦ fault | some top ↦ ok (open_in p top t r) ]
]

pub add_array : Reader → Run
unfolding add_container
add_array = add_container (array nil)

pub add_object : Reader → Run
unfolding add_container
add_object = add_container (object end)

-- `delArray` and `delObject`: the test is for the type of the container.
pub del_container : (Json → Bool) → Reader → Run
unfolding deref
del_container is_it r = elim r.stack [
  | [] ↦ ok (record r { is_error = true; rest = drop 1 r.rest })
  | p ∷ ps ↦ elim (deref p r.root) [
    | none ↦ fault
    | some top ↦
        if is_it top
        then ok (record r { stack = ps; rest = drop 1 r.rest })
        else ok (record r { is_error = true; rest = drop 1 r.rest })
  ]
]

-- `findStringEnd`: the string, and the text from its closing quote on; nothing if it does not close.
pub find_string_end : Bytes → Option (Bytes × Bytes)
find_string_end [] = none
find_string_end (c ∷ []) = if c == b'"' then some ([], c ∷ []) else none
find_string_end (c ∷ d ∷ cs) =
    let skipped = find_string_end cs in
    let shifted = find_string_end (d ∷ cs) in
    if c == b'\\'
    then elim skipped [ none ↦ none | some (s, r) ↦ some (c ∷ d ∷ s, r) ]
    else if c == b'"'
    then some ([], c ∷ d ∷ cs)
    else elim shifted [ none ↦ none | some (s, r) ↦ some (c ∷ s, r) ]

-- The end of `readString`, on the string and the text behind it and the spaces: a name, or a value.
pub end_string : Bytes → Bytes → Reader → Run
unfolding add_json_element
end_string str [] r = ok (record r { is_error = true; rest = [] })
end_string str (c ∷ cs) r =
    let s = record r { rest = c ∷ cs } in
    if c == b':'
    then if is_empty s.name then ok (record s { name = str }) else ok (failed s)
    else add_json_element (string str) s

pub read_string : Reader → Run
unfolding find_string_end end_string skip_spaces
read_string r = elim (find_string_end (drop 1 r.rest)) [
  | none ↦ ok (record r { is_error = true; rest = drop 1 r.rest })
  | some (str, close) ↦ end_string str (skip_spaces (drop 1 close)) r
]

-- `readTrue` and `readFalse`: four bytes are compared with the word and passed, and the element is
-- added also after an error.
pub read_bool : Bytes → Bool → Reader → Run
unfolding add_json_element
read_bool word b r = add_json_element (boolean b) (record r {
  is_error = r.is_error || not (eq_bytes (take 4 r.rest) word);
  rest = drop 4 r.rest;
})

pub read_true : Reader → Run
unfolding read_bool
read_true = read_bool (codes "true") true

pub read_false : Reader → Run
unfolding read_bool
read_false = read_bool (codes "false") false

pub read_null : Reader → Run
unfolding add_json_element
read_null r =
    if eq_bytes (take 4 r.rest) (codes "null")
    then add_json_element json_null (record r { rest = drop 4 r.rest })
    else ok (failed r)

-- The loop of `readNumber` after a point was seen, and before: the digits, the text behind them, and
-- whether there was a point; nothing is the error.
pub number_loop_point : Bytes → Option (Bytes × Bytes × Bool)
number_loop_point [] = some ([], [], true)
number_loop_point (c ∷ cs) =
    let more = number_loop_point cs in
    if is_digit c
    then elim more [ none ↦ none | some (ds, r, flag) ↦ some (c ∷ ds, r, flag) ]
    else if c == b'.'
    then none
    else some ([], c ∷ cs, true)

pub starts_digit : Bytes → Bool
starts_digit [] = false
starts_digit (c ∷ cs) = is_digit c

-- At the point the position stays where it is, and the loop goes round with the flag set.
pub number_loop : Bytes → Option (Bytes × Bytes × Bool)
unfolding number_loop_point starts_digit
number_loop [] = some ([], [], false)
number_loop (c ∷ cs) =
    let more = number_loop cs in
    if is_digit c
    then elim more [ none ↦ none | some (ds, r, flag) ↦ some (c ∷ ds, r, flag) ]
    else if c == b'.'
    then if starts_digit cs then number_loop_point (c ∷ cs) else none
    else some ([], c ∷ cs, false)

pub digits_value : ℕ → Bytes → ℕ
digits_value acc [] = acc
digits_value acc (c ∷ cs) = digits_value (10 * acc + (c - b'0')) cs

-- `std::stoi` on a first byte and digits: nothing if there is no digit, or the value is no `int`.
pub stoi : Bytes → Option ℤ
unfolding digits_value
stoi [] = none
stoi (c ∷ ds) =
    let n = digits_value 0 ds in
    let m = digits_value 0 (c ∷ ds) in
    if c == b'-'
    then if is_empty ds
      then none
      else if n == 0
      then some (pos 0)
      else if leb n (2 ^ 31)
      then some (negsuc (n - 1))
      else none
    else if ltb m (2 ^ 31)
    then some (pos m)
    else none

abbrev add_number : Option Json → Bytes → Reader → Run
add_number none after r = thrown
add_number (some j) after r = add_json_element j r >>= λ s. ok (record s { rest = after })

-- The value of a number, with a point or without; nothing is an exception.
pub number_of : (Bytes → ℕ) → Bool → Bytes → Option Json
unfolding stoi
number_of stod true number = some (double (stod number))
number_of stod false number = elim (stoi number) [ none ↦ none | some n ↦ some (int n) ]

pub read_number : (Bytes → ℕ) → Reader → Run
unfolding number_loop number_of add_json_element
read_number stod r = elim (number_loop (drop 1 r.rest)) [
  | none ↦ ok (failed r)
  | some (ds, after, flag) ↦ add_number (number_of stod flag (take 1 r.rest ++ ds)) after r
]

abbrev then_legal : Legal → Run → Run
then_legal l m = m >>= λ r. ok (record r { legal = l })

abbrev after_value : Legal
after_value = only (token_separator ∷ object_end ∷ array_end ∷ [])

abbrev after_container : Legal
after_container = only (token_eof ∷ token_separator ∷ array_end ∷ object_end ∷ [])

-- The switch of `parser` on the token, but for TOKEN_EOF.
pub handle_token : (Bytes → ℕ) → Token → Reader → Run
unfolding add_object add_array del_container read_string read_number read_null read_true read_false
handle_token stod object_begin r = then_legal (only (token_string ∷ [])) (add_object r)
handle_token stod array_begin r =
    then_legal (all_but (token_colon ∷ token_separator ∷ token_eof ∷ token_error ∷ []))
      (add_array r)
handle_token stod object_end r = then_legal after_container (del_container is_object r)
handle_token stod array_end r = then_legal after_container (del_container is_array r)
handle_token stod token_string r =
    then_legal (only (token_colon ∷ token_separator ∷ object_end ∷ array_end ∷ [])) (read_string r)
handle_token stod token_number r = then_legal after_value (read_number stod r)
handle_token stod token_null r = then_legal after_value (read_null r)
handle_token stod token_true r = then_legal after_value (read_true r)
handle_token stod token_false r = then_legal after_value (read_false r)
handle_token stod token_separator r = ok (record r {
  legal = all_but (token_eof ∷ token_colon ∷ token_error ∷ array_end ∷ object_end ∷ []);
  rest = drop 1 r.rest;
})
handle_token stod token_error r = ok (record r { is_error = true; legal = only [] })
handle_token stod token_colon r = ok (record r {
  legal =
      all_but
        (token_eof ∷ token_colon ∷ token_error ∷ array_end ∷ object_end ∷ token_separator ∷ []);
  rest = drop 1 r.rest;
})
handle_token stod token_eof r = ok (record r { legal = only [] })

pub is_eof : Token → Bool
is_eof token_eof = true
is_eof _ = false

-- What `parser` comes to: its result with the element read, a fault, an exception, or no more fuel.
pub data Outcome : Type 0 where
  parsed : Bool → Json → Outcome
  faulted : Outcome
  raised : Outcome
  out_of_fuel : Outcome

-- The loop of `parser`. The token at the end of the text ends it too.
pub parser_loop : (Bytes → ℕ) → ℕ → Reader → Outcome
unfolding handle_token scan is_eof
parser_loop stod zero r = out_of_fuel
parser_loop stod (suc f) r =
    if r.is_error
    then parsed false r.root
    else if is_empty r.rest
    then parsed true r.root
    else (let (token, after) = scan r.rest in
        let s = record r { rest = after } in
        if not (r.legal token)
        then parsed false s.root
        else if is_eof token
        then parsed true s.root
        else elim (handle_token stod token s) [
          | ok t ↦ parser_loop stod f t
          | fault ↦ faulted
          | thrown ↦ raised
        ])

pub parser : (Bytes → ℕ) → Bytes → Json → Outcome
unfolding reader parser_loop only all_but get modify set_field append size eq_bytes
parser stod text val = parser_loop stod (suc (suc (length text))) (reader text val)
