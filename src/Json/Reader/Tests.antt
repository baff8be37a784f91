-- ===== src/Json/Reader/Tests.antt =====
-- Runs of `parser` of ttw/json/reader.cc, and the lemmas at concrete texts.
use ttw.Prelude.{ℕ, ◌≡◌, ◌≢◌, refl, true, false, [], arith}
use ttw.Prelude.Int.{pos, negsuc}
use ttw.Prelude.Text.{Bytes, codes, less_bytes}
use ttw.Json.Value.{Json, object, array, int, string, boolean, json_null, nil, cons, end, field}
use ttw.Json.Print.{to_string, show_int}
use ttw.Json.Reader.{Reader, parser, Outcome, parsed, faulted, out_of_fuel, reader}
use ttw.Json.Reader.RoundTrip.Plain.{FieldsArePlain}
use ttw.Json.Reader.RoundTrip.Whole.{parser-to_string}
use ttw.Json.Reader.Total.{parser_total}

abbrev no_double : Bytes → ℕ
no_double b = 0

abbrev parse : Bytes → Outcome
parse text = parser no_double text json_null

abbrev in_array : Bytes → Reader
in_array text = record (reader text (array nil)) { has_val = true }

accepts_array :
    parse (codes "[1, \"a\", null, true]")
    ≡ parsed true (
        array (
          cons
            (int (pos 1))
            (cons (string (codes "a")) (cons json_null (cons (boolean true) nil)))))
unfolding parser
accepts_array = refl

accepts_object :
    parse (codes "{\"a\": [-12], \"b\": {\"c\": 3}}")
    ≡ parsed true (
        object (
          field
            (codes "a")
            (array (cons (int (negsuc 11)) nil))
            (field (codes "b") (object (field (codes "c") (int (pos 3)) end)) end)))
unfolding parser
accepts_object = refl

-- An array that is not closed is read as one that is.
accepts_unclosed :
    parse (codes "[[1") ≡ parsed true (array (cons (array (cons (int (pos 1)) nil)) nil))
unfolding parser
accepts_unclosed = refl

-- An empty object is refused, and so are a number that begins with 5 and `false`.
refuses_empty_object : parse (codes "{}") ≡ parsed false (object end)
unfolding parser
refuses_empty_object = refl

refuses_five : parse (codes "[5]") ≡ parsed false (array nil)
unfolding parser
refuses_five = refl

refuses_word_false : parse (codes "[false]") ≡ parsed false (array (cons (boolean false) nil))
unfolding parser
refuses_word_false = refl

-- The pointer that `addObject` pushes for a second text is used without having been set.
faults_at_second : parse (codes "{\"a\":1},{\"b\":2}") ≡ faulted
unfolding parser
faults_at_second = refl

parser_total_example : parse (codes "[1, {\"a\" : 2}]") ≢ out_of_fuel
parser_total_example = parser_total no_double (codes "[1, {\"a\" : 2}]") json_null

abbrev no_print : ℕ → Bytes
no_print n = []

abbrev sample : Json
sample = object (
    field (codes "a") (array (cons (int (negsuc 11)) (cons json_null nil)))
      (field (codes "b") (object (field (codes "c") (string (codes "x y")) end)) end))

sample-to_string :
    to_string no_print no_print sample ≡ codes "{\"a\":[-12,null],\"b\":{\"c\":\"x y\"}}"
unfolding to_string
sample-to_string = refl

parser-to_string_example :
    parser no_double (to_string no_print no_print sample) json_null ≡ parsed true sample
unfolding less_bytes show_int
parser-to_string_example =
    parser-to_string no_print no_print no_double sample json_null tt
      ((refl, tt), ((omega arith, refl), (tt, tt)), (refl, tt), nested)
  where
    nested :
        FieldsArePlain
          (field (codes "b") (object (field (codes "c") (string (codes "x y")) end)) end)
    nested = ((refl, tt), ((refl, tt), (refl, (refl, (refl, tt))), tt, tt), tt, tt)
