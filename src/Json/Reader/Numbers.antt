-- ===== src/Json/Reader/Numbers.antt =====
-- Where `readNumber` and `readFalse` of ttw/json/reader.cc set the error.
use ttw.Prelude.{
  ℕ, zero, suc, ◌≤◌, ◌≡◌, refl, inl, inr, true, false, Option, none, some, List, [], ◌∷◌, ◌++◌,
  arith, Bool-cases, length, take, drop, ap, ◌∙◌,
}
use ttw.Prelude.Text.{Bytes, codes, eq_bytes, eq_bytes_iff}
use ttw.Json.Value.{Json}
use ttw.Json.Reader.Tokens.{is_digit}
use ttw.Json.Reader.{
  Reader, Run, ok, fault, thrown, Ptr, deref, add_to, add_json_element, read_bool, read_false,
  number_loop, number_loop_point, read_number, failed,
}

abbrev pub Digits : Bytes → Type 0
Digits [] = Unit
Digits (c ∷ cs) = (is_digit c ≡ true) × Digits cs

number_loop-point : (ds rest : Bytes) → Digits ds → number_loop (ds ++ (b'.' ∷ rest)) ≡ none
unfolding number_loop number_loop_point is_digit
number_loop-point [] rest h = ground arith
number_loop-point (c ∷ ds) rest h = ground (arith, h.0, number_loop-point ds rest h.1)

-- A number with a point behind its digits is an error for `readNumber`, whatever follows the point.
pub read_number-point :
    (stod : Bytes → ℕ) (c : ℕ) (ds rest : Bytes) (r : Reader)
    → Digits ds
    → r.rest ≡ c ∷ (ds ++ (b'.' ∷ rest))
    → read_number stod r ≡ ok (failed r)
unfolding read_number
read_number-point stod c ds rest r h e =
    rw (ap (λ x. number_loop (drop 1 x)) e ∙ number_loop-point ds rest h, read_number) refl

-- A call that goes on has the error set.
abbrev pub Fails : Run → Type 0
Fails (ok r) = r.is_error ≡ true
Fails fault = Unit {0}
Fails thrown = Unit {0}

add_to-error :
    (p : Ptr) (top val : Json) (r : Reader)
    → r.is_error ≡ true
    → (add_to p top val r).is_error ≡ true
unfolding add_to
add_to-error p top val r h = ground (arith, h)

add_json_element-Fails :
    (val : Json) (r : Reader) → r.is_error ≡ true → Fails (add_json_element val r)
unfolding add_json_element
add_json_element-Fails val r h = go r.stack
  where
    on_top :
        (p : Ptr) (o : Option Json)
        → Fails (elim o [ none ↦ fault | some top ↦ ok (add_to p top val r) ])
    on_top p none = tt
    on_top p (some top) = add_to-error p top val r h

    go :
        (s : List Ptr)
        → Fails (elim s [
          | [] ↦ ok (failed r)
          | p ∷ ps ↦ elim (deref p r.root) [ none ↦ fault | some top ↦ ok (add_to p top val r) ]
        ])
    go [] = refl
    go (p ∷ ps) = on_top p (deref p r.root)

take-length-le : (n : ℕ) (xs : Bytes) → length (take n xs) ≤ n
take-length-le zero xs = omega arith
take-length-le (suc n) [] = omega arith
take-length-le (suc n) (x ∷ xs) = omega (arith, take-length-le n xs)

four_bytes : (xs : Bytes) → eq_bytes (take 4 xs) (codes "false") ≡ false
four_bytes xs = elim (Bool-cases (eq_bytes (take 4 xs) (codes "false"))) [
  | inl y ↦ absurd (
      omega
        (arith, take-length-le 4 xs, ap length ((eq_bytes_iff (take 4 xs) (codes "false")).0 y)))
  | inr n ↦ n
]

-- `readFalse` sets the error on every text: it compares four bytes with a word of five.
pub read_false-Fails : (r : Reader) → Fails (read_false r)
unfolding read_false read_bool
read_false-Fails r = add_json_element-Fails _ _ (ground (arith, four_bytes r.rest))
