-- ===== src/Json/Reader/Digits.antt =====
-- `readNumber` of ttw/json/reader.cc on what `toString` of ttw/json/jsonelement.cc prints for an int.
use ttw.Prelude.{
  append_nil, ℕ, zero, suc, ◌+◌, ◌-◌, ◌*◌, ◌/◌, ◌%◌, ◌^◌, ◌<◌, ◌≡◌, refl, ◌≢◌, inl, inr, true,
  false, some, [], ◌∷◌, ◌++◌, arith, ltb, Bool-cases, take, drop, sym, ap, ◌∙◌,
}
use ttw.Prelude.Int.{ℤ, pos, negsuc}
use ttw.Prelude.Text.{Bytes}
use ttw.Json.Value.{int}
use ttw.Json.Print.{digits_onto, show_nat, show_int}
use ttw.Json.Reader.Tokens.{is_digit}
use ttw.Json.Reader.Numbers.{Digits}
use ttw.Json.Reader.{
  Reader, number_loop, read_number, digits_value, stoi, number_of, add_number, is_empty,
}

-- The text ends here, or goes on with a byte that is no part of a number.
abbrev pub Stops : Bytes → Type 0
Stops [] = Unit {0}
Stops (c ∷ cs) = (is_digit c ≡ false) × (c ≢ b'.')

number_loop-Digits :
    (ds rest : Bytes) → Digits ds → Stops rest → number_loop (ds ++ rest) ≡ some (ds, rest, false)
unfolding number_loop
number_loop-Digits [] [] h s = refl
number_loop-Digits [] (c ∷ cs) h s = ground (arith, s.0, s.1)
number_loop-Digits (c ∷ ds) rest h s = ground (arith, h.0, number_loop-Digits ds rest h.1 s)

pub snoc-append : (d : ℕ) (ds acc : Bytes) → (ds ++ (d ∷ [])) ++ acc ≡ ds ++ (d ∷ acc)
snoc-append d [] acc = refl
snoc-append d (c ∷ ds) acc = ap (λ x. c ∷ x) (snoc-append d ds acc)

digits_value-snoc :
    (k d : ℕ) (ds : Bytes) → digits_value k (ds ++ (d ∷ [])) ≡ 10 * digits_value k ds + (d - b'0')
unfolding digits_value
digits_value-snoc k d [] = refl
digits_value-snoc k d (c ∷ ds) = digits_value-snoc (10 * k + (c - b'0')) d ds

Digits-snoc : (d : ℕ) (ds : Bytes) → Digits ds → is_digit d ≡ true → Digits (ds ++ (d ∷ []))
Digits-snoc d [] h e = (e, tt)
Digits-snoc d (c ∷ ds) h e = (h.0, Digits-snoc d ds h.1 e)

digit-is_digit : (n : ℕ) → is_digit (b'0' + n % 10) ≡ true
unfolding is_digit
digit-is_digit n = ground arith

-- The digits that are printed: at least one, in front of the text, with the number as their value.
abbrev pub Printed : ℕ → Bytes → Bytes → Type 0
Printed n acc out =
    (c : ℕ) × (ds : Bytes) × (out ≡ c ∷ (ds ++ acc))
    × Digits (c ∷ ds)
    × (digits_value 0 (c ∷ ds) ≡ n)

digits_onto-Printed : (f n : ℕ) (acc : Bytes) → n < f → Printed n acc (digits_onto f n acc)
unfolding digits_onto
digits_onto-Printed zero n acc h = absurd (omega arith)
digits_onto-Printed (suc f) n acc h = elim (Bool-cases (ltb n 10)) [
  | inl y ↦
      rw y
        (b'0' + n % 10, [], refl, (digit-is_digit n, tt), unfold digits_value in ground (arith, y))
  | inr x ↦
      let (c, ds, e, h1, v) = digits_onto-Printed f (n / 10) ((b'0' + n % 10) ∷ acc) (smaller x) in
      rw x (
        c,
        ds ++ ((b'0' + n % 10) ∷ []),
        e ∙ ap (λ z. c ∷ z) (sym (snoc-append (b'0' + n % 10) ds acc)),
        (h1.0, Digits-snoc (b'0' + n % 10) ds h1.1 (digit-is_digit n)),
        omega (arith, digits_value-snoc 0 (b'0' + n % 10) (c ∷ ds), v),
      )
]
  where
    smaller : ltb n 10 ≡ false → n / 10 < f
    smaller x = ground (arith, x)

-- The values that `std::stoi` gives.
abbrev pub InInt : ℤ → Type 0
InInt (pos n) = n < 2 ^ 31
InInt (negsuc n) = n < 2 ^ 31

pub show_nat-Printed : (n : ℕ) → Printed n [] (show_nat n)
unfolding show_nat
show_nat-Printed n = digits_onto-Printed (suc n) n [] (omega arith)

stoi-pos :
    (c n : ℕ) (ds : Bytes)
    → Digits (c ∷ ds)
    → digits_value 0 (c ∷ ds) ≡ n
    → n < 2 ^ 31
    → stoi (c ∷ ds) ≡ some (pos n)
unfolding stoi is_digit
stoi-pos c n ds h v b = ground (arith, h.0, v, b)

stoi-neg :
    (n : ℕ) (ds : Bytes)
    → is_empty ds ≡ false
    → digits_value 0 ds ≡ suc n
    → n < 2 ^ 31
    → stoi (b'-' ∷ ds) ≡ some (negsuc n)
unfolding stoi
stoi-neg n ds h v b = ground (arith, h, v, b)

-- What is printed for an int: a first byte, digits, and the int again from `stoi`.
show_int-split :
    (z : ℤ)
    → InInt z
    → (c : ℕ) × (ds : Bytes) × (show_int z ≡ c ∷ ds) × Digits ds × (stoi (c ∷ ds) ≡ some z)
unfolding show_int
show_int-split (pos n) b =
    let (c, ds, e, h, v) = show_nat-Printed n in
    (c, ds, e ∙ ap (λ z. c ∷ z) (append_nil ds), h.1, stoi-pos c n ds h v b)
show_int-split (negsuc n) b =
    let (c, ds, e, h, v) = show_nat-Printed (suc n) in
    (
      b'-',
      c ∷ ds,
      ap (λ z. b'-' ∷ z) (e ∙ ap (λ z. c ∷ z) (append_nil ds)),
      h,
      stoi-neg n (c ∷ ds) refl v b,
    )

number_of-stoi :
    (stod : Bytes → ℕ) (xs : Bytes) (z : ℤ)
    → stoi xs ≡ some z
    → number_of stod false xs ≡ some (int z)
unfolding number_of
number_of-stoi stod xs z e = rw (e, number_of) refl

-- `readNumber` on the print of an int of 32 bits, in front of a text that stops it, adds this int
-- and goes on behind the print.
pub read_number-show_int :
    (stod : Bytes → ℕ) (z : ℤ) (rest : Bytes) (r : Reader)
    → InInt z
    → Stops rest
    → r.rest ≡ show_int z ++ rest
    → read_number stod r ≡ add_number (some (int z)) rest r
unfolding read_number
read_number-show_int stod z rest r b s e =
    let (c, ds, shown, h, v) = show_int-split z b in
    let text : r.rest ≡ c ∷ (ds ++ rest) = e ∙ ap (λ x. x ++ rest) shown in
    let first : take 1 r.rest ≡ c ∷ [] = ap (take 1) text in
    let looped : number_loop (drop 1 r.rest) ≡ some (ds, rest, false) =
      ap (λ x. number_loop (drop 1 x)) text ∙ number_loop-Digits ds rest h s in
    rw (looped, read_number) (rw first (rw (number_of-stoi stod (c ∷ ds) z v) refl))
