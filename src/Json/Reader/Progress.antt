-- ===== src/Json/Reader/Progress.antt =====
-- Each handler of `Reader` (ttw/json/reader.cc) passes a byte or sets the error.
use ttw.Prelude.{
  ℕ, suc, ◌<◌, ◌≡◌, refl, ◌⊎◌, inl, inr, Bool, true, false, not, Option, none, some, List, [], ◌∷◌,
  arith, if◌then◌else◌, ◌==◌, Bool-cases, Option-cases, length, length-drop, take, drop, ap,
}
use ttw.Prelude.Text.{Bytes, codes, eq_bytes}
use ttw.Json.Value.{Json}
use ttw.Json.Reader.Tokens.{
  Token, object_begin, object_end, array_begin, array_end, token_string, token_number, token_null,
  token_true, token_false, token_separator, token_colon, token_eof, token_error, skip_spaces,
}
use ttw.Json.Reader.{
  Reader, Run, ok, fault, thrown, Ptr, deref, add_to, add_json_element, open_in, add_container,
  add_array, add_object, del_container, find_string_end, end_string, read_string, read_bool,
  read_true, read_false, read_null, number_loop, read_number, handle_token, is_eof, is_empty,
  add_number, ◌>>=◌, failed, write_at, push, wild,
}
use ttw.Json.Reader.Lengths.{skip_spaces-length-le, find_string_end-le, number_loop-le}

-- A call that goes on leaves less than `n` bytes, or the error.
abbrev pub Progress : ℕ → Run → Type 0
Progress n (ok r) = (r.is_error ≡ true) ⊎ (length r.rest < n)
Progress n fault = Unit {0}
Progress n thrown = Unit {0}

abbrev Keeps : Bytes → Run → Type 0
Keeps b (ok r) = r.rest ≡ b
Keeps b fault = Unit {0}
Keeps b thrown = Unit {0}

add_to-rest : (p : Ptr) (top val : Json) (r : Reader) → (add_to p top val r).rest ≡ r.rest
unfolding add_to
add_to-rest p top val r = ground arith

add_json_element-Keeps : (val : Json) (r : Reader) → Keeps r.rest (add_json_element val r)
unfolding add_json_element
add_json_element-Keeps val r = go r.stack
  where
    on_top :
        (p : Ptr) (o : Option Json)
        → Keeps r.rest (elim o [ none ↦ fault | some top ↦ ok (add_to p top val r) ])
    on_top p none = tt
    on_top p (some top) = add_to-rest p top val r

    go :
        (s : List Ptr)
        → Keeps r.rest (elim s [
          | [] ↦ ok (failed r)
          | p ∷ ps ↦ elim (deref p r.root) [ none ↦ fault | some top ↦ ok (add_to p top val r) ]
        ])
    go [] = refl
    go (p ∷ ps) = on_top p (deref p r.root)

Progress-Keeps : (n : ℕ) (b : Bytes) (m : Run) → Keeps b m → length b < n → Progress n m
Progress-Keeps n b (ok r) k h = inr (omega (arith, ap length k))
Progress-Keeps n b fault k h = tt
Progress-Keeps n b thrown k h = tt

open_in-rest : (p : Ptr) (top t : Json) (r : Reader) → (open_in p top t r).rest ≡ drop 1 r.rest
unfolding open_in
open_in-rest p top t r = ground arith

module _ (c : ℕ) (cs : Bytes) (r : Reader) (e : r.rest ≡ c ∷ cs) where
  abbrev pub size : ℕ
  size = suc (length cs)

  one_less : length (drop 1 r.rest) < size
  one_less = rw e (omega arith)

  on_top-Progress :
      (p : Ptr) (t : Json) (o : Option Json)
      → Progress size (elim o [ none ↦ fault | some top ↦ ok (open_in p top t r) ])
  on_top-Progress p t none = tt
  on_top-Progress p t (some top) = inr (omega (arith, ap length (open_in-rest p top t r), one_less))

  add_container-Progress : (t : Json) → Progress size (add_container t r)
  unfolding add_container
  add_container-Progress t = go r.stack r.has_val
    where
      first :
          (p : Ptr) (m : Run)
          → Progress size m
          → (b : Bool)
          → Progress size (
              if not b
              then ok (record (write_at p (λ j. t) r) { has_val = true; rest = drop 1 r.rest })
              else m)
      first p m h true = h
      first p m h false = inr one_less

      go :
          (s : List Ptr) (b : Bool)
          → Progress size (elim s [
            | [] ↦ if not b then fault else ok (push wild r)
            | p ∷ ps ↦
                if not b
                then ok (record (write_at p (λ j. t) r) { has_val = true; rest = drop 1 r.rest })
                else elim (deref p r.root) [ none ↦ fault | some top ↦ ok (open_in p top t r) ]
          ])
      go [] true = inr one_less
      go [] false = tt
      go (p ∷ ps) b = first p _ (on_top-Progress p t (deref p r.root)) b

  del_container-Progress : (is_it : Json → Bool) → Progress size (del_container is_it r)
  unfolding del_container
  del_container-Progress is_it = go r.stack
    where
      on_top :
          (ps : List Ptr) (o : Option Json)
          → Progress size (elim o [
            | none ↦ fault
            | some top ↦
                if is_it top
                then ok (record r { stack = ps; rest = drop 1 r.rest })
                else ok (record r { is_error = true; rest = drop 1 r.rest })
          ])
      on_top ps none = tt
      on_top ps (some top) = elim (Bool-cases (is_it top)) [
        | inl y ↦ rw y (inr one_less)
        | inr n ↦ rw n (inl refl)
      ]

      go :
          (s : List Ptr)
          → Progress size (elim s [
            | [] ↦ ok (record r { is_error = true; rest = drop 1 r.rest })
            | p ∷ ps ↦ elim (deref p r.root) [
              | none ↦ fault
              | some top ↦
                  if is_it top
                  then ok (record r { stack = ps; rest = drop 1 r.rest })
                  else ok (record r { is_error = true; rest = drop 1 r.rest })
            ]
          ])
      go [] = inl refl
      go (p ∷ ps) = on_top ps (deref p r.root)

  read_bool-Progress : (word : Bytes) (b : Bool) → Progress size (read_bool word b r)
  unfolding read_bool
  read_bool-Progress word b =
      Progress-Keeps size (drop 4 r.rest) _ (add_json_element-Keeps _ _)
        (rw e (omega (arith, length-drop 3 cs)))

  read_null-Progress : Progress size (read_null r)
  unfolding read_null
  read_null-Progress = elim (Bool-cases (eq_bytes (take 4 r.rest) (codes "null"))) [
    | inl y ↦ rw y (
        Progress-Keeps size (drop 4 r.rest) _ (add_json_element-Keeps _ _)
          (rw e (omega (arith, length-drop 3 cs))))
    | inr n ↦ rw n (inl refl)
  ]

  end_string-Progress :
      (str after : Bytes) → length after < size → Progress size (end_string str after r)
  unfolding end_string
  end_string-Progress str [] h = inl refl
  end_string-Progress str (d ∷ ds) h = elim (Bool-cases (d == b':')) [
    | inl y ↦
        rw y
          (elim (Bool-cases (is_empty r.name)) [ inl u ↦ rw u (inr h) | inr u ↦ rw u (inl refl) ])
    | inr n ↦ rw n (Progress-Keeps size (d ∷ ds) _ (add_json_element-Keeps _ _) h)
  ]

  read_string-Progress : Progress size (read_string r)
  unfolding read_string
  read_string-Progress = elim (Option-cases (find_string_end (drop 1 r.rest))) [
    | inl e1 ↦ rw (e1, read_string) (inl refl)
    | inr ((str, close), e1) ↦
        rw (e1, read_string)
          (end_string-Progress str (skip_spaces (drop 1 close)) (
            omega (
              arith,
              skip_spaces-length-le (drop 1 close),
              length-drop 1 close,
              find_string_end-le (drop 1 r.rest) str close e1,
              one_less,
            )))
  ]

  add_number-Progress :
      (o : Option Json) (after : Bytes) → length after < size → Progress size (add_number o after r)
  add_number-Progress none after h = tt
  add_number-Progress (some j) after h = go (add_json_element j r)
    where
      go : (m : Run) → Progress size (m >>= λ s. ok (record s { rest = after }))
      go (ok s) = inr h
      go fault = tt
      go thrown = tt

  read_number-Progress : (stod : Bytes → ℕ) → Progress size (read_number stod r)
  unfolding read_number
  read_number-Progress stod = elim (Option-cases (number_loop (drop 1 r.rest))) [
    | inl e1 ↦ rw (e1, read_number) (inl refl)
    | inr ((ds, after, flag), e1) ↦
        let short : length after < size =
          omega (arith, number_loop-le (drop 1 r.rest) ds after flag e1, one_less) in
        rw (e1, read_number) (add_number-Progress _ after short)
  ]

  legal-Progress :
      (l : Token → Bool) (m : Run)
      → Progress size m
      → Progress size (m >>= λ s. ok (record s { legal = l }))
  legal-Progress l (ok s) h = h
  legal-Progress l fault h = tt
  legal-Progress l thrown h = tt

  pub handle_token-Progress :
      (stod : Bytes → ℕ) (t : Token) → is_eof t ≡ false → Progress size (handle_token stod t r)
  unfolding handle_token add_array add_object read_true read_false is_eof
  handle_token-Progress stod object_begin n = legal-Progress _ _ (add_container-Progress _)
  handle_token-Progress stod array_begin n = legal-Progress _ _ (add_container-Progress _)
  handle_token-Progress stod object_end n = legal-Progress _ _ (del_container-Progress _)
  handle_token-Progress stod array_end n = legal-Progress _ _ (del_container-Progress _)
  handle_token-Progress stod token_string n = legal-Progress _ _ read_string-Progress
  handle_token-Progress stod token_number n = legal-Progress _ _ (read_number-Progress stod)
  handle_token-Progress stod token_null n = legal-Progress _ _ read_null-Progress
  handle_token-Progress stod token_true n = legal-Progress _ _ (read_bool-Progress _ _)
  handle_token-Progress stod token_false n = legal-Progress _ _ (read_bool-Progress _ _)
  handle_token-Progress stod token_separator n = inr one_less
  handle_token-Progress stod token_error n = inl refl
  handle_token-Progress stod token_colon n = inr one_less
  handle_token-Progress stod token_eof n = cc
