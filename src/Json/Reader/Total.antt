-- ===== src/Json/Reader/Total.antt =====
-- The loop of `Reader::parser` (ttw/json/reader.cc) ends: each round passes a byte or sets the error.
use ttw.Prelude.{
  ℕ, zero, suc, ◌+◌, ◌≤◌, ◌<◌, ◌≡◌, refl, ◌≢◌, inl, inr, Bool, true, false, not, [], ◌∷◌, arith,
  if◌then◌else◌, Bool-cases, length, ap,
}
use ttw.Prelude.Text.{Bytes}
use ttw.Json.Value.{Json}
use ttw.Json.Reader.Tokens.{Token, scan, scan_loop, skip_spaces, is_space, classify}
use ttw.Json.Reader.{
  Reader, Run, ok, fault, thrown, handle_token, is_eof, is_empty, Outcome, faulted, raised,
  out_of_fuel, parser_loop, parser, reader,
}
use ttw.Json.Reader.Progress.{Progress, handle_token-Progress}
use ttw.Json.Reader.Lengths.{skip_spaces-length-le}

-- What `scan` leaves: no more than there was, and at a token other than the end at least one byte.
abbrev Scanned : ℕ → Token × Bytes → Type 0
Scanned n (t, rest) =
    (length rest ≤ n) × (is_eof t ≡ false → (c : ℕ) × (cs : Bytes) × (rest ≡ c ∷ cs))

classify-eof : (c : ℕ) → is_eof (classify c) ≡ false
unfolding classify is_eof
classify-eof c = ground arith

-- A property of a choice holds if each branch has it.
choice :
    {A : Type 0} (P : A → Type 0) (b : Bool) (x y : A)
    → (b ≡ true → P x)
    → (b ≡ false → P y)
    → P (if b then x else y)
choice P true x y h k = h refl
choice P false x y h k = k refl

scan_loop-Scanned :
    (f : ℕ) (rest : Bytes) → length rest < f → Scanned (length rest) (scan_loop f rest)
unfolding scan_loop
scan_loop-Scanned zero rest h = absurd (omega arith)
scan_loop-Scanned (suc f) [] h = unfold is_eof in (omega arith, λ e. cc)
scan_loop-Scanned (suc f) (c ∷ cs) h =
    choice (Scanned (suc (length cs))) (is_space c) _ _
      (λ y.
        wider (scan_loop f (skip_spaces (c ∷ cs)))
          (scan_loop-Scanned f (skip_spaces (c ∷ cs)) (omega (arith, skipped y, h))) (skipped y))
      (λ n. (omega arith, λ e. (c, cs, refl)))
  where
    skipped : is_space c ≡ true → length (skip_spaces (c ∷ cs)) ≤ length cs
    skipped y = unfold skip_spaces in ground (arith, skip_spaces-length-le cs)

    wider :
        (x : Token × Bytes)
        → Scanned (length (skip_spaces (c ∷ cs))) x
        → length (skip_spaces (c ∷ cs)) ≤ length cs
        → Scanned (suc (length cs)) x
    wider (t, rest) (le, some_byte) short = (omega arith, some_byte)

pub scan-Scanned : (rest : Bytes) → Scanned (length rest) (scan rest)
unfolding scan
scan-Scanned rest = scan_loop-Scanned (suc (length rest)) rest (omega arith)

-- A round at the token of `scan`, given what the handler leaves.
loop_ends :
    (stod : Bytes → ℕ) (f : ℕ) (r : Reader)
    → (r.is_error ≡ true → 0 < f)
    → (r.is_error ≡ false → length r.rest + 1 < f)
    → parser_loop stod f r ≢ out_of_fuel
unfolding parser_loop
loop_ends stod zero r he hr =
    absurd
      (elim (Bool-cases r.is_error) [ inl y ↦ omega (arith, he y) | inr n ↦ omega (arith, hr n) ])
loop_ends stod (suc f) r he hr =
    choice Ends r.is_error _ _ (λ y. λ q. cc)
      (λ n.
        choice Ends (is_empty r.rest) _ _ (λ y. λ q. cc)
          (λ n2.
            choice Ends (not (r.legal token)) _ _ (λ y. λ q. cc)
              (λ n3.
                choice Ends (is_eof token) _ _ (λ y. λ q. cc)
                  (λ n4.
                    (let (c, cs, e) = (scan-Scanned r.rest).1 n4 in
                      after (loop_ends stod f) (handle_token stod token s) (suc (length cs))
                        (omega (arith, hr n, (scan-Scanned r.rest).0, ap length e))
                        (handle_token-Progress c cs s e stod token n4))))))
  where
    token : Token
    token = (scan r.rest).0

    s : Reader
    s = record r { rest = (scan r.rest).1 }

    Ends : Outcome → Type 0
    Ends o = o ≢ out_of_fuel

    after :
        ((t : Reader)
          → (t.is_error ≡ true → 0 < f)
          → (t.is_error ≡ false → length t.rest + 1 < f)
          → parser_loop stod f t ≢ out_of_fuel)
        → (m : Run) (n : ℕ) → n + 1 < suc f
        → Progress n m
        → Ends (elim m [ ok t ↦ parser_loop stod f t | fault ↦ faulted | thrown ↦ raised ])
    after ends (ok t) n h (inl y) = ends t (λ x. omega (arith, h)) (λ x. cc)
    after ends (ok t) n h (inr l) = ends t (λ x. omega (arith, h)) (λ x. omega (arith, h, l))
    after ends fault n h p = λ q. cc
    after ends thrown n h p = λ q. cc

-- `parser` returns, faults or throws on every text, for every `stod`: its loop ends.
pub parser_total :
    (stod : Bytes → ℕ) (text : Bytes) (val : Json) → parser stod text val ≢ out_of_fuel
unfolding parser
parser_total stod text val =
    loop_ends stod (suc (suc (length text))) (reader text val) (λ e. omega arith)
      (λ e. unfold reader in omega arith)
