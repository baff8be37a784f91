-- ===== src/Json/Reader/Scanning.antt =====
-- `Reader::scan` of ttw/json/reader.cc without its loop.
use ttw.Prelude.{
  ℕ, suc, ◌≡◌, refl, true, ◌||◌, [], ◌∷◌, arith, if◌then◌else◌, ◌==◌, Bool-cases, inl, inr, length,
  ap, ◌∙◌, if_true, if_false, sym,
}
use ttw.Prelude.Text.{Bytes}
use ttw.Json.Reader.Tokens.{Token, token_eof, is_space, skip_spaces, classify, scan_loop, scan}

-- The token at the very first byte.
abbrev pub first_token : Bytes → Token × Bytes
first_token [] = (token_eof, [])
first_token (c ∷ cs) = (classify c, c ∷ cs)

scan_loop-skipped :
    (f : ℕ) (cs : Bytes) → scan_loop (suc f) (skip_spaces cs) ≡ first_token (skip_spaces cs)
unfolding scan_loop skip_spaces
scan_loop-skipped f [] = refl
scan_loop-skipped f (c ∷ cs) = elim (Bool-cases (is_space c || c == b'\r')) [
  | inl y ↦
      ap (scan_loop (suc f)) (if_true _ _ y)
      ∙ scan_loop-skipped f cs
      ∙ ap first_token (sym (if_true _ _ y))
  | inr n ↦
      ap (scan_loop (suc f)) (if_false _ _ n)
      ∙ if_false {b = is_space c} _ _ (ground (arith, n))
      ∙ ap first_token (sym (if_false _ _ n))
]

space_skipped : (c : ℕ) (cs : Bytes) → is_space c ≡ true → skip_spaces (c ∷ cs) ≡ skip_spaces cs
unfolding skip_spaces
space_skipped c cs y = if_true {b = is_space c || c == b'\r'} _ _ (ground (arith, y))

-- `scan` on a text that begins with a space gives the token behind the spaces, and on any other text the token at its
-- first byte.
pub scan_lem :
    (c : ℕ) (cs : Bytes)
    → scan (c ∷ cs) ≡ (if is_space c then first_token (skip_spaces cs) else first_token (c ∷ cs))
unfolding scan scan_loop
scan_lem c cs = elim (Bool-cases (is_space c)) [
  | inl y ↦
      if_true _ _ y
      ∙ ap (scan_loop (suc (length cs))) (space_skipped c cs y)
      ∙ scan_loop-skipped (length cs) cs
      ∙ sym (if_true _ _ y)
  | inr n ↦ if_false _ _ n ∙ sym (if_false _ _ n)
]
