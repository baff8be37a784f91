-- ===== src/Json/Reader/Lengths.antt =====
-- What the scanning functions of ttw/json/reader.cc leave of the text.
use ttw.Prelude.{◌≤◌, ◌≡◌, inl, inr, Bool, some, [], ◌∷◌, arith, Option-cases, length}
use ttw.Prelude.Text.{Bytes}
use ttw.Json.Reader.Tokens.{skip_spaces}
use ttw.Json.Reader.{find_string_end, number_loop, number_loop_point}

pub skip_spaces-length-le : (cs : Bytes) → length (skip_spaces cs) ≤ length cs
unfolding skip_spaces
skip_spaces-length-le [] = omega arith
skip_spaces-length-le (c ∷ cs) = ground (arith, skip_spaces-length-le cs)

pub find_string_end-le :
    (xs s close : Bytes) → find_string_end xs ≡ some (s, close) → length close ≤ length xs
unfolding find_string_end
find_string_end-le [] s close e = cc
find_string_end-le (c ∷ []) s close e = ground arith
find_string_end-le (c ∷ d ∷ cs) s close e = elim (Option-cases (find_string_end cs)) [
  | inl e1 ↦ elim (Option-cases (find_string_end (d ∷ cs))) [
    | inl e2 ↦ ground arith
    | inr ((s2, r2), e2) ↦ ground (arith, find_string_end-le (d ∷ cs) s2 r2 e2)
  ]
  | inr ((s1, r1), e1) ↦ elim (Option-cases (find_string_end (d ∷ cs))) [
    | inl e2 ↦ ground (arith, find_string_end-le cs s1 r1 e1)
    | inr ((s2, r2), e2) ↦
        ground (arith, find_string_end-le cs s1 r1 e1, find_string_end-le (d ∷ cs) s2 r2 e2)
  ]
]

number_loop_point-le :
    (xs ds after : Bytes) (flag : Bool)
    → number_loop_point xs ≡ some (ds, after, flag)
    → length after ≤ length xs
unfolding number_loop_point
number_loop_point-le [] ds after flag e = ground arith
number_loop_point-le (c ∷ cs) ds after flag e = elim (Option-cases (number_loop_point cs)) [
  | inl e1 ↦ ground arith
  | inr ((d1, a1, f1), e1) ↦ ground (arith, number_loop_point-le cs d1 a1 f1 e1)
]

pub number_loop-le :
    (xs ds after : Bytes) (flag : Bool)
    → number_loop xs ≡ some (ds, after, flag)
    → length after ≤ length xs
unfolding number_loop
number_loop-le [] ds after flag e = ground arith
number_loop-le (c ∷ cs) ds after flag e = elim (Option-cases (number_loop cs)) [
  | inl e1 ↦ ground (arith, number_loop_point-le (c ∷ cs) ds after flag)
  | inr ((d1, a1, f1), e1) ↦
      ground (arith, number_loop-le cs d1 a1 f1 e1, number_loop_point-le (c ∷ cs) ds after flag)
]
