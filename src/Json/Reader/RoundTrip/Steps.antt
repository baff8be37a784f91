-- ===== src/Json/Reader/RoundTrip/Steps.antt =====
-- A round of the loop of `Reader::parser` (ttw/json/reader.cc) at each token, without an error.
use ttw.Prelude.{ℕ, suc, ◌≡◌, Bool, true, false, List, ◌∷◌, ◌∙◌, if_false}
use ttw.Prelude.Text.{Bytes}
use ttw.Json.Value.{Json}
use ttw.Json.Reader.Tokens.{Legal, scan, classify, is_space}
use ttw.Json.Reader.Scanning.{scan_lem}
use ttw.Json.Reader.{Reader, Ptr, ok, handle_token, is_eof, Outcome, parser_loop}

-- A reader without an error; the flag is `m_val`.
abbrev pub reader_at : Bool → Bytes → List Ptr → Bytes → Legal → Json → Reader
reader_at val rest stack name legal root = record {
  rest = rest;
  stack = stack;
  name = name;
  legal = legal;
  is_error = false;
  has_val = val;
  root = root;
}

-- The loop, given fuel for it, comes to this outcome.
abbrev pub Gives : (Bytes → ℕ) → Reader → Outcome → Type 0
Gives stod r o = (f : ℕ) × (parser_loop stod f r ≡ o)

scan-classify : (c : ℕ) (cs : Bytes) → is_space c ≡ false → scan (c ∷ cs) ≡ (classify c, c ∷ cs)
scan-classify c cs n = scan_lem c cs ∙ if_false _ _ n

-- A round at a token that is legal, whose handler goes on.
pub one_round :
    (stod : Bytes → ℕ) (val : Bool) (c : ℕ) (cs : Bytes) (stack : List Ptr) (name : Bytes)
    (legal : Legal) (root : Json) (t : Reader) (o : Outcome)
    → is_space c ≡ false
    → legal (classify c) ≡ true
    → is_eof (classify c) ≡ false
    → handle_token stod (classify c) (reader_at val (c ∷ cs) stack name legal root) ≡ ok t
    → Gives stod t o
    → Gives stod (reader_at val (c ∷ cs) stack name legal root) o
unfolding parser_loop
one_round stod val c cs stack name legal root t o n l k h (f, g) =
    (suc f, rw (scan-classify c cs n, parser_loop) (rw l (rw k (rw h g))))
