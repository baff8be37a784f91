-- ===== src/HttpParser/Versions.antt =====
-- The versions that the callbacks of ttw/http/http_parser.cc take.
use ttw.Prelude.{
  ℕ, zero, suc, ◌≤◌, ◌≡◌, ◌↔◌, refl, true, false, none, some, [], ◌∷◌, arith, ◌==◌, if◌then◌else◌,
  length, take, ap,
}
use ttw.Prelude.Text.{Bytes, codes, eq_bytes, eq_bytes_iff}
use ttw.HttpParser.{strncmp, version_of}

-- A text has no NUL.
abbrev pub NoNul : Bytes → Type 0
NoNul [] = Unit
NoNul (c ∷ cs) = ((c == 0) ≡ false) × NoNul cs

-- `strncmp` over the length of a text without NUL tells whether the text begins the name.
pub strncmp-take :
    (n : ℕ) (a b : Bytes) → n ≤ length a → NoNul a → (strncmp n a b ≡ true) ↔ (take n a ≡ take n b)
unfolding strncmp
strncmp-take zero a b l t = ground arith
strncmp-take (suc n) [] b l t = absurd (omega (arith, l))
strncmp-take (suc n) (x ∷ xs) [] l t = ground (arith, t.0)
strncmp-take (suc n) (x ∷ xs) (y ∷ ys) l t =
    ground (arith, t.0, strncmp-take n xs ys (omega (arith, l)) t.1)

take_all : (n : ℕ) (b : Bytes) → length b ≤ n → take n b ≡ b
take_all zero [] l = refl
take_all zero (y ∷ ys) l = absurd (omega (arith, l))
take_all (suc n) [] l = refl
take_all (suc n) (y ∷ ys) l = ap (λ z. y ∷ z) (take_all n ys (omega (arith, l)))

module _ (n : ℕ) (at : Bytes) (long : 8 ≤ n) (there : n ≤ length at) (text : NoNul at) where
  strncmp-eq_bytes :
      (name : Bytes) → length name ≡ 8 → strncmp n at name ≡ eq_bytes (take n at) name
  strncmp-eq_bytes name e = ground (
    arith,
    strncmp-take n at name there text,
    take_all n name (omega (arith, e, long)),
    eq_bytes_iff (take n at) name,
  )

  -- A version of at least eight bytes, in data without NUL, is taken for 1.1 or 1.0 only if it is just that name.
  pub version_of_lem : version_of at n ≡ (
      if eq_bytes (take n at) (codes "HTTP/1.1")
      then some 0x11
      else if eq_bytes (take n at) (codes "HTTP/1.0")
      then some 0x10
      else none)
  unfolding version_of
  version_of_lem =
      rw (strncmp-eq_bytes (codes "HTTP/1.1") refl)
        (rw (strncmp-eq_bytes (codes "HTTP/1.0") refl) refl)
