-- ===== src/FileCaches/Chains.antt =====
-- Doubly linked chains of nodes, for the list of `LRUCache` (ttw/file/filecache.h).
use ttw.Prelude.{
  ℕ, ◌≡◌, ◌≢◌, refl, true, false, List, [], ◌∷◌, ◌++◌, arith, ◌==◌, has, has-append, sym, ap, ◌∙◌,
  if_false, Bool-cases, inl, inr,
}
use ttw.FileCaches.{write}

-- The first address of a list, and the last one, or `z` where there is none.
abbrev pub first : List ℕ → ℕ → ℕ
first [] z = z
first (x ∷ xs) z = x

abbrev pub last : List ℕ → ℕ → ℕ
last [] z = z
last (x ∷ xs) z = last xs x

-- The links run through the addresses of the list, from behind `a` to `z`.
abbrev pub Chain : (ℕ → ℕ) → (ℕ → ℕ) → ℕ → List ℕ → ℕ → Type 0
Chain nx pv a [] z = Unit {0}
Chain nx pv a (p ∷ xs) z = (pv p ≡ a) × (nx p ≡ first xs z) × Chain nx pv p xs z

-- No address stands twice, and none is null.
abbrev pub Apart : List ℕ → Type 0
Apart [] = Unit {0}
Apart (p ∷ xs) = (has p xs ≡ false) × (p ≢ 0) × Apart xs

pub first-append : (xs ys : List ℕ) (z : ℕ) → first (xs ++ ys) z ≡ first xs (first ys z)
first-append [] ys z = refl
first-append (x ∷ xs) ys z = refl

pub last-append : (xs ys : List ℕ) (z : ℕ) → last (xs ++ ys) z ≡ last ys (last xs z)
last-append [] ys z = refl
last-append (x ∷ xs) ys z = last-append xs ys x

pub has-last : (x : ℕ) (xs : List ℕ) → has (last xs x) (x ∷ xs) ≡ true
has-last x [] = ground arith
has-last x (y ∷ xs) = ground (arith, has-last y xs)

pub ne_of_has : (p q : ℕ) (xs : List ℕ) → has p xs ≡ false → has q xs ≡ true → p ≢ q
ne_of_has p q xs n h e = let bad = sym h ∙ ap (λ z. has z xs) (sym e) ∙ n in cc

pub ==-of_ne : (a b : ℕ) → a ≢ b → (a == b) ≡ false
==-of_ne a b h = ground arith

module _ (nx pv : ℕ → ℕ) where
  pub Chain-append :
      (a : ℕ) (xs ys : List ℕ) (z : ℕ)
      → Chain nx pv a xs (first ys z)
      → Chain nx pv (last xs a) ys z
      → Chain nx pv a (xs ++ ys) z
  Chain-append a [] ys z h g = g
  Chain-append a (x ∷ xs) ys z h g =
      (h.0, h.1 ∙ sym (first-append xs ys z), Chain-append x xs ys z h.2 g)

  pub Chain-front :
      (a : ℕ) (xs ys : List ℕ) (z : ℕ) → Chain nx pv a (xs ++ ys) z → Chain nx pv a xs (first ys z)
  Chain-front a [] ys z h = tt
  Chain-front a (x ∷ xs) ys z h = (h.0, h.1 ∙ first-append xs ys z, Chain-front x xs ys z h.2)

  pub Chain-back :
      (a : ℕ) (xs ys : List ℕ) (z : ℕ) → Chain nx pv a (xs ++ ys) z → Chain nx pv (last xs a) ys z
  Chain-back a [] ys z h = h
  Chain-back a (x ∷ xs) ys z h = Chain-back x xs ys z h.2

  -- A write of a link of an address that is not in the chain.
  pub Chain-write_next :
      (q v a : ℕ) (xs : List ℕ) (z : ℕ)
      → has q xs ≡ false
      → Chain nx pv a xs z
      → Chain (write nx q v) pv a xs z
  Chain-write_next q v a [] z n h = tt
  Chain-write_next q v a (x ∷ xs) z n h =
      (h.0, ground (arith, n, h.1), Chain-write_next q v x xs z (ground (arith, n)) h.2)

  pub Chain-write_pre :
      (q v a : ℕ) (xs : List ℕ) (z : ℕ)
      → has q xs ≡ false
      → Chain nx pv a xs z
      → Chain nx (write pv q v) a xs z
  Chain-write_pre q v a [] z n h = tt
  Chain-write_pre q v a (x ∷ xs) z n h =
      (ground (arith, n, h.0), h.1, Chain-write_pre q v x xs z (ground (arith, n)) h.2)

  -- The link of the last address, set to where the chain is to end.
  pub Chain-retarget :
      (v a x : ℕ) (xs : List ℕ) (z : ℕ)
      → Apart (x ∷ xs)
      → Chain nx pv a (x ∷ xs) z
      → Chain (write nx (last xs x) v) pv a (x ∷ xs) v
  Chain-retarget v a x [] z d h = (h.0, ground arith, tt)
  Chain-retarget v a x (y ∷ xs) z d h = (
    h.0,
    if_false _ _ (==-of_ne x (last xs y) (ne_of_has x (last xs y) (y ∷ xs) d.0 (has-last y xs)))
        ∙ h.1,
    Chain-retarget v x y xs z d.2 h.2,
  )

  -- The link back of the first address, set to where the chain is to begin.
  pub Chain-repre :
      (v a x : ℕ) (xs : List ℕ) (z : ℕ)
      → has x xs ≡ false
      → Chain nx pv a (x ∷ xs) z
      → Chain nx (write pv x v) v (x ∷ xs) z
  Chain-repre v a x xs z n h = (ground arith, h.1, Chain-write_pre x v x xs z n h.2)

pub Apart-append : (xs ys : List ℕ) → Apart (xs ++ ys) → Apart xs × Apart ys
Apart-append [] ys d = (tt, d)
Apart-append (x ∷ xs) ys d = (
  (ground (arith, has-append x xs ys, d.0), d.1, (Apart-append xs ys d.2).0),
  (Apart-append xs ys d.2).1,
)

-- An address of one part is not in the other.
pub Apart-other : (p : ℕ) (xs ys : List ℕ) → Apart (xs ++ ys) → has p xs ≡ true → has p ys ≡ false
Apart-other p [] ys d h = cc
Apart-other p (x ∷ xs) ys d h = ground (arith, h, d.0, has-append x xs ys, Apart-other p xs ys d.2)

pub has-rest : (q p : ℕ) (xs : List ℕ) → has q (p ∷ xs) ≡ false → has q xs ≡ false
has-rest q p xs h = ground (arith, h)

pub Apart-other_left :
    (p : ℕ) (xs ys : List ℕ) → Apart (xs ++ ys) → has p ys ≡ true → has p xs ≡ false
Apart-other_left p xs ys d h = elim (Bool-cases (has p xs)) [
  | inl y ↦ let n = sym h ∙ Apart-other p xs ys d y in cc
  | inr n ↦ n
]

pub Apart-join :
    (xs ys : List ℕ)
    → Apart xs
    → Apart ys
    → ((p : ℕ) → has p xs ≡ true → has p ys ≡ false)
    → Apart (xs ++ ys)
Apart-join [] ys d e o = e
Apart-join (x ∷ xs) ys d e o = (
  ground (arith, has-append x xs ys, d.0, o x),
  d.1,
  Apart-join xs ys d.2 e (λ p h. o p (ground (arith, h))),
)

pub has-first : (q : ℕ) (xs : List ℕ) → has q (q ∷ xs) ≡ true
has-first q xs = ground arith

pub has-front : (q : ℕ) (xs ys : List ℕ) → has q xs ≡ true → has q (xs ++ ys) ≡ true
has-front q xs ys h = ground (arith, has-append q xs ys, h)

pub has-back : (q : ℕ) (xs ys : List ℕ) → has q ys ≡ true → has q (xs ++ ys) ≡ true
has-back q xs ys h = ground (arith, has-append q xs ys, h)

-- An address of the list moved to the front.
pub has-moved : (q p : ℕ) (xs ys : List ℕ) → has q (p ∷ (xs ++ ys)) ≡ has q (xs ++ (p ∷ ys))
has-moved q p xs ys = ground (arith, has-append q xs ys, has-append q xs (p ∷ ys))

pub Apart-moved : (p : ℕ) (xs ys : List ℕ) → Apart (xs ++ (p ∷ ys)) → Apart (p ∷ (xs ++ ys))
Apart-moved p [] ys d = d
Apart-moved p (x ∷ xs) ys d =
    let (out, ne, apart) = Apart-moved p xs ys d.2 in
    let moved = has-moved x p xs ys in
    (ground (arith, d.0, out, moved), ne, (ground (arith, d.0, moved), d.1, apart))

pub has-front_of_ne :
    (p q : ℕ) (xs : List ℕ) → has p (xs ++ (q ∷ [])) ≡ true → p ≢ q → has p xs ≡ true
has-front_of_ne p q xs h n = ground (arith, has-append p xs (q ∷ []), h, n)
