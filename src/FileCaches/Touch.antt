-- ===== src/FileCaches/Touch.antt =====
-- `LRUCache::moveToHead` of ttw/file/filecache.cc on the list of the cache: it moves the node to the front.
use ttw.Prelude.{
  ℕ, ◌≡◌, ◌≢◌, refl, true, false, some, List, [], ◌∷◌, ◌++◌, arith, ◌==◌, if◌then◌else◌, has,
  has-append, sym, ap, ◌∙◌, append_nil, Bool-cases, inl, inr, subst,
}
use ttw.FileCaches.{LruCache, live, move_to_head, write}
use ttw.FileCaches.Chains.{
  Chain, Apart, first, last, last-append, has-last, Chain-back, Apart-append, Apart-other_left,
  ne_of_has, ==-of_ne, has-first, has-front, has-back, has-moved, Apart-moved,
}
use ttw.FileCaches.Moves.{
  inner_moved, last_moved, move_to_head-inner, move_to_head-last, inner_moved-Chain,
  last_moved-Chain,
}

-- The nodes from the head to the tail are those of the list, and are live.
pub record IsList (s : LruCache) (xs : List ℕ) : Type 0 where
  pub chain : Chain s.next s.pre 0 xs 0
  pub apart : Apart xs
  pub head : s.head ≡ first xs 0
  pub tail : s.tail ≡ last xs 0
  pub living : (p : ℕ) → has p xs ≡ true → s.alive p ≡ true

-- What no move touches.
pub record Kept (s t : LruCache) : Type 0 where
  pub file : t.file ≡ s.file
  pub cache_node : t.cache_node ≡ s.cache_node
  pub count : t.count ≡ s.count
  pub max : t.max ≡ s.max
  pub alive : t.alive ≡ s.alive

abbrev pub without : ℕ → List ℕ → List ℕ
without p [] = []
without p (x ∷ xs) = if p == x then xs else x ∷ without p xs

pub Apart-ne : (p : ℕ) (xs : List ℕ) → Apart xs → has p xs ≡ true → p ≢ 0
Apart-ne p [] d h = λ e. cc
Apart-ne p (x ∷ xs) d h = ground (arith, d.1, h, Apart-ne p xs d.2)

pub IsList-live :
    (s : LruCache) (xs : List ℕ) (p : ℕ) → IsList s xs → has p xs ≡ true → live s p ≡ true
IsList-live s xs p is h = ground (arith, Apart-ne p xs is.apart h, is.living p h)

has-middle : (p : ℕ) (xs ys : List ℕ) → has p (xs ++ (p ∷ ys)) ≡ true
has-middle p xs ys = ground (arith, has-append p xs (p ∷ ys))

without-middle : (p : ℕ) (xs ys : List ℕ) → has p xs ≡ false → without p (xs ++ (p ∷ ys)) ≡ xs ++ ys
without-middle p [] ys n = ground arith
without-middle p (x ∷ xs) ys n = ground (arith, n, without-middle p xs ys)

-- Where an address of a list stands.
pub split :
    (p : ℕ) (xs : List ℕ)
    → has p xs ≡ true
    → (front : List ℕ) × (back : List ℕ) × (xs ≡ front ++ (p ∷ back)) × (has p front ≡ false)
split p [] h = cc
split p (x ∷ xs) h = elim (Bool-cases (p == x)) [
  | inl y ↦ ([], xs, ground (arith, y), refl)
  | inr n ↦
      let (front, back, e, out) = split p xs (ground (arith, h, n)) in
      (x ∷ front, back, ap (λ z. x ∷ z) e, ground (arith, n, out))
]

Touched : ℕ → LruCache → List ℕ → Type 0
Touched p s ys = (t : LruCache) × (move_to_head p s ≡ some t) × IsList t ys × Kept s t

module _ (s : LruCache) (a p : ℕ) (xs : List ℕ) where
  -- The links after the move, with the values that they were read from.
  abbrev Inner : ℕ → ℕ → ℕ → List ℕ → Type 0
  Inner l b h zs =
      Chain (write (write s.next l b) p h) (write (write (write s.pre b l) p 0) h p) 0 zs 0

  abbrev Last : ℕ → ℕ → List ℕ → Type 0
  Last l h zs = Chain (write (write s.next l 0) p h) (write (write s.pre h p) p 0) 0 zs 0

  head-facts :
      (back : List ℕ)
      → IsList s ((a ∷ xs) ++ (p ∷ back))
      → ((p == s.head) ≡ false)
        × ((p == last xs a) ≡ false)
        × (s.pre p ≡ last xs a)
        × (live s p ≡ true)
        × (live s (s.pre p) ≡ true)
        × (live s s.head ≡ true)
  head-facts back is =
      let all = (a ∷ xs) ++ (p ∷ back) in
      let (prev, _, _) = Chain-back s.next s.pre 0 (a ∷ xs) (p ∷ back) 0 is.chain in
      let out = Apart-other_left p (a ∷ xs) (p ∷ back) is.apart (has-first p back) in
      (
        ==-of_ne p s.head (λ e. ne_of_has p a (a ∷ xs) out (has-first a xs) (e ∙ is.head)),
        ==-of_ne p (last xs a) (ne_of_has p (last xs a) (a ∷ xs) out (has-last a xs)),
        prev,
        IsList-live s all p is (has-back p (a ∷ xs) (p ∷ back) (has-first p back)),
        subst (λ q. live s q ≡ true) (sym prev)
            (IsList-live s all (last xs a) is
              (has-front (last xs a) (a ∷ xs) (p ∷ back) (has-last a xs))),
        subst (λ q. live s q ≡ true) (sym is.head)
            (IsList-live s all a is (has-first a (xs ++ (p ∷ back)))),
      )

  inner-Touched :
      (b : ℕ) (ys : List ℕ)
      → IsList s ((a ∷ xs) ++ (p ∷ b ∷ ys))
      → Touched p s (p ∷ ((a ∷ xs) ++ (b ∷ ys)))
  unfolding Touched
  inner-Touched b ys is =
      let all = (a ∷ xs) ++ (p ∷ b ∷ ys) in
      let (_, following, _) = Chain-back s.next s.pre 0 (a ∷ xs) (p ∷ b ∷ ys) 0 is.chain in
      let (not_head, not_last, prev, lp, ll, lh) = head-facts (b ∷ ys) is in
      let (_, d2) = Apart-append (a ∷ xs) (p ∷ b ∷ ys) is.apart in
      let end : s.tail ≡ last ys b = is.tail ∙ last-append (a ∷ xs) (p ∷ b ∷ ys) 0 in
      let not_tail : (p == s.tail) ≡ false =
        ==-of_ne p s.tail (λ e. ne_of_has p (last ys b) (b ∷ ys) d2.0 (has-last b ys) (e ∙ end)) in
      let lb : live s (s.next p) ≡ true =
        subst (λ q. live s q ≡ true) (sym following)
          (IsList-live s all b is
            (has-back b (a ∷ xs) (p ∷ b ∷ ys) (has-back b (p ∷ []) (b ∷ ys) (has-first b ys)))) in
      (
        inner_moved p s,
        move_to_head-inner p s not_head not_tail (ap (λ q. p == q) prev ∙ not_last) lp ll lb lh,
        record {
          chain =
              subst (λ h. Inner (s.pre p) (s.next p) h (p ∷ ((a ∷ xs) ++ (b ∷ ys)))) (sym is.head)
                (subst (λ n. Inner (s.pre p) n a (p ∷ ((a ∷ xs) ++ (b ∷ ys)))) (sym following)
                  (subst (λ l. Inner l b a (p ∷ ((a ∷ xs) ++ (b ∷ ys)))) (sym prev)
                    (inner_moved-Chain s.next s.pre a p b xs ys is.apart is.chain)));
          apart = Apart-moved p (a ∷ xs) (b ∷ ys) is.apart;
          head = refl;
          tail = end ∙ sym (last-append (a ∷ xs) (b ∷ ys) p);
          living = λ q h. is.living q (sym (has-moved q p (a ∷ xs) (b ∷ ys)) ∙ h);
        },
        record { file = refl; cache_node = refl; count = refl; max = refl; alive = refl },
      )

  last-Touched : IsList s ((a ∷ xs) ++ (p ∷ [])) → Touched p s (p ∷ ((a ∷ xs) ++ []))
  unfolding Touched
  last-Touched is =
      let (not_head, not_last, prev, lp, ll, lh) = head-facts [] is in
      (
        last_moved p s,
        move_to_head-last p s not_head (sym (is.tail ∙ last-append (a ∷ xs) (p ∷ []) 0)) lp ll lh,
        record {
          chain =
              subst (λ h. Last (s.pre p) h (p ∷ ((a ∷ xs) ++ []))) (sym is.head)
                (subst (λ l. Last l a (p ∷ ((a ∷ xs) ++ []))) (sym prev)
                  (subst (λ z. Last (last xs a) a (p ∷ z)) (sym (append_nil (a ∷ xs)))
                    (last_moved-Chain s.next s.pre a p xs is.apart is.chain)));
          apart = Apart-moved p (a ∷ xs) [] is.apart;
          head = refl;
          tail = prev ∙ sym (ap (λ z. last z p) (append_nil (a ∷ xs)));
          living = λ q h. is.living q (sym (has-moved q p (a ∷ xs) []) ∙ h);
        },
        record { file = refl; cache_node = refl; count = refl; max = refl; alive = refl },
      )

head-Touched : (s : LruCache) (p : ℕ) (ys : List ℕ) → IsList s (p ∷ ys) → Touched p s (p ∷ ys)
unfolding Touched move_to_head
head-Touched s p ys is = (
  s,
  ground (arith, is.head, is.apart.1),
  is,
  record { file = refl; cache_node = refl; count = refl; max = refl; alive = refl },
)

pub touch-split :
    (s : LruCache) (p : ℕ) (front back : List ℕ)
    → IsList s (front ++ (p ∷ back))
    → (t : LruCache) × (move_to_head p s ≡ some t) × IsList t (p ∷ (front ++ back)) × Kept s t
unfolding Touched
touch-split s p [] back is = head-Touched s p back is
touch-split s p (a ∷ xs) [] is = last-Touched s a p xs is
touch-split s p (a ∷ xs) (b ∷ ys) is = inner-Touched s a p xs b ys is
