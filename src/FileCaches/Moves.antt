-- ===== src/FileCaches/Moves.antt =====
-- `LRUCache::moveToHead` of ttw/file/filecache.cc on a chain.
use ttw.Prelude.{ℕ, ◌≡◌, true, false, some, List, [], ◌∷◌, ◌++◌, arith, ◌==◌, has, has-append}
use ttw.FileCaches.{LruCache, write, live, move_to_head}
use ttw.FileCaches.Chains.{
  Chain, Apart, last, has-last, Chain-append, Chain-front, Chain-back, Chain-write_next,
  Chain-write_pre, Chain-retarget, Chain-repre, Apart-append, Apart-other, Apart-other_left,
  has-rest,
}

-- The state after the move of an address from between the first and the last one, and of the last one.
abbrev pub inner_moved : ℕ → LruCache → LruCache
inner_moved p s = record s {
  next = write (write s.next (s.pre p) (s.next p)) p s.head;
  pre = write (write (write s.pre (s.next p) (s.pre p)) p 0) s.head p;
  head = p;
}

abbrev pub last_moved : ℕ → LruCache → LruCache
last_moved p s = record s {
  next = write (write s.next (s.pre p) 0) p s.head;
  pre = write (write s.pre s.head p) p 0;
  head = p;
  tail = s.pre p;
}

pub move_to_head-inner :
    (p : ℕ) (s : LruCache)
    → (p == s.head) ≡ false
    → (p == s.tail) ≡ false
    → (p == s.pre p) ≡ false
    → live s p ≡ true
    → live s (s.pre p) ≡ true
    → live s (s.next p) ≡ true
    → live s s.head ≡ true
    → move_to_head p s ≡ some (inner_moved p s)
unfolding move_to_head
move_to_head-inner p s h t o lp ll lb lh = ground (arith, h, t, o, lp, ll, lb, lh)

pub move_to_head-last :
    (p : ℕ) (s : LruCache)
    → (p == s.head) ≡ false
    → p ≡ s.tail
    → live s p ≡ true
    → live s (s.pre p) ≡ true
    → live s s.head ≡ true
    → move_to_head p s ≡ some (last_moved p s)
unfolding move_to_head
move_to_head-last p s h t lp ll lh = ground (arith, h, t, lp, ll, lh)

-- An address put in front of a chain that it is not in.
to_front :
    (nx pv : ℕ → ℕ) (p a : ℕ) (zs : List ℕ)
    → has p (a ∷ zs) ≡ false
    → has a zs ≡ false
    → Chain nx pv 0 (a ∷ zs) 0
    → Chain (write nx p a) (write (write pv p 0) a p) 0 (p ∷ a ∷ zs) 0
to_front nx pv p a zs n m h = (
  ground (arith, n),
  ground arith,
  Chain-repre (write nx p a) (write pv p 0) p 0 a zs 0 m (
      Chain-write_pre (write nx p a) pv p 0 0 (a ∷ zs) 0 n
        (Chain-write_next nx pv p a 0 (a ∷ zs) 0 n h)),
)

to_front_late :
    (nx pv : ℕ → ℕ) (p a : ℕ) (zs : List ℕ)
    → has p (a ∷ zs) ≡ false
    → has a zs ≡ false
    → Chain nx pv 0 (a ∷ zs) 0
    → Chain (write nx p a) (write (write pv a p) p 0) 0 (p ∷ a ∷ zs) 0
to_front_late nx pv p a zs n m h = (
  ground arith,
  ground arith,
  Chain-write_pre (write nx p a) (write pv a p) p 0 p (a ∷ zs) 0 n
      (Chain-repre (write nx p a) pv p 0 a zs 0 m (Chain-write_next nx pv p a 0 (a ∷ zs) 0 n h)),
)

pub without-inner :
    (p a b : ℕ) (xs ys : List ℕ)
    → Apart ((a ∷ xs) ++ (p ∷ b ∷ ys))
    → (has p ((a ∷ xs) ++ (b ∷ ys)) ≡ false) × (has a (xs ++ (b ∷ ys)) ≡ false)
without-inner p a b xs ys d = (
  ground (
    arith,
    has-append p (a ∷ xs) (b ∷ ys),
    Apart-other_left p (a ∷ xs) (p ∷ b ∷ ys) d,
    (Apart-append (a ∷ xs) (p ∷ b ∷ ys) d).1.0,
  ),
  ground (arith, has-append a xs (b ∷ ys), has-append a xs (p ∷ b ∷ ys), d.0),
)

-- The links after a move from the middle to the front.
module _ (nx pv : ℕ → ℕ) (a p b : ℕ) (xs ys : List ℕ) where
  pub inner_moved-Chain :
      Apart ((a ∷ xs) ++ (p ∷ b ∷ ys))
      → Chain nx pv 0 ((a ∷ xs) ++ (p ∷ b ∷ ys)) 0
      → Chain
          (write (write nx (last xs a) b) p a)
          (write (write (write pv b (last xs a)) p 0) a p)
          0
          (p ∷ ((a ∷ xs) ++ (b ∷ ys)))
          0
  inner_moved-Chain d h =
      let (d1, d2) = Apart-append (a ∷ xs) (p ∷ b ∷ ys) d in
      let b_out : has b (a ∷ xs) ≡ false =
        Apart-other_left b (a ∷ xs) (p ∷ b ∷ ys) d (ground arith) in
      let p_out : has p (a ∷ xs) ≡ false =
        Apart-other_left p (a ∷ xs) (p ∷ b ∷ ys) d (ground arith) in
      let l_out : has (last xs a) (p ∷ b ∷ ys) ≡ false =
        Apart-other (last xs a) (a ∷ xs) (p ∷ b ∷ ys) d (has-last a xs) in
      let front =
        Chain-write_pre (write nx (last xs a) b) pv b (last xs a) 0 (a ∷ xs) b b_out
          (Chain-retarget nx pv b 0 a xs p d1 (Chain-front nx pv 0 (a ∷ xs) (p ∷ b ∷ ys) 0 h)) in
      let rest = Chain-back nx pv 0 (a ∷ xs) (p ∷ b ∷ ys) 0 h in
      let back = Chain-repre (write nx (last xs a) b) pv (last xs a) p b ys 0 d2.2.0 (
        Chain-write_next nx pv (last xs a) b p (b ∷ ys) 0 (has-rest (last xs a) p (b ∷ ys) l_out)
          rest.2) in
      let joined =
        Chain-append (write nx (last xs a) b) (write pv b (last xs a)) 0 (a ∷ xs) (b ∷ ys) 0 front
          back in
      let (p_apart, a_apart) = without-inner p a b xs ys d in
      to_front (write nx (last xs a) b) (write pv b (last xs a)) p a (xs ++ (b ∷ ys)) p_apart
        a_apart joined

-- The links after a move from the end to the front.
pub last_moved-Chain :
    (nx pv : ℕ → ℕ) (a p : ℕ) (xs : List ℕ)
    → Apart ((a ∷ xs) ++ (p ∷ []))
    → Chain nx pv 0 ((a ∷ xs) ++ (p ∷ [])) 0
    → Chain (write (write nx (last xs a) 0) p a) (write (write pv a p) p 0) 0 (p ∷ a ∷ xs) 0
last_moved-Chain nx pv a p xs d h =
    let (d1, d2) = Apart-append (a ∷ xs) (p ∷ []) d in
    to_front_late (write nx (last xs a) 0) pv p a xs
      (Apart-other_left p (a ∷ xs) (p ∷ []) d (ground arith)) d1.0
      (Chain-retarget nx pv 0 0 a xs p d1 (Chain-front nx pv 0 (a ∷ xs) (p ∷ []) 0 h))
