-- ===== src/FileCaches/Evict.antt =====
-- `LRUCache::delCacheNode` of ttw/file/filecache.cc on the list of nodes.
use ttw.Prelude.{
  ℕ, ◌≡◌, refl, true, false, some, List, [], ◌∷◌, ◌++◌, arith, ◌==◌, sym, ap, ◌∙◌, if_false, subst,
}
use ttw.Prelude.Int.{decr}
use ttw.Prelude.Dict.{remove, bytes_key}
use ttw.FileCaches.{LruCache, live, write, del_cache_node}
use ttw.FileCaches.Chains.{
  Chain, last, last-append, has-last, Chain-back, Chain-front, Chain-retarget, Apart-append,
  Apart-other_left, ne_of_has, ==-of_ne, has-first, has-front, has-back,
}
use ttw.FileCaches.Touch.{IsList, IsList-live}

write-zero : (f : ℕ → ℕ) (l p : ℕ) → f p ≡ 0 → write f l 0 p ≡ 0
write-zero f l p e = ground (arith, e)

-- What the eviction of the last node `q` leaves.
pub record Evicted (q : ℕ) (front : List ℕ) (s t : LruCache) : Type 0 where
  pub nodes : IsList t front
  pub file : t.file ≡ s.file
  pub cache_node : t.cache_node ≡ remove (s.file q).path s.cache_node
  pub count : t.count ≡ decr s.count
  pub max : t.max ≡ s.max
  pub pre : t.pre ≡ s.pre
  pub alive : t.alive ≡ write s.alive q false
  pub next : (p : ℕ) → s.next p ≡ 0 → t.next p ≡ 0

Evictable : ℕ → List ℕ → LruCache → Type 0
Evictable q front s = (t : LruCache) × (del_cache_node s ≡ some t) × Evicted q front s t

abbrev evicted_one : ℕ → LruCache → LruCache
evicted_one q s = record s {
  cache_node = remove (s.file q).path s.cache_node;
  alive = write s.alive q false;
  tail = 0;
  head = 0;
  count = decr s.count;
}

abbrev evicted_last : ℕ → LruCache → LruCache
evicted_last q s = record s {
  cache_node = remove (s.file q).path s.cache_node;
  alive = write s.alive q false;
  tail = s.pre q;
  next = write s.next (s.pre q) 0;
  count = decr s.count;
}

del_cache_node-one :
    (s : LruCache)
    → live s s.tail ≡ true
    → (s.tail == s.head) ≡ true
    → del_cache_node s ≡ some (evicted_one s.tail s)
unfolding del_cache_node
del_cache_node-one s l e = ground (arith, l, e)

del_cache_node-last :
    (s : LruCache)
    → live s s.tail ≡ true
    → (s.tail == s.head) ≡ false
    → (s.pre s.tail == s.tail) ≡ false
    → live s (s.pre s.tail) ≡ true
    → del_cache_node s ≡ some (evicted_last s.tail s)
unfolding del_cache_node
del_cache_node-last s l e n lp = ground (arith, l, e, n, lp)

one-Evictable : (s : LruCache) (q : ℕ) → IsList s (q ∷ []) → Evictable s.tail [] s
unfolding Evictable
one-Evictable s q is = (
  evicted_one s.tail s,
  del_cache_node-one s
      (subst (λ x. live s x ≡ true) (sym is.tail) (IsList-live s (q ∷ []) q is (has-first q [])))
      (ground (arith, is.tail, is.head)),
  record {
    nodes = record { chain = tt; apart = tt; head = refl; tail = refl; living = λ p h. cc };
    file = refl;
    cache_node = refl;
    count = refl;
    max = refl;
    pre = refl;
    alive = refl;
    next = λ p e. e;
  },
)

last-Evictable :
    (s : LruCache) (a q : ℕ) (xs : List ℕ)
    → IsList s ((a ∷ xs) ++ (q ∷ []))
    → Evictable s.tail (a ∷ xs) s
unfolding Evictable
last-Evictable s a q xs is =
    let all = (a ∷ xs) ++ (q ∷ []) in
    let end : s.tail ≡ q = is.tail ∙ last-append (a ∷ xs) (q ∷ []) 0 in
    let (prev, _, _) = Chain-back s.next s.pre 0 (a ∷ xs) (q ∷ []) 0 is.chain in
    let before : s.pre s.tail ≡ last xs a = ap s.pre end ∙ prev in
    let out = Apart-other_left q (a ∷ xs) (q ∷ []) is.apart (has-first q []) in
    let (d1, _) = Apart-append (a ∷ xs) (q ∷ []) is.apart in
    (
      evicted_last s.tail s,
      del_cache_node-last s
          (subst (λ x. live s x ≡ true) (sym end)
            (IsList-live s all q is (has-back q (a ∷ xs) (q ∷ []) (has-first q []))))
          (==-of_ne s.tail s.head
            (λ e. ne_of_has q a (a ∷ xs) out (has-first a xs) (sym end ∙ e ∙ is.head)))
          (==-of_ne (s.pre s.tail) s.tail
            (λ e. ne_of_has q (last xs a) (a ∷ xs) out (has-last a xs) (sym end ∙ sym e ∙ before)))
          (subst (λ x. live s x ≡ true) (sym before)
            (IsList-live s all (last xs a) is
              (has-front (last xs a) (a ∷ xs) (q ∷ []) (has-last a xs)))),
      record {
        nodes = record {
          chain =
              subst (λ l. Chain (write s.next l 0) s.pre 0 (a ∷ xs) 0) (sym before)
                (Chain-retarget s.next s.pre 0 0 a xs q d1
                  (Chain-front s.next s.pre 0 (a ∷ xs) (q ∷ []) 0 is.chain));
          apart = d1;
          head = is.head;
          tail = before;
          living = λ p h.
              if_false _ _ (==-of_ne p s.tail (λ e. ne_of_has q p (a ∷ xs) out h (sym (e ∙ end))))
              ∙ is.living p (has-front p (a ∷ xs) (q ∷ []) h);
        };
        file = refl;
        cache_node = refl;
        count = refl;
        max = refl;
        pre = refl;
        alive = refl;
        next = λ p e. write-zero s.next (s.pre s.tail) p e;
      },
    )

-- `delCacheNode` takes out the last node of the list and its entry of the map.
pub evict :
    (s : LruCache) (q : ℕ) (front : List ℕ)
    → IsList s (front ++ (q ∷ []))
    → (t : LruCache) × (del_cache_node s ≡ some t) × Evicted q front s t
unfolding Evictable
evict s q [] is = subst (λ x. Evictable x [] s) is.tail (one-Evictable s q is)
evict s q (a ∷ xs) is =
    subst (λ x. Evictable x (a ∷ xs) s) (is.tail ∙ last-append (a ∷ xs) (q ∷ []) 0)
      (last-Evictable s a q xs is)
