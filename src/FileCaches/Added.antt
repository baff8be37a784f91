-- ===== src/FileCaches/Added.antt =====
-- `LRUCache::addToHead` of ttw/file/filecache.cc: a new node in front of the list.
use ttw.Prelude.{
  ℕ, ◌<◌, ◌≡◌, ◌≢◌, refl, Bool, true, false, none, some, List, [], ◌∷◌, arith, ◌==◌, if◌then◌else◌,
  has, length, sym, ap, ◌∙◌, if_false, if_true, Bool-cases, inl, inr, subst, ◌⊎◌,
}
use ttw.Prelude.Int.{incr}
use ttw.Prelude.Text.{Bytes, eq_bytes, eq_bytes_iff, eq_bytes_self}
use ttw.Prelude.Dict.{find, assign, bytes_key, Distinct, find-assign, assign-Distinct}
use ttw.FileCaches.{LruCache, FileCache, live, write, add_node, new_node}
use ttw.FileCaches.Chains.{
  Chain, has-first, Chain-write_next, Chain-write_pre, Chain-repre, ne_of_has, ==-of_ne,
}
use ttw.FileCaches.Touch.{IsList, IsList-live}
use ttw.FileCaches.Insert.{IsLru, some_inj}

write-other {ℓ} : {A : Type ℓ} (f : ℕ → A) (p q : ℕ) (a : A) → q ≢ p → write f p a q ≡ f q
write-other f p q a n = if_false _ _ (==-of_ne q p n)

write_self {ℓ} : {A : Type ℓ} (f : ℕ → A) (p : ℕ) (a : A) → write f p a p ≡ a
write_self f p a = ground arith

living-write : (f : ℕ → Bool) (p q : ℕ) → f q ≡ true → write f p true q ≡ true
living-write f p q h = ground (arith, h)

-- `new` makes a node beside the list.
pub new_node-IsLru :
    (m fresh : ℕ) (c : FileCache) (s : LruCache) (xs : List ℕ)
    → has fresh xs ≡ false
    → IsLru m s xs
    → IsLru m (new_node fresh c s) xs
unfolding new_node
new_node-IsLru m fresh c s xs out is = record {
  nodes = record {
    chain =
        Chain-write_pre (write s.next fresh 0) s.pre fresh 0 0 xs 0 out
          (Chain-write_next s.next s.pre fresh 0 0 xs 0 out is.nodes.chain);
    apart = is.nodes.apart;
    head = is.nodes.head;
    tail = is.nodes.tail;
    living = λ p h. living-write s.alive fresh p (is.nodes.living p h);
  };
  distinct = is.distinct;
  mapped = λ k p e.
      (let (inside, path) = is.mapped k p e in (inside, ap (λ f. f.path) (same p inside) ∙ path));
  covered = λ p h. ap (λ f. find f.path s.cache_node) (same p h) ∙ is.covered p h;
  counted = is.counted;
  bound = is.bound;
  within = is.within;
}
  where
    same : (p : ℕ) → has p xs ≡ true → write s.file fresh c p ≡ s.file p
    same p h = write-other s.file fresh p c (λ e. ne_of_has fresh p xs out h (sym e))

rest_of : (p q : ℕ) (xs : List ℕ) → has p (q ∷ xs) ≡ true → (p == q) ≡ false → has p xs ≡ true
rest_of p q xs h n = ground (arith, h, n)

eq_of_== : (p q : ℕ) → (p == q) ≡ true → p ≡ q
eq_of_== p q h = ground (arith, h)

-- What a new node in front of the list is to have.
pub record Ready (fresh : ℕ) (s : LruCache) (xs : List ℕ) : Type 0 where
  pub out : has fresh xs ≡ false
  pub address : fresh ≢ 0
  pub living : s.alive fresh ≡ true
  pub next : s.next fresh ≡ 0
  pub pre : s.pre fresh ≡ 0
  pub new_path : find (s.file fresh).path s.cache_node ≡ none

abbrev pub entered : ℕ → LruCache → LruCache
entered fresh s = record s { cache_node = assign (s.file fresh).path fresh s.cache_node }

module _ (m fresh : ℕ) (s : LruCache) (xs : List ℕ) (is : IsLru m s xs)
    (ready : Ready fresh s xs) where
  added-IsLru :
      (u : LruCache)
      → IsList u (fresh ∷ xs)
      → u.file ≡ s.file
      → u.cache_node ≡ assign (s.file fresh).path fresh s.cache_node
      → u.count ≡ incr s.count
      → u.max ≡ s.max
      → length xs < m
      → IsLru m u (fresh ∷ xs)
  added-IsLru u nodes file node count max short = record {
    nodes = nodes;
    distinct =
        subst Distinct (sym node)
          (assign-Distinct (s.file fresh).path fresh s.cache_node is.distinct);
    mapped = λ k p e. on_map k p (sym (found k) ∙ e) (Bool-cases (eq_bytes (s.file fresh).path k));
    covered = λ p h.
        ap (λ f. find (f p).path u.cache_node) file
        ∙ found (s.file p).path
        ∙ on_list p h (Bool-cases (p == fresh))
            (Bool-cases (eq_bytes (s.file fresh).path (s.file p).path));
    counted = count ∙ ap incr is.counted;
    bound = max ∙ is.bound;
    within = omega (arith, short);
  }
    where
      found :
          (k : Bytes)
          → find k u.cache_node
            ≡ (if eq_bytes (s.file fresh).path k then some fresh else find k s.cache_node)
      found k = ap (find k) node ∙ find-assign k (s.file fresh).path fresh s.cache_node

      on_map :
          (k : Bytes) (p : ℕ)
          → (if eq_bytes (s.file fresh).path k then some fresh else find k s.cache_node) ≡ some p
          → ((eq_bytes (s.file fresh).path k ≡ true) ⊎ (eq_bytes (s.file fresh).path k ≡ false))
          → (has p (fresh ∷ xs) ≡ true) × ((u.file p).path ≡ k)
      on_map k p e (inl y) =
          let same : fresh ≡ p = some_inj (sym (if_true _ _ y) ∙ e) in
          subst (λ q. (has q (fresh ∷ xs) ≡ true) × ((u.file q).path ≡ k)) same
            (
              has-first fresh xs,
              ap (λ f. (f fresh).path) file ∙ (eq_bytes_iff (s.file fresh).path k).0 y,
            )
      on_map k p e (inr n) =
          let (inside, path) = is.mapped k p (sym (if_false _ _ n) ∙ e) in
          (ground (arith, inside), ap (λ f. (f p).path) file ∙ path)

      on_list :
          (p : ℕ)
          → has p (fresh ∷ xs) ≡ true
          → ((p == fresh) ≡ true) ⊎ ((p == fresh) ≡ false)
          → ((eq_bytes (s.file fresh).path (s.file p).path ≡ true)
              ⊎ (eq_bytes (s.file fresh).path (s.file p).path ≡ false))
          → (if eq_bytes (s.file fresh).path (s.file p).path
              then some fresh
              else find (s.file p).path s.cache_node)
            ≡ some p
      on_list p h (inl y) c =
          let same = eq_of_== p fresh y in
          subst
            (λ q.
              (if eq_bytes (s.file fresh).path (s.file q).path
                then some fresh
                else find (s.file q).path s.cache_node)
              ≡ some q)
            (sym same) (if_true _ _ (eq_bytes_self (s.file fresh).path))
      on_list p h (inr n) (inl y) =
          let path = (eq_bytes_iff (s.file fresh).path (s.file p).path).0 y in
          let there = is.covered p (rest_of p fresh xs h n) in
          let never = sym ready.new_path ∙ ap (λ k. find k s.cache_node) path ∙ there in absurd (cc)
      on_list p h (inr n) (inr no_path) =
          if_false _ _ no_path ∙ is.covered p (rest_of p fresh xs h n)

module _ (m fresh : ℕ) (s : LruCache) where
  abbrev first_added : LruCache
  first_added = record (entered fresh s) { head = fresh; tail = fresh; count = incr s.count }

  abbrev front_added : LruCache
  front_added = record (entered fresh s) {
    next = write s.next fresh s.head;
    pre = write s.pre s.head fresh;
    head = fresh;
    count = incr s.count;
  }

  add_node-first : s.head ≡ 0 → add_node fresh (entered fresh s) ≡ some first_added
  unfolding add_node
  add_node-first e = ground (arith, e)

  add_node-front :
      live s fresh ≡ true
      → live s s.head ≡ true
      → add_node fresh (entered fresh s) ≡ some front_added
  unfolding add_node
  add_node-front h g = ground (arith, h, g)

  -- `addToHead(Node*)`, after the entry in the map, puts a new node in front of the list.
  pub add_node-Added :
      (xs : List ℕ)
      → IsLru m s xs
      → Ready fresh s xs
      → length xs < m
      → (u : LruCache) × (add_node fresh (entered fresh s) ≡ some u)
        × IsLru m u (fresh ∷ xs)
        × (u.file ≡ s.file)
  add_node-Added [] is ready short = (
    first_added,
    add_node-first is.nodes.head,
    added-IsLru m fresh s [] is ready first_added
        (record {
          chain = (ready.pre, ready.next, tt);
          apart = (refl, ready.address, tt);
          head = refl;
          tail = refl;
          living = λ p h.
              subst (λ q. s.alive q ≡ true) (sym (eq_of_== p fresh (ground (arith, h))))
                ready.living;
        })
        refl refl refl refl short,
    refl,
  )
  add_node-Added (a ∷ ys) is ready short = (
    front_added,
    add_node-front (ground (arith, ready.address, ready.living)) (
        subst (λ q. live s q ≡ true) (sym is.nodes.head)
          (IsList-live s (a ∷ ys) a is.nodes (has-first a ys))),
    added-IsLru m fresh s (a ∷ ys) is ready front_added
        (record {
          chain =
              subst (λ h. Chain (write s.next fresh h) (write s.pre h fresh) 0 (fresh ∷ a ∷ ys) 0)
                (sym is.nodes.head)
                (
                  write-other s.pre a fresh fresh
                        (ne_of_has fresh a (a ∷ ys) ready.out (has-first a ys))
                      ∙ ready.pre,
                  write_self s.next fresh a,
                  Chain-repre (write s.next fresh a) s.pre fresh 0 a ys 0 is.nodes.apart.0
                      (Chain-write_next s.next s.pre fresh a 0 (a ∷ ys) 0 ready.out is.nodes.chain),
                );
          apart = (ready.out, ready.address, is.nodes.apart);
          head = refl;
          tail = is.nodes.tail;
          living = λ p h. living_with p h (Bool-cases (p == fresh));
        })
        refl refl refl refl short,
    refl,
  )
    where
      living_with :
          (p : ℕ)
          → has p (fresh ∷ a ∷ ys) ≡ true
          → ((p == fresh) ≡ true) ⊎ ((p == fresh) ≡ false)
          → s.alive p ≡ true
      living_with p h (inl y) =
          subst (λ q. s.alive q ≡ true) (sym (eq_of_== p fresh y)) ready.living
      living_with p h (inr n) = is.nodes.living p (rest_of p fresh (a ∷ ys) h n)
