-- ===== src/FileCaches/Clears.antt =====
-- `LRUCache::clear` of ttw/file/filecache.cc.
use ttw.Prelude.{
  ℕ, ◌≡◌, refl, Bool, true, false, some, List, [], ◌∷◌, arith, sym, ap, ◌∙◌, Bool-cases, inl, inr,
  if_true, if_false, if◌then◌else◌, has, ◌==◌,
}
use ttw.Prelude.Int.{pos}
use ttw.Prelude.Text.{Bytes}
use ttw.Prelude.Dict.{find, bytes_key, Distinct}
use ttw.FileCaches.{LruCache, clear, delete, delete_all, live, write, ◌>>=◌}
use ttw.FileCaches.Touch.{IsList-live}
use ttw.FileCaches.Insert.{IsLru}

-- Each path of the list leads to a live node of this path.
abbrev Mapped : List (Bytes × ℕ) → LruCache → Type 0
Mapped l s = (k : Bytes) (p : ℕ) → find k l ≡ some p → (live s p ≡ true) × ((s.file p).path ≡ k)

abbrev deleted : ℕ → LruCache → LruCache
deleted p s = record s { alive = write s.alive p false }

delete-live : (p : ℕ) (s : LruCache) → live s p ≡ true → delete p s ≡ some (deleted p s)
unfolding delete
delete-live p s l = if_true _ _ l

-- The entries after the first one lead to live nodes also when the first node is deleted: no two paths have one node.
Mapped-rest :
    (k : Bytes) (p : ℕ) (l : List (Bytes × ℕ)) (s : LruCache)
    → Distinct ((k, p) ∷ l)
    → Mapped ((k, p) ∷ l) s
    → Mapped l (deleted p s)
unfolding find
Mapped-rest k p l s d is j q f = elim (Bool-cases (bytes_key.same k j)) [
  | inl y ↦
      absurd
        (let same = (bytes_key.same_iff k j).0 y in let none_there = d.0 in let there = f in cc)
  | inr other ↦
      let (living, path) = is j q (if_false _ _ other ∙ f) in
      let (_, here) = is k p (if_true _ _ ((bytes_key.same_iff k k).1 refl)) in
      (ground (arith, living, other, bytes_key.same_iff k j, apart q (here) path), path)
]
  where
    apart : (q : ℕ) → (s.file p).path ≡ k → (s.file q).path ≡ j → q ≡ p → k ≡ j
    apart q a b e = sym a ∙ ap (λ x. (s.file x).path) (sym e) ∙ b

abbrev values : List (Bytes × ℕ) → List ℕ
values [] = []
values ((k, p) ∷ l) = p ∷ values l

-- The nodes of the entries are all deleted, each once, and nothing else changes.
delete_all-live :
    (l : List (Bytes × ℕ)) (s : LruCache)
    → Distinct l
    → Mapped l s
    → (a : ℕ → Bool) × (delete_all l s ≡ some (record s { alive = a }))
      × ((p : ℕ) → a p ≡ (if has p (values l) then false else s.alive p))
unfolding find delete_all
delete_all-live [] s d is = (s.alive, refl, λ p. refl)
delete_all-live ((k, p) ∷ l) s d is =
    let (living, _) = is k p (if_true _ _ ((bytes_key.same_iff k k).1 refl)) in
    let (a, e, dead) = delete_all-live l (deleted p s) d.1 (Mapped-rest k p l s d is) in
    (a, ap (λ x. x >>= delete_all l) (delete-live p s living) ∙ e, λ q. ground (arith, dead q))

-- A node stands in the map exactly if it stands in the list.
find-values :
    (k : Bytes) (p : ℕ) (l : List (Bytes × ℕ)) → find k l ≡ some p → has p (values l) ≡ true
unfolding find
find-values k p [] f = cc
find-values k p ((j, q) ∷ l) f = ground (arith, f, find-values k p l)

values-find :
    (p : ℕ) (l : List (Bytes × ℕ))
    → Distinct l
    → has p (values l) ≡ true
    → (k : Bytes) × (find k l ≡ some p)
unfolding find
values-find p [] d h = absurd (cc)
values-find p ((j, q) ∷ l) d h = elim (Bool-cases (p == q)) [
  | inl y ↦
      (j, if_true _ _ ((bytes_key.same_iff j j).1 refl) ∙ ap (λ x. some x) (ground (arith, y)))
  | inr n ↦
      let (k, f) = values-find p l d.1 (ground (arith, h, n)) in
      (k, if_false {b = bytes_key.same j k} _ _ (other k f) ∙ f)
]
  where
    other : (k : Bytes) → find k l ≡ some p → bytes_key.same j k ≡ false
    other k f = elim (Bool-cases (bytes_key.same j k)) [
      | inr differ ↦ differ
      | inl y ↦
          absurd
            (let same = (bytes_key.same_iff j k).0 y in let none_there = d.0 in let there = f in cc)
    ]

values-nodes :
    (m : ℕ) (s : LruCache) (xs : List ℕ) (p : ℕ)
    → IsLru m s xs
    → has p (values s.cache_node) ≡ has p xs
values-nodes m s xs p is = elim (Bool-cases (has p xs)) [
  | inl y ↦ find-values (s.file p).path p s.cache_node (is.covered p y) ∙ sym y
  | inr n ↦ elim (Bool-cases (has p (values s.cache_node))) [
    | inr out ↦ out ∙ sym n
    | inl inside ↦
        let (k, f) = values-find p s.cache_node is.distinct inside in
        absurd (let (there, _) = is.mapped k p f in cc)
  ]
]

-- In a state whose nodes, map and count agree, `clear` uses no dead node, deletes every node of the list and no
-- other, and leaves an empty cache with the same bound.
pub clear-IsLru :
    (m : ℕ) (s : LruCache) (xs : List ℕ)
    → IsLru m s xs
    → (t : LruCache) × (clear s ≡ some t)
      × IsLru m t []
      × ((p : ℕ) → t.alive p ≡ (if has p xs then false else s.alive p))
unfolding clear find
clear-IsLru m s xs is =
    let (a, e, dead) = delete_all-live s.cache_node s is.distinct (λ k p f.
      let (inside, path) = is.mapped k p f in (IsList-live s xs p is.nodes inside, path)) in
    (
      record s { alive = a; cache_node = []; tail = 0; head = 0; count = pos 0 },
      rw e refl,
      record {
        nodes = record {
          chain = tt;
          apart = tt;
          head = refl;
          tail = refl;
          living = λ p h. absurd (cc);
        };
        distinct = tt;
        mapped = λ k p h. absurd (cc);
        covered = λ p h. absurd (cc);
        counted = refl;
        bound = is.bound;
        within = omega arith;
      },
      λ p. dead p ∙ ap (λ b. if b then false else s.alive p) (values-nodes m s xs p is),
    )
