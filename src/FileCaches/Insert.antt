-- ===== src/FileCaches/Insert.antt =====
-- The invariant of `LRUCache` (ttw/file/filecache.cc): how its parts keep it.
use ttw.Prelude.{
  ℕ, suc, ◌≤◌, ◌≡◌, true, false, Option, none, some, List, [], ◌∷◌, ◌++◌, arith, if◌then◌else◌, has,
  length, length-append, sym, ap, ◌∙◌, if_false, if_true, Bool-cases, inl, inr, subst, ◌⊎◌,
}
use ttw.Prelude.Int.{pos, decr}
use ttw.Prelude.Text.{Bytes, eq_bytes, eq_bytes_iff}
use ttw.Prelude.Dict.{find, bytes_key, Distinct, find-remove, remove-Distinct}
use ttw.FileCaches.{LruCache}
use ttw.FileCaches.Chains.{
  has-first, has-front, has-back, has-moved, Apart-other_left, ne_of_has, has-front_of_ne,
}
use ttw.FileCaches.Touch.{IsList, Kept}
use ttw.FileCaches.Evict.{Evicted}

-- With the nodes in the order of their use: each path of the map leads to the node of this path, each node is in the map
-- under its path, and there are at most `m`.
pub record IsLru (m : ℕ) (s : LruCache) (xs : List ℕ) : Type 0 where
  pub nodes : IsList s xs
  pub distinct : Distinct s.cache_node
  pub mapped :
      (k : Bytes) (p : ℕ) → find k s.cache_node ≡ some p → (has p xs ≡ true) × ((s.file p).path ≡ k)
  pub covered : (p : ℕ) → has p xs ≡ true → find (s.file p).path s.cache_node ≡ some p
  pub counted : s.count ≡ pos (length xs)
  pub bound : s.max ≡ pos m
  pub within : length xs ≤ m

-- A node that was read to be another's path.
pub some_inj : {p q : ℕ} → ◌≡◌ {A = Option ℕ} (some p) (some q) → p ≡ q
some_inj e = cc

module _ (m : ℕ) (s t : LruCache) where
  -- A move of the node in the middle to the front.
  pub moved-IsLru :
      (p : ℕ) (front back : List ℕ)
      → IsLru m s (front ++ (p ∷ back))
      → IsList t (p ∷ (front ++ back))
      → Kept s t
      → IsLru m t (p ∷ (front ++ back))
  moved-IsLru p front back is nodes k = record {
    nodes = nodes;
    distinct = subst Distinct (sym k.cache_node) is.distinct;
    mapped = λ j q e.
        (let (inside, path) = is.mapped j q (ap (find j) (sym k.cache_node) ∙ e) in
          (has-moved q p front back ∙ inside, ap (λ f. (f q).path) k.file ∙ path));
    covered = λ q h.
        ap (λ c. find (t.file q).path c) k.cache_node
        ∙ ap (λ f. find (f q).path s.cache_node) k.file
        ∙ is.covered q (sym (has-moved q p front back) ∙ h);
    counted =
        k.count
        ∙ is.counted
        ∙ ap pos (omega (arith, length-append front (p ∷ back), length-append front back));
    bound = k.max ∙ is.bound;
    within = omega (arith, is.within, length-append front (p ∷ back), length-append front back);
  }

  module _ (q : ℕ) (front : List ℕ) (is : IsLru m s (front ++ (q ∷ [])))
      (ev : Evicted q front s t) where
    kept-path : (p : ℕ) → has p front ≡ true → eq_bytes (s.file q).path (s.file p).path ≡ false
    kept-path p h = elim (Bool-cases (eq_bytes (s.file q).path (s.file p).path)) [
      | inl y ↦
          let same = (eq_bytes_iff (s.file q).path (s.file p).path).0 y in
          let found = is.covered q (has-back q front (q ∷ []) (has-first q [])) in
          let there = is.covered p (has-front p front (q ∷ []) h) in
          let e : p ≡ q = some_inj (sym there ∙ ap (λ k. find k s.cache_node) (sym same) ∙ found) in
          let out = Apart-other_left q front (q ∷ []) is.nodes.apart (has-first q []) in
          absurd (ne_of_has q p front out h (sym e))
      | inr n ↦ n
    ]

    found_after :
        (k : Bytes)
        → find k t.cache_node ≡ (if eq_bytes (s.file q).path k then none else find k s.cache_node)
    found_after k =
        ap (find k) ev.cache_node ∙ find-remove k (s.file q).path s.cache_node is.distinct

    -- The eviction of the last node.
    pub evicted-IsLru : IsLru m t front
    evicted-IsLru = record {
      nodes = ev.nodes;
      distinct =
          subst Distinct (sym ev.cache_node)
            (remove-Distinct (s.file q).path s.cache_node is.distinct);
      mapped = λ k p e.
          after_eviction k p (sym (found_after k) ∙ e) (Bool-cases (eq_bytes (s.file q).path k));
      covered = λ p h.
          ap (λ f. find (f p).path t.cache_node) ev.file
          ∙ found_after (s.file p).path
          ∙ if_false _ _ (kept-path p h)
          ∙ is.covered p (has-front p front (q ∷ []) h);
      counted = ev.count ∙ ap decr is.counted ∙ ap (λ n. decr (pos n)) longer;
      bound = ev.max ∙ is.bound;
      within = omega (arith, is.within, longer);
    }
      where
        longer : length (front ++ (q ∷ [])) ≡ suc (length front)
        longer = omega (arith, length-append front (q ∷ []))

        after_eviction :
            (k : Bytes) (p : ℕ)
            → (if eq_bytes (s.file q).path k then none else find k s.cache_node) ≡ some p
            → ((eq_bytes (s.file q).path k ≡ true) ⊎ (eq_bytes (s.file q).path k ≡ false))
            → (has p front ≡ true) × ((t.file p).path ≡ k)
        after_eviction k p e (inl y) = absurd (let n = sym e ∙ if_true _ _ y in cc)
        after_eviction k p e (inr n) =
            let (inside, path) = is.mapped k p (sym (if_false _ _ n) ∙ e) in
            let other : p ≡ q → (s.file p).path ≡ k → ⊥ = λ same on_path.
              let one =
                (eq_bytes_iff (s.file q).path k).1
                  (ap (λ x. (s.file x).path) (sym same) ∙ on_path) in
              let two = sym one ∙ n in cc in
            (
              has-front_of_ne p q front inside (λ same. other same path),
              ap (λ f. (f p).path) ev.file ∙ path,
            )
