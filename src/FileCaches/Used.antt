-- ===== src/FileCaches/Used.antt =====
-- `LRUCache::getFileCache` of ttw/file/filecache.cc where the path is cached, or the file cannot be read.
use ttw.Prelude.{
  ℕ, ◌≡◌, refl, true, false, Option, none, some, List, ◌∷◌, ◌++◌, has, sym, ap, ◌∙◌, if_false,
  if_true, Bool-cases, inl, inr, ◌⊎◌,
}
use ttw.Prelude.Text.{Bytes, eq_bytes, eq_bytes_iff}
use ttw.Prelude.Dict.{find, bytes_key}
use ttw.FileCaches.{
  File, FileCache, LruCache, file_cache, live, move_to_head, add_file, get_file_cache,
}
use ttw.FileCaches.Chains.{has-first, has-front, ne_of_has}
use ttw.FileCaches.Touch.{IsList-live, touch-split}
use ttw.FileCaches.Insert.{IsLru, moved-IsLru, some_inj}
use ttw.FileCaches.Recent.{recent, files, pick, pick-none, pick-middle}

-- The state is some nodes in their order, and with the result it is what a use of the recent caches comes to.
pub record Used (opened : Bytes → File) (m : ℕ) (path : Bytes) (l : List FileCache)
    (r : Option FileCache) (t : LruCache) : Type 0 where
  pub nodes : List ℕ
  pub holds : IsLru m t nodes
  pub result : (r, files t.file nodes) ≡ recent opened m path l

abbrev pub Uses : (Bytes → File) → ℕ → ℕ → Bytes → LruCache → List ℕ → Type 0
Uses opened m fresh path s xs =
    (r : Option FileCache) × (t : LruCache) × (get_file_cache opened fresh path s ≡ some (r, t))
    × Used opened m path (files s.file xs) r t

module _ (opened : Bytes → File) (m fresh : ℕ) (path : Bytes) (s : LruCache) where
  abbrev c : FileCache
  c = file_cache (some (opened path))

  get-found :
      (p : ℕ) (t : LruCache)
      → find path s.cache_node ≡ some p
      → move_to_head p s ≡ some t
      → live t p ≡ true
      → get_file_cache opened fresh path s ≡ some (some (t.file p), t)
  unfolding get_file_cache
  get-found p t f e h = rw (f, get_file_cache) (rw e (if_true _ _ h))

  recent-found :
      (d : FileCache) (l rest : List FileCache)
      → pick path l ≡ some (d, rest)
      → (some d, d ∷ rest) ≡ recent opened m path l
  unfolding recent
  recent-found d l rest e = rw (e, recent) refl

  pub found-Uses :
      (p : ℕ) (front back : List ℕ)
      → IsLru m s (front ++ (p ∷ back))
      → has p front ≡ false
      → find path s.cache_node ≡ some p
      → Uses opened m fresh path s (front ++ (p ∷ back))
  found-Uses p front back is out f =
      let (t, moved, nodes, kept) = touch-split s p front back is.nodes in
      let (_, on_path) = is.mapped path p f in
      (
        some (t.file p),
        t,
        get-found p t f moved
            (IsList-live t (p ∷ (front ++ back)) p nodes (has-first p (front ++ back))),
        record {
          nodes = p ∷ (front ++ back);
          holds = moved-IsLru m s t p front back is nodes kept;
          result =
              ap (λ g. (some (g p), files g (p ∷ (front ++ back)))) kept.file
              ∙ recent-found (s.file p) (files s.file (front ++ (p ∷ back)))
                  (files s.file (front ++ back))
                  (pick-middle s.file path p front back
                    (λ q h. other q h (Bool-cases (eq_bytes (s.file q).path path)))
                    ((eq_bytes_iff (s.file p).path path).1 on_path));
        },
      )
    where
      other :
          (q : ℕ)
          → has q front ≡ true
          → ((eq_bytes (s.file q).path path ≡ true) ⊎ (eq_bytes (s.file q).path path ≡ false))
          → eq_bytes (s.file q).path path ≡ false
      other q h (inr n) = n
      other q h (inl y) =
          let there = is.covered q (has-front q front (p ∷ back) h) in
          let same : q ≡ p = some_inj (
            sym there
            ∙ ap (λ k. find k s.cache_node) ((eq_bytes_iff (s.file q).path path).0 y)
            ∙ f) in
          absurd (ne_of_has p q front out h (sym same))

  -- No cache of the list has a path that is not in the map.
  pub missing :
      (xs : List ℕ)
      → IsLru m s xs
      → find path s.cache_node ≡ none
      → pick path (files s.file xs) ≡ none
  missing xs is n =
      pick-none s.file path xs (λ p h. off p h (Bool-cases (eq_bytes (s.file p).path path)))
    where
      off :
          (p : ℕ)
          → has p xs ≡ true
          → ((eq_bytes (s.file p).path path ≡ true) ⊎ (eq_bytes (s.file p).path path ≡ false))
          → eq_bytes (s.file p).path path ≡ false
      off p h (inr f) = f
      off p h (inl y) =
          let never =
            sym n
            ∙ ap (λ k. find k s.cache_node) (sym ((eq_bytes_iff (s.file p).path path).0 y))
            ∙ is.covered p h in
          absurd (cc)

  get-invalid :
      find path s.cache_node ≡ none
      → c.is_valid ≡ false
      → get_file_cache opened fresh path s ≡ some (none, s)
  unfolding get_file_cache
  get-invalid n v = rw (n, get_file_cache) (unfold add_file in rw v refl)

  recent-invalid :
      (l : List FileCache)
      → pick path l ≡ none
      → c.is_valid ≡ false
      → (none, l) ≡ recent opened m path l
  unfolding recent
  recent-invalid l e v = rw (e, recent) (sym (if_false _ _ v))

  pub invalid-Uses :
      (xs : List ℕ)
      → IsLru m s xs
      → find path s.cache_node ≡ none
      → c.is_valid ≡ false
      → Uses opened m fresh path s xs
  invalid-Uses xs is n v = (
    none,
    s,
    get-invalid n v,
    record {
      nodes = xs;
      holds = is;
      result = recent-invalid (files s.file xs) (missing xs is n) v;
    },
  )
