-- ===== src/FileCaches/Renewed.antt =====
-- `LRUCache::getFileCache` of ttw/file/filecache.cc where a new node is put in front.
use ttw.Prelude.{
  ℕ, ◌<◌, ◌≡◌, ◌≢◌, refl, true, false, Option, none, some, List, [], ◌∷◌, ◌++◌, arith, ◌==◌,
  if◌then◌else◌, ltb, has, has-append, length, length-append, sym, ap, ◌∙◌, if_false, if_true,
}
use ttw.Prelude.Int.{pos}
use ttw.Prelude.Text.{Bytes}
use ttw.Prelude.Dict.{find, assign, remove, bytes_key, Distinct, find-remove}
use ttw.FileCaches.{
  File, FileCache, LruCache, file_cache, add_node, new_node, del_cache_node, add_file,
  get_file_cache, less,
}
use ttw.FileCaches.Chains.{has-back, has-first, ne_of_has, ==-of_ne}
use ttw.FileCaches.Evict.{Evicted, evict}
use ttw.FileCaches.Insert.{IsLru, evicted-IsLru}
use ttw.FileCaches.Added.{Ready, new_node-IsLru, add_node-Added}
use ttw.FileCaches.Recent.{
  recent, files, files-write, pick, drop_last, drop_last-files, length-files, file_cache-path,
}
use ttw.FileCaches.Used.{Uses, missing}

find-remove-none :
    (j k : Bytes) (l : List (Bytes × ℕ)) → Distinct l → find j l ≡ none → find j (remove k l) ≡ none
find-remove-none j k l d n = ground (arith, find-remove j k l d, n)

module _ (opened : Bytes → File) (m fresh : ℕ) (path : Bytes) (s : LruCache) where
  abbrev c : FileCache
  c = file_cache (some (opened path))

  recent-new :
      (l : List FileCache)
      → pick path l ≡ none
      → c.is_valid ≡ true
      → (some c, c ∷ (if ltb (length l) m then l else drop_last l)) ≡ recent opened m path l
  unfolding recent
  recent-new l e v = rw (e, recent) (sym (if_true _ _ v))

  -- The state at the new node, and the one in which it is put in front.
  abbrev made : LruCache
  made = new_node fresh c s

  abbrev noted : LruCache → LruCache
  noted u = record u { cache_node = assign c.path fresh u.cache_node }

  get-room :
      (u : LruCache)
      → find path s.cache_node ≡ none
      → c.is_valid ≡ true
      → less s.count s.max ≡ true
      → add_node fresh (noted made) ≡ some u
      → get_file_cache opened fresh path s ≡ some (some (u.file fresh), u)
  unfolding get_file_cache
  get-room u n v l e = rw (n, get_file_cache) (unfold add_file in rw v (rw l (rw e refl)))

  get-full :
      (w u : LruCache)
      → find path s.cache_node ≡ none
      → c.is_valid ≡ true
      → less s.count s.max ≡ false
      → del_cache_node made ≡ some w
      → add_node fresh (noted w) ≡ some u
      → get_file_cache opened fresh path s ≡ some (some (u.file fresh), u)
  unfolding get_file_cache
  get-full w u n v l d e =
      rw (n, get_file_cache) (unfold add_file in rw v (rw l (rw d (rw e refl))))

  abbrev Free : List ℕ → Type 0
  Free xs = (fresh ≢ 0) × (has fresh xs ≡ false)

  pub valid-path : (opened path).path ≡ path → c.is_valid ≡ true → c.path ≡ path
  valid-path e v = file_cache-path (opened path) v ∙ e

  counts : (xs : List ℕ) → IsLru m s xs → less s.count s.max ≡ ltb (length (files s.file xs)) m
  counts xs is =
      ap (λ a. less a s.max) is.counted
      ∙ ap (less (pos (length xs))) is.bound
      ∙ ap (λ n. ltb n m) (sym (length-files s.file xs))

  file-made : (xs : List ℕ) → has fresh xs ≡ false → files made.file xs ≡ files s.file xs
  unfolding new_node
  file-made xs out = files-write s.file fresh c xs out

  -- What is left after the eviction of what was to go, ready for the new node.
  Readied : List ℕ → LruCache → Type 0
  Readied xs w = IsLru m w xs × Ready fresh w xs × (w.file ≡ made.file) × (length xs < m)

  result-new :
      (w u : LruCache) (xs : List ℕ)
      → has fresh xs ≡ false
      → w.file ≡ made.file
      → u.file ≡ w.file
      → ◌≡◌ {A = Option FileCache × List FileCache}
          (some (u.file fresh), files u.file (fresh ∷ xs))
          (some c, c ∷ files s.file xs)
  unfolding new_node
  result-new w u xs out e f =
      ap {A = ℕ → FileCache} {B = Option FileCache × List FileCache}
        (λ g. (some (g fresh), files g (fresh ∷ xs))) (f ∙ e)
      ∙ ap (λ x. (some x, x ∷ files made.file xs)) (if_true {b = fresh == fresh} _ _ (ground arith))
      ∙ ap (λ l. (some c, c ∷ l)) (file-made xs out)

  made-Ready :
      (xs : List ℕ) → Free xs → find path s.cache_node ≡ none → c.path ≡ path → Ready fresh made xs
  unfolding new_node
  made-Ready xs (address, out) n e = record {
    out = out;
    address = address;
    living = if_true {b = fresh == fresh} _ _ (ground arith);
    next = if_true {b = fresh == fresh} _ _ (ground arith);
    pre = if_true {b = fresh == fresh} _ _ (ground arith);
    new_path =
        ap (λ (f : FileCache). find f.path s.cache_node)
          (if_true {b = fresh == fresh} _ _ (ground arith))
        ∙ ap (λ k. find k s.cache_node) e
        ∙ n;
  }

  file-fresh : (w : LruCache) → w.file ≡ made.file → w.file fresh ≡ c
  unfolding new_node
  file-fresh w e = ap (λ g. g fresh) e ∙ if_true {b = fresh == fresh} _ _ (ground arith)

  pub room-Uses :
      (xs : List ℕ)
      → IsLru m s xs
      → Free xs
      → find path s.cache_node ≡ none
      → c.is_valid ≡ true
      → c.path ≡ path
      → ltb (length (files s.file xs)) m ≡ true
      → Uses opened m fresh path s xs
  room-Uses xs is free n v e short =
      let made_is = new_node-IsLru m fresh c s xs free.1 is in
      let (u, added, holds, same) =
        add_node-Added m fresh made xs made_is (made-Ready xs free n e)
          (ground (arith, short, length-files s.file xs)) in
      (
        some (u.file fresh),
        u,
        get-room u n v (counts xs is ∙ short) (
            ap
              (λ f.
                add_node fresh (record made { cache_node = assign f.path fresh made.cache_node }))
              (sym (file-fresh made refl))
            ∙ added),
        record {
          nodes = fresh ∷ xs;
          holds = holds;
          result =
              result-new made u xs free.1 refl same
              ∙ ap (λ l. (some c, c ∷ l)) (sym (if_true _ _ short))
              ∙ recent-new (files s.file xs) (missing opened m fresh path s xs is n) v;
        },
      )

  out_front : (q : ℕ) (front : List ℕ) → Free (front ++ (q ∷ [])) → has fresh front ≡ false
  out_front q front free = ground (arith, has-append fresh front (q ∷ []), free.1)

  Evicted-Ready :
      (q : ℕ) (front : List ℕ)
      → IsLru m s (front ++ (q ∷ []))
      → Free (front ++ (q ∷ []))
      → Ready fresh made (front ++ (q ∷ []))
      → (w : LruCache) → Evicted q front made w
      → Distinct made.cache_node
      → Ready fresh w front
  Evicted-Ready q front is free ready w ev distinct = record {
    out = out_front q front free;
    address = ready.address;
    living =
        ap (λ g. g fresh) ev.alive
        ∙ if_false _ _ (
            ==-of_ne fresh q (λ e.
              ne_of_has fresh q (front ++ (q ∷ [])) ready.out
                (has-back q front (q ∷ []) (has-first q [])) e))
        ∙ ready.living;
    next = ev.next fresh ready.next;
    pre = ap (λ g. g fresh) ev.pre ∙ ready.pre;
    new_path =
        ap (λ g. find ((g fresh).path) w.cache_node) ev.file
        ∙ ap (find (made.file fresh).path) ev.cache_node
        ∙ find-remove-none (made.file fresh).path (made.file q).path made.cache_node distinct
            ready.new_path;
  }

  pub full-Uses :
      (q : ℕ) (front : List ℕ)
      → IsLru m s (front ++ (q ∷ []))
      → Free (front ++ (q ∷ []))
      → find path s.cache_node ≡ none
      → c.is_valid ≡ true
      → c.path ≡ path
      → ltb (length (files s.file (front ++ (q ∷ [])))) m ≡ false
      → Uses opened m fresh path s (front ++ (q ∷ []))
  full-Uses q front is free n v e full =
      let xs = front ++ (q ∷ []) in
      let made_is = new_node-IsLru m fresh c s xs free.1 is in
      let ready = made-Ready xs free n e in
      let (w, evicted, ev) = evict made q front made_is.nodes in
      let left = evicted-IsLru m made w q front made_is ev in
      let (u, added, holds, same) =
        add_node-Added m fresh w front left
          (Evicted-Ready q front is free ready w ev made_is.distinct)
          (omega (arith, is.within, length-append front (q ∷ []))) in
      (
        some (u.file fresh),
        u,
        get-full w u n v (counts xs is ∙ full) evicted (
            ap (λ f. add_node fresh (record w { cache_node = assign f.path fresh w.cache_node }))
              (sym (file-fresh w ev.file))
            ∙ added),
        record {
          nodes = fresh ∷ front;
          holds = holds;
          result =
              result-new w u front (out_front q front free) ev.file same
              ∙ ap (λ l. (some c, c ∷ l)) (sym (if_false _ _ full ∙ drop_last-files s.file q front))
              ∙ recent-new (files s.file xs) (missing opened m fresh path s xs is n) v;
        },
      )
