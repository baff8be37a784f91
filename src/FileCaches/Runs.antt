-- ===== src/FileCaches/Runs.antt =====
-- Runs of `LRUCache::getFileCache` (ttw/file/filecache.cc) from the constructor.
use ttw.Prelude.{
  ℕ, suc, ◌≡◌, ◌≢◌, refl, Bool, true, false, not, ◌&&◌, Option, none, some, List, [], ◌∷◌, arith,
  ◌==◌, ap, ◌∙◌,
}
use ttw.Prelude.Int.{ℤ, pos}
use ttw.Prelude.Text.{Bytes}
use ttw.Prelude.Dict.{find, bytes_key}
use ttw.FileCaches.{
  File, FileCache, LruCache, file_cache, add_file, del_cache_node, get_file_cache, ◌>>=◌, less,
  lru_cache, read_pre,
}
use ttw.FileCaches.Insert.{IsLru}
use ttw.FileCaches.Recent.{recent, files}
use ttw.FileCaches.Lru.{get_file_cache-recent}

-- One call after the other, each with the address that `new` returns in it.
unfoldable pub run :
    (Bytes → File) → List (Bytes × ℕ) → LruCache → Option (List (Option FileCache) × LruCache)
run opened [] s = some ([], s)
run opened ((path, fresh) ∷ calls) s = do
  (r, t) ← get_file_cache opened fresh path s
  (rs, u) ← run opened calls t
  some (r ∷ rs, u)

-- The address is never null, nor one that is in use when it is returned.
unfoldable pub allocates : (Bytes → File) → List (Bytes × ℕ) → LruCache → Bool
allocates opened [] s = true
allocates opened ((path, fresh) ∷ calls) s =
    not (fresh == 0)
    && (not (s.alive fresh) && elim (get_file_cache opened fresh path s) [
      | none ↦ true
      | some (r, t) ↦ allocates opened calls t
    ])

-- The same calls as uses of the recent caches.
unfoldable pub recents :
    (Bytes → File)
    → ℕ
    → List (Bytes × ℕ)
    → List FileCache
    → List (Option FileCache) × List FileCache
recents opened m [] l = ([], l)
recents opened m ((path, fresh) ∷ calls) l =
    let (r, l1) = recent opened m path l in let (rs, l2) = recents opened m calls l1 in (r ∷ rs, l2)

-- The run ends without a fault, with the results of the uses and with the caches that they leave, in their order.
abbrev pub Serves : (Bytes → File) → ℕ → List (Bytes × ℕ) → LruCache → List FileCache → Type 0
Serves opened m calls s l =
    (u : LruCache) × (ys : List ℕ) × (run opened calls s ≡ some ((recents opened m calls l).0, u))
    × (files u.file ys ≡ (recents opened m calls l).1)
    × IsLru m u ys

-- The new cache has no node.
pub lru_cache-IsLru : (h : LruCache) (m : ℕ) → IsLru m (lru_cache h (pos m)) []
unfolding lru_cache find
lru_cache-IsLru h m = record {
  nodes = record { chain = tt; apart = tt; head = refl; tail = refl; living = λ p e. absurd (cc) };
  distinct = tt;
  mapped = λ k p e. absurd (cc);
  covered = λ p e. absurd (cc);
  counted = refl;
  bound = refl;
  within = omega arith;
}

module _ (opened : Bytes → File) (n : ℕ)
    (on_path : (path : Bytes) → (opened path).path ≡ path) where
  run-more :
      (path : Bytes) (fresh : ℕ) (calls : List (Bytes × ℕ)) (s t : LruCache) (l l1 : List FileCache)
      (r : Option FileCache)
      → get_file_cache opened fresh path s ≡ some (r, t)
      → (r, l1) ≡ recent opened (suc n) path l
      → Serves opened (suc n) calls t l1
      → Serves opened (suc n) ((path, fresh) ∷ calls) s l
  unfolding run recents
  run-more path fresh calls s t l l1 r e same (u, ys, ran, kept, is) = (
    u,
    ys,
    rw e (rw ran (ap (λ x. some (x.0 ∷ (recents opened (suc n) calls x.1).0, u)) same)),
    kept ∙ ap (λ x. (recents opened (suc n) calls x.1).1) same,
    is,
  )

  allocates-first :
      (path : Bytes) (fresh : ℕ) (calls : List (Bytes × ℕ)) (s : LruCache)
      → allocates opened ((path, fresh) ∷ calls) s ≡ true
      → (fresh ≢ 0) × (s.alive fresh ≡ false)
  unfolding allocates
  allocates-first path fresh calls s ok = ground (arith, ok)

  allocates-more :
      (path : Bytes) (fresh : ℕ) (calls : List (Bytes × ℕ)) (s t : LruCache) (r : Option FileCache)
      → allocates opened ((path, fresh) ∷ calls) s ≡ true
      → get_file_cache opened fresh path s ≡ some (r, t)
      → allocates opened calls t ≡ true
  unfolding allocates
  allocates-more path fresh calls s t r ok e = ground (arith, ok, e)

  serves :
      (calls : List (Bytes × ℕ)) (s : LruCache) (xs : List ℕ)
      → IsLru (suc n) s xs
      → allocates opened calls s ≡ true
      → Serves opened (suc n) calls s (files s.file xs)
  serves [] s xs is ok = unfold run in unfold recents in (s, xs, refl, refl, is)
  serves ((path, fresh) ∷ calls) s xs is ok =
      let (address, unused) = allocates-first path fresh calls s ok in
      let (r, t, e, used) =
        get_file_cache-recent opened n fresh path s xs is (on_path path) address unused in
      run-more path fresh calls s t (files s.file xs) (files t.file used.nodes) r e used.result
        (serves calls t used.nodes used.holds (allocates-more path fresh calls s t r ok e))

  -- From the constructor with a positive `max`, with a `File` that keeps its path and addresses that are not null and not
  -- in use, no run of `getFileCache` uses a null or deleted node; its results, and the caches that are left in the
  -- order of the list, are those of the recent caches, of which there are at most `max`.
  pub run-recents :
      (calls : List (Bytes × ℕ)) (h : LruCache)
      → allocates opened calls (lru_cache h (pos (suc n))) ≡ true
      → Serves opened (suc n) calls (lru_cache h (pos (suc n))) []
  run-recents calls h ok =
      serves calls (lru_cache h (pos (suc n))) [] (lru_cache-IsLru h (suc n)) ok

-- With a `max` that is not positive, the first `getFileCache` of a file that can be read reads the null pointer.
pub get_file_cache_no_room :
    (opened : Bytes → File) (fresh : ℕ) (path : Bytes) (h : LruCache) (max : ℤ)
    → less (pos 0) max ≡ false
    → (file_cache (some (opened path))).is_valid ≡ true
    → get_file_cache opened fresh path (lru_cache h max) ≡ none
unfolding get_file_cache lru_cache add_file del_cache_node read_pre find
get_file_cache_no_room opened fresh path h max e v = rw v (rw e refl)
