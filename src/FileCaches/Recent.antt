-- ===== src/FileCaches/Recent.antt =====
-- What `LRUCache` (ttw/file/filecache.h) is for: the caches in the order of their use, without nodes and links.
use ttw.Prelude.{
  ℕ, suc, ◌≡◌, refl, true, false, Option, none, some, List, [], ◌∷◌, ◌++◌, arith, ◌==◌,
  if◌then◌else◌, has, length, ap, ◌∙◌, if_false, if_true, ltb,
}
use ttw.Prelude.Text.{Bytes, eq_bytes}
use ttw.FileCaches.{File, FileCache, file_cache, load, write}

-- The cache of a path, and the others in their order.
unfoldable pub pick : Bytes → List FileCache → Option (FileCache × List FileCache)
pick path [] = none
pick path (c ∷ cs) =
    let more = pick path cs in
    if eq_bytes c.path path
    then some (c, cs)
    else elim more [ none ↦ none | some (d, rest) ↦ some (d, c ∷ rest) ]

unfoldable pub drop_last : List FileCache → List FileCache
drop_last [] = []
drop_last (c ∷ []) = []
drop_last (c ∷ d ∷ cs) = c ∷ drop_last (d ∷ cs)

-- A use of a path, with room for `m` caches: a cache that is there comes to the front; another one is loaded, put in front,
-- and takes the place of the last one if there is no room.
unfoldable pub recent :
    (Bytes → File) → ℕ → Bytes → List FileCache → Option FileCache × List FileCache
unfolding pick drop_last
recent opened m path l = elim (pick path l) [
  | some (c, rest) ↦ (some c, c ∷ rest)
  | none ↦
      (let c = file_cache (some (opened path)) in
        if c.is_valid
        then (some c, c ∷ (if ltb (length l) m then l else drop_last l))
        else (none, l))
]

abbrev pub files : (ℕ → FileCache) → List ℕ → List FileCache
files f [] = []
files f (p ∷ xs) = f p ∷ files f xs

pub length-files : (f : ℕ → FileCache) (xs : List ℕ) → length (files f xs) ≡ length xs
length-files f [] = refl
length-files f (x ∷ xs) = ap suc (length-files f xs)

pub files-write :
    (f : ℕ → FileCache) (p : ℕ) (c : FileCache) (xs : List ℕ)
    → has p xs ≡ false
    → files (write f p c) xs ≡ files f xs
files-write f p c [] n = refl
files-write f p c (x ∷ xs) n =
    ap (λ z. z ∷ files (write f p c) xs) (if_false {b = x == p} _ _ (ground (arith, n)))
    ∙ ap (λ z. f x ∷ z) (files-write f p c xs (ground (arith, n)))

pub drop_last-files :
    (f : ℕ → FileCache) (q : ℕ) (xs : List ℕ) → drop_last (files f (xs ++ (q ∷ []))) ≡ files f xs
unfolding drop_last
drop_last-files f q [] = refl
drop_last-files f q (x ∷ []) = refl
drop_last-files f q (x ∷ y ∷ xs) = ap (λ z. f x ∷ z) (drop_last-files f q (y ∷ xs))

pub pick-none :
    (f : ℕ → FileCache) (path : Bytes) (xs : List ℕ)
    → ((p : ℕ) → has p xs ≡ true → eq_bytes (f p).path path ≡ false)
    → pick path (files f xs) ≡ none
unfolding pick
pick-none f path [] h = refl
pick-none f path (x ∷ xs) h =
    ground (arith, h x, pick-none f path xs (λ p i. h p (ground (arith, i))))

pub pick-middle :
    (f : ℕ → FileCache) (path : Bytes) (q : ℕ) (front back : List ℕ)
    → ((p : ℕ) → has p front ≡ true → eq_bytes (f p).path path ≡ false)
    → eq_bytes (f q).path path ≡ true
    → pick path (files f (front ++ (q ∷ back))) ≡ some (f q, files f (front ++ back))
unfolding pick
pick-middle f path q [] back h y = if_true _ _ y
pick-middle f path q (x ∷ front) back h y =
    ground (arith, h x, pick-middle f path q front back (λ p i. h p (ground (arith, i))) y)

-- The path of a cache that is valid is that of its file.
pub file_cache-path :
    (file : File)
    → (file_cache (some file)).is_valid ≡ true
    → (file_cache (some file)).path ≡ file.path
unfolding file_cache
file_cache-path file v = by_parts file.file_data file.size v
  where
    by_parts :
        (o : Option Bytes) (n : Option ℕ)
        → (load file o n).is_valid ≡ true
        → (load file o n).path ≡ file.path
    by_parts none n h = cc
    by_parts (some b) none h = cc
    by_parts (some b) (some n) h = refl
