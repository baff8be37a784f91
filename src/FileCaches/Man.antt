-- ===== src/FileCaches/Man.antt =====
-- `FileCacheMan` of ttw/file/filecache.h and filecache.cc: caches that stay, before those of the `LRUCache`.
use ttw.Prelude.{
  Option-cases, Bool-cases, inl, inr, subst, refl, sym, ◌∙◌, ℕ, ◌≡◌, ◌&&◌, Bool, true, false, not,
  Option, none, some, List, [], arith, if◌then◌else◌,
}
use ttw.Prelude.Int.{ℤ}
use ttw.Prelude.Text.{Bytes, eq_bytes, eq_bytes_iff}
use ttw.Prelude.Dict.{
  find, assign, remove, bytes_key, Distinct, find-assign, find-assign_self, find-remove,
}
use ttw.FileCaches.{
  File, FileCache, LruCache, file_cache, get_file_cache, get_file_data, is_exists, lru_cache, ◌>>=◌,
}

pub record FileCacheMan : Type 0 where
  pub name : Bytes
  pub perpen_cache : List (Bytes × FileCache)
  pub temp_cache : LruCache

unfoldable pub file_cache_man : Bytes → LruCache → ℤ → FileCacheMan
unfolding lru_cache
file_cache_man name h count = record {
  name = name;
  perpen_cache = [];
  temp_cache = lru_cache h count;
}

-- `getFileCacheData`: the data, none for the null pointer, and the state.
pub get_file_cache_data :
    (Bytes → File) → ℕ → Bytes → FileCacheMan → Option (Option Bytes × FileCacheMan)
unfolding find get_file_cache get_file_data
get_file_cache_data opened fresh path man = elim (find path man.perpen_cache) [
  | some c ↦ some (get_file_data c, man)
  | none ↦ (do
    (t, lru) ← get_file_cache opened fresh path man.temp_cache
    some (elim t [ none ↦ none | some c ↦ get_file_data c ], record man { temp_cache = lru }))
]

add_new : (Bytes → File) → Bytes → FileCacheMan → Bool × FileCacheMan
unfolding file_cache assign
add_new opened path man =
    let fc = file_cache (some (opened path)) in
    if not fc.is_valid
    then (false, man)
    else (true, record man { perpen_cache = assign path fc man.perpen_cache })

-- `addFileCacheData(path, rejion)`
unfoldable pub add_file_cache_data :
    (Bytes → File) → Bytes → Bool → FileCacheMan → Bool × FileCacheMan
unfolding find add_new
add_file_cache_data opened path rejion man = elim (find path man.perpen_cache) [
  | some _ ↦ if not rejion then (true, man) else add_new opened path man
  | none ↦ add_new opened path man
]

pub del_file_cache_date : Bytes → FileCacheMan → FileCacheMan
unfolding find remove
del_file_cache_date path man = elim (find path man.perpen_cache) [
  | some _ ↦ record man { perpen_cache = remove path man.perpen_cache }
  | none ↦ man
]

-- `isExists`
pub man_exists : Bytes → FileCacheMan → Bool
unfolding find is_exists
man_exists path man = elim (find path man.perpen_cache) [
  | some _ ↦ true
  | none ↦ is_exists path man.temp_cache
]

-- What `getFileCacheData` gives after `addFileCacheData` returned true: where the file was added, or added again, its
-- first bytes as read then; otherwise the data of the cache that was there. The least recently used caches and their
-- nodes are not touched.
pub get_file_cache_data-add_file_cache_data :
    (opened : Bytes → File) (fresh : ℕ) (path : Bytes) (rejion : Bool) (man : FileCacheMan)
    → let (ok, after) = add_file_cache_data opened path rejion man in
      ok ≡ true
      → get_file_cache_data opened fresh path after
        ≡ some (
          elim (find path man.perpen_cache) [
            | none ↦ get_file_data (file_cache (some (opened path)))
            | some c ↦
                if rejion then get_file_data (file_cache (some (opened path))) else get_file_data c
          ],
          after,
        )
unfolding get_file_cache_data add_file_cache_data
get_file_cache_data-add_file_cache_data opened fresh path rejion man ok =
    ground (arith, ok, find-assign_self path (file_cache (some (opened path))) man.perpen_cache)

-- The cache of a path that is added once if its file can be read, else the cache that was there.
abbrev pub once : (Bytes → File) → Bytes → Bool → Option FileCache → Option FileCache
once opened path added (some c) = some c
once opened path added none =
    if added && (file_cache (some (opened path))).is_valid
    then some (file_cache (some (opened path)))
    else none

find-add_new :
    (opened : Bytes → File) (path j : Bytes) (man : FileCacheMan)
    → find j (add_new opened path man).1.perpen_cache ≡ (
        if eq_bytes path j && (file_cache (some (opened path))).is_valid
        then some (file_cache (some (opened path)))
        else find j man.perpen_cache)
unfolding add_new
find-add_new opened path j man = elim (Bool-cases (file_cache (some (opened path))).is_valid) [
  | inl v ↦
      rw v (ground (arith, find-assign j path (file_cache (some (opened path))) man.perpen_cache))
  | inr v ↦ rw v (ground arith)
]

pub once-false :
    (opened : Bytes → File) (j : Bytes) (o : Option FileCache) → once opened j false o ≡ o
once-false opened j none = refl
once-false opened j (some c) = refl

-- Where the cache of a path is there, or is not there and is added.
once-same :
    (opened : Bytes → File) (path j : Bytes) (man : FileCacheMan) (b : Bool)
    → eq_bytes path j ≡ b
    → find path man.perpen_cache ≡ none
    → (if b && (file_cache (some (opened path))).is_valid
        then some (file_cache (some (opened path)))
        else find j man.perpen_cache)
      ≡ once opened j b (find j man.perpen_cache)
once-same opened path j man false y e = sym (once-false opened j (find j man.perpen_cache))
once-same opened path j man true y e =
    subst
      (λ x.
        (if (file_cache (some (opened path))).is_valid
          then some (file_cache (some (opened path)))
          else find x man.perpen_cache)
        ≡ once opened x true (find x man.perpen_cache))
      ((eq_bytes_iff path j).0 y) (rw e refl)

once-there :
    (opened : Bytes → File) (path j : Bytes) (man : FileCacheMan) (b : Bool) (c : FileCache)
    → eq_bytes path j ≡ b
    → find path man.perpen_cache ≡ some c
    → find j man.perpen_cache ≡ once opened j b (find j man.perpen_cache)
once-there opened path j man false c y e = sym (once-false opened j (find j man.perpen_cache))
once-there opened path j man true c y e =
    subst (λ x. find x man.perpen_cache ≡ once opened x true (find x man.perpen_cache))
      ((eq_bytes_iff path j).0 y) (rw e refl)

pub find-add_file_cache_data :
    (opened : Bytes → File) (path j : Bytes) (man : FileCacheMan)
    → find j (add_file_cache_data opened path false man).1.perpen_cache
      ≡ once opened j (eq_bytes path j) (find j man.perpen_cache)
unfolding add_file_cache_data
find-add_file_cache_data opened path j man = elim (Option-cases (find path man.perpen_cache)) [
  | inl e ↦
      rw (e, add_file_cache_data)
        (find-add_new opened path j man ∙ once-same opened path j man (eq_bytes path j) refl e)
  | inr (c, e) ↦
      rw (e, add_file_cache_data) (once-there opened path j man (eq_bytes path j) c refl e)
]

-- After `delFileCacheDate` a path is there exactly where the `LRUCache` has it.
pub man_exists-del_file_cache_date :
    (j path : Bytes) (man : FileCacheMan)
    → Distinct man.perpen_cache
    → man_exists j (del_file_cache_date path man)
      ≡ (if eq_bytes path j then is_exists j man.temp_cache else man_exists j man)
unfolding man_exists del_file_cache_date
man_exists-del_file_cache_date j path man d =
    ground (arith, find-remove j path man.perpen_cache d, bytes_key.same_iff path j)
