-- ===== src/FileCaches/Tests.antt =====
-- Runs of the caches of ttw/file/filecache.cc, and the theorems on them at small states.
use ttw.Prelude.{
  ℕ, ◌≡◌, refl, true, false, none, some, List, [], ◌∷◌, arith, ◌==◌, if◌then◌else◌, has,
}
use ttw.Prelude.Int.{pos}
use ttw.Prelude.Text.{Bytes, codes, eq_bytes, eq_bytes_iff, eq_bytes_self}
use ttw.Prelude.Dict.{find, assign, remove, bytes_key, Distinct}
use ttw.FileCaches.{
  File, LruCache, file_cache, get_file_cache, clear, lru_cache, move_to_head, add_node, add_file,
  del_cache_node, new_node, set_next, set_pre, read_next, read_pre, delete, is_exists,
}
use ttw.FileCaches.Insert.{IsLru}
use ttw.FileCaches.Recent.{recent, pick, drop_last}
use ttw.FileCaches.Used.{Uses}
use ttw.FileCaches.Lru.{get_file_cache-recent}
use ttw.FileCaches.Runs.{allocates, recents, Serves, lru_cache-IsLru, run-recents}
use ttw.FileCaches.Clears.{clear-IsLru}
use ttw.FileCaches.Man.{
  FileCacheMan, file_cache_man, add_file_cache_data, del_file_cache_date, man_exists,
  man_exists-del_file_cache_date,
}

-- A disk whose files hold their own path; the file of the empty path cannot be read.
abbrev disk : Bytes → File
disk [] = record { path = []; file_data = none; size = none }
disk (c ∷ path) = record { path = c ∷ path; file_data = some (c ∷ path); size = some 1 }

disk-path : (path : Bytes) → (disk path).path ≡ path
disk-path [] = refl
disk-path (c ∷ path) = refl

abbrev empty_heap : LruCache
empty_heap = record {
  next = λ p. 0;
  pre = λ p. 0;
  file = λ p. record { path = []; is_valid = false; contents = none };
  alive = λ p. false;
  head = 0;
  tail = 0;
  max = pos 0;
  count = pos 0;
  cache_node = [];
}

-- a, b, a again, c (b goes), and b again at the address that was deleted.
abbrev calls : List (Bytes × ℕ)
calls =
    (codes "a", 1)
    ∷ (codes "b", 2)
    ∷ (codes "a", 3)
    ∷ (codes "c", 3)
    ∷ ([], 7)
    ∷ (codes "b", 2)
    ∷ []

calls-allocates : allocates disk calls (lru_cache empty_heap (pos 2)) ≡ true
unfolding lru_cache allocates get_file_cache file_cache find assign remove eq_bytes add_file
    add_node new_node del_cache_node move_to_head set_next set_pre read_next read_pre delete
calls-allocates = refl

run_calls :
    (recents disk 2 calls []).1
    ≡ file_cache (some (disk (codes "b"))) ∷ file_cache (some (disk (codes "c"))) ∷ []
unfolding recents recent pick drop_last file_cache eq_bytes
run_calls = refl

run-recents_example : Serves disk 2 calls (lru_cache empty_heap (pos 2)) []
run-recents_example = run-recents disk 1 disk-path calls empty_heap calls-allocates

abbrev started : LruCache
started = lru_cache empty_heap (pos 2)

get_file_cache-recent_example : Uses disk 2 5 (codes "a") started []
unfolding lru_cache
get_file_cache-recent_example =
    get_file_cache-recent disk 1 5 (codes "a") started [] (lru_cache-IsLru empty_heap 2) refl
      (λ e. omega (arith, e)) refl

-- The cache with the file a at the address 1.
abbrev one_file : LruCache
one_file = record {
  next = λ p. 0;
  pre = λ p. 0;
  file = λ p. record { path = codes "a"; is_valid = true; contents = some (codes "a") };
  alive = λ p. p == 1;
  head = 1;
  tail = 1;
  max = pos 2;
  count = pos 1;
  cache_node = (codes "a", 1) ∷ [];
}

one_file-IsLru : IsLru 2 one_file (1 ∷ [])
unfolding find
one_file-IsLru = record {
  nodes = record {
    chain = (refl, refl, tt);
    apart = (refl, (λ e. omega (arith, e)), tt);
    head = refl;
    tail = refl;
    living = λ p h. ground (arith, h);
  };
  distinct = (refl, tt);
  mapped = λ k p e. ground (arith, e, eq_bytes_iff (codes "a") k);
  covered = λ p h. ground (arith, h, eq_bytes_self (codes "a"));
  counted = refl;
  bound = refl;
  within = omega arith;
}

clear-IsLru_example :
    (t : LruCache) × (clear one_file ≡ some t)
    × IsLru 2 t []
    × ((p : ℕ) → t.alive p ≡ (if has p (1 ∷ []) then false else one_file.alive p))
clear-IsLru_example = clear-IsLru 2 one_file (1 ∷ []) one_file-IsLru

abbrev man : FileCacheMan
man = file_cache_man (codes "m") empty_heap (pos 2)

abbrev kept : FileCacheMan
kept = (add_file_cache_data disk (codes "ab") true man).1

kept-Distinct : Distinct kept.perpen_cache
unfolding add_file_cache_data file_cache file_cache_man find assign
kept-Distinct = (refl, tt)

permanent_gone : man_exists (codes "ab") (del_file_cache_date (codes "ab") kept) ≡ (
    if eq_bytes (codes "ab") (codes "ab")
    then is_exists (codes "ab") kept.temp_cache
    else man_exists (codes "ab") kept)
permanent_gone = man_exists-del_file_cache_date (codes "ab") (codes "ab") kept kept-Distinct
