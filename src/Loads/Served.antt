-- ===== src/Loads/Served.antt =====
-- What is served after LoadFile (ttw/http/http_load.cc).
use ttw.Prelude.{
  ◌≡◌, refl, Bool, true, false, ◌||◌, Bool-cases, inl, inr, sym, none, arith, Option, some, List,
  [], ◌∷◌, ◌++◌, if◌then◌else◌, if_true, ap, ◌∙◌,
}
use ttw.Prelude.Text.{Bytes, codes, eq_bytes, eq_bytes_iff}
use ttw.Prelude.Dict.{find, bytes_key}
use ttw.FileCaches.{File, FileCache, file_cache}
use ttw.FileCaches.Man.{
  FileCacheMan, add_file_cache_data, once, once-false, find-add_file_cache_data,
}
use ttw.Files.{Entries, opened, member, get_file_all_list}
use ttw.Files.Trees.{Reaches, joined, get_file_all_list-Reached}
use ttw.Servlets.{Servlet, ServletDispatch, function_servlet, get_matched_servlet}
use ttw.Servlets.Dispatch.{get_matched_servlet-add_function}
use ttw.Loads.{load_caches, load_servlets, load_file}

once-once :
    (read : Bytes → File) (k : Bytes) (m b : Bool) (o : Option FileCache)
    → once read k m (once read k b o) ≡ once read k (b || m) o
once-once read k m b (some c) = refl
once-once read k m false none = refl
once-once read k m true none = elim (Bool-cases (file_cache (some (read k))).is_valid) [
  | inl v ↦ rw v refl
  | inr n ↦ rw n (no_cache m n)
]
  where
    no_cache :
        (m : Bool) → (file_cache (some (read k))).is_valid ≡ false → once read k m none ≡ none
    no_cache false n = refl
    no_cache true n = rw n refl

eq_bytes-append : (path it uri : Bytes) → eq_bytes (path ++ it) (path ++ uri) ≡ eq_bytes it uri
unfolding eq_bytes
eq_bytes-append [] it uri = refl
eq_bytes-append (c ∷ path) it uri = ground (arith, eq_bytes-append path it uri)

load_caches-member :
    (read : Bytes → File) (path uri : Bytes) (vec : List Bytes) (man : FileCacheMan)
    → find (path ++ uri) (load_caches read path vec man).perpen_cache
      ≡ once read (path ++ uri) (member uri vec) (find (path ++ uri) man.perpen_cache)
unfolding load_caches
load_caches-member read path uri [] man =
    sym (once-false read (path ++ uri) (find (path ++ uri) man.perpen_cache))
load_caches-member read path uri (it ∷ vec) man =
    load_caches-member read path uri vec (add_file_cache_data read (path ++ it) false man).1
    ∙ ap (once read (path ++ uri) (member uri vec))
        (find-add_file_cache_data read (path ++ it) (path ++ uri) man)
    ∙ once-once read (path ++ uri) (member uri vec) (eq_bytes (path ++ it) (path ++ uri))
        (find (path ++ uri) man.perpen_cache)
    ∙ ap (λ b. once read (path ++ uri) (b || member uri vec) (find (path ++ uri) man.perpen_cache))
        (eq_bytes-append path it uri)

module _ {W : Type 0} (serve : Bytes → W → W) (matches : Bytes → Bytes → Bool) where
  abbrev served : Bytes → Bytes → Option (Servlet W)
  served path uri = some (function_servlet (serve (path ++ uri)))

  same_path :
      (path it uri : Bytes) (b m : Bool) (other : Option (Servlet W))
      → (b ≡ true → it ≡ uri)
      → (if m then served path uri else (if b then served path it else other))
        ≡ (if b || m then served path uri else other)
  same_path path it uri true true other h = refl
  same_path path it uri true false other h = ap (served path) (h refl)
  same_path path it uri false true other h = refl
  same_path path it uri false false other h = refl

  load_servlets-member :
      (path uri : Bytes) (vec : List Bytes) (d : ServletDispatch W)
      → get_matched_servlet matches uri (load_servlets serve path vec d)
        ≡ (if member uri vec then served path uri else get_matched_servlet matches uri d)
  unfolding load_servlets
  load_servlets-member path uri [] d = refl
  load_servlets-member path uri (it ∷ vec) d =
      load_servlets-member path uri vec _
      ∙ ap (λ x. if member uri vec then served path uri else x)
          (get_matched_servlet-add_function matches it uri (serve (path ++ it)) d)
      ∙ same_path path it uri (eq_bytes it uri) (member uri vec) (get_matched_servlet matches uri d)
          ((eq_bytes_iff it uri).0)

  -- After LoadFile on a directory that can be opened, for a file that is reached through directories that are not left out: a
  -- request for its name is handed to the servlet of this file, whatever the servlets before and the patterns, and the cache holds
  -- what it held for the file, or else the file if it can be read.
  pub load_file-Reaches :
      (read : Bytes → File) (es : Entries) (path : Bytes) (losedirs ds : List Bytes) (n : Bytes)
      (d : ServletDispatch W) (man : FileCacheMan)
      → Reaches losedirs es ds n
      → let uri : Bytes = codes "/" ++ joined ds n in
        let (after, kept) = load_file serve read (opened es) path losedirs d man in
        (get_matched_servlet matches uri after ≡ some (function_servlet (serve (path ++ uri))))
        × (find (path ++ uri) kept.perpen_cache
            ≡ once read (path ++ uri) true (find (path ++ uri) man.perpen_cache))
  unfolding load_file
  load_file-Reaches read es path losedirs ds n d man r =
      let uri : Bytes = codes "/" ++ joined ds n in
      let vec : List Bytes = get_file_all_list losedirs (codes "/") (opened es) in
      let listed : member uri vec ≡ true =
        (get_file_all_list-Reached losedirs (codes "/") es uri).1 (ds, n, r, refl) in
      (
        load_servlets-member path uri vec d ∙ if_true _ _ listed,
        load_caches-member read path uri vec man
            ∙ ap (λ b. once read (path ++ uri) b (find (path ++ uri) man.perpen_cache)) listed,
      )
