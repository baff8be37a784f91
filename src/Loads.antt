-- ===== src/Loads.antt =====
-- LoadFile of ttw/http/http_load.h and ttw/http/http_load.cc: the files below a directory go into the cache, and each
-- gets a servlet under its name. What the function of a key does to a request and its response is the argument `serve`.
pub mod Served
mod Tests
use ttw.Prelude.{Bool, false, List, [], ◌∷◌, ◌++◌}
use ttw.Prelude.Text.{Bytes, codes}
use ttw.FileCaches.{File}
use ttw.FileCaches.Man.{FileCacheMan, add_file_cache_data}
use ttw.Files.{Tree, get_file_all_list}
use ttw.Servlets.{ServletDispatch, add_function}

-- The loop over the names that fills the cache, and the one that adds the servlets.
unfoldable pub load_caches : (Bytes → File) → Bytes → List Bytes → FileCacheMan → FileCacheMan
load_caches opened path [] man = man
load_caches opened path (it ∷ vec) man =
    load_caches opened path vec (add_file_cache_data opened (path ++ it) false man).1

module _ {W : Type 0} (serve : Bytes → W → W) where
  unfoldable pub load_servlets : Bytes → List Bytes → ServletDispatch W → ServletDispatch W
  load_servlets path [] d = d
  load_servlets path (it ∷ vec) d = load_servlets path vec (add_function it (serve (path ++ it)) d)

  unfoldable pub load_file :
      (Bytes → File)
      → Tree
      → Bytes
      → List Bytes
      → ServletDispatch W
      → FileCacheMan
      → ServletDispatch W × FileCacheMan
  unfolding load_caches load_servlets
  load_file opened tree path losedirs d man =
      let vec = get_file_all_list losedirs (codes "/") tree in
      (load_servlets path vec d, load_caches opened path vec man)
