-- ===== src/Loads/Tests.antt =====
-- A directory that is loaded (ttw/http/http_load.cc).
use ttw.Prelude.{◌≡◌, refl, none, some, [], ◌∷◌, ◌++◌, false, true}
use ttw.Prelude.Int.{pos}
use ttw.Prelude.Text.{Bytes, codes, eq_bytes}
use ttw.FileCaches.{File}
use ttw.FileCaches.Man.{FileCacheMan, once}
use ttw.Prelude.Dict.{find, bytes_key}
use ttw.Files.{Entries, opened, no_entry, file_entry, dir_entry}
use ttw.Files.Trees.{Reaches, found, inside, after_file}
use ttw.Servlets.{ServletDispatch, function_servlet, get_matched_servlet}
use ttw.Loads.{load_file}
use ttw.Loads.Served.{load_file-Reaches}

abbrev site : Entries
site =
    file_entry (codes "index.html")
      (dir_entry (codes "img") (opened (file_entry (codes "logo.png") no_entry)) no_entry)

abbrev no_file : Bytes → File
no_file path = record { path = path; file_data = none; size = none }

abbrev no_dispatch : ServletDispatch Bytes
no_dispatch = record { datas = []; globs = []; default = none }

abbrev no_man : FileCacheMan
no_man = record {
  name = [];
  perpen_cache = [];
  temp_cache = record {
    next = λ p. 0;
    pre = λ p. 0;
    file = λ p. record { path = []; is_valid = false; contents = none };
    alive = λ p. false;
    head = 0;
    tail = 0;
    max = pos 8;
    count = pos 0;
    cache_node = [];
  };
}

-- The name of the file that is sent stands for the world.
abbrev send_name : Bytes → Bytes → Bytes
send_name key w = key

logo : Reaches [] site (codes "img" ∷ []) (codes "logo.png")
unfolding eq_bytes
logo = after_file (inside refl (found refl))

load_file-Reaches_example :
    let uri : Bytes = codes "/img/logo.png" in
    let (after, kept) =
      load_file send_name no_file (opened site) (codes "www") [] no_dispatch no_man in
    (get_matched_servlet (λ p u. false) uri after
      ≡ some (function_servlet (send_name (codes "www" ++ uri))))
    × (find (codes "www" ++ uri) kept.perpen_cache
        ≡ once no_file (codes "www" ++ uri) true (find (codes "www" ++ uri) no_man.perpen_cache))
load_file-Reaches_example =
    load_file-Reaches send_name (λ p u. false) no_file site (codes "www") [] (codes "img" ∷ [])
      (codes "logo.png") no_dispatch no_man logo
