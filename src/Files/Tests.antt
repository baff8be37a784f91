-- ===== src/Files/Tests.antt =====
-- Names and trees of ttw/file/file.cc.
use ttw.Prelude.{◌≡◌, refl, ◌↔◌, true, none, some, [], ◌∷◌, ◌++◌}
use ttw.Prelude.Text.{codes, eq_bytes}
use ttw.Files.{
  get_file_type_string, get_file_type_enum, png, Entries, opened, no_entry, file_entry, dir_entry,
  member, get_file_all_list,
}
use ttw.Files.Types.{get_file_type_string-Pointless}
use ttw.Files.Trees.{Reached, get_file_all_list-Reached}

archive : get_file_type_string (codes "a.tar.gz") ≡ some (codes "gz")
unfolding get_file_type_string
archive = refl

point_behind : get_file_type_string (codes "a.b.") ≡ some (codes "b.")
unfolding get_file_type_string
point_behind = refl

no_point : get_file_type_string (codes "Makefile") ≡ none
unfolding get_file_type_string
no_point = refl

image : get_file_type_enum (codes "logo.PNG") ≡ some png
unfolding get_file_type_enum eq_bytes
image = refl

get_file_type_string-Pointless_example :
    (get_file_type_string (codes "a.tar" ++ (b'.' ∷ codes "gz")) ≡ some (codes "gz"))
    × (get_file_type_string (codes "gz") ≡ none)
get_file_type_string-Pointless_example =
    get_file_type_string-Pointless (codes "a.tar") b'g' (codes "z") (refl, (refl, tt))

abbrev home : Entries
home =
    file_entry (codes "notes")
      (dir_entry (codes "mail") (opened (file_entry (codes "box") no_entry)) no_entry)

get_file_all_list-Reached_example :
    (member (codes "~mail/box") (get_file_all_list [] (codes "~") (opened home)) ≡ true)
    ↔ Reached [] (codes "~") home (codes "~mail/box")
get_file_all_list-Reached_example =
    get_file_all_list-Reached [] (codes "~") home (codes "~mail/box")
