-- ===== src/Files.antt =====
-- ttw/file/file.h and ttw/file/file.cc: the types of files, the lists of the files below a directory, and `File`.
-- What `opendir` and `readdir` give is a tree; `tolower` is that of the C locale.
pub mod Types
pub mod Trees
mod Tests
use ttw.Prelude.{
  ℕ, suc, ◌+◌, ◌&&◌, ◌||◌, Bool, true, false, not, Option, none, some, List, [], ◌∷◌, ◌++◌, leb,
  ◌==◌, if◌then◌else◌,
}
use ttw.Prelude.Text.{Bytes, codes, eq_bytes}
use ttw.Messages.{lower}

pub data FileType : Type 0 where
  ioc jpg jpeg png gif bmp raw heif json unknown : FileType

-- The loop of getFileTypeString from an index down: the byte there, the bytes before it, last one first, and those behind it.
-- Nothing where the index passes 0, which an unsigned number does not, and bytes are read before the name.
unfoldable pub extension_loop : Bytes → Bytes → Option Bytes
extension_loop [] tail = none
extension_loop (c ∷ before) [] = extension_loop before (c ∷ [])
extension_loop (c ∷ before) (d ∷ tail) =
    let rest = extension_loop before (c ∷ d ∷ tail) in if c == b'.' then some (d ∷ tail) else rest

unfoldable pub reversed_onto : Bytes → Bytes → Bytes
reversed_onto [] acc = acc
reversed_onto (c ∷ cs) acc = reversed_onto cs (c ∷ acc)

unfoldable pub get_file_type_string : Bytes → Option Bytes
unfolding extension_loop reversed_onto
get_file_type_string filename = extension_loop (reversed_onto filename []) []

unfoldable pub type_of_lower : Bytes → FileType
type_of_lower typea =
    if eq_bytes typea (codes "ioc")
    then ioc
    else if eq_bytes typea (codes "png")
    then png
    else if eq_bytes typea (codes "jpeg")
    then jpeg
    else if eq_bytes typea (codes "jpg")
    then jpg
    else if eq_bytes typea (codes "gif")
    then gif
    else if eq_bytes typea (codes "json")
    then json
    else unknown

-- `StringtoFileType`; the empty text is none of the names.
unfoldable pub string_to_file_type : Bytes → FileType
unfolding type_of_lower
string_to_file_type [] = unknown
string_to_file_type (c ∷ cs) = type_of_lower (lower (c ∷ cs))

unfoldable pub get_file_type_enum : Bytes → Option FileType
unfolding get_file_type_string string_to_file_type
get_file_type_enum filename = elim (get_file_type_string filename) [
  | none ↦ none
  | some tion ↦ some (string_to_file_type tion)
]

abbrev pub is_unknown : FileType → Bool
is_unknown unknown = true
is_unknown _ = false

-- `isImgType`
unfoldable pub is_img_type : Bytes → Option Bool
unfolding get_file_type_enum
is_img_type filename = elim (get_file_type_enum filename) [
  | none ↦ none
  | some t ↦ some (not (is_unknown t))
]

-- A directory: `opendir` fails, or it holds files and directories.
mutual
  pub data Tree : Type 0 where
    closed : Tree
    opened : Entries → Tree

  pub data Entries : Type 0 where
    no_entry : Entries
    file_entry : Bytes → Entries → Entries
    dir_entry : Bytes → Tree → Entries → Entries

-- `.` and `..`
abbrev pub is_dots : Bytes → Bool
is_dots n = eq_bytes n (codes ".") || eq_bytes n (codes "..")

abbrev pub member : Bytes → List Bytes → Bool
member x [] = false
member x (y ∷ ys) = eq_bytes y x || member x ys

abbrev pub with_slash : Bytes → Bytes
with_slash t = t ++ (b'/' ∷ [])

-- `getFileAllList`: what it adds to the vector.
mutual
  unfolding eq_bytes

  pub get_file_all_list : List Bytes → Bytes → Tree → List Bytes
  get_file_all_list losedirs pre closed = []
  get_file_all_list losedirs pre (opened es) = entries_list losedirs pre es

  pub entries_list : List Bytes → Bytes → Entries → List Bytes
  entries_list losedirs pre no_entry = []
  entries_list losedirs pre (file_entry t es) =
      (if is_dots t then [] else (pre ++ t) ∷ []) ++ entries_list losedirs pre es
  entries_list losedirs pre (dir_entry t sub es) =
      let below = get_file_all_list losedirs (pre ++ with_slash t) sub in
      (if is_dots t || member t losedirs then [] else below) ++ entries_list losedirs pre es

-- `getFileList` and `getChildernList`
pub get_file_list : Bytes → Entries → List Bytes
get_file_list pre no_entry = []
get_file_list pre (file_entry t es) = (pre ++ t) ∷ get_file_list pre es
get_file_list pre (dir_entry t sub es) = get_file_list pre es

pub get_childern_list : Entries → List Bytes
get_childern_list no_entry = []
get_childern_list (file_entry t es) = get_childern_list es
get_childern_list (dir_entry t sub es) =
    let rest = get_childern_list es in if is_dots t then rest else t ∷ rest
