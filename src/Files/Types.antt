-- ===== src/Files/Types.antt =====
-- getFileTypeString of ttw/file/file.cc.
use ttw.Prelude.{ℕ, ◌≡◌, refl, false, none, some, [], ◌∷◌, ◌++◌, ◌==◌, append_nil, ap, ◌∙◌}
use ttw.Prelude.Text.{Bytes}
use ttw.Files.{extension_loop, reversed_onto, get_file_type_string}

abbrev pub Pointless : Bytes → Type 0
Pointless [] = Unit {0}
Pointless (c ∷ cs) = ((c == b'.') ≡ false) × Pointless cs

reversed_onto-append :
    (xs ys acc : Bytes) → reversed_onto (xs ++ ys) acc ≡ reversed_onto ys (reversed_onto xs acc)
unfolding reversed_onto
reversed_onto-append [] ys acc = refl
reversed_onto-append (x ∷ xs) ys acc = reversed_onto-append xs ys (x ∷ acc)

no_point :
    (c : ℕ) (before tail : Bytes)
    → (c == b'.') ≡ false
    → extension_loop (c ∷ before) tail ≡ extension_loop before (c ∷ tail)
unfolding extension_loop
no_point c before [] h = refl
no_point c before (d ∷ tail) h = rw h refl

extension_loop-Pointless :
    (ext acc tail : Bytes)
    → Pointless ext
    → extension_loop (reversed_onto ext acc) tail ≡ extension_loop acc (ext ++ tail)
unfolding reversed_onto
extension_loop-Pointless [] acc tail h = refl
extension_loop-Pointless (c ∷ ext) acc tail h =
    extension_loop-Pointless ext (c ∷ acc) tail h.1 ∙ no_point c acc (ext ++ tail) h.0

-- For a name with a point and text without a point behind it, the type is this text; where the name is only this
-- text, without any point, the loop reads the bytes before the name.
pub get_file_type_string-Pointless :
    (stem : Bytes) (c : ℕ) (ext : Bytes)
    → Pointless (c ∷ ext)
    → (get_file_type_string (stem ++ (b'.' ∷ c ∷ ext)) ≡ some (c ∷ ext))
      × (get_file_type_string (c ∷ ext) ≡ none)
unfolding get_file_type_string
get_file_type_string-Pointless stem c ext h = (
  ap (λ x. extension_loop x []) (reversed_onto-append stem (b'.' ∷ c ∷ ext) [])
      ∙ (unfold reversed_onto in
          extension_loop-Pointless (c ∷ ext) (b'.' ∷ reversed_onto stem []) [] h)
      ∙ (unfold extension_loop in ap (λ x. some (c ∷ x)) (append_nil ext)),
  extension_loop-Pointless (c ∷ ext) [] [] h ∙ (unfold extension_loop in refl),
)
