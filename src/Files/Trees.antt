-- ===== src/Files/Trees.antt =====
-- getFileAllList of ttw/file/file.cc: which names it gives.
use ttw.Prelude.{
  ◌≡◌, refl, ◌↔◌, ◌⊎◌, Bool, true, false, ◌||◌, List, [], ◌∷◌, ◌++◌, arith, if◌then◌else◌,
  Bool-cases, inl, inr, append_assoc, sym, ◌∙◌, subst,
}
use ttw.Prelude.Text.{Bytes, eq_bytes_iff, eq_bytes_self}
use ttw.Files.{
  Tree, closed, opened, Entries, no_entry, file_entry, dir_entry, is_dots, member, with_slash,
  get_file_all_list, entries_list,
}

-- From the entries of a directory, through directories that can be opened and are not left out, to a file.
pub data Reaches (losedirs : List Bytes) : Entries → List Bytes → Bytes → Type 0 where
  found : {n : Bytes} {es : Entries} → is_dots n ≡ false → Reaches losedirs (file_entry n es) [] n
  inside :
      {d n : Bytes} {ds : List Bytes} {sub es : Entries}
      → (is_dots d || member d losedirs) ≡ false
      → Reaches losedirs sub ds n
      → Reaches losedirs (dir_entry d (opened sub) es) (d ∷ ds) n
  after_file :
      {m n : Bytes} {ds : List Bytes} {es : Entries}
      → Reaches losedirs es ds n
      → Reaches losedirs (file_entry m es) ds n
  after_dir :
      {m n : Bytes} {t : Tree} {ds : List Bytes} {es : Entries}
      → Reaches losedirs es ds n
      → Reaches losedirs (dir_entry m t es) ds n

-- The directories, each with a slash behind it, and the name.
abbrev pub joined : List Bytes → Bytes → Bytes
joined [] n = n
joined (d ∷ ds) n = with_slash d ++ joined ds n

member-append :
    (x : Bytes) (xs ys : List Bytes) → member x (xs ++ ys) ≡ (member x xs || member x ys)
member-append x [] ys = refl
member-append x (y ∷ xs) ys = ground (arith, member-append x xs ys)

member_left : (x : Bytes) (xs ys : List Bytes) → member x xs ≡ true → member x (xs ++ ys) ≡ true
member_left x xs ys h = ground (arith, member-append x xs ys, h)

member_right : (x : Bytes) (xs ys : List Bytes) → member x ys ≡ true → member x (xs ++ ys) ≡ true
member_right x xs ys h = ground (arith, member-append x xs ys, h)

Reaches-member :
    (losedirs : List Bytes) (pre : Bytes) {es : Entries} {ds : List Bytes} {n : Bytes}
    → Reaches losedirs es ds n
    → member (pre ++ joined ds n) (entries_list losedirs pre es) ≡ true
unfolding entries_list
Reaches-member losedirs pre (found {n = n} h) =
    member_left (pre ++ n) (if is_dots n then [] else (pre ++ n) ∷ []) _
      (rw h (ground (arith, eq_bytes_self (pre ++ n))))
Reaches-member losedirs pre (inside {d = d} {n = n} {ds = ds} {sub = sub} h r) =
    member_left (pre ++ joined (d ∷ ds) n)
      (if is_dots d || member d losedirs
        then []
        else entries_list losedirs (pre ++ with_slash d) sub)
      _
      (rw h (
        subst (λ x. member x (entries_list losedirs (pre ++ with_slash d) sub) ≡ true)
          (append_assoc pre (with_slash d) (joined ds n))
          (Reaches-member losedirs (pre ++ with_slash d) r)))
Reaches-member losedirs pre {ds = ds} {n = n} (after_file {m = m} r) =
    member_right (pre ++ joined ds n) (if is_dots m then [] else (pre ++ m) ∷ []) _
      (Reaches-member losedirs pre r)
Reaches-member losedirs pre {ds = ds} {n = n} (after_dir r) =
    member_right (pre ++ joined ds n) _ _ (Reaches-member losedirs pre r)

-- A member of a list that is left out by a test, or of the other one.
member-skip :
    (x : Bytes) (skip : Bool) (xs ys : List Bytes)
    → member x ((if skip then [] else xs) ++ ys) ≡ true
    → ((skip ≡ false) × (member x xs ≡ true)) ⊎ (member x ys ≡ true)
member-skip x true xs ys h = inr h
member-skip x false xs ys h = elim (Bool-cases (member x xs)) [
  | inl y ↦ inl (refl, y)
  | inr n ↦ inr (ground (arith, member-append x xs ys, h, n))
]

only_member : (x y : Bytes) → member x (y ∷ []) ≡ true → x ≡ y
only_member x y h = sym ((eq_bytes_iff y x).0 (ground (arith, h)))

abbrev pub Reached : List Bytes → Bytes → Entries → Bytes → Type 0
Reached losedirs pre es x =
    (ds : List Bytes) × (n : Bytes) × Reaches losedirs es ds n × (x ≡ pre ++ joined ds n)

mutual
  unfolding entries_list

  member-Reached :
      (losedirs : List Bytes) (pre : Bytes) (es : Entries) (x : Bytes)
      → member x (entries_list losedirs pre es) ≡ true
      → Reached losedirs pre es x
  member-Reached losedirs pre no_entry x h = cc
  member-Reached losedirs pre (file_entry m es) x h =
      elim (member-skip x (is_dots m) ((pre ++ m) ∷ []) (entries_list losedirs pre es) h) [
        | inl (k, e) ↦ ([], m, found k, only_member x (pre ++ m) e)
        | inr r ↦ let (ds, n, s, e) = member-Reached losedirs pre es x r in (ds, n, after_file s, e)
      ]
  member-Reached losedirs pre (dir_entry d sub es) x h =
      elim (member-skip x (is_dots d || member d losedirs)
        (get_file_all_list losedirs (pre ++ with_slash d) sub) (entries_list losedirs pre es) h) [
          | inl (k, e) ↦ tree-Reached losedirs pre d sub es x k e
          | inr r ↦
              let (ds, n, s, e) = member-Reached losedirs pre es x r in (ds, n, after_dir s, e)
        ]

  tree-Reached :
      (losedirs : List Bytes) (pre d : Bytes) (sub : Tree) (es : Entries) (x : Bytes)
      → (is_dots d || member d losedirs) ≡ false
      → member x (get_file_all_list losedirs (pre ++ with_slash d) sub) ≡ true
      → Reached losedirs pre (dir_entry d sub es) x
  tree-Reached losedirs pre d closed es x k h = cc
  tree-Reached losedirs pre d (opened inner_entries) es x k h =
      let (ds, n, s, e) = member-Reached losedirs (pre ++ with_slash d) inner_entries x h in
      (d ∷ ds, n, inside k s, e ∙ append_assoc pre (with_slash d) (joined ds n))

-- getFileAllList on a directory that can be opened gives just the names of the files that are reached through
-- directories that can be opened and are not left out: the prefix, the directories with slashes, and the name of the file.
pub get_file_all_list-Reached :
    (losedirs : List Bytes) (pre : Bytes) (es : Entries) (x : Bytes)
    → (member x (get_file_all_list losedirs pre (opened es)) ≡ true) ↔ Reached losedirs pre es x
unfolding get_file_all_list
get_file_all_list-Reached losedirs pre es x = (
  member-Reached losedirs pre es x,
  λ r.
      subst (λ y. member y (entries_list losedirs pre es) ≡ true) (sym r.3)
        (Reaches-member losedirs pre r.2),
)
