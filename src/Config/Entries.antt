-- ===== src/Config/Entries.antt =====
-- What `Config::loadMap` (ttw/config.cc) stores: the leaves of the JSON text under their paths.
use ttw.Prelude.{
  ℕ, ◌≡◌, refl, true, false, Option, none, some, List, [], ◌∷◌, ◌++◌, arith, take, length,
  length-append, take_front, sym, ap, ◌∙◌,
}
use mathlib.Core.List.{append-nil, append_assoc}
use ttw.Prelude.Text.{Bytes}
use ttw.Prelude.Dict.{assign, bytes_key}
use ttw.Json.Value.{
  Json, object, array, boolean, string, int, uint, long, ulong, float, double, json_null, Fields,
  end, field,
}
use ttw.Json.Print.{to_string, to_string-string}
use ttw.Config.{Config, new_key, inner, load_map, load_members}

abbrev pub put_all : List (Bytes × Bytes) → List (Bytes × Bytes) → List (Bytes × Bytes)
put_all [] m = m
put_all ((k, v) ∷ l) m = put_all l (assign k v m)

put_all-append : (xs ys m : List (Bytes × Bytes)) → put_all (xs ++ ys) m ≡ put_all ys (put_all xs m)
put_all-append [] ys m = refl
put_all-append ((k, v) ∷ xs) ys m = put_all-append xs ys (assign k v m)

-- What stops the loading: an array, or an object with no member.
pub data Verdict : Type 0 where
  fine array_met null_met : Verdict

abbrev pub and_then : Verdict → Verdict → Verdict
and_then fine w = w
and_then v w = v

-- The first of them in the order of the text.
unfoldable mutual
  pub verdict : Json → Verdict
  verdict (object end) = null_met
  verdict (object (field k v fs)) = members_verdict (field k v fs)
  verdict (array xs) = array_met
  verdict v = fine

  pub members_verdict : Fields → Verdict
  members_verdict end = fine
  members_verdict (field k v fs) = and_then (verdict v) (members_verdict fs)

abbrev pub good : List (Bytes × Bytes) → Config
good m = record { m_map = m; is_erron = false }

-- The state of a text with an array in it.
abbrev pub failed : Config
failed = record { m_map = []; is_erron = true }

abbrev on_some : (Config → Option Config) → Option Config → Option Config
on_some f o = elim o [ none ↦ none | some c ↦ f c ]

-- An array leaves the error and no entry; an object with no member never returns.
abbrev pub outcome : Verdict → Config → Option Config
outcome fine c = some c
outcome array_met c = some failed
outcome null_met c = none

-- Names with a dot before each.
abbrev pub dot_names : List Bytes → Bytes
dot_names [] = []
dot_names (n ∷ ns) = b'.' ∷ (n ++ dot_names ns)

-- The names of a path with dots between them, from the first name that is not empty.
abbrev pub path_key : List Bytes → Bytes
path_key [] = []
path_key ([] ∷ ns) = path_key ns
path_key ((c ∷ cs) ∷ ns) = (c ∷ cs) ++ dot_names ns

dot_names-append :
    (ns : List Bytes) (k : Bytes) → dot_names ns ++ (b'.' ∷ k) ≡ dot_names (ns ++ (k ∷ []))
dot_names-append [] k = ap (λ l. b'.' ∷ l) (sym (append-nil k))
dot_names-append (n ∷ ns) k =
    ap (λ l. b'.' ∷ l)
      (append_assoc n (dot_names ns) (b'.' ∷ k) ∙ ap (λ l. n ++ l) (dot_names-append ns k))

new_key-path_key :
    (ns : List Bytes) (k : Bytes) → new_key (path_key ns) k ≡ path_key (ns ++ (k ∷ []))
new_key-path_key [] [] = refl
new_key-path_key [] (c ∷ cs) = sym (append-nil (c ∷ cs))
new_key-path_key ([] ∷ ns) k = new_key-path_key ns k
new_key-path_key ((c ∷ cs) ∷ ns) k =
    append_assoc (c ∷ cs) (dot_names ns) (b'.' ∷ k)
    ∙ ap (λ l. (c ∷ cs) ++ l) (dot_names-append ns k)

module _ (show_float show_double : ℕ → Bytes) where
  -- The leaves in order, each with its path and its text, a string without its quotes.
  unfoldable mutual
    pub entries : Json → List Bytes → List (Bytes × Bytes)
    entries (object fs) path = member_entries fs path
    entries (string s) path = (path_key path, s) ∷ []
    entries v path = (path_key path, to_string show_float show_double v) ∷ []

    pub member_entries : Fields → List Bytes → List (Bytes × Bytes)
    member_entries end path = []
    member_entries (field k v fs) path = entries v (path ++ (k ∷ [])) ++ member_entries fs path

  abbrev loaded : Json → Bytes → Config → Option Config
  loaded = load_map show_float show_double

  abbrev members : Fields → Bytes → Config → Option Config
  members = load_members show_float show_double

  inner-string : (s : Bytes) → inner (to_string show_float show_double (string s)) ≡ s
  inner-string s =
      ap inner (to_string-string show_float show_double s)
      ∙ ap (λ n. take n (s ++ (b'"' ∷ []))) (omega (arith, length-append s (b'"' ∷ [])))
      ∙ take_front (length s) s (b'"' ∷ []) (omega arith)
      ∙ take_length s
    where
      take_length : (s : Bytes) → take (length s) s ≡ s
      take_length [] = refl
      take_length (c ∷ s) = ap (λ l. c ∷ l) (take_length s)

  loaded-failed : (v : Json) (key : Bytes) → loaded v key failed ≡ some failed
  unfolding load_map
  loaded-failed (object end) key = refl
  loaded-failed (object (field k v fs)) key = refl
  loaded-failed (array xs) key = refl
  loaded-failed (string s) key = refl
  loaded-failed (boolean b) key = refl
  loaded-failed (int n) key = refl
  loaded-failed (uint n) key = refl
  loaded-failed (long n) key = refl
  loaded-failed (ulong n) key = refl
  loaded-failed (float n) key = refl
  loaded-failed (double n) key = refl
  loaded-failed json_null key = refl

  members-failed : (fs : Fields) (key : Bytes) → members fs key failed ≡ some failed
  unfolding load_map
  members-failed end key = refl
  members-failed (field k v fs) key =
      ap (on_some (members fs key)) (loaded-failed v (new_key key k)) ∙ members-failed fs key

  -- The members after the first, after what the first one leaves.
  members-outcome :
      (t w : Verdict) (fs : Fields) (key : Bytes) (c d : Config)
      → members fs key c ≡ outcome w d
      → on_some (members fs key) (outcome t c) ≡ outcome (and_then t w) d
  members-outcome fine w fs key c d e = e
  members-outcome array_met w fs key c d e = members-failed fs key
  members-outcome null_met w fs key c d e = refl

  mutual
    unfolding load_map entries verdict

    loads :
        (v : Json) (path : List Bytes) (m : List (Bytes × Bytes))
        → load_map show_float show_double v (path_key path) (good m)
          ≡ outcome (verdict v) (good (put_all (entries v path) m))
    loads (object end) path m = refl
    loads (object (field k v fs)) path m = loads_members (field k v fs) path m
    loads (array xs) path m = refl
    loads (string s) path m = ap (λ n. some (good (assign (path_key path) n m))) (inner-string s)
    loads (boolean b) path m = refl
    loads (int n) path m = refl
    loads (uint n) path m = refl
    loads (long n) path m = refl
    loads (ulong n) path m = refl
    loads (float n) path m = refl
    loads (double n) path m = refl
    loads json_null path m = refl

    loads_members :
        (fs : Fields) (path : List Bytes) (m : List (Bytes × Bytes))
        → load_members show_float show_double fs (path_key path) (good m)
          ≡ outcome (members_verdict fs) (good (put_all (member_entries fs path) m))
    loads_members end path m = refl
    loads_members (field k v fs) path m =
        let after = put_all (entries v (path ++ (k ∷ []))) m in
        ap (λ key. on_some (members fs (path_key path)) (loaded v key (good m)))
          (new_key-path_key path k)
        ∙ ap (on_some (members fs (path_key path))) (loads v (path ++ (k ∷ [])) m)
        ∙ members-outcome (verdict v) (members_verdict fs) fs (path_key path) (good after)
            (good (put_all (member_entries fs path) after)) (loads_members fs path after)
        ∙ ap (λ l. outcome (members_verdict (field k v fs)) (good l))
            (sym (put_all-append (entries v (path ++ (k ∷ []))) (member_entries fs path) m))
