-- ===== src/Config.antt =====
-- `Config::loadMap` of ttw/config.h and config.cc: the dotted keys of a JSON text.
pub mod Entries
mod Tests
use ttw.Prelude.{
  ℕ, ◌-◌, Bool, true, false, Option, none, some, List, [], ◌∷◌, ◌++◌, if◌then◌else◌, take, drop,
  length,
}
use ttw.Prelude.Text.{Bytes}
use ttw.Prelude.Dict.{assign, bytes_key}
use ttw.Json.Value.{
  Json, object, array, boolean, string, int, uint, long, ulong, float, double, json_null, Fields,
  end, field,
}
use ttw.Json.Print.{to_string}

-- `m_map` and `m_iserron`.
pub record Config : Type 0 where
  pub m_map : List (Bytes × Bytes)
  pub is_erron : Bool

-- The key of a member.
abbrev pub new_key : Bytes → Bytes → Bytes
new_key [] first = first
new_key (c ∷ cs) first = (c ∷ cs) ++ (b'.' ∷ first)

-- `str.substr(1, str.length() - 2)`
abbrev pub inner : Bytes → Bytes
inner str = take (length str - 2) (drop 1 str)

abbrev pub store : Bytes → Bytes → Config → Config
store key n c = record c { m_map = assign key n c.m_map }

module _ (show_float show_double : ℕ → Bytes) where
  abbrev text : Json → Bytes
  text = to_string show_float show_double

  -- None where the null pointer is followed: the reader makes the map of an object with its first member, and
  -- `getJsonObject` copies it without a test.
  mutual
    pub load_map : Json → Bytes → Config → Option Config
    load_map (object end) key c = elim c.is_erron [ true ↦ some c | false ↦ none ]
    load_map (object (field first v fs)) key c = elim c.is_erron [
      | true ↦ some c
      | false ↦ load_members (field first v fs) key c
    ]
    load_map (array xs) key c = elim c.is_erron [
      | true ↦ some c
      | false ↦ some (record { m_map = []; is_erron = true })
    ]
    load_map (string s) key c = elim c.is_erron [
      | true ↦ some c
      | false ↦ some (store key (inner (text (string s))) c)
    ]
    load_map v key c = elim c.is_erron [ true ↦ some c | false ↦ some (store key (text v) c) ]

    pub load_members : Fields → Bytes → Config → Option Config
    load_members end key c = some c
    load_members (field first v fs) key c = elim (load_map v (new_key key first) c) [
      | none ↦ none
      | some d ↦ load_members fs key d
    ]
