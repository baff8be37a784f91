-- ===== src/Sessions/Data.antt =====
-- What a `SessionData` (ttw/http/http_sessiondata.cc) holds after its operations.
use ttw.Prelude.{
  ◌≡◌, refl, none, some, List, [], ◌∷◌, ◌++◌, arith, if◌then◌else◌, Option-cases, inl, inr, ◌∙◌,
}
use ttw.Prelude.Text.{Bytes, eq_bytes, eq_bytes_iff}
use ttw.Prelude.Dict.{find, assign, bytes_key, find-append, find-assign}
use ttw.Sessions.{SessionData, add_date, add_dates, set_date, set_dates}

module _ {V : Type 0} where
  find-add_date :
      (j k : Bytes) (v : V) (d : SessionData V)
      → find j (add_date k v d).m_data
        ≡ elim (find j d.m_data) [ none ↦ if eq_bytes k j then some v else none | some w ↦ some w ]
  unfolding add_date
  find-add_date j k v d = elim (Option-cases (find k d.m_data)) [
    | inl n ↦ rw (n, add_date) (ground (arith, find-assign j k v d.m_data, n, eq_bytes_iff k j))
    | inr (w, e) ↦ rw (e, add_date) (ground (arith, e, eq_bytes_iff k j))
  ]

  -- `addDate` on a list of pairs: the data that was there stands in front, and in the list the first pair of
  -- a key counts.
  pub find-add_dates :
      (j : Bytes) (datas : List (Bytes × V)) (d : SessionData V)
      → find j (add_dates datas d).m_data ≡ find j (d.m_data ++ datas)
  unfolding add_dates find
  find-add_dates j [] d = ground (arith, find-append j d.m_data [])
  find-add_dates j ((k, v) ∷ datas) d =
      find-add_dates j datas (add_date k v d)
      ∙ ground (
        arith,
        find-append j (add_date k v d).m_data datas,
        find-append j d.m_data ((k, v) ∷ datas),
        find-add_date j k v d,
      )

  -- The pairs of the first list, the last one first, in front of the second.
  abbrev pub reversed_onto : List (Bytes × V) → List (Bytes × V) → List (Bytes × V)
  reversed_onto [] ys = ys
  reversed_onto (x ∷ xs) ys = reversed_onto xs (x ∷ ys)

  reversed_onto-find :
      (j : Bytes) (xs a b : List (Bytes × V))
      → find j a ≡ find j b
      → find j (reversed_onto xs a) ≡ find j (reversed_onto xs b)
  unfolding find
  reversed_onto-find j [] a b e = e
  reversed_onto-find j ((k, v) ∷ xs) a b e =
      reversed_onto-find j xs ((k, v) ∷ a) ((k, v) ∷ b) (ground (arith, e))

  -- `setSessionData` on a list of pairs: the last pair of a key counts, and then the data that was there.
  pub find-set_dates :
      (j : Bytes) (datas : List (Bytes × V)) (d : SessionData V)
      → find j (set_dates datas d).m_data ≡ find j (reversed_onto datas d.m_data)
  unfolding set_dates set_date
  find-set_dates j [] d = refl
  find-set_dates j ((k, v) ∷ datas) d =
      find-set_dates j datas (set_date k v d)
      ∙ reversed_onto-find j datas (assign k v d.m_data) ((k, v) ∷ d.m_data)
          (unfold find in find-assign j k v d.m_data)
