-- ===== src/Servlets/Globs.antt =====
-- The patterns of a `ServletDispatch` (ttw/http/servlet.cc), and its maps along all its histories.
use ttw.Prelude.{
  ◌≡◌, refl, Option, none, some, List, [], ◌∷◌, ◌++◌, arith, if◌then◌else◌, Option-cases, ◌∙◌, ap,
  sym, subst,
}
use ttw.Prelude.Text.{Bytes, eq_bytes, eq_bytes_self}
use ttw.Prelude.Dict.{
  find, remove, bytes_key, Distinct, find-append, find-remove, assign-Distinct, remove-Distinct,
  snoc-Distinct,
}
use ttw.Servlets.{
  Servlet, ServletCreator, ServletDispatch, create, erase_first, first_glob, get_glob_servlet,
  add_servlet_creator, add_glob_servlet_creator, del_servlet, del_glob_servlet, set_default,
  servlet_dispatch,
}

module _ {W : Type 0} where
  erase_first-remove :
      (k : Bytes) (l : List (Bytes × ServletCreator W)) → erase_first k l ≡ remove k l
  unfolding erase_first remove
  erase_first-remove k [] = refl
  erase_first-remove k ((u, c) ∷ l) = ground (arith, erase_first-remove k l)

  first_glob-find :
      (k : Bytes) (l : List (Bytes × ServletCreator W))
      → first_glob k l ≡ elim (find k l) [ none ↦ none | some c ↦ create c ]
  unfolding first_glob find
  first_glob-find k [] = refl
  first_glob-find k ((u, c) ∷ l) = ground (arith, first_glob-find k l)

  find-erased :
      (j k : Bytes) (c : ServletCreator W) (l : List (Bytes × ServletCreator W))
      → Distinct l
      → find j (erase_first k l ++ ((k, c) ∷ [])) ≡ (if eq_bytes k j then some c else find j l)
  find-erased j k c l d =
      ap (λ x. find j (x ++ ((k, c) ∷ []))) (erase_first-remove k l)
      ∙ find-append j (remove k l) ((k, c) ∷ [])
      ∙ (unfold find in ground (arith, find-remove j k l d, Option-cases (find j l)))

  -- Where each pattern has one entry, `getGlobServlet` after `addGlobServletCreator` gives the servlet of the new
  -- creator for its pattern, and for any other pattern what it gave before.
  pub get_glob_servlet-add_glob_servlet_creator :
      (j k : Bytes) (c : ServletCreator W) (d : ServletDispatch W)
      → Distinct d.globs
      → get_glob_servlet j (add_glob_servlet_creator k c d)
        ≡ (if eq_bytes k j then create c else get_glob_servlet j d)
  unfolding get_glob_servlet add_glob_servlet_creator
  get_glob_servlet-add_glob_servlet_creator j k c d h =
      first_glob-find j (erase_first k d.globs ++ ((k, c) ∷ []))
      ∙ ap (λ o. elim o [ none ↦ none | some x ↦ create x ]) (find-erased j k c d.globs h)
      ∙ ground (arith, first_glob-find j d.globs)

  -- Each path and each pattern has one entry.
  pub record IsDispatch (d : ServletDispatch W) : Type 0 where
    pub one_path : Distinct d.datas
    pub one_pattern : Distinct d.globs

  erased-none :
      (k : Bytes) (l : List (Bytes × ServletCreator W)) → Distinct l → find k (remove k l) ≡ none
  erased-none k l d = ground (arith, find-remove k k l d, eq_bytes_self k)

  pub data Step (d : ServletDispatch W) : ServletDispatch W → Type 0 where
    add : (uri : Bytes) (c : ServletCreator W) → Step d (add_servlet_creator uri c d)
    add_glob : (uri : Bytes) (c : ServletCreator W) → Step d (add_glob_servlet_creator uri c d)
    del : (uri : Bytes) → Step d (del_servlet uri d)
    del_glob : (uri : Bytes) → Step d (del_glob_servlet uri d)
    default : (v : Option (Servlet W)) → Step d (set_default v d)

  pub data Reach (d : ServletDispatch W) : ServletDispatch W → Type 0 where
    here : Reach d d
    next : {e f : ServletDispatch W} → Reach d e → Step e f → Reach d f

  Step-IsDispatch : {d e : ServletDispatch W} → Step d e → IsDispatch d → IsDispatch e
  unfolding add_servlet_creator add_glob_servlet_creator del_servlet del_glob_servlet set_default
  Step-IsDispatch {d} (add uri c) is = record {
    one_path = assign-Distinct uri c d.datas is.one_path;
    one_pattern = is.one_pattern;
  }
  Step-IsDispatch {d} (add_glob uri c) is = record {
    one_path = is.one_path;
    one_pattern =
        subst (λ l. Distinct (l ++ ((uri, c) ∷ []))) (sym (erase_first-remove uri d.globs))
          (snoc-Distinct uri c (remove uri d.globs) (erased-none uri d.globs is.one_pattern)
            (remove-Distinct uri d.globs is.one_pattern));
  }
  Step-IsDispatch {d} (del uri) is = record {
    one_path = remove-Distinct uri d.datas is.one_path;
    one_pattern = is.one_pattern;
  }
  Step-IsDispatch {d} (del_glob uri) is = record {
    one_path = is.one_path;
    one_pattern =
        subst Distinct (sym (erase_first-remove uri d.globs))
          (remove-Distinct uri d.globs is.one_pattern);
  }
  Step-IsDispatch {d} (default v) is = record {
    one_path = is.one_path;
    one_pattern = is.one_pattern;
  }

  Reach-keeps : {d e : ServletDispatch W} → Reach d e → IsDispatch d → IsDispatch e
  Reach-keeps here is = is
  Reach-keeps (next r s) is = Step-IsDispatch s (Reach-keeps r is)

  -- Along every history of the operations from the constructor on, each path has one entry, and each pattern.
  pub Reach-IsDispatch :
      (not_found : W → W) (d : ServletDispatch W)
      → Reach (servlet_dispatch not_found) d
      → IsDispatch d
  unfolding servlet_dispatch
  Reach-IsDispatch not_found d r = Reach-keeps r (record { one_path = tt; one_pattern = tt })
