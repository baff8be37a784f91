-- ===== src/Servlets/Dispatch.antt =====
-- What `getMatchedServlet` of ttw/http/servlet.cc gives, and after which operation.
use ttw.Prelude.{
  ◌≡◌, refl, ◌⊎◌, inl, inr, Bool, true, false, Option, none, some, List, [], ◌∷◌, ◌++◌,
  if◌then◌else◌, Bool-cases, Option-cases, ◌∙◌, ap, sym, subst, if_true, if_false,
}
use ttw.Prelude.Text.{Bytes, eq_bytes}
use ttw.Prelude.Dict.{find, bytes_key, Distinct, find-assign, find-remove}
use ttw.Servlets.{
  add_function, function_servlet, Servlet, ServletCreator, ServletDispatch, hold, create,
  get_matched_servlet, match_globs, add_servlet, del_servlet,
}

module _ {W : Type 0} where
  -- No pattern of the list matches.
  abbrev pub NoMatch : (Bytes → Bytes → Bool) → Bytes → List (Bytes × ServletCreator W) → Type 0
  NoMatch matches uri [] = Unit {0}
  NoMatch matches uri ((u, c) ∷ l) = (matches u uri ≡ false) × NoMatch matches uri l

  -- What the dispatch of a path promises: the servlet of the path itself; or else of the first pattern that
  -- matches; or else the default.
  pub data IsMatch (matches : Bytes → Bytes → Bool) (uri : Bytes) (d : ServletDispatch W)
      : Option (Servlet W) → Type 0 where
    exact : (c : ServletCreator W) → find uri d.datas ≡ some c → IsMatch matches uri d (create c)
    glob :
        (before after : List (Bytes × ServletCreator W)) (u : Bytes) (c : ServletCreator W)
        → find uri d.datas ≡ none
        → d.globs ≡ before ++ ((u, c) ∷ after)
        → NoMatch matches uri before
        → matches u uri ≡ true
        → IsMatch matches uri d (create c)
    default :
        find uri d.datas ≡ none → NoMatch matches uri d.globs → IsMatch matches uri d d.default

  match_globs-cases :
      (matches : Bytes → Bytes → Bool) (uri : Bytes) (l : List (Bytes × ServletCreator W))
      (def : Option (Servlet W))
      → (NoMatch matches uri l × (match_globs matches uri l def ≡ def))
        ⊎ ((before : List (Bytes × ServletCreator W)) × (after : List (Bytes × ServletCreator W))
            × (u : Bytes) × (c : ServletCreator W) × (l ≡ before ++ ((u, c) ∷ after))
            × NoMatch matches uri before
            × (matches u uri ≡ true)
            × (match_globs matches uri l def ≡ create c))
  unfolding match_globs
  match_globs-cases matches uri [] def = inl (tt, refl)
  match_globs-cases matches uri ((u, c) ∷ l) def = elim (Bool-cases (matches u uri)) [
    | inl y ↦ inr ([], l, u, c, refl, tt, y, if_true _ _ y)
    | inr n ↦ elim (match_globs-cases matches uri l def) [
      | inl (h, e) ↦ inl ((n, h), if_false _ _ n ∙ e)
      | inr (before, after, v, b, s, h, y, e) ↦
          inr ((u, c) ∷ before, after, v, b, ap (λ x. (u, c) ∷ x) s, (n, h), y, if_false _ _ n ∙ e)
    ]
  ]

  -- `getMatchedServlet` gives what the dispatch promises, for every behaviour of `fnmatch`.
  pub get_matched_servlet-IsMatch :
      (matches : Bytes → Bytes → Bool) (uri : Bytes) (d : ServletDispatch W)
      → IsMatch matches uri d (get_matched_servlet matches uri d)
  unfolding get_matched_servlet
  get_matched_servlet-IsMatch matches uri d = elim (Option-cases (find uri d.datas)) [
    | inl n ↦
        rw (n, get_matched_servlet)
          (elim (match_globs-cases matches uri d.globs d.default) [
            | inl (h, e) ↦ subst (IsMatch matches uri d) (sym e) (default n h)
            | inr (before, after, u, c, s, h, y, e) ↦
                subst (IsMatch matches uri d) (sym e) (glob before after u c n s h y)
          ])
    | inr (c, e) ↦ rw (e, get_matched_servlet) (exact c e)
  ]

  abbrev served :
      (Bytes → Bytes → Bool)
      → Bytes
      → ServletDispatch W
      → Option (ServletCreator W)
      → Option (Servlet W)
  served matches path d o = elim o [
    | some c ↦ create c
    | none ↦ match_globs matches path d.globs d.default
  ]

  served-if :
      (matches : Bytes → Bytes → Bool) (path : Bytes) (d : ServletDispatch W) (b : Bool)
      (x y : Option (ServletCreator W))
      → served matches path d (if b then x else y)
        ≡ (if b then served matches path d x else served matches path d y)
  served-if matches path d true x y = refl
  served-if matches path d false x y = refl

  -- A servlet that is added for a path is the one that requests for it are handed to, whatever the patterns, and
  -- requests for other paths go where they went.
  pub get_matched_servlet-add_servlet :
      (matches : Bytes → Bytes → Bool) (uri path : Bytes) (slt : Option (Servlet W))
      (d : ServletDispatch W)
      → get_matched_servlet matches path (add_servlet uri slt d)
        ≡ (if eq_bytes uri path then slt else get_matched_servlet matches path d)
  unfolding get_matched_servlet add_servlet create
  get_matched_servlet-add_servlet matches uri path slt d =
      ap (served matches path d) (find-assign path uri (hold slt) d.datas)
      ∙ served-if matches path d (eq_bytes uri path) (some (hold slt)) (find path d.datas)

  pub get_matched_servlet-add_function :
      (matches : Bytes → Bytes → Bool) (uri path : Bytes) (cb : W → W) (d : ServletDispatch W)
      → get_matched_servlet matches path (add_function uri cb d) ≡ (
          if eq_bytes uri path
          then some (function_servlet cb)
          else get_matched_servlet matches path d)
  unfolding add_function add_servlet
  get_matched_servlet-add_function matches uri path cb d =
      get_matched_servlet-add_servlet matches uri path (some (function_servlet cb)) d

  -- After `delServlet`, where each path has one entry, the path goes to the patterns and the default, and
  -- requests for other paths go where they went.
  pub get_matched_servlet-del_servlet :
      (matches : Bytes → Bytes → Bool) (uri path : Bytes) (d : ServletDispatch W)
      → Distinct d.datas
      → get_matched_servlet matches path (del_servlet uri d) ≡ (
          if eq_bytes uri path
          then match_globs matches path d.globs d.default
          else get_matched_servlet matches path d)
  unfolding get_matched_servlet del_servlet
  get_matched_servlet-del_servlet matches uri path d h =
      ap (served matches path d) (find-remove path uri d.datas h)
      ∙ served-if matches path d (eq_bytes uri path) none (find path d.datas)
