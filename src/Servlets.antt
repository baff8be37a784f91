-- ===== src/Servlets.antt =====
-- `ServletDispatch` of ttw/http/servlet.h and servlet.cc, and the creators of servlets.
-- A servlet is its name and what its `handle` does to the world `W`: the request, the response, the session
-- and all else it writes. A `Servlet::ptr` is an option. `fnmatch` of the C library is the parameter `matches`, true
-- where it returns 0.
pub mod Dispatch
pub mod Globs
mod Tests
use ttw.Prelude.{ℕ, Bool, true, false, Option, none, some, List, [], ◌∷◌, ◌++◌, if◌then◌else◌}
use ttw.Prelude.Text.{Bytes, codes, eq_bytes}
use ttw.Prelude.Dict.{find, assign, remove, bytes_key}

module _ (W : Type 0) where
  pub record Servlet : Type 0 where
    pub name : Bytes
    pub run : W → W

  -- `HoldServletCreator` on a servlet, and `ServletCreator<T>`, whose `new T` is the servlet here.
  pub data ServletCreator : Type 0 where
    hold : Option Servlet → ServletCreator
    make : Bytes → Servlet → ServletCreator

  pub record ServletDispatch : Type 0 where
    pub datas : List (Bytes × ServletCreator)
    pub globs : List (Bytes × ServletCreator)
    pub default : Option Servlet

module _ {W : Type 0} where
  pub function_servlet : (W → W) → Servlet W
  function_servlet cb = record { name = codes "FunctionServlet"; run = cb }

  -- `get()` and `getName()`; the name of a held null pointer is read through that pointer.
  pub create : ServletCreator W → Option (Servlet W)
  create (hold s) = s
  create (make n s) = some s

  pub creator_name : ServletCreator W → Option Bytes
  creator_name (hold none) = none
  creator_name (hold (some s)) = some s.name
  creator_name (make n s) = some n

  -- The constructor; what `NotFoundServlet::handle` does is the argument.
  pub servlet_dispatch : (W → W) → ServletDispatch W
  servlet_dispatch not_found = record {
    datas = [];
    globs = [];
    default = some (record { name = codes "NotFoundServlet"; run = not_found });
  }

  pub add_servlet_creator : Bytes → ServletCreator W → ServletDispatch W → ServletDispatch W
  unfolding assign
  add_servlet_creator uri creator d = record d { datas = assign uri creator d.datas }

  pub add_servlet : Bytes → Option (Servlet W) → ServletDispatch W → ServletDispatch W
  unfolding add_servlet_creator
  add_servlet uri slt d = add_servlet_creator uri (hold slt) d

  pub add_function : Bytes → (W → W) → ServletDispatch W → ServletDispatch W
  unfolding add_servlet_creator function_servlet
  add_function uri cb d = add_servlet_creator uri (hold (some (function_servlet cb))) d

  -- The loops that erase the first entry of `uri`.
  pub erase_first : Bytes → List (Bytes × ServletCreator W) → List (Bytes × ServletCreator W)
  erase_first uri [] = []
  erase_first uri ((u, c) ∷ globs) =
      if eq_bytes u uri then globs else (u, c) ∷ erase_first uri globs

  pub add_glob_servlet_creator : Bytes → ServletCreator W → ServletDispatch W → ServletDispatch W
  unfolding erase_first
  add_glob_servlet_creator uri creator d = record d {
    globs = erase_first uri d.globs ++ ((uri, creator) ∷ []);
  }

  pub add_glob_servlet : Bytes → Option (Servlet W) → ServletDispatch W → ServletDispatch W
  unfolding add_glob_servlet_creator
  add_glob_servlet uri slt d = add_glob_servlet_creator uri (hold slt) d

  pub add_glob_function : Bytes → (W → W) → ServletDispatch W → ServletDispatch W
  unfolding add_glob_servlet function_servlet
  add_glob_function uri cb d = add_glob_servlet uri (some (function_servlet cb)) d

  pub del_servlet : Bytes → ServletDispatch W → ServletDispatch W
  unfolding remove
  del_servlet uri d = record d { datas = remove uri d.datas }

  pub del_glob_servlet : Bytes → ServletDispatch W → ServletDispatch W
  unfolding erase_first
  del_glob_servlet uri d = record d { globs = erase_first uri d.globs }

  pub set_default : Option (Servlet W) → ServletDispatch W → ServletDispatch W
  set_default v d = record d { default = v }

  pub get_servlet : Bytes → ServletDispatch W → Option (Servlet W)
  unfolding find create
  get_servlet uri d = elim (find uri d.datas) [ none ↦ none | some c ↦ create c ]

  pub first_glob : Bytes → List (Bytes × ServletCreator W) → Option (Servlet W)
  unfolding create
  first_glob uri [] = none
  first_glob uri ((u, c) ∷ globs) = if eq_bytes u uri then create c else first_glob uri globs

  pub get_glob_servlet : Bytes → ServletDispatch W → Option (Servlet W)
  unfolding first_glob
  get_glob_servlet uri d = first_glob uri d.globs

  -- The loop of `getMatchedServlet` over the patterns, and the default behind it.
  pub match_globs :
      (Bytes → Bytes → Bool)
      → Bytes
      → List (Bytes × ServletCreator W)
      → Option (Servlet W)
      → Option (Servlet W)
  unfolding create
  match_globs matches uri [] def = def
  match_globs matches uri ((u, c) ∷ globs) def =
      if matches u uri then create c else match_globs matches uri globs def

  pub get_matched_servlet : (Bytes → Bytes → Bool) → Bytes → ServletDispatch W → Option (Servlet W)
  unfolding find create match_globs
  get_matched_servlet matches uri d = elim (find uri d.datas) [
    | some c ↦ create c
    | none ↦ match_globs matches uri d.globs d.default
  ]

  -- `ServletDispatch::handle` on a request for the path; it returns 0.
  pub dispatch_request : (Bytes → Bytes → Bool) → Bytes → ServletDispatch W → W → ℕ × W
  unfolding get_matched_servlet
  dispatch_request matches path d w = elim (get_matched_servlet matches path d) [
    | none ↦ (0, w)
    | some slt ↦ (0, slt.run w)
  ]

  -- `listAllServletCreator` and `listAllGlobServletCreator`.
  pub list_all :
      List (Bytes × ServletCreator W)
      → List (Bytes × ServletCreator W)
      → List (Bytes × ServletCreator W)
  unfolding assign
  list_all [] infos = infos
  list_all ((u, c) ∷ l) infos = list_all l (assign u c infos)
