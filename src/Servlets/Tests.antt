-- ===== src/Servlets/Tests.antt =====
-- Runs of a `ServletDispatch`, and the theorems on it at a small one.
use ttw.Prelude.{ℕ, ◌+◌, ◌≡◌, refl, Bool, false, Option, some, [], ◌∷◌}
use ttw.Prelude.Text.{Bytes, codes, eq_bytes}
use ttw.Prelude.Dict.{bytes_key}
use ttw.Servlets.{
  Servlet, ServletDispatch, hold, servlet_dispatch, add_servlet_creator, add_glob_servlet_creator,
  get_matched_servlet, dispatch_request,
}
use ttw.Servlets.Dispatch.{IsMatch, get_matched_servlet-IsMatch}
use ttw.Servlets.Globs.{IsDispatch, Reach-IsDispatch, Reach, here, next, add, add_glob}

-- A pattern that begins with a star matches everything.
abbrev starred : Bytes → Bytes → Bool
starred [] uri = false
starred (c ∷ cs) uri = eq_bytes (c ∷ []) (codes "*")

abbrev counting : ℕ → Option (Servlet ℕ)
counting n = some (record { name = codes "n"; run = λ w. w + n })

abbrev site : ServletDispatch ℕ
site =
    add_servlet_creator (codes "/a") (hold (counting 2))
      (add_glob_servlet_creator (codes "*") (hold (counting 1)) (servlet_dispatch (λ w. w)))

site-Reach : Reach (servlet_dispatch (λ w. w)) site
site-Reach =
    next (next here (add_glob (codes "*") (hold (counting 1))))
      (add (codes "/a") (hold (counting 2)))

handle_exact : dispatch_request starred (codes "/a") site 10 ≡ (0, 12)
unfolding dispatch_request servlet_dispatch add_servlet_creator add_glob_servlet_creator eq_bytes
handle_exact = refl

handle_glob : dispatch_request starred (codes "/b") site 10 ≡ (0, 11)
unfolding dispatch_request servlet_dispatch add_servlet_creator add_glob_servlet_creator eq_bytes
handle_glob = refl

get_matched_servlet-IsMatch_example :
    IsMatch starred (codes "/b") site (get_matched_servlet starred (codes "/b") site)
get_matched_servlet-IsMatch_example = get_matched_servlet-IsMatch starred (codes "/b") site

Reach-IsDispatch_example : IsDispatch site
Reach-IsDispatch_example = Reach-IsDispatch (λ w. w) site site-Reach
