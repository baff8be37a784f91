-- ===== src/HttpParser/Fields.antt =====
-- What the callbacks of ttw/http/http_parser.cc make of a run of events.
use ttw.Prelude.{
  ℕ, ◌≡◌, refl, Bool, true, false, not, ◌&&◌, Option, none, some, List, [], ◌∷◌, arith, ◌==◌,
  if◌then◌else◌, length, take, ap, ◌∙◌,
}
use ttw.Prelude.Text.{Bytes}
use ttw.Messages.{HttpMsg, HttpRequest, look_up, same_key}
use ttw.Messages.Headers.{look_up-put, add_header_key-headers}
use ttw.Messages.Query.{set_query-msg}
use ttw.Messages.Names.{chars_to_http_method, method_names}
use ttw.HttpParser.{
  RequestEvent, request_method, request_uri, request_fragment, request_path, request_query,
  request_version, request_header_done, request_http_field, on_request, on_version, on_method,
  on_requests, version_of,
}

-- The callback does not refuse the event.
unfoldable pub accepts : RequestEvent → Bool
accepts (request_method at n) = not (chars_to_http_method at == length method_names)
accepts (request_version at n) = elim (version_of at n) [ none ↦ false | some v ↦ true ]
accepts v = true

unfoldable pub accepts_all : List RequestEvent → Bool
unfolding accepts
accepts_all [] = true
accepts_all (v ∷ vs) = accepts v && accepts_all vs

on_version-accepts :
    (v : Option ℕ) (r : HttpRequest) (e : ℕ)
    → ((on_version v (r, e)).1 == 0) ≡ ((e == 0) && elim v [ none ↦ false | some _ ↦ true ])
on_version-accepts none r e = ground arith
on_version-accepts (some v) r e = ground arith

on_request-accepts :
    (v : RequestEvent) (r : HttpRequest) (e : ℕ)
    → ((on_request v (r, e)).1 == 0) ≡ ((e == 0) && accepts v)
unfolding on_request accepts
on_request-accepts (request_method at n) r e = ground arith
on_request-accepts (request_uri at n) r e = ground arith
on_request-accepts (request_fragment at n) r e = ground arith
on_request-accepts (request_path at n) r e = ground arith
on_request-accepts (request_query at n) r e = ground arith
on_request-accepts (request_version at n) r e = on_version-accepts (version_of at n) r e
on_request-accepts (request_header_done at n) r e = ground arith
on_request-accepts (request_http_field field flen value vlen) r e = ground arith

-- The run ends without an error just where there was none and the callbacks take every method and version: none of the
-- later events takes an error back.
pub on_requests-accepts_all :
    (vs : List RequestEvent) (r : HttpRequest) (e : ℕ)
    → ((on_requests vs (r, e)).1 == 0) ≡ ((e == 0) && accepts_all vs)
unfolding on_requests accepts_all
on_requests-accepts_all [] r e = ground arith
on_requests-accepts_all (v ∷ vs) r e = ground (
  arith,
  on_request-accepts v r e,
  on_requests-accepts_all vs (on_request v (r, e)).0 (on_request v (r, e)).1,
)

-- The value of a field whose name is the key without regard to case.
unfoldable pub field_of : Bytes → RequestEvent → Option Bytes
field_of k (request_http_field field flen value vlen) =
    if flen == 0
    then none
    else if same_key (take flen field) k
    then some (take vlen value)
    else none
field_of k v = none

-- The value of the last such field, and what there was where there is none.
unfoldable pub last_field : Bytes → List RequestEvent → Option Bytes → Option Bytes
unfolding field_of
last_field k [] before = before
last_field k (v ∷ vs) before =
    last_field k vs (elim (field_of k v) [ some x ↦ some x | none ↦ before ])

module _ (k : Bytes) where
  on_method-look_up :
      (m : ℕ) (r : HttpRequest) (e : ℕ)
      → look_up k (on_method m (r, e)).0.msg.headers ≡ look_up k r.msg.headers
  on_method-look_up m r e = ground arith

  on_version-look_up :
      (v : Option ℕ) (r : HttpRequest) (e : ℕ)
      → look_up k (on_version v (r, e)).0.msg.headers ≡ look_up k r.msg.headers
  on_version-look_up none r e = refl
  on_version-look_up (some v) r e = refl

  on_request-look_up :
      (v : RequestEvent) (r : HttpRequest) (e : ℕ)
      → look_up k (on_request v (r, e)).0.msg.headers
        ≡ (elim (field_of k v) [ some x ↦ some x | none ↦ look_up k r.msg.headers ])
  unfolding on_request field_of
  on_request-look_up (request_method at n) r e = on_method-look_up (chars_to_http_method at) r e
  on_request-look_up (request_uri at n) r e = refl
  on_request-look_up (request_fragment at n) r e = refl
  on_request-look_up (request_path at n) r e = refl
  on_request-look_up (request_query at n) r e =
      ap (λ (m : HttpMsg). look_up k m.headers) (set_query-msg (take n at) r)
  on_request-look_up (request_version at n) r e = on_version-look_up (version_of at n) r e
  on_request-look_up (request_header_done at n) r e = refl
  on_request-look_up (request_http_field field flen value vlen) r e = ground (
    arith,
    add_header_key-headers (take flen field) (take vlen value) r.msg,
    look_up-put k (take flen field) (take vlen value) r.msg.headers,
  )

  -- After a run of callbacks a header has the value of the last field with its name, without regard to case, whose
  -- name is not empty; where there is none it is as before.
  pub on_requests-last_field :
      (vs : List RequestEvent) (r : HttpRequest) (e : ℕ)
      → look_up k (on_requests vs (r, e)).0.msg.headers ≡ last_field k vs (look_up k r.msg.headers)
  unfolding on_requests last_field
  on_requests-last_field [] r e = refl
  on_requests-last_field (v ∷ vs) r e =
      on_requests-last_field vs (on_request v (r, e)).0 (on_request v (r, e)).1
      ∙ ap (last_field k vs) (on_request-look_up v r e)
