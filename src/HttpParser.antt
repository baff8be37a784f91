-- ===== src/HttpParser.antt =====
-- `HttpRequestParser` and `HttpResponseParser` of ttw/http/http_parser.h and http_parser.cc: their callbacks.
-- The Ragel machines that call them are the parameter `engine`: what one run of a machine on some bytes calls back, in
-- order, and how many bytes it has taken. A `const char*` of a callback is the bytes from there to the end of the data.
pub mod Versions
pub mod Fields
mod Tests
use ttw.Prelude.{
  ℕ, zero, suc, Bool, true, false, not, ◌||◌, Option, none, some, List, [], ◌∷◌, ◌==◌,
  if◌then◌else◌, length, take, drop,
}
use ttw.Prelude.Text.{Bytes, codes}
use ttw.Messages.{
  HttpRequest, HttpResponse, http_request, http_response, add_header_key, set_query,
  get_header_value,
}
use ttw.Messages.Names.{chars_to_http_method, method_names}

-- `strncmp(a, b, n) == 0`; behind the bytes that are given stands a NUL.
unfoldable pub strncmp : ℕ → Bytes → Bytes → Bool
strncmp zero a b = true
strncmp (suc n) [] [] = true
strncmp (suc n) [] (y ∷ ys) = y == 0
strncmp (suc n) (x ∷ xs) [] = x == 0
strncmp (suc n) (x ∷ xs) (y ∷ ys) =
    let more = strncmp n xs ys in if x == y then (if x == 0 then true else more) else false

pub data RequestEvent : Type 0 where
  request_method : Bytes → ℕ → RequestEvent
  request_uri : Bytes → ℕ → RequestEvent
  request_fragment : Bytes → ℕ → RequestEvent
  request_path : Bytes → ℕ → RequestEvent
  request_query : Bytes → ℕ → RequestEvent
  request_version : Bytes → ℕ → RequestEvent
  request_header_done : Bytes → ℕ → RequestEvent
  request_http_field : Bytes → ℕ → Bytes → ℕ → RequestEvent

pub data ResponseEvent : Type 0 where
  response_reason : Bytes → ℕ → ResponseEvent
  response_status : Bytes → ℕ → ResponseEvent
  response_chunk : Bytes → ℕ → ResponseEvent
  response_version : Bytes → ℕ → ResponseEvent
  response_header_done : Bytes → ℕ → ResponseEvent
  response_last_chunk : Bytes → ℕ → ResponseEvent
  response_http_field : Bytes → ℕ → Bytes → ℕ → ResponseEvent

-- A machine with the state `P`: `finish` and `has_error` are true where the C functions do not return 0.
pub record Engine (P : Type 0) (Event : Type 0) : Type 0 where
  pub init : P
  pub execute : P → Bytes → P × ℕ × List Event
  pub finish : P → Bool
  pub has_error : P → Bool

module _ (P : Type 0) where
  pub record HttpRequestParser : Type 0 where
    pub parser : P
    pub request : HttpRequest
    pub error : ℕ

  pub record HttpResponseParser : Type 0 where
    pub parser : P
    pub response : HttpResponse
    pub error : ℕ

-- The version that the bytes are taken for.
unfoldable pub version_of : Bytes → ℕ → Option ℕ
unfolding strncmp
version_of at n =
    if strncmp n at (codes "HTTP/1.1")
    then some 0x11
    else if strncmp n at (codes "HTTP/1.0")
    then some 0x10
    else none

-- The request and the error after `on_request_...`.
abbrev pub on_method : ℕ → HttpRequest × ℕ → HttpRequest × ℕ
on_method m (r, e) = if m == length method_names then (r, 1000) else (record r { method = m }, e)

abbrev pub on_version : Option ℕ → HttpRequest × ℕ → HttpRequest × ℕ
on_version none (r, e) = (r, 1001)
on_version (some v) (r, e) = (record r { msg = record r.msg { version = v } }, e)

unfoldable pub on_request : RequestEvent → HttpRequest × ℕ → HttpRequest × ℕ
unfolding chars_to_http_method version_of
on_request (request_method at n) (r, e) = on_method (chars_to_http_method at) (r, e)
on_request (request_uri at n) (r, e) = (r, e)
on_request (request_fragment at n) (r, e) = (r, e)
on_request (request_path at n) (r, e) = (record r { path = take n at }, e)
on_request (request_query at n) (r, e) = (set_query (take n at) r, e)
on_request (request_version at n) (r, e) = on_version (version_of at n) (r, e)
on_request (request_header_done at n) (r, e) = (r, e)
on_request (request_http_field field flen value vlen) (r, e) =
    if flen == 0
    then (r, e)
    else (record r { msg = add_header_key (take flen field) (take vlen value) r.msg }, e)

unfoldable pub on_requests : List RequestEvent → HttpRequest × ℕ → HttpRequest × ℕ
unfolding on_request
on_requests [] x = x
on_requests (v ∷ vs) x = on_requests vs (on_request v x)

abbrev pub on_response_version : Option ℕ → HttpResponse × ℕ → HttpResponse × ℕ
on_response_version none (r, e) = (r, 1001)
on_response_version (some v) (r, e) = (record r { msg = record r.msg { version = v } }, e)

-- `on_response_...`; `atoi` of the C library is a parameter.
unfoldable pub on_response : (Bytes → ℕ) → ResponseEvent → HttpResponse × ℕ → HttpResponse × ℕ
unfolding version_of
on_response atoi (response_reason at n) (r, e) = (record r { reason = take n at }, e)
on_response atoi (response_status at n) (r, e) = (record r { status = atoi at }, e)
on_response atoi (response_chunk at n) (r, e) = (r, e)
on_response atoi (response_version at n) (r, e) = on_response_version (version_of at n) (r, e)
on_response atoi (response_header_done at n) (r, e) = (r, e)
on_response atoi (response_last_chunk at n) (r, e) = (r, e)
on_response atoi (response_http_field field flen value vlen) (r, e) =
    if flen == 0
    then (r, e)
    else (record r { msg = add_header_key (take flen field) (take vlen value) r.msg }, e)

unfoldable pub on_responses : (Bytes → ℕ) → List ResponseEvent → HttpResponse × ℕ → HttpResponse × ℕ
unfolding on_response
on_responses atoi [] x = x
on_responses atoi (v ∷ vs) x = on_responses atoi vs (on_response atoi v x)

module _ {P : Type 0} (engine : Engine P RequestEvent) where
  unfoldable pub request_parser : HttpRequestParser P
  request_parser = record { parser = engine.init; request = http_request 0x11 false; error = 0 }

  -- `execute` on the bytes of the buffer: how many were taken, and the bytes that are left.
  unfoldable pub execute_request : HttpRequestParser P → Bytes → HttpRequestParser P × ℕ × Bytes
  unfolding on_requests
  execute_request p text =
      let (q, offset, events) = engine.execute p.parser text in
      let (r, e) = on_requests events (p.request, p.error) in
      (record { parser = q; request = r; error = e }, offset, drop offset text)

  unfoldable pub request_finished : HttpRequestParser P → Bool
  request_finished p = engine.finish p.parser

  unfoldable pub request_has_error : HttpRequestParser P → Bool
  request_has_error p = not (p.error == 0) || engine.has_error p.parser

module _ {P : Type 0} (engine : Engine P ResponseEvent) where
  pub response_parser : HttpResponseParser P
  response_parser = record { parser = engine.init; response = http_response 0x11 true; error = 0 }

  pub execute_response :
      (Bytes → ℕ) → HttpResponseParser P → Bytes → Bool → HttpResponseParser P × ℕ × Bytes
  unfolding on_responses
  execute_response atoi p text chunck =
      let (q, offset, events) = engine.execute (if chunck then engine.init else p.parser) text in
      let (r, e) = on_responses atoi events (p.response, p.error) in
      (record { parser = q; response = r; error = e }, offset, drop offset text)

  pub response_finished : HttpResponseParser P → Bool
  response_finished p = engine.finish p.parser

  pub response_has_error : HttpResponseParser P → Bool
  response_has_error p = not (p.error == 0) || engine.has_error p.parser

-- `getContentLength`; `boost::lexical_cast<uint64_t>` is a parameter, none where it throws.
unfoldable pub request_content_length :
    {P : Type 0} → (Bytes → Option ℕ) → HttpRequestParser P → Option ℕ
request_content_length lexical_cast p =
    lexical_cast (get_header_value (codes "Content-Length") p.request.msg)

pub response_content_length : {P : Type 0} → (Bytes → Option ℕ) → HttpResponseParser P → Option ℕ
response_content_length lexical_cast p =
    lexical_cast (get_header_value (codes "content-length") p.response.msg)
