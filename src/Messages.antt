-- ===== src/Messages.antt =====
-- `HttpMsg`, `HttpRequest` and `HttpResponse` of ttw/http/http.h and http.cc.
-- A `MapType` is the list of its pairs in the order of `caseInsensitiveLess`. What `Time2Str` gives for a time
-- is the parameter `time_to_str`. The print of a number is that of the streams, as for JSON.
pub mod Names
pub mod Headers
pub mod Query
mod Tests
use ttw.Prelude.{
  ℕ, suc, ◌+◌, ◌*◌, ◌/◌, ◌%◌, ◌≤◌, Bool, true, false, ◌&&◌, Option, none, some, List, [], ◌∷◌, ◌++◌,
  ltb, leb, ◌==◌, if◌then◌else◌, length,
}
use ttw.Prelude.Text.{Bytes, codes, eq_bytes, less_bytes}
use ttw.Json.Print.{show_nat}
use Names.{c_str, http_method_to_string, http_status_to_string}

-- `std::tolower` in the C locale.
abbrev pub lower : Bytes → Bytes
lower [] = []
lower (c ∷ cs) = (if leb b'A' c && leb c b'Z' then c + 32 else c) ∷ lower cs

-- `caseInsensitiveLess`, and the keys that it takes for the same.
pub key_less : Bytes → Bytes → Bool
unfolding less_bytes
key_less a b = less_bytes (lower a) (lower b)

abbrev pub same_key : Bytes → Bytes → Bool
same_key a b = eq_bytes (lower a) (lower b)

abbrev pub MapType : Type 0
MapType = List (Bytes × Bytes)

pub look_up : Bytes → MapType → Option Bytes
look_up k [] = none
look_up k ((j, v) ∷ m) = if same_key j k then some v else look_up k m

-- `map[key] = value`: a key that is there keeps its spelling.
pub put : Bytes → Bytes → MapType → MapType
unfolding key_less
put k v [] = (k, v) ∷ []
put k v ((j, w) ∷ m) =
    if same_key j k
    then (j, v) ∷ m
    else if key_less k j
    then (k, v) ∷ (j, w) ∷ m
    else (j, w) ∷ put k v m

pub get_value : MapType → Bytes → Bytes
unfolding look_up
get_value m key = elim (look_up key m) [ none ↦ codes "0" | some v ↦ v ]

pub set_value : MapType → Bytes → Bytes → MapType
unfolding look_up put
set_value m key value = elim (look_up key m) [ none ↦ m | some _ ↦ put key value m ]

pub erase : Bytes → MapType → MapType
erase k [] = []
erase k ((j, w) ∷ m) = if same_key j k then m else (j, w) ∷ erase k m

pub record HttpMsg : Type 0 where
  pub version : ℕ
  pub close : Bool
  pub body : Bytes
  pub headers : MapType
  pub cookies : MapType

pub http_msg : ℕ → Bool → HttpMsg
http_msg v c = record { version = v; close = c; body = []; headers = []; cookies = [] }

pub set_header_value : Bytes → Bytes → HttpMsg → HttpMsg
unfolding set_value
set_header_value key value r = record r { headers = set_value r.headers key value }

pub get_header_value : Bytes → HttpMsg → Bytes
unfolding get_value
get_header_value key r = get_value r.headers key

pub set_cookie_value : Bytes → Bytes → HttpMsg → HttpMsg
unfolding set_value
set_cookie_value key value r = record r { cookies = set_value r.cookies key value }

pub get_cookie_value : Bytes → HttpMsg → Bytes
unfolding get_value
get_cookie_value key r = get_value r.cookies key

pub add_header_key : Bytes → Bytes → HttpMsg → HttpMsg
unfolding put
add_header_key key value r = record r { headers = put key value r.headers }

pub del_header_key : Bytes → HttpMsg → HttpMsg
unfolding erase
del_header_key key r = record r { headers = erase key r.headers }

pub add_cookie_key : Bytes → Bytes → HttpMsg → HttpMsg
unfolding put
add_cookie_key key value r = record r { cookies = put key value r.cookies }

pub del_cookie_key : Bytes → HttpMsg → HttpMsg
unfolding erase
del_cookie_key key r = record r { cookies = erase key r.cookies }

pub record HttpRequest : Type 0 where
  pub msg : HttpMsg
  pub method : ℕ
  pub path : Bytes
  pub query : MapType

pub http_request : ℕ → Bool → HttpRequest
unfolding http_msg
http_request v c = record { msg = http_msg v c; method = 1; path = codes "/"; query = [] }

-- The pieces that `std::getline` gives at each `&`.
pub pieces : Bytes → List Bytes
pieces [] = []
pieces (c ∷ cs) =
    let more = pieces cs in
    if c == b'&' then [] ∷ more else elim more [ [] ↦ (c ∷ []) ∷ [] | p ∷ ps ↦ (c ∷ p) ∷ ps ]

-- What stands before and behind the first `=`.
pub split_pair : Bytes → Option (Bytes × Bytes)
split_pair [] = none
split_pair (c ∷ cs) =
    let more = split_pair cs in
    if c == b'=' then some ([], cs) else elim more [ none ↦ none | some (k, v) ↦ some (c ∷ k, v) ]

pub put_pieces : List Bytes → MapType → MapType
unfolding split_pair put
put_pieces [] m = m
put_pieces (p ∷ ps) m = elim (split_pair p) [
  | none ↦ put_pieces ps m
  | some (k, v) ↦ put_pieces ps (put k v m)
]

pub set_query : Bytes → HttpRequest → HttpRequest
unfolding pieces put_pieces
set_query text r = record r { query = put_pieces (pieces text) r.query }

pub get_query : Bytes → Bytes → HttpRequest → Bytes
unfolding look_up
get_query key def r = elim (look_up key r.query) [ none ↦ def | some v ↦ v ]

-- The query in `HttpRequest::toString`; the flag is `nofirst`.
pub query_text : Bool → MapType → Bytes
query_text nofirst [] = []
query_text nofirst ((k, v) ∷ m) =
    (if nofirst then b'&' ∷ [] else []) ++ (k ++ (b'=' ∷ (v ++ query_text true m)))

abbrev pub crlf : Bytes
crlf = 13 ∷ 10 ∷ []

-- `strcasecmp(a, b) == 0`
abbrev pub same_ignoring_case : Bytes → Bytes → Bool
same_ignoring_case a b = same_key (c_str a) (c_str b)

pub header_lines : MapType → Bytes
unfolding c_str
header_lines [] = []
header_lines ((k, v) ∷ m) =
    let more = header_lines m in
    if same_ignoring_case k (codes "connection")
    then more
    else k ++ (codes ": " ++ (v ++ (crlf ++ more)))

pub version_text : ℕ → Bytes
unfolding show_nat
version_text v = codes "HTTP/" ++ (show_nat (v / 16) ++ (b'.' ∷ show_nat (v % 16)))

pub body_text : Bytes → Bytes
unfolding show_nat
body_text [] = crlf
body_text (c ∷ cs) =
    codes "content-length: " ++ (show_nat (suc (length cs)) ++ (crlf ++ (crlf ++ (c ∷ cs))))

pub request_to_string : HttpRequest → Bytes
unfolding http_method_to_string query_text header_lines version_text body_text
request_to_string r =
    http_method_to_string r.method
    ++ (b' '
        ∷ (r.path
            ++ ((elim r.query [ [] ↦ [] | _ ∷ _ ↦ b'?' ∷ query_text false r.query ])
                ++ (b' '
                    ∷ (version_text r.msg.version
                        ++ (crlf ++ (header_lines r.msg.headers ++ body_text r.msg.body)))))))

abbrev is_empty : Bytes → Bool
is_empty [] = true
is_empty _ = false

-- `HttpRequest::init`
pub init : HttpRequest → HttpRequest
unfolding get_header_value c_str
init r =
    let conn = get_header_value (codes "connection") r.msg in
    if is_empty conn then r else record r {
      msg = record r.msg {
        close = if same_ignoring_case conn (codes "keep-alive") then false else true;
      };
    }

pub record HttpResponse : Type 0 where
  pub msg : HttpMsg
  pub status : ℕ
  pub reason : Bytes
  pub cookies_v : List Bytes

pub http_response : ℕ → Bool → HttpResponse
unfolding http_msg add_header_key
http_response v c = record {
  msg = add_header_key (codes "Server") (codes "ttw/1.0.0") (http_msg v c);
  status = 200;
  reason = [];
  cookies_v = [];
}

pub cookie_lines : List Bytes → Bytes
cookie_lines [] = []
cookie_lines (c ∷ cs) = codes "Set-Cookie: " ++ (c ++ (crlf ++ cookie_lines cs))

pub response_to_string : HttpResponse → Bytes
unfolding http_status_to_string header_lines version_text cookie_lines body_text show_nat
response_to_string r =
    version_text r.msg.version
    ++ (b' '
        ∷ (show_nat r.status
            ++ (b' '
                ∷ ((if is_empty r.reason then http_status_to_string r.status else r.reason)
                    ++ (crlf
                        ++ (header_lines r.msg.headers
                            ++ (cookie_lines r.cookies_v
                                ++ (codes "connection: "
                                    ++ ((if r.msg.close then codes "close" else codes "keep-alive")
                                        ++ (crlf ++ body_text r.msg.body))))))))))

abbrev part : Bytes → Bytes → Bytes
part name [] = []
part name v = name ++ v

-- `setCookie`; a time that is not positive is 0 here.
pub set_cookie :
    (ℕ → Bytes) → Bytes → Bytes → ℕ → Bytes → Bytes → Bool → HttpResponse → HttpResponse
set_cookie time_to_str key val expired path domain secure r = record r {
  cookies_v =
      r.cookies_v
      ++ (((if is_empty key then val else key ++ (b'=' ∷ val))
            ++ ((if expired == 0
                  then []
                  else codes ";expires=" ++ (time_to_str expired ++ codes " GMT"))
                ++ (part (codes ";domain=") domain
                    ++ (part (codes ";path=") path ++ (if secure then codes ";secure" else [])))))
          ∷ []);
}

pub redirect : Bytes → HttpResponse → HttpResponse
unfolding add_header_key
redirect addr r = record r { status = 302; msg = add_header_key (codes "Location") addr r.msg }
