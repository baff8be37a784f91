-- ===== src/Messages/Names.antt =====
-- The methods and the status codes of ttw/http/http.h, and their texts (ttw/http/http.cc). A method is its number.
use ttw.Prelude.{
  ℕ, zero, suc, ◌<◌, ◌≡◌, refl, Bool, true, false, ◌&&◌, not, ◌||◌, none, some, List, [], ◌∷◌,
  arith, if◌then◌else◌, ◌==◌, length, ap, ◌∙◌,
}
use ttw.Prelude.Text.{Bytes, codes, eq_bytes, eq_bytes_iff, eq_bytes_self}
use ttw.Prelude.Dict.{find, nat_key}

abbrev pub method_names : List Bytes
method_names =
    codes "DELETE"
    ∷ codes "GET"
    ∷ codes "HEAD"
    ∷ codes "POST"
    ∷ codes "PUT"
    ∷ codes "CONNECT"
    ∷ codes "OPTIONS"
    ∷ codes "TRACE"
    ∷ codes "COPY"
    ∷ codes "LOCK"
    ∷ codes "MKCOL"
    ∷ codes "MOVE"
    ∷ codes "PROPFIND"
    ∷ codes "PROPPATCH"
    ∷ codes "SEARCH"
    ∷ codes "UNLOCK"
    ∷ codes "BIND"
    ∷ codes "REBIND"
    ∷ codes "UNBIND"
    ∷ codes "ACL"
    ∷ codes "REPORT"
    ∷ codes "MKACTIVITY"
    ∷ codes "CHECKOUT"
    ∷ codes "MERGE"
    ∷ codes "M-SEARCH"
    ∷ codes "NOTIFY"
    ∷ codes "SUBSCRIBE"
    ∷ codes "UNSUBSCRIBE"
    ∷ codes "PATCH"
    ∷ codes "PURGE"
    ∷ codes "MKCALENDAR"
    ∷ codes "LINK"
    ∷ codes "UNLINK"
    ∷ codes "SOURCE"
    ∷ []

abbrev pub status_names : List (ℕ × Bytes)
status_names =
    (100, codes "Continue")
    ∷ (101, codes "Switching Protocols")
    ∷ (102, codes "Processing")
    ∷ (200, codes "OK")
    ∷ (201, codes "Created")
    ∷ (202, codes "Accepted")
    ∷ (203, codes "Non-Authoritative Information")
    ∷ (204, codes "No Content")
    ∷ (205, codes "Reset Content")
    ∷ (206, codes "Partial Content")
    ∷ (207, codes "Multi-Status")
    ∷ (208, codes "Already Reported")
    ∷ (226, codes "IM Used")
    ∷ (300, codes "Multiple Choices")
    ∷ (301, codes "Moved Permanently")
    ∷ (302, codes "Found")
    ∷ (303, codes "See Other")
    ∷ (304, codes "Not Modified")
    ∷ (305, codes "Use Proxy")
    ∷ (307, codes "Temporary Redirect")
    ∷ (308, codes "Permanent Redirect")
    ∷ (400, codes "Bad Request")
    ∷ (401, codes "Unauthorized")
    ∷ (402, codes "Payment Required")
    ∷ (403, codes "Forbidden")
    ∷ (404, codes "Not Found")
    ∷ (405, codes "Method Not Allowed")
    ∷ (406, codes "Not Acceptable")
    ∷ (407, codes "Proxy Authentication Required")
    ∷ (408, codes "Request Timeout")
    ∷ (409, codes "Conflict")
    ∷ (410, codes "Gone")
    ∷ (411, codes "Length Required")
    ∷ (412, codes "Precondition Failed")
    ∷ (413, codes "Payload Too Large")
    ∷ (414, codes "URI Too Long")
    ∷ (415, codes "Unsupported Media Type")
    ∷ (416, codes "Range Not Satisfiable")
    ∷ (417, codes "Expectation Failed")
    ∷ (421, codes "Misdirected Request")
    ∷ (422, codes "Unprocessable Entity")
    ∷ (423, codes "Locked")
    ∷ (424, codes "Failed Dependency")
    ∷ (426, codes "Upgrade Required")
    ∷ (428, codes "Precondition Required")
    ∷ (429, codes "Too Many Requests")
    ∷ (431, codes "Request Header Fields Too Large")
    ∷ (451, codes "Unavailable For Legal Reasons")
    ∷ (500, codes "Internal Server Error")
    ∷ (501, codes "Not Implemented")
    ∷ (502, codes "Bad Gateway")
    ∷ (503, codes "Service Unavailable")
    ∷ (504, codes "Gateway Timeout")
    ∷ (505, codes "HTTP Version Not Supported")
    ∷ (506, codes "Variant Also Negotiates")
    ∷ (507, codes "Insufficient Storage")
    ∷ (508, codes "Loop Detected")
    ∷ (510, codes "Not Extended")
    ∷ (511, codes "Network Authentication Required")
    ∷ []

-- The bytes of `c_str()` that `strcmp` reads.
unfoldable pub c_str : Bytes → Bytes
c_str [] = []
c_str (c ∷ cs) = if c == 0 then [] else c ∷ c_str cs

-- The first name that is equal; behind the last one is the number of names.
unfoldable pub index_of : Bytes → List Bytes → ℕ
index_of m [] = 0
index_of m (n ∷ ns) = if eq_bytes n m then 0 else suc (index_of m ns)

-- `StringToHttpMethod`; `INVALID_METHOD` is the number behind the last method.
pub string_to_http_method : Bytes → ℕ
unfolding c_str index_of
string_to_http_method m = index_of (c_str m) method_names

-- `strncmp` of a name and a text, over the length of the name.
pub is_prefix : Bytes → Bytes → Bool
is_prefix [] m = true
is_prefix (x ∷ xs) [] = false
is_prefix (x ∷ xs) (y ∷ ys) = (x == y) && is_prefix xs ys

pub first_prefix : Bytes → List Bytes → ℕ
unfolding is_prefix
first_prefix m [] = 0
first_prefix m (n ∷ ns) = if is_prefix n m then 0 else suc (first_prefix m ns)

-- `CharsToHttpMethod`
unfoldable pub chars_to_http_method : Bytes → ℕ
unfolding c_str first_prefix
chars_to_http_method m = first_prefix (c_str m) method_names

pub name_at : ℕ → List Bytes → Bytes
name_at i [] = codes "<unknown>"
name_at zero (n ∷ ns) = n
name_at (suc i) (n ∷ ns) = name_at i ns

unfoldable pub http_method_to_string : ℕ → Bytes
unfolding name_at
http_method_to_string m = name_at m method_names

unfoldable pub http_status_to_string : ℕ → Bytes
unfolding find
http_status_to_string s = elim (find s status_names) [ none ↦ codes "<unknown>" | some text ↦ text ]

-- The names differ, and none holds a NUL.
among : Bytes → List Bytes → Bool
among m [] = false
among m (n ∷ ns) = eq_bytes m n || among m ns

distinct : List Bytes → Bool
unfolding among
distinct [] = true
distinct (n ∷ ns) = not (among n ns) && distinct ns

plain : List Bytes → Bool
unfolding c_str
plain [] = true
plain (n ∷ ns) = eq_bytes (c_str n) n && plain ns

name_at-among : (i : ℕ) (ns : List Bytes) → i < length ns → among (name_at i ns) ns ≡ true
unfolding name_at among
name_at-among i [] h = absurd (omega arith)
name_at-among zero (n ∷ ns) h = ground (arith, eq_bytes_self n)
name_at-among (suc i) (n ∷ ns) h = ground (arith, name_at-among i ns (omega (arith, h)))

index_of-name_at :
    (i : ℕ) (ns : List Bytes) → distinct ns ≡ true → i < length ns → index_of (name_at i ns) ns ≡ i
unfolding distinct index_of name_at
index_of-name_at i [] d h = absurd (omega arith)
index_of-name_at zero (n ∷ ns) d h = ground (arith, eq_bytes_self n)
index_of-name_at (suc i) (n ∷ ns) d h = ground (
  arith,
  index_of-name_at i ns (ground (arith, d)) (omega (arith, h)),
  eq_bytes_iff n (name_at i ns),
  name_at-among i ns (omega (arith, h)),
  d,
)

c_str-name_at :
    (i : ℕ) (ns : List Bytes)
    → plain ns ≡ true
    → i < length ns
    → c_str (name_at i ns) ≡ name_at i ns
unfolding plain name_at
c_str-name_at i [] d h = absurd (omega arith)
c_str-name_at zero (n ∷ ns) d h = ground (arith, d, eq_bytes_iff (c_str n) n)
c_str-name_at (suc i) (n ∷ ns) d h = c_str-name_at i ns (ground (arith, d)) (omega (arith, h))

-- Each of the methods is read back from its text.
pub string_to_http_method-http_method_to_string :
    (m : ℕ) → m < length method_names → string_to_http_method (http_method_to_string m) ≡ m
unfolding string_to_http_method http_method_to_string
string_to_http_method-http_method_to_string m h =
    ap (λ x. index_of x method_names)
      (c_str-name_at m method_names (unfold plain in unfold eq_bytes in refl) h)
    ∙ index_of-name_at m method_names (unfold distinct in unfold eq_bytes in refl) h
