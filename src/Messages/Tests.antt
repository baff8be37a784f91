-- ===== src/Messages/Tests.antt =====
-- Prints of messages, and the theorems on them at concrete ones.
use ttw.Prelude.{◌≡◌, refl, true, false, [], ◌∷◌, ◌++◌}
use ttw.Prelude.Text.{Bytes, codes, eq_bytes}
use ttw.Messages.Names.{chars_to_http_method}
use ttw.Messages.{
  MapType, HttpMsg, http_msg, http_request, add_header_key, set_query, query_text,
  request_to_string,
}
use ttw.Messages.Query.{put_all, set_query-query_text}

abbrev crlf_crlf : Bytes
crlf_crlf = 13 ∷ 10 ∷ 13 ∷ 10 ∷ []

abbrev asked : MapType
asked = (codes "a", codes "1=2") ∷ (codes "b", []) ∷ []

print_request :
    request_to_string (set_query (codes "b=&a=1=2&junk") (http_request 17 false))
    ≡ codes "GET /?a=1=2&b= HTTP/1.1" ++ crlf_crlf
unfolding request_to_string set_query http_request eq_bytes
print_request = refl

method_text : chars_to_http_method (codes "POST /x") ≡ 3
unfolding chars_to_http_method
method_text = refl

abbrev served : HttpMsg
served = add_header_key (codes "Server") (codes "ttw") (http_msg 17 true)

set_query-query_text_example :
    (set_query (query_text false asked) (http_request 17 false)).query
    ≡ put_all asked (http_request 17 false).query
set_query-query_text_example =
    set_query-query_text asked (http_request 17 false) (refl, refl, refl, (refl, refl, refl, tt))
