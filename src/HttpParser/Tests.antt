-- ===== src/HttpParser/Tests.antt =====
-- The callbacks of ttw/http/http_parser.cc on small events.
use ttw.Prelude.{◌≡◌, refl, false, none, some, List, [], ◌∷◌, arith, if◌then◌else◌, take}
use ttw.Prelude.Text.{codes, eq_bytes}
use ttw.Messages.{http_request, look_up}
use ttw.HttpParser.{
  RequestEvent, request_version, request_http_field, on_requests, version_of, strncmp,
}
use ttw.HttpParser.Versions.{NoNul, version_of_lem}
use ttw.HttpParser.Fields.{last_field, on_requests-last_field}

-- A text that only begins the name is taken for it.
short_version : version_of (codes "HTTP/") 5 ≡ some 0x11
unfolding version_of strncmp
short_version = refl

text : NoNul (codes "HTTP/1.0xy")
text = (refl, (refl, (refl, (refl, (refl, (refl, (refl, (refl, (refl, (refl, tt))))))))))

version_of_lem_example : version_of (codes "HTTP/1.0xy") 8 ≡ (
    if eq_bytes (take 8 (codes "HTTP/1.0xy")) (codes "HTTP/1.1")
    then some 0x11
    else if eq_bytes (take 8 (codes "HTTP/1.0xy")) (codes "HTTP/1.0")
    then some 0x10
    else none)
version_of_lem_example = version_of_lem 8 (codes "HTTP/1.0xy") (omega arith) (omega arith) text

abbrev seen : List RequestEvent
seen =
    request_http_field (codes "Host: a") 4 (codes "a") 1
    ∷ request_version (codes "HTTP/2.0") 8
    ∷ request_http_field (codes "HOST: b") 4 (codes "b") 1
    ∷ []

on_requests-last_field_example :
    look_up (codes "host") (on_requests seen (http_request 0x11 false, 0)).0.msg.headers
    ≡ last_field (codes "host") seen (look_up (codes "host") (http_request 0x11 false).msg.headers)
on_requests-last_field_example =
    on_requests-last_field (codes "host") seen (http_request 0x11 false) 0
