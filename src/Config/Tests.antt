-- ===== src/Config/Tests.antt =====
-- `Config::loadMap` (ttw/config.cc) on a small text.
use ttw.Prelude.{ℕ, []}
use ttw.Prelude.Int.{pos}
use ttw.Prelude.Text.{Bytes, codes}
use ttw.Json.Value.{Json, object, string, int, end, field}

abbrev no_digits : ℕ → Bytes
no_digits n = []

-- {"log": "true", "http": {"port": 80}}
abbrev settings : Json
settings = object (
    field (codes "log") (string (codes "true"))
      (field (codes "http") (object (field (codes "port") (int (pos 80)) end)) end))
