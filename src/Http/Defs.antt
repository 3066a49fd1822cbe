-- ===== src/Http/Defs.antt =====
-- http/httpaa_structs.h: what the parser fills.
use httpaa.Base.{ℕ, ◌==◌, if◌then◌else◌}
use httpaa.Stringaa.Defs.{Stringaa, zeroed}
use httpaa.Uri.Defs.{Uriaa}

-- `struct http11_http_struct`, as far as the parser of a request fills it: the request line, and
-- the array of the headers as a function of the index.
pub record Httpaa : Type 0 where
  pub method : ℕ
  pub request_uri : Uriaa
  pub major_version : ℕ
  pub minor_version : ℕ
  pub header : ℕ → Stringaa

abbrev pub set_header : (ℕ → Stringaa) → ℕ → Stringaa → ℕ → Stringaa
set_header headers i s j = if j == i then s else headers j

-- The structure of zero bytes.
abbrev pub zeroed_httpaa : Httpaa
zeroed_httpaa = record {
  method = 0;
  request_uri = record { uri = zeroed; parts = λ _. zeroed };
  major_version = 0;
  minor_version = 0;
  header = λ _. zeroed;
}
