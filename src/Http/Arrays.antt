-- ===== src/Http/Arrays.antt =====
-- http/httpaa_arrays.h: the words of the grammar, and the places of the headers.
use httpaa.Base.{ℕ, List, [], ◌∷◌, texts}

abbrev pub method_array : List (List ℕ)
method_array =
    texts ("OPTIONS" ∷ "GET" ∷ "HEAD" ∷ "POST" ∷ "PUT" ∷ "DELETE" ∷ "TRACE" ∷ "CONNECT" ∷ [])

abbrev pub general_header_array : List (List ℕ)
general_header_array = texts (
    "cache-control" ∷ "connection" ∷ "date" ∷ "pragma" ∷ "trailer" ∷ "transfer-encoding" ∷ "upgrade"
    ∷ "via" ∷ "warning" ∷ [])

abbrev pub request_header_array : List (List ℕ)
request_header_array = texts (
    "accept" ∷ "accept-charset" ∷ "accept-encoding" ∷ "accept-language" ∷ "authorization" ∷ "expect"
    ∷ "from" ∷ "host" ∷ "if-match" ∷ "if-modified-since" ∷ "if-none-match" ∷ "if-range"
    ∷ "if-unmodified-since" ∷ "max-forwards" ∷ "proxy-authorization" ∷ "range" ∷ "referer" ∷ "te"
    ∷ "user-agent" ∷ [])

abbrev pub entity_header_array : List (List ℕ)
entity_header_array = texts (
    "allow" ∷ "content-encoding" ∷ "content-language" ∷ "content-length" ∷ "content-location"
    ∷ "content-md5" ∷ "content-range" ∷ "content-type" ∷ "expires" ∷ "last-modified" ∷ [])

abbrev pub response_header_array : List (List ℕ)
response_header_array = texts (
    "accept-ranges" ∷ "age" ∷ "etag" ∷ "location" ∷ "proxy-authenticate" ∷ "retry-after" ∷ "server"
    ∷ "vary" ∷ "www-authenticate" ∷ [])

-- HTTP11_GENERAL_HEADER_ARRAY_START and its kin.
abbrev pub general_header_start : ℕ
general_header_start = 0

abbrev pub entity_header_start : ℕ
entity_header_start = 9

abbrev pub request_header_start : ℕ
request_header_start = 19

abbrev pub response_header_start : ℕ
response_header_start = 19

abbrev pub cache_request_directive_array : List (List ℕ)
cache_request_directive_array = texts (
    "no-cache" ∷ "no-store" ∷ "max-age" ∷ "max-stale" ∷ "min-fresh" ∷ "no-transform"
    ∷ "only-if-cached" ∷ [])

abbrev pub cache_response_directive_array : List (List ℕ)
cache_response_directive_array = texts (
    "public" ∷ "private" ∷ "no-cache" ∷ "no-store" ∷ "no-transform" ∷ "must-revalidate"
    ∷ "proxy-revalidate" ∷ "max-age" ∷ "s-maxage" ∷ [])

abbrev pub pragma_directive_array : List (List ℕ)
pragma_directive_array = texts ("no-cache" ∷ [])

abbrev pub transfer_coding_array : List (List ℕ)
transfer_coding_array = texts ("chunked" ∷ "identity" ∷ "gzip" ∷ "compress" ∷ "deflate" ∷ [])

abbrev pub date_wkday_array : List (List ℕ)
date_wkday_array = texts ("Mon" ∷ "Tue" ∷ "Wed" ∷ "Thu" ∷ "Fri" ∷ "Sat" ∷ "Sun" ∷ [])

abbrev pub date_weekday_array : List (List ℕ)
date_weekday_array =
    texts ("Monday" ∷ "Tuesday" ∷ "Wednesday" ∷ "Thursday" ∷ "Friday" ∷ "Saturday" ∷ "Sunday" ∷ [])

abbrev pub date_month_array : List (List ℕ)
date_month_array = texts (
    "Jan" ∷ "Feb" ∷ "Mar" ∷ "Apr" ∷ "May" ∷ "Jun" ∷ "Jul" ∷ "Aug" ∷ "Sep" ∷ "Oct" ∷ "Nov" ∷ "Dec"
    ∷ [])
