-- ===== src/Http/LineMoves.antt =====
-- How the rules of the request line move the read position, and that they store no header.
use httpaa.Base.{
  ℕ, zero, suc, ◌+◌, ◌≤◌, ◌≡◌, refl, ◌∙◌, true, false, Option, none, some, arith, codes, sym,
}
use mathlib.Core.Bool.{false≢true}
use httpaa.Stringaa.Defs.{Stringaa, next_read_pos}
use httpaa.Stringaa.Store.{Position, set_substring}
use httpaa.Stringaa.Moved.{Moved, Moves, Moves-refl, Moves-trans, next_read_pos-Moves}
use httpaa.Uri.Defs.{Uriaa, Part}
use httpaa.Uri.Frame.{Within}
use httpaa.Uri.Frame.Reference.{check_url-Keeps}
use httpaa.Http.Keyword.{upper, match_word}
use httpaa.Http.Arrays.{method_array}
use httpaa.Http.Defs.{Httpaa}
use httpaa.Http.RequestLine.{
  Parsed, method, request_uri, digits_loop, version_number, http_version, then_parse, space_rule,
  crlf_rule, request_line, major_number, minor_number, or_rewind,
}
use httpaa.Http.Moves.{crlf-Moves, match_word-Moves, match_words-Moves}

-- The string of the URI is empty, and no field of it is set.
pub record IsUnset (u : Uriaa) : Type 0 where
  pub read_pos : u.uri.read_pos ≡ 0
  pub write_pos : u.uri.write_pos ≡ 0
  pub parts : (k : Part) → (u.parts k).is_init ≡ false

-- What a rule of the request line keeps.
pub record LineKept (http : Httpaa) (s : Stringaa) (r : Parsed) : Type 0 where
  pub moved : Moved s r.2
  pub header : r.1.header ≡ http.header

method-LineKept :
    (http : Httpaa) (s : Stringaa)
    → s.read_pos ≤ s.write_pos
    → LineKept http s (method http s) × ((method http s).1.request_uri ≡ http.request_uri)
unfolding method
method-LineKept http s h = ground (arith, match_words-Moves upper method_array 0 s h)

space_rule-LineKept :
    (http : Httpaa) (s : Stringaa)
    → s.read_pos ≤ s.write_pos
    → LineKept http s (space_rule http s) × ((space_rule http s).1.request_uri ≡ http.request_uri)
space_rule-LineKept http s h = ground (arith, next_read_pos-Moves s h, Moves-refl s h)

linked-Within :
    (u : Uriaa) (s : Stringaa)
    → IsUnset u
    → s.read_pos ≤ s.write_pos
    → Within (record u { uri = (set_substring u.uri s Position.read_flag Position.write_flag).1 })
unfolding set_substring
linked-Within u s free h = record {
  cursor = ground arith;
  slices = λ k e. absurd (false≢true (sym (free.parts k) ∙ e));
}

request_uri-LineKept :
    (http : Httpaa) (s : Stringaa)
    → IsUnset http.request_uri
    → s.read_pos ≤ s.write_pos
    → LineKept http s (request_uri http s)
unfolding request_uri set_substring
request_uri-LineKept http s free h =
    let u = http.request_uri in
    let kept =
      check_url-Keeps
        (record u { uri = (set_substring u.uri s Position.read_flag Position.write_flag).1 })
        (linked-Within u s free h) in
    let m = kept.moved in ground arith

digits_loop-Moves : (fuel n : ℕ) (s : Stringaa) → Moves s (digits_loop fuel n s).1
unfolding digits_loop
digits_loop-Moves zero n s h = Moves-refl s h
digits_loop-Moves (suc fuel) n s h =
    let s1 = (next_read_pos s).1 in
    let all =
      Moves-trans s s1 (digits_loop fuel (n + 1) s1).1 (next_read_pos-Moves s)
        (digits_loop-Moves fuel (n + 1) s1) in
    ground (arith, Moves-refl s h, all h)

-- The string behind a number, if there is one.
abbrev Behind : Stringaa → Option (ℕ × ℕ × Stringaa) → Type 0
Behind s none = Unit {0}
Behind s (some (pos, size, s1)) = Moved s s1

version_number-Behind : (s : Stringaa) → s.read_pos ≤ s.write_pos → Behind s (version_number s)
unfolding version_number
version_number-Behind s h =
    let s1 = (next_read_pos s).1 in
    let all =
      Moves-trans s s1 (digits_loop (suc s.write_pos) 1 s1).1 (next_read_pos-Moves s)
        (digits_loop-Moves (suc s.write_pos) 1 s1) in
    ground (arith, all h)

minor_number-LineKept :
    (http : Httpaa) (pos1 size1 : ℕ) (s0 s : Stringaa) (o : Option (ℕ × ℕ × Stringaa))
    → s0.read_pos ≤ s0.write_pos
    → Moved s0 s
    → Behind s o
    → LineKept http s0 (minor_number http s0.read_pos pos1 size1 s o)
minor_number-LineKept http pos1 size1 s0 s none h m b = ground arith
minor_number-LineKept http pos1 size1 s0 s (some (pos2, size2, s2)) h m b = record {
  moved = Moves-trans s0 s s2 (λ _. m) (λ _. b) h;
  header = refl;
}

major_number-LineKept :
    (http : Httpaa) (s0 s : Stringaa) (o : Option (ℕ × ℕ × Stringaa))
    → s0.read_pos ≤ s0.write_pos
    → Moved s0 s
    → Behind s o
    → LineKept http s0 (major_number http s0.read_pos s o)
major_number-LineKept http s0 s none h m b = ground arith
major_number-LineKept http s0 s (some (pos1, size1, s1)) h m b =
    let s2 = (next_read_pos s1).1 in
    let m2 =
      Moves-trans s0 s1 s2 (λ _. Moves-trans s0 s s1 (λ _. m) (λ _. b) h) (next_read_pos-Moves s1)
        h in
    let minor =
      minor_number-LineKept http pos1 size1 s0 s2 (version_number s2) h m2
        (version_number-Behind s2 m2.within) in
    ground (arith, m, b, minor)

http_version-LineKept :
    (http : Httpaa) (s : Stringaa)
    → s.read_pos ≤ s.write_pos
    → LineKept http s (http_version http s)
unfolding http_version
http_version-LineKept http s h =
    let s1 = (match_word upper (codes "HTTP/") s).1 in
    let m = match_word-Moves upper (codes "HTTP/") s h in
    ground (
      arith,
      m,
      major_number-LineKept http s s1 (version_number s1) h m (version_number-Behind s1 m.within),
    )

crlf_rule-LineKept :
    (http : Httpaa) (s : Stringaa) → s.read_pos ≤ s.write_pos → LineKept http s (crlf_rule http s)
crlf_rule-LineKept http s h = record { moved = crlf-Moves s h; header = refl }

then_parse-LineKept :
    (http : Httpaa) (s : Stringaa) (r : Parsed) (rule : Httpaa → Stringaa → Parsed)
    → s.read_pos ≤ s.write_pos
    → LineKept http s r
    → (r.2.read_pos ≤ r.2.write_pos → LineKept r.1 r.2 (rule r.1 r.2))
    → LineKept http s (then_parse r rule)
then_parse-LineKept http s (true, http', s') rule h k f =
    let k' = f k.moved.within in
    record {
      moved = Moves-trans s s' (rule http' s').2 (λ _. k.moved) (λ _. k'.moved) h;
      header = k'.header ∙ k.header;
    }
then_parse-LineKept http s (false, http', s') rule h k f = k

then_space-request_uri : (r : Parsed) → (then_parse r space_rule).1.request_uri ≡ r.1.request_uri
then_space-request_uri (true, http, s) = ground arith
then_space-request_uri (false, http, s) = refl

or_rewind-LineKept :
    (http : Httpaa) (s : Stringaa) (r : Parsed)
    → s.read_pos ≤ s.write_pos
    → LineKept http s r
    → LineKept http s (or_rewind s.read_pos r)
or_rewind-LineKept http s (true, http', s') h k = k
or_rewind-LineKept http s (false, http', s') h k = ground (arith, k.moved)

-- The request line moves the read position on inside the bounds, and stores no header.
pub request_line-LineKept :
    (http : Httpaa) (s : Stringaa)
    → IsUnset http.request_uri
    → s.read_pos ≤ s.write_pos
    → LineKept http s (request_line http s)
unfolding request_line
request_line-LineKept http s free h =
    let r1 = method http s in
    let r2 = then_parse r1 space_rule in
    let r3 = then_parse r2 request_uri in
    let r4 = then_parse r3 space_rule in
    let r5 = then_parse r4 http_version in
    let (k1, same) = method-LineKept http s h in
    let free2 : IsUnset r2.1.request_uri = rw (then_space-request_uri r1, same) free in
    let k2 =
      then_parse-LineKept http s r1 space_rule h k1 (λ le. (space_rule-LineKept r1.1 r1.2 le).0) in
    let k3 =
      then_parse-LineKept http s r2 request_uri h k2 (request_uri-LineKept r2.1 r2.2 free2) in
    let k4 =
      then_parse-LineKept http s r3 space_rule h k3 (λ le. (space_rule-LineKept r3.1 r3.2 le).0) in
    let k5 = then_parse-LineKept http s r4 http_version h k4 (http_version-LineKept r4.1 r4.2) in
    or_rewind-LineKept http s (then_parse r5 crlf_rule) h
      (then_parse-LineKept http s r5 crlf_rule h k5 (crlf_rule-LineKept r5.1 r5.2))
