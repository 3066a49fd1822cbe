-- ===== src/Http/Values.antt =====
-- Where the values that the rules of the headers store lie: they are parts of the request.
use httpaa.Base.{
  ℕ, ◌+◌, ◌≤◌, ◌≡◌, refl, ◌∙◌, true, false, List, Option, none, some, arith, ◌==◌, if◌then◌else◌,
  size_sub, Bool-cases, inl, inr,
}
use httpaa.Stringaa.Defs.{Stringaa}
use httpaa.Stringaa.Store.{set_chars_size}
use httpaa.Stringaa.Moved.{Moved, Moves-trans}
use httpaa.Uri.Defs.{pointer}
use httpaa.Uri.Frame.{IsPart}
use httpaa.Http.Lexer.{find_crlf}
use httpaa.Http.Defs.{Httpaa, set_header}
use httpaa.Http.RequestLine.{Parsed}
use httpaa.Http.Header.{
  match_names, header_end, message_header, general_header, request_header, entity_header,
}
use httpaa.Http.Request.{or_parse, any_header}
use httpaa.Http.Moves.{find_crlf-Moves, match_names-Moves}
use httpaa.Http.Arrays.{
  general_header_array, request_header_array, entity_header_array, general_header_start,
  request_header_start, entity_header_start,
}

-- Every header that is set is a part of the string.
abbrev pub HeldIn : Stringaa → (ℕ → Stringaa) → Type 0
HeldIn s headers = (i : ℕ) → IsPart s.buf s.write_pos (headers i)

-- What every rule keeps, from the headers and the string on.
abbrev pub RuleKeeps : (Httpaa → Stringaa → Parsed) → Type 0
RuleKeeps rule =
    (http : Httpaa) (s : Stringaa)
    → HeldIn s http.header
    → s.read_pos ≤ s.write_pos
    → Moved s (rule http s).2 × HeldIn s (rule http s).1.header

value-IsPart :
    (f : Stringaa) (buf : Option (List ℕ)) (pos size limit : ℕ)
    → IsPart buf limit f
    → pos + size ≤ limit
    → IsPart buf limit (set_chars_size f (pointer buf pos) size).1
unfolding set_chars_size
value-IsPart f none pos size limit p h = p
value-IsPart f (some l) pos size limit p h = elim (Bool-cases (size == 0)) [
  | inl e ↦ rw e p
  | inr e ↦ rw e (λ _. (pos, refl, h))
]

value_of-IsPart :
    (f : Stringaa) (buf buf' : Option (List ℕ)) (pos size limit : ℕ)
    → buf' ≡ buf
    → IsPart buf limit f
    → pos + size ≤ limit
    → IsPart buf limit (set_chars_size f (pointer buf' pos) size).1
value_of-IsPart f buf buf' pos size limit e p h = rw e (value-IsPart f buf pos size limit p h)

set_header-HeldIn :
    (s : Stringaa) (headers : ℕ → Stringaa) (i : ℕ) (value : Stringaa)
    → HeldIn s headers
    → IsPart s.buf s.write_pos value
    → HeldIn s (set_header headers i value)
set_header-HeldIn s headers i value held p j = elim (Bool-cases (j == i)) [
  | inl e ↦ rw e p
  | inr e ↦ rw e (held j)
]

header_end_keeps :
    (http : Httpaa) (start : ℕ) (s : Stringaa) (o : Option ℕ) (s1 : Stringaa)
    → HeldIn s http.header
    → Moved s s1
    → Moved s (header_end http start s.read_pos (o, s1)).2
      × HeldIn s (header_end http start s.read_pos (o, s1)).1.header
header_end_keeps http start s none s1 held m = (ground arith, held)
header_end_keeps http start s (some i) s1 held m =
    let (is_crlf, s2) = find_crlf s1 in
    let m2 = find_crlf-Moves s1 m.within in
    let size = size_sub (if is_crlf then s2.read_pos else s2.write_pos) s1.read_pos in
    let fits : s1.read_pos + size ≤ s.write_pos = ground (arith, m, m2) in
    let part =
      value_of-IsPart (http.header (start + i)) s.buf s2.buf s1.read_pos size s.write_pos
        (m2.same_buf ∙ m.same_buf) (held (start + i)) fits in
    (
      ground (arith, m, m2),
      set_header-HeldIn s http.header (start + i)
          (set_chars_size (http.header (start + i)) (pointer s2.buf s1.read_pos) size).1 held part,
    )

message_header_keeps : (names : List (List ℕ)) (start : ℕ) → RuleKeeps (message_header names start)
unfolding message_header
message_header_keeps names start http s held h =
    let (o, s1) = match_names names 0 s.read_pos s in
    header_end_keeps http start s o s1 held (match_names-Moves names 0 s h)

pub HeldIn-Moved :
    (s s' : Stringaa) (headers : ℕ → Stringaa) → Moved s s' → HeldIn s headers → HeldIn s' headers
HeldIn-Moved s s' headers m held i = rw (m.same_buf, m.same_write) (held i)

HeldIn-Moved_back :
    (s s' : Stringaa) (headers : ℕ → Stringaa) → Moved s s' → HeldIn s' headers → HeldIn s headers
HeldIn-Moved_back s s' headers m held i = rw (m.same_buf, m.same_write) at (held i)

-- What is kept from the string `s` on.
abbrev pub Kept : Stringaa → Parsed → Type 0
Kept s r = Moved s r.2 × HeldIn s r.1.header

pub Kept-then :
    (rule : Httpaa → Stringaa → Parsed)
    → RuleKeeps rule
    → (s : Stringaa) (http : Httpaa) (s' : Stringaa) → s.read_pos ≤ s.write_pos
    → Moved s s'
    → HeldIn s http.header
    → Kept s (rule http s')
Kept-then rule keeps s http s' h m held =
    let (m', held') = keeps http s' (HeldIn-Moved s s' http.header m held) m.within in
    (
      Moves-trans s s' (rule http s').2 (λ _. m) (λ _. m') h,
      HeldIn-Moved_back s s' (rule http s').1.header m held',
    )

or_parse_keeps :
    (rule : Httpaa → Stringaa → Parsed)
    → RuleKeeps rule
    → (s : Stringaa) (r : Parsed) → s.read_pos ≤ s.write_pos
    → Kept s r
    → Kept s (or_parse r rule)
or_parse_keeps rule keeps s (true, http, s') h k = k
or_parse_keeps rule keeps s (false, http, s') h (m, held) = Kept-then rule keeps s http s' h m held

pub any_header_keeps : RuleKeeps any_header
unfolding any_header general_header request_header entity_header
any_header_keeps http s held h =
    or_parse_keeps entity_header (message_header_keeps entity_header_array entity_header_start) s
      (or_parse (general_header http s) request_header) h
      (or_parse_keeps request_header
        (message_header_keeps request_header_array request_header_start) s (general_header http s) h
        (message_header_keeps general_header_array general_header_start http s held h))
