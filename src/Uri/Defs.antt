-- ===== src/Uri/Defs.antt =====
-- url/uriaa_structs.h, url/uriaa_rfc2396.h: the structure, an escaped character, and the loops over
-- a class of characters, on which the rules of the grammar are built.
use httpaa.Base.{
  ℕ, zero, suc, ◌-◌, Bool, true, false, ◌||◌, Option, none, some, List, ◌==◌, if◌then◌else◌, drop,
  size_sub,
}
use httpaa.Stringaa.Defs.{Stringaa, null_size, next_read_pos, get_char, is_char}
use httpaa.Uri.Chars.{
  hex_chars, unreserved_chars, reserved_chars, pchar_extra, userinfo_extra, reg_name_extra,
  rel_segment_extra, uric_no_slash_extra,
}

-- The fields of `struct uri_struct` beside `uri`.
pub data Part : Type 0 where
  scheme authority userinfo host port path net_path abs_path rel_path opaque_part query fragment :
      Part

abbrev pub part_index : Part → ℕ
part_index Part.scheme = 0
part_index Part.authority = 1
part_index Part.userinfo = 2
part_index Part.host = 3
part_index Part.port = 4
part_index Part.path = 5
part_index Part.net_path = 6
part_index Part.abs_path = 7
part_index Part.rel_path = 8
part_index Part.opaque_part = 9
part_index Part.query = 10
part_index Part.fragment = 11

-- `struct uri_struct`: the string that is parsed, and the other fields by their names.
pub record Uriaa : Type 0 where
  pub uri : Stringaa
  pub parts : Part → Stringaa

abbrev pub update : (Part → Stringaa) → Part → Stringaa → Part → Stringaa
update parts k s j = if part_index j == part_index k then s else parts j

abbrev pub pointer : Option (List ℕ) → ℕ → Option (List ℕ)
pointer none pos = none
pointer (some l) pos = some (drop pos l)

-- The four assignments that make the field `f` the bytes of `uri` from `pos` on, `size` of them.
abbrev pub part_of : Stringaa → Stringaa → ℕ → ℕ → Stringaa
part_of f uri pos size = record f {
  buf = pointer uri.buf pos;
  buf_size = size;
  write_pos = if size == 0 then 0 else size - null_size f;
  is_init = true;
}

-- The same for the field `k`, up to the read position.
unfoldable pub set_part : Part → ℕ → Uriaa → Uriaa
set_part k pos u = record u {
  parts = update u.parts k (part_of (u.parts k) u.uri pos (size_sub u.uri.read_pos pos));
}

-- The three assignments that take a field back.
unfoldable pub unset_part : Part → Uriaa → Uriaa
unset_part k u = record u {
  parts = update u.parts k (record (u.parts k) { buf_size = 0; write_pos = 0; is_init = false });
}

-- `uri->read_pos = pos`
unfoldable pub rewind : ℕ → Uriaa → Uriaa
rewind pos u = record u { uri = record (u.uri) { read_pos = pos } }

-- `stringaa_is_char(uri, c)`
unfoldable pub uri_is_char : ℕ → Uriaa → Bool × Uriaa
uri_is_char c u = let (found, s) = is_char u.uri c in (found, record u { uri = s })

-- A step that the code takes only under a condition, whose flag is 0 if it is not taken.
abbrev pub when : Bool → (Uriaa → Bool × Uriaa) → Uriaa → Bool × Uriaa
when b f u = if b then f u else (false, u)

-- `escaped`: a lone `%` at the end of the string moves the read position to the end, and returns 0.
unfoldable pub escaped : Stringaa → Bool × Stringaa
escaped s =
    if get_char s == b'%'
    then (let (more, s1) = next_read_pos s in
        if more
        then (if hex_chars (get_char s1)
            then (let (more2, s2) = next_read_pos s1 in
                if more2
                then (if hex_chars (get_char s2)
                    then (true, (next_read_pos s2).1)
                    else (false, record s2 { read_pos = s.read_pos }))
                else (false, record s2 { read_pos = s.read_pos }))
            else (false, record s1 { read_pos = s.read_pos }))
        else (false, s1))
    else (false, s)

-- A class `A || ESCAPED_CHARS || B`, tested from left to right on the character `c`.
abbrev pub CharClass : Type 0
CharClass = Stringaa → ℕ → Bool × Stringaa

abbrev pub plain : (ℕ → Bool) → CharClass
plain a s c = (a c, s)

abbrev pub with_escaped : (ℕ → Bool) → (ℕ → Bool) → CharClass
with_escaped a b s c =
    if a c
    then (true, s)
    else (let (is_escaped, s') = escaped s in if is_escaped then (true, s') else (b c, s'))

unfoldable pub pchar_chars : CharClass
pchar_chars = with_escaped unreserved_chars pchar_extra

unfoldable pub userinfo_chars : CharClass
userinfo_chars = with_escaped unreserved_chars userinfo_extra

unfoldable pub reg_name_chars : CharClass
reg_name_chars = with_escaped unreserved_chars reg_name_extra

unfoldable pub rel_segment_chars : CharClass
rel_segment_chars = with_escaped unreserved_chars rel_segment_extra

unfoldable pub uric_no_slash_chars : CharClass
uric_no_slash_chars = with_escaped unreserved_chars uric_no_slash_extra

unfoldable pub uric_chars : CharClass
uric_chars = with_escaped (λ c. reserved_chars c || unreserved_chars c) (λ c. false)

-- `while (CLASS) { if (stringaa_next_read_pos(uri)) c = stringaa_get_char(uri); else break; }`
-- on fuel, from a read position at the character `c`.
unfoldable pub scan : ℕ → CharClass → Stringaa → ℕ → Stringaa
scan zero class s c = s
scan (suc fuel) class s c =
    let (is_in, s1) = class s c in
    elim is_in [
      | true ↦
          let (more, s2) = next_read_pos s1 in
          elim more [ true ↦ scan fuel class s2 (get_char s2) | false ↦ s2 ]
      | false ↦ s1
    ]

-- The loop on a string: a round moves the read position on, so there are at most as many rounds as
-- bytes.
unfoldable pub scan_all : CharClass → Stringaa → Stringaa
scan_all class s = scan (suc s.write_pos) class s (get_char s)

-- The loop behind a first character: it is entered only if there is another one.
unfoldable pub scan_more : CharClass → Stringaa → Stringaa
scan_more class s = let (more, s1) = next_read_pos s in if more then scan_all class s1 else s1

-- A rule that reads a run of characters of a class, and succeeds in all cases.
unfoldable pub uri_scan_all : CharClass → Uriaa → Uriaa
uri_scan_all class u = record u { uri = scan_all class u.uri }

-- A rule that reads one character of a first class and a run of another.
unfoldable pub uri_scan_from : CharClass → CharClass → Uriaa → Bool × Uriaa
uri_scan_from first class u =
    let (is_first, s) = first u.uri (get_char u.uri) in
    if is_first then (true, record u { uri = scan_more class s }) else (false, record u { uri = s })
