-- ===== src/Http/Lexer.antt =====
-- http/httpaa.h: line ends, blanks, tokens and quoted strings.
use httpaa.Base.{
  ℕ, zero, suc, Bool, true, false, not, ◌&&◌, ◌||◌, Option, none, some, ltb, ◌==◌, if◌then◌else◌,
}
use httpaa.Stringaa.Defs.{Stringaa, next_read_pos, prev_read_pos, get_char}
use httpaa.Http.Chars.{char, ctl, cr, lf, sp, ht, separators}

unfoldable pub crlf : Stringaa → Bool × Stringaa
crlf s =
    if cr (get_char s)
    then (let s1 = (next_read_pos s).1 in
        if lf (get_char s1) then (true, (next_read_pos s1).1) else (false, (prev_read_pos s1).1))
    else (false, s)

-- The loop of `http11_find_crlf` on fuel, from the character `c` at the read position; `pos` is
-- where the search began.
unfoldable pub find_crlf_loop : ℕ → ℕ → Stringaa → ℕ → Bool × Stringaa
find_crlf_loop zero pos s c = (false, record s { read_pos = pos })
find_crlf_loop (suc fuel) pos s c = elim (ltb s.read_pos s.write_pos) [
  | true ↦
      let s1 = (next_read_pos s).1 in
      elim (cr c) [
        | true ↦ elim (lf (get_char s1)) [
          | true ↦ (true, (prev_read_pos s1).1)
          | false ↦ find_crlf_loop fuel pos s1 (get_char s1)
        ]
        | false ↦ find_crlf_loop fuel pos s1 (get_char s1)
      ]
  | false ↦ (false, record s { read_pos = pos })
]

-- A round moves the read position on, so there are at most as many rounds as bytes.
unfoldable pub find_crlf : Stringaa → Bool × Stringaa
find_crlf s = find_crlf_loop (suc s.write_pos) s.read_pos s (get_char s)

-- `while (CLASS) { stringaa_next_read_pos(request); c = stringaa_get_char(request); }` on fuel. At
-- the end of the string the character is 0, which is in no class that is used here.
unfoldable pub skip_while : ℕ → (ℕ → Bool) → Stringaa → Stringaa
skip_while zero class s = s
skip_while (suc fuel) class s = elim (class (get_char s)) [
  | true ↦ skip_while fuel class (next_read_pos s).1
  | false ↦ s
]

unfoldable pub skip_all : (ℕ → Bool) → Stringaa → Stringaa
skip_all class s = skip_while (suc s.write_pos) class s

abbrev pub blank : ℕ → Bool
blank c = sp c || ht c

unfoldable pub lws : Stringaa → Bool × Stringaa
lws s =
    let s1 = (crlf s).1 in
    if blank (get_char s1)
    then (true, skip_all blank (next_read_pos s1).1)
    else (false, record s1 { read_pos = s.read_pos })

-- A character that is no control is text, and is not read; a run of blanks is text, and is read.
unfoldable pub text : Stringaa → Bool × Stringaa
text s = let is_text = not (ctl (get_char s)) in let (is_lws, s1) = lws s in (is_text || is_lws, s1)

abbrev pub token_char : ℕ → Bool
token_char c = char c && not (ctl c || separators c)

unfoldable pub token : Stringaa → Bool × Stringaa
token s =
    if char (get_char s)
    then (if ctl (get_char s) || separators (get_char s)
        then (false, s)
        else (true, skip_all token_char (next_read_pos s).1))
    else (false, s)

unfoldable pub ctext : Stringaa → Bool × Stringaa
ctext s = if not (get_char s == b'(') && not (get_char s == b')') then text s else (false, s)

unfoldable pub qdtext : Stringaa → Bool × Stringaa
qdtext s = if not (get_char s == b'"') then text s else (false, s)

unfoldable pub quoted_pair : Stringaa → Bool × Stringaa
quoted_pair s =
    if get_char s == b'\\'
    then (let s1 = (next_read_pos s).1 in
        if char (get_char s1) then (true, (next_read_pos s1).1) else (false, (prev_read_pos s1).1))
    else (false, s)

-- `while (http11_qdtext(request) || http11_quoted_pair(request)) {}`. It is no loop over the bytes,
-- so `none` says that it has not ended within the fuel.
unfoldable pub quoted_loop : ℕ → Stringaa → Option Stringaa
quoted_loop zero s = none
quoted_loop (suc fuel) s =
    let (is_qdtext, s1) = qdtext s in
    elim is_qdtext [
      | true ↦ quoted_loop fuel s1
      | false ↦
          let (is_quoted_pair, s2) = quoted_pair s1 in
          elim is_quoted_pair [ true ↦ quoted_loop fuel s2 | false ↦ some s2 ]
    ]

abbrev pub quoted_end : Stringaa → Option Stringaa → Option (Bool × Stringaa)
quoted_end s none = none
quoted_end s (some s1) = some (
    if get_char s1 == b'"'
    then (true, (next_read_pos s1).1)
    else (false, record s1 { read_pos = s.read_pos }))

unfoldable pub quoted_string : ℕ → Stringaa → Option (Bool × Stringaa)
quoted_string fuel s =
    if get_char s == b'"'
    then quoted_end s (quoted_loop fuel (next_read_pos s).1)
    else some (false, record s { read_pos = s.read_pos })
