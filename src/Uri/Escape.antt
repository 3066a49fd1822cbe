-- ===== src/Uri/Escape.antt =====
-- url/uriaa_utils.h: the escaping and unescaping of strings.
use httpaa.Base.{
  ℕ, zero, suc, ◌+◌, ◌-◌, ◌*◌, Bool, true, false, ◌&&◌, ◌||◌, Option, none, some, List, [], ◌∷◌,
  leb, ltb, length, ◌==◌, if◌then◌else◌,
}
use Prim.Native.Nat.{◌/◌, ◌%◌}
use httpaa.Stringaa.Defs.{
  Stringaa, next_read_pos, begin_read_pos, next_write_pos, begin_write_pos, get_char, bytes,
}
use httpaa.Stringaa.Store.{set_char, malloc_buf, ◌>>=◌}
use httpaa.Uri.Chars.{
  control_chars, space_chars, delims_chars, unwise_chars, reserved_chars, unreserved_chars,
}

-- One digit of `uriaa_escape_char`: `(n | 0x30)`, and 7 more behind `9`.
abbrev pub hex_digit : ℕ → ℕ
hex_digit n = if leb 10 n then n + 55 else n + 48

-- The digits `ca[1]` and `ca[0]`.
unfoldable pub escape_char : ℕ → ℕ × ℕ
escape_char c = (hex_digit (c / 16), hex_digit (c % 16))

-- One digit of `uriaa_unescape_char`: letters are moved behind `9`, so the six characters from `:`
-- to `?` count as digits too.
abbrev pub digit_value : ℕ → Option ℕ
digit_value c =
    let c1 = if leb b'a' c && leb c b'f' then c - 32 else c in
    let c2 = if leb b'A' c1 && leb c1 b'F' then c1 - 7 else c1 in
    if leb 48 c2 && leb c2 63 then some (c2 - 48) else none

-- `ca[2]`, from `ca[1]` and `ca[0]`; `none` where the function returns 0.
unfoldable pub unescape_char : ℕ → ℕ → Option ℕ
unescape_char high low = do l ← digit_value low; h ← digit_value high; some (h * 16 + l)

-- `stringaa_set_char` and `stringaa_next_write_pos`, whose results are ignored.
unfoldable pub put_char : ℕ → Stringaa → Option Stringaa
put_char c s = do (_, s1) ← set_char s c; some (next_write_pos s1).1

abbrev pub put_chars : List ℕ → Stringaa → Option Stringaa
put_chars [] s = some s
put_chars (c ∷ l) s = do s1 ← put_char c s; put_chars l s1

abbrev pub is_escaped : Bool → ℕ → Bool
is_escaped reserved c =
    (control_chars c || space_chars c || delims_chars c || unwise_chars c)
    || (reserved && reserved_chars c)

-- The characters that a round of `uriaa_escape` writes.
abbrev pub escape_round : Bool → ℕ → List ℕ
escape_round reserved c =
    if is_escaped reserved c then b'%' ∷ (escape_char c).0 ∷ (escape_char c).1 ∷ [] else c ∷ []

abbrev pub Escaped : Type 0
Escaped = Option (Stringaa × Stringaa)

-- Whether the bytes that the trace at the end of a round reads, at the read and the write position,
-- are in the block.
abbrev pub traced : Stringaa → Bool
traced uri = ltb uri.read_pos (length (bytes uri)) && ltb uri.write_pos (length (bytes uri))

-- The loop of `uriaa_escape` on fuel; the flag says whether `flags` holds URIAA_ESCAPE_RESERVED.
unfoldable pub escape_loop : ℕ → Bool → Stringaa → Stringaa → Escaped
escape_loop zero reserved uri_escaped uri = none
escape_loop (suc fuel) reserved uri_escaped uri =
    elim (put_chars (escape_round reserved (get_char uri)) uri_escaped) [
      | none ↦ none
      | some out ↦
          let (more, uri1) = next_read_pos uri in
          elim more [
            | true ↦ elim (traced uri1) [ true ↦ escape_loop fuel reserved out uri1 | false ↦ none ]
            | false ↦ some (out, uri1)
          ]
    ]

-- `uriaa_escape` returns 1 in all cases. The result is `none` where it leaves a block.
unfoldable pub escape : (ℕ → Option (List ℕ)) → Stringaa → Stringaa → Bool → Escaped
escape malloc uri_escaped uri reserved =
    let out = (begin_write_pos (malloc_buf malloc uri_escaped (uri.write_pos * 3)).1).1 in
    escape_loop (suc uri.write_pos) reserved (record out { is_init = true }) (begin_read_pos uri).1

-- The characters that a round of `uriaa_unescape` writes behind the digits `high` and `low` of the
-- character `c`; the flag says whether `flags` holds URIAA_ESCAPE_UNRESERVED.
abbrev pub unescape_chars : Bool → ℕ → ℕ → ℕ → List ℕ
unescape_chars unreserved high low c =
    if unreserved then (if unreserved_chars c then c ∷ [] else b'%' ∷ high ∷ low ∷ []) else low ∷ []

-- A round up to what it writes, `none` where it ends the loop, with `is_unescape` behind it.
unfoldable pub unescape_round : Bool → Bool → Stringaa → Option (List ℕ) × Bool × Stringaa
unescape_round unreserved flag s =
    if get_char s == b'%'
    then (let (more1, s1) = next_read_pos s in
        if more1
        then (let (more2, s2) = next_read_pos s1 in
            if more2
            then (elim (unescape_char (get_char s1) (get_char s2)) [
              | none ↦ (none, false, s2)
              | some c ↦ (some (unescape_chars unreserved (get_char s1) (get_char s2) c), true, s2)
            ])
            else (none, flag, s2))
        else (none, flag, s1))
    else (some (get_char s ∷ []), flag, s)

abbrev pub Unescaped : Type 0
Unescaped = Option (Bool × Stringaa × Stringaa)

unfoldable pub unescape_loop : ℕ → Bool → Bool → Stringaa → Stringaa → Unescaped
unescape_loop zero unreserved flag uri uri_escaped = some (flag, uri, uri_escaped)
unescape_loop (suc fuel) unreserved flag uri uri_escaped =
    let (written, flag1, s) = unescape_round unreserved flag uri_escaped in
    elim written [
      | none ↦ some (flag1, uri, s)
      | some l ↦ elim (put_chars l uri) [
        | none ↦ none
        | some out ↦
            let (more, s1) = next_read_pos s in
            elim more [
              | true ↦ unescape_loop fuel unreserved flag1 out s1
              | false ↦ some (true, out, s1)
            ]
      ]
    ]

unfoldable pub unescape : (ℕ → Option (List ℕ)) → Stringaa → Stringaa → Bool → Unescaped
unescape malloc uri uri_escaped unreserved =
    let out = (begin_write_pos (malloc_buf malloc uri uri_escaped.write_pos).1).1 in
    unescape_loop (suc uri_escaped.write_pos) unreserved false (record out { is_init = true })
      (begin_read_pos uri_escaped).1
