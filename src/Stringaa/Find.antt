-- ===== src/Stringaa/Find.antt =====
-- `stringaa_find` of string/stringaa.h.
use httpaa.Base.{
  ℕ, zero, suc, ◌+◌, ◌*◌, Bool, true, false, ◌&&◌, List, Option, none, some, ◌==◌, if◌then◌else◌,
}
use httpaa.Stringaa.Defs.{Stringaa, next_read_pos, begin_read_pos, get_char}

abbrev pub has_buf : Option (List ℕ) → Bool
has_buf none = false
has_buf (some l) = true

-- The loop on fuel: `pos` is where the match that is followed began, and the flag is `is_follow`.
-- It gives the position that is found, and the two strings.
unfoldable pub find_loop : ℕ → ℕ → Bool → Stringaa → Stringaa → Option ℕ × Stringaa × Stringaa
find_loop zero pos is_follow s s_search = (none, s, s_search)
find_loop (suc fuel) pos is_follow s s_search = elim (get_char s_search == 0) [
  | true ↦ (none, s, s_search)
  | false ↦ elim (get_char s == get_char s_search) [
    | true ↦
        let pos1 = if is_follow then pos else s.read_pos in
        let (more_search, s_search1) = next_read_pos s_search in
        elim more_search [
          | true ↦
              let (more, s1) = next_read_pos s in
              elim more [
                | true ↦ find_loop fuel pos1 true s1 s_search1
                | false ↦ (none, s1, s_search1)
              ]
          | false ↦ (some pos1, s, s_search1)
        ]
    | false ↦
        let s_search1 = if is_follow then (begin_read_pos s_search).1 else s_search in
        let s0 = if is_follow then record s { read_pos = pos } else s in
        let (more, s1) = next_read_pos s0 in
        elim more [ true ↦ find_loop fuel pos false s1 s_search1 | false ↦ (none, s1, s_search1) ]
  ]
]

-- `none` is -1. At each place of the string at most as many rounds are made as the other one has
-- bytes, and one more.
unfoldable pub find : Stringaa → Stringaa → Option ℕ × Stringaa × Stringaa
find s s_search =
    if (has_buf s.buf && s.is_init) && (has_buf s_search.buf && s_search.is_init)
    then find_loop ((s.write_pos + 1) * (s_search.write_pos + 1)) 0 false (begin_read_pos s).1
        (begin_read_pos s_search).1
    else (none, s, s_search)
