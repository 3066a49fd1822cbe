-- ===== src/Stringaa/Tests.antt =====
-- The string functions at concrete strings.
use httpaa.Base.{
  ℕ, zero, ◌≡◌, refl, true, not, List, [], ◌∷◌, ◌++◌, Option, some, arith, head_or, tail, replicate,
  codes, length-replicate,
}
use httpaa.Stringaa.Defs.{
  Stringaa, zeroed, rest, Readable, Writable, next_read_pos, get_char, begin_read_pos,
}
use httpaa.Stringaa.Cursor.{is_nil, cursor_refines}
use httpaa.Stringaa.Store.{IsMalloc, set_chars, set_chars_size, copy, add, add_chars_size}
use httpaa.Stringaa.Copy.{HoldsBytes, copy_lem}
use httpaa.Stringaa.Find.{find, find_loop}
use httpaa.Stringaa.Search.{search}
use httpaa.Stringaa.Search.Found.{find_lem}
use httpaa.Stringaa.Append.{HasMemory, add_chars_size_drops, add_lem}

-- Memory without bounds, filled with zeros.
abbrev zero_block : ℕ → Option (List ℕ)
zero_block n = some (replicate n zero)

zero_block-IsMalloc : IsMalloc zero_block
zero_block-IsMalloc n block e = ground (arith, length-replicate {0} n zero)

zero_block-HasMemory : HasMemory zero_block
zero_block-HasMemory n = (replicate n zero, refl)

-- The text `abc` with its zero, as `stringaa_set_chars` sets it.
abbrev text_abc : Stringaa
text_abc = record zeroed {
  buf = some (codes "abc" ++ 0 ∷ []);
  buf_size = 4;
  write_pos = 3;
  is_init = true;
  is_null_terminated = true;
}

-- The same three bytes, as `stringaa_set_chars_size` sets them.
abbrev bytes_abc : Stringaa
bytes_abc = record zeroed { buf = some (codes "abc"); buf_size = 3; write_pos = 3; is_init = true }

text_abc-Readable : Readable text_abc
text_abc-Readable = record { read_in = omega arith; write_in = omega arith }

text_abc-Writable : Writable text_abc
text_abc-Writable = record { room = omega arith; block = omega arith }

bytes_abc-Writable : Writable bytes_abc
bytes_abc-Writable = record { room = omega arith; block = omega arith }

set_chars-abc : set_chars zeroed (some (codes "abc" ++ 0 ∷ [])) ≡ (true, text_abc)
unfolding set_chars set_chars_size
set_chars-abc = refl

set_chars_size-abc : set_chars_size zeroed (some (codes "abc")) 3 ≡ (true, bytes_abc)
unfolding set_chars_size
set_chars_size-abc = refl

cursor_refines_example :
    (get_char text_abc ≡ head_or (rest text_abc) 0)
    × (rest (next_read_pos text_abc).1 ≡ tail (rest text_abc))
    × ((next_read_pos text_abc).0 ≡ not (is_nil (tail (rest text_abc))))
    × Readable (next_read_pos text_abc).1
cursor_refines_example = cursor_refines text_abc text_abc-Readable

copy_lem_example :
    (s : Stringaa) × (copy zero_block zeroed text_abc ≡ some (true, s)) × HoldsBytes s (codes "abc")
copy_lem_example =
    copy_lem zero_block zeroed text_abc (replicate 4 0) (codes "abc" ++ 0 ∷ []) (λ e. absurd cc)
      refl refl text_abc-Writable refl

-- The `c` is lost.
add_chars_size_drops_example :
    (s : Stringaa) × (add_chars_size zero_block bytes_abc (some (codes "de")) 2 ≡ some (true, s))
    × HoldsBytes s (codes "abde")
add_chars_size_drops_example =
    add_chars_size_drops zero_block zero_block-IsMalloc zero_block-HasMemory bytes_abc refl
      bytes_abc-Writable (codes "de") 2 (omega arith) (omega arith) refl (omega arith)

add_lem_example :
    (s : Stringaa) × (add zero_block text_abc bytes_abc ≡ some (true, s))
    × HoldsBytes s (codes "abcabc")
add_lem_example =
    add_lem zero_block zero_block-IsMalloc zero_block-HasMemory text_abc refl text_abc-Writable
      bytes_abc (codes "abc") refl refl bytes_abc-Writable (omega arith) (omega arith)

-- The partial match at the first `a` is given up.
abbrev text_aab : Stringaa
text_aab = record zeroed { buf = some (codes "aabc"); buf_size = 4; write_pos = 4; is_init = true }

find_lem_example : (find text_aab bytes_abc).0 ≡ search (codes "abc") 0 (codes "aabc")
find_lem_example =
    find_lem text_aab bytes_abc refl refl (omega arith) refl refl (omega arith) (omega arith)
      (omega arith, (omega arith, (omega arith, tt)))

find-text_aab : (find text_aab bytes_abc).0 ≡ some 1
unfolding find find_loop begin_read_pos next_read_pos get_char
find-text_aab = refl
