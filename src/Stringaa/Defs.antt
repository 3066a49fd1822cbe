-- ===== src/Stringaa/Defs.antt =====
-- string/stringaa.h: the structure, and the functions that move its two positions and read a byte.
-- A function that returns an `int` beside changing `*s` returns the pair of both.
use httpaa.Base.{
  ℕ, ◌+◌, ◌-◌, ◌≤◌, Bool, true, false, ◌&&◌, List, [], Option, none, some, ltb, leb, ◌==◌,
  if◌then◌else◌, length, get_or, take, drop,
}

-- `struct string_struct`, without the fields of the chain of links, which nothing sets, and the
-- field that is marked as not used. `buf` is what the pointer reaches, from the byte it points at
-- to the end of its block (`none` is NULL); a byte is a number below 256.
pub record Stringaa : Type 0 where
  pub buf : Option (List ℕ)
  pub buf_size : ℕ
  pub read_pos : ℕ
  pub write_pos : ℕ
  pub is_init : Bool
  pub is_alloc : Bool
  pub is_null_terminated : Bool
  pub is_link : Bool
  pub is_binary : Bool

-- A structure of zero bytes, as `memset` leaves it.
abbrev pub zeroed : Stringaa
zeroed = record {
  buf = none;
  buf_size = 0;
  read_pos = 0;
  write_pos = 0;
  is_init = false;
  is_alloc = false;
  is_null_terminated = false;
  is_link = false;
  is_binary = false;
}

abbrev pub bytes_of : Option (List ℕ) → List ℕ
bytes_of none = []
bytes_of (some l) = l

abbrev pub bytes : Stringaa → List ℕ
bytes s = bytes_of s.buf

-- `s->is_null_terminated` as a number.
abbrev pub null_size : Stringaa → ℕ
null_size s = if s.is_null_terminated then 1 else 0

-- `s->buf_size ? s->buf_size - s->is_null_terminated : 0`
abbrev pub last_write_pos : Stringaa → ℕ
last_write_pos s = if s.buf_size == 0 then 0 else s.buf_size - null_size s

unfoldable pub next_read_pos : Stringaa → Bool × Stringaa
next_read_pos s =
    if ltb (s.read_pos + 1) s.write_pos
    then (true, record s { read_pos = s.read_pos + 1 })
    else (false, record s { read_pos = s.write_pos })

unfoldable pub prev_read_pos : Stringaa → Bool × Stringaa
prev_read_pos s =
    if ltb 0 s.read_pos && leb s.read_pos s.write_pos
    then (true, record s { read_pos = s.read_pos - 1 })
    else (false, record s { read_pos = s.write_pos })

unfoldable pub begin_read_pos : Stringaa → Bool × Stringaa
begin_read_pos s = (true, record s { read_pos = 0 })

unfoldable pub end_read_pos : Stringaa → Bool × Stringaa
end_read_pos s =
    (true, record s { read_pos = if ltb 0 s.write_pos then s.write_pos - 1 else s.write_pos })

unfoldable pub next_write_pos : Stringaa → Bool × Stringaa
next_write_pos s =
    if ltb (s.write_pos + null_size s + 1) s.buf_size
    then (true, record s { write_pos = s.write_pos + 1 })
    else (false, record s { write_pos = last_write_pos s })

unfoldable pub prev_write_pos : Stringaa → Bool × Stringaa
prev_write_pos s =
    if ltb 0 s.write_pos && leb (s.write_pos + null_size s) s.buf_size
    then (true, record s { write_pos = s.write_pos - 1 })
    else (false, record s { write_pos = last_write_pos s })

unfoldable pub begin_write_pos : Stringaa → Bool × Stringaa
begin_write_pos s = (true, record s { write_pos = 0 })

unfoldable pub end_write_pos : Stringaa → Bool × Stringaa
end_write_pos s =
    let w = last_write_pos s in (true, record s { write_pos = if ltb 0 w then w - 1 else w })

-- A read outside the block, which `Readable` rules out, gives 0 here.
unfoldable pub get_char : Stringaa → ℕ
get_char s = if ltb s.read_pos s.write_pos then get_or (bytes s) s.read_pos 0 else 0

unfoldable pub is_char : Stringaa → ℕ → Bool × Stringaa
unfolding get_char next_read_pos
is_char s c = if c == get_char s then (true, (next_read_pos s).1) else (false, s)

-- glibc's `_toupper` and `_tolower` in the C locale: they map letters, and nothing else.
unfoldable pub to_upper : ℕ → ℕ
to_upper c = if leb b'a' c && leb c b'z' then c - 32 else c

unfoldable pub to_lower : ℕ → ℕ
to_lower c = if leb b'A' c && leb c b'Z' then c + 32 else c

-- It reads at the read position whatever the write position is, and moves past the end.
unfoldable pub is_chari : Stringaa → ℕ → Bool × Stringaa
unfolding to_upper
is_chari s c =
    if to_upper c == to_upper (get_or (bytes s) s.read_pos 0)
    then (true, record s { read_pos = s.read_pos + 1 })
    else (false, s)

-- `stringaa_clean`: `begin_read_pos` and `begin_write_pos`, which never fail.
unfoldable pub clean : Stringaa → Bool × Stringaa
unfolding begin_read_pos begin_write_pos
clean s =
    let (began, s1) = begin_read_pos s in
    if began
    then (let (began_write, s2) = begin_write_pos s1 in
        if began_write then (true, s2) else (false, s2))
    else (false, s1)

-- Every read between the positions stays inside the block.
pub record Readable (s : Stringaa) : Type 0 where
  pub read_in : s.read_pos ≤ s.write_pos
  pub write_in : s.write_pos ≤ length (bytes s)

-- The write position and the terminating zero behind it stay inside the buffer.
pub record Writable (s : Stringaa) : Type 0 where
  pub room : s.write_pos + null_size s ≤ s.buf_size
  pub block : s.buf_size ≤ length (bytes s)

-- What is still to be read.
abbrev pub rest : Stringaa → List ℕ
rest s = drop s.read_pos (take s.write_pos (bytes s))
