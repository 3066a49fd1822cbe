-- ===== src/Stringaa/Store.antt =====
-- string/stringaa.h: the functions that give a string its buffer and write into it.
-- `malloc` gives a block of the size asked for, with any bytes in it, or nothing. A function whose
-- result is `none` has read or written outside a block.
use httpaa.Base.{
  ℕ, ◌+◌, ◌-◌, ◌≡◌, Bool, true, false, not, ◌&&◌, ◌||◌, List, [], ◌∷◌, ◌++◌, Option, none, some,
  ltb, leb, ◌==◌, if◌then◌else◌, length, size_sub, take, drop, set, replicate,
}
use httpaa.Stringaa.Defs.{Stringaa, zeroed, bytes, null_size}

-- What the code relies on of `malloc`.
abbrev pub IsMalloc : (ℕ → Option (List ℕ)) → Type 0
IsMalloc malloc = (n : ℕ) (block : List ℕ) → malloc n ≡ some block → length block ≡ n

-- `memcpy(dst + i, src, n)`
abbrev pub memcpy : List ℕ → ℕ → List ℕ → ℕ → Option (List ℕ)
memcpy dst i src n =
    if leb n (length src) && leb (i + n) (length dst)
    then some (take i dst ++ (take n src ++ drop (i + n) dst))
    else none

-- `dst[i] = c`
abbrev pub store : List ℕ → ℕ → ℕ → Option (List ℕ)
store dst i c = if ltb i (length dst) then some (set dst i c) else none

-- `if (s->is_null_terminated) s->buf[s->write_pos] = 0;` on the block that `buf` reaches
abbrev pub terminate : Bool → List ℕ → ℕ → Option (List ℕ)
terminate nt dst i = if nt then store dst i 0 else some dst

infixl 5 ◌>>=◌
abbrev pub ◌>>=◌ {ℓ κ} : {A : Type ℓ} {B : Type κ} → Option A → (A → Option B) → Option B
none >>= f = none
some a >>= f = f a

-- `stringaa_set_char`: the call of `stringaa_realloc` with size 0 in it returns 0 at once.
unfoldable pub set_char : Stringaa → ℕ → Option (Bool × Stringaa)
set_char s c =
    if ltb (s.write_pos + null_size s) s.buf_size
    then (do l ← store (bytes s) s.write_pos c; some (true, record s { buf = some l }))
    else some (false, s)

unfoldable pub set_chars_size : Stringaa → Option (List ℕ) → ℕ → Bool × Stringaa
set_chars_size s none buf_size = (false, s)
set_chars_size s (some l) buf_size = if buf_size == 0 then (false, s) else (
  true,
  record {
    buf = some l;
    buf_size = buf_size;
    read_pos = 0;
    write_pos = buf_size;
    is_init = true;
    is_alloc = false;
    is_null_terminated = false;
    is_link = false;
    is_binary = false;
  },
)

-- The bytes in front of the first zero: `strlen`.
abbrev pub strlen : List ℕ → ℕ
strlen [] = 0
strlen (c ∷ l) = if c == 0 then 0 else strlen l + 1

unfoldable pub set_chars : Stringaa → Option (List ℕ) → Bool × Stringaa
unfolding set_chars_size
set_chars s none = (false, s)
set_chars s (some l) =
    if ltb 0 (strlen l)
    then (let (is_set, s') = set_chars_size s (some l) (strlen l) in
        if is_set
        then (true, record s' { is_null_terminated = true; buf_size = s'.buf_size + 1 })
        else (false, s'))
    else (false, s)

-- A position argument: the flags STRINGAA_READ_POS, STRINGAA_WRITE_POS, STRINGAA_END_POS, or a
-- position of the string.
pub data Position : Type 0 where
  read_flag write_flag end_flag : Position
  at : ℕ → Position

-- The position that each argument comes to, `none` where it stays negative.
abbrev pub first_position : Stringaa → Position → Option ℕ
first_position s Position.read_flag = some s.read_pos
first_position s Position.write_flag = none
first_position s Position.end_flag = none
first_position s (Position.at n) = some n

abbrev pub second_position : Stringaa → Position → Option ℕ
second_position s Position.read_flag = some s.read_pos
second_position s Position.write_flag = some s.write_pos
second_position s Position.end_flag = none
second_position s (Position.at n) = some n

abbrev pub substring_at : Stringaa → Stringaa → Option ℕ → Option ℕ → Stringaa
substring_at s1 s2 none p2 = s1
substring_at s1 s2 (some pos1) none = s1
substring_at s1 s2 (some pos1) (some pos2) =
    if ltb pos1 pos2 && leb pos2 s2.write_pos
    then record {
      buf = some (drop pos1 (bytes s2));
      buf_size = pos2 - pos1;
      read_pos = 0;
      write_pos = pos2 - pos1;
      is_init = true;
      is_alloc = false;
      is_null_terminated = false;
      is_link = false;
      is_binary = false;
    }
    else s1

-- `stringaa_set_substring` returns 1 whatever it does.
unfoldable pub set_substring : Stringaa → Stringaa → Position → Position → Bool × Stringaa
set_substring s1 s2 pos1 pos2 =
    (true, substring_at s1 s2 (first_position s2 pos1) (second_position s2 pos2))

abbrev pub allocated : Stringaa → ℕ → Option (List ℕ) → Bool × Stringaa
allocated s n none = (false, s)
allocated s n (some block) = (
  true,
  record {
    buf = some (replicate n 0);
    buf_size = n;
    read_pos = 0;
    write_pos = 0;
    is_init = false;
    is_alloc = true;
    is_null_terminated = true;
    is_link = false;
    is_binary = false;
  },
)

-- The write position that `stringaa_realloc` copies up to.
abbrev pub kept_size : Stringaa → ℕ
kept_size s =
    if leb s.buf_size s.write_pos
    then (if ltb 0 s.buf_size then s.buf_size - 1 else 0)
    else s.write_pos

abbrev pub moved : Stringaa → ℕ → ℕ → List ℕ → Bool × Stringaa
moved s n w block = (
  true,
  record s { buf = some block; buf_size = n; read_pos = 0; write_pos = w; is_alloc = true },
)

abbrev pub realloc_into : Stringaa → ℕ → Option (List ℕ) → Option (Bool × Stringaa)
realloc_into s n none = some (false, s)
realloc_into s n (some block) =
    if s.is_init
    then (do
      copied ← memcpy block 0 (bytes s) (kept_size s)
      ended ← terminate s.is_null_terminated copied (kept_size s)
      some (moved s n (kept_size s) ended))
    else some (moved s n 0 block)

-- The lines of `stringaa_copy_chars_size` behind the allocation.
abbrev pub copy_into : Stringaa → List ℕ → ℕ → Option (Bool × Stringaa)
copy_into s src n = do
  copied ← memcpy (bytes s) 0 src n
  ended ← terminate s.is_null_terminated copied n
  some (true, record s { buf = some ended; write_pos = n; read_pos = 0; is_init = true })

-- The lines of `stringaa_add_chars_size` behind the allocation.
abbrev pub add_into : Stringaa → List ℕ → ℕ → Option (Bool × Stringaa)
add_into s src n = do
  copied ← memcpy (bytes s) s.write_pos src n
  ended ← terminate s.is_null_terminated copied (s.write_pos + n)
  some (
    true,
    record s { buf = some ended; write_pos = s.write_pos + n; read_pos = 0; is_init = true },
  )

module _ (malloc : ℕ → Option (List ℕ)) where
  unfoldable pub malloc_buf : Stringaa → ℕ → Bool × Stringaa
  malloc_buf s n =
      if ltb 0 n
      then (if (s.is_alloc && ltb s.buf_size n) || not s.is_alloc
          then allocated s n (malloc n)
          else (false, s))
      else (false, s)

  unfoldable pub realloc : Stringaa → ℕ → Option (Bool × Stringaa)
  realloc s buf_size =
      if buf_size == 0 || ltb buf_size s.buf_size
      then some (false, s)
      else (let n = if s.is_null_terminated then buf_size else buf_size + 1 in
          realloc_into s n (malloc n))

  unfoldable pub copy_chars_size : Stringaa → Option (List ℕ) → ℕ → Option (Bool × Stringaa)
  unfolding malloc_buf
  copy_chars_size s none n = some (false, s)
  copy_chars_size s (some src) n =
      copy_into (if not s.is_alloc || leb s.buf_size (n + 1) then (malloc_buf s (n + 1)).1 else s)
        src n

  unfoldable pub copy_chars : Stringaa → Option (List ℕ) → Option (Bool × Stringaa)
  unfolding copy_chars_size
  copy_chars s none = some (false, s)
  copy_chars s (some src) = copy_chars_size s (some src) (strlen src)

  unfoldable pub copy : Stringaa → Stringaa → Option (Bool × Stringaa)
  unfolding copy_chars_size
  copy s1 s2 =
      if (elim s2.buf [ none ↦ true | some l ↦ false ]) || not s2.is_init
      then some (false, s1)
      else (do
        (is_copy, s) ← copy_chars_size s1 s2.buf (size_sub s2.buf_size (null_size s2))
        some (if is_copy then (true, record s { write_pos = s2.write_pos }) else (false, s)))

  unfoldable pub add_chars_size : Stringaa → Option (List ℕ) → ℕ → Option (Bool × Stringaa)
  unfolding realloc
  add_chars_size s none n = some (true, s)
  add_chars_size s (some src) n = if n == 0 then some (true, s) else (do
    (_, s') ←
        if not s.is_alloc || leb s.buf_size (s.write_pos + n + 1)
        then realloc s (s.write_pos + n + 1)
        else some (true, s)
    add_into s' src n)

  unfoldable pub add_chars : Stringaa → Option (List ℕ) → Option (Bool × Stringaa)
  unfolding add_chars_size
  add_chars s none = some (false, s)
  add_chars s (some src) = add_chars_size s (some src) (strlen src)

  unfoldable pub add : Stringaa → Stringaa → Option (Bool × Stringaa)
  unfolding add_chars_size
  add s1 s2 =
      if (elim s2.buf [ none ↦ false | some l ↦ true ])
        && s2.is_init
        && ltb s2.read_pos s2.write_pos
        && leb (s2.write_pos + null_size s2) s2.buf_size
      then add_chars_size s1 (some (drop s2.read_pos (bytes s2))) (s2.write_pos - s2.read_pos)
      else some (false, s1)

  unfoldable pub init : ℕ → Bool × Stringaa
  unfolding malloc_buf
  init buf_size =
      if ltb 0 buf_size
      then (let (is_set, s) = malloc_buf zeroed buf_size in
          if is_set then (true, record s { is_init = true }) else (false, s))
      else (true, record zeroed { is_init = true })
