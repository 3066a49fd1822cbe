-- ===== src/Stringaa/Moved.antt =====
-- Reading keeps a string, and moves its read position on inside the bounds.
use httpaa.Base.{ℕ, ◌+◌, ◌≤◌, ◌<◌, ◌≡◌, refl, ◌∙◌, ◌≢◌, true, arith}
use httpaa.Stringaa.Defs.{Stringaa, next_read_pos, get_char, is_char}

-- `s'` is `s` with the read position moved on, and still inside the bounds.
pub record Moved (s s' : Stringaa) : Type 0 where
  pub same_buf : s'.buf ≡ s.buf
  pub same_write : s'.write_pos ≡ s.write_pos
  pub forward : s.read_pos ≤ s'.read_pos
  pub within : s'.read_pos ≤ s'.write_pos

abbrev pub Moves : Stringaa → Stringaa → Type 0
Moves s s' = s.read_pos ≤ s.write_pos → Moved s s'

pub Moves-refl : (s : Stringaa) → Moves s s
Moves-refl s h = record { same_buf = refl; same_write = refl; forward = omega arith; within = h }

pub Moves-trans : (a b c : Stringaa) → Moves a b → Moves b c → Moves a c
Moves-trans a b c f g h =
    let x = f h in
    let y = g x.within in
    record {
      same_buf = y.same_buf ∙ x.same_buf;
      same_write = y.same_write ∙ x.same_write;
      forward = omega arith;
      within = y.within;
    }

pub Moves-back : (a b : Stringaa) → Moves a b → Moves a (record b { read_pos = a.read_pos })
Moves-back a b f h =
    let x = f h in
    record {
      same_buf = x.same_buf;
      same_write = x.same_write;
      forward = omega arith;
      within = omega arith;
    }

pub next_read_pos-Moves : (s : Stringaa) → Moves s (next_read_pos s).1
unfolding next_read_pos
next_read_pos-Moves s h = ground arith

-- Where there is a next character, the step is one forward.
pub next_read_pos-more :
    (s : Stringaa) → (next_read_pos s).0 ≡ true → (next_read_pos s).1.read_pos ≡ s.read_pos + 1
unfolding next_read_pos
next_read_pos-more s h = ground arith

pub is_char-Moves : (s : Stringaa) (c : ℕ) → Moves s (is_char s c).1
unfolding is_char next_read_pos
is_char-Moves s c h = ground arith

-- A character other than 0 that is found has been read.
pub is_char-forward :
    (s : Stringaa) (c : ℕ)
    → 0 < c
    → s.read_pos ≤ s.write_pos
    → (is_char s c).0 ≡ true
    → s.read_pos < (is_char s c).1.read_pos
unfolding is_char next_read_pos get_char
is_char-forward s c pos h e = ground arith

-- A character other than 0 at the read position shows that it is inside the string.
pub get_char-inside : (s : Stringaa) → get_char s ≢ 0 → s.read_pos < s.write_pos
unfolding get_char
get_char-inside s h = ground arith

pub next_read_pos-forward :
    (s : Stringaa) → s.read_pos < s.write_pos → s.read_pos < (next_read_pos s).1.read_pos
unfolding next_read_pos
next_read_pos-forward s h = ground arith
