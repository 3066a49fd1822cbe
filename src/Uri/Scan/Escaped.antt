-- ===== src/Uri/Scan/Escaped.antt =====
-- `escaped` of url/uriaa_rfc2396.h on each front of what is left to read.
use httpaa.Base.{ℕ, ◌≡◌, Bool, true, false, ◌&&◌, List, [], ◌∷◌, arith, ◌==◌, if◌then◌else◌}
use httpaa.Stringaa.Defs.{Stringaa, next_read_pos}
use httpaa.Stringaa.Rests.{
  Rests, next_read_pos-Rests, get_char-Rests, next_read_pos-more_iff, next_read_pos-back,
}
use httpaa.Uri.Chars.{hex_chars}
use httpaa.Uri.Defs.{escaped}

-- An escaped character.
abbrev pub is_escape : ℕ → ℕ → ℕ → Bool
is_escape c x y = c == b'%' && hex_chars x && hex_chars y

pub escaped_three :
    (s : Stringaa) (c x y : ℕ) (l : List ℕ)
    → Rests s (c ∷ (x ∷ (y ∷ l)))
    → is_escape c x y ≡ true
    → ((escaped s).0 ≡ true) × Rests (escaped s).1 l
unfolding escaped
escaped_three s c x y l h e =
    let s1 = (next_read_pos s).1 in
    let h1 = next_read_pos-Rests s (c ∷ (x ∷ (y ∷ l))) h in
    let s2 = (next_read_pos s1).1 in
    let h2 = next_read_pos-Rests s1 (x ∷ (y ∷ l)) h1 in
    ground (
      arith,
      get_char-Rests s (c ∷ (x ∷ (y ∷ l))) h,
      get_char-Rests s1 (x ∷ (y ∷ l)) h1,
      get_char-Rests s2 (y ∷ l) h2,
      next_read_pos-more_iff s (c ∷ (x ∷ (y ∷ l))) h,
      next_read_pos-more_iff s1 (x ∷ (y ∷ l)) h1,
      next_read_pos-Rests s2 (y ∷ l) h2,
    )

pub escaped_not :
    (s : Stringaa) (c x y : ℕ) (l : List ℕ)
    → Rests s (c ∷ (x ∷ (y ∷ l)))
    → is_escape c x y ≡ false
    → escaped s ≡ (false, s)
unfolding escaped
escaped_not s c x y l h e =
    let s1 = (next_read_pos s).1 in
    let h1 = next_read_pos-Rests s (c ∷ (x ∷ (y ∷ l))) h in
    let s2 = (next_read_pos s1).1 in
    let h2 = next_read_pos-Rests s1 (x ∷ (y ∷ l)) h1 in
    ground (
      arith,
      get_char-Rests s (c ∷ (x ∷ (y ∷ l))) h,
      get_char-Rests s1 (x ∷ (y ∷ l)) h1,
      get_char-Rests s2 (y ∷ l) h2,
      next_read_pos-more_iff s (c ∷ (x ∷ (y ∷ l))) h,
      next_read_pos-more_iff s1 (x ∷ (y ∷ l)) h1,
      next_read_pos-back s s.read_pos,
      next_read_pos-back s1 s.read_pos,
    )

pub escaped_two : (s : Stringaa) (c x : ℕ) → Rests s (c ∷ (x ∷ [])) → escaped s ≡ (false, s)
unfolding escaped
escaped_two s c x h =
    let s1 = (next_read_pos s).1 in
    let h1 = next_read_pos-Rests s (c ∷ (x ∷ [])) h in
    ground (
      arith,
      get_char-Rests s (c ∷ (x ∷ [])) h,
      get_char-Rests s1 (x ∷ []) h1,
      next_read_pos-more_iff s (c ∷ (x ∷ [])) h,
      next_read_pos-more_iff s1 (x ∷ []) h1,
      next_read_pos-back s s.read_pos,
      next_read_pos-back s1 s.read_pos,
    )

-- A lone `%` at the end is read, and refused.
pub escaped_one :
    (s : Stringaa) (c : ℕ)
    → Rests s (c ∷ [])
    → escaped s ≡ (false, if c == b'%' then (next_read_pos s).1 else s)
unfolding escaped
escaped_one s c h = ground (arith, get_char-Rests s (c ∷ []) h, next_read_pos-more_iff s (c ∷ []) h)
