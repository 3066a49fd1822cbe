-- ===== src/Uri/Segments/Spec.antt =====
-- url/uriaa_rfc2396_resolve.h: the segments of a path as a list, which the loops do not keep.
use httpaa.Base.{
  ℕ, ◌≡◌, ◌⊎◌, Bool, true, false, not, ◌&&◌, ◌||◌, List, [], ◌∷◌, ◌++◌, ◌==◌, if◌then◌else◌,
}

-- The bytes in front of the first slash, and the segments behind it.
abbrev pub segments : List ℕ → List ℕ × List (List ℕ)
segments [] = ([], [])
segments (c ∷ l) = let (s, ss) = segments l in if c == b'/' then ([], s ∷ ss) else (c ∷ s, ss)

abbrev pub is_dot : List ℕ → Bool
is_dot [] = false
is_dot (c ∷ []) = c == b'.'
is_dot (c ∷ d ∷ l) = false

-- The path with the segments `s` and `ss`, without those that are `.` and have a slash behind them.
abbrev pub undotted : List ℕ → List (List ℕ) → List ℕ
undotted s [] = s
undotted s (t ∷ ss) = if is_dot s then undotted t ss else s ++ b'/' ∷ undotted t ss

abbrev pub without_dots : List ℕ → List ℕ
without_dots l = let (s, ss) = segments l in undotted s ss

abbrev pub last_of : List ℕ → List (List ℕ) → List ℕ
last_of s [] = s
last_of s (t ∷ ss) = last_of t ss

abbrev pub last_segment : List ℕ → List ℕ
last_segment l = let (s, ss) = segments l in last_of s ss

abbrev pub is_dot_dot : List ℕ → Bool
is_dot_dot (c ∷ d ∷ []) = (d == b'.') && (c == b'.')
is_dot_dot l = false

-- A segment `..` stands only behind another one, or first.
abbrev pub settled : List ℕ → List (List ℕ) → Bool
settled s [] = true
settled s (t ∷ ss) = (not (is_dot_dot t) || is_dot_dot s) && settled t ss

-- The path is empty, or ends with a slash.
abbrev pub IsFront : List ℕ → Type 0
IsFront p = (p ≡ []) ⊎ ((q : List ℕ) × (p ≡ q ++ b'/' ∷ []))

abbrev pub starts_up : List ℕ → Bool
starts_up (d ∷ e ∷ r) = (d == b'.') && (e == b'.')
starts_up l = false

-- Every slash of `seg` is followed by two dots, with `r` behind `seg`.
abbrev pub joined : List ℕ → List ℕ → Bool
joined [] r = true
joined (c ∷ seg) r = (not (c == b'/') || starts_up (seg ++ r)) && joined seg r

-- One step up: a segment that is not `..` goes, with the `/../` behind it or the `/..` at the end.
-- RFC 2396 takes one segment; the loops also take what follows it where that only begins with two
-- dots, as `a/..b` in front of `/../`: no other slash is in `seg`.
pub data Up : List ℕ → List ℕ → Type 0 where
  inner :
      (p seg r : List ℕ)
      → IsFront p
      → is_dot_dot seg ≡ false
      → joined seg (b'/' ∷ b'.' ∷ b'.' ∷ b'/' ∷ r) ≡ true
      → Up (p ++ (seg ++ b'/' ∷ b'.' ∷ b'.' ∷ b'/' ∷ r)) (p ++ r)
  final :
      (p seg : List ℕ)
      → IsFront p
      → is_dot_dot seg ≡ false
      → joined seg (b'/' ∷ b'.' ∷ b'.' ∷ []) ≡ true
      → Up (p ++ (seg ++ b'/' ∷ b'.' ∷ b'.' ∷ [])) p

pub data Ups : List ℕ → List ℕ → Type 0 where
  done : (l : List ℕ) → Ups l l
  step : (l m n : List ℕ) → Up l m → Ups m n → Ups l n

-- Whether the first segment that is not empty is `..`.
abbrev pub leading : List ℕ → List (List ℕ) → Bool
leading [] [] = false
leading [] (t ∷ ss) = leading t ss
leading (c ∷ s) ss = is_dot_dot (c ∷ s)
