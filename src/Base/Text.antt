-- ===== src/Base/Text.antt =====
-- Text literals as the bytes of C strings, and as arrays of them.
use Prim.Native.Char.{code}
use Prim.Native.Nat.{ℕ}
use Prim.Native.String.{String}
use mathlib.Core.List.{List, [], ◌∷◌}

-- The bytes of a literal, if it is ASCII, as every literal below is.
abbrev pub codes : String → List ℕ
codes String.[] = []
codes (String.◌∷◌ c s) = code c ∷ codes s

-- An array of C strings.
abbrev pub texts : List String → List (List ℕ)
texts [] = []
texts (s ∷ ss) = codes s ∷ texts ss
