-- ===== src/Http/Quoted.antt =====
-- `http11_quoted_string`: when it ends.
use httpaa.Base.{ℕ, zero, suc, ◌<◌, ◌≡◌, ◌≢◌, refl, true, List, ◌∷◌, none, some, arith}
use httpaa.Stringaa.Defs.{Stringaa, rest, Readable, next_read_pos}
use httpaa.Http.Lexer.{crlf, lws, text, qdtext, quoted_pair, quoted_loop, quoted_string}
use httpaa.Stringaa.Rests.{Rests, next_read_pos-Rests, get_char-Rests}

-- A visible character counts as text, and is not read.
text_visible :
    (s : Stringaa) (c : ℕ) (l : List ℕ) → Rests s (c ∷ l) → 32 < c → c ≢ 127 → text s ≡ (true, s)
unfolding text lws crlf
text_visible s c l h lo ne = ground (arith, get_char-Rests s (c ∷ l) h)

quoted_loop_visible :
    (fuel : ℕ) (s : Stringaa) (c : ℕ) (l : List ℕ)
    → Rests s (c ∷ l)
    → 32 < c
    → c ≢ 127
    → c ≢ b'"'
    → quoted_loop fuel s ≡ none
unfolding quoted_loop qdtext
quoted_loop_visible zero s c l h lo ne nq = refl
quoted_loop_visible (suc fuel) s c l h lo ne nq = ground (
  arith,
  get_char-Rests s (c ∷ l) h,
  text_visible s c l h lo ne,
  quoted_loop_visible fuel s c l h lo ne nq,
)

-- On a readable string, a quoted string whose first character is visible (above 32, and not 127) and
-- no quotation mark is never read to its end: no number of rounds of the loop suffices.
pub quoted_string_hangs :
    (fuel : ℕ) (s : Stringaa) (c : ℕ) (l : List ℕ)
    → Readable s
    → rest s ≡ b'"' ∷ c ∷ l
    → 32 < c
    → c ≢ 127
    → c ≢ b'"'
    → quoted_string fuel s ≡ none
unfolding quoted_string
quoted_string_hangs fuel s c l v h lo ne nq =
    let h0 : Rests s (b'"' ∷ c ∷ l) = record { left = h; readable = v } in
    ground (
      arith,
      get_char-Rests s (b'"' ∷ c ∷ l) h0,
      quoted_loop_visible fuel (next_read_pos s).1 c l (next_read_pos-Rests s (b'"' ∷ c ∷ l) h0) lo
          ne nq,
    )

-- On a readable string, an empty quoted string is read in one round of the loop, and what stands
-- behind it is left to read.
pub quoted_string_empty :
    (fuel : ℕ) (s : Stringaa) (l : List ℕ)
    → Readable s
    → rest s ≡ b'"' ∷ b'"' ∷ l
    → (s' : Stringaa) × (quoted_string (suc fuel) s ≡ some (true, s')) × (rest s' ≡ l)
unfolding quoted_string quoted_loop qdtext quoted_pair
quoted_string_empty fuel s l v h =
    let h0 : Rests s (b'"' ∷ b'"' ∷ l) = record { left = h; readable = v } in
    let s1 = (next_read_pos s).1 in
    let h1 = next_read_pos-Rests s (b'"' ∷ b'"' ∷ l) h0 in
    let h2 = next_read_pos-Rests s1 (b'"' ∷ l) h1 in
    (
      (next_read_pos s1).1,
      ground (arith, get_char-Rests s (b'"' ∷ b'"' ∷ l) h0, get_char-Rests s1 (b'"' ∷ l) h1),
      h2.left,
    )
