-- ===== src/Uri/Escaped.antt =====
-- What `uriaa_escape` leaves, and its digits read back.
use httpaa.Base.{
  ℕ, zero, suc, ◌-◌, ◌*◌, ◌≤◌, ◌<◌, ◌≡◌, refl, ap, ◌∙◌, Bool, true, false, List, [], ◌∷◌, ◌++◌,
  Option, none, some, arith, length, take, length-replicate, length-take,
}
use mathlib.Core.List.{append_assoc, append-nil}
use httpaa.Stringaa.Defs.{Stringaa, bytes, next_read_pos, begin_read_pos, begin_write_pos, get_char}
use httpaa.Stringaa.Rests.{
  begin_read_pos-Rests, Rests, next_read_pos-Rests, get_char-Rests, next_read_pos-more_iff,
}
use httpaa.Stringaa.Store.{malloc_buf}
use httpaa.Uri.Escape.{put_chars, escape_round, traced, escape_loop, escape}
use httpaa.Uri.Written.{Holds, put_chars-Holds}

-- What is written for these bytes.
abbrev pub escape_all : Bool → List ℕ → List ℕ
escape_all reserved [] = []
escape_all reserved (c ∷ l) = escape_round reserved c ++ escape_all reserved l

module _ (fuel : ℕ) (reserved : Bool) (out out1 uri : Stringaa)
    (put : put_chars (escape_round reserved (get_char uri)) out ≡ some out1) where
  escape_last :
      (next_read_pos uri).0 ≡ false
      → escape_loop (suc fuel) reserved out uri ≡ some (out1, (next_read_pos uri).1)
  unfolding escape_loop
  escape_last more = ground (arith, put, more)

  escape_on :
      (next_read_pos uri).0 ≡ true
      → traced (next_read_pos uri).1 ≡ true
      → escape_loop (suc fuel) reserved out uri
        ≡ escape_loop fuel reserved out1 (next_read_pos uri).1
  unfolding escape_loop
  escape_on more trace = ground (arith, put, more, trace)

  escape_off :
      (next_read_pos uri).0 ≡ true
      → traced (next_read_pos uri).1 ≡ false
      → escape_loop (suc fuel) reserved out uri ≡ none
  unfolding escape_loop
  escape_off more trace = ground (arith, put, more, trace)

-- A byte behind the string is there, and stays there.
trace-next :
    (uri : Stringaa)
    → (next_read_pos uri).0 ≡ true
    → uri.write_pos < length (bytes uri)
    → (traced (next_read_pos uri).1 ≡ true)
      × ((next_read_pos uri).1.write_pos < length (bytes (next_read_pos uri).1))
unfolding next_read_pos
trace-next uri more h = ground arith

trace-last :
    (uri : Stringaa) → length (bytes uri) ≤ uri.write_pos → traced (next_read_pos uri).1 ≡ false
unfolding next_read_pos
trace-last uri h = ground arith

escape_loop_lem :
    (size : ℕ) (reserved : Bool)
    → 0 < size
    → (fuel : ℕ) (c : ℕ) (l m : List ℕ) (out uri : Stringaa) → Rests uri (c ∷ l)
    → Holds size m out
    → length (c ∷ l) ≤ fuel
    → uri.write_pos < length (bytes uri)
    → (out' uri' : Stringaa) × (escape_loop fuel reserved out uri ≡ some (out', uri'))
      × Holds size (m ++ escape_all reserved (c ∷ l)) out'
escape_loop_lem size reserved pos zero c l m out uri hu h le trace = absurd (omega arith)
escape_loop_lem size reserved pos (suc fuel) c [] m out uri hu h le trace =
    let (out1, eq, h1) = put_chars-Holds size m (escape_round reserved c) out pos h in
    let here = get_char-Rests uri (c ∷ []) hu in
    (
      out1,
      (next_read_pos uri).1,
      escape_last fuel reserved out out1 uri
          (ap (λ x. put_chars (escape_round reserved x) out) here ∙ eq)
          (next_read_pos-more_iff uri (c ∷ []) hu),
      rw append-nil h1,
    )
escape_loop_lem size reserved pos (suc fuel) c (d ∷ l) m out uri hu h le trace =
    let (out1, eq, h1) = put_chars-Holds size m (escape_round reserved c) out pos h in
    let uri1 = (next_read_pos uri).1 in
    let here = get_char-Rests uri (c ∷ (d ∷ l)) hu in
    let more = next_read_pos-more_iff uri (c ∷ (d ∷ l)) hu in
    let (there, kept) = trace-next uri more trace in
    let (out', uri', eq', h') =
      escape_loop_lem size reserved pos fuel d l (m ++ escape_round reserved c) out1 uri1
        (next_read_pos-Rests uri (c ∷ (d ∷ l)) hu) h1 (omega arith) kept in
    (
      out',
      uri',
      escape_on fuel reserved out out1 uri
            (ap (λ x. put_chars (escape_round reserved x) out) here ∙ eq) more there
          ∙ eq',
      rw (append_assoc m (escape_round reserved c) (escape_all reserved (d ∷ l))) at h',
    )

take-nil : (n : ℕ) → take {A = ℕ} n [] ≡ []
take-nil zero = refl
take-nil (suc n) = refl

-- The string that the result is put into, at first.
pub empty-Holds :
    (malloc : ℕ → Option (List ℕ)) (s : Stringaa) (size : ℕ) (block : List ℕ)
    → s.is_alloc ≡ false
    → 0 < size
    → malloc size ≡ some block
    → Holds size [] (record ((begin_write_pos (malloc_buf malloc s size).1).1) { is_init = true })
unfolding malloc_buf begin_write_pos
empty-Holds malloc s size block e pos given =
    ground (arith, length-replicate {0} size zero, take-nil (size - 1))

begin-trace :
    (uri : Stringaa)
    → uri.write_pos < length (bytes uri)
    → (let s = (begin_read_pos uri).1 in s.write_pos < length (bytes s))
unfolding begin_read_pos
begin-trace uri h = h

begin-last :
    (uri : Stringaa)
    → 1 < uri.write_pos
    → uri.write_pos ≡ length (bytes uri)
    → (let s = (begin_read_pos uri).1 in
        ((next_read_pos s).0 ≡ true) × (length (bytes s) ≤ s.write_pos))
unfolding begin_read_pos next_read_pos
begin-last uri h k = ground arith

-- On a string that is not empty and has a byte behind it in its block, with a target that has no
-- memory of its own and where memory is there, `uriaa_escape` leaves the escaped bytes of the string in the target, as far as
-- they fit into three bytes for each byte, less one: if all of them are escaped, the last digit is
-- lost.
pub escape_lem :
    (malloc : ℕ → Option (List ℕ)) (out uri : Stringaa) (reserved : Bool) (block : List ℕ)
    → out.is_alloc ≡ false
    → 0 < uri.write_pos
    → uri.write_pos < length (bytes uri)
    → malloc (uri.write_pos * 3) ≡ some block
    → (out' uri' : Stringaa) × (escape malloc out uri reserved ≡ some (out', uri'))
      × (take out'.write_pos (bytes out')
          ≡ take (uri.write_pos * 3 - 1) (escape_all reserved (take uri.write_pos (bytes uri))))
unfolding escape
escape_lem malloc out uri reserved block e pos v given =
    let size = uri.write_pos * 3 in
    let start = empty-Holds malloc out size block e (omega arith) given in
    on (take uri.write_pos (bytes uri)) (begin_read_pos-Rests uri (omega arith))
      (omega (arith, length-take uri.write_pos (bytes uri))) start
  where
    on :
        (k : List ℕ)
        → Rests (begin_read_pos uri).1 k
        → length k ≡ uri.write_pos
        → Holds
            (uri.write_pos * 3)
            []
            (record ((begin_write_pos (malloc_buf malloc out (uri.write_pos * 3)).1).1) {
              is_init = true;
            })
        → (out' uri' : Stringaa) × (escape malloc out uri reserved ≡ some (out', uri'))
          × (take out'.write_pos (bytes out')
              ≡ take (uri.write_pos * 3 - 1) (escape_all reserved k))
    on [] h len start = absurd (omega arith)
    on (c ∷ l) h len start =
        let (out', uri', eq, h') =
          escape_loop_lem (uri.write_pos * 3) reserved (omega arith) (suc uri.write_pos) c l []
            (record ((begin_write_pos (malloc_buf malloc out (uri.write_pos * 3)).1).1) {
              is_init = true;
            })
            (begin_read_pos uri).1 h start (omega arith) (begin-trace uri v) in
        (out', uri', eq, h'.content)

-- A string of two bytes or more whose block ends with it, with a target that has no memory of its
-- own and where memory is there: the trace of `uriaa_escape` reads behind the block.
pub escape_fault :
    (malloc : ℕ → Option (List ℕ)) (out uri : Stringaa) (reserved : Bool) (block : List ℕ)
    → out.is_alloc ≡ false
    → 1 < uri.write_pos
    → uri.write_pos ≡ length (bytes uri)
    → malloc (uri.write_pos * 3) ≡ some block
    → escape malloc out uri reserved ≡ none
unfolding escape
escape_fault malloc out uri reserved block e more v given =
    let start = empty-Holds malloc out (uri.write_pos * 3) block e (omega arith) given in
    let s0 = (begin_read_pos uri).1 in
    let out0 = record ((begin_write_pos (malloc_buf malloc out (uri.write_pos * 3)).1).1) {
      is_init = true;
    } in
    let (out1, eq, h1) =
      put_chars-Holds (uri.write_pos * 3) [] (escape_round reserved (get_char s0)) out0
        (omega arith) start in
    let ends = begin-last uri more v in
    escape_off uri.write_pos reserved out0 out1 s0 eq ends.0 (trace-last s0 ends.1)
