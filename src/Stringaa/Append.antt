-- ===== src/Stringaa/Append.antt =====
-- What `stringaa_add` and its kin leave in the target.
use httpaa.Base.{
  ℕ, ◌+◌, ◌-◌, ◌≤◌, ◌<◌, ◌≡◌, refl, sym, ap, subst, ◌∙◌, Bool, true, false, not, ◌||◌, List, ◌++◌,
  Option, some, arith, leb, if◌then◌else◌, length, take, drop, length-drop, take-drop,
}
use native.Mathlib.Nat.{zero-add}
use native.Mathlib.Decide.{dec_lt}
use httpaa.Stringaa.Defs.{Stringaa, bytes, Writable, rest}
use httpaa.Stringaa.Store.{
  IsMalloc, kept_size, moved, realloc_into, realloc, add_into, add_chars_size, add,
}
use httpaa.Stringaa.Copy.{
  HoldsBytes, written, ended, memcpy-some, length-written, take-written, terminate-some,
  length-ended, take-ended,
}

-- Memory is never exhausted.
abbrev pub HasMemory : (ℕ → Option (List ℕ)) → Type 0
HasMemory malloc = (n : ℕ) → (block : List ℕ) × (malloc n ≡ some block)

-- The state that `add_into` leaves, if it has room.
abbrev added : Stringaa → List ℕ → ℕ → Stringaa
added s src n = record s {
  buf = some (ended s.is_null_terminated (written (bytes s) s.write_pos src n) (s.write_pos + n));
  write_pos = s.write_pos + n;
  read_pos = 0;
  is_init = true;
}

module _ (s : Stringaa) (src : List ℕ) (n : ℕ) (has : n ≤ length src)
    (room : s.write_pos + n + 1 ≤ s.buf_size) (block : s.buf_size ≤ length (bytes s)) where
  add_into-some : add_into s src n ≡ some (true, added s src n)
  add_into-some = rw (memcpy-some (bytes s) s.write_pos src n has (omega arith)) (
      rw (
        terminate-some s.is_null_terminated (written (bytes s) s.write_pos src n) (s.write_pos + n)
          (omega (arith, length-written (bytes s) s.write_pos src n has (omega arith)))))

  added-HoldsBytes : HoldsBytes (added s src n) (take s.write_pos (bytes s) ++ take n src)
  added-HoldsBytes =
      let l = written (bytes s) s.write_pos src n in
      let size = length-ended s.is_null_terminated l (s.write_pos + n) in
      let size' = length-written (bytes s) s.write_pos src n has (omega arith) in
      record {
        content =
            take-ended s.is_null_terminated l (s.write_pos + n)
            ∙ take-written (bytes s) s.write_pos src n has (omega arith);
        at_start = refl;
        ready = refl;
        writable = ground arith;
        readable = ground arith;
      }

-- What the string holds behind `stringaa_realloc`, with the room that it was called for.
record Grown (s s' : Stringaa) (size : ℕ) : Type 0 where
  content : take s'.write_pos (bytes s') ≡ take (kept_size s) (bytes s)
  written_to : s'.write_pos ≡ kept_size s
  room : size ≤ s'.buf_size
  block : s'.buf_size ≤ length (bytes s')

kept_size_bounds :
    (s : Stringaa) (n : ℕ) → s.buf_size ≤ n → 0 < n → (kept_size s < n) × (kept_size s ≤ s.buf_size)
kept_size_bounds s n le pos = ground arith

-- A block that is large enough takes over what the string holds.
realloc_into-Grown :
    (s : Stringaa) (size n : ℕ) (block : List ℕ)
    → s.is_init ≡ true
    → Writable s
    → s.buf_size ≤ size
    → 0 < size
    → size ≤ n
    → length block ≡ n
    → (s' : Stringaa) × (realloc_into s n (some block) ≡ some (true, s')) × Grown s s' size
realloc_into-Grown s size n block ready v le pos le' len =
    let k = kept_size s in
    let bounds = kept_size_bounds s n (omega arith) (omega arith) in
    let has : k ≤ length (bytes s) = omega (arith, v.block) in
    let l = written block 0 (bytes s) k in
    let size' = length-written block 0 (bytes s) k has (omega arith) in
    let last = ended s.is_null_terminated l k in
    (
      (moved s n k last).1,
      rw (
        ready,
        memcpy-some block 0 (bytes s) k has (omega arith),
        terminate-some s.is_null_terminated l k (omega arith),
      ),
      record {
        content =
            take-ended s.is_null_terminated l k
            ∙ ap (λ m. take m l) (sym (zero-add k))
            ∙ take-written block 0 (bytes s) k has (omega arith);
        written_to = refl;
        room = le';
        block = omega (arith, length-ended s.is_null_terminated l k);
      },
    )

module _ (malloc : ℕ → Option (List ℕ)) (law : IsMalloc malloc) (memory : HasMemory malloc)
    (s : Stringaa) (ready : s.is_init ≡ true) (v : Writable s) where
  realloc-Grown :
      (size : ℕ)
      → s.buf_size ≤ size
      → 0 < size
      → (s' : Stringaa) × (realloc malloc s size ≡ some (true, s')) × Grown s s' size
  unfolding realloc
  realloc-Grown size le pos =
      let n = if s.is_null_terminated then size else size + 1 in
      let (block, given) = memory n in
      let (s', eq, g) =
        realloc_into-Grown s size n block ready v le pos (ground arith) (law n block given) in
      (s', ground (arith, given, eq), g)

  kept_size-le-write : kept_size s ≤ s.write_pos
  kept_size-le-write = ground arith

  -- A buffer with more room than is asked for stays as it is.
  same-Grown : (size : ℕ) → s.write_pos < size → size < s.buf_size → Grown s s size
  same-Grown size lt more =
      let kept : kept_size s ≡ s.write_pos = ground arith in
      record {
        content = ap (λ k. take k (bytes s)) (sym kept);
        written_to = sym kept;
        room = omega arith;
        block = v.block;
      }

  realloc-eq-refused : (size : ℕ) → size < s.buf_size → realloc malloc s size ≡ some (false, s)
  unfolding realloc
  realloc-eq-refused size more = ground arith

  -- The lines in front of the copy, in all cases.
  room_for :
      (size : ℕ)
      → s.write_pos < size
      → (s' : Stringaa) × ((b : Bool) × ((if not s.is_alloc || leb s.buf_size size
              then realloc malloc s size
              else some (true, s))
            ≡ some (b, s')))
        × Grown s s' size
  room_for size lt = elim (dec_lt size s.buf_size) [
    | yes more ↦
        (s, (s.is_alloc, ground (arith, realloc-eq-refused size more)), same-Grown size lt more)
    | no less ↦
        let (s', eq, g) = realloc-Grown size (omega arith) (omega arith) in
        (s', (true, ground (arith, eq)), g)
  ]

  -- Adding `n` bytes leaves what `stringaa_realloc` has kept, and the bytes behind it.
  add_chars_size_kept :
      (src : List ℕ) (n : ℕ)
      → n ≤ length src
      → 0 < n
      → (s' : Stringaa) × (add_chars_size malloc s (some src) n ≡ some (true, s'))
        × HoldsBytes s' (take (kept_size s) (bytes s) ++ take n src)
  unfolding add_chars_size
  add_chars_size_kept src n has pos =
      let (s', (b, eq), g) = room_for (s.write_pos + n + 1) (omega arith) in
      let room : s'.write_pos + n + 1 ≤ s'.buf_size =
        omega (arith, g.written_to, g.room, kept_size-le-write) in
      (
        added s' src n,
        ground (arith, eq, add_into-some s' src n has room g.block),
        subst (λ l. HoldsBytes (added s' src n) (l ++ take n src)) g.content
            (added-HoldsBytes s' src n has room g.block),
      )

  -- Where memory is there, `stringaa_add_chars_size` on a string that is set up and whose positions
  -- are inside its buffer puts `n` bytes behind those that it holds, if `n` is positive and its
  -- write position is not at the end of its buffer.
  pub add_chars_size_lem :
      (src : List ℕ) (n : ℕ)
      → n ≤ length src
      → 0 < n
      → s.write_pos < s.buf_size
      → (s' : Stringaa) × (add_chars_size malloc s (some src) n ≡ some (true, s'))
        × HoldsBytes s' (take s.write_pos (bytes s) ++ take n src)
  add_chars_size_lem src n has pos lt =
      let kept : kept_size s ≡ s.write_pos = ground arith in
      rw kept at (add_chars_size_kept src n has pos)

  -- Where memory is there, a string that is set up and whose write position is at the end of its
  -- buffer, as `stringaa_set_chars_size` leaves it, loses its last byte to an addition.
  pub add_chars_size_drops :
      (src : List ℕ) (n : ℕ)
      → n ≤ length src
      → 0 < n
      → s.write_pos ≡ s.buf_size
      → 0 < s.buf_size
      → (s' : Stringaa) × (add_chars_size malloc s (some src) n ≡ some (true, s'))
        × HoldsBytes s' (take (s.write_pos - 1) (bytes s) ++ take n src)
  add_chars_size_drops src n has pos e lt =
      let kept : kept_size s ≡ s.write_pos - 1 = ground arith in
      rw kept at (add_chars_size_kept src n has pos)

  -- Where memory is there, `stringaa_add` puts what is left to read of the second string, if that is
  -- not empty, behind what the first one holds, if the first one's write position is not at the end
  -- of its buffer. Both strings are set up, and their positions are inside their buffers.
  pub add_lem :
      (s2 : Stringaa) (l : List ℕ)
      → s2.buf ≡ some l
      → s2.is_init ≡ true
      → Writable s2
      → s2.read_pos < s2.write_pos
      → s.write_pos < s.buf_size
      → (s' : Stringaa) × (add malloc s s2 ≡ some (true, s'))
        × HoldsBytes s' (take s.write_pos (bytes s) ++ rest s2)
  unfolding add
  add_lem s2 l e init v2 left lt =
      let n = s2.write_pos - s2.read_pos in
      let has : n ≤ length (drop s2.read_pos (bytes s2)) =
        omega (arith, length-drop s2.read_pos (bytes s2), v2) in
      let same : take n (drop s2.read_pos (bytes s2)) ≡ rest s2 =
        take-drop (bytes s2) s2.read_pos n
        ∙ ap (λ k. drop s2.read_pos (take k (bytes s2))) (omega arith) in
      let (s', eq, h) = add_chars_size_lem (drop s2.read_pos (bytes s2)) n has (omega arith) lt in
      (s', ground (arith, eq), subst (λ r. HoldsBytes s' (take s.write_pos (bytes s) ++ r)) same h)
