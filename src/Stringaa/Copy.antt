-- ===== src/Stringaa/Copy.antt =====
-- What `stringaa_copy` and its kin leave in the target.
use httpaa.Base.{
  ℕ, zero, ◌+◌, ◌-◌, ◌≤◌, ◌<◌, ◌≡◌, refl, sym, ap, ◌∙◌, Bool, true, false, not, ◌||◌, List, ◌++◌,
  Option, some, arith, leb, if◌then◌else◌, length, take, drop, set, length-append, length-take,
  length-drop, length-set, length-replicate, take-append_length, take-append_more, take-set_past,
  take-take,
}
use native.Mathlib.Nat.{zero-add}
use httpaa.Stringaa.Defs.{Stringaa, bytes, null_size, Readable, Writable}
use httpaa.Stringaa.Store.{memcpy, terminate, malloc_buf, copy_into, copy_chars_size, copy}

-- The string holds these bytes in front of its write position, is set up for reading from the
-- start, and keeps its positions inside its buffer.
pub record HoldsBytes (s : Stringaa) (l : List ℕ) : Type 0 where
  pub content : take s.write_pos (bytes s) ≡ l
  pub at_start : s.read_pos ≡ 0
  pub ready : s.is_init ≡ true
  pub writable : Writable s
  pub readable : Readable s

abbrev pub written : List ℕ → ℕ → List ℕ → ℕ → List ℕ
written dst i src n = take i dst ++ (take n src ++ drop (i + n) dst)

abbrev pub ended : Bool → List ℕ → ℕ → List ℕ
ended nt l i = if nt then set l i 0 else l

module _ (dst : List ℕ) (i : ℕ) (src : List ℕ) (n : ℕ) (has : n ≤ length src)
    (fits : i + n ≤ length dst) where
  pub memcpy-some : memcpy dst i src n ≡ some (written dst i src n)
  memcpy-some = ground arith

  pub length-written : length (written dst i src n) ≡ length dst
  length-written = omega (
    arith,
    length-append (take i dst) (take n src ++ drop (i + n) dst),
    length-append (take n src) (drop (i + n) dst),
    length-take i dst,
    length-take n src,
    length-drop (i + n) dst,
  )

  pub take-written : take (i + n) (written dst i src n) ≡ take i dst ++ take n src
  take-written =
      let front : length (take i dst) ≡ i = omega (arith, length-take i dst) in
      let middle : length (take n src) ≡ n = omega (arith, length-take n src) in
      ap (λ k. take (k + n) (written dst i src n)) (sym front)
      ∙ take-append_more (take i dst) (take n src ++ drop (i + n) dst) n
      ∙ ap (λ l. take i dst ++ l)
          (ap (λ k. take k (take n src ++ drop (i + n) dst)) (sym middle)
            ∙ take-append_length (take n src) (drop (i + n) dst))

pub terminate-some :
    (nt : Bool) (l : List ℕ) (i : ℕ) → i < length l → terminate nt l i ≡ some (ended nt l i)
terminate-some nt l i h = ground arith

pub length-ended : (nt : Bool) (l : List ℕ) (i : ℕ) → length (ended nt l i) ≡ length l
length-ended nt l i = ground (arith, length-set l i 0)

pub take-ended : (nt : Bool) (l : List ℕ) (i : ℕ) → take i (ended nt l i) ≡ take i l
take-ended true l i = take-set_past l i i 0 (omega arith)
take-ended false l i = refl

-- The state that `copy_into` leaves, if it has room.
abbrev pub copied : Stringaa → List ℕ → ℕ → Stringaa
copied s src n = record s {
  buf = some (ended s.is_null_terminated (written (bytes s) 0 src n) n);
  write_pos = n;
  read_pos = 0;
  is_init = true;
}

module _ (s : Stringaa) (src : List ℕ) (n : ℕ) (has : n ≤ length src) (room : n + 1 ≤ s.buf_size)
    (block : s.buf_size ≤ length (bytes s)) where
  pub copy_into-some : copy_into s src n ≡ some (true, copied s src n)
  copy_into-some = rw (memcpy-some (bytes s) 0 src n has (omega arith)) (
      rw (
        terminate-some s.is_null_terminated (written (bytes s) 0 src n) n
          (omega (arith, length-written (bytes s) 0 src n has (omega arith)))))

  pub copied-HoldsBytes : HoldsBytes (copied s src n) (take n src)
  copied-HoldsBytes =
      let l = written (bytes s) 0 src n in
      let size = length-ended s.is_null_terminated l n in
      let size' = length-written (bytes s) 0 src n has (omega arith) in
      record {
        content =
            take-ended s.is_null_terminated l n
            ∙ ap (λ k. take k l) (sym (zero-add n))
            ∙ take-written (bytes s) 0 src n has (omega arith);
        at_start = refl;
        ready = refl;
        writable = ground arith;
        readable = ground arith;
      }

module _ (malloc : ℕ → Option (List ℕ)) (s : Stringaa) (n : ℕ) {block : List ℕ}
    (given : malloc (n + 1) ≡ some block)
    (sized : s.is_alloc ≡ true → s.buf_size ≤ length (bytes s)) where
  -- The buffer that `stringaa_copy_chars_size` copies to.
  abbrev target : Stringaa
  target = if not s.is_alloc || leb s.buf_size (n + 1) then (malloc_buf malloc s (n + 1)).1 else s

  target-room : (n + 1 ≤ target.buf_size) × (target.buf_size ≤ length (bytes target))
  unfolding malloc_buf
  target-room = ground (arith, length-replicate {0} (n + 1) zero)

  -- Copying `n` bytes of a block that has as many, where `malloc` gives `n + 1` bytes, leaves
  -- exactly them in front of the write position, whether the target's buffer, whose size is right if
  -- it is an allocated one, is kept or a new one is taken.
  pub copy_chars_size_lem :
      (src : List ℕ)
      → n ≤ length src
      → (s' : Stringaa) × (copy_chars_size malloc s (some src) n ≡ some (true, s'))
        × HoldsBytes s' (take n src)
  unfolding copy_chars_size
  copy_chars_size_lem src has = (
    copied target src n,
    copy_into-some target src n has target-room.0 target-room.1,
    copied-HoldsBytes target src n has target-room.0 target-room.1,
  )

HoldsBytes-shrink :
    (s : Stringaa) (l : List ℕ) (w : ℕ)
    → HoldsBytes s l
    → w ≤ s.write_pos
    → HoldsBytes (record s { write_pos = w }) (take w l)
HoldsBytes-shrink s l w h le = record {
  content = sym (take-take (bytes s) w s.write_pos le) ∙ ap (take w) h.content;
  at_start = h.at_start;
  ready = h.ready;
  writable = omega (arith, h.writable);
  readable = omega (arith, h.readable, h.at_start);
}

-- Where `malloc` gives a block, `stringaa_copy` of an initialised string whose positions are inside
-- its buffer, to a string whose size is right if its buffer is an allocated one, leaves the bytes in
-- front of the source's write position in the target, ready to be read from the start.
pub copy_lem :
    (malloc : ℕ → Option (List ℕ)) (s1 s2 : Stringaa) (block l : List ℕ)
    → (s1.is_alloc ≡ true → s1.buf_size ≤ length (bytes s1))
    → s2.buf ≡ some l
    → s2.is_init ≡ true
    → Writable s2
    → malloc (s2.buf_size - null_size s2 + 1) ≡ some block
    → (s : Stringaa) × (copy malloc s1 s2 ≡ some (true, s)) × HoldsBytes s (take s2.write_pos l)
unfolding copy
copy_lem malloc s1 s2 block l sized e ready v given =
    let n = s2.buf_size - null_size s2 in
    let here : s2.buf_size ≤ length l = rw e at v.block in
    let fits : s2.write_pos ≤ n = ground arith in
    let (s, eq, h) = copy_chars_size_lem malloc s1 n given sized l (omega arith) in
    let size : s.write_pos ≡ n = omega (
      arith,
      ap length h.content,
      length-take s.write_pos (bytes s),
      length-take n l,
      h.readable.write_in,
    ) in
    (
      record s { write_pos = s2.write_pos },
      ground (arith, eq),
      rw (take-take l s2.write_pos n fits) at
          (HoldsBytes-shrink s (take n l) s2.write_pos h (omega arith)),
    )
