-- ===== src/Stringaa/Search/Found.antt =====
-- What `stringaa_find` finds.
use httpaa.Base.{
  ℕ, zero, suc, ◌+◌, ◌*◌, ◌≤◌, ◌<◌, ◌≡◌, ◌≢◌, refl, sym, ap, subst, ◌∙◌, Bool, true, false, ◌&&◌,
  List, [], ◌∷◌, Option, none, some, arith, ◌==◌, if◌then◌else◌, length, take, Bool-cases, inl, inr,
  length-take, length-drop,
}
use native.Mathlib.Nat.{suc-mul}
use native.Mathlib.Numerals.{add-one}
use httpaa.Stringaa.Defs.{Stringaa, bytes, next_read_pos, begin_read_pos}
use httpaa.Stringaa.Rests.{begin_read_pos-Rests, Rests, get_char-Rests, next_read_pos-more_iff}
use httpaa.Stringaa.Find.{has_buf, find_loop, find}
use httpaa.Stringaa.Search.{begins, search, NoZero, search-short}
use httpaa.Stringaa.Search.Rounds.{
  round_same, round_found, round_end, round_differs, round_over, rounds, Tried, Tried-same, back_at,
  next_place,
}

module _ (y0 : ℕ) (k' : List ℕ) (nz : NoZero (y0 ∷ k')) where
  abbrev word : List ℕ
  word = y0 ∷ k'

  -- What the loop finds within this fuel.
  abbrev Finds : ℕ → Type 0
  Finds fuel =
      (pos i x0 x y : ℕ) (f : Bool) (s q : Stringaa) (l a b : List ℕ)
      → Tried pos f s q i word (x0 ∷ l) (x ∷ a) (y ∷ b)
      → rounds (length word + 1) l + length (y ∷ b) < fuel
      → (find_loop fuel pos f s q).0 ≡ search word i (x0 ∷ l)

  round-Finds_same :
      (fuel : ℕ)
      → Finds fuel
      → (pos i x0 x y : ℕ) (f : Bool) (s q : Stringaa) (l a b : List ℕ)
      → Tried pos f s q i word (x0 ∷ l) (x ∷ a) (y ∷ b)
      → rounds (length word + 1) l + length (y ∷ b) < suc fuel
      → (x == y) ≡ true
      → (find_loop (suc fuel) pos f s q).0 ≡ search word i (x0 ∷ l)
  round-Finds_same fuel later pos i x0 x y f s q l a [] t lt e =
      let found : begins word (x0 ∷ l) ≡ true = t.same ∙ ap (λ v. v && true) e in
      round_found fuel pos f s q x y a [] t.here t.search_here t.no_zero.0 e refl
      ∙ ap some t.place
      ∙ sym (ap (λ v. if v then some i else search word (i + 1) l) found)
  round-Finds_same fuel later pos i x0 x y f s q l [] (y' ∷ b) t lt e =
      let not_here : begins word (x0 ∷ l) ≡ false = t.same ∙ ap (λ v. v && false) e in
      round_end fuel pos f s q x y [] (y' ∷ b) t.here t.search_here t.no_zero.0 e refl refl
      ∙ sym (search-short word (i + 1) l (omega (arith, t.lengths)))
      ∙ sym (ap (λ v. if v then some i else search word (i + 1) l) not_here)
  round-Finds_same fuel later pos i x0 x y f s q l (x' ∷ a) (y' ∷ b) t lt e =
      ap (λ (r : Option ℕ × Stringaa × Stringaa). r.0)
        (round_same fuel pos f s q x y (x' ∷ a) (y' ∷ b) t.here t.search_here t.no_zero.0 e refl
          refl)
      ∙ later (if f then pos else s.read_pos) i x0 x' y' true (next_read_pos s).1
          (next_read_pos q).1 l a b (Tried-same pos i x x' y y' f s q word (x0 ∷ l) a b t e)
          (omega (arith, lt))

  round-Finds_other :
      (fuel : ℕ)
      → Finds fuel
      → (pos i x0 x y : ℕ) (f : Bool) (s q : Stringaa) (l a b : List ℕ)
      → Tried pos f s q i word (x0 ∷ l) (x ∷ a) (y ∷ b)
      → rounds (length word + 1) l + length (y ∷ b) < suc fuel
      → (x == y) ≡ false
      → (find_loop (suc fuel) pos f s q).0 ≡ search word i (x0 ∷ l)
  round-Finds_other fuel later pos i x0 x y f s q l a b t lt e =
      let not_here : begins word (x0 ∷ l) ≡ false = t.same ∙ ap (λ v. v && begins b a) e in
      on l t lt (back_at fuel pos i x y f s q word (x0 ∷ l) a b t)
      ∙ sym (ap (λ v. if v then some i else search word (i + 1) l) not_here)
    where
      on :
          (l : List ℕ)
          → Tried pos f s q i word (x0 ∷ l) (x ∷ a) (y ∷ b)
          → rounds (length word + 1) l + length (y ∷ b) < suc fuel
          → Rests (if f then record s { read_pos = pos } else s) (x0 ∷ l)
            × ((if f then record s { read_pos = pos } else s).read_pos ≡ i)
            × Rests (if f then (begin_read_pos q).1 else q) word
            × (record (if f then (begin_read_pos q).1 else q) { read_pos = 0 }
                ≡ record q { read_pos = 0 })
          → (find_loop (suc fuel) pos f s q).0 ≡ search word (i + 1) l
      on [] t lt (h, at, hq, start) =
          round_over fuel pos f s q x y a b t.here t.search_here t.no_zero.0 e
            (next_read_pos-more_iff (if f then record s { read_pos = pos } else s) (x0 ∷ []) h)
      on (x1 ∷ l) t lt (h, at, hq, start) =
          ap (λ (r : Option ℕ × Stringaa × Stringaa). r.0)
            (round_differs fuel pos f s q x y a b t.here t.search_here t.no_zero.0 e (
              next_read_pos-more_iff (if f then record s { read_pos = pos } else s) (x0 ∷ (x1 ∷ l))
                h))
          ∙ later pos (i + 1) x1 x1 y0 false
              (next_read_pos (if f then record s { read_pos = pos } else s)).1
              (if f then (begin_read_pos q).1 else q) l l k'
              (next_place pos i x0 x1 (if f then record s { read_pos = pos } else s)
                (if f then (begin_read_pos q).1 else q) word l h at hq (rw start t.search_start) nz)
              (omega (arith, lt))

  loop_lem : (fuel : ℕ) → Finds fuel
  loop_lem zero pos i x0 x y f s q l a b t lt = absurd (omega arith)
  loop_lem (suc fuel) pos i x0 x y f s q l a b t lt = elim (Bool-cases (x == y)) [
    | inl e ↦ round-Finds_same fuel (loop_lem fuel) pos i x0 x y f s q l a b t lt e
    | inr e ↦ round-Finds_other fuel (loop_lem fuel) pos i x0 x y f s q l a b t lt e
  ]

rounds-length : (m : ℕ) (l : List ℕ) → rounds m l ≡ length l * m
rounds-length m [] = ground arith
rounds-length m (x ∷ l) = rw (rounds-length m l) (omega arith)

find_empty :
    (fuel pos y : ℕ) (s q : Stringaa) (b : List ℕ)
    → Rests s []
    → Rests q (y ∷ b)
    → y ≢ 0
    → (find_loop fuel pos false s q).0 ≡ none
unfolding find_loop
find_empty zero pos y s q b hs hq nz = refl
find_empty (suc fuel) pos y s q b hs hq nz =
    ground
      (arith, get_char-Rests s [] hs, get_char-Rests q (y ∷ b) hq, next_read_pos-more_iff s [] hs)

whole : (s : Stringaa) (l : List ℕ) → Rests s l → s.read_pos ≡ 0 → s.write_pos ≡ length l
whole s l h z = omega (
  arith,
  ap length h.left,
  length-drop s.read_pos (take s.write_pos (bytes s)),
  length-take s.write_pos (bytes s),
  h.readable,
)

enough :
    (n v w z : ℕ) (l : List ℕ)
    → length l ≡ n
    → w ≡ suc n
    → z ≡ suc v
    → rounds (suc v + 1) l + suc v < (w + 1) * (z + 1)
enough n v w z l e f g =
    rw (rounds-length (suc v + 1) l, e, f, g, add-one (suc n))
      (omega (arith, suc-mul (suc n) (suc v + 1), suc-mul n (suc v + 1)))

-- Both strings stand at their starts.
find_on :
    (s q : Stringaa) (l k : List ℕ)
    → Rests s l
    → Rests q k
    → s.read_pos ≡ 0
    → q.read_pos ≡ 0
    → 0 < length k
    → NoZero k
    → (find_loop ((s.write_pos + 1) * (q.write_pos + 1)) 0 false s q).0 ≡ search k 0 l
find_on s q l [] hs hq zs zq pos nz = absurd (omega arith)
find_on s q [] (y ∷ b) hs hq zs zq pos nz =
    find_empty ((s.write_pos + 1) * (q.write_pos + 1)) 0 y s q b hs hq nz.0
find_on s q (x ∷ l) (y ∷ b) hs hq zs zq pos nz =
    loop_lem y b nz ((s.write_pos + 1) * (q.write_pos + 1)) 0 0 x x y false s q l l b
      (record {
        here = hs;
        search_here = hq;
        start = subst (λ n. Rests (record s { read_pos = n }) (x ∷ l)) zs hs;
        search_start = subst (λ n. Rests (record q { read_pos = n }) (y ∷ b)) zq hq;
        place = zs;
        same = refl;
        lengths = omega arith;
        none_yet = λ _. (refl, refl);
        some_yet = λ e. absurd cc;
        no_zero = nz;
      })
      (enough (length l) (length b) s.write_pos q.write_pos l refl (whole s (x ∷ l) hs zs)
        (whole q (y ∷ b) hq zq))

-- On two strings that are set up, whose write positions are inside their blocks, and the second of
-- which holds at least one byte and no 0, `stringaa_find` returns the first position at which the
-- bytes of the second one stand in the first one, and -1 if they stand nowhere.
pub find_lem :
    (s q : Stringaa)
    → has_buf s.buf ≡ true
    → s.is_init ≡ true
    → s.write_pos ≤ length (bytes s)
    → has_buf q.buf ≡ true
    → q.is_init ≡ true
    → q.write_pos ≤ length (bytes q)
    → 0 < q.write_pos
    → NoZero (take q.write_pos (bytes q))
    → (find s q).0 ≡ search (take q.write_pos (bytes q)) 0 (take s.write_pos (bytes s))
unfolding find begin_read_pos
find_lem s q sb si sv qb qi qv pos nz =
    let found =
      find_on (begin_read_pos s).1 (begin_read_pos q).1 (take s.write_pos (bytes s))
        (take q.write_pos (bytes q)) (begin_read_pos-Rests s sv) (begin_read_pos-Rests q qv) refl
        refl (omega (arith, length-take q.write_pos (bytes q))) nz in
    ground (arith, sb, si, qb, qi, found)
