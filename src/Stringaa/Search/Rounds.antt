-- ===== src/Stringaa/Search/Rounds.antt =====
-- The rounds of the loop of `stringaa_find`.
use httpaa.Base.{
  ℕ, suc, ◌+◌, ◌≤◌, ◌≡◌, ◌≢◌, refl, ap, subst, ◌∙◌, Bool, true, false, ◌&&◌, List, [], ◌∷◌, none,
  some, arith, ◌==◌, if◌then◌else◌, length,
}
use httpaa.Stringaa.Defs.{Stringaa, next_read_pos, begin_read_pos}
use httpaa.Stringaa.Cursor.{is_nil}
use httpaa.Stringaa.Rests.{
  Rests, next_read_pos-Rests, get_char-Rests, next_read_pos-more_iff, next_read_pos-back,
}
use httpaa.Stringaa.Moved.{next_read_pos-more}
use httpaa.Stringaa.Find.{find_loop}
use httpaa.Stringaa.Search.{begins, NoZero}

-- A round at which the characters differ, or the strings end, or both go on.
module _ (fuel pos : ℕ) (f : Bool) (s q : Stringaa) (x y : ℕ) (a b : List ℕ) (hs : Rests s (x ∷ a))
    (hq : Rests q (y ∷ b)) (nz : y ≢ 0) where
  pub round_same :
      (x == y) ≡ true
      → is_nil a ≡ false
      → is_nil b ≡ false
      → find_loop (suc fuel) pos f s q
        ≡ find_loop fuel
            (if f then pos else s.read_pos)
            true
            (next_read_pos s).1
            (next_read_pos q).1
  unfolding find_loop
  round_same e na nb = ground (
    arith,
    get_char-Rests s (x ∷ a) hs,
    get_char-Rests q (y ∷ b) hq,
    next_read_pos-more_iff s (x ∷ a) hs,
    next_read_pos-more_iff q (y ∷ b) hq,
  )

  pub round_found :
      (x == y) ≡ true
      → b ≡ []
      → (find_loop (suc fuel) pos f s q).0 ≡ some (if f then pos else s.read_pos)
  unfolding find_loop
  round_found e nb = ground (
    arith,
    get_char-Rests s (x ∷ a) hs,
    get_char-Rests q (y ∷ b) hq,
    next_read_pos-more_iff q (y ∷ b) hq,
  )

  pub round_end :
      (x == y) ≡ true → a ≡ [] → is_nil b ≡ false → (find_loop (suc fuel) pos f s q).0 ≡ none
  unfolding find_loop
  round_end e na nb = ground (
    arith,
    get_char-Rests s (x ∷ a) hs,
    get_char-Rests q (y ∷ b) hq,
    next_read_pos-more_iff s (x ∷ a) hs,
    next_read_pos-more_iff q (y ∷ b) hq,
  )

  -- What the round goes back to where the characters differ.
  abbrev pub back : Stringaa
  back = if f then record s { read_pos = pos } else s

  abbrev pub search_back : Stringaa
  search_back = if f then (begin_read_pos q).1 else q

  pub round_differs :
      (x == y) ≡ false
      → (next_read_pos back).0 ≡ true
      → find_loop (suc fuel) pos f s q ≡ find_loop fuel pos false (next_read_pos back).1 search_back
  unfolding find_loop
  round_differs e more = ground (arith, get_char-Rests s (x ∷ a) hs, get_char-Rests q (y ∷ b) hq)

  pub round_over :
      (x == y) ≡ false → (next_read_pos back).0 ≡ false → (find_loop (suc fuel) pos f s q).0 ≡ none
  unfolding find_loop
  round_over e more = ground (arith, get_char-Rests s (x ∷ a) hs, get_char-Rests q (y ∷ b) hq)

-- The rounds that a string of these bytes needs, with `m` at each place.
abbrev pub rounds : ℕ → List ℕ → ℕ
rounds m [] = 0
rounds m (x ∷ l) = rounds m l + m

-- A round begins: the place `i` is tried, from which `l` is left; of `k`, the bytes `b` have still
-- to be found, at the bytes `a`.
pub record Tried (pos : ℕ) (f : Bool) (s q : Stringaa) (i : ℕ) (k l a b : List ℕ) : Type 0 where
  pub here : Rests s a
  pub search_here : Rests q b
  pub start : Rests (record s { read_pos = i }) l
  pub search_start : Rests (record q { read_pos = 0 }) k
  pub place : (if f then pos else s.read_pos) ≡ i
  pub same : begins k l ≡ begins b a
  pub lengths : length l + length b ≡ length k + length a
  pub none_yet : f ≡ false → (l ≡ a) × (k ≡ b)
  pub some_yet : f ≡ true → length a + 1 ≤ length l
  pub no_zero : NoZero b

pub Tried-same :
    (pos i x x' y y' : ℕ) (f : Bool) (s q : Stringaa) (k l a b : List ℕ)
    → Tried pos f s q i k l (x ∷ (x' ∷ a)) (y ∷ (y' ∷ b))
    → (x == y) ≡ true
    → Tried
        (if f then pos else s.read_pos)
        true
        (next_read_pos s).1
        (next_read_pos q).1
        i
        k
        l
        (x' ∷ a)
        (y' ∷ b)
Tried-same pos i x x' y y' f s q k l a b t e = record {
  here = next_read_pos-Rests s (x ∷ (x' ∷ a)) t.here;
  search_here = next_read_pos-Rests q (y ∷ (y' ∷ b)) t.search_here;
  start = rw (next_read_pos-back s i) t.start;
  search_start = rw (next_read_pos-back q 0) t.search_start;
  place = t.place;
  same = t.same ∙ ap (λ v. v && begins (y' ∷ b) (x' ∷ a)) e;
  lengths = omega (arith, t.lengths);
  none_yet = λ h. absurd cc;
  some_yet = λ _. longer f t.none_yet t.some_yet;
  no_zero = t.no_zero.1;
}
  where
    longer :
        (g : Bool)
        → (g ≡ false → (l ≡ x ∷ (x' ∷ a)) × (k ≡ y ∷ (y' ∷ b)))
        → (g ≡ true → length (x ∷ (x' ∷ a)) + 1 ≤ length l)
        → length (x' ∷ a) + 1 ≤ length l
    longer true n m = omega (arith, m refl)
    longer false n m = omega (arith, ap length (n refl).0)

-- Where the string stands again at the place that is tried.
pub back_at :
    (fuel pos i x y : ℕ) (f : Bool) (s q : Stringaa) (k l a b : List ℕ)
    → Tried pos f s q i k l (x ∷ a) (y ∷ b)
    → Rests (if f then record s { read_pos = pos } else s) l
      × ((if f then record s { read_pos = pos } else s).read_pos ≡ i)
      × Rests (if f then (begin_read_pos q).1 else q) k
      × (record (if f then (begin_read_pos q).1 else q) { read_pos = 0 }
          ≡ record q { read_pos = 0 })
unfolding begin_read_pos
back_at fuel pos i x y true s q k l a b t = (rw t.place t.start, t.place, t.search_start, refl)
back_at fuel pos i x y false s q k l a b t =
    (rw (t.none_yet refl).0 t.here, t.place, rw (t.none_yet refl).1 t.search_here, refl)

-- The next place is tried, on strings that stand at this one.
pub next_place :
    (pos i y x' : ℕ) (s0 q1 : Stringaa) (k l : List ℕ)
    → Rests s0 (y ∷ (x' ∷ l))
    → s0.read_pos ≡ i
    → Rests q1 k
    → Rests (record q1 { read_pos = 0 }) k
    → NoZero k
    → Tried pos false (next_read_pos s0).1 q1 (i + 1) k (x' ∷ l) (x' ∷ l) k
next_place pos i y x' s0 q1 k l h at hq start nz =
    let more : (next_read_pos s0).0 ≡ true = next_read_pos-more_iff s0 (y ∷ (x' ∷ l)) h in
    let moved : (next_read_pos s0).1.read_pos ≡ i + 1 =
      next_read_pos-more s0 more ∙ ap (λ n. n + 1) at in
    let h1 = next_read_pos-Rests s0 (y ∷ (x' ∷ l)) h in
    record {
      here = h1;
      search_here = hq;
      start = subst (λ n. Rests (record ((next_read_pos s0).1) { read_pos = n }) (x' ∷ l)) moved h1;
      search_start = start;
      place = moved;
      same = refl;
      lengths = omega arith;
      none_yet = λ _. (refl, refl);
      some_yet = λ e. absurd cc;
      no_zero = nz;
    }
