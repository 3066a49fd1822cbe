-- ===== src/Uri/Scan/Spans.antt =====
-- The loops over a class with escaped characters.
use httpaa.Base.{
  ℕ, zero, suc, ◌≤◌, ◌<◌, ◌≡◌, refl, ap, ◌∙◌, Bool, true, false, ◌||◌, List, [], ◌∷◌, arith, ◌==◌,
  if◌then◌else◌, length, head_or, tail, Bool-cases, inl, inr,
}
use httpaa.Stringaa.Defs.{Stringaa, rest, Readable, next_read_pos}
use httpaa.Stringaa.Rests.{Rests, next_read_pos-Rests, get_char-Rests}
use httpaa.Uri.Defs.{escaped, with_escaped, scan, scan_all}
use httpaa.Uri.Scan.{scan_round, scan_stop, rest-short}
use httpaa.Uri.Scan.Escaped.{is_escape, escaped_three, escaped_not, escaped_two, escaped_one}

-- What a loop over the class `A || ESCAPED_CHARS || B` leaves. Behind an escaped character the next
-- one is passed over, whatever it is, and a lone `%` at the end is read.
abbrev pub spans : (ℕ → Bool) → (ℕ → Bool) → List ℕ → List ℕ
spans a b [] = []
spans a b (c ∷ []) = if a c || c == b'%' || b c then [] else c ∷ []
spans a b (c ∷ (x ∷ [])) = elim (a c || b c) [ true ↦ spans a b (x ∷ []) | false ↦ c ∷ (x ∷ []) ]
spans a b (c ∷ (x ∷ (y ∷ []))) = elim (a c) [
  | true ↦ spans a b (x ∷ (y ∷ []))
  | false ↦ elim (is_escape c x y) [
    | true ↦ []
    | false ↦ elim (b c) [ true ↦ spans a b (x ∷ (y ∷ [])) | false ↦ c ∷ (x ∷ (y ∷ [])) ]
  ]
]
spans a b (c ∷ (x ∷ (y ∷ (z ∷ l)))) = elim (a c) [
  | true ↦ spans a b (x ∷ (y ∷ (z ∷ l)))
  | false ↦ elim (is_escape c x y) [
    | true ↦ spans a b l
    | false ↦ elim (b c) [ true ↦ spans a b (x ∷ (y ∷ (z ∷ l))) | false ↦ c ∷ (x ∷ (y ∷ (z ∷ l))) ]
  ]
]

module _ (a b : ℕ → Bool) where
  class_plain : (s : Stringaa) (c : ℕ) → a c ≡ true → with_escaped a b s c ≡ (true, s)
  class_plain s c e = rw e refl

  class_escaped :
      (s s' : Stringaa) (c : ℕ)
      → a c ≡ false
      → escaped s ≡ (true, s')
      → with_escaped a b s c ≡ (true, s')
  class_escaped s s' c e f = rw (e, f) refl

  class_other :
      (s s' : Stringaa) (c : ℕ)
      → a c ≡ false
      → escaped s ≡ (false, s')
      → with_escaped a b s c ≡ (b c, s')
  class_other s s' c e f = rw (e, f) refl

  -- What the loop does from a list on.
  abbrev Leaves : ℕ → List ℕ → Type 0
  Leaves fuel k =
      (t : Stringaa)
      → Rests t k
      → Rests (scan fuel (with_escaped a b) t (head_or k 0)) (spans a b k)

  span_next :
      (fuel : ℕ) (s : Stringaa) (c : ℕ) (k : List ℕ)
      → with_escaped a b s c ≡ (true, s)
      → Rests s (c ∷ k)
      → Leaves fuel k
      → Rests (scan (suc fuel) (with_escaped a b) s c) (spans a b k)
  span_next fuel s c k e h later =
      scan_round fuel (with_escaped a b) s s c (c ∷ k) (spans a b k) e h (ap (spans a b)) later

  -- The end of the string, and a last character.
  spans_nil : (fuel : ℕ) → a 0 ≡ false → b 0 ≡ false → Leaves (suc fuel) []
  unfolding escaped
  spans_nil fuel za zb t h =
      let none_here : escaped t ≡ (false, t) = ground (arith, get_char-Rests t [] h) in
      rw
        (scan_stop fuel (with_escaped a b) t t 0
          (class_other t t 0 za none_here ∙ ap (λ v. (v, t)) zb))
        h

  spans_one : (fuel c : ℕ) → Leaves fuel [] → Leaves (suc fuel) (c ∷ [])
  spans_one fuel c later t h =
      let t1 = (next_read_pos t).1 in
      let h1 = next_read_pos-Rests t (c ∷ []) h in
      elim (Bool-cases (a c)) [
        | inl e ↦ rw e (span_next fuel t c [] (class_plain t c e) h later)
        | inr e ↦ elim (Bool-cases (c == b'%')) [
          | inl p ↦
              let one : escaped t ≡ (false, t1) =
                escaped_one t c h ∙ ap (λ v. (false, if v then t1 else t)) p in
              elim (Bool-cases (b c)) [
                | inl f ↦
                    rw (e, p)
                      (scan_round fuel (with_escaped a b) t t1 c [] []
                        (class_other t t1 c e one ∙ ap (λ v. (v, t1)) f) h1 (λ _. refl) later)
                | inr f ↦
                    rw
                      (
                        e,
                        p,
                        scan_stop fuel (with_escaped a b) t t1 c
                            (class_other t t1 c e one ∙ ap (λ v. (v, t1)) f),
                      )
                      h1
              ]
          | inr p ↦
              let one : escaped t ≡ (false, t) =
                escaped_one t c h ∙ ap (λ v. (false, if v then t1 else t)) p in
              elim (Bool-cases (b c)) [
                | inl f ↦
                    rw (e, p, f)
                      (span_next fuel t c [] (class_other t t c e one ∙ ap (λ v. (v, t)) f) h later)
                | inr f ↦
                    rw
                      (
                        e,
                        p,
                        f,
                        scan_stop fuel (with_escaped a b) t t c
                            (class_other t t c e one ∙ ap (λ v. (v, t)) f),
                      )
                      h
              ]
        ]
      ]

  spans_pair :
      (c x : ℕ)
      → spans a b (c ∷ (x ∷ [])) ≡ (if a c || b c then spans a b (x ∷ []) else c ∷ (x ∷ []))
  spans_pair c x = ground arith

  spans_two : (fuel c x : ℕ) → Leaves fuel (x ∷ []) → Leaves (suc fuel) (c ∷ (x ∷ []))
  spans_two fuel c x later t h =
      let none_here = escaped_two t c x h in
      rw (spans_pair c x) (elim (Bool-cases (a c)) [
        | inl e ↦ rw e (span_next fuel t c (x ∷ []) (class_plain t c e) h later)
        | inr e ↦ elim (Bool-cases (b c)) [
          | inl f ↦
              rw (e, f)
                (span_next fuel t c (x ∷ []) (class_other t t c e none_here ∙ ap (λ v. (v, t)) f) h
                  later)
          | inr f ↦
              rw
                (
                  e,
                  f,
                  scan_stop fuel (with_escaped a b) t t c
                      (class_other t t c e none_here ∙ ap (λ v. (v, t)) f),
                )
                h
        ]
      ])

  -- The list of at least three characters, whatever stands behind them.
  spans_more :
      (c x y : ℕ) (k : List ℕ)
      → spans a b (c ∷ (x ∷ (y ∷ k))) ≡ (
          if a c
          then spans a b (x ∷ (y ∷ k))
          else if is_escape c x y
          then spans a b (tail k)
          else if b c
          then spans a b (x ∷ (y ∷ k))
          else c ∷ (x ∷ (y ∷ k)))
  spans_more c x y [] = ground arith
  spans_more c x y (z ∷ l) = ground arith

  spans_three :
      (fuel c x y : ℕ) (k : List ℕ)
      → Leaves fuel (x ∷ (y ∷ k))
      → Leaves fuel (tail k)
      → Leaves (suc fuel) (c ∷ (x ∷ (y ∷ k)))
  spans_three fuel c x y k later behind t h = rw (spans_more c x y k) (elim (Bool-cases (a c)) [
    | inl e ↦ rw e (span_next fuel t c (x ∷ (y ∷ k)) (class_plain t c e) h later)
    | inr e ↦ elim (Bool-cases (is_escape c x y)) [
      | inl p ↦
          let (found, h') = escaped_three t c x y k h p in
          rw (e, p)
            (scan_round fuel (with_escaped a b) t (escaped t).1 c k (spans a b (tail k))
              (class_escaped t (escaped t).1 c e (ap (λ v. (v, (escaped t).1)) found)) h'
              (ap (spans a b)) behind)
      | inr p ↦
          let none_here = escaped_not t c x y k h p in
          elim (Bool-cases (b c)) [
            | inl f ↦
                rw (e, p, f)
                  (span_next fuel t c (x ∷ (y ∷ k))
                    (class_other t t c e none_here ∙ ap (λ v. (v, t)) f) h later)
            | inr f ↦
                rw
                  (
                    e,
                    p,
                    f,
                    scan_stop fuel (with_escaped a b) t t c
                        (class_other t t c e none_here ∙ ap (λ v. (v, t)) f),
                  )
                  h
          ]
    ]
  ])

  length-tail : (k : List ℕ) → length (tail k) ≤ length k
  length-tail [] = omega arith
  length-tail (z ∷ l) = omega arith

  scan_spans : (fuel : ℕ) (k : List ℕ) → a 0 ≡ false → b 0 ≡ false → length k < fuel → Leaves fuel k
  scan_spans zero k za zb lt = absurd (omega arith)
  scan_spans (suc fuel) [] za zb lt = spans_nil fuel za zb
  scan_spans (suc fuel) (c ∷ []) za zb lt =
      spans_one fuel c (scan_spans fuel [] za zb (omega arith))
  scan_spans (suc fuel) (c ∷ (x ∷ [])) za zb lt =
      spans_two fuel c x (scan_spans fuel (x ∷ []) za zb (omega arith))
  scan_spans (suc fuel) (c ∷ (x ∷ (y ∷ k))) za zb lt =
      spans_three fuel c x y k (scan_spans fuel (x ∷ (y ∷ k)) za zb (omega arith))
        (scan_spans fuel (tail k) za zb (omega (arith, length-tail k)))

-- On a readable string, the loop over a class `A || ESCAPED_CHARS || B` whose tests do not take 0
-- leaves what `spans` leaves: it drops the bytes of A and of B and the escaped characters from the
-- front, but behind an escaped character it drops the next byte too, whatever it is, and it drops a
-- `%` that is the last byte.
pub scan_all-spans :
    (a b : ℕ → Bool) (s : Stringaa)
    → a 0 ≡ false
    → b 0 ≡ false
    → Readable s
    → (rest (scan_all (with_escaped a b) s) ≡ spans a b (rest s))
      × Readable (scan_all (with_escaped a b) s)
unfolding scan_all
scan_all-spans a b s za zb v =
    let h : Rests s (rest s) = record { left = refl; readable = v } in
    let r = scan_spans a b (suc s.write_pos) (rest s) za zb (rest-short s) s h in
    rw (get_char-Rests s (rest s) h) (r.left, r.readable)
