-- ===== src/Http/Total.antt =====
-- `httpaa_parse_request_headers` comes to an end.
use httpaa.Base.{
  ℕ, zero, suc, ◌-◌, ◌≤◌, ◌<◌, ◌≡◌, refl, sym, ap, ◌&&◌, ◌∙◌, Bool, true, false, List, [], ◌∷◌,
  Option, none, some, arith, ◌==◌, Bool-cases, inl, inr, length,
}
use httpaa.Stringaa.Defs.{Stringaa, bytes, Readable, rest, begin_read_pos}
use httpaa.Stringaa.Moved.{Moved, Moves-trans}
use httpaa.Http.Lexer.{crlf, find_crlf}
use httpaa.Http.Defs.{Httpaa}
use httpaa.Http.RequestLine.{Parsed, request_line}
use httpaa.Http.LineMoves.{IsUnset, LineKept, request_line-LineKept}
use httpaa.Http.Request.{
  request, request_headers, parsed_end, parse_request_headers, any_header, headers_loop,
}
use httpaa.Http.Values.{HeldIn, Kept, HeldIn-Moved, Kept-then, any_header_keeps}
use httpaa.Http.Moves.{crlf-forward, crlf-Moves, find_crlf-Moves}
use httpaa.Http.Lines.{after_crlf, seek_crlf, FindResult, find_crlf_lem, crlf_lem}
use mathlib.Core.Bool.{false≢true}

seek_crlf-some : (l r : List ℕ) → seek_crlf l ≡ some r → (r' : List ℕ) × (after_crlf r ≡ some r')
seek_crlf-some [] r e = absurd cc
seek_crlf-some (x ∷ []) r e = absurd cc
seek_crlf-some (x ∷ (y ∷ l)) r e = elim (Bool-cases (x == 13 && y == 10)) [
  | inl b ↦ let e' : some (x ∷ (y ∷ l)) ≡ some r = rw b at e in (l, ground arith)
  | inr b ↦ seek_crlf-some (y ∷ l) r (rw b at e)
]

-- A line end that is found is there.
crlf-find_crlf :
    (s : Stringaa) → Readable s → (find_crlf s).0 ≡ true → (crlf (find_crlf s).1).0 ≡ true
crlf-find_crlf s v e = on (seek_crlf (rest s)) refl (find_crlf_lem s v)
  where
    on :
        (o : Option (List ℕ))
        → seek_crlf (rest s) ≡ o
        → FindResult s.read_pos s o (find_crlf s)
        → (crlf (find_crlf s).1).0 ≡ true
    on none eq r = absurd (false≢true (sym (ap (λ (t : Bool × Stringaa). t.0) r) ∙ e))
    on (some l) eq (t, at) =
        let (l', eq') = seek_crlf-some (rest s) l eq in
        let found = crlf_lem (find_crlf s).1 at.readable in (rw (at.left, eq') at found).0

Moved-Readable : (s s' : Stringaa) → Moved s s' → s.write_pos ≤ length (bytes s) → Readable s'
Moved-Readable s s' m v = record { read_in = m.within; write_in = rw (m.same_write, m.same_buf) v }

-- The loop over the header lines ends within as many rounds as bytes are left, and one more.
headers_loop_ends :
    (fuel : ℕ) (s0 : Stringaa) (http : Httpaa) (s : Stringaa)
    → s0.read_pos ≤ s0.write_pos
    → s0.write_pos ≤ length (bytes s0)
    → Moved s0 s
    → HeldIn s0 http.header
    → s.write_pos - s.read_pos < fuel
    → (r : Parsed) × (headers_loop fuel http s ≡ some r) × Kept s0 r
unfolding headers_loop
headers_loop_ends zero s0 http s h v m held lt = absurd (omega arith)
headers_loop_ends (suc fuel) s0 http s h v m held lt =
    let (is_header, http1, s1) = any_header http s in
    let (m1, held1) = Kept-then any_header any_header_keeps s0 http s h m held in
    let step = (any_header_keeps http s (HeldIn-Moved s0 s http.header m held) m.within).0 in
    let s2 = (crlf s1).1 in
    let m2 = crlf-Moves s1 m1.within in
    let s3 = (find_crlf s2).1 in
    let m3 = find_crlf-Moves s2 m2.within in
    let s4 = (crlf s3).1 in
    let m4 = crlf-Moves s3 m3.within in
    let m02 = Moves-trans s0 s1 s2 (λ _. m1) (λ _. m2) h in
    let m03 = Moves-trans s0 s2 s3 (λ _. m02) (λ _. m3) h in
    let m04 = Moves-trans s0 s3 s4 (λ _. m03) (λ _. m4) h in
    elim (Bool-cases is_header) [
      | inl e ↦ elim (Bool-cases (crlf s1).0) [
        | inl e1 ↦
            let (r, eq, k) =
              headers_loop_ends fuel s0 http1 s2 h v m02 held1
                (omega (arith, crlf-forward s1 m1.within e1, step, m1, m2)) in
            (r, ground (arith, e, e1, eq), k)
        | inr e1 ↦ ((false, http1, s2), ground (arith, e, e1), (m02, held1))
      ]
      | inr e ↦ elim (Bool-cases (crlf s1).0) [
        | inl e1 ↦ ((true, http1, s2), ground (arith, e, e1), (m02, held1))
        | inr e1 ↦ elim (Bool-cases (find_crlf s2).0) [
          | inl e2 ↦
              let readable = Moved-Readable s0 s2 m02 v in
              let (r, eq, k) = headers_loop_ends fuel s0 http1 s4 h v m04 held1 (
                omega (
                  arith,
                  crlf-forward s3 m3.within (crlf-find_crlf s2 readable e2),
                  step,
                  m1,
                  m2,
                  m3,
                  m4,
                )) in
              (r, ground (arith, e, e1, e2, eq), k)
          | inr e2 ↦ ((false, http1, s3), ground (arith, e, e1, e2), (m03, held1))
        ]
      ]
    ]

request_ends :
    (fuel : ℕ) (http : Httpaa) (s : Stringaa)
    → Readable s
    → IsUnset http.request_uri
    → HeldIn s http.header
    → s.write_pos < fuel
    → (r : Parsed) × (request fuel http s ≡ some r) × Kept s r
unfolding request
request_ends fuel http s v free held lt =
    on (request_line http s) (request_line-LineKept http s free v.read_in)
  where
    on :
        (r0 : Parsed)
        → LineKept http s r0
        → (r : Parsed) × (request_headers fuel r0 ≡ some r) × Kept s r
    on (true, http', s') k =
        headers_loop_ends fuel s http' s' v.read_in v.write_in k.moved (rw k.header held)
          (omega (arith, k.moved))
    on (false, http', s') k = ((false, http', s'), refl, (k.moved, rw k.header held))

-- What the parser returns, beside its flag: the string at some position inside it, and headers
-- that are parts of the string.
pub record ParsedFrom (s : Stringaa) (r : Parsed) : Type 0 where
  pub same_buf : r.2.buf ≡ s.buf
  pub same_write : r.2.write_pos ≡ s.write_pos
  pub within : r.2.read_pos ≤ s.write_pos
  pub held : HeldIn s r.1.header
  pub refused : r.0 ≡ false → r.2.read_pos ≡ s.read_pos

parsed_end-ParsedFrom :
    (s s0 : Stringaa) (r : Parsed)
    → s.read_pos ≤ s.write_pos
    → s0.buf ≡ s.buf
    → s0.write_pos ≡ s.write_pos
    → Kept s0 r
    → (r' : Parsed) × (parsed_end s.read_pos (some r) ≡ some r') × ParsedFrom s r'
parsed_end-ParsedFrom s s0 (true, http, s') h b w (m, held) = (
  (true, http, s'),
  refl,
  record {
    same_buf = m.same_buf ∙ b;
    same_write = m.same_write ∙ w;
    within = omega (arith, m);
    held = rw (b, w) at held;
    refused = λ e. absurd (false≢true (sym e));
  },
)
parsed_end-ParsedFrom s s0 (false, http, s') h b w (m, held) = (
  (false, http, record s' { read_pos = s.read_pos }),
  refl,
  record {
    same_buf = m.same_buf ∙ b;
    same_write = m.same_write ∙ w;
    within = h;
    held = rw (b, w) at held;
    refused = λ e. refl;
  },
)

-- The string is gone back to its start where the header is complete.
parse_request_headers_complete :
    (fuel : ℕ) (http : Httpaa) (s s3 : Stringaa)
    → Readable s
    → IsUnset http.request_uri
    → HeldIn s http.header
    → Moved s s3
    → s.write_pos < fuel
    → (r : Parsed) × (parsed_end s.read_pos (request fuel http (begin_read_pos s3).1) ≡ some r)
      × ParsedFrom s r
unfolding begin_read_pos
parse_request_headers_complete fuel http s s3 v free held m lt =
    let s0 = record s3 { read_pos = 0 } in
    let (r, eq, k) =
      request_ends fuel http s0
        (record { read_in = omega arith; write_in = rw (m.same_write, m.same_buf) v.write_in }) free
        (HeldIn-Moved s s3 http.header m held) (omega (arith, m)) in
    let (r', eq', p) = parsed_end-ParsedFrom s s0 r v.read_in m.same_buf m.same_write k in
    (r', ap (parsed_end s.read_pos) eq ∙ eq', p)

-- `httpaa_parse_request_headers` of a readable string, into a structure whose URI and headers are
-- not set, always returns: as many rounds of its loop as the string has bytes, and one more,
-- suffice. It leaves the bytes and the write position, and its read position stays in front of the
-- write position or at it, and is the old one if it returns 0. Every header that is set then is a
-- part of the string.
pub parse_request_headers_lem :
    (fuel : ℕ) (http : Httpaa) (s : Stringaa)
    → Readable s
    → IsUnset http.request_uri
    → ((i : ℕ) → (http.header i).is_init ≡ false)
    → s.write_pos < fuel
    → (r : Parsed) × (parse_request_headers fuel http s ≡ some r) × ParsedFrom s r
unfolding parse_request_headers
parse_request_headers_lem fuel http s v free unset lt =
    let held : HeldIn s http.header = λ i e. absurd (false≢true (sym (unset i) ∙ e)) in
    let s1 = (find_crlf s).1 in
    let m1 = find_crlf-Moves s v.read_in in
    let s2 = (crlf s1).1 in
    let m2 = crlf-Moves s1 m1.within in
    let s3 = (find_crlf s2).1 in
    let m3 = find_crlf-Moves s2 m2.within in
    let m02 = Moves-trans s s1 s2 (λ _. m1) (λ _. m2) v.read_in in
    let m03 = Moves-trans s s2 s3 (λ _. m02) (λ _. m3) v.read_in in
    let (r, eq, p) = parse_request_headers_complete fuel http s s3 v free held m03 lt in
    elim (Bool-cases (find_crlf s).0) [
      | inr e ↦ (
        (false, http, record s1 { read_pos = s.read_pos }),
        ground (arith, e),
        refused_early s1 m1 held,
      )
      | inl e ↦ elim (Bool-cases (find_crlf s2).0) [
        | inr e2 ↦ (
          (false, http, record s3 { read_pos = s.read_pos }),
          ground (arith, e, e2),
          refused_early s3 m03 held,
        )
        | inl e2 ↦ (r, ground (arith, e, e2, eq), p)
      ]
    ]
  where
    refused_early :
        (t : Stringaa)
        → Moved s t
        → HeldIn s http.header
        → ParsedFrom s (false, http, record t { read_pos = s.read_pos })
    refused_early t m held = record {
      same_buf = m.same_buf;
      same_write = m.same_write;
      within = v.read_in;
      held = held;
      refused = λ e. refl;
    }
