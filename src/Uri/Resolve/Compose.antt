-- ===== src/Uri/Resolve/Compose.antt =====
-- url/uriaa_rfc2396_resolve.h: the URI that uriaa_resolve_uri puts together.
use mathlib.Core.List.{append_assoc}
use httpaa.Base.{
  ℕ, ◌+◌, ◌≤◌, ◌≡◌, refl, true, false, ◌&&◌, ◌∙◌, sym, List, [], ◌∷◌, ◌++◌, Option, none, some,
  Bool, ltb, length, take, get_elem?, length-append, length-take, arith, subst, Bool-cases, inl,
  inr, codes,
}
use httpaa.Stringaa.Defs.{Stringaa, bytes}
use httpaa.Uri.Defs.{Uriaa, Part}
use httpaa.Uri.Segments.Result.{store_middle, at_end}
use httpaa.Uri.Resolve.{
  put_uri, put_zero, target_path, copy_size, uri_size, part_size, path_size, compose, uri_of,
}
use httpaa.Uri.Resolve.Text.{
  copied, marked, named, path_text, uri_text, IsWhole, put_path_lem, target_reaches, put_scheme_lem,
  put_before_lem,
}

-- The block holds `t` and a zero.
abbrev pub Holds : List ℕ → Option (List ℕ × ℕ) → Type 0
Holds t found =
    (buf : List ℕ) × (found ≡ some (buf, length t))
    × (take (length t) buf ≡ t)
    × (get_elem? buf (length t) ≡ some 0)

put_end :
    (size : ℕ) (t rest : List ℕ)
    → length t + length rest ≡ size
    → length t + 1 ≤ size
    → Holds t (put_zero (t ++ rest, length t))
put_end size t [] n h = absurd (omega arith)
put_end size t (x ∷ rest) n h =
    let (a, b) = at_end t rest (t ++ 0 ∷ rest) 0 (length t) refl refl in
    (t ++ 0 ∷ rest, rw (store_middle t x 0 rest) refl, a, b)

parts_assoc : (a b c d e : List ℕ) → (((a ++ b) ++ c) ++ d) ++ e ≡ a ++ (b ++ (c ++ (d ++ e)))
parts_assoc a b c d e =
    append_assoc ((a ++ b) ++ c) d e
    ∙ (append_assoc (a ++ b) c (d ++ e) ∙ append_assoc a b (c ++ (d ++ e)))

put_uri_lem :
    (whole : Bool) (u : Uriaa) (block : List ℕ)
    → IsWhole u
    → length (uri_text whole u) + 1 ≤ length block
    → Holds (uri_text whole u) (put_uri whole u block)
unfolding put_uri
put_uri_lem whole u block h k =
    let size = length block in
    let a = named (u.parts Part.scheme) in
    let b = marked (codes "//") (u.parts Part.authority) in
    let c = path_text (target_path whole u) in
    let d = marked (codes "?") (u.parts Part.query) in
    let e = marked (codes "#") (u.parts Part.fragment) in
    let n1 = length-append a (b ++ (c ++ (d ++ e))) in
    let n2 = length-append b (c ++ (d ++ e)) in
    let n3 = length-append c (d ++ e) in
    let n4 = length-append d e in
    let (r1, e1, m1) =
      put_scheme_lem size [] (u.parts Part.scheme) (h Part.scheme) block (omega arith)
        (omega (arith, n1)) in
    rw e1 (
      let (r2, e2, m2) =
        put_before_lem size a (u.parts Part.authority) (h Part.authority) (codes "//") r1 m1
          (omega (arith, n1, n2)) in
      rw e2 (
        let (r3, e3, m3) =
          put_path_lem size (a ++ b) (target_path whole u) r2 (target_reaches whole u h) m2
            (omega (arith, n1, n2, n3, length-append a b)) in
        rw e3 (
          let (r4, e4, m4) =
            put_before_lem size ((a ++ b) ++ c) (u.parts Part.query) (h Part.query) (codes "?") r3
              m3 (omega (arith, n1, n2, n3, n4, length-append a b, length-append (a ++ b) c)) in
          rw e4 (
            let (r5, e5, m5) =
              put_before_lem size (((a ++ b) ++ c) ++ d) (u.parts Part.fragment) (h Part.fragment)
                (codes "#") r4 m4
                (omega (
                  arith,
                  n1,
                  n2,
                  n3,
                  n4,
                  length-append a b,
                  length-append (a ++ b) c,
                  length-append ((a ++ b) ++ c) d,
                )) in
            rw e5 (
              subst
                (λ t. Holds t (
                  put_zero
                    (((((a ++ b) ++ c) ++ d) ++ e) ++ r5, length ((((a ++ b) ++ c) ++ d) ++ e))))
                (parts_assoc a b c d e)
                (put_end size ((((a ++ b) ++ c) ++ d) ++ e) r5 m5
                  (subst (λ t. length t + 1 ≤ size) (sym (parts_assoc a b c d e)) k)))))))

-- What the code counts for a part is enough for it.
copy_shorter :
    (s : Stringaa) → (ltb 0 s.write_pos && s.is_null_terminated) ≡ true → copy_size s ≤ s.write_pos
copy_shorter s h = rw h (omega arith)

copy_same :
    (s : Stringaa) → (ltb 0 s.write_pos && s.is_null_terminated) ≡ false → copy_size s ≤ s.write_pos
copy_same s h = rw h (omega arith)

length-copied : (s : Stringaa) → length (copied s) ≤ s.write_pos
length-copied s = elim (Bool-cases (ltb 0 s.write_pos && s.is_null_terminated)) [
  | inl h ↦ omega (arith, length-take (copy_size s) (bytes s), copy_shorter s h)
  | inr h ↦ omega (arith, length-take (copy_size s) (bytes s), copy_same s h)
]

length-marked : (mark : List ℕ) (s : Stringaa) → length (marked mark s) ≤ part_size s (length mark)
length-marked mark s = elim (Bool-cases s.is_init) [
  | inl h ↦ rw h (omega (arith, length-append mark (copied s), length-copied s))
  | inr h ↦ rw h (omega arith)
]

length-named : (s : Stringaa) → length (named s) ≤ part_size s 1
length-named s = elim (Bool-cases s.is_init) [
  | inl h ↦ rw h (omega (arith, length-append (copied s) (codes ":"), length-copied s))
  | inr h ↦ rw h (omega arith)
]

length-path_text : (path : Option Stringaa) → length (path_text path) ≤ path_size path
length-path_text none = omega arith
length-path_text (some s) = length-copied s

-- The block that is asked for holds the URI and a zero.
pub length-uri_text : (whole : Bool) (u : Uriaa) → length (uri_text whole u) + 1 ≤ uri_size whole u
unfolding uri_size
length-uri_text whole u =
    let a = named (u.parts Part.scheme) in
    let b = marked (codes "//") (u.parts Part.authority) in
    let c = path_text (target_path whole u) in
    let d = marked (codes "?") (u.parts Part.query) in
    let e = marked (codes "#") (u.parts Part.fragment) in
    omega (
      arith,
      length-append a (b ++ (c ++ (d ++ e))),
      length-append b (c ++ (d ++ e)),
      length-append c (d ++ e),
      length-append d e,
      length-named (u.parts Part.scheme),
      length-marked (codes "//") (u.parts Part.authority),
      length-path_text (target_path whole u),
      length-marked (codes "?") (u.parts Part.query),
      length-marked (codes "#") (u.parts Part.fragment),
    )

-- In a block of the size that is asked for, the URI is put together without leaving the block: scheme,
-- authority, path, query and fragment with their marks, as RFC 2396 says, and a zero behind them.
pub compose_lem :
    (block : List ℕ) (whole : Bool) (u : Uriaa)
    → IsWhole u
    → length block ≡ uri_size whole u
    → (buf : List ℕ) × (compose (some block) whole u
        ≡ some (1, record u { uri = uri_of buf (uri_size whole u) (length (uri_text whole u)) }))
      × (take (length (uri_text whole u)) buf ≡ uri_text whole u)
      × (get_elem? buf (length (uri_text whole u)) ≡ some 0)
unfolding compose
compose_lem block whole u h k =
    let (buf, e, a, b) = put_uri_lem whole u block h (omega (arith, length-uri_text whole u)) in
    (buf, rw e refl, a, b)
