-- ===== src/Uri/Resolve/Text.antt =====
-- url/uriaa_rfc2396_resolve.h: the text of a URI, and what is written of it part by part.
use mathlib.Core.List.{append_assoc, append-nil}
use httpaa.Base.{
  ℕ, ◌+◌, ◌≤◌, ◌≡◌, refl, ap, true, false, ◌∙◌, sym, List, [], ◌∷◌, ◌++◌, Option, none, some, Bool,
  if◌then◌else◌, length, take, drop, length-append, length-drop, arith, subst, Bool-cases, inl, inr,
  codes,
}
use httpaa.Stringaa.Defs.{Stringaa, bytes}
use httpaa.Stringaa.Store.{◌>>=◌}
use httpaa.Uri.Defs.{Uriaa, Part}
use httpaa.Uri.Resolve.{put, put_before, put_scheme, put_path, target_path, copy_size}
use httpaa.Uri.Resolve.Merge.{memcpy-append, length-take_in}

-- The bytes of a part that are copied.
abbrev pub copied : Stringaa → List ℕ
copied s = take (copy_size s) (bytes s)

-- The part with its mark, where it is there.
abbrev pub marked : List ℕ → Stringaa → List ℕ
marked mark s = if s.is_init then mark ++ copied s else []

abbrev pub named : Stringaa → List ℕ
named s = if s.is_init then copied s ++ codes ":" else []

abbrev pub path_text : Option Stringaa → List ℕ
path_text none = []
path_text (some s) = copied s

-- RFC 2396, section 5.2, step 7.
abbrev pub uri_text : Bool → Uriaa → List ℕ
uri_text whole u =
    named (u.parts Part.scheme)
    ++ (marked (codes "//") (u.parts Part.authority)
        ++ (path_text (target_path whole u)
            ++ (marked (codes "?") (u.parts Part.query)
                ++ marked (codes "#") (u.parts Part.fragment))))

-- The first bytes of a block of `size` bytes are `t`.
abbrev pub Wrote : ℕ → List ℕ → Option (List ℕ × ℕ) → Type 0
Wrote size t found =
    (rest : List ℕ) × (found ≡ some (t ++ rest, length t)) × (length t + length rest ≡ size)

-- The string reaches as far as it is copied.
abbrev pub Reaches : Stringaa → Type 0
Reaches s = copy_size s ≤ length (bytes s)

length_put : (t src : List ℕ) (n : ℕ) → n ≤ length src → length (t ++ take n src) ≡ length t + n
length_put t src n h =
    length-append t (take n src) ∙ ap (λ k. length t + k) (length-take_in n src h)

put_lem :
    (size : ℕ) (t src : List ℕ) (n : ℕ) (rest : List ℕ)
    → length t + length rest ≡ size
    → n ≤ length src
    → length t + n ≤ size
    → Wrote size (t ++ take n src) (put (t ++ rest, length t) src n)
put_lem size t src n rest e h k = (
  drop n rest,
  rw (memcpy-append t rest src n h (omega arith))
      (sym (λ j. some (append_assoc t (take n src) (drop n rest) j, length_put t src n h j))),
  rw (length-append t (take n src)) (omega (arith, length-take_in n src h, length-drop n rest)),
)

take_whole : (l : List ℕ) → take (length l) l ≡ l
take_whole [] = refl
take_whole (x ∷ l) = ap (λ m. x ∷ m) (take_whole l)

pub marked_init :
    (mark : List ℕ) (s : Stringaa) → s.is_init ≡ true → marked mark s ≡ mark ++ copied s
marked_init mark s h = rw h refl

pub named_init : (s : Stringaa) → s.is_init ≡ true → named s ≡ copied s ++ codes ":"
named_init s h = rw h refl

module _ (size : ℕ) (t : List ℕ) (s : Stringaa) (h : Reaches s) where
  -- A part with a mark in front of it.
  pub put-marked :
      (mark rest : List ℕ)
      → length t + length rest ≡ size
      → length t + length (mark ++ copied s) ≤ size
      → Wrote size (t ++ (mark ++ copied s)) (do
        marked ← put (t ++ rest, length t) mark (length mark)
        put marked (bytes s) (copy_size s))
  put-marked mark rest e k =
      let b = length-append mark (copied s) in
      let (rest1, e1, n1) =
        put_lem size t mark (length mark) rest e (omega arith) (omega (arith, b)) in
      let l = t ++ take (length mark) mark in
      rw e1 (
        let (rest2, e2, n2) = put_lem size l (bytes s) (copy_size s) rest1 n1 h (
          omega (
            arith,
            b,
            length_put t mark (length mark) (omega arith),
            length-take_in (copy_size s) (bytes s) h,
          )) in
        subst (λ m. Wrote size m (put (l ++ rest1, length l) (bytes s) (copy_size s)))
          (append_assoc t (take (length mark) mark) (copied s)
            ∙ ap (λ m. t ++ (m ++ copied s)) (take_whole mark))
          (rest2, e2, n2))

  pub put_before_lem :
      (mark rest : List ℕ)
      → length t + length rest ≡ size
      → length t + length (marked mark s) ≤ size
      → Wrote size (t ++ marked mark s) (put_before mark s (t ++ rest, length t))
  unfolding put_before
  put_before_lem mark rest e k = elim (Bool-cases s.is_init) [
    | inl i ↦ rw i (put-marked mark rest e (rw (sym (ap length (marked_init mark s i))) k))
    | inr i ↦ rw i (rw (append-nil t) (rest, refl, e))
  ]

  pub put-named :
      (rest : List ℕ)
      → length t + length rest ≡ size
      → length t + length (copied s ++ codes ":") ≤ size
      → Wrote size
          (t ++ (copied s ++ codes ":"))
          (do named ← put (t ++ rest, length t) (bytes s) (copy_size s); put named (codes ":") 1)
  put-named rest e k =
      let b = length-append (copied s) (codes ":") in
      let c = length-take_in (copy_size s) (bytes s) h in
      let (rest1, e1, n1) = put_lem size t (bytes s) (copy_size s) rest e h (omega (arith, b, c)) in
      let l = t ++ copied s in
      rw e1 (
        subst (λ m. Wrote size m (put (l ++ rest1, length l) (codes ":") 1))
          (append_assoc t (copied s) (codes ":"))
          (put_lem size l (codes ":") 1 rest1 n1 (omega arith)
            (omega (arith, b, length-append t (copied s)))))

  pub put_scheme_lem :
      (rest : List ℕ)
      → length t + length rest ≡ size
      → length t + length (named s) ≤ size
      → Wrote size (t ++ named s) (put_scheme s (t ++ rest, length t))
  unfolding put_scheme
  put_scheme_lem rest e k = elim (Bool-cases s.is_init) [
    | inl i ↦ rw i (put-named rest e (rw (sym (ap length (named_init s i))) k))
    | inr i ↦ rw i (rw (append-nil t) (rest, refl, e))
  ]

abbrev pub PathReaches : Option Stringaa → Type 0
PathReaches none = Unit
PathReaches (some s) = Reaches s

pub put_path_lem :
    (size : ℕ) (t : List ℕ) (path : Option Stringaa) (rest : List ℕ)
    → PathReaches path
    → length t + length rest ≡ size
    → length t + length (path_text path) ≤ size
    → Wrote size (t ++ path_text path) (put_path path (t ++ rest, length t))
unfolding put_path
put_path_lem size t none rest h e k = rw (append-nil t) (rest, refl, e)
put_path_lem size t (some s) rest h e k =
    put_lem size t (bytes s) (copy_size s) rest e h
      (omega (arith, length-take_in (copy_size s) (bytes s) h))

-- Every part reaches as far as it is copied.
abbrev pub IsWhole : Uriaa → Type 0
IsWhole u = (k : Part) → Reaches (u.parts k)

pub target_reaches : (whole : Bool) (u : Uriaa) → IsWhole u → PathReaches (target_path whole u)
target_reaches true u h = h Part.abs_path
target_reaches false u h = elim (Bool-cases (u.parts Part.path).is_init) [
  | inl i ↦ rw i (h Part.path)
  | inr i ↦ rw i tt
]
