-- ===== src/Uri/Resolve/Tests.antt =====
-- url/uriaa_rfc2396_resolve.h: tests, and the theorems at concrete paths and references.
use httpaa.Base.{
  ℕ, ◌+◌, ◌<◌, ◌≡◌, ◌≢◌, refl, ap, true, false, subst, List, [], ◌∷◌, ◌++◌, Option, none, some,
  length, take, get_elem?, replicate, length-replicate, codes, arith,
}
use httpaa.Stringaa.Defs.{Stringaa, zeroed, bytes}
use httpaa.Uri.Defs.{Uriaa, Part}
use httpaa.Uri.Segments.{Removal, is_at, remove_point, remove_points}
use httpaa.Uri.Segments.Spec.{segments, settled, Ups, without_dots}
use httpaa.Uri.Resolve.{resolve_uri, compose, uri_size, uri_of}
use httpaa.Uri.Resolve.Text.{IsWhole, Reaches}
use httpaa.Uri.Resolve.Compose.{compose_lem}
use httpaa.Uri.Resolve.Relative.{
  resolve_uri_lem, resolve_uri_fault, resolved_text, Resolved, IsRelative, EndsAt, Gives,
}

abbrev size_of : Option Removal → ℕ
size_of none = 0
size_of (some r) = r.buf_size

abbrev text_of : Option Removal → List ℕ
text_of none = []
text_of (some r) = take r.buf_size r.buf

points_removed : text_of (remove_point (codes "a/./b/./.c" ++ 0 ∷ []) 10) ≡ codes "a/b/.c"
unfolding remove_point
points_removed = refl

steps_up : text_of (remove_points (codes "/b/c/../../g/../../h" ++ 0 ∷ []) 20) ≡ codes "h"
unfolding remove_points
steps_up = refl

-- RFC 2396 leaves `a/c` here: `..b` is a segment like any other.
longer_segment_lost : text_of (remove_points (codes "a/..b/../c" ++ 0 ∷ []) 10) ≡ codes "c"
unfolding remove_points
longer_segment_lost = refl

abbrev part : List ℕ → Stringaa
part l = record zeroed { buf = some l; buf_size = length l; write_pos = length l; is_init = true }

abbrev base : Uriaa
base = record {
  uri = zeroed;
  parts = λ k. elim k [
    | Part.scheme ↦ part (codes "http")
    | Part.authority ↦ part (codes "a")
    | Part.abs_path ↦ part (codes "/b/c/d")
    | _ ↦ zeroed
  ];
}

abbrev relative : List ℕ → Uriaa
relative l = record {
  uri = zeroed;
  parts = λ k. elim k [ Part.rel_path ↦ part l | Part.query ↦ part (codes "q") | _ ↦ zeroed ];
}

abbrev uri_text_of : Option (ℕ × Uriaa) → List ℕ
uri_text_of none = []
uri_text_of (some (code, u)) = take u.uri.read_pos (bytes u.uri)

abbrev zeros : ℕ → Option (List ℕ)
zeros n = some (replicate n 0)

-- The last byte of the path is lost: RFC 2396 has `http://a/b/g/h?q` here.
path_cut :
    uri_text_of (resolve_uri zeros (relative (codes "../g/./h")) base) ≡ codes "http://a/b/g/?q"
unfolding resolve_uri
path_cut = refl

-- One step above the root, the path loses its first slash and joins the authority.
path_glued :
    uri_text_of (resolve_uri zeros (relative (codes "../../../cd")) base) ≡ codes "http://ac?q"
unfolding resolve_uri
path_glued = refl

zeros-Gives : Gives zeros
zeros-Gives n = (replicate n 0, refl, length-replicate n 0)

base-IsWhole : IsWhole base
base-IsWhole k = elim k as (λ k. Reaches (base.parts k)) [
  | Part.scheme ↦ omega arith
  | Part.authority ↦ omega arith
  | Part.abs_path ↦ omega arith
  | _ ↦ omega arith
]

relative-IsWhole : IsWhole (relative (codes "../g"))
relative-IsWhole k = elim k as (λ k. Reaches ((relative (codes "../g")).parts k)) [
  | Part.rel_path ↦ omega arith
  | Part.query ↦ omega arith
  | _ ↦ omega arith
]

relative-IsRelative : IsRelative (relative (codes "../g"))
relative-IsRelative = record {
  no_scheme = refl;
  no_authority = refl;
  has_path = refl;
  no_opaque = refl;
}

only_zero : (j : ℕ) → j < 1 → 0 ≡ j
only_zero j h = omega arith

apart : (a b : ℕ) → a ≡ b → a + 1 ≢ b + 3
apart a b h k = omega (arith, h, k)

shorter : without_dots (codes "/./x") ≢ codes "/./x"
shorter e = apart 1 1 refl (ap length e)

five : (j : ℕ) → 4 < j → j < 6 → 5 ≡ j
five j h k = omega arith

base-EndsAt : EndsAt 4 (base.parts Part.abs_path)
base-EndsAt = record {
  is_plain = record { set = refl; has = refl; plain = refl; some_byte = omega arith };
  inside = omega arith;
  slash = refl;
  last = λ j h k. subst (λ i. is_at (codes "/b/c/d") i b'/' ≡ some false) (five j h k) refl;
}

abbrev dotted : Stringaa
dotted = part (codes "/./x")

size_of_base : 15 ≡ uri_size true base
unfolding uri_size
size_of_base = refl

compose_lem_example :
    (buf : List ℕ) × (compose (some (replicate 15 0)) true base
      ≡ some (1, record base { uri = uri_of buf (uri_size true base) 14 }))
    × (take 14 buf ≡ codes "http://a/b/c/d")
    × (get_elem? buf 14 ≡ some 0)
compose_lem_example = compose_lem (replicate 15 0) true base base-IsWhole size_of_base

resolve_uri_lem_example :
    (w : List ℕ) × Ups (codes "/b/c/../g") w
    × (settled (segments w).0 (segments w).1 ≡ true)
    × Resolved w
        (resolved_text (relative (codes "../g")) base w)
        (resolve_uri zeros (relative (codes "../g")) base)
resolve_uri_lem_example =
    resolve_uri_lem zeros zeros-Gives (relative (codes "../g")) base 4 relative-IsRelative
      relative-IsWhole base-IsWhole base-EndsAt

abbrev flat_base : Uriaa
flat_base = record {
  uri = zeroed;
  parts = λ k. elim k [
    | Part.scheme ↦ part (codes "http")
    | Part.abs_path ↦ part (codes "b")
    | _ ↦ zeroed
  ];
}

resolve_uri_fault_example : resolve_uri zeros (relative (codes "../g")) flat_base ≡ none
resolve_uri_fault_example =
    resolve_uri_fault zeros zeros-Gives (relative (codes "../g")) flat_base relative-IsRelative
      (record { set = refl; has = refl; plain = refl; some_byte = omega arith })
      (λ j h. subst (λ i. is_at (codes "b") i b'/' ≡ some false) (only_zero j h) refl)
