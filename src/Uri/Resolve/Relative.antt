-- ===== src/Uri/Resolve/Relative.antt =====
-- url/uriaa_rfc2396_resolve.h: uriaa_resolve_uri of a reference with a relative path.
use httpaa.Base.{
  ℕ, zero, suc, ◌+◌, ◌-◌, ◌<◌, ◌≤◌, ◌≡◌, ◌⊎◌, refl, ap, true, false, not, ◌&&◌, ◌∙◌, sym, List,
  ◌++◌, Option, none, some, Bool, ltb, ◌==◌, if◌then◌else◌, length, take, get_elem?, length-take,
  take-take, arith, subst, Bool-cases, inl, inr, codes,
}
use httpaa.Stringaa.Defs.{Stringaa, bytes}
use httpaa.Uri.Defs.{Uriaa, Part, update, part_index}
use httpaa.Uri.Segments.{is_at}
use httpaa.Uri.Segments.Result.{ended}
use httpaa.Uri.Segments.Spec.{segments, leading, settled, Ups}
use httpaa.Uri.Resolve.{
  resolve_uri, resolve_path, merge_paths, compose, inherit, is_empty, is_absolute_path, set_path,
  path_of, copy_size, rel_copy_size, link, uri_size, uri_of, has_buf,
}
use httpaa.Uri.Resolve.Slash.{IsPlain, base_copy_size_lem, base_copy_size-none, and_false}
use httpaa.Uri.Resolve.Merge.{merge_path_lem, Merges}
use httpaa.Uri.Resolve.Text.{IsWhole, Reaches, named, marked, copied, uri_text}
use httpaa.Uri.Resolve.Compose.{compose_lem}

-- Neither a scheme nor an authority, and a relative path.
pub record IsRelative (u : Uriaa) : Type 0 where
  pub no_scheme : (u.parts Part.scheme).is_init ≡ false
  pub no_authority : (u.parts Part.authority).is_init ≡ false
  pub has_path : (u.parts Part.rel_path).is_init ≡ true
  pub no_opaque : (u.parts Part.opaque_part).is_init ≡ false

update_all :
    (P : Stringaa → Type 0) (parts : Part → Stringaa) (j : Part) (s : Stringaa)
    → P s
    → ((k : Part) → P (parts k))
    → (k : Part) → P (update parts j s k)
update_all P parts j s h f k = elim (Bool-cases (part_index k == part_index j)) [
  | inl e ↦ rw e h
  | inr e ↦ rw e (f k)
]

and_seven : (a b c d e f : Bool) → (a && b && false && c && d && e && f) ≡ false
and_seven true true c d e f = refl
and_seven true false c d e f = refl
and_seven false b c d e f = refl

is_empty_lem : (u : Uriaa) → (u.parts Part.rel_path).is_init ≡ true → is_empty u ≡ false
is_empty_lem u h = rw h (
    and_seven (not (u.parts Part.net_path).is_init) (not (u.parts Part.abs_path).is_init)
      (not (u.parts Part.opaque_part).is_init) (not (u.parts Part.scheme).is_init)
      (not (u.parts Part.authority).is_init) (not (u.parts Part.query).is_init))

is_absolute_lem : (u base : Uriaa) → IsRelative u → is_absolute_path (inherit u base) ≡ some false
is_absolute_lem u base h =
    rw h.no_authority
      (rw h.has_path (rw (and_false (u.parts Part.abs_path).is_init) (rw h.no_opaque refl)))

inherit-IsWhole :
    (u base : Uriaa) → IsRelative u → IsWhole u → IsWhole base → IsWhole (inherit u base)
inherit-IsWhole u base r h k = rw r.no_authority (
    update_all Reaches (update u.parts Part.scheme (link (base.parts Part.scheme))) Part.authority
      (link (base.parts Part.authority)) (k Part.authority)
      (update_all Reaches u.parts Part.scheme (link (base.parts Part.scheme)) (k Part.scheme) h))

zero_lt : (n : ℕ) → ltb 0 (suc n) ≡ true
zero_lt n = ground arith

back_one : (n : ℕ) → n + 1 - 1 ≡ n
back_one n = omega arith

one_less : (n : ℕ) → (if ltb 0 n && true then n - 1 else n) ≡ n - 1
one_less zero = refl
one_less (suc n) = rw (zero_lt n) refl

path_copy_size : (buf : List ℕ) (n : ℕ) → copy_size (path_of buf n) ≡ n - 1
path_copy_size buf n = rw (back_one n) (one_less n)

path-IsWhole :
    (u : Uriaa) (buf w : List ℕ)
    → IsWhole u
    → take (length w) buf ≡ w
    → IsWhole (set_path u buf (length w))
path-IsWhole u buf w h e =
    update_all Reaches u.parts Part.path (path_of buf (length w))
      (rw (path_copy_size buf (length w)) (omega (arith, ap length e, length-take (length w) buf)))
      h

copied_path :
    (buf w : List ℕ)
    → take (length w) buf ≡ w
    → copied (path_of buf (length w)) ≡ take (length w - 1) w
copied_path buf w e =
    rw (path_copy_size buf (length w))
      (sym (take-take buf (length w - 1) (length w) (omega arith)) ∙ ap (take (length w - 1)) e)

-- The base path: its last slash is at `k`.
pub record EndsAt (k : ℕ) (s : Stringaa) : Type 0 where
  pub is_plain : IsPlain s
  pub inside : k < s.write_pos
  pub slash : is_at (bytes s) k b'/' ≡ some true
  pub last : (j : ℕ) → k < j → j < s.write_pos → is_at (bytes s) j b'/' ≡ some false

-- `malloc` always gives a block of the size that is asked for.
abbrev pub Gives : (ℕ → Option (List ℕ)) → Type 0
Gives malloc = (n : ℕ) → (block : List ℕ) × (malloc n ≡ some block) × (length block ≡ n)

plain-Reaches : (s : Stringaa) → IsPlain s → Reaches s → s.write_pos ≤ length (bytes s)
plain-Reaches s h r =
    subst (λ n. n ≤ length (bytes s)) (rw h.plain (rw (and_false (ltb 0 s.write_pos)) refl)) r

base_inside : (k : ℕ) (s : Stringaa) → EndsAt k s → Reaches s → k + 1 ≤ length (bytes s)
base_inside k s h r = omega (arith, h.inside, plain-Reaches s h.is_plain r)

rel-Reaches : (s : Stringaa) → Reaches s → rel_copy_size s ≤ length (bytes s)
rel-Reaches s h = elim (Bool-cases (s.is_init && has_buf s)) [
  | inl e ↦ rw e h
  | inr e ↦ rw e (omega arith)
]

module _ (malloc : ℕ → Option (List ℕ)) (give : Gives malloc) (u base : Uriaa) (k : ℕ)
    (hb : EndsAt k (base.parts Part.abs_path)) (ru : IsWhole u) (rb : IsWhole base) where
  -- The two paths that are joined.
  abbrev joined_path : List ℕ
  joined_path =
      take (k + 1) (bytes (base.parts Part.abs_path))
      ++ take (rel_copy_size (u.parts Part.rel_path)) (bytes (u.parts Part.rel_path))

  merge_paths_lem : Merges u joined_path (merge_paths malloc u base)
  unfolding merge_paths
  merge_paths_lem =
      let s = base.parts Part.abs_path in
      let (block, e, n) = give (k + 1 + rel_copy_size (u.parts Part.rel_path) + 1) in
      rw (base_copy_size_lem s hb.is_plain k hb.inside hb.slash hb.last) (
        rw e (
          merge_path_lem block u s (k + 1) (base_inside k s hb (rb Part.abs_path))
            (rel-Reaches (u.parts Part.rel_path) (ru Part.rel_path)) n))

-- The URI of the base's scheme and authority, the path `w` without its last byte, and the reference's query
-- and fragment.
abbrev pub resolved_text : Uriaa → Uriaa → List ℕ → List ℕ
resolved_text u base w =
    named (base.parts Part.scheme)
    ++ (marked (codes "//") (base.parts Part.authority)
        ++ (take (length w - 1) w
            ++ (marked (codes "?") (u.parts Part.query)
                ++ marked (codes "#") (u.parts Part.fragment))))

uri_text_lem :
    (u base : Uriaa) (buf w : List ℕ)
    → IsRelative u
    → take (length w) buf ≡ w
    → uri_text false (set_path (inherit u base) buf (length w)) ≡ resolved_text u base w
uri_text_lem u base buf w h e = rw h.no_authority (
    ap
      (λ p.
        named (base.parts Part.scheme)
        ++ (marked (codes "//") (base.parts Part.authority)
            ++ (p
                ++ (marked (codes "?") (u.parts Part.query)
                    ++ marked (codes "#") (u.parts Part.fragment)))))
      (copied_path buf w e))

rel_same :
    (u base : Uriaa) → IsRelative u → (inherit u base).parts Part.rel_path ≡ u.parts Part.rel_path
rel_same u base h = rw h.no_authority refl

-- The URI holds the text, and a zero behind it.
abbrev pub HoldsText : List ℕ → Uriaa → Type 0
HoldsText t v = (take (length t) (bytes v.uri) ≡ t) × (get_elem? (bytes v.uri) (length t) ≡ some 0)

-- The result by the path: 0 where it leads up, and otherwise 1 with the URI.
abbrev pub Resolved : List ℕ → List ℕ → Option (ℕ × Uriaa) → Type 0
Resolved w t found =
    ((leading (segments w).0 (segments w).1 ≡ true) × ((v : Uriaa) × (found ≡ some (0, v))))
    ⊎ ((leading (segments w).0 (segments w).1 ≡ false)
        × ((v : Uriaa) × (found ≡ some (1, v)) × HoldsText t v))

module _ (malloc : ℕ → Option (List ℕ)) (give : Gives malloc) where
  compose_text :
      (u : Uriaa)
      → IsWhole u
      → (v : Uriaa) × (compose (malloc (uri_size false u)) false u ≡ some (1, v))
        × HoldsText (uri_text false u) v
  compose_text u h =
      let (block, e, n) = give (uri_size false u) in
      let (buf, c, t, z) = compose_lem block false u h n in
      (record u { uri = uri_of buf (uri_size false u) (length (uri_text false u)) }, rw e c, (t, z))

  -- What is done with the merged path.
  merged_result :
      (w : List ℕ) (m : Uriaa)
      → IsWhole m
      → (found : Option (ℕ × Uriaa))
      → found ≡ (
          if not (leading (segments w).0 (segments w).1)
          then compose (malloc (uri_size false m)) false m
          else some (0, m))
      → Resolved w (uri_text false m) found
  merged_result w m h found e = elim (Bool-cases (leading (segments w).0 (segments w).1)) [
    | inl l ↦ inl (l, (m, e ∙ rw l refl))
    | inr l ↦ inr (l, (let (v, c, t) = compose_text m h in (v, e ∙ rw l c, t)))
  ]

  resolve_path_eq :
      (u base m : Uriaa) (b : Bool)
      → is_absolute_path u ≡ some false
      → merge_paths malloc u base ≡ some (b, m)
      → resolve_path malloc false u base
        ≡ (if b then compose (malloc (uri_size false m)) false m else some (0, m))
  unfolding resolve_path
  resolve_path_eq u base m b h k = rw h (rw k refl)

  resolve_uri_eq :
      (u base : Uriaa)
      → IsRelative u
      → resolve_uri malloc u base ≡ resolve_path malloc false (inherit u base) base
  unfolding resolve_uri
  resolve_uri_eq u base h = rw (is_empty_lem u h.has_path) (rw h.no_scheme (rw h.no_authority refl))

  -- A reference with a relative path, and a base whose path has a slash, where every string reaches
  -- as far as it is copied and malloc does not fail: uriaa_resolve_uri ends without leaving a block.
  -- Steps up, as `Up` says, lead to its path from the base's path up to its last slash and the
  -- relative one behind it, without segments `.`, and none is left to be made; the result is 0 where
  -- the path leads up. Otherwise it is 1, and the URI is put together of the scheme, the authority,
  -- this path WITHOUT ITS LAST BYTE, the query and the fragment.
  pub resolve_uri_lem :
      (u base : Uriaa) (k : ℕ)
      → IsRelative u
      → IsWhole u
      → IsWhole base
      → EndsAt k (base.parts Part.abs_path)
      → (w : List ℕ) × Ups
          (ended (
            take (k + 1) (bytes (base.parts Part.abs_path))
            ++ take (rel_copy_size (u.parts Part.rel_path)) (bytes (u.parts Part.rel_path))))
          w
        × (settled (segments w).0 (segments w).1 ≡ true)
        × Resolved w (resolved_text u base w) (resolve_uri malloc u base)
  resolve_uri_lem u base k r hu hb e =
      let v = inherit u base in
      let (buf, w, f, t, z, us, st) =
        merge_paths_lem malloc give v base k e (inherit-IsWhole u base r hu hb) hb in
      let m = set_path v buf (length w) in
      (
        w,
        subst
            (λ s.
              Ups
                (ended (
                  take (k + 1) (bytes (base.parts Part.abs_path))
                  ++ take (rel_copy_size s) (bytes s)))
                w)
            (rel_same u base r) us,
        st,
        subst (λ x. Resolved w x (resolve_uri malloc u base)) (uri_text_lem u base buf w r t)
            (merged_result w m (path-IsWhole v buf w (inherit-IsWhole u base r hu hb) t)
              (resolve_uri malloc u base)
              (resolve_uri_eq u base r
                ∙ resolve_path_eq v base m (not (leading (segments w).0 (segments w).1))
                    (is_absolute_lem u base r) f)),
      )

  -- A reference with a relative path, and a base whose path has no slash: the search for the slash reads in front of the path.
  pub resolve_uri_fault :
      (u base : Uriaa)
      → IsRelative u
      → IsPlain (base.parts Part.abs_path)
      → ((j : ℕ)
          → j < (base.parts Part.abs_path).write_pos
          → is_at (bytes (base.parts Part.abs_path)) j b'/' ≡ some false)
      → resolve_uri malloc u base ≡ none
  unfolding resolve_path merge_paths
  resolve_uri_fault u base r h f =
      resolve_uri_eq u base r
      ∙ rw (is_absolute_lem u base r) (rw (base_copy_size-none (base.parts Part.abs_path) h f) refl)
