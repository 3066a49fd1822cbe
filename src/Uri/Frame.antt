-- ===== src/Uri/Frame.antt =====
-- The frame of the URI rules: what every rule keeps. A rule reads the string, moves its read
-- position on inside the bounds, and sets fields of the structure to parts of the string.
pub mod Paths
pub mod Authority
pub mod Reference
use httpaa.Base.{
  ℕ, zero, suc, ◌+◌, ◌-◌, ◌≤◌, ◌<◌, ◌≡◌, refl, sym, ap, ◌∙◌, Bool, true, false, Option, none, some,
  List, arith, ◌==◌, ltb, if◌then◌else◌, size_sub, Bool-cases, inl, inr,
}
use mathlib.Core.Bool.{false≢true}
use httpaa.Stringaa.Defs.{Stringaa, next_read_pos, get_char, is_char, null_size}
use httpaa.Stringaa.Moved.{
  Moved, Moves, Moves-refl, Moves-trans, Moves-back, next_read_pos-Moves, is_char-Moves,
}
use httpaa.Uri.Defs.{
  Uriaa, Part, part_index, update, pointer, part_of, set_part, unset_part, rewind, uri_is_char,
  when, escaped, CharClass, plain, with_escaped, scan, scan_all, scan_more, uri_scan_all,
  uri_scan_from,
}

pub escaped-Moves : (s : Stringaa) → Moves s (escaped s).1
unfolding escaped
escaped-Moves s h = ground (
  arith,
  next_read_pos-Moves s h,
  next_read_pos-Moves (next_read_pos s).1,
  next_read_pos-Moves (next_read_pos (next_read_pos s).1).1,
)

-- A class that moves the read position by nothing, or by an escaped character.
abbrev pub ClassMoves : CharClass → Type 0
ClassMoves class = (s : Stringaa) (c : ℕ) → Moves s (class s c).1

pub plain-Moves : (a : ℕ → Bool) → ClassMoves (plain a)
plain-Moves a s c = Moves-refl s

pub with_escaped-Moves : (a b : ℕ → Bool) → ClassMoves (with_escaped a b)
with_escaped-Moves a b s c h = ground (arith, escaped-Moves s h, Moves-refl s h)

module _ (class : CharClass) (cm : ClassMoves class) where
  pub scan-Moves : (fuel : ℕ) (s : Stringaa) (c : ℕ) → Moves s (scan fuel class s c)
  unfolding scan
  scan-Moves zero s c h = Moves-refl s h
  scan-Moves (suc fuel) s c h =
      let s1 = (class s c).1 in
      let s2 = (next_read_pos s1).1 in
      let two = Moves-trans s s1 s2 (cm s c) (next_read_pos-Moves s1) in
      let all =
        Moves-trans s s2 (scan fuel class s2 (get_char s2)) two
          (scan-Moves fuel s2 (get_char s2)) in
      ground (arith, cm s c h, two h, all h)

  pub scan_all-Moves : (s : Stringaa) → Moves s (scan_all class s)
  unfolding scan_all
  scan_all-Moves s = scan-Moves (suc s.write_pos) s (get_char s)

  pub scan_more-Moves : (s : Stringaa) → Moves s (scan_more class s)
  unfolding scan_more
  scan_more-Moves s h =
      let s1 = (next_read_pos s).1 in
      let all = Moves-trans s s1 (scan_all class s1) (next_read_pos-Moves s) (scan_all-Moves s1) in
      ground (arith, next_read_pos-Moves s h, all h)

-- A field holds a part of the string, once it is set.
abbrev pub IsPart : Option (List ℕ) → ℕ → Stringaa → Type 0
IsPart buf size f =
    f.is_init ≡ true → (pos : ℕ) × (f.buf ≡ pointer buf pos) × (pos + f.write_pos ≤ size)

-- The read position is inside the string, and every field that is set is a part of the string.
pub record Within (u : Uriaa) : Type 0 where
  pub cursor : u.uri.read_pos ≤ u.uri.write_pos
  pub slices : (k : Part) → IsPart u.uri.buf u.uri.write_pos (u.parts k)

pub record Kept (u v : Uriaa) : Type 0 where
  pub moved : Moved u.uri v.uri
  pub still : Within v

-- What every rule keeps, from the structure `u` to the structure `v`.
abbrev pub Keeps : Uriaa → Uriaa → Type 0
Keeps u v = Within u → Kept u v

pub Keeps-refl : (u : Uriaa) → Keeps u u
Keeps-refl u w = record { moved = Moves-refl u.uri w.cursor; still = w }

pub Keeps-trans : (u v w : Uriaa) → Keeps u v → Keeps v w → Keeps u w
Keeps-trans u v w f g a =
    let x = f a in
    let y = g x.still in
    record {
      moved = Moves-trans u.uri v.uri w.uri (λ _. x.moved) (λ _. y.moved) a.cursor;
      still = y.still;
    }

pub Keeps-uri : (u : Uriaa) (s : Stringaa) → Moves u.uri s → Keeps u (record u { uri = s })
Keeps-uri u s m w =
    let x = m w.cursor in
    record {
      moved = x;
      still = record {
        cursor = x.within;
        slices = λ k. rw (x.same_buf, x.same_write) (w.slices k);
      };
    }

pub Keeps-if : (u v w : Uriaa) (b : Bool) → Keeps u v → Keeps u w → Keeps u (if b then v else w)
Keeps-if u v w true f g = f
Keeps-if u v w false f g = g

-- The branch of a rule at its end: a flag beside each structure.
pub Keeps-end :
    (u v w : Uriaa) (b c d : Bool)
    → Keeps u v
    → Keeps u w
    → Keeps u (if◌then◌else◌ {A = Bool × Uriaa} b (c, v) (d, w)).1
Keeps-end u v w true c d f g = f
Keeps-end u v w false c d f g = g

pub Keeps-when :
    (u v : Uriaa) (b : Bool) (f : Uriaa → Bool × Uriaa)
    → Keeps u v
    → Keeps v (f v).1
    → Keeps u (when b f v).1
Keeps-when u v true f k g = Keeps-trans u v (f v).1 k g
Keeps-when u v false f k g = k

pub Keeps-rewind : (u v : Uriaa) → Keeps u v → Keeps u (rewind u.uri.read_pos v)
unfolding rewind
Keeps-rewind u v f w =
    let x = f w in
    record {
      moved = Moves-back u.uri v.uri (λ _. x.moved) w.cursor;
      still = record { cursor = omega arith; slices = x.still.slices };
    }

pub uri_is_char-Keeps : (c : ℕ) (u : Uriaa) → Keeps u (uri_is_char c u).1
unfolding uri_is_char
uri_is_char-Keeps c u = Keeps-uri u (is_char u.uri c).1 (is_char-Moves u.uri c)

-- Setting a field to a part of the string.
part_of-IsPart :
    (f uri : Stringaa) (pos size : ℕ)
    → pos + size ≤ uri.write_pos
    → IsPart uri.buf uri.write_pos (part_of f uri pos size)
part_of-IsPart f uri pos size h e = (pos, refl, ground arith)

update-Within :
    (u : Uriaa) (k : Part) (f : Stringaa)
    → Within u
    → IsPart u.uri.buf u.uri.write_pos f
    → Within (record u { parts = update u.parts k f })
update-Within u k f w p = record {
  cursor = w.cursor;
  slices = λ j. elim (Bool-cases (part_index j == part_index k)) [
    | inl e ↦ rw e p
    | inr e ↦ rw e (w.slices j)
  ];
}

pub set_part-Keeps : (k : Part) (u v : Uriaa) → Keeps u v → Keeps u (set_part k u.uri.read_pos v)
unfolding set_part
set_part-Keeps k u v f w =
    let x = f w in
    let size = size_sub v.uri.read_pos u.uri.read_pos in
    record {
      moved = x.moved;
      still =
          update-Within v k (part_of (v.parts k) v.uri u.uri.read_pos size) x.still
            (part_of-IsPart (v.parts k) v.uri u.uri.read_pos size (ground arith));
    }

pub unset_part-Keeps : (k : Part) (u v : Uriaa) → Keeps u v → Keeps u (unset_part k v)
unfolding unset_part
unset_part-Keeps k u v f w =
    let x = f w in
    record {
      moved = x.moved;
      still =
          update-Within v k (record (v.parts k) { buf_size = 0; write_pos = 0; is_init = false })
            x.still (λ e. absurd (false≢true e));
    }

module _ (class : CharClass) (cm : ClassMoves class) where
  pub uri_scan_all-Keeps : (u : Uriaa) → Keeps u (uri_scan_all class u)
  unfolding uri_scan_all
  uri_scan_all-Keeps u = Keeps-uri u (scan_all class u.uri) (scan_all-Moves class cm u.uri)

  pub uri_scan_from-Keeps :
      (first : CharClass) → ClassMoves first → (u : Uriaa) → Keeps u (uri_scan_from first class u).1
  unfolding uri_scan_from
  uri_scan_from-Keeps first fm u =
      let s = (first u.uri (get_char u.uri)).1 in
      let m = fm u.uri (get_char u.uri) in
      Keeps-end u (record u { uri = scan_more class s }) (record u { uri = s })
        (first u.uri (get_char u.uri)).0 true false
        (Keeps-uri u (scan_more class s)
          (Moves-trans u.uri s (scan_more class s) m (scan_more-Moves class cm s)))
        (Keeps-uri u s m)
