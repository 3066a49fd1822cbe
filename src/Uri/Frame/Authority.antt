-- ===== src/Uri/Frame/Authority.antt =====
-- url/uriaa_rfc2396.h: the rules for the authority keep the frame.
use httpaa.Base.{
  ℕ, zero, suc, ◌+◌, ◌≤◌, ◌<◌, Bool, false, not, ◌||◌, arith, ◌==◌, if◌then◌else◌, size_sub,
  Bool-cases, inl, inr,
}
use httpaa.Stringaa.Defs.{Stringaa, next_read_pos, get_char, is_char}
use httpaa.Uri.Chars.{
  digit_chars, alpha_chars, alphanum_chars, unreserved_chars, userinfo_extra, reg_name_extra,
}
use httpaa.Uri.Defs.{
  Uriaa, Part, part_of, unset_part, rewind, uri_is_char, when, plain, userinfo_chars,
  reg_name_chars, scan_all, uri_scan_all,
}
use httpaa.Uri.Host.{
  port, label_loop, label, domainlabel, toplabel, labels_loop, hostname, octets_loop, ipv4_address,
  host, hostport, userinfo, set_userinfo, server, reg_name, authority,
}
use httpaa.Stringaa.Moved.{
  Moves, Moves-refl, Moves-trans, next_read_pos-Moves, is_char-Moves, is_char-forward,
}
use httpaa.Uri.Frame.{
  ClassMoves, plain-Moves, with_escaped-Moves, scan_all-Moves, Within, Kept, Keeps, Keeps-refl,
  Keeps-trans, Keeps-uri, Keeps-if, Keeps-when, Keeps-rewind, uri_is_char-Keeps, update-Within,
  part_of-IsPart, unset_part-Keeps, uri_scan_all-Keeps, uri_scan_from-Keeps,
}
use httpaa.Uri.Frame.Paths.{Keeps-set_or_rewind, Keeps-or_rewind}

userinfo_chars-Moves : ClassMoves userinfo_chars
unfolding userinfo_chars
userinfo_chars-Moves = with_escaped-Moves unreserved_chars userinfo_extra

reg_name_chars-Moves : ClassMoves reg_name_chars
unfolding reg_name_chars
reg_name_chars-Moves = with_escaped-Moves unreserved_chars reg_name_extra

pub port-Keeps : (u : Uriaa) → Keeps u (port u).1
unfolding port
port-Keeps u =
    Keeps-set_or_rewind Part.port u (uri_scan_all (plain digit_chars) u)
      (digit_chars (get_char u.uri))
      (uri_scan_all-Keeps (plain digit_chars) (plain-Moves digit_chars) u)

label_loop-Moves : (fuel : ℕ) (s : Stringaa) → Moves s (label_loop fuel s).1
unfolding label_loop
label_loop-Moves zero s h = Moves-refl s h
label_loop-Moves (suc fuel) s h =
    let s1 = (next_read_pos s).1 in
    let all =
      Moves-trans s s1 (label_loop fuel s1).1 (next_read_pos-Moves s) (label_loop-Moves fuel s1) in
    ground (arith, next_read_pos-Moves s h, all h)

label-Keeps : (first : ℕ → Bool) (u : Uriaa) → Keeps u (label first u).1
label-Keeps first u =
    let (is_label, s) =
      if first (get_char u.uri) then label_loop (suc u.uri.write_pos) u.uri else (false, u.uri) in
    Keeps-or_rewind u (record u { uri = s }) is_label
      (Keeps-uri u s
        (λ h. ground (arith, label_loop-Moves (suc u.uri.write_pos) u.uri h, Moves-refl u.uri h)))

domainlabel-Keeps : (u : Uriaa) → Keeps u (domainlabel u).1
unfolding domainlabel
domainlabel-Keeps = label-Keeps alphanum_chars

toplabel-Keeps : (u : Uriaa) → Keeps u (toplabel u).1
unfolding toplabel
toplabel-Keeps = label-Keeps alpha_chars

-- The loop over the labels keeps the frame, and ends with a position that it has gone through.
labels_loop-Keeps :
    (start fuel label_pos : ℕ) (u : Uriaa)
    → Within u
    → start ≤ label_pos
    → label_pos ≤ u.uri.read_pos
    → Kept u (labels_loop fuel label_pos u).1
      × (start ≤ (labels_loop fuel label_pos u).0)
      × ((labels_loop fuel label_pos u).0 ≤ (labels_loop fuel label_pos u).1.uri.read_pos)
unfolding labels_loop
labels_loop-Keeps start zero label_pos u w lo hi = (Keeps-refl u w, lo, hi)
labels_loop-Keeps start (suc fuel) label_pos u w lo hi =
    let u1 = (domainlabel u).1 in
    let u2 = (uri_is_char b'.' u1).1 in
    let one = domainlabel-Keeps u w in
    let two = Keeps-trans u u1 u2 (domainlabel-Keeps u) (uri_is_char-Keeps b'.' u1) w in
    let (last, lo', hi') =
      labels_loop-Keeps start fuel u.uri.read_pos u2 two.still (omega arith)
        (omega (arith, two.moved.forward)) in
    let all = Keeps-trans u u2 (labels_loop fuel u.uri.read_pos u2).1 (λ _. two) (λ _. last) w in
    ground (arith, one, two, all, lo', hi')

-- Going back to a position in between.
Keeps-rewind_to :
    (pos : ℕ) (u v : Uriaa)
    → Keeps u v
    → (Within u → (u.uri.read_pos ≤ pos) × (pos ≤ v.uri.read_pos))
    → Keeps u (rewind pos v)
unfolding rewind
Keeps-rewind_to pos u v f between w =
    let x = f w in
    let b = between w in
    record {
      moved = record {
        same_buf = x.moved.same_buf;
        same_write = x.moved.same_write;
        forward = b.0;
        within = omega (arith, x.still.cursor, b);
      };
      still = record { cursor = omega (arith, x.still.cursor, b); slices = x.still.slices };
    }

hostname-Keeps : (u : Uriaa) → Keeps u (hostname u).1
unfolding hostname
hostname-Keeps u =
    let (label_pos, u1) = labels_loop (suc u.uri.write_pos) u.uri.read_pos u in
    let v = rewind label_pos u1 in
    let (is_toplabel, u2) = toplabel v in
    let u3 = (when is_toplabel (uri_is_char b'.') u2).1 in
    let loop = λ (w : Within u).
      labels_loop-Keeps u.uri.read_pos (suc u.uri.write_pos) u.uri.read_pos u w (omega arith)
        (omega arith) in
    Keeps-or_rewind u u3 is_toplabel (
      Keeps-when u u2 is_toplabel (uri_is_char b'.')
        (Keeps-trans u v u2
          (Keeps-rewind_to label_pos u u1 (λ w. (loop w).0) (λ w. ((loop w).1, (loop w).2)))
          (toplabel-Keeps v))
        (uri_is_char-Keeps b'.' u2))

octets_loop-Moves :
    (rounds i is_digit : ℕ) (s : Stringaa) → Moves s (octets_loop rounds i is_digit s).1
unfolding octets_loop
octets_loop-Moves zero i is_digit s h = Moves-refl s h
octets_loop-Moves (suc rounds) i is_digit s h =
    let s1 = (next_read_pos s).1 in
    let s2 = scan_all (plain digit_chars) s1 in
    let s3 = (is_char s2 b'.').1 in
    let two =
      Moves-trans s s1 s2 (next_read_pos-Moves s)
        (scan_all-Moves (plain digit_chars) (plain-Moves digit_chars) s1) in
    let three = Moves-trans s s2 s3 two (is_char-Moves s2 b'.') in
    let next = octets_loop rounds (i + 1) (is_digit + 1) in
    ground (
      arith,
      next_read_pos-Moves s h,
      three h,
      Moves-trans s s3 (next s3).1 three (octets_loop-Moves rounds (i + 1) (is_digit + 1) s3) h,
      Moves-trans s s2 (next s2).1 two (octets_loop-Moves rounds (i + 1) (is_digit + 1) s2) h,
      octets_loop-Moves rounds (i + 1) is_digit s h,
    )

ipv4_address-Keeps : (u : Uriaa) → Keeps u (ipv4_address u).1
unfolding ipv4_address
ipv4_address-Keeps u =
    let (is_digit, s) = octets_loop 4 0 0 u.uri in
    Keeps-or_rewind u (record u { uri = s }) (is_digit == 4)
      (Keeps-uri u s (octets_loop-Moves 4 0 0 u.uri))

host-Keeps : (u : Uriaa) → Keeps u (host u).1
unfolding host
host-Keeps u =
    let (is_hostname, u1) = hostname u in
    let (is_ipv4_address, u2) = when (not is_hostname) ipv4_address u1 in
    Keeps-set_or_rewind Part.host u u2 (is_hostname || is_ipv4_address)
      (Keeps-when u u1 (not is_hostname) ipv4_address (hostname-Keeps u) (ipv4_address-Keeps u1))

hostport-Keeps : (u : Uriaa) → Keeps u (hostport u).1
unfolding hostport
hostport-Keeps u =
    let (is_host, u1) = host u in
    let (colon, u2) = when is_host (uri_is_char b':') u1 in
    let u3 = (when colon port u2).1 in
    Keeps-or_rewind u u3 is_host (
      Keeps-when u u2 colon port
        (Keeps-when u u1 is_host (uri_is_char b':') (host-Keeps u) (uri_is_char-Keeps b':' u1))
        (port-Keeps u2))

-- The field `userinfo` leaves out the `@`, which has been read.
set_userinfo-Keeps :
    (u v : Uriaa)
    → Keeps u v
    → (Within u → u.uri.read_pos < v.uri.read_pos)
    → Keeps u (set_userinfo u.uri.read_pos v)
unfolding set_userinfo
set_userinfo-Keeps u v f lt w =
    let x = f w in
    let l = lt w in
    let size = size_sub (size_sub v.uri.read_pos u.uri.read_pos) 1 in
    record {
      moved = x.moved;
      still =
          update-Within v Part.userinfo (part_of (v.parts Part.userinfo) v.uri u.uri.read_pos size)
            x.still
            (part_of-IsPart (v.parts Part.userinfo) v.uri u.uri.read_pos size (ground arith));
    }

-- The lines of `server` that take the user, or go back.
user-Keeps :
    (u : Uriaa)
    → let u1 = uri_scan_all userinfo_chars u in
      let (is_userinfo, u2) = uri_is_char b'@' u1 in
      Keeps u (if is_userinfo then set_userinfo u.uri.read_pos u2 else rewind u.uri.read_pos u2)
unfolding uri_is_char
user-Keeps u =
    let u1 = uri_scan_all userinfo_chars u in
    let u2 = (uri_is_char b'@' u1).1 in
    let one = uri_scan_all-Keeps userinfo_chars userinfo_chars-Moves u in
    let two = Keeps-trans u u1 u2 one (uri_is_char-Keeps b'@' u1) in
    elim (Bool-cases (is_char u1.uri b'@').0) [
      | inl e ↦ rw e (
          set_userinfo-Keeps u u2 two (λ w.
            let k = one w in
            let f = is_char-forward u1.uri b'@' (omega arith) k.still.cursor e in
            omega (arith, k.moved.forward, f)))
      | inr e ↦ rw e (Keeps-rewind u u2 two)
    ]

server-Keeps : (u : Uriaa) → Keeps u (server u).1
unfolding server userinfo
server-Keeps u =
    let u1 = uri_scan_all userinfo_chars u in
    let (is_userinfo, u2) = uri_is_char b'@' u1 in
    let u3 = if is_userinfo then set_userinfo u.uri.read_pos u2 else rewind u.uri.read_pos u2 in
    let (is_hostport, u4) = hostport u3 in
    let all = Keeps-trans u u3 u4 (user-Keeps u) (hostport-Keeps u3) in
    Keeps-if u u4 (unset_part Part.userinfo (rewind u.uri.read_pos u4)) is_hostport all
      (unset_part-Keeps Part.userinfo u (rewind u.uri.read_pos u4) (Keeps-rewind u u4 all))

pub authority-Keeps : (u : Uriaa) → Keeps u (authority u).1
unfolding authority reg_name
authority-Keeps u =
    let (is_server, u1) = server u in
    let (is_reg_name, u2) = when (not is_server) reg_name u1 in
    Keeps-set_or_rewind Part.authority u u2 (is_server || is_reg_name) (
      Keeps-when u u1 (not is_server) reg_name (server-Keeps u) (
        uri_scan_from-Keeps reg_name_chars reg_name_chars-Moves reg_name_chars reg_name_chars-Moves
          u1))
