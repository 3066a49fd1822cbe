-- ===== src/Uri/Host.antt =====
-- url/uriaa_rfc2396.h: the rules for the authority: the user, the host and the port.
use httpaa.Base.{
  ℕ, zero, suc, ◌+◌, ◌-◌, Bool, true, false, not, ◌||◌, ◌==◌, ltb, if◌then◌else◌, get_or, size_sub,
}
use httpaa.Stringaa.Defs.{Stringaa, bytes, next_read_pos, get_char, is_char}
use httpaa.Uri.Chars.{digit_chars, alpha_chars, alphanum_chars}
use httpaa.Uri.Defs.{
  Uriaa, Part, update, part_of, set_part, unset_part, rewind, uri_is_char, when, plain,
  userinfo_chars, reg_name_chars, scan_all, uri_scan_all, uri_scan_from,
}

unfoldable pub port : Uriaa → Bool × Uriaa
port u =
    let is_port = digit_chars (get_char u.uri) in
    let u1 = uri_scan_all (plain digit_chars) u in
    if is_port
    then (true, set_part Part.port u.uri.read_pos u1)
    else (false, rewind u.uri.read_pos u1)

-- The loop of `domainlabel` and of `toplabel`, on fuel: the flag is what it leaves of `is_…label`.
unfoldable pub label_loop : ℕ → Stringaa → Bool × Stringaa
label_loop zero s = (true, s)
label_loop (suc fuel) s =
    let (more, s1) = next_read_pos s in
    elim more [
      | true ↦ elim (alphanum_chars (get_char s1) || get_char s1 == b'-') [
        | true ↦ label_loop fuel s1
        | false ↦ (not (get_or (bytes s1) (s1.read_pos - 1) 0 == b'-'), s1)
      ]
      | false ↦ (true, s1)
    ]

abbrev pub label : (ℕ → Bool) → Uriaa → Bool × Uriaa
label first u =
    let (is_label, s) =
      if first (get_char u.uri) then label_loop (suc u.uri.write_pos) u.uri else (false, u.uri) in
    let u1 = record u { uri = s } in
    if is_label then (true, u1) else (false, rewind u.uri.read_pos u1)

unfoldable pub domainlabel : Uriaa → Bool × Uriaa
domainlabel = label alphanum_chars

unfoldable pub toplabel : Uriaa → Bool × Uriaa
toplabel = label alpha_chars

-- The loop of `hostname`, on fuel: the number is `label_pos`, where the last label begins.
unfoldable pub labels_loop : ℕ → ℕ → Uriaa → ℕ × Uriaa
labels_loop zero label_pos u = (label_pos, u)
labels_loop (suc fuel) label_pos u =
    let (is_domainlabel, u1) = domainlabel u in
    elim is_domainlabel [
      | true ↦
          let (dot, u2) = uri_is_char b'.' u1 in
          elim dot [ true ↦ labels_loop fuel u.uri.read_pos u2 | false ↦ (u.uri.read_pos, u2) ]
      | false ↦ (label_pos, u1)
    ]

unfoldable pub hostname : Uriaa → Bool × Uriaa
hostname u =
    let (label_pos, u1) = labels_loop (suc u.uri.write_pos) u.uri.read_pos u in
    let (is_toplabel, u2) = toplabel (rewind label_pos u1) in
    let (_, u3) = when is_toplabel (uri_is_char b'.') u2 in
    if is_toplabel then (true, u3) else (false, rewind u.uri.read_pos u3)

-- The loop of `IPv4address`: the rounds left, the round's number, and `is_digit`.
unfoldable pub octets_loop : ℕ → ℕ → ℕ → Stringaa → ℕ × Stringaa
octets_loop zero i is_digit s = (is_digit, s)
octets_loop (suc rounds) i is_digit s = elim (digit_chars (get_char s)) [
  | true ↦
      let (more, s1) = next_read_pos s in
      elim more [
        | true ↦
            let s2 = scan_all (plain digit_chars) s1 in
            elim (ltb i 3) [
              | true ↦
                  let (dot, s3) = is_char s2 b'.' in
                  elim dot [
                    | true ↦ octets_loop rounds (i + 1) (is_digit + 1) s3
                    | false ↦ (is_digit, s3)
                  ]
              | false ↦ octets_loop rounds (i + 1) (is_digit + 1) s2
            ]
        | false ↦ (is_digit, s1)
      ]
  | false ↦ octets_loop rounds (i + 1) is_digit s
]

unfoldable pub ipv4_address : Uriaa → Bool × Uriaa
ipv4_address u =
    let (is_digit, s) = octets_loop 4 0 0 u.uri in
    let u1 = record u { uri = s } in
    if is_digit == 4 then (true, u1) else (false, rewind u.uri.read_pos u1)

unfoldable pub host : Uriaa → Bool × Uriaa
host u =
    let (is_hostname, u1) = hostname u in
    let (is_ipv4_address, u2) = when (not is_hostname) ipv4_address u1 in
    if is_hostname || is_ipv4_address
    then (true, set_part Part.host u.uri.read_pos u2)
    else (false, rewind u.uri.read_pos u2)

unfoldable pub hostport : Uriaa → Bool × Uriaa
hostport u =
    let (is_host, u1) = host u in
    let (colon, u2) = when is_host (uri_is_char b':') u1 in
    let (_, u3) = when colon port u2 in
    if is_host then (true, u3) else (false, rewind u.uri.read_pos u3)

unfoldable pub userinfo : Uriaa → Bool × Uriaa
userinfo u = (true, uri_scan_all userinfo_chars u)

-- The assignments of `server` to the field `userinfo`: the `@` is left out of it.
unfoldable pub set_userinfo : ℕ → Uriaa → Uriaa
set_userinfo pos u = record u {
  parts =
      update u.parts Part.userinfo
        (part_of (u.parts Part.userinfo) u.uri pos (size_sub (size_sub u.uri.read_pos pos) 1));
}

-- It returns 1 in all cases.
unfoldable pub server : Uriaa → Bool × Uriaa
server u =
    let pos = u.uri.read_pos in
    let (has_userinfo, u1) = userinfo u in
    let (is_userinfo, u2) = when has_userinfo (uri_is_char b'@') u1 in
    let u3 = if is_userinfo then set_userinfo pos u2 else rewind pos u2 in
    let (is_hostport, u4) = hostport u3 in
    (true, if is_hostport then u4 else unset_part Part.userinfo (rewind pos u4))

unfoldable pub reg_name : Uriaa → Bool × Uriaa
reg_name = uri_scan_from reg_name_chars reg_name_chars

unfoldable pub authority : Uriaa → Bool × Uriaa
authority u =
    let (is_server, u1) = server u in
    let (is_reg_name, u2) = when (not is_server) reg_name u1 in
    if is_server || is_reg_name
    then (true, set_part Part.authority u.uri.read_pos u2)
    else (false, rewind u.uri.read_pos u2)
