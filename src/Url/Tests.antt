-- ===== src/Url/Tests.antt =====
-- Concrete addresses, with a small network.
use scand.Prelude.{
  ℕ, ◌≡◌, refl, ◌≤◌, false, [], ◌∷◌, Bytes, codes, Option, none, some, bytes_eq, cut, length,
  if◌then◌else◌,
}
use scand.Url.Hosts.{
  Inet, is_ip_literal, is_loopback_ip, is_private_ip, is_private4, hostname_resolves_to_internal,
  is_internal,
}
use scand.Url.Parse.{
  ParsedUrl, trim, cut_scheme, cut_last, before, cut_path, cut_userinfo, cut_port, is_port,
  parse_rest, parse_url,
}
use scand.Url.Normalize.{
  OnecUrlNormalizeOptions, ends_with_ci, without_suffix, assemble, local_test_target, host_allowed,
  check_parsed, normalize_onec_publication_url,
}
use scand.Url.Normalize.Safety.{IsAccepted, normalize_accepts_safe}

abbrev known : Bytes → Option ℕ
known s =
    if bytes_eq s (codes "127.0.0.1")
    then some 0x7F000001
    else if bytes_eq s (codes "10.0.0.1")
    then some 0x0A000001
    else if bytes_eq s (codes "8.8.8.8")
    then some 0x08080808
    else none

abbrev inet : Inet
inet = record {
  pton4 = known;
  pton6 = λ s. none;
  resolve = λ s.
      if bytes_eq s (codes "1c.example.com")
      then some (codes "8.8.8.8" ∷ [])
      else if bytes_eq s (codes "inner.example.com")
      then some (codes "8.8.8.8" ∷ codes "10.0.0.1" ∷ [])
      else none;
}

abbrev strict : OnecUrlNormalizeOptions
strict = record { allow_insecure_http = false; allow_private_network = false }

abbrev raw : Bytes
raw = codes " HTTPS://1C.example.com:443/Base/odata/Standard.OData/ "

abbrev accepted : Bytes
accepted = codes "https://1c.example.com:443/Base/"

normalize_runs : normalize_onec_publication_url inet strict raw ≡ some accepted
unfolding normalize_onec_publication_url trim parse_url cut_scheme parse_rest before cut_path
    cut_userinfo cut_port cut_last is_port check_parsed host_allowed local_test_target is_ip_literal
    is_loopback_ip is_private_ip hostname_resolves_to_internal is_internal is_private4 assemble
    without_suffix ends_with_ci bytes_eq cut
normalize_runs = refl

-- A name one of whose addresses is private is refused.
inner_refused :
    normalize_onec_publication_url inet strict (codes "https://inner.example.com/") ≡ none
unfolding normalize_onec_publication_url trim parse_url cut_scheme parse_rest before cut_path
    cut_userinfo cut_port cut_last is_port check_parsed host_allowed local_test_target is_ip_literal
    is_loopback_ip is_private_ip hostname_resolves_to_internal is_internal is_private4 bytes_eq cut
inner_refused = refl

-- A literal loopback is accepted, over `https` and over plain `http`, where neither option is set.
loopback_accepted :
    (normalize_onec_publication_url inet strict (codes "https://127.0.0.1/")
      ≡ some (codes "https://127.0.0.1/"))
    × (normalize_onec_publication_url inet strict (codes "http://127.0.0.1/")
        ≡ some (codes "http://127.0.0.1/"))
unfolding normalize_onec_publication_url trim parse_url cut_scheme parse_rest before cut_path
    cut_userinfo cut_port cut_last is_port check_parsed host_allowed local_test_target is_ip_literal
    is_loopback_ip is_private_ip is_private4 assemble without_suffix ends_with_ci bytes_eq cut
loopback_accepted = (refl, refl)

normalize_accepts_safe_example :
    (p : ParsedUrl) × (parse_url (trim raw) ≡ some p)
    × (length (trim raw) ≤ 1024)
    × IsAccepted inet strict p accepted
normalize_accepts_safe_example = normalize_accepts_safe inet strict raw accepted normalize_runs refl
