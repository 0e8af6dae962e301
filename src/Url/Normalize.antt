-- ===== src/Url/Normalize.antt =====
-- `normalize_onec_publication_url` of onec_url_normalizer.cpp.
pub mod Safety
use scand.Prelude.{
  ℕ, ◌-◌, Bool, true, false, not, ◌&&◌, ◌||◌, [], ◌∷◌, ◌++◌, Bytes, codes, Option, none, some, leb,
  ltb, ◌==◌, is_empty, length, take, drop, if◌then◌else◌, bytes_eq,
}
use scand.Url.Hosts.{
  Inet, to_lower, is_ip_literal, is_loopback_ip, is_private_ip, hostname_resolves_to_internal,
}
use scand.Url.Parse.{ParsedUrl, trim, parse_url}

pub record OnecUrlNormalizeOptions : Type 0 where
  pub allow_insecure_http : Bool
  pub allow_private_network : Bool

unfoldable pub ends_with_ci : Bytes → Bytes → Bool
ends_with_ci s suffix =
    if ltb (length s) (length suffix)
    then false
    else bytes_eq (to_lower (drop (length s - length suffix) s)) (to_lower suffix)

-- `while (!path.empty() && path.back() == '/') path.pop_back()`.
abbrev pub without_slashes : Bytes → Bytes
without_slashes [] = []
without_slashes (c ∷ s) =
    let rest = without_slashes s in if (c == b'/') && is_empty rest then [] else c ∷ rest

abbrev pub metadata_suffix : Bytes
metadata_suffix = codes "/odata/standard.odata/$metadata"

abbrev pub odata_suffix : Bytes
odata_suffix = codes "/odata/standard.odata"

-- The loop over the two suffixes.
unfoldable pub without_suffix : Bytes → Bytes
without_suffix path =
    if ends_with_ci path metadata_suffix
    then take (length path - length metadata_suffix) path
    else if ends_with_ci path odata_suffix
    then take (length path - length odata_suffix) path
    else path

unfoldable pub assemble : ParsedUrl → Bytes
assemble p =
    p.scheme
    ++ (codes "://"
        ++ (p.hostname
            ++ ((if is_empty p.port then [] else b':' ∷ p.port)
                ++ (without_suffix (without_slashes p.path) ++ codes "/"))))

module _ (net : Inet) (options : OnecUrlNormalizeOptions) where
  unfoldable pub local_test_target : ParsedUrl → Bool
  local_test_target p =
      bytes_eq p.scheme (codes "http")
      && options.allow_insecure_http
      && is_loopback_ip net p.hostname

  -- The checks on the host, in their order.
  unfoldable pub host_allowed : ParsedUrl → Bool
  host_allowed p =
      let literal = is_ip_literal net p.hostname in
      let loopback = local_test_target p in
      if not options.allow_private_network
        && literal
        && is_private_ip net p.hostname
        && not loopback
      then false
      else if not options.allow_private_network
          && not literal
          && not loopback
          && hostname_resolves_to_internal net p.hostname
      then false
      else if bytes_eq p.scheme (codes "http")
          && not (is_loopback_ip net p.hostname)
          && not options.allow_insecure_http
      then false
      else true

  unfoldable pub check_parsed : ParsedUrl → Option Bytes
  check_parsed p =
      if p.has_userinfo || p.has_query || p.has_fragment
      then none
      else if host_allowed p
      then some (assemble p)
      else none

  unfoldable pub normalize_onec_publication_url : Bytes → Option Bytes
  normalize_onec_publication_url raw_url =
      let value = trim raw_url in
      if is_empty value || ltb 1024 (length value)
      then none
      else elim (parse_url value) [ none ↦ none | some p ↦ check_parsed p ]
