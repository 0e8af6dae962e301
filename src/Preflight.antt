-- ===== src/Preflight.antt =====
-- The preflight of onec_odata_preflight.cpp: whether an address may be asked at all, and what the
-- answer to the question for $metadata means. The network library is the interface `Inet`, and
-- `std::regex` is a parameter; times are left out.
pub mod Safety
mod Tests
use scand.Prelude.{
  ℕ, zero, suc, ◌+◌, ◌*◌, ◌/◌, ◌%◌, ◌==◌, ◌&&◌, ◌||◌, Bool, true, false, not, Option, none, some,
  List, [], ◌∷◌, ◌++◌, Bytes, codes, if◌then◌else◌, ltb, leb, is_empty, length, take, drop, get_or,
  bytes_eq, to_string, cut,
}
use scand.Env.{HttpResponse, Request, Net}
use scand.Url.Hosts.{Inet, loopback6}
use scand.Url.Parse.{cut_scheme, cut_last, cut_path}
use scand.Url.Normalize.{normalize_onec_publication_url}

-- `std::regex_search`, and the first groups of all matches, of a pattern without regard to case; and
-- `std::stoi`, with `none` where it throws.
pub record Patterns : Type 0 where
  pub search : Bytes → Bytes → Bool
  pub matches : Bytes → Bytes → List Bytes
  pub stoi : Bytes → Option ℕ

-- The tests on the upper bytes of an address.
unfoldable pub is_global4 : ℕ → Bool
is_global4 h =
    let a = h / 0x1000000 in
    let b = h / 0x10000 % 0x100 in
    not (
      (a == 10)
      || ((a == 172) && leb 16 b && leb b 31)
      || ((a == 192) && (b == 168))
      || (a == 127)
      || ((a == 169) && (b == 254))
      || ((a == 100) && leb 64 b && leb b 127)
      || (a == 0)
      || (leb 224 a && leb a 239)
      || leb 240 a)

unfoldable pub is_inner4 : ℕ → Bool
is_inner4 h =
    let a = h / 0x1000000 in
    let b = h / 0x10000 % 0x100 in
    (a == 10)
    || ((a == 172) && leb 16 b && leb b 31)
    || ((a == 192) && (b == 168))
    || (a == 127)
    || ((a == 169) && (b == 254))
    || ((a == 100) && leb 64 b && leb b 127)

-- Unique local and link-local addresses.
unfoldable pub is_local6 : List ℕ → Bool
is_local6 v6 =
    (get_or v6 0 0 % 0x100 / 2 * 2 == 0xFC)
    || ((get_or v6 0 0 == 0xFE) && (get_or v6 1 0 % 0x100 / 64 * 64 == 0x80))

abbrev v4mapped : Bytes
v4mapped = 0 ∷ 0 ∷ 0 ∷ 0 ∷ 0 ∷ 0 ∷ 0 ∷ 0 ∷ 0 ∷ 0 ∷ 0xFF ∷ 0xFF ∷ []

-- The last four bytes with dots between them.
abbrev pub dotted : List ℕ → Bytes
dotted v6 =
    to_string (get_or v6 12 0)
    ++ (codes "."
        ++ (to_string (get_or v6 13 0)
            ++ (codes "."
                ++ (to_string (get_or v6 14 0) ++ (codes "." ++ to_string (get_or v6 15 0))))))

abbrev pub metadata_path : Bytes
metadata_path = codes "odata/standard.odata/$metadata"

pub record HostPort : Type 0 where
  pub host : Bytes
  pub port : ℕ

-- The texts of the field `message`.
pub data Message : Type 0 where
  no_message : Message
  url_refused : Message
  inner_network : Message
  no_answer : ℕ → Message
  bad_login : Message
  forbidden : Message
  not_published : Message
  redirected : Message
  http_failure : ℕ → Message
  too_large : Message
  not_metadata : Message
  no_resources : Message
  works : ℕ → Message
  works_insecure : ℕ → Message

-- `ProbeResult` without its times.
pub record ProbeResult : Type 0 where
  pub configured : Bool
  pub ready : Bool
  pub secure_transport : Bool
  pub status_code : Option ℕ
  pub metadata_entity_sets : ℕ
  pub message : Message
  pub resource_preview : List Bytes
  pub base_url : Bytes
  pub username : Bytes

module _ (inet : Inet) (patterns : Patterns) where
  -- `is_global_ip`; its call on the text of a mapped address is the only one in itself, and that text
  -- is no address of the other family, so that a depth of two is enough.
  unfoldable pub is_global_at : ℕ → Bytes → Bool
  is_global_at zero ip = false
  is_global_at (suc depth) ip = elim (inet.pton4 ip) [
    | some h ↦ is_global4 h
    | none ↦ elim (inet.pton6 ip) [
      | none ↦ false
      | some v6 ↦
          let mapped = is_global_at depth (dotted v6) in
          if bytes_eq v6 loopback6
          then false
          else if is_local6 v6
          then false
          else if bytes_eq (take 12 v6) v4mapped
          then mapped
          else true
    ]
  ]

  unfoldable pub is_global_ip : Bytes → Bool
  is_global_ip ip = is_global_at 2 ip

  unfoldable pub is_private_or_loopback : Bytes → Bool
  is_private_or_loopback ip = elim (inet.pton4 ip) [
    | some h ↦ is_inner4 h
    | none ↦ elim (inet.pton6 ip) [ none ↦ false | some v6 ↦ bytes_eq v6 loopback6 || is_local6 v6 ]
  ]

  unfoldable pub is_loopback_hostname : Bytes → Bool
  is_loopback_hostname host =
      if bytes_eq host (codes "localhost") then true else elim (inet.pton4 host) [
        | some h ↦ h / 0x1000000 == 127
        | none ↦ elim (inet.pton6 host) [ none ↦ false | some v6 ↦ bytes_eq v6 loopback6 ]
      ]

  abbrev pub port_or : ℕ → Bytes → ℕ
  port_or port text = elim (patterns.stoi text) [ none ↦ port | some n ↦ n ]

  -- The host and the port of an authority.
  unfoldable pub parse_authority : ℕ → Bytes → HostPort
  parse_authority port [] = record { host = []; port = port }
  parse_authority port (a ∷ authority) =
      if a == b'['
      then (elim (cut b']' authority) [
        | none ↦ record { host = []; port = port }
        | some (host, behind) ↦ record {
          host = host;
          port = elim behind [
            | [] ↦ port
            | (c ∷ text) ↦ if c == b':' then port_or port text else port
          ];
        }
      ])
      else elim (cut_last b':' (a ∷ authority)) [
        | none ↦ record { host = a ∷ authority; port = port }
        | some (host, text) ↦ record { host = host; port = port_or port text }
      ]

  unfoldable pub parse_host_port : Bytes → HostPort
  parse_host_port url = elim (cut_scheme url) [
    | none ↦ record { host = []; port = 80 }
    | some (scheme, rest) ↦
        parse_authority (if bytes_eq (take 8 url) (codes "https://") then 443 else 80)
          ((cut_path rest).0)
  ]

  -- `resolve_hostname`, empty on a failure.
  abbrev pub resolve_hostname : Bytes → List Bytes
  resolve_hostname host = elim (inet.resolve host) [ none ↦ [] | some addresses ↦ addresses ]

  abbrev pub is_literal : Bytes → Bool
  is_literal host = elim (inet.pton4 host) [
    | some h ↦ true
    | none ↦ elim (inet.pton6 host) [ none ↦ false | some v6 ↦ true ]
  ]

  -- The loop over the addresses.
  unfoldable pub all_public : Bool → List Bytes → Bool
  all_public allow_private_network [] = true
  all_public allow_private_network (addr ∷ addresses) =
      let rest = all_public allow_private_network addresses in
      if is_global_ip addr
      then rest
      else if allow_private_network && is_private_or_loopback addr
      then rest
      else false

  abbrev pub addresses_of : Bytes → List Bytes
  addresses_of host = if is_literal host then host ∷ [] else resolve_hostname host

  -- `assert_public_destination`: false where it throws.
  unfoldable pub assert_public_destination : Bytes → Bool → Bool → Bool
  assert_public_destination publication_url allow_local_loopback allow_private_network =
      let host = (parse_host_port publication_url).host in
      if is_empty host
      then false
      else if allow_local_loopback && is_loopback_hostname host
      then true
      else if is_empty (addresses_of host)
      then false
      else all_public allow_private_network (addresses_of host)

  abbrev pub edmx_pattern : Bytes
  edmx_pattern = codes "<(?:[A-Za-z0-9_]+:)?Edmx\\b"

  abbrev pub entity_set_pattern : Bytes
  entity_set_pattern =
      codes "<(?:[A-Za-z0-9_]+:)?EntitySet\\b[^>]*\\bName=[\"']([A-Za-z0-9_.\\-]{1,128})[\"']"

  unfoldable pub count_entity_sets : Bytes → ℕ × List Bytes
  count_entity_sets xml =
      let names = patterns.matches entity_set_pattern xml in (length names, take 24 names)

  -- What the answer makes of the result.
  unfoldable pub judged : ℕ → HttpResponse → ProbeResult → ProbeResult
  judged timeout_ms r result =
      let (count, names) = count_entity_sets r.text in
      if r.status_code == 0
      then record result { message = no_answer (timeout_ms / 1000) }
      else if r.status_code == 401
      then record result { message = bad_login }
      else if r.status_code == 403
      then record result { message = forbidden }
      else if r.status_code == 404
      then record result { message = not_published }
      else if leb 300 r.status_code && ltb r.status_code 400
      then record result { message = redirected }
      else if leb 400 r.status_code
      then record result { message = http_failure r.status_code }
      else if ltb (25 * 1024 * 1024) (length r.text)
      then record result { message = too_large }
      else if not (patterns.search edmx_pattern r.text)
      then record result { message = not_metadata }
      else if count == 0
      then record result {
        metadata_entity_sets = count;
        resource_preview = names;
        message = no_resources;
      }
      else record result {
        metadata_entity_sets = count;
        resource_preview = names;
        configured = true;
        ready = true;
        message = if result.secure_transport then works count else works_insecure count;
      }

  abbrev pub meta_url : Bytes → Bytes
  meta_url normalized = elim (cut_last b'/' normalized) [
    | some (front, []) ↦ normalized ++ metadata_path
    | _ ↦ if is_empty normalized then metadata_path else normalized ++ (codes "/" ++ metadata_path)
  ]

  abbrev pub unknown_result : ProbeResult
  unknown_result = record {
    configured = false;
    ready = false;
    secure_transport = false;
    status_code = none;
    metadata_entity_sets = 0;
    message = no_message;
    resource_preview = [];
    base_url = [];
    username = [];
  }

  module _ {W : Type 0} (net : Net W) where
    -- The request and its answer, behind the tests.
    unfoldable pub asked_metadata : Bytes → Bytes → Bytes → ℕ → ProbeResult → W → ProbeResult × W
    asked_metadata normalized username password timeout_ms result w =
        let (r, w1) =
          net.get
            record {
              url = meta_url normalized;
              params = [];
              auth = (username, password);
              timeout = timeout_ms;
            }
            w in
        (judged timeout_ms r record result { status_code = some r.status_code }, w1)

    unfoldable pub probe_onec_odata : Bytes → Bytes → Bytes → Bool → ℕ → Bool → W → ProbeResult × W
    probe_onec_odata base_url username password insecure timeout_ms private w =
        elim (normalize_onec_publication_url inet
          record { allow_insecure_http = insecure; allow_private_network = private } base_url) [
            | none ↦ (record unknown_result { message = url_refused }, w)
            | some normalized ↦
                let result : ProbeResult = record unknown_result {
                  secure_transport = bytes_eq (take 8 normalized) (codes "https://");
                  base_url = normalized;
                  username = username;
                } in
                let probed = asked_metadata normalized username password timeout_ms result w in
                if assert_public_destination normalized insecure private
                then probed
                else (record result { message = inner_network }, w)
          ]
