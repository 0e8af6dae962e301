-- ===== src/Url/Parse.antt =====
-- `parse_url` of onec_url_normalizer.cpp and `trim` of string_utils.cpp.
use scand.Prelude.{
  ℕ, ◌+◌, ◌*◌, ◌-◌, Bool, true, false, not, ◌&&◌, ◌||◌, [], ◌∷◌, Bytes, codes, Option, none, some,
  leb, ◌==◌, all, is_empty, if◌then◌else◌, bytes_eq, cut,
}
use scand.Url.Hosts.{to_lower}

pub record ParsedUrl : Type 0 where
  pub scheme : Bytes
  pub hostname : Bytes
  pub port : Bytes
  pub path : Bytes
  pub has_userinfo : Bool
  pub has_query : Bool
  pub has_fragment : Bool

abbrev pub is_space : ℕ → Bool
is_space c = (c == 32) || (c == 9) || (c == 13) || (c == 10)

abbrev pub trim_left : Bytes → Bytes
trim_left [] = []
trim_left (c ∷ s) = if is_space c then trim_left s else c ∷ s

-- The text up to its last byte that is no space.
abbrev pub trim_right : Bytes → Bytes
trim_right [] = []
trim_right (c ∷ s) = let rest = trim_right s in if is_space c && is_empty rest then [] else c ∷ rest

unfoldable pub trim : Bytes → Bytes
trim s = trim_right (trim_left s)

-- What is left behind `://`, with what is before it.
unfoldable pub cut_scheme : Bytes → Option (Bytes × Bytes)
cut_scheme [] = none
cut_scheme (a ∷ s) =
    let rest = cut_scheme s in
    elim (behind (a ∷ s)) [
      | some after ↦ some ([], after)
      | none ↦ elim rest [ none ↦ none | some (l, r) ↦ some (a ∷ l, r) ]
    ]
  where
    behind : Bytes → Option Bytes
    behind (x ∷ y ∷ z ∷ t) = if (x == b':') && (y == b'/') && (z == b'/') then some t else none
    behind _ = none

-- `rfind(c)`.
unfoldable pub cut_last : ℕ → Bytes → Option (Bytes × Bytes)
cut_last c [] = none
cut_last c (a ∷ s) = elim (cut_last c s) [
  | some (l, r) ↦ some (a ∷ l, r)
  | none ↦ if a == c then some ([], s) else none
]

-- The text before `c`, and whether there is one.
unfoldable pub before : ℕ → Bytes → Bytes × Bool
before c s = elim (cut c s) [ none ↦ (s, false) | some (l, r) ↦ (l, true) ]

-- The authority and the path, which begins with its slash.
unfoldable pub cut_path : Bytes → Bytes × Bytes
cut_path s = elim (cut b'/' s) [ none ↦ (s, []) | some (l, r) ↦ (l, b'/' ∷ r) ]

unfoldable pub cut_userinfo : Bytes → Bytes × Bool
cut_userinfo s = elim (cut b'@' s) [ none ↦ (s, false) | some (l, r) ↦ (r, true) ]

-- The port behind a closing bracket.
abbrev pub port_behind : Bytes → Bytes
port_behind [] = []
port_behind (c ∷ s) = if c == b':' then s else []

-- Host name and port.
unfoldable pub cut_port : Bytes → Option (Bytes × Bytes)
cut_port [] = some ([], [])
cut_port (c ∷ s) =
    if c == b'['
    then elim (cut b']' s) [ none ↦ none | some (l, r) ↦ some (l, port_behind r) ]
    else elim (cut_last b':' (c ∷ s)) [ none ↦ some (c ∷ s, []) | some (l, r) ↦ some (l, r) ]

abbrev pub is_digit : ℕ → Bool
is_digit c = leb b'0' c && leb c b'9'

-- `std::stoi` of digits; a number too big for an `int` is refused as one above 65535 is.
abbrev pub number : ℕ → Bytes → ℕ
number acc [] = acc
number acc (c ∷ s) = number (acc * 10 + (c - b'0')) s

unfoldable pub is_port : Bytes → Bool
is_port port =
    is_empty port || (all is_digit port && leb 1 (number 0 port) && leb (number 0 port) 65535)

unfoldable pub parse_rest : Bytes → Bytes → Option ParsedUrl
parse_rest scheme s =
    let (no_fragment, has_fragment) = before b'#' s in
    let (no_query, has_query) = before b'?' no_fragment in
    let (authority, path) = cut_path no_query in
    let (host_port, has_userinfo) = cut_userinfo authority in
    elim (cut_port host_port) [
      | none ↦ none
      | some (hostname, port) ↦
          if is_empty hostname || not (is_port port)
          then none
          else some (record {
            scheme = scheme;
            hostname = to_lower hostname;
            port = port;
            path = path;
            has_userinfo = has_userinfo;
            has_query = has_query;
            has_fragment = has_fragment;
          })
    ]

unfoldable pub parse_url : Bytes → Option ParsedUrl
parse_url url = elim (cut_scheme url) [
  | none ↦ none
  | some (l, r) ↦
      let scheme = to_lower l in
      if bytes_eq scheme (codes "http") || bytes_eq scheme (codes "https")
      then parse_rest scheme r
      else none
]
