-- ===== src/Url/Normalize/Safety.antt =====
-- Which addresses are accepted.
use scand.Prelude.{
  ◌≡◌, ◌⊎◌, inl, inr, ℕ, ◌<◌, ◌≢◌, get_or, ◌≤◌, Bool, true, false, List, [], ◌∷◌, Bytes, codes,
  none, some, arith, ap, ◌∙◌, eq_of_bytes_eq, any, All, Option-cases, length, bytes_eq,
  bytes_eq_iff,
}
use scand.Url.Hosts.{
  Inet, is_private4, is_private6, without_dot, to_lower, is_ip_literal, is_loopback_ip,
  is_private_ip, is_internal, hostname_resolves_to_internal,
}
use scand.Url.Parse.{ParsedUrl, trim, parse_url}
use scand.Url.Normalize.{
  OnecUrlNormalizeOptions, assemble, local_test_target, host_allowed, check_parsed,
  normalize_onec_publication_url,
}

none_of : {A : Type 0} (p : A → Bool) (xs : List A) → any p xs ≡ false → All (λ x. p x ≡ false) xs
none_of p [] h = tt
none_of p (x ∷ xs) h = (ground arith, none_of p xs (ground arith))

-- An IPv4 address as a number, in none of the ranges 0/8, 10/8, 100.64/10, 169.254/16, 172.16/12 and
-- 192.168/16.
abbrev pub IsPublic4 : ℕ → Type 0
IsPublic4 h =
    (0x01000000 ≤ h)
    × ((h < 0x0A000000) ⊎ (0x0B000000 ≤ h))
    × ((h < 0x64400000) ⊎ (0x64800000 ≤ h))
    × ((h < 0xA9FE0000) ⊎ (0xA9FF0000 ≤ h))
    × ((h < 0xAC100000) ⊎ (0xAC200000 ≤ h))
    × ((h < 0xC0A80000) ⊎ (0xC0A90000 ≤ h))

-- The bytes of an IPv6 address outside fc00::/7 and fe80::/10, by the first two of them.
abbrev pub IsPublic6 : List ℕ → Type 0
IsPublic6 v6 =
    (get_or v6 0 0 ≢ 0xFC)
    × (get_or v6 0 0 ≢ 0xFD)
    × ((get_or v6 0 0 ≡ 0xFE) → (get_or v6 1 0 < 0x80) ⊎ (0xC0 ≤ get_or v6 1 0))

is_private4_lem : (h : ℕ) → is_private4 h ≡ false → IsPublic4 h
unfolding is_private4
is_private4_lem h p = ground arith

is_private6_lem : (v6 : List ℕ) → is_private6 v6 ≡ false → IsPublic6 v6
unfolding is_private6
is_private6_lem v6 p = ground arith

-- The last of the addresses ::/127.
abbrev one6 : Bytes
one6 = 0 ∷ 0 ∷ 0 ∷ 0 ∷ 0 ∷ 0 ∷ 0 ∷ 0 ∷ 0 ∷ 0 ∷ 0 ∷ 0 ∷ 0 ∷ 0 ∷ 0 ∷ 1 ∷ []

module _ (net : Inet) where
  -- The host is an address in 127/8, or ::1, or the name "localhost".
  pub data IsLoopback (host : Bytes) : Type 0 where
    loopback_v4 :
        (h : ℕ) → net.pton4 host ≡ some h → 0x7F000000 ≤ h → h < 0x80000000 → IsLoopback host
    loopback_v6 : net.pton4 host ≡ none → net.pton6 host ≡ some one6 → IsLoopback host
    loopback_name :
        net.pton4 host ≡ none
        → net.pton6 host ≡ none
        → without_dot (to_lower host) ≡ codes "localhost"
        → IsLoopback host

  -- The host is a literal address in none of the private ranges.
  abbrev pub IsPublicLiteral : Bytes → Type 0
  IsPublicLiteral host =
      ((h : ℕ) × (net.pton4 host ≡ some h) × IsPublic4 h)
      ⊎ ((v6 : Bytes) × (net.pton4 host ≡ none) × (net.pton6 host ≡ some v6) × IsPublic6 v6)

  -- An address to which a name resolves is in no private range and no loopback.
  abbrev pub IsOutside : Bytes → Type 0
  IsOutside address =
      ((h : ℕ) → net.pton4 address ≡ some h → IsPublic4 h × ((h < 0x7F000000) ⊎ (0x80000000 ≤ h)))
      × ((v6 : Bytes)
          → net.pton4 address ≡ none
          → net.pton6 address ≡ some v6
          → IsPublic6 v6 × (v6 ≢ one6))

  is_loopback_ip-IsLoopback : (host : Bytes) → is_loopback_ip net host ≡ true → IsLoopback host
  unfolding is_loopback_ip
  is_loopback_ip-IsLoopback host p = elim (Option-cases (net.pton4 host)) [
    | inr (h, q) ↦ loopback_v4 h q (ground (arith, p, q)) (ground (arith, p, q))
    | inl q ↦ elim (Option-cases (net.pton6 host)) [
      | inr (v6, r) ↦ loopback_v6 q (r ∙ ap some (eq_of_bytes_eq v6 one6 (ground (arith, p, q, r))))
      | inl r ↦ loopback_name q r (
          eq_of_bytes_eq (without_dot (to_lower host)) (codes "localhost")
            (ground (arith, p, q, r)))
    ]
  ]

  literal_lem :
      (host : Bytes)
      → is_ip_literal net host ≡ true
      → is_private_ip net host ≡ false
      → IsPublicLiteral host
  unfolding is_ip_literal is_private_ip
  literal_lem host l p = elim (Option-cases (net.pton4 host)) [
    | inr (h, q) ↦ inl (h, q, is_private4_lem h (ground (arith, p, q)))
    | inl q ↦ elim (Option-cases (net.pton6 host)) [
      | inr (v6, r) ↦ inr (v6, q, r, is_private6_lem v6 (ground (arith, p, q, r)))
      | inl r ↦ absurd (ground (arith, l, q, r))
    ]
  ]

  is_internal-IsOutside : (address : Bytes) → is_internal net address ≡ false → IsOutside address
  unfolding is_internal is_private_ip is_loopback_ip
  is_internal-IsOutside address p = (
    λ h q. (is_private4_lem h (ground (arith, p, q)), ground (arith, p, q)),
    λ v6 q r. (
      is_private6_lem v6 (ground (arith, p, q, r)),
      λ e. ground (arith, p, q, r, bytes_eq_iff v6 one6, e),
    ),
  )

module _ (net : Inet) (options : OnecUrlNormalizeOptions) where
  -- What is known of the host of an accepted address.
  pub data HostIsSafe (p : ParsedUrl) : Type 0 where
    local_test :
        p.scheme ≡ codes "http"
        → options.allow_insecure_http ≡ true
        → IsLoopback net p.hostname
        → HostIsSafe p
    literal : IsPublicLiteral net p.hostname → HostIsSafe p
    resolved :
        (addresses : List Bytes)
        → net.resolve p.hostname ≡ some addresses
        → All (IsOutside net) addresses
        → HostIsSafe p

  abbrev pub IsSecure : ParsedUrl → Type 0
  IsSecure p =
      (p.scheme ≢ codes "http") ⊎ IsLoopback net p.hostname ⊎ (options.allow_insecure_http ≡ true)

  All-IsOutside :
      (addresses : List Bytes)
      → All (λ a. is_internal net a ≡ false) addresses
      → All (IsOutside net) addresses
  All-IsOutside [] h = tt
  All-IsOutside (a ∷ addresses) (h, hs) =
      (is_internal-IsOutside net a h, All-IsOutside addresses hs)

  -- The same by the tests of the code.
  abbrev IsTestedSecure : ParsedUrl → Type 0
  IsTestedSecure p =
      (bytes_eq p.scheme (codes "http") ≡ false)
      ⊎ (is_loopback_ip net p.hostname ≡ true)
      ⊎ (options.allow_insecure_http ≡ true)

  secure_lem : (p : ParsedUrl) → IsTestedSecure p → IsSecure p
  secure_lem p (inl h) = inl (λ e. ground (arith, h, e, bytes_eq_iff p.scheme (codes "http")))
  secure_lem p (inr (inl h)) = inr (inl (is_loopback_ip-IsLoopback net p.hostname h))
  secure_lem p (inr (inr h)) = inr (inr h)

  resolved_lem :
      (p : ParsedUrl) → hostname_resolves_to_internal net p.hostname ≡ false → HostIsSafe p
  unfolding hostname_resolves_to_internal
  resolved_lem p h = elim (Option-cases (net.resolve p.hostname)) [
    | inl failed ↦ absurd (ground (arith, failed))
    | inr (addresses, found) ↦ resolved addresses found (
        All-IsOutside addresses
          (none_of (λ a. is_internal net a) addresses (ground (arith, found))))
  ]

  host_facts :
      (p : ParsedUrl)
      → host_allowed net options p ≡ true
      → options.allow_private_network ≡ false
      → ((local_test_target net options p ≡ true)
          ⊎ ((is_ip_literal net p.hostname ≡ true) × (is_private_ip net p.hostname ≡ false))
          ⊎ (hostname_resolves_to_internal net p.hostname ≡ false))
        × IsTestedSecure p
  unfolding host_allowed
  host_facts p h k = ground arith

  local_facts : (p : ParsedUrl) → local_test_target net options p ≡ true → HostIsSafe p
  unfolding local_test_target
  local_facts p h =
      local_test (ground (arith, bytes_eq_iff p.scheme (codes "http"))) (ground arith)
        (is_loopback_ip-IsLoopback net p.hostname (ground arith))

  host_lem :
      (p : ParsedUrl)
      → host_allowed net options p ≡ true
      → options.allow_private_network ≡ false
      → HostIsSafe p × IsSecure p
  host_lem p h k =
      let (cases, secure) = host_facts p h k in
      elim cases [
        | inl local ↦ (local_facts p local, secure_lem p secure)
        | inr (inl (is_literal, public)) ↦
            (literal (literal_lem net p.hostname is_literal public), secure_lem p secure)
        | inr (inr outside) ↦ (resolved_lem p outside, secure_lem p secure)
      ]

  -- An accepted address, from the parts that were read.
  abbrev pub IsAccepted : ParsedUrl → Bytes → Type 0
  IsAccepted p url =
      (url ≡ assemble p)
      × (p.has_userinfo ≡ false)
      × (p.has_query ≡ false)
      × (p.has_fragment ≡ false)
      × IsSecure p
      × HostIsSafe p

  check_parsed_lem :
      (p : ParsedUrl) (url : Bytes)
      → check_parsed net options p ≡ some url
      → options.allow_private_network ≡ false
      → IsAccepted p url
  unfolding check_parsed
  check_parsed_lem p url h k =
      let (safe, secure) = host_lem p (ground arith) k in
      (ground arith, ground arith, ground arith, ground arith, secure, safe)

  -- Where private networks are not allowed, an address that is accepted was read from a text of at
  -- most 1024 bytes without user, query and fragment; its scheme is not `http` unless its host is a
  -- loopback (127/8, ::1, "localhost") or plain `http` is allowed; and its host is a literal IPv4
  -- address outside of 0/8, 10/8, 100.64/10, 169.254/16, 172.16/12 and 192.168/16, or a literal IPv6
  -- address outside of fc00::/7 and fe80::/10, or a name that resolves only to such addresses but
  -- loopbacks, or, with `http` that is allowed, a loopback. Of a literal address it is not said that it
  -- is no loopback and no IPv4 address mapped into IPv6, which the code lets pass.
  pub normalize_accepts_safe :
      (raw_url url : Bytes)
      → normalize_onec_publication_url net options raw_url ≡ some url
      → options.allow_private_network ≡ false
      → (p : ParsedUrl) × (parse_url (trim raw_url) ≡ some p)
        × (length (trim raw_url) ≤ 1024)
        × IsAccepted p url
  unfolding normalize_onec_publication_url
  normalize_accepts_safe raw_url url h k = elim (Option-cases (parse_url (trim raw_url))) [
    | inl unread ↦ absurd (ground (arith, unread))
    | inr (p, read) ↦ (p, read, ground arith, check_parsed_lem p url (ground (arith, read)) k)
  ]
