-- ===== src/Url/Hosts.antt =====
-- The tests on host names: literal addresses, loopback, inner networks, and resolving.
use scand.Prelude.{
  ℕ, ◌*◌, ◌/◌, ◌%◌, Bool, true, false, ◌&&◌, ◌||◌, List, [], ◌∷◌, map, Bytes, codes, Option, none,
  some, leb, ◌==◌, any, if◌then◌else◌, bytes_eq, to_lower_byte, get_or,
}

-- `inet_pton` for both families, the address as a number and as its 16 bytes, and `getaddrinfo` with
-- the texts that `inet_ntop` gives; `none` for a failure.
pub record Inet : Type 0 where
  pub pton4 : Bytes → Option ℕ
  pub pton6 : Bytes → Option (List ℕ)
  pub resolve : Bytes → Option (List Bytes)

abbrev pub to_lower : Bytes → Bytes
to_lower s = map to_lower_byte s

-- A dot at the end goes.
abbrev pub without_dot : Bytes → Bytes
without_dot [] = []
without_dot (a ∷ []) = if a == b'.' then [] else a ∷ []
without_dot (a ∷ b ∷ s) = a ∷ without_dot (b ∷ s)

abbrev pub loopback6 : Bytes
loopback6 = 0 ∷ 0 ∷ 0 ∷ 0 ∷ 0 ∷ 0 ∷ 0 ∷ 0 ∷ 0 ∷ 0 ∷ 0 ∷ 0 ∷ 0 ∷ 0 ∷ 0 ∷ 1 ∷ []

-- The tests on the four bytes of an address.
unfoldable pub is_private4 : ℕ → Bool
is_private4 h =
    let a = h / 0x1000000 in
    let b = h / 0x10000 % 0x100 in
    (a == 10)
    || ((a == 172) && leb 16 b && leb b 31)
    || ((a == 192) && (b == 168))
    || ((a == 169) && (b == 254))
    || ((a == 100) && leb 64 b && leb b 127)
    || (a == 0)

-- The masks 0xFE and 0xC0 keep the upper bits.
unfoldable pub is_private6 : List ℕ → Bool
is_private6 v6 =
    let a = get_or v6 0 0 in
    let b = get_or v6 1 0 in
    (a % 0x100 / 2 * 2 == 0xFC) || ((a == 0xFE) && (b % 0x100 / 64 * 64 == 0x80))

module _ (net : Inet) where
  unfoldable pub is_ip_literal : Bytes → Bool
  is_ip_literal hostname = elim (net.pton4 hostname) [
    | some v4 ↦ true
    | none ↦ elim (net.pton6 hostname) [ some v6 ↦ true | none ↦ false ]
  ]

  unfoldable pub is_loopback_ip : Bytes → Bool
  is_loopback_ip hostname = elim (net.pton4 hostname) [
    | some v4 ↦ v4 / 0x1000000 == 127
    | none ↦ elim (net.pton6 hostname) [
      | some v6 ↦ bytes_eq v6 loopback6
      | none ↦ bytes_eq (without_dot (to_lower hostname)) (codes "localhost")
    ]
  ]

  unfoldable pub is_private_ip : Bytes → Bool
  is_private_ip hostname = elim (net.pton4 hostname) [
    | some v4 ↦ is_private4 v4
    | none ↦ elim (net.pton6 hostname) [ some v6 ↦ is_private6 v6 | none ↦ false ]
  ]

  unfoldable pub is_internal : Bytes → Bool
  is_internal address = is_private_ip address || is_loopback_ip address

  unfoldable pub hostname_resolves_to_internal : Bytes → Bool
  hostname_resolves_to_internal hostname = elim (net.resolve hostname) [
    | none ↦ true
    | some addresses ↦ any is_internal addresses
  ]
