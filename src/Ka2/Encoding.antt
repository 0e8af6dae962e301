-- ===== src/Ka2/Encoding.antt =====
-- `encode_path_for_cpr` of onec_ka2_inventory.cpp: percent-encoding of a resource path.
use scand.Prelude.{
  ℕ, ◌+◌, ◌*◌, ◌/◌, ◌%◌, ◌-◌, ◌<◌, Bool, not, ◌&&◌, ◌||◌, codes, [], ◌∷◌, ltb, leb, ◌==◌,
  if◌then◌else◌, All, Bytes, ◌≢◌,
}

-- The bytes that are sent as they are.
unfoldable pub is_plain : ℕ → Bool
is_plain c =
    ltb c 0x80
    && (not (c == b' ')
        && (not (c == b'\'')
            && (not (c == b'"')
                && (not (c == b'<')
                    && (not (c == b'>')
                        && (not (c == b'#')
                            && (not (c == b'{')
                                && (not (c == b'}')
                                    && (not (c == b'|')
                                        && (not (c == b'\\')
                                            && (not (c == b'^')
                                                && (not (c == b'`') && leb 0x20 c))))))))))))

-- One digit of `%02X`.
abbrev hex_digit : ℕ → ℕ
hex_digit n = if ltb n 10 then n + b'0' else n - 10 + b'A'

unfoldable pub encode_path_for_cpr : Bytes → Bytes
encode_path_for_cpr [] = []
encode_path_for_cpr (c ∷ s) =
    if is_plain c
    then c ∷ encode_path_for_cpr s
    else b'%' ∷ hex_digit (c / 16) ∷ hex_digit (c % 16) ∷ encode_path_for_cpr s

abbrev digit_value : ℕ → ℕ
digit_value d = if ltb d b'A' then d - b'0' else d - b'A' + 10

-- The byte ends the path in a request line.
abbrev pub ends_path : ℕ → Bool
ends_path c = c == b' ' || (c == b'?' || c == b'#')

abbrev pub in_front : ℕ → Bytes × Bytes → Bytes × Bytes
in_front c (path, rest) = (c ∷ path, rest)

-- How a server reads the path of a request line: up to a space, a question mark or a hash, with the
-- escapes decoded. The result is the path and the text behind it.
pub read_path : Bytes → Bytes × Bytes
read_path [] = ([], [])
read_path (c ∷ []) = if ends_path c then ([], c ∷ []) else (c ∷ [], [])
read_path (c ∷ d ∷ []) =
    let more = in_front c (read_path (d ∷ [])) in if ends_path c then ([], c ∷ d ∷ []) else more
read_path (c ∷ d ∷ e ∷ s) =
    let decoded = in_front (digit_value d * 16 + digit_value e) (read_path s) in
    let plain = in_front c (read_path (d ∷ e ∷ s)) in
    if ends_path c then ([], c ∷ d ∷ e ∷ s) else if c == b'%' then decoded else plain

-- A byte that may stand in the path of a request line: printable ASCII but the space and the bytes that
-- an address may not hold.
abbrev pub IsPathByte : ℕ → Type 0
IsPathByte c = (32 < c) × (c < 128) × All (λ f. c ≢ f) (codes "\"'<>#{}|\\^`")
