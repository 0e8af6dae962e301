-- ===== src/Ka2/Guids.antt =====
-- Keys in OData requests, of onec_ka2_inventory.cpp: `is_valid_guid`, `build_guid_filter` and
-- `escape_odata_string`, and how an OData server reads a quoted literal.
use scand.Prelude.{
  ℕ, zero, suc, ◌+◌, ◌≤◌, ◌<◌, ◌↔◌, ◌≡◌, refl, Bool, true, false, ◌&&◌, ◌||◌, List, [], ◌∷◌, ◌++◌,
  arith, leb, ◌==◌, if◌then◌else◌, length, All, all, Bytes, codes, Bool-cases, inl, inr, ◌≢◌, ◌⊎◌,
  Option, none, some, get_or,
}

-- `std::isxdigit`.
abbrev pub is_xdigit : ℕ → Bool
is_xdigit c =
    (leb b'0' c && leb c b'9') || ((leb b'a' c && leb c b'f') || (leb b'A' c && leb c b'F'))

abbrev dash_places : List ℕ
dash_places = 8 ∷ 13 ∷ 18 ∷ 23 ∷ []

abbrev is_dash_place : ℕ → Bool
is_dash_place i = i == 8 || (i == 13 || (i == 18 || i == 23))

-- The second loop, from index `i`.
hex_between : ℕ → Bytes → Bool
hex_between i [] = true
hex_between i (c ∷ s) = (is_dash_place i || is_xdigit c) && hex_between (suc i) s

unfoldable pub is_valid_guid : Bytes → Bool
unfolding hex_between
is_valid_guid s =
    if length s == 36 then all (λ p. get_or s p 0 == b'-') dash_places && hex_between 0 s else false

-- A hexadecimal digit, and a place where a GUID has a dash.
abbrev pub IsHex : ℕ → Type 0
IsHex c = ((48 ≤ c) × (c ≤ 57)) ⊎ (((97 ≤ c) × (c ≤ 102)) ⊎ ((65 ≤ c) × (c ≤ 70)))

abbrev pub IsDashPlace : ℕ → Type 0
IsDashPlace p = (p ≡ 8) ⊎ ((p ≡ 13) ⊎ ((p ≡ 18) ⊎ (p ≡ 23)))

-- The printed form of a GUID: 36 bytes, dashes at their four places, and digits at all others.
abbrev pub IsGuid : Bytes → Type 0
IsGuid s =
    (length s ≡ 36)
    × ((p : ℕ) → IsDashPlace p → get_or s p 0 ≡ b'-')
    × ((p : ℕ) → p < length s → (IsDashPlace p → ⊥) → IsHex (get_or s p 0))

hex_between_at :
    (i : ℕ) (s : Bytes) (p : ℕ)
    → hex_between i s ≡ true
    → p < length s
    → is_dash_place (i + p) ≡ false
    → is_xdigit (get_or s p 0) ≡ true
unfolding hex_between
hex_between_at i [] p h l d = absurd (omega (arith, l))
hex_between_at i (c ∷ s) zero h l d = ground arith
hex_between_at i (c ∷ s) (suc p) h l d =
    hex_between_at (suc i) s p (ground arith) (ground arith) (ground arith)

hex_between_all :
    (i : ℕ) (s : Bytes)
    → ((p : ℕ) → p < length s → is_dash_place (i + p) ≡ false → is_xdigit (get_or s p 0) ≡ true)
    → hex_between i s ≡ true
unfolding hex_between
hex_between_all i [] h = refl
hex_between_all i (c ∷ s) h =
    let rest = hex_between_all (suc i) s (λ p l d. h (suc p) (ground arith) (ground arith)) in
    let first : (is_dash_place i || is_xdigit c) ≡ true = elim (Bool-cases (is_dash_place i)) [
      | inl q ↦ ground arith
      | inr q ↦ let e = h 0 (ground arith) (ground arith) in ground arith
    ] in
    ground arith

is_dash_place_iff : (p : ℕ) → (is_dash_place p ≡ true) ↔ IsDashPlace p
is_dash_place_iff p = ground arith

is_xdigit_iff : (c : ℕ) → (is_xdigit c ≡ true) ↔ IsHex c
is_xdigit_iff c = ground arith

not_dash_place : (p : ℕ) → (IsDashPlace p → ⊥) → is_dash_place p ≡ false
not_dash_place p h = elim (Bool-cases (is_dash_place p)) [
  | inl q ↦ absurd (h ((is_dash_place_iff p).0 q))
  | inr q ↦ q
]

dash_places_at :
    (s : Bytes)
    → all (λ p. get_or s p 0 == b'-') dash_places ≡ true
    → (p : ℕ) → IsDashPlace p
    → get_or s p 0 ≡ b'-'
dash_places_at s h p (inl e) = rw e (ground arith)
dash_places_at s h p (inr (inl e)) = rw e (ground arith)
dash_places_at s h p (inr (inr (inl e))) = rw e (ground arith)
dash_places_at s h p (inr (inr (inr e))) = rw e (ground arith)

-- Exactly the texts of 36 bytes with dashes at the places 8, 13, 18 and 23, counted from 0, and
-- hexadecimal digits at all the others are accepted.
pub is_valid_guid_iff : (s : Bytes) → (is_valid_guid s ≡ true) ↔ IsGuid s
unfolding is_valid_guid
is_valid_guid_iff s = (accepted, valid)
  where
    accepted : is_valid_guid s ≡ true → IsGuid s
    accepted h = (
      ground arith,
      dash_places_at s (ground arith),
      λ p l n.
          (is_xdigit_iff (get_or s p 0)).0
            (hex_between_at 0 s p (ground arith) l (ground (arith, not_dash_place p n))),
    )

    valid : IsGuid s → is_valid_guid s ≡ true
    valid (l, d, x) =
        let hex = hex_between_all 0 s (λ p m f.
          (is_xdigit_iff (get_or s p 0)).1
            (x p m (λ e. let t = (is_dash_place_iff p).1 e in ground arith))) in
        let a = d 8 (inl refl) in
        let b = d 13 (inr (inl refl)) in
        let c = d 18 (inr (inr (inl refl))) in let e = d 23 (inr (inr (inr refl))) in ground arith

-- The clause for the guid at index `i`.
abbrev guid_clause : Bytes → Bytes → Bytes
guid_clause field guid = field ++ (codes " eq guid'" ++ (guid ++ codes "'"))

-- The loop of `build_guid_filter` behind the first guid.
more_clauses : Bytes → List Bytes → Bytes
more_clauses field [] = []
more_clauses field (g ∷ guids) = codes " or " ++ (guid_clause field g ++ more_clauses field guids)

unfoldable pub build_guid_filter : Bytes → List Bytes → Bytes
unfolding more_clauses
build_guid_filter field [] = []
build_guid_filter field (g ∷ guids) = guid_clause field g ++ more_clauses field guids

unfoldable pub escape_odata_string : Bytes → Bytes
escape_odata_string [] = []
escape_odata_string (c ∷ s) =
    if c == b'\'' then b'\'' ∷ b'\'' ∷ escape_odata_string s else c ∷ escape_odata_string s

abbrev prefix : ℕ → Option (Bytes × Bytes) → Option (Bytes × Bytes)
prefix c none = none
prefix c (some (s, rest)) = some (c ∷ s, rest)

-- How an OData server reads the text behind an opening quote: a doubled quote is a quote, a single
-- one ends the literal. The result is the literal and the text behind it.
pub read_literal : Bytes → Option (Bytes × Bytes)
read_literal [] = none
read_literal (c ∷ []) = if c == b'\'' then some ([], []) else none
read_literal (c ∷ d ∷ t) =
    let doubled = prefix b'\'' (read_literal t) in
    let plain = prefix c (read_literal (d ∷ t)) in
    if c == b'\'' then if d == b'\'' then doubled else some ([], d ∷ t) else plain

-- The text starts with no quote.
abbrev pub NoQuoteFirst : Bytes → Type 0
NoQuoteFirst [] = Unit
NoQuoteFirst (c ∷ s) = c ≢ b'\''

abbrev pub NoQuote : Bytes → Type 0
NoQuote = All (λ c. c ≢ b'\'')

read_literal_plain :
    (c : ℕ) (t : Bytes) → c ≢ b'\'' → read_literal (c ∷ t) ≡ prefix c (read_literal t)
unfolding read_literal
read_literal_plain c [] h = ground arith
read_literal_plain c (d ∷ t) h = ground arith

read_literal_end :
    (rest : Bytes) → NoQuoteFirst rest → read_literal (b'\'' ∷ rest) ≡ some ([], rest)
unfolding read_literal
read_literal_end [] h = refl
read_literal_end (d ∷ t) h = ground arith

-- Whatever text is escaped and closed by a quote, the server reads exactly that text, and goes on
-- behind the closing quote, if what follows does not start with a quote.
pub read_literal-escape_odata_string :
    (s rest : Bytes)
    → NoQuoteFirst rest
    → read_literal (escape_odata_string s ++ b'\'' ∷ rest) ≡ some (s, rest)
unfolding escape_odata_string read_literal
read_literal-escape_odata_string [] rest h = read_literal_end rest h
read_literal-escape_odata_string (c ∷ s) rest h = elim (Bool-cases (c == b'\'')) [
  | inl q ↦ rw (q, read_literal-escape_odata_string s rest h) (ground arith)
  | inr o ↦ rw o (
      rw (read_literal_plain c (escape_odata_string s ++ b'\'' ∷ rest) (ground arith))
        (rw (read_literal-escape_odata_string s rest h) refl))
]
