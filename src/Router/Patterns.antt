-- ===== src/Router/Patterns.antt =====
-- What the patterns of routes match.
use scand.Prelude.{
  ℕ, ◌≡◌, refl, ◌≢◌, ◌↔◌, inl, inr, ap, sym, true, List, [], ◌∷◌, ◌++◌, arith, Bytes, none, some,
  ◌==◌, All, map, bytes_eq, bytes_eq_refl, Bool-cases, Option-cases, insert, eq_of_bytes_eq, ◌&&◌,
}
use scand.Router.{ends_with, init, param_name, match_parts}

-- A parameter of a pattern: its name in braces.
abbrev pub braced : Bytes → Bytes
braced name = b'{' ∷ (name ++ b'}' ∷ [])

-- A part of a pattern with the part of a path in its place: a literal stands for itself, a parameter for
-- any value.
pub data Piece : Type 0 where
  literal : Bytes → Piece
  param : (name value : Bytes) → Piece

abbrev pub pattern_of : Piece → Bytes
pattern_of (literal text) = text
pattern_of (param name value) = braced name

abbrev pub value_of : Piece → Bytes
value_of (literal text) = text
value_of (param name value) = value

-- A literal is not in braces.
abbrev pub IsPiece : Piece → Type 0
IsPiece (literal text) = (name : Bytes) → text ≢ braced name
IsPiece (param name value) = Unit

-- The parameters take their values one after the other.
abbrev pub bound : List Piece → List (Bytes × Bytes) → List (Bytes × Bytes)
bound [] m = m
bound (literal text ∷ ps) m = bound ps m
bound (param name value ∷ ps) m = bound ps (insert name value m)

ends_with-end : (c : ℕ) (s : Bytes) → ends_with c (s ++ c ∷ []) ≡ true
ends_with-end c [] = ground arith
ends_with-end c (a ∷ []) = ground arith
ends_with-end c (a ∷ b ∷ s) = ends_with-end c (b ∷ s)

init-end : (c : ℕ) (s : Bytes) → init (s ++ c ∷ []) ≡ s
init-end c [] = refl
init-end c (a ∷ []) = refl
init-end c (a ∷ b ∷ s) = ap (a ∷◌) (init-end c (b ∷ s))

of_ends_with : (c : ℕ) (s : Bytes) → ends_with c s ≡ true → s ≡ init s ++ c ∷ []
of_ends_with c [] h = cc
of_ends_with c (a ∷ []) h = ground arith
of_ends_with c (a ∷ b ∷ s) h = ap (a ∷◌) (of_ends_with c (b ∷ s) h)

param_name-braced : (name : Bytes) → param_name (braced name) ≡ some name
unfolding param_name
param_name-braced name = rw (ends_with-end b'}' name, init-end b'}' name) refl

braced_of : (p name : Bytes) → param_name p ≡ some name → p ≡ braced name
unfolding param_name
braced_of [] name h = cc
braced_of (a ∷ s) name h = elim (Bool-cases ((a == b'{') && ends_with b'}' s)) [
  | inr q ↦ absurd (ground (arith, h, q))
  | inl q ↦
      let named : init s ≡ name = ground (arith, h, q) in
      let first : a ≡ b'{' = ground arith in
      let last = of_ends_with b'}' s (ground arith) in cc (named, first, last)
]

not_braced : (p : Bytes) → param_name p ≡ none → (name : Bytes) → p ≢ braced name
not_braced p h name e = absurd (ground (arith, h, ap param_name e, param_name-braced name))

literal_name : (text : Bytes) → ((name : Bytes) → text ≢ braced name) → param_name text ≡ none
literal_name text h = elim (Option-cases (param_name text)) [
  | inl q ↦ q
  | inr (name, q) ↦ absurd (h name (braced_of text name q))
]

-- A pattern made of pieces matches the path made of them.
match_pieces :
    (ps : List Piece) (m : List (Bytes × Bytes))
    → All IsPiece ps
    → match_parts (map pattern_of ps) (map value_of ps) m ≡ some (bound ps m)
unfolding match_parts
match_pieces [] m h = refl
match_pieces (literal text ∷ ps) m (h, hs) =
    rw (match_parts, literal_name text h, bytes_eq_refl text) (match_pieces ps m hs)
match_pieces (param name value ∷ ps) m (h, hs) =
    rw (match_parts, param_name-braced name) (match_pieces ps (insert name value m) hs)

-- The pieces behind a match.
abbrev pub Made : List Bytes → List Bytes → List (Bytes × Bytes) → List (Bytes × Bytes) → Type 0
Made pats vals m r =
    (ps : List Piece) × All IsPiece ps
    × (map pattern_of ps ≡ pats)
    × (map value_of ps ≡ vals)
    × (bound ps m ≡ r)

match_parts-Made :
    (pats vals : List Bytes) (m r : List (Bytes × Bytes))
    → match_parts pats vals m ≡ some r
    → Made pats vals m r
unfolding match_parts
match_parts-Made [] [] m r h = ([], tt, refl, refl, ground (arith, h))
match_parts-Made [] (v ∷ vals) m r h = cc
match_parts-Made (p ∷ pats) [] m r h = cc
match_parts-Made (p ∷ pats) (v ∷ vals) m r h = elim (Option-cases (param_name p)) [
  | inl q ↦ elim (Bool-cases (bytes_eq p v)) [
    | inl same ↦
        let (ps, ok, a, b, c) = match_parts-Made pats vals m r (ground (arith, h, q, same)) in
        (literal p ∷ ps, (not_braced p q, ok), ap (p ∷◌) a, cc (eq_of_bytes_eq p v same, b), c)
    | inr other ↦ absurd (ground (arith, h, q, other))
  ]
  | inr (name, q) ↦
      let (ps, ok, a, b, c) =
        match_parts-Made pats vals (insert name v m) r (ground (arith, h, q)) in
      (param name v ∷ ps, (tt, ok), cc (braced_of p name q, a), ap (v ∷◌) b, c)
]

-- A path matches a pattern with these parameters exactly if both are made of the same pieces, literals
-- that are not in braces and parameters whose names stand in braces in the pattern and whose values
-- stand in the path, and the parameters are these values under their names, of one name the last.
pub match_parts_iff :
    (pats vals : List Bytes) (m r : List (Bytes × Bytes))
    → (match_parts pats vals m ≡ some r) ↔ Made pats vals m r
match_parts_iff pats vals m r = (match_parts-Made pats vals m r, matched)
  where
    matched : Made pats vals m r → match_parts pats vals m ≡ some r
    matched (ps, ok, a, b, c) = rw (sym a, sym b, sym c) (match_pieces ps m ok)
