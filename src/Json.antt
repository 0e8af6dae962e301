-- ===== src/Json.antt =====
-- The JSON accessors that onec_ka2_inventory.cpp and onec_inventory.cpp declare alike: a field by its
-- name and kind, with a value for a missing field or another kind.
use scand.Prelude.{Bool, Option, none, some, List, [], ◌∷◌, Bytes, codes}
use scand.Env.{JsonLib, Doubles}

abbrev pub or_else {ℓ} : {A : Type ℓ} → Option A → A → A
or_else none d = d
or_else (some a) d = a

infixl 5 ◌>>=◌
abbrev pub ◌>>=◌ {ℓ κ} : {A : Type ℓ} {B : Type κ} → Option A → (A → Option B) → Option B
none >>= f = none
some a >>= f = f a

module _ {J O D : Type 0} (lib : JsonLib J O D) where
  unfoldable pub get_str : O → Bytes → Bytes
  get_str o key = or_else (lib.find o key >>= lib.as_string) []

  unfoldable pub get_bool : O → Bytes → Bool → Bool
  get_bool o key def = or_else (lib.find o key >>= lib.as_bool) def

  -- A number of any kind, a text that `std::stod` reads, else zero.
  unfoldable pub get_num : Doubles D → O → Bytes → D
  get_num dbl o key = elim (lib.find o key) [
    | none ↦ dbl.zero
    | some v ↦ elim (lib.as_number v) [
      | some d ↦ d
      | none ↦ or_else (lib.as_string v >>= dbl.stod) dbl.zero
    ]
  ]

  -- The array under "value".
  unfoldable pub extract_value : J → Option (List J)
  extract_value value = do o ← lib.as_object value; v ← lib.find o (codes "value"); lib.as_array v

  -- The loop `for (v : *items) if (v.is_object()) out.push_back(v.as_object())`.
  unfoldable pub objects : List J → List O
  objects [] = []
  objects (v ∷ items) = elim (lib.as_object v) [ none ↦ objects items | some o ↦ o ∷ objects items ]
