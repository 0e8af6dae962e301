-- ===== src/Catalog/Pull/Columns.antt =====
-- What the database is relied on to store of the records of the stream into inventory1c_products.
use scand.Prelude.{
  ℕ, suc, ◌≤◌, ◌≢◌, ◌≡◌, Bool, true, false, Option, none, some, List, [], ◌∷◌, arith, Bytes, map,
  if◌then◌else◌, ◌&&◌, ◌||◌, leb, ltb, contains, All,
}
use scand.Catalog.Normalize.{ProductRecord}

-- What the database keeps of the records; nothing is sent where there are none.
abbrev pub kept_of :
    (List ProductRecord → Option (List ProductRecord))
    → List ProductRecord
    → Option (List ProductRecord)
kept_of stored [] = some []
kept_of stored (r ∷ records) = stored (r ∷ records)

-- The characters of a text, by the bytes that begin one.
abbrev pub char_count : Bytes → ℕ
char_count [] = 0
char_count (c ∷ s) = if leb 0x80 c && ltb c 0xC0 then char_count s else suc (char_count s)

-- The texts of a record fit the columns of sql/004_inventory_products.sql.
abbrev pub FitsColumns : ProductRecord → Type 0
FitsColumns r =
    (char_count r.code ≤ 64)
    × (char_count r.article ≤ 128)
    × (char_count r.name ≤ 512)
    × (char_count r.ref_key ≤ 36)
    × All (λ c. c ≢ 0) r.code
    × All (λ c. c ≢ 0) r.article
    × All (λ c. c ≢ 0) r.name

-- A text is twice in the list.
abbrev pub has_twice : List Bytes → Bool
has_twice [] = false
has_twice (x ∷ xs) = contains x xs || has_twice xs

-- Two records have the same code, or the same reference.
abbrev pub has_clash : List ProductRecord → Bool
has_clash rs =
    has_twice (map (λ (r : ProductRecord). r.code) rs)
    || has_twice (map (λ (r : ProductRecord). r.ref_key) rs)

-- What is relied on of the database: records whose texts fit are stored as they are, and refused only
-- for one of the two keys of the table.
pub record StoresFitting (stored : List ProductRecord → Option (List ProductRecord)) : Type 0 where
  pub unchanged :
      (rs kept : List ProductRecord) → stored rs ≡ some kept → All FitsColumns rs → kept ≡ rs
  pub clashing :
      (rs : List ProductRecord) → stored rs ≡ none → All FitsColumns rs → has_clash rs ≡ true

pub kept_of-unchanged :
    (stored : List ProductRecord → Option (List ProductRecord))
    → StoresFitting stored
    → (rs kept : List ProductRecord) → kept_of stored rs ≡ some kept
    → All FitsColumns rs
    → kept ≡ rs
kept_of-unchanged stored fitting [] kept q h = ground (arith, q)
kept_of-unchanged stored fitting (r ∷ rs) kept q h = fitting.unchanged (r ∷ rs) kept q h

pub kept_of-clashing :
    (stored : List ProductRecord → Option (List ProductRecord))
    → StoresFitting stored
    → (rs : List ProductRecord) → kept_of stored rs ≡ none
    → All FitsColumns rs
    → has_clash rs ≡ true
kept_of-clashing stored fitting [] q h = cc
kept_of-clashing stored fitting (r ∷ rs) q h = fitting.clashing (r ∷ rs) q h
