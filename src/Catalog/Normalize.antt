-- ===== src/Catalog/Normalize.antt =====
-- `normalize_onec_product_catalog` of onec_product_catalog.cpp. The order in which the hash map `by_ref`
-- is visited is a parameter.
pub mod Sorting
pub mod Indexing
pub mod Refines
use scand.Prelude.{
  ℕ, suc, ◌&&◌, ◌||◌, Bool, true, false, not, Option, none, some, List, [], ◌∷◌, Bytes, map, keep,
  ltb, ◌==◌, if◌then◌else◌, length, is_empty, get_or, all, bytes_lt, lookup, insert, set_insert,
}
use scand.Json.{or_else}
use scand.Ka2.Guids.{is_xdigit}

-- `OneCProductRecord`.
pub record ProductRecord : Type 0 where
  pub code : Bytes
  pub article : Bytes
  pub name : Bytes
  pub ref_key : Bytes
  pub measured_at : Bytes

abbrev dashes : List ℕ
dashes = 8 ∷ 13 ∷ 18 ∷ 23 ∷ []

-- The second loop of `is_valid_uuid`, from index `i`.
xdigits_from : ℕ → Bytes → Bool
xdigits_from i [] = true
xdigits_from i (c ∷ s) =
    (i == 8 || (i == 13 || (i == 18 || (i == 23 || is_xdigit c)))) && xdigits_from (suc i) s

unfoldable pub is_valid_uuid : Bytes → Bool
unfolding xdigits_from
is_valid_uuid s =
    if length s == 36 then all (λ p. get_or s p 0 == b'-') dashes && xdigits_from 0 s else false

-- The record that a row gives, if the loop does not skip it.
unfoldable pub record_of : Bytes → List Bytes → Option ProductRecord
record_of measured_at [] = none
record_of measured_at (_ ∷ []) = none
record_of measured_at (_ ∷ _ ∷ []) = none
record_of measured_at (_ ∷ _ ∷ _ ∷ []) = none
record_of measured_at (code ∷ article ∷ name ∷ ref_key ∷ more) =
    if is_empty code || is_empty ref_key
    then none
    else if not (is_valid_uuid ref_key)
    then none
    else some record {
      code = code;
      article = article;
      name = name;
      ref_key = ref_key;
      measured_at = measured_at;
    }

-- The two maps of the loop.
pub record Index : Type 0 where
  pub by_ref : List (Bytes × ProductRecord)
  pub refs_by_code : List (Bytes × List Bytes)

-- `m[key]`, empty for a new key.
abbrev pub refs_at : Bytes → List (Bytes × List Bytes) → List Bytes
refs_at key m = or_else (lookup key m) []

unfoldable pub add_record : ProductRecord → Index → Index
add_record rec index = record {
  by_ref = insert rec.ref_key rec index.by_ref;
  refs_by_code =
      insert rec.code (set_insert rec.ref_key (refs_at rec.code index.refs_by_code))
        index.refs_by_code;
}

-- The loop over the rows.
unfoldable pub index_rows : Bytes → List (List Bytes) → Index → Index
index_rows measured_at [] index = index
index_rows measured_at (row ∷ rows) index = elim (record_of measured_at row) [
  | none ↦ index_rows measured_at rows index
  | some rec ↦ index_rows measured_at rows (add_record rec index)
]

-- `std::sort` by the code.
unfoldable pub insert_by_code : ProductRecord → List ProductRecord → List ProductRecord
insert_by_code r [] = r ∷ []
insert_by_code r (s ∷ out) =
    let rest = insert_by_code r out in if bytes_lt s.code r.code then s ∷ rest else r ∷ s ∷ out

unfoldable pub sort_by_code : List ProductRecord → List ProductRecord
sort_by_code [] = []
sort_by_code (r ∷ out) = insert_by_code r (sort_by_code out)

-- The test on an ambiguous code, negated.
unfoldable pub has_one_ref : List (Bytes × List Bytes) → ProductRecord → Bool
has_one_ref refs_by_code rec = not (ltb 1 (length (refs_at rec.code refs_by_code)))

abbrev pub no_index : Index
no_index = record { by_ref = []; refs_by_code = [] }

unfoldable pub normalize_onec_product_catalog :
    (List (Bytes × ProductRecord) → List (Bytes × ProductRecord))
    → List (List Bytes)
    → Bytes
    → List ProductRecord
normalize_onec_product_catalog visit rows measured_at =
    let index = index_rows measured_at rows no_index in
    sort_by_code (keep (has_one_ref index.refs_by_code) (map (λ e. e.1) (visit index.by_ref)))
