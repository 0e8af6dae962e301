-- ===== src/Mapper.antt =====
-- `OnecProductMapper` of onec_product_mapper.cpp: products from the rows of the 1C catalogue.
pub mod Laws
mod Tests
use scand.Prelude.{
  ℕ, zero, suc, Bool, ◌||◌, List, [], ◌∷◌, map, Bytes, codes, is_empty, if◌then◌else◌, bytes_eq,
  to_lower_byte,
}

-- The fields that the mapper reads.
pub record OnecCatalogRow : Type 0 where
  pub ref_key : Bytes
  pub code : Bytes
  pub article : Bytes
  pub name : Bytes
  pub full_name : Bytes
  pub is_folder : Bytes
  pub deletion_mark : Bytes

-- The price is always 0.0.
pub record Product : Type 0 where
  pub id : Bytes
  pub offer_id : Bytes
  pub name : Bytes

unfoldable pub is_truthy : Bytes → Bool
is_truthy v =
    let s = map to_lower_byte v in
    bytes_eq s (codes "true") || bytes_eq s (codes "1") || bytes_eq s (codes "да")

unfoldable pub skipped_count : List OnecCatalogRow → ℕ
skipped_count [] = 0
skipped_count (r ∷ rows) =
    let n = skipped_count rows in
    if is_truthy r.is_folder
    then suc n
    else if is_truthy r.deletion_mark
    then suc n
    else if is_empty r.ref_key
    then suc n
    else n

abbrev pub product_of : OnecCatalogRow → Product
product_of r = record {
  id = r.ref_key;
  offer_id = if is_empty r.article then r.code else r.article;
  name = if is_empty r.full_name then r.name else r.full_name;
}

unfoldable pub map_rows : List OnecCatalogRow → List Product
map_rows [] = []
map_rows (r ∷ rows) =
    let rest = map_rows rows in
    if is_truthy r.is_folder
    then rest
    else if is_truthy r.deletion_mark
    then rest
    else if is_empty r.ref_key
    then rest
    else product_of r ∷ rest
