-- ===== src/Mapper/Tests.antt =====
-- Concrete rows of a catalogue.
use scand.Prelude.{
  ◌+◌, ◌≡◌, refl, false, List, [], ◌∷◌, codes, Bytes, is_empty, length, All, bytes_eq,
}
use scand.Mapper.{OnecCatalogRow, Product, is_truthy, skipped_count, map_rows}
use scand.Mapper.Laws.{map_rows_complete}

abbrev row : Bytes → Bytes → OnecCatalogRow
row key folder = record {
  ref_key = key;
  code = codes "c";
  article = [];
  name = codes "n";
  full_name = [];
  is_folder = folder;
  deletion_mark = [];
}

abbrev rows : List OnecCatalogRow
rows = row (codes "k") [] ∷ row (codes "f") (codes "True") ∷ row [] [] ∷ []

map_rows_complete_example :
    (length (map_rows rows) + skipped_count rows ≡ length rows)
    × All (λ (p : Product). is_empty p.id ≡ false) (map_rows rows)
map_rows_complete_example = map_rows_complete rows

skipped_two : skipped_count rows ≡ 2
unfolding skipped_count is_truthy bytes_eq
skipped_two = refl
