-- ===== src/Mapper/Laws.antt =====
-- What the mapper keeps.
use scand.Prelude.{◌+◌, ◌≡◌, refl, false, List, [], ◌∷◌, arith, is_empty, length, All}
use scand.Mapper.{OnecCatalogRow, Product, skipped_count, map_rows}

-- Every product has an identifier, and with the rows that are counted as skipped the products are as
-- many as the rows.
pub map_rows_complete :
    (rows : List OnecCatalogRow)
    → (length (map_rows rows) + skipped_count rows ≡ length rows)
      × All (λ (p : Product). is_empty p.id ≡ false) (map_rows rows)
unfolding map_rows skipped_count
map_rows_complete [] = (refl, tt)
map_rows_complete (r ∷ rows) =
    let (counted, kept) = map_rows_complete rows in ground (arith, counted, kept)
