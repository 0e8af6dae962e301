-- ===== src/Catalog/Pull/Saved.antt =====
-- What the pulls leave in the tables.
use scand.Prelude.{
  ℕ, ◌==◌, ◌≡◌, ◌⊎◌, true, false, not, Option, none, some, List, [], ◌∷◌, Bytes, map, keep, length,
  is_empty, contains, All,
}
use scand.Catalog.Normalize.{ProductRecord}
use scand.Catalog.Pull.Columns.{kept_of, FitsColumns, has_clash}
use scand.Catalog.Pull.{
  ProductRow, row_of, Link, Tables, Tx, Sql, done, undefined_table, refused_value,
  in_failed_transaction, and_then, codes_of_article, is_reached, PullResult, count_conflicts,
  linked,
}

-- The transaction cannot be committed any more.
abbrev pub IsAborted : {A : Type 0} → Sql A → Type 0
IsAborted (done a tx) = tx.aborted ≡ true
IsAborted (undefined_table tx) = tx.aborted ≡ true
IsAborted (refused_value tx) = tx.aborted ≡ true
IsAborted (in_failed_transaction tx) = tx.aborted ≡ true

-- The relation holds at each place.
abbrev pub AtEach : (Link → Link → Type 0) → List Link → List Link → Type 0
AtEach R [] [] = Unit
AtEach R [] (_ ∷ _) = ⊥
AtEach R (_ ∷ _) [] = ⊥
AtEach R (a ∷ old) (b ∷ new) = R a b × AtEach R old new

-- What becomes of a row that names a product: it stays, or gets a code of the tenant's products with
-- its article where it had none; and no row of the tenant whose article a product has is left
-- without a code.
abbrev pub Migrated : ℕ → List ProductRow → Link → Link → Type 0
Migrated tenant_id products old new =
    (is_reached tenant_id products new ≡ false)
    × ((new ≡ old)
        ⊎ ((c : Bytes) × (old.onec_code ≡ none)
            × (contains c (codes_of_article tenant_id old.sku_1c products) ≡ true)
            × (new ≡ record old { onec_code = some c })))

abbrev pub MigratedTable : ℕ → List ProductRow → Option (List Link) → Option (List Link) → Type 0
MigratedTable tenant_id products none new = ⊥
MigratedTable tenant_id products (some old) none = ⊥
MigratedTable tenant_id products (some old) (some new) =
    AtEach (Migrated tenant_id products) old new

-- The rows of the tenant, and those of the others.
abbrev pub own_rows : ℕ → List ProductRow → List ProductRow
own_rows tenant_id ps = keep (λ (p : ProductRow). p.tenant_id == tenant_id) ps

abbrev pub foreign_rows : ℕ → List ProductRow → List ProductRow
foreign_rows tenant_id ps = keep (λ (p : ProductRow). not (p.tenant_id == tenant_id)) ps

-- The tables behind a pull that can be committed, of whose records the database keeps some.
pub record IsSaved (tenant_id : ℕ) (records kept : List ProductRecord) (old : Tables)
    (r : PullResult) (tx : Tx) : Type 0 where
  pub committable : tx.aborted ≡ false
  pub accepted : r.accepted ≡ length records
  pub own : own_rows tenant_id tx.tables.products ≡ map (row_of tenant_id) kept
  pub foreign : foreign_rows tenant_id tx.tables.products ≡ foreign_rows tenant_id old.products
  pub stocks : MigratedTable tenant_id tx.tables.products old.stocks tx.tables.stocks
  pub cost_batch : MigratedTable tenant_id tx.tables.products old.cost_batch tx.tables.cost_batch
  pub cost_supplier :
      MigratedTable tenant_id tx.tables.products old.cost_supplier tx.tables.cost_supplier

-- An update takes one of the rows that join.
abbrev pub Chooses : (List Bytes → Bytes) → Type 0
Chooses chosen = (cs : List Bytes) → is_empty cs ≡ false → contains (chosen cs) cs ≡ true

-- How the three migrations end.
data Migration (chosen : List Bytes → Bytes) (tenant_id : ℕ) (products : List ProductRow)
    : Option (List Link) → Option (List Link) → Option (List Link) → Sql ℕ → Type 0 where
  all_three :
      {as_ bs cs : List Link} (n : ℕ)
      → Migration chosen tenant_id products (some as_) (some bs) (some cs) (
          done n record {
            tables = record {
              products = products;
              stocks = some (map (linked chosen tenant_id products) as_);
              cost_batch = some (map (linked chosen tenant_id products) bs);
              cost_supplier = some (map (linked chosen tenant_id products) cs);
            };
            aborted = false;
          })
  missing :
      {a b c : Option (List Link)} {s : Sql ℕ}
      → (a ≡ none) ⊎ ((b ≡ none) ⊎ (c ≡ none))
      → IsAborted s
      → Migration chosen tenant_id products a b c s

abbrev finish : Bytes → List (List Bytes) → List ProductRecord → Sql ℕ → Sql PullResult
finish measured_at rows records s = and_then s (λ migrated tx3.
    done
      record {
        accepted = length records;
        migrated = migrated;
        conflicts = count_conflicts rows [];
        measured_at = measured_at;
      }
      tx3)

-- How saving over those tables ends.
abbrev pub Outcome :
    (List ProductRecord → Option (List ProductRecord))
    → ℕ
    → List ProductRecord
    → Tables
    → Sql PullResult
    → Type 0
Outcome stored tenant_id records t s =
    ((kept : List ProductRecord) × (r : PullResult) × (tx : Tx) × (kept_of stored records
        ≡ some kept)
      × (All FitsColumns records → kept ≡ records)
      × (s ≡ done r tx)
      × IsSaved tenant_id records kept t r tx)
    ⊎ (((All FitsColumns records → has_clash records ≡ true)
          ⊎ ((t.stocks ≡ none) ⊎ ((t.cost_batch ≡ none) ⊎ (t.cost_supplier ≡ none))))
        × IsAborted s)
