-- ===== src/Catalog/Pull.antt =====
-- `pull_onec_product_catalog` and `pull_onec_product_catalog_sse` of onec_product_catalog.cpp, with the
-- tables that their statements name. A failed statement spoils the transaction, as PostgreSQL has
-- it; the row that an update takes of several that join is a parameter, and so is what the database
-- stores of the records.
pub mod Columns
pub mod Saved
use scand.Prelude.{
  ℕ, zero, suc, ◌+◌, ◌==◌, ◌&&◌, ◌||◌, Bool, true, false, not, Option, none, some, List, [], ◌∷◌,
  ◌++◌, Bytes, map, keep, if◌then◌else◌, length, is_empty, bytes_eq, contains, set_insert, codes,
}
use scand.Env.{Net, JsonLib}
use scand.Url.Hosts.{Inet}
use scand.Url.Normalize.{without_slashes, normalize_onec_publication_url}
use scand.Catalog.Normalize.{ProductRecord, normalize_onec_product_catalog}
use scand.Catalog.Read.{
  CatalogError, not_configured, refused_url, Answer, got, failed, Connection, PcEvent, connecting,
  connected, pages_started, saving_started, saving_done, read_all_rows, sse_loop,
}

-- A row of inventory1c_products.
pub record ProductRow : Type 0 where
  pub tenant_id : ℕ
  pub product : ProductRecord

-- A row of a table that names a product by its article; the code is null at first.
pub record Link : Type 0 where
  pub tenant_id : ℕ
  pub sku_1c : Bytes
  pub onec_code : Option Bytes

-- inventory1c_stocks, pricing_cost_batch and pricing_cost_supplier; `none` for a table that the
-- database does not have.
pub record Tables : Type 0 where
  pub products : List ProductRow
  pub stocks : Option (List Link)
  pub cost_batch : Option (List Link)
  pub cost_supplier : Option (List Link)

pub data LinkTable : Type 0 where
  stocks : LinkTable
  cost_batch : LinkTable
  cost_supplier : LinkTable

-- A transaction: the tables as it sees them, and whether a statement of it has failed.
pub record Tx : Type 0 where
  pub tables : Tables
  pub aborted : Bool

-- How a statement or several end.
pub data Sql (A : Type 0) : Type 0 where
  done : A → Tx → Sql A
  undefined_table : Tx → Sql A
  refused_value : Tx → Sql A
  in_failed_transaction : Tx → Sql A

abbrev pub and_then : {A B : Type 0} → Sql A → (A → Tx → Sql B) → Sql B
and_then (done a tx) f = f a tx
and_then (undefined_table tx) f = undefined_table tx
and_then (refused_value tx) f = refused_value tx
and_then (in_failed_transaction tx) f = in_failed_transaction tx

abbrev pub table_at : LinkTable → Tables → Option (List Link)
table_at stocks t = t.stocks
table_at cost_batch t = t.cost_batch
table_at cost_supplier t = t.cost_supplier

abbrev pub with_table : LinkTable → List Link → Tables → Tables
with_table stocks links t = record t { stocks = some links }
with_table cost_batch links t = record t { cost_batch = some links }
with_table cost_supplier links t = record t { cost_supplier = some links }

-- DELETE FROM inventory1c_products WHERE tenant_id = $1.
unfoldable pub delete_products : ℕ → Tx → Sql Unit
delete_products tenant_id tx =
    if tx.aborted
    then in_failed_transaction tx
    else done tt record tx {
      tables = record tx.tables {
        products = keep (λ (p : ProductRow). not (p.tenant_id == tenant_id)) tx.tables.products;
      };
    }

abbrev pub row_of : ℕ → ProductRecord → ProductRow
row_of tenant_id rec = record { tenant_id = tenant_id; product = rec }

-- The stream into inventory1c_products. What the database stores of the records is a parameter, with
-- `none` where it refuses one: where a text has more characters than its column in
-- sql/004_inventory_products.sql, 64 for the code, 128 for the article, 512 for the name, or is no text.
unfoldable pub insert_products :
    (List ProductRecord → Option (List ProductRecord)) → ℕ → List ProductRecord → Tx → Sql Unit
insert_products stored tenant_id [] tx = done tt tx
insert_products stored tenant_id (rec ∷ records) tx =
    if tx.aborted then in_failed_transaction tx else elim (stored (rec ∷ records)) [
      | none ↦ refused_value record tx { aborted = true }
      | some kept ↦ done tt record tx {
        tables = record tx.tables { products = tx.tables.products ++ map (row_of tenant_id) kept };
      }
    ]

-- The codes of the tenant's products with that article.
unfoldable pub codes_of_article : ℕ → Bytes → List ProductRow → List Bytes
codes_of_article tenant_id article [] = []
codes_of_article tenant_id article (p ∷ products) =
    let rest = codes_of_article tenant_id article products in
    if (p.tenant_id == tenant_id) && bytes_eq article p.product.article
    then p.product.code ∷ rest
    else rest

-- Whether the update reaches the row.
unfoldable pub is_reached : ℕ → List ProductRow → Link → Bool
is_reached tenant_id products link = elim link.onec_code [
  | some c ↦ false
  | none ↦
      (link.tenant_id == tenant_id)
      && not (is_empty (codes_of_article tenant_id link.sku_1c products))
]

-- The errors in the order in which the settings are found wanting.
pub record OnecConfig : Type 0 where
  pub onec_base_url : Bytes
  pub onec_user : Bytes
  pub onec_password : Bytes
  pub onec_allow_insecure_http : Bool
  pub onec_timeout_ms : ℕ

-- `OneCProductCatalogPullResult`.
pub record PullResult : Type 0 where
  pub accepted : ℕ
  pub migrated : ℕ
  pub conflicts : ℕ
  pub measured_at : Bytes

-- The loop that counts the conflicts.
unfoldable pub count_conflicts : List (List Bytes) → List Bytes → ℕ
count_conflicts [] seen_codes = 0
count_conflicts ([] ∷ rows) seen_codes = count_conflicts rows seen_codes
count_conflicts ((_ ∷ []) ∷ rows) seen_codes = count_conflicts rows seen_codes
count_conflicts ((_ ∷ _ ∷ []) ∷ rows) seen_codes = count_conflicts rows seen_codes
count_conflicts ((_ ∷ _ ∷ _ ∷ []) ∷ rows) seen_codes = count_conflicts rows seen_codes
count_conflicts ((code ∷ _ ∷ _ ∷ _ ∷ _) ∷ rows) seen_codes =
    let rest = count_conflicts rows (set_insert code seen_codes) in
    if contains code seen_codes then suc rest else rest

-- Which of the joined rows an update takes.
module _ (chosen : List Bytes → Bytes) where
  -- The row behind the update.
  unfoldable pub linked : ℕ → List ProductRow → Link → Link
  linked tenant_id products link =
      if is_reached tenant_id products link
      then record link {
        onec_code = some (chosen (codes_of_article tenant_id link.sku_1c products));
      }
      else link

  unfoldable pub migrate : ℕ → LinkTable → Tx → Sql ℕ
  migrate tenant_id table tx =
      if tx.aborted then in_failed_transaction tx else elim (table_at table tx.tables) [
        | none ↦ undefined_table record tx { aborted = true }
        | some links ↦
            done (length (keep (is_reached tenant_id tx.tables.products) links)) record tx {
              tables = with_table table (map (linked tenant_id tx.tables.products) links) tx.tables;
            }
      ]

  -- `catch (const pqxx::undefined_table&) { return 0; }`.
  abbrev pub or_zero : Sql ℕ → Sql ℕ
  or_zero (done n tx) = done n tx
  or_zero (undefined_table tx) = done 0 tx
  or_zero (refused_value tx) = refused_value tx
  or_zero (in_failed_transaction tx) = in_failed_transaction tx

  unfoldable pub safe_migrate : ℕ → LinkTable → Tx → Sql ℕ
  safe_migrate tenant_id table tx = or_zero (migrate tenant_id table tx)

  -- The three migrations, with the sum of their counts.
  unfoldable pub migrate_all : ℕ → Tx → Sql ℕ
  migrate_all tenant_id tx = and_then (safe_migrate tenant_id LinkTable.stocks tx) (λ a tx1.
      and_then (safe_migrate tenant_id LinkTable.cost_batch tx1) (λ b tx2.
        and_then (safe_migrate tenant_id LinkTable.cost_supplier tx2)
          (λ c tx3. done (a + b + c) tx3)))

  module _ (visit : List (Bytes × ProductRecord) → List (Bytes × ProductRecord))
      (stored : List ProductRecord → Option (List ProductRecord)) where
    -- From the rows that were read to the result.
    unfoldable pub save_catalog : ℕ → Bytes → List (List Bytes) → Tx → Sql PullResult
    save_catalog tenant_id measured_at rows tx =
        let records = normalize_onec_product_catalog visit rows measured_at in
        and_then (delete_products tenant_id tx) (λ u tx1.
          and_then (insert_products stored tenant_id records tx1) (λ v tx2.
            and_then (migrate_all tenant_id tx2) (λ migrated tx3.
              done
                record {
                  accepted = length records;
                  migrated = migrated;
                  conflicts = count_conflicts rows [];
                  measured_at = measured_at;
                }
                tx3)))

    -- How a pull ends.
    pub data Pulled : Type 0 where
      saved : Sql PullResult → Pulled
      threw : CatalogError → Tx → Pulled

    module _ {W J O D : Type 0} (inet : Inet) (net : Net W) (lib : JsonLib J O D)
        (cfg : OnecConfig) where
      -- The settings and the address, tested and put together.
      unfoldable pub connection : Answer Connection
      connection =
          if is_empty cfg.onec_base_url || (is_empty cfg.onec_user || is_empty cfg.onec_password)
          then failed not_configured
          else elim (normalize_onec_publication_url inet
              record {
                allow_insecure_http = cfg.onec_allow_insecure_http;
                allow_private_network = false;
              }
              cfg.onec_base_url) [
                | none ↦ failed refused_url
                | some base ↦ got record {
                  root = without_slashes base ++ codes "/odata/standard.odata";
                  username = cfg.onec_user;
                  password = cfg.onec_password;
                  timeout_ms = cfg.onec_timeout_ms;
                }
              ]

      -- The part behind the settings, with the limits on pages and rows.
      unfoldable pub pull_from :
          ℕ → ℕ → ℕ → Bytes → Answer Connection → Tx → W → Option (Pulled × W)
      pull_from page_size max_rows tenant_id measured_at (failed e) tx w = some (threw e tx, w)
      pull_from page_size max_rows tenant_id measured_at (got c) tx w =
          elim (read_all_rows net lib c page_size max_rows w) [
            | none ↦ none
            | some (failed e, w1) ↦ some (threw e tx, w1)
            | some (got rows, w1) ↦ some (saved (save_catalog tenant_id measured_at rows tx), w1)
          ]

      unfoldable pub pull_onec_product_catalog : ℕ → Bytes → Tx → W → Option (Pulled × W)
      pull_onec_product_catalog tenant_id measured_at tx w =
          pull_from 5000 100000 tenant_id measured_at connection tx w

      -- `PullOptions` but the name of its events.
      pub record PullOptions : Type 0 where
        pub tenant_id : ℕ
        pub page_size : ℕ
        pub max_rows : ℕ

      -- The event behind the saving.
      unfoldable pub told_saved : List PcEvent → Sql PullResult → List PcEvent
      told_saved events (done r tx) = events ++ saving_done r.accepted r.migrated r.conflicts ∷ []
      told_saved events (undefined_table tx) = events
      told_saved events (refused_value tx) = events
      told_saved events (in_failed_transaction tx) = events

      unfoldable pub pull_sse_from :
          PullOptions → Bytes → Answer Connection → Tx → W → Option (Pulled × List PcEvent × W)
      pull_sse_from opts measured_at (failed e) tx w =
          some (threw e tx, elim e [ refused_url ↦ connecting cfg.onec_base_url ∷ [] | _ ↦ [] ], w)
      pull_sse_from opts measured_at (got c) tx w =
          elim (sse_loop net lib c opts.page_size opts.max_rows (suc opts.max_rows) 0 0 0 []
            (connecting cfg.onec_base_url
              ∷ connected
              ∷ pages_started opts.page_size opts.max_rows
              ∷ [])
            w) [
              | none ↦ none
              | some (failed e, events, w1) ↦ some (threw e tx, events, w1)
              | some (got (read, rows), events, w1) ↦
                  let result = save_catalog opts.tenant_id measured_at rows tx in
                  some (saved result, told_saved (events ++ saving_started read ∷ []) result, w1)
            ]

      unfoldable pub pull_onec_product_catalog_sse :
          PullOptions → Bytes → Tx → W → Option (Pulled × List PcEvent × W)
      pull_onec_product_catalog_sse opts measured_at tx w =
          pull_sse_from opts measured_at connection tx w
