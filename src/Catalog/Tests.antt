-- ===== src/Catalog/Tests.antt =====
-- Concrete runs of the catalogue of 1C.
use scand.Catalog.Normalize.{
  add_record, has_one_ref, is_valid_uuid, insert_by_code, index_rows, sort_by_code,
}
use scand.Prelude.{to_string, insert, set_insert, bytes_lt, lookup}
use mathlib.Core.List.{Perm, reverse, reverse_perm}
use mathlib.Core.List.Perm
use scand.Prelude.{
  ℕ, zero, suc, ◌+◌, ◌≡◌, refl, Bool, not, Option, leb, ◌&&◌, all, false, none, some, List, [], ◌∷◌,
  map, Bytes, codes, arith, ltb, if◌then◌else◌, length, contains, bytes_eq,
}
use scand.Env.{Net, JsonLib}
use scand.Catalog.Normalize.{ProductRecord, record_of, normalize_onec_product_catalog}
use scand.Catalog.Normalize.Sorting.{Ascending}
use scand.Catalog.Normalize.Refines.{
  catalogue, normalize_refines_catalogue, normalize_deterministic,
}
use scand.Catalog.Read.{
  Connection, got, failed, CatalogError, catalog_request, page_of, page_rows, read_loop,
  read_all_rows, sse_loop,
}
use scand.Catalog.Read.Bounds.{ServesTable, read_all_rows_bounds}
use scand.Catalog.Read.Agrees.{plain_view, sse_view, sse_loop_agrees}
use scand.Catalog.Pull.{Tables, count_conflicts}
use scand.Catalog.Pull.Columns.{char_count, has_clash}

abbrev ref_a : Bytes
ref_a = codes "0123abcd-0000-ffff-0000-0123456789ab"

abbrev ref_b : Bytes
ref_b = codes "0123abcd-0000-ffff-0000-0123456789cd"

abbrev row : Bytes → Bytes → List Bytes
row code ref = code ∷ codes "art" ∷ codes "name" ∷ ref ∷ []

-- The first product changes its code, and a row has no reference.
abbrev rows : List (List Bytes)
rows =
    row (codes "9") ref_a ∷ row (codes "5") ref_b ∷ row (codes "7") [] ∷ row (codes "3") ref_a ∷ []

abbrev product : Bytes → Bytes → ProductRecord
product code ref = record {
  code = code;
  article = codes "art";
  name = codes "name";
  ref_key = ref;
  measured_at = codes "now";
}

normalize_runs :
    normalize_onec_product_catalog (λ m. m) rows (codes "now")
    ≡ product (codes "3") ref_a ∷ product (codes "5") ref_b ∷ []
unfolding normalize_onec_product_catalog sort_by_code index_rows record_of is_valid_uuid add_record
    insert bytes_eq has_one_ref lookup set_insert contains insert_by_code bytes_lt
normalize_runs = refl

normalize_refines_catalogue_example :
    Perm (catalogue (codes "now") rows) (normalize_onec_product_catalog reverse rows (codes "now"))
    × Ascending (normalize_onec_product_catalog reverse rows (codes "now"))
normalize_refines_catalogue_example =
    normalize_refines_catalogue reverse (λ m. Perm.symm (reverse_perm m)) rows (codes "now")

normalize_deterministic_example :
    normalize_onec_product_catalog (λ m. m) rows (codes "now")
    ≡ normalize_onec_product_catalog reverse rows (codes "now")
normalize_deterministic_example =
    normalize_deterministic (λ m. m) reverse (λ m. Perm.refl m) (λ m. Perm.symm (reverse_perm m))
      rows (codes "now")

conflicts_run : count_conflicts (row (codes "5") ref_a ∷ row (codes "5") ref_a ∷ []) [] ≡ 1
unfolding count_conflicts contains set_insert bytes_eq
conflicts_run = refl

abbrev connection : Connection
connection = record {
  root = codes "r";
  username = codes "u";
  password = codes "p";
  timeout_ms = 5000;
}

-- A text is an object and an array of its bytes.
abbrev texts : JsonLib Bytes Bytes ℕ
texts = record {
  parse = λ t. some t;
  as_object = λ t. some t;
  as_array = λ t. some (map (λ b. b ∷ []) t);
  as_string = λ t. some t;
  as_bool = λ t. none;
  as_number = λ t. some (length t);
  find = λ o key. some o;
}

-- Three items in pages of two.
abbrev server : Net ℕ
server = record {
  get = λ q n. (
    record {
      status_code = 200;
      text =
          if bytes_eq q.url (catalog_request connection 2 0).url
          then 1 ∷ 2 ∷ []
          else if bytes_eq q.url (catalog_request connection 2 1).url
          then 2 ∷ 3 ∷ []
          else if bytes_eq q.url (catalog_request connection 2 2).url
          then 3 ∷ []
          else [];
    },
    n + 1,
  );
  stopped = λ n. (false, n);
}

abbrev table : List Bytes
table = (1 ∷ []) ∷ (2 ∷ []) ∷ (3 ∷ []) ∷ []

server-ServesTable : ServesTable server texts connection 2 table
unfolding page_of catalog_request bytes_eq to_string
server-ServesTable zero h w = refl
server-ServesTable (suc zero) h w = refl
server-ServesTable (suc (suc zero)) h w = refl
server-ServesTable (suc (suc (suc zero))) h w = refl
server-ServesTable (suc (suc (suc (suc n)))) h w = absurd (omega arith)

read_all_rows_bounds_example :
    (w : ℕ) × (read_all_rows server texts connection 2 4 0
      ≡ some (
        if ltb (length table) 4
            then got (page_rows texts table)
            else failed CatalogError.too_many_rows,
        w,
      ))
read_all_rows_bounds_example =
    read_all_rows_bounds server texts connection 2 4 table 2 0 server-ServesTable (omega arith)
      (omega arith)

sse_loop_agrees_example :
    sse_view server texts connection 2 4 (sse_loop server texts connection 2 4 3 0 0 0 [] [] 0)
    ≡ plain_view server texts connection 2 4 (read_loop server texts connection 2 4 3 0 [] 0)
sse_loop_agrees_example = sse_loop_agrees server texts connection 2 4 3 0 0 0 [] [] 0

abbrev first : List Bytes → Bytes
first [] = []
first (c ∷ cs) = c

abbrev tables : Tables
tables = record {
  products = [];
  stocks = some (record { tenant_id = 1; sku_1c = codes "art"; onec_code = none } ∷ []);
  cost_batch = some [];
  cost_supplier = some [];
}

-- The lengths of the columns.
abbrev fits : ProductRecord → Bool
fits r =
    leb (char_count r.code) 64
    && leb (char_count r.article) 128
    && leb (char_count r.name) 512
    && leb (char_count r.ref_key) 36

abbrev stored : List ProductRecord → Option (List ProductRecord)
stored rs = if all fits rs && not (has_clash rs) then some rs else none
