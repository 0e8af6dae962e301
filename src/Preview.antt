-- ===== src/Preview.antt =====
-- `build_preview` of inventory_preview.cpp with the data of its header. `std::sort`, which may put equal
-- SKUs in any order, is a parameter.
pub mod Accounts
mod Tests
use scand.Prelude.{
  ℕ, suc, ◌==◌, ◌&&◌, Bool, true, false, not, Option, none, some, List, [], ◌∷◌, ◌++◌, Bytes, map,
  keep, take, length, is_empty, if◌then◌else◌, contains, set_insert, ltb, codes,
}
use scand.Env.{Doubles}

pub record StockInput : Type 0 where
  pub sku_1c : Bytes
  pub offer_id : Option Bytes
  pub warehouse_id : Bytes
  pub warehouse_name : Option Bytes
  pub available : ℕ
  pub reserved : ℕ

pub record WarehouseInput : Type 0 where
  pub warehouse_id : Bytes
  pub warehouse_name : Bytes

pub record CostInput (D : Type 0) : Type 0 where
  pub sku_1c : Bytes
  pub batch_avg_cost : Option D
  pub purchase_cost : Option D
  pub purchase_source : Option Bytes
  pub purchase_source_at : Option Bytes
  pub dealer_cost : Option D

pub record SnapshotRequest (D : Type 0) : Type 0 where
  pub batch_id : Bytes
  pub measured_at : Bytes
  pub mode : Bytes
  pub stocks : List StockInput
  pub warehouses : List WarehouseInput
  pub costs : List (CostInput D)

pub record CostPreview (D : Type 0) : Type 0 where
  pub sku_1c : Bytes
  pub selected_cost : D
  pub cost_source : Bytes

-- The warnings by what they say.
pub data Warning : Type 0 where
  extra : Bytes → Warning
  empty_snapshot : Warning
  no_offer_id : ℕ → Warning
  stocks_without_cost : ℕ → Warning
  costs_without_stock : ℕ → Warning
  not_selected : Bytes → Warning
  preview_limited : ℕ → Warning

pub record SnapshotPreview (D : Type 0) : Type 0 where
  pub status : Bytes
  pub batch_id : Bytes
  pub stock_rows : ℕ
  pub cost_rows : ℕ
  pub sku_count : ℕ
  pub warehouse_count : ℕ
  pub cost_preview : List (CostPreview D)
  pub warnings : List Warning

-- `insert` of each element.
abbrev pub insert_all : List Bytes → List Bytes → List Bytes
insert_all [] set = set
insert_all (k ∷ keys) set = insert_all keys (set_insert k set)

-- `std::set_difference`.
abbrev pub difference : List Bytes → List Bytes → List Bytes
difference a b = keep (λ k. not (contains k b)) a

-- The SKUs without an offer.
unfoldable pub missing_offer_skus : List StockInput → List Bytes → List Bytes
missing_offer_skus [] set = set
missing_offer_skus (s ∷ stocks) set = elim s.offer_id [
  | none ↦ missing_offer_skus stocks (set_insert s.sku_1c set)
  | some offer ↦
      if is_empty offer
      then missing_offer_skus stocks (set_insert s.sku_1c set)
      else missing_offer_skus stocks set
]

-- A warning with a count, unless that is zero.
abbrev pub if_any : (ℕ → Warning) → List Bytes → List Warning
if_any w keys = if is_empty keys then [] else w (length keys) ∷ []

unfoldable pub limit_of : ℕ → ℕ
limit_of preview_limit = if preview_limit == 0 then 100 else preview_limit

module _ {D : Type 0} (dbl : Doubles D) where
  -- `x && *x > 0`.
  unfoldable pub is_positive : Option D → Bool
  is_positive none = false
  is_positive (some x) = dbl.lt dbl.zero x

  abbrev pub value_or_zero : Option D → D
  value_or_zero none = dbl.zero
  value_or_zero (some x) = x

  -- The value with its source.
  unfoldable pub select_unit_cost : CostInput D → Option (D × Bytes)
  select_unit_cost row =
      if is_positive row.batch_avg_cost
      then some (value_or_zero row.batch_avg_cost, codes "batch")
      else if is_positive row.purchase_cost
      then some (value_or_zero row.purchase_cost, codes "purchase")
      else if is_positive row.dealer_cost
      then some (value_or_zero row.dealer_cost, codes "dealer")
      else none

  -- The loop over the sorted costs: what it adds to the preview and to the warnings.
  unfoldable pub preview_costs :
      List (CostInput D) → List (CostPreview D) × List Warning → List (CostPreview D) × List Warning
  preview_costs [] (previews, warnings) = (previews, warnings)
  preview_costs (c ∷ sorted) (previews, warnings) = elim (select_unit_cost c) [
    | none ↦ preview_costs sorted (previews, warnings ++ not_selected c.sku_1c ∷ [])
    | some (value, source) ↦ preview_costs sorted (
      previews ++ record { sku_1c = c.sku_1c; selected_cost = value; cost_source = source } ∷ [],
      warnings,
    )
  ]

  module _ (sort : List (CostInput D) → List (CostInput D)) where
    -- The warnings in front of the preview.
    unfoldable pub checks : SnapshotRequest D → List Warning
    checks request =
        let stock_skus = insert_all (map (λ (s : StockInput). s.sku_1c) request.stocks) [] in
        let cost_skus = insert_all (map (λ (c : CostInput D). c.sku_1c) request.costs) [] in
        (if is_empty request.stocks && is_empty request.costs then empty_snapshot ∷ [] else [])
        ++ (if_any no_offer_id (missing_offer_skus request.stocks [])
            ++ (if_any stocks_without_cost (difference stock_skus cost_skus)
                ++ if_any costs_without_stock (difference cost_skus stock_skus)))

    unfoldable pub build_preview : SnapshotRequest D → ℕ → List Bytes → SnapshotPreview D
    build_preview request preview_limit extra_warnings =
        let stock_skus = insert_all (map (λ (s : StockInput). s.sku_1c) request.stocks) [] in
        let cost_skus = insert_all (map (λ (c : CostInput D). c.sku_1c) request.costs) [] in
        let stock_warehouses =
          insert_all (map (λ (s : StockInput). s.warehouse_id) request.stocks) [] in
        let warehouses =
          insert_all (map (λ (w : WarehouseInput). w.warehouse_id) request.warehouses)
            stock_warehouses in
        let limit = limit_of preview_limit in
        let shown =
          preview_costs (take limit (sort request.costs))
            ([], map extra extra_warnings ++ checks request) in
        record {
          status = codes "valid";
          batch_id = request.batch_id;
          stock_rows = length request.stocks;
          cost_rows = length request.costs;
          sku_count = length (insert_all cost_skus stock_skus);
          warehouse_count = length warehouses;
          cost_preview = shown.0;
          warnings =
              if ltb limit (length request.costs)
              then shown.1 ++ preview_limited limit ∷ []
              else shown.1;
        }
