-- ===== src/Ka2/Rows.antt =====
-- The readers of onec_ka2_inventory.cpp behind the queries: warehouses, analytic keys, stocks, costs
-- and supplier prices from the rows of the answers, and `pull`. How the rows of several chunks come
-- together is `Workers`; here they are what `fetch` gives.
pub mod Laws
use scand.Prelude.{
  ℕ, Bool, true, false, ◌||◌, List, [], ◌∷◌, ◌++◌, map, Bytes, codes, is_empty, if◌then◌else◌,
  contains, keep, not,
}
use scand.Env.{JsonLib, Doubles, Result, ok, err}
use scand.Json.{get_str, get_bool, get_num}

pub record CatalogProduct : Type 0 where
  pub ref_key : Bytes
  pub article : Bytes
  pub description : Bytes
  pub name : Bytes
  pub unit_ref : Bytes
  pub use_packs : Bool
  pub deletion_mark : Bool
  pub is_folder : Bool

pub record Warehouse : Type 0 where
  pub ref_key : Bytes
  pub description : Bytes
  pub deletion_mark : Bool
  pub is_folder : Bool

pub record AnalyticKey : Type 0 where
  pub ref_key : Bytes
  pub nomenclature_key : Bytes
  pub characteristic_key : Bytes

pub record StockBalance (D : Type 0) : Type 0 where
  pub nomenclature_key : Bytes
  pub characteristic_key : Bytes
  pub warehouse_key : Bytes
  pub quantity : D

pub record CostBalance (D : Type 0) : Type 0 where
  pub analytic_key : Bytes
  pub organization_key : Bytes
  pub batch_key : Bytes
  pub quantity : D
  pub cost : D

pub record SupplierPrice (D : Type 0) : Type 0 where
  pub period : Bytes
  pub partner_key : Bytes
  pub nomenclature_key : Bytes
  pub characteristic_key : Bytes
  pub price : D

pub record PullResult (D : Type 0) : Type 0 where
  pub products : List CatalogProduct
  pub warehouses : List Warehouse
  pub analytics : List AnalyticKey
  pub stocks : List (StockBalance D)
  pub costs : List (CostBalance D)
  pub suppliers : List (SupplierPrice D)
  pub warnings : List Bytes

abbrev pub no_analytics : Bytes
no_analytics = codes "Не найдены ключи аналитики учета номенклатуры — себестоимость не загружена."

-- The queries of the readers: `read_warehouses` pages through one catalog, `read_chunked_parallel`
-- reads a catalog or register by keys, `read_balance_chunked` reads a register's balance.
pub record Fetch (W O : Type 0) : Type 0 where
  pub pages : Bytes → Bytes → W → Result (List O) × W
  pub by_keys : Bytes → Bytes → List Bytes → Bytes → W → Result (List O) × W
  pub balance : Bytes → Bytes → Bytes → Bytes → List Bytes → W → List O × W

-- Runs a reader and goes on with its rows, or passes its exception on.
infixl 5 ◌>>=◌
abbrev pub ◌>>=◌ : {W A B : Type 0} → (W → Result A × W) → (A → W → Result B × W) → W → Result B × W
◌>>=◌ m f w = let (r, w1) = m w in elim r [ ok a ↦ f a w1 | err e ↦ (err e, w1) ]

abbrev pub ret : {W A : Type 0} → A → W → Result A × W
ret a w = (ok a, w)

-- The keys of the analytics that are not empty.
unfoldable pub analytic_keys_of : List AnalyticKey → List Bytes
analytic_keys_of [] = []
analytic_keys_of (a ∷ analytics) =
    if is_empty a.ref_key
    then analytic_keys_of analytics
    else a.ref_key ∷ analytic_keys_of analytics

-- `std::max(0.0, d)`.
abbrev pub at_least_zero : {D : Type 0} → Doubles D → D → D
at_least_zero dbl d = if dbl.lt dbl.zero d then d else dbl.zero

module _ {J O D : Type 0} (lib : JsonLib J O D) (dbl : Doubles D) where
  abbrev warehouse_of : O → Warehouse
  warehouse_of o = record {
    ref_key = get_str lib o (codes "Ref_Key");
    description = get_str lib o (codes "Description");
    deletion_mark = get_bool lib o (codes "DeletionMark") false;
    is_folder = get_bool lib o (codes "IsFolder") false;
  }

  unfoldable pub warehouses_of : List O → List Warehouse
  warehouses_of [] = []
  warehouses_of (o ∷ rows) =
      let w = warehouse_of o in
      if w.deletion_mark || w.is_folder
      then warehouses_of rows
      else if is_empty w.ref_key
      then warehouses_of rows
      else w ∷ warehouses_of rows

  abbrev analytic_of : O → AnalyticKey
  analytic_of o = record {
    ref_key = get_str lib o (codes "Ref_Key");
    nomenclature_key = get_str lib o (codes "Номенклатура_Key");
    characteristic_key = [];
  }

  -- `seen` holds the keys of the rows before.
  unfoldable pub analytics_of : List Bytes → List O → List AnalyticKey
  analytics_of seen [] = []
  analytics_of seen (o ∷ rows) =
      let a = analytic_of o in
      let skipped = analytics_of seen rows in
      let taken = a ∷ analytics_of (a.ref_key ∷ seen) rows in
      if is_empty a.ref_key then skipped else if contains a.ref_key seen then skipped else taken

  abbrev stock_of : O → StockBalance D
  stock_of o = record {
    nomenclature_key = get_str lib o (codes "Номенклатура_Key");
    characteristic_key = get_str lib o (codes "Характеристика_Key");
    warehouse_key = get_str lib o (codes "Склад_Key");
    quantity = at_least_zero dbl (
        dbl.sub (get_num lib dbl o (codes "ВНаличииBalance"))
          (get_num lib dbl o (codes "КОтгрузкеBalance")));
  }

  unfoldable pub stocks_of : List O → List (StockBalance D)
  stocks_of [] = []
  stocks_of (o ∷ rows) =
      let s = stock_of o in
      if is_empty s.nomenclature_key then stocks_of rows else s ∷ stocks_of rows

  abbrev cost_of : O → CostBalance D
  cost_of o = record {
    analytic_key = get_str lib o (codes "АналитикаУчетаНоменклатуры_Key");
    organization_key = get_str lib o (codes "Организация_Key");
    batch_key = get_str lib o (codes "Партия_Key");
    quantity = get_num lib dbl o (codes "КоличествоBalance");
    cost = get_num lib dbl o (codes "СтоимостьBalance");
  }

  unfoldable pub costs_of : List O → List (CostBalance D)
  costs_of [] = []
  costs_of (o ∷ rows) =
      let c = cost_of o in if is_empty c.analytic_key then costs_of rows else c ∷ costs_of rows

  abbrev supplier_of : O → SupplierPrice D
  supplier_of o = record {
    period = get_str lib o (codes "Period");
    partner_key = get_str lib o (codes "Партнер_Key");
    nomenclature_key = get_str lib o (codes "Номенклатура_Key");
    characteristic_key = [];
    price = get_num lib dbl o (codes "Цена");
  }

  unfoldable pub suppliers_of : List O → List (SupplierPrice D)
  suppliers_of [] = []
  suppliers_of (o ∷ rows) =
      let s = supplier_of o in
      if is_empty s.nomenclature_key
      then suppliers_of rows
      else if dbl.le s.price dbl.zero
      then suppliers_of rows
      else s ∷ suppliers_of rows

  module _ {W : Type 0} (fetch : Fetch W O) where
    abbrev pub warehouse_rows : W → Result (List O) × W
    warehouse_rows =
        fetch.pages (codes "Catalog_Склады") (codes "Ref_Key,Description,DeletionMark,IsFolder")

    abbrev pub analytic_rows : List Bytes → W → Result (List O) × W
    analytic_rows product_keys =
        fetch.by_keys (codes "Catalog_КлючиАналитикиУчетаНоменклатуры") (codes "Номенклатура_Key")
          product_keys (codes "Ref_Key,Номенклатура_Key")

    abbrev pub supplier_rows : List Bytes → W → Result (List O) × W
    supplier_rows product_keys =
        fetch.by_keys (codes "InformationRegister_ЦеныНоменклатурыПоставщиков_RecordType")
          (codes "Номенклатура_Key") product_keys (codes "Period,Партнер_Key,Номенклатура_Key,Цена")

    unfoldable pub read_warehouses : W → Result (List Warehouse) × W
    read_warehouses = warehouse_rows >>= λ rows. ret (warehouses_of rows)

    unfoldable pub read_analytics : List Bytes → W → Result (List AnalyticKey) × W
    read_analytics product_keys = analytic_rows product_keys >>= λ rows. ret (analytics_of [] rows)

    unfoldable pub read_stocks : Bytes → List Bytes → W → List (StockBalance D) × W
    read_stocks period product_keys w =
        let (rows, w') =
          fetch.balance (codes "AccumulationRegister_ТоварыНаСкладах") period
            (codes "Номенклатура,Характеристика,Склад") (codes "Номенклатура_Key") product_keys w in
        (stocks_of rows, w')

    unfoldable pub read_costs : Bytes → List Bytes → W → List (CostBalance D) × W
    read_costs period analytic_keys w =
        let (rows, w') =
          fetch.balance (codes "AccumulationRegister_СебестоимостьТоваров") period
            (codes "АналитикаУчетаНоменклатуры,Организация,Партия")
            (codes "АналитикаУчетаНоменклатуры_Key") analytic_keys w in
        if is_empty analytic_keys then ([], w) else (costs_of rows, w')

    unfoldable pub read_suppliers : List Bytes → W → Result (List (SupplierPrice D)) × W
    read_suppliers product_keys = supplier_rows product_keys >>= λ rows. ret (suppliers_of rows)

    -- The costs, or a warning that there are none to ask for.
    unfoldable pub costs_or_warning :
        Bytes → List Bytes → W → (List (CostBalance D) × List Bytes) × W
    costs_or_warning period analytic_keys w =
        let (costs, w') = read_costs period analytic_keys w in
        if is_empty analytic_keys then (([], no_analytics ∷ []), w) else ((costs, []), w')

    -- `pull` behind the analytics.
    unfoldable pub after_analytics :
        List Bytes → Bytes → List Warehouse → List AnalyticKey → W → Result (PullResult D) × W
    after_analytics product_keys period warehouses analytics w =
        let ((costs, warnings), w1) = costs_or_warning period (analytic_keys_of analytics) w in
        let (stocks, w2) = read_stocks period product_keys w1 in
        let (suppliers, w3) = read_suppliers product_keys w2 in
        elim suppliers [
          | err e ↦ (err e, w3)
          | ok prices ↦ (
            ok (record {
              products = [];
              warehouses = warehouses;
              analytics = analytics;
              stocks = stocks;
              costs = costs;
              suppliers = prices;
              warnings = warnings;
            }),
            w3,
          )
        ]

    -- `pull` behind the warehouses.
    abbrev pub after_warehouses :
        List Bytes → Bytes → List Warehouse → W → Result (PullResult D) × W
    after_warehouses product_keys period warehouses =
        read_analytics product_keys >>= after_analytics product_keys period warehouses

    unfoldable pub pull : List Bytes → Bytes → W → Result (PullResult D) × W
    pull product_keys period = read_warehouses >>= after_warehouses product_keys period
