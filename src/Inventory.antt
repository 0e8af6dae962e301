-- ===== src/Inventory.antt =====
-- The readers of stocks and prices over OData, of onec_inventory.cpp: pages of 500 records, and for
-- each SKU the best of its prices. The order in which a hash map is visited is a parameter, and the
-- pauses and log lines are left out.
pub mod Choice
pub mod Pages
mod Tests
use scand.Prelude.{
  ℕ, zero, suc, ◌+◌, ◌==◌, ◌&&◌, ◌||◌, Bool, true, false, not, Option, none, some, List, [], ◌∷◌,
  ◌++◌, Bytes, codes, map, if◌then◌else◌, is_empty, length, ltb, to_string, bytes_lt, ◌-◌, lookup,
  insert, min,
}
use scand.Env.{
  HttpResponse, Request, Net, JsonLib, Doubles, Exn, http_error, invalid_json, Result, ok, err,
}
use scand.Json.{get_str, get_num, get_bool, extract_value, objects, ◌>>=◌}

-- The fields of `OnecInventory` that its readers use.
pub record OnecInventory : Type 0 where
  pub root : Bytes
  pub username : Bytes
  pub password : Bytes
  pub timeout_ms : ℕ

pub record StockRow (D : Type 0) : Type 0 where
  pub sku_1c : Bytes
  pub warehouse_id : Bytes
  pub quantity : D

pub record PriceRow (D : Type 0) : Type 0 where
  pub sku_1c : Bytes
  pub price : D
  pub period : Bytes

-- The price that is kept for a SKU.
pub record Best (D : Type 0) : Type 0 where
  pub price : D
  pub period : Bytes

unfoldable pub page_url : OnecInventory → Bytes → Bytes → ℕ → ℕ → Bytes
page_url reader entity_path extra_query skip top =
    reader.root
    ++ (codes "/"
        ++ (entity_path
            ++ (codes "?$format=json&$top="
                ++ (to_string (min top 500)
                    ++ (codes "&$skip="
                        ++ (to_string skip
                            ++ (if is_empty extra_query then [] else codes "&" ++ extra_query)))))))

abbrev pub page_request : OnecInventory → Bytes → Bytes → ℕ → ℕ → Request
page_request reader entity_path extra_query skip top = record {
  url = page_url reader entity_path extra_query skip top;
  params = [];
  auth = (reader.username, reader.password);
  timeout = reader.timeout_ms;
}

-- The text of a page, or the exception.
unfoldable pub text_of : HttpResponse → Result Bytes
text_of r = if r.status_code == 200 then ok r.text else err (http_error r.status_code)

module _ {J O D : Type 0} (lib : JsonLib J O D) where
  -- The items of a page: `none` for no list.
  unfoldable pub items_of : Result Bytes → Result (Option (List J))
  items_of (err e) = err e
  items_of (ok body) = elim (lib.parse body) [
    | none ↦ err invalid_json
    | some data_ ↦ ok (extract_value lib data_)
  ]

  unfoldable pub extract_recordset : O → Option (List J)
  extract_recordset o = lib.find o (codes "RecordSet") >>= lib.as_array

  -- The records of the record sets of a page, in order.
  unfoldable pub records_of : List O → List O
  records_of [] = []
  records_of (outer ∷ items) = elim (extract_recordset outer) [
    | none ↦ records_of items
    | some rs ↦ objects lib rs ++ records_of items
  ]

module _ {W J O D : Type 0} (net : Net W) (lib : JsonLib J O D) (reader : OnecInventory) where
  -- The loop over the pages that the four readers have alike, from an offset on; `add` is what the loop
  -- over the items does. A bound on the offset is given but for the map of the analytics.
  module _ {A : Type 0} (entity_path : Bytes) (max_rows : Option ℕ) (page : ℕ)
      (add : List O → A → A) where
    unfoldable pub below : ℕ → Bool
    below skip = elim max_rows [ none ↦ true | some m ↦ ltb skip m ]

    unfoldable pub page_turn :
        (ℕ → A → W → Option (Result A × W))
        → ℕ
        → A
        → Result (Option (List J))
        → W
        → Option (Result A × W)
    page_turn rest skip out (err e) w = some (err e, w)
    page_turn rest skip out (ok none) w = some (ok out, w)
    page_turn rest skip out (ok (some items)) w =
        if is_empty items
        then some (ok out, w)
        else if ltb (length items) page
        then some (ok (add (objects lib items) out), w)
        else rest (skip + length items) (add (objects lib items) out) w

    unfoldable pub pages_loop : ℕ → ℕ → A → W → Option (Result A × W)
    pages_loop zero skip out w = none
    pages_loop (suc fuel) skip out w =
        let (stop, w1) = net.stopped w in
        let (r, w2) = net.get (page_request reader entity_path [] skip page) w1 in
        if below skip
        then (if stop
            then some (ok out, w1)
            else page_turn (pages_loop fuel) skip out (items_of lib (text_of r)) w2)
        else some (ok out, w)

module _ {O J D : Type 0} (lib : JsonLib J O D) (dbl : Doubles D) where
  -- The row of an item of the stocks, if the loop does not skip it.
  unfoldable pub stock_of : O → Option (StockRow D)
  stock_of o =
      let sku = get_str lib o (codes "Номенклатура_Key") in
      let quantity = get_num lib dbl o (codes "ВНаличииBalance") in
      if is_empty sku
      then none
      else if dbl.le quantity dbl.zero
      then none
      else some record {
        sku_1c = sku;
        warehouse_id = get_str lib o (codes "Склад_Key");
        quantity = quantity;
      }

  unfoldable pub add_stocks : List O → List (StockRow D) → List (StockRow D)
  add_stocks [] out = out
  add_stocks (o ∷ items) out = elim (stock_of o) [
    | none ↦ add_stocks items out
    | some row ↦ add_stocks items (out ++ row ∷ [])
  ]

  unfoldable pub add_analytics : List O → List (Bytes × Bytes) → List (Bytes × Bytes)
  add_analytics [] map_ = map_
  add_analytics (o ∷ items) map_ =
      let ref = get_str lib o (codes "Ref_Key") in
      let nom = get_str lib o (codes "Номенклатура_Key") in
      if not (is_empty ref) && not (is_empty nom)
      then add_analytics items (insert ref nom map_)
      else add_analytics items map_

  -- The SKU and the price of a record, if the loop does not skip it.
  unfoldable pub candidate_of : O → Option (Bytes × Best D)
  candidate_of o =
      let sku = get_str lib o (codes "Номенклатура_Key") in
      let price = get_num lib dbl o (codes "Цена") in
      if not (get_bool lib o (codes "Active") true)
      then none
      else if is_empty sku
      then none
      else if dbl.le price dbl.zero
      then none
      else some (sku, record { price = price; period = get_str lib o (codes "Period") })

-- The test of `read_prices`.
unfoldable pub is_later : {D : Type 0} → Best D → Best D → Bool
is_later new old = bytes_lt old.period new.period

-- The test of `read_supplier_prices`.
unfoldable pub is_cheaper : {D : Type 0} → Doubles D → Best D → Best D → Bool
is_cheaper dbl new old =
    dbl.lt new.price old.price || (dbl.eq new.price old.price && bytes_lt old.period new.period)

-- `if (it == best.end() || better) best[sku] = ...`.
unfoldable pub keep_better :
    {D : Type 0}
    → (Best D → Best D → Bool)
    → Bytes
    → Best D
    → List (Bytes × Best D)
    → List (Bytes × Best D)
keep_better better sku new best = elim (lookup sku best) [
  | none ↦ insert sku new best
  | some old ↦ if better new old then insert sku new best else best
]

-- The loop over the records.
unfoldable pub add_prices :
    {O D : Type 0}
    → (O → Option (Bytes × Best D))
    → (Best D → Best D → Bool)
    → List O
    → List (Bytes × Best D)
    → List (Bytes × Best D)
add_prices candidate better [] best = best
add_prices candidate better (o ∷ records) best = elim (candidate o) [
  | none ↦ add_prices candidate better records best
  | some (sku, new) ↦ add_prices candidate better records (keep_better better sku new best)
]

abbrev pub price_row : {D : Type 0} → Bytes × Best D → PriceRow D
price_row (sku, b) = record { sku_1c = sku; price = b.price; period = b.period }

module _ {W J O D : Type 0} (net : Net W) (lib : JsonLib J O D) (dbl : Doubles D)
    (reader : OnecInventory) where
  unfoldable pub read_stocks : ℕ → W → Option (Result (List (StockRow D)) × W)
  read_stocks max_rows w =
      pages_loop net lib reader (codes "AccumulationRegister_ТоварыНаСкладах/Balance")
        (some max_rows) 500 (add_stocks lib dbl) (suc max_rows) 0 [] w

  -- `load_analit_map` with its cache: the map and the time of its reading; ten minutes are given in
  -- seconds. The result comes with the cache behind it.
  unfoldable pub load_analit_map :
      ℕ → ℕ → List (Bytes × Bytes) × ℕ → W → Option (Result (List (Bytes × Bytes) × ℕ) × W)
  load_analit_map fuel now (cache, cached_at) w =
      if not (is_empty cache) && ltb (now - cached_at) 600
      then some (ok (cache, cached_at), w)
      else elim (pages_loop net lib reader (codes "Catalog_АналитикаУчетаНоменклатуры") none 500
          (add_analytics lib dbl) fuel 0 [] w) [
            | none ↦ none
            | some (err e, w1) ↦ some (err e, w1)
            | some (ok read, w1) ↦ some (ok (read, now), w1)
          ]

  -- The costs are not read any more.
  unfoldable pub read_costs : ℕ → W → Option (Result (List (StockRow D)) × W)
  read_costs max_rows w = some (ok [], w)

  module _ (visit : List (Bytes × Best D) → List (Bytes × Best D)) where
    abbrev pub price_rows :
        Option (Result (List (Bytes × Best D)) × W) → Option (Result (List (PriceRow D)) × W)
    price_rows none = none
    price_rows (some (err e, w)) = some (err e, w)
    price_rows (some (ok best, w)) = some (ok (map price_row (visit best)), w)

    -- The loop over a page of records with their record sets.
    abbrev pub add_page :
        (Best D → Best D → Bool) → List O → List (Bytes × Best D) → List (Bytes × Best D)
    add_page better items best =
        add_prices (candidate_of lib dbl) better (records_of lib items) best

    unfoldable pub read_prices : ℕ → W → Option (Result (List (PriceRow D)) × W)
    read_prices max_rows w = price_rows (
        pages_loop net lib reader (codes "InformationRegister_ЦеныНоменклатуры") (some max_rows) 500
          (add_page is_later) (suc max_rows) 0 [] w)

    unfoldable pub read_supplier_prices : ℕ → W → Option (Result (List (PriceRow D)) × W)
    read_supplier_prices max_rows w = price_rows (
        pages_loop net lib reader (codes "InformationRegister_ЦеныНоменклатурыПоставщиков")
          (some max_rows) 500 (add_page (is_cheaper dbl)) (suc max_rows) 0 [] w)
