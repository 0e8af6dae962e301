-- ===== src/Ka2/Rows/Laws.antt =====
-- What the readers let through, and what `pull` returns.
use scand.Prelude.{
  ◌≡◌, refl, subst, ◌⊎◌, inl, inr, true, false, List, [], ◌∷◌, Bytes, codes, is_empty, contains,
  All, arith, Bool-cases,
}
use scand.Env.{JsonLib, Doubles, Result, ok, err, Exn}
use scand.Json.{get_str}
use scand.Ka2.Rows.{
  Warehouse, AnalyticKey, StockBalance, CostBalance, SupplierPrice, PullResult, no_analytics, Fetch,
  warehouses_of, analytics_of, stocks_of, costs_of, suppliers_of, read_warehouses, read_analytics,
  read_stocks, read_costs, read_suppliers, analytic_keys_of, costs_or_warning, pull, at_least_zero,
  warehouse_rows, analytic_rows, supplier_rows, after_analytics, after_warehouses, ◌>>=◌, ret,
}

abbrev pub IsUsable : Warehouse → Type 0
IsUsable w = (w.deletion_mark ≡ false) × (w.is_folder ≡ false) × (is_empty w.ref_key ≡ false)

-- The keys are not empty, differ from one another and from those seen.
abbrev pub Distinct : List Bytes → List AnalyticKey → Type 0
Distinct seen [] = Unit
Distinct seen (a ∷ analytics) =
    (is_empty a.ref_key ≡ false)
    × (contains a.ref_key seen ≡ false)
    × Distinct (a.ref_key ∷ seen) analytics

Result-cases : {A : Type 0} (r : Result A) → ((a : A) × (r ≡ ok a)) ⊎ ((x : Exn) × (r ≡ err x))
Result-cases (ok a) = inl (a, refl)
Result-cases (err x) = inr (x, refl)

-- What went before a result.
bind_ok :
    {W A B : Type 0} (m : W → Result A × W) (f : A → W → Result B × W) (w : W) {b : B} {w' : W}
    → (m >>= f) w ≡ (ok b, w')
    → (a : A) × ((m w).0 ≡ ok a) × (f a (m w).1 ≡ (ok b, w'))
bind_ok m f w e = elim (Result-cases (m w).0) [
  | inl (a, h) ↦ (a, h, ground arith)
  | inr (x, h) ↦ absurd (ground arith)
]

-- A property of all that the rows are turned into holds of the result.
mapped :
    {W A B : Type 0} (P : B → Type 0) (m : W → Result A × W) (g : A → B) (w : W) (b : B)
    → ((a : A) → P (g a))
    → ((m >>= λ a. ret (g a)) w).0 ≡ ok b
    → P b
mapped P m g w b all e = elim (Result-cases (m w).0) [
  | inl (a, h) ↦ let same : g a ≡ b = ground arith in subst P same (all a)
  | inr (x, h) ↦ absurd (ground arith)
]

module _ {J O D : Type 0} (lib : JsonLib J O D) (dbl : Doubles D) where
  warehouses_of-IsUsable : (rows : List O) → All IsUsable (warehouses_of lib dbl rows)
  unfolding warehouses_of
  warehouses_of-IsUsable [] = tt
  warehouses_of-IsUsable (o ∷ rows) = ground (arith, warehouses_of-IsUsable rows)

  analytics_of-Distinct :
      (seen : List Bytes) (rows : List O) → Distinct seen (analytics_of lib dbl seen rows)
  unfolding analytics_of
  analytics_of-Distinct seen [] = tt
  analytics_of-Distinct seen (o ∷ rows) = ground (
    arith,
    analytics_of-Distinct seen rows,
    analytics_of-Distinct (get_str lib o (codes "Ref_Key") ∷ seen) rows,
  )

  -- No stock is below zero, if zero is not below itself and nothing lies on both sides of it.
  abbrev pub ZeroIsLeast : Type 0
  ZeroIsLeast =
      (dbl.lt dbl.zero dbl.zero ≡ false)
      × ((d : D) → dbl.lt dbl.zero d ≡ true → dbl.lt d dbl.zero ≡ false)

  abbrev pub IsStock : StockBalance D → Type 0
  IsStock s = (is_empty s.nomenclature_key ≡ false) × (dbl.lt s.quantity dbl.zero ≡ false)

  at_least_zero_lem : ZeroIsLeast → (d : D) → dbl.lt (at_least_zero dbl d) dbl.zero ≡ false
  at_least_zero_lem z d = ground (arith, z.1 d)

  stocks_of-IsStock : ZeroIsLeast → (rows : List O) → All IsStock (stocks_of lib dbl rows)
  unfolding stocks_of
  stocks_of-IsStock z [] = tt
  stocks_of-IsStock z (o ∷ rows) =
      elim (Bool-cases (is_empty (get_str lib o (codes "Номенклатура_Key")))) [
        | inl nameless ↦ rw nameless (stocks_of-IsStock z rows)
        | inr named ↦ rw named ((named, at_least_zero_lem z _), stocks_of-IsStock z rows)
      ]

  abbrev pub IsCost : CostBalance D → Type 0
  IsCost c = is_empty c.analytic_key ≡ false

  costs_of-IsCost : (rows : List O) → All IsCost (costs_of lib dbl rows)
  unfolding costs_of
  costs_of-IsCost [] = tt
  costs_of-IsCost (o ∷ rows) = ground (arith, costs_of-IsCost rows)

  abbrev pub IsPrice : SupplierPrice D → Type 0
  IsPrice p = (is_empty p.nomenclature_key ≡ false) × (dbl.le p.price dbl.zero ≡ false)

  suppliers_of-IsPrice : (rows : List O) → All IsPrice (suppliers_of lib dbl rows)
  unfolding suppliers_of
  suppliers_of-IsPrice [] = tt
  suppliers_of-IsPrice (o ∷ rows) = ground (arith, suppliers_of-IsPrice rows)

  -- What `pull` promises of a result.
  pub record IsClean (r : PullResult D) : Type 0 where
    pub warehouses_usable : All IsUsable r.warehouses
    pub analytics_distinct : Distinct [] r.analytics
    pub stocks_named : All IsStock r.stocks
    pub costs_named : All IsCost r.costs
    pub prices_positive : All IsPrice r.suppliers
    pub warned : is_empty r.analytics ≡ true → (r.costs ≡ []) × (r.warnings ≡ no_analytics ∷ [])
    pub not_warned : is_empty r.analytics ≡ false → r.warnings ≡ []

  module _ {W : Type 0} (fetch : Fetch W O) where
    costs_or_warning_lem :
        (period : Bytes) (analytics : List AnalyticKey) (w : W)
        → Distinct [] analytics
        → let r = (costs_or_warning lib dbl fetch period (analytic_keys_of analytics) w).0 in
          All IsCost r.0
          × (is_empty analytics ≡ true → (r.0 ≡ []) × (r.1 ≡ no_analytics ∷ []))
          × (is_empty analytics ≡ false → r.1 ≡ [])
    unfolding costs_or_warning analytic_keys_of read_costs
    costs_or_warning_lem period [] w h = (tt, λ e. (refl, refl), λ e. cc)
    costs_or_warning_lem period (a ∷ analytics) w (h, _, _) =
        rw h (costs_of-IsCost _, (λ e. cc), λ e. refl)

    read_warehouses-IsUsable :
        (w : W) (ws : List Warehouse)
        → (read_warehouses lib dbl fetch w).0 ≡ ok ws
        → All IsUsable ws
    unfolding read_warehouses
    read_warehouses-IsUsable w ws =
        mapped (All IsUsable) (warehouse_rows lib dbl fetch) (warehouses_of lib dbl) w ws
          (warehouses_of-IsUsable)

    read_analytics-Distinct :
        (product_keys : List Bytes) (w : W) (analytics : List AnalyticKey)
        → (read_analytics lib dbl fetch product_keys w).0 ≡ ok analytics
        → Distinct [] analytics
    unfolding read_analytics
    read_analytics-Distinct product_keys w analytics =
        mapped (Distinct []) (analytic_rows lib dbl fetch product_keys) (analytics_of lib dbl []) w
          analytics (analytics_of-Distinct [])

    read_suppliers-IsPrice :
        (product_keys : List Bytes) (w : W) (prices : List (SupplierPrice D))
        → (read_suppliers lib dbl fetch product_keys w).0 ≡ ok prices
        → All IsPrice prices
    unfolding read_suppliers
    read_suppliers-IsPrice product_keys w prices =
        mapped (All IsPrice) (supplier_rows lib dbl fetch product_keys) (suppliers_of lib dbl) w
          prices (suppliers_of-IsPrice)

    read_stocks-IsStock :
        (period : Bytes) (product_keys : List Bytes) (w : W)
        → ZeroIsLeast
        → All IsStock (read_stocks lib dbl fetch period product_keys w).0
    unfolding read_stocks
    read_stocks-IsStock period product_keys w z = stocks_of-IsStock z _

    -- Whatever the queries answer, a result of `pull` has only usable warehouses, analytic keys that are
    -- not empty and all different, stocks and costs with a key, no stock below zero, and no price at or
    -- below zero; it has a warning exactly if there are no analytic keys, and then no costs.
    pub pull-IsClean :
        (product_keys : List Bytes) (period : Bytes) (w w' : W) (r : PullResult D)
        → ZeroIsLeast
        → pull lib dbl fetch product_keys period w ≡ (ok r, w')
        → IsClean r
    unfolding pull after_analytics
    pull-IsClean product_keys period w w' r z e =
        let (warehouses, got_warehouses, e1) =
          bind_ok (read_warehouses lib dbl fetch)
            (after_warehouses lib dbl fetch product_keys period) w e in
        let w1 = (read_warehouses lib dbl fetch w).1 in
        let (analytics, got_analytics, e2) =
          bind_ok (read_analytics lib dbl fetch product_keys)
            (after_analytics lib dbl fetch product_keys period warehouses) w1 e1 in
        let w2 = (read_analytics lib dbl fetch product_keys w1).1 in
        let distinct = read_analytics-Distinct product_keys w1 analytics got_analytics in
        let (c, warned, not_warned) = costs_or_warning_lem period analytics w2 distinct in
        let w3 = (costs_or_warning lib dbl fetch period (analytic_keys_of analytics) w2).1 in
        let w4 = (read_stocks lib dbl fetch period product_keys w3).1 in
        elim (Result-cases (read_suppliers lib dbl fetch product_keys w4).0) [
          | inr (x, h) ↦ absurd (ground arith)
          | inl (prices, h) ↦
              let same : r ≡ record {
                products = [];
                warehouses = warehouses;
                analytics = analytics;
                stocks = (read_stocks lib dbl fetch period product_keys w3).0;
                costs = (costs_or_warning lib dbl fetch period (analytic_keys_of analytics) w2).0.0;
                suppliers = prices;
                warnings =
                    (costs_or_warning lib dbl fetch period (analytic_keys_of analytics) w2).0.1;
              } =
                ground arith in
              rw same (record {
                warehouses_usable = read_warehouses-IsUsable w warehouses got_warehouses;
                analytics_distinct = distinct;
                stocks_named = read_stocks-IsStock period product_keys w3 z;
                costs_named = c;
                prices_positive = read_suppliers-IsPrice product_keys w4 prices h;
                warned = warned;
                not_warned = not_warned;
              })
        ]
