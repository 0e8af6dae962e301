-- ===== src/Inventory/Pages.antt =====
-- What the readers of pages read of a table.
use scand.Prelude.{
  ℕ, zero, suc, ◌+◌, ◌-◌, ◌≤◌, ◌<◌, min, ◌≡◌, ◌⊎◌, inl, inr, refl, ap, sym, ◌∙◌, Bool, true, false,
  Option, none, some, All, bytes_lt, List, [], ◌∷◌, ◌++◌, append_assoc, arith, Bytes, codes, map,
  ltb, lt→ltb, length, take, drop, take-append-drop, take_all, Option-cases, drop-drop, length-take,
  length-drop, lookup,
}
use scand.Env.{Net, JsonLib, Doubles, Result, ok}
use scand.Json.{objects}
use scand.Ka2.Paging.Complete.{objects-append}
use scand.Inventory.{
  OnecInventory, PriceRow, Best, extract_recordset, keep_better, page_request, text_of, items_of,
  records_of, below, page_turn, pages_loop, candidate_of, is_later, is_cheaper, add_prices,
  price_row, price_rows, add_page, read_prices, read_supplier_prices,
}
use scand.Inventory.Choice.{
  Strict, DoubleLaws, is_later-Strict, is_cheaper-Strict, prices_of, IsKept, add_prices_best,
}

≤_or_< : (n m : ℕ) → (n ≤ m) ⊎ (m < n)
≤_or_< n m = ground arith

records_of-append :
    {J O D : Type 0} (lib : JsonLib J O D) (xs ys : List O)
    → records_of lib (xs ++ ys) ≡ records_of lib xs ++ records_of lib ys
unfolding records_of
records_of-append lib [] ys = refl
records_of-append lib (x ∷ xs) ys = elim (Option-cases (extract_recordset lib x)) [
  | inl q ↦ rw (records_of, q) (records_of-append lib xs ys)
  | inr (rs, q) ↦
      rw (records_of, q)
        (ap (objects lib rs ++◌) (records_of-append lib xs ys)
          ∙ sym (append_assoc (objects lib rs) (records_of lib xs) (records_of lib ys)))
]

records_nil : {J O D : Type 0} (lib : JsonLib J O D) → records_of lib (objects lib []) ≡ []
unfolding records_of objects
records_nil lib = refl

add_prices-append :
    {O D : Type 0} (candidate : O → Option (Bytes × Best D)) (better : Best D → Best D → Bool)
    (xs ys : List O) (best : List (Bytes × Best D))
    → add_prices candidate better (xs ++ ys) best
      ≡ add_prices candidate better ys (add_prices candidate better xs best)
unfolding add_prices
add_prices-append candidate better [] ys best = refl
add_prices-append candidate better (x ∷ xs) ys best = elim (Option-cases (candidate x)) [
  | inl q ↦ rw (add_prices, q) (add_prices-append candidate better xs ys best)
  | inr ((sku, new), q) ↦
      rw (add_prices, q)
        (add_prices-append candidate better xs ys (keep_better better sku new best))
]

module _ {W J O D : Type 0} (net : Net W) (lib : JsonLib J O D) (reader : OnecInventory) where
  -- The other side serves the items of the table in pages.
  abbrev pub ServesPages : Bytes → ℕ → List J → Type 0
  ServesPages path page table =
      (skip : ℕ)
      → skip ≤ length table
      → (w : W)
      → items_of lib (text_of (net.get (page_request reader path [] skip page) w).0)
        ≡ ok (some (take page (drop skip table)))

  -- Nobody asks to stop.
  abbrev pub NeverStops : Type 0
  NeverStops = (w : W) → (net.stopped w).0 ≡ false

  module _ {A : Type 0} (path : Bytes) (max_rows page : ℕ) (add : List O → A → A) where
    turn_full :
        (rest : ℕ → A → W → Option (Result A × W)) (skip : ℕ) (out : A) (items : List J) (w : W)
        → 0 < page
        → length items ≡ page
        → page_turn net lib reader path (some max_rows) page add rest skip out (ok (some items)) w
          ≡ rest (skip + page) (add (objects lib items) out) w
    unfolding page_turn
    turn_full rest skip out [] w pos h = absurd (omega (arith, h))
    turn_full rest skip out (x ∷ items) w pos h =
        let full : ltb (length (x ∷ items)) page ≡ Bool.false = ground (arith, h) in
        rw (full, h) refl

    turn_short :
        (rest : ℕ → A → W → Option (Result A × W)) (skip : ℕ) (out : A) (items : List J) (w : W)
        → add (objects lib []) out ≡ out
        → length items < page
        → page_turn net lib reader path (some max_rows) page add rest skip out (ok (some items)) w
          ≡ some (ok (add (objects lib items) out), w)
    unfolding page_turn
    turn_short rest skip out [] w e h = rw e refl
    turn_short rest skip out (x ∷ items) w e h =
        let short : ltb (length (x ∷ items)) page ≡ Bool.true = ground (arith, h) in rw short refl

    pages_loop_served :
        (table : List J)
        → ServesPages path page table
        → NeverStops
        → 0 < page
        → ((xs ys : List J) (a : A)
            → add (objects lib ys) (add (objects lib xs) a) ≡ add (objects lib (xs ++ ys)) a)
        → ((a : A) → add (objects lib []) a ≡ a)
        → length table < max_rows
        → (fuel skip : ℕ) (out : A) (w : W) → length table < skip + fuel
        → skip ≤ length table
        → (w2 : W) × (pages_loop net lib reader path (some max_rows) page add fuel skip out w
            ≡ some (ok (add (objects lib (drop skip table)) out), w2))
    unfolding pages_loop below
    pages_loop_served table serves on pos app nil small zero skip out w h l = absurd (omega arith)
    pages_loop_served table serves on pos app nil small (suc fuel) skip out w h l =
        let xs = drop skip table in
        let more : ltb skip max_rows ≡ true = lt→ltb skip max_rows (omega arith) in
        let w1 = (net.get (page_request reader path [] skip page) (net.stopped w).1).1 in
        let rest = pages_loop net lib reader path (some max_rows) page add fuel in
        let long : length xs ≡ length table - skip = length-drop skip table in
        let measured : length (take page xs) ≡ min page (length table - skip) =
          length-take page xs ∙ ap (min page) long in
        elim (≤_or_< (skip + page) (length table)) [
          | inl full ↦
              let (w2, e) =
                pages_loop_served table serves on pos app nil small fuel (skip + page)
                  (add (objects lib (take page xs)) out) w1 (omega arith) full in
              (
                w2,
                rw (more, on w, serves skip l (net.stopped w).1)
                    (turn_full rest skip out (take page xs) w1 pos (omega (arith, measured))
                      ∙ (e
                          ∙ ap (λ z. some (ok z, w2))
                              (ap
                                  (λ ys.
                                    add (objects lib ys) (add (objects lib (take page xs)) out))
                                  (sym (drop-drop page skip table))
                                ∙ (app (take page xs) (drop page xs) out
                                    ∙ ap (λ ys. add (objects lib ys) out)
                                        (take-append-drop page xs))))),
              )
          | inr short ↦ (
            w1,
            rw (more, on w, serves skip l (net.stopped w).1)
                (turn_short rest skip out (take page xs) w1 (nil out) (omega (arith, measured))
                  ∙ ap (λ ys. some (ok (add (objects lib ys) out), w1))
                      (take_all page xs (omega (arith, long)))),
          )
        ]

module _ {W J O D : Type 0} (net : Net W) (lib : JsonLib J O D) (dbl : Doubles D)
    (reader : OnecInventory) (visit : List (Bytes × Best D) → List (Bytes × Best D)) where
  -- The reading ends with the rows of a map that keeps one of the best prices of each SKU.
  abbrev pub GivesBest :
      (Best D → Best D → Bool) → List J → Option (Result (List (PriceRow D)) × W) → Type 0
  GivesBest better table result =
      (best : List (Bytes × Best D)) × (w2 : W) × (result
        ≡ some (ok (map price_row (visit best)), w2))
      × ((sku : Bytes)
          → IsKept (candidate_of lib dbl) better
              (prices_of (candidate_of lib dbl) better sku (records_of lib (objects lib table)))
              (lookup sku best))

  read_best :
      (path : Bytes) (better : Best D → Best D → Bool)
      → Strict better
      → (max_rows : ℕ) (table : List J) (w : W) → ServesPages net lib reader path 500 table
      → NeverStops net lib reader
      → length table < max_rows
      → GivesBest better table (
          price_rows net lib dbl reader visit (
            pages_loop net lib reader path
              (some max_rows)
              500
              (add_page net lib dbl reader visit better)
              (suc max_rows)
              0
              []
              w))
  unfolding add_prices
  read_best path better strict max_rows table w serves on small =
      let candidate = candidate_of lib dbl in
      let (w2, e) =
        pages_loop_served net lib reader path max_rows 500
          (add_page net lib dbl reader visit better) table serves on (omega arith)
          (λ xs ys a.
            sym (
              add_prices-append candidate better (records_of lib (objects lib xs))
                (records_of lib (objects lib ys)) a)
            ∙ ap (λ z. add_prices candidate better z a)
                (sym (records_of-append lib (objects lib xs) (objects lib ys))
                  ∙ ap (records_of lib) (sym (objects-append lib xs ys))))
          (λ a. nothing a) small (suc max_rows) 0 [] w (omega arith) (omega arith) in
      (
        add_prices candidate better (records_of lib (objects lib table)) [],
        w2,
        ap (price_rows net lib dbl reader visit) e,
        (λ sku. add_prices_best candidate better strict (records_of lib (objects lib table)) sku),
      )
    where
      nothing :
          (a : List (Bytes × Best D))
          → add_page net lib dbl reader visit better (objects lib []) a ≡ a
      nothing a = rw (records_nil lib) refl

  -- If a table shorter than the limit is served in pages and nobody asks to stop, then reading the sale
  -- prices ends, and for each SKU the row has one of the prices with the latest period.
  pub read_prices_best :
      (max_rows : ℕ) (table : List J) (w : W)
      → ServesPages net lib reader (codes "InformationRegister_ЦеныНоменклатуры") 500 table
      → NeverStops net lib reader
      → length table < max_rows
      → GivesBest is_later table (read_prices net lib dbl reader visit max_rows w)
  unfolding read_prices
  read_prices_best max_rows table w serves on small =
      read_best (codes "InformationRegister_ЦеныНоменклатуры") is_later is_later-Strict max_rows
        table w serves on small

  -- Of these prices the one that is kept: it is one of them, none of them is lower, and none that is
  -- equal has a later period. Nothing is kept only if there are none.
  abbrev pub IsLowest : List (Best D) → Option (Best D) → Type 0
  IsLowest bs none = bs ≡ []
  IsLowest bs (some b) =
      ((before : List (Best D)) × (after : List (Best D)) × (bs ≡ before ++ b ∷ after))
      × All
          (λ (c : Best D).
            (dbl.lt c.price b.price ≡ false)
            × (dbl.eq c.price b.price ≡ true → bytes_lt b.period c.period ≡ false))
          bs

  -- The reading ends with the rows of a map that keeps such a price of each SKU.
  abbrev pub GivesLowest : List J → Option (Result (List (PriceRow D)) × W) → Type 0
  GivesLowest table result =
      (best : List (Bytes × Best D)) × (w2 : W) × (result
        ≡ some (ok (map price_row (visit best)), w2))
      × ((sku : Bytes)
          → IsLowest
              (prices_of (candidate_of lib dbl) (is_cheaper dbl) sku
                (records_of lib (objects lib table)))
              (lookup sku best))

  not_cheaper :
      (b : Best D) (cs : List (Best D))
      → All (λ c. is_cheaper dbl c b ≡ false) cs
      → All
          (λ (c : Best D).
            (dbl.lt c.price b.price ≡ false)
            × (dbl.eq c.price b.price ≡ true → bytes_lt b.period c.period ≡ false))
          cs
  unfolding is_cheaper
  not_cheaper b [] h = tt
  not_cheaper b (c ∷ cs) (h, hs) = ((ground arith, λ e. ground arith), not_cheaper b cs hs)

  kept-IsLowest :
      (bs : List (Best D)) (o : Option (Best D))
      → IsKept (candidate_of lib dbl) (is_cheaper dbl) bs o
      → IsLowest bs o
  kept-IsLowest bs none h = h
  kept-IsLowest bs (some b) h = ((h.before, h.after, h.member), not_cheaper b bs h.top)

  -- If a table shorter than the limit is served in pages and nobody asks to stop, then reading the
  -- prices of the suppliers ends, and for each SKU the row has one of its prices than which none is
  -- lower and none that is equal has a later period, given the laws of order of the doubles.
  pub read_supplier_prices_lowest :
      DoubleLaws dbl
      → (max_rows : ℕ) (table : List J) (w : W)
      → ServesPages net lib reader
          (codes "InformationRegister_ЦеныНоменклатурыПоставщиков")
          500
          table
      → NeverStops net lib reader
      → length table < max_rows
      → GivesLowest table (read_supplier_prices net lib dbl reader visit max_rows w)
  unfolding read_supplier_prices
  read_supplier_prices_lowest laws max_rows table w serves on small =
      let (best, w2, e, kept) =
        read_best (codes "InformationRegister_ЦеныНоменклатурыПоставщиков") (is_cheaper dbl)
          (is_cheaper-Strict dbl laws) max_rows table w serves on small in
      (best, w2, e, λ sku. kept-IsLowest _ _ (kept sku))
