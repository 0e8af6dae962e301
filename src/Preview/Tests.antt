-- ===== src/Preview/Tests.antt =====
-- A concrete preview.
use scand.Preview.{preview_costs, select_unit_cost, is_positive}
use scand.Prelude.{
  ℕ, ◌-◌, ◌≡◌, refl, none, some, List, [], ◌∷◌, ◌++◌, Bytes, codes, map, take, length, ltb, leb,
  ◌==◌, if◌then◌else◌,
}
use scand.Env.{Doubles}
use scand.Preview.{CostInput, SnapshotRequest, Warning, limit_of, checks, build_preview}
use scand.Preview.Accounts.{Accounted, build_preview_accounts}

abbrev numbers : Doubles ℕ
numbers = record { zero = 0; sub = λ a b. a - b; lt = ltb; le = leb; eq = ◌==◌; stod = λ s. none }

abbrev cost : Bytes → ℕ → CostInput ℕ
cost sku x = record {
  sku_1c = sku;
  batch_avg_cost = none;
  purchase_cost = some x;
  purchase_source = none;
  purchase_source_at = none;
  dealer_cost = none;
}

-- One cost is zero, and one is beyond the limit.
abbrev request : SnapshotRequest ℕ
request = record {
  batch_id = codes "b";
  measured_at = codes "now";
  mode = codes "FULL";
  stocks = [];
  warehouses = [];
  costs = cost (codes "1") 0 ∷ cost (codes "2") 7 ∷ cost (codes "3") 8 ∷ [];
}

preview_runs :
    (build_preview numbers (λ costs. costs) request 2 []).cost_preview
    ≡ record { sku_1c = codes "2"; selected_cost = 7; cost_source = codes "purchase" } ∷ []
unfolding build_preview preview_costs limit_of select_unit_cost is_positive
preview_runs = refl

build_preview_accounts_example :
    (told : List Warning) × Accounted numbers
      (take (limit_of 2) request.costs)
      (build_preview numbers (λ costs. costs) request 2 []).cost_preview
      told
    × ((build_preview numbers (λ costs. costs) request 2 []).warnings
        ≡ (map Warning.extra [] ++ checks numbers (λ costs. costs) request)
          ++ (told
              ++ (if ltb (limit_of 2) (length request.costs)
                  then Warning.preview_limited (limit_of 2) ∷ []
                  else [])))
build_preview_accounts_example = build_preview_accounts numbers (λ costs. costs) request 2 []
