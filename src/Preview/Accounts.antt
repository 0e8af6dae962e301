-- ===== src/Preview/Accounts.antt =====
-- What the preview shows of the costs.
use scand.Prelude.{
  ℕ, ◌≡◌, refl, ap, sym, subst, ◌∙◌, ◌⊎◌, inl, inr, Bool, true, false, Option, none, some, List, [],
  ◌∷◌, ◌++◌, append-nil, append_assoc, Bytes, codes, map, take, length, if◌then◌else◌, ltb,
  Bool-cases,
}
use scand.Env.{Doubles}
use scand.Preview.{
  CostInput, SnapshotRequest, CostPreview, Warning, extra, not_selected, preview_limited, limit_of,
  is_positive, value_or_zero, select_unit_cost, preview_costs, checks, build_preview,
}

module _ {D : Type 0} (dbl : Doubles D) where
  -- The cost that the row gives is the first positive one of the three, with its name.
  pub data Chosen (row : CostInput D) : D → Bytes → Type 0 where
    by_batch :
        (x : D)
        → row.batch_avg_cost ≡ some x
        → dbl.lt dbl.zero x ≡ true
        → Chosen row x (codes "batch")
    by_purchase :
        (x : D)
        → is_positive dbl row.batch_avg_cost ≡ false
        → row.purchase_cost ≡ some x
        → dbl.lt dbl.zero x ≡ true
        → Chosen row x (codes "purchase")
    by_dealer :
        (x : D)
        → is_positive dbl row.batch_avg_cost ≡ false
        → is_positive dbl row.purchase_cost ≡ false
        → row.dealer_cost ≡ some x
        → dbl.lt dbl.zero x ≡ true
        → Chosen row x (codes "dealer")

  -- No cost of the row is positive.
  abbrev pub Without : CostInput D → Type 0
  Without row =
      (is_positive dbl row.batch_avg_cost ≡ false)
      × (is_positive dbl row.purchase_cost ≡ false)
      × (is_positive dbl row.dealer_cost ≡ false)

  -- The rows of the costs against the preview and the warnings, in order.
  pub data Accounted : List (CostInput D) → List (CostPreview D) → List Warning → Type 0 where
    none_left : Accounted [] [] []
    shown :
        {rows : List (CostInput D)} {previews : List (CostPreview D)} {warnings : List Warning}
        (row : CostInput D) (x : D) (source : Bytes)
        → Chosen row x source
        → Accounted rows previews warnings
        → Accounted
            (row ∷ rows)
            (record { sku_1c = row.sku_1c; selected_cost = x; cost_source = source } ∷ previews)
            warnings
    warned :
        {rows : List (CostInput D)} {previews : List (CostPreview D)} {warnings : List Warning}
        (row : CostInput D)
        → Without row
        → Accounted rows previews warnings
        → Accounted (row ∷ rows) previews (not_selected row.sku_1c ∷ warnings)

  positive_some :
      (o : Option D)
      → is_positive dbl o ≡ true
      → (o ≡ some (value_or_zero dbl o)) × (dbl.lt dbl.zero (value_or_zero dbl o) ≡ true)
  unfolding is_positive
  positive_some none h = cc
  positive_some (some x) h = (refl, h)

  select_unit_cost_lem :
      (row : CostInput D)
      → ((select_unit_cost dbl row ≡ none) × Without row)
        ⊎ ((x : D) × (source : Bytes) × (select_unit_cost dbl row ≡ some (x, source))
            × Chosen row x source)
  unfolding select_unit_cost
  select_unit_cost_lem row = elim (Bool-cases (is_positive dbl row.batch_avg_cost)) [
    | inl q ↦
        let (e, p) = positive_some row.batch_avg_cost q in
        inr (value_or_zero dbl row.batch_avg_cost, codes "batch", rw q refl, by_batch _ e p)
    | inr n ↦ elim (Bool-cases (is_positive dbl row.purchase_cost)) [
      | inl q ↦
          let (e, p) = positive_some row.purchase_cost q in
          inr (
            value_or_zero dbl row.purchase_cost,
            codes "purchase",
            rw (n, q) refl,
            by_purchase _ n e p,
          )
      | inr m ↦ elim (Bool-cases (is_positive dbl row.dealer_cost)) [
        | inl q ↦
            let (e, p) = positive_some row.dealer_cost q in
            inr (
              value_or_zero dbl row.dealer_cost,
              codes "dealer",
              rw (n, m, q) refl,
              by_dealer _ n m e p,
            )
        | inr k ↦ inl (rw (n, m, k) refl, (n, m, k))
      ]
    ]
  ]

  preview_costs_lem :
      (rows : List (CostInput D)) (previews : List (CostPreview D)) (warnings : List Warning)
      → (shown_ : List (CostPreview D)) × (told : List Warning) × (preview_costs dbl rows
            (previews, warnings)
          ≡ (previews ++ shown_, warnings ++ told))
        × Accounted rows shown_ told
  unfolding preview_costs
  preview_costs_lem [] previews warnings =
      ([], [], rw (append-nil previews, append-nil warnings) refl, none_left)
  preview_costs_lem (row ∷ rows) previews warnings = elim (select_unit_cost_lem row) [
    | inl (e, without) ↦
        let (ps, ws, q, acc) =
          preview_costs_lem rows previews (warnings ++ not_selected row.sku_1c ∷ []) in
        (
          ps,
          not_selected row.sku_1c ∷ ws,
          rw (preview_costs, e)
              (q
                ∙ ap (λ z. (previews ++ ps, z))
                    (append_assoc warnings (not_selected row.sku_1c ∷ []) ws)),
          warned row without acc,
        )
    | inr (x, source, e, chosen) ↦
        let p : CostPreview D = record {
          sku_1c = row.sku_1c;
          selected_cost = x;
          cost_source = source;
        } in
        let (ps, ws, q, acc) = preview_costs_lem rows (previews ++ p ∷ []) warnings in
        (
          p ∷ ps,
          ws,
          rw (preview_costs, e)
              (q ∙ ap (λ z. (z, warnings ++ ws)) (append_assoc previews (p ∷ []) ps)),
          shown row x source chosen acc,
        )
  ]

  ended :
      (b : Bool) (w : Warning) (xs first told : List Warning)
      → xs ≡ first ++ told
      → (if b then xs ++ w ∷ [] else xs) ≡ first ++ (told ++ (if b then w ∷ [] else []))
  ended true w xs first told e = ap (λ z. z ++ w ∷ []) e ∙ append_assoc first told (w ∷ [])
  ended false w xs first told e = e ∙ ap (first ++◌) (sym (append-nil told))

  -- The preview goes through the costs in the order of the sort up to the limit, which is a hundred for
  -- zero: every row is either shown with the first positive of its costs or, when it has none,
  -- named in a warning, and a last warning stands behind these if rows were left out.
  pub build_preview_accounts :
      (sort : List (CostInput D) → List (CostInput D)) (request : SnapshotRequest D)
      (preview_limit : ℕ) (extra_warnings : List Bytes)
      → (told : List Warning) × Accounted
          (take (limit_of preview_limit) (sort request.costs))
          (build_preview dbl sort request preview_limit extra_warnings).cost_preview
          told
        × ((build_preview dbl sort request preview_limit extra_warnings).warnings
            ≡ (map extra extra_warnings ++ checks dbl sort request)
              ++ (told
                  ++ (if ltb (limit_of preview_limit) (length request.costs)
                      then preview_limited (limit_of preview_limit) ∷ []
                      else [])))
  unfolding build_preview
  build_preview_accounts sort request preview_limit extra_warnings =
      let rows = take (limit_of preview_limit) (sort request.costs) in
      let first = map extra extra_warnings ++ checks dbl sort request in
      let (ps, ws, q, acc) = preview_costs_lem rows [] first in
      (
        ws,
        subst (λ z. Accounted rows z ws) (sym (ap (λ z. z.0) q)) acc,
        ended (ltb (limit_of preview_limit) (length request.costs))
            (preview_limited (limit_of preview_limit)) _ first ws (ap (λ z. z.1) q),
      )
