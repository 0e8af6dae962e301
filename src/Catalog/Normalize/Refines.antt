-- ===== src/Catalog/Normalize/Refines.antt =====
-- What `normalize_onec_product_catalog` promises: a list that depends on the rows alone, and not on the
-- hash map.
use mathlib.Core.List.{Perm}
use mathlib.Core.List.Perm
use scand.Prelude.{
  ◌≡◌, refl, sym, subst, ◌∙◌, Bool, true, false, not, List, [], ◌∷◌, map, arith, Bytes, keep,
  keep_perm, any, All, contains, bytes_eq_iff, bytes_eq_refl, Bool-cases, inl, inr,
}
use scand.Catalog.Normalize.{
  ProductRecord, has_one_ref, index_rows, no_index, normalize_onec_product_catalog,
}
use scand.Catalog.Normalize.Sorting.{
  Ascending, DistinctCodes, same_code, sort_by_code-perm, sort_by_code_perm, sort_by_code-Ascending,
}
use scand.Catalog.Normalize.Indexing.{
  records_of, latest, same_ref, entry, by_ref_lem, refs_with, shares_code, has_one_ref_lem,
}

-- The catalogue: the latest record of each reference, if no record has its code and another
-- reference.
abbrev pub catalogue : Bytes → List (List Bytes) → List ProductRecord
catalogue measured_at rows =
    keep (λ r. not (shares_code (records_of measured_at rows) r))
      (latest (records_of measured_at rows))

-- The reference of the record is among those of its code.
abbrev Noted : List ProductRecord → ProductRecord → Type 0
Noted rs r = contains r.ref_key (refs_with r.code rs) ≡ true

All-Noted : (rs : List ProductRecord) → All (Noted rs) rs
unfolding contains refs_with
All-Noted [] = tt
All-Noted (r ∷ rs) =
    (ground (arith, bytes_eq_refl r.code, bytes_eq_refl r.ref_key), weaken r rs rs (All-Noted rs))
  where
    weaken :
        (r : ProductRecord) (rs ss : List ProductRecord)
        → All (Noted rs) ss
        → All (Noted (r ∷ rs)) ss
    weaken r rs [] h = tt
    weaken r rs (s ∷ ss) (n, h) = (ground (arith, n), weaken r rs ss h)

keep_agree :
    (p q : ProductRecord → Bool) (ss : List ProductRecord)
    → All (λ r. p r ≡ q r) ss
    → keep p (latest ss) ≡ keep q (latest ss)
unfolding latest
keep_agree p q [] h = refl
keep_agree p q (r ∷ ss) (e, h) = ground (arith, keep_agree p q ss h)

any-latest :
    (r : ProductRecord) (q : ProductRecord → Bool) (ss : List ProductRecord)
    → any (same_ref r) ss ≡ false
    → shares_code ss r ≡ false
    → any (same_code r) (keep q (latest ss)) ≡ false
unfolding latest
any-latest r q [] n h = refl
any-latest r q (s ∷ ss) n h = ground (
  arith,
  any-latest r q ss,
  bytes_eq_iff r.code s.code,
  bytes_eq_iff s.code r.code,
  bytes_eq_iff r.ref_key s.ref_key,
  bytes_eq_iff s.ref_key r.ref_key,
)

latest-DistinctCodes :
    (q : ProductRecord → Bool) (ss : List ProductRecord)
    → ((r : ProductRecord) → q r ≡ true → shares_code ss r ≡ false)
    → DistinctCodes (keep q (latest ss))
unfolding latest
latest-DistinctCodes q [] h = tt
latest-DistinctCodes q (r ∷ ss) h =
    let rest = latest-DistinctCodes q ss (λ s e. ground (arith, h s e)) in
    elim (Bool-cases (any (same_ref r) ss)) [
      | inl later ↦ rw later rest
      | inr last ↦ elim (Bool-cases (q r)) [
        | inl chosen ↦ rw (last, chosen) (any-latest r q ss last (ground (arith, h r chosen)), rest)
        | inr other ↦ rw (last, other) rest
      ]
    ]

catalogue-DistinctCodes :
    (measured_at : Bytes) (rows : List (List Bytes)) → DistinctCodes (catalogue measured_at rows)
catalogue-DistinctCodes measured_at rows =
    let rs = records_of measured_at rows in
    latest-DistinctCodes (λ r. not (shares_code rs r)) rs (λ r e. ground (arith, e))

map-entry : (rs : List ProductRecord) → map (λ e. e.1) (map entry rs) ≡ rs
map-entry [] = refl
map-entry (r ∷ rs) = cc (map-entry rs)

-- What is sorted in the end.
visited :
    (visit : List (Bytes × ProductRecord) → List (Bytes × ProductRecord))
    → ((m : List (Bytes × ProductRecord)) → Perm m (visit m))
    → (rows : List (List Bytes)) (measured_at : Bytes)
    → Perm (catalogue measured_at rows) (
        keep
          (has_one_ref (index_rows measured_at rows no_index).refs_by_code)
          (map (λ e. e.1) (visit (index_rows measured_at rows no_index).by_ref)))
visited visit visits rows measured_at =
    let rs = records_of measured_at rows in
    let index = index_rows measured_at rows no_index in
    let values : Perm (latest rs) (map (λ e. e.1) (visit index.by_ref)) =
      subst (λ z. Perm z (map (λ e. e.1) (visit index.by_ref))) (map-entry (latest rs))
        (Perm.map (λ e. e.1)
          (Perm.trans (Perm.symm (by_ref_lem measured_at rows)) (visits index.by_ref))) in
    subst
      (λ z. Perm z (keep (has_one_ref index.refs_by_code) (map (λ e. e.1) (visit index.by_ref))))
      (keep_agree (has_one_ref index.refs_by_code) (λ r. not (shares_code rs r)) rs
        (agree rs (All-Noted rs)))
      (keep_perm (has_one_ref index.refs_by_code) (latest rs) (map (λ e. e.1) (visit index.by_ref))
        values)
  where
    agree :
        (ss : List ProductRecord)
        → All (Noted (records_of measured_at rows)) ss
        → All
            (λ r.
              has_one_ref (index_rows measured_at rows no_index).refs_by_code r
              ≡ not (shares_code (records_of measured_at rows) r))
            ss
    agree [] h = tt
    agree (s ∷ ss) (n, h) = (has_one_ref_lem measured_at rows s n, agree ss h)

-- In whatever order the hash map is visited, the result is the catalogue, the latest record of each
-- reference whose code no record with another reference has, in strictly ascending order of the
-- codes.
pub normalize_refines_catalogue :
    (visit : List (Bytes × ProductRecord) → List (Bytes × ProductRecord))
    → ((m : List (Bytes × ProductRecord)) → Perm m (visit m))
    → (rows : List (List Bytes)) (measured_at : Bytes)
    → Perm (catalogue measured_at rows) (normalize_onec_product_catalog visit rows measured_at)
      × Ascending (normalize_onec_product_catalog visit rows measured_at)
unfolding normalize_onec_product_catalog
normalize_refines_catalogue visit visits rows measured_at =
    let index = index_rows measured_at rows no_index in
    let kept = keep (has_one_ref index.refs_by_code) (map (λ e. e.1) (visit index.by_ref)) in
    let same = visited visit visits rows measured_at in
    (
      Perm.trans same (sort_by_code-perm kept),
      sort_by_code-Ascending kept
          (sort_by_code_perm (catalogue measured_at rows) kept same
            (catalogue-DistinctCodes measured_at rows)).1,
    )

-- Two runs over the same rows give the same list, in whatever orders they visit their hash maps.
pub normalize_deterministic :
    (visit other : List (Bytes × ProductRecord) → List (Bytes × ProductRecord))
    → ((m : List (Bytes × ProductRecord)) → Perm m (visit m))
    → ((m : List (Bytes × ProductRecord)) → Perm m (other m))
    → (rows : List (List Bytes)) (measured_at : Bytes)
    → normalize_onec_product_catalog visit rows measured_at
      ≡ normalize_onec_product_catalog other rows measured_at
unfolding normalize_onec_product_catalog
normalize_deterministic visit other visits others rows measured_at =
    let index = index_rows measured_at rows no_index in
    let sorted =
      λ (look : List (Bytes × ProductRecord) → List (Bytes × ProductRecord))
          (looks : (m : List (Bytes × ProductRecord)) → Perm m (look m)).
        (sort_by_code_perm (catalogue measured_at rows)
          (keep (has_one_ref index.refs_by_code) (map (λ e. e.1) (look index.by_ref)))
          (visited look looks rows measured_at) (catalogue-DistinctCodes measured_at rows)).0 in
    sym (sorted visit visits) ∙ sorted other others
