-- ===== src/Catalog/Normalize/Indexing.antt =====
-- What the two maps of `normalize_onec_product_catalog` hold behind the loop.
use mathlib.Core.List.{Perm, perm_middle}
use mathlib.Core.List.Perm
use scand.Prelude.{
  ◌<◌, ◌≡◌, refl, ap, sym, subst, ◌∙◌, ◌&&◌, Bool, true, false, not, Option, none, some, List, [],
  ◌∷◌, ◌++◌, map, arith, Bytes, keep, keep_perm, ltb, if◌then◌else◌, length, length-append, any,
  contains, lookup, insert, lookup-insert, set_insert, bytes_eq, bytes_eq_iff, eq_of_bytes_eq,
  Bool-cases, inl, inr, DistinctKeys, others, insert_perm, insert-DistinctKeys, Option-cases,
}
use scand.Json.{or_else}
use scand.Catalog.Normalize.{
  ProductRecord, Index, record_of, add_record, index_rows, refs_at, has_one_ref, no_index,
}

-- The records of the rows that are not skipped.
unfoldable pub records_of : Bytes → List (List Bytes) → List ProductRecord
records_of measured_at [] = []
records_of measured_at (row ∷ rows) = elim (record_of measured_at row) [
  | none ↦ records_of measured_at rows
  | some r ↦ r ∷ records_of measured_at rows
]

abbrev pub same_ref : ProductRecord → ProductRecord → Bool
same_ref r s = bytes_eq r.ref_key s.ref_key

-- The records whose reference no later record has.
unfoldable pub latest : List ProductRecord → List ProductRecord
latest [] = []
latest (r ∷ rs) = if any (same_ref r) rs then latest rs else r ∷ latest rs

abbrev pub entry : ProductRecord → Bytes × ProductRecord
entry r = (r.ref_key, r)

put_all : List ProductRecord → List (Bytes × ProductRecord) → List (Bytes × ProductRecord)
put_all [] m = m
put_all (r ∷ rs) m = put_all rs (insert r.ref_key r m)

note_all : List ProductRecord → List (Bytes × List Bytes) → List (Bytes × List Bytes)
note_all [] m = m
note_all (r ∷ rs) m = note_all rs (insert r.code (set_insert r.ref_key (refs_at r.code m)) m)

index_rows_lem :
    (measured_at : Bytes) (rows : List (List Bytes)) (index : Index)
    → index_rows measured_at rows index ≡ record {
      by_ref = put_all (records_of measured_at rows) index.by_ref;
      refs_by_code = note_all (records_of measured_at rows) index.refs_by_code;
    }
unfolding index_rows records_of put_all note_all add_record
index_rows_lem measured_at [] index = refl
index_rows_lem measured_at (row ∷ rows) index = elim (Option-cases (record_of measured_at row)) [
  | inl q ↦ rw (index_rows, records_of, q) (index_rows_lem measured_at rows index)
  | inr (r, q) ↦
      rw (index_rows, records_of, q) (index_rows_lem measured_at rows (add_record r index))
]

-- The key is not that of one of the records.
abbrev fresh : List ProductRecord → Bytes × ProductRecord → Bool
fresh rs e = not (any (λ (r : ProductRecord). bytes_eq (e.0) r.ref_key) rs)

keep-others :
    (r : ProductRecord) (rs : List ProductRecord) (m : List (Bytes × ProductRecord))
    → keep (fresh rs) (others r.ref_key m) ≡ keep (fresh (r ∷ rs)) m
keep-others r rs [] = refl
keep-others r rs ((j, w) ∷ m) =
    ground (arith, keep-others r rs m, bytes_eq_iff r.ref_key j, bytes_eq_iff j r.ref_key)

keep_insert :
    (r : ProductRecord) (rs : List ProductRecord) (m : List (Bytes × ProductRecord))
    → DistinctKeys m
    → Perm
        (keep (fresh rs) (insert r.ref_key r m))
        (if any (same_ref r) rs then keep (fresh (r ∷ rs)) m else entry r ∷ keep (fresh (r ∷ rs)) m)
keep_insert r rs m d =
    let step =
      keep_perm (fresh rs) (insert r.ref_key r m) (entry r ∷ others r.ref_key m)
        (insert_perm r.ref_key r m d) in
    subst (Perm (keep (fresh rs) (insert r.ref_key r m)))
      (split (any (same_ref r) rs) (keep-others r rs m)) step
  where
    split :
        (b : Bool) {xs ys : List (Bytes × ProductRecord)}
        → xs ≡ ys
        → (if not b then entry r ∷ xs else xs) ≡ (if b then ys else entry r ∷ ys)
    split true e = e
    split false e = ap (entry r ∷◌) e

keep-fresh : (m : List (Bytes × ProductRecord)) → keep (fresh []) m ++ [] ≡ m
keep-fresh [] = refl
keep-fresh (e ∷ m) = cc (keep-fresh m)

put_all_perm :
    (rs : List ProductRecord) (m : List (Bytes × ProductRecord))
    → DistinctKeys m
    → Perm (put_all rs m) (keep (fresh rs) m ++ map entry (latest rs))
unfolding put_all latest
put_all_perm [] m d = subst (λ z. Perm m z) (sym (keep-fresh m)) (Perm.refl m)
put_all_perm (r ∷ rs) m d =
    let rest = put_all_perm rs (insert r.ref_key r m) (insert-DistinctKeys r.ref_key r m d) in
    Perm.trans rest (
      placed (any (same_ref r) rs) (keep (fresh rs) (insert r.ref_key r m))
        (keep (fresh (r ∷ rs)) m) (keep_insert r rs m d))
  where
    placed :
        (b : Bool) (xs ys : List (Bytes × ProductRecord))
        → Perm xs (if b then ys else entry r ∷ ys)
        → Perm
            (xs ++ map entry (latest rs))
            (ys ++ map entry (if b then latest rs else r ∷ latest rs))
    placed true xs ys h = Perm.append h (Perm.refl (map entry (latest rs)))
    placed false xs ys h =
        Perm.trans (Perm.append h (Perm.refl (map entry (latest rs))))
          (Perm.symm (perm_middle ys (map entry (latest rs))))

-- The values of the first map are the latest records, in some order.
pub by_ref_lem :
    (measured_at : Bytes) (rows : List (List Bytes))
    → Perm
        (index_rows measured_at rows no_index).by_ref
        (map entry (latest (records_of measured_at rows)))
by_ref_lem measured_at rows =
    let rs = records_of measured_at rows in
    subst (λ (z : Index). Perm z.by_ref (map entry (latest rs)))
      (sym (index_rows_lem measured_at rows no_index)) (put_all_perm rs [] tt)

-- The references of the records with that code.
unfoldable pub refs_with : Bytes → List ProductRecord → List Bytes
refs_with code [] = []
refs_with code (r ∷ rs) =
    if bytes_eq r.code code then r.ref_key ∷ refs_with code rs else refs_with code rs

-- The set that holds the elements of a list, added to a set.
set_all : List Bytes → List Bytes → List Bytes
set_all [] s = s
set_all (k ∷ ks) s = set_all ks (set_insert k s)

refs_at-note_all :
    (code : Bytes) (rs : List ProductRecord) (m : List (Bytes × List Bytes))
    → refs_at code (note_all rs m) ≡ set_all (refs_with code rs) (refs_at code m)
unfolding note_all refs_with set_all
refs_at-note_all code [] m = refl
refs_at-note_all code (r ∷ rs) m =
    let set = set_insert r.ref_key (refs_at r.code m) in
    let rest = refs_at-note_all code rs (insert r.code set m) in
    rest
    ∙ (ap (λ (o : Option (List Bytes)). set_all (refs_with code rs) (or_else o []))
          (lookup-insert r.code code set m)
        ∙ noted (bytes_eq r.code code) (λ q. eq_of_bytes_eq r.code code q))
  where
    noted :
        (b : Bool)
        → (b ≡ true → r.code ≡ code)
        → set_all (refs_with code rs) (
            or_else
              (if b then some (set_insert r.ref_key (refs_at r.code m)) else lookup code m)
              [])
          ≡ set_all
              (if b then r.ref_key ∷ refs_with code rs else refs_with code rs)
              (refs_at code m)
    noted true e = rw (e refl) refl
    noted false e = refl

set_all_full : (ks s : List Bytes) → 1 < length s → ltb 1 (length (set_all ks s)) ≡ true
unfolding set_all set_insert
set_all_full [] s h = ground arith
set_all_full (k ∷ ks) s h = elim (Bool-cases (contains k s)) [
  | inl q ↦ rw q (set_all_full ks s h)
  | inr q ↦ rw q (set_all_full ks (s ++ k ∷ []) (omega (arith, length-append s (k ∷ []))))
]

set_all_one :
    (x : Bytes) (ks : List Bytes)
    → ltb 1 (length (set_all ks (x ∷ []))) ≡ any (λ k. not (bytes_eq k x)) ks
unfolding set_all set_insert contains
set_all_one x [] = ground arith
set_all_one x (k ∷ ks) = elim (Bool-cases (bytes_eq x k)) [
  | inl q ↦ rw q (ground (arith, set_all_one x ks, bytes_eq_iff x k, bytes_eq_iff k x))
  | inr q ↦ rw q (
      ground
        (arith, set_all_full ks (x ∷ k ∷ []) (omega arith), bytes_eq_iff x k, bytes_eq_iff k x))
]

any_other :
    (x k : Bytes) (ks : List Bytes)
    → bytes_eq x k ≡ false
    → contains x ks ≡ true
    → any (λ j. not (bytes_eq j k)) ks ≡ true
unfolding contains
any_other x k [] n h = cc
any_other x k (j ∷ ks) n h = ground (arith, any_other x k ks, bytes_eq_iff j x)

-- A set holds more than one element if some element of it is not that one.
set_all_crowded :
    (x : Bytes) (ks : List Bytes)
    → contains x ks ≡ true
    → ltb 1 (length (set_all ks [])) ≡ any (λ k. not (bytes_eq k x)) ks
unfolding set_all set_insert contains
set_all_crowded x [] h = cc
set_all_crowded x (k ∷ ks) h = elim (Bool-cases (bytes_eq k x)) [
  | inl q ↦ ground (arith, set_all_one k ks, bytes_eq_iff k x)
  | inr q ↦ rw q (
      set_all_one k ks
      ∙ any_other x k ks (ground (arith, bytes_eq_iff x k, bytes_eq_iff k x)) (ground arith))
]

-- Some record has the code of that one and another reference.
abbrev pub shares_code : List ProductRecord → ProductRecord → Bool
shares_code rs rec =
    any (λ (r : ProductRecord). bytes_eq r.code rec.code && not (bytes_eq r.ref_key rec.ref_key)) rs

any-refs_with :
    (code ref : Bytes) (rs : List ProductRecord)
    → any (λ k. not (bytes_eq k ref)) (refs_with code rs)
      ≡ any (λ (r : ProductRecord). bytes_eq r.code code && not (bytes_eq r.ref_key ref)) rs
unfolding refs_with
any-refs_with code ref [] = refl
any-refs_with code ref (r ∷ rs) = ground (arith, any-refs_with code ref rs)

-- The test of the code on one of the records is whether another record shares its code.
pub has_one_ref_lem :
    (measured_at : Bytes) (rows : List (List Bytes)) (rec : ProductRecord)
    → contains rec.ref_key (refs_with rec.code (records_of measured_at rows)) ≡ true
    → has_one_ref (index_rows measured_at rows no_index).refs_by_code rec
      ≡ not (shares_code (records_of measured_at rows) rec)
unfolding has_one_ref set_all lookup
has_one_ref_lem measured_at rows rec h =
    let rs = records_of measured_at rows in
    ap not (
      ap (λ (z : Index). ltb 1 (length (refs_at rec.code z.refs_by_code)))
        (index_rows_lem measured_at rows no_index)
      ∙ (ap (λ s. ltb 1 (length s)) (refs_at-note_all rec.code rs [])
          ∙ (set_all_crowded rec.ref_key (refs_with rec.code rs) h
              ∙ any-refs_with rec.code rec.ref_key rs)))
