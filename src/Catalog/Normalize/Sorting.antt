-- ===== src/Catalog/Normalize/Sorting.antt =====
-- The sort by code: what it gives when no code occurs twice.
use mathlib.Core.List.{Perm, Permᴰ}
use mathlib.Core.List.Perm
use mathlib.Core.List.Permᴰ.{nil, cons, swap, trans}
use mathlib.Core.Logic.{∥∥₁_elim}
use scand.Prelude.{
  ◌≡◌, refl, ap, sym, subst₂, ◌∙◌, Bool, true, false, List, [], ◌∷◌, arith, any, any_perm, All,
  bytes_eq, bytes_lt, bytes_eq_iff, bytes_lt_irrefl, bytes_lt_trans, bytes_lt_total, Bool-cases,
  inl, inr,
}
use scand.Catalog.Normalize.{ProductRecord, insert_by_code, sort_by_code}

-- Each code is below all the codes behind it.
abbrev pub Ascending : List ProductRecord → Type 0
Ascending [] = Unit
Ascending (r ∷ rs) = All (λ (s : ProductRecord). bytes_lt r.code s.code ≡ true) rs × Ascending rs

abbrev pub same_code : ProductRecord → ProductRecord → Bool
same_code r s = bytes_eq r.code s.code

-- No code occurs twice.
abbrev pub DistinctCodes : List ProductRecord → Type 0
DistinctCodes [] = Unit
DistinctCodes (r ∷ rs) = (any (same_code r) rs ≡ false) × DistinctCodes rs

insert_by_code-perm :
    (r : ProductRecord) (out : List ProductRecord) → Perm (r ∷ out) (insert_by_code r out)
unfolding insert_by_code
insert_by_code-perm r [] = Perm.refl (r ∷ [])
insert_by_code-perm r (s ∷ out) = elim (Bool-cases (bytes_lt s.code r.code)) [
  | inl q ↦ rw q (Perm.trans (Perm.swap s r out) (Perm.cons s (insert_by_code-perm r out)))
  | inr q ↦ rw q (Perm.refl (r ∷ s ∷ out))
]

pub sort_by_code-perm : (out : List ProductRecord) → Perm out (sort_by_code out)
unfolding sort_by_code
sort_by_code-perm [] = Perm.nil
sort_by_code-perm (r ∷ out) =
    Perm.trans (Perm.cons r (sort_by_code-perm out)) (insert_by_code-perm r (sort_by_code out))

insert_by_code_swap :
    (a b : ProductRecord) (out : List ProductRecord)
    → same_code a b ≡ false
    → insert_by_code a (insert_by_code b out) ≡ insert_by_code b (insert_by_code a out)
unfolding insert_by_code
insert_by_code_swap a b [] h = ground (
  arith,
  bytes_lt_total a.code b.code,
  bytes_lt_trans a.code b.code a.code,
  bytes_lt_irrefl a.code,
)
insert_by_code_swap a b (s ∷ out) h = ground (
  arith,
  insert_by_code_swap a b out h,
  bytes_lt_total a.code b.code,
  bytes_lt_trans a.code b.code a.code,
  bytes_lt_irrefl a.code,
  bytes_lt_trans a.code b.code s.code,
  bytes_lt_trans b.code a.code s.code,
  bytes_lt_trans s.code a.code b.code,
  bytes_lt_trans s.code b.code a.code,
)

sort_by_code_permᴰ :
    (xs ys : List ProductRecord)
    → Permᴰ xs ys
    → DistinctCodes xs
    → (sort_by_code xs ≡ sort_by_code ys) × DistinctCodes ys
unfolding sort_by_code
sort_by_code_permᴰ _ _ nil d = (refl, tt)
sort_by_code_permᴰ _ _ (cons {a} {b} {l₁} {l₂} e h) (n, d) =
    let (same, d2) = sort_by_code_permᴰ l₁ l₂ h d in
    (
      cc (same, e),
      (
        sym (any_perm (same_code b) l₁ l₂ ∣ h ∣₁) ∙ (ap (λ r. any (same_code r) l₁) (sym e) ∙ n),
        d2,
      ),
    )
sort_by_code_permᴰ _ _ (swap {a} {b} {a'} {b'} {l} e f) (n, (m, d)) =
    subst₂
      (λ (c : ProductRecord) (g : ProductRecord).
        (insert_by_code a (insert_by_code b (sort_by_code l))
          ≡ insert_by_code c (insert_by_code g (sort_by_code l)))
        × DistinctCodes (c ∷ g ∷ l))
      f e
      (
        insert_by_code_swap a b (sort_by_code l) (ground arith),
        (ground (arith, bytes_eq_iff a.code b.code, bytes_eq_iff b.code a.code), (ground arith, d)),
      )
sort_by_code_permᴰ _ _ (trans {l₁} {l₂} {l₃} h k) d =
    let (one, d2) = sort_by_code_permᴰ l₁ l₂ h d in
    let (two, d3) = sort_by_code_permᴰ l₂ l₃ k d2 in (one ∙ two, d3)

DistinctCodes-IsProp : (xs : List ProductRecord) → IsProp (DistinctCodes xs)
DistinctCodes-IsProp [] = hlevel
DistinctCodes-IsProp (r ∷ rs) =
    let rest : IsProp (DistinctCodes rs) = DistinctCodes-IsProp rs in hlevel

-- Lists that differ in the order alone are sorted alike, if no code occurs twice.
pub sort_by_code_perm :
    (xs ys : List ProductRecord)
    → Perm xs ys
    → DistinctCodes xs
    → (sort_by_code xs ≡ sort_by_code ys) × DistinctCodes ys
sort_by_code_perm xs ys h d =
    let rest : IsProp (DistinctCodes ys) = DistinctCodes-IsProp ys in
    ∥∥₁_elim h (hlevel) (λ p. sort_by_code_permᴰ xs ys p d)

insert_by_code-Ascending :
    (r : ProductRecord) (out : List ProductRecord)
    → any (same_code r) out ≡ false
    → Ascending out
    → Ascending (insert_by_code r out)
unfolding insert_by_code
insert_by_code-Ascending r [] n h = (tt, tt)
insert_by_code-Ascending r (s ∷ out) n (below, h) = elim (Bool-cases (bytes_lt s.code r.code)) [
  | inl q ↦
      rw q (insert_by_code-All s r out q below, insert_by_code-Ascending r out (ground arith) h)
  | inr q ↦ rw q (
    (
      ground (
        arith,
        bytes_lt_total s.code r.code,
        bytes_eq_iff s.code r.code,
        bytes_eq_iff r.code s.code,
      ),
      All_below r s out
          (ground (
            arith,
            bytes_lt_total s.code r.code,
            bytes_eq_iff s.code r.code,
            bytes_eq_iff r.code s.code,
          ))
          below,
    ),
    (below, h),
  )
]
  where
    insert_by_code-All :
        (s r : ProductRecord) (out : List ProductRecord)
        → bytes_lt s.code r.code ≡ true
        → All (λ (t : ProductRecord). bytes_lt s.code t.code ≡ true) out
        → All (λ (t : ProductRecord). bytes_lt s.code t.code ≡ true) (insert_by_code r out)
    insert_by_code-All s r [] q below = (q, tt)
    insert_by_code-All s r (t ∷ out) q (b, below) =
        ground (arith, insert_by_code-All s r out q below)

    All_below :
        (r s : ProductRecord) (out : List ProductRecord)
        → bytes_lt r.code s.code ≡ true
        → All (λ (t : ProductRecord). bytes_lt s.code t.code ≡ true) out
        → All (λ (t : ProductRecord). bytes_lt r.code t.code ≡ true) out
    All_below r s [] q b = tt
    All_below r s (t ∷ out) q (b, below) =
        (bytes_lt_trans r.code s.code t.code q b, All_below r s out q below)

-- Without a code that occurs twice, the sorted list ascends.
pub sort_by_code-Ascending :
    (xs : List ProductRecord) → DistinctCodes xs → Ascending (sort_by_code xs)
unfolding sort_by_code
sort_by_code-Ascending [] d = tt
sort_by_code-Ascending (r ∷ rs) (n, d) =
    insert_by_code-Ascending r (sort_by_code rs)
      (sym (any_perm (same_code r) rs (sort_by_code rs) (sort_by_code-perm rs)) ∙ n)
      (sort_by_code-Ascending rs d)
