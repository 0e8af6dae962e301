-- ===== src/Inventory/Choice.antt =====
-- Which of the prices of a SKU is kept.
use scand.Prelude.{
  ◌≡◌, ◌⊎◌, refl, ap, sym, subst, ◌∙◌, inl, inr, Bool, true, false, Option, none, some, List, [],
  ◌∷◌, ◌++◌, arith, Bytes, if◌then◌else◌, All, bytes_eq, bytes_eq_iff, bytes_lt_irrefl,
  bytes_lt_trans, lookup, lookup-insert, Bool-cases, Option-cases,
}
use scand.Env.{Doubles}
use scand.Inventory.{Best, is_later, is_cheaper, keep_better, add_prices}

-- A strict order.
pub record Strict {A : Type 0} (less : A → A → Bool) : Type 0 where
  pub irrefl : (a : A) → less a a ≡ false
  pub trans : (a b c : A) → less a b ≡ true → less b c ≡ true → less a c ≡ true

-- What holds of all doubles, not-a-number included.
pub record DoubleLaws {D : Type 0} (dbl : Doubles D) : Type 0 where
  pub lt_irrefl : (a : D) → dbl.lt a a ≡ false
  pub lt_trans : (a b c : D) → dbl.lt a b ≡ true → dbl.lt b c ≡ true → dbl.lt a c ≡ true
  pub eq_trans : (a b c : D) → dbl.eq a b ≡ true → dbl.eq b c ≡ true → dbl.eq a c ≡ true
  pub lt_eq : (a b c : D) → dbl.lt a b ≡ true → dbl.eq b c ≡ true → dbl.lt a c ≡ true
  pub eq_lt : (a b c : D) → dbl.eq a b ≡ true → dbl.lt b c ≡ true → dbl.lt a c ≡ true

pub is_later-Strict : {D : Type 0} → Strict (is_later {D = D})
unfolding is_later
is_later-Strict = record {
  irrefl = λ a. bytes_lt_irrefl a.period;
  trans = λ a b c h k. bytes_lt_trans c.period b.period a.period k h;
}

pub is_cheaper-Strict : {D : Type 0} (dbl : Doubles D) → DoubleLaws dbl → Strict (is_cheaper dbl)
unfolding is_cheaper
is_cheaper-Strict dbl laws = record {
  irrefl = λ a. ground (arith, laws.lt_irrefl a.price, bytes_lt_irrefl a.period);
  trans = λ a b c h k. ground (
    arith,
    h,
    k,
    laws.lt_trans a.price b.price c.price,
    laws.eq_trans a.price b.price c.price,
    laws.lt_eq a.price b.price c.price,
    laws.eq_lt a.price b.price c.price,
    bytes_lt_trans c.period b.period a.period,
  );
}

module _ {O D : Type 0} (candidate : O → Option (Bytes × Best D))
    (better : Best D → Best D → Bool) where
  -- The prices of that SKU, in the order of the records.
  unfoldable pub prices_of : Bytes → List O → List (Best D)
  prices_of sku [] = []
  prices_of sku (o ∷ records) = elim (candidate o) [
    | none ↦ prices_of sku records
    | some (key, b) ↦
        let rest = prices_of sku records in if bytes_eq key sku then b ∷ rest else rest
  ]

  -- The first of the best ones.
  abbrev choose : Option (Best D) → Best D → Option (Best D)
  choose none b = some b
  choose (some old) b = if better b old then some b else some old

  unfoldable pub choice : Option (Best D) → List (Best D) → Option (Best D)
  choice o [] = o
  choice o (b ∷ bs) = choice (choose o b) bs

  -- The price is one of those, and none of them is better.
  pub record Top (bs : List (Best D)) (b : Best D) : Type 0 where
    pub before : List (Best D)
    pub after : List (Best D)
    pub member : bs ≡ before ++ b ∷ after
    pub top : All (λ c. better c b ≡ false) bs

  -- What is kept of those prices: nothing only if there are none.
  abbrev pub IsKept : List (Best D) → Option (Best D) → Type 0
  IsKept bs none = bs ≡ []
  IsKept bs (some b) = Top bs b

  Improved : Best D → List (Best D) → Option (Best D) → Type 0
  Improved a bs none = ⊥
  Improved a bs (some b) = ((b ≡ a) ⊎ (better b a ≡ true)) × Top (a ∷ bs) b

  Improved-IsKept :
      (a : Best D) (bs : List (Best D)) (r : Option (Best D)) → Improved a bs r → IsKept (a ∷ bs) r
  unfolding Improved
  Improved-IsKept a bs none h = elim h [ ]
  Improved-IsKept a bs (some b) (up, t) = t

  improve :
      Strict better
      → (a c : Best D) (bs : List (Best D)) (r : Option (Best D)) → better c a ≡ true
      → Improved c bs r
      → Improved a (c ∷ bs) r
  unfolding Improved
  improve strict a c bs none h k = elim k [ ]
  improve strict a c bs (some b) h (up, t) =
      let (below, rest) = t.top in
      (
        inr (elim up [
          | inl e ↦ subst (λ z. better z a ≡ true) (sym e) h
          | inr k ↦ strict.trans b c a k h
        ]),
        record {
          before = a ∷ t.before;
          after = t.after;
          member = ap (a ∷◌) t.member;
          top = (ground (arith, below, h, strict.trans c a b h), t.top);
        },
      )

  second :
      (a b c : Best D) (bs before after : List (Best D))
      → a ∷ bs ≡ before ++ b ∷ after
      → (pre : List (Best D)) × (post : List (Best D)) × (a ∷ c ∷ bs ≡ pre ++ b ∷ post)
  second a b c bs [] after e = ([], c ∷ after, cc)
  second a b c bs (x ∷ before) after e = (x ∷ c ∷ before, after, cc)

  stay :
      Strict better
      → (a c : Best D) (bs : List (Best D)) (r : Option (Best D)) → better c a ≡ false
      → Improved a bs r
      → Improved a (c ∷ bs) r
  unfolding Improved
  stay strict a c bs none h k = elim k [ ]
  stay strict a c bs (some b) h (up, t) =
      let (first, rest) = t.top in
      let under : better c b ≡ false = elim up [
        | inl e ↦ subst (λ z. better c z ≡ false) (sym e) h
        | inr k ↦ ground (arith, h, strict.trans c b a)
      ] in
      let (pre, post, e) = second a b c bs t.before t.after t.member in
      (up, record { before = pre; after = post; member = e; top = (first, (under, rest)) })

  choice_improves :
      Strict better → (a : Best D) (bs : List (Best D)) → Improved a bs (choice (some a) bs)
  unfolding choice Improved
  choice_improves strict a [] =
      (inl refl, record { before = []; after = []; member = refl; top = (strict.irrefl a, tt) })
  choice_improves strict a (c ∷ bs) = elim (Bool-cases (better c a)) [
    | inl h ↦ rw h (improve strict a c bs (choice (some c) bs) h (choice_improves strict c bs))
    | inr h ↦ rw h (stay strict a c bs (choice (some a) bs) h (choice_improves strict a bs))
  ]

  choice-IsKept : Strict better → (bs : List (Best D)) → IsKept bs (choice none bs)
  unfolding choice
  choice-IsKept strict [] = refl
  choice-IsKept strict (a ∷ bs) = kept a bs (choice (some a) bs) (choice_improves strict a bs)
    where
      kept :
          (a : Best D) (bs : List (Best D)) (r : Option (Best D))
          → Improved a bs r
          → IsKept (a ∷ bs) r
      kept a bs r h = Improved-IsKept a bs r h

  lookup-keep_better :
      (sku key : Bytes) (new : Best D) (best : List (Bytes × Best D))
      → lookup sku (keep_better better key new best)
        ≡ (if bytes_eq key sku then choose (lookup sku best) new else lookup sku best)
  unfolding keep_better
  lookup-keep_better sku key new best = elim (Option-cases (lookup key best)) [
    | inl q ↦
        ground
          (arith, q, lookup-insert key sku new best, bytes_eq_iff key sku, ap (λ k. lookup k best))
    | inr (old, q) ↦ ground (arith, q, lookup-insert key sku new best, bytes_eq_iff key sku)
  ]

  lookup-add_prices :
      (sku : Bytes) (records : List O) (best : List (Bytes × Best D))
      → lookup sku (add_prices candidate better records best)
        ≡ choice (lookup sku best) (prices_of sku records)
  unfolding add_prices prices_of choice
  lookup-add_prices sku [] best = refl
  lookup-add_prices sku (o ∷ records) best = elim (Option-cases (candidate o)) [
    | inl q ↦ rw (add_prices, prices_of, q) (lookup-add_prices sku records best)
    | inr ((key, new), q) ↦
        rw (add_prices, prices_of, q)
          (lookup-add_prices sku records (keep_better better key new best)
            ∙ (ap (λ z. choice z (prices_of sku records)) (lookup-keep_better sku key new best)
                ∙ took (bytes_eq key sku) new (lookup sku best) (prices_of sku records)))
  ]
    where
      took :
          (b : Bool) (new : Best D) (o : Option (Best D)) (bs : List (Best D))
          → choice (if b then choose o new else o) bs ≡ choice o (if b then new ∷ bs else bs)
      took true new o bs = refl
      took false new o bs = refl

  -- For every SKU the loop over the records keeps one of its prices than which none of its prices is
  -- better, and keeps nothing only for a SKU without prices, if the comparison is a strict order.
  pub add_prices_best :
      Strict better
      → (records : List O) (sku : Bytes)
      → IsKept (prices_of sku records) (lookup sku (add_prices candidate better records []))
  unfolding lookup
  add_prices_best strict records sku =
      subst (λ z. IsKept (prices_of sku records) z) (sym (lookup-add_prices sku records []))
        (choice-IsKept strict (prices_of sku records))
