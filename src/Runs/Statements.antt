-- ===== src/Runs/Statements.antt =====
-- The SQL statements that the two repositories share, on the list of a table's rows.
use scand.Prelude.{
  ◌≡◌, refl, Bool, false, Option, none, some, List, [], ◌∷◌, ◌++◌, Bytes, arith, keep,
  if◌then◌else◌,
}

-- UPDATE ... SET ... WHERE.
abbrev pub update_where : {A : Type 0} → (A → Bool) → (A → A) → List A → List A
update_where p f [] = []
update_where p f (r ∷ rows) = (if p r then f r else r) ∷ update_where p f rows

-- COALESCE(NULLIF(column, ''), text).
abbrev pub or_text : Option Bytes → Bytes → Bytes
or_text none text = text
or_text (some []) text = text
or_text (some (c ∷ s)) text = c ∷ s

-- ORDER BY ... LIMIT 1: the row that no other goes before, the first such.
abbrev pub first_by : {A : Type 0} → (A → A → Bool) → List A → Option A
first_by before [] = none
first_by before (r ∷ rows) = elim (first_by before rows) [
  | none ↦ some r
  | some s ↦ some (if before s r then s else r)
]

pub keep-append :
    {A : Type 0} (p : A → Bool) (xs ys : List A) → keep p (xs ++ ys) ≡ keep p xs ++ keep p ys
keep-append p [] ys = refl
keep-append p (x ∷ xs) ys = ground (arith, keep-append p xs ys)

pub update_where-append :
    {A : Type 0} (p : A → Bool) (f : A → A) (xs ys : List A)
    → update_where p f (xs ++ ys) ≡ update_where p f xs ++ update_where p f ys
update_where-append p f [] ys = refl
update_where-append p f (x ∷ xs) ys = cc (update_where-append p f xs ys)

-- An update after which its condition fails leaves no row where it holds.
pub update_where_leaves :
    {A : Type 0} (p : A → Bool) (f : A → A) (rows : List A)
    → ((r : A) → p (f r) ≡ false)
    → keep p (update_where p f rows) ≡ []
update_where_leaves p f [] h = refl
update_where_leaves p f (r ∷ rows) h = ground (arith, h r, update_where_leaves p f rows h)
