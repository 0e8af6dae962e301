-- ===== src/Prelude/MapPerms.antt =====
-- The entries of a map whose keys are all different.
use mathlib.Core.Path.{◌≡◌, refl}
use mathlib.Core.Bool.{Bool, true, false, not}
use mathlib.Core.Logic.{inl, inr}
use mathlib.Core.List.{List, [], ◌∷◌, Perm}
use mathlib.Core.List.Perm
use native.Mathlib.Omega.{arith}
use scand.Prelude.Conditions.{Bool-cases}
use scand.Prelude.Lists.{any, keep}
use scand.Prelude.Texts.{Bytes, bytes_eq, bytes_eq_iff}
use scand.Prelude.Maps.{insert}

module _ {ℓ} {V : Type ℓ} where
  -- The entry has that key.
  abbrev pub has_key : Bytes → Bytes × V → Bool
  has_key k e = bytes_eq k (e.0)

  abbrev pub DistinctKeys : List (Bytes × V) → Type 0
  DistinctKeys [] = Unit
  DistinctKeys (e ∷ m) = (any (has_key (e.0)) m ≡ false) × DistinctKeys m

  -- The entries under other keys.
  abbrev pub others : Bytes → List (Bytes × V) → List (Bytes × V)
  others k m = keep (λ e. not (has_key k e)) m

  others_all : (k : Bytes) (m : List (Bytes × V)) → any (has_key k) m ≡ false → others k m ≡ m
  others_all k [] h = refl
  others_all k ((j, w) ∷ m) h = ground (arith, others_all k m)

  pub insert_perm :
      (k : Bytes) (v : V) (m : List (Bytes × V))
      → DistinctKeys m
      → Perm (insert k v m) ((k, v) ∷ others k m)
  unfolding insert
  insert_perm k v [] d = Perm.refl ((k, v) ∷ [])
  insert_perm k v ((j, w) ∷ m) (n, d) = elim (Bool-cases (bytes_eq j k)) [
    | inl q ↦
        let e : bytes_eq k j ≡ true = ground (arith, bytes_eq_iff j k, bytes_eq_iff k j) in
        let same : others k m ≡ m = others_all k m (ground (arith, bytes_eq_iff j k)) in
        rw (q, e, same) (Perm.refl ((k, v) ∷ m))
    | inr q ↦
        let e : bytes_eq k j ≡ false = ground (arith, bytes_eq_iff j k, bytes_eq_iff k j) in
        rw (q, e)
          (Perm.trans (Perm.cons (j, w) (insert_perm k v m d))
            (Perm.swap (k, v) (j, w) (others k m)))
  ]

  any-insert :
      (k j : Bytes) (v : V) (m : List (Bytes × V))
      → bytes_eq j k ≡ false
      → any (has_key j) m ≡ false
      → any (has_key j) (insert k v m) ≡ false
  unfolding insert
  any-insert k j v [] h n = ground arith
  any-insert k j v ((i, w) ∷ m) h n = ground (arith, any-insert k j v m)

  pub insert-DistinctKeys :
      (k : Bytes) (v : V) (m : List (Bytes × V)) → DistinctKeys m → DistinctKeys (insert k v m)
  unfolding insert
  insert-DistinctKeys k v [] d = (refl, tt)
  insert-DistinctKeys k v ((j, w) ∷ m) (n, d) = elim (Bool-cases (bytes_eq j k)) [
    | inl q ↦ rw q (ground (arith, bytes_eq_iff j k), d)
    | inr q ↦ rw q (any-insert k j v m q n, insert-DistinctKeys k v m d)
  ]
