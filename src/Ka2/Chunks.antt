-- ===== src/Ka2/Chunks.antt =====
-- `Ka2Inventory::chunk_vector` of onec_ka2_inventory.cpp: the cut of a key list into requests.
use scand.Prelude.{
  ℕ, zero, suc, ◌+◌, ◌-◌, ◌≤◌, ◌<◌, min, ◌≡◌, refl, List, [], ◌∷◌, ◌++◌, arith, ltb, ◌==◌,
  if◌then◌else◌, length, take, drop, take-append-drop, length-take, length-drop, drop_all,
  Bool-cases, inl, inr, tests, ◌⊎◌, drop-drop, take_clip, flatten,
}

-- The chunk size in use: 0 stands for 40.
abbrev pub effective_size : ℕ → ℕ
effective_size chunk_size = if chunk_size == 0 then 40 else chunk_size

module _ {A : Type 0} where
  -- `vector(values.begin() + i, values.begin() + end)`.
  abbrev pub slice : List A → ℕ → ℕ → List A
  slice values i end = take (end - i) (drop i values)

  -- The `for` loop from index `i`.
  chunk_loop : ℕ → List A → ℕ → ℕ → List (List A)
  chunk_loop zero values chunk_size i = []
  chunk_loop (suc fuel) values chunk_size i =
      let rest =
        slice values i (min (i + chunk_size) (length values))
        ∷ chunk_loop fuel values chunk_size (i + chunk_size) in
      if ltb i (length values) then rest else []

  -- One round for each element is enough: a round takes at least one.
  unfoldable pub chunk_vector : List A → ℕ → List (List A)
  unfolding chunk_loop
  chunk_vector values chunk_size = chunk_loop (length values) values (effective_size chunk_size) 0

  slice-append :
      (values : List A) (n i : ℕ)
      → slice values i (min (i + n) (length values)) ++ drop (i + n) values ≡ drop i values
  slice-append values n i = ground (
    arith,
    take-append-drop n (drop i values),
    drop-drop n i values,
    take_clip n (drop i values),
    length-drop i values,
  )

  length-slice :
      (values : List A) (n i : ℕ)
      → length (slice values i (min (i + n) (length values))) ≡ min n (length values - i)
  length-slice values n i =
      omega
        (arith, length-take (min (i + n) (length values) - i) (drop i values), length-drop i values)

  flatten-chunk_loop :
      (fuel : ℕ) (values : List A) (n i : ℕ)
      → length values ≤ fuel + i
      → 0 < n
      → flatten (chunk_loop fuel values n i) ≡ drop i values
  unfolding chunk_loop flatten
  flatten-chunk_loop zero values n i h p = ground (arith, drop_all i values)
  flatten-chunk_loop (suc fuel) values n i h p =
      ground (
        arith,
        flatten-chunk_loop fuel values n (i + n),
        slice-append values n i,
        drop_all i values,
      )

  -- Every chunk but the last has exactly `n` elements; the last has at least one and at most `n`.
  abbrev pub IsCut : ℕ → List (List A) → Type 0
  IsCut n [] = Unit
  IsCut n (c ∷ []) = (0 < length c) × (length c ≤ n)
  IsCut n (c ∷ d ∷ cs) = (length c ≡ n) × IsCut n (d ∷ cs)

  IsCut-cons :
      (n : ℕ) (c : List A) (cs : List (List A))
      → IsCut n cs
      → 0 < length c
      → length c ≤ n
      → (cs ≡ []) ⊎ (length c ≡ n)
      → IsCut n (c ∷ cs)
  IsCut-cons n c [] h p q k = (p, q)
  IsCut-cons n c (d ∷ cs) h p q (inl k) = cc
  IsCut-cons n c (d ∷ cs) h p q (inr k) = (k, h)

  chunk_loop_end :
      (fuel : ℕ) (values : List A) (n i : ℕ)
      → (chunk_loop fuel values n i ≡ []) ⊎ (i < length values)
  unfolding chunk_loop
  chunk_loop_end zero values n i = inl refl
  chunk_loop_end (suc fuel) values n i = ground arith

  chunk_loop-IsCut :
      (fuel : ℕ) (values : List A) (n i : ℕ)
      → length values ≤ fuel + i
      → 0 < n
      → IsCut n (chunk_loop fuel values n i)
  unfolding chunk_loop
  chunk_loop-IsCut zero values n i h p = tt
  chunk_loop-IsCut (suc fuel) values n i h p = elim (Bool-cases (ltb i (length values))) [
    | inr over ↦ rw over tt
    | inl more ↦ rw more (
        IsCut-cons n _ (chunk_loop fuel values n (i + n))
          (chunk_loop-IsCut fuel values n (i + n) (omega arith) p)
          (omega (tests, length-slice values n i)) (omega (tests, length-slice values n i))
          (ground (arith, chunk_loop_end fuel values n (i + n), length-slice values n i)))
  ]

  -- The chunks in order are the values, none lost, repeated or moved; every chunk but the last has
  -- exactly the chunk size (40 for the size 0), and the last is not empty and not longer.
  pub chunk_vector_partition :
      (values : List A) (chunk_size : ℕ)
      → (flatten (chunk_vector values chunk_size) ≡ values)
        × IsCut (effective_size chunk_size) (chunk_vector values chunk_size)
  unfolding chunk_vector
  chunk_vector_partition values chunk_size =
      let p : 0 < effective_size chunk_size = ground arith in
      (
        flatten-chunk_loop (length values) values (effective_size chunk_size) 0 (omega arith) p,
        chunk_loop-IsCut (length values) values (effective_size chunk_size) 0 (omega arith) p,
      )
