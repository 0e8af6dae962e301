-- ===== src/Catalog/Read/Bounds.antt =====
-- How much of a catalogue the loop over the pages reads, and that it ends.
use scand.Prelude.{
  ℕ, zero, suc, ◌+◌, ◌*◌, ◌-◌, ◌≤◌, ◌<◌, ◌≡◌, refl, ap, sym, subst, subst₂, ◌∙◌, ◌⊎◌, min, lt→ltb,
  Bool, Option, some, List, [], ◌∷◌, ◌++◌, append-nil, append_assoc, arith, Bytes, ltb, leb,
  if◌then◌else◌, length, take, drop, take_all, drop-drop, length-take, length-drop, inl, inr,
}
use scand.Env.{Net, JsonLib}
use scand.Catalog.Read.{
  Connection, too_many_rows, Answer, got, failed, catalog_request, page_of, page_rows, turn,
  read_loop, limited, read_all_rows,
}

take_nil : {A : Type 0} (n : ℕ) → take {A = A} n [] ≡ []
take_nil zero = refl
take_nil (suc n) = refl

take-add : {A : Type 0} (n m : ℕ) (xs : List A) → take (n + m) xs ≡ take n xs ++ take m (drop n xs)
take-add zero m xs = ground arith
take-add (suc n) zero [] = ground arith
take-add (suc n) (suc m) [] = rw (take_nil (suc n + suc m)) refl
take-add (suc n) m (x ∷ xs) =
    let e : suc n + m ≡ suc (n + m) = omega arith in rw e (cc (take-add n m xs))

≤_or_< : (n m : ℕ) → (n ≤ m) ⊎ (m < n)
≤_or_< n m = ground arith

times_suc : (p t : ℕ) → p * suc t ≡ p + p * t
times_suc p t = omega arith

le_times : (p t : ℕ) → 0 < p → t ≤ p * t
le_times p zero h = omega arith
le_times p (suc t) h = omega (arith, le_times p t h, times_suc p t)

module _ {J O D : Type 0} (lib : JsonLib J O D) where
  pub page_rows-append :
      (xs ys : List J) → page_rows lib (xs ++ ys) ≡ page_rows lib xs ++ page_rows lib ys
  unfolding page_rows
  page_rows-append [] ys = refl
  page_rows-append (x ∷ xs) ys = ground (arith, page_rows-append xs ys)

  pub page_rows_nil : page_rows lib [] ≡ []
  unfolding page_rows
  page_rows_nil = refl

module _ {W J O D : Type 0} (net : Net W) (lib : JsonLib J O D) where
  module _ (c : Connection) (page_size : ℕ) where
    -- The other side serves the items of the table in pages.
    abbrev pub ServesTable : List J → Type 0
    ServesTable table =
        (offset : ℕ)
        → offset ≤ length table
        → (w : W)
        → page_of lib (net.get (catalog_request c page_size offset) w).0
          ≡ got (take page_size (drop offset table))

    module _ (max_rows : ℕ) where
      -- The loop has ended with these rows, at the limit just if the table goes that far.
      abbrev Ended :
          List J → List (List Bytes) → Option (Answer (ℕ × List (List Bytes)) × W) → Type 0
      Ended table all result =
          (off : ℕ) × (w : W) × (result ≡ some (got (off, all), w))
          × ((length table < max_rows) → off < max_rows)
          × ((max_rows ≤ length table) → max_rows ≤ off)

      turn_full :
          (rest : ℕ → List (List Bytes) → W → Option (Answer (ℕ × List (List Bytes)) × W))
          (offset : ℕ) (all : List (List Bytes)) (arr : List J) (w : W)
          → 0 < page_size
          → length arr ≡ page_size
          → turn net lib c page_size max_rows rest offset all (got arr) w
            ≡ rest (offset + page_size) (all ++ page_rows lib arr) w
      unfolding turn
      turn_full rest offset all [] w pos h = absurd (omega (arith, h))
      turn_full rest offset all (x ∷ arr) w pos h =
          let full : ltb (length (x ∷ arr)) page_size ≡ Bool.false = ground (arith, h) in
          rw (full, h) refl

      turn_short :
          (rest : ℕ → List (List Bytes) → W → Option (Answer (ℕ × List (List Bytes)) × W))
          (offset : ℕ) (all : List (List Bytes)) (arr : List J) (w : W)
          → length arr < page_size
          → turn net lib c page_size max_rows rest offset all (got arr) w
            ≡ some (got (offset, all ++ page_rows lib arr), w)
      unfolding turn
      turn_short rest offset all [] w h = rw (page_rows_nil lib, append-nil all) refl
      turn_short rest offset all (x ∷ arr) w h =
          let short : ltb (length (x ∷ arr)) page_size ≡ Bool.true = ground (arith, h) in
          rw short refl

      turn_served :
          (table : List J)
          (rest : ℕ → List (List Bytes) → W → Option (Answer (ℕ × List (List Bytes)) × W))
          → (n offset : ℕ) (all : List (List Bytes)) (w : W) → 0 < page_size
          → max_rows ≡ offset + (page_size + n)
          → offset ≤ length table
          → ((all : List (List Bytes))
              → offset + page_size ≤ length table
              → Ended table
                  (all ++ page_rows lib (take n (drop (offset + page_size) table)))
                  (rest (offset + page_size) all w))
          → Ended table (all ++ page_rows lib (take (page_size + n) (drop offset table))) (
              turn net lib c page_size max_rows rest offset all
                (got (take page_size (drop offset table)))
                w)
      turn_served table rest n offset all w pos e l ih =
          let xs = drop offset table in
          let measured : length (take page_size xs) ≡ min page_size (length table - offset) =
            length-take page_size xs ∙ ap (min page_size) (length-drop offset table) in
          elim (≤_or_< (offset + page_size) (length table)) [
            | inl full ↦
                let parts : take (page_size + n) xs
                    ≡ take page_size xs ++ take n (drop (offset + page_size) table) =
                  take-add page_size n xs
                  ∙ ap (λ z. take page_size xs ++ take n z) (drop-drop page_size offset table) in
                let rows : (all ++ page_rows lib (take page_size xs))
                      ++ page_rows lib (take n (drop (offset + page_size) table))
                    ≡ all ++ page_rows lib (take (page_size + n) xs) =
                  append_assoc all (page_rows lib (take page_size xs))
                    (page_rows lib (take n (drop (offset + page_size) table)))
                  ∙ ap (all ++◌) (
                      sym (
                        page_rows-append lib (take page_size xs)
                          (take n (drop (offset + page_size) table)))
                      ∙ ap (page_rows lib) (sym parts)) in
                subst₂ (λ z r. Ended table z r) rows
                  (sym
                    (turn_full rest offset all (take page_size xs) w pos (omega (arith, measured))))
                  (ih (all ++ page_rows lib (take page_size xs)) full)
            | inr short ↦
                let cut : length xs ≡ length table - offset = length-drop offset table in
                let one : take page_size xs ≡ xs = take_all page_size xs (omega (arith, cut)) in
                let two : take (page_size + n) xs ≡ xs =
                  take_all (page_size + n) xs (omega (arith, cut)) in
                (
                  offset,
                  w,
                  turn_short rest offset all (take page_size xs) w (omega (arith, measured))
                      ∙ ap (λ z. some (got (offset, all ++ page_rows lib z), w)) (one ∙ sym two),
                  (λ s. omega arith),
                  (λ s. absurd (omega arith)),
                )
          ]

      read_loop_served :
          (table : List J)
          → ServesTable table
          → 0 < page_size
          → (fuel turns offset : ℕ) (all : List (List Bytes)) (w : W) → turns < fuel
          → max_rows ≡ offset + page_size * turns
          → offset ≤ length table
          → Ended table
              (all ++ page_rows lib (take (page_size * turns) (drop offset table)))
              (read_loop net lib c page_size max_rows fuel offset all w)
      unfolding read_loop
      read_loop_served table serves pos zero turns offset all w h e l = absurd (omega arith)
      read_loop_served table serves pos (suc fuel) zero offset all w h e l =
          let over : ltb offset max_rows ≡ Bool.false = ground arith in
          let none_left : page_size * 0 ≡ 0 = omega arith in
          rw (over, none_left)
            (
              offset,
              w,
              rw (page_rows_nil lib) (ap (λ z. some (got (offset, z), w)) (sym (append-nil all))),
              (λ s. absurd (omega arith)),
              (λ s. omega arith),
            )
      read_loop_served table serves pos (suc fuel) (suc turns) offset all w h e l =
          let step = times_suc page_size turns in
          let more : ltb offset max_rows ≡ Bool.true =
            lt→ltb offset max_rows (omega (arith, step)) in
          rw (more, serves offset l w, step)
            (turn_served table (read_loop net lib c page_size max_rows fuel) (page_size * turns)
              offset all (net.get (catalog_request c page_size offset) w).1 pos
              (e ∙ ap (offset +◌) step) l
              (λ all2 l2.
                read_loop_served table serves pos fuel turns (offset + page_size) all2
                  (net.get (catalog_request c page_size offset) w).1 (omega arith)
                  (e ∙ omega (arith, step)) l2))

      -- What is left when the loop over a served table ends.
      pub read_loop_lem :
          (table : List J) (turns : ℕ) (w : W)
          → ServesTable table
          → 0 < page_size
          → max_rows ≡ page_size * turns
          → (off : ℕ) × (w2 : W) × (read_loop net lib c page_size max_rows (suc max_rows) 0 [] w
              ≡ some (got (off, page_rows lib (take max_rows table)), w2))
            × ((length table < max_rows) → off < max_rows)
            × ((max_rows ≤ length table) → max_rows ≤ off)
      read_loop_lem table turns w serves pos e =
          subst
            (λ z.
              Ended table (page_rows lib (take z table))
                (read_loop net lib c page_size max_rows (suc max_rows) 0 [] w))
            (sym e)
            (read_loop_served table serves pos (suc max_rows) turns 0 [] w
              (omega (arith, le_times page_size turns pos, e)) (omega (arith, e)) (omega arith))

      -- If a table is served in pages of a size that divides the limit, then reading it ends, with all
      -- its items but the marked ones if it is shorter than the limit, and with the error on its
      -- size otherwise.
      pub read_all_rows_bounds :
          (table : List J) (turns : ℕ) (w : W)
          → ServesTable table
          → 0 < page_size
          → max_rows ≡ page_size * turns
          → (w2 : W) × (read_all_rows net lib c page_size max_rows w
              ≡ some (
                if ltb (length table) max_rows
                    then got (page_rows lib table)
                    else failed too_many_rows,
                w2,
              ))
      unfolding read_all_rows limited
      read_all_rows_bounds table turns w serves pos e =
          let (off, w2, q, below, above) = read_loop_lem table turns w serves pos e in
          (
            w2,
            rw (read_all_rows, q)
                (ap (λ z. some (z, w2)) (split (≤_or_< max_rows (length table)) off below above)),
          )
        where
          split :
              (max_rows ≤ length table) ⊎ (length table < max_rows)
              → (off : ℕ) → ((length table < max_rows) → off < max_rows)
              → ((max_rows ≤ length table) → max_rows ≤ off)
              → (if leb max_rows off
                  then failed too_many_rows
                  else got (page_rows lib (take max_rows table)))
                ≡ (if ltb (length table) max_rows
                    then got (page_rows lib table)
                    else failed too_many_rows)
          split (inl h) off below above = ground (arith, above h)
          split (inr h) off below above =
              rw (take_all max_rows table (omega arith)) (ground (arith, below h))
