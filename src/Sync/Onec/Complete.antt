-- ===== src/Sync/Onec/Complete.antt =====
-- The old 1C run takes over a whole table.
use scand.Prelude.{
  ℕ, zero, suc, ◌+◌, ◌*◌, ◌≤◌, ◌<◌, ◌≡◌, refl, ap, ◌∙◌, sym, false, List, [], ◌∷◌, ◌++◌,
  append_assoc, append-nil, arith, tests, Bytes, codes, Option, none, some, ltb, length, take, drop,
  drop-drop, take-append-drop, length-take, length-append, length-drop, take_all, Bool-cases, inl,
  inr,
}
use scand.Sync.State.{
  Product1C, SyncCheckpoint, Event, onec_upserted, Outside, Percents, Options, Service,
}
use scand.Sync.Run.{checkpoint_of}
use scand.Sync.Onec.{
  after_onec_page, keep_onec_page, onec_turn, onec_pages, full_sync_end, run_full_sync,
}

-- All products that went to the database, the first ones first.
abbrev pub delivered : {D : Type 0} → List (Event D) → List (Product1C D)
delivered [] = []
delivered (onec_upserted ps ∷ log) = delivered log ++ ps
delivered (_ ∷ log) = delivered log

module _ {D W : Type 0} (out : Outside D W) (num : Percents D) (opts : Options)
    (table : List (Product1C D)) where
  abbrev pub page_rows : ℕ → List (Product1C D)
  page_rows before = take opts.onec_page_size (drop (before * opts.onec_page_size) table)

  -- Every page of the table is answered by its rows.
  pub record ServesPages : Type 0 where
    pub rows :
        (before : ℕ) (w : W)
        → before * opts.onec_page_size ≤ length table
        → (out.fetch_page (suc before) w).0 ≡ page_rows before

  abbrev Delivers : ℕ → ℕ → Service D W → Option (SyncCheckpoint × Service D W) → Type 0
  Delivers before total s none = ⊥
  Delivers before total s (some (cp, s2)) =
      (delivered s2.log ≡ delivered s.log ++ drop (before * opts.onec_page_size) table)
      × (cp.total_synced ≡ total + length (drop (before * opts.onec_page_size) table))

  page_rows_short :
      (before : ℕ)
      → length (page_rows before) < opts.onec_page_size
      → page_rows before ≡ drop (before * opts.onec_page_size) table
  page_rows_short before h =
      take_all _ _
        (omega (arith, length-take opts.onec_page_size (drop (before * opts.onec_page_size) table)))

  next_page :
      (before : ℕ)
      → suc before * opts.onec_page_size ≡ before * opts.onec_page_size + opts.onec_page_size
  next_page before = omega arith

  page_rows_full :
      (before : ℕ) (rows : List (Product1C D))
      → 0 < opts.onec_page_size
      → rows ≡ page_rows before
      → opts.onec_page_size ≤ length rows
      → (suc before * opts.onec_page_size ≤ length table)
        × (rows ++ drop (suc before * opts.onec_page_size) table
            ≡ drop (before * opts.onec_page_size) table)
  page_rows_full before rows size same full =
      let P = opts.onec_page_size in
      let next = next_page before in
      let measured : suc before * P ≤ length table = omega (
        arith,
        ap length same,
        length-take P (drop (before * P) table),
        length-drop (before * P) table,
        next_page before,
      ) in
      (
        measured,
        rw (next, ← drop-drop P (before * P) table, same)
            (take-append-drop P (drop (before * P) table)),
      )

  Delivers-back :
      (before total : ℕ) (rows : List (Product1C D)) (s s2 : Service D W)
      (r : Option (SyncCheckpoint × Service D W))
      → delivered s2.log ≡ delivered s.log ++ rows
      → rows ++ drop (suc before * opts.onec_page_size) table
        ≡ drop (before * opts.onec_page_size) table
      → Delivers (suc before) (total + length rows) s2 r
      → Delivers before total s r
  Delivers-back before total rows s s2 none a b h = h
  Delivers-back before total rows s s2 (some (cp, s3)) a b (h, k) =
      let left = drop (suc before * opts.onec_page_size) table in
      (
        h
            ∙ ap (λ r. r ++ left) a
            ∙ append_assoc (delivered s.log) rows left
            ∙ ap (◌++◌ (delivered s.log)) b,
        omega (arith, k, ap length b, length-append rows left),
      )

  page_step :
      (before total : ℕ) (products : List (Product1C D)) (cp : SyncCheckpoint) (s : Service D W)
      (rest : ℕ → SyncCheckpoint → Service D W → Option (SyncCheckpoint × Service D W))
      → 0 < opts.onec_page_size
      → cp.total_synced ≡ total
      → products ≡ page_rows before
      → ((total2 : ℕ) (cp2 : SyncCheckpoint) (s2 : Service D W)
          → cp2.total_synced ≡ total2
          → suc before * opts.onec_page_size ≤ length table
          → Delivers (suc before) total2 s2 (rest total2 cp2 s2))
      → Delivers before total s (onec_turn out num opts rest (suc before) total cp s products)
  unfolding onec_turn keep_onec_page after_onec_page
  page_step before total [] cp s rest size count same ih =
      let over = page_rows_short before (omega (arith, ap length same)) in
      let none_left : drop (before * opts.onec_page_size) table ≡ [] = sym over ∙ sym same in
      rw none_left (sym (append-nil (delivered s.log)), omega arith)
  page_step before total (x ∷ xs) cp s rest size count same ih =
      let sum = total + length (x ∷ xs) in
      let cp2 = after_onec_page out num opts (suc before) sum cp in
      let s2 = keep_onec_page out num opts (suc before) sum (x ∷ xs) cp s in
      elim (Bool-cases (ltb (length (x ∷ xs)) opts.onec_page_size)) [
        | inl short ↦
            let rows = same ∙ page_rows_short before (omega (tests, ap length same)) in
            rw short (ap (λ r. delivered s.log ++ r) rows, ap (λ r. total + length r) rows)
        | inr full ↦
            let (inside2, joined) = page_rows_full before (x ∷ xs) size same (ground arith) in
            rw full (
              Delivers-back before total (x ∷ xs) s s2 (rest sum cp2 s2) refl joined
                (ih sum cp2 s2 refl inside2))
      ]

  pages_complete :
      (fuel before total : ℕ) (cp : SyncCheckpoint) (s : Service D W)
      → 0 < opts.onec_page_size
      → ServesPages
      → cp.total_synced ≡ total
      → before * opts.onec_page_size ≤ length table
      → length table < fuel + before * opts.onec_page_size
      → Delivers before total s (onec_pages out num opts fuel (suc before) total cp s)
  unfolding onec_pages
  pages_complete zero before total cp s size served count inside enough = absurd (omega arith)
  pages_complete (suc fuel) before total cp s size served count inside enough =
      let (products, w) = out.fetch_page (suc before) s.world in
      page_step before total products cp (record s { world = w })
        (λ sum cp2 s2. onec_pages out num opts fuel (suc (suc before)) sum cp2 s2) size count
        (served.rows before s.world inside)
        (λ total2 cp2 s2 count2 inside2.
          pages_complete fuel (suc before) total2 cp2 s2 size served count2 inside2
            (omega (arith, next_page before)))

  -- The run has ended, and has delivered these products.
  abbrev pub EndsDelivered : Service D W → List (Product1C D) → Option (Service D W) → Type 0
  EndsDelivered s products none = ⊥
  EndsDelivered s products (some s2) =
      (delivered s2.log ≡ delivered s.log ++ products) × (s2.running ≡ false)

  checkpoint_of-delivered :
      (source : Bytes) (s : Service D W)
      → delivered (checkpoint_of out num opts source s).1.log ≡ delivered s.log
  unfolding checkpoint_of
  checkpoint_of-delivered source s = ground arith

  finish :
      (before total : ℕ) (s s1 : Service D W) (r : Option (SyncCheckpoint × Service D W))
      → delivered s1.log ≡ delivered s.log
      → Delivers before total s1 r
      → EndsDelivered s (drop (before * opts.onec_page_size) table) (full_sync_end out num opts r)
  unfolding full_sync_end
  finish before total s s1 none same h = h
  finish before total s s1 (some (cp, s2)) same (h, k) =
      (h ∙ ap (λ r. r ++ drop (before * opts.onec_page_size) table) same, refl)

  -- If the 1C service answers each page of a table by its rows, a run of the old mode with fuel above
  -- their number ends, has taken down its flag, and has given the database exactly the rows behind
  -- the pages that its checkpoint counts, in their order.
  pub run_full_sync_complete :
      (fuel : ℕ) (s : Service D W)
      → 0 < opts.onec_page_size
      → ServesPages
      → (checkpoint_of out num opts (codes "onec") s).0.last_page * opts.onec_page_size
        ≤ length table
      → length table < fuel
      → EndsDelivered s
          (drop
            ((checkpoint_of out num opts (codes "onec") s).0.last_page * opts.onec_page_size)
            table)
          (run_full_sync out num opts fuel s)
  unfolding run_full_sync
  run_full_sync_complete fuel s size served inside enough =
      let (cp, s1) = checkpoint_of out num opts (codes "onec") s in
      finish cp.last_page cp.total_synced s s1
        (onec_pages out num opts fuel (suc cp.last_page) cp.total_synced cp s1)
        (checkpoint_of-delivered (codes "onec") s)
        (pages_complete fuel cp.last_page cp.total_synced cp s1 size served refl inside
          (omega arith))
