-- ===== src/Ka2/Paging/Complete.antt =====
-- Paged reading is complete: against a server that answers every page of a table, the rows read are
-- the rows of the table.
use scand.Prelude.{
  ℕ, zero, suc, ◌+◌, ◌≤◌, ◌<◌, ◌≡◌, refl, ap, ◌∙◌, false, List, [], ◌∷◌, ◌++◌, append_assoc,
  append-nil, Bytes, some, ltb, length, take, drop, take-append-drop, drop-drop, length-take,
  length-drop, take_all, flat_map-append, flatten-cons, flat_map, flatten, All, Bool-cases, inl,
  inr, arith, tests,
}
use scand.Env.{Net, JsonLib, Result, ok}
use scand.Json.{objects}
use scand.Ka2.Chunks.{chunk_vector, chunk_vector_partition}
use scand.Ka2.Guids.{build_guid_filter}
use scand.Ka2.Page.{Ka2Inventory, page_request, attempts, read_page}
use scand.Ka2.Paging.{
  PagesEnd, complete, chunk_params, page_items, chunk_pages, chunks_loop, read_chunked,
}

pub objects-append :
    {J O D : Type 0} (lib : JsonLib J O D) (xs ys : List J)
    → objects lib (xs ++ ys) ≡ objects lib xs ++ objects lib ys
unfolding objects
objects-append lib [] ys = refl
objects-append lib (v ∷ xs) ys = ground (arith, objects-append lib xs ys)

module _ {W J O D : Type 0} (net : Net W) (lib : JsonLib J O D) (reader : Ka2Inventory)
    (path : Bytes) where
  -- Every query for a page of the table is answered at the first attempt by the rows from `skip` on,
  -- as many as fit, and nobody asks to stop.
  pub record ServesTable (params : List (Bytes × Bytes)) (table : List J) : Type 0 where
    pub running : (w : W) → (net.stopped w).0 ≡ false
    pub answered :
        (skip : ℕ) (w : W)
        → skip ≤ length table
        → (net.get
            (page_request reader path params skip reader.opts.page_size_flat 1)
            w).0.status_code
          ≡ 200
    pub rows :
        (skip : ℕ) (w : W)
        → skip ≤ length table
        → page_items net lib reader path
            (net.get (page_request reader path params skip reader.opts.page_size_flat 1) w).0.text
          ≡ ok (take reader.opts.page_size_flat (drop skip table))

  module _ (params : List (Bytes × Bytes)) (table : List J) (served : ServesTable params table)
      (retries : 0 < reader.opts.max_retries) (size : 0 < reader.opts.page_size_flat) where
    abbrev page_of : ℕ → List J
    page_of skip = take reader.opts.page_size_flat (drop skip table)

    attempts_served :
        (left skip : ℕ) (w : W)
        → 0 < left
        → skip ≤ length table
        → (text : Bytes) × (w' : W) × (attempts net reader path params skip
              reader.opts.page_size_flat left 1 w
            ≡ (ok text, w'))
          × (page_items net lib reader path text ≡ ok (page_of skip))
    unfolding attempts
    attempts_served zero skip w h k = absurd (omega arith)
    attempts_served (suc left) skip w h k =
        let (stop, w1) = net.stopped w in
        let q = page_request reader path params skip reader.opts.page_size_flat 1 in
        (
          (net.get q w1).0.text,
          (net.get q w1).1,
          rw (served.running w, served.answered skip w1 k) refl,
          served.rows skip w1 k,
        )

    -- The loop from a place in the table on adds all rows behind it.
    abbrev Finishes : ℕ → ℕ → List O → W → Type 0
    Finishes fuel skip found w =
        (w' : W) × (chunk_pages net lib reader path fuel params skip found w
          ≡ (complete (found ++ objects lib (drop skip table)), w'))

    length-page_of-lt :
        (skip : ℕ)
        → length (page_of skip) < reader.opts.page_size_flat
        → page_of skip ≡ drop skip table
    length-page_of-lt skip h =
        take_all _ _ (omega (arith, length-take reader.opts.page_size_flat (drop skip table)))

    page_joins :
        (skip : ℕ) (found : List O) (items : List J)
        → items ≡ page_of skip
        → reader.opts.page_size_flat ≤ length items
        → (found ++ objects lib items) ++ objects lib (drop (skip + length items) table)
          ≡ found ++ objects lib (drop skip table)
    page_joins skip found items same full =
        let P = reader.opts.page_size_flat in
        let all : length items ≡ P =
          omega (arith, ap length same, length-take P (drop skip table)) in
        rw (append_assoc found (objects lib items)) (
          ap (◌++◌ found) (
            rw (← objects-append lib items (drop (skip + length items) table)) (
              ap (objects lib)
                (cc (all, same, drop-drop P skip table, take-append-drop P (drop skip table))))))

    page_step :
        (fuel skip : ℕ) (found : List O) (w w2 : W) (text : Bytes) (items : List J)
        → ((skip' : ℕ) (found' : List O) (w' : W)
            → length table < fuel + skip'
            → skip' ≤ length table
            → Finishes fuel skip' found' w')
        → read_page net reader path params skip reader.opts.page_size_flat (net.stopped w).1
          ≡ (ok text, w2)
        → page_items net lib reader path text ≡ ok items
        → items ≡ page_of skip
        → length table < suc fuel + skip
        → skip ≤ length table
        → Finishes (suc fuel) skip found w
    unfolding chunk_pages objects
    page_step fuel skip found w w2 text [] ih read parsed same h k =
        let over = length-page_of-lt skip (omega (arith, ap length same)) in
        let moved = ap (λ (r : Result Bytes × W). r.1) read in
        (w2, rw (served.running w, read, parsed) (cc (same, over, append-nil found, moved)))
    page_step fuel skip found w w2 text (x ∷ xs) ih read parsed same h k =
        elim (Bool-cases (ltb (length (x ∷ xs)) reader.opts.page_size_flat)) [
          | inl short ↦
              let over = length-page_of-lt skip (omega (tests, ap length same)) in
              let moved = ap (λ (r : Result Bytes × W). r.1) read in
              (w2, rw (served.running w, read, parsed, short) (cc (same, over, moved)))
          | inr full ↦
              let n = length (x ∷ xs) in
              let moved = ap (λ (r : Result Bytes × W). r.1) read in
              let whole : reader.opts.page_size_flat ≤ n = ground arith in
              let (w', done) = ih (skip + n) (found ++ objects lib (x ∷ xs)) w2 (omega arith) (
                omega (
                  arith,
                  ap length same,
                  length-take reader.opts.page_size_flat (drop skip table),
                  length-drop skip table,
                )) in
              (
                w',
                rw (served.running w, read, parsed, full)
                    (rw moved (
                      done
                      ∙ ap (λ r. (complete r, w')) (page_joins skip found (x ∷ xs) same whole))),
              )
        ]

    chunk_pages_complete :
        (fuel skip : ℕ) (found : List O) (w : W)
        → length table < fuel + skip
        → skip ≤ length table
        → Finishes fuel skip found w
    unfolding read_page
    chunk_pages_complete zero skip found w h k = absurd (omega arith)
    chunk_pages_complete (suc fuel) skip found w h k =
        let (text, w2, read, parsed) =
          attempts_served reader.opts.max_retries skip (net.stopped w).1 retries k in
        page_step fuel skip found w w2 text (page_of skip)
          (λ skip' found' w' h' k'. chunk_pages_complete fuel skip' found' w' h' k') read parsed
          refl h k

-- A server with some rows under each key, which answers a filter by the rows of its keys.
module _ {W J O D : Type 0} (net : Net W) (lib : JsonLib J O D) (reader : Ka2Inventory)
    (path filter_field select_fields : Bytes) (row : Bytes → List J) where
  -- The server answers for the keys of a chunk, and the fuel is enough for its rows.
  pub record ServesChunk (fuel : ℕ) (chunk : List Bytes) : Type 0 where
    pub served :
        ServesTable net lib reader path
          (chunk_params (build_guid_filter filter_field chunk) select_fields)
          (flat_map row chunk)
    pub enough : length (flat_map row chunk) < fuel

module _ {W J O D : Type 0} (net : Net W) (lib : JsonLib J O D) (reader : Ka2Inventory)
    (path filter_field select_fields : Bytes) (row : Bytes → List J)
    (retries : 0 < reader.opts.max_retries) (size : 0 < reader.opts.page_size_flat) where
  chunk_joins :
      (c : List Bytes) (chunks : List (List Bytes)) (found : List O)
      → (found ++ objects lib (flat_map row c)) ++ objects lib (flat_map row (flatten chunks))
        ≡ found ++ objects lib (flat_map row (flatten (c ∷ chunks)))
  chunk_joins c chunks found =
      rw
        (
          flatten-cons c chunks,
          flat_map-append row c (flatten chunks),
          objects-append lib (flat_map row c) (flat_map row (flatten chunks)),
        )
        (append_assoc found (objects lib (flat_map row c))
          (objects lib (flat_map row (flatten chunks))))

  chunks_loop_complete :
      (fuel : ℕ) (chunks : List (List Bytes)) (found : List O) (w : W)
      → All (ServesChunk net lib reader path filter_field select_fields row fuel) chunks
      → (w' : W) × (chunks_loop net lib reader path fuel filter_field select_fields chunks found w
          ≡ some (ok (found ++ objects lib (flat_map row (flatten chunks))), w'))
  unfolding chunks_loop
  chunks_loop_complete fuel [] found w h =
      (w, unfold objects flat_map flatten in cc (append-nil found))
  chunks_loop_complete fuel (c ∷ chunks) found w (s, h) =
      let params = chunk_params (build_guid_filter filter_field c) select_fields in
      let (w2, pages) =
        chunk_pages_complete net lib reader path params (flat_map row c) s.served retries size fuel
          0 found (net.stopped w).1 (omega (arith, s.enough)) (omega arith) in
      let (w', rest) =
        chunks_loop_complete fuel chunks (found ++ objects lib (flat_map row c)) w2 h in
      let moved = ap (λ (r : PagesEnd O × W). r.1) pages in
      (
        w',
        rw (s.served.running w, pages)
            (rw moved (rest ∙ ap (λ r. some (ok r, w')) (chunk_joins c chunks found))),
      )

  -- If the server answers every page of every chunk of the given keys by the rows of its keys, with
  -- fuel above their number, reading in chunks returns exactly the objects among the rows of the keys,
  -- key by key in the given order.
  pub read_chunked_complete :
      (fuel : ℕ) (values : List Bytes) (w : W)
      → All
          (ServesChunk net lib reader path filter_field select_fields row fuel)
          (chunk_vector values reader.opts.chunk_size)
      → (w' : W) × (read_chunked net lib reader path fuel filter_field values select_fields w
          ≡ some (ok (objects lib (flat_map row values)), w'))
  unfolding read_chunked
  read_chunked_complete fuel [] w h = (w, unfold objects flat_map in refl)
  read_chunked_complete fuel (v ∷ values) w h =
      let (w', read) =
        chunks_loop_complete fuel (chunk_vector (v ∷ values) reader.opts.chunk_size) [] w h in
      let whole = (chunk_vector_partition (v ∷ values) reader.opts.chunk_size).0 in
      (w', read ∙ ap (λ vs. some (ok (objects lib (flat_map row vs)), w')) whole)
