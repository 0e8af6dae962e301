-- ===== src/Ka2/Balance.antt =====
-- `process_chunk` of `read_balance_chunked` in onec_ka2_inventory.cpp: a register query whose filter
-- is split in halves when the server finds the address too long.
use scand.Prelude.{
  ℕ, zero, suc, ◌/◌, ◌≤◌, ◌<◌, ◌≡◌, refl, ◌∙◌, ap, sym, true, false, ◌&&◌, List, [], ◌∷◌, ◌++◌,
  Bytes, codes, none, some, ltb, ◌==◌, length, if◌then◌else◌, take, drop, flat_map, flat_map-append,
  take-append-drop, take_all, length-take, length-drop, arith, tests, Bool-cases, inl, inr,
}
use scand.Env.{Net, Request, JsonLib, http_error, stopped_by_user, invalid_json, Result, ok, err}
use scand.Json.{extract_value, objects}
use scand.Ka2.Guids.{build_guid_filter, escape_odata_string}
use scand.Ka2.Page.{Ka2Inventory, page_request, attempts, read_page}

-- The path of the query: the register, the moment, the condition and the dimensions.
unfoldable pub balance_path : Bytes → Bytes → Bytes → Bytes → List Bytes → Bytes
balance_path register_name period dimensions filter_field chunk =
    register_name
    ++ (codes "/Balance("
        ++ (codes "Period=datetime'"
            ++ (period
                ++ (codes "',"
                    ++ (codes "Condition='"
                        ++ (escape_odata_string (build_guid_filter filter_field chunk)
                            ++ (codes "',"
                                ++ (codes "Dimensions='"
                                    ++ (escape_odata_string dimensions ++ codes "')")))))))))

abbrev pub balance_params : List (Bytes × Bytes)
balance_params = (codes "$format", codes "json") ∷ []

module _ {W J O D : Type 0} (net : Net W) (lib : JsonLib J O D) (reader : Ka2Inventory)
    (register_name period dimensions filter_field : Bytes) where
  -- The first query for a chunk.
  abbrev pub balance_request : List Bytes → Request
  balance_request chunk =
      page_request reader (balance_path register_name period dimensions filter_field chunk)
        balance_params 0 1000 1

  -- The rows of an answer; a text that is no JSON is logged and gives none.
  unfoldable pub rows_of : Bytes → List O
  rows_of body = elim (lib.parse body) [
    | none ↦ []
    | some value ↦ elim (extract_value lib value) [ none ↦ [] | some items ↦ objects lib items ]
  ]

  -- The fuel bounds the depth of the splits; each half is shorter, so the length of the chunk is enough.
  unfoldable pub process_chunk : ℕ → List Bytes → W → List O × W
  process_chunk zero chunk w = ([], w)
  process_chunk (suc fuel) chunk w =
      let (stop, w1) = net.stopped w in
      let (page, w2) =
        read_page net reader (balance_path register_name period dimensions filter_field chunk)
          balance_params 0 1000 w1 in
      let mid = length chunk / 2 in
      if stop then ([], w1) else elim page [
        | ok body ↦ (rows_of body, w2)
        | err e ↦ elim e [
          | http_error status ↦ elim (status == 414 && ltb 1 (length chunk)) [
            | true ↦
                let (a, w3) = process_chunk fuel (take mid chunk) w2 in
                let (b, w4) = process_chunk fuel (drop mid chunk) w3 in (a ++ b, w4)
            | false ↦ ([], w2)
          ]
          | stopped_by_user ↦ ([], w2)
          | invalid_json ↦ ([], w2)
        ]
      ]

  -- A server with some rows under each key: of the chunks that may be asked for, it refuses the
  -- address of one with more than `limit` keys, and answers any other by the first 1000 rows of its
  -- keys, as "$top" has it; the halves of a refused chunk may be asked for too; nobody asks to stop.
  pub record ServesBalance (limit : ℕ) (row : Bytes → List O) (Asked : List Bytes → Type 0)
      : Type 0 where
    pub running : (w : W) → (net.stopped w).0 ≡ false
    pub halved :
        (chunk : List Bytes)
        → Asked chunk
        → limit < length chunk
        → Asked (take (length chunk / 2) chunk) × Asked (drop (length chunk / 2) chunk)
    pub too_long :
        (chunk : List Bytes) (w : W)
        → Asked chunk
        → limit < length chunk
        → (net.get (balance_request chunk) w).0.status_code ≡ 414
    pub answered :
        (chunk : List Bytes) (w : W)
        → Asked chunk
        → length chunk ≤ limit
        → (net.get (balance_request chunk) w).0.status_code ≡ 200
    pub rows :
        (chunk : List Bytes) (w : W)
        → Asked chunk
        → length chunk ≤ limit
        → rows_of (net.get (balance_request chunk) w).0.text ≡ take 1000 (flat_map row chunk)

  module _ (limit : ℕ) (row : Bytes → List O) (Asked : List Bytes → Type 0)
      (served : ServesBalance limit row Asked) (positive : 0 < limit)
      (retries : 0 < reader.opts.max_retries)
      (fits : (chunk : List Bytes)
        → Asked chunk
        → length chunk ≤ limit
        → length (flat_map row chunk) ≤ 1000) where
    abbrev page_at : List Bytes → W → Result Bytes × W
    page_at chunk w =
        read_page net reader (balance_path register_name period dimensions filter_field chunk)
          balance_params 0 1000 (net.stopped w).1

    process_chunk_short :
        (fuel : ℕ) (chunk : List Bytes) (w w2 : W) (text : Bytes)
        → page_at chunk w ≡ (ok text, w2)
        → process_chunk (suc fuel) chunk w ≡ (rows_of text, w2)
    unfolding process_chunk
    process_chunk_short fuel chunk w w2 text page =
        let moved = ap (λ (r : Result Bytes × W). r.1) page in
        rw (served.running w, page) (cc moved)

    process_chunk_split :
        (fuel : ℕ) (chunk : List Bytes) (w w2 w3 w4 : W) (a b : List O)
        → page_at chunk w ≡ (err (http_error 414), w2)
        → 1 < length chunk
        → process_chunk fuel (take (length chunk / 2) chunk) w2 ≡ (a, w3)
        → process_chunk fuel (drop (length chunk / 2) chunk) w3 ≡ (b, w4)
        → process_chunk (suc fuel) chunk w ≡ (a ++ b, w4)
    unfolding process_chunk
    process_chunk_split fuel chunk w w2 w3 w4 a b page two left right =
        let moved = ap (λ (r : Result Bytes × W). r.1) page in
        let more : ltb 1 (length chunk) ≡ true = ground arith in
        let moved3 = ap (λ (r : List O × W). r.1) left in
        let rows3 = ap (λ (r : List O × W). r.0) left in
        let moved4 = ap (λ (r : List O × W). r.1) right in
        let rows4 = ap (λ (r : List O × W). r.0) right in
        rw (served.running w, page, more) (rw moved (rw (moved3, rows3) (rw (moved4, rows4) refl)))

    attempts_too_long :
        (left : ℕ) (chunk : List Bytes) (w : W)
        → 0 < left
        → Asked chunk
        → limit < length chunk
        → (w' : W) × (attempts net reader
              (balance_path register_name period dimensions filter_field chunk)
              balance_params
              0
              1000
              left
              1
              w
            ≡ (err (http_error 414), w'))
    unfolding attempts
    attempts_too_long zero chunk w h asked long = absurd (omega arith)
    attempts_too_long (suc left) chunk w h asked long = (
      (net.get (balance_request chunk) (net.stopped w).1).1,
      rw (served.running w, served.too_long chunk (net.stopped w).1 asked long) refl,
    )

    attempts_answered :
        (left : ℕ) (chunk : List Bytes) (w : W)
        → 0 < left
        → Asked chunk
        → length chunk ≤ limit
        → (text : Bytes) × (w' : W) × (attempts net reader
              (balance_path register_name period dimensions filter_field chunk)
              balance_params
              0
              1000
              left
              1
              w
            ≡ (ok text, w'))
          × (rows_of text ≡ flat_map row chunk)
    unfolding attempts
    attempts_answered zero chunk w h asked short = absurd (omega arith)
    attempts_answered (suc left) chunk w h asked short =
        let r = net.get (balance_request chunk) (net.stopped w).1 in
        (
          r.0.text,
          r.1,
          rw (served.running w, served.answered chunk (net.stopped w).1 asked short) refl,
          served.rows chunk (net.stopped w).1 asked short
              ∙ take_all 1000 (flat_map row chunk) (fits chunk asked short),
        )

    -- Against that server, if it takes the address of a single key, no chunk whose address it takes has
    -- more than 1000 rows, and at least one attempt is made, then with fuel for its length the rows of a
    -- chunk are the rows of its keys, in order, however many keys it has: the halves of a chunk that is
    -- refused give together what the chunk would have given.
    pub process_chunk_complete :
        (fuel : ℕ) (chunk : List Bytes) (w : W)
        → Asked chunk
        → length chunk ≤ fuel
        → 0 < fuel
        → (w' : W) × (process_chunk fuel chunk w ≡ (flat_map row chunk, w'))
    unfolding read_page
    process_chunk_complete zero chunk w asked h p = absurd (omega arith)
    process_chunk_complete (suc fuel) chunk w asked h p =
        elim (Bool-cases (ltb limit (length chunk))) [
          | inr short ↦
              let (text, w', page, rows) =
                attempts_answered reader.opts.max_retries chunk (net.stopped w).1 retries asked
                  (ground arith) in
              (w', process_chunk_short fuel chunk w w' text page ∙ ap (λ r. (r, w')) rows)
          | inl long ↦
              let (w2, page) =
                attempts_too_long reader.opts.max_retries chunk (net.stopped w).1 retries asked
                  (ground arith) in
              let mid = length chunk / 2 in
              let halves = served.halved chunk asked (ground arith) in
              let two : 1 < length chunk = omega tests in
              let (w3, left) =
                process_chunk_complete fuel (take mid chunk) w2 halves.0
                  (omega (arith, length-take mid chunk)) (omega arith) in
              let (w4, right) =
                process_chunk_complete fuel (drop mid chunk) w3 halves.1
                  (omega (arith, length-drop mid chunk)) (omega arith) in
              (
                w4,
                process_chunk_split fuel chunk w w2 w3 w4 _ _ page two left right
                    ∙ ap (λ r. (r, w4))
                        (sym (flat_map-append row (take mid chunk) (drop mid chunk))
                          ∙ ap (flat_map row) (take-append-drop mid chunk)),
              )
        ]
