-- ===== src/Ka2/Paging.antt =====
-- `read_chunked` of onec_ka2_inventory.cpp, and the loop over the pages of one chunk that
-- `read_chunked_parallel` has too. The fuel bounds the pages of one chunk; the pauses are left out.
pub mod Complete
use scand.Prelude.{
  ℕ, zero, suc, ◌+◌, Bool, List, [], ◌∷◌, ◌++◌, Bytes, codes, Option, none, some, ltb, length,
  is_empty, if◌then◌else◌,
}
use scand.Env.{Net, JsonLib, Exn, invalid_json, Result, ok, err}
use scand.Json.{extract_value, objects}
use scand.Ka2.Chunks.{chunk_vector}
use scand.Ka2.Guids.{build_guid_filter}
use scand.Ka2.Page.{Ka2Inventory, read_page}

-- How the loop over the pages ended, with the rows read so far.
pub data PagesEnd (O : Type 0) : Type 0 where
  -- By an empty or short page, an answer without a list, or a failed page.
  complete : List O → PagesEnd O
  -- By the stop flag.
  halted : List O → PagesEnd O
  threw : Exn → PagesEnd O
  no_fuel : PagesEnd O

-- `params`: the format, the filter and, if given, the selected fields.
unfoldable pub chunk_params : Bytes → Bytes → List (Bytes × Bytes)
chunk_params filter select_fields =
    (codes "$format", codes "json")
    ∷ (codes "$filter", filter)
    ∷ (if is_empty select_fields then [] else (codes "$select", select_fields) ∷ [])

module _ {W J O D : Type 0} (net : Net W) (lib : JsonLib J O D) (reader : Ka2Inventory)
    (path : Bytes) where
  -- What a page adds, and whether the loop goes on: `none` for no list or an empty one.
  unfoldable pub page_items : Bytes → Result (List J)
  page_items body = elim (lib.parse body) [
    | none ↦ err invalid_json
    | some value ↦ elim (extract_value lib value) [ none ↦ ok [] | some items ↦ ok items ]
  ]

  -- `while (true)` over the pages of one chunk.
  unfoldable pub chunk_pages : ℕ → List (Bytes × Bytes) → ℕ → List O → W → PagesEnd O × W
  chunk_pages zero params skip rows w = (no_fuel, w)
  chunk_pages (suc fuel) params skip rows w =
      let (stop, w1) = net.stopped w in
      let (page, w2) = read_page net reader path params skip reader.opts.page_size_flat w1 in
      if stop then (halted rows, w1) else elim page [
        | err e ↦ (complete rows, w2)
        | ok body ↦ elim (page_items body) [
          | err e ↦ (threw e, w2)
          | ok items ↦
              if is_empty items
              then (complete rows, w2)
              else elim (ltb (length items) reader.opts.page_size_flat) [
                | Bool.true ↦ (complete (rows ++ objects lib items), w2)
                | Bool.false ↦
                    chunk_pages fuel params (skip + length items) (rows ++ objects lib items) w2
              ]
        ]
      ]

  -- The loop over the chunks. `none` means that the fuel of a chunk ran out.
  unfoldable pub chunks_loop :
      ℕ → Bytes → Bytes → List (List Bytes) → List O → W → Option (Result (List O) × W)
  chunks_loop fuel filter_field select_fields [] rows w = some (ok rows, w)
  chunks_loop fuel filter_field select_fields (chunk ∷ chunks) rows w =
      let (stop, w1) = net.stopped w in
      let (end, w2) =
        chunk_pages fuel (chunk_params (build_guid_filter filter_field chunk) select_fields) 0 rows
          w1 in
      if stop then some (ok rows, w1) else elim end [
        | complete found ↦ chunks_loop fuel filter_field select_fields chunks found w2
        | halted found ↦ chunks_loop fuel filter_field select_fields chunks found w2
        | threw e ↦ some (err e, w2)
        | no_fuel ↦ none
      ]

  unfoldable pub read_chunked : ℕ → Bytes → List Bytes → Bytes → W → Option (Result (List O) × W)
  unfolding chunks_loop
  read_chunked fuel filter_field values select_fields w =
      if is_empty values
      then some (ok [], w)
      else chunks_loop fuel filter_field select_fields (chunk_vector values reader.opts.chunk_size)
          [] w
