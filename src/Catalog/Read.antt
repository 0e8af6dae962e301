-- ===== src/Catalog/Read.antt =====
-- How onec_product_catalog.cpp reads the catalogue page by page: `read_all_rows`, and the same loop of
-- `pull_onec_product_catalog_sse`, which tells its progress. The fuel is one turn more than the
-- limit on the rows. Times are left out of the events.
pub mod Bounds
pub mod Agrees
use scand.Prelude.{
  ℕ, zero, suc, ◌+◌, Bool, Option, none, some, List, [], ◌∷◌, ◌++◌, Bytes, codes, to_string, ltb,
  leb, ◌==◌, if◌then◌else◌, length, is_empty,
}
use scand.Env.{HttpResponse, Request, Net, JsonLib}
use scand.Json.{get_str, get_bool}

-- `OneCProductCatalogError`, by what it says.
pub data CatalogError : Type 0 where
  not_configured : CatalogError
  refused_url : CatalogError
  http_status : ℕ → CatalogError
  bad_json : CatalogError
  not_object : CatalogError
  no_value : CatalogError
  too_many_rows : CatalogError
  -- The texts of the other variant, where they differ.
  sse_http_status : ℕ → CatalogError
  sse_bad_json : CatalogError
  sse_no_value : CatalogError

pub data Answer {ℓ} (A : Type ℓ) : Type ℓ where
  got : A → Answer A
  failed : CatalogError → Answer A

-- Whom the requests go to.
pub record Connection : Type 0 where
  pub root : Bytes
  pub username : Bytes
  pub password : Bytes
  pub timeout_ms : ℕ

unfoldable pub catalog_request : Connection → ℕ → ℕ → Request
catalog_request c page_size offset = record {
  url =
      c.root
      ++ (codes "/Catalog_Номенклатура?$format=json&$top="
          ++ (to_string page_size
              ++ (codes "&$skip="
                  ++ (to_string offset
                      ++ (codes "&$select=Ref_Key,Code,Артикул,Description,DeletionMark,IsFolder"
                          ++ codes "&$orderby=Code")))));
  params = [];
  auth = (c.username, c.password);
  timeout = c.timeout_ms;
}

-- The request of the other variant.
unfoldable pub sse_request : Connection → ℕ → ℕ → Request
sse_request c page_size offset = record {
  url =
      c.root
      ++ (codes "/Catalog_Номенклатура?$format=json&$top="
          ++ (to_string page_size
              ++ (codes "&$skip="
                  ++ (to_string offset
                      ++ (codes "&$select=Ref_Key,Code,Артикул,Description,DeletionMark,IsFolder"
                          ++ codes "&$orderby=Code")))));
  params = [];
  auth = (c.username, c.password);
  timeout = c.timeout_ms;
}

-- An event of `emit_pc_event` with its numbers.
pub data PcEvent : Type 0 where
  connecting : Bytes → PcEvent
  connected : PcEvent
  pages_started : ℕ → ℕ → PcEvent
  page_started : ℕ → ℕ → ℕ → PcEvent
  page_failed : ℕ → ℕ → PcEvent
  page_done : ℕ → ℕ → ℕ → PcEvent
  saving_started : ℕ → PcEvent
  saving_done : ℕ → ℕ → ℕ → PcEvent

module _ {J O D : Type 0} (lib : JsonLib J O D) where
  -- The array of an answer.
  unfoldable pub page_of : HttpResponse → Answer (List J)
  page_of r =
      if r.status_code == 200
      then elim (lib.parse r.text) [
        | none ↦ failed bad_json
        | some parsed ↦ elim (lib.as_object parsed) [
          | none ↦ failed not_object
          | some obj ↦ elim (lib.find obj (codes "value")) [
            | none ↦ failed no_value
            | some v ↦ elim (lib.as_array v) [ none ↦ failed no_value | some arr ↦ got arr ]
          ]
        ]
      ]
      else failed (http_status r.status_code)

  -- The loop over the items of a page.
  unfoldable pub page_rows : List J → List (List Bytes)
  page_rows [] = []
  page_rows (item ∷ arr) = elim (lib.as_object item) [
    | none ↦ page_rows arr
    | some row ↦
        if get_bool lib row (codes "DeletionMark") Bool.false
        then page_rows arr
        else if get_bool lib row (codes "IsFolder") Bool.false
        then page_rows arr
        else (get_str lib row (codes "Code")
            ∷ get_str lib row (codes "Артикул")
            ∷ get_str lib row (codes "Description")
            ∷ get_str lib row (codes "Ref_Key")
            ∷ [])
          ∷ page_rows arr
  ]

  -- The array of an answer, in the other variant.
  unfoldable pub sse_page_of : HttpResponse → Answer (List J)
  sse_page_of r =
      if r.status_code == 200
      then elim (lib.parse r.text) [
        | none ↦ failed sse_bad_json
        | some parsed ↦ elim (lib.as_object parsed) [
          | none ↦ failed not_object
          | some obj ↦ elim (lib.find obj (codes "value")) [
            | none ↦ failed sse_no_value
            | some v ↦ elim (lib.as_array v) [ none ↦ failed sse_no_value | some arr ↦ got arr ]
          ]
        ]
      ]
      else failed (sse_http_status r.status_code)

  -- The loop over the items of a page in the other variant, with `page_read` and `all`.
  unfoldable pub sse_page_rows : List J → ℕ → List (List Bytes) → ℕ × List (List Bytes)
  sse_page_rows [] page_read all = (page_read, all)
  sse_page_rows (item ∷ arr) page_read all = elim (lib.as_object item) [
    | none ↦ sse_page_rows arr page_read all
    | some row ↦
        let skipped = sse_page_rows arr page_read all in
        let taken = sse_page_rows arr (suc page_read) (
          all
          ++ (get_str lib row (codes "Code")
              ∷ get_str lib row (codes "Артикул")
              ∷ get_str lib row (codes "Description")
              ∷ get_str lib row (codes "Ref_Key")
              ∷ [])
            ∷ []) in
        if get_bool lib row (codes "DeletionMark") Bool.false
        then skipped
        else if get_bool lib row (codes "IsFolder") Bool.false
        then skipped
        else taken
  ]

module _ {W J O D : Type 0} (net : Net W) (lib : JsonLib J O D) where
  module _ (c : Connection) (page_size max_rows : ℕ) where
    -- What the loop leaves: the offset and the rows.
    abbrev pub Loop : Type 0
    Loop = ℕ → List (List Bytes) → W → Option (Answer (ℕ × List (List Bytes)) × W)

    -- A turn behind the request.
    unfoldable pub turn :
        Loop
        → ℕ
        → List (List Bytes)
        → Answer (List J)
        → W
        → Option (Answer (ℕ × List (List Bytes)) × W)
    turn rest offset all (failed e) w = some (failed e, w)
    turn rest offset all (got arr) w =
        if is_empty arr
        then some (got (offset, all), w)
        else if ltb (length arr) page_size
        then some (got (offset, all ++ page_rows lib arr), w)
        else rest (offset + length arr) (all ++ page_rows lib arr) w

    -- `while (offset < kMaxRows)`. `none` means that the fuel ran out.
    unfoldable pub read_loop : ℕ → Loop
    read_loop zero offset all w = none
    read_loop (suc fuel) offset all w =
        let (r, w1) = net.get (catalog_request c page_size offset) w in
        if ltb offset max_rows
        then turn (read_loop fuel) offset all (page_of lib r) w1
        else some (got (offset, all), w)

    -- The test behind the loop.
    unfoldable pub limited : Answer (ℕ × List (List Bytes)) → Answer (List (List Bytes))
    limited (failed e) = failed e
    limited (got (offset, all)) = if leb max_rows offset then failed too_many_rows else got all

    unfoldable pub read_all_rows : W → Option (Answer (List (List Bytes)) × W)
    read_all_rows w = elim (read_loop (suc max_rows) 0 [] w) [
      | none ↦ none
      | some (answer, w1) ↦ some (limited answer, w1)
    ]

    -- The state of the loop of the other variant: its page number, the rows read and its events.
    abbrev pub SseLoop : Type 0
    SseLoop =
        ℕ
        → ℕ
        → ℕ
        → List (List Bytes)
        → List PcEvent
        → W
        → Option (Answer (ℕ × List (List Bytes)) × List PcEvent × W)

    -- A turn with the status of the answer and its items.
    unfoldable pub sse_turn :
        SseLoop
        → ℕ
        → ℕ
        → ℕ
        → List (List Bytes)
        → List PcEvent
        → ℕ
        → Answer (List J)
        → W
        → Option (Answer (ℕ × List (List Bytes)) × List PcEvent × W)
    sse_turn rest page_idx offset read all events status (failed e) w =
        some (
          failed e,
          if status == 200 then events else events ++ page_failed page_idx status ∷ [],
          w,
        )
    sse_turn rest page_idx offset read all events status (got arr) w =
        let (page_read, more) = sse_page_rows lib arr 0 all in
        let told = events ++ page_done page_idx page_read (read + page_read) ∷ [] in
        if is_empty arr
        then some (got (read, all), events, w)
        else if ltb (length arr) page_size
        then some (got (read + page_read, more), told, w)
        else rest page_idx (offset + length arr) (read + page_read) more told w

    -- `while (offset < opts.max_rows)`.
    unfoldable pub sse_loop : ℕ → SseLoop
    sse_loop zero page_idx offset read all events w = none
    sse_loop (suc fuel) page_idx offset read all events w =
        let (r, w1) = net.get (sse_request c page_size offset) w in
        if ltb offset max_rows
        then sse_turn (sse_loop fuel) (suc page_idx) offset read all
            (events ++ page_started (suc page_idx) offset read ∷ []) r.status_code
            (sse_page_of lib r) w1
        else some (got (read, all), events, w)
