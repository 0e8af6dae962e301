-- ===== src/Odata/Pull.antt =====
-- `pull_product_catalog` of product_catalog_pull.cpp: the counts of the catalogue with the events of its
-- progress. Times, speeds and texts are left out of the events; whether it is time for a report in
-- between is a parameter. The fuel is one turn more than the limit on the rows.
pub mod Tally
pub mod Ends
use scand.Prelude.{
  ℕ, zero, suc, ◌+◌, ◌-◌, ◌/◌, ◌==◌, Bool, true, false, Option, none, some, List, [], ◌∷◌, ◌++◌,
  Bytes, codes, if◌then◌else◌, ltb, length, bytes_eq,
}
use scand.Env.{Net, JsonLib}
use scand.Odata.{
  OnecCatalog, OnecCatalogRow, OnecCatalogLimits, JsonTexts, Stoull, Read, read, threw, parse_rows,
  read_page, read_total_count,
}

-- The events by stage and status, with their counts.
pub data PullEvent : Type 0 where
  connecting_started : PullEvent
  connecting_stopped : PullEvent
  connecting_done : PullEvent
  total_started : PullEvent
  total_done : ℕ → PullEvent
  total_warning : PullEvent
  total_stopped : PullEvent
  pages_started : ℕ → ℕ → PullEvent
  pages_stopped : ℕ → ℕ → ℕ → PullEvent
  page_started : ℕ → ℕ → ℕ → ℕ → PullEvent
  page_failed : ℕ → ℕ → ℕ → PullEvent
  page_parse_failed : ℕ → ℕ → ℕ → PullEvent
  page_done : ℕ → ℕ → ℕ → ℕ → ℕ → PullEvent
  pages_running : ℕ → ℕ → ℕ → PullEvent
  finalizing_started : ℕ → ℕ → ℕ → PullEvent
  finalizing_done : ℕ → ℕ → ℕ → PullEvent

-- `ProductCatalogPullResult`; its error is no text or "stopped".
pub record PullResult : Type 0 where
  pub total : ℕ
  pub read_rows : ℕ
  pub skipped : ℕ
  pub errors : ℕ
  pub pages_done : ℕ
  pub pages_total : ℕ
  pub error : Bytes

-- The result with the events so far.
pub record PullState : Type 0 where
  pub result : PullResult
  pub events : List PullEvent

abbrev pub tell : PullEvent → PullState → PullState
tell e s = record s { events = s.events ++ e ∷ [] }

abbrev pub stopped_text : Bytes
stopped_text = codes "stopped"

abbrev pub stop_with : PullEvent → PullState → PullState
stop_with e s = record {
  result = record s.result { error = stopped_text };
  events = s.events ++ e ∷ [];
}

-- The loop over the rows of a page: those that count, and those that are skipped.
unfoldable pub count_rows : List OnecCatalogRow → ℕ × ℕ
count_rows [] = (0, 0)
count_rows (row ∷ rows) =
    let (page_read, page_skipped) = count_rows rows in
    if bytes_eq row.is_folder (codes "true")
    then (page_read, suc page_skipped)
    else if bytes_eq row.deletion_mark (codes "true")
    then (page_read, suc page_skipped)
    else (suc page_read, page_skipped)

-- What comes of a page: no answer, no JSON, or its rows.
pub data Fetched : Type 0 where
  no_page : Fetched
  no_rows : Fetched
  rows_of : List OnecCatalogRow → Fetched

-- The state behind a page that failed, and behind one that was read.
unfoldable pub page_error : PullEvent → PullState → PullState
page_error e s = record {
  result = record s.result { errors = suc s.result.errors };
  events = s.events ++ e ∷ [];
}

unfoldable pub page_counted : ℕ → List OnecCatalogRow → PullState → PullState
page_counted page_idx rows s =
    let (page_read, page_skipped) = count_rows rows in
    record {
      result = record s.result {
        read_rows = s.result.read_rows + page_read;
        skipped = s.result.skipped + page_skipped;
        pages_done = page_idx;
      };
      events =
          s.events
          ++ page_done page_idx page_read page_skipped (s.result.read_rows + page_read)
              (s.result.skipped + page_skipped)
            ∷ [];
    }

-- A report in between.
unfoldable pub reported : Bool → PullState → PullState
reported false s = s
reported true s = tell (pages_running s.result.read_rows s.result.skipped s.result.errors) s

-- How the loop ends: behind the last page, or stopped.
pub data LoopEnd : Type 0 where
  completed : PullState → LoopEnd
  interrupted : PullState → LoopEnd

module _ {W J O D : Type 0} (net : Net W) (lib : JsonLib J O D) (texts : JsonTexts J)
    (stoull : Stoull) (due : W → Bool × W) (c : OnecCatalog) (limits : OnecCatalogLimits) where
  unfoldable pub fetched : Read Bytes → Fetched
  fetched (threw e) = no_page
  fetched (read page_json) = elim (parse_rows lib texts page_json) [
    | threw e ↦ no_rows
    | read rows ↦ rows_of rows
  ]

  abbrev pub Loop : Type 0
  Loop = ℕ → ℕ → PullState → W → Option (LoopEnd × W)

  -- A turn behind the answer; `continue` goes on to the next offset.
  unfoldable pub page_turn : Loop → ℕ → ℕ → PullState → Fetched → W → Option (LoopEnd × W)
  page_turn rest offset page_idx s no_page w =
      rest (offset + limits.page_size) page_idx
        (page_error (page_failed page_idx offset (suc s.result.errors)) s) w
  page_turn rest offset page_idx s no_rows w =
      rest (offset + limits.page_size) page_idx
        (page_error (page_parse_failed page_idx offset (suc s.result.errors)) s) w
  page_turn rest offset page_idx s (rows_of rows) w =
      let (report, w1) = due w in
      let counted = reported report (page_counted page_idx rows s) in
      if ltb (length rows) limits.page_size
      then some (completed counted, w1)
      else rest (offset + limits.page_size) page_idx counted w1

  unfoldable pub page_loop : ℕ → Loop
  page_loop zero offset page_idx s w = none
  page_loop (suc fuel) offset page_idx s w =
      let (stop, w1) = net.stopped w in
      let idx = suc page_idx in
      let begun = tell (page_started idx offset s.result.read_rows s.result.skipped) s in
      let (page_json, w2) = read_page net c offset limits.page_size w1 in
      if ltb offset limits.max_rows
      then (if stop
          then some (
            interrupted (stop_with (pages_stopped s.result.read_rows s.result.skipped page_idx) s),
            w1,
          )
          else page_turn (page_loop fuel) offset idx begun (fetched page_json) w2)
      else some (completed s, w)

  -- What follows the loop.
  unfoldable pub finalized : LoopEnd → PullState
  finalized (interrupted s) = s
  finalized (completed s) =
      let r = s.result in
      tell (finalizing_done r.read_rows r.skipped r.errors)
        (tell (finalizing_started r.read_rows r.skipped r.errors) s)

  unfoldable pub total_pages_of : ℕ → ℕ
  total_pages_of total = if total == 0 then 0 else (total + limits.page_size - 1) / limits.page_size

  unfoldable pub pull_pages : PullState → W → Option (PullState × W)
  pull_pages s w =
      let total_pages = total_pages_of s.result.total in
      let begun : PullState = record {
        result = record s.result { pages_total = total_pages };
        events = s.events ++ pages_started s.result.total total_pages ∷ [];
      } in
      elim (page_loop (suc limits.max_rows) 0 0 begun w) [
        | none ↦ none
        | some (end, w1) ↦ some (finalized end, w1)
      ]

  -- The state behind the question for the total.
  unfoldable pub with_total : Option ℕ → PullState → PullState
  with_total none s = tell total_warning s
  with_total (some total) s = record {
    result = record s.result { total = total };
    events = s.events ++ total_done total ∷ [];
  }

  abbrev pub pull_begun : PullState
  pull_begun = record {
    result = record {
      total = 0;
      read_rows = 0;
      skipped = 0;
      errors = 0;
      pages_done = 0;
      pages_total = 0;
      error = [];
    };
    events = connecting_started ∷ [];
  }

  unfoldable pub pull_product_catalog : W → Option (PullState × W)
  pull_product_catalog w =
      let (stop, w1) = net.stopped w in
      let (total, w2) = read_total_count lib texts net c stoull w1 in
      let asked = with_total total (tell total_started (tell connecting_done pull_begun)) in
      let (stop2, w3) = net.stopped w2 in
      if stop
      then some (stop_with connecting_stopped pull_begun, w1)
      else if stop2
      then some (stop_with total_stopped asked, w3)
      else pull_pages asked w3
