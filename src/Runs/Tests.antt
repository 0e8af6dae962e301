-- ===== src/Runs/Tests.antt =====
-- Concrete runs and checkpoints.
use scand.Prelude.{◌≡◌, none, some, [], ◌∷◌, Bytes, codes, keep, arith}
use scand.Json.{or_else}
use scand.Runs.SyncRuns.{
  Counts, no_counts, SyncRuns, start, started_row, finish_done, is_running, abandon_running,
  last_run, found, conversion_error,
}
use scand.Runs.SyncRuns.LastRun.{record_of_run, last_run_of_run, start-abandon_running}
use scand.Runs.Checkpoints
use scand.Runs.Checkpoints.{
  Saved, nothing_saved, Checkpoints, checkpoint_of, find_unfinished, mark_interrupted, has_status,
  interrupted_row, update, updated_row,
}
use scand.Runs.Checkpoints.Resume.{start_supersedes, find_unfinished-mark_interrupted}

abbrev ozon : Bytes
ozon = codes "ozon"

-- A run that is going on.
abbrev runs : SyncRuns
runs = record { rows = started_row 1 ozon (codes "a") 1 10 ∷ []; next_id = 2 }

abbrev counts : Counts
counts = record no_counts { accepted = 7 }

last_run_of_run_example :
    (last_run 1 ozon (start ozon (codes "b") 1 20 runs) ≡ conversion_error)
    × (last_run 1 ozon (finish_done 1 ozon (codes "b") counts 50 (start ozon (codes "b") 1 20 runs))
        ≡ found (record_of_run 2 ozon (codes "b") counts 20 50))
unfolding started_row
last_run_of_run_example = last_run_of_run ozon (codes "b") 1 20 50 counts runs (omega arith, tt)

start-abandon_running_example :
    keep
      (is_running 1 ozon)
      (start ozon (codes "b") 1 20 (abandon_running 1 ozon (codes "superseded") 20 runs)).rows
    ≡ started_row 2 ozon (codes "b") 1 20 ∷ []
start-abandon_running_example =
    start-abandon_running ozon (codes "b") (codes "superseded") 1 20 runs

-- A checkpoint that a restart has left.
abbrev table : Checkpoints
table = record {
  rows = interrupted_row (codes "r") 5 (Checkpoints.started_row 1 (codes "a") 1 3) ∷ [];
  next_id = 2;
}

abbrev saved : Saved
saved = record nothing_saved { last_stage = codes "ka2_pull"; product_keys = some (codes "k" ∷ []) }

start_supersedes_example :
    (keep (has_status 1 (codes "running")) (Checkpoints.start (codes "b") 1 20 table).rows
      ≡ Checkpoints.started_row 2 (codes "b") 1 20 ∷ [])
    × (find_unfinished 1 (Checkpoints.start (codes "b") 1 20 table) ≡ none)
start_supersedes_example = start_supersedes (codes "b") 1 20 table

find_unfinished-mark_interrupted_example :
    find_unfinished 1 (
      mark_interrupted
        (codes "service restarted")
        1
        40
        (update (codes "b") saved 1 30 (Checkpoints.start (codes "b") 1 20 table)))
    ≡ some record {
      id = 2;
      job_id = codes "b";
      source = codes "inventory_pull";
      last_stage = saved.last_stage;
      period = or_else saved.period [];
      batch_id = or_else saved.batch_id [];
      product_keys = or_else saved.product_keys [];
      offer_by_ref = or_else saved.offer_by_ref [];
      products_accepted = saved.accepted;
      products_migrated = saved.migrated;
      products_conflicts = saved.conflicts;
      started_at = 20;
      updated_at = 40;
      finished_at = some 40;
      status = codes "interrupted";
      error = codes "service restarted";
    }
find_unfinished-mark_interrupted_example =
    find_unfinished-mark_interrupted (codes "b") 1 20 30 40 saved (codes "service restarted") table
