-- ===== src/Runs/SyncRuns.antt =====
-- `SyncRunsRepository` over the table sync_runs. A column that may be null is an option.
pub mod LastRun
use scand.Prelude.{
  ℕ, suc, ◌+◌, ◌-◌, ◌==◌, ◌&&◌, Bool, true, false, Option, none, some, List, [], ◌∷◌, ◌++◌, Bytes,
  codes, map, bytes_eq, if◌then◌else◌, is_empty, ltb, keep,
}
use scand.Json.{or_else}
use scand.Runs.Statements.{update_where, or_text, first_by}

-- The counts of a run.
pub record Counts : Type 0 where
  pub accepted : ℕ
  pub migrated : ℕ
  pub conflicts : ℕ
  pub warehouses : ℕ
  pub stocks : ℕ
  pub costs : ℕ
  pub stocks_accepted : ℕ
  pub costs_accepted : ℕ

-- A row of sync_runs.
pub record RunRow : Type 0 where
  pub id : ℕ
  pub tenant_id : ℕ
  pub source : Bytes
  pub job_id : Bytes
  pub status : Bytes
  pub stage : Option Bytes
  pub started_at : ℕ
  pub finished_at : Option ℕ
  pub duration_ms : Option ℕ
  pub counts : Counts
  pub error : Option Bytes

-- The table and the next number of its sequence.
pub record SyncRuns : Type 0 where
  pub rows : List RunRow
  pub next_id : ℕ

-- `SyncRunRecord`.
pub record SyncRunRecord : Type 0 where
  pub id : ℕ
  pub source : Bytes
  pub job_id : Bytes
  pub status : Bytes
  pub stage : Bytes
  pub started_at : ℕ
  pub finished_at : Option ℕ
  pub duration_ms : ℕ
  pub counts : Counts
  pub error : Bytes

abbrev pub no_counts : Counts
no_counts = record {
  accepted = 0;
  migrated = 0;
  conflicts = 0;
  warehouses = 0;
  stocks = 0;
  costs = 0;
  stocks_accepted = 0;
  costs_accepted = 0;
}

abbrev pub running : Bytes
running = codes "running"

abbrev pub finished : Bytes
finished = codes "done"

-- The row that `start` inserts.
unfoldable pub started_row : ℕ → Bytes → Bytes → ℕ → ℕ → RunRow
started_row id source job_id tenant_id now = record {
  id = id;
  tenant_id = tenant_id;
  source = source;
  job_id = job_id;
  status = running;
  stage = none;
  started_at = now;
  finished_at = none;
  duration_ms = none;
  counts = no_counts;
  error = none;
}

unfoldable pub start : Bytes → Bytes → ℕ → ℕ → SyncRuns → SyncRuns
start source job_id tenant_id now t = record {
  rows = t.rows ++ started_row t.next_id source job_id tenant_id now ∷ [];
  next_id = suc t.next_id;
}

-- WHERE tenant_id = $1 AND source = $2.
unfoldable pub of_source : ℕ → Bytes → RunRow → Bool
of_source tenant_id source r = (r.tenant_id == tenant_id) && bytes_eq r.source source

-- ... AND job_id = $3.
unfoldable pub of_job : ℕ → Bytes → Bytes → RunRow → Bool
of_job tenant_id source job_id r = of_source tenant_id source r && bytes_eq r.job_id job_id

-- ... AND status = 'running'.
unfoldable pub is_running : ℕ → Bytes → RunRow → Bool
is_running tenant_id source r = of_source tenant_id source r && bytes_eq r.status running

unfoldable pub done_row : ℕ → Counts → RunRow → RunRow
done_row now counts r = record r {
  status = finished;
  stage = some finished;
  finished_at = some now;
  duration_ms = some (now - r.started_at);
  counts = counts;
}

unfoldable pub finish_done : ℕ → Bytes → Bytes → Counts → ℕ → SyncRuns → SyncRuns
finish_done tenant_id source job_id counts now t = record t {
  rows = update_where (of_job tenant_id source job_id) (done_row now counts) t.rows;
}

unfoldable pub finish_failed : ℕ → Bytes → Bytes → Bytes → Bytes → ℕ → SyncRuns → SyncRuns
finish_failed tenant_id source job_id error stage now t = record t {
  rows =
      update_where (of_job tenant_id source job_id)
        (λ (r : RunRow). record r {
          status = codes "failed";
          stage = some stage;
          finished_at = some now;
          duration_ms = some (now - r.started_at);
          error = some error;
        })
        t.rows;
}

unfoldable pub abandoned_row : Bytes → ℕ → RunRow → RunRow
abandoned_row reason now r = record r {
  status = codes "failed";
  stage = some (or_text r.stage (codes "error"));
  finished_at = some now;
  duration_ms = some (now - r.started_at);
  error = some (or_text r.error reason);
}

unfoldable pub abandon_running : ℕ → Bytes → Bytes → ℕ → SyncRuns → SyncRuns
abandon_running tenant_id source reason now t = record t {
  rows = update_where (is_running tenant_id source) (abandoned_row reason now) t.rows;
}

unfoldable pub interrupted_row : Bytes → ℕ → RunRow → RunRow
interrupted_row reason now r = record r {
  status = codes "interrupted";
  finished_at = some now;
  duration_ms = some (now - r.started_at);
  error = some (or_text r.error reason);
}

unfoldable pub mark_interrupted : ℕ → Bytes → Bytes → ℕ → SyncRuns → SyncRuns
mark_interrupted tenant_id source reason now t = record t {
  rows = update_where (is_running tenant_id source) (interrupted_row reason now) t.rows;
}

-- What a query of one record gives: `conversion_error` is the exception of `as<std::string>()` on a
-- column that is null.
pub data Queried : Type 0 where
  no_row : Queried
  found : SyncRunRecord → Queried
  conversion_error : Queried

-- `query_one` on the row that the statement selects.
unfoldable pub query_one : Option RunRow → Queried
query_one none = no_row
query_one (some r) = elim r.stage [
  | none ↦ conversion_error
  | some stage ↦ found record {
    id = r.id;
    source = r.source;
    job_id = r.job_id;
    status = r.status;
    stage = stage;
    started_at = r.started_at;
    finished_at = r.finished_at;
    duration_ms = or_else r.duration_ms 0;
    counts = r.counts;
    error = or_else r.error [];
  }
]

-- finished_at DESC NULLS LAST.
abbrev pub later_finished : RunRow → RunRow → Bool
later_finished r s = elim r.finished_at [
  | none ↦ false
  | some a ↦ elim s.finished_at [ none ↦ true | some b ↦ ltb b a ]
]

-- id DESC.
abbrev pub higher_id : RunRow → RunRow → Bool
higher_id r s = ltb s.id r.id

unfoldable pub last_success : ℕ → Bytes → SyncRuns → Queried
last_success tenant_id source t = query_one (
    first_by later_finished
      (keep (λ (r : RunRow). of_source tenant_id source r && bytes_eq r.status finished) t.rows))

unfoldable pub last_run : ℕ → Bytes → SyncRuns → Queried
last_run tenant_id source t =
    query_one (first_by higher_id (keep (of_source tenant_id source) t.rows))
