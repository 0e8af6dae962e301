-- ===== src/Runs/Checkpoints.antt =====
-- `InventoryCheckpointRepository` over the table inventory1c_checkpoints. The two JSON columns hold
-- what the code writes into them and reads back.
pub mod Resume
use scand.Prelude.{
  ℕ, suc, ◌==◌, ◌&&◌, ◌||◌, Bool, true, false, Option, none, some, List, [], ◌∷◌, ◌++◌, Bytes,
  codes, bytes_eq, if◌then◌else◌, ltb, keep,
}
use scand.Json.{or_else}
use scand.Runs.Statements.{update_where, or_text, first_by}

-- What `update` saves of a pull.
pub record Saved : Type 0 where
  pub last_stage : Bytes
  pub period : Option Bytes
  pub batch_id : Option Bytes
  pub product_keys : Option (List Bytes)
  pub offer_by_ref : Option (List (Bytes × Bytes))
  pub accepted : ℕ
  pub migrated : ℕ
  pub conflicts : ℕ

-- A row of inventory1c_checkpoints.
pub record CheckpointRow : Type 0 where
  pub id : ℕ
  pub tenant_id : ℕ
  pub job_id : Bytes
  pub source : Bytes
  pub saved : Saved
  pub started_at : ℕ
  pub updated_at : ℕ
  pub finished_at : Option ℕ
  pub status : Bytes
  pub error : Option Bytes

pub record Checkpoints : Type 0 where
  pub rows : List CheckpointRow
  pub next_id : ℕ

-- `InventoryCheckpoint`.
pub record InventoryCheckpoint : Type 0 where
  pub id : ℕ
  pub job_id : Bytes
  pub source : Bytes
  pub last_stage : Bytes
  pub period : Bytes
  pub batch_id : Bytes
  pub product_keys : List Bytes
  pub offer_by_ref : List (Bytes × Bytes)
  pub products_accepted : ℕ
  pub products_migrated : ℕ
  pub products_conflicts : ℕ
  pub started_at : ℕ
  pub updated_at : ℕ
  pub finished_at : Option ℕ
  pub status : Bytes
  pub error : Bytes

abbrev pub running : Bytes
running = codes "running"

abbrev pub interrupted : Bytes
interrupted = codes "interrupted"

abbrev pub failed : Bytes
failed = codes "failed"

abbrev pub nothing_saved : Saved
nothing_saved = record {
  last_stage = codes "start";
  period = none;
  batch_id = none;
  product_keys = none;
  offer_by_ref = none;
  accepted = 0;
  migrated = 0;
  conflicts = 0;
}

-- WHERE tenant_id = $1 AND status = ...
unfoldable pub has_status : ℕ → Bytes → CheckpointRow → Bool
has_status tenant_id status r = (r.tenant_id == tenant_id) && bytes_eq r.status status

-- ... AND status IN ('running','interrupted').
unfoldable pub is_open : ℕ → CheckpointRow → Bool
is_open tenant_id r =
    (r.tenant_id == tenant_id) && (bytes_eq r.status running || bytes_eq r.status interrupted)

unfoldable pub superseded_row : ℕ → CheckpointRow → CheckpointRow
superseded_row now r = record r {
  status = failed;
  finished_at = some now;
  updated_at = now;
  error = some (codes "superseded by new run");
}

-- The row that `start` inserts.
unfoldable pub started_row : ℕ → Bytes → ℕ → ℕ → CheckpointRow
started_row id job_id tenant_id now = record {
  id = id;
  tenant_id = tenant_id;
  job_id = job_id;
  source = codes "inventory_pull";
  saved = nothing_saved;
  started_at = now;
  updated_at = now;
  finished_at = none;
  status = running;
  error = none;
}

unfoldable pub start : Bytes → ℕ → ℕ → Checkpoints → Checkpoints
start job_id tenant_id now t = record {
  rows =
      update_where (is_open tenant_id) (superseded_row now) t.rows
      ++ started_row t.next_id job_id tenant_id now ∷ [];
  next_id = suc t.next_id;
}

-- WHERE tenant_id = $1 AND job_id = $2.
unfoldable pub of_job : ℕ → Bytes → CheckpointRow → Bool
of_job tenant_id job_id r = (r.tenant_id == tenant_id) && bytes_eq r.job_id job_id

unfoldable pub updated_row : Saved → ℕ → CheckpointRow → CheckpointRow
updated_row saved now r = record r { saved = saved; updated_at = now }

unfoldable pub update : Bytes → Saved → ℕ → ℕ → Checkpoints → Checkpoints
update job_id saved tenant_id now t = record t {
  rows =
      update_where (λ r. of_job tenant_id job_id r && bytes_eq r.status running)
        (updated_row saved now) t.rows;
}

unfoldable pub finish : Bytes → Bytes → Bytes → ℕ → ℕ → Checkpoints → Checkpoints
finish job_id status error tenant_id now t = record t {
  rows =
      update_where (of_job tenant_id job_id)
        (λ (r : CheckpointRow). record r {
          status = status;
          error = some error;
          finished_at = some now;
          updated_at = now;
        })
        t.rows;
}

-- updated_at DESC.
abbrev pub later_updated : CheckpointRow → CheckpointRow → Bool
later_updated r s = ltb s.updated_at r.updated_at

-- The checkpoint of the selected row.
unfoldable pub checkpoint_of : CheckpointRow → InventoryCheckpoint
checkpoint_of r = record {
  id = r.id;
  job_id = r.job_id;
  source = r.source;
  last_stage = r.saved.last_stage;
  period = or_else r.saved.period [];
  batch_id = or_else r.saved.batch_id [];
  product_keys = or_else r.saved.product_keys [];
  offer_by_ref = or_else r.saved.offer_by_ref [];
  products_accepted = r.saved.accepted;
  products_migrated = r.saved.migrated;
  products_conflicts = r.saved.conflicts;
  started_at = r.started_at;
  updated_at = r.updated_at;
  finished_at = r.finished_at;
  status = r.status;
  error = or_else r.error [];
}

abbrev pub selected : Option CheckpointRow → Option InventoryCheckpoint
selected none = none
selected (some r) = some (checkpoint_of r)

unfoldable pub find_unfinished : ℕ → Checkpoints → Option InventoryCheckpoint
find_unfinished tenant_id t =
    selected (first_by later_updated (keep (has_status tenant_id interrupted) t.rows))

unfoldable pub abandon_running : Bytes → ℕ → ℕ → Checkpoints → Checkpoints
abandon_running reason tenant_id now t = record t {
  rows =
      update_where (is_open tenant_id)
        (λ (r : CheckpointRow). record r {
          status = failed;
          error = some (or_text r.error reason);
          finished_at = some now;
          updated_at = now;
        })
        t.rows;
}

unfoldable pub interrupted_row : Bytes → ℕ → CheckpointRow → CheckpointRow
interrupted_row reason now r = record r {
  status = interrupted;
  error = some (or_text r.error reason);
  finished_at = some now;
  updated_at = now;
}

unfoldable pub mark_interrupted : Bytes → ℕ → ℕ → Checkpoints → Checkpoints
mark_interrupted reason tenant_id now t = record t {
  rows = update_where (has_status tenant_id running) (interrupted_row reason now) t.rows;
}
