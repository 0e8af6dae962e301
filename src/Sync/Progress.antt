-- ===== src/Sync/Progress.antt =====
-- `send_progress`, `maybe_flush_checkpoint` and the job records of sync_service.cpp.
pub mod Throttle
use scand.Prelude.{
  ℕ, ◌*◌, ◌/◌, ◌-◌, ◌++◌, Bool, true, false, not, ◌&&◌, ◌||◌, Bytes, codes, Option, none, some, ltb,
  leb, ◌==◌, is_empty, if◌then◌else◌, bytes_eq, to_string,
}
use scand.Sync.State.{
  SyncCheckpoint, SyncProgress, mark_synced, Event, checkpoint_saved, notified, runs_abandoned,
  run_started, run_done, run_failed, Outside, Percents, Options, Service, emit,
}

abbrev pub running_status : Bytes
running_status = codes "running"

-- `current_bucket > cp.last_notified_percent`.
abbrev pub above : ℕ → Option ℕ → Bool
above bucket none = true
above bucket (some last) = ltb last bucket

module _ {D W : Type 0} (out : Outside D W) (num : Percents D) (opts : Options) where
  unfoldable pub percent_of : ℕ → ℕ → D
  percent_of processed total = if ltb 0 total then num.hundredth processed total else num.zero

  -- `current_bucket`, where the step is positive.
  unfoldable pub current_bucket : ℕ → ℕ → ℕ
  current_bucket processed total =
      num.truncate (percent_of processed total)
      / opts.notify_every_percent
      * opts.notify_every_percent

  -- `percent_ok`, with the checkpoint that the test leaves.
  unfoldable pub percent_ok : ℕ → ℕ → SyncCheckpoint → Bool × SyncCheckpoint
  percent_ok processed total cp =
      if opts.notify_every_percent == 0
      then (true, cp)
      else if ltb 0 total && above (current_bucket processed total) cp.last_notified_percent
      then (true, record cp { last_notified_percent = some (current_bucket processed total) })
      else (false, cp)

  -- `interval_ok`, of a clock in nanoseconds; a time that was never set is `none`.
  unfoldable pub interval_ok : Service D W → Bool × Service D W
  interval_ok s =
      let (now, w) = out.steady_now s.world in
      if opts.notify_min_interval_sec == 0 then (true, s) else elim s.last_notify_time [
        | none ↦ (true, record s { world = w })
        | some last ↦
            (leb opts.notify_min_interval_sec ((now - last) / 1000000000), record s { world = w })
      ]

  -- The end of `send_progress`: the time is kept and the message sent.
  unfoldable pub send_message : SyncProgress D → Service D W → Service D W
  send_message p s =
      let (now, w) = out.steady_now s.world in
      let timed = record s { world = w; last_notify_time = some now } in
      if opts.notifier then emit out (notified p) timed else timed

  unfoldable pub send_progress :
      Bytes → ℕ → ℕ → Bytes → SyncCheckpoint → Service D W → SyncCheckpoint × Service D W
  send_progress source processed total status cp s =
      let p : SyncProgress D = record {
        source = source;
        processed = processed;
        total = total;
        percent = percent_of processed total;
        status = status;
      } in
      let s1 = record s { ozon_progress = p } in
      let (by_percent, cp2) = percent_ok processed total cp in
      let (by_interval, s2) = interval_ok s1 in
      if not (bytes_eq status running_status)
      then (cp, send_message p s1)
      else if by_percent && by_interval
      then (cp2, send_message p s2)
      else (cp2, s2)

  -- `CHECKPOINT_FLUSH_EVERY` is 10.
  unfoldable pub maybe_flush_checkpoint : SyncCheckpoint → Bool → Service D W → Service D W
  maybe_flush_checkpoint cp force s =
      let saved = emit out (checkpoint_saved cp) s in
      if force || leb 10 cp.dirty_pages
      then record saved { store = mark_synced cp.source saved.store }
      else s

  -- The two records are made where neither throws.
  unfoldable pub ozon_job_start : Bytes → Service D W → Bytes × Service D W
  ozon_job_start kind s =
      let (micros, w) = out.system_micros s.world in
      let job_id = kind ++ (codes "-" ++ to_string micros) in
      let s1 = record s { world = w; ozon_job_id = job_id } in
      if opts.sync_runs_repo
      then (
        job_id,
        emit out (run_started job_id)
            (emit out (runs_abandoned (codes "superseded by new run")) s1),
      )
      else (job_id, s1)

  unfoldable pub ozon_job_finish_done : ℕ → ℕ → ℕ → Service D W → Service D W
  ozon_job_finish_done accepted migrated conflicts s =
      if not opts.sync_runs_repo
      then s
      else if is_empty s.ozon_job_id
      then s
      else emit out (run_done s.ozon_job_id accepted migrated conflicts) s

  unfoldable pub ozon_job_finish_failed : Bytes → Service D W → Service D W
  ozon_job_finish_failed error s =
      if not opts.sync_runs_repo
      then s
      else if is_empty s.ozon_job_id
      then s
      else emit out (run_failed s.ozon_job_id error) s
