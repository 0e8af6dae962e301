-- ===== src/Sync/Run.antt =====
-- `run_ozon_sync` of sync_service.cpp around its loop, and `stop_ozon`, `reset_ozon_progress` and
-- `request_stop`.
pub mod Counts
pub mod Failure
use scand.Prelude.{
  ℕ, Bool, true, false, not, ◌&&◌, [], Bytes, codes, Option, none, some, ◌==◌, is_empty,
  if◌then◌else◌,
}
use scand.Sync.State.{
  SyncCheckpoint, SyncProgress, get, checkpoint_saved, status_updated, notified, Outside, Percents,
  Options, Service, emit, load_stop,
}
use scand.Sync.Progress.{running_status, ozon_job_finish_done, ozon_job_finish_failed}
use scand.Sync.Ozon.{Locals, Next, go_on, finished, failed, initial_retry_delay_sec, report, turns}

-- The first lines of `run_ozon_sync` on the checkpoint.
unfoldable pub started : SyncCheckpoint → SyncCheckpoint
started cp =
    if is_empty cp.last_cursor && (cp.total_synced == 0)
    then record cp {
      last_notified_percent = none;
      total_expected = 0;
      last_status = running_status;
    }
    else record cp { last_status = running_status }

abbrev pub first_locals : SyncCheckpoint → SyncCheckpoint → Locals
first_locals loaded cp = record {
  cp = cp;
  last_id = loaded.last_cursor;
  total = loaded.total_synced;
  page = loaded.last_page;
  retry_delay_sec = initial_retry_delay_sec;
  consecutive_failures = 0;
}

module _ {D W : Type 0} (out : Outside D W) (num : Percents D) (opts : Options) where
  -- The checkpoint in memory, or else the one of the database.
  unfoldable pub checkpoint_of : Bytes → Service D W → SyncCheckpoint × Service D W
  checkpoint_of source s =
      let (loaded, w) = out.load_checkpoint source s.world in
      elim (get source s.store) [ none ↦ (loaded, record s { world = w }) | some cp ↦ (cp, s) ]

  unfoldable pub prepare : Service D W → Locals × Service D W
  prepare s =
      let (loaded, s1) = checkpoint_of (codes "ozon") s in
      let cp = started loaded in (first_locals loaded cp, emit out (checkpoint_saved cp) s1)

  -- The status of the progress in memory, and a message with it.
  unfoldable pub announce : Bytes → Service D W → Service D W
  announce status s =
      let p : SyncProgress D = record s.ozon_progress { status = status } in
      let s1 = record s { ozon_progress = p } in
      if opts.notifier then emit out (notified p) s1 else s1

  -- After the loop, when it was not given up.
  unfoldable pub conclude : Locals → Service D W → Service D W
  conclude l s =
      let (stop, s1) = load_stop out s in
      let (l2, s2) = report out num opts (codes "done") l s1 in
      if stop
      then ozon_job_finish_failed out num opts (codes "stopped by user")
          (announce (codes "stopped") s1)
      else ozon_job_finish_done out num opts l2.total 0 0 s2

  abbrev pub network_failures : Bytes
  network_failures = codes "too many consecutive network failures"

  -- What follows the loop, and whether it was reached before the fuel ran out.
  unfoldable pub ended : Next × Service D W → Bool × Service D W
  ended (go_on l, s) = (false, s)
  ended (finished l, s) = (true, record (conclude l s) { ozon_running = false })
  ended (failed l, s) = (
    true,
    record (ozon_job_finish_failed out num opts network_failures s) { ozon_running = false },
  )

  unfoldable pub run_ozon_sync : ℕ → Service D W → Bool × Service D W
  run_ozon_sync fuel s = let (l, s1) = prepare s in ended (turns out num opts fuel l s1)

  unfoldable pub stop_ozon : Service D W → Service D W
  stop_ozon s =
      let stopping = codes "stopping" in
      let s1 = announce stopping (emit out (status_updated (codes "ozon") stopping) s) in
      record s1 { ozon_stop = true }

  unfoldable pub request_stop : Service D W → Service D W
  request_stop s =
      if s.shutting_down then s else record s { shutting_down = true; ozon_stop = true }

  unfoldable pub reset_ozon_progress : Service D W → Service D W
  reset_ozon_progress s =
      let p : SyncProgress D = record {
        source = [];
        processed = 0;
        total = 0;
        percent = num.zero;
        status = [];
      } in
      record s { ozon_progress = p; ozon_running = false; ozon_stop = false; ozon_job_id = [] }
