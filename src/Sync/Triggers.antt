-- ===== src/Sync/Triggers.antt =====
-- The triggers of sync_service.cpp, which take a running flag and give a task to the pool, and the
-- resuming of an unfinished Ozon run.
pub mod Laws
use scand.Prelude.{
  ℕ, Bool, true, false, ◌&&◌, Bytes, codes, Option, none, some, ltb, leb, ◌==◌, is_empty,
  if◌then◌else◌, bytes_eq,
}
use scand.Sync.State.{
  SyncCheckpoint, SyncProgress, remove, Task, ozon_sync, full_sync, single_sync,
  product_catalog_pull, checkpoint_reset, Outside, Percents, Options, Service, emit,
}
use scand.Sync.Progress.{percent_of, ozon_job_start, ozon_job_finish_failed}

-- The tests of `has_unfinished_ozon_sync` on the checkpoint of the database.
unfoldable pub is_unfinished : SyncCheckpoint → Bool
is_unfinished cp =
    if is_empty cp.last_cursor && (cp.total_synced == 0)
    then false
    else if bytes_eq cp.last_status (codes "done")
    then false
    else if bytes_eq cp.last_status (codes "stopped")
    then false
    else if ltb 0 cp.total_expected && leb cp.total_expected cp.total_synced
    then false
    else true

module _ {D W : Type 0} (out : Outside D W) (num : Percents D) (opts : Options) where
  -- `pool_.try_submit`.
  abbrev pub submit : Task → Service D W → Bool × Service D W
  submit task s = let (ok, w) = out.try_submit task s.world in (ok, record s { world = w })

  unfoldable pub trigger_full : Service D W → Bool × Service D W
  trigger_full s =
      let (ok, s1) = submit full_sync (record s { running = true }) in
      if s.shutting_down
      then (false, s)
      else if s.running
      then (false, s)
      else if ok
      then (true, s1)
      else (false, record s1 { running = false })

  unfoldable pub trigger_single : Bytes → Service D W → Bool × Service D W
  trigger_single product_id s =
      if s.shutting_down then (false, s) else submit (single_sync product_id) s

  unfoldable pub trigger_ozon_sync : Service D W → Bool × Service D W
  trigger_ozon_sync s =
      let (job_id, s1) =
        ozon_job_start out num opts (codes "sync")
          (record s { ozon_running = true; ozon_stop = false }) in
      let (ok, s2) = submit ozon_sync s1 in
      if s.shutting_down
      then (false, s)
      else if s.ozon_running
      then (false, s)
      else if ok
      then (true, s2)
      else (
        false,
        ozon_job_finish_failed out num opts (codes "pool submit failed")
            (record s2 { ozon_running = false }),
      )

  unfoldable pub trigger_ozon_full : Service D W → Bool × Service D W
  trigger_ozon_full s =
      let s1 = emit out (checkpoint_reset (codes "ozon")) s in
      if s.shutting_down
      then (false, s)
      else trigger_ozon_sync (record s1 { store = remove (codes "ozon") s1.store })

  unfoldable pub trigger_product_catalog_pull : Service D W → Bool × Service D W
  trigger_product_catalog_pull s =
      let (ok, s1) = submit product_catalog_pull (record s { pc_running = true }) in
      if s.shutting_down
      then (false, s)
      else if s.pc_running
      then (false, s)
      else if ok
      then (true, s1)
      else (false, record s1 { pc_running = false })

  -- `none` for the result `false`.
  unfoldable pub has_unfinished_ozon_sync : Service D W → Option SyncCheckpoint × Service D W
  has_unfinished_ozon_sync s =
      let (cp, w) = out.load_checkpoint (codes "ozon") s.world in
      (if is_unfinished cp then some cp else none, record s { world = w })

  unfoldable pub resume_on_start : Service D W → Service D W
  resume_on_start s =
      let (found, s1) = has_unfinished_ozon_sync s in
      if s.shutting_down then s else elim found [
        | none ↦ s1
        | some cp ↦
            let p : SyncProgress D = record {
              source = codes "ozon";
              processed = cp.total_synced;
              total = cp.total_expected;
              percent = percent_of out num opts cp.total_synced cp.total_expected;
              status = codes "resumed";
            } in
            (trigger_ozon_sync (record s1 { pending_resume = some p })).1
      ]

  unfoldable pub take_pending_resume : Service D W → Option (SyncProgress D) × Service D W
  take_pending_resume s = (s.pending_resume, record s { pending_resume = none })
