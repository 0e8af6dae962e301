-- ===== src/Sync/Triggers/Laws.antt =====
-- At most one run of a kind at a time, and which Ozon runs are taken up again.
use scand.Prelude.{
  refl, ◌||◌, some, inl, inr, Bool-cases, ◌≡◌, ◌≢◌, ◌↔◌, ◌⊎◌, ◌<◌, Bool, true, false, codes, arith,
  bytes_eq_iff, is_empty,
}
use scand.Sync.State.{SyncCheckpoint, SyncProgress, ozon_sync, Outside, Percents, Options, Service}
use scand.Sync.Progress.{percent_of, ozon_job_start, ozon_job_finish_failed}
use scand.Sync.Triggers.{
  is_unfinished, resume_on_start, has_unfinished_ozon_sync, trigger_full, trigger_ozon_sync,
  trigger_product_catalog_pull,
}

-- Whether a trigger with that result took the flag, from its value before to its value after, in a
-- service that was shutting down or not.
abbrev pub TakesFlag : Bool → (before after closing : Bool) → Type 0
TakesFlag accepted before after closing =
    ((accepted ≡ true) × (before ≡ false) × (after ≡ true) × (closing ≡ false))
    ⊎ ((accepted ≡ false) × (after ≡ before))

module _ {D W : Type 0} (out : Outside D W) (num : Percents D) (opts : Options) where
  -- A trigger of the 1C run, the Ozon run or the catalogue pull that accepts has found its flag down,
  -- in a service that is not shutting down, and leaves the flag up; one that refuses, also when the
  -- pool takes no task, leaves the flag as it was.
  pub triggers_exclusive :
      (s : Service D W)
      → (let r = trigger_full out num opts s in TakesFlag r.0 s.running r.1.running s.shutting_down)
        × (let r = trigger_ozon_sync out num opts s in
            TakesFlag r.0 s.ozon_running r.1.ozon_running s.shutting_down)
        × (let r = trigger_product_catalog_pull out num opts s in
            TakesFlag r.0 s.pc_running r.1.pc_running s.shutting_down)
  unfolding trigger_full trigger_ozon_sync trigger_product_catalog_pull ozon_job_start
      ozon_job_finish_failed
  triggers_exclusive s = (ground arith, ground arith, ground arith)

-- A checkpoint of an Ozon run that has begun and not ended: it has a cursor or a product, its status is
-- neither `done` nor `stopped`, and it has not all products of a known total.
abbrev pub IsUnfinished : SyncCheckpoint → Type 0
IsUnfinished cp =
    ((is_empty cp.last_cursor ≡ false) ⊎ (0 < cp.total_synced))
    × (cp.last_status ≢ codes "done")
    × (cp.last_status ≢ codes "stopped")
    × ((cp.total_expected ≡ 0) ⊎ (cp.total_synced < cp.total_expected))

is_unfinished_iff : (cp : SyncCheckpoint) → (is_unfinished cp ≡ true) ↔ IsUnfinished cp
unfolding is_unfinished
is_unfinished_iff cp = ground (
  arith,
  bytes_eq_iff cp.last_status (codes "done"),
  bytes_eq_iff cp.last_status (codes "stopped"),
)

module _ {D W : Type 0} (out : Outside D W) (num : Percents D) (opts : Options) where
  -- What a start finds in the stored checkpoint and makes of it, where the pool takes tasks or does not.
  abbrev pub ResumeOutcome : Bool → SyncCheckpoint → Service D W → Service D W → Type 0
  ResumeOutcome takes cp s r =
      ((s.shutting_down ≡ true) × (r ≡ s))
      ⊎ ((s.shutting_down ≡ false)
          × (IsUnfinished cp → ⊥)
          × (r.pending_resume ≡ s.pending_resume)
          × (r.ozon_running ≡ s.ozon_running))
      ⊎ ((s.shutting_down ≡ false)
          × IsUnfinished cp
          × ((p : SyncProgress D) × (r.pending_resume ≡ some p)
              × (p.source ≡ codes "ozon")
              × (p.processed ≡ cp.total_synced)
              × (p.total ≡ cp.total_expected)
              × (p.status ≡ codes "resumed"))
          × (r.ozon_running ≡ (s.ozon_running || takes)))

  trigger_lem :
      (takes : Bool) (s : Service D W)
      → ((w : W) → (out.try_submit ozon_sync w).0 ≡ takes)
      → s.shutting_down ≡ false
      → let r = trigger_ozon_sync out num opts s in
        (r.1.pending_resume ≡ s.pending_resume) × (r.1.ozon_running ≡ (s.ozon_running || takes))
  unfolding trigger_ozon_sync ozon_job_start ozon_job_finish_failed
  trigger_lem takes s h k =
      let started =
        (ozon_job_start out num opts (codes "sync")
          (record s { ozon_running = true; ozon_stop = false })).1 in
      ground (arith, k, h started.world)

  -- Where the pool always takes the task or never does: a start in a service that is shutting down
  -- changes nothing; one that finds no unfinished checkpoint leaves the flag and what is to be told; and
  -- one that finds an unfinished checkpoint has its counts to be told as resumed, and the flag of the
  -- Ozon run is up if it was up or the pool takes the run.
  pub resume_on_start_outcome :
      (takes : Bool) (s : Service D W)
      → ((w : W) → (out.try_submit ozon_sync w).0 ≡ takes)
      → ResumeOutcome takes
          (out.load_checkpoint (codes "ozon") s.world).0
          s
          (resume_on_start out num opts s)
  unfolding resume_on_start has_unfinished_ozon_sync
  resume_on_start_outcome takes s h =
      let cp = (out.load_checkpoint (codes "ozon") s.world).0 in
      elim (Bool-cases s.shutting_down) [
        | inl q ↦ rw q (inl (refl, refl))
        | inr q ↦ elim (Bool-cases (is_unfinished cp)) [
          | inr u ↦
              rw (q, u)
                (inr (
                  inl (
                    refl,
                    λ i. absurd (ground (arith, u, (is_unfinished_iff cp).1 i)),
                    refl,
                    refl,
                  )))
          | inl u ↦
              let p : SyncProgress D = record {
                source = codes "ozon";
                processed = cp.total_synced;
                total = cp.total_expected;
                percent = percent_of out num opts cp.total_synced cp.total_expected;
                status = codes "resumed";
              } in
              let resumed = record s {
                world = (out.load_checkpoint (codes "ozon") s.world).1;
                pending_resume = some p;
              } in
              let (told, flag) = trigger_lem takes resumed h q in
              rw (q, u)
                (inr
                  (inr (refl, (is_unfinished_iff cp).0 u, (p, told, refl, refl, refl, refl), flag)))
        ]
      ]
