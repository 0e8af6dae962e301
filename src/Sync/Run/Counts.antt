-- ===== src/Sync/Run/Counts.antt =====
-- What every checkpoint that an Ozon run saves counts, whatever Ozon, the database and other threads do.
use scand.Prelude.{
  ℕ, zero, min, ◌*◌, suc, ◌+◌, ◌≡◌, refl, ◌⊎◌, inl, inr, Bool, true, false, if◌then◌else◌, List, [],
  ◌∷◌, arith, subst, Bytes, codes, length, sym, ◌∙◌, ◌&&◌, ◌==◌, ltb, leb, Bool-cases, is_empty,
}
use scand.Sync.State.{
  OzonProduct, OzonPage, SyncCheckpoint, Event, checkpoint_saved, ozon_upserted, slept, Outside,
  Percents, Options, Service, emit, load_stop, set,
}
use scand.Sync.Progress.{
  running_status, send_message, interval_ok, percent_ok, send_progress, ozon_job_finish_done,
  ozon_job_finish_failed,
}
use scand.Sync.Ozon.{
  max_consecutive_failures, max_retry_delay_sec, initial_retry_delay_sec, Locals, Next, go_on,
  finished, failed, after_page, report, on_failure, expect_total, details_of, keep_page, on_page,
  turn, turns, proceed,
}
use scand.Sync.Run.{
  checkpoint_of, started, first_locals, prepare, announce, conclude, ended, run_ozon_sync,
}

abbrev pub IsRunStatus : Bytes → Type 0
IsRunStatus status =
    (status ≡ codes "running")
    ⊎ (status ≡ codes "retry")
    ⊎ (status ≡ codes "failed")
    ⊎ (status ≡ codes "done")

module _ {D : Type 0} where
  -- How many products have gone to the database.
  abbrev pub upserted : List (Event D) → ℕ
  upserted [] = 0
  upserted (ozon_upserted ps ∷ log) = length ps + upserted log
  upserted (_ ∷ log) = upserted log

  abbrev EventIsCounted : ℕ → Event D → Type 0
  EventIsCounted n (checkpoint_saved cp) = (cp.total_synced ≡ n) × IsRunStatus cp.last_status
  EventIsCounted n _ = Unit

  -- Every saved checkpoint counts the products that went to the database before it.
  abbrev pub IsCounted : ℕ → List (Event D) → Type 0
  IsCounted base [] = Unit
  IsCounted base (slept n ∷ log) = IsCounted base log
  IsCounted base (e ∷ log) = EventIsCounted (base + upserted log) e × IsCounted base log

  abbrev IsSound : {W : Type 0} → ℕ → Locals → Service D W → Type 0
  IsSound base l s =
      (l.total ≡ base + upserted s.log) × (l.cp.total_synced ≡ l.total) × IsCounted base s.log

  abbrev SoundNext : {W : Type 0} → ℕ → Next × Service D W → Type 0
  SoundNext base (go_on l, s) = IsSound base l s
  SoundNext base (finished l, s) = IsSound base l s
  SoundNext base (failed l, s) = IsSound base l s

  SoundNext-if :
      {W : Type 0} (base : ℕ) (b : Bool) (x y : Next × Service D W)
      → SoundNext base x
      → SoundNext base y
      → SoundNext base (if b then x else y)
  SoundNext-if base true x y h k = h
  SoundNext-if base false x y h k = k

module _ {D W : Type 0} (out : Outside D W) (num : Percents D) (opts : Options) where
  send_progress_log :
      (source : Bytes) (processed total : ℕ) (status : Bytes) (cp : SyncCheckpoint)
      (s : Service D W) (base : ℕ)
      → IsCounted base s.log
      → let r = send_progress out num opts source processed total status cp s in
        IsCounted base r.1.log
        × (upserted r.1.log ≡ upserted s.log)
        × (r.0.total_synced ≡ cp.total_synced)
  unfolding send_progress send_message interval_ok percent_ok
  send_progress_log source processed total status cp s base h = ground arith

  report_lem :
      (status : Bytes) (base : ℕ) (l : Locals) (s : Service D W)
      → IsRunStatus status
      → IsSound base l s
      → let r = report out num opts status l s in IsSound base r.0 r.1
  unfolding report
  report_lem status base l s known (a, b, c) =
      let cp : SyncCheckpoint = record l.cp { last_status = status } in
      let (d, e, f) =
        send_progress_log (codes "ozon") l.total cp.total_expected status cp
          (emit out (checkpoint_saved cp) s) base ((b ∙ a, known), c) in
      (omega (arith, a, e), f ∙ b, d)

  on_failure_lem :
      (base : ℕ) (l : Locals) (s : Service D W)
      → IsSound base l s
      → SoundNext base (on_failure out num opts l s)
  unfolding on_failure
  on_failure_lem base l s h =
      let l0 : Locals = record l { consecutive_failures = suc l.consecutive_failures } in
      let (l1, s1) = report out num opts (codes "retry") l0 s in
      let h1 = report_lem (codes "retry") base l0 s (inr (inl refl)) h in
      let h2 = report_lem (codes "failed") base l1 s1 (inr (inr (inl refl))) h1 in
      SoundNext-if base (leb max_consecutive_failures l1.consecutive_failures) (failed _, _)
        (
          go_on (record l1 { retry_delay_sec = min (l1.retry_delay_sec * 2) max_retry_delay_sec }),
          emit out (slept (l1.retry_delay_sec * 1000)) s1,
        )
        h2 h1

  expect_total_lem :
      (base : ℕ) (page : OzonPage D) (l : Locals) (s : Service D W)
      → IsSound base l s
      → let r = expect_total out num opts page l s in IsSound base r.0 r.1
  unfolding expect_total
  expect_total_lem base page l s (a, b, c) =
      let cp : SyncCheckpoint = record l.cp { total_expected = page.total } in
      let (d, e, f) =
        send_progress_log (codes "ozon") l.total page.total running_status cp s base c in
      elim (Bool-cases ((l.cp.total_expected == 0) && ltb 0 page.total)) [
        | inl known ↦ rw known (omega (arith, a, e), f ∙ b, d)
        | inr unknown ↦ rw unknown (a, b, c)
      ]

  keep_page_lem :
      (base : ℕ) (page : OzonPage D) (details : List (OzonProduct D)) (l : Locals) (s : Service D W)
      → IsSound base l s
      → let r = keep_page out num opts page details l s in IsSound base r.0 r.1
  unfolding keep_page after_page
  keep_page_lem base page details l s (a, b, c) =
      let s1 = emit out (ozon_upserted details) s in
      let cp = after_page page (length details) l in
      let s2 = emit out (checkpoint_saved cp) (record s1 { store = set cp s1.store }) in
      let sum : l.total + length details ≡ base + (length details + upserted s.log) = omega arith in
      let (d, e, f) =
        send_progress_log (codes "ozon") cp.total_synced cp.total_expected running_status cp s2 base
          ((sum, inl refl), (tt, c)) in
      (omega (arith, sum, e), f, d)

  on_page_lem :
      (base : ℕ) (page : OzonPage D) (l : Locals) (s : Service D W)
      → IsSound base l s
      → SoundNext base (on_page out num opts page l s)
  unfolding on_page details_of
  on_page_lem base page l s h =
      let l0 : Locals = record l {
        consecutive_failures = 0;
        retry_delay_sec = initial_retry_delay_sec;
      } in
      let (l1, s1) = expect_total out num opts page l0 s in
      let h1 = expect_total_lem base page l0 s h in
      let (details, s2) = details_of out num opts page s1 in
      let h3 = keep_page_lem base page details l1 s2 h1 in
      let (l3, s3) = keep_page out num opts page details l1 s2 in
      SoundNext-if base (is_empty page.items) (finished l1, s1) _ h1
        (SoundNext-if base page.has_more (go_on l3, emit out (slept 200) s3) (finished l3, s3) h3
          h3)

  turn_lem :
      (base : ℕ) (l : Locals) (s : Service D W)
      → IsSound base l s
      → SoundNext base (turn out num opts l s)
  unfolding turn
  turn_lem base l s h =
      let (stop, s1) = load_stop out s in
      let (page, w) = out.fetch_page_cursor l.last_id s1.world in
      let s2 : Service D W = record s1 { world = w } in
      SoundNext-if base stop (finished l, s1) _ h
        (SoundNext-if base page.network_error (on_failure out num opts l s2)
          (on_page out num opts page l s2) (on_failure_lem base l s2 h)
          (on_page_lem base page l s2 h))

  turns_next :
      (base fuel : ℕ) (r : Next × Service D W)
      → ((l : Locals) (s : Service D W)
          → IsSound base l s
          → SoundNext base (turns out num opts fuel l s))
      → SoundNext base r
      → SoundNext base (proceed out num opts (λ l2 s2. turns out num opts fuel l2 s2) r)
  turns_next base fuel (go_on l2, s2) ih k = ih l2 s2 k
  turns_next base fuel (finished l2, s2) ih k = k
  turns_next base fuel (failed l2, s2) ih k = k

  turns_lem :
      (base fuel : ℕ) (l : Locals) (s : Service D W)
      → IsSound base l s
      → SoundNext base (turns out num opts fuel l s)
  unfolding turns
  turns_lem base zero l s h = h
  turns_lem base (suc fuel) l s h =
      turns_next base fuel (turn out num opts l s) (λ l2 s2 k. turns_lem base fuel l2 s2 k)
        (turn_lem base l s h)

  finish_failed-IsCounted :
      (base : ℕ) (error : Bytes) (s : Service D W)
      → IsCounted base s.log
      → IsCounted base (ozon_job_finish_failed out num opts error s).log
  unfolding ozon_job_finish_failed
  finish_failed-IsCounted base error s h = ground arith

  finish_done-IsCounted :
      (base a m c : ℕ) (s : Service D W)
      → IsCounted base s.log
      → IsCounted base (ozon_job_finish_done out num opts a m c s).log
  unfolding ozon_job_finish_done
  finish_done-IsCounted base a m c s h = ground arith

  announce-IsCounted :
      (base : ℕ) (status : Bytes) (s : Service D W)
      → IsCounted base s.log
      → IsCounted base (announce out num opts status s).log
  unfolding announce
  announce-IsCounted base status s h = ground arith

  IsCounted-if :
      (base : ℕ) (b : Bool) (x y : Service D W)
      → IsCounted base x.log
      → IsCounted base y.log
      → IsCounted base (if b then x else y).log
  IsCounted-if base true x y h k = h
  IsCounted-if base false x y h k = k

  conclude-IsCounted :
      (base : ℕ) (l : Locals) (s : Service D W)
      → IsSound base l s
      → IsCounted base (conclude out num opts l s).log
  unfolding conclude
  conclude-IsCounted base l s h =
      let (stop, s1) = load_stop out s in
      let (l2, s2) = report out num opts (codes "done") l s1 in
      let h2 = report_lem (codes "done") base l s1 (inr (inr (inr refl))) h in
      IsCounted-if base stop
        (ozon_job_finish_failed out num opts (codes "stopped by user")
          (announce out num opts (codes "stopped") s1))
        (ozon_job_finish_done out num opts l2.total 0 0 s2)
        (finish_failed-IsCounted base _ _ (announce-IsCounted base _ s1 h.2))
        (finish_done-IsCounted base _ _ _ s2 h2.2)

  -- What a run has done so far, and that its flag is down when it has ended.
  pub record RunIsCounted (base : ℕ) (r : Bool × Service D W) : Type 0 where
    pub flag : (r.0 ≡ false) ⊎ (r.1.ozon_running ≡ false)
    pub counted : IsCounted base r.1.log

  run_next :
      (base : ℕ) (r : Next × Service D W)
      → SoundNext base r
      → RunIsCounted base (ended out num opts r)
  unfolding ended
  run_next base (go_on l, s) h = record { flag = inl refl; counted = h.2 }
  run_next base (finished l, s) h = record {
    flag = inr refl;
    counted = conclude-IsCounted base l s h;
  }
  run_next base (failed l, s) h = record {
    flag = inr refl;
    counted = finish_failed-IsCounted base _ s h.2;
  }

  started-total : (cp : SyncCheckpoint) → (started cp).total_synced ≡ cp.total_synced
  unfolding started
  started-total cp = ground arith

  started-status : (cp : SyncCheckpoint) → (started cp).last_status ≡ codes "running"
  unfolding started
  started-status cp = ground arith

  checkpoint_of-log :
      (source : Bytes) (s : Service D W) → (checkpoint_of out num opts source s).1.log ≡ s.log
  unfolding checkpoint_of
  checkpoint_of-log source s = ground arith

  -- Whatever Ozon, the database and the other threads do, and after any number of turns of an Ozon
  -- run: every checkpoint that it has saved counts exactly the products of the checkpoint it began
  -- with and all that it had upserted before; its status is one of `running`, `retry`, `failed` and
  -- `done`, so never `stopped`; and if the run has ended, the flag of a running sync is down.
  pub run_ozon_sync_counted :
      (fuel : ℕ) (s : Service D W)
      → s.log ≡ []
      → RunIsCounted
          (checkpoint_of out num opts (codes "ozon") s).0.total_synced
          (run_ozon_sync out num opts fuel s)
  unfolding run_ozon_sync prepare
  run_ozon_sync_counted fuel s h =
      let (loaded, s1) = checkpoint_of out num opts (codes "ozon") s in
      let cp = started loaded in
      let empty : s1.log ≡ [] = checkpoint_of-log (codes "ozon") s ∙ h in
      let base = loaded.total_synced in
      let none_yet : base + upserted s1.log ≡ base = rw empty (omega arith) in
      run_next base _ (
        turns_lem base fuel (first_locals loaded cp) (emit out (checkpoint_saved cp) s1) (
          sym none_yet,
          started-total loaded,
          (
            (started-total loaded ∙ sym none_yet, inl (started-status loaded)),
            subst (IsCounted base) (sym empty) tt,
          ),
        ))
