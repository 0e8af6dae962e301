-- ===== src/Sync/Run/Failure.antt =====
-- An Ozon run while every query for a page fails on the network.
use scand.Prelude.{
  Bool, ap, is_empty, ℕ, zero, suc, ◌+◌, ◌*◌, ◌≤◌, ◌<◌, min, ◌≡◌, refl, subst, ◌∙◌, true, false,
  List, [], ◌∷◌, arith, Bytes, codes, leb,
}
use scand.Sync.State.{
  Event, checkpoint_saved, run_done, run_failed, slept, Outside, Percents, Options, Service, emit,
  load_stop,
}
use scand.Sync.Progress.{
  send_message, interval_ok, percent_ok, send_progress, ozon_job_finish_failed,
}
use scand.Sync.Ozon.{
  max_consecutive_failures, max_retry_delay_sec, Locals, Next, go_on, finished, failed, report,
  on_failure, turn, turns, proceed,
}
use scand.Sync.Run.{checkpoint_of, started, first_locals, prepare, ended, run_ozon_sync}

-- The pauses, in milliseconds, the newest first.
abbrev pub pauses : {D : Type 0} → List (Event D) → List ℕ
pauses [] = []
pauses (slept n ∷ log) = n ∷ pauses log
pauses (_ ∷ log) = pauses log

-- The jobs that were recorded as done, the newest first.
abbrev pub dones : {D : Type 0} → List (Event D) → List Bytes
dones [] = []
dones (run_done job_id accepted migrated conflicts ∷ log) = job_id ∷ dones log
dones (_ ∷ log) = dones log

-- The pauses of so many failures, from a delay of so many seconds on, before those of `acc`.
abbrev pub backoff : ℕ → ℕ → List ℕ → List ℕ
backoff zero delay acc = acc
backoff (suc n) delay acc = backoff n (min (delay * 2) max_retry_delay_sec) (delay * 1000 ∷ acc)

module _ {D W : Type 0} (out : Outside D W) (num : Percents D) (opts : Options) where
  -- Nobody asks to stop, and no query gets through.
  pub record IsDead : Type 0 where
    pub unstopped : (w : W) → (out.stop_asked w).0 ≡ false
    pub unanswered :
        (cursor : Bytes) (w : W) → (out.fetch_page_cursor cursor w).0.network_error ≡ true

  report-keeps :
      (status : Bytes) (l : Locals) (s : Service D W)
      → let r = report out num opts status l s in
        (r.0.retry_delay_sec ≡ l.retry_delay_sec)
        × (r.0.consecutive_failures ≡ l.consecutive_failures)
        × (pauses r.1.log ≡ pauses s.log)
        × (r.1.ozon_stop ≡ s.ozon_stop)
  unfolding report send_progress send_message interval_ok percent_ok
  report-keeps status l s = ground arith

  report-dones :
      (status : Bytes) (l : Locals) (s : Service D W)
      → dones (report out num opts status l s).1.log ≡ dones s.log
  unfolding report send_progress send_message interval_ok percent_ok
  report-dones status l s = ground arith

  report-job :
      (status : Bytes) (l : Locals) (s : Service D W)
      → (report out num opts status l s).1.ozon_job_id ≡ s.ozon_job_id
  unfolding report send_progress send_message interval_ok percent_ok
  report-job status l s = ground arith

  -- The failure is recorded as the last event of the job, where runs are recorded and there is a job.
  abbrev pub IsRecorded : Bytes → Service D W → Type 0
  IsRecorded job_id s =
      opts.sync_runs_repo ≡ true
      → is_empty job_id ≡ false
      → (before : List (Event D)) × (s.log
          ≡ run_failed job_id (codes "too many consecutive network failures") ∷ before)

  finish_failed_lem :
      (error : Bytes) (s : Service D W)
      → let t = ozon_job_finish_failed out num opts error s in
        (pauses t.log ≡ pauses s.log) × (dones t.log ≡ dones s.log)
  unfolding ozon_job_finish_failed
  finish_failed_lem error s = ground arith

  finish_failed-IsRecorded :
      (s : Service D W)
      → opts.sync_runs_repo ≡ true
      → is_empty s.ozon_job_id ≡ false
      → (before : List (Event D)) × ((ozon_job_finish_failed out num opts
            (codes "too many consecutive network failures")
            s).log
          ≡ run_failed s.ozon_job_id (codes "too many consecutive network failures") ∷ before)
  unfolding ozon_job_finish_failed
  finish_failed-IsRecorded s repo job = (s.log, rw (repo, job) refl)

  -- What a failure leaves: the jobs that are done, and the job of the run.
  abbrev Same : Service D W → Service D W → Type 0
  Same s t = (dones t.log ≡ dones s.log) × (t.ozon_job_id ≡ s.ozon_job_id)

  -- The loop is given up after the tenth failure, with these pauses.
  abbrev GivesUp : Service D W → List ℕ → Next × Service D W → Type 0
  GivesUp s0 expected (go_on l, s) = ⊥
  GivesUp s0 expected (finished l, s) = ⊥
  GivesUp s0 expected (failed l, s) =
      (pauses s.log ≡ expected) × (l.consecutive_failures ≡ 10) × Same s0 s

  GivesUp-Same :
      (s t : Service D W) (expected : List ℕ) (r : Next × Service D W)
      → Same s t
      → GivesUp t expected r
      → GivesUp s expected r
  GivesUp-Same s t expected (go_on l, u) e h = h
  GivesUp-Same s t expected (finished l, u) e h = h
  GivesUp-Same s t expected (failed l, u) (a, b) (p, c, (d, e)) = (p, c, (d ∙ a, e ∙ b))

  proceed-GivesUp :
      (s0 : Service D W) (expected : List ℕ) (rest : Locals → Service D W → Next × Service D W)
      (r : Next × Service D W)
      → GivesUp s0 expected r
      → GivesUp s0 expected (proceed out num opts rest r)
  proceed-GivesUp s0 expected rest (go_on l, s) h = absurd h
  proceed-GivesUp s0 expected rest (finished l, s) h = absurd h
  proceed-GivesUp s0 expected rest (failed l, s) h = h

  -- The state in which the failure is handled.
  abbrev after_query : Locals → Service D W → Service D W
  after_query l s =
      let (stop, s1) = load_stop out s in
      record s1 { world = (out.fetch_page_cursor l.last_id s1.world).1 }

  turn-dead :
      (l : Locals) (s : Service D W)
      → IsDead
      → s.ozon_stop ≡ false
      → (turn out num opts l s ≡ on_failure out num opts l (after_query l s))
        × ((after_query l s).ozon_stop ≡ false)
        × Same s (after_query l s)
  unfolding turn
  turn-dead l s dead on = (
    rw (dead.unstopped s.world, on, dead.unanswered) refl,
    rw (dead.unstopped s.world, on) refl,
    (refl, refl),
  )

  on_failure_last :
      (l : Locals) (s : Service D W)
      → l.consecutive_failures ≡ 9
      → GivesUp s (pauses s.log) (on_failure out num opts l s)
  unfolding on_failure
  on_failure_last l s h =
      let l0 : Locals = record l { consecutive_failures = suc l.consecutive_failures } in
      let (l1, s1) = report out num opts (codes "retry") l0 s in
      let (d, f, p, o) = report-keeps (codes "retry") l0 s in
      let k = report-dones (codes "retry") l0 s in
      let j = report-job (codes "retry") l0 s in
      let (d2, f2, p2, o2) = report-keeps (codes "failed") l1 s1 in
      let k2 = report-dones (codes "failed") l1 s1 in
      let j2 = report-job (codes "failed") l1 s1 in
      let last : leb max_consecutive_failures l1.consecutive_failures ≡ true = ground arith in
      rw last (p2 ∙ p, omega arith, (k2 ∙ k, j2 ∙ j))

  on_failure_more :
      (left : ℕ) (l : Locals) (s : Service D W) (rest : Locals → Service D W → Next × Service D W)
      → l.consecutive_failures < 9
      → s.ozon_stop ≡ false
      → ((l2 : Locals) (s2 : Service D W)
          → s2.ozon_stop ≡ false
          → l2.consecutive_failures ≡ suc l.consecutive_failures
          → GivesUp s2 (backoff left l2.retry_delay_sec (pauses s2.log)) (rest l2 s2))
      → GivesUp s
          (backoff (suc left) l.retry_delay_sec (pauses s.log))
          (proceed out num opts rest (on_failure out num opts l s))
  unfolding on_failure
  on_failure_more left l s rest h on ih =
      let l0 : Locals = record l { consecutive_failures = suc l.consecutive_failures } in
      let (l1, s1) = report out num opts (codes "retry") l0 s in
      let (d, f, p, o) = report-keeps (codes "retry") l0 s in
      let k = report-dones (codes "retry") l0 s in
      let j = report-job (codes "retry") l0 s in
      let more : leb max_consecutive_failures l1.consecutive_failures ≡ false = ground arith in
      let l2 : Locals = record l1 {
        retry_delay_sec = min (l1.retry_delay_sec * 2) max_retry_delay_sec;
      } in
      let s2 = emit out (slept (l1.retry_delay_sec * 1000)) s1 in
      let pauses_same : backoff left l2.retry_delay_sec (pauses s2.log)
          ≡ backoff (suc left) l.retry_delay_sec (pauses s.log) =
        rw (d, p) refl in
      rw more (
        subst (λ e. GivesUp s e (rest l2 s2)) pauses_same
          (GivesUp-Same s s2 (backoff left l2.retry_delay_sec (pauses s2.log)) (rest l2 s2) (k, j)
            (ih l2 s2 (o ∙ on) f)))

  turns_dead :
      (left fuel : ℕ) (l : Locals) (s : Service D W)
      → IsDead
      → s.ozon_stop ≡ false
      → l.consecutive_failures + suc left ≡ 10
      → left < fuel
      → GivesUp s (backoff left l.retry_delay_sec (pauses s.log)) (turns out num opts fuel l s)
  unfolding turns
  turns_dead left zero l s dead on h k = absurd (omega arith)
  turns_dead zero (suc fuel) l s dead on h k =
      let (t, o, e) = turn-dead l s dead on in
      rw t (
        GivesUp-Same s (after_query l s) (pauses s.log) _ e (
          proceed-GivesUp (after_query l s) (pauses s.log) (λ l2 s2. turns out num opts fuel l2 s2)
            _ (on_failure_last l (after_query l s) (omega arith))))
  turns_dead (suc left) (suc fuel) l s dead on h k =
      let (t, o, e) = turn-dead l s dead on in
      rw t (
        GivesUp-Same s (after_query l s) (backoff (suc left) l.retry_delay_sec (pauses s.log)) _ e (
          on_failure_more left l (after_query l s) (λ l2 s2. turns out num opts fuel l2 s2)
            (omega arith) o
            (λ l2 s2 on2 f. turns_dead left fuel l2 s2 dead on2 (omega arith) (omega arith))))

  -- The run has ended as a failure, with these pauses.
  pub record EndsWith (expected : List ℕ) (s : Service D W) (r : Bool × Service D W) : Type 0 where
    pub has_ended : r.0 ≡ true
    pub flag : r.1.ozon_running ≡ false
    pub paused : pauses r.1.log ≡ expected
    pub none_done : dones r.1.log ≡ dones s.log
    pub recorded : IsRecorded s.ozon_job_id r.1

  ended-EndsWith :
      (expected : List ℕ) (s0 : Service D W) (r : Next × Service D W)
      → GivesUp s0 expected r
      → EndsWith expected s0 (ended out num opts r)
  unfolding ended
  ended-EndsWith expected s0 (go_on l, s) h = absurd h
  ended-EndsWith expected s0 (finished l, s) h = absurd h
  ended-EndsWith expected s0 (failed l, s) (p, c, (d, j)) =
      let (p2, d2) = finish_failed_lem (codes "too many consecutive network failures") s in
      record {
        has_ended = refl;
        flag = refl;
        paused = p2 ∙ p;
        none_done = d2 ∙ d;
        recorded =
            subst (λ z. IsRecorded z (ended out num opts (failed l, s)).1) j
              (finish_failed-IsRecorded s);
      }

  checkpoint_of-keeps :
      (source : Bytes) (s : Service D W)
      → let r = checkpoint_of out num opts source s in
        (r.1.log ≡ s.log) × (r.1.ozon_stop ≡ s.ozon_stop) × (r.1.ozon_job_id ≡ s.ozon_job_id)
  unfolding checkpoint_of
  checkpoint_of-keeps source s = ground arith

  -- If every query for a page fails on the network and nobody asks to stop, an Ozon run of at least
  -- ten turns ends and gives up: it pauses nine times, for 2, 4, 8, 16, 32 and then four times 60
  -- seconds, and then takes down the flag of a running sync. No job is recorded as done, and where runs
  -- are recorded and the run has a job, the last event is its failure.
  pub run_ozon_sync_gives_up :
      (fuel : ℕ) (s : Service D W)
      → IsDead
      → s.ozon_stop ≡ false
      → 10 ≤ fuel
      → EndsWith
          (60000 ∷ 60000 ∷ 60000 ∷ 60000 ∷ 32000 ∷ 16000 ∷ 8000 ∷ 4000 ∷ 2000 ∷ pauses s.log)
          s
          (run_ozon_sync out num opts fuel s)
  unfolding run_ozon_sync prepare
  run_ozon_sync_gives_up fuel s dead on h =
      let (loaded, s1) = checkpoint_of out num opts (codes "ozon") s in
      let (same, on1, job) = checkpoint_of-keeps (codes "ozon") s in
      let start = emit out (checkpoint_saved (started loaded)) s1 in
      let gives_up =
        turns_dead 9 fuel (first_locals loaded (started loaded)) start dead (on1 ∙ on) refl
          (omega arith) in
      subst (λ log. EndsWith (backoff 9 2 (pauses log)) s (run_ozon_sync out num opts fuel s)) same
        (ended-EndsWith (backoff 9 2 (pauses s1.log)) s _
          (GivesUp-Same s start (backoff 9 2 (pauses s1.log)) _ (ap dones same, job) gives_up))
