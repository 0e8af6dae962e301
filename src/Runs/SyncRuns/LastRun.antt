-- ===== src/Runs/SyncRuns/LastRun.antt =====
-- The last run of a source, from its start to its end.
use scand.Prelude.{
  ℕ, ◌-◌, ◌<◌, ◌≡◌, refl, ap, ◌∙◌, Bool, true, false, some, List, [], ◌∷◌, ◌++◌, Bytes, arith,
  bytes_eq, bytes_eq_refl, ==_refl, if◌then◌else◌, ltb, keep, All, Bool-cases, inl, inr,
}
use scand.Runs.Statements.{
  first_by, update_where, keep-append, update_where-append, update_where_leaves,
}
use scand.Runs.SyncRuns.{
  Counts, RunRow, SyncRuns, running, finished, started_row, start, of_source, of_job, is_running,
  done_row, finish_done, abandoned_row, abandon_running, SyncRunRecord, found, conversion_error,
  query_one, higher_id, last_run,
}

-- The numbers of the rows are below that of the sequence.
abbrev pub IsSerial : SyncRuns → Type 0
IsSerial t = All (λ (r : RunRow). r.id < t.next_id) t.rows

-- A row with a number above all the others is the last one.
first_by_last :
    (rows : List RunRow) (r : RunRow)
    → All (λ (s : RunRow). s.id < r.id) rows
    → first_by higher_id (rows ++ r ∷ []) ≡ some r
first_by_last [] r h = refl
first_by_last (s ∷ rows) r (l, h) =
    let above : ltb s.id r.id ≡ true = ground (arith, l) in rw (first_by_last rows r h, above) refl

keep-below :
    (p : RunRow → Bool) (n : ℕ) (rows : List RunRow)
    → All (λ (s : RunRow). s.id < n) rows
    → All (λ (s : RunRow). s.id < n) (keep p rows)
keep-below p n [] h = tt
keep-below p n (s ∷ rows) (l, h) = elim (Bool-cases (p s)) [
  | inl q ↦ rw q (l, keep-below p n rows h)
  | inr q ↦ rw q (keep-below p n rows h)
]

of_source_started :
    (id : ℕ) (source job_id : Bytes) (tenant_id now : ℕ)
    → of_source tenant_id source (started_row id source job_id tenant_id now) ≡ true
unfolding of_source started_row
of_source_started id source job_id tenant_id now =
    ground (arith, ==_refl tenant_id, bytes_eq_refl source)

of_job_started :
    (id : ℕ) (source job_id : Bytes) (tenant_id now : ℕ)
    → of_job tenant_id source job_id (started_row id source job_id tenant_id now) ≡ true
unfolding of_job of_source started_row
of_job_started id source job_id tenant_id now =
    ground (arith, ==_refl tenant_id, bytes_eq_refl source, bytes_eq_refl job_id)

of_source_done :
    (id : ℕ) (source job_id : Bytes) (tenant_id now later : ℕ) (counts : Counts)
    → of_source tenant_id source
        (done_row later counts (started_row id source job_id tenant_id now))
      ≡ true
unfolding of_source done_row started_row
of_source_done id source job_id tenant_id now later counts =
    ground (arith, ==_refl tenant_id, bytes_eq_refl source)

-- The row with the highest number of a source, behind the row that was appended.
last_appended :
    (tenant_id : ℕ) (source : Bytes) (rows : List RunRow) (new : RunRow)
    → All (λ (r : RunRow). r.id < new.id) rows
    → of_source tenant_id source new ≡ true
    → first_by higher_id (keep (of_source tenant_id source) (rows ++ new ∷ [])) ≡ some new
last_appended tenant_id source rows new h q =
    rw (keep-append (of_source tenant_id source) rows (new ∷ []), q)
      (first_by_last (keep (of_source tenant_id source) rows) new
        (keep-below (of_source tenant_id source) new.id rows h))

last_run-start :
    (source job_id : Bytes) (tenant_id now : ℕ) (t : SyncRuns)
    → IsSerial t
    → last_run tenant_id source (start source job_id tenant_id now t) ≡ conversion_error
unfolding last_run start query_one started_row
last_run-start source job_id tenant_id now t h =
    let new = started_row t.next_id source job_id tenant_id now in
    ap query_one (
      last_appended tenant_id source t.rows new h
        (of_source_started t.next_id source job_id tenant_id now))

update_where-below :
    (p : RunRow → Bool) (f : RunRow → RunRow) (n : ℕ) (rows : List RunRow)
    → ((r : RunRow) → (f r).id ≡ r.id)
    → All (λ (s : RunRow). s.id < n) rows
    → All (λ (s : RunRow). s.id < n) (update_where p f rows)
update_where-below p f n [] e h = tt
update_where-below p f n (s ∷ rows) e (l, h) = (placed (p s), update_where-below p f n rows e h)
  where
    placed : (b : Bool) → (if b then f s else s).id < n
    placed true = rw (e s) l
    placed false = l

-- What is recorded of a run that was started and finished.
abbrev pub record_of_run : ℕ → Bytes → Bytes → Counts → ℕ → ℕ → SyncRunRecord
record_of_run id source job_id counts now later = record {
  id = id;
  source = source;
  job_id = job_id;
  status = finished;
  stage = finished;
  started_at = now;
  finished_at = some later;
  duration_ms = later - now;
  counts = counts;
  error = [];
}

last_run-finish_done :
    (source job_id : Bytes) (tenant_id now later : ℕ) (counts : Counts) (t : SyncRuns)
    → IsSerial t
    → last_run tenant_id source
        (finish_done tenant_id source job_id counts later (start source job_id tenant_id now t))
      ≡ found (record_of_run t.next_id source job_id counts now later)
unfolding last_run start finish_done done_row query_one started_row
last_run-finish_done source job_id tenant_id now later counts t h =
    let p = of_job tenant_id source job_id in
    let f = done_row later counts in
    let new = started_row t.next_id source job_id tenant_id now in
    ap query_one (
      ap (λ rows. first_by higher_id (keep (of_source tenant_id source) rows))
        (update_where-append p f t.rows (new ∷ [])
          ∙ ap (λ r. update_where p f t.rows ++ r ∷ [])
              (rw (of_job_started t.next_id source job_id tenant_id now) refl))
      ∙ last_appended tenant_id source (update_where p f t.rows) (f new)
          (update_where-below p f t.next_id t.rows (λ r. refl) h)
          (of_source_done t.next_id source job_id tenant_id now later counts))

-- A run that was started is the last one of its source: until it ends, the query for it fails with the
-- exception on a null column, and when it is finished, the query gives its record with the counts,
-- the times and the duration.
pub last_run_of_run :
    (source job_id : Bytes) (tenant_id now later : ℕ) (counts : Counts) (t : SyncRuns)
    → IsSerial t
    → (last_run tenant_id source (start source job_id tenant_id now t) ≡ conversion_error)
      × (last_run tenant_id source
            (finish_done tenant_id source job_id counts later (start source job_id tenant_id now t))
          ≡ found (record_of_run t.next_id source job_id counts now later))
last_run_of_run source job_id tenant_id now later counts t h = (
  last_run-start source job_id tenant_id now t h,
  last_run-finish_done source job_id tenant_id now later counts t h,
)

abandoned_closed :
    (tenant_id : ℕ) (source reason : Bytes) (now : ℕ) (r : RunRow)
    → is_running tenant_id source (abandoned_row reason now r) ≡ false
unfolding is_running abandoned_row bytes_eq
abandoned_closed tenant_id source reason now r = ground arith

is_running_started :
    (id : ℕ) (source job_id : Bytes) (tenant_id now : ℕ)
    → is_running tenant_id source (started_row id source job_id tenant_id now) ≡ true
unfolding is_running of_source started_row
is_running_started id source job_id tenant_id now =
    ground (arith, ==_refl tenant_id, bytes_eq_refl source, bytes_eq_refl running)

-- When the running runs of a source are abandoned and one is started, then this one alone is running.
pub start-abandon_running :
    (source job_id reason : Bytes) (tenant_id now : ℕ) (t : SyncRuns)
    → keep
        (is_running tenant_id source)
        (start source job_id tenant_id now (abandon_running tenant_id source reason now t)).rows
      ≡ started_row t.next_id source job_id tenant_id now ∷ []
unfolding start abandon_running
start-abandon_running source job_id reason tenant_id now t =
    let p = is_running tenant_id source in
    let new = started_row t.next_id source job_id tenant_id now in
    rw
      (
        keep-append p (update_where p (abandoned_row reason now) t.rows) (new ∷ []),
        update_where_leaves p (abandoned_row reason now) t.rows
            (abandoned_closed tenant_id source reason now),
        is_running_started t.next_id source job_id tenant_id now,
      )
      refl
