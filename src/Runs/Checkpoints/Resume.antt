-- ===== src/Runs/Checkpoints/Resume.antt =====
-- What a restart of the service finds of a pull that was going on.
use scand.Prelude.{
  ℕ, ◌≡◌, refl, ap, ◌∙◌, ◌&&◌, Bool, true, false, none, some, List, [], ◌∷◌, ◌++◌, Bytes, codes,
  arith, bytes_eq, bytes_eq_refl, ==_refl, if◌then◌else◌, keep, All,
}
use scand.Json.{or_else}
use scand.Runs.Statements.{update_where, first_by, keep-append, update_where-append}
use scand.Runs.Checkpoints.{
  Saved, CheckpointRow, Checkpoints, running, interrupted, has_status, is_open, superseded_row,
  started_row, start, of_job, updated_row, update, later_updated, checkpoint_of, selected,
  find_unfinished, interrupted_row, mark_interrupted,
}

-- No checkpoint of the tenant is running or interrupted.
abbrev pub IsClosed : ℕ → List CheckpointRow → Type 0
IsClosed tenant_id rows = All (λ r. is_open tenant_id r ≡ false) rows

superseded_lem :
    (tenant_id now : ℕ) (r : CheckpointRow) → is_open tenant_id (superseded_row now r) ≡ false
unfolding is_open superseded_row bytes_eq
superseded_lem tenant_id now r = ground arith

superseded-IsClosed :
    (tenant_id now : ℕ) (rows : List CheckpointRow)
    → IsClosed tenant_id (update_where (is_open tenant_id) (superseded_row now) rows)
superseded-IsClosed tenant_id now [] = tt
superseded-IsClosed tenant_id now (r ∷ rows) =
    (placed (is_open tenant_id r) refl, superseded-IsClosed tenant_id now rows)
  where
    superseded : is_open tenant_id (superseded_row now r) ≡ false
    superseded = superseded_lem tenant_id now r

    placed :
        (b : Bool)
        → is_open tenant_id r ≡ b
        → is_open tenant_id (if b then superseded_row now r else r) ≡ false
    placed true e = superseded
    placed false e = e

update_closed :
    (p : CheckpointRow → Bool) (f : CheckpointRow → CheckpointRow) (tenant_id : ℕ)
    (rows : List CheckpointRow)
    → ((r : CheckpointRow) → is_open tenant_id r ≡ false → p r ≡ false)
    → IsClosed tenant_id rows
    → update_where p f rows ≡ rows
update_closed p f tenant_id [] h c = refl
update_closed p f tenant_id (r ∷ rows) h (e, c) =
    ground (arith, h r e, update_closed p f tenant_id rows h c)

keep_closed :
    (p : CheckpointRow → Bool) (tenant_id : ℕ) (rows : List CheckpointRow)
    → ((r : CheckpointRow) → is_open tenant_id r ≡ false → p r ≡ false)
    → IsClosed tenant_id rows
    → keep p rows ≡ []
keep_closed p tenant_id [] h c = refl
keep_closed p tenant_id (r ∷ rows) h (e, c) =
    ground (arith, h r e, keep_closed p tenant_id rows h c)

-- Behind closed rows a statement reaches the last one only.
update_last :
    (p : CheckpointRow → Bool) (f : CheckpointRow → CheckpointRow) (tenant_id : ℕ)
    (rows : List CheckpointRow) (new : CheckpointRow)
    → ((r : CheckpointRow) → is_open tenant_id r ≡ false → p r ≡ false)
    → IsClosed tenant_id rows
    → p new ≡ true
    → update_where p f (rows ++ new ∷ []) ≡ rows ++ f new ∷ []
update_last p f tenant_id rows new h c q =
    update_where-append p f rows (new ∷ []) ∙ rw (update_closed p f tenant_id rows h c, q) refl

keep_last :
    (p : CheckpointRow → Bool) (tenant_id : ℕ) (rows : List CheckpointRow) (new : CheckpointRow)
    → ((r : CheckpointRow) → is_open tenant_id r ≡ false → p r ≡ false)
    → IsClosed tenant_id rows
    → p new ≡ true
    → keep p (rows ++ new ∷ []) ≡ new ∷ []
keep_last p tenant_id rows new h c q =
    keep-append p rows (new ∷ []) ∙ rw (keep_closed p tenant_id rows h c, q) refl

-- The conditions of the statements imply that the checkpoint is open.
closed_not :
    (tenant_id : ℕ) (r : CheckpointRow)
    → is_open tenant_id r ≡ false
    → (has_status tenant_id running r ≡ false) × (has_status tenant_id interrupted r ≡ false)
unfolding is_open has_status
closed_not tenant_id r h = (ground arith, ground arith)

closed_not_updated :
    (tenant_id : ℕ) (job_id : Bytes) (r : CheckpointRow)
    → is_open tenant_id r ≡ false
    → (of_job tenant_id job_id r && bytes_eq r.status running) ≡ false
unfolding is_open of_job
closed_not_updated tenant_id job_id r h = ground arith

-- The rows in front of the one that `start` inserts.
abbrev before : ℕ → ℕ → Checkpoints → List CheckpointRow
before tenant_id now t = update_where (is_open tenant_id) (superseded_row now) t.rows

started_lem :
    (id : ℕ) (job_id : Bytes) (tenant_id now : ℕ)
    → (has_status tenant_id running (started_row id job_id tenant_id now) ≡ true)
      × (has_status tenant_id interrupted (started_row id job_id tenant_id now) ≡ false)
      × ((of_job tenant_id job_id (started_row id job_id tenant_id now)
            && bytes_eq (started_row id job_id tenant_id now).status running)
          ≡ true)
unfolding has_status of_job started_row bytes_eq
started_lem id job_id tenant_id now = (
  ground (arith, ==_refl tenant_id),
  ground arith,
  ground (arith, ==_refl tenant_id, bytes_eq_refl job_id),
)

-- After the start of a pull its checkpoint is the only one of the tenant that is running, and none is
-- found to be taken up.
pub start_supersedes :
    (job_id : Bytes) (tenant_id now : ℕ) (t : Checkpoints)
    → (keep (has_status tenant_id running) (start job_id tenant_id now t).rows
        ≡ started_row t.next_id job_id tenant_id now ∷ [])
      × (find_unfinished tenant_id (start job_id tenant_id now t) ≡ none)
unfolding start find_unfinished
start_supersedes job_id tenant_id now t =
    let new = started_row t.next_id job_id tenant_id now in
    let (runs, idle, own) = started_lem t.next_id job_id tenant_id now in
    let old = before tenant_id now t in
    let closed = superseded-IsClosed tenant_id now t.rows in
    (
      keep_last (has_status tenant_id running) tenant_id old new
          (λ r e. (closed_not tenant_id r e).0) closed runs,
      rw
          (
            keep-append (has_status tenant_id interrupted) old (new ∷ []),
            keep_closed (has_status tenant_id interrupted) tenant_id old
                (λ r e. (closed_not tenant_id r e).1) closed,
            idle,
          )
          refl,
    )

left_lem :
    (id : ℕ) (job_id : Bytes) (tenant_id : ℕ) (saved : Saved) (reason : Bytes)
    (began now stopped : ℕ)
    → (has_status tenant_id running (updated_row saved now (started_row id job_id tenant_id began))
        ≡ true)
      × (has_status tenant_id interrupted (
            interrupted_row reason stopped
              (updated_row saved now (started_row id job_id tenant_id began)))
          ≡ true)
unfolding has_status updated_row started_row interrupted_row bytes_eq
left_lem id job_id tenant_id saved reason began now stopped =
    (ground (arith, ==_refl tenant_id), ground (arith, ==_refl tenant_id))

-- If the service is restarted while a pull is going on, then the checkpoint that is found afterwards is
-- that of this pull, under its job and with the time of its start, with all that its last update has
-- saved, where a text that is null is read as empty, with the status "interrupted", the reason of the
-- interruption as its error, and the time of it, whatever was in the table before.
pub find_unfinished-mark_interrupted :
    (job_id : Bytes) (tenant_id began now stopped : ℕ) (saved : Saved) (reason : Bytes)
    (t : Checkpoints)
    → find_unfinished tenant_id (
        mark_interrupted reason tenant_id stopped
          (update job_id saved tenant_id now (start job_id tenant_id began t)))
      ≡ some record {
        id = t.next_id;
        job_id = job_id;
        source = codes "inventory_pull";
        last_stage = saved.last_stage;
        period = or_else saved.period [];
        batch_id = or_else saved.batch_id [];
        product_keys = or_else saved.product_keys [];
        offer_by_ref = or_else saved.offer_by_ref [];
        products_accepted = saved.accepted;
        products_migrated = saved.migrated;
        products_conflicts = saved.conflicts;
        started_at = began;
        updated_at = stopped;
        finished_at = some stopped;
        status = codes "interrupted";
        error = reason;
      }
unfolding start find_unfinished mark_interrupted update checkpoint_of interrupted_row updated_row
    started_row
find_unfinished-mark_interrupted job_id tenant_id began now stopped saved reason t =
    let new = started_row t.next_id job_id tenant_id began in
    let (runs, idle, own) = started_lem t.next_id job_id tenant_id began in
    let (still, left) = left_lem t.next_id job_id tenant_id saved reason began now stopped in
    let old = before tenant_id began t in
    let closed = superseded-IsClosed tenant_id began t.rows in
    ap (λ rows. selected (first_by later_updated (keep (has_status tenant_id interrupted) rows)))
      (ap (update_where (has_status tenant_id running) (interrupted_row reason stopped)) (
          update_last (λ r. of_job tenant_id job_id r && bytes_eq r.status running)
            (updated_row saved now) tenant_id old new (closed_not_updated tenant_id job_id) closed
            own)
        ∙ update_last (has_status tenant_id running) (interrupted_row reason stopped) tenant_id old
            (updated_row saved now new) (λ r e. (closed_not tenant_id r e).0) closed still)
    ∙ ap (λ rows. selected (first_by later_updated rows))
        (keep_last (has_status tenant_id interrupted) tenant_id old
          (interrupted_row reason stopped (updated_row saved now new))
          (λ r e. (closed_not tenant_id r e).1) closed left)
