-- ===== src/Pools/Workers.antt =====
-- `WorkerPool` of worker_pool.cpp. Exceptions of a task are caught there, so a task that ends has run.
use mathlib.Core.List.{Perm, perm_append_comm}
use mathlib.Core.List.Perm
use scand.Prelude.{
  ℕ, ◌≤◌, ◌≡◌, refl, ◌⊎◌, ap, sym, subst, ◌∙◌, Bool, true, false, not, ◌&&◌, ◌||◌, List, [], ◌∷◌,
  ◌++◌, append-nil, append_assoc, arith, leb, ◌==◌, is_empty, length, length-append, Bool-cases,
  inl, inr, if◌then◌else◌,
}

-- The members under the lock, with the tasks by their numbers; `running` are those that workers have
-- taken and not ended, `active_` of them. `accepted` and `ended` record the past.
pub record WorkerPool : Type 0 where
  pub max_queue : ℕ
  pub tasks : List ℕ
  pub running : List ℕ
  pub accepting : Bool
  pub stopping : Bool
  pub accepted : List ℕ
  pub taken : List ℕ
  pub ended : List ℕ

abbrev pub new_pool : ℕ → WorkerPool
new_pool max_queue = record {
  max_queue = max_queue;
  tasks = [];
  running = [];
  accepting = true;
  stopping = false;
  accepted = [];
  taken = [];
  ended = [];
}

unfoldable pub try_submit : ℕ → WorkerPool → Bool × WorkerPool
try_submit task p =
    if p.stopping || not p.accepting
    then (false, p)
    else if leb p.max_queue (length p.tasks)
    then (false, p)
    else (true, record p { tasks = p.tasks ++ task ∷ []; accepted = p.accepted ++ task ∷ [] })

unfoldable pub stop_accepting : WorkerPool → WorkerPool
stop_accepting p = record p { accepting = false }

-- The destructor before it waits for the workers.
unfoldable pub begin_stop : WorkerPool → WorkerPool
begin_stop p = record p { stopping = true; accepting = false }

unfoldable pub queued : WorkerPool → ℕ
queued p = length p.tasks

-- What `wait_idle` waits for.
unfoldable pub is_idle : WorkerPool → Bool
is_idle p = is_empty p.tasks && (length p.running == 0)

-- A worker leaves its loop here.
unfoldable pub may_leave : WorkerPool → Bool
may_leave p = p.stopping && is_empty p.tasks

-- What the threads may do. A worker takes the task at the front, and ends one that it has taken.
pub data WorkerStep : WorkerPool → WorkerPool → Type 0 where
  submit : (task : ℕ) (p : WorkerPool) → WorkerStep p (try_submit task p).1
  refuse_more : (p : WorkerPool) → WorkerStep p (stop_accepting p)
  stop : (p : WorkerPool) → WorkerStep p (begin_stop p)
  take_task :
      (p : WorkerPool) (task : ℕ) (rest : List ℕ)
      → p.tasks ≡ task ∷ rest
      → WorkerStep p (record p {
        tasks = rest;
        running = p.running ++ task ∷ [];
        taken = p.taken ++ task ∷ [];
      })
  end_task :
      (p : WorkerPool) (pre post : List ℕ) (task : ℕ)
      → p.running ≡ pre ++ task ∷ post
      → WorkerStep p (record p { running = pre ++ post; ended = task ∷ p.ended })

pub data WorkerReach (start : WorkerPool) : WorkerPool → Type 0 where
  here : WorkerReach start start
  then_step : {p q : WorkerPool} → WorkerReach start p → WorkerStep p q → WorkerReach start q

-- The tasks are taken in the order in which they were accepted, each once; those that were taken have
-- ended or are running; and the queue is never longer than it may be.
abbrev pub IsFair : WorkerPool → Type 0
IsFair p =
    (p.taken ++ p.tasks ≡ p.accepted)
    × Perm p.taken (p.running ++ p.ended)
    × (length p.tasks ≤ p.max_queue)

move_left : {A : Type 0} (a : A) (x y : List A) → Perm (x ++ (y ++ a ∷ [])) ((x ++ a ∷ []) ++ y)
move_left a x y =
    rw (append_assoc x (a ∷ []) y) (Perm.append (Perm.refl x) (perm_append_comm y (a ∷ [])))

move_right : {A : Type 0} (a : A) (x y z : List A) → Perm ((x ++ a ∷ y) ++ z) ((x ++ y) ++ a ∷ z)
move_right a x y z =
    rw (append_assoc x (a ∷ y) z, append_assoc x y (a ∷ z))
      (Perm.append (Perm.refl x) (
        subst (λ r. Perm (a ∷ (y ++ z)) r) (append_assoc y (a ∷ []) z)
          (Perm.append (perm_append_comm (a ∷ []) y) (Perm.refl z))))

submit-IsFair : (task : ℕ) (p : WorkerPool) → IsFair p → IsFair (try_submit task p).1
unfolding try_submit
submit-IsFair task p (order, perm, short) = elim (Bool-cases (p.stopping || not p.accepting)) [
  | inl closed ↦ rw closed (order, perm, short)
  | inr opened ↦ elim (Bool-cases (leb p.max_queue (length p.tasks))) [
    | inl full ↦ rw (opened, full) (order, perm, short)
    | inr free ↦
        rw (opened, free)
          (
            sym (append_assoc p.taken p.tasks (task ∷ [])) ∙ ap (λ r. r ++ task ∷ []) order,
            perm,
            ground (arith, length-append p.tasks (task ∷ [])),
          )
  ]
]

WorkerStep-IsFair : {p q : WorkerPool} → WorkerStep p q → IsFair p → IsFair q
unfolding try_submit stop_accepting begin_stop
WorkerStep-IsFair (submit task p) h = submit-IsFair task p h
WorkerStep-IsFair (refuse_more p) h = h
WorkerStep-IsFair (stop p) h = h
WorkerStep-IsFair (take_task p task rest e) (order, perm, short) = (
  append_assoc p.taken (task ∷ []) rest ∙ ap (λ r. p.taken ++ r) (sym e) ∙ order,
  Perm.trans (Perm.append perm (Perm.refl (task ∷ [])))
      (rw (append_assoc p.running p.ended (task ∷ [])) (move_left task p.running p.ended)),
  omega (arith, ap length e),
)
WorkerStep-IsFair (end_task p pre post task e) (order, perm, short) = (
  order,
  Perm.trans (subst (λ r. Perm p.taken (r ++ p.ended)) e perm) (move_right task pre post p.ended),
  short,
)

WorkerReach-IsFair : {p q : WorkerPool} → WorkerReach p q → IsFair p → IsFair q
WorkerReach-IsFair here h = h
WorkerReach-IsFair (then_step r step) h = WorkerStep-IsFair step (WorkerReach-IsFair r h)

-- In every state that a new pool can come to, the tasks were taken in the order in which they were
-- accepted, none is lost or taken twice, and the queue is not longer than it may be; and if the pool is
-- idle, exactly the accepted tasks have ended.
pub pool_serves_all :
    (max_queue : ℕ) (p : WorkerPool)
    → WorkerReach (new_pool max_queue) p
    → IsFair p × ((is_idle p ≡ false) ⊎ Perm p.accepted p.ended)
unfolding is_idle
pool_serves_all max_queue p r =
    let h = WorkerReach-IsFair r (refl, Perm.nil, omega arith) in
    (h, settled p.tasks p.running h refl refl)
  where
    settled :
        (tasks running : List ℕ)
        → IsFair p
        → p.tasks ≡ tasks
        → p.running ≡ running
        → (is_idle p ≡ false) ⊎ Perm p.accepted p.ended
    settled (t ∷ tasks) running h e f = inl (rw e refl)
    settled [] (t ∷ running) h e f = inl (rw (e, f) (ground arith))
    settled [] [] (order, perm, short) e f =
        let all = sym (append-nil p.taken) ∙ ap (λ r. p.taken ++ r) (sym e) ∙ order in
        inr (subst (λ r. Perm r p.ended) all (subst (λ r. Perm p.taken (r ++ p.ended)) f perm))
