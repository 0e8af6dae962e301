-- ===== src/Ka2/Workers.antt =====
-- The worker threads of `read_chunked_parallel` and `read_balance_chunked` in onec_ka2_inventory.cpp:
-- every interleaving of their locked sections. What one thread does with its chunk between two
-- sections is a function of the chunk here.
pub mod Delivery
use mathlib.Core.List.{Perm, perm_append_comm}
use mathlib.Core.List.Perm
use scand.Prelude.{
  ℕ, zero, suc, ◌+◌, ◌≤◌, ◌≡◌, refl, sym, ap, Bool, true, false, List, [], ◌∷◌, ◌++◌, append_assoc,
  append-nil, length, drop, flat_map, flat_map-append, arith, drop-drop, subst,
}

-- Where a thread stands: before its next chunk, with a claimed chunk, or returned.
pub data Worker (C : Type 0) : Type 0 where
  ready : Worker C
  holding : C → Worker C
  returned : Worker C

-- The captured variables: the next index, the threads and the result.
pub record Shared (C O : Type 0) : Type 0 where
  pub next : ℕ
  pub workers : List (Worker C)
  pub result : List O

module _ {C O : Type 0} (process : C → List O) (chunks : List C) (stoppable : Bool) where
  -- One locked section of one thread, or its look at the stop flag after a claim.
  pub data Step (s : Shared C O) : Shared C O → Type 0 where
    claim :
        (pre post : List (Worker C)) (c : C) (rest : List C) (t : Shared C O)
        → s.workers ≡ pre ++ ready ∷ post
        → drop s.next chunks ≡ c ∷ rest
        → t ≡ record s { next = suc s.next; workers = pre ++ holding c ∷ post }
        → Step s t
    leave :
        (pre post : List (Worker C)) (t : Shared C O)
        → s.workers ≡ pre ++ ready ∷ post
        → drop s.next chunks ≡ []
        → t ≡ record s { workers = pre ++ returned ∷ post }
        → Step s t
    stop :
        (pre post : List (Worker C)) (c : C) (t : Shared C O)
        → stoppable ≡ true
        → s.workers ≡ pre ++ holding c ∷ post
        → t ≡ record s { workers = pre ++ returned ∷ post }
        → Step s t
    deliver :
        (pre post : List (Worker C)) (c : C) (t : Shared C O)
        → s.workers ≡ pre ++ holding c ∷ post
        → t ≡ record s { workers = pre ++ ready ∷ post; result = s.result ++ process c }
        → Step s t

  pub data Reach (s : Shared C O) : Shared C O → Type 0 where
    here : Reach s s
    then_step : {t u : Shared C O} → Reach s t → Step t u → Reach s u

-- The threads at the start.
abbrev pub all_ready : {C : Type 0} → ℕ → List (Worker C)
all_ready zero = []
all_ready (suc n) = ready ∷ all_ready n

abbrev pub launched : {C O : Type 0} → ℕ → Shared C O
launched workers = record { next = 0; workers = all_ready workers; result = [] }

-- No thread holds a chunk or waits to claim one.
abbrev pub AllReturned : {C : Type 0} → List (Worker C) → Type 0
AllReturned [] = Unit
AllReturned (returned ∷ ws) = AllReturned ws
AllReturned (ready ∷ ws) = ⊥
AllReturned (holding c ∷ ws) = ⊥
