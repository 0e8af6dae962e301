-- ===== src/Pools/Tests.antt =====
-- Concrete steps of the pools.
use mathlib.Core.List.{Perm}
use scand.Prelude.{◌≡◌, refl, ◌⊎◌, false, true, some, [], ◌∷◌, ◌++◌}
use scand.Pools.Workers.{
  WorkerPool, new_pool, try_submit, is_idle, WorkerReach, here, then_step, submit, IsFair,
  pool_serves_all,
}
use scand.Pools.Connections
use scand.Pools.Connections.{
  ConnectionPool, Lease, empty_lease, acquire, move_assign, destroy, held, release,
  pool_keeps_connections,
}

abbrev submitted : WorkerPool
submitted = (try_submit 7 (new_pool 1)).1

submitted_Reach : WorkerReach (new_pool 1) submitted
submitted_Reach = then_step here (submit 7 (new_pool 1))

pool_serves_all_example :
    IsFair submitted × ((is_idle submitted ≡ false) ⊎ Perm submitted.accepted submitted.ended)
pool_serves_all_example = pool_serves_all 1 submitted submitted_Reach

-- The second task finds the queue full.
second_refused : (try_submit 8 submitted).0 ≡ false
unfolding try_submit
second_refused = refl

-- A lease is taken and moved onto an empty one.
abbrev one_leased : ConnectionPool
one_leased = record {
  pool = 2 ∷ [];
  leases = record { conn = some 1; has_pool = true } ∷ empty_lease ∷ [];
}

one_leased_Reach : Connections.LeaseReach (record { pool = 1 ∷ 2 ∷ []; leases = [] }) one_leased
unfolding acquire move_assign destroy
one_leased_Reach =
    let taken : Lease = record { conn = some 1; has_pool = true } in
    Connections.then_step
      (Connections.then_step
        (Connections.then_step Connections.here
          (Connections.acquired (1 ∷ 2 ∷ []) (2 ∷ []) [] taken refl))
        (Connections.declared (2 ∷ []) (taken ∷ [])))
      (Connections.move_assigned (2 ∷ []) empty_lease taken [])

pool_keeps_connections_example : Perm (1 ∷ 2 ∷ []) (one_leased.pool ++ held one_leased.leases)
pool_keeps_connections_example = pool_keeps_connections (1 ∷ 2 ∷ []) one_leased one_leased_Reach
