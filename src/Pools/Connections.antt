-- ===== src/Pools/Connections.antt =====
-- `ConnectionPool` of db_pool.hpp and its leases, which may be moved.
use mathlib.Core.List.{Perm, perm_middle, filter_map, filter_map-cons-none, filter_map-cons-some}
use mathlib.Core.List.Perm
use scand.Prelude.{
  ℕ, ◌≡◌, refl, subst, arith, Bool, true, false, List, [], ◌∷◌, ◌++◌, append_assoc, append-nil,
  Option, none, some, if◌then◌else◌, Option-cases, inl, inr,
}

-- A lease: the connection, by its number, which is null after a move; and whether the pointer to the
-- pool is set.
pub record Lease : Type 0 where
  pub conn : Option ℕ
  pub has_pool : Bool

-- `Lease() = default`.
abbrev pub empty_lease : Lease
empty_lease = record { conn = none; has_pool = false }

-- What the moves leave of their source.
abbrev pub moved_from : Lease → Lease
moved_from o = record { conn = none; has_pool = false }

-- The move constructor: the new lease, and what is left of the old one.
unfoldable pub move_construct : Lease → Lease × Lease
move_construct o = (record { conn = o.conn; has_pool = o.has_pool }, moved_from o)

-- A null pointer is not put back.
unfoldable pub release : Option ℕ → List ℕ → List ℕ
release none pool = pool
release (some c) pool = pool ++ c ∷ []

unfoldable pub destroy : Lease → List ℕ → List ℕ
destroy l pool = if l.has_pool then release l.conn pool else pool

-- The move of `o` onto another lease: both, and the pool.
unfoldable pub move_assign : Lease → Lease → List ℕ → Lease × Lease × List ℕ
move_assign l o pool =
    (record { conn = o.conn; has_pool = o.has_pool }, moved_from o, destroy l pool)

-- The first free connection, with the pool behind it; `none` while the caller waits for one.
unfoldable pub acquire : List ℕ → Option (Lease × List ℕ)
acquire [] = none
acquire (c ∷ rest) = some (record { conn = some c; has_pool = true }, rest)

-- The free connections, and all leases that have not been destroyed, in any order.
pub record ConnectionPool : Type 0 where
  pub pool : List ℕ
  pub leases : List Lease

-- What the holders do.
pub data LeaseStep : ConnectionPool → ConnectionPool → Type 0 where
  reordered :
      (pool : List ℕ) (a b : List Lease)
      → Perm a b
      → LeaseStep record { pool = pool; leases = a } record { pool = pool; leases = b }
  acquired :
      (pool rest : List ℕ) (ls : List Lease) (l : Lease)
      → acquire pool ≡ some (l, rest)
      → LeaseStep record { pool = pool; leases = ls } record { pool = rest; leases = l ∷ ls }
  declared :
      (pool : List ℕ) (ls : List Lease)
      → LeaseStep
          record { pool = pool; leases = ls }
          record { pool = pool; leases = empty_lease ∷ ls }
  move_constructed :
      (pool : List ℕ) (o : Lease) (ls : List Lease)
      → LeaseStep
          record { pool = pool; leases = o ∷ ls }
          record { pool = pool; leases = (move_construct o).0 ∷ (move_construct o).1 ∷ ls }
  move_assigned :
      (pool : List ℕ) (l o : Lease) (ls : List Lease)
      → LeaseStep
          record { pool = pool; leases = l ∷ o ∷ ls }
          record {
            pool = (move_assign l o pool).2;
            leases = (move_assign l o pool).0 ∷ (move_assign l o pool).1 ∷ ls;
          }
  -- `this == &o`.
  self_assigned : (p : ConnectionPool) → LeaseStep p p
  destroyed :
      (pool : List ℕ) (l : Lease) (ls : List Lease)
      → LeaseStep
          record { pool = pool; leases = l ∷ ls }
          record { pool = destroy l pool; leases = ls }

pub data LeaseReach (start : ConnectionPool) : ConnectionPool → Type 0 where
  here : LeaseReach start start
  then_step : {p q : ConnectionPool} → LeaseReach start p → LeaseStep p q → LeaseReach start q

-- The connection that a lease would give back.
abbrev pub held_by : Lease → Option ℕ
held_by l = if l.has_pool then l.conn else none

abbrev pub held : List Lease → List ℕ
held ls = filter_map held_by ls

-- All connections, free or held.
abbrev pub all_of : ConnectionPool → List ℕ
all_of p = p.pool ++ held p.leases

destroy_lem : (l : Lease) (pool : List ℕ) → destroy l pool ≡ release (held_by l) pool
unfolding destroy release
destroy_lem l pool = ground arith

destroy-perm :
    (l : Lease) (pool : List ℕ) (ls : List Lease)
    → Perm (pool ++ held (l ∷ ls)) (destroy l pool ++ held ls)
unfolding release
destroy-perm l pool ls = rw (destroy_lem l pool) (elim (Option-cases (held_by l)) [
  | inl q ↦ rw (q, filter_map-cons-none held_by l ls q) (Perm.refl (pool ++ held ls))
  | inr (c, q) ↦
      rw (q, filter_map-cons-some held_by l ls q, append_assoc pool (c ∷ []) (held ls))
        (Perm.refl (pool ++ c ∷ held ls))
])

empty_held : (ls : List Lease) → held (empty_lease ∷ ls) ≡ held ls
empty_held ls = filter_map-cons-none held_by empty_lease ls refl

-- A lease and an empty one hold what the lease alone does.
moved_held : (o : Lease) (ls : List Lease) → held (o ∷ empty_lease ∷ ls) ≡ held (o ∷ ls)
moved_held o ls = elim (Option-cases (held_by o)) [
  | inl q ↦
      rw (filter_map-cons-none held_by o (empty_lease ∷ ls) q, filter_map-cons-none held_by o ls q)
        (empty_held ls)
  | inr (c, q) ↦
      rw
        (
          filter_map-cons-some held_by o (empty_lease ∷ ls) q,
          filter_map-cons-some held_by o ls q,
          empty_held ls,
        )
        refl
]

-- The connections behind `acquire`.
abbrev behind : List Lease → Option (Lease × List ℕ) → List ℕ
behind ls none = []
behind ls (some (l, rest)) = rest ++ held (l ∷ ls)

acquire-perm :
    (pool rest : List ℕ) (ls : List Lease) (l : Lease)
    → acquire pool ≡ some (l, rest)
    → Perm (pool ++ held ls) (rest ++ held (l ∷ ls))
unfolding acquire
acquire-perm [] rest ls l h = absurd (ground (arith, h))
acquire-perm (c ∷ pool) rest ls l h =
    let new : Lease = record { conn = some c; has_pool = true } in
    subst (λ r. Perm (c ∷ (pool ++ held ls)) (behind ls r)) h
      (rw (filter_map-cons-some held_by new ls refl) (Perm.symm (perm_middle pool (held ls))))

LeaseStep-perm : {p q : ConnectionPool} → LeaseStep p q → Perm (all_of p) (all_of q)
unfolding move_construct move_assign
LeaseStep-perm (reordered pool a b h) = Perm.append (Perm.refl pool) (Perm.filter_map held_by h)
LeaseStep-perm (acquired pool rest ls l h) = acquire-perm pool rest ls l h
LeaseStep-perm (declared pool ls) = rw (empty_held ls) (Perm.refl (pool ++ held ls))
LeaseStep-perm (move_constructed pool o ls) =
    rw (moved_held o ls) (Perm.refl (pool ++ held (o ∷ ls)))
LeaseStep-perm (move_assigned pool l o ls) = rw (moved_held o ls) (destroy-perm l pool (o ∷ ls))
LeaseStep-perm (self_assigned p) = Perm.refl (all_of p)
LeaseStep-perm (destroyed pool l ls) = destroy-perm l pool ls

LeaseReach-perm : {p q : ConnectionPool} → LeaseReach p q → Perm (all_of p) (all_of q)
LeaseReach-perm {p} here = Perm.refl (all_of p)
LeaseReach-perm (then_step r step) = Perm.trans (LeaseReach-perm r) (LeaseStep-perm step)

-- In every state that the pool can come to, however the leases are taken, moved onto new and onto other
-- leases, and destroyed, the free connections and those that the leases would give back are the
-- connections it began with, each once: none is lost, and none is given back twice.
pub pool_keeps_connections :
    (connections : List ℕ) (p : ConnectionPool)
    → LeaseReach (record { pool = connections; leases = [] }) p
    → Perm connections (p.pool ++ held p.leases)
unfolding filter_map
pool_keeps_connections connections p r =
    subst (λ cs. Perm cs (all_of p)) (append-nil connections) (LeaseReach-perm r)
