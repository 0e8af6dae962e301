-- ===== src/Sync/State.antt =====
-- The data of the synchronisation: product.hpp, sync_checkpoint.hpp, `OzonPage` of ozon_client.hpp,
-- `SyncStateStore` of sync_state.cpp, and the members of `SyncService`. What the service calls is the
-- interface `Outside`; all it does there is one `Event` each, kept in a record, the newest first.
use scand.Prelude.{
  ℕ, ◌≡◌, Bool, ◌||◌, List, [], ◌∷◌, Bytes, Option, none, some, if◌then◌else◌, bytes_eq,
  bytes_eq_iff, lookup, insert, erase, lookup-insert, lookup-erase, arith,
}

pub record Product1C (D : Type 0) : Type 0 where
  pub id : Bytes
  pub offer_id : Bytes
  pub name : Bytes
  pub price : D

pub record OzonProduct (D : Type 0) : Type 0 where
  pub id : Bytes
  pub sku : Bytes
  pub name : Bytes
  pub price : D
  pub currency : Bytes
  pub in_stock : ℕ
  pub description : Bytes
  pub weight : ℕ
  pub created_at : Bytes
  pub updated_at : Bytes
  pub scategorie : Bytes
  pub related_products : Bytes

pub record OzonPage (D : Type 0) : Type 0 where
  pub items : List (OzonProduct D)
  pub last_id : Bytes
  pub has_more : Bool
  pub network_error : Bool
  pub total : ℕ

-- `last_notified_percent` is `none` for -1.
pub record SyncCheckpoint : Type 0 where
  pub source : Bytes
  pub last_cursor : Bytes
  pub last_page : ℕ
  pub total_synced : ℕ
  pub dirty_pages : ℕ
  pub total_expected : ℕ
  pub last_notified_percent : Option ℕ
  pub last_status : Bytes

pub record SyncProgress (D : Type 0) : Type 0 where
  pub source : Bytes
  pub processed : ℕ
  pub total : ℕ
  pub percent : D
  pub status : Bytes

-- `SyncStateStore`: its map, and its four operations.
abbrev pub SyncStateStore : Type 0
SyncStateStore = List (Bytes × SyncCheckpoint)

unfoldable pub get : Bytes → SyncStateStore → Option SyncCheckpoint
get source store = lookup source store

unfoldable pub set : SyncCheckpoint → SyncStateStore → SyncStateStore
set cp store = insert cp.source cp store

unfoldable pub mark_synced : Bytes → SyncStateStore → SyncStateStore
mark_synced source [] = []
mark_synced source ((k, cp) ∷ store) =
    if bytes_eq k source
    then (k, record cp { dirty_pages = 0 }) ∷ store
    else (k, cp) ∷ mark_synced source store

unfoldable pub remove : Bytes → SyncStateStore → SyncStateStore
remove source store = erase source store

-- What `dirty_pages = 0` makes of an entry that is there.
abbrev pub synced : Option SyncCheckpoint → Option SyncCheckpoint
synced none = none
synced (some cp) = some (record cp { dirty_pages = 0 })

get-mark_synced :
    (source other : Bytes) (store : SyncStateStore)
    → get other (mark_synced source store)
      ≡ (if bytes_eq source other then synced (get other store) else get other store)
unfolding get mark_synced lookup
get-mark_synced source other [] = ground arith
get-mark_synced source other ((k, cp) ∷ store) = ground (
  arith,
  bytes_eq_iff source other,
  bytes_eq_iff k source,
  bytes_eq_iff k other,
  get-mark_synced source other store,
)

-- In the store in memory, `set` makes its checkpoint the one of its source, `remove` leaves none for
-- its source, and `mark_synced` clears `dirty_pages` of its source; each leaves the checkpoints of
-- all other sources as they were.
pub store_ops_local :
    (cp : SyncCheckpoint) (source other : Bytes) (store : SyncStateStore)
    → (get other (set cp store) ≡ (if bytes_eq cp.source other then some cp else get other store))
      × (get other (remove source store)
          ≡ (if bytes_eq source other then none else get other store))
      × (get other (mark_synced source store)
          ≡ (if bytes_eq source other then synced (get other store) else get other store))
unfolding get set remove
store_ops_local cp source other store = (
  lookup-insert cp.source other cp store,
  lookup-erase source other store,
  get-mark_synced source other store,
)

-- What the service does to the outside.
pub data Event (D : Type 0) : Type 0 where
  checkpoint_saved : SyncCheckpoint → Event D
  checkpoint_reset : Bytes → Event D
  status_updated : (source status : Bytes) → Event D
  ozon_upserted : List (OzonProduct D) → Event D
  onec_upserted : List (Product1C D) → Event D
  notified : SyncProgress D → Event D
  runs_abandoned : (reason : Bytes) → Event D
  run_started : (job_id : Bytes) → Event D
  run_done : (job_id : Bytes) → (accepted migrated conflicts : ℕ) → Event D
  run_failed : (job_id error : Bytes) → Event D
  slept : (milliseconds : ℕ) → Event D

-- The tasks that the service gives to the worker pool.
pub data Task : Type 0 where
  ozon_sync : Task
  full_sync : Task
  single_sync : Bytes → Task
  product_catalog_pull : Task

-- The clients, the database, the pool, the clocks and the other threads, over a world `W`.
-- `stop_asked` tells whether another thread has set `ozon_stop_` since the last look.
pub record Outside (D W : Type 0) : Type 0 where
  pub perform : Event D → W → W
  pub fetch_page_cursor : Bytes → W → OzonPage D × W
  pub fetch_info_batch : List Bytes → W → List (OzonProduct D) × W
  pub fetch_prices_stocks_batch : List Bytes → W → List (OzonProduct D) × W
  pub fetch_page : ℕ → W → List (Product1C D) × W
  pub fetch_product : Bytes → W → Option (Product1C D) × W
  pub load_checkpoint : Bytes → W → SyncCheckpoint × W
  pub stop_asked : W → Bool × W
  pub try_submit : Task → W → Bool × W
  pub steady_now : W → ℕ × W
  pub system_micros : W → ℕ × W

-- The doubles of a progress message: 0.0, `100.0 * processed / total` and `static_cast<int>`.
pub record Percents (D : Type 0) : Type 0 where
  pub zero : D
  pub hundredth : ℕ → ℕ → D
  pub truncate : D → ℕ

-- What the constructor is given beside the clients. An interval or a step that is not positive is 0.
pub record Options : Type 0 where
  pub notifier : Bool
  pub sync_runs_repo : Bool
  pub notify_every_percent : ℕ
  pub notify_min_interval_sec : ℕ
  pub onec_page_size : ℕ

-- The members of `SyncService`, the store in memory, the world, and the record of events.
pub record Service (D W : Type 0) : Type 0 where
  pub world : W
  pub log : List (Event D)
  pub store : SyncStateStore
  pub ozon_running : Bool
  pub ozon_stop : Bool
  pub running : Bool
  pub pc_running : Bool
  pub shutting_down : Bool
  pub ozon_progress : SyncProgress D
  pub ozon_job_id : Bytes
  pub last_notify_time : Option ℕ
  pub pending_resume : Option (SyncProgress D)

module _ {D W : Type 0} (out : Outside D W) where
  abbrev pub emit : Event D → Service D W → Service D W
  emit e s = record s { world = out.perform e s.world; log = e ∷ s.log }

  -- `ozon_stop_.load()`.
  abbrev pub load_stop : Service D W → Bool × Service D W
  load_stop s =
      let (asked, w) = out.stop_asked s.world in
      (asked || s.ozon_stop, record s { world = w; ozon_stop = asked || s.ozon_stop })
