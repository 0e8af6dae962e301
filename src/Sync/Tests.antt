-- ===== src/Sync/Tests.antt =====
-- Concrete runs of the synchronisation, with small services. Percents are natural numbers.
use scand.Prelude.{
  ℕ, zero, suc, ◌*◌, ◌/◌, ◌≡◌, refl, true, false, List, [], ◌∷◌, map, Bytes, codes, none, arith,
  take, drop, bytes_eq, lookup,
}
use scand.Sync.State.{
  Product1C, OzonProduct, SyncCheckpoint, get, Outside, Percents, Options, Service,
}
use scand.Sync.Run.{checkpoint_of, run_ozon_sync}
use scand.Sync.Run.Counts.{RunIsCounted, run_ozon_sync_counted}
use scand.Sync.Run.Failure.{IsDead, EndsWith, run_ozon_sync_gives_up}
use scand.Sync.Onec.{run_full_sync}
use scand.Sync.Onec.Complete.{ServesPages, EndsDelivered, run_full_sync_complete}
use scand.Sync.Triggers.{
  is_unfinished, resume_on_start, trigger_full, trigger_ozon_sync, trigger_product_catalog_pull,
}
use scand.Sync.Triggers.Laws.{TakesFlag, triggers_exclusive, ResumeOutcome, resume_on_start_outcome}

abbrev no_checkpoint : SyncCheckpoint
no_checkpoint = record {
  source = codes "ozon";
  last_cursor = [];
  last_page = 0;
  total_synced = 0;
  dirty_pages = 0;
  total_expected = 0;
  last_notified_percent = none;
  last_status = [];
}

abbrev half_done : SyncCheckpoint
half_done = record no_checkpoint {
  last_cursor = codes "next";
  total_synced = 1;
  total_expected = 2;
  last_status = codes "stopping";
}

abbrev percents : Percents ℕ
percents = record { zero = 0; hundredth = λ p t. 100 * p / t; truncate = λ d. d }

abbrev options : Options
options = record {
  notifier = true;
  sync_runs_repo = true;
  notify_every_percent = 5;
  notify_min_interval_sec = 0;
  onec_page_size = 2;
}

abbrev product : Bytes → OzonProduct ℕ
product id = record {
  id = id;
  sku = id;
  name = [];
  price = 0;
  currency = [];
  in_stock = 0;
  description = [];
  weight = 0;
  created_at = [];
  updated_at = [];
  scategorie = [];
  related_products = [];
}

abbrev row : Bytes → Product1C ℕ
row id = record { id = id; offer_id = id; name = []; price = 0 }

abbrev table : List (Product1C ℕ)
table = row (codes "a") ∷ row (codes "b") ∷ row (codes "c") ∷ []

abbrev page_before : ℕ → ℕ
page_before zero = zero
page_before (suc n) = n

-- Ozon has one page with a product; 1C has the table. The world counts the queries for pages.
abbrev shop : Outside ℕ ℕ
shop = record {
  perform = λ e w. w;
  fetch_page_cursor = λ c w. (
    record {
      items = product (codes "p") ∷ [];
      last_id = codes "end";
      has_more = false;
      network_error = false;
      total = 1;
    },
    suc w,
  );
  fetch_info_batch = λ ids w. (map product ids, w);
  fetch_prices_stocks_batch = λ skus w. ([], w);
  fetch_page = λ page w. (take 2 (drop (page_before page * 2) table), suc w);
  fetch_product = λ id w. (none, w);
  load_checkpoint = λ source w. (no_checkpoint, w);
  stop_asked = λ w. (false, w);
  try_submit = λ task w. (true, w);
  steady_now = λ w. (w, w);
  system_micros = λ w. (w, w);
}

-- The same with a network that is down.
abbrev down : Outside ℕ ℕ
down = record shop {
  fetch_page_cursor = λ c w. (
    record { items = []; last_id = []; has_more = false; network_error = true; total = 0 },
    suc w,
  );
}

abbrev idle : Service ℕ ℕ
idle = record {
  world = 0;
  log = [];
  store = [];
  ozon_running = false;
  ozon_stop = false;
  running = false;
  pc_running = false;
  shutting_down = false;
  ozon_progress = record { source = []; processed = 0; total = 0; percent = 0; status = [] };
  ozon_job_id = codes "sync-1";
  last_notify_time = none;
  pending_resume = none;
}

run_ozon_sync_counted_example :
    RunIsCounted shop percents options
      (checkpoint_of shop percents options (codes "ozon") idle).0.total_synced
      (run_ozon_sync shop percents options 3 idle)
run_ozon_sync_counted_example = run_ozon_sync_counted shop percents options 3 idle refl

down_IsDead : IsDead down percents options
down_IsDead = record { unstopped = λ w. refl; unanswered = λ c w. refl }

run_ozon_sync_gives_up_example :
    EndsWith down percents options
      (60000 ∷ 60000 ∷ 60000 ∷ 60000 ∷ 32000 ∷ 16000 ∷ 8000 ∷ 4000 ∷ 2000 ∷ [])
      idle
      (run_ozon_sync down percents options 10 idle)
run_ozon_sync_gives_up_example =
    run_ozon_sync_gives_up down percents options 10 idle down_IsDead refl (omega arith)

shop_ServesPages : ServesPages shop percents options table
shop_ServesPages = record { rows = λ before w h. refl }

run_full_sync_complete_example :
    EndsDelivered shop percents options table idle table
      (run_full_sync shop percents options 4 idle)
unfolding checkpoint_of get lookup
run_full_sync_complete_example =
    run_full_sync_complete shop percents options table 4 idle (omega arith) shop_ServesPages
      (omega arith) (omega arith)

triggers_exclusive_example :
    (let r = trigger_full shop percents options idle in TakesFlag r.0 false r.1.running false)
    × (let r = trigger_ozon_sync shop percents options idle in
        TakesFlag r.0 false r.1.ozon_running false)
    × (let r = trigger_product_catalog_pull shop percents options idle in
        TakesFlag r.0 false r.1.pc_running false)
triggers_exclusive_example = triggers_exclusive shop percents options idle

-- The checkpoint of a run that was left behind.
abbrev left_behind : Outside ℕ ℕ
left_behind = record shop { load_checkpoint = λ source w. (half_done, w) }

resume_on_start_outcome_example :
    ResumeOutcome left_behind percents options true half_done idle
      (resume_on_start left_behind percents options idle)
resume_on_start_outcome_example =
    resume_on_start_outcome left_behind percents options true idle (λ w. refl)

-- A run that was asked to stop is taken up again.
stopping_is_unfinished : is_unfinished half_done ≡ true
unfolding is_unfinished bytes_eq
stopping_is_unfinished = refl
