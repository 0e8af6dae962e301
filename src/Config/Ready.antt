-- ===== src/Config/Ready.antt =====
-- `load` of config.cpp: what a loaded configuration holds, and what an entry that is refused changes.
use scand.Prelude.{
  zero, suc, ◌≡◌, refl, Bool, true, false, Bytes, codes, bytes_eq, is_empty, if◌then◌else◌, arith,
}
use scand.Config.{
  ℤ, pos, negsuc, Config, with_int, is_positive, Loaded, loaded, thrown, ConfigError, checked,
  after_parse, IniParse, load, config_ini_handler, in_server, in_onec, in_database, in_worker_pool,
  in_ozon, in_notify,
}

-- A configuration that the service can start with.
pub record IsReady (cfg : Config) : Type 0 where
  pub has_base_url : is_empty cfg.onec_base_url ≡ false
  pub has_conn_str : is_empty cfg.db_conn_str ≡ false
  pub has_threads : is_positive cfg.worker_threads ≡ true
  pub has_queue : is_positive cfg.task_queue_max ≡ true
  pub has_timeout : is_positive cfg.shutdown_timeout_sec ≡ true

-- The result is ready when it is a configuration.
pub data IsReadyResult : Loaded → Type 0 where
  ready : {cfg : Config} → IsReady cfg → IsReadyResult (loaded cfg)
  refused : {e : ConfigError} → IsReadyResult (thrown e)

-- What holds of both branches holds of the conditional.
under_if :
    {A : Type 0} (P : A → Type 0) (b : Bool) (x y : A)
    → (b ≡ true → P x)
    → (b ≡ false → P y)
    → P (if b then x else y)
under_if P true x y f g = f refl
under_if P false x y f g = g refl

checked-IsReady : (cfg : Config) → IsReadyResult (checked cfg)
unfolding checked
checked-IsReady cfg =
    under_if IsReadyResult (is_empty cfg.onec_base_url) _ _ (λ _. refused)
      (λ url.
        under_if IsReadyResult (is_empty cfg.db_conn_str) _ _ (λ _. refused)
          (λ conn.
            under_if IsReadyResult (is_positive cfg.worker_threads) _ _
              (λ threads.
                under_if IsReadyResult (is_positive cfg.task_queue_max) _ _
                  (λ queue.
                    under_if IsReadyResult (is_positive cfg.shutdown_timeout_sec) _ _
                      (λ timeout. ready record {
                        has_base_url = url;
                        has_conn_str = conn;
                        has_threads = threads;
                        has_queue = queue;
                        has_timeout = timeout;
                      })
                      (λ _. refused))
                  (λ _. refused))
              (λ _. refused)))

-- Whatever the reader of the file does: a configuration that is loaded has an address of 1C, a
-- connection string, and positive numbers of threads, of tasks and of seconds.
load-IsReady : (ini_parse : IniParse) (path : Bytes) → IsReadyResult (load ini_parse path)
unfolding load after_parse
load-IsReady ini_parse path = after_parse-IsReady _ _
  where
    after_parse-IsReady : (rc : ℤ) (cfg : Config) → IsReadyResult (after_parse rc cfg)
    after_parse-IsReady (negsuc n) cfg = refused
    after_parse-IsReady (pos zero) cfg = checked-IsReady cfg
    after_parse-IsReady (pos (suc n)) cfg = refused

-- An entry that is not taken changes nothing.
pub Keeps : Config → Bool × Config → Type 0
Keeps cfg r = r.0 ≡ false → r.1 ≡ cfg

with_int-Keeps :
    (value : Bytes) (set : ℤ → Config) (cfg : Config) → Keeps cfg (with_int value set cfg)
unfolding Keeps
with_int-Keeps value set cfg h = ground arith

in_server-Keeps : (name value : Bytes) (cfg : Config) → Keeps cfg (in_server name value cfg)
unfolding Keeps in_server
in_server-Keeps name value cfg h = ground (arith, with_int-Keeps value)

in_onec-Keeps : (name value : Bytes) (cfg : Config) → Keeps cfg (in_onec name value cfg)
unfolding Keeps in_onec
in_onec-Keeps name value cfg h = ground (arith, with_int-Keeps value)

in_database-Keeps : (name value : Bytes) (cfg : Config) → Keeps cfg (in_database name value cfg)
unfolding Keeps in_database
in_database-Keeps name value cfg h = ground (arith, with_int-Keeps value)

in_worker_pool-Keeps :
    (name value : Bytes) (cfg : Config) → Keeps cfg (in_worker_pool name value cfg)
unfolding Keeps in_worker_pool
in_worker_pool-Keeps name value cfg h = ground (arith, with_int-Keeps value)

in_ozon-Keeps : (name value : Bytes) (cfg : Config) → Keeps cfg (in_ozon name value cfg)
unfolding Keeps in_ozon
in_ozon-Keeps name value cfg h = ground (arith, with_int-Keeps value)

in_notify-Keeps : (name value : Bytes) (cfg : Config) → Keeps cfg (in_notify name value cfg)
unfolding Keeps in_notify
in_notify-Keeps name value cfg h = ground (arith, with_int-Keeps value)

-- An entry whose number cannot be read leaves the configuration as it was.
config_ini_handler-Keeps :
    (cfg : Config) (section name value : Bytes)
    → Keeps cfg (config_ini_handler cfg section name value)
unfolding Keeps config_ini_handler
config_ini_handler-Keeps cfg section name value =
    under_if (Keeps cfg) (bytes_eq section (codes "server")) _ _
      (λ _. in_server-Keeps name value cfg)
      (λ _.
        under_if (Keeps cfg) (bytes_eq section (codes "onec")) _ _
          (λ _. in_onec-Keeps name value cfg)
          (λ _.
            under_if (Keeps cfg) (bytes_eq section (codes "database")) _ _
              (λ _. in_database-Keeps name value cfg)
              (λ _.
                under_if (Keeps cfg) (bytes_eq section (codes "worker_pool")) _ _
                  (λ _. in_worker_pool-Keeps name value cfg)
                  (λ _.
                    under_if (Keeps cfg) (bytes_eq section (codes "ozon")) _ _
                      (λ _. in_ozon-Keeps name value cfg)
                      (λ _.
                        under_if (Keeps cfg) (bytes_eq section (codes "notify")) _ _
                          (λ _. in_notify-Keeps name value cfg) (λ _ h. refl))))))
