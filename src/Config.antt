-- ===== src/Config.antt =====
-- `Config` of config.hpp and config.cpp. The reader of INI files is a parameter.
pub mod Ready
mod Tests
use scand.Prelude.{
  ℕ, zero, suc, ◌+◌, ◌-◌, ◌*◌, ◌%◌, ◌^◌, ◌==◌, ◌&&◌, ◌||◌, Bool, true, false, Option, none, some,
  List, [], ◌∷◌, Bytes, codes, bytes_eq, if◌then◌else◌, is_empty, leb,
}

-- An `int`, which is `negsuc n` for -1 - n.
pub data ℤ : Type 0 where
  pos : ℕ → ℤ
  negsuc : ℕ → ℤ

-- The white space of the C locale.
abbrev is_space : ℕ → Bool
is_space c = (c == 32) || (leb 9 c && leb c 13)

unfoldable pub skip_space : Bytes → Bytes
skip_space [] = []
skip_space (c ∷ s) = if is_space c then skip_space s else c ∷ s

-- The number that the leading digits continue.
unfoldable pub digits_from : ℕ → Bytes → ℕ
digits_from n [] = n
digits_from n (c ∷ s) = if leb 48 c && leb c 57 then digits_from (n * 10 + (c - 48)) s else n

-- The number of the leading digits, when there is one.
unfoldable pub digits : Bytes → Option ℕ
digits [] = none
digits (c ∷ s) = if leb 48 c && leb c 57 then some (digits_from 0 (c ∷ s)) else none

abbrev negated : ℕ → ℤ
negated zero = pos 0
negated (suc n) = negsuc n

-- Numbers outside of an `int` are refused.
unfoldable pub positive_int : Bytes → Option ℤ
positive_int s = elim (digits s) [
  | none ↦ none
  | some n ↦ if leb n 2147483647 then some (pos n) else none
]

unfoldable pub negative_int : Bytes → Option ℤ
negative_int s = elim (digits s) [
  | none ↦ none
  | some n ↦ if leb n 2147483648 then some (negated n) else none
]

-- `std::stoi`, with `none` where it throws.
unfoldable pub stoi : Bytes → Option ℤ
stoi s = signed (skip_space s)
  where
    signed : Bytes → Option ℤ
    signed [] = none
    signed (c ∷ t) =
        if c == b'-'
        then negative_int t
        else if c == b'+'
        then positive_int t
        else positive_int (c ∷ t)

-- The conversion to `unsigned short`.
unfoldable pub to_unsigned_short : ℤ → ℕ
to_unsigned_short (pos n) = n % 2 ^ 16
to_unsigned_short (negsuc n) = 2 ^ 16 - 1 - n % 2 ^ 16

pub record Config : Type 0 where
  pub db_conn_str : Bytes
  pub listen_address : Bytes
  pub listen_port : ℕ
  pub worker_threads : ℤ
  pub task_queue_max : ℤ
  pub shutdown_timeout_sec : ℤ
  pub notify_every_percent : ℤ
  pub notify_min_interval_sec : ℤ
  pub ozon_client_id : Bytes
  pub ozon_api_key : Bytes
  pub ozon_page_size : ℤ
  pub ozon_timeout_ms : ℤ
  pub ozon_webhook_url : Bytes
  pub onec_base_url : Bytes
  pub onec_user : Bytes
  pub onec_password : Bytes
  pub onec_page_size : ℤ
  pub onec_timeout_ms : ℤ
  pub onec_allow_insecure_http : Bool
  pub onec_allow_private_network : Bool

-- The initializers of the members.
abbrev pub defaults : Config
defaults = record {
  db_conn_str = [];
  listen_address = codes "0.0.0.0";
  listen_port = 8090;
  worker_threads = pos 4;
  task_queue_max = pos 1000;
  shutdown_timeout_sec = pos 30;
  notify_every_percent = pos 5;
  notify_min_interval_sec = pos 2;
  ozon_client_id = [];
  ozon_api_key = [];
  ozon_page_size = pos 1000;
  ozon_timeout_ms = pos 30000;
  ozon_webhook_url = [];
  onec_base_url = [];
  onec_user = [];
  onec_password = [];
  onec_page_size = pos 1000;
  onec_timeout_ms = pos 10000;
  onec_allow_insecure_http = false;
  onec_allow_private_network = false;
}

-- A member that is set to a number; an exception leaves it as it is, and the handler returns 0.
abbrev pub with_int : Bytes → (ℤ → Config) → Config → Bool × Config
with_int value set cfg = elim (stoi value) [ none ↦ (false, cfg) | some n ↦ (true, set n) ]

abbrev pub is_yes : Bytes → Bool
is_yes value = bytes_eq value (codes "true") || bytes_eq value (codes "1")

unfoldable pub in_server : Bytes → Bytes → Config → Bool × Config
in_server name value cfg =
    if bytes_eq name (codes "address")
    then (true, record cfg { listen_address = value })
    else if bytes_eq name (codes "port")
    then with_int value (λ n. record cfg { listen_port = to_unsigned_short n }) cfg
    else if bytes_eq name (codes "shutdown_timeout_sec")
    then with_int value (λ n. record cfg { shutdown_timeout_sec = n }) cfg
    else (true, cfg)

unfoldable pub in_onec : Bytes → Bytes → Config → Bool × Config
in_onec name value cfg =
    if bytes_eq name (codes "base_url")
    then (true, record cfg { onec_base_url = value })
    else if bytes_eq name (codes "user")
    then (true, record cfg { onec_user = value })
    else if bytes_eq name (codes "password")
    then (true, record cfg { onec_password = value })
    else if bytes_eq name (codes "page_size")
    then with_int value (λ n. record cfg { onec_page_size = n }) cfg
    else if bytes_eq name (codes "timeout_ms")
    then with_int value (λ n. record cfg { onec_timeout_ms = n }) cfg
    else if bytes_eq name (codes "allow_insecure_http")
    then (true, record cfg { onec_allow_insecure_http = is_yes value })
    else if bytes_eq name (codes "allow_private_network")
    then (true, record cfg { onec_allow_private_network = is_yes value })
    else (true, cfg)

unfoldable pub in_database : Bytes → Bytes → Config → Bool × Config
in_database name value cfg =
    if bytes_eq name (codes "conn_str")
    then (true, record cfg { db_conn_str = value })
    else (true, cfg)

unfoldable pub in_worker_pool : Bytes → Bytes → Config → Bool × Config
in_worker_pool name value cfg =
    if bytes_eq name (codes "threads")
    then with_int value (λ n. record cfg { worker_threads = n }) cfg
    else if bytes_eq name (codes "queue_max")
    then with_int value (λ n. record cfg { task_queue_max = n }) cfg
    else (true, cfg)

unfoldable pub in_ozon : Bytes → Bytes → Config → Bool × Config
in_ozon name value cfg =
    if bytes_eq name (codes "client_id")
    then (true, record cfg { ozon_client_id = value })
    else if bytes_eq name (codes "api_key")
    then (true, record cfg { ozon_api_key = value })
    else if bytes_eq name (codes "page_size")
    then with_int value (λ n. record cfg { ozon_page_size = n }) cfg
    else if bytes_eq name (codes "timeout_ms")
    then with_int value (λ n. record cfg { ozon_timeout_ms = n }) cfg
    else if bytes_eq name (codes "webhook_url")
    then (true, record cfg { ozon_webhook_url = value })
    else (true, cfg)

unfoldable pub in_notify : Bytes → Bytes → Config → Bool × Config
in_notify name value cfg =
    if bytes_eq name (codes "every_percent")
    then with_int value (λ n. record cfg { notify_every_percent = n }) cfg
    else if bytes_eq name (codes "min_interval_sec")
    then with_int value (λ n. record cfg { notify_min_interval_sec = n }) cfg
    else (true, cfg)

-- Whether the entry is taken, which is the result of the handler, and the configuration.
unfoldable pub config_ini_handler : Config → Bytes → Bytes → Bytes → Bool × Config
config_ini_handler cfg section name value =
    if bytes_eq section (codes "server")
    then in_server name value cfg
    else if bytes_eq section (codes "onec")
    then in_onec name value cfg
    else if bytes_eq section (codes "database")
    then in_database name value cfg
    else if bytes_eq section (codes "worker_pool")
    then in_worker_pool name value cfg
    else if bytes_eq section (codes "ozon")
    then in_ozon name value cfg
    else if bytes_eq section (codes "notify")
    then in_notify name value cfg
    else (true, cfg)

-- The exceptions of `load`.
pub data ConfigError : Type 0 where
  cannot_open : ConfigError
  parse_error : ℕ → ConfigError
  base_url_required : ConfigError
  conn_str_required : ConfigError
  threads_not_positive : ConfigError
  queue_max_not_positive : ConfigError
  shutdown_timeout_not_positive : ConfigError

pub data Loaded : Type 0 where
  loaded : Config → Loaded
  thrown : ConfigError → Loaded

unfoldable pub is_positive : ℤ → Bool
is_positive (pos n) = leb 1 n
is_positive (negsuc n) = false

unfoldable pub checked : Config → Loaded
checked cfg =
    if is_empty cfg.onec_base_url
    then thrown base_url_required
    else if is_empty cfg.db_conn_str
    then thrown conn_str_required
    else if is_positive cfg.worker_threads
    then (if is_positive cfg.task_queue_max
        then (if is_positive cfg.shutdown_timeout_sec
            then loaded cfg
            else thrown shutdown_timeout_not_positive)
        else thrown queue_max_not_positive)
    else thrown threads_not_positive

-- What the code of the reader leads to.
unfoldable pub after_parse : ℤ → Config → Loaded
after_parse (negsuc n) cfg = thrown cannot_open
after_parse (pos zero) cfg = checked cfg
after_parse (pos (suc n)) cfg = thrown (parse_error (suc n))

-- `ini_parse` of a file: the handler with its user data, the code and what became of the data.
abbrev pub IniParse : Type 0
IniParse = Bytes → (Config → Bytes → Bytes → Bytes → Bool × Config) → Config → ℤ × Config

unfoldable pub load : IniParse → Bytes → Loaded
load ini_parse path =
    let (rc, cfg) = ini_parse path config_ini_handler defaults in after_parse rc cfg
