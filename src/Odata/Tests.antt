-- ===== src/Odata/Tests.antt =====
-- A concrete reading of a page with a failure before it.
use scand.Odata.Retry.{
  after_failure, retry_loop, pause, abort_then_stop, stop_then_abort, after_answer, verdict_of,
}
use scand.Prelude.{
  ℕ, true, arith, ◌+◌, ◌≡◌, refl, ◌==◌, false, none, some, [], ◌∷◌, Bytes, codes, length, map,
  if◌then◌else◌,
}
use scand.Env.{Net, JsonLib}
use scand.Ka2.Page.Outcome.{recorded}
use scand.Odata.{OnecCatalog, OnecCatalogLimits, JsonTexts, build_url}
use scand.Odata.Pull.{PullState, pull_product_catalog}
use scand.Odata.Pull.Tally.{IsEnded}
use scand.Odata.Pull.Ends.{pull_product_catalog_ends}
use scand.Odata.Retry.{read_page_with_retry}
use scand.Odata.Retry.Outcome.{recorded_abort, Explained, read_page_with_retry_outcome}

abbrev catalog : OnecCatalog
catalog = record { root = codes "r"; username = codes "u"; password = codes "p"; timeout_ms = 0 }

build_url_runs : build_url catalog (codes "x") ≡ codes "r/x"
unfolding build_url
build_url_runs = refl

abbrev texts : JsonLib Bytes Bytes ℕ
texts = record {
  parse = λ t. some t;
  as_object = λ t. some t;
  as_array = λ t. some (map (λ b. b ∷ []) t);
  as_string = λ t. some t;
  as_bool = λ t. none;
  as_number = λ t. some (length t);
  find = λ o key. some o;
}

-- Too busy once, then answers.
abbrev busy : Net ℕ
busy = record {
  get = λ q n. (record { status_code = if n == 0 then 503 else 200; text = codes "x" }, n + 1);
  stopped = λ n. (false, n);
}

busy_runs :
    (read_page_with_retry busy (λ n. (false, n)) (λ d. 2) texts catalog 0 500 3 2000 0).0.attempts
    ≡ 2
unfolding read_page_with_retry retry_loop abort_then_stop stop_then_abort after_answer verdict_of
    after_failure pause
busy_runs = refl

read_page_with_retry_outcome_example :
    Explained busy
      (λ n. (false, n))
      (λ d. 2)
      texts
      catalog
      0
      500
      3
      1
      []
      (read_page_with_retry
        (recorded busy)
        (recorded_abort busy (λ n. (false, n)) (λ d. 2) texts catalog 0 500)
        (λ d. 2)
        texts
        catalog
        0
        500
        3
        2000
        (0, []))
read_page_with_retry_outcome_example =
    read_page_with_retry_outcome busy (λ n. (false, n)) (λ d. 2) texts catalog 0 500 3 2000 0

abbrev values : JsonTexts Bytes
values = record { number_text = λ t. none; serialize = λ t. t; as_count = λ t. some (length t) }

abbrev limits : OnecCatalogLimits
limits = record { page_size = 2; max_rows = 4 }

pull_product_catalog_ends_example :
    (s : PullState) × (w : ℕ) × (pull_product_catalog busy texts values
        (λ t. none)
        (λ n. (true, n))
        catalog
        limits
        0
      ≡ some (s, w))
    × IsEnded s
pull_product_catalog_ends_example =
    pull_product_catalog_ends busy texts values (λ t. none) (λ n. (true, n)) catalog limits
      (omega arith) 0
