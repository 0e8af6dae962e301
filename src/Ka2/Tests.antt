-- ===== src/Ka2/Tests.antt =====
-- Concrete runs of the KA2 reader, with a small server, JSON library and numbers.
use mathlib.Core.List.{Perm}
use scand.Prelude.{
  true, ◌↔◌, ℕ, zero, suc, ◌+◌, ◌-◌, ◌<◌, ◌≤◌, ◌≡◌, refl, ap, ◌/◌, ◌⊎◌, inl, inr, Bool, false, List,
  [], ◌∷◌, ◌++◌, map, Bytes, codes, none, some, flatten, flat_map, arith, ltb, leb, ◌==◌,
  if◌then◌else◌, take, drop, length, bytes_eq, to_string, any, contains,
}
use scand.Env.{Request, Net, JsonLib, Doubles, ok}
use scand.Json.{extract_value, objects, get_str, get_bool, get_num}
use scand.Ka2.Chunks.{effective_size, chunk_vector, IsCut, chunk_vector_partition}
use scand.Ka2.Guids.{
  is_valid_guid, IsGuid, is_valid_guid_iff, build_guid_filter, escape_odata_string, read_literal,
  read_literal-escape_odata_string,
}
use scand.Ka2.Encoding.{is_plain, encode_path_for_cpr}
use scand.Ka2.Page.{Ka2Inventory, default_options, read_page, page_request}
use scand.Ka2.Page.Outcome.{recorded, Explained, read_page_outcome}
use scand.Ka2.Paging.{read_chunked, chunk_params, page_items}
use scand.Ka2.Paging.Complete.{ServesChunk, read_chunked_complete}
use scand.Ka2.Balance.{
  process_chunk, rows_of, ServesBalance, process_chunk_complete, balance_request, balance_path,
}
use scand.Ka2.Workers.{
  Worker, ready, holding, returned, Shared, claim, leave, deliver, Reach, here, then_step, launched,
}
use scand.Ka2.Workers.Delivery.{Reach-delivers}
use scand.Ka2.Rows.{
  Fetch, PullResult, pull, after_analytics, read_warehouses, read_analytics, read_stocks,
  read_costs, read_suppliers, costs_or_warning, analytic_keys_of, warehouses_of, analytics_of,
  stocks_of, costs_of, suppliers_of,
}
use scand.Ka2.Rows.Laws.{IsClean, pull-IsClean}

abbrev five : List ℕ
five = 1 ∷ 2 ∷ 3 ∷ 4 ∷ 5 ∷ []

chunk_vector_runs : chunk_vector five 2 ≡ (1 ∷ 2 ∷ []) ∷ (3 ∷ 4 ∷ []) ∷ (5 ∷ []) ∷ []
unfolding chunk_vector
chunk_vector_runs = refl

chunk_vector_partition_example :
    (flatten (chunk_vector five 2) ≡ five) × IsCut (effective_size 2) (chunk_vector five 2)
chunk_vector_partition_example = chunk_vector_partition five 2

abbrev guid : Bytes
guid = codes "0123abcd-0000-ffff-0000-0123456789AB"

is_valid_guid_iff_example : (is_valid_guid guid ≡ true) ↔ IsGuid guid
is_valid_guid_iff_example = is_valid_guid_iff guid

not_a_guid : is_valid_guid (codes "0123abcd-0000-ffff-0000-0123456789A'") ≡ false
unfolding is_valid_guid
not_a_guid = refl

filter_runs :
    build_guid_filter (codes "K") (codes "a" ∷ codes "b" ∷ [])
    ≡ codes "K eq guid'a' or K eq guid'b'"
unfolding build_guid_filter
filter_runs = refl

read_literal-escape_odata_string_example :
    read_literal (escape_odata_string (codes "K eq guid'a'") ++ b'\'' ∷ codes ",D")
    ≡ some (codes "K eq guid'a'", codes ",D")
read_literal-escape_odata_string_example =
    read_literal-escape_odata_string (codes "K eq guid'a'") (codes ",D") (λ e. cc)

abbrev catalog : Bytes
catalog = codes "Catalog_Склады"

encode_runs : encode_path_for_cpr (codes "a С") ≡ codes "a%20%D0%A1"
unfolding encode_path_for_cpr is_plain
encode_runs = refl

-- A reader with pages of one row and chunks of one key.
abbrev reader : Ka2Inventory
reader = record {
  username = codes "u";
  password = codes "p";
  timeout_ms = 5000;
  root = codes "http://h/odata/standard.odata";
  opts = record default_options { chunk_size = 1; page_size_flat = 1 };
}

-- Fails once, then answers.
abbrev flaky : Net ℕ
flaky = record {
  get = λ q n. (record { status_code = if n == 0 then 500 else 200; text = codes "x" }, n + 1);
  stopped = λ n. (false, n);
}

read_page_outcome_example :
    Explained flaky reader catalog [] 0 2 3 1 []
      (read_page (recorded flaky) reader catalog [] 0 2 (0, []))
read_page_outcome_example = read_page_outcome flaky reader catalog [] 0 2 0

-- A text is an object and an array of its bytes.
abbrev texts : JsonLib Bytes Bytes ℕ
texts = record {
  parse = λ t. some t;
  as_object = λ t. some t;
  as_array = λ t. some (map (λ b. b ∷ []) t);
  as_string = λ t. some t;
  as_bool = λ t. none;
  as_number = λ t. some (length t);
  find = λ o key. some o;
}

-- One key answers by a row, the other by none.
abbrev rows_under : Bytes → List Bytes
rows_under key = if bytes_eq key (codes "k") then codes "r" ∷ [] else []

abbrev filter_of : List Bytes → Bytes
filter_of chunk = build_guid_filter (codes "F") chunk

abbrev params_of : List Bytes → List (Bytes × Bytes)
params_of chunk = chunk_params (filter_of chunk) []

abbrev keys : List Bytes
keys = codes "j" ∷ codes "k" ∷ []

-- The answers are of the filter and of what is skipped.
abbrev is_first_page : Request → Bool
is_first_page q = any (λ p. bytes_eq p.1 (codes "0")) q.params

abbrev asks_for : Bytes → Request → Bool
asks_for key q = any (λ p. bytes_eq p.1 (filter_of (key ∷ []))) q.params

abbrev table_server : Net ℕ
table_server = record {
  get = λ q n. (
    record {
      status_code = 200;
      text = if is_first_page q then if asks_for (codes "k") q then codes "r" else [] else [];
    },
    n + 1,
  );
  stopped = λ n. (false, n);
}

served_rows_k :
    (skip w : ℕ)
    → skip ≤ 1
    → page_items table_server texts reader catalog
        (table_server.get
          (page_request reader catalog (params_of (codes "k" ∷ [])) skip 1 1)
          w).0.text
      ≡ ok (take 1 (drop skip (codes "r" ∷ [])))
unfolding bytes_eq page_items extract_value to_string chunk_params build_guid_filter
served_rows_k zero w h = refl
served_rows_k (suc zero) w h = refl
served_rows_k (suc (suc skip)) w h = absurd (omega arith)

served_rows_j :
    (skip w : ℕ)
    → skip ≤ 0
    → page_items table_server texts reader catalog
        (table_server.get
          (page_request reader catalog (params_of (codes "j" ∷ [])) skip 1 1)
          w).0.text
      ≡ ok (take 1 (drop skip []))
unfolding bytes_eq page_items extract_value to_string chunk_params build_guid_filter
served_rows_j zero w h = refl
served_rows_j (suc skip) w h = absurd (omega arith)

abbrev Serves : List Bytes → Type 0
Serves = ServesChunk table_server texts reader catalog (codes "F") [] rows_under 3

served_k : Serves (codes "k" ∷ [])
unfolding bytes_eq flat_map
served_k = record {
  served = record { running = λ w. refl; answered = λ skip w h. refl; rows = served_rows_k };
  enough = omega arith;
}

served_j : Serves (codes "j" ∷ [])
unfolding bytes_eq flat_map
served_j = record {
  served = record { running = λ w. refl; answered = λ skip w h. refl; rows = served_rows_j };
  enough = omega arith;
}

read_chunked_complete_example :
    (w' : ℕ) × (read_chunked table_server texts reader catalog 3 (codes "F") keys [] 0
      ≡ some (ok (objects texts (flat_map rows_under keys)), w'))
unfolding chunk_vector
read_chunked_complete_example =
    read_chunked_complete table_server texts reader catalog (codes "F") [] rows_under (omega arith)
      (omega arith) 3 keys 0 (served_j, (served_k, tt))

-- A server that takes one key at most.
abbrev key_a : Bytes
key_a = codes "a"

abbrev key_b : Bytes
key_b = codes "b"

abbrev request_of : List Bytes → Request
request_of chunk =
    balance_request table_server texts reader (codes "R") (codes "P") (codes "D") (codes "F") chunk

abbrev short_server : Net ℕ
short_server = record {
  get = λ q n. (
    if bytes_eq q.url (request_of (key_a ∷ [])).url
        then record { status_code = 200; text = key_a }
        else if bytes_eq q.url (request_of (key_b ∷ [])).url
        then record { status_code = 200; text = key_b }
        else record { status_code = 414; text = [] },
    n + 1,
  );
  stopped = λ n. (false, n);
}

abbrev Halves : List Bytes → Type 0
Halves chunk = (chunk ≡ key_a ∷ key_b ∷ []) ⊎ ((chunk ≡ key_a ∷ []) ⊎ (chunk ≡ key_b ∷ []))

short_halved :
    (chunk : List Bytes)
    → Halves chunk
    → 1 < length chunk
    → Halves (take (length chunk / 2) chunk) × Halves (drop (length chunk / 2) chunk)
short_halved chunk (inl e) h = rw e (inr (inl refl), inr (inr refl))
short_halved chunk (inr (inl e)) h = absurd (omega (arith, ap length e))
short_halved chunk (inr (inr e)) h = absurd (omega (arith, ap length e))

short_too_long :
    (chunk : List Bytes) (w : ℕ)
    → Halves chunk
    → 1 < length chunk
    → (short_server.get (request_of chunk) w).0.status_code ≡ 414
unfolding bytes_eq encode_path_for_cpr balance_path is_plain build_guid_filter escape_odata_string
short_too_long chunk w (inl e) h = rw e refl
short_too_long chunk w (inr (inl e)) h = absurd (omega (arith, ap length e))
short_too_long chunk w (inr (inr e)) h = absurd (omega (arith, ap length e))

short_answered :
    (chunk : List Bytes) (w : ℕ)
    → Halves chunk
    → length chunk ≤ 1
    → (short_server.get (request_of chunk) w).0.status_code ≡ 200
unfolding bytes_eq encode_path_for_cpr balance_path is_plain build_guid_filter escape_odata_string
short_answered chunk w (inl e) h = absurd (omega (arith, ap length e))
short_answered chunk w (inr (inl e)) h = rw e refl
short_answered chunk w (inr (inr e)) h = rw e refl

short_rows :
    (chunk : List Bytes) (w : ℕ)
    → Halves chunk
    → length chunk ≤ 1
    → rows_of short_server texts reader
        (codes "R")
        (codes "P")
        (codes "D")
        (codes "F")
        (short_server.get (request_of chunk) w).0.text
      ≡ take 1000 (flat_map (λ key. key ∷ []) chunk)
unfolding bytes_eq encode_path_for_cpr balance_path is_plain build_guid_filter escape_odata_string
    rows_of extract_value objects flat_map
short_rows chunk w (inl e) h = absurd (omega (arith, ap length e))
short_rows chunk w (inr (inl e)) h = rw e refl
short_rows chunk w (inr (inr e)) h = rw e refl

short_served :
    ServesBalance short_server texts reader
      (codes "R")
      (codes "P")
      (codes "D")
      (codes "F")
      1
      (λ key. key ∷ [])
      Halves
short_served = record {
  running = λ w. refl;
  halved = short_halved;
  too_long = short_too_long;
  answered = short_answered;
  rows = short_rows;
}

short_fits :
    (chunk : List Bytes)
    → Halves chunk
    → length chunk ≤ 1
    → length (flat_map (λ key. key ∷ []) chunk) ≤ 1000
unfolding flat_map
short_fits chunk (inl e) h = absurd (omega (arith, ap length e))
short_fits chunk (inr (inl e)) h = rw e (omega arith)
short_fits chunk (inr (inr e)) h = rw e (omega arith)

process_chunk_complete_example :
    (w' : ℕ) × (process_chunk short_server texts reader
        (codes "R")
        (codes "P")
        (codes "D")
        (codes "F")
        2
        (key_a ∷ key_b ∷ [])
        0
      ≡ (flat_map (λ key. key ∷ []) (key_a ∷ key_b ∷ []), w'))
process_chunk_complete_example =
    process_chunk_complete short_server texts reader (codes "R") (codes "P") (codes "D") (codes "F")
      1 (λ key. key ∷ []) Halves short_served (omega arith) (omega arith) short_fits 2
      (key_a ∷ key_b ∷ []) 0 (inl refl) (omega arith) (omega arith)

-- Two threads share two chunks: the first claims both, one after the other.
abbrev process : ℕ → List ℕ
process n = n ∷ (n + 10) ∷ []

abbrev shared : ℕ → List (Worker ℕ) → List ℕ → Shared ℕ ℕ
shared next workers result = record { next = next; workers = workers; result = result }

abbrev two_chunks : List ℕ
two_chunks = 1 ∷ 2 ∷ []

two_threads-Reach :
    Reach process two_chunks false
      (launched 2)
      (shared 2 (returned ∷ returned ∷ []) (1 ∷ 11 ∷ 2 ∷ 12 ∷ []))
two_threads-Reach =
    then_step
      (then_step
        (then_step
          (then_step
            (then_step
              (then_step here (
                claim [] (ready ∷ []) 1 (2 ∷ []) (shared 1 (holding 1 ∷ ready ∷ []) []) refl refl
                  refl))
              (deliver [] (ready ∷ []) 1 (shared 1 (ready ∷ ready ∷ []) (1 ∷ 11 ∷ [])) refl refl))
            (claim [] (ready ∷ []) 2 [] (shared 2 (holding 2 ∷ ready ∷ []) (1 ∷ 11 ∷ [])) refl refl
              refl))
          (deliver [] (ready ∷ []) 2 (shared 2 (ready ∷ ready ∷ []) (1 ∷ 11 ∷ 2 ∷ 12 ∷ [])) refl
            refl))
        (leave (ready ∷ []) [] (shared 2 (ready ∷ returned ∷ []) (1 ∷ 11 ∷ 2 ∷ 12 ∷ [])) refl refl
          refl))
      (leave [] (returned ∷ []) (shared 2 (returned ∷ returned ∷ []) (1 ∷ 11 ∷ 2 ∷ 12 ∷ [])) refl
        refl refl)

Reach-delivers_example :
    (missing : List ℕ) × Perm ((1 ∷ 11 ∷ 2 ∷ 12 ∷ []) ++ missing) (flat_map process two_chunks)
    × (false ≡ false → missing ≡ [])
Reach-delivers_example =
    Reach-delivers process two_chunks false 2
      (shared 2 (returned ∷ returned ∷ []) (1 ∷ 11 ∷ 2 ∷ 12 ∷ [])) (omega arith) two_threads-Reach
      tt

-- Numbers are their own doubles, and every query gives the one row "x".
abbrev numbers : Doubles ℕ
numbers = record { zero = 0; sub = λ a b. a - b; lt = ltb; le = leb; eq = ◌==◌; stod = λ t. none }

abbrev one_row : Fetch ℕ Bytes
one_row = record {
  pages = λ path select w. (ok (codes "x" ∷ []), w);
  by_keys = λ path field values select w. (ok (codes "x" ∷ []), w);
  balance = λ register period dims field values w. (codes "x" ∷ [], w);
}

abbrev x : Bytes
x = codes "x"

abbrev pulled : PullResult ℕ
pulled = record {
  products = [];
  warehouses =
      record { ref_key = x; description = x; deletion_mark = false; is_folder = false } ∷ [];
  analytics = record { ref_key = x; nomenclature_key = x; characteristic_key = [] } ∷ [];
  stocks =
      record { nomenclature_key = x; characteristic_key = x; warehouse_key = x; quantity = 0 } ∷ [];
  costs =
      record { analytic_key = x; organization_key = x; batch_key = x; quantity = 1; cost = 1 } ∷ [];
  suppliers =
      record {
        period = x;
        partner_key = x;
        nomenclature_key = x;
        characteristic_key = [];
        price = 1;
      }
      ∷ [];
  warnings = [];
}

pull_runs : pull texts numbers one_row keys (codes "2026") 0 ≡ (ok pulled, 0)
unfolding pull after_analytics read_warehouses read_analytics read_stocks read_costs read_suppliers
    costs_or_warning analytic_keys_of warehouses_of analytics_of stocks_of costs_of suppliers_of
    get_str get_bool get_num contains
pull_runs = refl

pull-IsClean_example : IsClean texts numbers pulled
pull-IsClean_example =
    pull-IsClean texts numbers one_row keys (codes "2026") 0 0 pulled (refl, λ d h. ground arith)
      pull_runs
