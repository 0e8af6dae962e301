-- ===== src/Ka2/Page.antt =====
-- `Ka2Inventory` and its `read_page`, of onec_ka2_inventory.cpp: one page with retries. Log lines and
-- the pause between attempts are left out.
pub mod Outcome
use scand.Prelude.{
  ℕ, zero, suc, ◌+◌, ◌*◌, ◌-◌, max, Bool, List, [], ◌∷◌, ◌++◌, arith, ◌==◌, if◌then◌else◌, Bytes,
  codes, to_string,
}
use scand.Env.{HttpResponse, Request, Net, Exn, http_error, stopped_by_user, Result, ok, err}
use scand.Ka2.Encoding.{encode_path_for_cpr}

-- `Ka2Options`.
pub record Ka2Options : Type 0 where
  pub chunk_size : ℕ
  pub page_size_flat : ℕ
  pub max_retries : ℕ
  pub retry_delay_ms : ℕ
  pub parallel_workers : ℕ
  pub verbose : Bool

abbrev pub default_options : Ka2Options
default_options = record {
  chunk_size = 40;
  page_size_flat = 5000;
  max_retries = 3;
  retry_delay_ms = 1000;
  parallel_workers = 4;
  verbose = Bool.true;
}

-- The fields of `Ka2Inventory` that its readers use.
pub record Ka2Inventory : Type 0 where
  pub username : Bytes
  pub password : Bytes
  pub timeout_ms : ℕ
  pub root : Bytes
  pub opts : Ka2Options

-- `std::max(timeout_ms_, 20000) + (attempt - 1) * 20000`.
abbrev pub attempt_timeout : ℕ → ℕ → ℕ
attempt_timeout timeout_ms attempt = max timeout_ms 20000 + (attempt - 1) * 20000

-- The query of the attempt with that number.
abbrev pub page_request : Ka2Inventory → Bytes → List (Bytes × Bytes) → ℕ → ℕ → ℕ → Request
page_request reader path params skip top attempt = record {
  url = reader.root ++ (codes "/" ++ encode_path_for_cpr path);
  params = params ++ ((codes "$top", to_string top) ∷ (codes "$skip", to_string skip) ∷ []);
  auth = (reader.username, reader.password);
  timeout = attempt_timeout reader.timeout_ms attempt;
}

module _ {W : Type 0} (net : Net W) (reader : Ka2Inventory) (path : Bytes)
    (params : List (Bytes × Bytes)) (skip top : ℕ) where
  -- The loop from the attempt with that number on, with as many left.
  unfoldable pub attempts : ℕ → ℕ → W → Result Bytes × W
  attempts zero attempt w = (err (http_error 0), w)
  attempts (suc left) attempt w =
      let (stop, w1) = net.stopped w in
      let (r, w2) = net.get (page_request reader path params skip top attempt) w1 in
      let retry = attempts left (suc attempt) w2 in
      if stop
      then (err stopped_by_user, w1)
      else if r.status_code == 200
      then (ok r.text, w2)
      else if r.status_code == 414
      then (err (http_error 414), w2)
      else retry

  unfoldable pub read_page : W → Result Bytes × W
  unfolding attempts
  read_page w = attempts reader.opts.max_retries 1 w
