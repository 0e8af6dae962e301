-- ===== src/Odata/Retry.antt =====
-- `read_page_with_retry` of onec_catalog.cpp. How often the pause between two attempts looks at the two
-- flags is a parameter.
pub mod Outcome
use scand.Prelude.{
  ℕ, zero, suc, ◌*◌, min, ◌==◌, ◌&&◌, ◌||◌, Bool, true, false, Option, none, some, List, [], ◌∷◌,
  Bytes, if◌then◌else◌, ltb, leb, take,
}
use scand.Env.{HttpResponse, Request, Net, JsonLib}
use scand.Odata.{OnecCatalog, build_page_path, get_request, effective_timeout}

-- `OnecErrorKind`.
pub data OnecErrorKind : Type 0 where
  done : OnecErrorKind
  retryable : OnecErrorKind
  fatal : OnecErrorKind

-- The texts of the field `error`.
pub data PageError : Type 0 where
  no_error : PageError
  aborted_by_user : PageError
  stopped_by_user : PageError
  invalid_json : PageError
  network_error : PageError
  rate_limit : ℕ → PageError
  server_error : ℕ → PageError
  http_error : ℕ → Bytes → PageError

-- `OnecPageResult`.
pub record OnecPageResult : Type 0 where
  pub kind : OnecErrorKind
  pub http_status : ℕ
  pub error : PageError
  pub body : Bytes
  pub attempts : ℕ

-- What an answer leads to; an attempt may follow, after twice the delay or not.
pub data Verdict : Type 0 where
  accepted : Bytes → Verdict
  again : PageError → Bool → Verdict
  given_up : PageError → Verdict

unfoldable pub verdict_of : {J O D : Type 0} → JsonLib J O D → HttpResponse → Verdict
verdict_of lib r =
    if leb 200 r.status_code && ltb r.status_code 300
    then (elim (lib.parse r.text) [ none ↦ again invalid_json false | some test ↦ accepted r.text ])
    else if r.status_code == 0
    then again network_error false
    else if r.status_code == 429 || r.status_code == 503
    then again (rate_limit r.status_code) true
    else if leb 500 r.status_code
    then again (server_error r.status_code) false
    else given_up (http_error r.status_code (take 300 r.text))

abbrev pub failing : PageError → OnecPageResult → OnecPageResult
failing e result = record result { kind = fatal; error = e }

module _ {W J O D : Type 0} (net : Net W) (aborted : W → Bool × W) (polls : ℕ → ℕ)
    (lib : JsonLib J O D) (c : OnecCatalog) (skip top : ℕ) where
  -- The tests of the two flags, the flag of the abortion first.
  unfoldable pub abort_then_stop : W → Option PageError × W
  abort_then_stop w =
      let (abort, w1) = aborted w in
      let (stop, w2) = net.stopped w1 in
      if abort
      then (some aborted_by_user, w1)
      else if stop
      then (some stopped_by_user, w2)
      else (none, w2)

  unfoldable pub stop_then_abort : W → Option PageError × W
  stop_then_abort w =
      let (stop, w1) = net.stopped w in
      let (abort, w2) = aborted w1 in
      if stop
      then (some stopped_by_user, w1)
      else if abort
      then (some aborted_by_user, w2)
      else (none, w2)

  -- The pause, with that many looks at the flags.
  unfoldable pub pause : ℕ → W → Option PageError × W
  pause zero w = (none, w)
  pause (suc n) w =
      let (flag, w1) = abort_then_stop w in
      let rest = pause n w1 in elim flag [ some e ↦ (some e, w1) | none ↦ rest ]

  abbrev pub Attempts : Type 0
  Attempts = ℕ → OnecPageResult → W → OnecPageResult × W

  -- What follows a failed attempt; `more` tells whether attempts are left.
  unfoldable pub after_failure : Attempts → Bool → ℕ → OnecPageResult → W → OnecPageResult × W
  after_failure rest false delay_ms result w = (record result { kind = retryable }, w)
  after_failure rest true delay_ms result w =
      let (flag, w1) = pause (polls delay_ms) w in
      let next = rest (min (delay_ms * 2) 60000) result w1 in
      elim flag [ some e ↦ (failing e result, w1) | none ↦ next ]

  unfoldable pub after_answer :
      Attempts → Bool → ℕ → OnecPageResult → Verdict → W → OnecPageResult × W
  after_answer rest more delay_ms result (accepted body) w =
      (record result { kind = done; body = body }, w)
  after_answer rest more delay_ms result (again e doubled) w =
      after_failure rest more (if doubled then delay_ms * 2 else delay_ms)
        (record result { error = e }) w
  after_answer rest more delay_ms result (given_up e) w = (failing e result, w)

  -- The attempts from that number on, with as many left.
  unfoldable pub retry_loop : ℕ → ℕ → ℕ → OnecPageResult → W → OnecPageResult × W
  retry_loop zero attempt delay_ms result w = (record result { kind = retryable }, w)
  retry_loop (suc left) attempt delay_ms result w =
      let begun = record result { attempts = attempt } in
      let (flag, w1) = abort_then_stop w in
      let (r, w2) =
        net.get (get_request c (build_page_path skip top) (effective_timeout c.timeout_ms)) w1 in
      let (flag2, w3) = stop_then_abort w2 in
      let answered = record begun { http_status = r.status_code } in
      let next =
        after_answer (λ delay res w. retry_loop left (suc attempt) delay res w) (ltb 0 left)
          delay_ms answered (verdict_of lib r) w3 in
      elim flag [
        | some e ↦ (failing e begun, w1)
        | none ↦ elim flag2 [ some e ↦ (failing e begun, w3) | none ↦ next ]
      ]

  unfoldable pub read_page_with_retry : ℕ → ℕ → W → OnecPageResult × W
  read_page_with_retry max_attempts base_delay_ms w =
      retry_loop max_attempts 1 base_delay_ms
        record { kind = done; http_status = 0; error = no_error; body = []; attempts = 0 } w
