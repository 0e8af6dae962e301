-- ===== src/Odata/Retry/Outcome.antt =====
-- What `read_page_with_retry` has done when it returns, whatever the server and the flags do.
use scand.Prelude.{
  ℕ, zero, suc, ◌+◌, ◌<◌, ◌≤◌, ◌≡◌, ◌⊎◌, inl, inr, refl, ap, sym, subst, ◌∙◌, min, Bool, true,
  false, Option, some, List, [], ◌∷◌, ◌++◌, arith, length, append_assoc, append-nil, All,
  Bool-cases, Option-cases, ltb, leb, ◌==◌, ◌&&◌, ◌||◌, ◌≢◌, take, none, ◌*◌, if◌then◌else◌,
}
use scand.Env.{Request, Net, JsonLib}
use scand.Ka2.Page.Outcome.{Exchange, recorded}
use scand.Odata.{OnecCatalog, build_page_path, get_request, effective_timeout}
use scand.Odata.Retry.{
  OnecErrorKind, PageError, network_error, rate_limit, server_error, http_error, aborted_by_user,
  stopped_by_user, OnecPageResult, Verdict, accepted, again, given_up, verdict_of, abort_then_stop,
  stop_then_abort, pause, after_failure, after_answer, retry_loop, read_page_with_retry,
}

-- The flag that was seen.
abbrev pub IsFlag : PageError → Type 0
IsFlag e = (e ≡ aborted_by_user) ⊎ (e ≡ stopped_by_user)

module _ {J O D : Type 0} (lib : JsonLib J O D) where
  -- A success: a status from 200 to 299, and a text that is JSON.
  abbrev pub IsSuccess : Exchange → Type 0
  IsSuccess e =
      (200 ≤ e.answer.status_code)
      × (e.answer.status_code < 300)
      × ((value : J) × (lib.parse e.answer.text ≡ some value))

  -- A failure that may pass: no answer, 429, a status from 500 on, or a success that is no JSON.
  abbrev pub IsPassing : Exchange → Type 0
  IsPassing e =
      (e.answer.status_code ≡ 0)
      ⊎ (e.answer.status_code ≡ 429)
      ⊎ (500 ≤ e.answer.status_code)
      ⊎ ((200 ≤ e.answer.status_code)
          × (e.answer.status_code < 300)
          × (lib.parse e.answer.text ≡ none))

  -- A failure that stays: another status.
  abbrev pub IsLasting : Exchange → Type 0
  IsLasting e =
      (e.answer.status_code ≢ 0)
      × (e.answer.status_code ≢ 429)
      × (e.answer.status_code < 500)
      × ((e.answer.status_code < 200) ⊎ (300 ≤ e.answer.status_code))

  abbrev Judged : Exchange → Verdict → Type 0
  Judged e (accepted body) = IsSuccess e × (body ≡ e.answer.text)
  Judged e (again error doubled) = IsPassing e
  Judged e (given_up error) =
      IsLasting e × (error ≡ http_error e.answer.status_code (take 300 e.answer.text))

  verdict_of-Judged : (e : Exchange) → Judged e (verdict_of lib e.answer)
  unfolding verdict_of
  verdict_of-Judged e =
      elim (Bool-cases (leb 200 e.answer.status_code && ltb e.answer.status_code 300)) [
        | inl q ↦ elim (Option-cases (lib.parse e.answer.text)) [
          | inl r ↦ rw (q, r) (inr (inr (inr (ground arith, ground arith, r))))
          | inr (v, r) ↦ rw (q, r) ((ground arith, ground arith, (v, r)), refl)
        ]
        | inr q ↦ rw q (other (ground arith))
      ]
    where
      other :
          ((e.answer.status_code < 200) ⊎ (300 ≤ e.answer.status_code))
          → Judged e (
              if e.answer.status_code == 0
              then again network_error false
              else if e.answer.status_code == 429 || e.answer.status_code == 503
              then again (rate_limit e.answer.status_code) true
              else if leb 500 e.answer.status_code
              then again (server_error e.answer.status_code) false
              else given_up (http_error e.answer.status_code (take 300 e.answer.text)))
      other out = elim (Bool-cases (e.answer.status_code == 0)) [
        | inl z ↦ rw z (inl (ground arith))
        | inr z ↦ elim (Bool-cases (e.answer.status_code == 429 || e.answer.status_code == 503)) [
          | inl m ↦ rw (z, m) (ground arith)
          | inr m ↦ elim (Bool-cases (leb 500 e.answer.status_code)) [
            | inl h ↦ rw (z, m, h) (inr (inr (inl (ground arith))))
            | inr h ↦ rw (z, m, h) ((ground arith, ground arith, ground arith, out), refl)
          ]
        ]
      ]

  Judged-verdict_of : (e : Exchange) (v : Verdict) → verdict_of lib e.answer ≡ v → Judged e v
  Judged-verdict_of e v h = subst (Judged e) h (verdict_of-Judged e)

  -- How the reading may end, by its result and the record of the exchanges, when its attempts are
  -- counted from a number on.
  pub data RetryOutcome (most n : ℕ) (res : OnecPageResult) (log : List Exchange) : Type 0 where
    with_page :
        (fails : List Exchange) (e : Exchange)
        → All IsPassing fails
        → length fails < most
        → log ≡ fails ++ e ∷ []
        → IsSuccess e
        → res.body ≡ e.answer.text
        → res.kind ≡ OnecErrorKind.done
        → res.http_status ≡ e.answer.status_code
        → res.attempts ≡ n + length fails
        → RetryOutcome most n res log
    refused :
        (fails : List Exchange) (e : Exchange)
        → All IsPassing fails
        → length fails < most
        → log ≡ fails ++ e ∷ []
        → IsLasting e
        → res.error ≡ http_error e.answer.status_code (take 300 e.answer.text)
        → res.kind ≡ OnecErrorKind.fatal
        → RetryOutcome most n res log
    exhausted :
        All IsPassing log
        → length log ≡ most
        → res.kind ≡ OnecErrorKind.retryable
        → RetryOutcome most n res log
    flagged :
        (fails last : List Exchange)
        → All IsPassing fails
        → length last ≤ 1
        → length log ≤ most
        → log ≡ fails ++ last
        → IsFlag res.error
        → res.kind ≡ OnecErrorKind.fatal
        → RetryOutcome most n res log

  RetryOutcome-cons :
      {most n : ℕ} {res : OnecPageResult} {log : List Exchange} (e : Exchange)
      → IsPassing e
      → RetryOutcome most (suc n) res log
      → RetryOutcome (suc most) n res (e ∷ log)
  RetryOutcome-cons e h (with_page fails last a l eq v x k s m) =
      with_page (e ∷ fails) last (h, a) (omega arith) (cc) v x k s (omega (arith, m))
  RetryOutcome-cons e h (refused fails last a l eq v x k) =
      refused (e ∷ fails) last (h, a) (omega arith) (cc) v x k
  RetryOutcome-cons e h (exhausted a l k) = exhausted (h, a) (omega arith) k
  RetryOutcome-cons e h (flagged fails last a one l eq f k) =
      flagged (e ∷ fails) last (h, a) one (omega arith) (cc) f k

module _ {W J O D : Type 0} (net : Net W) (aborted : W → Bool × W) (polls : ℕ → ℕ)
    (lib : JsonLib J O D) (c : OnecCatalog) (skip top : ℕ) where
  -- The flag of the abortion beside the record of the exchanges.
  abbrev pub recorded_abort : W × List Exchange → Bool × (W × List Exchange)
  recorded_abort s = ((aborted s.0).0, ((aborted s.0).1, s.1))

  abbrev asked : Request
  asked = get_request c (build_page_path skip top) (effective_timeout c.timeout_ms)

  -- The exchanges behind those before, all with the one query, and how the reading ends.
  abbrev pub Explained : ℕ → ℕ → List Exchange → OnecPageResult × (W × List Exchange) → Type 0
  Explained most n before res =
      (log : List Exchange) × (res.1.1 ≡ before ++ log)
      × RetryOutcome lib most n res.0 log
      × All (λ (e : Exchange). e.asked ≡ asked) log

  -- A look at the flags leaves the record, and what it sees is a flag.
  abbrev Seen : List Exchange → Option PageError × (W × List Exchange) → Type 0
  Seen log res = (res.1.1 ≡ log) × ((e : PageError) → res.0 ≡ some e → IsFlag e)

  abort_then_stop_lem :
      (s : W × List Exchange)
      → Seen s.1 (abort_then_stop (recorded net) recorded_abort polls lib c skip top s)
  unfolding abort_then_stop
  abort_then_stop_lem s = elim (Bool-cases (aborted s.0).0) [
    | inl q ↦ rw q (refl, λ e h. inl cc)
    | inr q ↦ elim (Bool-cases (net.stopped (aborted s.0).1).0) [
      | inl r ↦ rw (q, r) (refl, λ e h. inr cc)
      | inr r ↦ rw (q, r) (refl, λ e h. cc)
    ]
  ]

  stop_then_abort_lem :
      (s : W × List Exchange)
      → Seen s.1 (stop_then_abort (recorded net) recorded_abort polls lib c skip top s)
  unfolding stop_then_abort
  stop_then_abort_lem s = elim (Bool-cases (net.stopped s.0).0) [
    | inl q ↦ rw q (refl, λ e h. inr cc)
    | inr q ↦ elim (Bool-cases (aborted (net.stopped s.0).1).0) [
      | inl r ↦ rw (q, r) (refl, λ e h. inl cc)
      | inr r ↦ rw (q, r) (refl, λ e h. cc)
    ]
  ]

  pause_lem :
      (n : ℕ) (s : W × List Exchange)
      → Seen s.1 (pause (recorded net) recorded_abort polls lib c skip top n s)
  unfolding pause
  pause_lem zero s = (refl, λ e h. cc)
  pause_lem (suc n) s =
      let look = abort_then_stop (recorded net) recorded_abort polls lib c skip top s in
      let (same, flags) = abort_then_stop_lem s in
      let (rest, later) = pause_lem n look.1 in
      elim (Option-cases look.0) [
        | inl q ↦ rw (pause, q) (rest ∙ same, later)
        | inr (e, q) ↦ rw (pause, q) (same, λ f h. flags f (q ∙ h))
      ]

  after_failure_lem :
      (rest : ℕ → OnecPageResult → W × List Exchange → OnecPageResult × (W × List Exchange))
      (left n : ℕ) (more : Bool) (delay_ms : ℕ) (result : OnecPageResult) (s : W × List Exchange)
      → (more ≡ false → left ≡ 0)
      → ((d : ℕ) (r : OnecPageResult) (s : W × List Exchange) → Explained left n s.1 (rest d r s))
      → Explained left n s.1 (
          after_failure
            (recorded net)
            recorded_abort
            polls
            lib
            c
            skip
            top
            rest
            more
            delay_ms
            result
            s)
  unfolding after_failure
  after_failure_lem rest left n false delay_ms result s none_left ih =
      ([], sym (append-nil s.1), exhausted tt (sym (none_left refl)) refl, tt)
  after_failure_lem rest left n true delay_ms result s none_left ih =
      let paused = pause (recorded net) recorded_abort polls lib c skip top (polls delay_ms) s in
      let (same, flags) = pause_lem (polls delay_ms) s in
      elim (Option-cases paused.0) [
        | inl q ↦
            rw (after_failure, q)
              (subst (λ z. Explained left n z (rest (min (delay_ms * 2) 60000) result paused.1))
                same (ih (min (delay_ms * 2) 60000) result paused.1))
        | inr (e, q) ↦
            rw (after_failure, q)
              (
                [],
                same ∙ sym (append-nil s.1),
                flagged [] [] tt (omega arith) (omega arith) refl (flags e q) refl,
                tt,
              )
      ]

  -- The exchange of the attempt, in front of those of the later ones.
  in_front :
      (left n : ℕ) (before : List Exchange) (e : Exchange)
      (res : OnecPageResult × (W × List Exchange))
      → e.asked ≡ asked
      → IsPassing lib e
      → Explained left (suc n) (before ++ e ∷ []) res
      → Explained (suc left) n before res
  in_front left n before e res q h (log, same, out, all) =
      (e ∷ log, same ∙ append_assoc before (e ∷ []) log, RetryOutcome-cons lib e h out, (q, all))

  after_answer_lem :
      (rest : ℕ → OnecPageResult → W × List Exchange → OnecPageResult × (W × List Exchange))
      (left n : ℕ) (more : Bool) (delay_ms : ℕ) (result : OnecPageResult) (v : Verdict)
      (before : List Exchange) (e : Exchange) (s : W × List Exchange)
      → (more ≡ false → left ≡ 0)
      → ((d : ℕ) (r : OnecPageResult) (s : W × List Exchange)
          → Explained left (suc n) s.1 (rest d r s))
      → e.asked ≡ asked
      → result.attempts ≡ n
      → result.http_status ≡ e.answer.status_code
      → verdict_of lib e.answer ≡ v
      → s.1 ≡ before ++ e ∷ []
      → Explained (suc left) n before (
          after_answer
            (recorded net)
            recorded_abort
            polls
            lib
            c
            skip
            top
            rest
            more
            delay_ms
            result
            v
            s)
  unfolding after_answer
  after_answer_lem rest left n more delay_ms result (accepted body) before e s m ih q a t v same = (
    e ∷ [],
    same,
    with_page [] e tt (omega arith) refl (Judged-verdict_of lib e (accepted body) v).0
        (Judged-verdict_of lib e (accepted body) v).1 refl t (omega (arith, a)),
    (q, tt),
  )
  after_answer_lem rest left n more delay_ms result (given_up error) before e s m ih q a t v same =
      (
        e ∷ [],
        same,
        refused [] e tt (omega arith) refl (Judged-verdict_of lib e (given_up error) v).0
            (Judged-verdict_of lib e (given_up error) v).1 refl,
        (q, tt),
      )
  after_answer_lem rest left n more delay_ms result (again error doubled) before e s m ih q a t v
        same =
      let delay = if doubled then delay_ms * 2 else delay_ms in
      let failed = record result { error = error } in
      in_front left n before e
        (after_failure (recorded net) recorded_abort polls lib c skip top rest more delay failed s)
        q (Judged-verdict_of lib e (again error doubled) v)
        (subst
          (λ z. Explained left (suc n) z (
            after_failure (recorded net) recorded_abort polls lib c skip top rest more delay failed
              s))
          same (after_failure_lem rest left (suc n) more delay failed s m ih))

  retry_loop_lem :
      (left n delay_ms : ℕ) (result : OnecPageResult) (s : W × List Exchange)
      → Explained left n s.1
          (retry_loop (recorded net) recorded_abort polls lib c skip top left n delay_ms result s)
  unfolding retry_loop
  retry_loop_lem zero n delay_ms result s = ([], sym (append-nil s.1), exhausted tt refl refl, tt)
  retry_loop_lem (suc left) n delay_ms result s =
      let look = abort_then_stop (recorded net) recorded_abort polls lib c skip top s in
      let (same, flags) = abort_then_stop_lem s in
      let got = (recorded net).get asked look.1 in
      let e : Exchange = record { asked = asked; answer = got.0 } in
      let look2 = stop_then_abort (recorded net) recorded_abort polls lib c skip top got.1 in
      let (same2, flags2) = stop_then_abort_lem got.1 in
      let here : look2.1.1 ≡ s.1 ++ e ∷ [] = same2 ∙ ap (λ z. z ++ e ∷ []) same in
      elim (Option-cases look.0) [
        | inr (f, q) ↦
            rw (retry_loop, q)
              (
                [],
                same ∙ sym (append-nil s.1),
                flagged [] [] tt (omega arith) (omega arith) refl (flags f q) refl,
                tt,
              )
        | inl q ↦ elim (Option-cases look2.0) [
          | inr (f, r) ↦
              rw (retry_loop, q, r)
                (
                  e ∷ [],
                  here,
                  flagged [] (e ∷ []) tt (omega arith) (omega arith) refl (flags2 f r) refl,
                  (refl, tt),
                )
          | inl r ↦
              rw (retry_loop, q, r)
                (after_answer_lem
                  (λ d res s.
                    retry_loop (recorded net) recorded_abort polls lib c skip top left (suc n) d res
                      s)
                  left n (ltb 0 left) delay_ms
                  record result { attempts = n; http_status = got.0.status_code }
                  (verdict_of lib got.0) s.1 e look2.1 (λ m. ground (arith, m))
                  (λ d res s. retry_loop_lem left (suc n) d res s) refl refl refl refl here)
        ]
      ]

  -- Reading a page makes at most `max_attempts` queries, all the same. It ends with the text of the first
  -- answer with a status from 200 to 299 that is JSON, and the number of the attempt; or with the first
  -- failure that stays, with its status and the first 300 bytes of its text in the error; or, when all
  -- the attempts have failed, as one that may be tried again; or by one of the flags. Before these came
  -- only failures that may pass: no answer, 429, a status from 500 on, or a success that is no JSON.
  pub read_page_with_retry_outcome :
      (max_attempts base_delay_ms : ℕ) (w : W)
      → Explained max_attempts 1 [] (
          read_page_with_retry
            (recorded net)
            recorded_abort
            polls
            lib
            c
            skip
            top
            max_attempts
            base_delay_ms
            (w, []))
  unfolding read_page_with_retry
  read_page_with_retry_outcome max_attempts base_delay_ms w =
      retry_loop_lem max_attempts 1 base_delay_ms _ (w, [])
