-- ===== src/Ka2/Page/Outcome.antt =====
-- What `read_page` has done when it returns, whatever the server and the stop flag do.
use scand.Prelude.{
  ℕ, zero, suc, ◌<◌, ◌≡◌, refl, ◌≢◌, sym, List, [], ◌∷◌, ◌++◌, arith, ◌==◌, Bytes, length,
  append_assoc, append-nil, All, Bool-cases, inl, inr,
}
use scand.Env.{HttpResponse, Request, Net, http_error, stopped_by_user, Result, ok, err}
use scand.Ka2.Page.{Ka2Inventory, page_request, attempts, read_page}

-- One answered query.
pub record Exchange : Type 0 where
  pub asked : Request
  pub answer : HttpResponse

-- The same outside world, with a record of all queries and answers.
abbrev pub recorded : {W : Type 0} → Net W → Net (W × List Exchange)
recorded net = record {
  get = λ q s. (
    (net.get q s.0).0,
    ((net.get q s.0).1, s.1 ++ record { asked = q; answer = (net.get q s.0).0 } ∷ []),
  );
  stopped = λ s. ((net.stopped s.0).0, ((net.stopped s.0).1, s.1));
}

abbrev pub IsRetryable : Exchange → Type 0
IsRetryable e = (e.answer.status_code ≢ 200) × (e.answer.status_code ≢ 414)

-- How reading one page may end, by its result and the record of the exchanges.
pub data PageOutcome (most : ℕ) (r : Result Bytes) (log : List Exchange) : Type 0 where
  answered :
      (fails : List Exchange) (e : Exchange)
      → All IsRetryable fails
      → length fails < most
      → e.answer.status_code ≡ 200
      → log ≡ fails ++ e ∷ []
      → r ≡ ok e.answer.text
      → PageOutcome most r log
  too_long :
      (fails : List Exchange) (e : Exchange)
      → All IsRetryable fails
      → length fails < most
      → e.answer.status_code ≡ 414
      → log ≡ fails ++ e ∷ []
      → r ≡ err (http_error 414)
      → PageOutcome most r log
  exhausted :
      All IsRetryable log → length log ≡ most → r ≡ err (http_error 0) → PageOutcome most r log
  stopped :
      All IsRetryable log → length log < most → r ≡ err stopped_by_user → PageOutcome most r log

PageOutcome-cons :
    {most : ℕ} {r : Result Bytes} {log : List Exchange} (e : Exchange)
    → IsRetryable e
    → PageOutcome most r log
    → PageOutcome (suc most) r (e ∷ log)
PageOutcome-cons e h (answered fails last a l s eq r) =
    answered (e ∷ fails) last (h, a) (omega arith) s (cc) r
PageOutcome-cons e h (too_long fails last a l s eq r) =
    too_long (e ∷ fails) last (h, a) (omega arith) s (cc) r
PageOutcome-cons e h (exhausted a l r) = exhausted (h, a) (omega arith) r
PageOutcome-cons e h (stopped a l r) = stopped (h, a) (omega arith) r

module _ {W : Type 0} (net : Net W) (reader : Ka2Inventory) (path : Bytes)
    (params : List (Bytes × Bytes)) (skip top : ℕ) where
  -- The queries are those of the attempts from that number on, in turn: the same address and
  -- parameters, and twenty seconds more for each.
  abbrev pub InTurn : ℕ → List Exchange → Type 0
  InTurn n [] = Unit
  InTurn n (e ∷ es) = (e.asked ≡ page_request reader path params skip top n) × InTurn (suc n) es

  abbrev pub Explained : ℕ → ℕ → List Exchange → Result Bytes × (W × List Exchange) → Type 0
  Explained left n before res =
      (log : List Exchange) × (res.1.1 ≡ before ++ log) × PageOutcome left res.0 log × InTurn n log

  attempts_lem :
      (left n : ℕ) (w : W) (before : List Exchange)
      → Explained left n before
          (attempts (recorded net) reader path params skip top left n (w, before))
  unfolding attempts
  attempts_lem zero n w before = ([], sym (append-nil before), exhausted tt refl refl, tt)
  attempts_lem (suc left) n w before =
      let (stop, w1) = net.stopped w in
      let q = page_request reader path params skip top n in
      let (r, w2) = net.get q w1 in
      let e : Exchange = record { asked = q; answer = r } in
      let (log, same, out, turn) = attempts_lem left (suc n) w2 (before ++ e ∷ []) in
      elim (Bool-cases stop) [
        | inl h ↦ rw h ([], sym (append-nil before), stopped tt (omega arith) refl, tt)
        | inr h ↦ elim (Bool-cases (r.status_code == 200)) [
          | inl good ↦
              rw (h, good)
                (e ∷ [], refl, answered [] e tt (omega arith) (ground arith) refl refl, (refl, tt))
          | inr bad ↦ elim (Bool-cases (r.status_code == 414)) [
            | inl long ↦
                rw (h, bad, long)
                  (
                    e ∷ [],
                    refl,
                    too_long [] e tt (omega arith) (ground arith) refl refl,
                    (refl, tt),
                  )
            | inr other ↦
                rw (h, bad, other)
                  (
                    e ∷ log,
                    rw same (append_assoc before (e ∷ []) log),
                    PageOutcome-cons e (ground arith, ground arith) out,
                    (refl, turn),
                  )
          ]
        ]
      ]

  -- Reading a page makes at most `max_retries` queries, each the same but for a growing time limit.
  -- It returns a text exactly as the first answer with status 200 gave it, after answers with neither 200
  -- nor 414; it throws 414 if the first such answer has that status; it throws 0 after `max_retries`
  -- other answers; or it stops between two queries.
  pub read_page_outcome :
      (w : W)
      → Explained reader.opts.max_retries 1 []
          (read_page (recorded net) reader path params skip top (w, []))
  unfolding read_page
  read_page_outcome w = attempts_lem reader.opts.max_retries 1 w []
