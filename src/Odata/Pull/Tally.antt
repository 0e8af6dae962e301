-- ===== src/Odata/Pull/Tally.antt =====
-- The events of a pull against its result.
use scand.Prelude.{
  ℕ, ◌+◌, ◌≡◌, ◌⊎◌, inl, inr, refl, Bool, true, false, List, [], ◌∷◌, ◌++◌, arith, All, All-append,
}
use scand.Odata.{OnecCatalogRow}
use scand.Odata.Pull.{
  PullEvent, PullState, tell, stopped_text, stop_with, count_rows, page_error, page_counted,
  reported,
}
use scand.Odata.Pull.PullEvent.{
  connecting_stopped, total_stopped, pages_stopped, page_failed, page_parse_failed, page_done,
  finalizing_started, finalizing_done,
}

-- The rows that an event says were read on a page, and skipped on it, and the failures it tells of.
abbrev pub read_in : PullEvent → ℕ
read_in e = elim e [ page_done n r s a b ↦ r | _ ↦ 0 ]

abbrev pub skipped_in : PullEvent → ℕ
skipped_in e = elim e [ page_done n r s a b ↦ s | _ ↦ 0 ]

abbrev pub errors_in : PullEvent → ℕ
errors_in e = elim e [ page_failed n o k ↦ 1 | page_parse_failed n o k ↦ 1 | _ ↦ 0 ]

abbrev pub total_of : (PullEvent → ℕ) → List PullEvent → ℕ
total_of f [] = 0
total_of f (e ∷ es) = f e + total_of f es

-- The event is the last one of a pull.
abbrev pub is_last : PullEvent → Bool
is_last e = elim e [
  | connecting_stopped ↦ true
  | total_stopped ↦ true
  | pages_stopped a b n ↦ true
  | finalizing_done a b n ↦ true
  | _ ↦ false
]

total_of-append :
    (f : PullEvent → ℕ) (es : List PullEvent) (e : PullEvent)
    → total_of f (es ++ e ∷ []) ≡ total_of f es + f e
total_of-append f [] e = omega arith
total_of-append f (x ∷ es) e = omega (arith, total_of-append f es e)

-- The counts are those that the events add up to.
abbrev pub IsTallied : PullState → Type 0
IsTallied s =
    (s.result.read_rows ≡ total_of read_in s.events)
    × (s.result.skipped ≡ total_of skipped_in s.events)
    × (s.result.errors ≡ total_of errors_in s.events)

-- The pull is going on.
abbrev pub IsGoing : PullState → Type 0
IsGoing s = IsTallied s × All (λ e. is_last e ≡ false) s.events × (s.result.error ≡ [])

-- The pull has ended with its last event, which tells the counts if it was not stopped.
pub record IsEnded (s : PullState) : Type 0 where
  pub tallied : IsTallied s
  pub earlier : List PullEvent
  pub last : PullEvent
  pub told : s.events ≡ earlier ++ last ∷ []
  pub once : All (λ e. is_last e ≡ false) earlier
  pub ended :
      ((s.result.error ≡ [])
        × (last ≡ finalizing_done s.result.read_rows s.result.skipped s.result.errors))
      ⊎ ((s.result.error ≡ stopped_text)
          × ((last ≡ connecting_stopped)
              ⊎ ((last ≡ total_stopped)
                  ⊎ ((n : ℕ) × (last ≡ pages_stopped s.result.read_rows s.result.skipped n)))))

-- An event without counts.
abbrev pub IsPlain : PullEvent → Type 0
IsPlain e = (read_in e ≡ 0) × (skipped_in e ≡ 0) × (errors_in e ≡ 0)

tell-IsTallied : (e : PullEvent) (s : PullState) → IsPlain e → IsTallied s → IsTallied (tell e s)
tell-IsTallied e s (a, b, c) (r, k, x) = (
  omega (arith, a, r, total_of-append read_in s.events e),
  omega (arith, b, k, total_of-append skipped_in s.events e),
  omega (arith, c, x, total_of-append errors_in s.events e),
)

pub tell-IsGoing :
    (e : PullEvent) (s : PullState) → IsPlain e → is_last e ≡ false → IsGoing s → IsGoing (tell e s)
tell-IsGoing e s p l (t, a, n) =
    (tell-IsTallied e s p t, All-append (λ e. is_last e ≡ false) s.events (e ∷ []) a (l, tt), n)

pub page_error-IsGoing :
    (e : PullEvent) (s : PullState)
    → read_in e ≡ 0
    → skipped_in e ≡ 0
    → errors_in e ≡ 1
    → is_last e ≡ false
    → IsGoing s
    → IsGoing (page_error e s)
unfolding page_error
page_error-IsGoing e s a b c l ((r, k, x), al, n) = (
  (
    omega (arith, a, r, total_of-append read_in s.events e),
    omega (arith, b, k, total_of-append skipped_in s.events e),
    omega (arith, c, x, total_of-append errors_in s.events e),
  ),
  All-append (λ e. is_last e ≡ false) s.events (e ∷ []) al (l, tt),
  n,
)

pub page_counted-IsGoing :
    (idx : ℕ) (rows : List OnecCatalogRow) (s : PullState)
    → IsGoing s
    → IsGoing (page_counted idx rows s)
unfolding page_counted
page_counted-IsGoing idx rows s ((r, k, x), al, n) =
    let (pr, ps) = count_rows rows in
    let e = page_done idx pr ps (s.result.read_rows + pr) (s.result.skipped + ps) in
    (
      (
        omega (arith, r, total_of-append read_in s.events e),
        omega (arith, k, total_of-append skipped_in s.events e),
        omega (arith, x, total_of-append errors_in s.events e),
      ),
      All-append (λ e. is_last e ≡ false) s.events (e ∷ []) al (refl, tt),
      n,
    )

pub reported-IsGoing : (b : Bool) (s : PullState) → IsGoing s → IsGoing (reported b s)
unfolding reported
reported-IsGoing false s h = h
reported-IsGoing true s h = tell-IsGoing _ s (refl, refl, refl) refl h

pub stop_with-IsEnded :
    (e : PullEvent) (s : PullState)
    → IsPlain e
    → (e ≡ connecting_stopped)
      ⊎ ((e ≡ total_stopped)
          ⊎ ((n : ℕ) × (e ≡ pages_stopped s.result.read_rows s.result.skipped n)))
    → IsGoing s
    → IsEnded (stop_with e s)
stop_with-IsEnded e s p h (t, al, n) = record {
  tallied = tell-IsTallied e s p t;
  earlier = s.events;
  last = e;
  told = refl;
  once = al;
  ended = inr (refl, h);
}

pub finalized_lem :
    (s : PullState)
    → IsGoing s
    → let r = s.result in
      IsEnded (
        tell
          (finalizing_done r.read_rows r.skipped r.errors)
          (tell (finalizing_started r.read_rows r.skipped r.errors) s))
finalized_lem s h =
    let started = finalizing_started s.result.read_rows s.result.skipped s.result.errors in
    let ending = finalizing_done s.result.read_rows s.result.skipped s.result.errors in
    let (t, al, n) = tell-IsGoing started s (refl, refl, refl) refl h in
    record {
      tallied = tell-IsTallied ending (tell started s) (refl, refl, refl) t;
      earlier = s.events ++ started ∷ [];
      last = ending;
      told = refl;
      once = al;
      ended = inl (n, refl);
    }
