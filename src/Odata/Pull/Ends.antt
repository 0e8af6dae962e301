-- ===== src/Odata/Pull/Ends.antt =====
-- Every pull of the catalogue ends, and with the counts that it has told.
use scand.Prelude.{
  ℕ, zero, suc, ◌+◌, ◌≤◌, ◌<◌, ◌≡◌, inl, inr, refl, Bool, false, Option, none, some, [], ◌∷◌, ◌++◌,
  arith, ltb, length, Bool-cases,
}
use scand.Env.{Net, JsonLib}
use scand.Odata.{OnecCatalog, OnecCatalogLimits, JsonTexts, Stoull, read_page, read_total_count}
use scand.Odata.Pull.{
  PullEvent, PullState, tell, stop_with, Fetched, no_page, no_rows, rows_of, page_error,
  page_counted, reported, LoopEnd, completed, interrupted, fetched, page_turn, page_loop, finalized,
  total_pages_of, pull_pages, with_total, pull_begun, pull_product_catalog,
}
use scand.Odata.Pull.PullEvent.{
  connecting_stopped, total_stopped, pages_stopped, page_started, page_failed, page_parse_failed,
}
use scand.Odata.Pull.Tally.{
  IsGoing, IsEnded, tell-IsGoing, page_error-IsGoing, page_counted-IsGoing, reported-IsGoing,
  stop_with-IsEnded, finalized_lem,
}

-- The state behind the loop.
abbrev IsBehind : LoopEnd → Type 0
IsBehind (completed s) = IsGoing s
IsBehind (interrupted s) = IsEnded s

module _ {W J O D : Type 0} (net : Net W) (lib : JsonLib J O D) (texts : JsonTexts J)
    (stoull : Stoull) (due : W → Bool × W) (c : OnecCatalog) (limits : OnecCatalogLimits) where
  abbrev Ends : Option (LoopEnd × W) → Type 0
  Ends result = (end : LoopEnd) × (w : W) × (result ≡ some (end, w)) × IsBehind end

  page_turn_lem :
      (rest : ℕ → ℕ → PullState → W → Option (LoopEnd × W)) (offset idx : ℕ) (s : PullState)
      (f : Fetched) (w : W)
      → IsGoing s
      → ((s : PullState) (w : W) → IsGoing s → Ends (rest (offset + limits.page_size) idx s w))
      → Ends (page_turn net lib texts stoull due c limits rest offset idx s f w)
  unfolding page_turn
  page_turn_lem rest offset idx s no_page w h ih =
      ih (page_error (page_failed idx offset (suc s.result.errors)) s) w
        (page_error-IsGoing _ s refl refl refl refl h)
  page_turn_lem rest offset idx s no_rows w h ih =
      ih (page_error (page_parse_failed idx offset (suc s.result.errors)) s) w
        (page_error-IsGoing _ s refl refl refl refl h)
  page_turn_lem rest offset idx s (rows_of rows) w h ih =
      let (report, w1) = due w in
      let counted = reported report (page_counted idx rows s) in
      let going =
        reported-IsGoing report (page_counted idx rows s) (page_counted-IsGoing idx rows s h) in
      elim (Bool-cases (ltb (length rows) limits.page_size)) [
        | inl q ↦ rw q (last counted w1 going)
        | inr q ↦ rw q (ih counted w1 going)
      ]
    where
      last : (s : PullState) (w : W) → IsGoing s → Ends (some (completed s, w))
      last s w g = (completed s, w, refl, g)

  page_loop_lem :
      0 < limits.page_size
      → (fuel offset idx : ℕ) (s : PullState) (w : W) → limits.max_rows ≤ offset + fuel
      → IsGoing s
      → Ends (page_loop net lib texts stoull due c limits (suc fuel) offset idx s w)
  unfolding page_loop
  page_loop_lem pos zero offset idx s w f h =
      let over : ltb offset limits.max_rows ≡ false = ground arith in
      rw over (completed s, w, refl, h)
  page_loop_lem pos (suc fuel) offset idx s w f h =
      let (stop, w1) = net.stopped w in
      let (page_json, w2) = read_page net c offset limits.page_size w1 in
      let begun = tell (page_started (suc idx) offset s.result.read_rows s.result.skipped) s in
      elim (Bool-cases (ltb offset limits.max_rows)) [
        | inr over ↦ rw over (completed s, w, refl, h)
        | inl more ↦ elim (Bool-cases stop) [
          | inl q ↦
              rw (more, q)
                (
                  interrupted (stop_with (pages_stopped s.result.read_rows s.result.skipped idx) s),
                  w1,
                  refl,
                  stop_with-IsEnded _ s (refl, refl, refl) (inr (inr (idx, refl))) h,
                )
          | inr q ↦
              rw (more, q)
                (page_turn_lem (page_loop net lib texts stoull due c limits (suc fuel)) offset
                  (suc idx) begun (fetched net lib texts stoull due c limits page_json) w2
                  (tell-IsGoing _ s (refl, refl, refl) refl h)
                  (λ s w g.
                    page_loop_lem pos fuel (offset + limits.page_size) (suc idx) s w (omega arith)
                      g))
        ]
      ]

  finalized-IsEnded :
      (end : LoopEnd) → IsBehind end → IsEnded (finalized net lib texts stoull due c limits end)
  unfolding finalized
  finalized-IsEnded (completed s) h = finalized_lem s h
  finalized-IsEnded (interrupted s) h = h

  with_total-IsGoing :
      (total : Option ℕ) (s : PullState)
      → IsGoing s
      → IsGoing (with_total net lib texts stoull due c limits total s)
  unfolding with_total
  with_total-IsGoing none s h = tell-IsGoing _ s (refl, refl, refl) refl h
  with_total-IsGoing (some total) s h =
      let told = tell-IsGoing (PullEvent.total_done total) s (refl, refl, refl) refl h in
      (told.0, told.1, told.2)

  pull_pages_lem :
      0 < limits.page_size
      → (s : PullState) (w : W) → IsGoing s
      → (s2 : PullState) × (w2 : W) × (pull_pages net lib texts stoull due c limits s w
          ≡ some (s2, w2))
        × IsEnded s2
  unfolding pull_pages
  pull_pages_lem pos s w h =
      let pages = total_pages_of net lib texts stoull due c limits s.result.total in
      let begun : PullState = record {
        result = record s.result { pages_total = pages };
        events = s.events ++ PullEvent.pages_started s.result.total pages ∷ [];
      } in
      let told =
        tell-IsGoing (PullEvent.pages_started s.result.total pages) s (refl, refl, refl) refl h in
      let (end, w2, q, behind) =
        page_loop_lem pos limits.max_rows 0 0 begun w (omega arith) (told.0, told.1, told.2) in
      (
        finalized net lib texts stoull due c limits end,
        w2,
        rw (pull_pages, q) refl,
        finalized-IsEnded end behind,
      )

  -- With pages that are not empty every pull ends, whatever the server answers and whenever it is
  -- stopped: it tells its last event once, at the end, with the counts of the result, or with the
  -- text "stopped" as its error, and the rows read, the rows skipped and the failures of the
  -- result are those that the events of the pages add up to.
  pub pull_product_catalog_ends :
      0 < limits.page_size
      → (w : W)
      → (s : PullState) × (w2 : W) × (pull_product_catalog net lib texts stoull due c limits w
          ≡ some (s, w2))
        × IsEnded s
  unfolding pull_product_catalog
  pull_product_catalog_ends pos w =
      let (stop, w1) = net.stopped w in
      let (total, w2) = read_total_count lib texts net c stoull w1 in
      let (stop2, w3) = net.stopped w2 in
      let started =
        tell PullEvent.total_started
          (tell PullEvent.connecting_done (pull_begun net lib texts stoull due c limits)) in
      let asked = with_total net lib texts stoull due c limits total started in
      let nothing : IsGoing started = ((refl, refl, refl), (refl, (refl, (refl, tt))), refl) in
      let going = with_total-IsGoing total started nothing in
      elim (Bool-cases stop) [
        | inl q ↦ rw q (
          stop_with connecting_stopped (pull_begun net lib texts stoull due c limits),
          w1,
          refl,
          stop_with-IsEnded _ (pull_begun net lib texts stoull due c limits) (refl, refl, refl)
              (inl refl) ((refl, refl, refl), (refl, tt), refl),
        )
        | inr q ↦ elim (Bool-cases stop2) [
          | inl r ↦
              rw (q, r)
                (
                  stop_with total_stopped asked,
                  w3,
                  refl,
                  stop_with-IsEnded _ asked (refl, refl, refl) (inr (inl refl)) going,
                )
          | inr r ↦ rw (q, r) (pull_pages_lem pos asked w3 going)
        ]
      ]
