-- ===== src/Sync/Ozon.antt =====
-- The loop of `run_ozon_sync` of sync_service.cpp.

use scand.Prelude.{
  ℕ, zero, suc, ◌+◌, ◌*◌, min, not, ◌&&◌, List, [], ◌∷◌, map, Bytes, codes, none, some, ltb, leb,
  ◌==◌, is_empty, keep, length, if◌then◌else◌, insert, lookup,
}
use scand.Sync.State.{
  OzonProduct, OzonPage, SyncCheckpoint, set, checkpoint_saved, ozon_upserted, slept, Outside,
  Percents, Options, Service, emit, load_stop,
}
use scand.Sync.Progress.{running_status, send_progress}

abbrev pub max_consecutive_failures : ℕ
max_consecutive_failures = 10

abbrev pub initial_retry_delay_sec : ℕ
initial_retry_delay_sec = 2

abbrev pub max_retry_delay_sec : ℕ
max_retry_delay_sec = 60

-- The local variables of the loop.
pub record Locals : Type 0 where
  pub cp : SyncCheckpoint
  pub last_id : Bytes
  pub total : ℕ
  pub page : ℕ
  pub retry_delay_sec : ℕ
  pub consecutive_failures : ℕ

-- What a turn of the loop does next: the next turn, `break`, or `break` with `task_failed`.
pub data Next : Type 0 where
  go_on : Locals → Next
  finished : Locals → Next
  failed : Locals → Next

module _ {D : Type 0} where
  -- `by_sku`: the last product with an SKU stands.
  unfoldable pub by_sku :
      List (OzonProduct D) → List (Bytes × OzonProduct D) → List (Bytes × OzonProduct D)
  by_sku [] m = m
  by_sku (p ∷ prices) m = by_sku prices (insert p.sku p m)

  -- The product with what the prices say of it.
  unfoldable pub with_price : List (Bytes × OzonProduct D) → OzonProduct D → OzonProduct D
  with_price m p = elim (lookup p.sku m) [
    | none ↦ p
    | some q ↦ record p { price = q.price; currency = q.currency; in_stock = q.in_stock }
  ]

  unfoldable pub skus_of : List (OzonProduct D) → List Bytes
  skus_of details = map (λ (p : OzonProduct D). p.sku) (keep (λ p. not (is_empty p.sku)) details)

  unfoldable pub merged : List (OzonProduct D) → List (OzonProduct D) → List (OzonProduct D)
  merged details prices = map (with_price (by_sku prices [])) details

  -- The checkpoint after a page.
  unfoldable pub after_page : OzonPage D → ℕ → Locals → SyncCheckpoint
  after_page page count l = record l.cp {
    source = codes "ozon";
    last_cursor = page.last_id;
    last_page = suc l.page;
    total_synced = l.total + count;
    dirty_pages = suc l.cp.dirty_pages;
    last_status = running_status;
  }

module _ {D W : Type 0} (out : Outside D W) (num : Percents D) (opts : Options) where
  -- `cp.last_status = status`, the checkpoint saved and the progress sent.
  unfoldable pub report : Bytes → Locals → Service D W → Locals × Service D W
  report status l s =
      let cp : SyncCheckpoint = record l.cp { last_status = status } in
      let (cp2, s2) =
        send_progress out num opts (codes "ozon") l.total cp.total_expected status cp
          (emit out (checkpoint_saved cp) s) in
      (record l { cp = cp2 }, s2)

  -- A page with `network_error`.
  unfoldable pub on_failure : Locals → Service D W → Next × Service D W
  on_failure l s =
      let (l1, s1) =
        report (codes "retry") (record l { consecutive_failures = suc l.consecutive_failures }) s in
      let (l2, s2) = report (codes "failed") l1 s1 in
      if leb max_consecutive_failures l1.consecutive_failures then (failed l2, s2) else (
        go_on (record l1 { retry_delay_sec = min (l1.retry_delay_sec * 2) max_retry_delay_sec }),
        emit out (slept (l1.retry_delay_sec * 1000)) s1,
      )

  -- `cp.total_expected` from the first page that knows it.
  unfoldable pub expect_total : OzonPage D → Locals → Service D W → Locals × Service D W
  expect_total page l s =
      let cp : SyncCheckpoint = record l.cp { total_expected = page.total } in
      let (cp2, s2) =
        send_progress out num opts (codes "ozon") l.total page.total running_status cp s in
      if (l.cp.total_expected == 0) && ltb 0 page.total then (record l { cp = cp2 }, s2) else (l, s)

  -- The two further queries about the products of a page.
  unfoldable pub details_of : OzonPage D → Service D W → List (OzonProduct D) × Service D W
  details_of page s =
      let (details, w1) =
        out.fetch_info_batch (map (λ (p : OzonProduct D). p.id) page.items) s.world in
      let (prices, w2) = out.fetch_prices_stocks_batch (skus_of details) w1 in
      (merged details prices, record s { world = w2 })

  -- A page with products is written down.
  unfoldable pub keep_page :
      OzonPage D → List (OzonProduct D) → Locals → Service D W → Locals × Service D W
  keep_page page details l s =
      let s1 = emit out (ozon_upserted details) s in
      let cp = after_page page (length details) l in
      let s2 = emit out (checkpoint_saved cp) (record s1 { store = set cp s1.store }) in
      let (cp2, s3) =
        send_progress out num opts (codes "ozon") cp.total_synced cp.total_expected running_status
          cp s2 in
      (
        record l { cp = cp2; last_id = page.last_id; total = cp.total_synced; page = suc l.page },
        s3,
      )

  -- A page that came.
  unfoldable pub on_page : OzonPage D → Locals → Service D W → Next × Service D W
  on_page page l s =
      let l0 : Locals = record l {
        consecutive_failures = 0;
        retry_delay_sec = initial_retry_delay_sec;
      } in
      let (l1, s1) = expect_total page l0 s in
      let (details, s2) = details_of page s1 in
      let (l3, s3) = keep_page page details l1 s2 in
      if is_empty page.items
      then (finished l1, s1)
      else if page.has_more
      then (go_on l3, emit out (slept 200) s3)
      else (finished l3, s3)

  -- One turn of `while (true)`.
  unfoldable pub turn : Locals → Service D W → Next × Service D W
  turn l s =
      let (stop, s1) = load_stop out s in
      let (page, w) = out.fetch_page_cursor l.last_id s1.world in
      let s2 = record s1 { world = w } in
      if stop
      then (finished l, s1)
      else if page.network_error
      then on_failure l s2
      else on_page page l s2

  -- `continue` to the rest of the loop, or out of it.
  abbrev pub proceed :
      (Locals → Service D W → Next × Service D W) → Next × Service D W → Next × Service D W
  proceed rest (go_on l, s) = rest l s
  proceed rest (finished l, s) = (finished l, s)
  proceed rest (failed l, s) = (failed l, s)

  -- The loop; the fuel bounds its turns, and `go_on` at the end means that it ran out.
  unfoldable pub turns : ℕ → Locals → Service D W → Next × Service D W
  turns zero l s = (go_on l, s)
  turns (suc fuel) l s = proceed (λ l2 s2. turns fuel l2 s2) (turn l s)
