-- ===== src/Sync/Onec.antt =====
-- `run_full_sync` and `run_single_sync` of sync_service.cpp: the old mode over HTTP.
pub mod Complete
use scand.Prelude.{
  ℕ, zero, suc, ◌+◌, Bool, false, Bytes, codes, Option, none, some, ltb, is_empty, length,
  if◌then◌else◌,
}
use scand.Sync.State.{
  Product1C, SyncCheckpoint, set, checkpoint_saved, onec_upserted, Outside, Percents, Options,
  Service, emit,
}
use scand.Sync.Progress.{running_status}
use scand.Sync.Run.{checkpoint_of}
use scand.Prelude.{List, [], ◌∷◌}

module _ {D W : Type 0} (out : Outside D W) (num : Percents D) (opts : Options) where
  -- The checkpoint after a page of so many products.
  unfoldable pub after_onec_page : ℕ → ℕ → SyncCheckpoint → SyncCheckpoint
  after_onec_page page total cp = record cp {
    source = codes "onec";
    last_page = page;
    total_synced = total;
    dirty_pages = suc cp.dirty_pages;
    last_status = running_status;
  }

  unfoldable pub keep_onec_page :
      ℕ → ℕ → List (Product1C D) → SyncCheckpoint → Service D W → Service D W
  keep_onec_page page total products cp s =
      let s1 = emit out (onec_upserted products) s in
      emit out (checkpoint_saved (after_onec_page page total cp))
        (record s1 { store = set (after_onec_page page total cp) s1.store })

  -- The body of the loop from the products of a page on; `rest` is the rest of the loop.
  unfoldable pub onec_turn :
      (ℕ → SyncCheckpoint → Service D W → Option (SyncCheckpoint × Service D W))
      → ℕ
      → ℕ
      → SyncCheckpoint
      → Service D W
      → List (Product1C D)
      → Option (SyncCheckpoint × Service D W)
  onec_turn rest page total cp s products =
      let sum = total + length products in
      let cp2 = after_onec_page page sum cp in
      let s2 = keep_onec_page page sum products cp s in
      if is_empty products
      then some (cp, s)
      else if ltb (length products) opts.onec_page_size
      then some (cp2, s2)
      else rest sum cp2 s2

  -- `while (true)`; the fuel bounds the pages, and `none` means that it ran out.
  unfoldable pub onec_pages :
      ℕ → ℕ → ℕ → SyncCheckpoint → Service D W → Option (SyncCheckpoint × Service D W)
  onec_pages zero page total cp s = none
  onec_pages (suc fuel) page total cp s =
      let (products, w) = out.fetch_page page s.world in
      onec_turn (λ sum cp2 s2. onec_pages fuel (suc page) sum cp2 s2) page total cp
        (record s { world = w }) products

  -- What follows the loop.
  unfoldable pub full_sync_end : Option (SyncCheckpoint × Service D W) → Option (Service D W)
  full_sync_end none = none
  full_sync_end (some (cp, s)) =
      let done : SyncCheckpoint = record cp { last_status = codes "done" } in
      some (record (emit out (checkpoint_saved done) s) { running = false })

  unfoldable pub run_full_sync : ℕ → Service D W → Option (Service D W)
  run_full_sync fuel s =
      let (cp, s1) = checkpoint_of out num opts (codes "onec") s in
      full_sync_end (onec_pages fuel (suc cp.last_page) cp.total_synced cp s1)

  unfoldable pub run_single_sync : Bytes → Service D W → Service D W
  run_single_sync product_id s =
      let (product, w) = out.fetch_product product_id s.world in
      let s1 = record s { world = w } in
      elim product [ none ↦ s1 | some p ↦ emit out (onec_upserted (p ∷ [])) s1 ]
