-- ===== src/Stores/Laws.antt =====
-- What the two stores in memory hold after any number of additions.
use scand.Prelude.{
  ℕ, zero, suc, ◌≤◌, min, ◌≡◌, refl, ap, ◌∙◌, List, [], ◌∷◌, arith, Bytes, length, take, take_clip,
}
use scand.Stores.{WebhookEntry, WebhookStore, max_size, new_store, add_webhook, last_webhooks}

take-take : {A : Type 0} (n m : ℕ) (xs : List A) → n ≤ m → take n (take m xs) ≡ take n xs
take-take zero m xs h = refl
take-take (suc n) zero xs h = absurd (omega arith)
take-take (suc n) (suc m) [] h = refl
take-take (suc n) (suc m) (x ∷ xs) h = cc (take-take n m xs (omega arith))

-- The additions so far, the newest first, each with its time.
abbrev pub filled : List (Bytes × WebhookEntry) → WebhookStore
filled [] = new_store
filled ((now, entry) ∷ older) = add_webhook now entry (filled older)

-- All entries that were ever added, with their numbers from 1 on, the newest first.
abbrev pub numbered : List (Bytes × WebhookEntry) → List WebhookEntry
numbered [] = []
numbered ((now, entry) ∷ older) =
    record entry { id = suc (length older); received_at = now } ∷ numbered older

filled_lem :
    (added : List (Bytes × WebhookEntry))
    → ((filled added).entries ≡ take max_size (numbered added))
      × ((filled added).next_id ≡ suc (length added))
unfolding add_webhook
filled_lem [] = (refl, refl)
filled_lem ((now, entry) ∷ older) =
    let (same, next) = filled_lem older in
    (
      rw (next, same)
          (ap (record entry { id = suc (length older); received_at = now } ∷◌)
            (take-take 499 500 (numbered older) (omega arith))),
      ap suc next,
    )

-- After any additions to an empty store, asking for the last entries gives the newest ones, the
-- newest first, each with its number since the beginning; as many as were asked for, but at most 500.
pub last_webhooks_newest :
    (limit : ℕ) (added : List (Bytes × WebhookEntry))
    → last_webhooks limit (filled added) ≡ take (min limit max_size) (numbered added)
unfolding last_webhooks
last_webhooks_newest limit added =
    let (same, next) = filled_lem added in
    rw same
      (take_clip limit (take max_size (numbered added)) ∙ take_both limit max_size (numbered added))
  where
    take_both : {A : Type 0} (n m : ℕ) (xs : List A) → take n (take m xs) ≡ take (min n m) xs
    take_both zero m xs = ground arith
    take_both (suc n) zero xs = ground arith
    take_both (suc n) (suc m) [] =
        let e : min (suc n) (suc m) ≡ suc (min n m) = omega arith in rw e refl
    take_both (suc n) (suc m) (x ∷ xs) =
        let e : min (suc n) (suc m) ≡ suc (min n m) = omega arith in rw e (cc (take_both n m xs))
