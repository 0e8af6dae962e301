-- ===== src/Stores/Tests.antt =====
-- Concrete runs of the stores.
use scand.Prelude.{min, ◌≡◌, refl, List, [], ◌∷◌, Bytes, codes, take}
use scand.Stores.{WebhookEntry, max_size, last_webhooks, add_line, dump, tail}
use scand.Stores.Laws.{filled, numbered, last_webhooks_newest}

abbrev hook : Bytes → Bytes × WebhookEntry
hook body = (
  codes "now",
  record { id = 0; received_at = []; source = []; message_type = []; body = body; remote_ip = [] },
)

abbrev hooks : List (Bytes × WebhookEntry)
hooks = hook (codes "b") ∷ hook (codes "a") ∷ []

last_webhooks_newest_example :
    last_webhooks 1 (filled hooks) ≡ take (min 1 max_size) (numbered hooks)
last_webhooks_newest_example = last_webhooks_newest 1 hooks

tail_runs :
    tail 1 (add_line (codes "t") (codes "y") (add_line (codes "t") (codes "x") []))
    ≡ codes "[t] y\n"
unfolding tail add_line dump
tail_runs = refl
