-- ===== src/Stores.antt =====
-- `WebhookStore` of webhook_store.cpp and `OnecRawLog` of onec_raw_log.cpp: the newest entries in
-- memory. The time of an entry is an argument.
pub mod Laws
mod Tests
use scand.Prelude.{
  ℕ, suc, ◌-◌, min, List, [], ◌∷◌, ◌++◌, Bytes, codes, ltb, length, take, drop, if◌then◌else◌,
}

pub record WebhookEntry : Type 0 where
  pub id : ℕ
  pub received_at : Bytes
  pub source : Bytes
  pub message_type : Bytes
  pub body : Bytes
  pub remote_ip : Bytes

-- The newest entry stands first.
pub record WebhookStore : Type 0 where
  pub entries : List WebhookEntry
  pub next_id : ℕ

abbrev pub max_size : ℕ
max_size = 500

abbrev pub new_store : WebhookStore
new_store = record { entries = []; next_id = 1 }

-- `while (entries_.size() > MAX_SIZE) entries_.pop_back()` leaves the first ones.
unfoldable pub add_webhook : Bytes → WebhookEntry → WebhookStore → WebhookStore
add_webhook now entry st = record {
  entries = take max_size (record entry { id = st.next_id; received_at = now } ∷ st.entries);
  next_id = suc st.next_id;
}

unfoldable pub last_webhooks : ℕ → WebhookStore → List WebhookEntry
last_webhooks limit st = take (min limit (length st.entries)) st.entries

unfoldable pub clear_webhooks : WebhookStore → WebhookStore
clear_webhooks st = record st { entries = [] }

-- `OnecRawLog`: the oldest line stands first, and `while (size > MAX_SIZE) pop_front()` leaves the
-- last ones.
unfoldable pub add_line : Bytes → Bytes → List Bytes → List Bytes
add_line now entry lines =
    let longer = lines ++ (codes "[" ++ (now ++ (codes "] " ++ entry))) ∷ [] in
    drop (length longer - max_size) longer

-- The lines from that one on, each with its end.
unfoldable pub dump : List Bytes → Bytes
dump [] = []
dump (line ∷ lines) = line ++ (10 ∷ dump lines)

unfoldable pub tail : ℕ → List Bytes → Bytes
tail n lines = dump (drop (if ltb n (length lines) then length lines - n else 0) lines)

unfoldable pub clear_lines : List Bytes → List Bytes
clear_lines lines = []
