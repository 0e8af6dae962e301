-- ===== src/Sse.antt =====
-- `SseSubscriber` and `SseBroker` of sse_broker.cpp. A subscriber is the buffer and the flags under its
-- lock, with all bytes that were given to the socket; the callback of a write is an event of its own.
pub mod Delivery
pub mod Replay
mod Tests
use scand.Prelude.{
  ℕ, suc, ◌-◌, ◌≤◌, Bool, true, false, not, List, [], ◌∷◌, ◌++◌, map, Bytes, codes, ltb, ◌==◌,
  is_empty, length, drop, keep, if◌then◌else◌, to_string,
}

pub record Subscriber : Type 0 where
  pub write_buf : Bytes
  pub is_open : Bool
  pub writing : Bool
  -- What `async_write` was given since the beginning, and how many of its calls have not ended.
  pub wire : Bytes
  pub in_flight : ℕ

abbrev pub new_subscriber : Subscriber
new_subscriber = record {
  write_buf = [];
  is_open = true;
  writing = false;
  wire = [];
  in_flight = 0;
}

unfoldable pub do_write : Subscriber → Subscriber
do_write s =
    if is_empty s.write_buf
    then record s { writing = false }
    else record s { wire = s.wire ++ s.write_buf; write_buf = []; in_flight = suc s.in_flight }

unfoldable pub send : Bytes → Subscriber → Subscriber
send bytes s =
    let longer : Subscriber = record s { write_buf = s.write_buf ++ bytes } in
    if is_empty bytes
    then s
    else if not s.is_open
    then s
    else if s.writing
    then longer
    else do_write (record longer { writing = true })

-- The callback of `async_write`, with or without an error.
unfoldable pub on_written : Bool → Subscriber → Subscriber
on_written error s =
    if error
    then record s { is_open = false; writing = false }
    else if is_empty s.write_buf
    then record s { writing = false }
    else do_write s

unfoldable pub close : Subscriber → Subscriber
close s = if s.is_open then record s { is_open = false } else s

pub record HistoryEntry : Type 0 where
  pub id : ℕ
  pub event_name : Bytes
  pub payload : Bytes

-- The set of subscribers is a list of them under their numbers.
pub record Broker : Type 0 where
  pub subs : List (ℕ × Subscriber)
  pub history : List HistoryEntry
  pub next_id : ℕ

abbrev pub history_max : ℕ
history_max = 500

abbrev pub new_broker : Broker
new_broker = record { subs = []; history = []; next_id = 1 }

unfoldable pub remove : ℕ → Broker → Broker
remove sub b = record b { subs = keep (λ s. not (s.0 == sub)) b.subs }

unfoldable pub add : ℕ → Subscriber → Broker → Broker
add sub s b = record b { subs = (sub, s) ∷ keep (λ t. not (t.0 == sub)) b.subs }

-- `payload`, from the serialised data.
unfoldable pub payload_of : Bytes → ℕ → Bytes → Bytes
payload_of event_name id bytes =
    codes "event: "
    ++ (event_name
        ++ (codes "\nid: " ++ (to_string id ++ (codes "\ndata: " ++ (bytes ++ codes "\n\n")))))

unfoldable pub broadcast_with_id : Bytes → Bytes → ℕ → Broker → Broker
broadcast_with_id event_name bytes event_id b =
    let id = if event_id == 0 then b.next_id else event_id in
    let payload = payload_of event_name id bytes in
    let entry : HistoryEntry = record { id = id; event_name = event_name; payload = payload } in
    let longer = b.history ++ entry ∷ [] in
    record {
      subs = map (λ s. (s.0, send payload s.1)) b.subs;
      history = drop (length longer - history_max) longer;
      next_id = if event_id == 0 then suc b.next_id else b.next_id;
    }

unfoldable pub broadcast : Bytes → Bytes → Broker → Broker
broadcast event_name bytes b = broadcast_with_id event_name bytes 0 b

-- `missed`.
unfoldable pub missed : ℕ → List HistoryEntry → List Bytes
missed last_event_id history =
    map (λ (e : HistoryEntry). e.payload) (keep (λ e. ltb last_event_id e.id) history)

abbrev pub send_all : List Bytes → Subscriber → Subscriber
send_all [] s = s
send_all (p ∷ ps) s = send_all ps (send p s)

-- An id that is not positive is 0.
unfoldable pub replay_to : ℕ → Broker → Subscriber → Subscriber
replay_to last_event_id b s =
    if last_event_id == 0 then s else send_all (missed last_event_id b.history) s

unfoldable pub count : Broker → ℕ
count b = length b.subs

-- The broker without subscribers, and the closed ones.
unfoldable pub close_all : Broker → Broker × List Subscriber
close_all b = (record b { subs = [] }, map (λ s. close s.1) b.subs)
