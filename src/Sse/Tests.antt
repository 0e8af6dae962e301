-- ===== src/Sse/Tests.antt =====
-- Concrete runs of a subscriber.
use scand.Prelude.{◌≡◌, refl, false, List, [], ◌∷◌, ◌++◌, codes, Bytes, arith}
use scand.Sse.{
  Broker, new_broker, broadcast, broadcast_with_id, replay_to, send_all, new_subscriber, send,
  on_written, do_write, close,
}
use scand.Sse.Replay.{broadcasts, payloads, replay_to-broadcasts}
use scand.Sse.Delivery.{
  Happening, sent, written, closed, happen, after, accepted, IsFlowing, after_in_order,
}

abbrev happenings : List Happening
happenings = sent (codes "a") ∷ sent (codes "b") ∷ written false ∷ closed ∷ sent (codes "c") ∷ []

after_in_order_example :
    ((after happenings new_subscriber).wire ++ (after happenings new_subscriber).write_buf
      ≡ accepted happenings new_subscriber)
    × IsFlowing (after happenings new_subscriber)
after_in_order_example = after_in_order happenings

after_runs : (after happenings new_subscriber).wire ≡ codes "ab"
unfolding happen send on_written do_write close
after_runs = refl

abbrev seen_one : Broker
seen_one = broadcasts ((codes "progress", codes "{}") ∷ []) new_broker

abbrev news : List (Bytes × Bytes)
news = (codes "progress", codes "1") ∷ (codes "progress", codes "2") ∷ []

replay_to-broadcasts_example :
    replay_to 1 (broadcasts news seen_one) new_subscriber
    ≡ send_all (payloads 2 news) new_subscriber
unfolding broadcast broadcast_with_id
replay_to-broadcasts_example =
    replay_to-broadcasts news 1 seen_one new_subscriber (omega arith) refl
      (omega arith, (omega arith, tt)) (omega arith)
