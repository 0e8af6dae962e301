-- ===== src/Sse/Replay.antt =====
-- The history of events, from which a subscriber that comes back gets what it has missed.
use scand.Prelude.{
  ℕ, zero, suc, ◌+◌, ◌-◌, ◌≤◌, ◌<◌, ◌≡◌, refl, ap, sym, subst, ◌∙◌, true, false, List, [], ◌∷◌,
  ◌++◌, append-nil, append_assoc, arith, Bytes, ltb, length, drop, length-append, length-drop,
  drop-drop, All, All-drop, ◌==◌,
}
use scand.Sse.{
  HistoryEntry, Broker, history_max, payload_of, broadcast, broadcast_with_id, missed, send_all,
  replay_to, Subscriber,
}

-- An event as it is broadcast: its name and its data.
abbrev pub broadcasts : List (Bytes × Bytes) → Broker → Broker
broadcasts [] b = b
broadcasts ((name, value) ∷ news) b = broadcasts news (broadcast name value b)

-- Their entries, numbered from there on.
abbrev pub entries : ℕ → List (Bytes × Bytes) → List HistoryEntry
entries id [] = []
entries id ((name, value) ∷ news) =
    record { id = id; event_name = name; payload = payload_of name id value }
    ∷ entries (suc id) news

-- Their texts.
abbrev pub payloads : ℕ → List (Bytes × Bytes) → List Bytes
payloads id [] = []
payloads id ((name, value) ∷ news) = payload_of name id value ∷ payloads (suc id) news

-- The history is not longer than it may be, and its numbers are below the next one.
abbrev pub IsHistory : Broker → Type 0
IsHistory b =
    (length b.history ≤ history_max) × All (λ (e : HistoryEntry). e.id < b.next_id) b.history

drop-append :
    {A : Type 0} (n : ℕ) (xs ys : List A) → n ≤ length xs → drop n (xs ++ ys) ≡ drop n xs ++ ys
drop-append zero xs ys h = refl
drop-append (suc n) [] ys h = absurd (omega arith)
drop-append (suc n) (x ∷ xs) ys h = drop-append n xs ys (omega arith)

abbrev newest : List HistoryEntry → List HistoryEntry
newest es = drop (length es - history_max) es

newest-append : (xs ys : List HistoryEntry) → newest (newest xs ++ ys) ≡ newest (xs ++ ys)
newest-append xs ys =
    let n = length xs - history_max in
    let joined = drop-append n xs ys (omega arith) in
    let k = length (newest xs ++ ys) - history_max in
    let total : n + k ≡ length (xs ++ ys) - history_max =
      omega (arith, length-append xs ys, length-append (newest xs) ys, length-drop n xs) in
    sym (ap (drop k) joined) ∙ drop-drop k n (xs ++ ys) ∙ ap (λ m. drop m (xs ++ ys)) total

history_lem :
    (news : List (Bytes × Bytes)) (b : Broker)
    → b.history ≡ newest b.history
    → (broadcasts news b).history ≡ newest (b.history ++ entries b.next_id news)
unfolding broadcast broadcast_with_id
history_lem [] b h = h ∙ ap newest (sym (append-nil b.history))
history_lem ((name, value) ∷ news) b h =
    let b2 = broadcast name value b in
    let e : HistoryEntry = record {
      id = b.next_id;
      event_name = name;
      payload = payload_of name b.next_id value;
    } in
    let longer = b.history ++ e ∷ [] in
    let rest = entries (suc b.next_id) news in
    let cut_once : b2.history ≡ newest b2.history =
      ap newest (sym (append-nil longer))
      ∙ sym (newest-append longer [])
      ∙ ap newest (append-nil b2.history) in
    history_lem news b2 cut_once
    ∙ newest-append longer rest
    ∙ ap newest (append_assoc b.history (e ∷ []) rest)

length-entries : (id : ℕ) (news : List (Bytes × Bytes)) → length (entries id news) ≡ length news
length-entries id [] = refl
length-entries id (x ∷ news) = ap suc (length-entries (suc id) news)

missed-old :
    (k : ℕ) (es more : List HistoryEntry)
    → All (λ (e : HistoryEntry). e.id < suc k) es
    → missed k (es ++ more) ≡ missed k more
unfolding missed
missed-old k [] more h = refl
missed-old k (e ∷ es) more (old, h) =
    let no : ltb k e.id ≡ false = ground arith in rw no (missed-old k es more h)

missed-new :
    (k id : ℕ) (news : List (Bytes × Bytes))
    → k < id
    → missed k (entries id news) ≡ payloads id news
unfolding missed
missed-new k id [] h = refl
missed-new k id ((name, value) ∷ news) h =
    let new : ltb k id ≡ true = ground arith in
    rw new (ap (payload_of name id value ∷◌) (missed-new k (suc id) news (omega arith)))

-- A subscriber that has seen event number `k` and comes back after at most 500 further broadcasts is
-- sent exactly the texts of these, in their order, where `k` was the last number given and the
-- history of the broker is not too long and has numbers up to `k` only.
pub replay_to-broadcasts :
    (news : List (Bytes × Bytes)) (k : ℕ) (b : Broker) (s : Subscriber)
    → 0 < k
    → b.next_id ≡ suc k
    → IsHistory b
    → length news ≤ history_max
    → replay_to k (broadcasts news b) s ≡ send_all (payloads (suc k) news) s
unfolding replay_to
replay_to-broadcasts news k b s h next (short, old) few =
    let new = entries b.next_id news in
    let d = length (b.history ++ new) - history_max in
    let fits : d ≤ length b.history =
      omega (arith, length-append b.history new, length-entries b.next_id news) in
    let none_cut : length b.history - history_max ≡ 0 = omega arith in
    let whole : b.history ≡ newest b.history = sym (ap (λ n. drop n b.history) none_cut) in
    let kept = history_lem news b whole ∙ drop-append d b.history new fits in
    let positive : (k == 0) ≡ false = ground arith in
    let below = subst (λ n. All (λ (e : HistoryEntry). e.id < n) b.history) next old in
    let unseen = missed-old k (drop d b.history) new (All-drop _ d b.history below) in
    let all_new = missed-new k b.next_id news (omega arith) in
    rw (positive, kept)
      (ap (λ ps. send_all ps s) (unseen ∙ all_new ∙ ap (λ id. payloads id news) next))
