-- ===== src/Sse/Delivery.antt =====
-- A subscriber's bytes reach the socket in order and without a gap.
use scand.Prelude.{
  ℕ, zero, suc, ◌≤◌, is_empty, inr, Bool-cases, ◌≡◌, refl, ap, ◌∙◌, sym, ◌⊎◌, inl, Bool, true,
  false, List, [], ◌∷◌, ◌++◌, append-nil, append_assoc, arith, Bytes, if◌then◌else◌,
}
use scand.Sse.{Subscriber, new_subscriber, do_write, send, on_written, close}

-- What may happen to a subscriber.
pub data Happening : Type 0 where
  sent : Bytes → Happening
  written : (error : Bool) → Happening
  closed : Happening

-- The end of one of the calls of `async_write` that have not ended, which nothing ends where there is none.
abbrev pub ended : Bool → ℕ → Subscriber → Subscriber
ended error zero s = s
ended error (suc n) s = on_written error (record s { in_flight = n })

unfoldable pub happen : Happening → Subscriber → Subscriber
happen (sent bytes) s = send bytes s
happen (written error) s = ended error s.in_flight s
happen closed s = close s

-- The subscriber after all that happened, from the first on.
abbrev pub after : List Happening → Subscriber → Subscriber
after [] s = s
after (h ∷ hs) s = after hs (happen h s)

-- What one happening adds to what an open subscriber was sent.
abbrev adds : Happening → Subscriber → Bytes
adds (sent bytes) s = if s.is_open then bytes else []
adds _ s = []

-- All that it was sent while it was open.
abbrev pub accepted : List Happening → Subscriber → Bytes
accepted [] s = []
accepted (h ∷ hs) s = adds h s ++ accepted hs (happen h s)

-- At most one call of `async_write` has not ended, and an open subscriber with bytes in its buffer has
-- one, whose end sends them; the flag of an open one tells of it.
abbrev pub IsFlowing : Subscriber → Type 0
IsFlowing s =
    (s.in_flight ≤ 1)
    × ((s.write_buf ≡ []) ⊎ (s.in_flight ≡ 1) ⊎ (s.is_open ≡ false))
    × ((s.is_open ≡ false)
        ⊎ ((s.writing ≡ true) × (s.in_flight ≡ 1))
        ⊎ ((s.writing ≡ false) × (s.in_flight ≡ 0)))

do_write_lem :
    (s : Subscriber)
    → is_empty s.write_buf ≡ false
    → let t = do_write s in
      (t.wire ++ t.write_buf ≡ s.wire ++ s.write_buf)
      × (t.write_buf ≡ [])
      × (t.is_open ≡ s.is_open)
      × (t.writing ≡ s.writing)
      × (t.in_flight ≡ suc s.in_flight)
unfolding do_write
do_write_lem s h = rw h (append-nil (s.wire ++ s.write_buf), refl, refl, refl, refl)

is_empty-append : (a b : Bytes) → is_empty b ≡ false → is_empty (a ++ b) ≡ false
is_empty-append [] b h = h
is_empty-append (x ∷ a) b h = refl

abbrev Holds : Bytes → Subscriber → Type 0
Holds given t = (t.wire ++ t.write_buf ≡ given) × IsFlowing t

send_lem :
    (bytes : Bytes) (s : Subscriber)
    → IsFlowing s
    → Holds ((s.wire ++ s.write_buf) ++ adds (sent bytes) s) (send bytes s)
unfolding send
send_lem bytes s f = elim (Bool-cases (is_empty bytes)) [
  | inl e ↦ ground (arith, append-nil (s.wire ++ s.write_buf), nothing bytes e)
  | inr e ↦
      let longer : Subscriber = record s { write_buf = s.write_buf ++ bytes } in
      let (a, b, c, d, g) =
        do_write_lem (record longer { writing = true }) (is_empty-append s.write_buf bytes e) in
      ground (
        arith,
        a,
        b,
        c,
        d,
        g,
        append-nil (s.wire ++ s.write_buf),
        append_assoc s.wire s.write_buf bytes,
      )
]
  where
    nothing : (b : Bytes) → is_empty b ≡ true → b ≡ []
    nothing [] h = refl
    nothing (x ∷ b) h = cc

ended_lem :
    (error : Bool) (n : ℕ) (s : Subscriber)
    → n ≡ s.in_flight
    → IsFlowing s
    → Holds (s.wire ++ s.write_buf) (ended error n s)
unfolding on_written
ended_lem error zero s e f = (refl, f)
ended_lem error (suc n) s e f = elim (Bool-cases (is_empty s.write_buf)) [
  | inl h ↦ ground arith
  | inr h ↦
      let (a, b, c, d, g) = do_write_lem (record s { in_flight = n }) h in
      ground (arith, a, b, c, d, g)
]

happen_lem :
    (h : Happening) (s : Subscriber)
    → IsFlowing s
    → Holds ((s.wire ++ s.write_buf) ++ adds h s) (happen h s)
unfolding happen close
happen_lem (sent bytes) s f = send_lem bytes s f
happen_lem (written error) s f =
    rw (append-nil (s.wire ++ s.write_buf)) (ended_lem error s.in_flight s refl f)
happen_lem closed s f = ground (arith, append-nil (s.wire ++ s.write_buf))

after_lem :
    (hs : List Happening) (s : Subscriber)
    → IsFlowing s
    → let t = after hs s in
      (t.wire ++ t.write_buf ≡ (s.wire ++ s.write_buf) ++ accepted hs s) × IsFlowing t
after_lem [] s f = (sym (append-nil (s.wire ++ s.write_buf)), f)
after_lem (h ∷ hs) s f =
    let (a, g) = happen_lem h s f in
    let (b, k) = after_lem hs (happen h s) g in
    (
      b
          ∙ ap (λ r. r ++ accepted hs (happen h s)) a
          ∙ append_assoc (s.wire ++ s.write_buf) (adds h s) (accepted hs (happen h s)),
      k,
    )

-- After any sends, ends of writes, failures and closing of a new subscriber, what the socket was given
-- followed by what the buffer holds is all that was sent while it was open, in order and without a
-- gap; at most one write that was started has not ended; and an open subscriber with bytes in its
-- buffer has such a write, as its flag tells.
pub after_in_order :
    (hs : List Happening)
    → let t = after hs new_subscriber in
      (t.wire ++ t.write_buf ≡ accepted hs new_subscriber) × IsFlowing t
after_in_order hs = after_lem hs new_subscriber (omega arith, inl refl, inr (inr (refl, refl)))
