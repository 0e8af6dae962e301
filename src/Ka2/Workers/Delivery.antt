-- ===== src/Ka2/Workers/Delivery.antt =====
-- What the threads deliver together.
use mathlib.Core.List.{Perm, perm_append_comm}
use mathlib.Core.List.Perm
use scand.Prelude.{
  ℕ, zero, suc, ◌+◌, ◌≡◌, refl, ap, ◌∙◌, Bool, false, List, [], ◌∷◌, ◌++◌, append_assoc, length,
  length-append, ◌<◌, drop, flat_map, arith, drop-drop, subst, subst₂,
}
use scand.Ka2.Workers.{
  Worker, ready, holding, returned, Shared, Step, claim, leave, stop, deliver, Reach, here,
  then_step, all_ready, launched, AllReturned,
}

module _ {A : Type 0} where
  pull : (p x y : List A) → Perm (x ++ (p ++ y)) (p ++ (x ++ y))
  pull p x y =
      rw (← append_assoc x p y, ← append_assoc p x y)
        (Perm.append (perm_append_comm x p) (Perm.refl y))

  pull_two : (p x y z : List A) → Perm (x ++ (y ++ (p ++ z))) (p ++ (x ++ (y ++ z)))
  pull_two p x y z = rw (← append_assoc x y (p ++ z), ← append_assoc x y z) (pull p (x ++ y) z)

  delivered_perm :
      (a b c d e p : List A)
      → Perm ((a ++ b) ++ ((c ++ (p ++ d)) ++ e)) (((a ++ p) ++ b) ++ ((c ++ d) ++ e))
  delivered_perm a b c d e p =
      simp append_assoc (Perm.append (Perm.refl a) (pull_two p b c (d ++ e)))

  lost_perm :
      (a b c d e p : List A)
      → Perm ((a ++ b) ++ ((c ++ (p ++ d)) ++ e)) ((a ++ (p ++ b)) ++ ((c ++ d) ++ e))
  lost_perm a b c d e p = simp append_assoc (Perm.append (Perm.refl a) (pull_two p b c (d ++ e)))

  claimed_perm :
      (a c d e p : List A) → Perm (a ++ ((c ++ d) ++ (p ++ e))) (a ++ ((c ++ (p ++ d)) ++ e))
  claimed_perm a c d e p =
      simp append_assoc (Perm.append (Perm.refl a) (Perm.append (Perm.refl c) (pull p d e)))

module _ {C O : Type 0} (process : C → List O) where
  held : List (Worker C) → List O
  held [] = []
  held (holding c ∷ ws) = process c ++ held ws
  held (ready ∷ ws) = held ws
  held (returned ∷ ws) = held ws

  held-append : (xs ys : List (Worker C)) → held (xs ++ ys) ≡ held xs ++ held ys
  unfolding held
  held-append [] ys = refl
  held-append (holding c ∷ xs) ys =
      cc (held-append xs ys, append_assoc (process c) (held xs) (held ys))
  held-append (ready ∷ xs) ys = held-append xs ys
  held-append (returned ∷ xs) ys = held-append xs ys

  held-all_ready : (n : ℕ) → held (all_ready n) ≡ []
  unfolding held
  held-all_ready zero = refl
  held-all_ready (suc n) = held-all_ready n

  held_of_AllReturned : (ws : List (Worker C)) → AllReturned ws → held ws ≡ []
  unfolding held
  held_of_AllReturned [] h = refl
  held_of_AllReturned (returned ∷ ws) h = held_of_AllReturned ws h
  held_of_AllReturned (ready ∷ ws) h = elim h [ ]
  held_of_AllReturned (holding c ∷ ws) h = elim h [ ]

  held_ready : (pre post : List (Worker C)) → held (pre ++ ready ∷ post) ≡ held pre ++ held post
  held_ready pre post = held-append pre (ready ∷ post) ∙ unfold held in refl

  held_returned :
      (pre post : List (Worker C)) → held (pre ++ returned ∷ post) ≡ held pre ++ held post
  held_returned pre post = held-append pre (returned ∷ post) ∙ unfold held in refl

  held_holding :
      (pre post : List (Worker C)) (c : C)
      → held (pre ++ holding c ∷ post) ≡ held pre ++ (process c ++ held post)
  held_holding pre post c = held-append pre (holding c ∷ post) ∙ unfold held in refl

  flat_map-cons :
      (c : C) (cs : List C) → flat_map process (c ∷ cs) ≡ process c ++ flat_map process cs
  flat_map-cons c cs = unfold flat_map in refl

  returned_count : List (Worker C) → ℕ
  returned_count [] = 0
  returned_count (returned ∷ ws) = suc (returned_count ws)
  returned_count (ready ∷ ws) = returned_count ws
  returned_count (holding c ∷ ws) = returned_count ws

  returned_count-append :
      (xs ys : List (Worker C)) → returned_count (xs ++ ys) ≡ returned_count xs + returned_count ys
  unfolding returned_count
  returned_count-append [] ys = omega arith
  returned_count-append (returned ∷ xs) ys = omega (arith, returned_count-append xs ys)
  returned_count-append (ready ∷ xs) ys = returned_count-append xs ys
  returned_count-append (holding c ∷ xs) ys = returned_count-append xs ys

  -- A thread that goes on to hold a chunk or to be ready again does not change the count.
  returned_count_same :
      (pre post : List (Worker C)) (c : C)
      → (returned_count (pre ++ holding c ∷ post) ≡ returned_count pre + returned_count post)
        × (returned_count (pre ++ ready ∷ post) ≡ returned_count pre + returned_count post)
  returned_count_same pre post c = (
    returned_count-append pre (holding c ∷ post) ∙ unfold returned_count in refl,
    returned_count-append pre (ready ∷ post) ∙ unfold returned_count in refl,
  )

  returned_count_all :
      (ws : List (Worker C)) → AllReturned ws → 0 < length ws → 0 < returned_count ws
  unfolding returned_count
  returned_count_all [] h p = absurd (omega arith)
  returned_count_all (returned ∷ ws) h p = omega arith
  returned_count_all (ready ∷ ws) h p = elim h [ ]
  returned_count_all (holding c ∷ ws) h p = elim h [ ]

  returned_count_ready : (n : ℕ) → returned_count (all_ready n) ≡ 0
  unfolding returned_count
  returned_count_ready zero = refl
  returned_count_ready (suc n) = returned_count_ready n

  length-all_ready : (n : ℕ) → length (all_ready {C = C} n) ≡ n
  length-all_ready zero = refl
  length-all_ready (suc n) = ap suc (length-all_ready n)

  module _ (chunks : List C) (stoppable : Bool) where
    -- While nobody stops, a thread returns only when all chunks are claimed.
    record Ends (workers : ℕ) (s : Shared C O) : Type 0 where
      as_many : length s.workers ≡ workers
      all_claimed : stoppable ≡ false → 0 < returned_count s.workers → drop s.next chunks ≡ []

    Step-Ends :
        {workers : ℕ} {s t : Shared C O}
        → Step process chunks stoppable s t
        → Ends workers s
        → Ends workers t
    Step-Ends {s} (claim pre post c rest t at more same) e = rw same (record {
      as_many = omega (
        arith,
        e.as_many,
        ap length at,
        length-append pre (ready ∷ post),
        length-append pre (holding c ∷ post),
      );
      all_claimed = λ n p.
          let none_left = e.all_claimed n (
            omega (
              arith,
              ap returned_count at,
              (returned_count_same pre post c).0,
              (returned_count_same pre post c).1,
            )) in
          cc (none_left, more);
    })
    Step-Ends {s} (leave pre post t at over same) e = rw same (record {
      as_many = omega (
        arith,
        e.as_many,
        ap length at,
        length-append pre (ready ∷ post),
        length-append pre (returned ∷ post),
      );
      all_claimed = λ n p. over;
    })
    Step-Ends {s} (stop pre post c t may at same) e = rw same (record {
      as_many = omega (
        arith,
        e.as_many,
        ap length at,
        length-append pre (holding c ∷ post),
        length-append pre (returned ∷ post),
      );
      all_claimed = λ n p. cc (may, n);
    })
    Step-Ends {s} (deliver pre post c t at same) e = rw same (record {
      as_many = omega (
        arith,
        e.as_many,
        ap length at,
        length-append pre (holding c ∷ post),
        length-append pre (ready ∷ post),
      );
      all_claimed = λ n p. e.all_claimed n (
          omega (
            arith,
            ap returned_count at,
            (returned_count_same pre post c).0,
            (returned_count_same pre post c).1,
          ));
    })

    Reach-Ends :
        {workers : ℕ} {s t : Shared C O}
        → Ends workers s
        → Reach process chunks stoppable s t
        → Ends workers t
    Reach-Ends e here = e
    Reach-Ends e (then_step r st) = Step-Ends st (Reach-Ends e r)

    -- Delivered, lost to a stop, held and still to claim are together the rows of all chunks.
    record Inv (s : Shared C O) : Type 0 where
      lost : List O
      none_lost : stoppable ≡ false → lost ≡ []
      accounted :
          Perm
            ((s.result ++ lost) ++ (held s.workers ++ flat_map process (drop s.next chunks)))
            (flat_map process chunks)

    abbrev Accounts : List O → List O → List O → Type 0
    Accounts out mine later = Perm (out ++ (mine ++ later)) (flat_map process chunks)

    Step-Inv : {s t : Shared C O} → Step process chunks stoppable s t → Inv s → Inv t
    Step-Inv {s} (claim pre post c rest t at more same) inv =
        let later : drop (suc s.next) chunks ≡ rest =
          cc (
            more,
            drop-drop 1 s.next chunks,
            (let e : s.next + 1 ≡ suc s.next = omega arith in e),
          ) in
        let before : Accounts (s.result ++ inv.lost) (held pre ++ held post)
            (process c ++ flat_map process rest) =
          subst₂ (λ mine l. Accounts (s.result ++ inv.lost) mine l)
            (ap held at ∙ held_ready pre post) (ap (flat_map process) more ∙ flat_map-cons c rest)
            inv.accounted in
        rw same (record {
          lost = inv.lost;
          none_lost = inv.none_lost;
          accounted =
              rw (held_holding pre post c, later)
                (Perm.trans (Perm.symm (claimed_perm _ (held pre) (held post) _ _)) before);
        })
    Step-Inv {s} (leave pre post t at over same) inv = rw same (record {
      lost = inv.lost;
      none_lost = inv.none_lost;
      accounted = rw (held_returned pre post) (
          subst
            (λ mine. Accounts (s.result ++ inv.lost) mine (flat_map process (drop s.next chunks)))
            (ap held at ∙ held_ready pre post) inv.accounted);
    })
    Step-Inv {s} (stop pre post c t may at same) inv = rw same (record {
      lost = process c ++ inv.lost;
      none_lost = λ e. cc (may, e);
      accounted = rw (held_returned pre post) (
          Perm.trans (Perm.symm (lost_perm s.result inv.lost (held pre) (held post) _ (process c)))
            (subst
              (λ mine. Accounts (s.result ++ inv.lost) mine (flat_map process (drop s.next chunks)))
              (ap held at ∙ held_holding pre post c) inv.accounted));
    })
    Step-Inv {s} (deliver pre post c t at same) inv = rw same (record {
      lost = inv.lost;
      none_lost = inv.none_lost;
      accounted = rw (held_ready pre post) (
          Perm.trans
            (Perm.symm (delivered_perm s.result inv.lost (held pre) (held post) _ (process c)))
            (subst
              (λ mine. Accounts (s.result ++ inv.lost) mine (flat_map process (drop s.next chunks)))
              (ap held at ∙ held_holding pre post c) inv.accounted));
    })

    Reach-Inv : {s t : Shared C O} → Inv s → Reach process chunks stoppable s t → Inv t
    Reach-Inv inv here = inv
    Reach-Inv inv (then_step r st) = Step-Inv st (Reach-Inv inv r)

    launched-Inv : (workers : ℕ) → Inv (launched workers)
    launched-Inv workers = record {
      lost = [];
      none_lost = λ e. refl;
      accounted = rw (held-all_ready workers) (Perm.refl _);
    }

    launched-Ends : (workers : ℕ) → Ends workers (launched workers)
    launched-Ends workers = record {
      as_many = length-all_ready workers;
      all_claimed = λ n p. absurd (omega (arith, returned_count_ready workers));
    }

    -- However the threads are interleaved, when all of at least one thread have returned, the result
    -- holds the rows of the chunks with only some missing, each as often as its chunk gives it; and if
    -- nobody may stop the threads, none is missing.
    pub Reach-delivers :
        (workers : ℕ) (t : Shared C O)
        → 0 < workers
        → Reach process chunks stoppable (launched workers) t
        → AllReturned t.workers
        → (missing : List O) × Perm (t.result ++ missing) (flat_map process chunks)
          × (stoppable ≡ false → missing ≡ [])
    Reach-delivers workers t p r all =
        let inv = Reach-Inv (launched-Inv workers) r in
        let ends = Reach-Ends (launched-Ends workers) r in
        let later = flat_map process (drop t.next chunks) in
        (
          inv.lost ++ later,
          rw (← append_assoc t.result inv.lost later) (
              subst (λ mine. Accounts (t.result ++ inv.lost) mine later)
                (held_of_AllReturned t.workers all) inv.accounted),
          λ n.
              let over =
                ends.all_claimed n
                  (returned_count_all t.workers all (omega (arith, ends.as_many))) in
              rw (inv.none_lost n, over) (unfold flat_map in refl),
        )
