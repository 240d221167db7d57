-- ===== src/Mpmc/Moves/Consumer.antt =====
-- The moves of a consumer that change memory.
use vs_slns.Base.{
  ℕ, ◌+◌, ◌^◌, ◌≤◌, ◌<◌, ◌≡◌, ◌≢◌, sym, ap, ◌∙◌, inl, inr, List, ◌∷◌, some, arith, update, dec_lt,
  ◌==◌, Bool-cases,
}
use vs_slns.Mpmc.{
  Ring, word, Pc, idle, enq_free, enq_claimed, enq_written, deq_loaded, deq_ready, deq_claimed,
  deq_read,
}
use vs_slns.Mpmc.Slots.{slot-add}
use vs_slns.Mpmc.Inv.{at, consuming, Local, Inv}
use vs_slns.Mpmc.Moves.{turn_here, consumed}

-- A greater head.
further :
    (m : Ring) (turn : ℕ → ℕ) (sent : List ℕ) (h : ℕ) (p : Pc)
    → Local m turn sent p
    → m.head ≤ h
    → Local (record m { head = h }) turn sent p
further m turn sent h (deq_loaded p) l k = omega arith
further m turn sent h (deq_claimed p) l k = omega arith
further m turn sent h (deq_read d p) (a, b, c, e) k = (a, b, omega arith, e)
further m turn sent h p l k = l

-- A slot that another thread released.
release_other :
    (m : Ring) (turn : ℕ → ℕ) (sent : List ℕ) (p : Pc) (pos n : ℕ)
    → Local m turn sent p
    → turn (at m pos) ≡ pos
    → m.seq (at m pos) ≡ pos + 1
    → consuming p ≢ some pos
    → 0 < n
    → Local
        (record m { seq = update m.seq (at m pos) (pos + n) })
        (update turn (at m pos) (pos + n))
        sent
        p
release_other m turn sent (enq_free e q) pos n l h f k z = ground arith
release_other m turn sent (enq_claimed e q) pos n l h f k z = ground arith
release_other m turn sent (enq_written e q) pos n l h f k z = ground arith
release_other m turn sent (deq_ready q) pos n (a, b) h f k z = ground (arith)
release_other m turn sent (deq_claimed q) pos n l h f k z = ground arith
release_other m turn sent (deq_read e q) pos n l h f k z = ground arith
release_other m turn sent p pos n l h f k z = l

module _ {sent got : List ℕ} {m : Ring} {pc : ℕ → Pc} (inv : Inv sent got m pc) (i pos : ℕ) where
  open inv use {
    turn, good, order, counted, home, phase, ahead, behind, filled, stored, taken, own,
    one_producer, one_consumer, given,
  }

  pub take-Inv :
      pc i ≡ deq_ready pos
      → m.head ≡ pos
      → m.tail < 2 ^ 62
      → Inv sent got (record m { head = word (pos + 1) }) (update pc i (deq_claimed pos))
  take-Inv e f small =
      let low : pos ≤ turn (at m pos) = ground (arith, own i) in
      let here : turn (at m pos) ≡ pos = turn_here inv pos low (omega (arith, ahead pos)) in
      let full : m.seq (at m pos) ≡ pos + 1 = ground (arith, own i) in
      let below : pos < m.tail = omega (arith, filled pos (omega arith)) in
      let next : word (pos + 1) ≡ m.head + 1 = omega arith in
      record {
        turn = turn;
        good = good;
        order = omega arith;
        counted = counted;
        home = home;
        phase = phase;
        ahead = λ q. omega (arith, ahead q);
        behind = behind;
        filled = filled;
        stored = stored;
        taken = λ q g. elim (dec_lt (turn (at m q)) m.head) [
          | yes l ↦ taken q l
          | no n ↦
              let last : turn (at m q) ≡ pos = omega arith in
              let same : at m pos ≡ at m q = ap (at m) (sym last) ∙ home q in
              ap m.seq (sym same) ∙ omega arith
        ];
        own = λ j. elim (Bool-cases (i == j)) [
          | inl same ↦ rw same (here, full, omega arith)
          | inr ne ↦ rw ne (further m turn sent (word (pos + 1)) (pc j) (own j) (omega arith))
        ];
        one_producer = λ a b q g h. ground (arith, one_producer a b q);
        one_consumer = λ a b q g h. ground (
          arith,
          one_consumer a b q,
          consumed m turn sent (pc a) q (own a),
          consumed m turn sent (pc b) q (own b),
        );
        given = given;
      }

  pub release-Inv :
      (d : ℕ)
      → pc i ≡ deq_read d pos
      → m.tail + m.capacity < 2 ^ 62
      → Inv sent
          (pos ∷ got)
          (record m { seq = update m.seq (at m pos) (word (pos + m.capacity)) })
          (update pc i idle)
  release-Inv d e small =
      let (here, full, low, mine) : Local m turn sent (deq_read d pos) = ground (arith, own i) in
      let next : word (pos + m.capacity) ≡ pos + m.capacity = omega arith in
      let size : 2 ≤ m.capacity = good.many in
      record {
        turn = update turn (at m pos) (pos + m.capacity);
        good = good;
        order = order;
        counted = counted;
        home = λ q. ground (arith, home q, slot-add good pos);
        phase = λ q. ground (arith, phase q);
        ahead = λ q. ground (arith, ahead q);
        behind = λ q. ground (arith, behind q, behind pos);
        filled = λ q g. ground (arith, filled q);
        stored = λ q g. ground (arith, stored q);
        taken = λ q g. ground (arith, taken q, behind pos);
        own = λ j. elim (Bool-cases (i == j)) [
          | inl same ↦ rw same tt
          | inr ne ↦
              rw (ne, next)
                (release_other m turn sent (pc j) pos m.capacity (own j) here full
                  (λ f. ground (arith, one_consumer i j pos)) (omega arith))
        ];
        one_producer = λ a b q g h. ground (arith, one_producer a b q);
        one_consumer = λ a b q g h. ground (arith, one_consumer a b q);
        given = λ q g. ground (arith, given q);
      }
