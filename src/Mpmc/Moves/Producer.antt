-- ===== src/Mpmc/Moves/Producer.antt =====
-- The moves of a producer that change memory.
use vs_slns.Base.{
  ℕ, ◌+◌, ◌^◌, ◌≤◌, ◌<◌, ◌≡◌, sym, ap, ◌∙◌, List, [], ◌∷◌, ◌++◌, some, length, get_or, arith,
  update, length-append, dec_lt, ◌≢◌, ◌==◌, Bool-cases, inl, inr,
}
use vs_slns.Mpmc.{Ring, word, Pc, idle, enq_loaded, enq_free, enq_claimed, enq_written, deq_read}
use vs_slns.Mpmc.Slots.{slot-add}
use vs_slns.Mpmc.Inv.{at, producing, Local, Inv}
use vs_slns.Mpmc.Moves.{get_or-append, get_or-append_last, turn_here, produced}

-- More items and a greater tail.
longer :
    (m : Ring) (turn : ℕ → ℕ) (sent ys : List ℕ) (t : ℕ) (p : Pc)
    → Local m turn sent p
    → m.tail ≤ t
    → length sent ≡ m.tail
    → m.head ≤ m.tail
    → Local (record m { tail = t }) turn (sent ++ ys) p
longer m turn sent ys t (enq_loaded d p) l h e k = omega arith
longer m turn sent ys t (enq_claimed d p) (a, b, c, f) h e k =
    (a, b, omega arith, get_or-append sent ys p (omega arith) ∙ f)
longer m turn sent ys t (enq_written d p) (a, b, c, f, g) h e k =
    (a, b, omega arith, get_or-append sent ys p (omega arith) ∙ f, g)
longer m turn sent ys t (deq_read d p) (a, b, c, f) h e k =
    (a, b, c, get_or-append sent ys p (omega arith) ∙ f)
longer m turn sent ys t Pc.idle l h e k = tt
longer m turn sent ys t (Pc.enq_start d) l h e k = tt
longer m turn sent ys t (enq_free d p) l h e k = l
longer m turn sent ys t Pc.deq_start l h e k = tt
longer m turn sent ys t (Pc.deq_loaded p) l h e k = l
longer m turn sent ys t (Pc.deq_ready p) l h e k = l
longer m turn sent ys t (Pc.deq_claimed p) l h e k = l

-- An item of a position that the thread does not hold, and a slot published.
store_other :
    (m : Ring) (turn : ℕ → ℕ) (sent : List ℕ) (p : Pc) (pos d : ℕ)
    → Local m turn sent p
    → turn (at m pos) ≡ pos
    → producing p ≢ some pos
    → Local (record m { item = update m.item (at m pos) d }) turn sent p
store_other m turn sent (enq_written e q) pos d l h n = ground arith
store_other m turn sent p pos d l h n = l

publish_other :
    (m : Ring) (turn : ℕ → ℕ) (sent : List ℕ) (p : Pc) (pos : ℕ)
    → Local m turn sent p
    → turn (at m pos) ≡ pos
    → m.seq (at m pos) ≡ pos
    → producing p ≢ some pos
    → Local (record m { seq = update m.seq (at m pos) (pos + 1) }) turn sent p
publish_other m turn sent (enq_claimed e q) pos l h f n = ground arith
publish_other m turn sent (enq_written e q) pos l h f n = ground arith
publish_other m turn sent (Pc.deq_ready q) pos l h f n = ground arith
publish_other m turn sent (Pc.deq_claimed q) pos l h f n = ground arith
publish_other m turn sent (deq_read e q) pos l h f n = ground arith
publish_other m turn sent p pos l h f n = l

module _ {sent got : List ℕ} {m : Ring} {pc : ℕ → Pc} (inv : Inv sent got m pc) (i d pos : ℕ) where
  open inv use {
    turn, good, order, counted, home, phase, ahead, behind, filled, stored, taken, own,
    one_producer, one_consumer, given,
  }

  pub claim-Inv :
      pc i ≡ enq_free d pos
      → m.tail ≡ pos
      → m.tail < 2 ^ 62
      → Inv
          (sent ++ (d ∷ []))
          got
          (record m { tail = word (pos + 1) })
          (update pc i (enq_claimed d pos))
  claim-Inv e f small =
      let low : pos ≤ turn (at m pos) = ground (arith, own i) in
      let here : turn (at m pos) ≡ pos = turn_here inv pos low (omega (arith, ahead pos)) in
      let free : m.seq (at m pos) ≡ pos = ground (arith, phase pos, filled pos) in
      let next : word (pos + 1) ≡ m.tail + 1 = omega arith in
      let added : length (sent ++ (d ∷ [])) ≡ m.tail + 1 =
        length-append sent (d ∷ []) ∙ omega arith in
      let last : get_or (sent ++ (d ∷ [])) pos 0 ≡ d =
        ap (λ n. get_or (sent ++ (d ∷ [])) n 0) (omega arith) ∙ get_or-append_last sent d in
      record {
        turn = turn;
        good = good;
        order = omega arith;
        counted = omega arith;
        home = home;
        phase = phase;
        ahead = ahead;
        behind = λ q. elim (dec_lt m.tail (turn (at m q) + m.capacity)) [
          | yes l ↦ omega arith
          | no n ↦
              let full : pos ≡ turn (at m q) + m.capacity = omega (arith, behind q) in
              let same : at m pos ≡ at m q =
                ap (at m) full ∙ slot-add good (turn (at m q)) ∙ home q in
              absurd (omega (arith, ap turn same, good.many))
        ];
        filled = λ q g. omega (arith, filled q g);
        stored = λ q g.
            stored q g
            ∙ sym (get_or-append sent (d ∷ []) (turn (at m q)) (omega (arith, filled q g)));
        taken = taken;
        own = λ j. ground (
          arith,
          longer m turn sent (d ∷ []) (word (pos + 1)) (pc j) (own j) (omega arith) counted order,
        );
        one_producer = λ a b q g h. ground (
          arith,
          one_producer a b q,
          produced m turn sent (pc a) q (own a),
          produced m turn sent (pc b) q (own b),
        );
        one_consumer = λ a b q g h. ground (arith, one_consumer a b q);
        given = given;
      }

  pub store_item-Inv :
      pc i ≡ enq_claimed d pos
      → Inv sent got
          (record m { item = update m.item (at m pos) d })
          (update pc i (enq_written d pos))
  store_item-Inv e =
      let (here, free, low, mine) : Local m turn sent (enq_claimed d pos) = ground (arith, own i) in
      record {
        turn = turn;
        good = good;
        order = order;
        counted = counted;
        home = home;
        phase = phase;
        ahead = ahead;
        behind = behind;
        filled = filled;
        stored = λ q g. ground (arith, stored q);
        taken = taken;
        own = λ j. elim (Bool-cases (i == j)) [
          | inl same ↦ rw same (here, free, low, mine, ground arith)
          | inr ne ↦ rw ne (
              store_other m turn sent (pc j) pos d (own j) here
                (λ f. ground (arith, one_producer i j pos)))
        ];
        one_producer =
            λ a b q g h. ground (arith, one_producer a b q, one_producer i b q, one_producer a i q);
        one_consumer = λ a b q g h. ground (arith, one_consumer a b q);
        given = given;
      }

  pub publish-Inv :
      pc i ≡ enq_written d pos
      → m.tail < 2 ^ 62
      → Inv sent got
          (record m { seq = update m.seq (at m pos) (word (pos + 1)) })
          (update pc i idle)
  publish-Inv e small =
      let (here, free, low, mine, there) : Local m turn sent (enq_written d pos) =
        ground (arith, own i) in
      let next : word (pos + 1) ≡ pos + 1 = omega arith in
      record {
        turn = turn;
        good = good;
        order = order;
        counted = counted;
        home = home;
        phase = λ q. ground (arith, phase q);
        ahead = ahead;
        behind = behind;
        filled = λ q g. ground (arith, filled q);
        stored = λ q g. ground (arith, stored q);
        taken = λ q g. ground (arith, taken q);
        own = λ j. elim (Bool-cases (i == j)) [
          | inl same ↦ rw same tt
          | inr ne ↦
              rw (ne, next)
                (publish_other m turn sent (pc j) pos (own j) here free
                  (λ f. ground (arith, one_producer i j pos)))
        ];
        one_producer = λ a b q g h. ground (arith, one_producer a b q);
        one_consumer = λ a b q g h. ground (arith, one_consumer a b q);
        given = given;
      }
