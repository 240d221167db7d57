-- ===== src/Mpmc/Moves.antt =====
-- Facts about positions under `Inv`, and the moves that leave memory as it is.
pub mod Producer
pub mod Consumer
use vs_slns.Base.{
  ℕ, zero, suc, ◌+◌, ◌%◌, ◌^◌, ◌≤◌, ◌<◌, ◌≡◌, refl, sym, ap, ◌∙◌, ◌⊎◌, inl, inr, List, [], ◌∷◌,
  ◌++◌, Option, none, some, length, get_or, arith, update, ◌==◌, if◌then◌else◌, dec_lt,
}
use vs_slns.Mpmc.{
  Ring, word, slot, Pc, idle, enq_start, enq_loaded, enq_free, enq_claimed, enq_written, deq_start,
  deq_loaded, deq_ready, deq_claimed, deq_read,
}
use vs_slns.Mpmc.Slots.{IsGood, slot-apart, slot-add}
use vs_slns.Mpmc.Inv.{at, producing, consuming, Local, In, Inv}

pub get_or-append : (xs ys : List ℕ) (p : ℕ) → p < length xs → get_or (xs ++ ys) p 0 ≡ get_or xs p 0
get_or-append [] ys p h = absurd (omega arith)
get_or-append (x ∷ xs) ys zero h = refl
get_or-append (x ∷ xs) ys (suc p) h = get_or-append xs ys p (omega arith)

pub get_or-append_last : (xs : List ℕ) (d : ℕ) → get_or (xs ++ (d ∷ [])) (length xs) 0 ≡ d
get_or-append_last [] d = refl
get_or-append_last (x ∷ xs) d = get_or-append_last xs d

-- What a producer knows of the position that it holds, and what a consumer knows.
pub produced :
    (m : Ring) (turn : ℕ → ℕ) (sent : List ℕ) (p : Pc) (q : ℕ)
    → Local m turn sent p
    → producing p ≡ some q
    → (turn (at m q) ≡ q) × (m.seq (at m q) ≡ q) × (q < m.tail)
produced m turn sent (enq_claimed d p) q l e = ground arith
produced m turn sent (enq_written d p) q l e = ground arith
produced m turn sent p q l e = cc

pub consumed :
    (m : Ring) (turn : ℕ → ℕ) (sent : List ℕ) (p : Pc) (q : ℕ)
    → Local m turn sent p
    → consuming p ≡ some q
    → (turn (at m q) ≡ q) × (m.seq (at m q) ≡ q + 1) × (q < m.head)
consumed m turn sent (deq_claimed p) q l e = ground arith
consumed m turn sent (deq_read d p) q l e = ground arith
consumed m turn sent p q l e = cc

module _ {sent got : List ℕ} {m : Ring} {pc : ℕ → Pc} (inv : Inv sent got m pc) where
  open inv use {turn, good, home}

  -- A slot whose turn lies within a round of a position is in turn for it.
  pub turn_here : (p : ℕ) → p ≤ turn (at m p) → turn (at m p) < p + m.capacity → turn (at m p) ≡ p
  turn_here p low high = elim (dec_lt p (turn (at m p))) [
    | yes l ↦ absurd (omega (arith, slot-apart good p (turn (at m p)) (sym (home p)) l))
    | no n ↦ omega arith
  ]

  -- One that is in turn for a smaller position is a round behind.
  pub turn_below : (p : ℕ) → turn (at m p) < p → turn (at m p) + m.capacity ≤ p
  turn_below p low = slot-apart good (turn (at m p)) p (home p) low

module _ {sent got : List ℕ} {m : Ring} {pc : ℕ → Pc} (inv : Inv sent got m pc) (i : ℕ) where
  open inv use {
    turn, good, order, counted, home, phase, ahead, behind, filled, stored, taken, own,
    one_producer, one_consumer, given,
  }

  -- Memory stays, and the thread holds no position that it did not hold.
  pub stay :
      (p' : Pc)
      → Local m turn sent p'
      → ((q : ℕ) → producing p' ≡ some q → producing (pc i) ≡ some q)
      → ((q : ℕ) → consuming p' ≡ some q → consuming (pc i) ≡ some q)
      → Inv sent got m (update pc i p')
  stay p' here produces consumes = record {
    turn = turn;
    good = good;
    order = order;
    counted = counted;
    home = home;
    phase = phase;
    ahead = ahead;
    behind = behind;
    filled = filled;
    stored = stored;
    taken = taken;
    own = λ j. ground (arith, own j);
    one_producer = λ a b q e f.
        ground (arith, produces q, one_producer a b q, one_producer i b q, one_producer a i q);
    one_consumer = λ a b q e f.
        ground (arith, consumes q, one_consumer a b q, one_consumer i b q, one_consumer a i q);
    given = given;
  }
