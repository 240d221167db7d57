-- ===== src/Mpmc/Inv.antt =====
-- Which position each slot is in turn for, and what the locals of a thread say about shared memory.
use vs_slns.Base.{ℕ, ◌+◌, ◌≤◌, ◌<◌, ◌≡◌, ◌⊎◌, List, [], ◌∷◌, Option, none, some, length, get_or}
use vs_slns.Mpmc.{
  Ring, slot, Pc, enq_loaded, enq_free, enq_claimed, enq_written, deq_loaded, deq_ready,
  deq_claimed, deq_read,
}
use vs_slns.Mpmc.Slots.{IsGood}

abbrev pub at : Ring → ℕ → ℕ
at m p = slot m.capacity p

-- The position that a producer has claimed and not yet published.
abbrev pub producing : Pc → Option ℕ
producing (enq_claimed d p) = some p
producing (enq_written d p) = some p
producing _ = none

-- The position that a consumer has taken and not yet released.
abbrev pub consuming : Pc → Option ℕ
consuming (deq_claimed p) = some p
consuming (deq_read d p) = some p
consuming _ = none

abbrev pub Local : Ring → (ℕ → ℕ) → List ℕ → Pc → Type 0
Local m turn sent (enq_loaded d p) = p ≤ m.tail
Local m turn sent (enq_free d p) = p ≤ turn (at m p)
Local m turn sent (enq_claimed d p) =
    (turn (at m p) ≡ p) × (m.seq (at m p) ≡ p) × (p < m.tail) × (get_or sent p 0 ≡ d)
Local m turn sent (enq_written d p) =
    (turn (at m p) ≡ p)
    × (m.seq (at m p) ≡ p)
    × (p < m.tail)
    × (get_or sent p 0 ≡ d)
    × (m.item (at m p) ≡ d)
Local m turn sent (deq_loaded p) = p ≤ m.head
Local m turn sent (deq_ready p) = (p ≤ turn (at m p)) × (turn (at m p) ≡ p → m.seq (at m p) ≡ p + 1)
Local m turn sent (deq_claimed p) = (turn (at m p) ≡ p) × (m.seq (at m p) ≡ p + 1) × (p < m.head)
Local m turn sent (deq_read d p) =
    (turn (at m p) ≡ p) × (m.seq (at m p) ≡ p + 1) × (p < m.head) × (get_or sent p 0 ≡ d)
Local m turn sent _ = Unit

abbrev pub In : ℕ → List ℕ → Type 0
In p [] = ⊥
In p (x ∷ xs) = (p ≡ x) ⊎ In p xs

pub record Inv (sent got : List ℕ) (m : Ring) (pc : ℕ → Pc) : Type 0 where
  pub turn : ℕ → ℕ
  pub good : IsGood m.capacity
  pub order : m.head ≤ m.tail
  pub counted : length sent ≡ m.tail
  pub home : (p : ℕ) → at m (turn (at m p)) ≡ at m p
  pub phase : (p : ℕ) → (turn (at m p) ≤ m.seq (at m p)) × (m.seq (at m p) ≤ turn (at m p) + 1)
  pub ahead : (p : ℕ) → turn (at m p) < m.head + m.capacity
  pub behind : (p : ℕ) → m.tail ≤ turn (at m p) + m.capacity
  pub filled : (p : ℕ) → m.seq (at m p) ≡ turn (at m p) + 1 → turn (at m p) < m.tail
  pub stored :
      (p : ℕ) → m.seq (at m p) ≡ turn (at m p) + 1 → m.item (at m p) ≡ get_or sent (turn (at m p)) 0
  pub taken : (p : ℕ) → turn (at m p) < m.head → m.seq (at m p) ≡ turn (at m p) + 1
  pub own : (i : ℕ) → Local m turn sent (pc i)
  pub one_producer : (i j p : ℕ) → producing (pc i) ≡ some p → producing (pc j) ≡ some p → i ≡ j
  pub one_consumer : (i j p : ℕ) → consuming (pc i) ≡ some p → consuming (pc j) ≡ some p → i ≡ j
  pub given : (p : ℕ) → In p got → p < turn (at m p)
