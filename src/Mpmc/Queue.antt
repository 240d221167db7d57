-- ===== src/Mpmc/Queue.antt =====
-- What the ring promises to its callers.
use vs_slns.Base.{
  ℕ, ◌+◌, ◌-◌, ◌^◌, ◌≤◌, ◌<◌, ◌≡◌, ◌≢◌, refl, sym, ap, subst, ◌∙◌, ◌⊎◌, inl, inr, List, Option,
  some, none, length, get_or, arith, dec_lt,
}
use vs_slns.Mpmc.{
  Ring, word, dif, slot, Pc, enq_loaded, enq_claimed, enq_written, deq_loaded, deq_claimed,
  deq_read, Event, returns, full, empty, Move, System, Step, pick, Reach, is_full, is_empty,
  release,
}
use vs_slns.Mpmc.Slots.{IsGood}
use vs_slns.Mpmc.Inv.{at, producing, consuming, Local, In}
use vs_slns.Mpmc.Moves.{turn_below}
use vs_slns.Mpmc.Steps.{Reach-Inv, Reach-capacity, dif-negative, seq-lt}

-- Where a thread stood when it was seen to do something.
abbrev Shown : Ring → Pc → Event → Type 0
Shown m p (returns d q) = p ≡ deq_read d q
Shown m p (full q) = (d : ℕ) × (p ≡ enq_loaded d q) × (2 ^ 63 ≤ dif (m.seq (at m q)) q)
Shown m p (empty q) = (p ≡ deq_loaded q) × (2 ^ 63 ≤ dif (m.seq (at m q)) (word (q + 1)))
Shown m p _ = Unit

Move-Shown : {m m' : Ring} {p p' : Pc} {e : Event} → Move m p m' p' e → Shown m p e
Move-Shown release = refl
Move-Shown (is_full {d} g) = (d, refl, g)
Move-Shown (is_empty g) = (refl, g)
Move-Shown _ = tt

Step-Shown : {s t : System} {e : Event} → Step s e t → (i : ℕ) × Shown s.mem (s.pc i) e
Step-Shown (pick i mv) = (i, Move-Shown mv)

-- The slot positions that a thread works on.
abbrev pub holding : Pc → Option ℕ
holding (enq_claimed d p) = some p
holding (enq_written d p) = some p
holding (deq_claimed p) = some p
holding (deq_read d p) = some p
holding _ = none

held :
    (m : Ring) (turn : ℕ → ℕ) (sent : List ℕ) (p : Pc) (q : ℕ)
    → Local m turn sent p
    → holding p ≡ some q
    → (turn (at m q) ≡ q)
      × (((producing p ≡ some q) × (m.seq (at m q) ≡ q))
          ⊎ ((consuming p ≡ some q) × (m.seq (at m q) ≡ q + 1)))
held m turn sent (enq_claimed d p) q l e = (ground arith, inl (e, ground arith))
held m turn sent (enq_written d p) q l e = (ground arith, inl (e, ground arith))
held m turn sent (deq_claimed p) q l e = (ground arith, inr (e, ground arith))
held m turn sent (deq_read d p) q l e = (ground arith, inr (e, ground arith))
held m turn sent p q l e = cc

module _ {c : ℕ} {sent got : List ℕ} {s : System} (g : IsGood c) (r : Reach c sent got s)
    (small : length sent + c < 2 ^ 61) where
  -- In every state that a run leads to, two threads that work on an item work on different slots. The
  -- capacity is a power of two from 2 on, and fewer than 2 ^ 61 positions were claimed, with the
  -- capacity.
  pub holding-apart :
      (i j p q : ℕ)
      → i ≢ j
      → holding (s.pc i) ≡ some p
      → holding (s.pc j) ≡ some q
      → slot c p ≢ slot c q
  holding-apart i j p q n e f same =
      let inv = Reach-Inv g r small in
      let size = Reach-capacity r in
      let met : at s.mem p ≡ at s.mem q =
        ap (λ k. slot k p) size ∙ same ∙ ap (λ k. slot k q) (sym size) in
      let (a, b) = held s.mem inv.turn sent (s.pc i) p (inv.own i) e in
      let (h, k) = held s.mem inv.turn sent (s.pc j) q (inv.own j) f in
      let one : p ≡ q = sym a ∙ ap inv.turn met ∙ h in
      elim b [
        | inl (x, u) ↦ elim k [
          | inl (y, v) ↦ n (inv.one_producer i j p x (y ∙ ap some (sym one)))
          | inr (y, v) ↦ absurd (omega (arith, ap s.mem.seq met))
        ]
        | inr (x, u) ↦ elim k [
          | inl (y, v) ↦ absurd (omega (arith, ap s.mem.seq met))
          | inr (y, v) ↦ n (inv.one_consumer i j p x (y ∙ ap some (sym one)))
        ]
      ]

  -- What a consumer returns for a position is the item for which a producer claimed that position,
  -- and no item is returned a second time.
  pub returns-once :
      {t : System} (d p : ℕ)
      → Step s (returns d p) t
      → (p < length sent) × (get_or sent p 0 ≡ d) × ¬ In p got
  returns-once d p st =
      let inv = Reach-Inv g r small in
      let (i, e) = Step-Shown st in
      let (here, ready, low, mine) : Local s.mem inv.turn sent (deq_read d p) =
        subst (Local s.mem inv.turn sent) e (inv.own i) in
      (omega (arith, inv.order, inv.counted), mine, λ h. absurd (omega (arith, inv.given p h)))

  -- A producer is told that the ring is full only if it is at the last position, and the item a whole
  -- round before it was not returned.
  pub full-IsFull :
      {t : System} (p : ℕ) → Step s (full p) t → (p ≡ s.mem.tail) × (c ≤ p) × ¬ In (p - c) got
  full-IsFull p st =
      let inv = Reach-Inv g r small in
      let size = Reach-capacity r in
      let (i, (d, e, f)) = Step-Shown st in
      let low : p ≤ s.mem.tail = subst (Local s.mem inv.turn sent) e (inv.own i) in
      let less : s.mem.seq (at s.mem p) < p =
        dif-negative (s.mem.seq (at s.mem p)) p (seq-lt inv i p (omega arith))
          (omega (arith, inv.counted)) f in
      let back : inv.turn (at s.mem p) + s.mem.capacity ≤ p =
        turn_below inv p (omega (arith, inv.phase p)) in
      let old : p - c ≡ inv.turn (at s.mem p) = omega (arith, inv.behind p) in
      let place : at s.mem (p - c) ≡ at s.mem p = ap (at s.mem) old ∙ inv.home p in
      (
        omega (arith, inv.behind p),
        omega arith,
        λ h. absurd (omega (arith, inv.given (p - c) h, ap inv.turn place)),
      )

  -- A consumer is told that the ring is empty only if it is at the first position, and no position is
  -- claimed, or the first one is not published yet.
  pub empty-IsEmpty :
      {t : System} (p : ℕ)
      → Step s (empty p) t
      → (p ≡ s.mem.head) × ((s.mem.head ≡ s.mem.tail) ⊎ (s.mem.seq (slot c p) ≡ p))
  empty-IsEmpty p st =
      let inv = Reach-Inv g r small in
      let size = Reach-capacity r in
      let (i, (e, f)) = Step-Shown st in
      let low : p ≤ s.mem.head = subst (Local s.mem inv.turn sent) e (inv.own i) in
      let next : word (p + 1) ≡ p + 1 = omega (arith, inv.order, inv.counted) in
      let less : s.mem.seq (at s.mem p) < p + 1 =
        dif-negative (s.mem.seq (at s.mem p)) (p + 1) (seq-lt inv i p (omega arith))
          (omega (arith, inv.order, inv.counted))
          (subst (λ n. 2 ^ 63 ≤ dif (s.mem.seq (at s.mem p)) n) next f) in
      elim (dec_lt (inv.turn (at s.mem p)) p) [
        | yes l ↦ (
          omega (arith, turn_below inv p l, inv.behind p, inv.order),
          inl (omega (arith, turn_below inv p l, inv.behind p, inv.order)),
        )
        | no n ↦ elim (dec_lt p s.mem.head) [
          | yes k ↦ absurd (omega (arith, inv.phase p, inv.taken p (omega (arith, inv.phase p))))
          | no k ↦ (
            omega arith,
            inr (ap (λ x. s.mem.seq (slot x p)) (sym size) ∙ omega (arith, inv.phase p)),
          )
        ]
      ]
