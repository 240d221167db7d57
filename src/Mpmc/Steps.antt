-- ===== src/Mpmc/Steps.antt =====
-- The invariant holds at the start and is kept by every step.
use Prim.Native.Nat.{bit_and}
use vs_slns.Base.{
  ℕ, zero, suc, ◌+◌, ◌-◌, ◌^◌, ◌≤◌, ◌<◌, ◌≡◌, refl, sym, ap, subst, ◌∙◌, inl, inr, true, List, [],
  ◌∷◌, some, length, get_or, arith, update, dec_lt, ◌==◌, Bool-cases, length-append,
}
use vs_slns.Mpmc.{
  Ring, word, dif, init_slots, mpmc_ring_init, Pc, idle, enq_start, enq_loaded, enq_free, deq_start,
  deq_loaded, deq_ready, deq_claimed, deq_read, Event, silent, claims, returns, full, empty, Move,
  System, Step, pick, add, note, Reach, start, later, call_enqueue, load_tail, is_free, is_full,
  is_taken, claim, claim_fails, store_item, publish, call_dequeue, load_head, is_ready, is_empty,
  is_gone, take, take_fails, load_item, release,
}
use vs_slns.Mpmc.Slots.{IsGood, slot-lt, slot_of_lt}
use vs_slns.Mpmc.Inv.{at, Local, Inv}
use vs_slns.Mpmc.Moves.{turn_below, stay}
use vs_slns.Mpmc.Moves.Producer.{claim-Inv, store_item-Inv, publish-Inv}
use vs_slns.Mpmc.Moves.Consumer.{take-Inv, release-Inv}

init_slots_before : (n i : ℕ) (rb : Ring) (j : ℕ) → j < i → (init_slots n i rb).seq j ≡ rb.seq j
unfolding init_slots
init_slots_before zero i rb j h = refl
init_slots_before (suc n) i rb j h =
    init_slots_before n (i + 1) (record rb { seq = update rb.seq i i; item = update rb.item i 0 }) j
      (omega arith)
    ∙ ground arith

init_slots_seq : (n i : ℕ) (rb : Ring) (j : ℕ) → i ≤ j → j < i + n → (init_slots n i rb).seq j ≡ j
unfolding init_slots
init_slots_seq zero i rb j h k = absurd (omega arith)
init_slots_seq (suc n) i rb j h k = elim (dec_lt i j) [
  | yes l ↦
      init_slots_seq n (i + 1) (record rb { seq = update rb.seq i i; item = update rb.item i 0 }) j
        (omega arith) (omega arith)
  | no m ↦
      init_slots_before n (i + 1) (record rb { seq = update rb.seq i i; item = update rb.item i 0 })
        j (omega arith)
      ∙ ground arith
]

init_slots_rest :
    (n i : ℕ) (rb : Ring)
    → ((init_slots n i rb).capacity ≡ rb.capacity)
      × ((init_slots n i rb).head ≡ rb.head)
      × ((init_slots n i rb).tail ≡ rb.tail)
unfolding init_slots
init_slots_rest zero i rb = (refl, refl, refl)
init_slots_rest (suc n) i rb =
    init_slots_rest n (i + 1) (record rb { seq = update rb.seq i i; item = update rb.item i 0 })

-- A new ring is empty, and each slot has its index.
pub mpmc_ring_init_lem :
    (c : ℕ) (seqs items : ℕ → ℕ) (rb : Ring)
    → mpmc_ring_init c seqs items true ≡ some rb
    → (rb.capacity ≡ c) × (rb.head ≡ 0) × (rb.tail ≡ 0) × ((j : ℕ) → j < c → rb.seq j ≡ j)
unfolding mpmc_ring_init
mpmc_ring_init_lem c seqs items rb e = elim (Bool-cases (bit_and c (word (c + 2 ^ 64 - 1)) == 0)) [
  | inr f ↦ (let k = rw f at e in cc)
  | inl f ↦
      let fresh : Ring = record { capacity = c; head = 0; tail = 0; seq = seqs; item = items } in
      let same : init_slots c 0 fresh ≡ rb = (let k = rw f at e in cc) in
      let (a, b, d) = init_slots_rest c 0 fresh in
      (
        ap (λ r. r.capacity) (sym same) ∙ a,
        ap (λ r. r.head) (sym same) ∙ b,
        ap (λ r. r.tail) (sym same) ∙ d,
        λ j h.
            ap (λ r. r.seq j) (sym same) ∙ init_slots_seq c 0 fresh j (omega arith) (omega arith),
      )
]

-- Words below 2^62 are compared as numbers.
dif-zero : (a b : ℕ) → a < 2 ^ 62 → b < 2 ^ 62 → dif a b ≡ 0 → a ≡ b
dif-zero a b h k e = omega arith

pub dif-negative : (a b : ℕ) → a < 2 ^ 62 → b < 2 ^ 62 → 2 ^ 63 ≤ dif a b → a < b
dif-negative a b h k e = omega arith

module _ {sent got : List ℕ} {m : Ring} {pc : ℕ → Pc} (inv : Inv sent got m pc) (i : ℕ) where
  open inv use {turn, good, order, counted, phase, ahead, stored, own}

  pub seq-lt : (p : ℕ) → length sent + m.capacity < 2 ^ 61 → m.seq (at m p) < 2 ^ 62
  seq-lt p small = omega (arith, phase p, ahead p)

  Move-Inv :
      {p p' : Pc} {m' : Ring} {e : Event}
      → Move m p m' p' e
      → pc i ≡ p
      → length sent + m.capacity < 2 ^ 61
      → Inv (add sent e) (note got e) m' (update pc i p')
  Move-Inv (call_enqueue {d}) f small = stay inv i (enq_start d) tt (λ q h. cc) (λ q h. cc)
  Move-Inv (load_tail {d}) f small =
      stay inv i (enq_loaded d m.tail) (omega arith) (λ q h. cc) (λ q h. cc)
  Move-Inv (is_free {d} {pos} g) f small =
      let low : pos ≤ m.tail = ground (arith, own i) in
      let same : m.seq (at m pos) ≡ pos =
        dif-zero (m.seq (at m pos)) pos (seq-lt pos small) (omega arith) g in
      stay inv i (enq_free d pos)
        (elim (dec_lt (turn (at m pos)) pos) [
          | yes l ↦ absurd (omega (arith, turn_below inv pos l, phase pos, good.many))
          | no n ↦ omega arith
        ])
        (λ q h. cc) (λ q h. cc)
  Move-Inv (is_full g) f small = stay inv i idle tt (λ q h. cc) (λ q h. cc)
  Move-Inv (is_taken {d} g h) f small = stay inv i (enq_start d) tt (λ q h. cc) (λ q h. cc)
  Move-Inv (claim {d} {pos} g) f small = claim-Inv inv i d pos f g (omega arith)
  Move-Inv (claim_fails {d}) f small = stay inv i (enq_start d) tt (λ q h. cc) (λ q h. cc)
  Move-Inv (store_item {d} {pos}) f small = store_item-Inv inv i d pos f
  Move-Inv (publish {d} {pos}) f small = publish-Inv inv i d pos f (omega arith)
  Move-Inv call_dequeue f small = stay inv i deq_start tt (λ q h. cc) (λ q h. cc)
  Move-Inv load_head f small = stay inv i (deq_loaded m.head) (omega arith) (λ q h. cc) (λ q h. cc)
  Move-Inv (is_ready {pos} g) f small =
      let low : pos ≤ m.head = ground (arith, own i) in
      let next : word (pos + 1) ≡ pos + 1 = omega arith in
      let same : m.seq (at m pos) ≡ pos + 1 =
        dif-zero (m.seq (at m pos)) (pos + 1) (seq-lt pos small) (omega arith)
          (ap (dif (m.seq (at m pos))) (sym next) ∙ g) in
      stay inv i (deq_ready pos) (omega (arith, phase pos), λ h. same) (λ q h. cc) (λ q h. cc)
  Move-Inv (is_empty g) f small = stay inv i idle tt (λ q h. cc) (λ q h. cc)
  Move-Inv (is_gone g h) f small = stay inv i deq_start tt (λ q h. cc) (λ q h. cc)
  Move-Inv (take {pos} g) f small = take-Inv inv i pos f g (omega arith)
  Move-Inv take_fails f small = stay inv i deq_start tt (λ q h. cc) (λ q h. cc)
  Move-Inv (load_item {pos}) f small =
      let (here, ready, low) : Local m turn sent (deq_claimed pos) = ground (arith, own i) in
      let mine : get_or sent pos 0 ≡ m.item (at m pos) =
        ap (λ n. get_or sent n 0) (sym here) ∙ sym (stored pos (omega arith)) in
      stay inv i (deq_read (m.item (at m pos)) pos) (here, ready, low, mine) (λ q h. cc)
        (λ q h. ground arith)
  Move-Inv (release {d} {pos}) f small = release-Inv inv i pos d f (omega arith)

-- A new ring of a good capacity, with every thread outside.
start-Inv :
    (c : ℕ) (seqs items : ℕ → ℕ) (rb : Ring)
    → IsGood c
    → mpmc_ring_init c seqs items true ≡ some rb
    → Inv [] [] rb (λ _. idle)
start-Inv c seqs items rb g e =
    let (a, b, d, f) = mpmc_ring_init_lem c seqs items rb e in
    let good : IsGood rb.capacity = subst IsGood (sym a) g in
    let fresh : (p : ℕ) → rb.seq (at rb p) ≡ at rb p =
      λ p. f (at rb p) (omega (arith, slot-lt good p)) in
    record {
      turn = λ n. n;
      good = good;
      order = omega arith;
      counted = omega arith;
      home = λ p. slot_of_lt good (at rb p) (slot-lt good p);
      phase = λ p. omega (arith, fresh p);
      ahead = λ p. omega (arith, slot-lt good p);
      behind = λ p. omega arith;
      filled = λ p h. absurd (omega (arith, fresh p));
      stored = λ p h. absurd (omega (arith, fresh p));
      taken = λ p h. absurd (omega arith);
      own = λ i. tt;
      one_producer = λ i j p h k. cc;
      one_consumer = λ i j p h k. cc;
      given = λ p h. absurd h;
    }

pub add-grows : (sent : List ℕ) (e : Event) → length sent ≤ length (add sent e)
add-grows sent (claims d) = omega (arith, length-append sent (d ∷ []))
add-grows sent silent = omega arith
add-grows sent (returns d p) = omega arith
add-grows sent (full p) = omega arith
add-grows sent (empty p) = omega arith

Move-capacity : {m m' : Ring} {p p' : Pc} {e : Event} → Move m p m' p' e → m'.capacity ≡ m.capacity
Move-capacity call_enqueue = refl
Move-capacity load_tail = refl
Move-capacity (is_free g) = refl
Move-capacity (is_full g) = refl
Move-capacity (is_taken g h) = refl
Move-capacity (claim g) = refl
Move-capacity claim_fails = refl
Move-capacity store_item = refl
Move-capacity publish = refl
Move-capacity call_dequeue = refl
Move-capacity load_head = refl
Move-capacity (is_ready g) = refl
Move-capacity (is_empty g) = refl
Move-capacity (is_gone g h) = refl
Move-capacity (take g) = refl
Move-capacity take_fails = refl
Move-capacity load_item = refl
Move-capacity release = refl

Step-capacity : {s t : System} {e : Event} → Step s e t → t.mem.capacity ≡ s.mem.capacity
Step-capacity (pick i mv) = Move-capacity mv

pub Reach-capacity :
    {c : ℕ} {sent got : List ℕ} {s : System} → Reach c sent got s → s.mem.capacity ≡ c
Reach-capacity {c} (start {rb} seqs items e) = (mpmc_ring_init_lem c seqs items rb e).0
Reach-capacity (later r st) = Step-capacity st ∙ Reach-capacity r

Step-Inv :
    {sent got : List ℕ} {s t : System} {e : Event}
    → Step s e t
    → Inv sent got s.mem s.pc
    → length sent + s.mem.capacity < 2 ^ 61
    → Inv (add sent e) (note got e) t.mem t.pc
Step-Inv (pick i mv) inv small = Move-Inv inv i mv refl small

-- In every state that a run leads to, if fewer than 2 ^ 61 positions were claimed.
pub Reach-Inv :
    {c : ℕ} {sent got : List ℕ} {s : System}
    → IsGood c
    → Reach c sent got s
    → length sent + c < 2 ^ 61
    → Inv sent got s.mem s.pc
Reach-Inv {c} g (start {rb} seqs items e) small = start-Inv c seqs items rb g e
Reach-Inv g (later {sent} {e = e} r st) small =
    Step-Inv st (Reach-Inv g r (omega (arith, add-grows sent e)))
      (omega (arith, add-grows sent e, Reach-capacity r))
