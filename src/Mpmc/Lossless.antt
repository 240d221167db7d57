-- ===== src/Mpmc/Lossless.antt =====
-- No item is lost between a consumer that takes it and its return.
use vs_slns.Base.{
  ℕ, ◌+◌, ◌^◌, ◌<◌, ◌≡◌, refl, ◌⊎◌, inl, inr, List, some, none, length, arith, dec_lt, update, ◌==◌,
  Bool-cases, ==_iff,
}
use vs_slns.Mpmc.{Ring, Pc, Event, Move, System, pick, note, Reach, start, later, take, release}
use vs_slns.Mpmc.Slots.{IsGood}
use vs_slns.Mpmc.Inv.{consuming, In}
use vs_slns.Mpmc.Steps.{Reach-Inv, mpmc_ring_init_lem, add-grows}

-- A position that was taken was returned, or a thread is about to return it.
abbrev Kept : List ℕ → Ring → (ℕ → Pc) → Type 0
Kept got m pc = (p : ℕ) → p < m.head → In p got ⊎ ((i : ℕ) × (consuming (pc i) ≡ some p))

-- A move that takes no position keeps what its thread holds, or returns it.
still :
    (got : List ℕ) (m m' : Ring) (pc : ℕ → Pc) (i : ℕ) (p' : Pc)
    → Kept got m pc
    → m'.head ≡ m.head
    → ((q : ℕ) → consuming (pc i) ≡ some q → consuming p' ≡ some q)
    → Kept got m' (update pc i p')
still got m m' pc i p' kept e h p low = elim (kept p (omega arith)) [
  | inl old ↦ inl old
  | inr (j, f) ↦ inr (j, ground (arith, h p))
]

Move-Kept :
    (got : List ℕ) {m m' : Ring} (pc : ℕ → Pc) {p p' : Pc} {e : Event} (i : ℕ)
    → Move m p m' p' e
    → pc i ≡ p
    → m.head + 1 < 2 ^ 64
    → Kept got m pc
    → Kept (note got e) m' (update pc i p')
Move-Kept got pc i (take {pos} g) f small kept p low = elim (dec_lt p pos) [
  | yes l ↦ elim (kept p (omega arith)) [ inl old ↦ inl old | inr (j, h) ↦ inr (j, ground arith) ]
  | no n ↦ inr (i, ground arith)
]
Move-Kept got pc i (release {d} {pos}) f small kept p low = elim (kept p low) [
  | inl old ↦ inl (inr old)
  | inr (j, h) ↦ elim (Bool-cases (i == j)) [
    | inl same ↦ inl (inl ground (arith, ==_iff i j))
    | inr ne ↦ inr (j, rw ne h)
  ]
]
Move-Kept got {m} {m'} pc {p} {p'} i mv f small kept q low =
    still got m m' pc i p' kept (ground arith) (λ q h. ground arith) q low

Reach-Kept :
    {c : ℕ} {sent got : List ℕ} {s : System}
    → IsGood c
    → Reach c sent got s
    → length sent + c < 2 ^ 61
    → Kept got s.mem s.pc
Reach-Kept {c} g (start {rb} seqs items e) small =
    λ p low. absurd (omega (arith, (mpmc_ring_init_lem c seqs items rb e).1))
Reach-Kept g (later {sent} {got} {s} {e = e} r (pick i mv)) small =
    let before = Reach-Inv g r (omega (arith, add-grows sent e)) in
    Move-Kept got s.pc i mv refl (omega (arith, before.order, before.counted, add-grows sent e))
      (Reach-Kept g r (omega (arith, add-grows sent e)))

-- In every state that a run leads to, while no thread is between taking a position and returning its
-- item, each position taken was returned. The capacity is a power of two from 2 on, and fewer than
-- 2 ^ 61 positions were claimed, with the capacity.
pub taken-returned :
    {c : ℕ} {sent got : List ℕ} {s : System}
    → IsGood c
    → Reach c sent got s
    → length sent + c < 2 ^ 61
    → ((i : ℕ) → consuming (s.pc i) ≡ none)
    → (p : ℕ) → p < s.mem.head
    → In p got
taken-returned g r small quiet p low = elim (Reach-Kept g r small p low) [
  | inl old ↦ old
  | inr (i, e) ↦ absurd (cc (quiet i))
]
