-- ===== src/Shutdown/Waits.antt =====
-- The waiting loops of Bridge.c.
use vs_slns.Base.{
  ℕ, zero, suc, ◌+◌, ◌<◌, ◌≤◌, ◌≡◌, refl, ap, ◌∙◌, dec_lt, ◌⊎◌, inl, inr, Bool, true, false, arith,
  Bool-cases,
}
use vs_slns.Shutdown.{Ab, wait, bridge_insure_input_bus_stoping}

wait_from :
    (guard : ℕ) (flag : ℕ → Bool) (i : ℕ)
    → (i ≤ wait guard flag i)
      × (wait guard flag i ≤ i + guard)
      × ((j : ℕ) → i ≤ j → j < wait guard flag i → flag j ≡ false)
      × ((wait guard flag i ≡ i + guard) ⊎ (flag (wait guard flag i) ≡ true))
unfolding wait
wait_from zero flag i = (omega arith, omega arith, λ j h k. absurd (omega arith), inl (omega arith))
wait_from (suc guard) flag i =
    let (a, b, c, d) = wait_from guard flag (i + 1) in
    elim (Bool-cases (flag i)) [
      | inl e ↦ rw (e, wait) (omega arith, omega arith, λ j h k. absurd (omega arith), inr e)
      | inr e ↦
          rw (e, wait)
            (
              omega arith,
              omega arith,
              λ j h k. elim (dec_lt i j) [
                | yes l ↦ c j (omega arith) k
                | no n ↦ ap flag (omega arith) ∙ e
              ],
              elim d [ inl f ↦ inl (omega arith) | inr f ↦ inr f ],
            )
    ]

-- The receiving is told to stop, and the call returns: after as many sleeps as it takes until the
-- flag is set for the first time, or after as many as the guard allows.
pub bridge_insure_input_bus_stoping-Returns :
    (guard : ℕ) (receive_stoped : ℕ → Bool) (pb : Ab)
    → (sleeps : ℕ) × (next : Ab) × (bridge_insure_input_bus_stoping guard receive_stoped pb
        ≡ (sleeps, next))
      × (next.stop_receiving ≡ true)
      × (sleeps ≤ guard)
      × ((j : ℕ) → j < sleeps → receive_stoped j ≡ false)
      × ((sleeps ≡ guard) ⊎ (receive_stoped sleeps ≡ true))
unfolding bridge_insure_input_bus_stoping
bridge_insure_input_bus_stoping-Returns guard receive_stoped pb =
    let (_, b, c, d) = wait_from guard receive_stoped 0 in
    (
      wait guard receive_stoped 0,
      record pb { stop_receiving = true },
      refl,
      refl,
      omega arith,
      λ j h. c j (omega arith) h,
      elim d [ inl f ↦ inl (omega arith) | inr f ↦ inr f ],
    )
