-- ===== src/KernelUdp/Steady.antt =====
-- A second's counts are handed on and start again: one round after another keeps the balance.
use vs_slns.Base.{
  ℕ, ◌+◌, ◌%◌, ◌^◌, ◌≡◌, ◌<◌, refl, ◌∙◌, inl, inr, Bool, true, false, ◌&&◌, List, [], ◌∷◌, arith,
  Bool-cases,
}
use vs_slns.KernelUdp.{
  Udp, Received, Stat, note_activity, Activity, stop_receiving, select_fails, timed_out, active,
  Thread, drain_one, drain_ready, select_round, is_stop, select_loop, any_established,
  proc_krnl_udp,
}

abbrev pub sum_counts : List (ℕ × ℕ) → ℕ
sum_counts [] = 0
sum_counts (p ∷ ps) = p.0 + sum_counts ps

abbrev pub sum_bytes : List (ℕ × ℕ) → ℕ
sum_bytes [] = 0
sum_bytes (p ∷ ps) = p.1 + sum_bytes ps

-- What was handed on and what has not been yet come to the totals, which are 64-bit words.
abbrev pub Balanced : Stat → Type 0
Balanced s =
    ((sum_counts s.advanced + s.calc_throughput_udp_get_count) % 2 ^ 64 ≡ s.total_udp_get_count)
    × ((sum_bytes s.advanced + s.calc_throughput_udp_get_bytes) % 2 ^ 64 ≡ s.total_udp_get_byte)

-- Before the first second nothing is counted.
abbrev pub Started : Stat → Type 0
Started s =
    s.t_udp_throughput ≡ 0
    → (s.calc_throughput_udp_get_count ≡ 0) × (s.calc_throughput_udp_get_bytes ≡ 0)

-- Draining a socket leaves the balance and the second as they are.
abbrev pub Steady : Stat → Stat → Type 0
Steady s t = (Balanced s → Balanced t) × (t.t_udp_throughput ≡ s.t_udp_throughput)

-- `time` is after 1970.
abbrev pub Positive : List Activity → Type 0
Positive [] = Unit
Positive (active now tnow ready results ∷ acts) = (0 < tnow) × Positive acts
Positive (_ ∷ acts) = Positive acts

-- The balance, with the first second.
abbrev Even : Stat → Type 0
Even s = Balanced s × Started s

note_activity-Balanced :
    (now tnow : ℕ) (s : Stat)
    → 0 < tnow
    → Started s
    → Balanced s
    → Balanced (note_activity now tnow s) × (0 < (note_activity now tnow s).t_udp_throughput)
note_activity-Balanced now tnow s p st b = ground (arith, st, b, p)

module _ {A : Type 0} (drain : List Received → Stat → A → Stat × A)
    (steady : (rs : List Received) (s : Stat) (a : A) → Steady s (drain rs s a).0) where
  drain_one-Steady :
      (u : Udp) (results : ℕ → List Received) (k : Thread A)
      → Steady k.stat (drain_one drain u results k).stat
  drain_one-Steady u results k =
      elim (Bool-cases (u.udp_connection_established && k.readfds u.udp_sockfd)) [
        | inl c ↦ rw c (steady (results u.udp_sockfd) k.stat k.kept)
        | inr c ↦ rw c (λ b. b, refl)
      ]

  drain_ready-Steady :
      (us : List Udp) (results : ℕ → List Received) (k : Thread A)
      → Steady k.stat (drain_ready drain us results k).stat
  unfolding drain_ready
  drain_ready-Steady [] results k = (λ b. b, refl)
  drain_ready-Steady (u ∷ us) results k =
      let (f, e) = drain_one-Steady u results k in
      let (g, d) = drain_ready-Steady us results (drain_one drain u results k) in
      (λ b. g (f b), d ∙ e)

  select_round-Even :
      (us : List Udp) (a : Activity) (k : Thread A)
      → Positive (a ∷ [])
      → Even k.stat
      → Even (select_round drain us a k).stat
  unfolding select_round
  select_round-Even us stop_receiving k p i = i
  select_round-Even us select_fails k p i = i
  select_round-Even us (timed_out error) k p i = ground (arith, i)
  select_round-Even us (active now tnow ready results) k (p, q) (b, st) =
      let begun : Thread A = record k {
        readfds = λ fd. k.readfds fd && ready fd;
        stat = note_activity now tnow k.stat;
      } in
      let (c, later) = note_activity-Balanced now tnow k.stat p st b in
      let (f, e) = drain_ready-Steady us results begun in
      (f c, λ zero. ground (arith, e, later, zero))

  Positive-head :
      (a : Activity) (acts : List Activity)
      → Positive (a ∷ acts)
      → Positive (a ∷ []) × Positive acts
  Positive-head stop_receiving acts p = (tt, p)
  Positive-head select_fails acts p = (tt, p)
  Positive-head (timed_out error) acts p = (tt, p)
  Positive-head (active now tnow ready results) acts (p, q) = ((p, tt), q)

  select_loop-Even :
      (us : List Udp) (acts : List Activity) (k : Thread A)
      → Positive acts
      → Even k.stat
      → Even (select_loop drain us acts k).0.stat
  unfolding select_loop
  select_loop-Even us [] k p i = i
  select_loop-Even us (a ∷ acts) k p i = elim (Bool-cases (is_stop a)) [
    | inl e ↦ rw e i
    | inr e ↦
        let (q, ps) = Positive-head a acts p in
        rw e
          (select_loop-Even us acts (select_round drain us a k) ps (select_round-Even us a k q i))
  ]

  pub proc_krnl_udp-Even :
      (stopped : Bool) (us : List Udp) (acts : List Activity) (s : Stat) (kept : A)
      → Positive acts
      → Even s
      → Even (proc_krnl_udp drain stopped us acts s kept).0.stat
  unfolding proc_krnl_udp
  proc_krnl_udp-Even true us acts s kept p i = i
  proc_krnl_udp-Even false us acts s kept p i = elim (Bool-cases (any_established us)) [
    | inl e ↦ rw (proc_krnl_udp, e) (select_loop-Even us acts _ p i)
    | inr e ↦ rw (proc_krnl_udp, e) i
  ]
