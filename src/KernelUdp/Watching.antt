-- ===== src/KernelUdp/Watching.antt =====
-- Which sockets the loop goes on reading.
use vs_slns.Base.{
  ℕ, ◌≡◌, refl, ◌∙◌, ap, inl, inr, Bool, false, ◌&&◌, List, [], ◌∷◌, ◌==◌, ==_iff, if◌then◌else◌,
  arith, Bool-cases, ◌+◌,
}
use vs_slns.KernelUdp.{
  Udp, Received, Stat, Activity, stop_receiving, select_fails, timed_out, active, Thread, drain_one,
  drain_ready, select_round, is_stop, note_activity, select_loop,
}

-- How often the socket was read.
abbrev pub reads : ℕ → List ℕ → ℕ
reads fd [] = 0
reads fd (x ∷ xs) = if x == fd then reads fd xs + 1 else reads fd xs

module _ {A : Type 0} (drain : List Received → Stat → A → Stat × A) where
  -- A socket that is not in the set is not read.
  NotRead : ℕ → Thread A → Thread A → Type 0
  NotRead fd k l = (l.readfds fd ≡ false) × (reads fd l.read_from ≡ reads fd k.read_from)

  drain_one-NotRead :
      (fd : ℕ) (u : Udp) (results : ℕ → List Received) (k : Thread A)
      → k.readfds fd ≡ false
      → NotRead fd k (drain_one drain u results k)
  unfolding NotRead
  drain_one-NotRead fd u results k h =
      elim (Bool-cases (u.udp_connection_established && k.readfds u.udp_sockfd)) [
        | inl e ↦
            let other : (u.udp_sockfd == fd) ≡ false = elim (Bool-cases (u.udp_sockfd == fd)) [
              | inl f ↦ absurd (
                  let g : k.readfds u.udp_sockfd ≡ k.readfds fd =
                    ap k.readfds ((==_iff u.udp_sockfd fd).0 f) in
                  ground (arith, g))
              | inr f ↦ f
            ] in
            rw (e, other) (h, refl)
        | inr e ↦ rw e (h, refl)
      ]

  drain_ready-NotRead :
      (fd : ℕ) (us : List Udp) (results : ℕ → List Received) (k : Thread A)
      → k.readfds fd ≡ false
      → NotRead fd k (drain_ready drain us results k)
  unfolding drain_ready NotRead
  drain_ready-NotRead fd [] results k h = (h, refl)
  drain_ready-NotRead fd (u ∷ us) results k h =
      let (e, f) = drain_one-NotRead fd u results k h in
      let (g, i) = drain_ready-NotRead fd us results (drain_one drain u results k) e in (g, i ∙ f)

  select_round-NotRead :
      (fd : ℕ) (us : List Udp) (a : Activity) (k : Thread A)
      → k.readfds fd ≡ false
      → NotRead fd k (select_round drain us a k)
  unfolding select_round NotRead
  select_round-NotRead fd us stop_receiving k h = (h, refl)
  select_round-NotRead fd us select_fails k h = (h, refl)
  select_round-NotRead fd us (timed_out error) k h = (refl, refl)
  select_round-NotRead fd us (active now tnow ready results) k h =
      drain_ready-NotRead fd us results _ (rw h refl)

  select_loop-NotRead :
      (fd : ℕ) (us : List Udp) (acts : List Activity) (k : Thread A)
      → k.readfds fd ≡ false
      → NotRead fd k (select_loop drain us acts k).0
  unfolding select_loop NotRead
  select_loop-NotRead fd us [] k h = (h, refl)
  select_loop-NotRead fd us (a ∷ acts) k h = elim (Bool-cases (is_stop a)) [
    | inl e ↦ rw e (h, refl)
    | inr e ↦
        let (f, g) = select_round-NotRead fd us a k h in
        let (i, j) = select_loop-NotRead fd us acts (select_round drain us a k) f in rw e (i, j ∙ g)
  ]

  -- A socket that one `select` does not report is read neither in that round nor in any later one,
  -- whatever arrives there.
  pub select_loop_forgets :
      (fd now tnow : ℕ) (us : List Udp) (ready : ℕ → Bool) (results : ℕ → List Received)
      (acts : List Activity) (k : Thread A)
      → ready fd ≡ false
      → reads fd (select_loop drain us (active now tnow ready results ∷ acts) k).0.read_from
        ≡ reads fd k.read_from
  unfolding NotRead select_loop select_round
  select_loop_forgets fd now tnow us ready results acts k h =
      let begun : Thread A = record k {
        readfds = λ x. k.readfds x && ready x;
        stat = note_activity now tnow k.stat;
      } in
      let out : (k.readfds fd && ready fd) ≡ false = ground arith in
      let (e, f) = drain_ready-NotRead fd us results begun out in
      let (g, i) = select_loop-NotRead fd us acts (drain_ready drain us results begun) e in i ∙ f
