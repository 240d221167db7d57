-- ===== src/Defrag/Wait/Keeps.antt =====
-- What the producer keeps is kept by a wait.
use vs_slns.Base.{
  ℕ, inl, inr, List, [], ◌∷◌, if◌then◌else◌, Bool-cases, Outcome, returns, Holds, Holds->>=,
}
use vs_slns.Defrag.Types.{Env, Bridge, CapturedFrame, Timeval, complete}
use vs_slns.Defrag.Produce.{defragment_pcap_data}
use vs_slns.Defrag.Wait.{Sleep, Wake, produce, after_sleep, gives_up, wait_parts}

module _ (env : Env) (P : Bridge env → Type 0)
    (step : (b : Bridge env) (f : CapturedFrame)
      → P b
      → Holds (λ r. P r.1) (defragment_pcap_data env b f))
    (sleep : (s : Sleep) (b : Bridge env) → P b → P (after_sleep env s b)) where
  pub produce-Holds : (b : Bridge env) (fs : List CapturedFrame) → P b → Holds P (produce env b fs)
  unfolding produce
  produce-Holds b [] v = v
  produce-Holds b (f ∷ fs) v =
      Holds->>= (λ r. P r.1) P (λ r. produce env r.1 fs) (λ r. produce-Holds r.1 fs)
        (defragment_pcap_data env b f) (step b f v)

  round_keeps :
      (w : Wake) (since : Timeval) (id : ℕ) (b : Bridge env)
      → P b
      → (rest : Outcome (Bridge env)) → Holds P rest
      → Holds P
          (if gives_up env since w (b.ids id) then returns (after_sleep env w.sleep b) else rest)
  round_keeps w since id b v rest k = elim (Bool-cases (gives_up env since w (b.ids id))) [
    | inl g ↦ rw g (sleep w.sleep b v)
    | inr g ↦ rw g k
  ]

  pub wait_parts-Holds :
      (ws : List Wake) (b : Bridge env) (id : ℕ) (since : Timeval)
      → P b
      → Holds P (wait_parts env ws b id since)
  unfolding wait_parts
  wait_parts-Holds [] b id since v = elim (Bool-cases (complete (b.ids id))) [
    | inl e ↦ rw e v
    | inr e ↦ rw e tt
  ]
  wait_parts-Holds (w ∷ ws) b id since v = elim (Bool-cases (complete (b.ids id))) [
    | inl e ↦ rw e v
    | inr e ↦ rw e (
        Holds->>= P P
          (λ b'.
            let woken = after_sleep env w.sleep b' in
            let rest = wait_parts env ws woken id since in
            if gives_up env since w (b'.ids id) then returns woken else rest)
          (λ b' v'.
            round_keeps w since id b' v' (wait_parts env ws (after_sleep env w.sleep b') id since)
              (wait_parts-Holds ws (after_sleep env w.sleep b') id since (sleep w.sleep b' v')))
          (produce env b w.frames) (produce-Holds b w.frames v))
  ]
