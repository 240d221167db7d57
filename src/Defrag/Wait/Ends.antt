-- ===== src/Defrag/Wait/Ends.antt =====
-- The waiting loops end: what the producer does meanwhile, and a sleep that times out.
use vs_slns.Base.{
  ℕ, ◌*◌, ◌<◌, ◌≡◌, ◌≢◌, inl, inr, Bool, true, false, ◌||◌, List, [], ◌∷◌, arith, if◌then◌else◌,
  Bool-cases, Outcome, returns, blocks, Returns, Returns->>=, Holds→Returns,
}
use vs_slns.Defrag.Types.{Env, Bridge, CapturedFrame, Timeval, complete}
use vs_slns.Defrag.Frame.{Fields, Datagram, fields_of}
use vs_slns.Defrag.Produce.{
  defragment_pcap_data, store_fragment, whole_packet, first_fragment, other_fragment,
}
use vs_slns.Defrag.Produce.Cases.{counted, defragment_cases}
use vs_slns.Defrag.Produce.Slots.{AllInRange, defragment_pcap_data-AllInRange}
use vs_slns.Defrag.Produce.Overrun.{defragment_pcap_data-safe}
use vs_slns.Defrag.Wait.{
  Sleep, posted, timed_out, interrupted, no_clock, Wake, produce, after_sleep, gives_up,
  is_timed_out, wait_parts,
}

-- Some sleep of the schedule times out.
abbrev pub times_out : List Wake → Bool
times_out [] = false
times_out (w ∷ ws) = is_timed_out w.sleep || times_out ws

module _ (env : Env) (guard : env.buffer_size < 9 * env.ethernet_mtu) where
  store_fragment_answers :
      (b : Bridge env) (f : CapturedFrame) (h : Fields) (d : Datagram)
      → store_fragment env b f h d ≢ blocks
  unfolding store_fragment whole_packet first_fragment other_fragment
  store_fragment_answers b f h d = ground arith

  -- A captured frame is answered whatever it holds, if `BUFFER_SIZE` is below nine MTUs.
  pub defragment_pcap_data-Returns :
      (b : Bridge env) (f : CapturedFrame)
      → AllInRange env b
      → Returns (λ r. AllInRange env r.1) (defragment_pcap_data env b f)
  defragment_pcap_data-Returns b f v =
      Holds→Returns (λ r. AllInRange env r.1) (defragment_pcap_data env b f)
        (defragment_cases env b f (λ r. r ≢ blocks) (λ _ e. cc) (λ _ _ e. cc)
          λ d _ _. store_fragment_answers (counted env b f) f (fields_of env f) d)
        (defragment_pcap_data-safe env b f v guard) (defragment_pcap_data-AllInRange env b f v)

  pub produce-Returns :
      (b : Bridge env) (fs : List CapturedFrame)
      → AllInRange env b
      → Returns (AllInRange env) (produce env b fs)
  unfolding produce
  produce-Returns b [] v = v
  produce-Returns b (f ∷ fs) v =
      Returns->>= (λ r. AllInRange env r.1) (AllInRange env) (λ r. produce env r.1 fs)
        (λ r. produce-Returns r.1 fs) (defragment_pcap_data env b f)
        (defragment_pcap_data-Returns b f v)

  after_sleep-AllInRange :
      (s : Sleep) (b : Bridge env) → AllInRange env b → AllInRange env (after_sleep env s b)
  after_sleep-AllInRange posted b v = v
  after_sleep-AllInRange timed_out b v = v
  after_sleep-AllInRange interrupted b v = v
  after_sleep-AllInRange no_clock b v = v

  wait_round :
      (w : Wake) (since : Timeval) (id : ℕ) (b : Bridge env)
      → AllInRange env b
      → (rest : Outcome (Bridge env))
      → (is_timed_out w.sleep ≡ false → Returns (AllInRange env) rest)
      → Returns
          (AllInRange env)
          (if gives_up env since w (b.ids id) then returns (after_sleep env w.sleep b) else rest)
  wait_round w since id b v rest k = elim (Bool-cases (gives_up env since w (b.ids id))) [
    | inl g ↦ rw g (after_sleep-AllInRange w.sleep b v)
    | inr g ↦ rw g (k (ground arith))
  ]

  -- The wait for a datagram ends, whatever frames come in meanwhile, if one of its sleeps times out.
  pub wait_parts-Returns :
      (ws : List Wake) (b : Bridge env) (id : ℕ) (since : Timeval)
      → times_out ws ≡ true
      → AllInRange env b
      → Returns (AllInRange env) (wait_parts env ws b id since)
  unfolding wait_parts
  wait_parts-Returns [] b id since t v = absurd (ground arith)
  wait_parts-Returns (w ∷ ws) b id since t v = elim (Bool-cases (complete (b.ids id))) [
    | inl e ↦ rw e v
    | inr e ↦ rw e (
        Returns->>= (AllInRange env) (AllInRange env)
          (λ b'.
            let woken = after_sleep env w.sleep b' in
            let rest = wait_parts env ws woken id since in
            if gives_up env since w (b'.ids id) then returns woken else rest)
          (λ b' v'.
            wait_round w since id b' v' (wait_parts env ws (after_sleep env w.sleep b') id since)
              λ g.
                wait_parts-Returns ws (after_sleep env w.sleep b') id since (ground arith)
                  (after_sleep-AllInRange w.sleep b' v'))
          (produce env b w.frames) (produce-Returns b w.frames v))
  ]
