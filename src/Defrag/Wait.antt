-- ===== src/Defrag/Wait.antt =====
-- poped_defraged_packet, the two waiting loops: the consumer sleeps on `gateway` while the producer
-- goes on. A schedule says what each sleep meets.
pub mod Ends
pub mod Keeps
use vs_slns.Base.{
  ℕ, ◌-◌, Bool, true, false, not, ◌&&◌, ◌||◌, List, [], ◌∷◌, Option, none, some, ◌==◌, leb,
  if◌then◌else◌, Outcome, returns, blocks, undefined, ◌>>=◌,
}
use vs_slns.Defrag.Types.{Env, Bridge, CapturedFrame, UdpPart, Timeval, complete}
use vs_slns.Defrag.Produce

-- How one round of the loop sleeps: woken by a post, timed out, `sem_timedwait` failing with another
-- error, or no sleep because `clock_gettime` failed.
pub data Sleep : Type 0 where
  posted timed_out interrupted no_clock : Sleep

-- One round: the frames that the producer files meanwhile, the way the sleep ends, and what
-- `gettimeofday` says afterwards (`none` if it fails).
pub record Wake : Type 0 where
  pub frames : List CapturedFrame
  pub sleep : Sleep
  pub now : Option Timeval

abbrev pub is_timed_out : Sleep → Bool
is_timed_out timed_out = true
is_timed_out _ = false

module _ (env : Env) where
  -- The producer's calls while the consumer sleeps.
  unfoldable pub produce : Bridge env → List CapturedFrame → Outcome (Bridge env)
  produce b [] = returns b
  produce b (f ∷ fs) = Produce.defragment_pcap_data env b f >>= λ r. produce r.1 fs

  -- A post takes one from the semaphore.
  abbrev pub after_sleep : Sleep → Bridge env → Bridge env
  after_sleep posted b = record b { gateway = b.gateway - 1 }
  after_sleep _ b = b

  -- `CCH.data_length_B && CCH.data_progress_B >= CCH.data_length_B`
  abbrev pub filled : UdpPart → Bool
  filled p = not (p.data_length == 0) && leb p.data_length p.data_progress

  -- `timeval_diff_ms( &tmp_hdr.hdr.tm , &tnow ) > CCH.fragment_delay_msec`, if the time is known.
  abbrev pub overdue : Timeval → Option Timeval → UdpPart → Bool
  overdue since none p = false
  overdue since (some now) p = env.diff_ms_gt since now p.fragment_delay_msec

  -- Whether the round is the last one, for a slot that is as the producer left it.
  abbrev pub gives_up : Timeval → Wake → UdpPart → Bool
  gives_up since w p = is_timed_out w.sleep || (filled p || overdue since w.now p)

  -- The loop. At the end of the schedule an incomplete datagram leaves the consumer asleep.
  unfoldable pub wait_parts : List Wake → Bridge env → ℕ → Timeval → Outcome (Bridge env)
  wait_parts [] b id since = if complete (b.ids id) then returns b else blocks
  wait_parts (w ∷ ws) b id since =
      let round = produce b w.frames >>= λ b'.
      let woken = after_sleep w.sleep b' in
      let rest = wait_parts ws woken id since in
      if gives_up since w (b'.ids id) then returns woken else rest in
      if complete (b.ids id) then returns b else round
