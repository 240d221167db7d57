-- ===== src/PacketMgr/Evacuate.antt =====
-- evacuate_long_time_sediment_segment_proc: once in a while packets that wait long in memory are moved
-- to the disk, so many of them as the input leaves time for.
use vs_slns.Base.{
  ℕ, ◌+◌, ◌-◌, ◌*◌, ◌/◌, ◌%◌, ◌^◌, ◌≤◌, inl, inr, Bool, not, List, [], ◌∷◌, Option, none, some,
  ◌==◌, leb, ltb, if◌then◌else◌, arith, Bool-cases, Option-cases, if-both,
}

-- What one round reads: whether there is an oldest segment, the load of the input in bytes a second as
-- the two rates are weighted, what memory holds, and the seconds of `time`.
pub record Look : Type 0 where
  pub quit : Bool
  pub has_oldest : Bool
  pub input_load : ℕ
  pub current_items : ℕ
  pub current_bytes : ℕ
  pub now : ℕ

-- The settings: the bytes of the cache less its overhead, and the time to copy a byte.
pub record CopyCost : Type 0 where
  pub pkt_fit_in_l1_cache : ℕ
  pub l1_2_l2_byte_copy_latency_nsec : ℕ

-- `_release_lock_countdown` with the second of its last change, and the bounds that
-- `segmgr_try_process_filled_segment` was called with, the last one first.
pub record Release : Type 0 where
  pub release_lock_countdown : ℕ
  pub last_assign : ℕ
  pub tried : List ℕ

-- How many packets can be moved in what the input leaves of a second; nothing when the round ends
-- before that is known. A product is a `size_t`.
unfoldable pub countdown_of : CopyCost → Look → Option ℕ
countdown_of cfg l =
    let copy = cfg.l1_2_l2_byte_copy_latency_nsec in
    let inp_load_latency = l.input_load * copy % 2 ^ 64 in
    let avg_inp_pkt_sz = l.current_bytes / l.current_items in
    if not l.has_oldest
    then none
    else if l.current_items == 0
    then none
    else if leb cfg.pkt_fit_in_l1_cache l.input_load
    then none
    else if leb 1000000000 inp_load_latency
    then none
    else if copy == 0
    then none
    else if avg_inp_pkt_sz == 0
    then none
    else some ((1000000000 - inp_load_latency) / copy / avg_inp_pkt_sz)

abbrev pub smaller : ℕ → ℕ → ℕ
smaller a b = if ltb a b then a else b

-- A smaller countdown is taken at once, a larger one once in more than five seconds; `* 0.1` is cut to
-- a whole number.
unfoldable pub set_countdown : ℕ → ℕ → Release → Release
set_countdown countdown now r =
    if leb countdown r.release_lock_countdown
    then record r { release_lock_countdown = countdown }
    else if ltb (r.last_assign + 5) now
    then record r {
      release_lock_countdown = smaller (smaller (r.release_lock_countdown / 10) countdown) 1000;
      last_assign = now;
    }
    else r

abbrev pub try_process : Release → Release
try_process r = record r { tried = r.release_lock_countdown ∷ r.tried }

-- One round.
unfoldable pub evacuate_round : CopyCost → Look → Release → Release
unfolding countdown_of set_countdown
evacuate_round cfg l r = elim (countdown_of cfg l) [
  | none ↦ r
  | some countdown ↦ try_process (set_countdown countdown l.now r)
]

-- The thread, over what its rounds read.
unfoldable pub evacuate_long_time_sediment_segment_proc : CopyCost → List Look → Release → Release
evacuate_long_time_sediment_segment_proc cfg [] r = r
evacuate_long_time_sediment_segment_proc cfg (l ∷ ls) r =
    let rest = evacuate_long_time_sediment_segment_proc cfg ls (evacuate_round cfg l r) in
    if l.quit then r else rest

-- Every bound tried is at most this.
abbrev pub AllAtMost : ℕ → List ℕ → Type 0
AllAtMost n [] = Unit
AllAtMost n (x ∷ xs) = (x ≤ n) × AllAtMost n xs

set_countdown-falls :
    (countdown now : ℕ) (r : Release)
    → (set_countdown countdown now r).release_lock_countdown ≤ r.release_lock_countdown
unfolding set_countdown
set_countdown-falls countdown now r = ground arith

set_countdown-tried :
    (countdown now : ℕ) (r : Release) (n : ℕ)
    → AllAtMost n r.tried
    → AllAtMost n (set_countdown countdown now r).tried
unfolding set_countdown
set_countdown-tried countdown now r n a =
    elim (Bool-cases (leb countdown r.release_lock_countdown)) [
      | inl e ↦ rw (set_countdown, e) a
      | inr e ↦ elim (Bool-cases (ltb (r.last_assign + 5) now)) [
        | inl f ↦ rw (set_countdown, e, f) a
        | inr f ↦ rw (set_countdown, e, f) a
      ]
    ]

-- The countdown and the bounds tried are at most this.
abbrev Below : ℕ → Release → Type 0
Below n r = (r.release_lock_countdown ≤ n) × AllAtMost n r.tried

evacuate_round-Below :
    (cfg : CopyCost) (l : Look) (r : Release) (n : ℕ) → Below n r → Below n (evacuate_round cfg l r)
unfolding evacuate_round
evacuate_round-Below cfg l r n (h, a) = elim (Option-cases (countdown_of cfg l)) [
  | inl e ↦ rw (evacuate_round, e) (h, a)
  | inr (c, e) ↦
      let fits : (set_countdown c l.now r).release_lock_countdown ≤ n =
        omega (arith, set_countdown-falls c l.now r) in
      rw (evacuate_round, e) (fits, (fits, set_countdown-tried c l.now r n a))
]

-- Whatever the rounds read, the countdown never rises: every call of segmgr_try_process_filled_segment
-- is bounded by the countdown that the thread began with.
pub evacuate-AllAtMost :
    (cfg : CopyCost) (ls : List Look) (r : Release) (n : ℕ)
    → r.release_lock_countdown ≤ n
    → AllAtMost n r.tried
    → AllAtMost n (evacuate_long_time_sediment_segment_proc cfg ls r).tried
unfolding evacuate_long_time_sediment_segment_proc
evacuate-AllAtMost cfg [] r n h a = a
evacuate-AllAtMost cfg (l ∷ ls) r n h a =
    let (k, b) = evacuate_round-Below cfg l r n (h, a) in
    let rest = evacuate-AllAtMost cfg ls (evacuate_round cfg l r) n k b in
    if-both (λ last. AllAtMost n last.tried) l.quit r
      (evacuate_long_time_sediment_segment_proc cfg ls (evacuate_round cfg l r)) (λ _. a)
      (λ _. rest)
