-- ===== src/KernelUdp/Rates.antt =====
-- The rates of the threads: the counts of the seconds against the totals.
use vs_slns.Base.{
  ℕ, refl, inl, inr, Bool, List, [], ◌∷◌, ◌==◌, length, arith, Bool-cases, Outcome, returns,
}
use vs_slns.Forward.{take}
use vs_slns.KernelUdp.{
  Udp, Received, eagain, ewouldblock, other_error, datagram, Stat, receive_error, received, got,
  Activity,
}
use vs_slns.KernelUdp.Threads.{
  count_until_empty, count_datagrams, proc_krnl_udp_counter, Sizes, Cup, new_cup, store_until_empty,
  proc_one2one_krnl_udp_store,
}
use vs_slns.KernelUdp.Steady.{Balanced, Started, Steady, Positive, proc_krnl_udp-Even}

count-Steady : (rs : List Received) (s : Stat) → Steady s (count_until_empty rs s)
unfolding count_until_empty
count-Steady [] s = (λ b. b, refl)
count-Steady (eagain ∷ rs) s = (λ b. b, refl)
count-Steady (ewouldblock ∷ rs) s = (λ b. b, refl)
count-Steady (other_error ∷ rs) s = (λ b. b, refl)
count-Steady (datagram bytes now accepted ∷ rs) s = elim (Bool-cases (length bytes == 0)) [
  | inl e ↦ rw (count_until_empty, e) (count-Steady rs (receive_error s))
  | inr e ↦
      let (f, d) = count-Steady rs (got (length bytes) now (received s)) in
      rw (count_until_empty, e) (λ b. f (ground (arith, b)), d)
]

store-Steady :
    (sz : Sizes) (rs : List Received) (s : Stat) (c : Outcome Cup)
    → Steady s (store_until_empty sz rs s c).0
unfolding store_until_empty
store-Steady sz [] s c = (λ b. b, refl)
store-Steady sz (eagain ∷ rs) s c = (λ b. b, refl)
store-Steady sz (ewouldblock ∷ rs) s c = store-Steady sz rs s c
store-Steady sz (other_error ∷ rs) s c = (λ b. b, refl)
store-Steady sz (datagram bytes now accepted ∷ rs) s c =
    let n = length (take sz.buffer_size bytes) in
    elim (Bool-cases (n == 0)) [
      | inl e ↦ rw (store_until_empty, e) (store-Steady sz rs (receive_error s) c)
      | inr e ↦ elim (Bool-cases accepted) [
        | inl g ↦
            let (f, d) = store-Steady sz rs (got n now (received s)) _ in
            rw (store_until_empty, e, g) (λ b. f (ground (arith, b)), d)
        | inr g ↦ rw (store_until_empty, e, g) (store-Steady sz rs (received s) _)
      ]
    ]

-- However the rounds go, if the clock that `time` reads is past the first second of 1970 in each, the
-- counts and bytes that the threads handed on for past seconds, and what they hold for the present
-- one, add up modulo 2^64 to the 64-bit totals at the end, if they did so at the start and nothing was
-- counted before the first second: of the counting thread and of the thread that stores for one
-- connection.
pub proc-Balanced :
    (stopped : Bool) (us : List Udp) (acts : List Activity) (s : Stat) (sz : Sizes) (name : List ℕ)
    → Positive acts
    → Balanced s
    → Started s
    → Balanced (proc_krnl_udp_counter stopped us acts s).0.stat
      × Balanced (proc_one2one_krnl_udp_store sz name stopped us acts s).0.stat
unfolding proc_krnl_udp_counter proc_one2one_krnl_udp_store
proc-Balanced stopped us acts s sz name p b st =
    let (x, _) =
      proc_krnl_udp-Even count_datagrams (λ rs t a. count-Steady rs t) stopped us acts s tt p
        (b, st) in
    let (y, _) =
      proc_krnl_udp-Even (store_until_empty sz) (store-Steady sz) stopped us acts s
        (returns (new_cup sz name)) p (b, st) in
    (x, y)
