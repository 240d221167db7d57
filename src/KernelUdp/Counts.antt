-- ===== src/KernelUdp/Counts.antt =====
-- What the counting thread counts of the datagrams of a socket.
use vs_slns.Base.{
  ℕ, ◌+◌, ◌%◌, ◌^◌, ◌≡◌, inl, inr, List, [], ◌∷◌, ◌==◌, if◌then◌else◌, length, arith, Bool-cases,
}
use vs_slns.KernelUdp.{
  Received, eagain, ewouldblock, other_error, datagram, Stat, receive_error, received, got,
}
use vs_slns.KernelUdp.Threads.{count_until_empty}

-- The sizes of the datagrams before `recvfrom` gives up, an empty one passed over.
abbrev pub sizes : List Received → List ℕ
sizes [] = []
sizes (eagain ∷ rs) = []
sizes (ewouldblock ∷ rs) = []
sizes (other_error ∷ rs) = []
sizes (datagram bytes now accepted ∷ rs) =
    if length bytes == 0 then sizes rs else length bytes ∷ sizes rs

-- The errors before and at the end: an empty datagram is one.
abbrev pub errors : List Received → ℕ
errors [] = 0
errors (eagain ∷ rs) = 0
errors (ewouldblock ∷ rs) = 0
errors (other_error ∷ rs) = 1
errors (datagram bytes now accepted ∷ rs) = if length bytes == 0 then errors rs + 1 else errors rs

abbrev pub sum : List ℕ → ℕ
sum [] = 0
sum (n ∷ ns) = n + sum ns

-- Draining a socket counts, modulo 2^64, each datagram that is not empty once, with its bytes, in the
-- totals as in the rates, and each empty datagram and each failure as an error, up to the first call
-- that finds the socket empty or fails.
pub count_until_empty-counts :
    (rs : List Received) (s : Stat)
    → ((count_until_empty rs s).total_udp_get_count % 2 ^ 64
        ≡ (s.total_udp_get_count + length (sizes rs)) % 2 ^ 64)
      × ((count_until_empty rs s).total_udp_get_byte % 2 ^ 64
          ≡ (s.total_udp_get_byte + sum (sizes rs)) % 2 ^ 64)
      × ((count_until_empty rs s).calc_throughput_udp_get_count % 2 ^ 64
          ≡ (s.calc_throughput_udp_get_count + length (sizes rs)) % 2 ^ 64)
      × ((count_until_empty rs s).calc_throughput_udp_get_bytes % 2 ^ 64
          ≡ (s.calc_throughput_udp_get_bytes + sum (sizes rs)) % 2 ^ 64)
      × ((count_until_empty rs s).total_unsuccessful_receive_error % 2 ^ 32
          ≡ (s.total_unsuccessful_receive_error + errors rs) % 2 ^ 32)
unfolding count_until_empty
count_until_empty-counts [] s = ground arith
count_until_empty-counts (eagain ∷ rs) s = ground arith
count_until_empty-counts (ewouldblock ∷ rs) s = ground arith
count_until_empty-counts (other_error ∷ rs) s = ground arith
count_until_empty-counts (datagram bytes now accepted ∷ rs) s =
    elim (Bool-cases (length bytes == 0)) [
      | inl e ↦
          rw (count_until_empty, e) (ground (arith, count_until_empty-counts rs (receive_error s)))
      | inr e ↦
          rw (count_until_empty, e)
            (ground (arith, count_until_empty-counts rs (got (length bytes) now (received s))))
    ]
