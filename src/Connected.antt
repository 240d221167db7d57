-- ===== src/Connected.antt =====
-- Protocol_Bridge/src/Bridge.c: the count of connected outputs (tcp_state_changed).
pub mod Counts
mod Tests
use vs_slns.Base.{ℕ, ◌+◌, ◌-◌, ◌%◌, ◌^◌, ◌==◌, ltb, if◌then◌else◌}

-- `connected_tcp_out` after the callback: a `size_t`, which is not taken under 0.
unfoldable pub tcp_state_changed : ℕ → ℕ → ℕ
tcp_state_changed connected_tcp_out conn1_dis0 =
    if conn1_dis0 == 0
    then if ltb 0 connected_tcp_out then connected_tcp_out - 1 else connected_tcp_out
    else (connected_tcp_out + 1) % 2 ^ 64
