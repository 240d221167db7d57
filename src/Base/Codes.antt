-- ===== src/Base/Codes.antt =====
-- The status codes that the modelled code returns or tests. The code base of the status type is a
-- library of its own; `other` stands for every code that no line of these components names.
use Prim.Native.Nat.{ℕ}
use mathlib.Core.Bool.{Bool, true, false}

pub data Status : Type 0 where
  err_ok err_general err_canceled err_timeout err_arg err_empty err_too_many_attempt : Status
  err_port_occupied err_peer_closed err_no_peer err_mapped err_but_continue : Status
  err_done_already err_skip err_no_countinue : Status
  other : ℕ → Status

-- `status == errOK`
abbrev pub is_ok : Status → Bool
is_ok Status.err_ok = true
is_ok _ = false

-- `status == errTimeout`
abbrev pub is_timeout : Status → Bool
is_timeout Status.err_timeout = true
is_timeout _ = false
