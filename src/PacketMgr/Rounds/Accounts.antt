-- ===== src/PacketMgr/Rounds/Accounts.antt =====
-- What the thread does with the segments, and with the gateway.
use vs_slns.Base.{ℕ, ◌+◌, ◌≡◌, Bool, true, false, List}
use vs_slns.PersistCache.{GatewayOpenStat, is_open}
use vs_slns.PacketMgr.Rounds.Ledger.{unsent, gate_after, openings}
use vs_slns.PacketMgr.Rounds.{Turn, Sending}

-- From one state to another: `n` segments offered to the disk, the gateway opened `o` times, the thread
-- behind it woken as often, and the gateway `g` at the end.
abbrev pub Accounts : Sending → Sending → ℕ → ℕ → GatewayOpenStat → Type 0
Accounts s t n o g =
    (t.offered_store ≡ s.offered_store + n)
    × (t.pagestack_gateway_open_sem ≡ s.pagestack_gateway_open_sem + o)
    × (t.open_gate_cnt ≡ s.open_gate_cnt + o)
    × (t.pagestack_gateway_open_val ≡ g)

-- The rounds up to the end of the loop; at the end the gateway is not open.
abbrev pub Ends : List Turn → Sending → Sending × Bool → Type 0
Ends rs s r =
    Accounts s r.0 (unsent rs) (openings rs s.pagestack_gateway_open_val)
      (gate_after rs s.pagestack_gateway_open_val)
    × (r.1 ≡ true → is_open r.0.pagestack_gateway_open_val ≡ false)
