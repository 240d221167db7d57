-- ===== src/PacketMgr/Rounds/Ledger.antt =====
-- What process_filled_tcp_segment_proc owes: the segments that a run of rounds takes and does not send
-- whole, and what becomes of the gateway, written over what the rounds read.
use vs_slns.Base.{
  ℕ, ◌+◌, Bool, true, false, not, ◌&&◌, List, [], ◌∷◌, Option, none, some, if◌then◌else◌, ◌==◌,
  Status,
}
use vs_slns.PersistCache.{GatewayOpenStat, gws_die, gws_close, gws_open}
use vs_slns.PacketMgr.Rounds.{Turn}

-- The files go first: memory and disk both have packets, the disk's is the older one, and neither
-- sending nor passing on is stopped.
abbrev pub files_first : Turn → Bool
files_first r =
    not (r.latest_huge_memory_sec == 0)
    && (not (r.latest_memmap_sec == 0)
        && (not r.memory_not_before_disk && (not r.block_sending_1 && not r.skips_section)))

-- A segment is taken.
abbrev pub takes : Turn → Bool
takes r = r.popped && not (files_first r)

-- Segments taken whose packets did not all go through: sending is blocked, or an item had a fault.
abbrev pub unsent_in : Turn → ℕ
unsent_in r = if takes r then if r.block_sending_1 then 1 else if r.items_sent then 0 else 1 else 0

abbrev pub none_left : Status → Bool
none_left Status.err_empty = true
none_left _ = false

-- The segment taken is the last one, and the program is about to exit.
abbrev pub leaves : Turn → Bool
leaves r = takes r && (none_left r.marked && r.cleaned_segments)

-- Those of the rounds up to the end of the loop, the last one included.
abbrev pub unsent : List Turn → ℕ
unsent [] = 0
unsent (r ∷ rs) =
    let rest = unsent_in r + unsent rs in
    if r.quit_noloss_data_thread_4 then 0 else if leaves r then unsent_in r else rest

-- The gateway after a round of this thread: closed behind a segment, opened for want of one.
abbrev pub gate_moved : Bool → GatewayOpenStat → GatewayOpenStat
gate_moved true gws_open = gws_close
gate_moved true gws_close = gws_close
gate_moved true gws_die = gws_die
gate_moved false gws_open = gws_open
gate_moved false gws_close = gws_open
gate_moved false gws_die = gws_die

abbrev pub gate_set : Option GatewayOpenStat → GatewayOpenStat → GatewayOpenStat
gate_set none g = g
gate_set (some h) g = h

-- Whether that opens it.
abbrev pub opened : Bool → GatewayOpenStat → ℕ
opened true g = 0
opened false gws_open = 0
opened false gws_close = 1
opened false gws_die = 0

-- The gateway at the end of the rounds; the end of the loop closes an open one.
abbrev pub gate_after : List Turn → GatewayOpenStat → GatewayOpenStat
gate_after [] g = g
gate_after (r ∷ rs) g =
    let rest = gate_after rs (gate_set r.set_by_others (gate_moved (takes r) g)) in
    if r.quit_noloss_data_thread_4
    then gate_moved true g
    else if leaves r
    then gate_moved true g
    else rest

-- How often the rounds open it.
abbrev pub openings : List Turn → GatewayOpenStat → ℕ
openings [] g = 0
openings (r ∷ rs) g =
    let rest = openings rs (gate_set r.set_by_others (gate_moved (takes r) g)) in
    if r.quit_noloss_data_thread_4 then 0 else if leaves r then 0 else opened (takes r) g + rest
