-- ===== src/Gateway/Inv.antt =====
-- What holds in every interleaving of the three threads.
use vs_slns.Base.{◌<◌, ◌≡◌, ◌≢◌, ◌⊎◌, arith}
use vs_slns.PersistCache.{GatewayOpenStat, gws_die, gws_close, gws_open}
use vs_slns.Gateway.{
  before_post, left, at_head, at_wait, ended, about_to_reread, about_to_write, stopped, Gate, Move,
  quit_3, quit_4, call_stop, pops_segment, pops_nothing, leaves_loop, sees_open, sees_not_open,
  closes, next_round, breaks_loop, sees_closed, sees_not_closed, opens, posts, ends_open,
  ends_not_open, ends_closing, goes_to_wait, goes_to_end, waits, enters, goes_back, pops,
  pops_empty, empty_closes, dies, reads_active, reads_dead, rereads, writes, still_active, stops,
  posts_again, start,
}

-- An open gateway is not slept on; only the end of the thread kills it, and only then may the stopping
-- function go on or assign another value than `gws_close`; the sender leaves the gateway closed.
abbrev pub Inv : Gate → Type 0
Inv g =
    (g.pagestack_gateway_open_val ≡ gws_open
      → (g.cache ≡ at_head) ⊎ (g.cache ≡ at_wait)
      → (0 < g.pagestack_gateway_open_sem) ⊎ (g.sender ≡ before_post))
    × (g.pagestack_gateway_open_val ≡ gws_die → g.cache ≡ ended)
    × (g.stopper ≡ about_to_reread → g.cache ≡ ended)
    × ((v : GatewayOpenStat) → g.stopper ≡ about_to_write v → (v ≡ gws_close) ⊎ (g.cache ≡ ended))
    × (g.stopper ≡ stopped → g.cache ≡ ended)
    × (g.sender ≡ left → (g.pagestack_gateway_open_val ≢ gws_open) ⊎ (g.cache ≡ ended))

pub start-Inv : Inv start
start-Inv = ground arith

pub Move-Inv : (g h : Gate) → Move g h → Inv g → Inv h
Move-Inv g _ quit_3 i = ground (arith, i)
Move-Inv g _ quit_4 i = ground (arith, i)
Move-Inv g _ (call_stop e) i = ground (arith, i)
Move-Inv g _ (pops_segment e f) i = ground (arith, i)
Move-Inv g _ (pops_nothing e f) i = ground (arith, i)
Move-Inv g _ (leaves_loop e f) i = ground (arith, i)
Move-Inv g _ (sees_open e f) i = ground (arith, i)
Move-Inv g _ (sees_not_open e f) i = ground (arith, i)
Move-Inv g _ (closes e) i = ground (arith, i)
Move-Inv g _ (next_round e) i = ground (arith, i)
Move-Inv g _ (breaks_loop e) i = ground (arith, i)
Move-Inv g _ (sees_closed e f) i = ground (arith, i)
Move-Inv g _ (sees_not_closed e f) i = ground (arith, i)
Move-Inv g _ (opens e) i = ground (arith, i)
Move-Inv g _ (posts e) i = ground (arith, i)
Move-Inv g _ (ends_open e f) i = ground (arith, i)
Move-Inv g _ (ends_not_open e f) i = ground (arith, i)
Move-Inv g _ (ends_closing e) i = ground (arith, i)
Move-Inv g _ (goes_to_wait e f) i = ground (arith, i)
Move-Inv g _ (goes_to_end e f) i = ground (arith, i)
Move-Inv g _ (waits n e f) i = ground (arith, i)
Move-Inv g _ (enters e f) i = ground (arith, i)
Move-Inv g _ (goes_back e f) i = ground (arith, i)
Move-Inv g _ (pops e) i = ground (arith, i)
Move-Inv g _ (pops_empty e) i = ground (arith, i)
Move-Inv g _ (empty_closes e) i = ground (arith, i)
Move-Inv g _ (dies e) i = ground (arith, i)
Move-Inv g _ (reads_active e f) i = ground (arith, i)
Move-Inv g _ (reads_dead e f) i = ground (arith, i)
Move-Inv g _ (rereads e) i = ground (arith, i)
Move-Inv g _ (writes v e) i = let p = i.3 v e in ground (arith, p, i)
Move-Inv g _ (still_active e f) i = ground (arith, i)
Move-Inv g _ (stops e f) i = ground (arith, i)
Move-Inv g _ (posts_again e) i = ground (arith, i)
