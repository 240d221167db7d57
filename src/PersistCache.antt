-- ===== src/PersistCache.antt =====
-- Protocol_Bridge/src/persistant_cache_mgr.c: packets come back from the disk while the gateway is
-- open. The answers that steer the page stack, and the loop of the thread that empties it.
pub mod Answers
pub mod Loop
mod Tests
use vs_slns.Base.{Bool, true, false}

-- `gateway_open_stat`; `gws_still_active` is `gws_close`.
pub data GatewayOpenStat : Type 0 where
  gws_die gws_close gws_open : GatewayOpenStat

abbrev pub is_open : GatewayOpenStat → Bool
is_open GatewayOpenStat.gws_open = true
is_open _ = false
