-- ===== src/Gateway/Promises.antt =====
-- What the threads may rely on, after any run.
use vs_slns.Base.{◌<◌, ◌≡◌, ◌≢◌, ◌⊎◌, arith}
use vs_slns.PersistCache.{gws_open}
use vs_slns.Gateway.{
  Gate, Runs, Runs-keeps, start, at_head, at_wait, before_post, ended, stopped, left,
}
use vs_slns.Gateway.Inv.{Inv, start-Inv, Move-Inv}

Runs-Inv : (g : Gate) → Runs start g → Inv g
Runs-Inv g r = Runs-keeps Inv Move-Inv start g r start-Inv

-- In every interleaving, when the gateway is open and the thread that empties the files is at the head
-- of its loop or in its `sem_wait`, the semaphore has a post for it, or the thread that opened the
-- gateway is about to post.
pub open-woken :
    (g : Gate)
    → Runs start g
    → g.pagestack_gateway_open_val ≡ gws_open
    → (g.cache ≡ at_head) ⊎ (g.cache ≡ at_wait)
    → (0 < g.pagestack_gateway_open_sem) ⊎ (g.sender ≡ before_post)
open-woken g r e f = let i = Runs-Inv g r in i.0 e f

-- In every interleaving, try_stop_sending_from_cach_mgr returns only after the thread that empties the
-- files has ended.
pub stopped-ended : (g : Gate) → Runs start g → g.stopper ≡ stopped → g.cache ≡ ended
stopped-ended g r e = let i = Runs-Inv g r in i.4 e

-- In every interleaving, after the thread that empties memory has left, the gateway is not open as
-- long as the thread that empties the files has not ended.
pub left-closed :
    (g : Gate)
    → Runs start g
    → g.sender ≡ left
    → g.cache ≢ ended
    → g.pagestack_gateway_open_val ≢ gws_open
left-closed g r e f = let i = Runs-Inv g r in let p = i.5 e in ground (arith, p, f)
