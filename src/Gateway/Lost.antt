-- ===== src/Gateway/Lost.antt =====
-- The end of the thread that empties the files is written over: the function that waits for it does not
-- return.
use vs_slns.Base.{◌≡◌, ◌≢◌, ◌⊎◌, inl, refl, arith}
use vs_slns.PersistCache.{gws_die, gws_close, gws_open}
use vs_slns.Gateway.{
  ended, at_test, at_post, stopped, Gate, Move, quit_3, quit_4, call_stop, pops_segment,
  pops_nothing, leaves_loop, sees_open, sees_not_open, closes, next_round, breaks_loop, sees_closed,
  sees_not_closed, opens, posts, ends_open, ends_not_open, ends_closing, goes_to_wait, goes_to_end,
  waits, enters, goes_back, pops, pops_empty, empty_closes, dies, reads_active, reads_dead, rereads,
  writes, still_active, stops, posts_again, start, Runs, here, Runs-keeps, Run, ◌▷◌,
}

-- The thread has ended, and the loop that waits for it goes on.
abbrev Hung : Gate → Type 0
Hung g =
    (g.cache ≡ ended)
    × (g.pagestack_gateway_open_val ≢ gws_die)
    × ((g.stopper ≡ at_test) ⊎ (g.stopper ≡ at_post))

Move-Hung : (g h : Gate) → Move g h → Hung g → Hung h
Move-Hung g _ quit_3 i = ground (arith, i)
Move-Hung g _ quit_4 i = ground (arith, i)
Move-Hung g _ (call_stop e) i = ground (arith, i)
Move-Hung g _ (pops_segment e f) i = ground (arith, i)
Move-Hung g _ (pops_nothing e f) i = ground (arith, i)
Move-Hung g _ (leaves_loop e f) i = ground (arith, i)
Move-Hung g _ (sees_open e f) i = ground (arith, i)
Move-Hung g _ (sees_not_open e f) i = ground (arith, i)
Move-Hung g _ (closes e) i = ground (arith, i)
Move-Hung g _ (next_round e) i = ground (arith, i)
Move-Hung g _ (breaks_loop e) i = ground (arith, i)
Move-Hung g _ (sees_closed e f) i = ground (arith, i)
Move-Hung g _ (sees_not_closed e f) i = ground (arith, i)
Move-Hung g _ (opens e) i = ground (arith, i)
Move-Hung g _ (posts e) i = ground (arith, i)
Move-Hung g _ (ends_open e f) i = ground (arith, i)
Move-Hung g _ (ends_not_open e f) i = ground (arith, i)
Move-Hung g _ (ends_closing e) i = ground (arith, i)
Move-Hung g _ (goes_to_wait e f) i = ground (arith, i)
Move-Hung g _ (goes_to_end e f) i = ground (arith, i)
Move-Hung g _ (waits n e f) i = ground (arith, i)
Move-Hung g _ (enters e f) i = ground (arith, i)
Move-Hung g _ (goes_back e f) i = ground (arith, i)
Move-Hung g _ (pops e) i = ground (arith, i)
Move-Hung g _ (pops_empty e) i = ground (arith, i)
Move-Hung g _ (empty_closes e) i = ground (arith, i)
Move-Hung g _ (dies e) i = ground (arith, i)
Move-Hung g _ (reads_active e f) i = ground (arith, i)
Move-Hung g _ (reads_dead e f) i = ground (arith, i)
Move-Hung g _ (rereads e) i = ground (arith, i)
Move-Hung g _ (writes v e) i = ground (arith, i)
Move-Hung g _ (still_active e f) i = ground (arith, i)
Move-Hung g _ (stops e f) i = ground (arith, i)
Move-Hung g _ (posts_again e) i = ground (arith, i)

pub close_alive : gws_close ≢ gws_die
close_alive = ground arith

pub open_alive : gws_open ≢ gws_die
open_alive = ground arith

-- The thread that empties memory has found the gateway closed; the other one ends before the gateway is
-- opened.
abbrev opened_late : Run
opened_late =
    record { last = start; runs = here }
    ▷ pops_nothing refl refl
    ▷ sees_closed refl refl
    ▷ quit_3
    ▷ goes_to_end refl refl
    ▷ dies refl
    ▷ opens refl
    ▷ posts refl
    ▷ call_stop refl
    ▷ reads_active refl open_alive
    ▷ writes gws_close refl

-- The function that waits has found the gateway alive; the thread ends before it is closed.
abbrev closed_late : Run
closed_late =
    record { last = start; runs = here }
    ▷ quit_3
    ▷ goes_to_end refl refl
    ▷ call_stop refl
    ▷ reads_active refl close_alive
    ▷ dies refl
    ▷ writes gws_close refl

-- The thread that empties the files has ended, and the function that waits for it does not return,
-- whatever happens next.
abbrev NeverStops : Run → Type 0
NeverStops r = (r.last.cache ≡ ended) × ((h : Gate) → Runs r.last h → h.stopper ≢ stopped)

Hung-NeverStops : (r : Run) → Hung r.last → NeverStops r
Hung-NeverStops r hung =
    (hung.0, λ h s. let k = Runs-keeps Hung Move-Hung r.last h s hung in λ e. ground (arith, k))

-- In the two interleavings `opened_late` and `closed_late`, in which the gateway is opened, or closed, on
-- a value read before the thread that empties the files ended, that thread has ended, and
-- try_stop_sending_from_cach_mgr does not return, whatever happens next.
pub stopping_hangs : NeverStops opened_late × NeverStops closed_late
stopping_hangs = (
  Hung-NeverStops opened_late (refl, close_alive, inl refl),
  Hung-NeverStops closed_late (refl, close_alive, inl refl),
)
