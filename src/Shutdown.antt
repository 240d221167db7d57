-- ===== src/Shutdown.antt =====
-- Protocol_Bridge/src/Bridge.c: the sending of every bridge is stopped and its connections are closed
-- (try_stoping_sending_from_bridge), and the receiving is stopped (bridge_insure_input_bus_stoping).
pub mod Waits
pub mod Locks
mod Tests
use vs_slns.Base.{ℕ, zero, suc, ◌+◌, Bool, true, false, not, List, [], ◌∷◌, if◌then◌else◌, map}

-- A connection: whether it is the main one and stands, and the calls of `tcps_close` on it.
pub record Tcp : Type 0 where
  pub main_instance : Bool
  pub tcp_conn_established : Bool
  pub closes : ℕ

-- What this thread holds of the two mutexes, which are of the default kind, and the unlocks of
-- `tcps_trd.mtx` while it did not hold it.
pub record Held : Type 0 where
  pub tcps_mtx : Bool
  pub pm_lock : Bool
  pub bad_unlocks : ℕ

pub record Ab : Type 0 where
  pub stop_sending : Bool
  pub stop_receiving : Bool
  pub tcps : List Tcp

-- What the other threads do while one bridge is stopped: whether the flag that answers the stop is
-- set when it is read for the i-th time, and whether they leave a mutex to the i-th attempt on it.
pub record Others : Type 0 where
  pub stoped : ℕ → Bool
  pub leave_tcps : ℕ → Bool
  pub leave_pm : ℕ → Bool

-- The loop that sleeps until the flag is set, at most as often as the guard allows: the count of
-- sleeps.
unfoldable pub wait : ℕ → (ℕ → Bool) → ℕ → ℕ
wait zero flag i = i
wait (suc guard) flag i = let rest = wait guard flag (i + 1) in if not (flag i) then rest else i

-- `pthread_mutex_timedlock_rel` of a mutex of the default kind.
abbrev pub timed_lock : Bool → Bool → Bool
timed_lock held left = if held then false else left

abbrev pub unlock_tcps : Held → Held
unlock_tcps h =
    if h.tcps_mtx
    then record h { tcps_mtx = false }
    else record h { bad_unlocks = h.bad_unlocks + 1 }

abbrev pub close_main : Tcp → Tcp
close_main t =
    if t.main_instance
    then if t.tcp_conn_established then record t { closes = t.closes + 1 } else t
    else t

-- The inner loop: `pm_lock`, and the mutex of the connections unlocked behind the closing.
unfoldable pub with_pm : ℕ → ℕ → Others → Held × List Tcp → Held × List Tcp
with_pm zero i o (h, ts) = (h, ts)
with_pm (suc n) i o (h, ts) =
    let rest = with_pm n (i + 1) o (h, ts) in
    if timed_lock h.pm_lock (o.leave_pm i)
    then (unlock_tcps (record h { pm_lock = true }), map close_main ts)
    else rest

-- The outer loop.
unfoldable pub with_tcps : ℕ → ℕ → Others → Held × List Tcp → Held × List Tcp
with_tcps zero i o (h, ts) = (h, ts)
with_tcps (suc n) i o (h, ts) =
    let rest = with_tcps n (i + 1) o (h, ts) in
    let (g, us) = with_pm 10 0 o (record h { tcps_mtx = true }, ts) in
    if timed_lock h.tcps_mtx (o.leave_tcps i) then (unlock_tcps g, us) else rest

-- One bridge: the sleeps, what the thread holds, and the bridge.
unfoldable pub stop_sending_of : ℕ → Others → Held → Ab → ℕ × (Held × Ab)
stop_sending_of guard o h pb =
    let (g, us) = with_tcps 10 0 o (h, pb.tcps) in
    (wait guard o.stoped 0, (g, record pb { stop_sending = true; tcps = us }))

-- All bridges, each with what the other threads do meanwhile.
unfoldable pub try_stoping_sending_from_bridge : ℕ → List (Others × Ab) → Held → Held × List Ab
try_stoping_sending_from_bridge guard [] h = (h, [])
try_stoping_sending_from_bridge guard ((o, pb) ∷ pbs) h =
    let (_, (g, next)) = stop_sending_of guard o h pb in
    let (last, rest) = try_stoping_sending_from_bridge guard pbs g in (last, next ∷ rest)

-- The receiving of one bridge: the sleeps, and the bridge.
unfoldable pub bridge_insure_input_bus_stoping : ℕ → (ℕ → Bool) → Ab → ℕ × Ab
bridge_insure_input_bus_stoping guard receive_stoped pb =
    (wait guard receive_stoped 0, record pb { stop_receiving = true })
