-- ===== src/Shutdown/Tests.antt =====
-- Runs of the stop of bridges, and its theorems at them.
use vs_slns.Base.{
  ℕ, ◌+◌, ◌<◌, ◌≤◌, ◌==◌, ◌≡◌, refl, ◌⊎◌, true, false, [], ◌∷◌, map, if◌then◌else◌, leb,
}
use vs_slns.Shutdown.{
  Tcp, Ab, Others, wait, stop_sending_of, try_stoping_sending_from_bridge,
  bridge_insure_input_bus_stoping,
}
use vs_slns.Shutdown.Waits.{bridge_insure_input_bus_stoping-Returns}
use vs_slns.Shutdown.Locks.{
  held, any_from, gets_both, told, closed, stop_sending_of-closes,
  try_stoping_sending_from_bridge_leaves_open,
}

abbrev standing : Tcp
standing = record { main_instance = true; tcp_conn_established = true; closes = 0 }

abbrev copied : Tcp
copied = record { main_instance = false; tcp_conn_established = true; closes = 0 }

abbrev bridge : Ab
bridge = record { stop_sending = false; stop_receiving = false; tcps = standing ∷ copied ∷ [] }

-- The flag is set at the third reading; both mutexes are left at the second attempt.
abbrev quiet : Others
quiet = record { stoped = λ i. leb 2 i; leave_tcps = λ i. i == 1; leave_pm = λ i. i == 1 }

both_got : gets_both quiet ≡ true
unfolding any_from
both_got = refl

bridge_insure_input_bus_stoping-Returns_example :
    (sleeps : ℕ) × (next : Ab) × (bridge_insure_input_bus_stoping 5 (λ i. leb 2 i) bridge
      ≡ (sleeps, next))
    × (next.stop_receiving ≡ true)
    × (sleeps ≤ 5)
    × ((j : ℕ) → j < sleeps → leb 2 j ≡ false)
    × ((sleeps ≡ 5) ⊎ (leb 2 sleeps ≡ true))
bridge_insure_input_bus_stoping-Returns_example =
    bridge_insure_input_bus_stoping-Returns 5 (λ i. leb 2 i) bridge

stop_sending_of-closes_example : stop_sending_of 5 quiet (held false false 0) bridge ≡ (
  wait 5 quiet.stoped 0,
  if gets_both quiet
      then (held false true (0 + 1), closed bridge)
      else (held false false 0, told bridge),
)
stop_sending_of-closes_example = stop_sending_of-closes 5 0 quiet bridge

try_stoping_sending_from_bridge_leaves_open_example :
    try_stoping_sending_from_bridge 5 ((quiet, bridge) ∷ (quiet, bridge) ∷ []) (held false false 0)
    ≡ (
      held false true (0 + 1),
      closed bridge ∷ map (λ (x : Others × Ab). told x.1) ((quiet, bridge) ∷ []),
    )
try_stoping_sending_from_bridge_leaves_open_example =
    try_stoping_sending_from_bridge_leaves_open 5 0 quiet bridge ((quiet, bridge) ∷ []) both_got

two_sleeps : wait 5 quiet.stoped 0 ≡ 2
unfolding wait
two_sleeps = refl
