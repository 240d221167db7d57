-- ===== src/PersistCache/Tests.antt =====
-- The theorems on the persistent cache at sample inputs.
use vs_slns.Base.{◌≡◌, refl, false, List, [], ◌∷◌, none, err_ok, err_empty, returns, Returns}
use vs_slns.PersistCache.{GatewayOpenStat, is_open}
use vs_slns.PersistCache.Loop.{Discharge, Round, discharge_while, discharge_while-Returns}

abbrev open_gate : Discharge
open_gate = record {
  pagestack_gateway_open_val = GatewayOpenStat.gws_open;
  cool_down_attempt_on_empty = 0;
  announced = 0;
  slept_normal = 0;
  slept_very_short = 0;
}

-- A packet goes, then the files are empty.
abbrev two_rounds : List Round
two_rounds =
    record { popped = err_ok; now = 8; set_by_others = none }
    ∷ record { popped = err_empty; now = 9; set_by_others = none }
    ∷ []

announced_once :
    discharge_while two_rounds open_gate
    ≡ returns (record open_gate {
      pagestack_gateway_open_val = GatewayOpenStat.gws_close;
      cool_down_attempt_on_empty = 9;
      announced = 1;
    })
unfolding discharge_while
announced_once = refl

discharge_while-Returns_example :
    Returns
      (λ c'. is_open c'.pagestack_gateway_open_val ≡ false)
      (discharge_while two_rounds open_gate)
discharge_while-Returns_example = discharge_while-Returns two_rounds open_gate refl
