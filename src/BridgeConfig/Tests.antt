-- ===== src/BridgeConfig/Tests.antt =====
-- Sample settings, with numbers for names and settings, and the theorems at them.
use vs_slns.Base.{ℕ, ◌≡◌, refl, true, false, List, [], ◌∷◌, some, ◌==◌, ==_iff, length}
use vs_slns.BridgeConfig.{Types, Named, Bcfg0, items_same, bridge_cfg0_data_equlity}
use vs_slns.BridgeConfig.Compare.{Laws, WellFormed, SaysSame, bridge_cfg0_data_equlity-SaysSame}

abbrev numbers : Types
numbers = record {
  Name = ℕ;
  Udp = ℕ;
  Tcp = ℕ;
  BridgeId = ℕ;
  Solid = ℕ;
  str_same = λ a b. a == b;
  udp_same = λ a b. a == b;
  tcp_same = λ a b. a == b;
  id_same = λ a b. a == b;
  solid_same = λ a b. a == b;
}

numbers_laws : Laws numbers
numbers_laws = record {
  str_iff = ==_iff;
  udp_iff = ==_iff;
  tcp_iff = ==_iff;
  id_iff = ==_iff;
  solid_iff = ==_iff;
}

abbrev item : ℕ → ℕ → Named ℕ ℕ
item n v = record { name = n; value = v }

abbrev settings : List (Named ℕ ℕ) → Bcfg0 numbers
settings xs = record {
  id = 5;
  cas_maintained = record {
    input = some xs;
    in_count = length xs;
    output = some (item 9 9 ∷ []);
    out_count = 1;
  };
  sol_maintained = 4;
  pcfg_changed = 0;
  delayed_validation = false;
}

abbrev two : Bcfg0 numbers
two = settings (item 1 10 ∷ item 2 20 ∷ [])

abbrev two_swapped : Bcfg0 numbers
two_swapped = settings (item 2 20 ∷ item 1 10 ∷ [])

swapped_is_same : bridge_cfg0_data_equlity numbers two two_swapped ≡ true
unfolding bridge_cfg0_data_equlity items_same
swapped_is_same = refl

changed_differs :
    bridge_cfg0_data_equlity numbers two (settings (item 1 10 ∷ item 2 21 ∷ [])) ≡ false
unfolding bridge_cfg0_data_equlity items_same
changed_differs = refl

two-WellFormed : WellFormed numbers two
two-WellFormed = record {
  in_counted = refl;
  out_counted = refl;
  in_distinct = (refl, (refl, tt));
  out_distinct = (refl, tt);
}

two_swapped-WellFormed : WellFormed numbers two_swapped
two_swapped-WellFormed = record {
  in_counted = refl;
  out_counted = refl;
  in_distinct = (refl, (refl, tt));
  out_distinct = (refl, tt);
}

bridge_cfg0_data_equlity-SaysSame_example : SaysSame numbers numbers_laws two two_swapped
unfolding bridge_cfg0_data_equlity items_same
bridge_cfg0_data_equlity-SaysSame_example =
    bridge_cfg0_data_equlity-SaysSame numbers numbers_laws two two_swapped two-WellFormed
      two_swapped-WellFormed refl
