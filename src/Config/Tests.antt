-- ===== src/Config/Tests.antt =====
-- Three bridges with numbers for identities and settings, and the theorems at them.
use vs_slns.Base.{ℕ, ◌≡◌, refl, true, false, List, [], ◌∷◌, none, some, ◌==◌, ==_iff, not}
use vs_slns.BridgeConfig.{Types, Bcfg0, items_same, bridge_cfg0_data_equlity}
use vs_slns.BridgeConfig.Compare.{Laws}
use vs_slns.Config.Merge.{App, compare_new, load_settings}
use vs_slns.Config.Apply.{Options, Ab, remove_protocol_bridge, config_executer}
use vs_slns.Config.Ids.{listed}
use vs_slns.Config.Applied.{live}
use vs_slns.Config.Entries.{config_executer-entries}
use vs_slns.Config.Reload.{reload-entries}
use vs_slns.Config.Removal.{not_of_id, of_id, all_off, remove_protocol_bridge-stops_nothing}
use vs_slns.Config.Marks.{load_settings-marks}

abbrev numbers : Types
numbers = record {
  Name = ℕ;
  Udp = ℕ;
  Tcp = ℕ;
  BridgeId = ℕ;
  Solid = ℕ;
  str_same = λ a b. a == b;
  udp_same = λ a b. a == b;
  tcp_same = λ a b. a == b;
  id_same = λ a b. a == b;
  solid_same = λ a b. a == b;
}

numbers_laws : Laws numbers
numbers_laws = record {
  str_iff = ==_iff;
  udp_iff = ==_iff;
  tcp_iff = ==_iff;
  id_iff = ==_iff;
  solid_iff = ==_iff;
}

-- A bridge is off when its options are 0.
abbrev numbers_options : Options numbers
numbers_options = record { enable = λ s. not (s == 0); disable = λ s. 0 }

abbrev bridge : ℕ → ℕ → ℕ → Bcfg0 numbers
bridge i solid changed = record {
  id = i;
  cas_maintained = record { input = some []; in_count = 0; output = some []; out_count = 0 };
  sol_maintained = solid;
  pcfg_changed = changed;
  delayed_validation = false;
}

abbrev listed_bridge : ℕ → Ab numbers
listed_bridge i = record { cpy_cfg = bridge i 4 0; applied = 1 }

-- Bridge 1 has other settings, bridge 2 has the same, bridge 3 is new.
abbrev merged : App numbers
merged = record {
  bdj_psv_cfg = some (bridge 1 5 1 ∷ bridge 2 4 0 ∷ bridge 3 4 1 ∷ []);
  old_bdj_psv_cfg = some (bridge 1 4 0 ∷ bridge 2 4 0 ∷ []);
  psv_cfg_changed = true;
}

abbrev unapplied_bridge : Ab numbers
unapplied_bridge = record { cpy_cfg = bridge 1 4 0; applied = 0 }

abbrev two_bridges : List (Ab numbers)
two_bridges = listed_bridge 1 ∷ listed_bridge 2 ∷ []

abbrev after : List (Ab numbers)
after = (config_executer numbers numbers_options (bridge 0 0 0) true true merged two_bridges).0

config_executer-entries_example : (listed numbers 3 after ≡ true) × (live numbers 3 after ≡ true)
config_executer-entries_example =
    config_executer-entries numbers numbers_laws numbers_options 3 (bridge 0 0 0) true true merged
      two_bridges (refl, (refl, tt)) refl

abbrev before : List (Bcfg0 numbers)
before = bridge 1 4 0 ∷ bridge 2 4 0 ∷ []

abbrev file : List (Bcfg0 numbers)
file = bridge 2 4 0 ∷ bridge 1 5 0 ∷ []

abbrev loaded : App numbers
loaded = record { bdj_psv_cfg = some before; old_bdj_psv_cfg = none; psv_cfg_changed = false }

load_settings-marks_example : load_settings numbers file loaded ≡ record {
  bdj_psv_cfg = some (bridge 2 4 0 ∷ bridge 1 5 1 ∷ []);
  old_bdj_psv_cfg = some before;
  psv_cfg_changed = true;
}
unfolding compare_new bridge_cfg0_data_equlity items_same
load_settings-marks_example =
    load_settings-marks numbers numbers_laws before file loaded refl (refl, (refl, tt))
      (refl, (refl, tt)) (refl, (refl, tt))

-- Bridge 1 has other settings, which are applied.
reload-entries_example :
    let reloaded =
      (config_executer numbers numbers_options
        (bridge 0 0 0)
        true
        true
        (load_settings numbers file loaded)
        (unapplied_bridge ∷ listed_bridge 2 ∷ [])).0 in
    (listed numbers 1 reloaded ≡ true) × (live numbers 1 reloaded ≡ true)
unfolding compare_new bridge_cfg0_data_equlity items_same
reload-entries_example =
    reload-entries numbers numbers_laws numbers_options 1 (bridge 0 0 0) true true before file
      loaded (unapplied_bridge ∷ listed_bridge 2 ∷ []) refl (refl, (refl, tt)) (refl, (refl, tt))
      (refl, (refl, tt)) (refl, (refl, tt)) refl

disabled_off : (s : ℕ) → numbers_options.enable (numbers_options.disable s) ≡ false
disabled_off s = refl

remove_protocol_bridge-stops_nothing_example :
    remove_protocol_bridge numbers numbers_options two_bridges (bridge 2 4 0) ≡ (
      not_of_id numbers 2 two_bridges,
      all_off numbers numbers_options (of_id numbers 2 two_bridges),
    )
remove_protocol_bridge-stops_nothing_example =
    remove_protocol_bridge-stops_nothing numbers numbers_options disabled_off two_bridges
      (bridge 2 4 0)

-- Bridge 1 stays, and bridge 2, which was applied once, is deleted with that count.
bridge_2_deleted :
    remove_protocol_bridge numbers numbers_options two_bridges (bridge 2 4 0)
    ≡ (listed_bridge 1 ∷ [], record { cpy_cfg = bridge 2 0 1; applied = 1 } ∷ [])
bridge_2_deleted = remove_protocol_bridge-stops_nothing_example
