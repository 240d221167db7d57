-- ===== src/Config/Removal.antt =====
-- remove_protocol_bridge: which bridges are deleted, and what the stop before it does.
use vs_slns.Base.{◌≡◌, refl, false, List, [], ◌∷◌, if◌then◌else◌, Bool-cases, inl, inr}
use vs_slns.BridgeConfig.{Types, Bcfg0}
use vs_slns.Config.Apply.{
  Options, Ab, apply_new_protocol_bridge_config, stop_protocol_bridge, remove_protocol_bridge,
}

module _ (t : Types) where
  -- The bridges of an identity, and the others, in their order.
  abbrev pub of_id : t.BridgeId → List (Ab t) → List (Ab t)
  of_id i [] = []
  of_id i (pb ∷ pbs) = if t.id_same pb.cpy_cfg.id i then pb ∷ of_id i pbs else of_id i pbs

  abbrev pub not_of_id : t.BridgeId → List (Ab t) → List (Ab t)
  not_of_id i [] = []
  not_of_id i (pb ∷ pbs) =
      if t.id_same pb.cpy_cfg.id i then not_of_id i pbs else pb ∷ not_of_id i pbs

module _ (t : Types) (opt : Options t) where
  -- The bridge with its settings switched off and marked as changed; nothing was applied to it.
  abbrev pub switched_off : Ab t → Ab t
  switched_off pb = record {
    cpy_cfg = record pb.cpy_cfg {
      sol_maintained = opt.disable pb.cpy_cfg.sol_maintained;
      pcfg_changed = 1;
    };
    applied = pb.applied;
  }

  abbrev pub all_off : List (Ab t) → List (Ab t)
  all_off [] = []
  all_off (pb ∷ pbs) = switched_off pb ∷ all_off pbs

  module _ (off : (s : t.Solid) → opt.enable (opt.disable s) ≡ false) where
    stop-switched_off : (pb : Ab t) → stop_protocol_bridge t opt pb ≡ switched_off pb
    unfolding stop_protocol_bridge apply_new_protocol_bridge_config
    stop-switched_off pb = rw (off pb.cpy_cfg.sol_maintained) refl

    -- When options that were disabled are not enabled, a removal deletes exactly the bridges of its
    -- identity and leaves the others as they are, in their order. The stop before each deletion only
    -- switches the bridge's own settings off and marks them: nothing is applied to the bridge, since
    -- the application returns at its first test, so nothing that the bridge started is stopped.
    pub remove_protocol_bridge-stops_nothing :
        (pbs : List (Ab t)) (c : Bcfg0 t)
        → remove_protocol_bridge t opt pbs c ≡ (not_of_id t c.id pbs, all_off (of_id t c.id pbs))
    unfolding remove_protocol_bridge
    remove_protocol_bridge-stops_nothing [] c = refl
    remove_protocol_bridge-stops_nothing (pb ∷ pbs) c =
        elim (Bool-cases (t.id_same pb.cpy_cfg.id c.id)) [
          | inl e ↦ rw (e, remove_protocol_bridge-stops_nothing pbs c, stop-switched_off pb) refl
          | inr e ↦ rw (e, remove_protocol_bridge-stops_nothing pbs c) refl
        ]
