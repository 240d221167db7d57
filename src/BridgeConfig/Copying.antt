-- ===== src/BridgeConfig/Copying.antt =====
-- copy_bridge_cfg: a copy compares as the same as its source; a copy that ran out of memory.
use vs_slns.Base.{◌≡◌, refl, ◌⊎◌, inl, inr, Bool, true, false, none, arith}
use vs_slns.BridgeConfig.{Types, Bcfg0, bcfg0_id_equlity, bridge_cfg0_data_equlity, copy_bridge_cfg}
use vs_slns.BridgeConfig.Compare.{Laws, WellFormed, bridge_cfg0_data_equlity_refl}

module _ (t : Types) (laws : Laws t) (dst src : Bcfg0 t) where
  -- If both allocations succeed, the copy of well-formed settings compares as the same as its
  -- source, in identity and data, whatever it held before, and is marked as complete.
  pub copy_bridge_cfg-same :
      WellFormed t src
      → let copy = copy_bridge_cfg t true true dst src in
        (bcfg0_id_equlity t copy src ≡ true)
        × (bridge_cfg0_data_equlity t copy src ≡ true)
        × (copy.delayed_validation ≡ true)
  unfolding copy_bridge_cfg
  copy_bridge_cfg-same v = (
    (laws.id_iff src.id src.id).1 refl,
    bridge_cfg0_data_equlity_refl t laws src (copy_bridge_cfg t true true dst src) v refl refl,
    refl,
  )

  -- If an allocation fails, the identity is already that of the source, while an array of the copy
  -- is gone and the count beside it is the one from before.
  pub copy_bridge_cfg_short :
      (in_room out_room : Bool)
      → (in_room ≡ false) ⊎ (out_room ≡ false)
      → let copy = copy_bridge_cfg t in_room out_room dst src in
        let cas = copy.cas_maintained in
        (bcfg0_id_equlity t copy src ≡ true)
        × (((cas.input ≡ none) × (cas.in_count ≡ dst.cas_maintained.in_count))
            ⊎ ((cas.output ≡ none) × (cas.out_count ≡ dst.cas_maintained.out_count)))
  unfolding copy_bridge_cfg
  copy_bridge_cfg_short false out_room h = ((laws.id_iff src.id src.id).1 refl, inl (refl, refl))
  copy_bridge_cfg_short true false h = ((laws.id_iff src.id src.id).1 refl, inr (refl, refl))
  copy_bridge_cfg_short true true h = absurd (ground arith)
