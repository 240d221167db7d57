-- ===== src/Config/Ids.antt =====
-- Which identities have a bridge in `ABs`, are marked, dropped or added; and what applying, removing and adding one
-- bridge do to them.
use vs_slns.Base.{
  ◌≡◌, refl, sym, ap, ◌∙◌, inl, inr, Bool, true, false, not, ◌&&◌, List, [], ◌∷◌, ◌++◌, ◌==◌,
  if◌then◌else◌, map, arith, Bool-cases,
}
use vs_slns.BridgeConfig.{Types, Bcfg0, copy_bridge_cfg}
use vs_slns.BridgeConfig.Compare.{Laws}
use vs_slns.Config.Apply.{
  Options, Ab, apply_new_protocol_bridge_config, apply_protocol_bridge_new_cfg_changes,
  remove_protocol_bridge, add_new_protocol_bridge,
}

module _ (t : Types) where
  -- A bridge of the identity is in the array.
  abbrev pub listed : t.BridgeId → List (Ab t) → Bool
  listed i [] = false
  listed i (pb ∷ pbs) = if t.id_same pb.cpy_cfg.id i then true else listed i pbs

  -- The new settings have it, and marked.
  abbrev pub has_changed : t.BridgeId → List (Bcfg0 t) → Bool
  has_changed i [] = false
  has_changed i (n ∷ ns) =
      if t.id_same i n.id && not (n.pcfg_changed == 0) then true else has_changed i ns

  -- The old settings have it, and the new ones do not have it marked.
  abbrev pub dropped : t.BridgeId → List (Bcfg0 t) → List (Bcfg0 t) → Bool
  dropped i [] news = false
  dropped i (o ∷ os) news = if t.id_same o.id i then not (has_changed i news) else dropped i os news

  abbrev pub ids : List (Bcfg0 t) → List t.BridgeId
  ids = map (λ c. c.id)

  abbrev pub has_id : t.BridgeId → List (Bcfg0 t) → Bool
  has_id i [] = false
  has_id i (c ∷ cs) = if t.id_same i c.id then true else has_id i cs

  -- The new settings have it, and the old ones do not.
  abbrev pub added : t.BridgeId → List (Bcfg0 t) → List t.BridgeId → Bool
  added i olds [] = false
  added i olds (n ∷ ns) = if t.id_same n i && not (has_id n olds) then true else added i olds ns

  -- No two settings have one identity.
  abbrev pub Distinct : List (Bcfg0 t) → Type 0
  Distinct [] = Unit
  Distinct (c ∷ cs) = (has_id c.id cs ≡ false) × Distinct cs

module _ (t : Types) (laws : Laws t) where
  pub same_trans : (a b c : t.BridgeId) → t.id_same a b ≡ true → t.id_same a c ≡ t.id_same b c
  same_trans a b c e = ap (λ x. t.id_same x c) ((laws.id_iff a b).0 e)

  same_refl : (a : t.BridgeId) → t.id_same a a ≡ true
  same_refl a = (laws.id_iff a a).1 refl

  pub same_sym : (a b : t.BridgeId) → t.id_same a b ≡ t.id_same b a
  same_sym a b = elim (Bool-cases (t.id_same a b)) [
    | inl e ↦ e ∙ sym ((laws.id_iff b a).1 (sym ((laws.id_iff a b).0 e)))
    | inr e ↦ elim (Bool-cases (t.id_same b a)) [
      | inl f ↦ absurd (cc ((laws.id_iff a b).1 (sym ((laws.id_iff b a).0 f))))
      | inr f ↦ e ∙ sym f
    ]
  ]

module _ (t : Types) (laws : Laws t) (opt : Options t) where
  apply_new-id :
      (pb : Ab t) (n : Bcfg0 t)
      → ((apply_new_protocol_bridge_config t opt pb n).0.cpy_cfg ≡ pb.cpy_cfg)
        × ((apply_new_protocol_bridge_config t opt pb n).1.id ≡ n.id)
  unfolding apply_new_protocol_bridge_config
  apply_new-id pb n = elim (Bool-cases (opt.enable n.sol_maintained)) [
    | inl e ↦ rw e (refl, refl)
    | inr e ↦ rw e (refl, refl)
  ]

  one_step-id :
      (b : Bool) (pb : Ab t) (n : Bcfg0 t)
      → ((if b then apply_new_protocol_bridge_config t opt pb n else (pb, n)).0.cpy_cfg.id
          ≡ pb.cpy_cfg.id)
        × ((if b then apply_new_protocol_bridge_config t opt pb n else (pb, n)).1.id ≡ n.id)
  one_step-id true pb n = let (e, f) = apply_new-id pb n in (ap (λ c. c.id) e, f)
  one_step-id false pb n = (refl, refl)

  -- Applying settings keeps which bridges are in the array.
  pub apply_changes-listed :
      (i : t.BridgeId) (pbs : List (Ab t)) (prev n : Bcfg0 t)
      → (listed t i (apply_protocol_bridge_new_cfg_changes t opt pbs prev n).0 ≡ listed t i pbs)
        × ((apply_protocol_bridge_new_cfg_changes t opt pbs prev n).1.id ≡ n.id)
  unfolding apply_protocol_bridge_new_cfg_changes
  apply_changes-listed i [] prev n = (refl, refl)
  apply_changes-listed i (pb ∷ pbs) prev n =
      let step : Ab t × Bcfg0 t =
        if t.id_same pb.cpy_cfg.id prev.id
        then apply_new_protocol_bridge_config t opt pb n
        else (pb, n) in
      let (e, f) = one_step-id (t.id_same pb.cpy_cfg.id prev.id) pb n in
      let (g, h) = apply_changes-listed i pbs prev step.1 in
      (
        ap
              (λ j.
                if t.id_same j i
                then true
                else listed t i (apply_protocol_bridge_new_cfg_changes t opt pbs prev step.1).0)
              e
            ∙ ap (λ b. if t.id_same pb.cpy_cfg.id i then true else b) g,
        h ∙ f,
      )

  -- A removal takes the bridges of its identity, and no other.
  pub remove-listed :
      (i : t.BridgeId) (pbs : List (Ab t)) (c : Bcfg0 t)
      → listed t i (remove_protocol_bridge t opt pbs c).0
        ≡ (if t.id_same c.id i then false else listed t i pbs)
  unfolding remove_protocol_bridge
  remove-listed i [] c = elim (Bool-cases (t.id_same c.id i)) [
    | inl e ↦ rw e refl
    | inr e ↦ rw e refl
  ]
  remove-listed i (pb ∷ pbs) c = elim (Bool-cases (t.id_same pb.cpy_cfg.id c.id)) [
    | inl e ↦ ground (arith, same_trans t laws pb.cpy_cfg.id c.id i e, remove-listed i pbs c)
    | inr e ↦
        let apart : t.id_same c.id i ≡ true → t.id_same pb.cpy_cfg.id i ≡ false =
          λ f. ap (t.id_same pb.cpy_cfg.id) (sym ((laws.id_iff c.id i).0 f)) ∙ e in
        ground (arith, apart, remove-listed i pbs c)
  ]

  pub append-listed :
      (i : t.BridgeId) (pbs : List (Ab t)) (pb : Ab t)
      → listed t i (pbs ++ (pb ∷ [])) ≡ (if t.id_same pb.cpy_cfg.id i then true else listed t i pbs)
  append-listed i [] pb = refl
  append-listed i (p ∷ pbs) pb = ground (arith, append-listed i pbs pb)

  pub copy-id : (a b : Bool) (d s : Bcfg0 t) → (copy_bridge_cfg t a b d s).id ≡ s.id
  unfolding copy_bridge_cfg
  copy-id true true d s = refl
  copy-id true false d s = refl
  copy-id false b d s = refl

  pub add-listed :
      (i : t.BridgeId) (free : Bcfg0 t) (a b : Bool) (pbs : List (Ab t)) (n : Bcfg0 t)
      → listed t i (add_new_protocol_bridge t opt free a b pbs n).0
        ≡ (if t.id_same n.id i then true else listed t i pbs)
  unfolding add_new_protocol_bridge
  add-listed i free a b pbs n =
      let pb : Ab t = record { cpy_cfg = copy_bridge_cfg t a b free n; applied = 0 } in
      (apply_changes-listed i (pbs ++ (pb ∷ [])) n n).0
      ∙ append-listed i pbs pb
      ∙ ap (λ j. if t.id_same j i then true else listed t i pbs) (copy-id a b free n)
