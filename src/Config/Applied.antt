-- ===== src/Config/Applied.antt =====
-- To which bridges settings were applied after a round of the executer.
use vs_slns.Base.{
  ℕ, ◌+◌, ◌≡◌, refl, sym, ap, ◌∙◌, inl, inr, Bool, true, false, not, ◌&&◌, ◌||◌, List, [], ◌∷◌,
  ◌++◌, ◌==◌, if◌then◌else◌, arith, Bool-cases,
}
use vs_slns.BridgeConfig.{Types, Bcfg0, copy_bridge_cfg}
use vs_slns.BridgeConfig.Compare.{Laws}
use vs_slns.Config.Ids.{listed, same_trans, append-listed, copy-id}
use vs_slns.Config.Apply.{
  Options, Ab, apply_new_protocol_bridge_config, apply_protocol_bridge_new_cfg_changes,
  remove_protocol_bridge, add_new_protocol_bridge,
}

module _ (t : Types) where
  -- A bridge of the identity is in the array, and settings were applied to it.
  abbrev pub live : t.BridgeId → List (Ab t) → Bool
  live i [] = false
  live i (pb ∷ pbs) =
      if t.id_same pb.cpy_cfg.id i && not (pb.applied == 0) then true else live i pbs

module _ (t : Types) (laws : Laws t) (opt : Options t) where
  after_one :
      (a e l ls : Bool) (n m : ℕ) (r : Bool)
      → (e ≡ true → m ≡ n + 1)
      → (e ≡ false → m ≡ n)
      → r ≡ (l || (a && (e && ls)))
      → (if a && not (m == 0) then true else r)
        ≡ ((if a && not (n == 0) then true else l) || (a && (e && (if a then true else ls))))
  after_one a e l ls n m r f g h = ground (arith, f, g, h)

  not_one :
      (a p e l ls : Bool) (n : ℕ) (r : Bool)
      → (p ≡ true → a ≡ false)
      → r ≡ (l || (p && (e && ls)))
      → (if a && not (n == 0) then true else r)
        ≡ ((if a && not (n == 0) then true else l) || (p && (e && (if a then true else ls))))
  not_one a p e l ls n r f h = ground (arith, f, h)

  apply_new-live :
      (pb : Ab t) (n : Bcfg0 t)
      → let r = apply_new_protocol_bridge_config t opt pb n in
        (r.0.cpy_cfg ≡ pb.cpy_cfg)
        × (r.1.sol_maintained ≡ n.sol_maintained)
        × (opt.enable n.sol_maintained ≡ true → r.0.applied ≡ pb.applied + 1)
        × (opt.enable n.sol_maintained ≡ false → r.0.applied ≡ pb.applied)
  unfolding apply_new_protocol_bridge_config
  apply_new-live pb n = elim (Bool-cases (opt.enable n.sol_maintained)) [
    | inl e ↦ rw e (refl, refl, (λ _. refl), λ f. cc)
    | inr e ↦ rw e (refl, refl, (λ f. cc), λ _. refl)
  ]

  pub apply_changes-live :
      (i : t.BridgeId) (pbs : List (Ab t)) (prev n : Bcfg0 t)
      → (live t i (apply_protocol_bridge_new_cfg_changes t opt pbs prev n).0 ≡ (
          live t i pbs || (t.id_same prev.id i && (opt.enable n.sol_maintained && listed t i pbs))))
        × ((apply_protocol_bridge_new_cfg_changes t opt pbs prev n).1.sol_maintained
            ≡ n.sol_maintained)
  unfolding apply_protocol_bridge_new_cfg_changes
  apply_changes-live i [] prev n = (ground arith, refl)
  apply_changes-live i (pb ∷ pbs) prev n = elim (Bool-cases (t.id_same pb.cpy_cfg.id prev.id)) [
    | inl e ↦
        let r = apply_new_protocol_bridge_config t opt pb n in
        let (x, y, f, g) = apply_new-live pb n in
        let (h, k) = apply_changes-live i pbs prev r.1 in
        let st = same_trans t laws pb.cpy_cfg.id prev.id i e in
        let on = opt.enable n.sol_maintained in
        let rest = live t i (apply_protocol_bridge_new_cfg_changes t opt pbs prev r.1).0 in
        let a = t.id_same pb.cpy_cfg.id i in
        let own = live t i (pb ∷ pbs) in
        let h' : rest ≡ (live t i pbs || (a && (on && listed t i pbs))) =
          h
          ∙ ap (λ z. live t i pbs || (t.id_same prev.id i && (opt.enable z && listed t i pbs))) y
          ∙ ap (λ z. live t i pbs || (z && (on && listed t i pbs))) (sym st) in
        rw e (
          ap (λ c. if t.id_same c.id i && not (r.0.applied == 0) then true else rest) x
              ∙ after_one a on (live t i pbs) (listed t i pbs) pb.applied r.0.applied rest f g h'
              ∙ ap (λ z. own || (z && (on && listed t i (pb ∷ pbs)))) st,
          k ∙ y,
        )
    | inr e ↦
        let (h, k) = apply_changes-live i pbs prev n in
        let apart : t.id_same prev.id i ≡ true → t.id_same pb.cpy_cfg.id i ≡ false =
          λ f. ap (t.id_same pb.cpy_cfg.id) (sym ((laws.id_iff prev.id i).0 f)) ∙ e in
        rw e (
          not_one (t.id_same pb.cpy_cfg.id i) (t.id_same prev.id i) (opt.enable n.sol_maintained)
              (live t i pbs) (listed t i pbs) pb.applied _ apart h,
          k,
        )
  ]

  pub remove-live :
      (i : t.BridgeId) (pbs : List (Ab t)) (c : Bcfg0 t)
      → live t i (remove_protocol_bridge t opt pbs c).0
        ≡ (if t.id_same c.id i then false else live t i pbs)
  unfolding remove_protocol_bridge
  remove-live i [] c = elim (Bool-cases (t.id_same c.id i)) [
    | inl e ↦ rw e refl
    | inr e ↦ rw e refl
  ]
  remove-live i (pb ∷ pbs) c = elim (Bool-cases (t.id_same pb.cpy_cfg.id c.id)) [
    | inl e ↦ ground (arith, same_trans t laws pb.cpy_cfg.id c.id i e, remove-live i pbs c)
    | inr e ↦
        let apart : t.id_same c.id i ≡ true → t.id_same pb.cpy_cfg.id i ≡ false =
          λ f. ap (t.id_same pb.cpy_cfg.id) (sym ((laws.id_iff c.id i).0 f)) ∙ e in
        ground (arith, apart, remove-live i pbs c)
  ]

  append-live :
      (i : t.BridgeId) (pbs : List (Ab t)) (pb : Ab t)
      → pb.applied ≡ 0
      → live t i (pbs ++ (pb ∷ [])) ≡ live t i pbs
  append-live i [] pb e = ground (arith, e)
  append-live i (p ∷ pbs) pb e = ground (arith, append-live i pbs pb e)

  pub add-live :
      (i : t.BridgeId) (free : Bcfg0 t) (a b : Bool) (pbs : List (Ab t)) (n : Bcfg0 t)
      → live t i (add_new_protocol_bridge t opt free a b pbs n).0
        ≡ (live t i pbs || (t.id_same n.id i && opt.enable n.sol_maintained))
  unfolding add_new_protocol_bridge
  add-live i free a b pbs n =
      let pb : Ab t = record { cpy_cfg = copy_bridge_cfg t a b free n; applied = 0 } in
      let l = append-listed t laws opt i pbs pb in
      let same = copy-id t laws opt a b free n in
      let there : listed t i (pbs ++ (pb ∷ []))
          ≡ (if t.id_same n.id i then true else listed t i pbs) =
        l ∙ ap (λ j. if t.id_same j i then true else listed t i pbs) same in
      (apply_changes-live i (pbs ++ (pb ∷ [])) n n).0
      ∙ ground (arith, append-live i pbs pb refl, there)
