-- ===== src/Config/Listed.antt =====
-- Which bridges are in `ABs` after a round of the executer.
use vs_slns.Base.{
  ◌≡◌, refl, sym, ap, subst, ◌∙◌, ◌⊎◌, inl, inr, Bool, true, false, not, ◌&&◌, List, [], ◌∷◌, none,
  some, ◌==◌, if◌then◌else◌, arith, Bool-cases,
}
use vs_slns.BridgeConfig.{Types, Bcfg0, items}
use vs_slns.BridgeConfig.Compare.{Laws}
use vs_slns.Config.Ids.{
  listed, has_changed, dropped, ids, has_id, added, Distinct, apply_changes-listed, remove-listed,
  add-listed, same_sym,
}
use vs_slns.Config.Merge.{App}
use vs_slns.Config.Apply.{
  Options, Ab, apply_protocol_bridge_new_cfg_changes, remove_protocol_bridge,
  add_new_protocol_bridge, apply_changed, change_or_remove, is_old, add_missing, config_executer,
}

module _ (t : Types) (laws : Laws t) (opt : Options t) where
  -- What the inner loop for one old bridge does.
  pub record Applied (pbs : List (Ab t)) (o : Bcfg0 t) (news : List (Bcfg0 t)) (next : List (Ab t))
      (ms : List (Bcfg0 t)) : Type 0 where
    pub found : apply_changed t opt pbs o news ≡ some (next, ms)
    pub marked : has_changed t o.id news ≡ true
    pub keeps : (i : t.BridgeId) → listed t i next ≡ listed t i pbs
    pub same_ids : ids t ms ≡ ids t news
    pub others :
        (j : t.BridgeId) → t.id_same o.id j ≡ false → has_changed t j ms ≡ has_changed t j news

  pub apply_changed-cases :
      (pbs : List (Ab t)) (o : Bcfg0 t) (news : List (Bcfg0 t))
      → ((apply_changed t opt pbs o news ≡ none) × (has_changed t o.id news ≡ false))
        ⊎ ((next : List (Ab t)) × (ms : List (Bcfg0 t)) × Applied pbs o news next ms)
  unfolding apply_changed
  apply_changed-cases pbs o [] = inl (refl, refl)
  apply_changed-cases pbs o (n ∷ ns) =
      elim (Bool-cases (t.id_same o.id n.id && not (n.pcfg_changed == 0))) [
        | inl e ↦
            let r = apply_protocol_bridge_new_cfg_changes t opt pbs o n in
            let hit : t.id_same o.id n.id ≡ true = ground arith in
            let same : r.1.id ≡ n.id = (apply_changes-listed t laws opt o.id pbs o n).1 in
            inr (
              r.0,
              r.1 ∷ ns,
              record {
                found = rw e refl;
                marked = rw e refl;
                keeps = λ i. (apply_changes-listed t laws opt i pbs o n).0;
                same_ids = ap (λ j. j ∷ ids t ns) same;
                others = λ j f.
                    let away : t.id_same j n.id ≡ false =
                      ap (t.id_same j) (sym ((laws.id_iff o.id n.id).0 hit))
                      ∙ same_sym t laws j o.id
                      ∙ f in
                    let gone : t.id_same j r.1.id ≡ false = ap (t.id_same j) same ∙ away in
                    rw (away, gone) refl;
              },
            )
        | inr e ↦ elim (apply_changed-cases pbs o ns) [
          | inl (f, g) ↦ inl (rw (e, f) refl, rw e g)
          | inr (next, ms, a) ↦ inr (
            next,
            n ∷ ms,
            record {
              found = rw (e, a.found) refl;
              marked = rw e a.marked;
              keeps = a.keeps;
              same_ids = ap (λ js. n.id ∷ js) a.same_ids;
              others = λ j f.
                  ap (λ b. if t.id_same j n.id && not (n.pcfg_changed == 0) then true else b)
                    (a.others j f);
            },
          )
        ]
      ]

  pub dropped-cong :
      (i : t.BridgeId) (os ms ns : List (Bcfg0 t))
      → has_changed t i ms ≡ has_changed t i ns
      → dropped t i os ms ≡ dropped t i os ns
  dropped-cong i [] ms ns e = refl
  dropped-cong i (o ∷ os) ms ns e =
      ap (λ b. if t.id_same o.id i then not b else dropped t i os ms) e
      ∙ ap (λ b. if t.id_same o.id i then not (has_changed t i ns) else b)
          (dropped-cong i os ms ns e)

  pub not-dropped :
      (i : t.BridgeId) (os ns : List (Bcfg0 t)) → has_id t i os ≡ false → dropped t i os ns ≡ false
  not-dropped i [] ns e = refl
  not-dropped i (o ∷ os) ns e = ground (arith, same_sym t laws o.id i, not-dropped i os ns)

  -- The loop over the old bridges.
  change_or_remove-listed :
      (i : t.BridgeId) (olds : List (Bcfg0 t)) (pbs : List (Ab t)) (news : List (Bcfg0 t))
      → Distinct t olds
      → (listed t i (change_or_remove t opt olds pbs news).0
          ≡ (if dropped t i olds news then false else listed t i pbs))
        × (ids t (change_or_remove t opt olds pbs news).1 ≡ ids t news)
  unfolding change_or_remove
  change_or_remove-listed i [] pbs news d = (refl, refl)
  change_or_remove-listed i (o ∷ os) pbs news (fresh, d) = elim (apply_changed-cases pbs o news) [
    | inl (e, f) ↦
        let (r, k) = change_or_remove-listed i os (remove_protocol_bridge t opt pbs o).0 news d in
        (
          rw (e, change_or_remove)
              (r ∙ elim (Bool-cases (t.id_same o.id i)) [
                | inl same ↦
                    let h : has_id t i os ≡ false =
                      subst (λ j. has_id t j os ≡ false) ((laws.id_iff o.id i).0 same) fresh in
                    let u : has_changed t i news ≡ false =
                      subst (λ j. has_changed t j news ≡ false) ((laws.id_iff o.id i).0 same) f in
                    rw (not-dropped i os news h, same, u)
                      (remove-listed t laws opt i pbs o ∙ rw same refl)
                | inr ne ↦ rw ne (
                    ap (λ b. if dropped t i os news then false else b)
                      (remove-listed t laws opt i pbs o ∙ rw ne refl))
              ]),
          rw (e, change_or_remove) k,
        )
    | inr (next, ms, a) ↦
        let (r, k) = change_or_remove-listed i os next ms d in
        (
          rw (a.found, change_or_remove)
              (r
                ∙ ap (λ b. if dropped t i os ms then false else b) (a.keeps i)
                ∙ elim (Bool-cases (t.id_same o.id i)) [
                  | inl same ↦
                      let h : has_id t i os ≡ false =
                        subst (λ j. has_id t j os ≡ false) ((laws.id_iff o.id i).0 same) fresh in
                      let u : has_changed t i news ≡ true =
                        subst (λ j. has_changed t j news ≡ true) ((laws.id_iff o.id i).0 same)
                          a.marked in
                      rw (not-dropped i os ms h, same, u) refl
                  | inr ne ↦ rw ne (
                      ap (λ b. if b then false else listed t i pbs)
                        (dropped-cong i os ms news (a.others i ne)))
                ]),
          rw (a.found, change_or_remove) (k ∙ a.same_ids),
        )
  ]

  pub is_old-has_id :
      (n : Bcfg0 t) (olds : List (Bcfg0 t)) → is_old t opt n olds ≡ has_id t n.id olds
  unfolding is_old
  is_old-has_id n [] = refl
  is_old-has_id n (o ∷ os) = ap (λ b. if t.id_same n.id o.id then true else b) (is_old-has_id n os)

  -- The loop over the new bridges.
  add_missing-listed :
      (i : t.BridgeId) (free : Bcfg0 t) (a b : Bool) (olds : List (Bcfg0 t)) (pbs : List (Ab t))
      (ns : List (Bcfg0 t))
      → listed t i (add_missing t opt free a b olds pbs ns).0
        ≡ (if added t i olds (ids t ns) then true else listed t i pbs)
  unfolding add_missing
  add_missing-listed i free a b olds pbs [] = refl
  add_missing-listed i free a b olds pbs (n ∷ ns) = elim (Bool-cases (has_id t n.id olds)) [
    | inl e ↦
        rw (is_old-has_id n olds, e) (add_missing-listed i free a b olds pbs ns ∙ ground arith)
    | inr e ↦
        let next = (add_new_protocol_bridge t opt free a b pbs n).0 in
        rw (is_old-has_id n olds, e)
          (add_missing-listed i free a b olds next ns
            ∙ ground (arith, add-listed t laws opt i free a b pbs n))
  ]

  -- After a round of the executer a bridge has an entry in `ABs` exactly if it had one before and is
  -- not dropped, or it is added: dropped are those of the old settings that the new ones do not have
  -- marked as changed, added those of the new settings that the old ones do not have. No two old
  -- settings have one identity, and the executer was told of a change.
  pub config_executer-listed :
      (i : t.BridgeId) (free : Bcfg0 t) (a b : Bool) (app : App t) (pbs : List (Ab t))
      → Distinct t (items app.old_bdj_psv_cfg)
      → app.psv_cfg_changed ≡ true
      → listed t i (config_executer t opt free a b app pbs).0 ≡ (
          if added t i (items app.old_bdj_psv_cfg) (ids t (items app.bdj_psv_cfg))
          then true
          else if dropped t i (items app.old_bdj_psv_cfg) (items app.bdj_psv_cfg)
          then false
          else listed t i pbs)
  unfolding config_executer
  config_executer-listed i free a b app pbs d e =
      let olds = items app.old_bdj_psv_cfg in
      let news = items app.bdj_psv_cfg in
      let (kept, same) = change_or_remove-listed i olds pbs news d in
      let step = change_or_remove t opt olds pbs news in
      rw e (
        add_missing-listed i free a b olds step.0 step.1
        ∙ ap (λ js. if added t i olds js then true else listed t i step.0) same
        ∙ ap (λ x. if added t i olds (ids t news) then true else x) kept)

  pub not-added :
      (i : t.BridgeId) (olds : List (Bcfg0 t)) (js : List t.BridgeId)
      → has_id t i olds ≡ true
      → added t i olds js ≡ false
  not-added i olds [] h = refl
  not-added i olds (j ∷ js) h = elim (Bool-cases (t.id_same j i)) [
    | inl e ↦
        let old : has_id t j olds ≡ true =
          subst (λ k. has_id t k olds ≡ true) (sym ((laws.id_iff j i).0 e)) h in
        rw (e, old) (not-added i olds js h)
    | inr e ↦ rw e (not-added i olds js h)
  ]

  pub is-dropped :
      (i : t.BridgeId) (olds news : List (Bcfg0 t))
      → has_id t i olds ≡ true
      → has_changed t i news ≡ false
      → dropped t i olds news ≡ true
  is-dropped i [] news h u = cc
  is-dropped i (o ∷ os) news h u = ground (arith, same_sym t laws o.id i, is-dropped i os news)

  -- A bridge whose settings are in both files and not marked as changed is removed from `ABs`, and
  -- not added again, as soon as the executer is told of any change. No two old settings have one
  -- identity.
  pub config_executer_removes_unchanged :
      (i : t.BridgeId) (free : Bcfg0 t) (a b : Bool) (app : App t) (pbs : List (Ab t))
      → Distinct t (items app.old_bdj_psv_cfg)
      → app.psv_cfg_changed ≡ true
      → has_id t i (items app.old_bdj_psv_cfg) ≡ true
      → has_changed t i (items app.bdj_psv_cfg) ≡ false
      → listed t i (config_executer t opt free a b app pbs).0 ≡ false
  config_executer_removes_unchanged i free a b app pbs d e h u =
      let olds = items app.old_bdj_psv_cfg in
      let news = items app.bdj_psv_cfg in
      config_executer-listed i free a b app pbs d e
      ∙ rw (not-added i olds (ids t news) h, is-dropped i olds news h u) refl
