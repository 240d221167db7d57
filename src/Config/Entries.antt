-- ===== src/Config/Entries.antt =====
-- The array of bridges after a round of the executer: who has an entry, and to whom settings were
-- applied.
use vs_slns.Base.{
  ◌≡◌, refl, sym, ap, subst, ◌∙◌, inl, inr, Bool, true, false, not, ◌&&◌, ◌||◌, List, [], ◌∷◌,
  Option, none, some, ◌==◌, if◌then◌else◌, arith, Bool-cases, map,
}
use vs_slns.BridgeConfig.{Types, Bcfg0, items}
use vs_slns.BridgeConfig.Compare.{Laws}
use vs_slns.Config.Ids.{
  listed, has_changed, dropped, ids, has_id, added, Distinct, apply_changes-listed, remove-listed,
  same_sym,
}
use vs_slns.Config.Listed.{
  is_old-has_id, apply_changed-cases, not-dropped, dropped-cong, config_executer-listed,
}
use vs_slns.Config.Applied.{live, apply_changes-live, remove-live, add-live}
use vs_slns.Config.Merge.{App}
use vs_slns.Config.Apply.{
  Options, Ab, apply_protocol_bridge_new_cfg_changes, remove_protocol_bridge,
  add_new_protocol_bridge, apply_changed, change_or_remove, add_missing, config_executer,
}

module _ (t : Types) (opt : Options t) where
  -- The first of the new settings that have the identity and are marked is enabled.
  abbrev pub on_change : t.BridgeId → List (Bcfg0 t) → Bool
  on_change i [] = false
  on_change i (n ∷ ns) =
      if t.id_same i n.id && not (n.pcfg_changed == 0)
      then opt.enable n.sol_maintained
      else on_change i ns

  -- Some of the new settings that the old ones do not have are of the identity and enabled.
  abbrev pub added_on : t.BridgeId → List (Bcfg0 t) → List (t.BridgeId × t.Solid) → Bool
  added_on i olds [] = false
  added_on i olds ((j, s) ∷ ns) =
      if t.id_same j i && (not (has_id t j olds) && opt.enable s) then true else added_on i olds ns

  abbrev pub keys : List (Bcfg0 t) → List (t.BridgeId × t.Solid)
  keys = map (λ c. (c.id, c.sol_maintained))

module _ (t : Types) (laws : Laws t) (opt : Options t) where
  add_missing-live :
      (i : t.BridgeId) (free : Bcfg0 t) (a b : Bool) (olds : List (Bcfg0 t)) (pbs : List (Ab t))
      (ns : List (Bcfg0 t))
      → live t i (add_missing t opt free a b olds pbs ns).0
        ≡ (live t i pbs || added_on t opt i olds (keys t opt ns))
  unfolding add_missing
  add_missing-live i free a b olds pbs [] = ground arith
  add_missing-live i free a b olds pbs (n ∷ ns) = elim (Bool-cases (has_id t n.id olds)) [
    | inl e ↦
        rw (is_old-has_id t laws opt n olds, e)
          (add_missing-live i free a b olds pbs ns ∙ ground arith)
    | inr e ↦
        let next = (add_new_protocol_bridge t opt free a b pbs n).0 in
        rw (is_old-has_id t laws opt n olds, e)
          (add_missing-live i free a b olds next ns
            ∙ ground (arith, add-live t laws opt i free a b pbs n))
  ]

  module _ (pbs : List (Ab t)) (o : Bcfg0 t) where
    -- What the inner loop for one old bridge leaves.
    abbrev Changed : List (Bcfg0 t) → Option (List (Ab t) × List (Bcfg0 t)) → Type 0
    Changed news none = Unit
    Changed news (some (next, ms)) =
        ((i : t.BridgeId)
          → live t i next
            ≡ (live t i pbs || (t.id_same o.id i && (on_change t opt o.id news && listed t i pbs))))
        × (keys t opt ms ≡ keys t opt news)
        × ((j : t.BridgeId)
            → t.id_same o.id j ≡ false
            → on_change t opt j ms ≡ on_change t opt j news)

    Changed-later :
        (n : Bcfg0 t) (ns : List (Bcfg0 t)) (x : Option (List (Ab t) × List (Bcfg0 t)))
        → (t.id_same o.id n.id && not (n.pcfg_changed == 0)) ≡ false
        → Changed ns x
        → Changed (n ∷ ns) (elim x [ none ↦ none | some (next, ms) ↦ some (next, n ∷ ms) ])
    Changed-later n ns none e c = tt
    Changed-later n ns (some (next, ms)) e (l, k, u) = (
      λ i. rw e (l i),
      ap (λ ks. (n.id, n.sol_maintained) ∷ ks) k,
      λ j f.
          ap
            (λ b.
              if t.id_same j n.id && not (n.pcfg_changed == 0)
              then opt.enable n.sol_maintained
              else b)
            (u j f),
    )

    apply_changed-Changed : (news : List (Bcfg0 t)) → Changed news (apply_changed t opt pbs o news)
    unfolding apply_changed
    apply_changed-Changed [] = tt
    apply_changed-Changed (n ∷ ns) =
        elim (Bool-cases (t.id_same o.id n.id && not (n.pcfg_changed == 0))) [
          | inl e ↦
              let r = apply_protocol_bridge_new_cfg_changes t opt pbs o n in
              let hit : t.id_same o.id n.id ≡ true = ground arith in
              let same : r.1.id ≡ n.id = (apply_changes-listed t laws opt o.id pbs o n).1 in
              rw e (
                λ i. rw e (apply_changes-live t laws opt i pbs o n).0,
                ap (λ j. (j, r.1.sol_maintained) ∷ keys t opt ns) same
                    ∙ ap (λ z. (n.id, z) ∷ keys t opt ns)
                        (apply_changes-live t laws opt o.id pbs o n).1,
                λ j f.
                    let away : t.id_same j n.id ≡ false =
                      ap (t.id_same j) (sym ((laws.id_iff o.id n.id).0 hit))
                      ∙ same_sym t laws j o.id
                      ∙ f in
                    let gone : t.id_same j r.1.id ≡ false = ap (t.id_same j) same ∙ away in
                    rw (away, gone) refl,
              )
          | inr e ↦
              rw e (Changed-later n ns (apply_changed t opt pbs o ns) e (apply_changed-Changed ns))
        ]

  -- One old bridge that is removed, and one whose change is applied, before the others.
  removed_first :
      (s s' d h c on l l' m m' : Bool)
      → s ≡ s'
      → (s ≡ true → (h ≡ false) × (c ≡ false) × (d ≡ false))
      → l' ≡ (if s then false else l)
      → m' ≡ (if s then false else m)
      → (if d then false else l' || (h && (on && m')))
        ≡ (if (if s then not c else d) then false else l || ((if s' then true else h) && (on && m)))
  removed_first true s' d h c on l l' m m' e f p q =
      rw (← e) (rw ((f refl).0, (f refl).1, (f refl).2, p) refl)
  removed_first false s' d h c on l l' m m' e f p q = rw (← e) (rw (p, q) refl)

  changed_first :
      (s s' d' d h c on_o on' on l l' m m' : Bool)
      → s ≡ s'
      → (s ≡ true → (h ≡ false) × (c ≡ true) × (d' ≡ false) × (on_o ≡ on))
      → (s ≡ false → (on' ≡ on) × (d' ≡ d))
      → l' ≡ (l || (s && (on_o && m)))
      → m' ≡ m
      → (if d' then false else l' || (h && (on' && m')))
        ≡ (if (if s then not c else d) then false else l || ((if s' then true else h) && (on && m)))
  changed_first true s' d' d h c on_o on' on l l' m m' e f g p q =
      let (f0, f1, f2, f3) = f refl in ground (arith, e, f0, f1, f2, f3, p)
  changed_first false s' d' d h c on_o on' on l l' m m' e f g p q =
      let (g0, g1) = g refl in ground (arith, e, g0, g1, p, q)

  -- The loop over the old bridges.
  change_or_remove-live :
      (i : t.BridgeId) (olds : List (Bcfg0 t)) (pbs : List (Ab t)) (news : List (Bcfg0 t))
      → Distinct t olds
      → (live t i (change_or_remove t opt olds pbs news).0 ≡ (
          if dropped t i olds news
          then false
          else live t i pbs || (has_id t i olds && (on_change t opt i news && listed t i pbs))))
        × (keys t opt (change_or_remove t opt olds pbs news).1 ≡ keys t opt news)
  unfolding change_or_remove
  change_or_remove-live i [] pbs news d = (ground arith, refl)
  change_or_remove-live i (o ∷ os) pbs news (fresh, d) =
      let turned = same_sym t laws o.id i in
      let fresh_i : t.id_same o.id i ≡ true → has_id t i os ≡ false =
        λ e. subst (λ j. has_id t j os ≡ false) ((laws.id_iff o.id i).0 e) fresh in
      elim (apply_changed-cases t laws opt pbs o news) [
        | inl (e, f) ↦
            let left = (remove_protocol_bridge t opt pbs o).0 in
            let (r, k) = change_or_remove-live i os left news d in
            let unmarked : t.id_same o.id i ≡ true → has_changed t i news ≡ false =
              λ g. subst (λ j. has_changed t j news ≡ false) ((laws.id_iff o.id i).0 g) f in
            (
              rw (e, change_or_remove)
                  (r
                    ∙ removed_first (t.id_same o.id i) (t.id_same i o.id) (dropped t i os news)
                        (has_id t i os) (has_changed t i news) (on_change t opt i news)
                        (live t i pbs) (live t i left) (listed t i pbs) (listed t i left) turned
                        (λ g. (fresh_i g, unmarked g, not-dropped t laws opt i os news (fresh_i g)))
                        (remove-live t laws opt i pbs o) (remove-listed t laws opt i pbs o)),
              rw (e, change_or_remove) k,
            )
        | inr (next, ms, a) ↦
            let (r, k) = change_or_remove-live i os next ms d in
            let (l, ks, u) =
              subst (Changed pbs o news) a.found (apply_changed-Changed pbs o news) in
            (
              rw (a.found, change_or_remove)
                  (r
                    ∙ changed_first (t.id_same o.id i) (t.id_same i o.id) (dropped t i os ms)
                        (dropped t i os news) (has_id t i os) (has_changed t i news)
                        (on_change t opt o.id news) (on_change t opt i ms) (on_change t opt i news)
                        (live t i pbs) (live t i next) (listed t i pbs) (listed t i next) turned
                        (λ g. (
                          fresh_i g,
                          subst (λ j. has_changed t j news ≡ true) ((laws.id_iff o.id i).0 g)
                              a.marked,
                          not-dropped t laws opt i os ms (fresh_i g),
                          ap (λ j. on_change t opt j news) ((laws.id_iff o.id i).0 g),
                        ))
                        (λ g. (u i g, dropped-cong t laws opt i os ms news (a.others i g))) (l i)
                        (a.keeps i)),
              rw (a.found, change_or_remove) (k ∙ ks),
            )
      ]

  -- After a round of the executer a bridge has an entry in `ABs` exactly if it had one before and is
  -- not dropped, or it is added; and it has one to which settings were applied, past the test that they
  -- are enabled, exactly if it is added with settings that are enabled, or it is not dropped and either
  -- such an entry was there before, or one was there, the old settings have it, and the first new
  -- settings of it that are marked are enabled. Dropped are those of the old settings that the new ones
  -- do not have marked as changed, added those of the new settings that the old ones do not have. No two
  -- old settings have one identity, and the executer was told of a change.
  pub config_executer-entries :
      (i : t.BridgeId) (free : Bcfg0 t) (a b : Bool) (app : App t) (pbs : List (Ab t))
      → Distinct t (items app.old_bdj_psv_cfg)
      → app.psv_cfg_changed ≡ true
      → let olds = items app.old_bdj_psv_cfg in
        let news = items app.bdj_psv_cfg in
        let after = (config_executer t opt free a b app pbs).0 in
        (listed t i after ≡ (
          if added t i olds (ids t news)
          then true
          else if dropped t i olds news
          then false
          else listed t i pbs))
        × (live t i after ≡ (
            (if dropped t i olds news
              then false
              else live t i pbs || (has_id t i olds && (on_change t opt i news && listed t i pbs)))
            || added_on t opt i olds (keys t opt news)))
  unfolding config_executer
  config_executer-entries i free a b app pbs d e =
      let olds = items app.old_bdj_psv_cfg in
      let news = items app.bdj_psv_cfg in
      let (kept, same) = change_or_remove-live i olds pbs news d in
      let step = change_or_remove t opt olds pbs news in
      (
        config_executer-listed t laws opt i free a b app pbs d e,
        rw e (
            add_missing-live i free a b olds step.0 step.1
            ∙ ap (λ ks. live t i step.0 || added_on t opt i olds ks) same
            ∙ ap (λ x. x || added_on t opt i olds (keys t opt news)) kept),
      )
