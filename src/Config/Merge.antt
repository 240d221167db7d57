-- ===== src/Config/Merge.antt =====
-- config_loader: the settings that were read replace those of before, and each bridge that they
-- change is marked.
use vs_slns.Base.{
  Bool, true, false, not, ◌||◌, List, [], ◌∷◌, Option, none, some, if◌then◌else◌, map,
}
use vs_slns.BridgeConfig.{Types, Bcfg0, bcfg0_id_equlity, bridge_cfg0_data_equlity}

module _ (t : Types) where
  -- `_g->appcfg`: the settings of the bridges, those of the file before, and the flag for the
  -- executer.
  pub record App : Type 0 where
    pub bdj_psv_cfg : Option (List (Bcfg0 t))
    pub old_bdj_psv_cfg : Option (List (Bcfg0 t))
    pub psv_cfg_changed : Bool

  abbrev pub mark : Bcfg0 t → Bcfg0 t
  mark c = record c { pcfg_changed = 1 }

  -- The inner loop over the new settings: the first of the same identity is marked if its data is
  -- another; with it, whether it is.
  unfoldable pub compare_old : Bcfg0 t → List (Bcfg0 t) → Option (Bool × List (Bcfg0 t))
  compare_old o [] = none
  compare_old o (n ∷ ns) =
      let rest : Option (Bool × List (Bcfg0 t)) = elim (compare_old o ns) [
        | none ↦ none
        | some (c, ms) ↦ some (c, n ∷ ms)
      ] in
      if bcfg0_id_equlity t o n
      then if not (bridge_cfg0_data_equlity t o n)
        then some (true, mark n ∷ ns)
        else some (false, n ∷ ns)
      else rest

  -- From the old perspective, up to the first bridge that is gone.
  unfoldable pub from_old :
      List (Bcfg0 t) → List (Bcfg0 t) → Bool → List (Bcfg0 t) × List (Bcfg0 t) × Bool
  from_old [] news changed = ([], news, changed)
  from_old (o ∷ os) news changed = elim (compare_old o news) [
    | none ↦ (mark o ∷ os, news, true)
    | some (c, ms) ↦
        let (olds, next, flag) = from_old os ms (changed || c) in (o ∷ olds, next, flag)
  ]

  -- The inner loop over the old settings: whether the first of the same identity has other data.
  unfoldable pub compare_new : List (Bcfg0 t) → Bcfg0 t → Option Bool
  compare_new [] n = none
  compare_new (o ∷ os) n =
      if bcfg0_id_equlity t o n
      then some (not (bridge_cfg0_data_equlity t o n))
      else compare_new os n

  -- From the new perspective, up to the first bridge that was not there.
  unfoldable pub from_new : List (Bcfg0 t) → List (Bcfg0 t) → Bool → List (Bcfg0 t) × Bool
  from_new olds [] changed = ([], changed)
  from_new olds (n ∷ ns) changed = elim (compare_new olds n) [
    | none ↦ (mark n ∷ ns, true)
    | some c ↦
        let (next, flag) = from_new olds ns (changed || c) in
        ((if c then mark n else n) ∷ next, flag)
  ]

  -- The settings that were read, `pProtocol_Bridges`, which is not null, take their place.
  unfoldable pub load_settings : List (Bcfg0 t) → App → App
  unfolding from_old from_new
  load_settings read app =
      let old : Option (List (Bcfg0 t)) = elim app.bdj_psv_cfg [
        | none ↦ app.old_bdj_psv_cfg
        | some cs ↦ some cs
      ] in
      elim old [
        | none ↦ record {
          bdj_psv_cfg = some (map mark read);
          old_bdj_psv_cfg = none;
          psv_cfg_changed = true;
        }
        | some os ↦
            let (olds, news, flag) = from_old os read app.psv_cfg_changed in
            let (last, changed) = from_new olds news flag in
            record {
              bdj_psv_cfg = some last;
              old_bdj_psv_cfg = some olds;
              psv_cfg_changed = changed;
            }
      ]
