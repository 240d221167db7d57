-- ===== src/Config/Apply.antt =====
-- config_executer: the settings of the bridges in `ABs` are changed, and bridges removed and added.
use vs_slns.Base.{
  ℕ, ◌+◌, ◌==◌, Bool, true, false, not, ◌&&◌, List, [], ◌∷◌, ◌++◌, Option, none, some,
  if◌then◌else◌,
}
use vs_slns.BridgeConfig.{Types, Bcfg0, bcfg0_id_equlity, copy_bridge_cfg, items}
use vs_slns.Config.Merge.{App}

-- What is done with the single options of a bridge: `sol_maintained.enable`, read and set to 0.
pub record Options (t : Types) : Type 0 where
  pub enable : t.Solid → Bool
  pub disable : t.Solid → t.Solid

-- A bridge in the array `ABs`: its copy of the settings, and the calls of `apply_new_protocol_bridge_config`
-- that went past its first test. What they start belongs to Bridge.c.
pub record Ab (t : Types) : Type 0 where
  pub cpy_cfg : Bcfg0 t
  pub applied : ℕ

module _ (t : Types) (opt : Options t) where
  unfoldable pub apply_new_protocol_bridge_config : Ab t → Bcfg0 t → Ab t × Bcfg0 t
  apply_new_protocol_bridge_config pb new_ccfg =
      if not (opt.enable new_ccfg.sol_maintained)
      then (pb, new_ccfg)
      else (record pb { applied = pb.applied + 1 }, record new_ccfg { pcfg_changed = 0 })

  -- The settings that are applied are those of the bridge itself.
  unfoldable pub stop_protocol_bridge : Ab t → Ab t
  stop_protocol_bridge pb =
      let own = record pb.cpy_cfg {
        sol_maintained = opt.disable pb.cpy_cfg.sol_maintained;
        pcfg_changed = 1;
      } in
      let (next, cfg) = apply_new_protocol_bridge_config (record pb { cpy_cfg = own }) own in
      record next { cpy_cfg = cfg }

  unfoldable pub apply_protocol_bridge_new_cfg_changes :
      List (Ab t) → Bcfg0 t → Bcfg0 t → List (Ab t) × Bcfg0 t
  apply_protocol_bridge_new_cfg_changes [] prev new_ccfg = ([], new_ccfg)
  apply_protocol_bridge_new_cfg_changes (pb ∷ pbs) prev new_ccfg =
      let (next, cfg) =
        if bcfg0_id_equlity t pb.cpy_cfg prev
        then apply_new_protocol_bridge_config pb new_ccfg
        else (pb, new_ccfg) in
      let (rest, last) = apply_protocol_bridge_new_cfg_changes pbs prev cfg in (next ∷ rest, last)

  -- From the last bridge to the first: one of the identity is stopped and then deleted. The bridges
  -- that are left, and the deleted ones as the stop left them.
  unfoldable pub remove_protocol_bridge : List (Ab t) → Bcfg0 t → List (Ab t) × List (Ab t)
  remove_protocol_bridge [] pcfg = ([], [])
  remove_protocol_bridge (pb ∷ pbs) pcfg =
      let (kept, gone) = remove_protocol_bridge pbs pcfg in
      if bcfg0_id_equlity t pb.cpy_cfg pcfg
      then (kept, stop_protocol_bridge pb ∷ gone)
      else (pb ∷ kept, gone)

  -- A free item of the array has the settings `free`; the flags are the two allocations'.
  unfoldable pub add_new_protocol_bridge :
      Bcfg0 t → Bool → Bool → List (Ab t) → Bcfg0 t → List (Ab t) × Bcfg0 t
  add_new_protocol_bridge free in_room out_room pbs new_ccfg =
      let pb : Ab t = record {
        cpy_cfg = copy_bridge_cfg t in_room out_room free new_ccfg;
        applied = 0;
      } in
      apply_protocol_bridge_new_cfg_changes (pbs ++ (pb ∷ [])) new_ccfg new_ccfg

  -- The inner loop for one old bridge: the first new one of its identity that is marked.
  unfoldable pub apply_changed :
      List (Ab t) → Bcfg0 t → List (Bcfg0 t) → Option (List (Ab t) × List (Bcfg0 t))
  apply_changed pbs o [] = none
  apply_changed pbs o (n ∷ ns) =
      let rest : Option (List (Ab t) × List (Bcfg0 t)) = elim (apply_changed pbs o ns) [
        | none ↦ none
        | some (next, ms) ↦ some (next, n ∷ ms)
      ] in
      if bcfg0_id_equlity t o n && not (n.pcfg_changed == 0)
      then (let (next, cfg) = apply_protocol_bridge_new_cfg_changes pbs o n in
          some (next, cfg ∷ ns))
      else rest

  -- The loop over the old bridges.
  unfoldable pub change_or_remove :
      List (Bcfg0 t) → List (Ab t) → List (Bcfg0 t) → List (Ab t) × List (Bcfg0 t)
  change_or_remove [] pbs news = (pbs, news)
  change_or_remove (o ∷ os) pbs news = elim (apply_changed pbs o news) [
    | none ↦ change_or_remove os (remove_protocol_bridge pbs o).0 news
    | some (next, ms) ↦ change_or_remove os next ms
  ]

  unfoldable pub is_old : Bcfg0 t → List (Bcfg0 t) → Bool
  is_old n [] = false
  is_old n (o ∷ os) = if bcfg0_id_equlity t n o then true else is_old n os

  -- The loop over the new bridges.
  unfoldable pub add_missing :
      Bcfg0 t
      → Bool
      → Bool
      → List (Bcfg0 t)
      → List (Ab t)
      → List (Bcfg0 t)
      → List (Ab t) × List (Bcfg0 t)
  add_missing free in_room out_room olds pbs [] = (pbs, [])
  add_missing free in_room out_room olds pbs (n ∷ ns) =
      let (next, cfg) =
        if is_old n olds then (pbs, n) else add_new_protocol_bridge free in_room out_room pbs n in
      let (last, rest) = add_missing free in_room out_room olds next ns in (last, cfg ∷ rest)

  -- One round of the executer.
  unfoldable pub config_executer : Bcfg0 t → Bool → Bool → App t → List (Ab t) → List (Ab t) × App t
  config_executer free in_room out_room app pbs =
      let olds = items app.old_bdj_psv_cfg in
      let (kept, news) = change_or_remove olds pbs (items app.bdj_psv_cfg) in
      let (all, last) = add_missing free in_room out_room olds kept news in
      if app.psv_cfg_changed
      then (all, record app { bdj_psv_cfg = some last; psv_cfg_changed = false })
      else (pbs, app)
