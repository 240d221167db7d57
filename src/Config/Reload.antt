-- ===== src/Config/Reload.antt =====
-- A new file with the bridges of the old one, read by config_loader and applied by config_executer.
use vs_slns.Base.{
  ◌≡◌, refl, sym, ap, ◌∙◌, inl, inr, Bool, true, false, not, ◌&&◌, ◌||◌, List, [], ◌∷◌, some, ◌==◌,
  if◌then◌else◌, map, arith, Bool-cases,
}
use vs_slns.BridgeConfig.{Types, Bcfg0}
use vs_slns.BridgeConfig.Compare.{Laws}
use vs_slns.Config.Merge.{App, mark, load_settings}
use vs_slns.Config.Apply.{Options, Ab, config_executer}
use vs_slns.Config.Ids.{listed, has_changed, dropped, ids, has_id, added, Distinct, same_sym}
use vs_slns.Config.Applied.{live}
use vs_slns.Config.Entries.{on_change, added_on, keys, config_executer-entries}
use vs_slns.Config.Marks.{differs, any_differs, touched, Present, load_settings-marks}

module _ (t : Types) where
  -- The file has the identity with other settings than before.
  abbrev pub changed_at : t.BridgeId → List (Bcfg0 t) → List (Bcfg0 t) → Bool
  changed_at i olds [] = false
  changed_at i olds (n ∷ ns) =
      if t.id_same i n.id && differs t olds n then true else changed_at i olds ns

  -- The first of the read settings of the identity that are other than before is enabled.
  abbrev pub enabled_at : Options t → t.BridgeId → List (Bcfg0 t) → List (Bcfg0 t) → Bool
  enabled_at opt i olds [] = false
  enabled_at opt i olds (n ∷ ns) =
      if t.id_same i n.id && differs t olds n
      then opt.enable n.sol_maintained
      else enabled_at opt i olds ns

  -- The reader marks nothing.
  abbrev pub Unmarked : List (Bcfg0 t) → Type 0
  Unmarked [] = Unit
  Unmarked (n ∷ ns) = (n.pcfg_changed ≡ 0) × Unmarked ns

module _ (t : Types) (laws : Laws t) (opt : Options t) where
  mark_if :
      (b : Bool) (n : Bcfg0 t)
      → n.pcfg_changed ≡ 0
      → ((if b then mark t n else n).id ≡ n.id)
        × (not ((if b then mark t n else n).pcfg_changed == 0) ≡ b)
  mark_if true n e = (refl, refl)
  mark_if false n e = (refl, rw e refl)

  touched-has_changed :
      (i : t.BridgeId) (olds read : List (Bcfg0 t))
      → Unmarked t read
      → has_changed t i (map (touched t olds) read) ≡ changed_at t i olds read
  touched-has_changed i olds [] u = refl
  touched-has_changed i olds (n ∷ ns) (e, u) =
      let (same, marked) = mark_if (differs t olds n) n e in
      let m = touched t olds n in
      let rest = has_changed t i (map (touched t olds) ns) in
      ap (λ j. if t.id_same i j && not (m.pcfg_changed == 0) then true else rest) same
      ∙ ap (λ b. if t.id_same i n.id && b then true else rest) marked
      ∙ ap (λ b. if t.id_same i n.id && differs t olds n then true else b)
          (touched-has_changed i olds ns u)

  dropped-changed :
      (i : t.BridgeId) (olds news : List (Bcfg0 t))
      → has_id t i olds ≡ true
      → dropped t i olds news ≡ not (has_changed t i news)
  dropped-changed i [] news h = cc
  dropped-changed i (o ∷ os) news h =
      ground (arith, same_sym t laws o.id i, dropped-changed i os news)

  dropped-other :
      (i : t.BridgeId) (olds news : List (Bcfg0 t))
      → has_id t i olds ≡ false
      → dropped t i olds news ≡ false
  dropped-other i [] news h = refl
  dropped-other i (o ∷ os) news h = ground (arith, same_sym t laws o.id i, dropped-other i os news)

  touched_id : (b : Bool) (n : Bcfg0 t) → (if b then mark t n else n).id ≡ n.id
  touched_id true n = refl
  touched_id false n = refl

  rest_of : (a b r : Bool) → b ≡ true → (if a && not b then true else r) ≡ r
  rest_of a b r e = ground (arith, e)

  none-added :
      (i : t.BridgeId) (olds read : List (Bcfg0 t))
      → Present t read olds
      → added t i olds (ids t (map (touched t olds) read)) ≡ false
  none-added i olds [] p = refl
  none-added i olds (n ∷ ns) (h, p) =
      let m = touched t olds n in
      let old : has_id t m.id olds ≡ true =
        ap (λ j. has_id t j olds) (touched_id (differs t olds n) n) ∙ h in
      rest_of (t.id_same m.id i) (has_id t m.id olds)
        (added t i olds (ids t (map (touched t olds) ns))) old
      ∙ none-added i olds ns p

  touched_options :
      (b : Bool) (n : Bcfg0 t) → (if b then mark t n else n).sol_maintained ≡ n.sol_maintained
  touched_options true n = refl
  touched_options false n = refl

  touched-on_change :
      (i : t.BridgeId) (olds read : List (Bcfg0 t))
      → Unmarked t read
      → on_change t opt i (map (touched t olds) read) ≡ enabled_at t opt i olds read
  touched-on_change i olds [] u = refl
  touched-on_change i olds (n ∷ ns) (e, u) =
      let (same, marked) = mark_if (differs t olds n) n e in
      let m = touched t olds n in
      let rest = on_change t opt i (map (touched t olds) ns) in
      let own = opt.enable m.sol_maintained in
      ap (λ j. if t.id_same i j && not (m.pcfg_changed == 0) then own else rest) same
      ∙ ap (λ b. if t.id_same i n.id && b then own else rest) marked
      ∙ ap (λ z. if t.id_same i n.id && differs t olds n then opt.enable z else rest)
          (touched_options (differs t olds n) n)
      ∙ ap (λ b. if t.id_same i n.id && differs t olds n then opt.enable n.sol_maintained else b)
          (touched-on_change i olds ns u)

  none-added_on :
      (i : t.BridgeId) (olds read : List (Bcfg0 t))
      → Present t read olds
      → added_on t opt i olds (keys t opt (map (touched t olds) read)) ≡ false
  none-added_on i olds [] p = refl
  none-added_on i olds (n ∷ ns) (h, p) =
      let m = touched t olds n in
      let old : has_id t m.id olds ≡ true =
        ap (λ j. has_id t j olds) (touched_id (differs t olds n) n) ∙ h in
      ground (arith, old, none-added_on i olds ns p)

  -- A file with the bridges of the one before and no other is read and applied, and it has settings
  -- that changed. Then exactly those bridges still have an entry in `ABs` that had one before and whose
  -- settings changed, or that neither file has: the entry of every bridge that the file leaves as it
  -- was is deleted. And exactly those have an entry to which settings were applied that had such an
  -- entry before and are not deleted, or that had an entry and whose settings changed to ones that are
  -- enabled. No two settings have one identity, and the reader marks nothing.
  pub reload-entries :
      (i : t.BridgeId) (free : Bcfg0 t) (a b : Bool) (cs read : List (Bcfg0 t)) (app : App t)
      (pbs : List (Ab t))
      → app.bdj_psv_cfg ≡ some cs
      → Distinct t cs
      → Present t cs read
      → Present t read cs
      → Unmarked t read
      → any_differs t cs read ≡ true
      → let after = (config_executer t opt free a b (load_settings t read app) pbs).0 in
        (listed t i after ≡ (listed t i pbs && (changed_at t i cs read || not (has_id t i cs))))
        × (live t i after ≡ (
            if has_id t i cs
            then changed_at t i cs read
              && (live t i pbs || (enabled_at t opt i cs read && listed t i pbs))
            else live t i pbs))
  reload-entries i free a b cs read app pbs e d p q u c =
      let loaded : App t = record {
        bdj_psv_cfg = some (map (touched t cs) read);
        old_bdj_psv_cfg = some cs;
        psv_cfg_changed = app.psv_cfg_changed || any_differs t cs read;
      } in
      let marks = load_settings-marks t laws cs read app e d p q in
      let told : loaded.psv_cfg_changed ≡ true = ground (arith, c) in
      let news = map (touched t cs) read in
      let (k, l) = config_executer-entries t laws opt i free a b loaded pbs d told in
      let gone : dropped t i cs news
          ≡ (if has_id t i cs then not (changed_at t i cs read) else false) =
        elim (Bool-cases (has_id t i cs)) [
          | inl h ↦
              dropped-changed i cs news h
              ∙ ap not (touched-has_changed i cs read u)
              ∙ ap (λ x. if x then not (changed_at t i cs read) else false) (sym h)
          | inr h ↦
              dropped-other i cs news h
              ∙ ap (λ x. if x then not (changed_at t i cs read) else false) (sym h)
        ] in
      (
        ap (λ x. listed t i (config_executer t opt free a b x pbs).0) marks
            ∙ k
            ∙ ground (arith, none-added i cs read q, gone),
        ap (λ x. live t i (config_executer t opt free a b x pbs).0) marks
            ∙ l
            ∙ ground (arith, none-added_on i cs read q, gone, touched-on_change i cs read u),
      )
