-- ===== src/Config/Marks.antt =====
-- The two loops of config_loader against a lookup: which of the new settings are marked.
use vs_slns.Base.{
  ◌≡◌, refl, sym, ap, subst, ◌∙◌, ◌⊎◌, inl, inr, Bool, true, false, not, ◌||◌, List, [], ◌∷◌, none,
  some, if◌then◌else◌, map, arith, Bool-cases,
}
use vs_slns.BridgeConfig.{Types, Bcfg0, bridge_cfg0_data_equlity}
use vs_slns.BridgeConfig.Compare.{Laws}
use vs_slns.Config.Merge.{App, mark, compare_old, from_old, compare_new, from_new, load_settings}
use vs_slns.Config.Ids.{has_id, Distinct, same_sym}

module _ (t : Types) where
  -- The old settings of the same identity have other data.
  abbrev pub differs : List (Bcfg0 t) → Bcfg0 t → Bool
  differs olds n = elim (compare_new t olds n) [ none ↦ false | some c ↦ c ]

  abbrev pub any_differs : List (Bcfg0 t) → List (Bcfg0 t) → Bool
  any_differs olds [] = false
  any_differs olds (n ∷ ns) = differs olds n || any_differs olds ns

  abbrev pub touched : List (Bcfg0 t) → Bcfg0 t → Bcfg0 t
  touched olds n = if differs olds n then mark t n else n

  -- Each of the first settings has its identity among the others.
  abbrev pub Present : List (Bcfg0 t) → List (Bcfg0 t) → Type 0
  Present [] others = Unit
  Present (c ∷ cs) others = (has_id t c.id others ≡ true) × Present cs others

or-true : (a b : Bool) → a || b ≡ true → (a ≡ true) ⊎ (b ≡ true)
or-true true b e = inl refl
or-true false b e = inr e

module _ (t : Types) (laws : Laws t) where
  compare_new-mark :
      (olds : List (Bcfg0 t)) (n : Bcfg0 t) → compare_new t olds (mark t n) ≡ compare_new t olds n
  unfolding compare_new bridge_cfg0_data_equlity
  compare_new-mark [] n = refl
  compare_new-mark (o ∷ os) n =
      ap (λ r. if t.id_same o.id n.id then some (not (bridge_cfg0_data_equlity t o n)) else r)
        (compare_new-mark os n)

  -- A new one is as it was read, or marked with reason.
  abbrev MarkedOne : List (Bcfg0 t) → Bcfg0 t → Bcfg0 t → Type 0
  MarkedOne olds n m = (m ≡ n) ⊎ ((m ≡ mark t n) × (compare_new t olds n ≡ some true))

  abbrev Marked : List (Bcfg0 t) → List (Bcfg0 t) → List (Bcfg0 t) → Type 0
  Marked olds [] [] = Unit
  Marked olds [] (m ∷ ms) = ⊥
  Marked olds (n ∷ ns) [] = ⊥
  Marked olds (n ∷ ns) (m ∷ ms) = MarkedOne olds n m × Marked olds ns ms

  Marked-refl : (olds ns : List (Bcfg0 t)) → Marked olds ns ns
  Marked-refl olds [] = tt
  Marked-refl olds (n ∷ ns) = (inl refl, Marked-refl olds ns)

  MarkedOne-trans :
      (olds : List (Bcfg0 t)) (n m k : Bcfg0 t)
      → MarkedOne olds n m
      → MarkedOne olds m k
      → MarkedOne olds n k
  MarkedOne-trans olds n m k (inl e) g = subst (λ x. MarkedOne olds x k) e g
  MarkedOne-trans olds n m k (inr (e, f)) (inl g) = inr (g ∙ e, f)
  MarkedOne-trans olds n m k (inr (e, f)) (inr (g, h)) = inr (g ∙ ap (mark t) e, f)

  Marked-trans :
      (olds ns ms ks : List (Bcfg0 t)) → Marked olds ns ms → Marked olds ms ks → Marked olds ns ks
  Marked-trans olds [] [] [] a b = tt
  Marked-trans olds [] [] (k ∷ ks) a b = b
  Marked-trans olds [] (m ∷ ms) ks a b = absurd a
  Marked-trans olds (n ∷ ns) [] ks a b = absurd a
  Marked-trans olds (n ∷ ns) (m ∷ ms) [] a b = b
  Marked-trans olds (n ∷ ns) (m ∷ ms) (k ∷ ks) (a, more) (b, others) =
      (MarkedOne-trans olds n m k a b, Marked-trans olds ns ms ks more others)

  -- The lookup of a new one of this identity ends at this old one.
  abbrev Owns : List (Bcfg0 t) → Bcfg0 t → Type 0
  Owns olds o =
      (n : Bcfg0 t)
      → t.id_same o.id n.id ≡ true
      → compare_new t olds n ≡ some (not (bridge_cfg0_data_equlity t o n))

  abbrev AllOwn : List (Bcfg0 t) → List (Bcfg0 t) → Type 0
  AllOwn olds [] = Unit
  AllOwn olds (o ∷ os) = Owns olds o × AllOwn olds os

  AllOwn-cons :
      (c : Bcfg0 t) (cs os : List (Bcfg0 t))
      → AllOwn cs os
      → has_id t c.id os ≡ false
      → AllOwn (c ∷ cs) os
  unfolding compare_new
  AllOwn-cons c cs [] a h = tt
  AllOwn-cons c cs (o ∷ os) (a, more) h = elim (Bool-cases (t.id_same c.id o.id)) [
    | inl e ↦ absurd (cc (rw e at h))
    | inr e ↦ (
      λ n f.
          let away : t.id_same c.id n.id ≡ false =
            ap (t.id_same c.id) (sym ((laws.id_iff o.id n.id).0 f)) ∙ e in
          rw away (a n f),
      AllOwn-cons c cs os more (rw e at h),
    )
  ]

  Distinct-AllOwn : (olds : List (Bcfg0 t)) → Distinct t olds → AllOwn olds olds
  unfolding compare_new
  Distinct-AllOwn [] d = tt
  Distinct-AllOwn (o ∷ os) (fresh, d) =
      (λ n f. rw f refl, AllOwn-cons o os os (Distinct-AllOwn os d) fresh)

  -- The loop for one old bridge.
  compare_old-Marked :
      (olds : List (Bcfg0 t)) (o : Bcfg0 t) (ns : List (Bcfg0 t))
      → Owns olds o
      → has_id t o.id ns ≡ true
      → (c : Bool) × (ms : List (Bcfg0 t)) × (compare_old t o ns ≡ some (c, ms))
        × Marked olds ns ms
        × (c ≡ true → any_differs t olds ns ≡ true)
  unfolding compare_old
  compare_old-Marked olds o [] owns h = cc
  compare_old-Marked olds o (n ∷ ns) owns h = elim (Bool-cases (t.id_same o.id n.id)) [
    | inl e ↦ elim (Bool-cases (bridge_cfg0_data_equlity t o n)) [
      | inl f ↦ (false, n ∷ ns, rw (e, f) refl, (inl refl, Marked-refl olds ns), λ g. cc)
      | inr f ↦
          let why : compare_new t olds n ≡ some true = owns n e ∙ rw f refl in
          (
            true,
            mark t n ∷ ns,
            rw (e, f) refl,
            (inr (refl, why), Marked-refl olds ns),
            λ g. rw (differs, why) refl,
          )
    ]
    | inr e ↦
        let (c, ms, f, g, k) = compare_old-Marked olds o ns owns (rw e at h) in
        (c, n ∷ ms, rw (e, f) refl, (inl refl, g), λ l. ground (arith, k l))
  ]

  Marked-ids :
      (olds ns ms : List (Bcfg0 t)) (i : t.BridgeId)
      → Marked olds ns ms
      → has_id t i ms ≡ has_id t i ns
  Marked-ids olds [] [] i a = refl
  Marked-ids olds [] (m ∷ ms) i a = absurd a
  Marked-ids olds (n ∷ ns) [] i a = absurd a
  Marked-ids olds (n ∷ ns) (m ∷ ms) i (inl e, more) =
      ap (λ x. if t.id_same i x.id then true else has_id t i ms) e
      ∙ ap (λ b. if t.id_same i n.id then true else b) (Marked-ids olds ns ms i more)
  Marked-ids olds (n ∷ ns) (m ∷ ms) i (inr (e, f), more) =
      ap (λ x. if t.id_same i x.id then true else has_id t i ms) e
      ∙ ap (λ b. if t.id_same i n.id then true else b) (Marked-ids olds ns ms i more)

  MarkedOne-differs :
      (olds : List (Bcfg0 t)) (n m : Bcfg0 t)
      → MarkedOne olds n m
      → differs t olds m ≡ differs t olds n
  MarkedOne-differs olds n m (inl e) = ap (differs t olds) e
  MarkedOne-differs olds n m (inr (e, f)) =
      ap (differs t olds) e ∙ rw (differs, compare_new-mark olds n) refl

  MarkedOne-touched :
      (olds : List (Bcfg0 t)) (n m : Bcfg0 t)
      → MarkedOne olds n m
      → touched t olds m ≡ touched t olds n
  MarkedOne-touched olds n m (inl e) = ap (touched t olds) e
  MarkedOne-touched olds n m (inr (e, f)) =
      ap (touched t olds) e ∙ rw (touched, differs, compare_new-mark olds n, f) refl

  Marked-differs :
      (olds ns ms : List (Bcfg0 t))
      → Marked olds ns ms
      → any_differs t olds ms ≡ any_differs t olds ns
  Marked-differs olds [] [] a = refl
  Marked-differs olds [] (m ∷ ms) a = absurd a
  Marked-differs olds (n ∷ ns) [] a = absurd a
  Marked-differs olds (n ∷ ns) (m ∷ ms) (a, more) =
      ap (λ b. b || any_differs t olds ms) (MarkedOne-differs olds n m a)
      ∙ ap (λ b. differs t olds n || b) (Marked-differs olds ns ms more)

  Marked-touched :
      (olds ns ms : List (Bcfg0 t))
      → Marked olds ns ms
      → map (touched t olds) ms ≡ map (touched t olds) ns
  Marked-touched olds [] [] a = refl
  Marked-touched olds [] (m ∷ ms) a = absurd a
  Marked-touched olds (n ∷ ns) [] a = absurd a
  Marked-touched olds (n ∷ ns) (m ∷ ms) (a, more) =
      ap (λ x. x ∷ map (touched t olds) ms) (MarkedOne-touched olds n m a)
      ∙ ap (λ xs. touched t olds n ∷ xs) (Marked-touched olds ns ms more)

  Present-Marked :
      (olds os ns ms : List (Bcfg0 t)) → Marked olds ns ms → Present t os ns → Present t os ms
  Present-Marked olds [] ns ms a p = tt
  Present-Marked olds (o ∷ os) ns ms a (h, p) =
      (Marked-ids olds ns ms o.id a ∙ h, Present-Marked olds os ns ms a p)

  -- The loop over the old bridges, when none is gone.
  from_old-Marked :
      (olds os ns : List (Bcfg0 t)) (flag : Bool)
      → AllOwn olds os
      → Present t os ns
      → (ms : List (Bcfg0 t)) × (c : Bool) × (from_old t os ns flag ≡ (os, ms, flag || c))
        × Marked olds ns ms
        × (c ≡ true → any_differs t olds ns ≡ true)
  unfolding from_old
  from_old-Marked olds [] ns flag a p = (ns, false, ground arith, Marked-refl olds ns, λ e. cc)
  from_old-Marked olds (o ∷ os) ns flag (a, more) (h, p) =
      let (c, ms, e, k, w) = compare_old-Marked olds o ns a h in
      let (ks, d, f, l, v) =
        from_old-Marked olds os ms (flag || c) more (Present-Marked olds os ns ms k p) in
      let assoc : flag || c || d ≡ flag || (c || d) = ground arith in
      (
        ks,
        c || d,
        rw (from_old, e, f, assoc) refl,
        Marked-trans olds ns ms ks k l,
        λ u. elim (or-true c d u) [
          | inl first ↦ w first
          | inr last ↦ sym (Marked-differs olds ns ms k) ∙ v last
        ],
      )

  compare_new-found :
      (olds : List (Bcfg0 t)) (n : Bcfg0 t)
      → has_id t n.id olds ≡ true
      → compare_new t olds n ≡ some (differs t olds n)
  unfolding compare_new
  compare_new-found [] n h = cc
  compare_new-found (o ∷ os) n h = elim (Bool-cases (t.id_same o.id n.id)) [
    | inl e ↦ rw (differs, e) refl
    | inr e ↦
        let other : t.id_same n.id o.id ≡ false = same_sym t laws n.id o.id ∙ e in
        rw (differs, e) (compare_new-found os n (rw other at h))
  ]

  -- The loop over the new bridges, when none was not there.
  from_new-touched :
      (olds ns : List (Bcfg0 t)) (flag : Bool)
      → Present t ns olds
      → from_new t olds ns flag ≡ (map (touched t olds) ns, flag || any_differs t olds ns)
  unfolding from_new
  from_new-touched olds [] flag p = ground arith
  from_new-touched olds (n ∷ ns) flag (h, p) =
      let d = differs t olds n in
      let assoc : flag || d || any_differs t olds ns ≡ flag || (d || any_differs t olds ns) =
        ground arith in
      rw (from_new, compare_new-found olds n h, from_new-touched olds ns (flag || d) p, assoc) refl

  Present-ids :
      (olds ns ms : List (Bcfg0 t)) → Marked olds ns ms → Present t ns olds → Present t ms olds
  Present-ids olds [] [] a p = tt
  Present-ids olds [] (m ∷ ms) a p = absurd a
  Present-ids olds (n ∷ ns) [] a p = absurd a
  Present-ids olds (n ∷ ns) (m ∷ ms) (inl e, more) (h, p) =
      (ap (λ x. has_id t x.id olds) e ∙ h, Present-ids olds ns ms more p)
  Present-ids olds (n ∷ ns) (m ∷ ms) (inr (e, f), more) (h, p) =
      (ap (λ x. has_id t x.id olds) e ∙ h, Present-ids olds ns ms more p)

  merge_flag : (f c d : Bool) → (c ≡ true → d ≡ true) → (f || c) || d ≡ f || d
  merge_flag true c d h = refl
  merge_flag false true d h = sym (h refl)
  merge_flag false false d h = refl

  -- When the new file has the bridges of the old one and no other, the two loops of the merge come to
  -- one lookup: the settings marked are exactly those of which the old settings of the same identity
  -- have other data, the old settings stay as they were, and the executer's flag is raised exactly if
  -- it was before or some settings were marked. No two old settings have one identity.
  pub load_settings-marks :
      (cs read : List (Bcfg0 t)) (app : App t)
      → app.bdj_psv_cfg ≡ some cs
      → Distinct t cs
      → Present t cs read
      → Present t read cs
      → load_settings t read app ≡ record {
        bdj_psv_cfg = some (map (touched t cs) read);
        old_bdj_psv_cfg = some cs;
        psv_cfg_changed = app.psv_cfg_changed || any_differs t cs read;
      }
  unfolding load_settings
  load_settings-marks cs read app e d p q =
      let f = app.psv_cfg_changed in
      let (ms, c, g, k, w) = from_old-Marked cs cs read f (Distinct-AllOwn cs d) p in
      let flag : (f || c) || any_differs t cs ms ≡ f || any_differs t cs read =
        ap (λ b. (f || c) || b) (Marked-differs cs read ms k)
        ∙ merge_flag f c (any_differs t cs read) w in
      rw
        (
          e,
          g,
          from_new-touched cs ms (f || c) (Present-ids cs read ms k q),
          Marked-touched cs read ms k,
          flag,
        )
        refl
