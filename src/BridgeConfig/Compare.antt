-- ===== src/BridgeConfig/Compare.antt =====
-- bridge_cfg0_data_equlity: what it means when two configurations compare as the same.
use vs_slns.Base.{◌≡◌, ◌≢◌, ◌↔◌, true, false, [], ◌∷◌, some, arith, length, ◌∙◌, sym, ap}
use vs_slns.BridgeConfig.{Types, Named, Bcfg0, items, bridge_cfg0_data_equlity}
use vs_slns.BridgeConfig.Maps.{
  find, Distinct, items_same_self, items_same_maps, items_same_rotated, find_rotated,
}

-- The tests of the C library compare as they are documented: equal strings, equal memory.
pub record Laws (t : Types) : Type 0 where
  pub str_iff : (a b : t.Name) → (t.str_same a b ≡ true) ↔ (a ≡ b)
  pub udp_iff : (a b : t.Udp) → (t.udp_same a b ≡ true) ↔ (a ≡ b)
  pub tcp_iff : (a b : t.Tcp) → (t.tcp_same a b ≡ true) ↔ (a ≡ b)
  pub id_iff : (a b : t.BridgeId) → (t.id_same a b ≡ true) ↔ (a ≡ b)
  pub solid_iff : (a b : t.Solid) → (t.solid_same a b ≡ true) ↔ (a ≡ b)

-- The counts are those of the arrays, and every input and every output has a name of its own.
pub record WellFormed (t : Types) (c : Bcfg0 t) : Type 0 where
  pub in_counted : c.cas_maintained.in_count ≡ length (items c.cas_maintained.input)
  pub out_counted : c.cas_maintained.out_count ≡ length (items c.cas_maintained.output)
  pub in_distinct : Distinct t.str_same (items c.cas_maintained.input)
  pub out_distinct : Distinct t.str_same (items c.cas_maintained.output)

module _ (t : Types) (laws : Laws t) where
  -- Two configurations say the same: of their single options, and of every name.
  pub record SaysSame (left right : Bcfg0 t) : Type 0 where
    pub solid : left.sol_maintained ≡ right.sol_maintained
    pub inputs :
        (n : t.Name)
        → find t.str_same n (items left.cas_maintained.input)
          ≡ find t.str_same n (items right.cas_maintained.input)
    pub outputs :
        (n : t.Name)
        → find t.str_same n (items left.cas_maintained.output)
          ≡ find t.str_same n (items right.cas_maintained.output)

  -- If two well-formed configurations compare as the same, their single options agree, and every
  -- name has the same settings in both, as an input and as an output, or has none in either.
  pub bridge_cfg0_data_equlity-SaysSame :
      (left right : Bcfg0 t)
      → WellFormed t left
      → WellFormed t right
      → bridge_cfg0_data_equlity t left right ≡ true
      → SaysSame left right
  unfolding bridge_cfg0_data_equlity
  bridge_cfg0_data_equlity-SaysSame left right v w e = record {
    solid = ground (arith, laws.solid_iff left.sol_maintained right.sol_maintained);
    inputs =
        items_same_maps t.str_same t.udp_same laws.str_iff laws.udp_iff
          (items left.cas_maintained.input) (items right.cas_maintained.input) v.in_distinct
          (ground (arith, v.in_counted, w.in_counted)) (ground arith);
    outputs =
        items_same_maps t.str_same t.tcp_same laws.str_iff laws.tcp_iff
          (items left.cas_maintained.output) (items right.cas_maintained.output) v.out_distinct
          (ground (arith, v.out_counted, w.out_counted)) (ground arith);
  }

  pub bridge_cfg0_data_equlity_refl :
      (c d : Bcfg0 t)
      → WellFormed t c
      → d.cas_maintained ≡ c.cas_maintained
      → d.sol_maintained ≡ c.sol_maintained
      → bridge_cfg0_data_equlity t d c ≡ true
  unfolding bridge_cfg0_data_equlity
  bridge_cfg0_data_equlity_refl c d v same_cas same_sol =
      rw (same_cas, bridge_cfg0_data_equlity)
        (rw same_sol (
          ground (
            arith,
            laws.solid_iff c.sol_maintained c.sol_maintained,
            items_same_self t.str_same t.udp_same laws.str_iff laws.udp_iff
                (items c.cas_maintained.input) v.in_distinct,
            items_same_self t.str_same t.tcp_same laws.str_iff laws.tcp_iff
                (items c.cas_maintained.output) v.out_distinct,
          )))

  -- The converse fails: three inputs that a new file lists one place further on say the same, but
  -- the comparison reports a change whenever the last two have different settings, for the way back
  -- mixes up its two indices.
  pub bridge_cfg0_data_equlity_rotated :
      (left right : Bcfg0 t) (a b c : Named t.Name t.Udp)
      → left.cas_maintained.input ≡ some (a ∷ b ∷ c ∷ [])
      → right.cas_maintained.input ≡ some (b ∷ c ∷ a ∷ [])
      → left.cas_maintained.output ≡ right.cas_maintained.output
      → left.sol_maintained ≡ right.sol_maintained
      → a.name ≢ b.name
      → a.name ≢ c.name
      → b.value ≢ c.value
      → SaysSame left right × (bridge_cfg0_data_equlity t left right ≡ false)
  unfolding bridge_cfg0_data_equlity
  bridge_cfg0_data_equlity_rotated left right a b c l r o s ab ac bc = (
    record {
      solid = s;
      inputs = λ n.
          ap (λ m. find t.str_same n (items m)) l
          ∙ find_rotated t.str_same t.udp_same laws.str_iff laws.udp_iff a b c n ab ac
          ∙ sym (ap (λ m. find t.str_same n (items m)) r);
      outputs = λ n. ap (λ m. find t.str_same n (items m)) o;
    },
    ground (
      arith,
      l,
      r,
      items_same_rotated t.str_same t.udp_same laws.str_iff laws.udp_iff a b c ab ac bc,
    ),
  )
