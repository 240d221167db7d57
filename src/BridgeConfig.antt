-- ===== src/BridgeConfig.antt =====
-- Protocol_Bridge/src/BridgeConfig.c: the settings of one bridge, how they are copied and how two of
-- them are compared to find out what a new configuration file changed.
pub mod Maps
pub mod Compare
pub mod Copying
mod Tests
use vs_slns.Base.{
  ℕ, Bool, true, false, not, ◌&&◌, List, [], ◌∷◌, Option, none, some, ◌==◌, if◌then◌else◌, length,
  Status, err_ok,
}

-- `udp_cfg_pak_t` and `tcp_cfg_pak_t`: a name and the settings under it.
pub record Named (Name Data : Type 0) : Type 0 where
  pub name : Name
  pub value : Data

-- What the comparison and the copy see of a bridge's settings. Of the types: `Name` is a `CFG_ITM`,
-- `Udp` and `Tcp` the settings of an input and an output, `BridgeId` the identity of the bridge, `Solid`
-- its single options.
pub record Types : Type 1 where
  pub Name : Type 0
  pub Udp : Type 0
  pub Tcp : Type 0
  pub BridgeId : Type 0
  pub Solid : Type 0
  -- `STR_SAME`, and `MEMCMP( .. ) == 0` on each type.
  pub str_same : Name → Name → Bool
  pub udp_same : Udp → Udp → Bool
  pub tcp_same : Tcp → Tcp → Bool
  pub id_same : BridgeId → BridgeId → Bool
  pub solid_same : Solid → Solid → Bool

-- `struct bridge_cascade_maintable_parameter`: an array is `none` if its allocation failed.
pub record Cascade (t : Types) : Type 0 where
  pub input : Option (List (Named t.Name t.Udp))
  pub in_count : ℕ
  pub output : Option (List (Named t.Name t.Tcp))
  pub out_count : ℕ

-- `Bcfg0`
pub record Bcfg0 (t : Types) : Type 0 where
  pub id : t.BridgeId
  pub cas_maintained : Cascade t
  pub sol_maintained : t.Solid
  pub pcfg_changed : ℕ
  pub delayed_validation : Bool

-- The items behind a pointer.
abbrev pub items {ℓ} : {A : Type ℓ} → Option (List A) → List A
items none = []
items (some xs) = xs

module _ {Name Data : Type 0} (str_same : Name → Name → Bool) (mem_same : Data → Data → Bool) where
  -- The inner loop from left to right: the first item of the same name decides by its data.
  abbrev pub found_right : Named Name Data → List (Named Name Data) → Bool
  found_right l [] = false
  found_right l (r ∷ rs) =
      if str_same l.name r.name then mem_same l.value r.value else found_right l rs

  abbrev pub all_found_right : List (Named Name Data) → List (Named Name Data) → Bool
  all_found_right [] rs = true
  all_found_right (l ∷ ls) rs = found_right l rs && all_found_right ls rs

  -- The inner loop of the way back, as it is written: the name of `right[ ilin ]` is compared with
  -- that of `left[ irin ]`, and the data of `right[ irin ]` with that of `left[ ilin ]`. The arrays
  -- are of one length, so they are run through side by side.
  abbrev pub found_back :
      Named Name Data → Named Name Data → List (Named Name Data) → List (Named Name Data) → Bool
  found_back l_irin r_irin (l ∷ ls) (r ∷ rs) =
      if str_same r.name l_irin.name
      then mem_same r_irin.value l.value
      else found_back l_irin r_irin ls rs
  found_back l_irin r_irin _ _ = false

  -- The outer loop of the way back, over what is left of both arrays.
  abbrev pub all_found_back :
      List (Named Name Data)
      → List (Named Name Data)
      → List (Named Name Data)
      → List (Named Name Data)
      → Bool
  all_found_back (l ∷ ls) (r ∷ rs) left right =
      found_back l r left right && all_found_back ls rs left right
  all_found_back _ _ left right = true

  -- Both loops over one pair of arrays.
  unfoldable pub items_same : List (Named Name Data) → List (Named Name Data) → Bool
  items_same left right = all_found_right left right && all_found_back left right left right

module _ (t : Types) where
  abbrev pub bcfg0_id_equlity : Bcfg0 t → Bcfg0 t → Bool
  bcfg0_id_equlity left right = t.id_same left.id right.id

  unfoldable pub bridge_cfg0_data_equlity : Bcfg0 t → Bcfg0 t → Bool
  bridge_cfg0_data_equlity left right =
      let l = left.cas_maintained in
      let r = right.cas_maintained in
      if not (t.solid_same left.sol_maintained right.sol_maintained)
      then false
      else if not (l.in_count == r.in_count)
      then false
      else if not (l.out_count == r.out_count)
      then false
      else if not (items_same t.str_same t.udp_same (items l.input) (items r.input))
      then false
      else items_same t.str_same t.tcp_same (items l.output) (items r.output)

  -- `copy_bridge_cfg`: the flags say whether each allocation succeeds. A failure leaves the pointer
  -- null and goes to the end.
  unfoldable pub copy_bridge_cfg : Bool → Bool → Bcfg0 t → Bcfg0 t → Bcfg0 t
  copy_bridge_cfg in_room out_room dst src =
      let d = record dst {
        id = src.id;
        pcfg_changed = src.pcfg_changed;
        delayed_validation = src.delayed_validation;
        sol_maintained = src.sol_maintained;
      } in
      let s = src.cas_maintained in
      if not in_room
      then record d { cas_maintained = record dst.cas_maintained { input = none } }
      else let copied_in = record dst.cas_maintained { input = s.input; in_count = s.in_count } in
        if not out_room
        then record d { cas_maintained = record copied_in { output = none } }
        else record d {
          cas_maintained = record copied_in { output = s.output; out_count = s.out_count };
          delayed_validation = true;
        }
