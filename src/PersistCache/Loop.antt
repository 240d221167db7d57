-- ===== src/PersistCache/Loop.antt =====
-- discharge_persistant_cache_proc: the loop that pops packets while the gateway is open.
use vs_slns.Base.{
  ℕ, ◌+◌, ◌≡◌, inl, inr, Bool, true, false, not, ◌&&◌, ◌||◌, List, [], ◌∷◌, Option, none, some,
  ◌==◌, if◌then◌else◌, if-both, Bool-cases, Status, arith, Outcome, returns, blocks, Returns,
}
use vs_slns.PersistCache.{GatewayOpenStat, is_open}

-- What the loop changes: the gateway, the second of the last announcement, how often the packet
-- manager was told that the files are empty, and how often the thread slept, by the length of the
-- sleep.
pub record Discharge : Type 0 where
  pub pagestack_gateway_open_val : GatewayOpenStat
  pub cool_down_attempt_on_empty : ℕ
  pub announced : ℕ
  pub slept_normal : ℕ
  pub slept_very_short : ℕ

-- One round: the status of `pg_stk_try_to_pop_latest`, the time as an `int`, and what another thread
-- sets the gateway to meanwhile.
pub record Round : Type 0 where
  pub popped : Status
  pub now : ℕ
  pub set_by_others : Option GatewayOpenStat

abbrev pub is_empty : Status → Bool
is_empty Status.err_empty = true
is_empty _ = false

-- `errEmpty`: the gateway is closed, and the packet manager is told, but once in a second.
abbrev pub on_empty : ℕ → Discharge → Discharge
on_empty now c =
    let closed = record c { pagestack_gateway_open_val = GatewayOpenStat.gws_close } in
    if not (c.cool_down_attempt_on_empty == 0) && c.cool_down_attempt_on_empty == now
    then record closed { slept_normal = c.slept_normal + 1 }
    else record closed { cool_down_attempt_on_empty = now; announced = c.announced + 1 }

abbrev pub on_popped : Status → ℕ → Discharge → Discharge
on_popped Status.err_empty now c = on_empty now c
on_popped Status.err_too_many_attempt now c = record c {
  announced = c.announced + 1;
  slept_normal = c.slept_normal + 1;
}
on_popped Status.err_port_occupied now c = record c { slept_very_short = c.slept_very_short + 1 }
on_popped _ now c = c

abbrev pub set_gate : Option GatewayOpenStat → Discharge → Discharge
set_gate none c = c
set_gate (some g) c = record c { pagestack_gateway_open_val = g }

-- The inner loop. At the end of the schedule an open gateway leaves the thread popping.
unfoldable pub discharge_while : List Round → Discharge → Outcome Discharge
discharge_while [] c = if is_open c.pagestack_gateway_open_val then blocks else returns c
discharge_while (r ∷ rs) c =
    let rest = discharge_while rs (set_gate r.set_by_others (on_popped r.popped r.now c)) in
    if is_open c.pagestack_gateway_open_val then rest else returns c

abbrev pub opens : Option GatewayOpenStat → Bool
opens none = false
opens (some g) = is_open g

-- Some round finds the files empty, and nobody opens the gateway in that round.
abbrev pub runs_dry : List Round → Bool
runs_dry [] = false
runs_dry (r ∷ rs) = (is_empty r.popped && not (opens r.set_by_others)) || runs_dry rs

closed_after_empty :
    (r : Round) (c : Discharge)
    → (is_empty r.popped && not (opens r.set_by_others)) ≡ true
    → is_open (set_gate r.set_by_others (on_popped r.popped r.now c)).pagestack_gateway_open_val
      ≡ false
closed_after_empty r c e = ground arith

already_closed :
    (rs : List Round) (c : Discharge)
    → is_open c.pagestack_gateway_open_val ≡ false
    → Returns (λ c'. is_open c'.pagestack_gateway_open_val ≡ false) (discharge_while rs c)
unfolding discharge_while
already_closed [] c e = rw (e, discharge_while) e
already_closed (r ∷ rs) c e = rw (e, discharge_while) e

-- The thread stops popping and the gateway is not open, if in some round the files are empty and no
-- other thread opens the gateway in that round.
pub discharge_while-Returns :
    (rs : List Round) (c : Discharge)
    → runs_dry rs ≡ true
    → Returns (λ c'. is_open c'.pagestack_gateway_open_val ≡ false) (discharge_while rs c)
unfolding discharge_while
discharge_while-Returns [] c e = cc
discharge_while-Returns (r ∷ rs) c e =
    let next = set_gate r.set_by_others (on_popped r.popped r.now c) in
    if-both (Returns (λ c'. is_open c'.pagestack_gateway_open_val ≡ false))
      (is_open c.pagestack_gateway_open_val) (discharge_while rs next) (returns c)
      (λ _. elim (Bool-cases (is_empty r.popped && not (opens r.set_by_others))) [
        | inl f ↦ already_closed rs next (closed_after_empty r c f)
        | inr f ↦ discharge_while-Returns rs next (ground arith)
      ])
      λ f. f
