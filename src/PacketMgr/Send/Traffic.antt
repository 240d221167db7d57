-- ===== src/PacketMgr/Send/Traffic.antt =====
-- What one call of send_segment_itm does on the network: tries that take nothing, then at most one
-- write that takes the payload, with the new line of its post action.
use vs_slns.Base.{
  ℕ, ◌≡◌, refl, ◌⊎◌, inl, inr, true, false, List, [], ◌∷◌, if◌then◌else◌, Status, is_ok, Bool-cases,
  arith,
}
use vs_slns.PacketMgr.Types.{Env, Packet, Mgr, Sent, PktState, is_settled, is_on_l2_ram}
use vs_slns.PacketMgr.Send.Write.{
  is_no_peer, with_limit, lighten, post_action, drop_peer, count_error, move_window,
}

-- The states of a packet that still needs sending, and those of one that does not: it was sent, its
-- copy is in a file, or it is in the file of its connection.
pub data Pending : PktState → Type 0 where
  on_l1_cache : Pending PktState.ps_on_l1_cache
  on_l2_ram : Pending PktState.ps_on_l2_ram
  on_pub_file : Pending PktState.ps_replicated_one_on_pub_file
  on_priv_file : Pending PktState.ps_replicated_one_on_priv_file

pub data Settled : PktState → Type 0 where
  sent : Settled PktState.ps_sent
  copied : Settled PktState.ps_original_remain_packet_on_ram
  moved : Settled PktState.ps_remain_packet_on_pub_file

pub Pending-is_settled : {s : PktState} → Pending s → is_settled s ≡ false
Pending-is_settled Pending.on_l1_cache = refl
Pending-is_settled Pending.on_l2_ram = refl
Pending-is_settled Pending.on_pub_file = refl
Pending-is_settled Pending.on_priv_file = refl

pub Settled-is_settled : {s : PktState} → Settled s → is_settled s ≡ true
Settled-is_settled Settled.sent = refl
Settled-is_settled Settled.copied = refl
Settled-is_settled Settled.moved = refl

pub Settled-is_on_l2_ram : {s : PktState} → Settled s → is_on_l2_ram s ≡ false
Settled-is_on_l2_ram Settled.sent = refl
Settled-is_on_l2_ram Settled.copied = refl
Settled-is_on_l2_ram Settled.moved = refl

module _ (env : Env) where
  -- The network before and after tries that take nothing: writes of the payload that fail, and
  -- connections that are closed.
  pub data Refused (payload : List ℕ) : env.Net → env.Net → Type 0 where
    untouched : {n : env.Net} → Refused payload n n
    write :
        {n n' : env.Net} (c : ℕ)
        → is_ok (env.tcps_write n c payload).0 ≡ false
        → Refused payload (env.tcps_write n c payload).1 n'
        → Refused payload n n'
    close :
        {n n' : env.Net} (c : ℕ) → Refused payload (env.tcps_close n c) n' → Refused payload n n'

  pub Refused-then :
      {payload : List ℕ} {n n' n'' : env.Net}
      → Refused payload n n'
      → Refused payload n' n''
      → Refused payload n n''
  Refused-then Refused.untouched b = b
  Refused-then (Refused.write c e a) b = Refused.write c e (Refused-then a b)
  Refused-then (Refused.close c a) b = Refused.close c (Refused-then a b)

  -- From network `n` to network `n'` the payload was taken once: after tries that took nothing, by a
  -- write over one connection, which only the new line of the post action follows.
  pub record Delivered (payload : List ℕ) (n n' : env.Net) : Type 0 where
    pub net : env.Net
    pub connection : ℕ
    pub before : Refused payload n net
    pub taken : is_ok (env.tcps_write net connection payload).0 ≡ true
    pub after :
        (n' ≡ (env.tcps_write net connection payload).1)
        ⊎ (n' ≡ (env.tcps_write (env.tcps_write net connection payload).1 connection (10 ∷ [])).1)

  pub Delivered-later :
      {payload : List ℕ} {n n' n'' : env.Net}
      → Refused payload n n'
      → Delivered payload n' n''
      → Delivered payload n n''
  Delivered-later a d = record {
    net = d.net;
    connection = d.connection;
    before = Refused-then a d.before;
    taken = d.taken;
    after = d.after;
  }

  pub with_limit_net : (m : Mgr env) (c : ℕ) → (with_limit env m c).net ≡ m.net
  with_limit_net m c = ground arith

  pub move_window_pkt : (r : Sent env) (c : ℕ) → (move_window env r c).pkt ≡ r.pkt
  move_window_pkt r c = ground arith

  pub move_window_status : (r : Sent env) (c : ℕ) → (move_window env r c).status ≡ r.status
  move_window_status r c = ground arith

  pub move_window_net : (r : Sent env) (c : ℕ) → (move_window env r c).mgr.net ≡ r.mgr.net
  move_window_net r c = ground arith

  pub lighten_net : (p : Packet env) (len : ℕ) (m : Mgr env) → (lighten env p len m).net ≡ m.net
  lighten_net p len m = ground arith

  pub post_action_net :
      (m : Mgr env) (c : ℕ) (s : Status)
      → ((post_action env m c s).1.net ≡ m.net)
        ⊎ ((post_action env m c s).1.net ≡ (env.tcps_write m.net c (10 ∷ [])).1)
  post_action_net m c s = ground arith

  -- What follows a write that failed.
  pub failed_net :
      (m : Mgr env) (closed pb : ℕ) (s : Status) (payload : List ℕ)
      → Refused payload m.net
          (if is_no_peer s then drop_peer env m closed else count_error env m pb).net
  failed_net m closed pb s payload = elim (Bool-cases (is_no_peer s)) [
    | inl e ↦ elim (Bool-cases (m.tcps closed).tcp_is_about_to_connect) [
      | inl f ↦ rw e (rw f Refused.untouched)
      | inr f ↦ rw e (rw f (Refused.close closed Refused.untouched))
    ]
    | inr e ↦ rw e Refused.untouched
  ]
