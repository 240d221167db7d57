-- ===== src/PacketMgr/Store/States.antt =====
-- What becomes of a packet out of a file.
use vs_slns.Base.{
  ℕ, ◌≡◌, refl, ◌∙◌, ◌⊎◌, inl, inr, Bool, true, false, not, List, Option, none, some, if◌then◌else◌,
  Status, err_mapped, err_but_continue, err_port_occupied, is_ok, Bool-cases, if-both, arith, subst,
}
use vs_slns.PacketMgr.Types.{Env, Packet, Mgr, Clock, Sent, PktState, is_on_priv_file}
use vs_slns.PacketMgr.Send.Write.{is_no_peer}
use vs_slns.PacketMgr.Send.Whole.{send_segment_itm}
use vs_slns.PacketMgr.Send.Traffic.{Refused, Delivered, Pending}
use vs_slns.PacketMgr.Send.Delivery.{SentOrWaits, send_segment_itm-SentOrWaiting}
use vs_slns.PacketMgr.Store.{
  Storage, Stored, remap_storage_data, discharge_persistent_storage_data, priv_copy,
  is_done_already,
}

module _ (env : Env) (st : Storage env) where
  -- From disk `d` to disk `d'` the queue of connection `name` was given a copy of the payload, `len`
  -- bytes long; `ok` says whether it took it.
  pub record Rerouted (payload : List ℕ) (name : env.Name) (len : ℕ) (ok : Bool) (d d' : st.Disk)
      : Type 0 where
    pub copy : Packet env
    pub same : copy.payload ≡ payload
    pub named : copy.tcp_name ≡ name
    pub marked : copy.state ≡ PktState.ps_replicated_one_on_priv_file
    pub answered : is_ok (st.reroute_nopeer_pkt d copy len name).0 ≡ ok
    pub after : d' ≡ (st.reroute_nopeer_pkt d copy len name).1

  -- The packet is as it was, the call failed and no copy was taken, or its copy is in the file of its
  -- connection.
  abbrev pub MovedOrKept : Packet env → ℕ → Mgr env → st.Disk → Stored env st → Type 0
  MovedOrKept p len m d r =
      (r.mgr ≡ m)
      × (((r.pkt.state ≡ p.state)
            × (is_ok r.status ≡ false)
            × ((r.disk ≡ d) ⊎ Rerouted p.payload p.tcp_name len false d r.disk))
          ⊎ ((r.pkt.state ≡ PktState.ps_remain_packet_on_pub_file)
              × (is_ok r.status ≡ true)
              × Rerouted p.payload p.tcp_name len true d r.disk))
      × (r.pkt.payload ≡ p.payload)

  remap_storage_data-MovedOrKept :
      (m : Mgr env) (d : st.Disk) (p : Packet env) (sz : ℕ)
      → MovedOrKept p sz m d (remap_storage_data env st m d p sz)
  unfolding remap_storage_data
  remap_storage_data-MovedOrKept m d p sz =
      let c = priv_copy env st p in
      let r = st.reroute_nopeer_pkt d c sz p.tcp_name in
      let asked : (ok : Bool) → is_ok r.0 ≡ ok → Rerouted p.payload p.tcp_name sz ok d r.1 = λ ok e.
        record { copy = c; same = refl; named = refl; marked = refl; answered = e; after = refl } in
      elim (Bool-cases (is_on_priv_file p.state)) [
        | inl e ↦ rw (e, remap_storage_data) (refl, inl (refl, refl, inl refl), refl)
        | inr e ↦ elim (Bool-cases (is_ok r.0)) [
          | inl f ↦ rw (e, remap_storage_data) (rw f (refl, inr (refl, f, asked true f), refl))
          | inr f ↦
              rw (e, remap_storage_data) (rw f (refl, inl (refl, f, inr (asked false f)), refl))
        ]
      ]

  -- A packet out of a file, `len` bytes long, with network `n` and disk `d` before the call and what
  -- the call leaves: it keeps its payload, and it waits as it was, the call did not succeed and nothing
  -- took the payload; or it was delivered; or the file of its connection took a copy.
  abbrev pub NotLost :
      Packet env → ℕ → env.Net → st.Disk → Status × Mgr env × st.Disk × Option (Packet env) → Type 0
  NotLost p len n d (s, m, d', none) = ⊥
  NotLost p len n d (s, m, d', some q) =
      (q.payload ≡ p.payload)
      × (((q.state ≡ p.state)
            × (is_ok s ≡ false)
            × Refused env p.payload n m.net
            × ((d' ≡ d) ⊎ Rerouted p.payload p.tcp_name len false d d'))
          ⊎ (((q.state ≡ PktState.ps_sent)
                × Delivered env p.payload n m.net
                × ((d' ≡ d) ⊎ Rerouted p.payload p.tcp_name len false d d'))
              ⊎ ((q.state ≡ PktState.ps_remain_packet_on_pub_file)
                  × (s ≡ err_mapped)
                  × (Refused env p.payload n m.net ⊎ Delivered env p.payload n m.net)
                  × Rerouted p.payload p.tcp_name len true d d')))

  no_peer_fails : (s : Status) → is_no_peer s ≡ true → is_ok s ≡ false
  no_peer_fails s e = ground arith

  after_send :
      (p : Packet env) (len : ℕ) (n : env.Net) (r : Sent env) (d : st.Disk)
      → SentOrWaits env p n r
      → NotLost p len n d (r.status, r.mgr, d, some r.pkt)
  after_send p len n r d (same, inl k) = (same.0, inl (k.0, k.1, k.2, inl refl))
  after_send p len n r d (same, inr k) = (same.0, inr (inl (k.0, k.2, inl refl)))

  -- The status that the caller gets after a move was tried.
  abbrev told : Status → Status → Status
  told moved sent =
      if is_ok moved
      then err_mapped
      else if is_done_already env st moved
      then err_but_continue
      else sent

  -- A copy of the packet as the send left it is one of the packet.
  same_copy :
      (p q : Packet env) (len : ℕ) (ok : Bool) (d d' : st.Disk)
      → (q.payload ≡ p.payload) × (q.tcp_name ≡ p.tcp_name)
      → Rerouted q.payload q.tcp_name len ok d d'
      → Rerouted p.payload p.tcp_name len ok d d'
  same_copy p q len ok d d' (a, b) r = record {
    copy = r.copy;
    same = r.same ∙ a;
    named = r.named ∙ b;
    marked = r.marked;
    answered = subst (λ y. is_ok (st.reroute_nopeer_pkt d r.copy len y).0 ≡ ok) b r.answered;
    after = subst (λ y. d' ≡ (st.reroute_nopeer_pkt d r.copy len y).1) b r.after;
  }

  unmoved :
      (p q : Packet env) (len : ℕ) (d d' : st.Disk)
      → (q.payload ≡ p.payload) × (q.tcp_name ≡ p.tcp_name)
      → (d' ≡ d) ⊎ Rerouted q.payload q.tcp_name len false d d'
      → (d' ≡ d) ⊎ Rerouted p.payload p.tcp_name len false d d'
  unmoved p q len d d' same (inl e) = inl e
  unmoved p q len d d' same (inr r) = inr (same_copy p q len false d d' same r)

  after_move :
      (p : Packet env) (len : ℕ) (n : env.Net) (d : st.Disk) (r : Sent env) (moved : Stored env st)
      → is_no_peer r.status ≡ true
      → SentOrWaits env p n r
      → MovedOrKept r.pkt len r.mgr d moved
      → NotLost p len n d (told moved.status r.status, moved.mgr, moved.disk, some moved.pkt)
  after_move p len n d r moved e (same, inl k) (g, inl j, y) = (
    y ∙ same.0,
    inl (
      j.0 ∙ k.0,
      rw j.1 (ground (arith, no_peer_fails r.status e)),
      rw g k.2,
      unmoved p r.pkt len d moved.disk same j.2,
    ),
  )
  after_move p len n d r moved e (same, inr k) (g, inl j, y) =
      (y ∙ same.0, inr (inl (j.0 ∙ k.0, rw g k.2, unmoved p r.pkt len d moved.disk same j.2)))
  after_move p len n d r moved e (same, k) (g, inr j, y) = (
    y ∙ same.0,
    inr (
        inr (j.0, rw j.1 refl, rw g (traffic k), same_copy p r.pkt len true d moved.disk same j.2)),
  )
    where
      traffic :
          (((r.pkt.state ≡ p.state) × (is_ok r.status ≡ false) × Refused env p.payload n r.mgr.net)
            ⊎ ((r.pkt.state ≡ PktState.ps_sent)
                × (r.pkt.prev_state ≡ p.state)
                × Delivered env p.payload n r.mgr.net))
          → Refused env p.payload n r.mgr.net ⊎ Delivered env p.payload n r.mgr.net
      traffic (inl k) = inl k.2
      traffic (inr k) = inr k.2

  -- No packet out of a file that needs sending is lost, and it keeps its payload. After a call, it
  -- waits as it was, the call did not succeed, and from the network and the disk before the call to
  -- those after it no write and no reroute of it succeeded; or it is marked as sent, and between those
  -- networks its payload was taken once, while no reroute succeeded; or it is marked as moved,
  -- `errMapped` is returned, and the disk after the call is that after the queue of its connection
  -- took a copy of it, while the network took the payload once or not at all.
  pub discharge_persistent_storage_data-NotLost :
      (skip : Bool) (locked : Status) (clk : Clock) (m : Mgr env) (d : st.Disk) (p : Packet env)
      (sz : ℕ)
      → Pending p.state
      → NotLost p sz m.net d
          (discharge_persistent_storage_data env st skip locked clk m d (some p) sz)
  unfolding discharge_persistent_storage_data
  discharge_persistent_storage_data-NotLost skip locked clk m d p sz u =
      let p' : Packet env = record p { prev_state = p.state } in
      let r = send_segment_itm env locked clk m p' sz in
      let moved = remap_storage_data env st r.mgr d r.pkt sz in
      let sent = send_segment_itm-SentOrWaiting env locked clk m p' sz u in
      let lost = NotLost p sz m.net d in
      if-both lost skip (err_port_occupied, m, d, some p) _
        (λ _. (refl, inl (refl, refl, Refused.untouched, inl refl)))
        λ _.
          if-both lost (not (is_no_peer r.status)) (r.status, r.mgr, d, some r.pkt)
            (told moved.status r.status, moved.mgr, moved.disk, some moved.pkt)
            (λ _. after_send p' sz m.net r d sent)
            λ e.
              (after_move p' sz m.net d r moved (ground arith) sent
                (remap_storage_data-MovedOrKept r.mgr d r.pkt sz))
