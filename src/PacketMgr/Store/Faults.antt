-- ===== src/PacketMgr/Store/Faults.antt =====
-- Where the states of a packet say something else than what happened to it.
use vs_slns.Base.{
  ℕ, ◌≡◌, refl, inl, inr, true, false, some, subst, Status, err_ok, err_mapped, is_ok, arith,
}
use vs_slns.PacketMgr.Types.{Env, Packet, Mgr, Clock, PktState, is_settled, is_on_l2_ram}
use vs_slns.PacketMgr.Send.Write.{is_no_peer}
use vs_slns.PacketMgr.Send.Whole.{send_segment_itm}
use vs_slns.PacketMgr.Send.Traffic.{Delivered, Pending, Pending-is_settled}
use vs_slns.PacketMgr.Send.Delivery.{send_segment_itm-SentOrWaiting}
use vs_slns.PacketMgr.Store.{
  Storage, store_segment_item, remap_storage_data, discharge_persistent_storage_data, pub_copy,
  priv_copy,
}
use vs_slns.PacketMgr.Store.States.{Rerouted}

module _ (env : Env) (st : Storage env) where
  -- After a store that failed the packet is not taken as one in memory any more: a second store
  -- answers `errOK` without going to the disk, though the packet was neither stored nor sent.
  pub store_segment_item_forgets :
      (m : Mgr env) (d : st.Disk) (p : Packet env) (len : ℕ)
      → is_on_l2_ram p.state ≡ true
      → is_ok (st.store_data d (pub_copy env st p) len).0 ≡ false
      → let r = store_segment_item env st m d p len in
        let again = store_segment_item env st r.mgr r.disk r.pkt len in
        (is_ok r.status ≡ false)
        × (again.status ≡ err_ok)
        × (again.disk ≡ r.disk)
        × (is_settled again.pkt.state ≡ false)
  unfolding store_segment_item
  store_segment_item_forgets m d p len ram e =
      rw (ram, store_segment_item) (rw e (e, refl, refl, refl))

  -- A packet out of a file whose payload the network took, but whose post action then met a lost
  -- peer, is moved to the file of its connection all the same, from where it is sent once more.
  pub discharge_persistent_storage_data_repeats :
      (locked : Status) (clk : Clock) (m : Mgr env) (d : st.Disk) (p : Packet env) (sz : ℕ)
      → let sent = send_segment_itm env locked clk m (record p { prev_state = p.state }) sz in
        Pending p.state
        → sent.pkt.state ≡ PktState.ps_sent
        → is_no_peer sent.status ≡ true
        → is_ok (st.reroute_nopeer_pkt d (priv_copy env st sent.pkt) sz sent.pkt.tcp_name).0 ≡ true
        → let r = discharge_persistent_storage_data env st false locked clk m d (some p) sz in
          (r.0 ≡ err_mapped)
          × Delivered env p.payload m.net r.1.net
          × Rerouted env st p.payload p.tcp_name sz true d r.2
  unfolding discharge_persistent_storage_data remap_storage_data
  discharge_persistent_storage_data_repeats locked clk m d p sz u s n t =
      let p' : Packet env = record p { prev_state = p.state } in
      let sent = send_segment_itm env locked clk m p' sz in
      let (same, way) = send_segment_itm-SentOrWaiting env locked clk m p' sz u in
      elim way [
        | inl k ↦ absurd (ground (arith, k.0, s, Pending-is_settled u))
        | inr k ↦ (
          ground (arith, s, n, t),
          ground (arith, s, n, t, k.2),
          record {
            copy = priv_copy env st sent.pkt;
            same = same.0;
            named = same.1;
            marked = refl;
            answered =
                subst
                  (λ y. is_ok (st.reroute_nopeer_pkt d (priv_copy env st sent.pkt) sz y).0 ≡ true)
                  same.1 t;
            after =
                subst
                  (λ y.
                    (discharge_persistent_storage_data env st false locked clk m d (some p) sz).2
                    ≡ (st.reroute_nopeer_pkt d (priv_copy env st sent.pkt) sz y).1)
                  same.1 (ground (arith, s, n, t));
          },
        )
      ]
