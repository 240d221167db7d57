-- ===== src/PacketMgr/Store/Once.antt =====
-- What becomes of a packet in memory that the segment threads try to send and to store.
use vs_slns.Base.{
  ℕ, ◌≡◌, refl, sym, ap, ◌∙◌, ◌⊎◌, inl, inr, true, false, List, [], ◌∷◌, if◌then◌else◌, Status,
  err_ok, is_ok, is_timeout, Bool-cases, if-both, arith, subst, inc,
}
use vs_slns.PacketMgr.Types.{Env, Packet, Mgr, Clock, PktState, is_on_l2_ram}
use vs_slns.PacketMgr.Send.Whole.{send_segment_itm}
use vs_slns.PacketMgr.Send.Traffic.{
  Refused, Delivered, Pending, Settled, Refused-then, Delivered-later, Settled-is_settled,
  Settled-is_on_l2_ram,
}
use vs_slns.PacketMgr.Send.Delivery.{send_segment_itm-SentOrWaiting}
use vs_slns.PacketMgr.Store.{Storage, Stored, store_segment_item, pub_copy, note_stored}

module _ (env : Env) (st : Storage env) where
  -- What the segment threads do with a packet in memory: try to send it, or try to store it.
  pub data Try : Type 0 where
    send : Status → Clock → ℕ → Try
    store : ℕ → Try

  -- The tries one after the other.
  unfoldable pub run : List Try → Mgr env → st.Disk → Packet env → Mgr env × st.Disk × Packet env
  run [] m d p = (m, d, p)
  run (send locked clk len ∷ ts) m d p =
      let r = send_segment_itm env locked clk m p len in run ts r.mgr d r.pkt
  run (store len ∷ ts) m d p =
      let r = store_segment_item env st m d p len in run ts r.mgr r.disk r.pkt

  send_settled :
      (locked : Status) (clk : Clock) (m : Mgr env) (p : Packet env) (len : ℕ)
      → Settled p.state
      → let r = send_segment_itm env locked clk m p len in (r.mgr ≡ m) × (r.pkt ≡ p)
  unfolding send_segment_itm
  send_settled locked clk m p len h =
      let e = Settled-is_settled h in
      elim (Bool-cases (is_timeout locked)) [
        | inl t ↦ (rw (t, send_segment_itm), rw (t, send_segment_itm))
        | inr t ↦ (rw (t, send_segment_itm) (rw e), rw (t, send_segment_itm) (rw e))
      ]

  store_off_ram :
      (m : Mgr env) (d : st.Disk) (p : Packet env) (len : ℕ)
      → is_on_l2_ram p.state ≡ false
      → store_segment_item env st m d p len ≡ record { status = err_ok; mgr = m; disk = d; pkt = p }
  unfolding store_segment_item
  store_off_ram m d p len off = rw (off, store_segment_item) refl

  -- A packet that was sent or stored stays as it is under any further tries: nothing is written to
  -- the network or to the disk for it again.
  run_settled :
      (ts : List Try) (m : Mgr env) (d : st.Disk) (p : Packet env)
      → Settled p.state
      → run ts m d p ≡ (m, d, p)
  unfolding run
  run_settled [] m d p h = refl
  run_settled (send locked clk len ∷ ts) m d p h =
      let k = send_settled locked clk m p len h in rw k.0 (rw k.1 (run_settled ts m d p h))
  run_settled (store len ∷ ts) m d p h =
      ap (λ r. run ts r.mgr r.disk r.pkt) (store_off_ram m d p len (Settled-is_on_l2_ram h))
      ∙ run_settled ts m d p h

  -- The disk before and after stores of copies of the payload that fail.
  pub data Unstored (payload : List ℕ) : st.Disk → st.Disk → Type 0 where
    untouched : {d : st.Disk} → Unstored payload d d
    failed :
        {d d' : st.Disk} (copy : Packet env) (len : ℕ)
        → copy.payload ≡ payload
        → is_ok (st.store_data d copy len).0 ≡ false
        → Unstored payload (st.store_data d copy len).1 d'
        → Unstored payload d d'

  -- From disk `d` to disk `d'` one copy of the payload was stored, after stores that failed.
  pub record StoredOnce (payload : List ℕ) (d d' : st.Disk) : Type 0 where
    pub disk : st.Disk
    pub copy : Packet env
    pub size : ℕ
    pub before : Unstored payload d disk
    pub same : copy.payload ≡ payload
    pub taken : is_ok (st.store_data disk copy size).0 ≡ true
    pub after : d' ≡ (st.store_data disk copy size).1

  -- The packet is still to be sent and nothing took its payload, or the network took it once and
  -- the disk did not, or the disk took it once and the network did not.
  abbrev pub OneOutcome : List ℕ → env.Net → st.Disk → Mgr env × st.Disk × Packet env → Type 0
  OneOutcome payload n d (m, d', q) =
      (Pending q.state × Refused env payload n m.net × Unstored payload d d')
      ⊎ (((q.state ≡ PktState.ps_sent) × Delivered env payload n m.net × Unstored payload d d')
          ⊎ ((q.state ≡ PktState.ps_original_remain_packet_on_ram)
              × Refused env payload n m.net
              × StoredOnce payload d d'))

  refused_first :
      (payload : List ℕ) (n n' : env.Net) (d : st.Disk) (r : Mgr env × st.Disk × Packet env)
      → Refused env payload n n'
      → OneOutcome payload n' d r
      → OneOutcome payload n d r
  refused_first payload n n' d r a (inl (x, b, c)) = inl (x, Refused-then env a b, c)
  refused_first payload n n' d r a (inr (inl (x, b, c))) = inr (inl (x, Delivered-later env a b, c))
  refused_first payload n n' d r a (inr (inr (x, b, c))) = inr (inr (x, Refused-then env a b, c))

  -- A store that failed comes before the rest.
  failed_first :
      (payload : List ℕ) (n : env.Net) (d : st.Disk) (copy : Packet env) (len : ℕ)
      (r : Mgr env × st.Disk × Packet env)
      → copy.payload ≡ payload
      → is_ok (st.store_data d copy len).0 ≡ false
      → OneOutcome payload n (st.store_data d copy len).1 r
      → OneOutcome payload n d r
  failed_first payload n d copy len r s f (inl (x, b, c)) =
      inl (x, b, Unstored.failed copy len s f c)
  failed_first payload n d copy len r s f (inr (inl (x, b, c))) =
      inr (inl (x, b, Unstored.failed copy len s f c))
  failed_first payload n d copy len r s f (inr (inr (x, b, c))) = inr (
      inr (
        x,
        b,
        record {
          disk = c.disk;
          copy = c.copy;
          size = c.size;
          before = Unstored.failed copy len s f c.before;
          same = c.same;
          taken = c.taken;
          after = c.after;
        },
      ))

  note_stored_net : (p : Packet env) (m : Mgr env) → (note_stored env st p m).net ≡ m.net
  note_stored_net p m = ground arith

  -- What a store of a packet in memory leaves, if the disk takes the copy and if not.
  abbrev taken_by : Mgr env → st.Disk → Packet env → ℕ → Stored env st
  taken_by m d p len =
      let noted = note_stored env st p m in
      record {
        status = (st.store_data d (pub_copy env st p) len).0;
        mgr = record noted { ram_load_on_storage = env.add_packet noted.ram_load_on_storage len };
        disk = (st.store_data d (pub_copy env st p) len).1;
        pkt = record (pub_copy env st p) { state = PktState.ps_original_remain_packet_on_ram };
      }

  abbrev refused_by : Mgr env → st.Disk → Packet env → ℕ → Stored env st
  refused_by m d p len =
      let noted = note_stored env st p m in
      record {
        status = (st.store_data d (pub_copy env st p) len).0;
        mgr = record noted { inner_status_error = inc noted.inner_status_error };
        disk = (st.store_data d (pub_copy env st p) len).1;
        pkt = pub_copy env st p;
      }

  store_on_ram :
      (m : Mgr env) (d : st.Disk) (p : Packet env) (len : ℕ)
      → is_on_l2_ram p.state ≡ true
      → store_segment_item env st m d p len ≡ (
          if is_ok (st.store_data d (pub_copy env st p) len).0
          then taken_by m d p len
          else refused_by m d p len)
  unfolding store_segment_item
  store_on_ram m d p len e = rw (e, store_segment_item) refl

  -- Under any tries, in any order, to send and to store a packet that needs sending, its payload is
  -- taken at most once: by one write of one connection, if the packet ends as sent, or by one store of
  -- a copy, if it ends as stored, and never by both. Otherwise it still needs sending, and every write
  -- and every store of it failed.
  pub run-OneOutcome :
      (ts : List Try) (m : Mgr env) (d : st.Disk) (p : Packet env)
      → Pending p.state
      → OneOutcome p.payload m.net d (run ts m d p)
  unfolding run
  run-OneOutcome [] m d p u = inl (u, Refused.untouched, Unstored.untouched)
  run-OneOutcome (send locked clk len ∷ ts) m d p u =
      let r = send_segment_itm env locked clk m p len in
      let (same, k) = send_segment_itm-SentOrWaiting env locked clk m p len u in
      elim k [
        | inl (s, f, a) ↦ refused_first p.payload m.net r.mgr.net d (run ts r.mgr d r.pkt) a (
            subst (λ y. OneOutcome y r.mgr.net d (run ts r.mgr d r.pkt)) same.0
              (run-OneOutcome ts r.mgr d r.pkt (subst Pending (sym s) u)))
        | inr (s, b, a) ↦
            rw (run_settled ts r.mgr d r.pkt (subst Settled (sym s) Settled.sent))
              (inr (inl (s, a, Unstored.untouched)))
      ]
  run-OneOutcome (store len ∷ ts) m d p u =
      let c = pub_copy env st p in
      let w = st.store_data d c len in
      let same_net = note_stored_net p m in
      let after : Stored env st → Type 0 =
        λ r. OneOutcome p.payload m.net d (run ts r.mgr r.disk r.pkt) in
      elim (Bool-cases (is_on_l2_ram p.state)) [
        | inr e ↦ subst after (sym (store_off_ram m d p len e)) (run-OneOutcome ts m d p u)
        | inl e ↦ subst after (sym (store_on_ram m d p len e)) (
            if-both after (is_ok w.0) (taken_by m d p len) (refused_by m d p len)
              (λ f.
                let r = taken_by m d p len in
                subst (OneOutcome p.payload m.net d)
                  (sym (run_settled ts r.mgr r.disk r.pkt Settled.copied))
                  (inr (
                    inr (
                      refl,
                      subst (Refused env p.payload m.net) (sym same_net) Refused.untouched,
                      record {
                        disk = d;
                        copy = c;
                        size = len;
                        before = Unstored.untouched;
                        same = refl;
                        taken = f;
                        after = refl;
                      },
                    ))))
              λ f.
                let r = refused_by m d p len in
                failed_first p.payload m.net d c len (run ts r.mgr r.disk r.pkt) refl f (
                  subst (λ n. OneOutcome p.payload n r.disk (run ts r.mgr r.disk r.pkt)) same_net
                    (run-OneOutcome ts r.mgr r.disk r.pkt Pending.on_pub_file)))
      ]
