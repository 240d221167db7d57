-- ===== src/PacketMgr/Send/Delivery.antt =====
-- What a packet is after send_segment_itm.
use vs_slns.Base.{
  ℕ, ◌≡◌, refl, ap, ◌∙◌, ◌⊎◌, inl, inr, false, Option, none, some, if◌then◌else◌, Status,
  err_canceled, is_ok, Bool-cases, if-both, arith, subst, is_timeout, err_too_many_attempt,
}
use vs_slns.PacketMgr.Types.{Env, Packet, Mgr, Clock, Sent, PktState, TcpStat, is_sent}
use vs_slns.PacketMgr.Send.Routes.{Tried}
use vs_slns.PacketMgr.Send.Whole.{
  route, settle_up, send_segment_itm, note_attempt, note_time, too_soon, on_stat,
}
use vs_slns.PacketMgr.Send.Traffic.{Refused, Delivered, Pending, Pending-is_settled}
use vs_slns.PacketMgr.Send.Kept.{SentOrKept, route-SentOrKept}

module _ (env : Env) where
  -- The packet keeps its state, its payload and the name of its connection, the call failed and
  -- nothing took the payload; or the packet is marked as sent and its payload was taken once.
  abbrev pub SentOrWaiting : Packet env → env.Net → Sent env → Type 0
  SentOrWaiting p n r =
      ((r.pkt.state ≡ p.state) × (is_ok r.status ≡ false) × Refused env p.payload n r.mgr.net)
      ⊎ ((r.pkt.state ≡ PktState.ps_sent)
          × (r.pkt.prev_state ≡ p.state)
          × Delivered env p.payload n r.mgr.net)

  -- What a call leaves of a packet in any case.
  abbrev pub SameData : Packet env → Packet env → Type 0
  SameData p q = (q.payload ≡ p.payload) × (q.tcp_name ≡ p.tcp_name)

  abbrev pub SentOrWaits : Packet env → env.Net → Sent env → Type 0
  SentOrWaits p n r = SameData p r.pkt × SentOrWaiting p n r

  settle_up_pkt : (clk : Clock) (t : Tried env) → (settle_up env clk t).pkt ≡ t.sent.pkt
  unfolding settle_up
  settle_up_pkt clk t = elim (Bool-cases (is_sent t.sent.pkt.state)) [
    | inl e ↦ rw (e, settle_up)
    | inr e ↦ rw (e, settle_up)
  ]

  on_stat_net :
      (pb : Option ℕ) (g : TcpStat env → TcpStat env) (m : Mgr env)
      → (on_stat env pb g m).net ≡ m.net
  on_stat_net none g m = refl
  on_stat_net (some pb) g m = refl

  settle_up_net : (clk : Clock) (t : Tried env) → (settle_up env clk t).mgr.net ≡ t.sent.mgr.net
  unfolding settle_up
  settle_up_net clk t = elim (Bool-cases (is_sent t.sent.pkt.state)) [
    | inl e ↦ rw (e, settle_up) (on_stat_net t.pb _ t.sent.mgr)
    | inr e ↦ rw (e, settle_up) (on_stat_net t.pb _ t.sent.mgr)
  ]

  settle_up_fails :
      (clk : Clock) (t : Tried env)
      → is_ok t.sent.status ≡ false
      → is_ok (settle_up env clk t).status ≡ false
  unfolding settle_up
  settle_up_fails clk t f = elim (Bool-cases (is_sent t.sent.pkt.state)) [
    | inl e ↦ rw (e, settle_up) f
    | inr e ↦ rw (e, settle_up) (ground (arith, f))
  ]

  settle_up-SentOrWaiting :
      (clk : Clock) (p : Packet env) (n : env.Net) (t : Tried env)
      → SentOrWaits p n t.sent
      → SentOrWaits p n (settle_up env clk t)
  settle_up-SentOrWaiting clk p n t (same, inl k) = (
    rw (settle_up_pkt clk t) same,
    inl (rw (settle_up_pkt clk t) k.0, settle_up_fails clk t k.1, rw (settle_up_net clk t) k.2),
  )
  settle_up-SentOrWaiting clk p n t (same, inr k) = (
    rw (settle_up_pkt clk t) same,
    inr (rw (settle_up_pkt clk t) k.0, rw (settle_up_pkt clk t) k.1, rw (settle_up_net clk t) k.2),
  )

  -- A packet that differs in its state before and the second of its try only.
  note_attempt_same :
      (clk : Clock) (p : Packet env)
      → SameData p (note_attempt env clk p) × ((note_attempt env clk p).state ≡ p.state)
  note_attempt_same clk p = ground arith

  note_time_net : (p : Packet env) (m : Mgr env) → (note_time env p m).net ≡ m.net
  note_time_net p m = ground arith

  kept-SentOrWaits :
      (p q : Packet env) (n : env.Net) (r : Sent env)
      → SameData p q × (q.state ≡ p.state)
      → SentOrKept env q n r
      → SentOrWaits p n r
  kept-SentOrWaits p q n r ((b, c), a) (inl k) = (
    (ap (λ x. x.payload) k.0 ∙ b, ap (λ x. x.tcp_name) k.0 ∙ c),
    inl (ap (λ x. x.state) k.0 ∙ a, k.1, subst (λ y. Refused env y n r.mgr.net) b k.2),
  )
  kept-SentOrWaits p q n r ((b, c), a) (inr k) = (
    (ap (λ x. x.payload) k.0 ∙ b, ap (λ x. x.tcp_name) k.0 ∙ c),
    inr (
      ap (λ x. x.state) k.0,
      ap (λ x. x.prev_state) k.0 ∙ a,
      subst (λ y. Delivered env y n r.mgr.net) b k.1,
    ),
  )

  routed-SentOrWaiting :
      (clk : Clock) (m : Mgr env) (p : Packet env) (len : ℕ)
      → SentOrWaits p m.net (route env clk (note_time env p m) (note_attempt env clk p) len).sent
  routed-SentOrWaiting clk m p len =
      let q = note_attempt env clk p in
      let r = (route env clk (note_time env p m) q len).sent in
      kept-SentOrWaits p q m.net r (note_attempt_same clk p) (
        subst (λ n. SentOrKept env q n r) (note_time_net p m)
          (route-SentOrKept env clk len (note_time env p m) q))

  unlocked :
      (clk : Clock) (m : Mgr env) (p : Packet env) (len : ℕ)
      → let r = route env clk (note_time env p m) (note_attempt env clk p) len in
        SentOrWaits p m.net (
          if m.block_sending_1
          then record { status = err_canceled; mgr = m; pkt = p }
          else if too_soon env clk p
          then record { status = err_too_many_attempt; mgr = m; pkt = p }
          else if r.ended
          then r.sent
          else settle_up env clk r)
  unlocked clk m p len =
      let r = route env clk (note_time env p m) (note_attempt env clk p) len in
      let way = routed-SentOrWaiting clk m p len in
      let refused : Status → Sent env = λ s. record { status = s; mgr = m; pkt = p } in
      if-both (SentOrWaits p m.net) m.block_sending_1 (refused err_canceled) _
        (λ _. ((refl, refl), inl (refl, refl, Refused.untouched)))
        λ _.
          if-both (SentOrWaits p m.net) (too_soon env clk p) (refused err_too_many_attempt) _
            (λ _. ((refl, refl), inl (refl, refl, Refused.untouched)))
            λ _.
              if-both (SentOrWaits p m.net) r.ended r.sent (settle_up env clk r) (λ _. way)
                λ _. settle_up-SentOrWaiting clk p m.net r way

  -- A packet whose state says that it still needs sending keeps its payload and the name of its
  -- connection. Either it keeps its state, the call does not return `errOK`, and from the network
  -- before the call to that after it there were only writes of the payload that failed and connections
  -- closed; or it is marked as sent, its state before is noted, and between those networks the
  -- payload was taken once, after such tries, by a write that only the new line of the post action
  -- follows.
  pub send_segment_itm-SentOrWaiting :
      (locked : Status) (clk : Clock) (m : Mgr env) (p : Packet env) (len : ℕ)
      → Pending p.state
      → SentOrWaits p m.net (send_segment_itm env locked clk m p len)
  unfolding send_segment_itm
  send_segment_itm-SentOrWaiting locked clk m p len u = elim (Bool-cases (is_timeout locked)) [
    | inl e ↦ rw (e, send_segment_itm) ((refl, refl), inl (refl, refl, Refused.untouched))
    | inr e ↦ rw (e, send_segment_itm) (rw (Pending-is_settled u) (unlocked clk m p len))
  ]
