-- ===== src/PacketMgr/Send/Kept.antt =====
-- The write of a packet, over a known route and over all bridges: the packet is as it was, or it was
-- written whole to one connection.
use vs_slns.Base.{
  ℕ, ◌≡◌, refl, sym, ap, ◌∙◌, ◌⊎◌, inl, inr, false, List, [], ◌∷◌, Option, none, some,
  if◌then◌else◌, Status, err_canceled, is_ok, Bool-cases, if-both, arith, ◌==◌, subst,
  err_port_occupied,
}
use vs_slns.PacketMgr.Types.{Env, Packet, Mgr, Clock, Sent, Route-cases, is_sent}
use vs_slns.PacketMgr.Send.Write.{
  write_over, over, too_often, too_much, with_limit, load_tcp, stamp_send, post_action, mark_sent,
  lighten, drop_peer, count_error, move_window, is_no_peer,
}
use vs_slns.PacketMgr.Send.Routes.{fast, search_tcps, search_abs, is_for}
use vs_slns.PacketMgr.Send.Whole.{route}
use vs_slns.PacketMgr.Send.Traffic.{
  Refused, Delivered, Refused-then, Delivered-later, with_limit_net, lighten_net, post_action_net,
  failed_net,
}

module _ (env : Env) where
  -- The packet is as it was, the call failed and nothing took its payload, or it is marked as sent
  -- and was delivered. The network was `n` before.
  abbrev pub SentOrKept : Packet env → env.Net → Sent env → Type 0
  SentOrKept p n r =
      ((r.pkt ≡ p) × (is_ok r.status ≡ false) × Refused env p.payload n r.mgr.net)
      ⊎ ((r.pkt ≡ mark_sent env p) × Delivered env p.payload n r.mgr.net)

  move_window-SentOrKept :
      (p : Packet env) (n : env.Net) (r : Sent env) (c : ℕ)
      → SentOrKept p n r
      → SentOrKept p n (move_window env r c)
  move_window-SentOrKept p n r c k =
      if-both (SentOrKept p n) (is_ok r.status) r (record r { mgr = load_tcp env r.mgr c 0 })
        (λ _. k) λ _. k

  -- What a success learns does not touch the network.
  abbrev KeepsNet : (Mgr env → Mgr env) → Type 0
  KeepsNet learn = (x : Mgr env) → (learn x).net ≡ x.net

  posted_net :
      (n : env.Net) (payload : List ℕ) (x : Mgr env) (c : ℕ) (s : Status)
      → x.net ≡ (env.tcps_write n c payload).1
      → let n' = (env.tcps_write n c payload).1 in
        ((post_action env x c s).1.net ≡ n')
        ⊎ ((post_action env x c s).1.net ≡ (env.tcps_write n' c (10 ∷ [])).1)
  posted_net n payload x c s e = elim (post_action_net env x c s) [
    | inl k ↦ inl (k ∙ e)
    | inr k ↦ inr (k ∙ ap (λ y. (env.tcps_write y c (10 ∷ [])).1) e)
  ]

  with_limit-SentOrKept :
      (p : Packet env) (m : Mgr env) (c : ℕ) (r : Sent env)
      → SentOrKept p (with_limit env m c).net r
      → SentOrKept p m.net r
  with_limit-SentOrKept p m c r k = subst (λ n. SentOrKept p n r) (with_limit_net env m c) k

  module _ (clk : Clock) (p : Packet env) (len : ℕ) where
    write_over-SentOrKept :
        (m : Mgr env) (c pb stamped closed : ℕ) (learn : Mgr env → Mgr env)
        → KeepsNet learn
        → SentOrKept p m.net (write_over env clk m p len c pb stamped closed learn)
    unfolding write_over
    write_over-SentOrKept m c pb stamped closed learn keeps =
        let w = env.tcps_write m.net c p.payload in
        let written : Mgr env = record m { net = w.1 } in
        let done = learn (stamp_send env clk written stamped) in
        let posted = post_action env done c w.0 in
        if-both (SentOrKept p m.net) (is_ok w.0) _ _
          (λ e.
            move_window-SentOrKept p m.net
              (record {
                status = posted.0;
                mgr = load_tcp env (lighten env p len posted.1) c len;
                pkt = mark_sent env p;
              })
              c
              (inr (
                refl,
                record {
                  net = m.net;
                  connection = c;
                  before = Refused.untouched;
                  taken = e;
                  after =
                      subst (λ y. (y ≡ w.1) ⊎ (y ≡ (env.tcps_write w.1 c (10 ∷ [])).1))
                        (sym (lighten_net env p len posted.1))
                        (posted_net m.net p.payload done c w.0
                          (keeps (stamp_send env clk written stamped)));
                },
              )))
          (λ e.
            move_window-SentOrKept p m.net
              (record {
                status = w.0;
                mgr =
                    if is_no_peer w.0
                    then drop_peer env written closed
                    else count_error env written pb;
                pkt = p;
              })
              c (inl (refl, e, Refused.write c e (failed_net env written closed pb w.0 p.payload))))

    over-SentOrKept :
        (m : Mgr env) (c pb stamped closed : ℕ) (learn : Mgr env → Mgr env)
        → KeepsNet learn
        → SentOrKept p m.net (over env clk m p len c pb stamped closed learn).1
    unfolding over
    over-SentOrKept m c pb stamped closed learn keeps = elim (Bool-cases (too_often env clk m c)) [
      | inl e ↦ rw (e, over) (inl (refl, refl, Refused.untouched))
      | inr e ↦ elim (Bool-cases (too_much env m c)) [
        | inl f ↦
            rw (e, over)
              (rw f (
                with_limit-SentOrKept p m c
                  (record { status = err_port_occupied; mgr = with_limit env m c; pkt = p })
                  (inl (refl, refl, Refused.untouched))))
        | inr f ↦
            rw (e, over)
              (rw f (
                with_limit-SentOrKept p m c
                  (write_over env clk (with_limit env m c) p len c pb stamped closed learn)
                  (write_over-SentOrKept (with_limit env m c) c pb stamped closed learn keeps)))
      ]
    ]

    search_tcps-SentOrKept :
        (m : Mgr env) (pb : ℕ) (s : Status) (is : List ℕ)
        → is_ok s ≡ false
        → SentOrKept p m.net (search_tcps env clk m p len pb s is).1
    unfolding search_tcps
    search_tcps-SentOrKept m pb s [] e = inl (refl, e, Refused.untouched)
    search_tcps-SentOrKept m pb s (i ∷ is) e = elim (Bool-cases (is_for env m p i)) [
      | inl f ↦ rw f (over-SentOrKept m (m.tcps i).this pb i i _ (λ _. refl))
      | inr f ↦ rw f (search_tcps-SentOrKept m pb s is e)
    ]

  later-SentOrKept :
      (p : Packet env) (n n' : env.Net) (r : Sent env)
      → Refused env p.payload n n'
      → SentOrKept p n' r
      → SentOrKept p n r
  later-SentOrKept p n n' r a (inl k) = inl (k.0, k.1, Refused-then env a k.2)
  later-SentOrKept p n n' r a (inr k) = inr (k.0, Delivered-later env a k.1)

  module _ (clk : Clock) (p : Packet env) (len : ℕ) where
    search_abs-SentOrKept :
        (m : Mgr env) (pb : Option ℕ) (s : Status) (abs : List (ℕ × List ℕ))
        → is_ok s ≡ false
        → SentOrKept p m.net (search_abs env clk m p len pb s abs).sent
    unfolding search_abs
    search_abs-SentOrKept m pb s [] e = inl (refl, e, Refused.untouched)
    search_abs-SentOrKept m pb s ((ab, is) ∷ abs) e =
        let r = search_tcps env clk m p len ab s is in
        let here = search_tcps-SentOrKept clk p len m ab s is e in
        elim (Bool-cases r.0) [
          | inl f ↦ rw f here
          | inr f ↦ elim (Bool-cases (is_sent r.1.pkt.state)) [
            | inl g ↦ rw f (rw g here)
            | inr g ↦ elim here [
              | inr k ↦ absurd (ground (arith, k.0))
              | inl k ↦
                  let rest = search_abs-SentOrKept r.1.mgr (some ab) r.1.status abs k.1 in
                  rw f (
                    rw g (
                      rw k.0 (
                        later-SentOrKept p m.net r.1.mgr.net
                          (search_abs env clk r.1.mgr p len (some ab) r.1.status abs).sent k.2
                          rest)))
            ]
          ]
        ]

  module _ (clk : Clock) (len : ℕ) where
    pub route-SentOrKept :
        (m : Mgr env) (p : Packet env) → SentOrKept p m.net (route env clk m p len).sent
    unfolding route fast
    route-SentOrKept m p = elim (Route-cases (m.map_tcp_socket p.tcp_name)) [
      | inl (c, e) ↦
          rw (e, route)
            (over-SentOrKept clk p len m c (m.tcps c).owner_pb (m.tcps c).this (m.tcps c).this
              (λ m'. m') (λ _. refl))
      | inr (inl (c, e)) ↦ rw (e, route) (inl (refl, refl, Refused.untouched))
      | inr (inr e) ↦ elim (Bool-cases (m.connected_tcp_out == 0)) [
        | inl f ↦ rw (e, route) (rw f (inl (refl, refl, Refused.untouched)))
        | inr f ↦
            rw (e, route) (rw f (search_abs-SentOrKept clk p len m none err_canceled m.abs refl))
      ]
    ]
