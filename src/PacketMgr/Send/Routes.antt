-- ===== src/PacketMgr/Send/Routes.antt =====
-- send_segment_itm: the connection is known from an earlier packet, or is looked up by its name.
use vs_slns.Base.{ℕ, Bool, false, ◌&&◌, List, [], ◌∷◌, Option, some, if◌then◌else◌, Status}
use vs_slns.PacketMgr.Types.{Env, Packet, Mgr, Clock, Sent, Route, is_sent}
use vs_slns.PacketMgr.Send.Write.{over}

-- Where the way over the connections ended: whether the function ends at once, what was left, and
-- the bridge that was looked at last.
pub record Tried (env : Env) : Type 0 where
  pub ended : Bool
  pub sent : Sent env
  pub pb : Option ℕ

module _ (env : Env) where
  -- The fast method: connection `c` is in `map_tcp_socket`.
  unfoldable pub fast : Clock → Mgr env → Packet env → ℕ → ℕ → Tried env
  fast clk m p len c =
      let t = m.tcps c in
      let (ended, sent) = over env clk m p len c t.owner_pb t.this t.this (λ m'. m') in
      record { ended = ended; sent = sent; pb = some t.owner_pb }

  abbrev pub learn_route : env.Name → ℕ → Mgr env → Mgr env
  learn_route name c m = record m {
    map_tcp_socket = λ n. if env.str_same n name then Route.connected c else m.map_tcp_socket n;
  }

  -- The packet goes over connection `i`, which is the main connection or shares it.
  abbrev pub is_for : Mgr env → Packet env → ℕ → Bool
  is_for m p i =
      env.str_same (m.tcps i).name p.tcp_name && (m.tcps (m.tcps i).this).tcp_conn_established

  -- The slow method in one bridge: the first established connection of that name is tried.
  unfoldable pub search_tcps :
      Clock → Mgr env → Packet env → ℕ → ℕ → Status → List ℕ → Bool × Sent env
  search_tcps clk m p len pb s [] = (false, record { status = s; mgr = m; pkt = p })
  search_tcps clk m p len pb s (i ∷ is) =
      let rest = search_tcps clk m p len pb s is in
      if is_for m p i
      then over env clk m p len (m.tcps i).this pb i i (learn_route p.tcp_name (m.tcps i).this)
      else rest

  -- The slow method over all bridges, until the packet is sent.
  unfoldable pub search_abs :
      Clock → Mgr env → Packet env → ℕ → Option ℕ → Status → List (ℕ × List ℕ) → Tried env
  search_abs clk m p len pb s [] = record {
    ended = false;
    sent = record { status = s; mgr = m; pkt = p };
    pb = pb;
  }
  search_abs clk m p len pb s ((ab, is) ∷ abs) =
      let (ended, sent) = search_tcps clk m p len ab s is in
      let here : Tried env = record { ended = ended; sent = sent; pb = some ab } in
      let rest = search_abs clk sent.mgr sent.pkt len (some ab) sent.status abs in
      if ended then here else if is_sent sent.pkt.state then here else rest
