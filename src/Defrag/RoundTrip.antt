-- ===== src/Defrag/RoundTrip.antt =====
-- From defragment_pcap_data to poped_defraged_packet through the packed ring: what the ring promises,
-- and a datagram that was captured whole.
use vs_slns.Base.{
  ℕ, ◌+◌, ◌≡◌, refl, sym, ap, ◌∙◌, ◌≢◌, ◌⊎◌, inl, inr, Bool, true, false, not, List, [], ◌∷◌, ◌++◌,
  some, arith, Bool-cases, length, slice, write, slice-shift, write-slice, length-slice, sub16,
  err_ok, is_ok, returns, Holds, Holds-map, Returns, ◌==◌,
}
use vs_slns.Defrag.Types.{
  Env, Bridge, CapturedFrame, DfrgUdpMetadata, Now, Timeval, dirty, complete,
}
use vs_slns.Defrag.Frame.{Fields, Datagram, sizeof_udphdr, fields_of, frame_fields, datagram}
use vs_slns.Defrag.Produce.{metadata, push_both, whole_packet, defragment_pcap_data}
use vs_slns.Defrag.Produce.Cases.{counted, defragment_stored, store_fragment_whole}
use vs_slns.Defrag.Wait.{Wake, wait_parts}
use vs_slns.Defrag.Consume.{Out}
use vs_slns.Defrag.Pop.{Popped, finish, deliver_whole, poped_defraged_packet}
use vs_slns.Defrag.Pop.Clears.{poped_waits}

-- The documented behaviour of the packed ring: it is a queue of byte strings. `items` are those that
-- it holds, the oldest first; a pop may name the size that it expects. A metadata keeps its value in
-- memory.
pub record RingLaws (env : Env) : Type 0 where
  pub items : env.Ring → List (List ℕ)
  pub push_items :
      (r : env.Ring) (bytes : List ℕ) (n : ℕ) (wake : Bool)
      → length bytes ≡ n
      → is_ok (env.push r bytes n wake).0 ≡ true
      → items (env.push r bytes n wake).2 ≡ items r ++ (bytes ∷ [])
  pub pop_items :
      (r : env.Ring) (x : List ℕ) (xs : List (List ℕ)) (expected timeout : ℕ) (wait : Bool)
      → items r ≡ x ∷ xs
      → (expected ≡ 0) ⊎ (expected ≡ length x)
      → let p = env.pop r expected timeout wait in (p.0 ≡ err_ok) × (p.1 ≡ x) × (items p.2 ≡ xs)
  pub of_bytes-to_bytes : (m : DfrgUdpMetadata) → env.of_bytes (env.to_bytes m) ≡ m
  pub length-to_bytes : (m : DfrgUdpMetadata) → length (env.to_bytes m) ≡ env.sizeof_metadata

module _ (env : Env) (laws : RingLaws env) where
  push_both_items :
      (ring : env.Ring) (spec : DfrgUdpMetadata) (payload : List ℕ) (room : ℕ)
      → length payload ≡ room
      → is_ok (push_both env ring spec payload room).0 ≡ true
      → laws.items (push_both env ring spec payload room).2
        ≡ (laws.items ring ++ (env.to_bytes spec ∷ [])) ++ (payload ∷ [])
  unfolding push_both
  push_both_items ring spec payload room e s =
      let one = env.push ring (env.to_bytes spec) env.sizeof_metadata false in
      elim (Bool-cases (is_ok one.0)) [
        | inr f ↦ absurd (ground (arith, f))
        | inl f ↦ rw f (
            laws.push_items one.2 payload room true e (ground (arith, f))
            ∙ ap (λ xs. xs ++ (payload ∷ []))
                (laws.push_items ring (env.to_bytes spec) env.sizeof_metadata false
                  (laws.length-to_bytes spec) f))
      ]

  module _ (f : CapturedFrame) (h : Fields) (d : Datagram) where
    -- The length of the payload, as the UDP header has it.
    abbrev pub len : ℕ
    len = sub16 d.udp_dg_len sizeof_udphdr

    abbrev pub spec : DfrgUdpMetadata
    spec = metadata env f h env.uninitialised len len

    -- The datagram is in the slot and in the ring, and nothing else is in the ring.
    pub record Filed (b : Bridge env) : Type 0 where
      pub ring : laws.items b.raw_xudp_cache ≡ env.to_bytes spec ∷ slice f.bytes d.payload len ∷ []
      pub used : dirty (b.ids h.udp_pkt_id) ≡ not (f.ts.tv_sec == 0)
      pub full : complete (b.ids h.udp_pkt_id) ≡ not (len == 0)

    whole_packet-Filed :
        (b : Bridge env)
        → laws.items b.raw_xudp_cache ≡ []
        → Holds (λ r. is_ok r.0 ≡ true → Filed r.1) (whole_packet env b f h d)
    unfolding whole_packet
    whole_packet-Filed b e =
        let r = push_both env b.raw_xudp_cache spec (slice f.bytes d.payload len) len in
        elim (Bool-cases (is_ok r.0)) [
          | inr n ↦ rw (n, whole_packet) (λ y. absurd (ground (arith, n, y)))
          | inl y ↦
              rw (y, whole_packet)
                (λ _. record {
                  ring =
                      push_both_items b.raw_xudp_cache spec (slice f.bytes d.payload len) len
                        (length-slice f.bytes d.payload len) y
                      ∙ ap
                          (λ xs.
                            (xs ++ (env.to_bytes spec ∷ [])) ++ (slice f.bytes d.payload len ∷ []))
                          e;
                  used = ground arith;
                  full = ground arith;
                })
        ]

    -- What the caller gets: the payload as it was captured, its length, the capture time and the
    -- identification number; the slot is empty again.
    pub record Handed (r : Popped env) : Type 0 where
      pub status : r.0 ≡ err_ok
      pub length_handed : r.2.len ≡ len
      pub hdr : r.2.hdr ≡ spec.hdr
      pub payload : slice r.2.buf 0 len ≡ slice f.bytes d.payload len

    wait_complete :
        (wakes : List Wake) (b : Bridge env) (id : ℕ) (since : Timeval)
        → complete (b.ids id) ≡ true
        → wait_parts env wakes b id since ≡ returns b
    unfolding wait_parts
    wait_complete [] b id since e = rw e
    wait_complete (w ∷ ws) b id since e = rw e

    finish_whole :
        (now : Now) (room : ℕ) (out : Out) (b : Bridge env)
        → complete (b.ids h.udp_pkt_id) ≡ true
        → len ≢ 0
        → finish env now room spec out b ≡ deliver_whole env now b spec out
    unfolding finish
    finish_whole now room out b e n = ground (arith, e)

    slice_written :
        (m : ℕ → ℕ)
        → slice (write m 0 (slice f.bytes d.payload len)) 0 len ≡ slice f.bytes d.payload len
    slice_written m =
        slice-shift (write m 0 (slice f.bytes d.payload len)) f.bytes 0 d.payload len λ x l.
          write-slice m f.bytes 0 d.payload len (0 + x) (omega arith) (omega arith)
          ∙ ap f.bytes (omega arith)

    deliver_whole-Handed :
        (now : Now) (out : Out) (b : Bridge env)
        → laws.items b.raw_xudp_cache ≡ slice f.bytes d.payload len ∷ []
        → Handed (deliver_whole env now b spec out)
    unfolding deliver_whole
    deliver_whole-Handed now out b e =
        let pop =
          laws.pop_items b.raw_xudp_cache (slice f.bytes d.payload len) [] 0
            env.socket_def_timeout_sec false e (inl refl) in
        record {
          status = rw (pop.0, deliver_whole);
          length_handed = rw (pop.0, deliver_whole) (rw pop.1 (length-slice f.bytes d.payload len));
          hdr = rw (pop.0, deliver_whole);
          payload = rw (pop.0, deliver_whole) (rw pop.1 (slice_written out.buf));
        }

    Filed-Handed :
        (wakes : List Wake) (now : Now) (room : ℕ) (b : Bridge env) (out : Out)
        → f.ts.tv_sec ≢ 0
        → len ≢ 0
        → Filed b
        → Returns Handed (poped_defraged_packet env wakes now room b out)
    Filed-Handed wakes now room b out z n v =
        let next = env.pop b.raw_xudp_cache env.sizeof_metadata env.socket_def_timeout_sec true in
        let pop =
          laws.pop_items b.raw_xudp_cache (env.to_bytes spec) (slice f.bytes d.payload len ∷ [])
            env.sizeof_metadata env.socket_def_timeout_sec true v.ring
            (inr (sym (laws.length-to_bytes spec))) in
        let same : env.of_bytes next.1 ≡ spec =
          ap env.of_bytes pop.1 ∙ laws.of_bytes-to_bytes spec in
        let full : complete (b.ids h.udp_pkt_id) ≡ true = v.full ∙ ground arith in
        let used : dirty (b.ids h.udp_pkt_id) ≡ true = v.used ∙ ground arith in
        let b' : Bridge env = record b { raw_xudp_cache = next.2 } in
        rw
          (poped_waits env wakes now room b out (ap is_ok pop.0) (ap (λ m. m.mark_memory) same)
            (ap (λ m. dirty (b.ids m.hdr.udp_pkt_id)) same ∙ used))
          (rw same (
            rw (wait_complete wakes b' h.udp_pkt_id f.ts full)
              (rw (finish_whole now room out b' full n) (deliver_whole-Handed now out b' pop.2))))

  -- A datagram that was captured whole and stored goes through: if the ring was empty before, the
  -- capture time has seconds and the payload is not empty, the next call of the consumer returns
  -- `errOK` with the payload as it was captured, its length, its capture time and its number, whatever
  -- its wait would meet.
  pub whole_round_trip :
      (b : Bridge env) (f : CapturedFrame) {d : Datagram} (wakes : List Wake) (now : Now) (room : ℕ)
      (out : Out)
      → let h = fields_of env f in
        frame_fields env f ≡ some h
        → datagram env f h ≡ some d
        → h.frag_offset ≡ 0
        → h.more ≡ false
        → laws.items b.raw_xudp_cache ≡ []
        → f.ts.tv_sec ≢ 0
        → len f h d ≢ 0
        → Holds
            (λ r.
              is_ok r.0 ≡ true
              → Returns (Handed f h d) (poped_defraged_packet env wakes now room r.1 out))
            (defragment_pcap_data env b f)
  whole_round_trip b f {d} wakes now room out e k off last empty z n =
      rw
        (defragment_stored env b f e k
          ∙ store_fragment_whole env (counted env b f) f (fields_of env f) d off last)
        (Holds-map (λ r. is_ok r.0 ≡ true → Filed f (fields_of env f) d r.1)
          (λ r.
            is_ok r.0 ≡ true
            → Returns (Handed f (fields_of env f) d)
                (poped_defraged_packet env wakes now room r.1 out))
          (λ r v s. Filed-Handed f (fields_of env f) d wakes now room r.1 out z n (v s))
          (whole_packet env (counted env b f) f (fields_of env f) d)
          (whole_packet-Filed f (fields_of env f) d (counted env b f) empty))
