-- ===== src/Defrag/Pop/Reassembly.antt =====
-- The consumer puts the fragments of a datagram together.
use vs_slns.Base.{ℕ, ◌+◌, ◌<◌, ◌≡◌, ap, ◌∙◌, true, false, arith, slice, slice-ext, err_ok}
use vs_slns.Defrag.Types.{Env, Bridge, Now, UdpPart, DfrgUdpMetadata, complete}
use vs_slns.Defrag.Consume.{Out, copy_parts}
use vs_slns.Defrag.Consume.Copy.{
  StoredFrom, Covered, copy_parts_through, copy_parts_agrees, copy_parts_elsewhere, copy_parts_name,
}
use vs_slns.Defrag.Pop.{finish, deliver_parts, in_one_piece}

module _ (env : Env) (now : Now) (room : ℕ) (tmp : DfrgUdpMetadata) (out : Out) (b : Bridge env)
    (payload : ℕ → ℕ) (segs : ℕ → DfrgUdpMetadata) (lens : ℕ → ℕ) where
  -- The slot that the decision looks at.
  abbrev pub slot : UdpPart
  slot = b.ids tmp.hdr.udp_pkt_id

  abbrev pub AllStored : Type 0
  AllStored = StoredFrom env b.raw_xudp_cache slot room payload segs lens 0 (slot.last_pos + 1)

  abbrev pub InSome : ℕ → Type 0
  InSome = Covered env b.raw_xudp_cache slot room payload segs lens 0 (slot.last_pos + 1)

  abbrev copied : Out
  copied = (copy_parts env (slot.last_pos + 1) 0 b.raw_xudp_cache slot room b.counters out).2

  finish_delivers :
      complete slot ≡ true
      → in_one_piece env tmp ≡ false
      → AllStored
      → ((finish env now room tmp out b).0 ≡ err_ok) × ((finish env now room tmp out b).2 ≡ copied)
  unfolding finish deliver_parts
  finish_delivers full parts s =
      let e =
        copy_parts_through env b.raw_xudp_cache slot room payload segs lens (slot.last_pos + 1) 0
          b.counters out s in
      ground (arith, e)

  -- The fragments of a complete datagram may stand in the slot in any order, overlap, and have gaps:
  -- if each is in the ring with its marked metadata, and its bytes are those of one payload, the
  -- consumer returns `errOK`, the length and header of the first fragment, every byte of the payload
  -- that some fragment holds, and no change of the caller's buffer outside the fragments.
  pub finish_reassembles :
      complete slot ≡ true
      → in_one_piece env tmp ≡ false
      → AllStored
      → let r = finish env now room tmp out b in
        (r.0 ≡ err_ok)
        × (r.2.len ≡ (segs 0).data_length)
        × (r.2.hdr ≡ (segs 0).hdr)
        × ((x : ℕ) → InSome x → r.2.buf x ≡ payload x)
        × ((x : ℕ) → ¬ InSome x → r.2.buf x ≡ out.buf x)
  finish_reassembles full parts s =
      let d = finish_delivers full parts s in
      let name =
        copy_parts_name env b.raw_xudp_cache slot room payload segs lens (slot.last_pos + 1)
          b.counters out (omega arith) s in
      (
        d.0,
        ap (λ o. o.len) d.1 ∙ name.0,
        ap (λ o. o.hdr) d.1 ∙ name.1,
        λ x v.
            ap (λ o. o.buf x) d.1
            ∙ copy_parts_agrees env b.raw_xudp_cache slot room payload segs lens (slot.last_pos + 1)
                0 b.counters out x s v,
        λ x v.
            ap (λ o. o.buf x) d.1
            ∙ copy_parts_elsewhere env b.raw_xudp_cache slot room payload segs lens
                (slot.last_pos + 1) 0 b.counters out x s v,
      )

  -- If the fragments cover the length that the first one names, the caller gets the whole payload.
  pub finish_whole_payload :
      complete slot ≡ true
      → in_one_piece env tmp ≡ false
      → AllStored
      → ((x : ℕ) → x < (segs 0).data_length → InSome x)
      → let r = finish env now room tmp out b in
        (r.0 ≡ err_ok) × (slice r.2.buf 0 r.2.len ≡ slice payload 0 (segs 0).data_length)
  finish_whole_payload full parts s cover =
      let r = finish_reassembles full parts s in
      (
        r.0,
        rw r.1
            (slice-ext _ payload 0 (segs 0).data_length (λ x _ l. r.3 x (cover x (omega arith)))),
      )
