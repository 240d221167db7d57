-- ===== src/Defrag/Consume/Copy.antt =====
-- The loop that puts a datagram together: what the caller's buffer holds after it.
use vs_slns.Base.{
  ℕ, zero, suc, ◌+◌, ◌-◌, ◌≤◌, ◌<◌, ◌≡◌, refl, ap, ◌∙◌, ◌≢◌, ◌⊎◌, inl, inr, true, arith, get_or,
  slice, write, length-slice, write_before, write_after, write-slice, subst, err_ok, dec_le, dec_lt,
}
use vs_slns.Defrag.Types.{Env, UdpPart, Counters, DfrgUdpMetadata}
use vs_slns.Defrag.Consume.{Out, announce, copy_parts, count_tried}

module _ (env : Env) (ring : env.Ring) (p : UdpPart) (room : ℕ) (payload : ℕ → ℕ) where
  -- The `i`-th fragment of the slot is in the ring: its metadata, and `n` bytes of the datagram's
  -- payload from the offset that the metadata names.
  pub record Stored (i : ℕ) (seg : DfrgUdpMetadata) (n : ℕ) : Type 0 where
    pub metadata :
        env.blindcopy ring env.sizeof_metadata (get_or p.ring_addr i (0, 0)).0
        ≡ (err_ok, env.to_bytes seg)
    pub readable : env.of_bytes (env.to_bytes seg) ≡ seg
    pub marked : seg.mark_memory ≡ env.marker_mem
    pub filled : seg.data_progress ≢ 0
    pub fits : seg.frag_offset ≤ room
    pub bytes :
        env.blindcopy ring (room - seg.frag_offset) (get_or p.ring_addr i (0, 0)).1
        ≡ (err_ok, slice payload seg.frag_offset n)

  copy_step :
      {i n : ℕ} {seg : DfrgUdpMetadata} (k : ℕ) (c : Counters) (out : Out)
      → Stored i seg n
      → copy_parts env (suc k) i ring p room c out
        ≡ copy_parts env k (i + 1) ring p room (count_tried c) (record (announce env i seg out) {
          buf =
              write (announce env i seg out).buf seg.frag_offset (slice payload seg.frag_offset n);
        })
  unfolding copy_parts
  copy_step {i} {n} {seg} k c out s =
      rw (s.metadata, copy_parts)
        (rw s.readable (rw s.bytes (ground (arith, s.marked, s.filled, s.fits))))

  put_inside :
      (m : ℕ → ℕ) (off n x : ℕ)
      → off ≤ x
      → x < off + n
      → write m off (slice payload off n) x ≡ payload x
  put_inside m off n x h k =
      write-slice m payload off off n x h k
      ∙ ap payload (let e : off + (x - off) ≡ x = omega arith in e)

  put_outside :
      (m : ℕ → ℕ) (off n x : ℕ)
      → (x < off) ⊎ (off + n ≤ x)
      → write m off (slice payload off n) x ≡ m x
  put_outside m off n x (inl h) = write_before m off (slice payload off n) x h
  put_outside m off n x (inr h) =
      write_after m off (slice payload off n) x (omega (arith, length-slice payload off n))

  put_keeps :
      (m : ℕ → ℕ) (off n x : ℕ) → m x ≡ payload x → write m off (slice payload off n) x ≡ payload x
  put_keeps m off n x e = elim (dec_le off x) [
    | no h ↦ put_outside m off n x (inl (omega arith)) ∙ e
    | yes h ↦ elim (dec_lt x (off + n)) [
      | yes k ↦ put_inside m off n x h k
      | no k ↦ put_outside m off n x (inr (omega arith)) ∙ e
    ]
  ]

  announce_buf :
      (i : ℕ) (seg : DfrgUdpMetadata) (out : Out) → (announce env i seg out).buf ≡ out.buf
  announce_buf i seg out = ground arith

  module _ (segs : ℕ → DfrgUdpMetadata) (lens : ℕ → ℕ) where
    -- The fragments `i`, …, `i + k - 1` are in the ring.
    abbrev pub StoredFrom : ℕ → ℕ → Type 0
    StoredFrom i k = (j : ℕ) → i ≤ j → j < i + k → Stored j (segs j) (lens j)

    -- The byte at offset `x` of the payload is in one of them.
    pub record Covered (i k x : ℕ) : Type 0 where
      pub fragment : ℕ
      pub from : i ≤ fragment
      pub to : fragment < i + k
      pub begins : (segs fragment).frag_offset ≤ x
      pub ends : x < (segs fragment).frag_offset + lens fragment

    -- The caller's variables after the copy of the `i`-th fragment.
    abbrev pub after_copy : ℕ → Out → Out
    after_copy i out = record (announce env i (segs i) out) {
      buf =
          write (announce env i (segs i) out).buf (segs i).frag_offset
            (slice payload (segs i).frag_offset (lens i));
    }

    copy_one :
        (k i : ℕ) (c : Counters) (out : Out)
        → StoredFrom i (suc k)
        → copy_parts env (suc k) i ring p room c out
          ≡ copy_parts env k (i + 1) ring p room (count_tried c) (after_copy i out)
    copy_one k i c out s = copy_step k c out (s i (omega arith) (omega arith))

    pub copy_parts_through :
        (k i : ℕ) (c : Counters) (out : Out)
        → StoredFrom i k
        → (copy_parts env k i ring p room c out).0 ≡ true
    unfolding copy_parts
    copy_parts_through zero i c out s = refl
    copy_parts_through (suc k) i c out s =
        ap (λ r. r.0) (copy_one k i c out s)
        ∙ copy_parts_through k (i + 1) (count_tried c) (after_copy i out)
            (λ j h l. s j (omega arith) (omega arith))

    copy_parts_keeps :
        (k i : ℕ) (c : Counters) (out : Out) (x : ℕ)
        → StoredFrom i k
        → out.buf x ≡ payload x
        → (copy_parts env k i ring p room c out).2.buf x ≡ payload x
    unfolding copy_parts
    copy_parts_keeps zero i c out x s e = e
    copy_parts_keeps (suc k) i c out x s e =
        ap (λ r. r.2.buf x) (copy_one k i c out s)
        ∙ copy_parts_keeps k (i + 1) (count_tried c) (after_copy i out) x
            (λ j h l. s j (omega arith) (omega arith))
            (rw (announce_buf i (segs i) out) (put_keeps out.buf (segs i).frag_offset (lens i) x e))

    pub copy_parts_agrees :
        (k i : ℕ) (c : Counters) (out : Out) (x : ℕ)
        → StoredFrom i k
        → Covered i k x
        → (copy_parts env k i ring p room c out).2.buf x ≡ payload x
    copy_parts_agrees zero i c out x s v = absurd (omega (arith, v.from, v.to))
    copy_parts_agrees (suc k) i c out x s v =
        ap (λ r. r.2.buf x) (copy_one k i c out s) ∙ elim (dec_le v.fragment i) [
          | yes h ↦
              let e : v.fragment ≡ i = omega (arith, v.from) in
              copy_parts_keeps k (i + 1) (count_tried c) (after_copy i out) x rest (
                put_inside (announce env i (segs i) out).buf (segs i).frag_offset (lens i) x
                  (subst (λ j. (segs j).frag_offset ≤ x) e v.begins)
                  (subst (λ j. x < (segs j).frag_offset + lens j) e v.ends))
          | no h ↦ copy_parts_agrees k (i + 1) (count_tried c) (after_copy i out) x rest (record {
            fragment = v.fragment;
            from = omega (arith, v.from);
            to = omega (arith, v.to);
            begins = v.begins;
            ends = v.ends;
          })
        ]
      where
        rest : StoredFrom (i + 1) k
        rest j h l = s j (omega arith) (omega arith)

    pub copy_parts_elsewhere :
        (k i : ℕ) (c : Counters) (out : Out) (x : ℕ)
        → StoredFrom i k
        → ¬ Covered i k x
        → (copy_parts env k i ring p room c out).2.buf x ≡ out.buf x
    unfolding copy_parts
    copy_parts_elsewhere zero i c out x s v = refl
    copy_parts_elsewhere (suc k) i c out x s v =
        ap (λ r. r.2.buf x) (copy_one k i c out s)
        ∙ copy_parts_elsewhere k (i + 1) (count_tried c) (after_copy i out) x
            (λ j h l. s j (omega arith) (omega arith))
            (λ w. v (record {
              fragment = w.fragment;
              from = omega (arith, w.from);
              to = omega (arith, w.to);
              begins = w.begins;
              ends = w.ends;
            }))
        ∙ put_outside (announce env i (segs i) out).buf (segs i).frag_offset (lens i) x
            (elim (dec_lt x (segs i).frag_offset) [
              | yes h ↦ inl h
              | no h ↦ elim (dec_lt x ((segs i).frag_offset + lens i)) [
                | no l ↦ inr (omega arith)
                | yes l ↦ absurd (
                    v (record {
                      fragment = i;
                      from = omega arith;
                      to = omega arith;
                      begins = omega arith;
                      ends = l;
                    }))
              ]
            ])
        ∙ ap (λ m. m x) (announce_buf i (segs i) out)

    later_parts_name :
        (k i : ℕ) (c : Counters) (out : Out)
        → 0 < i
        → StoredFrom i k
        → let r = copy_parts env k i ring p room c out in (r.2.len ≡ out.len) × (r.2.hdr ≡ out.hdr)
    unfolding copy_parts
    later_parts_name zero i c out h s = (refl, refl)
    later_parts_name (suc k) i c out h s =
        let ih =
          later_parts_name k (i + 1) (count_tried c) (after_copy i out) (omega arith)
            (λ j h l. s j (omega arith) (omega arith)) in
        (
          ap (λ r. r.2.len) (copy_one k i c out s) ∙ ih.0 ∙ ground arith,
          ap (λ r. r.2.hdr) (copy_one k i c out s) ∙ ih.1 ∙ ground arith,
        )

    -- The length and the header that the caller gets are those of the first fragment.
    pub copy_parts_name :
        (k : ℕ) (c : Counters) (out : Out)
        → 0 < k
        → StoredFrom 0 k
        → let r = copy_parts env k 0 ring p room c out in
          (r.2.len ≡ (segs 0).data_length) × (r.2.hdr ≡ (segs 0).hdr)
    copy_parts_name zero c out h s = absurd (omega arith)
    copy_parts_name (suc k) c out h s =
        let later =
          later_parts_name k 1 (count_tried c) (after_copy 0 out) (omega arith)
            (λ j h l. s j (omega arith) (omega arith)) in
        (
          ap (λ r. r.2.len) (copy_one k 0 c out s) ∙ later.0,
          ap (λ r. r.2.hdr) (copy_one k 0 c out s) ∙ later.1,
        )
