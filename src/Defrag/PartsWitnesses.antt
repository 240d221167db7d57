-- ===== src/Defrag/PartsWitnesses.antt =====
-- The reassembly theorem at a datagram of two fragments.
use vs_slns.Base.{
  ℕ, zero, suc, ◌+◌, ◌≤◌, ◌<◌, ◌≡◌, refl, [], ◌∷◌, arith, set, update, slice, err_ok,
}
use vs_slns.Defrag.Types.{Bridge, DfrgUdpMetadata, zero_part, no_addr}
use vs_slns.Defrag.Frame.{fields_of}
use vs_slns.Defrag.Produce.{metadata}
use vs_slns.Defrag.Consume.Copy.{Stored}
use vs_slns.Defrag.Pop.{finish}
use vs_slns.Defrag.Pop.Reassembly.{InSome, finish_reassembles}
use vs_slns.Defrag.Samples.{
  env, fresh, first_part, last_part, no_out, noon, at_second, image, empty_ring,
}

-- The payload of the datagram, and the metadata and length of each fragment.
abbrev ten_bytes : ℕ → ℕ
ten_bytes x = x + 65

abbrev part_metadata : ℕ → DfrgUdpMetadata
part_metadata zero = metadata env first_part (fields_of env first_part) 0 10 8
part_metadata (suc j) = metadata env last_part (fields_of env last_part) 8 0 2

abbrev part_len : ℕ → ℕ
part_len zero = 8
part_len (suc j) = 2

-- The bridge after both fragments were filed.
abbrev parts_filed : Bridge env
parts_filed = record (fresh 9000) {
  ids =
      update (λ i. zero_part) 7
        (record {
          ring_addr = set (set no_addr 0 (0, 1)) 1 (2, 3);
          last_pos = 1;
          fragment_delay_msec = 30;
          data_length = 10;
          data_progress = 10;
          tm = at_second 100;
        });
  gateway = 1;
  raw_xudp_cache = record empty_ring {
    log =
        image (part_metadata 0)
        ∷ (65 ∷ 66 ∷ 67 ∷ 68 ∷ 69 ∷ 70 ∷ 71 ∷ 72 ∷ [])
        ∷ image (part_metadata 1)
        ∷ (73 ∷ 74 ∷ [])
        ∷ [];
  };
}

part_Stored :
    (j : ℕ)
    → 0 ≤ j
    → j < 0 + 2
    → Stored env parts_filed.raw_xudp_cache
        (parts_filed.ids 7)
        100
        ten_bytes
        j
        (part_metadata j)
        (part_len j)
unfolding slice
part_Stored zero h k = record {
  metadata = refl;
  readable = refl;
  marked = refl;
  filled = omega arith;
  fits = omega arith;
  bytes = refl;
}
part_Stored (suc zero) h k = record {
  metadata = refl;
  readable = refl;
  marked = refl;
  filled = omega arith;
  fits = omega arith;
  bytes = refl;
}
part_Stored (suc (suc j)) h k = absurd (omega arith)

finish_reassembles_example :
    let r = finish env noon 100 (part_metadata 0) no_out parts_filed in
    let in_some =
      InSome env noon 100 (part_metadata 0) no_out parts_filed ten_bytes part_metadata part_len in
    (r.0 ≡ err_ok)
    × (r.2.len ≡ 10)
    × (r.2.hdr ≡ (part_metadata 0).hdr)
    × ((x : ℕ) → in_some x → r.2.buf x ≡ ten_bytes x)
    × ((x : ℕ) → ¬ in_some x → r.2.buf x ≡ 0)
finish_reassembles_example =
    finish_reassembles env noon 100 (part_metadata 0) no_out parts_filed ten_bytes part_metadata
      part_len refl refl part_Stored
