-- ===== src/Defrag/Frame.antt =====
-- defragment_pcap_data, first half: the checks of the Ethernet, IPv4 and UDP headers.
pub mod Checks
pub mod Reads
use vs_slns.Base.{
  ℕ, ◌+◌, ◌-◌, ◌*◌, ◌/◌, ◌%◌, ◌^◌, Bool, not, ◌||◌, Option, none, some, ◌==◌, ltb, leb, sub16,
  if◌then◌else◌,
}
use vs_slns.Defrag.Types.{Env, CapturedFrame, byte, be16}

-- What the link and network checks leave in the local variables.
pub record Fields : Type 0 where
  pub pkt_hdr_len : ℕ
  pub total_length : ℕ
  pub frag_len : ℕ
  pub more : Bool
  pub frag_offset : ℕ
  pub udp_pkt_id : ℕ

-- What the transport checks leave: the length that the UDP header claims, and where the payload
-- of this fragment begins in the frame.
pub record Datagram : Type 0 where
  pub udp_dg_len : ℕ
  pub payload : ℕ

-- `sizeof( struct ether_header )` and `sizeof( struct udphdr )`
abbrev pub sizeof_ether_header : ℕ
sizeof_ether_header = 14

abbrev pub sizeof_udphdr : ℕ
sizeof_udphdr = 8

module _ (env : Env) where
  -- `( packet[ 0 ] & 0x0F ) * 4`
  abbrev pub header_len : CapturedFrame → ℕ
  header_len f = byte f env.size_ethernet % 16 * 4

  -- `h->caplen - sizeof( struct ether_header ) - pkt_hdr_len_B`, kept in 16 bits.
  abbrev pub avail_data : CapturedFrame → ℕ
  avail_data f = (f.caplen + 2 ^ 64 - sizeof_ether_header - header_len f) % 2 ^ 16

  -- `frag_len_B`: what the total length leaves, cut to `avail_data_B`.
  abbrev pub clipped_len : CapturedFrame → ℕ
  clipped_len f =
      let claimed = sub16 (be16 f (env.size_ethernet + 2)) (header_len f) in
      if ltb claimed (avail_data f) then claimed else avail_data f

  abbrev pub fields_of : CapturedFrame → Fields
  fields_of f = record {
    pkt_hdr_len = header_len f;
    total_length = be16 f (env.size_ethernet + 2);
    frag_len = clipped_len f;
    more = be16 f (env.size_ethernet + 6) / 2 ^ 13 % 2 == 1;
    frag_offset = be16 f (env.size_ethernet + 6) % 2 ^ 13 * 8;
    udp_pkt_id = be16 f (env.size_ethernet + 4);
  }

  -- Layers 2 and 3. `none` is a count of `ipv4_bad_structure` and `errCanceled`.
  unfoldable pub frame_fields : CapturedFrame → Option Fields
  frame_fields f =
      if ltb f.caplen env.size_ethernet
      then none
      else if not (be16 f 12 == 0x0800)
      then none
      else if ltb f.caplen 20
      then none
      else if ltb (header_len f) 20 || ltb 60 (header_len f) || ltb f.caplen (header_len f)
      then none
      else if ltb env.ethernet_mtu (be16 f (env.size_ethernet + 2))
      then none
      else if not (byte f (env.size_ethernet + 9) == 17)
      then none
      else some (fields_of f)

  -- `dg_hdr_pyload_len_B`
  abbrev pub datagram_room : Fields → ℕ
  datagram_room h =
      if ltb h.pkt_hdr_len h.total_length then sub16 h.total_length h.pkt_hdr_len else 0

  -- Layer 4. Only a fragment at offset 0 carries a UDP header.
  unfoldable pub datagram : CapturedFrame → Fields → Option Datagram
  datagram f h =
      if h.frag_offset == 0
      then if ltb (datagram_room h) 1 || ltb env.ethernet_mtu (datagram_room h)
        then none
        else if not (leb env.udp_layer_hdr_sz (datagram_room h))
        then none
        else some (record {
          udp_dg_len = be16 f (env.size_ethernet + h.pkt_hdr_len + 4);
          payload = env.size_ethernet + h.pkt_hdr_len + env.udp_layer_hdr_sz;
        })
      else some (record { udp_dg_len = 0; payload = env.size_ethernet + h.pkt_hdr_len })
