-- ===== src/Defrag/Frame/Checks.antt =====
-- Which frames pass the header checks of defragment_pcap_data.
use vs_slns.Base.{◌+◌, ◌≤◌, ◌≡◌, some, some, arith}
use vs_slns.Defrag.Types.{Env, CapturedFrame, byte, be16}
use vs_slns.Defrag.Frame.{Fields, header_len, fields_of, frame_fields}

module _ (env : Env) where
  -- A captured IPv4 frame that carries UDP, as the two layers' headers say.
  pub record IsUdpFrame (f : CapturedFrame) : Type 0 where
    pub ethernet : env.size_ethernet ≤ f.caplen
    pub ethertype : be16 f 12 ≡ 0x0800
    pub captured : 20 ≤ f.caplen
    pub header_min : 20 ≤ header_len env f
    pub header_max : header_len env f ≤ 60
    pub header_captured : header_len env f ≤ f.caplen
    pub total : be16 f (env.size_ethernet + 2) ≤ env.ethernet_mtu
    pub protocol : byte f (env.size_ethernet + 9) ≡ 17

  pub frame_fields-IsUdpFrame :
      (f : CapturedFrame) {h : Fields} → frame_fields env f ≡ some h → IsUdpFrame f
  unfolding frame_fields
  frame_fields-IsUdpFrame f e = ground arith

  pub frame_fields_value :
      (f : CapturedFrame) {h : Fields} → frame_fields env f ≡ some h → h ≡ fields_of env f
  unfolding frame_fields
  frame_fields_value f e = ground arith

  pub frame_fields-accepts :
      (f : CapturedFrame) → IsUdpFrame f → frame_fields env f ≡ some (fields_of env f)
  unfolding frame_fields
  frame_fields-accepts f v = ground arith
