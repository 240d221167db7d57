-- ===== src/PacketMgr/Pressure.antt =====
-- sampling_filled_segment_count: once a second the time that memory lasts at the present rates, and
-- the room on disk, set how much of the input is passed on.
use vs_slns.Base.{ℕ, ◌≤◌, ◌≡◌, ◌↔◌, Bool, true, false, not, ltb, if◌then◌else◌, arith}

-- `prss_e`; `prss_skip_section` only divides the stages that pass input on from those that skip it.
pub data Prss : Type 0 where
  prss_no_pressure prss_gentle_pressure prss_aggressive_pressure : Prss
  prss_emergency_pressure prss_red_zone_pressure prss_skip_section : Prss
  prss_skip_input_by_memory_fulled prss_skip_input_by_hard_fulled : Prss

-- The number that C gives a stage.
abbrev pub rank : Prss → ℕ
rank Prss.prss_no_pressure = 0
rank Prss.prss_gentle_pressure = 1
rank Prss.prss_aggressive_pressure = 2
rank Prss.prss_emergency_pressure = 3
rank Prss.prss_red_zone_pressure = 4
rank Prss.prss_skip_section = 5
rank Prss.prss_skip_input_by_memory_fulled = 6
rank Prss.prss_skip_input_by_hard_fulled = 7

-- The settings, in seconds, packets and megabytes.
pub record Settings : Type 0 where
  pub no_backpressure_threshold_sec : ℕ
  pub gentle_backpressure_threshold_sec : ℕ
  pub aggressive_backpressure_threshold_sec : ℕ
  pub emergency_drop_backpressure_threshold_sec : ℕ
  pub skip_input_threshold_sec : ℕ
  pub gentle_backpressure_stride : ℕ
  pub aggressive_backpressure_stride : ℕ
  pub emergency_drop_backpressure_stride : ℕ
  pub red_zone_stride : ℕ
  pub max_saved_file_size_threshold_mb : ℕ

-- What the function leaves in the packet manager.
pub record Sampling : Type 0 where
  pub sampling_threshold_stage : Prss
  pub ttf_sampling_sent_packet_stride : ℕ
  pub sampling_sent_packet_stride : ℕ

-- The stage and the stride by the time to fill: `longer n` is the test `TTF > n` on a double.
unfoldable pub ttf_stage : Settings → (ℕ → Bool) → Prss × ℕ
ttf_stage cfg longer =
    if longer cfg.no_backpressure_threshold_sec
    then (Prss.prss_no_pressure, 1)
    else if longer cfg.gentle_backpressure_threshold_sec
    then (Prss.prss_gentle_pressure, cfg.gentle_backpressure_stride)
    else if longer cfg.aggressive_backpressure_threshold_sec
    then (Prss.prss_aggressive_pressure, cfg.aggressive_backpressure_stride)
    else if longer cfg.emergency_drop_backpressure_threshold_sec
    then (Prss.prss_emergency_pressure, cfg.emergency_drop_backpressure_stride)
    else if longer cfg.skip_input_threshold_sec
    then (Prss.prss_red_zone_pressure, cfg.red_zone_stride)
    else (Prss.prss_skip_input_by_memory_fulled, cfg.red_zone_stride)

abbrev pub is_hard_fulled : Prss → Bool
is_hard_fulled Prss.prss_skip_input_by_hard_fulled = true
is_hard_fulled _ = false

-- The disk comes last and wins. `page_occupied` is what the page stack holds, in megabytes.
unfoldable pub sampling_filled_segment_count : Settings → (ℕ → Bool) → ℕ → Sampling
sampling_filled_segment_count cfg longer page_occupied =
    let (stage, stride) =
      if ltb cfg.max_saved_file_size_threshold_mb page_occupied
      then (Prss.prss_skip_input_by_hard_fulled, 1)
      else ttf_stage cfg longer in
    record {
      sampling_threshold_stage = stage;
      ttf_sampling_sent_packet_stride = stride;
      sampling_sent_packet_stride =
          if is_hard_fulled stage then stride else if ltb 1 stride then stride else 1;
    }

-- `PACKET_MGR().sampling_threshold_stage >= prss_skip_section`, by which input is rejected.
abbrev pub skips : Sampling → Bool
skips s = not (ltb (rank s.sampling_threshold_stage) 5)

-- The thresholds fall from stage to stage.
pub record Ordered (cfg : Settings) : Type 0 where
  pub gentle : cfg.gentle_backpressure_threshold_sec ≤ cfg.no_backpressure_threshold_sec
  pub aggressive : cfg.aggressive_backpressure_threshold_sec ≤ cfg.gentle_backpressure_threshold_sec
  pub emergency :
      cfg.emergency_drop_backpressure_threshold_sec ≤ cfg.aggressive_backpressure_threshold_sec
  pub skip : cfg.skip_input_threshold_sec ≤ cfg.emergency_drop_backpressure_threshold_sec

-- A time longer than `n` is longer than anything up to `n`.
abbrev pub IsTime : (ℕ → Bool) → Type 0
IsTime longer = (n k : ℕ) → k ≤ n → longer n ≡ true → longer k ≡ true

-- If the thresholds fall from stage to stage, input is rejected exactly if the disk holds more than
-- its threshold or memory does not last longer than the skip threshold.
pub skips-sampling_filled_segment_count :
    (cfg : Settings) (longer : ℕ → Bool) (page_occupied : ℕ)
    → Ordered cfg
    → IsTime longer
    → (skips (sampling_filled_segment_count cfg longer page_occupied) ≡ false) ↔ (
        (longer cfg.skip_input_threshold_sec ≡ true)
        × (page_occupied ≤ cfg.max_saved_file_size_threshold_mb))
unfolding sampling_filled_segment_count ttf_stage
skips-sampling_filled_segment_count cfg longer page_occupied o t = ground (
  arith,
  t cfg.no_backpressure_threshold_sec cfg.skip_input_threshold_sec,
  t cfg.gentle_backpressure_threshold_sec cfg.skip_input_threshold_sec,
  t cfg.aggressive_backpressure_threshold_sec cfg.skip_input_threshold_sec,
  t cfg.emergency_drop_backpressure_threshold_sec cfg.skip_input_threshold_sec,
  o.gentle,
  o.aggressive,
  o.emergency,
  o.skip,
)

-- The stride by which packets are sent is never zero, whatever the settings are.
pub sampling_filled_segment_count_stride :
    (cfg : Settings) (longer : ℕ → Bool) (page_occupied : ℕ)
    → 1 ≤ (sampling_filled_segment_count cfg longer page_occupied).sampling_sent_packet_stride
unfolding sampling_filled_segment_count ttf_stage
sampling_filled_segment_count_stride cfg longer page_occupied = ground arith

-- With more time left the stage is never a harsher one.
pub rank-sampling_filled_segment_count :
    (cfg : Settings) (less more : ℕ → Bool) (page_occupied : ℕ)
    → ((n : ℕ) → less n ≡ true → more n ≡ true)
    → rank (sampling_filled_segment_count cfg more page_occupied).sampling_threshold_stage
      ≤ rank (sampling_filled_segment_count cfg less page_occupied).sampling_threshold_stage
unfolding sampling_filled_segment_count ttf_stage
rank-sampling_filled_segment_count cfg less more page_occupied h = ground (
  arith,
  h cfg.no_backpressure_threshold_sec,
  h cfg.gentle_backpressure_threshold_sec,
  h cfg.aggressive_backpressure_threshold_sec,
  h cfg.emergency_drop_backpressure_threshold_sec,
  h cfg.skip_input_threshold_sec,
)
