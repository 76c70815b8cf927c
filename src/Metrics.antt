-- ===== src/Metrics.antt =====
-- src/pipeline/metrics_collector.cpp: the load readings and the drop rate of the last 30 polls. A
-- reading of PDH or of the memory status is an argument; the thermal queries of the source are
-- stubs that return 0. Times are milliseconds of the steady clock.
pub mod Window
use reji_studio.Base.{
  ℕ, zero, suc, ◌*◌, ◌/◌, ◌%◌, ◌^◌, min, Bool, true, false, ltb, ◌==◌, if◌then◌else◌, update,
  add_u32, sub_u32, add_u64, ◌+◌, ◌-◌,
}

abbrev pub window : ℕ
window = 30

abbrev pub poll_interval_ms : ℕ
poll_interval_ms = 1000

pub record Metrics : Type 0 where
  pub frame_drop_pct : ℕ
  pub total_frames : ℕ
  pub dropped_frames : ℕ
  pub gpu_temp_c : ℕ
  pub cpu_temp_c : ℕ
  pub memory_usage_pct : ℕ
  pub cpu_load_pct : ℕ
  pub gpu_load_pct : ℕ
  pub network_rtt_ms : ℕ
  pub network_loss_pct : ℕ
  pub timestamp : ℕ

pub record MetricsCollector : Type 0 where
  pub metrics : Metrics
  pub drop_ring : ℕ → ℕ
  pub frame_ring : ℕ → ℕ
  pub ring_head : ℕ
  pub ring_count : ℕ
  pub total_frames : ℕ
  pub total_drops : ℕ
  pub prev_total_frames : ℕ
  pub prev_total_drops : ℕ
  pub last_poll_time : ℕ

abbrev pub new_collector : ℕ → MetricsCollector
new_collector now = record {
  metrics = record {
    frame_drop_pct = 0;
    total_frames = 0;
    dropped_frames = 0;
    gpu_temp_c = 0;
    cpu_temp_c = 0;
    memory_usage_pct = 0;
    cpu_load_pct = 0;
    gpu_load_pct = 0;
    network_rtt_ms = 0;
    network_loss_pct = 0;
    timestamp = now;
  };
  drop_ring = λ _. 0;
  frame_ring = λ _. 0;
  ring_head = 0;
  ring_count = 0;
  total_frames = 0;
  total_drops = 0;
  prev_total_frames = 0;
  prev_total_drops = 0;
  last_poll_time = now;
}

-- What the system's counters answer in one poll.
pub record Readings : Type 0 where
  pub memory_load : ℕ
  pub cpu_load : ℕ
  pub gpu_load : ℕ

unfoldable pub record_frame_drop : MetricsCollector → MetricsCollector
record_frame_drop m = record m { total_drops = add_u32 m.total_drops 1 }

unfoldable pub record_frame : MetricsCollector → MetricsCollector
record_frame m = record m { total_frames = add_u32 m.total_frames 1 }

abbrev pub query_gpu_thermal_wmi : ℕ
query_gpu_thermal_wmi = 0

abbrev pub query_cpu_thermal_wmi : ℕ
query_cpu_thermal_wmi = 0

abbrev pub query_gpu_temp_amd_adl : ℕ
query_gpu_temp_amd_adl = 0

abbrev pub query_gpu_temp_nvidia_nvapi : ℕ
query_gpu_temp_nvidia_nvapi = 0

-- The loop over the first `n` cells, in uint32_t.
pub ring_total : (ℕ → ℕ) → ℕ → ℕ
ring_total ring zero = 0
ring_total ring (suc n) = add_u32 (ring_total ring n) (ring n)

unfoldable pub drop_pct : ℕ → ℕ → ℕ
drop_pct drops frames = if frames == 0 then 0 else drops * 100 % 2 ^ 32 / frames

unfoldable pub calculate_frame_drop_pct : MetricsCollector → MetricsCollector
unfolding drop_pct
calculate_frame_drop_pct m =
    let slot = m.ring_head % window in
    let drops = update m.drop_ring slot (sub_u32 m.total_drops m.prev_total_drops) in
    let frames = update m.frame_ring slot (sub_u32 m.total_frames m.prev_total_frames) in
    let count = min (m.ring_count + 1) window in
    record m {
      metrics = record (m.metrics) {
        frame_drop_pct = drop_pct (ring_total drops count) (ring_total frames count);
        total_frames = m.total_frames;
        dropped_frames = m.total_drops;
      };
      drop_ring = drops;
      frame_ring = frames;
      ring_head = add_u64 m.ring_head 1;
      ring_count = count;
      prev_total_frames = m.total_frames;
      prev_total_drops = m.total_drops;
    }

abbrev or_else : ℕ → ℕ → ℕ
or_else t other = if t == 0 then other else t

-- The readings and temperatures that one poll stores before the drop rate.
unfoldable pub read_sensors : Metrics → Readings → Metrics
unfolding or_else
read_sensors m r = record m {
  gpu_temp_c =
      or_else (or_else query_gpu_thermal_wmi query_gpu_temp_amd_adl) query_gpu_temp_nvidia_nvapi;
  cpu_temp_c = query_cpu_thermal_wmi;
  memory_usage_pct = r.memory_load;
  cpu_load_pct = r.cpu_load;
  gpu_load_pct = r.gpu_load;
}

unfoldable pub poll : MetricsCollector → ℕ → Readings → MetricsCollector
unfolding read_sensors
poll m now r =
    if ltb (now - m.last_poll_time) poll_interval_ms
    then m
    else let calculated =
        calculate_frame_drop_pct (record m { metrics = read_sensors m.metrics r }) in
      record calculated {
        metrics = record (calculated.metrics) { timestamp = now };
        last_poll_time = now;
      }
