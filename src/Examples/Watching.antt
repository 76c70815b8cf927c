-- ===== src/Examples/Watching.antt =====
-- The policies, the pacer and the statistics at concrete inputs.
use reji_studio.Base.{
  ℕ, ◌+◌, ◌*◌, ◌/◌, ◌≤◌, ◌<◌, ◌≡◌, refl, ◌⊎◌, true, List, [], ◌∷◌, arith, ◌==◌, if◌then◌else◌, sum,
  take,
}
use reji_studio.Base.Int.{pos}
use reji_studio.Policy.Repeat.{CadenceEvent}
use reji_studio.Diag.{Sample}
use reji_studio.Diag.Summary.Meters.{Meter, Words, times}
use reji_studio.Metrics.{MetricsCollector, new_collector, calculate_frame_drop_pct}
use reji_studio.Metrics.Window.{After, After-new, drop_delta, frame_delta, calculate_last_30}
use reji_studio.Pacer.{FramePacer, pace}
use reji_studio.Pacer.Deadline.{pace_deadline}
use reji_studio.Pipeline.State.{GpuEntry}

abbrev long_gap : List CadenceEvent
long_gap = CadenceEvent.keyframe (pos 0) ∷ CadenceEvent.tick (pos 3_000_000) ∷ []

abbrev window_samples : List Sample
window_samples = Sample.capture 7 true ∷ Sample.encode 9 ∷ []

word_times : (m : Meter) → Words (times m window_samples)
unfolding times
word_times Meter.cap = (omega arith, tt)
word_times Meter.capn = tt
word_times Meter.enc = (omega arith, tt)
word_times Meter.sendv = tt
word_times Meter.senda = tt
word_times Meter.d3d = tt
word_times Meter.prev = tt
word_times Meter.tot = tt
word_times Meter.pace = tt
word_times Meter.copy = tt
word_times Meter.encp = tt
word_times Meter.lock = tt
word_times Meter.ecb = tt

-- Two packets, the second of which was dropped.
abbrev counted : MetricsCollector
counted = record (new_collector 0) { total_frames = 2; total_drops = 1 }

counted-After : After [] [] counted
counted-After =
    let start = After-new 0 in
    record {
      drop_cells = start.drop_cells;
      frame_cells = start.frame_cells;
      head = refl;
      same = refl;
      count = start.count;
    }

calculate_last_30_example :
    After (drop_delta counted ∷ []) (frame_delta counted ∷ []) (calculate_frame_drop_pct counted)
    × ((calculate_frame_drop_pct counted).metrics.frame_drop_pct ≡ (
        if sum (take 30 (frame_delta counted ∷ [])) == 0
        then 0
        else sum (take 30 (drop_delta counted ∷ []))
          * 100
          / sum (take 30 (frame_delta counted ∷ []))))
calculate_last_30_example =
    calculate_last_30 counted-After (omega arith) (omega arith) (omega arith)

abbrev pacer : FramePacer
pacer = record {
  qpc_freq = 10_000_000;
  frame_ticks = 166_666;
  next_deadline = 500_000;
  pts_origin = 0;
}

pace_deadline_example :
    (600_000 ≤ (pace pacer 600_000 []).0.next_deadline + 4 * 166_666)
    × (((pace pacer 600_000 []).0.next_deadline ≡ 500_000 + 166_666)
          × (600_000 ≤ 500_000 + 166_666 + 4 * 166_666)
        ⊎ ((pace pacer 600_000 []).0.next_deadline ≡ 600_000 + 166_666)
          × (500_000 + 166_666 + 4 * 166_666 < 600_000))
pace_deadline_example = pace_deadline pacer 600_000 []

abbrev adapter : ℕ → ℕ → GpuEntry
adapter vendor mb = record { vendor_id = vendor; dedicated_vram_mb = mb }
