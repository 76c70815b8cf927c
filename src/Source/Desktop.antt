-- ===== src/Source/Desktop.antt =====
-- src/pipeline/existing_desktop_source.cpp: the capture adapter. The capture object behind it is an
-- IScreenCapture; what it is, whether its init succeeds and which frame it yields are arguments.
-- The CPU preview of the WGC path is left out: it is a sequence of D3D11 calls.
use reji_studio.Base.{
  ℕ, ◌+◌, ◌*◌, ◌/◌, ◌%◌, ◌^◌, ◌<◌, ◌≡◌, sym, ap, ◌∙◌, Bool, true, false, Option, none, some,
  is_some, arith, ◌==◌, if◌then◌else◌,
}
use native.Mathlib.Nat.{div-add-mod, mul-add-div}
use reji_studio.Source.State.{CapturedFrame, SourceFrame, HandleType, SourceState, SourceMetadata}
use reji_studio.Source.Streak.{
  NullStreakTracker, on_frame, reset_streak, needs_reinit, map_captured_frame,
  wgc_frame_pool_format,
}

-- The DXGI pipeline behind a capture: `encode_gpu` may be missing, and so may its device.
pub record Dxgi : Type 0 where
  pub surface_format : ℕ
  pub encode_gpu : Option (Option ℕ)

-- A capture object; `dxgi` is what the dynamic_cast and `pipeline()` yield.
pub record Capture : Type 0 where
  pub width : ℕ
  pub height : ℕ
  pub d3d_device : Option ℕ
  pub dxgi : Option Dxgi

pub record ExistingDesktopSource : Type 0 where
  pub injected : Option Capture
  pub capture : Option Capture
  pub dxgi : Option Dxgi
  pub format : ℕ
  pub qpc_freq : ℕ
  pub streak : NullStreakTracker

abbrev pub new_source : Option Capture → ExistingDesktopSource
new_source injected = record {
  injected = injected;
  capture = none;
  dxgi = none;
  format = 0;
  qpc_freq = 0;
  streak = reset_streak;
}

-- What IScreenCapture::create(), init() and the frequency query answer.
pub record InitAnswers : Type 0 where
  pub created : Option Capture
  pub init_ok : Bool
  pub frequency : Option ℕ

abbrev pub or_created : Option Capture → Option Capture → Option Capture
or_created none created = created
or_created (some c) created = some c

abbrev pub format_of : Option Dxgi → ℕ
format_of none = wgc_frame_pool_format
format_of (some d) = d.surface_format

abbrev pub frequency_or_zero : Option ℕ → ℕ
frequency_or_zero none = 0
frequency_or_zero (some f) = f

unfoldable pub init : ExistingDesktopSource → InitAnswers → ExistingDesktopSource × Bool
init s a = elim (or_created s.injected a.created) [
  | none ↦ (record s { injected = none; capture = none; dxgi = none }, false)
  | some c ↦
      if a.init_ok
      then (
        record {
          injected = none;
          capture = some c;
          dxgi = c.dxgi;
          format = format_of c.dxgi;
          qpc_freq = frequency_or_zero a.frequency;
          streak = reset_streak;
        },
        true,
      )
      else (record s { injected = none; capture = none; dxgi = none }, false)
]

unfoldable pub qpc_now_us : ℕ → ℕ → ℕ
qpc_now_us freq ticks =
    if freq == 0 then 0 else (ticks / freq * 1_000_000 + ticks % freq * 1_000_000 / freq) % 2 ^ 64

abbrev pub empty_frame : SourceFrame
empty_frame = record {
  type = HandleType.d3d11;
  handle = none;
  width = 0;
  height = 0;
  format = 0;
  timestamp_us = 0;
}

unfoldable pub next_frame :
    ExistingDesktopSource → CapturedFrame → ℕ → ExistingDesktopSource × SourceFrame
unfolding on_frame map_captured_frame qpc_now_us
next_frame s frame ticks = elim s.capture [
  | none ↦ (s, empty_frame)
  | some c ↦ (
    record s { streak = on_frame s.streak (is_some frame.handle) },
    map_captured_frame frame s.format (qpc_now_us s.qpc_freq ticks),
  )
]

abbrev pub device_of : Option Dxgi → Option ℕ → Option ℕ
device_of none own = own
device_of (some d) own = elim d.encode_gpu [ none ↦ own | some device ↦ device ]

unfoldable pub metadata : ExistingDesktopSource → SourceMetadata
metadata s = elim s.capture [
  | none ↦ record { width = 0; height = 0; format = 0; device = none }
  | some c ↦ record {
    width = c.width;
    height = c.height;
    format = s.format;
    device = device_of s.dxgi c.d3d_device;
  }
]

unfoldable pub state : ExistingDesktopSource → SourceState
unfolding needs_reinit
state s = elim s.capture [
  | none ↦ SourceState.uninitialized
  | some c ↦ if needs_reinit s.streak then SourceState.needs_reinit else SourceState.running
]

unfoldable pub shutdown : ExistingDesktopSource → ExistingDesktopSource
shutdown s = record s { dxgi = none; capture = none }

split_ticks : (f q r m : ℕ) → 0 < f → (f * q + r) * m / f ≡ q * m + r * m / f
split_ticks f q r m h =
    let regrouped : (f * q + r) * m ≡ f * (q * m) + r * m = grind arith in
    ap (λ n. n / f) regrouped ∙ mul-add-div h (q * m) (r * m)

-- The division before the multiplication loses nothing: the microseconds are those of the exact
-- quotient, while they fit 64 bits.
pub qpc_now_us-exact :
    (freq ticks : ℕ)
    → 0 < freq
    → ticks * 1_000_000 / freq < 2 ^ 64
    → qpc_now_us freq ticks ≡ ticks * 1_000_000 / freq
unfolding qpc_now_us
qpc_now_us-exact freq ticks pos_freq small =
    let whole : ticks * 1_000_000 / freq
        ≡ ticks / freq * 1_000_000 + ticks % freq * 1_000_000 / freq =
      ap (λ n. n * 1_000_000 / freq) (sym (div-add-mod ticks freq))
      ∙ split_ticks freq (ticks / freq) (ticks % freq) 1_000_000 pos_freq in
    ground arith
