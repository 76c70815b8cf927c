-- ===== src/Wasapi.antt =====
-- src/pipeline/audio/wasapi_capture.h and wasapi_capture.cpp: the sound device. WASAPI is foreign:
-- its answers and the clock are arguments, and a journal keeps the buffers, the callbacks and the
-- reports. The values of the samples, COM, the events and the processor load are left out.
pub mod Engine
pub mod Packet
pub mod Buffers
pub mod Drops
pub mod States
use reji_studio.Base.{
  ℕ, ◌+◌, Bool, true, false, ◌&&◌, ◌||◌, not, List, [], ◌∷◌, ◌==◌, ltb, if◌then◌else◌,
}
use reji_studio.Base.Int.{ℤ, pos}

-- WasapiCapture::Config; of the device's name only whether one is given matters here.
pub record WasapiConfig : Type 0 where
  pub exclusive_mode : Bool
  pub sample_rate : ℕ
  pub channels : ℕ
  pub bit_depth : ℕ
  pub buffer_ms : ℕ
  pub loopback : Bool
  pub has_device_id : Bool

pub record Format : Type 0 where
  pub rate : ℕ
  pub channel_count : ℕ
  pub bits : ℕ
  pub is_float : Bool

abbrev pub max_frames : ℕ
max_frames = 8192

abbrev pub max_channels : ℕ
max_channels = 8

-- WasapiCapture: a COM pointer is held or null.
pub record Wasapi : Type 0 where
  pub cfg : WasapiConfig
  pub initialized : Bool
  pub start_requested : Bool
  pub stop_thread : Bool
  pub running : Bool
  pub device_dirty : Bool
  pub engine_active : Bool
  pub has_device : Bool
  pub has_audio_client : Bool
  pub has_capture_client : Bool
  pub has_mix_format : Bool
  pub using_exclusive : Bool
  pub actual : Format
  pub buffer_frames : ℕ
  pub overrun_count : ℕ
  pub underrun_count : ℕ
  pub frame_drops : ℕ
  pub jitter_count : ℕ
  pub jitter_glitches : ℕ
  pub silence_start_us : ℤ
  pub silence_logged : Bool
  pub last_metric_us : ℤ

-- The checks of init on the configuration.
unfoldable pub is_usable : WasapiConfig → Bool
is_usable c =
    not ((c.channels == 0) || ltb max_channels c.channels)
    && (not (ltb c.sample_rate 8000 || ltb 192_000 c.sample_rate)
        && (((c.bit_depth == 16) || (c.bit_depth == 32))
            && not ((c.buffer_ms == 0) || ltb 1000 c.buffer_ms)))

-- What init is answered: by CoInitializeEx, the enumerator, the notification client, its
-- registration, the two events and the thread.
pub record InitAnswers : Type 0 where
  pub com_ok : Bool
  pub enumerator_ok : Bool
  pub client_ok : Bool
  pub register_ok : Bool
  pub events_ok : Bool
  pub thread_ok : Bool

-- What shutdown leaves, after the supervisor has been joined.
unfoldable pub shut : Wasapi → Wasapi
shut s = record s {
  stop_thread = true;
  start_requested = false;
  initialized = false;
  has_device = false;
  has_audio_client = false;
  has_capture_client = false;
  has_mix_format = false;
}

-- The three callbacks are given or not.
unfoldable pub init : Wasapi → WasapiConfig → Bool → InitAnswers → Wasapi × Bool
unfolding is_usable shut
init s c has_callbacks a =
    let set = record s { cfg = c } in
    let ready = a.enumerator_ok && (a.client_ok && (a.register_ok && a.events_ok)) in
    if s.initialized
    then (s, false)
    else if not has_callbacks
    then (s, false)
    else if not (is_usable c)
    then (s, false)
    else if not a.com_ok
    then (set, false)
    else if not ready
    then (shut set, false)
    else if not a.thread_ok
    then (shut set, false)
    else (record set { stop_thread = false; initialized = true }, true)

unfoldable pub start : Wasapi → Wasapi × Bool
start s =
    if not s.initialized
    then (s, false)
    else if s.start_requested
    then (s, false)
    else (record s { start_requested = true }, true)

unfoldable pub stop : Wasapi → Wasapi × Bool
stop s =
    if not s.initialized
    then (s, false)
    else if s.start_requested
    then (record s { start_requested = false }, true)
    else (s, false)

-- A device is added, removed, changed or no longer the default: the client is told as well.
unfoldable pub on_device_change : Wasapi → Wasapi
on_device_change s = record s { device_dirty = true }
