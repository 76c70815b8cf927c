-- ===== src/Nvenc/Rates.antt =====
-- src/pipeline/encode/encode_nvenc.cpp: the three reconfigurations of a running session. Whether the
-- driver accepts one is an argument.
use reji_studio.Base.{ℕ, ◌*◌, ◌/◌, ◌%◌, ◌^◌, Bool, ◌||◌, [], ◌∷◌, ltb, if◌then◌else◌, not}
use reji_studio.Base.Single.{round_single}
use reji_studio.Nvenc.{SavedConfig, reconfigure, Impl, Outcome, refused, vbv_bits}

-- ReconfigureEncoder with the saved parameters: on success `accepted` is the state that is left.
abbrev pub send : Impl → Impl → Bool → Outcome
send saved accepted answer = record {
  state = if answer then accepted else saved;
  ok = answer;
  calls = reconfigure saved.saved_cfg saved.saved_init ∷ [];
}

unfoldable pub with_bitrate : SavedConfig → ℕ → SavedConfig
unfolding vbv_bits
with_bitrate c kbps = record c {
  average_bitrate = kbps * 1000 % 2 ^ 32;
  max_bitrate = kbps * 1000 % 2 ^ 32;
  vbv_buffer_size = vbv_bits kbps;
  vbv_initial_delay = vbv_bits kbps;
}

unfoldable pub set_bitrate : Impl → ℕ → Bool → Outcome
unfolding with_bitrate
set_bitrate s kbps answer =
    let saved = record s { saved_cfg = with_bitrate s.saved_cfg kbps } in
    if not s.initialized
    then refused s
    else send saved (record saved { config = record s.config { bitrate_kbps = kbps } }) answer

-- A positive, finite float: mantissa / 2 ^ shift. The source refuses zero and the negative ones; NaN
-- and infinity, which it lets through, are not modelled.
pub record Scale : Type 0 where
  pub mantissa : ℕ
  pub shift : ℕ

-- static_cast<uint32_t>(dim * scale_factor): the product is rounded to single precision, and its
-- fraction is dropped. The cast is defined for a product below 2^32.
unfoldable pub scaled : ℕ → Scale → ℕ
scaled dim f = round_single (round_single dim * f.mantissa) / 2 ^ f.shift

unfoldable pub clamped : Impl → ℕ → ℕ → ℕ × ℕ
clamped s w h =
    if ltb s.orig_width w || ltb s.orig_height h then (s.orig_width, s.orig_height) else (w, h)

-- The states that a new size leaves: as sent, and with the configuration that follows success.
unfoldable pub resized : Impl → ℕ × ℕ → Impl
resized s size = record s {
  saved_init = record s.saved_init {
    encode_width = size.0;
    encode_height = size.1;
    max_encode_width = s.orig_width;
    max_encode_height = s.orig_height;
  };
}

unfoldable pub adopt_size : Impl → ℕ × ℕ → Impl
adopt_size s size = record s { config = record s.config { width = size.0; height = size.1 } }

unfoldable pub set_resolution : Impl → Scale → Bool → Outcome
unfolding scaled clamped resized adopt_size
set_resolution s f answer =
    let w = scaled s.orig_width f in
    let h = scaled s.orig_height f in
    let size = clamped s w h in
    if not s.initialized || ltb f.mantissa 1
    then refused s
    else if ltb w 128 || ltb h 128
    then refused s
    else send (resized s size) (adopt_size (resized s size) size) answer

unfoldable pub set_fps_limit : Impl → ℕ → Bool → Outcome
set_fps_limit s fps answer =
    let saved = record s {
      config = record s.config { fps_num = fps };
      saved_init = record s.saved_init { frame_rate_num = fps; frame_rate_den = 1 };
    } in
    if not s.initialized || (ltb fps 1 || ltb 120 fps) then refused s else send saved saved answer
