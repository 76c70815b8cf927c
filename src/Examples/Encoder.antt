-- ===== src/Examples/Encoder.antt =====
-- The NVENC encoder at concrete inputs.
use reji_studio.Base.{
  ◌+◌, ◌≡◌, refl, true, false, none, some, List, [], ◌∷◌, ◌==◌, if◌then◌else◌, All, arith,
}
use reji_studio.Base.Int.{pos}
use reji_studio.Nvenc
use reji_studio.Nvenc.{Impl, Config, Handle, h264, default_config, new_impl}
use reji_studio.Nvenc.Session.{
  InitAnswers, init, shutdown, load_dll, open_session, init_encoder, create_output_bufs,
  create_bufs,
}
use reji_studio.Nvenc.Frame.{FrameAnswers, success}
use reji_studio.Nvenc.Rates.{Scale, set_bitrate, set_resolution, with_bitrate}
use reji_studio.Nvenc.Handles.{acquired, released, holds}
use reji_studio.Nvenc.Handles.Setup.{IsIdle}
use reji_studio.Nvenc.Handles.Requests.{Request, serve_all}
use reji_studio.Nvenc.Handles.Whole.{whole_life, whole_life-gives_all, init-fails_holding}
use reji_studio.Nvenc.Reconfigure.{Sends}
use reji_studio.Nvenc.Reconfigure.Size.{IsCapped, FitsSession, serve_all-keeps_size}
use reji_studio.Nvenc.Reconfigure.Absolute.{resize_all, set_resolution-absolute}
use reji_studio.Nvenc.Reconfigure.Refused.{Carries, set_bitrate-persists}

abbrev idle : Impl
idle = new_impl 12 6000

idle-IsIdle : IsIdle idle
idle-IsIdle = record {
  no_library = refl;
  no_session = refl;
  no_first = refl;
  no_second = refl;
  no_third = refl;
  no_resource = refl;
  not_ready = refl;
}

abbrev driver : InitAnswers
driver = record {
  dll_handle = some 1;
  has_create = true;
  max_version = 0;
  create_ok = true;
  session_handle = some 2;
  preset_ok = true;
  initialize_ok = true;
  buffer_handle = λ i. some (i + 10);
}

-- The second buffer is refused.
abbrev short_driver : InitAnswers
short_driver = record driver { buffer_handle = λ i. if i == 1 then none else some (i + 10) }

sets_up : (init 12 idle true (default_config 6000) true driver).ok ≡ true
unfolding init load_dll open_session init_encoder create_output_bufs create_bufs Nvenc.and_then
sets_up = refl

falls_short : (init 12 idle true (default_config 6000) true short_driver).ok ≡ false
unfolding init load_dll open_session init_encoder create_output_bufs create_bufs Nvenc.and_then
falls_short = refl

abbrev frame : FrameAnswers
frame = record {
  registered = some 20;
  mapped_input = some 30;
  encoded = success;
  bitstream = some (record { size = 900; is_intra = true });
}

abbrev half : Scale
half = record { mantissa = 1; shift = 1 }

abbrev whole : Scale
whole = record { mantissa = 1; shift = 0 }

abbrev requests : List Request
requests =
    (Request.encode (some 7) (pos 0) true frame
      ∷ Request.change_resolution half true
      ∷ Request.encode (some 8) (pos 16_666) false frame
      ∷ Request.change_fps 30 false
      ∷ [])

whole_life-gives_all_example :
    acquired
      (Handle.resource 20)
      (whole_life (init 12 idle true (default_config 6000) true driver) requests)
    ≡ released
        (Handle.resource 20)
        (whole_life (init 12 idle true (default_config 6000) true driver) requests)
whole_life-gives_all_example =
    whole_life-gives_all (Handle.resource 20) 12 idle true (default_config 6000) true driver
      requests idle-IsIdle sets_up

init-fails_holding_example :
    let o = init 12 idle true (default_config 6000) true short_driver in
    let down = shutdown o.state in
    (down.calls ≡ [])
    × ((down.state ≡ o.state)
        × ((released (Handle.session 2) o.calls ≡ 0)
            × (acquired (Handle.session 2) o.calls ≡ holds (Handle.session 2) down.state)))
init-fails_holding_example =
    init-fails_holding (Handle.session 2) 12 idle true (default_config 6000) true short_driver
      idle-IsIdle falls_short

-- A session of 1920 by 1080 that is under way.
abbrev session : Impl
session = record idle {
  initialized = true;
  nv_session = some 2;
  orig_width = 1920;
  orig_height = 1080;
  saved_init = record {
    guid = h264;
    encode_width = 1920;
    encode_height = 1080;
    max_encode_width = 1920;
    max_encode_height = 1080;
    frame_rate_num = 60;
    frame_rate_den = 1;
  };
}

serve_all-keeps_size_example :
    IsCapped (serve_all session requests).state
    × All (Sends (FitsSession 1920 1080)) (serve_all session requests).calls
serve_all-keeps_size_example =
    serve_all-keeps_size session requests
      (record { max_wide = refl; max_high = refl; narrow = omega arith; low = omega arith })

set_resolution-absolute_example :
    ((set_resolution (resize_all session ((half, true) ∷ (half, false) ∷ [])) whole true).calls
      ≡ (set_resolution session whole true).calls)
    × ((set_resolution (resize_all session ((half, true) ∷ (half, false) ∷ [])) whole true).ok
        ≡ (set_resolution session whole true).ok)
set_resolution-absolute_example =
    set_resolution-absolute session ((half, true) ∷ (half, false) ∷ []) whole true

set_bitrate-persists_example :
    let o = set_bitrate session 3000 false in
    All
      (Sends (Carries (with_bitrate session.saved_cfg 3000)))
      (serve_all o.state (Request.change_fps 30 true ∷ [])).calls
    × (o.state.config.bitrate_kbps ≡ 6000)
set_bitrate-persists_example =
    set_bitrate-persists session 3000 false (Request.change_fps 30 true ∷ []) refl (tt, tt)
