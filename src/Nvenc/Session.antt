-- ===== src/Nvenc/Session.antt =====
-- src/pipeline/encode/encode_nvenc.cpp: loading the library, opening the session, and taking both
-- down again.
use reji_studio.Base.{
  ℕ, zero, suc, ◌+◌, ◌*◌, ◌/◌, ◌%◌, ◌^◌, Bool, true, false, Option, none, some, List, [], ◌∷◌, ◌++◌,
  ◌==◌, if◌then◌else◌, bit_or, ltb, update, not,
}
use reji_studio.Nvenc.{
  Config, SavedConfig, SavedInit, Handle, library, session, buffer, resource, NvCall, took,
  gave_back, initialize, end_of_stream, Impl, Outcome, and_then, refused, vbv_bits,
  bitstream_pool_size,
}

-- What the library and the driver answer while the encoder is set up. A failing call that would hand
-- out a handle answers `none`; max_version is 0 if the driver has no such query.
pub record InitAnswers : Type 0 where
  pub dll_handle : Option ℕ
  pub has_create : Bool
  pub max_version : ℕ
  pub create_ok : Bool
  pub session_handle : Option ℕ
  pub preset_ok : Bool
  pub initialize_ok : Bool
  pub buffer_handle : ℕ → Option ℕ

-- (raw_max >> 4) | ((raw_max & 0xF) << 24)
unfoldable pub converted_version : ℕ → ℕ
converted_version raw_max = bit_or (raw_max / 16) (raw_max % 16 * 2 ^ 24)

unfoldable pub negotiate : ℕ → ℕ → ℕ → ℕ
unfolding converted_version
negotiate api_version raw_max current =
    let converted = converted_version raw_max in
    if raw_max == 0 then current else if ltb converted api_version then converted else current

-- NVENCAPI_VERSION is the first argument.
unfoldable pub load_dll : ℕ → Impl → InitAnswers → Outcome
load_dll api_version s a = elim a.dll_handle [
  | none ↦ refused (record s { dll = none })
  | some h ↦
      let loaded = record s { dll = some h } in
      let version = negotiate api_version a.max_version s.driver_api_ver in
      if not a.has_create
      then record { state = loaded; ok = false; calls = took (library h) ∷ [] }
      else record {
        state = record loaded { driver_api_ver = version };
        ok = a.create_ok;
        calls = took (library h) ∷ [];
      }
]

unfoldable pub open_session : InitAnswers → Impl → Outcome
open_session a s = elim a.session_handle [
  | none ↦ refused (record s { nv_session = none })
  | some h ↦ record {
    state = record s { nv_session = some h };
    ok = true;
    calls = took (session h) ∷ [];
  }
]

-- The configuration that init_encoder fills in, over the preset's.
unfoldable pub encode_config : Config → SavedConfig
unfolding vbv_bits
encode_config c = record {
  average_bitrate = c.bitrate_kbps * 1000 % 2 ^ 32;
  max_bitrate = c.max_bitrate_kbps * 1000 % 2 ^ 32;
  vbv_buffer_size = vbv_bits c.bitrate_kbps;
  vbv_initial_delay = vbv_bits c.bitrate_kbps;
  frame_interval_p = 1;
  gop_length = c.gop_size;
  repeat_sps_pps = true;
}

unfoldable pub initialize_params : Config → SavedInit
initialize_params c = record {
  guid = c.codec;
  encode_width = c.width;
  encode_height = c.height;
  max_encode_width = c.width;
  max_encode_height = c.height;
  frame_rate_num = c.fps_num;
  frame_rate_den = c.fps_den;
}

unfoldable pub init_encoder : InitAnswers → Impl → Outcome
unfolding encode_config initialize_params
init_encoder a s =
    let enc = encode_config s.config in
    let init = initialize_params s.config in
    let sized = record s { orig_width = s.config.width; orig_height = s.config.height } in
    if not a.preset_ok
    then refused s
    else if a.initialize_ok
    then record {
      state = record sized { saved_cfg = enc; saved_init = init };
      ok = true;
      calls = initialize enc init ∷ [];
    }
    else record { state = sized; ok = false; calls = initialize enc init ∷ [] }

-- for (int i = 0; i < kBitstreamPoolSize; ++i), with the passes left and the index.
unfoldable pub create_bufs : InitAnswers → ℕ → ℕ → Impl → Outcome
create_bufs a zero i s = record { state = s; ok = true; calls = [] }
create_bufs a (suc n) i s = elim (a.buffer_handle i) [
  | none ↦ refused s
  | some h ↦
      let rest = create_bufs a n (i + 1) (record s { out_bufs = update s.out_bufs i (some h) }) in
      record rest { calls = took (buffer h) ∷ rest.calls }
]

unfoldable pub create_output_bufs : InitAnswers → Impl → Outcome
unfolding create_bufs
create_output_bufs a s = create_bufs a bitstream_pool_size 0 s

abbrev pub mark_ready : Impl → Outcome
mark_ready s = record { state = record s { initialized = true }; ok = true; calls = [] }

-- The device is null or not; the callback is set or empty.
unfoldable pub init : ℕ → Impl → Bool → Config → Bool → InitAnswers → Outcome
unfolding load_dll open_session init_encoder create_output_bufs and_then
init api_version s has_device cfg has_callback a =
    let configured = record s { config = cfg; on_packet = has_callback } in
    if not has_device
    then refused s
    else if cfg.fps_num == 0
    then refused s
    else and_then
        (and_then
          (and_then (and_then (load_dll api_version configured a) (open_session a))
            (init_encoder a))
          (create_output_bufs a))
        mark_ready

-- A handle that is held is given back.
abbrev pub give_back : (ℕ → Handle) → Option ℕ → List NvCall
give_back kind none = []
give_back kind (some h) = gave_back (kind h) ∷ []

-- for (int i = 0; i < kBitstreamPoolSize; ++i): the calls, and the pool with each cell null.
unfoldable pub destroy_bufs : (ℕ → Option ℕ) → ℕ → ℕ → List NvCall
destroy_bufs bufs zero i = []
destroy_bufs bufs (suc n) i = give_back buffer (bufs i) ++ destroy_bufs bufs n (i + 1)

unfoldable pub clear_bufs : (ℕ → Option ℕ) → ℕ → ℕ → ℕ → Option ℕ
clear_bufs bufs zero i = bufs
clear_bufs bufs (suc n) i = clear_bufs (update bufs i none) n (i + 1)

-- The texture of the cache is forgotten with its registration.
abbrev pub tex_after : Option ℕ → Option ℕ → Option ℕ
tex_after none tex = tex
tex_after (some r) tex = none

unfoldable pub destroy : Impl → Outcome
unfolding destroy_bufs clear_bufs
destroy s = record {
  state = record s {
    reg_res = none;
    reg_tex = tex_after s.reg_res s.reg_tex;
    out_bufs = clear_bufs s.out_bufs bitstream_pool_size 0;
    nv_session = none;
    dll = none;
  };
  ok = true;
  calls =
      give_back resource s.reg_res
      ++ (destroy_bufs s.out_bufs bitstream_pool_size 0
          ++ (give_back session s.nv_session ++ give_back library s.dll));
}

-- The calls of a flush: the end of the stream, if there is a session.
unfoldable pub flush : Impl → List NvCall
flush s =
    if not s.initialized then [] else elim s.nv_session [ none ↦ [] | some h ↦ end_of_stream ∷ [] ]

unfoldable pub shutdown : Impl → Outcome
unfolding flush destroy
shutdown s =
    let d = destroy s in
    if not s.initialized then record { state = s; ok = true; calls = [] } else record {
      state = record d.state { initialized = false };
      ok = true;
      calls = flush s ++ d.calls;
    }
