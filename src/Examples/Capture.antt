-- ===== src/Examples/Capture.antt =====
-- The capture by DXGI at concrete inputs.
use reji_studio.Base.{◌+◌, ◌≡◌, refl, true, false, none, some, List, [], ◌∷◌, arith}
use reji_studio.Base.Int.{pos}
use reji_studio.Dxgi.{s_ok, s_other, null_call, DxgiCaptureSession, new_session}
use reji_studio.Dxgi.Session.{
  DuplicationAnswers, try_duplicate, duplicate, on_output, create_duplication, give_back, reinit,
  next_frame,
}
use reji_studio.Dxgi.Transfer.{
  GpuResourceManager, new_manager, ManagerAnswers, open_shared, create_cross_adapter_shared,
  fall_back, sized_for, make_textures, finish, init, transfer,
}
use reji_studio.Dxgi.Delivery.{delivers, init-delivers}
use reji_studio.Dxgi.Pipeline.{DxgiCapturePipeline}
use reji_studio.Dxgi.Frame.{NextAnswers, returned, faults, capture_next}
use reji_studio.Dxgi.Held.{taken, given, owned_by}
use reji_studio.Dxgi.Returns.{IsAtRest, capture_next-IsAtRest}
use reji_studio.Dxgi.Life.{Move, moves, moves-balances_frames}
use reji_studio.Dxgi.Stranded.{failed_reinit_strands}

abbrev desk_session : DxgiCaptureSession
desk_session = record new_session {
  has_device = true;
  has_duplication = true;
  width = 1920;
  height = 1080;
  initialized = true;
}

abbrev desk_manager : GpuResourceManager
desk_manager = record new_manager { encode_tex = some 3; same_adapter = true; ready = true }

-- A capture with a shared texture and a fence, as on an AMD adapter.
abbrev desk : DxgiCapturePipeline
desk = record {
  output_index = 0;
  timeout_ms = 17;
  allow_cross_adapter = true;
  gpu_scan = [];
  display_ctx = some 1;
  encode_ctx = some 1;
  capture = some desk_session;
  resource_mgr = some desk_manager;
  preview_staging = none;
  shared_texture = some 4;
  staging_texture = some 5;
  keyed_mutex_shared = false;
  use_keyed_mutex = false;
  amd_copy_fence = true;
  preview_staging_dirty = false;
  preview_mapped = false;
  preview_cb = true;
  initialized = true;
}

-- The output is found, and no duplication of it is given.
abbrev no_duplication : DuplicationAnswers
no_duplication = record {
  output = some (record { left = pos 0; top = pos 0; right = pos 1920; bottom = pos 1080 });
  has_output1 = true;
  duplicates = λ i. false;
  dupl_format = 87;
}

-- A frame whose copy is not seen to end, while the clock goes on.
abbrev slow_copy : NextAnswers
slow_copy = record {
  preview = record { new_shared = none; has_mutex = false; new_staging = none; has_fence = false };
  duplication = no_duplication;
  next = next_frame 1 (some 9) (pos 77);
  transferred = record { read_map = s_ok; read_pitch = 7680; write_map = s_ok; write_pitch = 7680 };
  take_key = s_ok;
  give_key = s_ok;
  start = 0;
  polls = λ i. record { gd = s_other; is_done = false; tick = 100 };
}

capture_next-IsAtRest_example : IsAtRest (capture_next 5000 desk slow_copy)
capture_next-IsAtRest_example =
    capture_next-IsAtRest 5000 desk slow_copy
      (4096, omega arith, omega arith, (omega arith, omega arith)) refl refl

abbrev day : List Move
day = Move.next slow_copy ∷ Move.map_frame (some (1, 7680)) ∷ Move.unmap_frame ∷ Move.stop ∷ []

moves-balances_frames_example :
    taken (moves 5000 desk day).1 + 0
    ≡ given (moves 5000 desk day).1 + owned_by (moves 5000 desk day).0.capture
moves-balances_frames_example = moves-balances_frames 5000 desk day

abbrev lost_session : DxgiCaptureSession
lost_session = record desk_session { needs_reinit = true }

abbrev lost_desk : DxgiCapturePipeline
lost_desk = record desk { capture = some lost_session }

not_again : (reinit lost_session no_duplication).1 ≡ false
unfolding reinit give_back create_duplication on_output duplicate try_duplicate
not_again = refl

failed_reinit_strands_example :
    ((capture_next 5000 lost_desk slow_copy).result ≡ returned none)
    × ((capture_next 5000 (capture_next 5000 lost_desk slow_copy).state slow_copy).result ≡ faults)
    × ((capture_next 5000 (capture_next 5000 lost_desk slow_copy).state slow_copy).calls
        ≡ null_call ∷ [])
failed_reinit_strands_example =
    failed_reinit_strands 5000 lost_desk slow_copy slow_copy lost_session desk_manager refl refl
      refl refl refl not_again

-- Two adapters, whose sharing succeeds.
abbrev two_adapters : ManagerAnswers
two_adapters = record {
  display_luid = (1, 0);
  encode_luid = (2, 0);
  plain_tex = none;
  shared_tex = some 10;
  has_resource1 = true;
  new_handle = some 11;
  has_device1 = true;
  opened_tex = some 12;
  staging_tex = some 13;
  upload_tex = some 14;
}

shares_fine : (init new_manager 1920 1080 two_adapters).ok ≡ true
unfolding init sized_for make_textures create_cross_adapter_shared open_shared fall_back finish
shares_fine = refl

init-delivers_example :
    (transfer (init new_manager 1920 1080 two_adapters).manager 9 slow_copy.transferred).0
    ≡ delivers two_adapters slow_copy.transferred
init-delivers_example = init-delivers 1920 1080 two_adapters 9 slow_copy.transferred shares_fine
