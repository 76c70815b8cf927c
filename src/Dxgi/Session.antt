-- ===== src/Dxgi/Session.antt =====
-- DxgiCaptureSession of capture_dxgi.cpp.
use reji_studio.Base.{
  ℕ, zero, suc, ◌+◌, Bool, true, false, ◌&&◌, ◌||◌, not, Option, none, some, List, [], ◌∷◌, ◌++◌,
  ◌==◌, if◌then◌else◌,
}
use reji_studio.Base.Int.{ℤ, ◌-ℤ◌}
use reji_studio.Dxgi.{
  DxgiCall, acquired, released, null_call, to_u32, Rect, DxgiCaptureSession, CaptureFrame,
}

-- What create_duplication is answered: by EnumOutputs and GetDesc, by the query for IDXGIOutput1, by
-- each DuplicateOutput and by the duplication's GetDesc.
pub record DuplicationAnswers : Type 0 where
  pub output : Option Rect
  pub has_output1 : Bool
  pub duplicates : ℕ → Bool
  pub dupl_format : ℕ

-- for (int attempt = 0; attempt < 3 && FAILED(hr); ++attempt), by the attempts left.
unfoldable pub try_duplicate : ℕ → ℕ → (ℕ → Bool) → Bool
try_duplicate zero attempt duplicates = false
try_duplicate (suc left) attempt duplicates =
    duplicates attempt || try_duplicate left (attempt + 1) duplicates

-- The session after an output has been found.
unfoldable pub duplicate :
    DxgiCaptureSession → DuplicationAnswers → Rect → DxgiCaptureSession × Bool
unfolding try_duplicate
duplicate s a rect =
    let sized = record s {
      width = to_u32 (rect.right -ℤ rect.left);
      height = to_u32 (rect.bottom -ℤ rect.top);
    } in
    if not a.has_output1
    then (sized, false)
    else if not (try_duplicate 3 0 a.duplicates)
    then (sized, false)
    else (record sized { has_duplication = true; surface_format = a.dupl_format }, true)

unfoldable pub on_output :
    DxgiCaptureSession → DuplicationAnswers → Option Rect → DxgiCaptureSession × Bool
unfolding duplicate
on_output s a none = (s, false)
on_output s a (some rect) = duplicate s a rect

unfoldable pub create_duplication :
    DxgiCaptureSession → DuplicationAnswers → DxgiCaptureSession × Bool
unfolding on_output
create_duplication s a =
    on_output
      (record s {
        has_duplication = false;
        frame_tex = none;
        frame_held = false;
        needs_reinit = false;
      })
      a a.output

unfoldable pub init : DxgiCaptureSession → ℕ → ℕ → DuplicationAnswers → DxgiCaptureSession × Bool
unfolding create_duplication
init s output_index timeout_ms a =
    let o =
      create_duplication
        (record s { has_device = true; output_index = output_index; timeout_ms = timeout_ms }) a in
    if o.1 then (record o.0 { initialized = true }, true) else (o.0, false)

-- duplication_->ReleaseFrame() of a held frame.
unfoldable pub release_call : DxgiCaptureSession → DxgiCall
release_call s = if s.has_duplication then released else null_call

-- if (frame_held_ && duplication_), in reinit and in shutdown.
unfoldable pub give_back : DxgiCaptureSession → DxgiCaptureSession × List DxgiCall
give_back s =
    if s.frame_held && s.has_duplication
    then (record s { frame_held = false }, released ∷ [])
    else (s, [])

unfoldable pub reinit :
    DxgiCaptureSession → DuplicationAnswers → DxgiCaptureSession × Bool × List DxgiCall
unfolding create_duplication give_back
reinit s a =
    let back = give_back s in
    let o = create_duplication (record (back.0) { frame_tex = none }) a in (o.0, o.1, back.1)

unfoldable pub shutdown : DxgiCaptureSession → DxgiCaptureSession × List DxgiCall
unfolding give_back
shutdown s =
    let back = give_back s in
    (
      record (back.0) {
        frame_tex = none;
        has_duplication = false;
        has_device = false;
        initialized = false;
        needs_reinit = false;
      },
      back.1,
    )

-- What AcquireNextFrame answers; a frame has its AccumulatedFrames, its texture if the query for one
-- succeeds, and its LastPresentTime.
pub data AcquireAnswer : Type 0 where
  wait_timeout : AcquireAnswer
  access_lost : AcquireAnswer
  device_removed : AcquireAnswer
  acquire_failed : AcquireAnswer
  next_frame : ℕ → Option ℕ → ℤ → AcquireAnswer

-- `faulted` says that the call went through a null pointer and did not return.
pub record Acquired : Type 0 where
  pub session : DxgiCaptureSession
  pub frame : Option CaptureFrame
  pub faulted : Bool
  pub calls : List DxgiCall

unfoldable pub keep_frame : DxgiCaptureSession → ℕ → ℤ → Acquired
keep_frame s tex time = record {
  session = record s { frame_tex = some tex; frame_held = true };
  frame = some (record {
    texture = tex;
    frame_width = s.width;
    frame_height = s.height;
    format = s.surface_format;
    present_time = time;
  });
  faulted = false;
  calls = acquired ∷ [];
}

-- After AcquireNextFrame, through a duplication that is held.
unfoldable pub on_answer : DxgiCaptureSession → AcquireAnswer → Acquired
unfolding keep_frame
on_answer s wait_timeout = record { session = s; frame = none; faulted = false; calls = [] }
on_answer s access_lost = record {
  session = record s { needs_reinit = true };
  frame = none;
  faulted = false;
  calls = [];
}
on_answer s device_removed = record {
  session = record s { needs_reinit = true };
  frame = none;
  faulted = false;
  calls = [];
}
on_answer s acquire_failed = record { session = s; frame = none; faulted = false; calls = [] }
on_answer s (next_frame accumulated none time) = record {
  session = record s { frame_held = false };
  frame = none;
  faulted = false;
  calls = acquired ∷ released ∷ [];
}
on_answer s (next_frame accumulated (some tex) time) =
    if accumulated == 0
    then record {
      session = record s { frame_held = false };
      frame = none;
      faulted = false;
      calls = acquired ∷ released ∷ [];
    }
    else keep_frame s tex time

-- if (frame_held_) of acquire, and release_frame.
unfoldable pub release_frame : DxgiCaptureSession → DxgiCaptureSession × List DxgiCall
unfolding release_call
release_frame s =
    if not s.frame_held
    then (s, [])
    else (record s { frame_tex = none; frame_held = false }, release_call s ∷ [])

-- The assertion on a held frame is not compiled into a release build.
unfoldable pub acquire : DxgiCaptureSession → AcquireAnswer → Acquired
unfolding on_answer release_frame
acquire s answer =
    let freed = release_frame s in
    let o = on_answer (freed.0) answer in
    if not s.initialized || s.needs_reinit
    then record { session = s; frame = none; faulted = false; calls = [] }
    else if not s.has_duplication
    then record {
      session = freed.0;
      frame = none;
      faulted = true;
      calls = freed.1 ++ (null_call ∷ []);
    }
    else record o { calls = freed.1 ++ o.calls }
