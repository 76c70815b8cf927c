-- ===== src/Wgc/Session.antt =====
-- WgcScreenCapture of capture_wgc.cpp: init, next_frame and shutdown.
use reji_studio.Base.{
  ℕ, ◌/◌, Bool, true, false, not, Option, none, some, List, [], ◌∷◌, ◌++◌, if◌then◌else◌,
}
use reji_studio.Base.Int.{◌-ℤ◌}
use reji_studio.Dxgi.{to_u32}
use reji_studio.Wgc.{Output, WgcAdapter, scan_adapters}

-- What is held of WinRT and D3D11, and taken by next_frame; a call through a null frame pool is
-- `null_pool`, in the program an access violation.
pub data WgcCall : Type 0 where
  opened_session : WgcCall
  closed_session : WgcCall
  took_frame : ℕ → WgcCall
  dropped_frame : ℕ → WgcCall
  null_pool : WgcCall

-- WgcScreenCapture: a held object is known by its pointer.
pub record WgcScreenCapture : Type 0 where
  pub device : Option ℕ
  pub last_tex : Option ℕ
  pub has_session : Bool
  pub has_frame_pool : Bool
  pub last_frame : Option ℕ
  pub width : ℕ
  pub height : ℕ

-- What init is answered: the adapters, if there is a factory; the device; CreateForMonitor.
pub record InitAnswers : Type 0 where
  pub adapters : Option (List WgcAdapter)
  pub new_device : Option ℕ
  pub item_ok : Bool

pub record Opened : Type 0 where
  pub state : WgcScreenCapture
  pub ok : Bool
  pub calls : List WgcCall

unfoldable pub init_capture : WgcScreenCapture → Bool → Opened
init_capture s item_ok =
    if not item_ok then record { state = s; ok = false; calls = [] } else record {
      state = record s { has_frame_pool = true; has_session = true };
      ok = true;
      calls = opened_session ∷ [];
    }

unfoldable pub on_monitor : WgcScreenCapture → Bool → Option Output → Opened
unfolding init_capture
on_monitor s item_ok none = record { state = s; ok = false; calls = [] }
on_monitor s item_ok (some o) =
    init_capture
      (record s {
        width = to_u32 (o.area.right -ℤ o.area.left);
        height = to_u32 (o.area.bottom -ℤ o.area.top);
      })
      item_ok

unfoldable pub on_device : WgcScreenCapture → InitAnswers → List WgcAdapter → ℕ → Option ℕ → Opened
unfolding on_monitor scan_adapters
on_device s a adapters output_index none = record { state = s; ok = false; calls = [] }
on_device s a adapters output_index (some d) =
    on_monitor (record s { device = some d }) a.item_ok (scan_adapters adapters output_index 0)

unfoldable pub on_factory : WgcScreenCapture → InitAnswers → ℕ → Option (List WgcAdapter) → Opened
unfolding on_device
on_factory s a output_index none = record { state = s; ok = false; calls = [] }
on_factory s a output_index (some adapters) = on_device s a adapters output_index a.new_device

unfoldable pub init : WgcScreenCapture → ℕ → InitAnswers → Opened
unfolding on_factory
init s output_index a = on_factory s a output_index a.adapters

-- What next_frame is answered: a frame; the interface; the texture; the time in units of 100 ns.
pub record FrameAnswers : Type 0 where
  pub frame : Option ℕ
  pub has_access : Bool
  pub tex : Option ℕ
  pub time : ℕ

-- CapturedFrame: the handle, the size and the time.
pub record Frame : Type 0 where
  pub handle : ℕ
  pub frame_width : ℕ
  pub frame_height : ℕ
  pub timestamp_us : ℕ

pub record Taken : Type 0 where
  pub state : WgcScreenCapture
  pub result : Option Frame
  pub calls : List WgcCall

unfoldable pub drop : Option ℕ → List WgcCall
drop none = []
drop (some f) = dropped_frame f ∷ []

unfoldable pub on_texture : WgcScreenCapture → ℕ → ℕ → Option ℕ → Taken
on_texture s f time none = record {
  state = record s { last_frame = none; last_tex = none };
  result = none;
  calls = took_frame f ∷ dropped_frame f ∷ [];
}
on_texture s f time (some t) = record {
  state = record s { last_frame = some f; last_tex = some t };
  result = some (record {
    handle = t;
    frame_width = s.width;
    frame_height = s.height;
    timestamp_us = time / 10;
  });
  calls = took_frame f ∷ [];
}

unfoldable pub on_frame : WgcScreenCapture → FrameAnswers → Option ℕ → Taken
unfolding on_texture
on_frame s a none = record { state = s; result = none; calls = [] }
on_frame s a (some f) =
    if not a.has_access
    then record { state = s; result = none; calls = took_frame f ∷ dropped_frame f ∷ [] }
    else on_texture s f a.time a.tex

unfoldable pub next_frame : WgcScreenCapture → FrameAnswers → Taken
unfolding on_frame drop
next_frame s a =
    let emptied = record s { last_tex = none; last_frame = none } in
    let o = on_frame emptied a a.frame in
    if not s.has_frame_pool
    then record { state = emptied; result = none; calls = drop s.last_frame ++ (null_pool ∷ []) }
    else record o { calls = drop s.last_frame ++ o.calls }

unfoldable pub shutdown : WgcScreenCapture → WgcScreenCapture × List WgcCall
unfolding drop
shutdown s = (
  record s {
    last_tex = none;
    last_frame = none;
    has_session = false;
    has_frame_pool = false;
    device = none;
  },
  drop s.last_frame ++ (if s.has_session then closed_session ∷ [] else []),
)
