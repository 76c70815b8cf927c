-- ===== src/Nvenc/Reconfigure.antt =====
-- The calls of ReconfigureEncoder in encode_nvenc.cpp.
pub mod Size
pub mod Absolute
pub mod Refused
use reji_studio.Base.{
  ℕ, zero, suc, ◌+◌, ◌%◌, ◌≤◌, ◌<◌, ◌≡◌, Bool, true, false, Option, none, some, List, [], ◌∷◌, ◌++◌,
  ◌∙◌, ap, ap₂, sym, subst, if◌then◌else◌, arith, refl, not, All, All-append, ltb, ◌||◌,
}
use reji_studio.Base.Int.{ℤ}
use reji_studio.Nvenc.{
  SavedConfig, SavedInit, Handle, library, session, buffer, resource, mapped, locked, NvCall, took,
  gave_back, initialize, reconfigure, encode_picture, end_of_stream, hand_over, Impl, Outcome,
  and_then, refused,
}
use reji_studio.Nvenc.Session.{flush}
use reji_studio.Nvenc.Frame.{
  FrameAnswers, register_anew, ensure_registered, drain_one, delivered, after_picture,
  submit_mapped, submit, encode_one, encode_frame,
}
use reji_studio.Nvenc.Rates.{
  Scale, send, scaled, clamped, resized, adopt_size, with_bitrate, set_bitrate, set_resolution,
  set_fps_limit,
}
use reji_studio.Nvenc.Handles.Requests.{
  Request, encode, change_bitrate, change_resolution, change_fps, flush_now, serve, serve_all,
}

-- A call is no reconfiguration, or one whose parameters satisfy P.
abbrev pub Sends : (SavedConfig → SavedInit → Type 0) → NvCall → Type 0
Sends P (reconfigure c i) = P c i
Sends P _ = Unit

-- What a frame leaves of the state that the reconfigurations read.
pub record SameRates (s t : Impl) : Type 0 where
  pub same_cfg : t.saved_cfg ≡ s.saved_cfg
  pub same_init : t.saved_init ≡ s.saved_init
  pub same_width : t.orig_width ≡ s.orig_width
  pub same_height : t.orig_height ≡ s.orig_height

pub encode_frame-SameRates :
    (s : Impl) (tex : Option ℕ) (pts : ℤ) (idr : Bool) (a : FrameAnswers)
    → SameRates s (encode_frame s tex pts idr a).state
unfolding encode_frame encode_one and_then ensure_registered register_anew submit submit_mapped
    after_picture drain_one
encode_frame-SameRates s tex pts idr a = ground arith

pub encode_frame-Sends :
    (P : SavedConfig → SavedInit → Type 0) (s : Impl) (tex : Option ℕ) (pts : ℤ) (idr : Bool)
    (a : FrameAnswers)
    → All (Sends P) (encode_frame s tex pts idr a).calls
unfolding encode_frame encode_one and_then ensure_registered register_anew submit submit_mapped
    after_picture drain_one delivered
encode_frame-Sends P s tex pts idr a = ground arith

pub flush-Sends : (P : SavedConfig → SavedInit → Type 0) (s : Impl) → All (Sends P) (flush s)
unfolding flush
flush-Sends P s = ground arith
