-- ===== src/Recovery/Order.antt =====
-- src/pipeline/recovery_coordinator.cpp: when a recovery does anything, and what it leaves.
use reji_studio.Base.{
  ℕ, ◌+◌, ◌/◌, ◌^◌, ◌<◌, ◌≡◌, Bool, true, false, ◌&&◌, ◌||◌, not, Option, none, some, List, [], ◌∷◌,
  ◌++◌, arith, if◌then◌else◌, is_some, append-nil, All, ap, ◌∙◌, refl,
}
use reji_studio.Source.Desktop
use reji_studio.Source.Desktop.{ExistingDesktopSource, Dxgi, Capture, metadata, or_created}
use reji_studio.Encode
use reji_studio.Encode.{EncodeSubsystem, Encoder, reinit, destroyed}
use reji_studio.Trace.{Event, EncoderConfig, Reason, Trace}
use reji_studio.Recovery.{
  LossAnswers, Recovered, not_recovered, recover_wgc, recover_dxgi, restart_encoder, encode_device,
  handle_device_lost,
}

-- The device whose loss is asked about: the encode GPU's on the DXGI path, else the capture's own.
unfoldable pub watched_device : ExistingDesktopSource → Option ℕ
watched_device source = elim source.dxgi [
  | none ↦ (metadata source).device
  | some dxgi ↦ encode_device dxgi.encode_gpu
]

unfoldable pub is_lost : ExistingDesktopSource → LossAnswers → Bool
unfolding watched_device
is_lost source a = elim (watched_device source) [ none ↦ false | some dev ↦ a.removed dev ]

-- An encode that failed while the device is in place, or without a device, changes nothing, makes
-- no call and reports no recovery.
pub transient_untouched :
    (source : ExistingDesktopSource) (encode : EncodeSubsystem) (a : LossAnswers)
    (fps kbps width height : ℕ)
    → is_lost source a ≡ false
    → handle_device_lost source encode a fps kbps width height
      ≡ not_recovered source encode width height
unfolding handle_device_lost recover_wgc recover_dxgi is_lost watched_device
transient_untouched source encode a fps kbps width height h = ground arith

-- Whether the capture starts again.
unfoldable pub capture_back : ExistingDesktopSource → LossAnswers → Bool
capture_back source a = is_some (or_created source.injected a.source.created) && a.source.init_ok

-- An encoder, if there is one, runs on the source's own device, with the source's own size, at `fps`
-- frames a second and with the bitrate `kbps` and a quarter more as its limit.
unfoldable pub EncoderFits : Recovered → ℕ → ℕ → Type 0
EncoderFits r fps kbps = elim r.encode.encoder [
  | none ↦ Unit
  | some e ↦
      ((metadata r.source).device ≡ some e.device)
      × (e.config.width ≡ (metadata r.source).width)
      × (e.config.height ≡ (metadata r.source).height)
      × (e.config.fps_num ≡ fps)
      × (e.config.fps_den ≡ 1)
      × (e.config.bitrate_kbps ≡ kbps)
      × (e.config.max_bitrate_kbps ≡ kbps + kbps / 4)
      × (e.callback ≡ r.encode.packet_cb)
]

-- Once the device of the DXGI path is gone, the old encoder is gone too, whatever starts again: an
-- encoder that is left runs on the new capture's device, with the new capture's size, the given
-- frame rate and bitrate and the stored callback; the pipeline's width and height are the new
-- capture's if one started, else unchanged; the source holds a capture exactly if one started; and
-- the recovery succeeds exactly if the capture is back and the encoder runs or has no device to run
-- on.
pub dxgi_recovery-EncoderFits :
    (source : ExistingDesktopSource) (d : Dxgi) (encode : EncodeSubsystem) (a : LossAnswers)
    (fps kbps width height : ℕ)
    → source.dxgi ≡ some d
    → is_lost source a ≡ true
    → kbps + kbps / 4 < 2 ^ 32
    → let r = handle_device_lost source encode a fps kbps width height in
      let back = capture_back source a in
      EncoderFits r fps kbps
      × (r.width ≡ (if back then (metadata r.source).width else width))
      × (r.height ≡ (if back then (metadata r.source).height else height))
      × (is_some r.source.capture ≡ back)
      × (r.ok ≡ (back && (is_some r.encode.encoder || not (is_some (metadata r.source).device))))
unfolding EncoderFits handle_device_lost recover_dxgi restart_encoder reinit Encode.shutdown
    Desktop.init Desktop.shutdown metadata is_lost watched_device capture_back
dxgi_recovery-EncoderFits source d encode a fps kbps width height h lost small = ground arith

-- The encoder is torn down before the capture that it draws from, and built again only after it.
unfoldable pub dxgi_order : Option Encoder → List Event → Trace
dxgi_order old rebuilt =
    Event.connection_lost Reason.gpu_device_lost
    ∷ (destroyed old ++ (Event.source_shutdown ∷ Event.source_init ∷ rebuilt))

abbrev pub rebuild : Option ℕ → EncoderConfig → Trace
rebuild none cfg = []
rebuild (some device) cfg = Event.encoder_init device cfg ∷ []

abbrev pub config_of : Recovered → ℕ → ℕ → EncoderConfig
config_of r fps kbps = record {
  width = r.width;
  height = r.height;
  fps_num = fps;
  fps_den = 1;
  bitrate_kbps = kbps;
  max_bitrate_kbps = kbps + kbps / 4;
}

-- Once the device of the DXGI path is gone, the recovery reports the loss first, tears the encoder
-- down before the capture that feeds it, and builds the encoder again last, at most once, only
-- after the capture is back and only if the new capture has a device.
pub dxgi_recovery_order :
    (source : ExistingDesktopSource) (d : Dxgi) (encode : EncodeSubsystem) (a : LossAnswers)
    (fps kbps width height : ℕ)
    → source.dxgi ≡ some d
    → is_lost source a ≡ true
    → kbps + kbps / 4 < 2 ^ 32
    → let r = handle_device_lost source encode a fps kbps width height in
      r.trace
      ≡ dxgi_order encode.encoder (
          if capture_back source a
          then rebuild (metadata r.source).device (config_of r fps kbps)
          else [])
unfolding dxgi_order handle_device_lost recover_dxgi restart_encoder reinit Encode.shutdown
    Desktop.init Desktop.shutdown metadata is_lost watched_device capture_back
dxgi_recovery_order source d encode a fps kbps width height h lost small =
    ground (arith, append-nil (destroyed encode.encoder))

-- A WGC source on a device that is in place: nothing is lost.
quiet_device :
    (source : ExistingDesktopSource) (b : LossAnswers) (device : ℕ)
    → source.dxgi ≡ none
    → (metadata source).device ≡ some device
    → b.removed device ≡ false
    → is_lost source b ≡ false
unfolding is_lost watched_device metadata
quiet_device source b device none_here here kept = ground (arith, none_here, here, kept)

-- The recoveries that follow on another, one for each encode that fails.
abbrev pub retry_all : Recovered → ℕ → ℕ → List LossAnswers → Recovered
retry_all r fps kbps [] = r
retry_all r fps kbps (b ∷ bs) =
    retry_all (handle_device_lost r.source r.encode b fps kbps r.width r.height) fps kbps bs

retries_do_nothing :
    (source : ExistingDesktopSource) (encode : EncodeSubsystem) (fps kbps width height device : ℕ)
    (bs : List LossAnswers)
    → source.dxgi ≡ none
    → (metadata source).device ≡ some device
    → All (λ b. b.removed device ≡ false) bs
    → retry_all (not_recovered source encode width height) fps kbps bs
      ≡ not_recovered source encode width height
retries_do_nothing source encode fps kbps width height device [] d m kept = refl
retries_do_nothing source encode fps kbps width height device (b ∷ bs) d m (one, rest) =
    ap (λ r. retry_all r fps kbps bs)
      (transient_untouched source encode b fps kbps width height
        (quiet_device source b device d m one))
    ∙ retries_do_nothing source encode fps kbps width height device bs d m rest

-- A WGC capture that comes back on another device.
wgc_back :
    (source : ExistingDesktopSource) (encode : EncodeSubsystem) (a : LossAnswers) (c : Capture)
    (old fresh fps kbps width height : ℕ)
    → source.dxgi ≡ none
    → (metadata source).device ≡ some old
    → a.removed old ≡ true
    → or_created source.injected a.source.created ≡ some c
    → c.dxgi ≡ none
    → c.d3d_device ≡ some fresh
    → a.source.init_ok ≡ true
    → let r = handle_device_lost source encode a fps kbps width height in
      (r.ok ≡ true)
      × (r.encode ≡ encode)
      × (r.source.dxgi ≡ none)
      × ((metadata r.source).device ≡ some fresh)
unfolding handle_device_lost recover_wgc Desktop.init Desktop.shutdown metadata
wgc_back source encode a c old fresh fps kbps width height d m gone made wgc on started =
    (ground arith, ground arith, ground arith, ground arith)

-- On the WGC path, when the device that the capture and the encoder share is gone and the capture
-- starts again on another one, the recovery reports success with the old encoder in place, on the
-- removed device. However many encodes fail after that, while the new device is in place no
-- recovery does anything: none succeeds, none makes a call, and the same encoder is still there.
pub wgc_recovery_strands_encoder :
    (source : ExistingDesktopSource) (encode : EncodeSubsystem) (e : Encoder) (a b : LossAnswers)
    (bs : List LossAnswers) (c : Capture) (fresh fps kbps width height : ℕ)
    → source.dxgi ≡ none
    → encode.encoder ≡ some e
    → (metadata source).device ≡ some e.device
    → a.removed e.device ≡ true
    → or_created source.injected a.source.created ≡ some c
    → c.dxgi ≡ none
    → c.d3d_device ≡ some fresh
    → a.source.init_ok ≡ true
    → All (λ b. b.removed fresh ≡ false) (b ∷ bs)
    → let r = handle_device_lost source encode a fps kbps width height in
      let last = retry_all r fps kbps (b ∷ bs) in
      (r.ok ≡ true)
      × (r.encode.encoder ≡ some e)
      × ((metadata r.source).device ≡ some fresh)
      × (last.encode.encoder ≡ some e)
      × (last.ok ≡ false)
      × (last.trace ≡ [])
wgc_recovery_strands_encoder source encode e a b bs c fresh fps kbps width height d x m gone made
      wgc on started (one, rest) =
    let r = handle_device_lost source encode a fps kbps width height in
    let back =
      wgc_back source encode a c e.device fresh fps kbps width height d m gone made wgc on
        started in
    let kept : r.encode.encoder ≡ some e = ap (λ s. s.encoder) back.1 ∙ x in
    let done : retry_all r fps kbps (b ∷ bs) ≡ not_recovered r.source r.encode r.width r.height =
      ap (λ o. retry_all o fps kbps bs)
        (transient_untouched r.source r.encode b fps kbps r.width r.height
          (quiet_device r.source b fresh back.2 back.3 one))
      ∙ retries_do_nothing r.source r.encode fps kbps r.width r.height fresh bs back.2 back.3
          rest in
    (
      back.0,
      kept,
      back.3,
      ap (λ o. o.encode.encoder) done ∙ kept,
      ap Recovered.ok done,
      ap Recovered.trace done,
    )
