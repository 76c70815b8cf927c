-- ===== src/Wasapi/Engine.antt =====
-- src/pipeline/audio/wasapi_capture.cpp: opening the device in one of three ways, and the supervisor
-- thread that keeps it open.
use reji_studio.Base.{ℕ, Bool, true, false, ◌&&◌, not, Option, none, some, List, [], if◌then◌else◌}
use reji_studio.Wasapi.{WasapiConfig, Format, Wasapi, shut}
use reji_studio.Wasapi.Packet.{AudioCall, Wakeup, capture_loop}

pub data ExclusiveAnswer : Type 0 where
  accepted : ExclusiveAnswer
  not_aligned : ExclusiveAnswer
  rejected : ExclusiveAnswer

-- The answers of the device in the order of the calls; a device that is null counts as not given.
pub record OpenAnswers : Type 0 where
  pub named_device : Bool
  pub default_device : Bool
  pub activate : Bool
  pub exclusive : ExclusiveAnswer
  pub aligned_size : Bool
  pub activate_aligned : Bool
  pub exclusive_aligned : Bool
  pub activate_shared : Bool
  pub shared : Bool
  pub mix_format : Option Format
  pub activate_mix : Bool
  pub shared_mix : Bool
  pub set_event : Bool
  pub get_service : Bool
  pub buffer_size : Option ℕ

-- How far an initialisation got: a client is held, and it is initialised.
pub record Attempt : Type 0 where
  pub holds_client : Bool
  pub works : Bool

unfoldable pub find_device : WasapiConfig → OpenAnswers → Bool
find_device c a = if c.has_device_id && a.named_device then true else a.default_device

unfoldable pub try_exclusive : ExclusiveAnswer → OpenAnswers → Attempt
try_exclusive accepted a = record { holds_client = true; works = true }
try_exclusive rejected a = record { holds_client = true; works = false }
try_exclusive not_aligned a =
    if not a.aligned_size
    then record { holds_client = true; works = false }
    else if a.activate_aligned
    then record { holds_client = true; works = a.exclusive_aligned }
    else record { holds_client = false; works = false }

unfoldable pub first_attempt : WasapiConfig → OpenAnswers → Attempt
unfolding try_exclusive
first_attempt c a =
    if c.exclusive_mode && not c.loopback
    then try_exclusive a.exclusive a
    else record { holds_client = true; works = false }

-- `none` where the source gives up at once, for want of a client.
unfoldable pub try_shared : Attempt → OpenAnswers → Option Attempt
try_shared t a =
    if t.works
    then some t
    else if t.holds_client
    then some (record { holds_client = true; works = a.shared })
    else if a.activate_shared
    then some (record { holds_client = true; works = a.shared })
    else none

-- The format that was asked for: PCM, so never float.
abbrev pub requested : WasapiConfig → Format
requested c = record {
  rate = c.sample_rate;
  channel_count = c.channels;
  bits = c.bit_depth;
  is_float = false;
}

abbrev pub size_or : ℕ → Option ℕ → ℕ
size_or old none = old
size_or old (some n) = n

-- From the format on.
unfoldable pub finish_open : Wasapi → Format → OpenAnswers → Wasapi × Bool
finish_open s f a =
    let known = record s { actual = f } in
    let frames = size_or s.buffer_frames a.buffer_size in
    if not a.set_event
    then (known, false)
    else if not a.get_service
    then (record known { has_capture_client = false }, false)
    else (record known { has_capture_client = true; buffer_frames = frames }, true)

unfoldable pub open_mix : Wasapi → OpenAnswers → Option Format → Wasapi × Bool
unfolding finish_open
open_mix s a none = (s, false)
open_mix s a (some f) =
    let mixed = record s { has_mix_format = true } in
    if not a.activate_mix
    then (record mixed { has_audio_client = false }, false)
    else if a.shared_mix
    then finish_open mixed f a
    else (mixed, false)

-- From the attempt in shared mode on.
unfoldable pub after_shared : Wasapi → OpenAnswers → Option Attempt → Wasapi × Bool
unfolding open_mix finish_open
after_shared s a none = (record s { has_audio_client = false }, false)
after_shared s a (some t) =
    let held = record s { has_audio_client = true } in
    if t.works then finish_open held (requested s.cfg) a else open_mix held a a.mix_format

unfoldable pub open_device_and_init_engine : Wasapi → OpenAnswers → Wasapi × Bool
unfolding find_device first_attempt try_shared after_shared
open_device_and_init_engine s a =
    let t = first_attempt s.cfg a in
    let found = record s { has_device = true } in
    if not (find_device s.cfg a)
    then (record s { has_device = false }, false)
    else if not a.activate
    then (record found { has_audio_client = false }, false)
    else after_shared (record found { using_exclusive = t.works }) a (try_shared t a)

unfoldable pub release_engine : Wasapi → Wasapi
release_engine s = record s {
  has_capture_client = false;
  has_audio_client = false;
  has_device = false;
  has_mix_format = false;
  engine_active = false;
  running = false;
}

-- What a pass of the supervisor is answered: by the device, by Start, and by the waits of the capture
-- loop; and what other threads have set meanwhile: whether the capture is still asked for, and
-- whether a device has changed.
pub record PassAnswers : Type 0 where
  pub device : OpenAnswers
  pub started : Bool
  pub waits : List Wakeup
  pub still_requested : Bool
  pub changed : Bool

-- The capture loop, and the release where it fails or where the stop was asked for.
unfoldable pub run_capture : Wasapi → PassAnswers → Wasapi × List AudioCall
unfolding release_engine
run_capture s a =
    let o = capture_loop s a.waits in
    let left = record o.state { start_requested = a.still_requested; device_dirty = a.changed } in
    let kept = if o.ok then left else release_engine left in
    (if a.still_requested then kept else release_engine kept, o.calls)

-- With an engine that is open, or with one that has to be opened first.
unfoldable pub ensure_engine : Wasapi → PassAnswers → Wasapi × List AudioCall
unfolding open_device_and_init_engine release_engine run_capture
ensure_engine s a =
    let o = open_device_and_init_engine s a.device in
    if s.engine_active
    then run_capture s a
    else if not o.1
    then (o.0, [])
    else if not a.started
    then (release_engine o.0, [])
    else run_capture (record o.0 { engine_active = true; running = true }) a

-- After a change of the device the engine is given up first.
unfoldable pub heed_change : Wasapi → Wasapi
unfolding release_engine
heed_change s =
    let clean = record s { device_dirty = false } in
    if s.device_dirty then release_engine clean else clean

unfoldable pub supervisor_pass : Wasapi → PassAnswers → Wasapi × List AudioCall
supervisor_pass s a = if s.start_requested then ensure_engine (heed_change s) a else (s, [])

-- The end of the thread, and shutdown, which has joined it.
unfoldable pub shutdown : Wasapi → Wasapi
unfolding release_engine shut
shutdown s = shut (release_engine s)
