-- ===== src/Aac/Codec.antt =====
-- The operations of AacEncoder in aac_encoder.cpp.
use reji_studio.Base.{
  ℕ, ◌*◌, ◌/◌, ◌%◌, ◌^◌, Bool, true, false, ◌&&◌, ◌||◌, not, Option, none, some, List, [], ◌∷◌,
  ◌++◌, ◌==◌, ltb, if◌then◌else◌,
}
use reji_studio.Base.Int.{ℤ, ◌*ℤ◌, ◌/ℤ◌}
use reji_studio.Audio.Format.{make_audio_specific_config}
use reji_studio.Aac.{
  AacConfig, MfCall, mf_startup, mf_shutdown, created_mft, released_mft, input, got_sample,
  released_sample, delivered, AacEncoder, Coded,
}

-- Releases of the transform and of Media Foundation.
unfoldable pub release_mft : Option ℕ → List MfCall
release_mft none = []
release_mft (some m) = released_mft m ∷ []

unfoldable pub shutdown : AacEncoder → AacEncoder × List MfCall
unfolding release_mft
shutdown s = (
  record s { mft = none; mf_started = false; initialized = false; has_sink = false },
  release_mft s.mft ++ (if s.mf_started then mf_shutdown ∷ [] else []),
)

-- shutdown(); return false;
unfoldable pub give_up : AacEncoder → List MfCall → Coded
unfolding shutdown
give_up s calls = let o = shutdown s in record { state = o.0; ok = false; calls = calls ++ o.1 }

-- What init is answered: by MFStartup; the transform; the stream's numbers, if GetStreamIDs gives them;
-- whether the two types are taken; whether GetOutputStreamInfo succeeds, the flags and the size it names;
-- and whether the two messages are taken.
pub record InitAnswers : Type 0 where
  pub startup_ok : Bool
  pub new_mft : Option ℕ
  pub stream_ids : Option (ℕ × ℕ)
  pub output_type_ok : Bool
  pub input_type_ok : Bool
  pub info_ok : Bool
  pub provides : Bool
  pub info_size : ℕ
  pub begin_ok : Bool

unfoldable pub take_ids : AacEncoder → Option (ℕ × ℕ) → AacEncoder
take_ids s none = s
take_ids s (some (in_id, out_id)) = record s { input_stream_id = in_id; output_stream_id = out_id }

-- With the transform.
unfoldable pub set_up : AacEncoder → InitAnswers → List MfCall → Coded
unfolding give_up take_ids
set_up s a calls =
    let named = take_ids s a.stream_ids in
    let told = record named {
      output_provides_samples = a.provides;
      output_sample_size = if ltb 0 a.info_size then a.info_size else 8192;
    } in
    if not a.output_type_ok
    then give_up named calls
    else if not a.input_type_ok
    then give_up named calls
    else if not a.info_ok
    then give_up named calls
    else if not a.begin_ok
    then give_up told calls
    else record { state = record told { initialized = true }; ok = true; calls = calls }

unfoldable pub with_mft : AacEncoder → InitAnswers → Option ℕ → Coded
unfolding set_up
with_mft s a none = give_up s (mf_startup ∷ [])
with_mft s a (some m) = set_up (record s { mft = some m }) a (mf_startup ∷ created_mft m ∷ [])

-- With the two bytes of the configuration.
unfoldable pub start_up : AacEncoder → InitAnswers → Option (ℕ × ℕ) → Coded
unfolding with_mft
start_up s a none = record { state = s; ok = false; calls = [] }
start_up s a (some (high, low)) =
    let described = record s { asc = high ∷ low ∷ [] } in
    if not a.startup_ok
    then give_up described []
    else with_mft (record described { mf_started = true }) a a.new_mft

-- The tests of init on its arguments.
unfoldable pub is_usable : AacConfig → Bool
is_usable c =
    not (ltb c.channels 1 || ltb 2 c.channels)
    && ((c.sample_rate == 48_000) || (c.sample_rate == 44_100))

unfoldable pub init : AacEncoder → AacConfig → Bool → InitAnswers → Coded
unfolding start_up is_usable
init s c has_sink a =
    let started =
      start_up (record s { cfg = c; has_sink = has_sink }) a
        (make_audio_specific_config c.sample_rate c.channels) in
    if s.initialized || (not has_sink || not (is_usable c))
    then record { state = s; ok = false; calls = [] }
    else started

-- One turn of drain_outputs: the caller's sample cannot be made; ProcessOutput needs more input, fails,
-- or produces; with the sample that the transform gives, if it gives one. A produced sample that can be
-- read has its length and its time in units of 100 ns.
pub data OutputAnswer : Type 0 where
  no_memory : OutputAnswer
  need_more_input : Option ℕ → OutputAnswer
  output_failed : Option ℕ → OutputAnswer
  produced : Option ℕ → Option (ℕ × ℤ) → OutputAnswer

-- The transform's own sample; another pointer there is the caller's.
unfoldable pub got_given : Bool → Option ℕ → List MfCall
got_given provides none = []
got_given provides (some x) = if provides then got_sample x ∷ [] else []

unfoldable pub release_given : Bool → Option ℕ → List MfCall
release_given provides none = []
release_given provides (some x) = if provides then released_sample x ∷ [] else []

unfoldable pub deliver : AacEncoder → Option (ℕ × ℤ) → List MfCall
deliver s none = []
deliver s (some (len, t_hns)) =
    if ltb 0 len && s.has_sink then delivered len (t_hns /ℤ 10) ∷ [] else []

-- Whether there is a sample to read: the transform's, or the caller's.
abbrev pub to_read : Bool → Option ℕ → Option (ℕ × ℤ) → Option (ℕ × ℤ)
to_read false given read = read
to_read true none read = none
to_read true (some x) read = read

-- for (;;) of drain_outputs, over what each turn is answered; the result is none where the turns given
-- are over before the loop is.
unfoldable pub drain_outputs : AacEncoder → List OutputAnswer → Option Bool × List MfCall
unfolding got_given release_given deliver
drain_outputs s [] = (none, [])
drain_outputs s (no_memory ∷ rest) = (some false, [])
drain_outputs s (need_more_input given ∷ rest) = (
  some true,
  got_given s.output_provides_samples given ++ release_given s.output_provides_samples given,
)
drain_outputs s (output_failed given ∷ rest) = (
  some false,
  got_given s.output_provides_samples given ++ release_given s.output_provides_samples given,
)
drain_outputs s (produced given read ∷ rest) =
    let later = drain_outputs s rest in
    (
      later.0,
      got_given s.output_provides_samples given
          ++ (deliver s (to_read s.output_provides_samples given read)
              ++ (release_given s.output_provides_samples given ++ later.1)),
    )

-- What feed_pcm is answered: whether the buffer and the sample are made; the first ProcessInput; if it
-- takes nothing yet, the turns of the drain; and the second.
pub data InputAnswer : Type 0 where
  taken : InputAnswer
  not_accepting : InputAnswer
  input_failed : InputAnswer

pub record FeedAnswers : Type 0 where
  pub made : Bool
  pub first : InputAnswer
  pub turns : List OutputAnswer
  pub second_ok : Bool

abbrev pub is_true : Option Bool → Bool
is_true (some b) = b
is_true none = false

unfoldable pub after_first : AacEncoder → FeedAnswers → MfCall → InputAnswer → Bool × List MfCall
unfolding drain_outputs
after_first s a offer taken = (true, offer ∷ [])
after_first s a offer input_failed = (false, offer ∷ [])
after_first s a offer not_accepting =
    let o = drain_outputs s a.turns in
    if not (is_true o.0) then (false, offer ∷ o.1) else (a.second_ok, offer ∷ (o.1 ++ (offer ∷ [])))

unfoldable pub feed_pcm : AacEncoder → ℕ → ℤ → FeedAnswers → Bool × List MfCall
unfolding after_first
feed_pcm s sample_count pts_us a =
    let duration = sample_count / s.cfg.channels * 10_000_000 / s.cfg.sample_rate in
    if not a.made
    then (false, [])
    else after_first s a (input sample_count (pts_us *ℤ 10) duration) a.first

-- Whether samples are given; the count of samples is a uint32_t.
unfoldable pub encode :
    AacEncoder → Bool → ℕ → ℤ → FeedAnswers → List OutputAnswer → Bool × List MfCall
unfolding feed_pcm drain_outputs
encode s given frames pts_us a turns =
    let fed = feed_pcm s (frames * s.cfg.channels % 2 ^ 32) pts_us a in
    let out = drain_outputs s turns in
    if not s.initialized || (not given || (frames == 0))
    then (false, [])
    else if not fed.0
    then fed
    else (is_true out.0, fed.1 ++ out.1)

-- Whether the two messages are taken.
unfoldable pub drain : AacEncoder → Bool → List OutputAnswer → Bool × List MfCall
unfolding drain_outputs
drain s told turns =
    let out = drain_outputs s turns in
    if not s.initialized
    then (false, [])
    else if not told
    then (false, [])
    else (is_true out.0, out.1)
