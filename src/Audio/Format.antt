-- ===== src/Audio/Format.antt =====
-- src/pipeline/audio/{aac_config,flv_audio_tag,asc_state,format_gate}.h: the two bytes of the
-- AudioSpecificConfig, the FLV audio tag, and the two gates of the drain.
use reji_studio.Base.{
  ℕ, zero, suc, Bool-cases, ◌+◌, ◌*◌, ◌/◌, ◌%◌, ◌^◌, ◌≤◌, ◌<◌, ◌≡◌, refl, inl, inr, Bool, true,
  false, ◌&&◌, ◌||◌, not, Option, none, some, arith, bit_or, bit_and, ltb, ◌==◌, if◌then◌else◌,
}

-- `none` is -1.
unfoldable pub sampling_frequency_index : ℕ → Option ℕ
sampling_frequency_index sample_rate =
    if sample_rate == 96000
    then some 0
    else if sample_rate == 88200
    then some 1
    else if sample_rate == 64000
    then some 2
    else if sample_rate == 48000
    then some 3
    else if sample_rate == 44100
    then some 4
    else if sample_rate == 32000
    then some 5
    else if sample_rate == 24000
    then some 6
    else if sample_rate == 22050
    then some 7
    else if sample_rate == 16000
    then some 8
    else if sample_rate == 12000
    then some 9
    else if sample_rate == 11025
    then some 10
    else if sample_rate == 8000
    then some 11
    else if sample_rate == 7350
    then some 12
    else none

abbrev pub aac_lc_object_type : ℕ
aac_lc_object_type = 2

-- uint16_t bits = (2 << 11) | (freq << 7) | (channels << 3)
unfoldable pub asc_bits : ℕ → ℕ → ℕ
asc_bits freq channels =
    bit_or (bit_or (aac_lc_object_type * 2 ^ 11) (freq * 2 ^ 7)) (channels * 2 ^ 3) % 2 ^ 16

-- The high and the low byte.
unfoldable pub asc_bytes : ℕ → ℕ → ℕ × ℕ
unfolding asc_bits
asc_bytes freq channels = (asc_bits freq channels / 2 ^ 8, bit_and (asc_bits freq channels) 0xff)

unfoldable pub with_channels : Option ℕ → ℕ → Option (ℕ × ℕ)
unfolding asc_bytes
with_channels none channels = none
with_channels (some freq) channels =
    if ltb channels 1 || ltb 7 channels then none else some (asc_bytes freq channels)

unfoldable pub make_audio_specific_config : ℕ → ℕ → Option (ℕ × ℕ)
unfolding sampling_frequency_index with_channels
make_audio_specific_config sample_rate channels =
    with_channels (sampling_frequency_index sample_rate) channels

pub data AacPacketType : Type 0 where
  sequence_header raw : AacPacketType

unfoldable pub flv_aac_audio_header : AacPacketType → ℕ × ℕ
flv_aac_audio_header AacPacketType.sequence_header = (0xaf, 0)
flv_aac_audio_header AacPacketType.raw = (0xaf, 1)

unfoldable pub asc_retry_needed : Bool → Bool → Bool
asc_retry_needed encoder_ready asc_sent = encoder_ready && not asc_sent

unfoldable pub format_matches : ℕ → ℕ → ℕ → ℕ → Bool
format_matches chunk_channels chunk_sample_rate cfg_channels cfg_sample_rate =
    chunk_channels == cfg_channels && chunk_sample_rate == cfg_sample_rate

-- The reader's side, ISO/IEC 14496-3: five bits of object type, four of frequency index, four of
-- channel configuration, three zero bits.
pub record AscFields : Type 0 where
  pub object_type : ℕ
  pub frequency_index : ℕ
  pub channels : ℕ
  pub rest : ℕ

unfoldable pub parse_asc : ℕ × ℕ → AscFields
parse_asc (hi, lo) = record {
  object_type = hi / 8;
  frequency_index = hi % 8 * 2 + lo / 128;
  channels = lo % 128 / 8;
  rest = lo % 8;
}

-- The sample rate of a frequency index, by the standard's table.
abbrev pub rate_of_index : ℕ → ℕ
rate_of_index i =
    if i == 0
    then 96000
    else if i == 1
    then 88200
    else if i == 2
    then 64000
    else if i == 3
    then 48000
    else if i == 4
    then 44100
    else if i == 5
    then 32000
    else if i == 6
    then 24000
    else if i == 7
    then 22050
    else if i == 8
    then 16000
    else if i == 9
    then 12000
    else if i == 10
    then 11025
    else if i == 11
    then 8000
    else 7350

-- The test passes at every number under the bound.
passes_to : (ℕ → Bool) → ℕ → Bool
passes_to test zero = true
passes_to test (suc bound) = if test bound then passes_to test bound else false

passes_at :
    (test : ℕ → Bool) (k bound : ℕ) → k < bound → passes_to test bound ≡ true → test k ≡ true
unfolding passes_to
passes_at test k zero small all = absurd (omega arith)
passes_at test k (suc bound) small all = ground (arith, passes_at test k bound)

same_fields : AscFields → ℕ → ℕ → Bool
same_fields f freq channels =
    f.object_type == aac_lc_object_type
    && f.frequency_index == freq
    && f.channels == channels
    && f.rest == 0

check_one : ℕ → ℕ → Bool
check_one freq channels = same_fields (parse_asc (asc_bytes freq channels)) freq channels

asc_table : passes_to (λ freq. passes_to (check_one freq) 8) 13 ≡ true
unfolding passes_to check_one same_fields parse_asc asc_bytes
asc_table = refl

same_fields-eq :
    (f : AscFields) (freq channels : ℕ)
    → same_fields f freq channels ≡ true
    → f ≡ record {
      object_type = aac_lc_object_type;
      frequency_index = freq;
      channels = channels;
      rest = 0;
    }
unfolding same_fields
same_fields-eq f freq channels h = ground arith

index_range :
    (sample_rate freq : ℕ)
    → sampling_frequency_index sample_rate ≡ some freq
    → (freq < 13) × (rate_of_index freq ≡ sample_rate)
unfolding sampling_frequency_index
index_range sample_rate freq h = ground arith

parse-asc_bytes :
    (freq channels : ℕ)
    → freq < 13
    → channels < 8
    → parse_asc (asc_bytes freq channels) ≡ record {
      object_type = aac_lc_object_type;
      frequency_index = freq;
      channels = channels;
      rest = 0;
    }
unfolding check_one
parse-asc_bytes freq channels f c =
    same_fields-eq (parse_asc (asc_bytes freq channels)) freq channels (
      passes_at (check_one freq) channels 8 c
        (passes_at (λ k. passes_to (check_one k) 8) freq 13 f asc_table))

-- What the bytes must say for a given rate and number of channels.
pub record Says (sample_rate channels : ℕ) (f : AscFields) : Type 0 where
  pub is_aac_lc : f.object_type ≡ 2
  pub rate : rate_of_index f.frequency_index ≡ sample_rate
  pub channel_count : f.channels ≡ channels
  pub no_flags : f.rest ≡ 0

Says-of_index :
    (o : Option ℕ) (sample_rate channels : ℕ) (bytes : ℕ × ℕ)
    → sampling_frequency_index sample_rate ≡ o
    → with_channels o channels ≡ some bytes
    → Says sample_rate channels (parse_asc bytes) × (1 ≤ channels) × (channels ≤ 7)
unfolding with_channels
Says-of_index none sample_rate channels bytes e h = cc
Says-of_index (some freq) sample_rate channels bytes e h =
    elim (Bool-cases (ltb channels 1 || ltb 7 channels)) [
      | inl bad ↦ cc (rw bad at h)
      | inr good ↦
          let made : asc_bytes freq channels ≡ bytes = cc (rw good at h) in
          let r = index_range sample_rate freq e in
          let range : (1 ≤ channels) × (channels ≤ 7) = ground arith in
          (
            rw (← made, parse-asc_bytes freq channels r.0 (omega (arith, range.1)))
                (record { is_aac_lc = refl; rate = r.1; channel_count = refl; no_flags = refl }),
            range.0,
            range.1,
          )
    ]

-- Whenever bytes are made, the channels are 1 to 7, and by the standard's bit layout the bytes read
-- back as object type 2 (AAC-LC), the index whose rate is the given sample rate, the given channels
-- and three zero bits.
pub parse-make_audio_specific_config :
    (sample_rate channels : ℕ) (bytes : ℕ × ℕ)
    → make_audio_specific_config sample_rate channels ≡ some bytes
    → Says sample_rate channels (parse_asc bytes) × (1 ≤ channels) × (channels ≤ 7)
unfolding make_audio_specific_config
parse-make_audio_specific_config sample_rate channels bytes h =
    Says-of_index (sampling_frequency_index sample_rate) sample_rate channels bytes refl h
