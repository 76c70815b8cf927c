-- ===== src/Examples/Coding.antt =====
-- The AAC encoder at concrete inputs.
use reji_studio.Base.{◌+◌, ◌≡◌, refl, true, false, none, some, List, [], ◌∷◌}
use reji_studio.Base.Int.{pos}
use reji_studio.Aac.{AacConfig, AacEncoder}
use reji_studio.Aac.Codec.{InitAnswers, OutputAnswer, need_more_input, produced, FeedAnswers, taken}
use reji_studio.Aac.Owned.{sample, opened, closed}
use reji_studio.Aac.Life.{Use, life, life-gives_back}

abbrev stereo : AacConfig
stereo = record { sample_rate = 48_000; channels = 2; bitrate_bps = 128_000 }

abbrev new_encoder : AacEncoder
new_encoder = record {
  mft = none;
  has_sink = false;
  cfg = stereo;
  asc = [];
  mf_started = false;
  initialized = false;
  input_stream_id = 0;
  output_stream_id = 0;
  output_provides_samples = false;
  output_sample_size = 0;
}

abbrev giving : InitAnswers
giving = record {
  startup_ok = true;
  new_mft = some 1;
  stream_ids = none;
  output_type_ok = true;
  input_type_ok = true;
  info_ok = true;
  provides = true;
  info_size = 1536;
  begin_ok = true;
}

abbrev fed : FeedAnswers
fed = record { made = true; first = taken; turns = []; second_ok = true }

abbrev turns : List OutputAnswer
turns = produced (some 7) (some (371, pos 213_333)) ∷ need_more_input none ∷ []

abbrev song : List Use
song = Use.opens_with stereo true giving ∷ Use.encodes true 1024 (pos 0) fed turns ∷ Use.shuts ∷ []

life-gives_back_example :
    opened (sample 7) (life new_encoder song) + 0 ≡ closed (sample 7) (life new_encoder song)
life-gives_back_example = life-gives_back (sample 7) new_encoder song (λ e. (refl, refl))
