-- ===== src/Audio/Sync.antt =====
-- src/pipeline/audio/av_sync.h: the drift warning and the rebasing of audio times.
use reji_studio.Base.{
  ℕ, ◌^◌, ◌-◌, ◌≡◌, Bool, true, false, List, [], ◌∷◌, ◌&&◌, arith, leb, if◌then◌else◌,
}
use reji_studio.Base.Int.{ℤ, pos, negsuc, abs, ◌-ℤ◌, ◌+ℤ◌, ◌≤ℤ◌, ltb_ℤ, leb_ℤ, ◌<ℤ◌}

abbrev pub av_drift_warn_threshold_ms : ℕ
av_drift_warn_threshold_ms = 200

abbrev pub av_drift_warn_period_ms : ℤ
av_drift_warn_period_ms = pos 1000

-- INT64_MIN
abbrev pub no_prior_warn : ℤ
no_prior_warn = negsuc (2 ^ 63 - 1)

abbrev pub is_no_prior : ℤ → Bool
is_no_prior a = leb_ℤ a no_prior_warn && leb_ℤ no_prior_warn a

unfoldable pub should_warn_av_drift : ℤ → ℤ → ℤ → Bool
should_warn_av_drift drift_ms now_ms last_warn_ms =
    if leb (abs drift_ms) av_drift_warn_threshold_ms
    then false
    else if is_no_prior last_warn_ms
    then true
    else leb_ℤ av_drift_warn_period_ms (now_ms -ℤ last_warn_ms)

unfoldable pub rebase_audio_pts : ℤ → ℤ → ℤ
rebase_audio_pts audio_pts_us origin_us =
    let rebased = audio_pts_us -ℤ origin_us in if ltb_ℤ (pos 0) rebased then rebased else pos 0

-- What a sequence of drains warns about: each drain measures a drift at a time, and a warning
-- moves the time of the last one.
unfoldable pub warnings : ℤ → List (ℤ × ℤ) → List ℤ
unfolding should_warn_av_drift
warnings last [] = []
warnings last ((drift_ms, now_ms) ∷ rest) =
    let quiet = warnings last rest in
    let warned = warnings now_ms rest in
    if should_warn_av_drift drift_ms now_ms last then now_ms ∷ warned else quiet

-- Each time lies at least a period after the one before it.
abbrev pub Spaced : ℤ → List ℤ → Type 0
Spaced last [] = Unit
Spaced last (t ∷ ts) = (last +ℤ av_drift_warn_period_ms ≤ℤ t) × Spaced t ts

-- The sentinel for "no warning yet" is no time of a drain.
abbrev pub RealTimes : List (ℤ × ℤ) → Type 0
RealTimes [] = Unit
RealTimes ((drift_ms, now_ms) ∷ rest) = (no_prior_warn <ℤ now_ms) × RealTimes rest

-- After a warning at a real time, however the drift goes on, the next warnings are at least
-- 1000 ms apart from it and from each other.
pub warnings-Spaced :
    (last : ℤ) (drains : List (ℤ × ℤ))
    → no_prior_warn <ℤ last
    → RealTimes drains
    → Spaced last (warnings last drains)
unfolding warnings should_warn_av_drift ◌-ℤ◌ ◌+ℤ◌
warnings-Spaced last [] h r = tt
warnings-Spaced last ((drift_ms, now_ms) ∷ rest) h r =
    ground (arith, warnings-Spaced last rest h r.1, warnings-Spaced now_ms rest r.0 r.1)

-- Rebasing brings every capture time at or after the video's origin to the distance from it, so
-- that distances between such times are kept, and every earlier time to 0.
pub rebase_audio_pts-exact :
    (a b origin : ℤ)
    → origin ≤ℤ a
    → origin ≤ℤ b
    → (rebase_audio_pts a origin -ℤ rebase_audio_pts b origin ≡ a -ℤ b)
      × (pos 0 ≤ℤ rebase_audio_pts a origin)
      × (rebase_audio_pts a origin +ℤ origin ≡ a)
unfolding rebase_audio_pts ◌-ℤ◌ ◌+ℤ◌
rebase_audio_pts-exact a b origin ha hb = ground arith
