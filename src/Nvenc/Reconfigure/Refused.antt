-- ===== src/Nvenc/Reconfigure/Refused.antt =====
-- NvencEncoder::set_bitrate in encode_nvenc.cpp and the reconfigurations after it.
use reji_studio.Base.{
  ℕ, ◌≡◌, Bool, true, List, [], ◌∷◌, subst, if◌then◌else◌, arith, refl, All, All-append,
}
use reji_studio.Nvenc.{SavedConfig, SavedInit, Impl}
use reji_studio.Nvenc.Rates.{
  Scale, clamped, resized, adopt_size, with_bitrate, set_bitrate, set_resolution, set_fps_limit,
}
use reji_studio.Nvenc.Handles.Requests.{
  Request, encode, change_bitrate, change_resolution, change_fps, flush_now, serve, serve_all,
}
use reji_studio.Nvenc.Reconfigure.{Sends, encode_frame-SameRates, encode_frame-Sends, flush-Sends}

-- Requests other than a change of the bitrate.
abbrev pub IsNoBitrate : Request → Type 0
IsNoBitrate (change_bitrate kbps answer) = ⊥
IsNoBitrate _ = Unit

abbrev pub Carries : SavedConfig → SavedConfig → SavedInit → Type 0
Carries cfg c i = c ≡ cfg

size-Carries :
    (s : Impl) (f : Scale) (answer : Bool)
    → ((set_resolution s f answer).state.saved_cfg ≡ s.saved_cfg)
      × All (Sends (Carries s.saved_cfg)) (set_resolution s f answer).calls
unfolding set_resolution resized adopt_size clamped
size-Carries s f answer = ground arith

fps-Carries :
    (s : Impl) (fps : ℕ) (answer : Bool)
    → ((set_fps_limit s fps answer).state.saved_cfg ≡ s.saved_cfg)
      × All (Sends (Carries s.saved_cfg)) (set_fps_limit s fps answer).calls
unfolding set_fps_limit
fps-Carries s fps answer = ground arith

serve-Carries :
    (s : Impl) (q : Request)
    → IsNoBitrate q
    → ((serve s q).state.saved_cfg ≡ s.saved_cfg)
      × All (Sends (Carries s.saved_cfg)) (serve s q).calls
serve-Carries s (encode tex pts idr a) n =
    ((encode_frame-SameRates s tex pts idr a).same_cfg, encode_frame-Sends _ s tex pts idr a)
serve-Carries s (change_resolution f answer) n = size-Carries s f answer
serve-Carries s (change_fps fps answer) n = fps-Carries s fps answer
serve-Carries s (change_bitrate kbps answer) n = elim n [ ]
serve-Carries s flush_now n = (refl, flush-Sends _ s)

serve_all-Carries :
    (s : Impl) (qs : List Request)
    → All IsNoBitrate qs
    → All (Sends (Carries s.saved_cfg)) (serve_all s qs).calls
serve_all-Carries s [] n = tt
serve_all-Carries s (q ∷ qs) n =
    let k = serve-Carries s q n.0 in
    All-append _ (serve s q).calls (serve_all (serve s q).state qs).calls k.1 (
      subst (λ cfg. All (Sends (Carries cfg)) (serve_all (serve s q).state qs).calls) k.0
        (serve_all-Carries (serve s q).state qs n.1))

bitrate-saved :
    (s : Impl) (kbps : ℕ) (answer : Bool)
    → s.initialized ≡ true
    → (set_bitrate s kbps answer).state.saved_cfg ≡ with_bitrate s.saved_cfg kbps
unfolding set_bitrate
bitrate-saved s kbps answer h = ground (arith, h)

-- A change of the bitrate that the driver refuses is asked for again by every later
-- reconfiguration: whatever the answer was, until the next change of the bitrate each one carries the
-- new rates, while a refusal leaves the encoder's own configuration at the old one.
pub set_bitrate-persists :
    (s : Impl) (kbps : ℕ) (answer : Bool) (qs : List Request)
    → s.initialized ≡ true
    → All IsNoBitrate qs
    → let o = set_bitrate s kbps answer in
      All (Sends (Carries (with_bitrate s.saved_cfg kbps))) (serve_all o.state qs).calls
      × (o.state.config.bitrate_kbps ≡ (if answer then kbps else s.config.bitrate_kbps))
unfolding set_bitrate
set_bitrate-persists s kbps answer qs h n =
    let t = (set_bitrate s kbps answer).state in
    (
      subst (λ cfg. All (Sends (Carries cfg)) (serve_all t qs).calls)
          (bitrate-saved s kbps answer h) (serve_all-Carries t qs n),
      ground (arith, h),
    )
