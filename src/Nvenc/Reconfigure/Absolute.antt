-- ===== src/Nvenc/Reconfigure/Absolute.antt =====
-- NvencEncoder::set_resolution in encode_nvenc.cpp, called again and again.
use reji_studio.Base.{◌≡◌, Bool, List, [], ◌∷◌, ◌∙◌, arith, refl}
use reji_studio.Nvenc.{Impl}
use reji_studio.Nvenc.Rates.{Scale, clamped, resized, adopt_size, set_resolution}

-- States that a later change of resolution cannot tell apart.
record SameBut (s t : Impl) : Type 0 where
  but_ready : t.initialized ≡ s.initialized
  but_cfg : t.saved_cfg ≡ s.saved_cfg
  but_width : t.orig_width ≡ s.orig_width
  but_height : t.orig_height ≡ s.orig_height
  but_codec : t.saved_init.guid ≡ s.saved_init.guid
  but_num : t.saved_init.frame_rate_num ≡ s.saved_init.frame_rate_num
  but_den : t.saved_init.frame_rate_den ≡ s.saved_init.frame_rate_den

resize-SameBut :
    (s : Impl) (f : Scale) (answer : Bool) → SameBut s (set_resolution s f answer).state
unfolding set_resolution resized adopt_size
resize-SameBut s f answer = ground arith

abbrev pub resize_all : Impl → List (Scale × Bool) → Impl
resize_all s [] = s
resize_all s (r ∷ rs) = resize_all (set_resolution s r.0 r.1).state rs

resize_all-SameBut : (s : Impl) (rs : List (Scale × Bool)) → SameBut s (resize_all s rs)
resize_all-SameBut s [] = record {
  but_ready = refl;
  but_cfg = refl;
  but_width = refl;
  but_height = refl;
  but_codec = refl;
  but_num = refl;
  but_den = refl;
}
resize_all-SameBut s (r ∷ rs) =
    let t = (set_resolution s r.0 r.1).state in
    let one = resize-SameBut s r.0 r.1 in
    let more = resize_all-SameBut t rs in
    record {
      but_ready = more.but_ready ∙ one.but_ready;
      but_cfg = more.but_cfg ∙ one.but_cfg;
      but_width = more.but_width ∙ one.but_width;
      but_height = more.but_height ∙ one.but_height;
      but_codec = more.but_codec ∙ one.but_codec;
      but_num = more.but_num ∙ one.but_num;
      but_den = more.but_den ∙ one.but_den;
    }

resize_same :
    (s t : Impl) (f : Scale) (answer : Bool)
    → SameBut s t
    → ((set_resolution t f answer).calls ≡ (set_resolution s f answer).calls)
      × ((set_resolution t f answer).ok ≡ (set_resolution s f answer).ok)
unfolding set_resolution resized adopt_size clamped
resize_same s t f answer r = ground (arith, r)

-- Changes of resolution do not add up: after any of them, accepted or refused, a change to a scale
-- sends the driver what it sends from the first state, and succeeds if it succeeds there.
pub set_resolution-absolute :
    (s : Impl) (rs : List (Scale × Bool)) (f : Scale) (answer : Bool)
    → ((set_resolution (resize_all s rs) f answer).calls ≡ (set_resolution s f answer).calls)
      × ((set_resolution (resize_all s rs) f answer).ok ≡ (set_resolution s f answer).ok)
set_resolution-absolute s rs f answer =
    resize_same s (resize_all s rs) f answer (resize_all-SameBut s rs)
