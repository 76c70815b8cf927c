-- ===== src/Aac/Life.antt =====
-- The life of an AacEncoder of aac_encoder.cpp, from init to its destructor.
use reji_studio.Base.{
  ℕ, ◌+◌, ◌≡◌, Bool, true, false, ◌||◌, not, none, List, [], ◌∷◌, ◌++◌, refl, arith, if◌then◌else◌,
}
use reji_studio.Base.Int.{ℤ}
use reji_studio.Audio.Format.{make_audio_specific_config}
use reji_studio.Aac.{AacConfig, MfCall, AacEncoder, Coded}
use reji_studio.Aac.Codec.{
  shutdown, InitAnswers, start_up, is_usable, init, OutputAnswer, FeedAnswers, encode, drain,
}
use reji_studio.Aac.Owned.{
  Thing, opened, closed, owns, IsEven, opened-append, closed-append, shutdown-closes, encode-IsEven,
  drain-IsEven,
}
use reji_studio.Aac.Opening.{IsIdle, IsFair, idle-none, start-IsFair}

-- What is done with an encoder, with the answers.
pub data Use : Type 0 where
  opens_with : AacConfig → Bool → InitAnswers → Use
  encodes : Bool → ℕ → ℤ → FeedAnswers → List OutputAnswer → Use
  drains : Bool → List OutputAnswer → Use
  shuts : Use

unfoldable pub use_once : AacEncoder → Use → AacEncoder × List MfCall
use_once s (opens_with c has_sink a) = let o = init s c has_sink a in (o.state, o.calls)
use_once s (encodes given frames pts a turns) = (s, (encode s given frames pts a turns).1)
use_once s (drains told turns) = (s, (drain s told turns).1)
use_once s shuts = shutdown s

-- The uses of an encoder, and its destructor, which shuts it down.
unfoldable pub life : AacEncoder → List Use → List MfCall
unfolding use_once
life s [] = (shutdown s).1
life s (u ∷ us) = let o = use_once s u in o.1 ++ life (o.0) us

-- An encoder that is not initialized holds nothing.
abbrev pub IsTidy : AacEncoder → Type 0
IsTidy s = s.initialized ≡ false → (s.mft ≡ none) × (s.mf_started ≡ false)

-- One use: what is owned before and after, and whether it is tidy after.
Keeps : Thing → AacEncoder → AacEncoder × List MfCall → Type 0
Keeps t s o = (opened t o.1 + owns t s ≡ closed t o.1 + owns t o.0) × IsTidy o.0

fair-Keeps :
    (t : Thing) (s : AacEncoder) (o : Coded)
    → owns t s ≡ 0
    → IsFair t o
    → Keeps t s (o.state, o.calls)
unfolding Keeps IsFair IsIdle
fair-Keeps t s o z h = (omega (arith, z, h.0), h.1)

even-Keeps :
    (t : Thing) (s : AacEncoder) (calls : List MfCall)
    → IsTidy s
    → IsEven t calls
    → Keeps t s (s, calls)
unfolding Keeps IsEven
even-Keeps t s calls tidy h = (omega (arith, h), tidy)

init-cases :
    (refused : Bool) (t : Thing) (s : AacEncoder) (started : Coded)
    → IsTidy s
    → (refused ≡ false → Keeps t s (started.state, started.calls))
    → let o : Coded = if refused then record { state = s; ok = false; calls = [] } else started in
      Keeps t s (o.state, o.calls)
unfolding Keeps
init-cases true t s started tidy h = (refl, tidy)
init-cases false t s started tidy h = h refl

was_off : (b c : Bool) → b || c ≡ false → b ≡ false
was_off true c h = h
was_off false c h = refl

init-Keeps :
    (t : Thing) (s : AacEncoder) (c : AacConfig) (has_sink : Bool) (a : InitAnswers)
    → IsTidy s
    → Keeps t s ((init s c has_sink a).state, (init s c has_sink a).calls)
unfolding init
init-Keeps t s c has_sink a tidy =
    let set = record s { cfg = c; has_sink = has_sink } in
    let bytes = make_audio_specific_config c.sample_rate c.channels in
    init-cases (s.initialized || (not has_sink || not (is_usable c))) t s (start_up set a bytes)
      tidy
      (λ fine.
        let idle = tidy (was_off s.initialized (not has_sink || not (is_usable c)) fine) in
        fair-Keeps t s (start_up set a bytes) (idle-none t s idle.0 idle.1)
          (start-IsFair t set a bytes idle.0 idle.1))

shut-Keeps : (t : Thing) (s : AacEncoder) → Keeps t s (shutdown s)
unfolding Keeps shutdown
shut-Keeps t s = let o = shutdown-closes t s in (omega (arith, o.0, o.1, o.2), λ e. (refl, refl))

use-Keeps : (t : Thing) (s : AacEncoder) (u : Use) → IsTidy s → Keeps t s (use_once s u)
unfolding use_once
use-Keeps t s (opens_with c has_sink a) tidy = init-Keeps t s c has_sink a tidy
use-Keeps t s (encodes given frames pts a turns) tidy =
    even-Keeps t s (encode s given frames pts a turns).1 tidy
      (encode-IsEven t s given frames pts a turns)
use-Keeps t s (drains told turns) tidy =
    even-Keeps t s (drain s told turns).1 tidy (drain-IsEven t s told turns)
use-Keeps t s shuts tidy = shut-Keeps t s

-- Over any uses of an encoder that holds nothing yet, and its destructor, with any answers of Media
-- Foundation and in any order, failed inits and failures in the middle of a drain among them: the library
-- is shut down as often as it is started, every transform created is released, and every sample that the
-- transform gives is released, each exactly as often.
pub life-gives_back :
    (t : Thing) (s : AacEncoder) (us : List Use)
    → IsTidy s
    → opened t (life s us) + owns t s ≡ closed t (life s us)
unfolding life Keeps
life-gives_back t s [] tidy = let o = shutdown-closes t s in omega (arith, o.0, o.1)
life-gives_back t s (u ∷ us) tidy =
    let o = use_once s u in
    let one = use-Keeps t s u tidy in
    let rest = life-gives_back t (o.0) us one.1 in
    omega
      (arith, one.0, rest, opened-append t o.1 (life (o.0) us), closed-append t o.1 (life (o.0) us))
