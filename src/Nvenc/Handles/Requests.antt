-- ===== src/Nvenc/Handles/Requests.antt =====
-- The requests that a running encoder of encode_nvenc.cpp serves, one by one and in a row.
use reji_studio.Base.{
  ℕ, ◌≡◌, Bool, true, false, Option, none, some, List, [], ◌∷◌, ◌++◌, ◌∙◌, if◌then◌else◌, arith,
  refl, not,
}
use reji_studio.Base.Int.{ℤ}
use reji_studio.Nvenc.{Handle, Impl, Outcome, and_then, refused}
use reji_studio.Nvenc.Session.{flush}
use reji_studio.Nvenc.Frame.{
  FrameAnswers, register_anew, ensure_registered, drain_one, after_picture, submit_mapped, submit,
  encode_one, encode_frame,
}
use reji_studio.Nvenc.Rates.{Scale, set_bitrate, set_resolution, set_fps_limit, resized, adopt_size}
use reji_studio.Nvenc.Handles.{IsBalanced, IsBalanced-join, IsBalanced-and_then, acquired, released}
use reji_studio.Nvenc.Handles.Stages.{register-IsBalanced, submit-IsBalanced}

-- What a client asks of a running encoder, with the driver's answers.
pub data Request : Type 0 where
  encode : Option ℕ → ℤ → Bool → FrameAnswers → Request
  change_bitrate : ℕ → Bool → Request
  change_resolution : Scale → Bool → Request
  change_fps : ℕ → Bool → Request
  flush_now : Request

abbrev pub serve : Impl → Request → Outcome
serve s (encode tex pts idr a) = encode_frame s tex pts idr a
serve s (change_bitrate kbps answer) = set_bitrate s kbps answer
serve s (change_resolution f answer) = set_resolution s f answer
serve s (change_fps fps answer) = set_fps_limit s fps answer
serve s flush_now = record { state = s; ok = true; calls = flush s }

abbrev pub serve_all : Impl → List Request → Outcome
serve_all s [] = record { state = s; ok = true; calls = [] }
serve_all s (q ∷ qs) =
    let o = serve s q in
    let n = serve_all o.state qs in
    record { state = n.state; ok = o.ok; calls = o.calls ++ n.calls }

encode_frame-IsBalanced :
    (k : Handle) (s : Impl) (tex : Option ℕ) (pts : ℤ) (idr : Bool) (a : FrameAnswers)
    → IsBalanced k s (encode_frame s tex pts idr a)
unfolding encode_frame encode_one
encode_frame-IsBalanced k s none pts idr a = refl
encode_frame-IsBalanced k s (some tex) pts idr a =
    elim s.initialized
      as (λ b. IsBalanced k s (if not b then refused s else encode_one s tex pts idr a)) [
        | false ↦ refl
        | true ↦
            IsBalanced-and_then k s (ensure_registered s tex a) (submit pts idr a)
              (register-IsBalanced k s tex a)
              (submit-IsBalanced k pts idr a (ensure_registered s tex a).state)
      ]

rates-IsBalanced :
    (k : Handle) (s : Impl) (kbps : ℕ) (answer : Bool) → IsBalanced k s (set_bitrate s kbps answer)
unfolding set_bitrate
rates-IsBalanced k s kbps answer = ground arith

size-IsBalanced :
    (k : Handle) (s : Impl) (f : Scale) (answer : Bool) → IsBalanced k s (set_resolution s f answer)
unfolding set_resolution resized adopt_size
size-IsBalanced k s f answer = ground arith

fps-IsBalanced :
    (k : Handle) (s : Impl) (fps : ℕ) (answer : Bool) → IsBalanced k s (set_fps_limit s fps answer)
unfolding set_fps_limit
fps-IsBalanced k s fps answer = ground arith

pub flush-IsBalanced :
    (k : Handle) (s : Impl) → (acquired k (flush s) ≡ 0) × (released k (flush s) ≡ 0)
unfolding flush
flush-IsBalanced k s = ground arith

serve-IsBalanced : (k : Handle) (s : Impl) (q : Request) → IsBalanced k s (serve s q)
serve-IsBalanced k s (encode tex pts idr a) = encode_frame-IsBalanced k s tex pts idr a
serve-IsBalanced k s (change_bitrate kbps answer) = rates-IsBalanced k s kbps answer
serve-IsBalanced k s (change_resolution f answer) = size-IsBalanced k s f answer
serve-IsBalanced k s (change_fps fps answer) = fps-IsBalanced k s fps answer
serve-IsBalanced k s flush_now = omega (arith, flush-IsBalanced k s)

pub serve_all-IsBalanced :
    (k : Handle) (s : Impl) (qs : List Request) → IsBalanced k s (serve_all s qs)
serve_all-IsBalanced k s [] = refl
serve_all-IsBalanced k s (q ∷ qs) =
    IsBalanced-join k s (serve s q) (serve_all (serve s q).state qs) (serve-IsBalanced k s q)
      (serve_all-IsBalanced k (serve s q).state qs)

encode_frame-ready :
    (s : Impl) (tex : Option ℕ) (pts : ℤ) (idr : Bool) (a : FrameAnswers)
    → (encode_frame s tex pts idr a).state.initialized ≡ s.initialized
unfolding encode_frame encode_one and_then ensure_registered register_anew submit submit_mapped
    after_picture drain_one
encode_frame-ready s none pts idr a = refl
encode_frame-ready s (some tex) pts idr a = ground arith

bitrate-ready :
    (s : Impl) (kbps : ℕ) (answer : Bool)
    → (set_bitrate s kbps answer).state.initialized ≡ s.initialized
unfolding set_bitrate
bitrate-ready s kbps answer = ground arith

size-ready :
    (s : Impl) (f : Scale) (answer : Bool)
    → (set_resolution s f answer).state.initialized ≡ s.initialized
unfolding set_resolution resized adopt_size
size-ready s f answer = ground arith

fps-ready :
    (s : Impl) (fps : ℕ) (answer : Bool)
    → (set_fps_limit s fps answer).state.initialized ≡ s.initialized
unfolding set_fps_limit
fps-ready s fps answer = ground arith

serve-ready : (s : Impl) (q : Request) → s.initialized ≡ true → (serve s q).state.initialized ≡ true
serve-ready s (encode tex pts idr a) h = encode_frame-ready s tex pts idr a ∙ h
serve-ready s (change_bitrate kbps answer) h = bitrate-ready s kbps answer ∙ h
serve-ready s (change_resolution f answer) h = size-ready s f answer ∙ h
serve-ready s (change_fps fps answer) h = fps-ready s fps answer ∙ h
serve-ready s flush_now h = h

pub serve_all-ready :
    (s : Impl) (qs : List Request)
    → s.initialized ≡ true
    → (serve_all s qs).state.initialized ≡ true
serve_all-ready s [] h = h
serve_all-ready s (q ∷ qs) h = serve_all-ready (serve s q).state qs (serve-ready s q h)
