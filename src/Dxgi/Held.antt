-- ===== src/Dxgi/Held.antt =====
-- The frames that capture_dxgi.cpp takes from the duplication and gives back.
use reji_studio.Base.{
  one_if, ℕ, ◌+◌, ◌≡◌, Bool, true, false, ◌&&◌, ◌||◌, Option, none, some, List, [], ◌∷◌, ◌++◌, refl,
  arith, if◌then◌else◌, not, subst, ◌∙◌,
}
use reji_studio.Dxgi.{DxgiCall, acquired, released, null_call, Rect, DxgiCaptureSession}
use reji_studio.Dxgi.Session
use reji_studio.Dxgi.Session.{
  DuplicationAnswers, try_duplicate, duplicate, on_output, create_duplication, release_call,
  give_back, reinit, release_frame, AcquireAnswer, wait_timeout, access_lost, device_removed,
  acquire_failed, next_frame, keep_frame, on_answer, Acquired, acquire,
}

-- The frames taken in a journal, and those given back.
abbrev pub takes : DxgiCall → ℕ
takes acquired = 1
takes _ = 0

abbrev pub gives : DxgiCall → ℕ
gives released = 1
gives _ = 0

abbrev pub taken : List DxgiCall → ℕ
taken [] = 0
taken (c ∷ cs) = takes c + taken cs

abbrev pub given : List DxgiCall → ℕ
given [] = 0
given (c ∷ cs) = gives c + given cs

-- Whether the session holds a frame of its duplication.
abbrev pub owned : DxgiCaptureSession → ℕ
owned s = one_if (s.frame_held && s.has_duplication)

abbrev pub owned_by : Option DxgiCaptureSession → ℕ
owned_by none = 0
owned_by (some s) = owned s

abbrev pub IsBalanced : ℕ → List DxgiCall → ℕ → Type 0
IsBalanced before calls after = taken calls + before ≡ given calls + after

abbrev pub IsQuiet : List DxgiCall → Type 0
IsQuiet calls = (taken calls ≡ 0) × (given calls ≡ 0)

pub taken-append : (xs ys : List DxgiCall) → taken (xs ++ ys) ≡ taken xs + taken ys
taken-append [] ys = omega arith
taken-append (c ∷ xs) ys = omega (arith, taken-append xs ys)

pub given-append : (xs ys : List DxgiCall) → given (xs ++ ys) ≡ given xs + given ys
given-append [] ys = omega arith
given-append (c ∷ xs) ys = omega (arith, given-append xs ys)

pub IsBalanced-append :
    (a : ℕ) (xs : List DxgiCall) (b : ℕ) (ys : List DxgiCall) (c : ℕ)
    → IsBalanced a xs b
    → IsBalanced b ys c
    → IsBalanced a (xs ++ ys) c
IsBalanced-append a xs b ys c p q = omega (arith, p, q, taken-append xs ys, given-append xs ys)

pub IsQuiet-append : (xs ys : List DxgiCall) → IsQuiet xs → IsQuiet ys → IsQuiet (xs ++ ys)
IsQuiet-append xs ys p q =
    (omega (arith, p.0, q.0, taken-append xs ys), omega (arith, p.1, q.1, given-append xs ys))

pub IsBalanced-quiet : (a : ℕ) (xs : List DxgiCall) → IsQuiet xs → IsBalanced a xs a
IsBalanced-quiet a xs p = omega (arith, p.0, p.1)

give_back-IsBalanced :
    (s : DxgiCaptureSession) → IsBalanced (owned s) (give_back s).1 (owned (give_back s).0)
unfolding give_back
give_back-IsBalanced s = ground arith

give_back-frees : (s : DxgiCaptureSession) → owned (give_back s).0 ≡ 0
unfolding give_back
give_back-frees s = ground arith

on_output-frees :
    (s : DxgiCaptureSession) (a : DuplicationAnswers) (o : Option Rect)
    → s.frame_held ≡ false
    → (on_output s a o).0.frame_held ≡ false
unfolding on_output duplicate
on_output-frees s a none h = h
on_output-frees s a (some rect) h = ground arith

pub create_duplication-frees :
    (s : DxgiCaptureSession) (a : DuplicationAnswers)
    → (create_duplication s a).0.frame_held ≡ false
unfolding create_duplication
create_duplication-frees s a = on_output-frees _ a a.output refl

pub owned_free : (s : DxgiCaptureSession) → s.frame_held ≡ false → owned s ≡ 0
owned_free s h = ground arith

pub reinit-IsBalanced :
    (s : DxgiCaptureSession) (a : DuplicationAnswers)
    → IsBalanced (owned s) (reinit s a).2 (owned (reinit s a).0)
unfolding reinit
reinit-IsBalanced s a = omega (
  arith,
  give_back-IsBalanced s,
  give_back-frees s,
  owned_free (reinit s a).0
      (create_duplication-frees (record (give_back s).0 { frame_tex = none }) a),
)

pub reinit-frees :
    (s : DxgiCaptureSession) (a : DuplicationAnswers) → (reinit s a).0.frame_held ≡ false
unfolding reinit
reinit-frees s a = create_duplication-frees (record (give_back s).0 { frame_tex = none }) a

pub shutdown-gives : (s : DxgiCaptureSession) → IsBalanced (owned s) (Session.shutdown s).1 0
unfolding Session.shutdown
shutdown-gives s = omega (arith, give_back-IsBalanced s, give_back-frees s)

pub release_frame-IsBalanced :
    (s : DxgiCaptureSession) → IsBalanced (owned s) (release_frame s).1 (owned (release_frame s).0)
unfolding release_frame release_call
release_frame-IsBalanced s = ground arith

pub release_frame-frees : (s : DxgiCaptureSession) → (release_frame s).0.frame_held ≡ false
unfolding release_frame
release_frame-frees s = ground arith

release_frame-keeps :
    (s : DxgiCaptureSession) → (release_frame s).0.has_duplication ≡ s.has_duplication
unfolding release_frame
release_frame-keeps s = ground arith

on_answer-IsBalanced :
    (s : DxgiCaptureSession) (answer : AcquireAnswer)
    → s.has_duplication ≡ true
    → s.frame_held ≡ false
    → IsBalanced 0 (on_answer s answer).calls (owned (on_answer s answer).session)
unfolding on_answer keep_frame
on_answer-IsBalanced s wait_timeout d h = ground arith
on_answer-IsBalanced s access_lost d h = ground arith
on_answer-IsBalanced s device_removed d h = ground arith
on_answer-IsBalanced s acquire_failed d h = ground arith
on_answer-IsBalanced s (next_frame n none t) d h = ground arith
on_answer-IsBalanced s (next_frame n (some tex) t) d h = ground arith

acquire-cases :
    (s : DxgiCaptureSession) (early present : Bool) (o : Acquired)
    (freed : DxgiCaptureSession × List DxgiCall)
    → IsBalanced (owned s) freed.1 (owned freed.0)
    → owned freed.0 ≡ 0
    → (present ≡ true → IsBalanced 0 o.calls (owned o.session))
    → let answered =
        if early
        then record { session = s; frame = none; faulted = false; calls = [] }
        else if not present
        then record {
          session = freed.0;
          frame = none;
          faulted = true;
          calls = freed.1 ++ (null_call ∷ []);
        }
        else record o { calls = freed.1 ++ o.calls } in
      IsBalanced (owned s) answered.calls (owned answered.session)
acquire-cases s true present o freed p z q = refl
acquire-cases s false false o freed p z q =
    IsBalanced-append (owned s) freed.1 (owned freed.0) (null_call ∷ []) (owned freed.0) p refl
acquire-cases s false true o freed p z q =
    IsBalanced-append (owned s) freed.1 0 o.calls (owned o.session)
      (subst (λ n. IsBalanced (owned s) freed.1 n) z p) (q refl)

pub acquire-IsBalanced :
    (s : DxgiCaptureSession) (answer : AcquireAnswer)
    → IsBalanced (owned s) (acquire s answer).calls (owned (acquire s answer).session)
unfolding acquire
acquire-IsBalanced s answer =
    let freed = release_frame s in
    let o = on_answer (freed.0) answer in
    acquire-cases s (not s.initialized || s.needs_reinit) s.has_duplication o freed
      (release_frame-IsBalanced s) (owned_free (freed.0) (release_frame-frees s))
      (λ d.
        on_answer-IsBalanced (freed.0) answer (release_frame-keeps s ∙ d) (release_frame-frees s))
