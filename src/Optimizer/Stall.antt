-- ===== src/Optimizer/Stall.antt =====
-- Copies after a new init in copy_optimizer.cpp.
use reji_studio.Base.{
  ◌≤◌, ◌<◌, ◌≡◌, Bool, true, false, not, List, [], ◌∷◌, ◌++◌, refl, arith, if◌then◌else◌, lt→ltb,
  ap, subst, ◌∙◌,
}
use reji_studio.Optimizer.{GpuCopyOptimizer}
use reji_studio.Optimizer.Lifecycle
use reji_studio.Optimizer.Lifecycle.{InitAnswers, shutdown, reset_slots}
use reji_studio.Optimizer.Submit.{
  Request, CopyAnswers, Submitted, refuse, record_and_submit, is_valid, is_clear, execute_copy,
}
use reji_studio.Optimizer.Timeline.{copy_all}
use reji_studio.Optimizer.Opening.{init-IsOpened}

-- Over the copies, the semaphore never reads more than the values submitted to it, and a wait for a
-- value succeeds only if it is one of those.
abbrev pub IsHonest : GpuCopyOptimizer → List (Request × CopyAnswers) → Type 0
IsHonest s [] = Unit
IsHonest s (x ∷ xs) =
    (x.1.current_value ≤ s.timeline_counter)
    × (x.1.wait_ok ≡ true → s.signal_value ≤ s.timeline_counter)
    × IsHonest (execute_copy s (x.0) (x.1)).state xs

-- The value waited for is ahead of all that is submitted.
record IsAhead (s : GpuCopyOptimizer) : Type 0 where
  ahead : s.timeline_counter < s.signal_value
  counts : s.has_get_counter ≡ true
  waits : s.has_wait ≡ true

refused-if :
    (b : Bool) (s : GpuCopyOptimizer) (o : Submitted)
    → b ≡ false
    → (if not b then refuse s [] else o) ≡ refuse s []
refused-if true s o e = absurd (ground arith)
refused-if false s o e = refl

never : (b : Bool) (P : Type 0) → (b ≡ true → P) → ¬ P → b ≡ false
never true P h no_p = absurd (no_p (h refl))
never false P h no_p = refl

same-if : (b : Bool) (o : Submitted) → (if b then o else o) ≡ o
same-if true o = refl
same-if false o = refl

is_clear-stuck :
    (s : GpuCopyOptimizer) (a : CopyAnswers)
    → IsAhead s
    → a.current_value ≤ s.timeline_counter
    → (a.wait_ok ≡ true → s.signal_value ≤ s.timeline_counter)
    → is_clear s a ≡ false
unfolding is_clear
is_clear-stuck s a h low honest =
    let ready = h.ahead in
    rw
      (
        lt→ltb 0 s.signal_value (omega (arith, ready)),
        h.counts,
        h.waits,
        lt→ltb a.current_value s.signal_value (omega (arith, low, ready)),
      )
      (never a.wait_ok (s.signal_value ≤ s.timeline_counter) honest
        (λ le. omega (arith, le, ready)))

execute_copy-stuck :
    (s : GpuCopyOptimizer) (r : Request) (a : CopyAnswers)
    → is_clear s a ≡ false
    → execute_copy s r a ≡ refuse s []
unfolding execute_copy
execute_copy-stuck s r a e =
    ap (λ o. if not (is_valid s r) then refuse s [] else o)
      (refused-if (is_clear s a) s (record_and_submit s r a r.staging r.target) e)
    ∙ same-if (not (is_valid s r)) (refuse s [])

copy_all-stuck :
    (s : GpuCopyOptimizer) (xs : List (Request × CopyAnswers))
    → IsAhead s
    → IsHonest s xs
    → copy_all s xs ≡ (s, [])
unfolding copy_all
copy_all-stuck s [] h honest = refl
copy_all-stuck s (x ∷ xs) h (low, waits, rest) =
    let e = execute_copy-stuck s (x.0) (x.1) (is_clear-stuck s (x.1) h low waits) in
    let later = subst (λ o. IsHonest o.state xs) e rest in
    ap (λ o. ((copy_all o.state xs).0, o.calls ++ (copy_all o.state xs).1)) e
    ∙ copy_all-stuck s xs h later

shutdown-counts :
    (s : GpuCopyOptimizer)
    → s.has_device ≡ true
    → ((shutdown s).0.timeline_counter ≡ 0) × ((shutdown s).0.signal_value ≡ s.signal_value)
unfolding shutdown reset_slots
shutdown-counts s h = ground (arith, h)

-- When an optimizer that has submitted a copy is shut down and initialized again, every later
-- execute_copy refuses and submits nothing, as long as the new semaphore never reads more than the
-- values submitted to it and a wait for a value succeeds only if it is one of those.
pub reopened_stalls :
    (s : GpuCopyOptimizer) (a : InitAnswers) (xs : List (Request × CopyAnswers))
    → s.has_device ≡ true
    → 0 < s.signal_value
    → (Lifecycle.init (shutdown s).0 a).ok ≡ true
    → IsHonest (Lifecycle.init (shutdown s).0 a).state xs
    → copy_all (Lifecycle.init (shutdown s).0 a).state xs
      ≡ ((Lifecycle.init (shutdown s).0 a).state, [])
reopened_stalls s a xs device sent ok honest =
    let down = shutdown-counts s device in
    let up = init-IsOpened (shutdown s).0 a ok in
    copy_all-stuck (Lifecycle.init (shutdown s).0 a).state xs
      (record {
        ahead = omega (arith, down.0, down.1, up.0, up.1, sent);
        counts = up.2;
        waits = up.3;
      })
      honest
