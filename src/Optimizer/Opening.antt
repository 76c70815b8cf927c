-- ===== src/Optimizer/Opening.antt =====
-- The counters and functions that init of copy_optimizer.cpp leaves.
use reji_studio.Base.{
  ℕ, ◌≡◌, Bool, true, false, ◌&&◌, ◌||◌, not, Option, none, some, List, [], ◌∷◌, ◌++◌, refl, arith,
  if◌then◌else◌, sym,
}
use reji_studio.Optimizer
use reji_studio.Optimizer.{
  VkCall, submitted, barrier, blit, copy_image, GpuCopyOptimizer, new_optimizer,
}
use reji_studio.Optimizer.Lifecycle
use reji_studio.Optimizer.Lifecycle.{
  InitAnswers, reset_slots, armed, find_functions, make_semaphore, make_buffers, give_up,
}

-- What a successful stage of init leaves: the counters it found, and the two functions.
abbrev pub IsOpened : GpuCopyOptimizer → Lifecycle.Opened → Type 0
IsOpened s o =
    o.ok ≡ true
    → (o.state.timeline_counter ≡ s.timeline_counter)
      × (o.state.signal_value ≡ s.signal_value)
      × (o.state.has_get_counter ≡ true)
      × (o.state.has_wait ≡ true)

IsOpened-if :
    (b : Bool) (s : GpuCopyOptimizer) (x y : Lifecycle.Opened)
    → IsOpened s x
    → (b ≡ false → IsOpened s y)
    → IsOpened s (if b then x else y)
IsOpened-if true s x y p q = p
IsOpened-if false s x y p q = q refl

was_true : (b : Bool) → not b ≡ false → b ≡ true
was_true true h = refl
was_true false h = sym h

give_up-IsOpened : (s t : GpuCopyOptimizer) (calls : List VkCall) → IsOpened s (give_up t calls)
unfolding give_up
give_up-IsOpened s t calls bad = absurd (ground arith)

functions-IsOpened :
    (s : GpuCopyOptimizer) (a : InitAnswers) (calls : List VkCall)
    → IsOpened s (find_functions s a calls)
unfolding find_functions
functions-IsOpened s a calls =
    let counted = record s { has_get_counter = a.get_counter_found } in
    let waiting = record counted { has_wait = a.wait_found } in
    let rest : Lifecycle.Opened =
      if not a.wait_found
      then give_up waiting calls
      else record { state = waiting; ok = true; calls = calls } in
    IsOpened-if (not a.get_counter_found) s (give_up counted calls) rest
      (give_up-IsOpened s counted calls)
      (λ found.
        IsOpened-if (not a.wait_found) s (give_up waiting calls)
          (record { state = waiting; ok = true; calls = calls }) (give_up-IsOpened s waiting calls)
          (λ waits ok.
            (refl, refl, was_true a.get_counter_found found, was_true a.wait_found waits)))

semaphore-IsOpened :
    (s : GpuCopyOptimizer) (a : InitAnswers) (x : Option ℕ) (calls : List VkCall)
    → IsOpened s (make_semaphore s a x calls)
unfolding make_semaphore
semaphore-IsOpened s a none calls = give_up-IsOpened s s calls
semaphore-IsOpened s a (some x) calls =
    functions-IsOpened (record s { timeline_semaphore = some x }) a
      (calls ++ (Optimizer.made_semaphore x ∷ []))

buffers-IsOpened :
    (s : GpuCopyOptimizer) (a : InitAnswers) (x : Option ℕ) → IsOpened s (make_buffers s a x)
unfolding make_buffers
buffers-IsOpened s a none = give_up-IsOpened s s []
buffers-IsOpened s a (some x) =
    let pooled = record s { command_pool = some x } in
    let filled = record pooled { has_buffers = true; use_blit = a.blit_src && a.blit_dst } in
    IsOpened-if (not a.buffers_ok) s
      (give_up (record pooled { has_buffers = false }) (Optimizer.made_pool x ∷ []))
      (make_semaphore filled a a.semaphore (Optimizer.made_pool x ∷ []))
      (give_up-IsOpened s (record pooled { has_buffers = false }) (Optimizer.made_pool x ∷ []))
      (λ fine. semaphore-IsOpened filled a a.semaphore (Optimizer.made_pool x ∷ []))

pub init-IsOpened : (s : GpuCopyOptimizer) (a : InitAnswers) → IsOpened s (Lifecycle.init s a)
unfolding Lifecycle.init armed reset_slots
init-IsOpened s a =
    IsOpened-if (not a.device_given || (not a.queue_given || not a.phys_given)) s
      (record { state = s; ok = false; calls = [] }) (make_buffers (armed s a) a a.pool)
      (λ bad. absurd (ground arith)) (λ given. buffers-IsOpened (armed s a) a a.pool)
