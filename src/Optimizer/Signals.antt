-- ===== src/Optimizer/Signals.antt =====
-- The signals of the GL semaphores in copy_optimizer.h and copy_optimizer.cpp.
use reji_studio.Base.{
  one_if, ℕ, ◌+◌, ◌≤◌, ◌≡◌, Bool, true, false, ◌&&◌, not, Option, none, some, List, [], ◌∷◌, ◌++◌,
  ◌==◌, refl, arith, if◌then◌else◌, update, is_at, add_u64,
}
use reji_studio.Optimizer.{VkCall, submitted, GpuCopyOptimizer}
use reji_studio.Optimizer.Lifecycle.{has}
use reji_studio.Optimizer.Submit.{
  Request, CopyAnswers, Submitted, commands, gl_signal, mark, counted, rolled_back, accepted,
  submit, record_and_submit, is_valid, is_clear, execute_copy, refuse, clear_gl_signal,
}

-- The submissions that signal the semaphore of a slot, and the clears of its flag.
abbrev pub signals : ℕ → VkCall → ℕ
signals x (submitted value slot gl keyed) = is_at gl x
signals x _ = 0

abbrev pub signaled : ℕ → List VkCall → ℕ
signaled x [] = 0
signaled x (c ∷ cs) = signals x c + signaled x cs

-- A copy, or the clear of a slot's flag by paintGL, which has waited on its semaphore.
pub data GlMove : Type 0 where
  gl_copy : Request → CopyAnswers → GlMove
  gl_clear : ℕ → GlMove

abbrev pub clears : ℕ → List GlMove → ℕ
clears x [] = 0
clears x (gl_clear slot ∷ ms) = one_if (slot == x) + clears x ms
clears x (gl_copy r a ∷ ms) = clears x ms

unfoldable pub gl_moves : GpuCopyOptimizer → List GlMove → GpuCopyOptimizer × List VkCall
gl_moves s [] = (s, [])
gl_moves s (gl_copy r a ∷ ms) =
    let o = execute_copy s r a in let rest = gl_moves o.state ms in (rest.0, o.calls ++ rest.1)
gl_moves s (gl_clear slot ∷ ms) = gl_moves (clear_gl_signal s slot) ms

abbrev flag : ℕ → GpuCopyOptimizer → ℕ
flag x s = one_if (s.slot_gl_signaled x)

signaled-append :
    (x : ℕ) (cs ds : List VkCall) → signaled x (cs ++ ds) ≡ signaled x cs + signaled x ds
signaled-append x [] ds = omega arith
signaled-append x (c ∷ cs) ds = omega (arith, signaled-append x cs ds)

commands-unsignaled :
    (x : ℕ) (s : GpuCopyOptimizer) (r : Request) (from to : ℕ)
    → signaled x (commands s r from to) ≡ 0
unfolding commands
commands-unsignaled x s r from to = ground arith

-- One step signals a slot only if its flag was down, and then leaves it up.
abbrev IsGuarded : ℕ → GpuCopyOptimizer → Submitted → Type 0
IsGuarded x s o = signaled x o.calls + flag x s ≡ flag x o.state

IsGuarded-if :
    (b : Bool) (x : ℕ) (s : GpuCopyOptimizer) (o p : Submitted)
    → IsGuarded x s o
    → IsGuarded x s p
    → IsGuarded x s (if b then o else p)
IsGuarded-if true x s o p g h = g
IsGuarded-if false x s o p g h = h

update-up :
    (x : ℕ) (f : ℕ → Bool) (i : ℕ)
    → f i ≡ false
    → one_if (i == x) + one_if (f x) ≡ one_if (update f i true x)
update-up x f i down = ground (arith, down)

mark-up :
    (x : ℕ) (f : ℕ → Bool) (i : ℕ) (up given : Bool)
    → f i ≡ up
    → let gl = if up then none else if given then some i else none in
      is_at gl x + one_if (f x) ≡ one_if (mark f gl x)
mark-up x f i true given e = omega arith
mark-up x f i false false e = omega arith
mark-up x f i false true e = update-up x f i e

mark-flag :
    (x : ℕ) (s : GpuCopyOptimizer) (r : Request)
    → is_at (gl_signal s r) x + flag x s ≡ one_if (mark s.slot_gl_signaled (gl_signal s r) x)
unfolding gl_signal
mark-flag x s r =
    mark-up x s.slot_gl_signaled r.gl_signal_slot (s.slot_gl_signaled r.gl_signal_slot)
      (has r.gl_sync_sem) refl

submit-IsGuarded :
    (x : ℕ) (s : GpuCopyOptimizer) (r : Request) (a : CopyAnswers) (to : ℕ) (calls : List VkCall)
    → signaled x calls ≡ 0
    → IsGuarded x s (submit s r a to calls)
unfolding submit rolled_back accepted counted
submit-IsGuarded x s r a to calls q =
    IsGuarded-if (not a.submit_ok) x s (refuse (rolled_back s r) calls)
      (record {
        state = accepted s r;
        result = some (record {
          semaphore = s.timeline_semaphore;
          value = add_u64 s.timeline_counter 1;
          image = to;
        });
        calls =
            calls
            ++ (submitted (add_u64 s.timeline_counter 1) r.slot (gl_signal s r)
                  (if a.keyed_mutexes then r.staging_memory else none)
                ∷ []);
      })
      (omega (arith, q))
      (omega (
        arith,
        q,
        mark-flag x s r,
        signaled-append x calls (
            submitted (add_u64 s.timeline_counter 1) r.slot (gl_signal s r)
              (if a.keyed_mutexes then r.staging_memory else none)
            ∷ []),
      ))

copied-IsGuarded :
    (x : ℕ) (s : GpuCopyOptimizer) (r : Request) (a : CopyAnswers) (from to : Option ℕ)
    → IsGuarded x s (record_and_submit s r a from to)
unfolding record_and_submit
copied-IsGuarded x s r a (some from) (some to) =
    let quiet = commands-unsignaled x s r from to in
    IsGuarded-if (not (a.reset_ok && a.begin_ok)) x s (refuse s []) _ (omega arith) (
      IsGuarded-if (not a.end_ok) x s (refuse s (commands s r from to)) _ (omega (arith, quiet))
        (submit-IsGuarded x s r a to (commands s r from to) quiet))
copied-IsGuarded x s r a none to = omega arith
copied-IsGuarded x s r a (some from) none = omega arith

copy-IsGuarded :
    (x : ℕ) (s : GpuCopyOptimizer) (r : Request) (a : CopyAnswers)
    → IsGuarded x s (execute_copy s r a)
unfolding execute_copy
copy-IsGuarded x s r a = IsGuarded-if (not (is_valid s r)) x s (refuse s []) _ (omega arith) (
    IsGuarded-if (not (is_clear s a)) x s (refuse s []) _ (omega arith)
      (copied-IsGuarded x s r a r.staging r.target))

clear-flag :
    (x : ℕ) (s : GpuCopyOptimizer) (slot : ℕ)
    → flag x s ≤ one_if (slot == x) + flag x (clear_gl_signal s slot)
unfolding clear_gl_signal
clear-flag x s slot = ground arith

-- Over any copies and clears of flags, a slot's GL semaphore, which is binary, is signalled at most once
-- more than its flag is cleared, and not even once more when the flag is up before or down after.
pub gl_signals-bounded :
    (x : ℕ) (s : GpuCopyOptimizer) (ms : List GlMove)
    → signaled x (gl_moves s ms).1 + one_if (s.slot_gl_signaled x)
      ≤ clears x ms + one_if ((gl_moves s ms).0.slot_gl_signaled x)
unfolding gl_moves
gl_signals-bounded x s [] = omega arith
gl_signals-bounded x s (gl_copy r a ∷ ms) =
    let o = execute_copy s r a in
    omega (
      arith,
      copy-IsGuarded x s r a,
      gl_signals-bounded x o.state ms,
      signaled-append x o.calls (gl_moves o.state ms).1,
    )
gl_signals-bounded x s (gl_clear slot ∷ ms) =
    omega (arith, clear-flag x s slot, gl_signals-bounded x (clear_gl_signal s slot) ms)
