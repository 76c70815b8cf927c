-- ===== src/Optimizer/Timeline.antt =====
-- The values of the timeline semaphore in copy_optimizer.cpp.
use reji_studio.Base.{
  ℕ, zero, suc, ◌+◌, ◌^◌, ◌≤◌, ◌<◌, ◌≡◌, Bool, true, false, ◌&&◌, not, Option, none, some, List, [],
  ◌∷◌, ◌++◌, append_assoc, refl, arith, if◌then◌else◌, length, ap, ap₂, sym, ◌∙◌, add_u64, sub_u64,
}
use reji_studio.Optimizer.{VkCall, submitted, GpuCopyOptimizer, new_optimizer}
use reji_studio.Optimizer.Lifecycle
use reji_studio.Optimizer.Lifecycle.{
  InitAnswers, reset_slots, find_functions, make_semaphore, make_buffers, give_up,
}
use reji_studio.Optimizer.Opening.{init-IsOpened}
use reji_studio.Optimizer.Submit.{
  Request, CopyAnswers, Submission, Submitted, commands, gl_signal, counted, rolled_back, accepted,
  submit, record_and_submit, is_valid, is_clear, execute_copy, refuse,
}

-- The values that a journal's submissions signal, in order.
abbrev pub value_of : VkCall → List ℕ
value_of (submitted value slot gl keyed) = value ∷ []
value_of _ = []

abbrev pub values : List VkCall → List ℕ
values [] = []
values (c ∷ cs) = value_of c ++ values cs

-- c + 1, …, c + n.
abbrev pub up_from : ℕ → ℕ → List ℕ
up_from c zero = []
up_from c (suc n) = (c + 1) ∷ up_from (c + 1) n

-- Copies one after the other, with what each is answered.
unfoldable pub copy_all :
    GpuCopyOptimizer → List (Request × CopyAnswers) → GpuCopyOptimizer × List VkCall
copy_all s [] = (s, [])
copy_all s (x ∷ xs) =
    let o = execute_copy s (x.0) (x.1) in
    let rest = copy_all o.state xs in (rest.0, o.calls ++ rest.1)

abbrev pub IsInStep : GpuCopyOptimizer → Type 0
IsInStep s = s.signal_value ≡ s.timeline_counter

-- `n` submissions from the counter `c` on.
abbrev pub Advances : ℕ → ℕ → GpuCopyOptimizer → List VkCall → Type 0
Advances c n s calls = (values calls ≡ up_from c n) × (s.timeline_counter ≡ c + n) × IsInStep s

values-append : (xs ys : List VkCall) → values (xs ++ ys) ≡ values xs ++ values ys
values-append [] ys = refl
values-append (c ∷ xs) ys =
    ap (λ l. value_of c ++ l) (values-append xs ys)
    ∙ sym (append_assoc (value_of c) (values xs) (values ys))

shift : (c n k : ℕ) → up_from (c + 1 + n) k ≡ up_from (c + suc n) k
shift c n k = ap (λ d. up_from d k) {x = c + 1 + n} (omega arith)

up_from-append : (c n k : ℕ) → up_from c n ++ up_from (c + n) k ≡ up_from c (n + k)
up_from-append c zero k =
    ap (λ d. up_from d k) {x = c + 0} {y = c} (omega arith)
    ∙ ap (up_from c) {x = k} {y = 0 + k} (omega arith)
up_from-append c (suc n) k =
    ap (λ l. (c + 1) ∷ (up_from (c + 1) n ++ l)) (sym (shift c n k))
    ∙ ap (λ l. (c + 1) ∷ l) (up_from-append (c + 1) n k)
    ∙ ap (up_from c) {x = suc (n + k)} {y = suc n + k} (omega arith)

commands-quiet :
    (s : GpuCopyOptimizer) (r : Request) (from to : ℕ) → values (commands s r from to) ≡ []
unfolding commands
commands-quiet s r from to = ground arith

-- A copy makes at most one submission.
abbrev IsCopy : ℕ → Submitted → Type 0
IsCopy c o = (n : ℕ) × (n ≤ 1) × Advances c n o.state o.calls

refuse-IsCopy :
    (s : GpuCopyOptimizer) (calls : List VkCall)
    → IsInStep s
    → values calls ≡ []
    → IsCopy s.timeline_counter (refuse s calls)
refuse-IsCopy s calls h q = (0, omega arith, (q, omega arith, h))

IsCopy-if :
    (b : Bool) (c : ℕ) (x y : Submitted) → IsCopy c x → IsCopy c y → IsCopy c (if b then x else y)
IsCopy-if true c x y p q = p
IsCopy-if false c x y p q = q

unsent-IsCopy :
    (c : ℕ) (t : GpuCopyOptimizer) (calls : List VkCall)
    → values calls ≡ []
    → t.timeline_counter ≡ c
    → IsInStep t
    → IsCopy c (refuse t calls)
unsent-IsCopy c t calls q e h = (0, omega arith, (q, omega arith, h))

sent-IsCopy :
    (c : ℕ) (t : GpuCopyOptimizer) (calls : List VkCall) (value slot : ℕ) (gl keyed : Option ℕ)
    (result : Option Submission)
    → values calls ≡ []
    → value ≡ c + 1
    → t.timeline_counter ≡ value
    → IsInStep t
    → IsCopy c (record {
      state = t;
      result = result;
      calls = calls ++ (submitted value slot gl keyed ∷ []);
    })
sent-IsCopy c t calls value slot gl keyed result q v e h = (
  1,
  omega arith,
  (
    values-append calls (submitted value slot gl keyed ∷ [])
        ∙ ap (λ l. l ++ (value ∷ [])) q
        ∙ ap (λ n. n ∷ []) v,
    omega arith,
    h,
  ),
)

submit-IsCopy :
    (s : GpuCopyOptimizer) (r : Request) (a : CopyAnswers) (to : ℕ) (calls : List VkCall)
    → s.timeline_counter + 1 < 2 ^ 64
    → values calls ≡ []
    → IsCopy s.timeline_counter (submit s r a to calls)
unfolding submit rolled_back accepted counted
submit-IsCopy s r a to calls room q =
    let value = add_u64 s.timeline_counter 1 in
    let next : value ≡ s.timeline_counter + 1 = omega arith in
    let back : sub_u64 value 1 ≡ s.timeline_counter = omega arith in
    let keyed = if a.keyed_mutexes then r.staging_memory else none in
    let out : Option Submission =
      some (record { semaphore = s.timeline_semaphore; value = value; image = to }) in
    let sent : Submitted = record {
      state = accepted s r;
      result = out;
      calls = calls ++ (submitted value r.slot (gl_signal s r) keyed ∷ []);
    } in
    IsCopy-if (not a.submit_ok) s.timeline_counter (refuse (rolled_back s r) calls) sent
      (unsent-IsCopy s.timeline_counter (rolled_back s r) calls q back refl)
      (sent-IsCopy s.timeline_counter (accepted s r) calls value r.slot (gl_signal s r) keyed out q
        next refl refl)

copied-IsCopy :
    (s : GpuCopyOptimizer) (r : Request) (a : CopyAnswers) (from to : Option ℕ)
    → s.timeline_counter + 1 < 2 ^ 64
    → IsInStep s
    → IsCopy s.timeline_counter (record_and_submit s r a from to)
unfolding record_and_submit
copied-IsCopy s r a (some from) (some to) room h =
    IsCopy-if (not (a.reset_ok && a.begin_ok)) s.timeline_counter (refuse s []) _
      (refuse-IsCopy s [] h refl)
      (IsCopy-if (not a.end_ok) s.timeline_counter (refuse s (commands s r from to)) _
        (refuse-IsCopy s (commands s r from to) h (commands-quiet s r from to))
        (submit-IsCopy s r a to (commands s r from to) room (commands-quiet s r from to)))
copied-IsCopy s r a none to room h = refuse-IsCopy s [] h refl
copied-IsCopy s r a (some from) none room h = refuse-IsCopy s [] h refl

execute_copy-IsCopy :
    (s : GpuCopyOptimizer) (r : Request) (a : CopyAnswers)
    → s.timeline_counter + 1 < 2 ^ 64
    → IsInStep s
    → IsCopy s.timeline_counter (execute_copy s r a)
unfolding execute_copy
execute_copy-IsCopy s r a room h =
    IsCopy-if (not (is_valid s r)) s.timeline_counter (refuse s []) _ (refuse-IsCopy s [] h refl) (
      IsCopy-if (not (is_clear s a)) s.timeline_counter (refuse s []) _ (refuse-IsCopy s [] h refl)
        (copied-IsCopy s r a r.staging r.target room h))

copy_all-Advances :
    (s : GpuCopyOptimizer) (xs : List (Request × CopyAnswers))
    → s.timeline_counter + length xs < 2 ^ 64
    → IsInStep s
    → (n : ℕ) × (n ≤ length xs) × Advances s.timeline_counter n (copy_all s xs).0 (copy_all s xs).1
unfolding copy_all
copy_all-Advances s [] room h = (0, omega arith, (refl, omega arith, h))
copy_all-Advances s (x ∷ xs) room h =
    let o = execute_copy s (x.0) (x.1) in
    let one = execute_copy-IsCopy s (x.0) (x.1) (omega arith) h in
    let rest = copy_all-Advances o.state xs (omega (arith, one.1, one.2.1, room)) one.2.2 in
    (
      one.0 + rest.0,
      omega (arith, one.1, rest.1),
      (
        values-append o.calls (copy_all o.state xs).1
            ∙ ap₂ (λ k l. k ++ l) one.2.0 (rest.2.0 ∙ ap (λ c. up_from c rest.0) one.2.1)
            ∙ up_from-append s.timeline_counter one.0 rest.0,
        omega (arith, one.2.1, rest.2.1),
        rest.2.2,
      ),
    )

-- For an optimizer that init has set up anew, over any copies that are fewer than 2^64, whatever Vulkan
-- answers and whichever of them are refused or fail to be submitted: the values submitted to the timeline
-- semaphore are 1, 2, 3 and so on without a gap, up to the counter, which is at most the number of
-- copies, and the value that the next copy waits for is that counter.
pub submissions_count_up :
    (a : InitAnswers) (xs : List (Request × CopyAnswers))
    → (Lifecycle.init new_optimizer a).ok ≡ true
    → length xs < 2 ^ 64
    → let o = copy_all (Lifecycle.init new_optimizer a).state xs in
      (values o.1 ≡ up_from 0 o.0.timeline_counter)
      × (o.0.timeline_counter ≤ length xs)
      × (o.0.signal_value ≡ o.0.timeline_counter)
submissions_count_up a xs ok room =
    let s = (Lifecycle.init new_optimizer a).state in
    let up = init-IsOpened new_optimizer a ok in
    let all = copy_all-Advances s xs (omega (arith, up.0)) (up.1 ∙ sym up.0) in
    let count : all.0 ≡ (copy_all s xs).0.timeline_counter = omega (arith, all.2.1, up.0) in
    (all.2.0 ∙ ap₂ up_from up.0 count, omega (arith, all.1, count), all.2.2)
