-- ===== src/Optimizer/Submit.antt =====
-- execute_copy, clear_gl_signal and is_slot_signaled of copy_optimizer.h and copy_optimizer.cpp.
use reji_studio.Base.{
  ℕ, Bool, true, false, ◌&&◌, ◌||◌, not, Option, none, some, List, [], ◌∷◌, ◌++◌, ◌==◌, ltb,
  add_u64, sub_u64, update, if◌then◌else◌,
}
use reji_studio.Optimizer.{
  undefined, transfer_src, transfer_dst, shader_read_only, VkCall, barrier, blit, copy_image,
  submitted, GpuCopyOptimizer, pool_size,
}
use reji_studio.Optimizer.Lifecycle.{has}

-- The arguments of execute_copy: the two images, the size, the two slots, whether the three places for
-- results are given, the GL semaphore and the memory.
pub record Request : Type 0 where
  pub staging : Option ℕ
  pub target : Option ℕ
  pub width : ℕ
  pub height : ℕ
  pub slot : ℕ
  pub gl_signal_slot : ℕ
  pub outs_given : Bool
  pub gl_sync_sem : Option ℕ
  pub staging_memory : Option ℕ

-- What Vulkan answers: the counter's value, whether the wait and each step succeeds, and whether the
-- initializer is there and uses keyed mutexes.
pub record CopyAnswers : Type 0 where
  pub current_value : ℕ
  pub wait_ok : Bool
  pub reset_ok : Bool
  pub begin_ok : Bool
  pub end_ok : Bool
  pub submit_ok : Bool
  pub keyed_mutexes : Bool

-- The results: the semaphore, its value, the image.
pub record Submission : Type 0 where
  pub semaphore : Option ℕ
  pub value : ℕ
  pub image : ℕ

pub record Submitted : Type 0 where
  pub state : GpuCopyOptimizer
  pub result : Option Submission
  pub calls : List VkCall

abbrev pub refuse : GpuCopyOptimizer → List VkCall → Submitted
refuse s calls = record { state = s; result = none; calls = calls }

-- The guards on the arguments.
unfoldable pub is_valid : GpuCopyOptimizer → Request → Bool
is_valid s r =
    (s.has_device && (s.has_buffers && s.has_queue))
    && (ltb r.slot pool_size
        && (ltb r.gl_signal_slot pool_size
            && ((has r.staging && has r.target)
                && (not ((r.width == 0) || (r.height == 0)) && r.outs_given))))

-- The wait for the previous submission.
unfoldable pub is_clear : GpuCopyOptimizer → CopyAnswers → Bool
is_clear s a =
    if ltb 0 s.signal_value && (s.has_get_counter && s.has_wait)
    then if ltb a.current_value s.signal_value then a.wait_ok else true
    else true

-- The commands: the images' layouts before and after, and the copy.
unfoldable pub commands : GpuCopyOptimizer → Request → ℕ → ℕ → List VkCall
commands s r from to =
    barrier from undefined transfer_src
    ∷ barrier to (s.target_layouts r.slot) transfer_dst
    ∷ (if s.use_blit then blit from to r.width r.height else copy_image from to r.width r.height)
    ∷ barrier to transfer_dst shader_read_only
    ∷ barrier from transfer_src transfer_src
    ∷ []

-- The slot whose GL semaphore is signalled.
unfoldable pub gl_signal : GpuCopyOptimizer → Request → Option ℕ
gl_signal s r =
    if s.slot_gl_signaled r.gl_signal_slot
    then none
    else if has r.gl_sync_sem
    then some r.gl_signal_slot
    else none

abbrev pub mark : (ℕ → Bool) → Option ℕ → ℕ → Bool
mark signaled none = signaled
mark signaled (some i) = update signaled i true

-- The counter, the value to signal and the memory, before the submission.
unfoldable pub counted : GpuCopyOptimizer → Request → GpuCopyOptimizer
counted s r =
    let value = add_u64 s.timeline_counter 1 in
    record s { timeline_counter = value; signal_value = value; km_memory = r.staging_memory }

-- After a submission that fails.
unfoldable pub rolled_back : GpuCopyOptimizer → Request → GpuCopyOptimizer
unfolding counted
rolled_back s r =
    let back = sub_u64 (add_u64 s.timeline_counter 1) 1 in
    record (counted s r) { timeline_counter = back; signal_value = back }

-- After one that succeeds.
unfoldable pub accepted : GpuCopyOptimizer → Request → GpuCopyOptimizer
unfolding counted gl_signal
accepted s r = record (counted s r) {
  target_layouts = update s.target_layouts r.slot shader_read_only;
  staging_layouts = update s.staging_layouts r.slot undefined;
  slot_gl_signaled = mark s.slot_gl_signaled (gl_signal s r);
}

-- From the increment of the counter on.
unfoldable pub submit : GpuCopyOptimizer → Request → CopyAnswers → ℕ → List VkCall → Submitted
unfolding rolled_back accepted gl_signal
submit s r a to calls =
    let value = add_u64 s.timeline_counter 1 in
    let keyed = if a.keyed_mutexes then r.staging_memory else none in
    if not a.submit_ok then refuse (rolled_back s r) calls else record {
      state = accepted s r;
      result = some (record { semaphore = s.timeline_semaphore; value = value; image = to });
      calls = calls ++ (submitted value r.slot (gl_signal s r) keyed ∷ []);
    }

-- With both images, from the reset of the command buffer on.
unfoldable pub record_and_submit :
    GpuCopyOptimizer → Request → CopyAnswers → Option ℕ → Option ℕ → Submitted
unfolding commands submit
record_and_submit s r a (some from) (some to) =
    if not (a.reset_ok && a.begin_ok)
    then refuse s []
    else if not a.end_ok
    then refuse s (commands s r from to)
    else submit s r a to (commands s r from to)
record_and_submit s r a _ _ = refuse s []

unfoldable pub execute_copy : GpuCopyOptimizer → Request → CopyAnswers → Submitted
unfolding is_valid is_clear record_and_submit
execute_copy s r a =
    if not (is_valid s r)
    then refuse s []
    else if not (is_clear s a)
    then refuse s []
    else record_and_submit s r a r.staging r.target

unfoldable pub clear_gl_signal : GpuCopyOptimizer → ℕ → GpuCopyOptimizer
clear_gl_signal s slot =
    if ltb slot pool_size
    then record s { slot_gl_signaled = update s.slot_gl_signaled slot false }
    else s

unfoldable pub is_slot_signaled : GpuCopyOptimizer → ℕ → Bool
is_slot_signaled s slot = ltb slot pool_size && s.slot_gl_signaled slot
