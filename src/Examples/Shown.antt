-- ===== src/Examples/Shown.antt =====
-- The copies for the preview, its paints, and the RTMP transport at concrete inputs.
use reji_studio.Base.{
  ℕ, ◌+◌, ◌-◌, ◌%◌, ◌≤◌, ◌≡◌, refl, true, false, none, some, List, [], ◌∷◌, arith, one_if,
}
use reji_studio.Optimizer.{GpuCopyOptimizer, new_optimizer}
use reji_studio.Optimizer.Lifecycle
use reji_studio.Optimizer.Lifecycle.{
  InitAnswers, reset_slots, armed, make_buffers, make_semaphore, find_functions, shutdown,
}
use reji_studio.Optimizer.Submit.{Request, CopyAnswers}
use reji_studio.Optimizer.Timeline.{values, up_from, copy_all, submissions_count_up}
use reji_studio.Optimizer.Stall.{reopened_stalls}
use reji_studio.Optimizer.Signals.{GlMove, signaled, clears, gl_moves, gl_signals-bounded}
use reji_studio.Preview.{PendingFrame, PreviewWidget, PaintAnswers}
use reji_studio.Preview.Reading.{IsUnread}
use reji_studio.Preview.Fences.{Turn, paints, IsFair, paints-IsUnread}
use reji_studio.Rtmp.{Use, life, IsOrdered, life-IsOrdered}

abbrev vulkan : InitAnswers
vulkan = record {
  device_given = true;
  queue_given = true;
  phys_given = true;
  family = 0;
  pool = some 1;
  buffers_ok = true;
  blit_src = true;
  blit_dst = true;
  semaphore = some 2;
  get_counter_found = true;
  wait_found = true;
}

sets_up_copies : (Lifecycle.init new_optimizer vulkan).ok ≡ true
unfolding Lifecycle.init armed reset_slots make_buffers make_semaphore find_functions
sets_up_copies = refl

abbrev request : Request
request = record {
  staging = some 20;
  target = some 21;
  width = 1920;
  height = 1080;
  slot = 0;
  gl_signal_slot = 1;
  outs_given = true;
  gl_sync_sem = some 22;
  staging_memory = some 23;
}

abbrev fine_copy : CopyAnswers
fine_copy = record {
  current_value = 0;
  wait_ok = true;
  reset_ok = true;
  begin_ok = true;
  end_ok = true;
  submit_ok = true;
  keyed_mutexes = true;
}

abbrev late_copy : CopyAnswers
late_copy = record fine_copy { wait_ok = false }

abbrev two_copies : List (Request × CopyAnswers)
two_copies = (request, fine_copy) ∷ (request, fine_copy) ∷ []

submissions_count_up_example :
    let o = copy_all (Lifecycle.init new_optimizer vulkan).state two_copies in
    (values o.1 ≡ up_from 0 o.0.timeline_counter)
    × (o.0.timeline_counter ≤ 2)
    × (o.0.signal_value ≡ o.0.timeline_counter)
submissions_count_up_example = submissions_count_up vulkan two_copies sets_up_copies (omega arith)

abbrev used_optimizer : GpuCopyOptimizer
used_optimizer = record new_optimizer {
  has_device = true;
  has_queue = true;
  has_phys_device = true;
  command_pool = some 1;
  has_buffers = true;
  timeline_semaphore = some 2;
  timeline_counter = 7;
  signal_value = 7;
  has_get_counter = true;
  has_wait = true;
}

opens_again : (Lifecycle.init (shutdown used_optimizer).0 vulkan).ok ≡ true
unfolding shutdown Lifecycle.init armed reset_slots make_buffers make_semaphore find_functions
opens_again = refl

abbrev late_copies : List (Request × CopyAnswers)
late_copies = (request, late_copy) ∷ []

reopened_stalls_example :
    copy_all (Lifecycle.init (shutdown used_optimizer).0 vulkan).state late_copies
    ≡ ((Lifecycle.init (shutdown used_optimizer).0 vulkan).state, [])
reopened_stalls_example =
    reopened_stalls used_optimizer vulkan late_copies refl (omega arith) opens_again
      (omega arith, (λ e. absurd (ground (arith, e))), tt)

abbrev gl_day : List GlMove
gl_day =
    GlMove.gl_copy request fine_copy ∷ GlMove.gl_clear 1 ∷ GlMove.gl_copy request fine_copy ∷ []

gl_signals-bounded_example :
    signaled 1 (gl_moves used_optimizer gl_day).1 + 0
    ≤ clears 1 gl_day + one_if ((gl_moves used_optimizer gl_day).0.slot_gl_signaled 1)
gl_signals-bounded_example = gl_signals-bounded 1 used_optimizer gl_day

abbrev widget : PreviewWidget
widget = record {
  optimizer = some used_optimizer;
  has_bridge = true;
  frame_dirty = true;
  pending = record {
    staging = some 20;
    target = some 21;
    frame_w = 1920;
    frame_h = 1080;
    slot = 0;
  };
  cpu_frame_dirty = false;
  cpu_w = 0;
  cpu_h = 0;
  has_pending_copy = false;
  timeline_semaphore = none;
  expected_value = 0;
  poll_frames = 0;
  tex_id = none;
  tex_w = 0;
  tex_h = 0;
  gl_pool_w = 0;
  gl_pool_h = 0;
  gl_target_w = 0;
  gl_target_h = 0;
  gl_target_image = none;
  current_pool_idx = 0;
  gl_memory_objects = λ i. none;
  gl_interop_textures = λ i. none;
  gl_draw_fences = λ i. none;
  gl_sync_semaphores = λ i. true;
  has_import = true;
  has_create_memory = true;
  has_delete_memory = true;
  has_tex_storage = true;
  has_wait_semaphore = true;
  has_fence_sync = true;
  has_client_wait = true;
}

abbrev painted : PaintAnswers
painted = record {
  reached = true;
  new_tex = 40;
  execute_target = λ slot. some (20 + (slot + 1) % 3);
  gl_sync_sem = some 22;
  shared_memory = some 23;
  fence_signaled = true;
  copy = fine_copy;
  nt_handle = true;
  new_memory = some 41;
  new_interop = some 42;
  new_fence = some 43;
}

-- The images 20, 21 and 22 are 0, 1 and 2 of the pool.
abbrev image_index : ℕ → ℕ
image_index image = image - 20

abbrev frame_in : ℕ → PendingFrame
frame_in slot = record widget.pending { target = some (20 + (slot + 1) % 3); slot = slot }

abbrev turn_in : ℕ → Turn
turn_in slot = record { frames = frame_in slot ∷ []; answers = painted }

-- The fourth frame's copy writes image 1, which the second turn drew.
abbrev four_turns : List Turn
four_turns = turn_in 0 ∷ turn_in 1 ∷ turn_in 2 ∷ turn_in 0 ∷ []

index_of-target :
    (slot image : ℕ) → some (20 + (slot + 1) % 3) ≡ some image → image_index image ≡ (slot + 1) % 3
index_of-target slot image e = ground (arith, e)

turn-IsFair : (slot : ℕ) → IsFair image_index (turn_in slot)
turn-IsFair slot = ((index_of-target slot, tt), refl, index_of-target)

paints-IsUnread_example : IsUnread image_index (λ i. false) (paints widget four_turns).1
paints-IsUnread_example =
    paints-IsUnread image_index widget four_turns refl refl (index_of-target 0)
      (turn-IsFair 0, (turn-IsFair 1, (turn-IsFair 2, (turn-IsFair 0, tt))))

abbrev stream : List Use
stream =
    Use.start true true (some 50) true
    ∷ Use.packet true
    ∷ Use.stop
    ∷ Use.start true true none true
    ∷ []

life-IsOrdered_example : IsOrdered none (life none stream)
life-IsOrdered_example = life-IsOrdered none stream
