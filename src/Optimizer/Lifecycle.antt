-- ===== src/Optimizer/Lifecycle.antt =====
-- init, shutdown and is_copy_ready of copy_optimizer.cpp.
use reji_studio.Base.{
  ℕ, Bool, true, false, ◌&&◌, ◌||◌, not, Option, none, some, List, [], ◌∷◌, ◌++◌, if◌then◌else◌,
}
use reji_studio.Optimizer.{
  undefined, VkCall, made_pool, destroyed_pool, made_semaphore, destroyed_semaphore,
  GpuCopyOptimizer,
}

-- The arguments of init: which handles are given, and the family; and what it is answered: the pool,
-- the buffers, the format's features, the semaphore and the two functions.
pub record InitAnswers : Type 0 where
  pub device_given : Bool
  pub queue_given : Bool
  pub phys_given : Bool
  pub family : ℕ
  pub pool : Option ℕ
  pub buffers_ok : Bool
  pub blit_src : Bool
  pub blit_dst : Bool
  pub semaphore : Option ℕ
  pub get_counter_found : Bool
  pub wait_found : Bool

-- The loops over the slots, of init and of shutdown.
unfoldable pub reset_slots : GpuCopyOptimizer → GpuCopyOptimizer
reset_slots s = record s {
  target_layouts = λ i. undefined;
  staging_layouts = λ i. undefined;
  slot_gl_signaled = λ i. false;
}

unfoldable pub destroy_semaphore : Option ℕ → List VkCall
destroy_semaphore none = []
destroy_semaphore (some x) = destroyed_semaphore x ∷ []

unfoldable pub destroy_pool : Option ℕ → List VkCall
destroy_pool none = []
destroy_pool (some x) = destroyed_pool x ∷ []

abbrev pub has : Option ℕ → Bool
has none = false
has (some x) = true

-- The wait for the last submission decides only what is logged.
unfoldable pub shutdown : GpuCopyOptimizer → GpuCopyOptimizer × List VkCall
unfolding reset_slots destroy_semaphore destroy_pool
shutdown s =
    let dead = record s { alive = false } in
    if not s.has_device then (dead, []) else (
      reset_slots (record dead {
        timeline_semaphore = none;
        has_buffers = s.has_buffers && not (has s.command_pool);
        command_pool = none;
        has_device = false;
        has_queue = false;
        has_phys_device = false;
        timeline_counter = 0;
        has_get_counter = false;
      }),
      destroy_semaphore s.timeline_semaphore ++ destroy_pool s.command_pool,
    )

pub record Opened : Type 0 where
  pub state : GpuCopyOptimizer
  pub ok : Bool
  pub calls : List VkCall

-- shutdown(); return false;
unfoldable pub give_up : GpuCopyOptimizer → List VkCall → Opened
unfolding shutdown
give_up s calls = let o = shutdown s in record { state = o.0; ok = false; calls = calls ++ o.1 }

unfoldable pub find_functions : GpuCopyOptimizer → InitAnswers → List VkCall → Opened
unfolding give_up
find_functions s a calls =
    let counted = record s { has_get_counter = a.get_counter_found } in
    let waiting = record counted { has_wait = a.wait_found } in
    if not a.get_counter_found
    then give_up counted calls
    else if not a.wait_found
    then give_up waiting calls
    else record { state = waiting; ok = true; calls = calls }

unfoldable pub make_semaphore : GpuCopyOptimizer → InitAnswers → Option ℕ → List VkCall → Opened
unfolding find_functions
make_semaphore s a none calls = give_up s calls
make_semaphore s a (some x) calls =
    find_functions (record s { timeline_semaphore = some x }) a (calls ++ (made_semaphore x ∷ []))

unfoldable pub make_buffers : GpuCopyOptimizer → InitAnswers → Option ℕ → Opened
unfolding make_semaphore
make_buffers s a none = give_up s []
make_buffers s a (some x) =
    let pooled = record s { command_pool = some x } in
    let filled = record pooled { has_buffers = true; use_blit = a.blit_src && a.blit_dst } in
    if not a.buffers_ok
    then give_up (record pooled { has_buffers = false }) (made_pool x ∷ [])
    else make_semaphore filled a a.semaphore (made_pool x ∷ [])

-- The state with which init starts to make its parts.
unfoldable pub armed : GpuCopyOptimizer → InitAnswers → GpuCopyOptimizer
unfolding reset_slots
armed s a = record (reset_slots s) {
  alive = true;
  has_device = true;
  has_queue = true;
  has_phys_device = true;
  graphics_queue_family = a.family;
}

unfoldable pub init : GpuCopyOptimizer → InitAnswers → Opened
unfolding make_buffers armed
init s a =
    if not a.device_given || (not a.queue_given || not a.phys_given)
    then record { state = s; ok = false; calls = [] }
    else make_buffers (armed s a) a a.pool

-- The wait of no length for a value is answered.
unfoldable pub is_copy_ready : GpuCopyOptimizer → Option ℕ → Bool → Bool
is_copy_ready s semaphore reached =
    if not s.alive
    then false
    else if not s.has_device || (not s.has_wait || not (has semaphore))
    then false
    else reached
