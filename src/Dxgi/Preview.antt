-- ===== src/Dxgi/Preview.antt =====
-- The preview's textures in capture_dxgi.cpp: set_preview_requested, ensure_preview_staging,
-- init_preview_staging, map_preview_frame and unmap_preview_frame.
use reji_studio.Base.{
  ℕ, ◌-◌, ◌%◌, ◌^◌, Bool, true, false, ◌&&◌, ◌||◌, not, Option, none, some, List, [], ◌∷◌, ltb,
  if◌then◌else◌,
}
use reji_studio.Base.Int.{ℤ, pos, negsuc}
use reji_studio.Dxgi.{DxgiCall, mapped, unmapped, DxgiCaptureSession}
use reji_studio.Dxgi.Transfer.{is_held}
use reji_studio.Dxgi.Pipeline.{DxgiCapturePipeline}

-- What init_preview_staging is answered: the two textures, null where CreateTexture2D fails, and
-- whether there are a keyed mutex and a fence.
pub record PreviewAnswers : Type 0 where
  pub new_shared : Option ℕ
  pub has_mutex : Bool
  pub new_staging : Option ℕ
  pub has_fence : Bool

abbrev pub has_session : Option DxgiCaptureSession → Bool
has_session none = false
has_session (some s) = true

unfoldable pub set_preview_requested : DxgiCapturePipeline → Bool → DxgiCapturePipeline
set_preview_requested p enabled = record p { preview_cb = enabled }

unfoldable pub init_preview_staging :
    DxgiCapturePipeline → PreviewAnswers → DxgiCapturePipeline × Bool
init_preview_staging p a =
    let shared = record p { shared_texture = a.new_shared } in
    let locked = record shared { keyed_mutex_shared = a.has_mutex } in
    let staged = record locked { staging_texture = a.new_staging } in
    if is_held p.shared_texture
    then (p, true)
    else if not p.initialized || not (has_session p.capture)
    then (p, false)
    else if not (is_held a.new_shared)
    then (shared, false)
    else if not (is_held a.new_staging)
    then (record staged { shared_texture = none }, false)
    else (record staged { amd_copy_fence = a.has_fence }, true)

unfoldable pub ensure_preview_staging : DxgiCapturePipeline → PreviewAnswers → DxgiCapturePipeline
unfolding init_preview_staging
ensure_preview_staging p a =
    if p.preview_cb && not (is_held p.preview_staging)
    then (init_preview_staging p a).0
    else if not p.preview_cb && is_held p.preview_staging
    then record p { preview_staging = none }
    else p

-- static_cast<int> of a row pitch.
abbrev pub to_int : ℕ → ℤ
to_int n = let w = n % 2 ^ 32 in if ltb w (2 ^ 31) then pos w else negsuc (2 ^ 32 - w - 1)

-- Map's answer is the data and its pitch, or a failure; out: the data and the pitch for the caller.
unfoldable pub on_map :
    DxgiCapturePipeline → Option (ℕ × ℕ) → DxgiCapturePipeline × Option (ℕ × ℤ) × List DxgiCall
on_map p none = (p, none, [])
on_map p (some (data_at, row_pitch)) = (
  record p { preview_mapped = true; preview_staging_dirty = false },
  some (data_at, to_int row_pitch),
  mapped p.staging_texture ∷ [],
)

unfoldable pub map_preview_frame :
    DxgiCapturePipeline → Option (ℕ × ℕ) → DxgiCapturePipeline × Option (ℕ × ℤ) × List DxgiCall
unfolding on_map
map_preview_frame p answer =
    let done = on_map p answer in
    if not (is_held p.staging_texture) || not p.preview_staging_dirty then (p, none, []) else done

unfoldable pub unmap_preview_frame : DxgiCapturePipeline → DxgiCapturePipeline × List DxgiCall
unmap_preview_frame p =
    if not p.preview_mapped
    then (p, [])
    else (record p { preview_mapped = false }, unmapped p.staging_texture ∷ [])
