-- ===== src/Dxgi/Life.antt =====
-- The frames of the duplication over the whole life of DxgiCapturePipeline in capture_dxgi.cpp.
use reji_studio.Base.{
  arith, none, some, ℕ, ◌+◌, ◌≡◌, Bool, Option, List, [], ◌∷◌, ◌++◌, refl, ap, sym,
}
use reji_studio.Dxgi.{DxgiCall}
use reji_studio.Dxgi.Pipeline
use reji_studio.Dxgi.Pipeline.{DxgiCapturePipeline, InitAnswers}
use reji_studio.Dxgi.Preview.{
  init_preview_staging, PreviewAnswers, set_preview_requested, on_map, map_preview_frame,
  unmap_preview_frame,
}
use reji_studio.Dxgi.Frame.{NextAnswers, capture_next}
use reji_studio.Dxgi.Held.{taken, given, owned_by, IsBalanced, IsBalanced-append}
use reji_studio.Dxgi.Next.{capture_next-IsBalanced}
use reji_studio.Dxgi.Starts.{init-IsBalanced, shutdown-IsBalanced}

-- What is done with a capture pipeline: its operations, with their arguments and answers.
pub data Move : Type 0 where
  start : ℕ → ℕ → Bool → InitAnswers → Move
  stop : Move
  next : NextAnswers → Move
  request_preview : Bool → Move
  make_preview : PreviewAnswers → Move
  use_mutex : Bool → Move
  map_frame : Option (ℕ × ℕ) → Move
  unmap_frame : Move

-- `rounds` bounds the rounds of each wait for a copy.
unfoldable pub move : ℕ → DxgiCapturePipeline → Move → DxgiCapturePipeline × List DxgiCall
unfolding set_preview_requested
move rounds p (start index timeout cross a) =
    let o = Pipeline.init p index timeout cross a in (o.state, o.calls)
move rounds p stop = Pipeline.shutdown p
move rounds p (next a) = let o = capture_next rounds p a in (o.state, o.calls)
move rounds p (request_preview enabled) = (set_preview_requested p enabled, [])
move rounds p (make_preview a) = ((init_preview_staging p a).0, [])
move rounds p (use_mutex v) = (record p { use_keyed_mutex = v }, [])
move rounds p (map_frame answer) = let o = map_preview_frame p answer in (o.0, o.2)
move rounds p unmap_frame = unmap_preview_frame p

unfoldable pub moves : ℕ → DxgiCapturePipeline → List Move → DxgiCapturePipeline × List DxgiCall
unfolding move
moves rounds p [] = (p, [])
moves rounds p (m ∷ ms) =
    let o = move rounds p m in let rest = moves rounds (o.0) ms in (rest.0, o.1 ++ rest.1)

map-IsBalanced :
    (p : DxgiCapturePipeline) (answer : Option (ℕ × ℕ))
    → let o = map_preview_frame p answer in
      IsBalanced (owned_by p.capture) o.2 (owned_by o.0.capture)
unfolding map_preview_frame on_map
map-IsBalanced p none = ground arith
map-IsBalanced p (some answer) = ground arith

preview-keeps :
    (p : DxgiCapturePipeline) (a : PreviewAnswers)
    → (init_preview_staging p a).0.capture ≡ p.capture
unfolding init_preview_staging
preview-keeps p a = ground arith

move-IsBalanced :
    (rounds : ℕ) (p : DxgiCapturePipeline) (m : Move)
    → let o = move rounds p m in IsBalanced (owned_by p.capture) o.1 (owned_by o.0.capture)
unfolding move set_preview_requested unmap_preview_frame Pipeline.shutdown
move-IsBalanced rounds p (start index timeout cross a) = init-IsBalanced p index timeout cross a
move-IsBalanced rounds p stop = shutdown-IsBalanced p
move-IsBalanced rounds p (next a) = capture_next-IsBalanced rounds p a
move-IsBalanced rounds p (request_preview enabled) = refl
move-IsBalanced rounds p (make_preview a) = ap (λ c. 0 + owned_by c) (sym (preview-keeps p a))
move-IsBalanced rounds p (use_mutex v) = refl
move-IsBalanced rounds p (map_frame answer) = map-IsBalanced p answer
move-IsBalanced rounds p unmap_frame = ground arith

-- Over any sequence of starts, stops, captures and uses of the preview, with any answers of DXGI and
-- D3D11, the frames taken from the duplication are the frames given back to it, beyond the one that may
-- be held before and the one that may be held after.
pub moves-balances_frames :
    (rounds : ℕ) (p : DxgiCapturePipeline) (ms : List Move)
    → taken (moves rounds p ms).1 + owned_by p.capture
      ≡ given (moves rounds p ms).1 + owned_by (moves rounds p ms).0.capture
unfolding moves
moves-balances_frames rounds p [] = refl
moves-balances_frames rounds p (m ∷ ms) =
    let o = move rounds p m in
    let rest = moves rounds (o.0) ms in
    IsBalanced-append (owned_by p.capture) (o.1) (owned_by (o.0).capture) (rest.1)
      (owned_by (rest.0).capture) (move-IsBalanced rounds p m)
      (moves-balances_frames rounds (o.0) ms)
