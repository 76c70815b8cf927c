-- ===== src/Pipeline/Adapters.antt =====
-- src/pipeline/pipeline.cpp: the questions about the graphics adapters, for the UI.
use reji_studio.Base.{
  ℕ, max, ◌≡◌, sym, ◌∙◌, Option, none, some, List, [], ◌∷◌, arith, ltb, ◌==◌, if◌then◌else◌,
  maximum, map,
}
use reji_studio.Pipeline.State.{GpuEntry}

-- The first entry's vendor, 0 if there is none.
unfoldable pub display_vendor_id : List GpuEntry → ℕ
display_vendor_id [] = 0
display_vendor_id (e ∷ es) = e.vendor_id

-- for (...) if (entry > max_mb) max_mb = entry
pub larger_from : ℕ → List GpuEntry → ℕ
larger_from max_mb [] = max_mb
larger_from max_mb (e ∷ es) =
    larger_from (if ltb max_mb e.dedicated_vram_mb then e.dedicated_vram_mb else max_mb) es

unfoldable pub max_gpu_vram_mb : List GpuEntry → ℕ
unfolding larger_from
max_gpu_vram_mb scan = larger_from 0 scan

-- The loop keeps the entry that `best` indexes.
pub best_from : GpuEntry → List GpuEntry → GpuEntry
best_from best [] = best
best_from best (e ∷ es) =
    best_from (if ltb best.dedicated_vram_mb e.dedicated_vram_mb then e else best) es

unfoldable pub max_vram_vendor_id : List GpuEntry → ℕ
unfolding best_from
max_vram_vendor_id [] = 0
max_vram_vendor_id (e ∷ es) = (best_from e es).vendor_id

abbrev pub memories : List GpuEntry → ℕ
memories es = maximum (map (λ e. e.dedicated_vram_mb) es)

-- The vendor of the first entry with the memory `mb`.
unfoldable pub first_with : ℕ → List GpuEntry → Option ℕ
first_with mb [] = none
first_with mb (e ∷ es) =
    let rest = first_with mb es in if e.dedicated_vram_mb == mb then some e.vendor_id else rest

larger_from-max : (m : ℕ) (es : List GpuEntry) → larger_from m es ≡ max m (memories es)
unfolding larger_from
larger_from-max m [] = omega arith
larger_from-max m (e ∷ es) =
    ground (arith, larger_from-max m es, larger_from-max e.dedicated_vram_mb es)

best_from-first_with :
    (b : GpuEntry) (es : List GpuEntry)
    → first_with (max b.dedicated_vram_mb (memories es)) (b ∷ es) ≡ some (best_from b es).vendor_id
unfolding best_from first_with
best_from-first_with b [] = ground arith
best_from-first_with b (e ∷ es) =
    ground (arith, best_from-first_with b es, best_from-first_with e es)

-- The two questions about the largest adapter agree: the memory reported is the largest of the
-- scan, and on a scan with entries the vendor reported is that of the first adapter with it.
pub max_vram-agree :
    (e : GpuEntry) (es : List GpuEntry)
    → (max_gpu_vram_mb (e ∷ es) ≡ memories (e ∷ es))
      × (some (max_vram_vendor_id (e ∷ es)) ≡ first_with (max_gpu_vram_mb (e ∷ es)) (e ∷ es))
unfolding max_gpu_vram_mb max_vram_vendor_id
max_vram-agree e es =
    let largest : larger_from 0 (e ∷ es) ≡ memories (e ∷ es) =
      larger_from-max 0 (e ∷ es) ∙ omega arith in
    (largest, rw largest (sym (best_from-first_with e es)))
