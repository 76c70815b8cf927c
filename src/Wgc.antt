-- ===== src/Wgc.antt =====
-- src/pipeline/capture/capture_wgc.h and capture_wgc.cpp: the capture of a monitor by Windows Graphics
-- Capture. DXGI, D3D11 and WinRT are foreign: their answers are arguments, and a journal keeps what is
-- opened, closed and given back. The names of adapters and the log are left out.
pub mod Session
pub mod Monitor
use reji_studio.Base.{
  ℕ, zero, suc, ◌+◌, ◌-◌, ◌%◌, ◌^◌, ◌/◌, ◌<◌, ◌≡◌, Bool, true, false, ◌&&◌, ◌||◌, not, Option, none,
  some, List, [], ◌∷◌, ◌++◌, ◌==◌, refl, arith, if◌then◌else◌, ap, sym, ◌∙◌,
}
use reji_studio.Base.Int.{ℤ, pos, negsuc, ◌-ℤ◌}
use reji_studio.Dxgi.{Rect, to_u32}

-- DXGI_OUTPUT_DESC, as far as it is read.
pub record Output : Type 0 where
  pub attached : Bool
  pub monitor : ℕ
  pub area : Rect

-- An adapter: its pointer, its vendor and its outputs.
pub record WgcAdapter : Type 0 where
  pub pointer : ℕ
  pub vendor_id : ℕ
  pub outputs : List Output

-- The first NVIDIA adapter.
unfoldable pub find_nvidia : List WgcAdapter → Option WgcAdapter
find_nvidia [] = none
find_nvidia (a ∷ rest) =
    let later = find_nvidia rest in if a.vendor_id == 0x10de then some a else later

abbrev pub first : List WgcAdapter → Option WgcAdapter
first [] = none
first (a ∷ rest) = some a

abbrev pub or_else : Option WgcAdapter → Option WgcAdapter → Option WgcAdapter
or_else none other = other
or_else (some a) other = some a

unfoldable pub encode_adapter : List WgcAdapter → Option WgcAdapter
unfolding find_nvidia
encode_adapter adapters = or_else (find_nvidia adapters) (first adapters)

-- The outputs of one adapter, with the number of attached outputs before: the wanted one, or the number
-- after them.
unfoldable pub scan_outputs : List Output → ℕ → ℕ → Option Output × ℕ
scan_outputs [] wanted global_idx = (none, global_idx)
scan_outputs (o ∷ rest) wanted global_idx =
    let later = scan_outputs rest wanted global_idx in
    let next = scan_outputs rest wanted (global_idx + 1) in
    if not o.attached then later else if global_idx == wanted then (some o, global_idx) else next

abbrev pub or_scan : Option Output × ℕ → (ℕ → Option Output) → Option Output
or_scan (some o, n) later = some o
or_scan (none, n) later = later n

-- The adapters one after the other, until an output is found.
unfoldable pub scan_adapters : List WgcAdapter → ℕ → ℕ → Option Output
unfolding scan_outputs
scan_adapters [] wanted global_idx = none
scan_adapters (a ∷ rest) wanted global_idx =
    or_scan (scan_outputs a.outputs wanted global_idx) (scan_adapters rest wanted)
