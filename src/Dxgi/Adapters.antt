-- ===== src/Dxgi/Adapters.antt =====
-- The search for adapters in capture_dxgi.cpp: scan_gpus, find_display_adapter, find_encode_adapter.
use reji_studio.Base.{
  ℕ, zero, suc, ◌+◌, ◌*◌, ◌/◌, ◌≡◌, refl, Bool, true, false, not, Option, none, some, List, [], ◌∷◌,
  ◌++◌, map, take, length, ◌==◌, ltb, if◌then◌else◌, arith, append-nil, append_assoc, ap, ap₂, sym,
  ◌∙◌, lt→ltb, le→ltb,
}
use reji_studio.Pipeline.State.{GpuEntry}

-- DXGI_ADAPTER_DESC1, as far as it is read: the software flag, the vendor, the memory; and whether
-- EnumOutputs finds the wanted output. An adapter is known by its pointer.
pub record Adapter : Type 0 where
  pub pointer : ℕ
  pub is_software : Bool
  pub vendor_id : ℕ
  pub dedicated_bytes : ℕ
  pub has_output : Bool

abbrev pub entry_of : Adapter → GpuEntry
entry_of a = record {
  vendor_id = a.vendor_id;
  dedicated_vram_mb = a.dedicated_bytes / (1024 * 1024);
}

-- The adapters are those EnumAdapters1 gives before DXGI_ERROR_NOT_FOUND; entries and their count.
unfoldable pub scan_from : List Adapter → List GpuEntry → ℕ → List GpuEntry × ℕ
scan_from [] entries count = (entries, count)
scan_from (a ∷ as_yet) entries count =
    let kept = scan_from as_yet (entries ++ (entry_of a ∷ [])) (count + 1) in
    let passed = scan_from as_yet entries count in
    if a.is_software then passed else if ltb count 8 then kept else passed

unfoldable pub scan_gpus : List Adapter → List GpuEntry × ℕ × Bool
unfolding scan_from
scan_gpus adapters = let o = scan_from adapters [] 0 in (o.0, o.1, ltb 0 o.1)

-- With no factory the count stays 0.
unfoldable pub scan_gpus_standalone : Option (List Adapter) → List GpuEntry × ℕ × Bool
unfolding scan_gpus
scan_gpus_standalone none = ([], 0, false)
scan_gpus_standalone (some adapters) = scan_gpus adapters

unfoldable pub find_display_adapter : List Adapter → Option Adapter
find_display_adapter [] = none
find_display_adapter (a ∷ rest) =
    let later = find_display_adapter rest in
    if a.is_software then later else if a.has_output then some a else later

-- The NVIDIA adapter that is not the display's, after the test on the configuration.
unfoldable pub find_nvidia : List Adapter → Adapter → Adapter
find_nvidia [] display = display
find_nvidia (a ∷ rest) display =
    let later = find_nvidia rest display in
    if a.is_software
    then later
    else if a.pointer == display.pointer
    then later
    else if a.vendor_id == 0x10de
    then a
    else later

unfoldable pub find_encode_adapter : Bool → List Adapter → Adapter → Adapter
unfolding find_nvidia
find_encode_adapter allow_cross_adapter adapters display =
    if not allow_cross_adapter then display else find_nvidia adapters display

-- The hardware adapters, in the order of their enumeration.
abbrev pub hardware : List Adapter → List Adapter
hardware [] = []
hardware (a ∷ rest) = let later = hardware rest in if a.is_software then later else a ∷ later

-- What a scan of the rest gives, for the entries there are and the room left.
abbrev Takes : List Adapter → Type 0
Takes adapters =
    (entries : List GpuEntry) (count room : ℕ)
    → count + room ≡ 8
    → scan_from adapters entries count ≡ (
      entries ++ map entry_of (take room (hardware adapters)),
      count + length (take room (hardware adapters)),
    )

Takes-next :
    (software : Bool) (a : Adapter) (rest : List Adapter)
    → Takes rest
    → (entries : List GpuEntry) (count room : ℕ) → count + room ≡ 8
    → (if software
        then scan_from rest entries count
        else if ltb count 8
        then scan_from rest (entries ++ (entry_of a ∷ [])) (count + 1)
        else scan_from rest entries count)
      ≡ (
        entries ++ map entry_of (take room (if software then hardware rest else a ∷ hardware rest)),
        count + length (take room (if software then hardware rest else a ∷ hardware rest)),
      )
Takes-next true a rest ih entries count room h = ih entries count room h
Takes-next false a rest ih entries count zero h =
    ap
      (λ b.
        if b
        then scan_from rest (entries ++ (entry_of a ∷ [])) (count + 1)
        else scan_from rest entries count)
      (le→ltb count 8 (omega arith))
    ∙ ih entries count 0 h
Takes-next false a rest ih entries count (suc room) h =
    ap
      (λ b.
        if b
        then scan_from rest (entries ++ (entry_of a ∷ [])) (count + 1)
        else scan_from rest entries count)
      (lt→ltb count 8 (omega arith))
    ∙ ih (entries ++ (entry_of a ∷ [])) (count + 1) room (omega arith)
    ∙ ap₂ (λ x y. (x, y))
        (append_assoc entries (entry_of a ∷ []) (map entry_of (take room (hardware rest))))
        (omega arith)

scan_from-Takes : (adapters : List Adapter) → Takes adapters
unfolding scan_from
scan_from-Takes [] entries count zero h =
    ap₂ (λ x y. (x, y)) (sym (append-nil entries)) (omega arith)
scan_from-Takes [] entries count (suc room) h =
    ap₂ (λ x y. (x, y)) (sym (append-nil entries)) (omega arith)
scan_from-Takes (a ∷ rest) entries count room h =
    Takes-next a.is_software a rest (scan_from-Takes rest) entries count room h

-- For any adapters, the scan lists exactly the first eight that are not software, in the order DXGI
-- enumerates them, its count is the length of that list, and it reports success exactly when there is
-- one.
pub scan_gpus-lists_eight :
    (adapters : List Adapter)
    → scan_gpus adapters ≡ (
      map entry_of (take 8 (hardware adapters)),
      length (take 8 (hardware adapters)),
      ltb 0 (length (take 8 (hardware adapters))),
    )
unfolding scan_gpus
scan_gpus-lists_eight adapters =
    ap (λ o. (o.0, o.1, ltb 0 (o.1))) (scan_from-Takes adapters [] 0 8 refl)
    ∙ ap (λ n. (map entry_of (take 8 (hardware adapters)), n, ltb 0 n)) (omega arith)
