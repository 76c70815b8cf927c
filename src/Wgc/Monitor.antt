-- ===== src/Wgc/Monitor.antt =====
-- The search for the monitor in WgcScreenCapture::init of capture_wgc.cpp.
use reji_studio.Base.{
  ℕ, zero, suc, ◌+◌, ◌<◌, ◌≡◌, Bool, true, false, not, Option, none, some, List, [], ◌∷◌, ◌++◌,
  ◌==◌, refl, arith, if◌then◌else◌, ap, ◌∙◌,
}
use reji_studio.Wgc.{Output, WgcAdapter, scan_outputs, or_scan, scan_adapters}

-- The attached outputs of all adapters, in order.
abbrev pub attached_of : List Output → List Output
attached_of [] = []
attached_of (o ∷ rest) = let later = attached_of rest in if o.attached then o ∷ later else later

abbrev pub all_attached : List WgcAdapter → List Output
all_attached [] = []
all_attached (a ∷ rest) = attached_of a.outputs ++ all_attached rest

abbrev pub nth : ℕ → List Output → Option Output
nth n [] = none
nth zero (o ∷ os) = some o
nth (suc n) (o ∷ os) = nth n os

-- Where the outputs so far are not enough, the rest is searched as a list of attached outputs is.
Continues : ℕ → List Output → (ℕ → Option Output) → Type 0
Continues w xs later = (g k : ℕ) → g + k ≡ w → later g ≡ nth k xs

Finds : List Output → Type 0
Finds os =
    (xs : List Output) (w g k : ℕ) (later : ℕ → Option Output)
    → g + k ≡ w
    → Continues w xs later
    → or_scan (scan_outputs os w g) later ≡ nth k (attached_of os ++ xs)

is_here : (g w : ℕ) → g ≡ w → (g == w) ≡ true
is_here g w e = ground (arith, e)

is_past : (g w : ℕ) → g < w → (g == w) ≡ false
is_past g w e = ground (arith, e)

Finds-next :
    (attached : Bool) (o : Output) (rest : List Output)
    → Finds rest
    → (xs : List Output) (w g k : ℕ) (later : ℕ → Option Output) → g + k ≡ w
    → Continues w xs later
    → or_scan
        (if not attached
          then scan_outputs rest w g
          else if g == w
          then (some o, g)
          else scan_outputs rest w (g + 1))
        later
      ≡ nth k ((if attached then o ∷ attached_of rest else attached_of rest) ++ xs)
unfolding Finds
Finds-next false o rest ih xs w g k later e h = ih xs w g k later e h
Finds-next true o rest ih xs w g zero later e h =
    ap (λ b. or_scan (if b then (some o, g) else scan_outputs rest w (g + 1)) later)
      (is_here g w (omega (arith, e)))
Finds-next true o rest ih xs w g (suc k) later e h =
    ap (λ b. or_scan (if b then (some o, g) else scan_outputs rest w (g + 1)) later)
      (is_past g w (omega (arith, e)))
    ∙ ih xs w (g + 1) k later (omega (arith, e)) h

outputs-Finds : (os : List Output) → Finds os
unfolding scan_outputs Finds Continues
outputs-Finds [] xs w g k later e h = h g k e
outputs-Finds (o ∷ rest) xs w g k later e h =
    Finds-next o.attached o rest (outputs-Finds rest) xs w g k later e h

adapters-Continues :
    (adapters : List WgcAdapter) (w : ℕ)
    → Continues w (all_attached adapters) (scan_adapters adapters w)
unfolding scan_adapters Continues Finds
adapters-Continues [] w g k e = refl
adapters-Continues (a ∷ rest) w g k e =
    outputs-Finds a.outputs (all_attached rest) w g k (scan_adapters rest w) e
      (adapters-Continues rest w)

-- For any adapters, the monitor that is captured is the one of the configured number among the outputs
-- attached to the desktop, counted over all adapters in their order and over the outputs of each in
-- theirs, and there is none if there are not that many.
pub scan_adapters-nth :
    (adapters : List WgcAdapter) (output_index : ℕ)
    → scan_adapters adapters output_index 0 ≡ nth output_index (all_attached adapters)
unfolding Continues
scan_adapters-nth adapters output_index =
    adapters-Continues adapters output_index 0 output_index (omega arith)
