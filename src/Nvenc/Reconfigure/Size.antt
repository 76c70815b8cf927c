-- ===== src/Nvenc/Reconfigure/Size.antt =====
-- The picture size in the reconfigurations of encode_nvenc.cpp.
use reji_studio.Base.{ℕ, ◌≤◌, ◌≡◌, Bool, List, [], ◌∷◌, ap₂, subst, arith, refl, All, All-append}
use reji_studio.Nvenc.{SavedConfig, SavedInit, NvCall, Impl, Outcome}
use reji_studio.Nvenc.Frame.{encode_frame}
use reji_studio.Nvenc.Rates.{
  Scale, clamped, resized, adopt_size, set_bitrate, set_resolution, set_fps_limit,
}
use reji_studio.Nvenc.Handles.Requests.{
  Request, encode, change_bitrate, change_resolution, change_fps, flush_now, serve, serve_all,
}
use reji_studio.Nvenc.Reconfigure.{
  Sends, SameRates, encode_frame-SameRates, encode_frame-Sends, flush-Sends,
}

-- The size a session is encoded at never passes the one it was set up with.
pub record IsCapped (s : Impl) : Type 0 where
  pub max_wide : s.saved_init.max_encode_width ≡ s.orig_width
  pub max_high : s.saved_init.max_encode_height ≡ s.orig_height
  pub narrow : s.saved_init.encode_width ≤ s.orig_width
  pub low : s.saved_init.encode_height ≤ s.orig_height

abbrev pub FitsSession : ℕ → ℕ → SavedConfig → SavedInit → Type 0
FitsSession w h c i =
    ((i.max_encode_width ≡ w) × (i.max_encode_height ≡ h))
    × ((i.encode_width ≤ w) × (i.encode_height ≤ h))

-- A served request: the session stays capped at the same size, and so does what it sends.
abbrev IsKept : Impl → Outcome → Type 0
IsKept s o =
    ((o.state.orig_width ≡ s.orig_width) × (o.state.orig_height ≡ s.orig_height))
    × (IsCapped o.state × All (Sends (FitsSession s.orig_width s.orig_height)) o.calls)

bitrate-IsKept :
    (s : Impl) (kbps : ℕ) (answer : Bool) → IsCapped s → IsKept s (set_bitrate s kbps answer)
unfolding set_bitrate
bitrate-IsKept s kbps answer c = ground (arith, c)

size-IsKept :
    (s : Impl) (f : Scale) (answer : Bool) → IsCapped s → IsKept s (set_resolution s f answer)
unfolding set_resolution resized adopt_size clamped
size-IsKept s f answer c = ground (arith, c)

fps-IsKept :
    (s : Impl) (fps : ℕ) (answer : Bool) → IsCapped s → IsKept s (set_fps_limit s fps answer)
unfolding set_fps_limit
fps-IsKept s fps answer c = ground (arith, c)

kept_caps : (s t : Impl) → IsCapped s → SameRates s t → IsCapped t
kept_caps s t c r = record {
  max_wide = rw (r.same_init, r.same_width) c.max_wide;
  max_high = rw (r.same_init, r.same_height) c.max_high;
  narrow = rw (r.same_init, r.same_width) c.narrow;
  low = rw (r.same_init, r.same_height) c.low;
}

serve-IsKept : (s : Impl) (q : Request) → IsCapped s → IsKept s (serve s q)
serve-IsKept s (encode tex pts idr a) c =
    let o = encode_frame s tex pts idr a in
    let r = encode_frame-SameRates s tex pts idr a in
    ((r.same_width, r.same_height), (kept_caps s o.state c r, encode_frame-Sends _ s tex pts idr a))
serve-IsKept s (change_bitrate kbps answer) c = bitrate-IsKept s kbps answer c
serve-IsKept s (change_resolution f answer) c = size-IsKept s f answer c
serve-IsKept s (change_fps fps answer) c = fps-IsKept s fps answer c
serve-IsKept s flush_now c = ((refl, refl), (c, flush-Sends _ s))

fits_by :
    (cs : List NvCall) {w w' h h' : ℕ}
    → w' ≡ w
    → h' ≡ h
    → All (Sends (FitsSession w' h')) cs
    → All (Sends (FitsSession w h)) cs
fits_by cs p q = subst (λ a. a) (ap₂ (λ x y. All (Sends (FitsSession x y)) cs) p q)

-- Over any requests to a capped session, the driver's refusals included, each reconfiguration keeps
-- the session's maximum at the size it was set up with and asks for no larger picture, and the
-- session stays capped.
pub serve_all-keeps_size :
    (s : Impl) (qs : List Request)
    → IsCapped s
    → IsCapped (serve_all s qs).state
      × All (Sends (FitsSession s.orig_width s.orig_height)) (serve_all s qs).calls
serve_all-keeps_size s [] c = (c, tt)
serve_all-keeps_size s (q ∷ qs) c =
    let k = serve-IsKept s q c in
    let rest = serve_all-keeps_size (serve s q).state qs k.1.0 in
    (
      rest.0,
      All-append _ (serve s q).calls (serve_all (serve s q).state qs).calls k.1.1
          (fits_by _ (k.0.0) (k.0.1) rest.1),
    )
