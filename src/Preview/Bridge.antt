-- ===== src/Preview/Bridge.antt =====
-- src/pipeline/gpu/slot_ring.h and ExternalMemoryBridge::get_frame_images.
use reji_studio.Base.{
  ℕ, zero, suc, ◌+◌, ◌%◌, ◌≡◌, Bool, true, false, not, Option, none, some, List, [], ◌∷◌, ◌++◌,
  refl, arith, if◌then◌else◌, ap, sym, subst, length,
}
use reji_studio.Optimizer.{pool_size}

-- uint32_t arithmetic on a slot does not wrap: a slot is below 3.
unfoldable pub next_pool_slot : ℕ → ℕ
next_pool_slot cur = (cur + 1) % pool_size

-- Whether the pool's lock is free, and the images if the bridge has them.
pub record BridgeAnswers : Type 0 where
  pub lock_free : Bool
  pub images : Option (ℕ × ℕ)

-- The bridge's pool_index_; out: the index, and the images with their slot.
unfoldable pub on_images : ℕ → Option (ℕ × ℕ) → ℕ × Option (ℕ × ℕ × ℕ)
unfolding next_pool_slot
on_images pool_index none = (pool_index, none)
on_images pool_index (some (staging, target)) =
    (next_pool_slot pool_index, some (staging, target, pool_index))

unfoldable pub get_frame_images : ℕ → BridgeAnswers → ℕ × Option (ℕ × ℕ × ℕ)
unfolding on_images
get_frame_images pool_index a =
    let done = on_images pool_index a.images in if not a.lock_free then (pool_index, none) else done

-- The slots that a sequence of calls reports.
abbrev pub slot_of : Option (ℕ × ℕ × ℕ) → List ℕ
slot_of none = []
slot_of (some (staging, target, slot)) = slot ∷ []

unfoldable pub slots : ℕ → List BridgeAnswers → List ℕ
slots pool_index [] = []
slots pool_index (a ∷ rest) =
    let o = get_frame_images pool_index a in slot_of o.1 ++ slots (o.0) rest

-- c mod 3, …, (c + n - 1) mod 3.
abbrev pub cycle_from : ℕ → ℕ → List ℕ
cycle_from c zero = []
cycle_from c (suc n) = (c % 3) ∷ cycle_from (c + 1) n

-- The slots reported from the index of the c-th frame on go round.
abbrev GoesRound : ℕ → List ℕ → Type 0
GoesRound c found = found ≡ cycle_from c (length found)

slots-images :
    (c : ℕ) (images : Option (ℕ × ℕ)) (rest : List BridgeAnswers)
    → ((d : ℕ) → GoesRound d (slots (d % 3) rest))
    → let o = on_images (c % 3) images in GoesRound c (slot_of o.1 ++ slots (o.0) rest)
unfolding on_images next_pool_slot
slots-images c none rest ih = ih c
slots-images c (some (staging, target)) rest ih =
    let turn : (c % 3 + 1) % 3 ≡ (c + 1) % 3 = omega arith in
    subst (λ k. GoesRound c ((c % 3) ∷ slots k rest)) (sym turn)
      (ap (λ l. (c % 3) ∷ l) (ih (c + 1)))

slots-if :
    (b : Bool) (c : ℕ) (o : ℕ × Option (ℕ × ℕ × ℕ)) (rest : List BridgeAnswers)
    → GoesRound c (slots (c % 3) rest)
    → GoesRound c (slot_of o.1 ++ slots (o.0) rest)
    → let p = if b then (c % 3, none) else o in GoesRound c (slot_of p.1 ++ slots (p.0) rest)
slots-if true c o rest skip go = skip
slots-if false c o rest skip go = go

slots-GoesRound : (c : ℕ) (xs : List BridgeAnswers) → GoesRound c (slots (c % 3) xs)
unfolding slots get_frame_images
slots-GoesRound c [] = refl
slots-GoesRound c (a ∷ rest) =
    slots-if (not a.lock_free) c (on_images (c % 3) a.images) rest (slots-GoesRound c rest)
      (slots-images c a.images rest (λ d. slots-GoesRound d rest))

-- Over any calls of get_frame_images on a new bridge, whichever of them find the pool locked or no image,
-- the frames that are given carry the slots 0, 1, 2, 0, 1, 2 and so on, with none left out.
pub slots_go_round : (xs : List BridgeAnswers) → slots 0 xs ≡ cycle_from 0 (length (slots 0 xs))
slots_go_round xs = slots-GoesRound 0 xs
