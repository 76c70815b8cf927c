-- ===== src/Preview/Reading.antt =====
-- The images that draws of PreviewWidget::paintGL read, and the writes between them.
use reji_studio.Base.{
  ℕ, ◌+◌, ◌%◌, ◌≡◌, Bool, true, false, Option, some, List, [], ◌∷◌, ◌++◌, refl, update, sym, subst,
}
use reji_studio.Optimizer.Lifecycle.{has}
use reji_studio.Preview.{
  PendingFrame, PreviewWidget, PaintCall, passed_fence, wrote, waited_semaphore, drew,
}

-- The images with a draw that no wait has yet seen the end of, after a journal.
abbrev pub reading : (ℕ → Bool) → List PaintCall → ℕ → Bool
reading r [] = r
reading r (drew slot ∷ cs) = reading (update r slot true) cs
reading r (passed_fence slot ∷ cs) = reading (update r slot false) cs
reading r (wrote image ∷ cs) = reading r cs
reading r (waited_semaphore slot ∷ cs) = reading r cs

-- Every write is of an image that is not read; `index` says which of the pool's images a handle is.
abbrev pub IsUnread : (ℕ → ℕ) → (ℕ → Bool) → List PaintCall → Type 0
IsUnread index r [] = Unit
IsUnread index r (drew slot ∷ cs) = IsUnread index (update r slot true) cs
IsUnread index r (passed_fence slot ∷ cs) = IsUnread index (update r slot false) cs
IsUnread index r (wrote image ∷ cs) = (r (index image) ≡ false) × IsUnread index r cs
IsUnread index r (waited_semaphore slot ∷ cs) = IsUnread index r cs

-- What the bridge promises of a target for a slot: it is the image after the slot's own.
abbrev pub IsTarget : (ℕ → ℕ) → ℕ → Option ℕ → Type 0
IsTarget index slot target = (image : ℕ) → target ≡ some image → index image ≡ (slot + 1) % 3

abbrev pub IsPlaced : (ℕ → ℕ) → PendingFrame → Type 0
IsPlaced index f = IsTarget index f.slot f.target

-- The widget has the fences of all that is read, and the functions to wait; its frame is the bridge's.
abbrev pub IsFenced : (ℕ → ℕ) → (ℕ → Bool) → PreviewWidget → Type 0
IsFenced index r w =
    (w.has_client_wait ≡ true)
    × (w.has_fence_sync ≡ true)
    × ((i : ℕ) → r i ≡ true → has (w.gl_draw_fences i) ≡ true)
    × IsPlaced index w.pending

-- Safe calls, after which the widget has the fences again.
unfoldable pub IsSafe : (ℕ → ℕ) → (ℕ → Bool) → PreviewWidget × List PaintCall → Type 0
IsSafe index r o = IsUnread index r o.1 × IsFenced index (reading r o.1) o.0

reading-append :
    (r : ℕ → Bool) (xs ys : List PaintCall) → reading r (xs ++ ys) ≡ reading (reading r xs) ys
reading-append r [] ys = refl
reading-append r (drew slot ∷ xs) ys = reading-append (update r slot true) xs ys
reading-append r (passed_fence slot ∷ xs) ys = reading-append (update r slot false) xs ys
reading-append r (wrote image ∷ xs) ys = reading-append r xs ys
reading-append r (waited_semaphore slot ∷ xs) ys = reading-append r xs ys

module _ (index : ℕ → ℕ) where
  IsUnread-append :
      (r : ℕ → Bool) (xs ys : List PaintCall)
      → IsUnread index r xs
      → IsUnread index (reading r xs) ys
      → IsUnread index r (xs ++ ys)
  IsUnread-append r [] ys p q = q
  IsUnread-append r (drew slot ∷ xs) ys p q = IsUnread-append (update r slot true) xs ys p q
  IsUnread-append r (passed_fence slot ∷ xs) ys p q =
      IsUnread-append (update r slot false) xs ys p q
  IsUnread-append r (wrote image ∷ xs) ys p q = (p.0, IsUnread-append r xs ys p.1 q)
  IsUnread-append r (waited_semaphore slot ∷ xs) ys p q = IsUnread-append r xs ys p q

  pub IsSafe-append :
      (r : ℕ → Bool) (w v : PreviewWidget) (xs ys : List PaintCall)
      → IsUnread index r xs
      → IsSafe index (reading r xs) (v, ys)
      → IsSafe index r (v, xs ++ ys)
  unfolding IsSafe
  IsSafe-append r w v xs ys p q = (
    IsUnread-append r xs ys p q.0,
    subst (λ f. IsFenced index f v) (sym (reading-append r xs ys)) q.1,
  )
