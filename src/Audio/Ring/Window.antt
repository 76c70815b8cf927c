-- ===== src/Audio/Ring/Window.antt =====
-- The slots between the two counters, oldest first, and how one write or one read changes them.
use reji_studio.Base.{
  ℕ, zero, suc, ◌+◌, ◌-◌, ◌%◌, ◌^◌, ◌<◌, ◌≤◌, ◌≡◌, refl, ap, ap₂, ◌≢◌, List, [], ◌∷◌, ◌++◌, arith,
  update, add_u64, length,
}

module _ {ℓ} {A : Type ℓ} where
  -- The cells at `head`, `head + 1`, … below `head + n`, each at the low four bits of its counter.
  pub window : (ℕ → A) → ℕ → ℕ → List A
  window cells head zero = []
  window cells head (suc n) = cells (head % 16) ∷ window cells (add_u64 head 1) n

  pub length-window : (cells : ℕ → A) (head n : ℕ) → length (window cells head n) ≡ n
  unfolding window
  length-window cells head zero = refl
  length-window cells head (suc n) = ap suc (length-window cells (add_u64 head 1) n)

  pub window-zero : (cells : ℕ → A) (head : ℕ) → window cells head 0 ≡ []
  unfolding window
  window-zero cells head = refl

  pub window_of_pos :
      (cells : ℕ → A) (head n : ℕ)
      → n ≢ 0
      → window cells head n ≡ cells (head % 16) ∷ window cells (add_u64 head 1) (n - 1)
  unfolding window
  window_of_pos cells head zero h = absurd (h refl)
  window_of_pos cells head (suc n) h = ap (λ k. window cells head (suc k)) (omega arith)

  -- A write at the cell just past a window extends it; the window's own cells stay as they are.
  pub window-update :
      (cells : ℕ → A) (v : A) (n head tail : ℕ)
      → n < 16
      → tail ≡ (head + n) % 2 ^ 64
      → head < 2 ^ 64
      → window (update cells (tail % 16) v) head (suc n) ≡ window cells head n ++ (v ∷ [])
  unfolding window
  window-update cells v zero head tail h e lt = ground arith
  window-update cells v (suc n) head tail h e lt =
      ap₂ ◌∷◌ (ground arith)
        (window-update cells v n (add_u64 head 1) tail (omega arith) (omega arith) (omega arith))

  -- A write at a cell past a window, less than a turn from its start, leaves the window alone.
  pub window-update_free :
      (cells : ℕ → A) (v : A) (n m head tail : ℕ)
      → n ≤ m
      → m < 16
      → tail ≡ (head + m) % 2 ^ 64
      → window (update cells (tail % 16) v) head n ≡ window cells head n
  unfolding window
  window-update_free cells v zero m head tail le h e = refl
  window-update_free cells v (suc n) m head tail le h e = ap₂ ◌∷◌ (ground arith) (
      window-update_free cells v n (m - 1) (add_u64 head 1) tail (omega arith) (omega arith)
        (omega arith))

  -- A window one longer ends in the next cell.
  pub window-suc :
      (cells : ℕ → A) (n head tail : ℕ)
      → tail ≡ (head + n) % 2 ^ 64
      → window cells head (suc n) ≡ window cells head n ++ (cells (tail % 16) ∷ [])
  unfolding window
  window-suc cells zero head tail e = ground arith
  window-suc cells (suc n) head tail e =
      ap (λ l. cells (head % 16) ∷ l) (window-suc cells n (add_u64 head 1) tail (omega arith))
