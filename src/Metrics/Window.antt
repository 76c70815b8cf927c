-- ===== src/Metrics/Window.antt =====
-- The drop rate is that of the last 30 polls.
use reji_studio.Base.{
  ℕ, zero, suc, ◌+◌, ◌-◌, ◌*◌, ◌/◌, ◌%◌, ◌^◌, ◌≤◌, ◌<◌, min, ◌≡◌, refl, sym, ap, ap₂, ◌∙◌, inl, inr,
  Bool-cases, ltb→lt, false, List, [], ◌∷◌, arith, ltb, ◌==◌, if◌then◌else◌, update, take, sum,
  length, sub_u32,
}
use reji_studio.Metrics.{
  MetricsCollector, window, new_collector, ring_total, drop_pct, calculate_frame_drop_pct,
}

-- The `j`-th of the newest entries; 0 past the end.
abbrev pub nth : List ℕ → ℕ → ℕ
nth [] j = 0
nth (x ∷ xs) zero = x
nth (x ∷ xs) (suc j) = nth xs j

-- The sum of the first `n` cells, exactly.
pub cells : (ℕ → ℕ) → ℕ → ℕ
cells ring zero = 0
cells ring (suc n) = cells ring n + ring n

ring_total-cells : (ring : ℕ → ℕ) (n : ℕ) → ring_total ring n ≡ cells ring n % 2 ^ 32
unfolding ring_total cells
ring_total-cells ring zero = refl
ring_total-cells ring (suc n) = omega (arith, ring_total-cells ring n)

cells-update_of_le : (ring : ℕ → ℕ) (p v n : ℕ) → n ≤ p → cells (update ring p v) n ≡ cells ring n
unfolding cells
cells-update_of_le ring p v zero h = refl
cells-update_of_le ring p v (suc n) h = ground (arith, cells-update_of_le ring p v n)

cells-update :
    (ring : ℕ → ℕ) (p v n : ℕ) → p < n → cells (update ring p v) n + ring p ≡ cells ring n + v
unfolding cells
cells-update ring p v zero h = absurd (omega arith)
cells-update ring p v (suc n) h = elim (Bool-cases (p == n)) [
  | inl last ↦ ground (arith, cells-update_of_le ring p v n)
  | inr before ↦ ground (arith, cells-update ring p v n)
]

sum-take-suc : (n : ℕ) (xs : List ℕ) → sum (take (suc n) xs) ≡ sum (take n xs) + nth xs n
sum-take-suc zero [] = refl
sum-take-suc zero (x ∷ xs) = omega arith
sum-take-suc (suc n) [] = refl
sum-take-suc (suc n) (x ∷ xs) = omega (arith, sum-take-suc n xs)

sum-take_all : (n : ℕ) (xs : List ℕ) → length xs ≤ n → sum (take n xs) ≡ sum xs
sum-take_all zero [] h = refl
sum-take_all zero (x ∷ xs) h = absurd (omega arith)
sum-take_all (suc n) [] h = refl
sum-take_all (suc n) (x ∷ xs) h = omega (arith, sum-take_all n xs (omega arith))

-- A ring of 30 cells, written round and round, that holds the newest 30 of the history `hist`.
pub record Holds (ring : ℕ → ℕ) (hist : List ℕ) : Type 0 where
  pub cell : (j : ℕ) → j < 30 → j < length hist → ring ((length hist - 1 - j) % 30) ≡ nth hist j
  pub total : cells ring (min (length hist) 30) ≡ sum (take 30 hist)

Holds-cons-cell :
    (ring : ℕ → ℕ) (hist : List ℕ) (x j : ℕ)
    → Holds ring hist
    → j < 30
    → j < suc (length hist)
    → update ring (length hist % 30) x ((suc (length hist) - 1 - j) % 30) ≡ nth (x ∷ hist) j
Holds-cons-cell ring hist x zero h a b = ground arith
Holds-cons-cell ring hist x (suc j) h a b =
    let at : (suc (length hist) - 1 - suc j) % 30 ≡ (length hist - 1 - j) % 30 = omega arith in
    let off : ((length hist % 30) == ((length hist - 1 - j) % 30)) ≡ false = ground arith in
    rw (at, off) (h.cell j (omega arith) (omega arith))

Holds-cons-total :
    (ring : ℕ → ℕ) (hist : List ℕ) (x : ℕ)
    → Holds ring hist
    → cells (update ring (length hist % 30) x) (min (suc (length hist)) 30) ≡ x + sum (take 29 hist)
unfolding cells
Holds-cons-total ring hist x h = elim (Bool-cases (ltb (length hist) 30)) [
  | inl few ↦
      let room : length hist < 30 = ltb→lt (length hist) 30 few in
      let place : length hist % 30 ≡ length hist = omega arith in
      let count : min (suc (length hist)) 30 ≡ suc (length hist) = omega arith in
      let before : min (length hist) 30 ≡ length hist = omega arith in
      rw (place, count)
        (ground (
          arith,
          cells-update_of_le ring (length hist) x (length hist) (omega arith),
          rw before at h.total,
          sum-take_all 30 hist (omega arith),
          sum-take_all 29 hist (omega arith),
        ))
  | inr many ↦
      let full : 30 ≤ length hist = ground arith in
      let count : min (suc (length hist)) 30 ≡ 30 = omega arith in
      let before : min (length hist) 30 ≡ 30 = omega arith in
      let place : (length hist - 1 - 29) % 30 ≡ length hist % 30 = omega arith in
      rw count (
        omega (
          arith,
          cells-update ring (length hist % 30) x 30 (omega arith),
          rw before at h.total,
          rw place at (h.cell 29 (omega arith) (omega arith)),
          sum-take-suc 29 hist,
        ))
]

Holds-cons :
    (ring : ℕ → ℕ) (hist : List ℕ) (x : ℕ)
    → Holds ring hist
    → Holds (update ring (length hist % 30) x) (x ∷ hist)
Holds-cons ring hist x h = record {
  cell = λ j a b. Holds-cons-cell ring hist x j h a b;
  total = Holds-cons-total ring hist x h;
}

Holds-nil : (ring : ℕ → ℕ) → Holds ring []
unfolding cells
Holds-nil ring = record { cell = λ j a b. absurd (omega arith); total = refl }

-- The collector after polls whose drop and frame counts, newest first, are `drops` and `frames`.
pub record After (drops frames : List ℕ) (m : MetricsCollector) : Type 0 where
  pub drop_cells : Holds m.drop_ring drops
  pub frame_cells : Holds m.frame_ring frames
  pub head : m.ring_head ≡ length drops
  pub same : length frames ≡ length drops
  pub count : m.ring_count ≡ min (length drops) 30

pub After-new : (now : ℕ) → After [] [] (new_collector now)
After-new now = record {
  drop_cells = Holds-nil (λ _. 0);
  frame_cells = Holds-nil (λ _. 0);
  head = refl;
  same = refl;
  count = omega arith;
}

abbrev pub drop_delta : MetricsCollector → ℕ
drop_delta m = sub_u32 m.total_drops m.prev_total_drops

abbrev pub frame_delta : MetricsCollector → ℕ
frame_delta m = sub_u32 m.total_frames m.prev_total_frames

min-suc : (n c : ℕ) → c ≡ min n 30 → min (c + 1) 30 ≡ min (suc n) 30
min-suc n c e = omega arith

After-calculate :
    {drops frames : List ℕ} {m : MetricsCollector}
    → After drops frames m
    → length drops < 2 ^ 64 - 1
    → After (drop_delta m ∷ drops) (frame_delta m ∷ frames) (calculate_frame_drop_pct m)
unfolding calculate_frame_drop_pct
After-calculate {drops} {frames} {m} a long = record {
  drop_cells = rw a.head (Holds-cons m.drop_ring drops (drop_delta m) a.drop_cells);
  frame_cells =
      rw (a.head ∙ sym a.same) (Holds-cons m.frame_ring frames (frame_delta m) a.frame_cells);
  head = omega (arith, a.head);
  same = ap suc a.same;
  count = min-suc (length drops) m.ring_count a.count;
}

-- A calculation moves the window on by the drops and frames counted since the last one, and its
-- rate is the drops in parts of 100 of the frames over the last 30 calculations, this one included
-- (0 without frames), as long as 100 times the drops of the window, and its frames, fit 32 bits.
pub calculate_last_30 :
    {drops frames : List ℕ} {m : MetricsCollector}
    → After drops frames m
    → length drops < 2 ^ 64 - 1
    → sum (take 30 (drop_delta m ∷ drops)) * 100 < 2 ^ 32
    → sum (take 30 (frame_delta m ∷ frames)) < 2 ^ 32
    → After (drop_delta m ∷ drops) (frame_delta m ∷ frames) (calculate_frame_drop_pct m)
      × ((calculate_frame_drop_pct m).metrics.frame_drop_pct ≡ (
          if sum (take 30 (frame_delta m ∷ frames)) == 0
          then 0
          else sum (take 30 (drop_delta m ∷ drops)) * 100 / sum (take 30 (frame_delta m ∷ frames))))
unfolding calculate_frame_drop_pct
calculate_last_30 {drops} {frames} {m} a long small_drops small_frames = (next, pct)
  where
    next : After (drop_delta m ∷ drops) (frame_delta m ∷ frames) (calculate_frame_drop_pct m)
    next = After-calculate a long

    n : ℕ
    n = min (m.ring_count + 1) window

    count_drops : n ≡ min (length (drop_delta m ∷ drops)) 30
    count_drops = min-suc (length drops) m.ring_count a.count

    count_frames : n ≡ min (length (frame_delta m ∷ frames)) 30
    count_frames = omega (arith, count_drops, a.same)

    drops_now :
        ring_total (calculate_frame_drop_pct m).drop_ring n ≡ sum (take 30 (drop_delta m ∷ drops))
    drops_now = omega (
      arith,
      ring_total-cells (calculate_frame_drop_pct m).drop_ring n,
      rw (← count_drops) at next.drop_cells.total,
    )

    frames_now :
        ring_total (calculate_frame_drop_pct m).frame_ring n
        ≡ sum (take 30 (frame_delta m ∷ frames))
    frames_now = omega (
      arith,
      ring_total-cells (calculate_frame_drop_pct m).frame_ring n,
      rw (← count_frames) at next.frame_cells.total,
    )

    pct : (calculate_frame_drop_pct m).metrics.frame_drop_pct ≡ (
        if sum (take 30 (frame_delta m ∷ frames)) == 0
        then 0
        else sum (take 30 (drop_delta m ∷ drops)) * 100 / sum (take 30 (frame_delta m ∷ frames)))
    pct = ap₂ drop_pct drops_now frames_now ∙ ground (arith)
