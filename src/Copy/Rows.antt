-- ===== src/Copy/Rows.antt =====
-- The bytes of copy_mapped_rows in pitch_copy.h.
use reji_studio.Base.{
  ℕ, zero, suc, ◌+◌, ◌*◌, ◌≤◌, ◌<◌, ◌≡◌, ◌∙◌, ◌⊎◌, inl, inr, refl, sym, ap, ap₂, subst, ◌≢◌, Bool,
  false, ◌&&◌, ltb, Bool-cases, ltb→lt, if◌then◌else◌, update, min, arith,
}
use reji_studio.Copy.{memcpy, copy_rows, copy_mapped_rows}

update_either :
    (f : ℕ → ℕ) (i v j : ℕ) → ((i ≡ j) × (update f i v j ≡ v)) ⊎ ((i ≢ j) × (update f i v j ≡ f j))
update_either f i v j = ground arith

memcpy-inside :
    (dst : ℕ → ℕ) (to : ℕ) (src : ℕ → ℕ) (from n i : ℕ)
    → i < n
    → memcpy dst to src from n (to + i) ≡ src (from + i)
unfolding memcpy
memcpy-inside dst to src from zero i l = absurd (omega arith)
memcpy-inside dst to src from (suc n) i l =
    elim (update_either (memcpy dst to src from n) (to + n) (src (from + n)) (to + i)) [
      | inl e ↦ e.1 ∙ ap (λ k. src (from + k)) (omega (arith, e.0))
      | inr e ↦ e.1 ∙ memcpy-inside dst to src from n i (omega (arith, e.0))
    ]

memcpy-outside :
    (dst : ℕ → ℕ) (to : ℕ) (src : ℕ → ℕ) (from n a : ℕ)
    → (a < to) ⊎ (to + n ≤ a)
    → memcpy dst to src from n a ≡ dst a
unfolding memcpy
memcpy-outside dst to src from zero a o = refl
memcpy-outside dst to src from (suc n) a o =
    elim (update_either (memcpy dst to src from n) (to + n) (src (from + n)) a) [
      | inl e ↦ absurd (omega (arith, e.0, o))
      | inr e ↦ e.1 ∙ memcpy-outside dst to src from n a (omega (arith, o))
    ]

-- A byte before the row, or after its copied part and before the next row, is left as it is.
copy_rows-before :
    (dst : ℕ → ℕ) (dp : ℕ) (src : ℕ → ℕ) (sp bytes left y a : ℕ)
    → a < y * dp
    → copy_rows dst dp src sp bytes left y a ≡ dst a
unfolding copy_rows
copy_rows-before dst dp src sp bytes zero y a l = refl
copy_rows-before dst dp src sp bytes (suc left) y a l =
    copy_rows-before (memcpy dst (y * dp) src (y * sp) bytes) dp src sp bytes left (y + 1) a
      (grind arith)
    ∙ memcpy-outside dst (y * dp) src (y * sp) bytes a (inl l)

rows_apart : (dp y r x : ℕ) → x < dp → r < y → r * dp + x < y * dp
rows_apart dp y r x l m = grind arith

rows_after : (dp y r : ℕ) → y ≤ r → y * dp ≤ r * dp
rows_after dp y r l = grind arith

next_row : (dp y : ℕ) → (y + 1) * dp ≡ y * dp + dp
next_row dp y = grind arith

le_cases : {y r : ℕ} → y ≤ r → (y ≡ r) ⊎ (y + 1 ≤ r)
le_cases l = ground (arith, l)

apart :
    (dp y r x bytes : ℕ)
    → bytes ≤ x
    → x < dp
    → (r * dp + x < y * dp) ⊎ (y * dp + bytes ≤ r * dp + x)
apart dp y r x bytes b m = elim (Bool-cases (ltb r y)) [
  | inl p ↦ inl (rows_apart dp y r x m (ltb→lt r y p))
  | inr p ↦ inr (omega (arith, b, rows_after dp y r (ground (arith, p))))
]

not_in_row : (a b : Bool) (u v : ℕ) → b ≡ false → (if a && b then u else v) ≡ v
not_in_row a b u v e = ground (arith, e)

copy_rows-inside :
    (dst : ℕ → ℕ) (dp : ℕ) (src : ℕ → ℕ) (sp bytes left y r x : ℕ)
    → bytes ≤ dp
    → y ≤ r
    → r < y + left
    → x < bytes
    → copy_rows dst dp src sp bytes left y (r * dp + x) ≡ src (r * sp + x)
unfolding copy_rows
copy_rows-inside dst dp src sp bytes zero y r x b l u m = absurd (omega (arith, l, u))
copy_rows-inside dst dp src sp bytes (suc left) y r x b l u m =
    let row = memcpy dst (y * dp) src (y * sp) bytes in
    elim (le_cases l) [
      | inl e ↦
          subst (λ q. copy_rows row dp src sp bytes left (y + 1) (q * dp + x) ≡ src (q * sp + x)) e
            (copy_rows-before row dp src sp bytes left (y + 1) (y * dp + x)
                (rows_apart dp (y + 1) y x (omega (arith, m, b)) (omega arith))
              ∙ memcpy-inside dst (y * dp) src (y * sp) bytes x m)
      | inr g ↦ copy_rows-inside row dp src sp bytes left (y + 1) r x b g (omega (arith, u)) m
    ]

-- The bytes of a row after the copied ones.
copy_rows-padding :
    (dst : ℕ → ℕ) (dp : ℕ) (src : ℕ → ℕ) (sp bytes left y r x : ℕ)
    → bytes ≤ x
    → x < dp
    → copy_rows dst dp src sp bytes left y (r * dp + x) ≡ dst (r * dp + x)
unfolding copy_rows
copy_rows-padding dst dp src sp bytes zero y r x b m = refl
copy_rows-padding dst dp src sp bytes (suc left) y r x b m =
    let row = memcpy dst (y * dp) src (y * sp) bytes in
    copy_rows-padding row dp src sp bytes left (y + 1) r x b m
    ∙ memcpy-outside dst (y * dp) src (y * sp) bytes (r * dp + x) (apart dp y r x bytes b m)

copy_rows-beyond :
    (dst : ℕ → ℕ) (dp : ℕ) (src : ℕ → ℕ) (sp bytes left y r x : ℕ)
    → bytes ≤ dp
    → y + left ≤ r
    → copy_rows dst dp src sp bytes left y (r * dp + x) ≡ dst (r * dp + x)
unfolding copy_rows
copy_rows-beyond dst dp src sp bytes zero y r x b l = refl
copy_rows-beyond dst dp src sp bytes (suc left) y r x b l =
    let row = memcpy dst (y * dp) src (y * sp) bytes in
    copy_rows-beyond row dp src sp bytes left (y + 1) r x b (omega (arith, l))
    ∙ memcpy-outside dst (y * dp) src (y * sp) bytes (r * dp + x)
        (inr (omega (arith, b, next_row dp y, rows_after dp (y + 1) r (omega (arith, l)))))

-- What a buffer holds at column x of row r after the copy: the source's byte inside the picture and
-- within both pitches, and what it held before in the padding of a row and from the picture's end on.
pub copy_mapped_rows-exact :
    (dst : ℕ → ℕ) (dp : ℕ) (src : ℕ → ℕ) (sp height r x : ℕ)
    → x < dp
    → copy_mapped_rows dst dp src sp height (r * dp + x)
      ≡ (if ltb r height && ltb x (min sp dp) then src (r * sp + x) else dst (r * dp + x))
unfolding copy_mapped_rows
copy_mapped_rows-exact dst dp src sp height r x m = elim (Bool-cases (ltb x (min sp dp))) [
  | inl i ↦ elim (Bool-cases (ltb r height)) [
    | inl j ↦
        copy_rows-inside dst dp src sp (min sp dp) height 0 r x (omega arith) (omega arith)
          (ground (arith, j)) (ltb→lt x (min sp dp) i)
        ∙ sym (ap₂ (λ a b. if a && b then src (r * sp + x) else dst (r * dp + x)) j i)
    | inr j ↦
        copy_rows-beyond dst dp src sp (min sp dp) height 0 r x (omega arith) (ground (arith, j))
        ∙ sym (ap₂ (λ a b. if a && b then src (r * sp + x) else dst (r * dp + x)) j i)
  ]
  | inr i ↦
      copy_rows-padding dst dp src sp (min sp dp) height 0 r x (ground (arith, i)) m
      ∙ sym (not_in_row (ltb r height) (ltb x (min sp dp)) _ _ i)
]
