-- ===== src/Seh/Opens.antt =====
-- Access violations at one site in a row, and other exceptions, for seh_filter.cpp.
use reji_studio.Base.{
  ℕ, ◌+◌, ◌≤◌, ◌<◌, ◌^◌, ◌≡◌, ◌≢◌, ◌⊎◌, inl, inr, refl, ap, ap₂, ◌∙◌, Bool, true, false, ◌||◌, List,
  [], ◌∷◌, Option, leb, length, arith, Bool-cases,
}
use reji_studio.Seh.{
  SehSite, site_index, AvTable, av_cell, seh_register_av, av_window_ms, Fault, continue_search,
  execute_handler, seh_filter, seh_report, seh_is_passthrough, exception_access_violation,
  no_capture, code_of,
}

-- Whether one of the access violations of a site, at the given ticks, makes the valve open.
abbrev pub opens : AvTable → SehSite → List ℕ → Bool
opens g site [] = false
opens g site (t ∷ later) =
    (seh_register_av g site t).1 || opens (seh_register_av g site t).0 site later

-- The same on the site's own cell.
abbrev opens_cell : ℕ → ℕ → List ℕ → Bool
opens_cell start hits [] = false
opens_cell start hits (t ∷ later) =
    leb 3 (av_cell start hits t).1
    || opens_cell (av_cell start hits t).0 (av_cell start hits t).1 later

register_own :
    (g : AvTable) (site : SehSite) (t : ℕ)
    → site_index site < 21
    → let r = seh_register_av g site t in
      let i = site_index site in
      let cell = av_cell (g.window i) (g.hits i) t in
      (r.0.window i ≡ cell.0) × ((r.0.hits i ≡ cell.1) × (r.1 ≡ leb 3 cell.1))
unfolding seh_register_av
register_own g site t l = ground arith

opens-eq-cell :
    (site : SehSite) (ts : List ℕ) (g : AvTable)
    → site_index site < 21
    → opens g site ts ≡ opens_cell (g.window (site_index site)) (g.hits (site_index site)) ts
opens-eq-cell site [] g l = refl
opens-eq-cell site (t ∷ ts) g l =
    let own = register_own g site t l in
    ap (λ b. b || opens (seh_register_av g site t).0 site ts) own.1.1
    ∙ ap (λ b. leb 3 (av_cell (g.window (site_index site)) (g.hits (site_index site)) t).1 || b)
        (opens-eq-cell site ts (seh_register_av g site t).0 l
          ∙ ap₂ (λ w h. opens_cell w h ts) own.0 own.1.0)

-- Ticks that do not go back, from one tick on to another.
abbrev pub IsSpread : ℕ → ℕ → List ℕ → Type 0
IsSpread from last [] = Unit
IsSpread from last (t ∷ later) = (from ≤ t) × ((t ≤ last) × IsSpread t last later)

in_window :
    (start hits t : ℕ)
    → start ≤ t
    → t ≤ start + av_window_ms
    → t < 2 ^ 64
    → hits ≤ 2
    → av_cell start hits t ≡ (start, hits + 1)
unfolding av_cell
in_window start hits t l u b few = ground arith

cell_either :
    (start hits t : ℕ)
    → hits ≤ 2
    → (av_cell start hits t ≡ (t, 1)) ⊎ (av_cell start hits t ≡ (start, hits + 1))
unfolding av_cell
cell_either start hits t few = ground arith

opens_by :
    (start hits t : ℕ) (ts : List ℕ) {w h : ℕ}
    → av_cell start hits t ≡ (w, h)
    → leb 3 h || opens_cell w h ts ≡ true
    → opens_cell start hits (t ∷ ts) ≡ true
opens_by start hits t ts e p = ap (λ c. leb 3 c.1 || opens_cell c.0 c.1 ts) e ∙ p

-- From a window that began not long ago, two violations after its first one are enough.
opens_young :
    (start from last : ℕ) (ts : List ℕ)
    → start ≤ from
    → last ≤ start + av_window_ms
    → last < 2 ^ 64
    → IsSpread from last ts
    → 2 ≤ length ts
    → opens_cell start 1 ts ≡ true
opens_young start from last [] l u b s n = absurd (omega arith)
opens_young start from last (x ∷ []) l u b s n = absurd (omega arith)
opens_young start from last (x ∷ y ∷ ts) l u b s n =
    opens_by start 1 x (y ∷ ts)
      (in_window start 1 x (omega (arith, s.0)) (omega (arith, s.1.0)) (omega (arith, s.1.0))
        (omega arith))
      (opens_by start 2 y ts
        (in_window start 2 y (omega (arith, s.0, s.1.1.0)) (omega (arith, s.1.1.1.0))
          (omega (arith, s.1.1.1.0)) (omega arith))
        refl)

opens_cell-enough :
    (start hits from last : ℕ) (ts : List ℕ)
    → start ≤ from
    → last ≤ from + av_window_ms
    → last < 2 ^ 64
    → IsSpread from last ts
    → hits ≤ 2
    → 5 ≤ length ts + hits
    → opens_cell start hits ts ≡ true
opens_cell-enough start hits from last [] l u b s few n = absurd (omega arith)
opens_cell-enough start hits from last (t ∷ ts) l u b s few n =
    elim (cell_either start hits t few) [
      | inl e ↦
          opens_by start hits t ts e
            (opens_young t t last ts (omega arith) (omega (arith, s.0)) b s.1.1 (omega arith))
      | inr e ↦ opens_by start hits t ts e (elim (Bool-cases (leb 3 (hits + 1))) [
        | inl p ↦ ap (λ b. b || opens_cell start (hits + 1) ts) p
        | inr p ↦
            ap (λ b. b || opens_cell start (hits + 1) ts) p
            ∙ opens_cell-enough start (hits + 1) t last ts (omega (arith, s.0)) (omega (arith, s.0))
                b s.1.1 (ground (arith, p)) (omega arith)
      ])
    ]

-- Whatever the table of a process that goes on, so with at most two hits in the site's cell, five
-- access violations at one site, less one for each hit already there, within 60 s of the first,
-- include one that makes the valve open. The ticks are those of a clock that does not go back and
-- stay below 2^64.
pub valve_opens :
    (g : AvTable) (site : SehSite) (t : ℕ) (later : List ℕ)
    → site_index site < 21
    → g.window (site_index site) ≤ t
    → t + av_window_ms < 2 ^ 64
    → IsSpread t (t + av_window_ms) later
    → g.hits (site_index site) ≤ 2
    → 5 ≤ length (t ∷ later) + g.hits (site_index site)
    → opens g site (t ∷ later) ≡ true
valve_opens g site t later l w b s few n =
    opens-eq-cell site (t ∷ later) g l
    ∙ opens_cell-enough (g.window (site_index site)) (g.hits (site_index site)) t (t + av_window_ms)
        (t ∷ later) w (omega arith) b (omega arith, (omega arith, s)) few n

-- What a guarded call does with an exception. Overflow of the stack and the debugger's two codes go
-- on up, with nothing counted and nothing reported. Any other exception is swallowed; the site's
-- count moves for an access violation only, and the report ends the process exactly if that one made
-- the valve open.
pub seh_filter-table :
    (g : AvTable) (ep : Option Fault) (site : SehSite) (tick : ℕ)
    → let r = seh_filter g ep site no_capture tick in
      let counted = seh_register_av g site tick in
      ((seh_is_passthrough (code_of ep) ≡ true)
        × ((r.disposition ≡ continue_search) × ((r.table ≡ g) × (seh_report r.out ≡ false))))
      ⊎ ((r.disposition ≡ execute_handler)
          × (((code_of ep ≡ exception_access_violation)
                × ((r.table ≡ counted.0) × (seh_report r.out ≡ counted.1)))
              ⊎ ((code_of ep ≢ exception_access_violation)
                  × ((r.table ≡ g) × (seh_report r.out ≡ false)))))
unfolding seh_filter seh_report
seh_filter-table g ep site tick = ground arith
