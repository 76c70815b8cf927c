-- ===== src/Seh/Valve.antt =====
-- Histories of access violations, newest first, for the valve of seh_filter.cpp.
use reji_studio.Base.{
  ℕ, suc, ◌+◌, ◌-◌, ◌≤◌, ◌<◌, ◌^◌, ◌≡◌, subst, ◌⊎◌, inl, inr, refl, ◌∙◌, true, false, ◌&&◌, List,
  [], ◌∷◌, leb, ltb, ◌==◌, if◌then◌else◌, All, arith, Bool-cases, ==_iff, sym, ltb→lt,
}
use reji_studio.Seh.{
  SehSite, site_index, AvTable, fresh_table, av_cell, seh_register_av, av_window_ms,
}

pub record AvEvent : Type 0 where
  pub site : SehSite
  pub time : ℕ

abbrev pub replay : List AvEvent → AvTable
replay [] = fresh_table
replay (e ∷ older) = (seh_register_av (replay older) e.site e.time).0

-- Each access violation is stamped with a clock that does not go back.
abbrev pub IsOrdered : List AvEvent → Type 0
IsOrdered [] = Unit
IsOrdered (e ∷ older) = All (λ o. o.time ≤ e.time) older × ((e.time < 2 ^ 64) × IsOrdered older)

-- How many of a site's access violations are no older than a given time.
abbrev pub recent : ℕ → ℕ → List AvEvent → ℕ
recent i since [] = 0
recent i since (e ∷ older) =
    let rest = recent i since older in
    if (site_index e.site == i) && leb since e.time then suc rest else rest

recent_mono : (i a b : ℕ) (h : List AvEvent) → a ≤ b → recent i b h ≤ recent i a h
recent_mono i a b [] l = omega arith
recent_mono i a b (e ∷ h) l = ground (arith, recent_mono i a b h l)

recent-step :
    (i since : ℕ) (e : AvEvent) (h : List AvEvent) → recent i since h ≤ recent i since (e ∷ h)
recent-step i since e h = ground arith

recent-own :
    (i since : ℕ) (e : AvEvent) (h : List AvEvent)
    → site_index e.site ≡ i
    → since ≤ e.time
    → recent i since (e ∷ h) ≡ suc (recent i since h)
recent-own i since e h p l = ground arith

one_more :
    (i since n : ℕ) (e : AvEvent) (h : List AvEvent)
    → site_index e.site ≡ i
    → since ≤ e.time
    → n ≤ recent i since h + 1
    → n ≤ recent i since (e ∷ h)
one_more i since n e h p l le = ground arith

-- A cell's count is covered by the violations since its window began.
record Covers (g : AvTable) (i : ℕ) (h : List AvEvent) : Type 0 where
  few : g.hits i ≤ recent i (g.window i) h
  past : (now : ℕ) → All (λ o. o.time ≤ now) h → g.window i ≤ now

Covers-fresh : (i : ℕ) → Covers fresh_table i []
Covers-fresh i = record { few = omega arith; past = λ now a. omega arith }

cell_now :
    (start hits now : ℕ)
    → start ≤ now
    → now < 2 ^ 64
    → (((av_cell start hits now).0 ≡ now) × ((av_cell start hits now).1 ≡ 1))
      ⊎ (((av_cell start hits now).0 ≡ start)
          × (((av_cell start hits now).1 ≤ hits + 1) × (now - av_window_ms ≤ start)))
unfolding av_cell
cell_now start hits now l b = ground arith

register-miss :
    (g : AvTable) (e : AvEvent) (i : ℕ)
    → (site_index e.site == i) ≡ false
    → let g' = (seh_register_av g e.site e.time).0 in
      (g'.hits i ≡ g.hits i) × (g'.window i ≡ g.window i)
unfolding seh_register_av
register-miss g e i p = ground (arith, p)

abbrev Stored : AvTable → AvEvent → ℕ → Type 0
Stored g e i =
    let r = seh_register_av g e.site e.time in
    let cell = av_cell (g.window i) (g.hits i) e.time in
    (r.0.hits i ≡ cell.1) × ((r.0.window i ≡ cell.0) × (r.1 ≡ leb 3 cell.1))

stored : (g : AvTable) (e : AvEvent) → site_index e.site < 21 → Stored g e (site_index e.site)
unfolding seh_register_av
stored g e l = ground arith

register-hit :
    (g : AvTable) (e : AvEvent) (i : ℕ)
    → site_index e.site ≡ i
    → i < 21
    → let r = seh_register_av g e.site e.time in
      let cell = av_cell (g.window i) (g.hits i) e.time in
      (r.0.hits i ≡ cell.1) × ((r.0.window i ≡ cell.0) × (r.1 ≡ leb 3 cell.1))
unfolding seh_register_av
register-hit g e i p l = subst (λ j. Stored g e j) p (stored g e (omega (arith, p)))

few_by :
    (i : ℕ) (h : List AvEvent) {a b w v : ℕ} → a ≡ b → w ≡ v → b ≤ recent i v h → a ≤ recent i w h
few_by i h p q l = rw (p, q) l

Covers-miss :
    (g : AvTable) (e : AvEvent) (h : List AvEvent) (i : ℕ)
    → (site_index e.site == i) ≡ false
    → Covers g i h
    → Covers (seh_register_av g e.site e.time).0 i (e ∷ h)
Covers-miss g e h i p c =
    let kept = register-miss g e i p in
    let g' = (seh_register_av g e.site e.time).0 in
    record {
      few = few_by i (e ∷ h) kept.0 kept.1 (omega (arith, c.few, recent-step i (g.window i) e h));
      past = λ now a. rw (kept.1) (c.past now a.1);
    }

Covers-hit :
    (g : AvTable) (e : AvEvent) (h : List AvEvent) (i : ℕ)
    → site_index e.site ≡ i
    → i < 21
    → IsOrdered (e ∷ h)
    → Covers g i h
    → Covers (seh_register_av g e.site e.time).0 i (e ∷ h)
Covers-hit g e h i p l o c =
    let put = register-hit g e i p l in
    let start_le = c.past e.time o.0 in
    elim (cell_now (g.window i) (g.hits i) e.time start_le o.1.0) [
      | inl n ↦ record {
        few =
            few_by i (e ∷ h) (put.0 ∙ n.1) (put.1.0 ∙ n.0)
              (one_more i e.time 1 e h p (omega arith) (omega arith));
        past = λ now a. rw (put.1.0, n.0) (a.0);
      }
      | inr n ↦ record {
        few =
            few_by i (e ∷ h) put.0 (put.1.0 ∙ n.0)
              (one_more i (g.window i) _ e h p start_le (omega (arith, n.1.0, c.few)));
        past = λ now a. rw (put.1.0, n.0) (c.past now a.1);
      }
    ]

Covers-replay : (i : ℕ) (h : List AvEvent) → i < 21 → IsOrdered h → Covers (replay h) i h
Covers-replay i [] l o = Covers-fresh i
Covers-replay i (e ∷ h) l o =
    let c = Covers-replay i h l o.1.1 in
    elim (Bool-cases (site_index e.site == i)) [
      | inl p ↦ Covers-hit (replay h) e h i ((==_iff _ _).0 p) l o c
      | inr p ↦ Covers-miss (replay h) e h i p c
    ]

refuses_count :
    (g : AvTable) (e : AvEvent)
    → 21 ≤ site_index e.site
    → (seh_register_av g e.site e.time).1 ≡ false
unfolding seh_register_av
refuses_count g e l = ground arith

opens_lem :
    (e : AvEvent) (older : List AvEvent)
    → IsOrdered (e ∷ older)
    → site_index e.site < 21
    → let g = replay older in
      let i = site_index e.site in
      leb 3 (av_cell (g.window i) (g.hits i) e.time).1 ≡ true
      → 3 ≤ recent i (e.time - av_window_ms) (e ∷ older)
opens_lem e older o l t =
    let i = site_index e.site in
    let g = replay older in
    let c = Covers-replay i older l o.1.1 in
    let since = e.time - av_window_ms in
    let own = recent-own i since e older refl (omega arith) in
    elim (cell_now (g.window i) (g.hits i) e.time (c.past e.time o.0) o.1.0) [
      | inl n ↦ ground (arith, n.1, t)
      | inr n ↦
          let older_in = recent_mono i since (g.window i) older n.1.1 in
          ground (arith, n.1.0, t, c.few, own, older_in)
    ]

-- After any history of access violations over all sites, stamped by a clock that does not go back, a
-- violation that makes the valve open is at least the third of its own site within the 60 s that end
-- with it.
pub seh_register_av-opens_on_three :
    (e : AvEvent) (older : List AvEvent)
    → IsOrdered (e ∷ older)
    → (seh_register_av (replay older) e.site e.time).1 ≡ true
    → 3 ≤ recent (site_index e.site) (e.time - av_window_ms) (e ∷ older)
seh_register_av-opens_on_three e older o t =
    let i = site_index e.site in
    let g = replay older in
    elim (Bool-cases (ltb i 21)) [
      | inl l ↦
          let in_table = ltb→lt i 21 l in
          opens_lem e older o in_table (sym (register-hit g e i refl in_table).1.1 ∙ t)
      | inr n ↦ ground (arith, refuses_count g e, n, t)
    ]
