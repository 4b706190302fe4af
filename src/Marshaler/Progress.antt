-- ===== src/Marshaler/Progress.antt =====
-- When the loop that draws makes no progress.
use content_based.Base.{
  ℕ, ◌<◌, ◌≡◌, inl, inr, List, [], ◌∷◌, ◌≢◌, length, All, Option-cases, lt→ltb,
}
use content_based.Floats.{Floats}
use content_based.Marshaler.{
  Marshalling, still_drawing, Trends, select_interesting, draw_once, draw_all,
}
use content_based.Marshaler.Select.{select_interesting_lem}

module _ (fl : Floats) (trends : Trends fl) where
  open fl use {Double}

  -- The mask remembers every one of the trends.
  abbrev pub CoversAll : List ℕ → Type 0
  CoversAll mask = (i : ℕ) → i < length trends → ¬ All (λ m. m ≢ i) mask

  -- When the mask remembers every trend and results are missing, no draw adds one: the loop of
  -- `marshal` goes on for ever, whatever the random numbers are.
  pub draw_all_stuck :
      (n p wanted : ℕ) (draws : List ℕ) (s : Marshalling Double)
      → CoversAll s.mask
      → length s.results < wanted
      → draw_all fl n p wanted trends draws s ≡ still_drawing
  unfolding draw_all draw_once
  draw_all_stuck n p wanted [] s c h = rw (lt→ltb _ _ h)
  draw_all_stuck n p wanted (draw ∷ draws) s c h =
      elim (Option-cases (select_interesting fl trends s.trend_flags s.mask draw)) [
        | inl e ↦ rw (lt→ltb _ _ h) (rw (e, draw_once) (draw_all_stuck n p wanted draws _ c h))
        | inr (i, e) ↦
            let (small, _, away) = select_interesting_lem fl trends s.trend_flags s.mask draw i e in
            absurd (c i small away)
      ]
