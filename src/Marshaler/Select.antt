-- ===== src/Marshaler/Select.antt =====
-- What `selectInteresting` chooses.
use content_based.Base.{
  ℕ, suc, ◌+◌, ◌-◌, ◌<◌, ◌≤◌, ◌≡◌, ◌≢◌, refl, sym, ap, ◌∙◌, inl, inr, Bool, true, false, some, List,
  [], ◌∷◌, arith, pos, length, get_elem?, set, get_elem?-set_self, get_elem?-set_ne, get_elem?-lt,
  All, Option-cases, Bool-cases,
}
use native.Mathlib.Decide.{ℕ_discrete}
use content_based.Floats.{Floats}
use content_based.Marshaler.{mask_one, mask_all, scan, select_interesting, Trends, flagged_weight}

false_of_true : some false ≡ some true → ⊥
false_of_true e = cc

module _ (fl : Floats) where
  open fl use {Double, of_int, sub, add, div, lt, mul}

  scan-suc :
      (ts : Trends fl) (fs : List Bool) (i j : ℕ) (f : Bool)
      → (i + 1 ≤ j) × (j - (i + 1) < length ts) × (get_elem? fs (j - (i + 1)) ≡ some false)
      → (i ≤ j) × (j - i < suc (length ts)) × (get_elem? (f ∷ fs) (j - i) ≡ some false)
  scan-suc ts fs i j f (a, b, c) =
      let e : j - i ≡ suc (j - (i + 1)) = omega arith in rw e (omega arith, omega arith, c)

  -- The chosen index is one of a trend that is not flagged.
  scan_lem :
      (tw r : Double) (i : ℕ) (v : Double) (ts : Trends fl) (fs : List Bool) (j : ℕ)
      → scan fl tw r i v ts fs ≡ some j
      → (i ≤ j) × (j - i < length ts) × (get_elem? fs (j - i) ≡ some false)
  unfolding scan
  scan_lem tw r i v [] fs j h = cc
  scan_lem tw r i v (t ∷ ts) [] j h = cc
  scan_lem tw r i v (t ∷ ts) (true ∷ fs) j h =
      scan-suc ts fs i j true (scan_lem tw r (i + 1) v ts fs j h)
  scan_lem tw r i v (t ∷ ts) (false ∷ fs) j h =
      let v' = add v (div t.1 tw) in
      elim (Bool-cases (lt r (mul v' (of_int (pos 100))))) [
        | inl e ↦
            let q : i ≡ j = ground arith in
            let z : j - i ≡ 0 = omega arith in rw z (omega arith, omega arith, refl)
        | inr e ↦ scan-suc ts fs i j false (scan_lem tw r (i + 1) v' ts fs j (ground arith))
      ]

  -- A flag that is set stays set, and what the mask names is flagged.
  mask_one-keeps :
      (trends : Trends fl) (m i : ℕ) (fs : List Bool) (tw : Double)
      → get_elem? (mask_one fl trends m (fs, tw)).0 i ≡ some false
      → (get_elem? fs i ≡ some false) × (m ≢ i)
  unfolding mask_one
  mask_one-keeps trends m i fs tw h = elim (Option-cases (get_elem? fs m)) [
    | inl e ↦
        let kept : get_elem? fs i ≡ some false = ground arith in
        (kept, λ q. cc (ap (get_elem? fs) q))
    | inr (true, e) ↦
        let kept : get_elem? fs i ≡ some false = ground arith in
        (kept, λ q. cc (ap (get_elem? fs) q))
    | inr (false, e) ↦
        let was : get_elem? (set fs m true) i ≡ some false = ground arith in
        elim (ℕ_discrete m i) [
          | yes q ↦ absurd (
              false_of_true (
                sym was
                ∙ ap (get_elem? (set fs m true)) (sym q)
                ∙ get_elem?-set_self fs m true (get_elem?-lt fs m false e)))
          | no q ↦ (sym (get_elem?-set_ne fs m i true q) ∙ was, q)
        ]
  ]

  mask_all-keeps :
      (trends : Trends fl) (mask : List ℕ) (i : ℕ) (a : List Bool × Double)
      → get_elem? (mask_all fl trends mask a).0 i ≡ some false
      → (get_elem? a.0 i ≡ some false) × All (λ m. m ≢ i) mask
  unfolding mask_all
  mask_all-keeps trends [] i a h = (h, tt)
  mask_all-keeps trends (m ∷ ms) i (fs, tw) h =
      let (one, rest) = mask_all-keeps trends ms i (mask_one fl trends m (fs, tw)) h in
      let (old, ne) = mask_one-keeps trends m i fs tw one in (old, (ne, rest))

  -- A category that is chosen is one of the trends, was not chosen since the flags were cleared,
  -- and is not among those that the mask remembers.
  pub select_interesting_lem :
      (trends : Trends fl) (flags : List Bool) (mask : List ℕ) (draw i : ℕ)
      → select_interesting fl trends flags mask draw ≡ some i
      → (i < length trends) × (get_elem? flags i ≡ some false) × All (λ m. m ≢ i) mask
  unfolding select_interesting
  select_interesting_lem trends flags mask draw i h =
      let start : List Bool × Double = (flags, flagged_weight fl (of_int (pos 0)) trends flags) in
      let masked = mask_all fl trends mask start in
      let (a, b, c) =
        scan_lem (sub (of_int (pos 1)) masked.1) (of_int (pos draw)) 0 (of_int (pos 0)) trends
          masked.0 i h in
      let e : i - 0 ≡ i = omega arith in
      let (old, away) = mask_all-keeps trends mask i start (ap (get_elem? masked.0) (sym e) ∙ c) in
      (omega arith, old, away)
