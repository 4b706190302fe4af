-- ===== src/Marshaler.antt =====
-- src/core/marshaler.{h,cpp}: which categories are shown, drawn at random by their weights. The
-- numbers that `dist_(engine_)` gives are an argument, a list of draws from 0 to 99. The options
-- are not negative.
pub mod Select
pub mod Results
pub mod Progress
pub mod Spacing
use content_based.Base.{
  ℕ, zero, suc, ◌+◌, ◌-◌, ◌%◌, ◌≡◌, Bool, true, false, not, Option, none, some, List, [], ◌∷◌, ◌++◌,
  arith, ltb, ◌==◌, if◌then◌else◌, ℤ, pos, length, get_elem?, set, replicate,
}
use content_based.Floats.{Floats}

-- The options that the class reads; `F` is `float`.
pub record MarshalerOptions (F : Type 0) : Type 0 where
  pub topt : ℕ
  pub p : ℕ
  pub n : ℕ
  pub r1 : F
  pub r2 : F

-- The variables of `marshal`: `results`, `trend_flags`, `mask`, `k` and `g`.
pub record Marshalling (D : Type 0) : Type 0 where
  pub results : List (ℤ × D)
  pub trend_flags : List Bool
  pub mask : List ℕ
  pub k : ℕ
  pub g : ℕ

-- How a call ends: with the results, with a read behind the last of the trends, not within the
-- given draws, or with a division by 0 or a write behind the 100 flags of `total_flags`.
pub data Outcome (D : Type 0) : Type 0 where
  done : List (ℤ × D) → Outcome D
  out_of_range : Outcome D
  still_drawing : Outcome D
  undefined : Outcome D

module _ (fl : Floats) where
  open fl use {Double, Float, of_int, of_float, add, sub, mul, div, lt}

  abbrev pub Trends : Type 0
  Trends = List (ℤ × Double)

  -- The weights of the flagged trends, added up.
  unfoldable pub flagged_weight : Double → Trends → List Bool → Double
  flagged_weight tw [] fs = tw
  flagged_weight tw (t ∷ ts) [] = tw
  flagged_weight tw (t ∷ ts) (f ∷ fs) = flagged_weight (if f then add tw t.1 else tw) ts fs

  -- The loop over the mask: what it names is flagged too, and its weight is added.
  unfoldable pub mask_one : Trends → ℕ → List Bool × Double → List Bool × Double
  mask_one trends m (fs, tw) = elim (get_elem? fs m) [
    | some false ↦ (set fs m true, elim (get_elem? trends m) [ some t ↦ add tw t.1 | none ↦ tw ])
    | some true ↦ (fs, tw)
    | none ↦ (fs, tw)
  ]

  unfoldable pub mask_all : Trends → List ℕ → List Bool × Double → List Bool × Double
  mask_all trends [] a = a
  mask_all trends (m ∷ ms) a = mask_all trends ms (mask_one trends m a)

  -- The last loop: the first trend that is not flagged and at which the sum passes the draw.
  unfoldable pub scan : Double → Double → ℕ → Double → Trends → List Bool → Option ℕ
  scan tw r i v [] fs = none
  scan tw r i v (t ∷ ts) [] = none
  scan tw r i v (t ∷ ts) (f ∷ fs) =
      let v' = if f then v else add v (div t.1 tw) in
      let rest = scan tw r (i + 1) v' ts fs in
      if f then rest else (if lt r (mul v' (of_int (pos 100))) then some i else rest)

  -- `selectInteresting`; `none` is -1.
  unfoldable pub select_interesting : Trends → List Bool → List ℕ → ℕ → Option ℕ
  select_interesting trends flags mask draw =
      let (total_flags, tw) =
        mask_all trends mask (flags, flagged_weight (of_int (pos 0)) trends flags) in
      scan (sub (of_int (pos 1)) tw) (of_int (pos draw)) 0 (of_int (pos 0)) trends total_flags

  -- The index at which the weights from the front pass a limit, or the number of trends.
  unfoldable pub passes : Double → Double → ℕ → Trends → ℕ
  passes r pr i [] = i
  passes r pr i (t ∷ ts) =
      let pr' = add pr t.1 in let rest = passes r pr' (i + 1) ts in if lt r pr' then i else rest

  -- `TOPT` and `P` after the two loops.
  unfoldable pub widened : Double → ℕ → Trends → ℕ
  widened r least trends =
      let i = passes r (of_int (pos 0)) 0 trends in if ltb least (i + 1) then i + 1 else least

  -- `trend_flags.assign(trend_flags.size(), 0)`.
  abbrev pub cleared : List Bool → List Bool
  cleared fs = replicate (length fs) false

  -- The loop that takes the best trends, for as many rounds as are left.
  unfoldable pub take_top : ℕ → ℕ → Trends → Marshalling Double → Option (Marshalling Double)
  take_top n zero trends s = some s
  take_top n (suc left) trends s = elim (get_elem? trends s.k) [
    | none ↦ none
    | some t ↦ take_top n left trends (record {
      results = s.results ++ t ∷ [];
      trend_flags = set s.trend_flags s.k true;
      mask = set s.mask (s.g % n) s.k;
      k = s.k + 1;
      g = s.g + 1;
    })
  ]

  -- One round of the loop that draws.
  unfoldable pub pick : ℕ → ℕ → Trends → ℕ → ℤ × Double → Marshalling Double → Marshalling Double
  pick n p trends target t s = record {
    results = s.results ++ t ∷ [];
    trend_flags =
        (let flags = set s.trend_flags target true in
          if (s.k + 1) % p == 0 then cleared flags else flags);
    mask = set s.mask (s.g % n) target;
    k = s.k + 1;
    g = s.g + 1;
  }

  unfoldable pub draw_once : ℕ → ℕ → Trends → ℕ → Marshalling Double → Option (Marshalling Double)
  draw_once n p trends draw s = elim (select_interesting trends s.trend_flags s.mask draw) [
    | none ↦ some (record s { trend_flags = cleared s.trend_flags })
    | some target ↦ elim (get_elem? trends target) [
      | none ↦ none
      | some t ↦ some (pick n p trends target t s)
    ]
  ]

  -- The loop that draws, for as many flags as `total_flags` has room for.
  unfoldable pub draw_all : ℕ → ℕ → ℕ → Trends → List ℕ → Marshalling Double → Outcome Double
  draw_all n p wanted trends [] s =
      if ltb (length s.results) wanted then still_drawing else done s.results
  draw_all n p wanted trends (draw ∷ draws) s =
      if ltb (length s.results) wanted
      then elim (draw_once n p trends draw s) [
        | none ↦ out_of_range
        | some s' ↦ draw_all n p wanted trends draws s'
      ]
      else done s.results

  -- Every round of it copies the flags of all trends to `total_flags`.
  abbrev pub draw_copied : ℕ → ℕ → ℕ → Trends → List ℕ → Marshalling Double → Outcome Double
  draw_copied n p wanted trends draws s =
      if ltb 100 (length trends)
      then (if ltb (length s.results) wanted then undefined else done s.results)
      else draw_all n p wanted trends draws s

  -- `g%N` where `N` is 0. The first loop has at least one round, which reads the first trend before.
  abbrev pub divided_by_zero : Trends → Outcome Double
  divided_by_zero [] = out_of_range
  divided_by_zero (t ∷ ts) = undefined

  -- `marshal`, with empty results at the start.
  unfoldable pub marshal : MarshalerOptions Float → Trends → ℕ → List ℕ → Outcome Double
  marshal opts trends wanted draws =
      let topt = widened (of_float opts.r1) opts.topt trends in
      let p = widened (of_float opts.r2) opts.p trends in
      let s : Marshalling Double = record {
        results = [];
        trend_flags = replicate (length trends) false;
        mask = replicate opts.n 0;
        k = 0;
        g = 0;
      } in
      if opts.n == 0 then divided_by_zero trends else elim (take_top opts.n topt trends s) [
        | none ↦ out_of_range
        | some s' ↦
            draw_copied opts.n p wanted trends draws
              (record s' { trend_flags = cleared s'.trend_flags; k = 0 })
      ]
