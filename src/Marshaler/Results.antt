-- ===== src/Marshaler/Results.antt =====
-- What `marshal` returns, and when.
use content_based.Base.{
  ℕ, zero, suc, ◌+◌, ◌<◌, ◌≤◌, ◌≡◌, refl, sym, ap, subst, ◌∙◌, ◌%◌, ◌⊎◌, inl, inr, true, false,
  none, some, List, [], ◌∷◌, ◌++◌, arith, if◌then◌else◌, ℤ, length, get_elem?, set, get_elem?-some,
  get_elem?-lt, get_elem?-append_left, get_elem?-append_self, length-append, replicate, All,
  All-append, Option-cases, Bool-cases, ltb, ltb→lt, ltb→le, ◌==◌,
}
use content_based.Floats.{Floats}
use content_based.Marshaler.{
  Marshalling, MarshalerOptions, Outcome, done, out_of_range, still_drawing, undefined, Trends,
  select_interesting, widened, take_top, pick, draw_once, draw_all, marshal, cleared,
}
use content_based.Marshaler.Select.{select_interesting_lem}

module _ (fl : Floats) (trends : Trends fl) where
  open fl use {Double, Float, of_float}

  -- A result is one of the trends.
  abbrev pub IsTrend : ℤ × Double → Type 0
  IsTrend t = (i : ℕ) × (get_elem? trends i ≡ some t)

  -- The results so far: trends all, the first ones the best in order.
  pub record IsPrefixed (top : ℕ) (rs : List (ℤ × Double)) : Type 0 where
    pub trends_only : All IsTrend rs
    pub in_order : (i : ℕ) → i < top → get_elem? rs i ≡ get_elem? trends i
    pub enough : top ≤ length rs

  IsPrefixed-append :
      (top : ℕ) (rs : List (ℤ × Double)) (t : ℤ × Double)
      → IsTrend t
      → IsPrefixed top rs
      → IsPrefixed top (rs ++ t ∷ [])
  IsPrefixed-append top rs t m h = record {
    trends_only = All-append IsTrend rs (t ∷ []) h.trends_only (m, tt);
    in_order =
        λ i lt. get_elem?-append_left rs (t ∷ []) i (omega (arith, h.enough)) ∙ h.in_order i lt;
    enough = omega (arith, length-append rs (t ∷ []), h.enough);
  }

  IsPrefixed-grow :
      (top : ℕ) (rs : List (ℤ × Double)) (t : ℤ × Double)
      → length rs ≡ top
      → get_elem? trends top ≡ some t
      → IsPrefixed top rs
      → IsPrefixed (top + 1) (rs ++ t ∷ [])
  IsPrefixed-grow top rs t e m h = record {
    trends_only = All-append IsTrend rs (t ∷ []) h.trends_only ((top, m), tt);
    in_order = λ i lt. elim (Bool-cases (ltb i top)) [
      | inl before ↦
          get_elem?-append_left rs (t ∷ []) i (omega (arith, ltb→lt i top before))
          ∙ h.in_order i (ltb→lt i top before)
      | inr last ↦
          let q : i ≡ top = omega (arith, ltb→le i top last) in
          get_elem?-append_self rs t i (q ∙ sym e) ∙ sym m ∙ ap (get_elem? trends) (sym q)
    ];
    enough = omega (arith, length-append rs (t ∷ []));
  }

  -- The first loop takes the trends in order.
  take_top_lem :
      (n left : ℕ) (s : Marshalling Double)
      → IsPrefixed s.k s.results
      → length s.results ≡ s.k
      → s.k + left ≤ length trends
      → (s' : Marshalling Double) × (take_top fl n left trends s ≡ some s')
        × IsPrefixed (s.k + left) s'.results
        × (length s'.results ≡ s.k + left)
  unfolding take_top
  take_top_lem n zero s h e fits =
      let z : s.k ≡ s.k + 0 = omega arith in
      (s, refl, subst (λ k. IsPrefixed k s.results) z h, e ∙ z)
  take_top_lem n (suc left) s h e fits =
      let (t, at) = get_elem?-some trends s.k (omega arith) in
      let next : Marshalling Double = record {
        results = s.results ++ t ∷ [];
        trend_flags = set s.trend_flags s.k true;
        mask = set s.mask (s.g % n) s.k;
        k = s.k + 1;
        g = s.g + 1;
      } in
      let longer : length next.results ≡ s.k + 1 =
        omega (arith, length-append s.results (t ∷ [])) in
      let (s', run, good, size) =
        take_top_lem n left next (IsPrefixed-grow s.k s.results t e at h) longer (omega arith) in
      let z : s.k + 1 + left ≡ s.k + suc left = omega arith in
      (s', rw (at, take_top) run, subst (λ k. IsPrefixed k s'.results) z good, size ∙ z)

  take_top_beyond :
      (n left : ℕ) (s : Marshalling Double)
      → s.k ≤ length trends
      → length trends < s.k + left
      → take_top fl n left trends s ≡ none
  unfolding take_top
  take_top_beyond n zero s h e = absurd (omega arith)
  take_top_beyond n (suc left) s h e = elim (Option-cases (get_elem? trends s.k)) [
    | inl out ↦ rw (out, take_top)
    | inr (t, at) ↦
        rw (at, take_top)
          (take_top_beyond n left _ (omega (arith, get_elem?-lt trends s.k t at)) (omega arith))
  ]

  -- A draw never leads behind the trends; it adds one trend to the results, or none.
  draw_once_lem :
      (n p draw : ℕ) (s : Marshalling Double)
      → (s' : Marshalling Double) × (draw_once fl n p trends draw s ≡ some s')
        × ((s'.results ≡ s.results)
            ⊎ ((t : ℤ × Double) × IsTrend t × (s'.results ≡ s.results ++ t ∷ [])))
  unfolding draw_once pick
  draw_once_lem n p draw s =
      elim (Option-cases (select_interesting fl trends s.trend_flags s.mask draw)) [
        | inl e ↦ rw (e, draw_once) (_, refl, inl refl)
        | inr (i, e) ↦
            let (small, _, _) = select_interesting_lem fl trends s.trend_flags s.mask draw i e in
            let (t, at) = get_elem?-some trends i small in
            rw (e, draw_once) (rw at (_, refl, inr (t, (i, at), refl)))
      ]

  -- What an outcome says, when the results grew to at least `size` before it.
  abbrev IsFrom : ℕ → ℕ → ℕ → List (ℤ × Double) → Outcome Double → Type 0
  IsFrom top wanted size before (done rs) =
      (size ≤ wanted → length rs ≡ wanted) × (wanted ≤ size → rs ≡ before) × IsPrefixed top rs
  IsFrom top wanted size before out_of_range = ⊥
  IsFrom top wanted size before still_drawing = size < wanted
  IsFrom top wanted size before undefined = ⊥

  IsFrom-earlier :
      (top wanted size size' : ℕ) (before before' : List (ℤ × Double)) (o : Outcome Double)
      → size < wanted
      → size ≤ size'
      → size' ≤ wanted
      → IsFrom top wanted size' before' o
      → IsFrom top wanted size before o
  IsFrom-earlier top wanted size size' before before' (done rs) a b c (f, g, h) =
      (λ _. f c, λ d. absurd (omega arith), h)
  IsFrom-earlier top wanted size size' before before' out_of_range a b c f = f
  IsFrom-earlier top wanted size size' before before' still_drawing a b c f = a
  IsFrom-earlier top wanted size size' before before' undefined a b c f = f

  draw_all_lem :
      (n p wanted top : ℕ) (draws : List ℕ) (s : Marshalling Double)
      → IsPrefixed top s.results
      → IsFrom top wanted (length s.results) s.results (draw_all fl n p wanted trends draws s)
  unfolding draw_all
  draw_all_lem n p wanted top [] s h = elim (Bool-cases (ltb (length s.results) wanted)) [
    | inl more ↦ rw more (ltb→lt (length s.results) wanted more)
    | inr full ↦ rw full (stop (ltb→le (length s.results) wanted full))
  ]
    where
      stop :
          wanted ≤ length s.results
          → IsFrom top wanted (length s.results) s.results (done s.results)
      stop f = (λ g. omega arith, λ _. refl, h)
  draw_all_lem n p wanted top (draw ∷ draws) s h =
      elim (Bool-cases (ltb (length s.results) wanted)) [
        | inl more ↦
            let lt = ltb→lt (length s.results) wanted more in
            let (s', e, grown) = draw_once_lem n p draw s in
            rw (more, e)
              (elim grown [
                | inl same ↦
                    IsFrom-earlier top wanted (length s.results) (length s'.results) s.results
                      s'.results _ lt (omega (arith, ap length same))
                      (omega (arith, ap length same))
                      (draw_all_lem n p wanted top draws s' (subst (IsPrefixed top) (sym same) h))
                | inr (t, m, longer) ↦
                    IsFrom-earlier top wanted (length s.results) (length s'.results) s.results
                      s'.results _ lt
                      (omega (arith, ap length longer, length-append s.results (t ∷ [])))
                      (omega (arith, ap length longer, length-append s.results (t ∷ [])))
                      (draw_all_lem n p wanted top draws s' (
                        subst (IsPrefixed top) (sym longer)
                          (IsPrefixed-append top s.results t m h)))
              ])
        | inr full ↦ rw full (stop (ltb→le (length s.results) wanted full))
      ]
    where
      stop :
          wanted ≤ length s.results
          → IsFrom top wanted (length s.results) s.results (done s.results)
      stop f = (λ g. omega arith, λ _. refl, h)

  -- What a call may end with, for `top` best trends and `wanted` results.
  abbrev pub IsMarshalled : ℕ → ℕ → Outcome Double → Type 0
  IsMarshalled top wanted (done rs) =
      (length rs ≡ (if ltb top wanted then wanted else top)) × IsPrefixed top rs
  IsMarshalled top wanted out_of_range = ⊥
  IsMarshalled top wanted still_drawing = top < wanted
  IsMarshalled top wanted undefined = ⊥

  IsFrom-IsMarshalled :
      (top wanted : ℕ) (before : List (ℤ × Double)) (o : Outcome Double)
      → length before ≡ top
      → IsFrom top wanted top before o
      → IsMarshalled top wanted o
  IsFrom-IsMarshalled top wanted before (done rs) e (f, g, h) = (
    elim (Bool-cases (ltb top wanted)) [
      | inl a ↦ rw a (f (omega (arith, ltb→lt top wanted a)))
      | inr a ↦ rw a (ap length (g (ltb→le top wanted a)) ∙ e)
    ],
    h,
  )
  IsFrom-IsMarshalled top wanted before out_of_range e f = f
  IsFrom-IsMarshalled top wanted before still_drawing e f = f
  IsFrom-IsMarshalled top wanted before undefined e f = f

  not_zero : (n : ℕ) → 0 < n → (n == 0) ≡ false
  not_zero n h = ground arith

  not_more : (n : ℕ) → n ≤ 100 → ltb 100 n ≡ false
  not_more n h = ground arith

  abbrev start : MarshalerOptions Float → Marshalling Double
  start opts = record {
    results = [];
    trend_flags = replicate (length trends) false;
    mask = replicate opts.n 0;
    k = 0;
    g = 0;
  }

  start-IsPrefixed : (opts : MarshalerOptions Float) → IsPrefixed 0 (start opts).results
  start-IsPrefixed opts = record {
    trends_only = tt;
    in_order = λ i h. absurd (omega arith);
    enough = omega arith;
  }

  abbrev pub top_of : MarshalerOptions Float → ℕ
  top_of opts = widened fl (of_float opts.r1) opts.topt trends

  -- If `marshaler_n` is not 0, there are at most 100 trends, and among them the best that are to be
  -- taken, no read goes behind the last trend, and nothing else is undefined. The
  -- results are trends, as many as wanted, or as the best where these are more; they begin with the
  -- best, in order. The call can be without result for the given draws only if more are wanted than
  -- the best.
  pub marshal-IsMarshalled :
      (opts : MarshalerOptions Float) (wanted : ℕ) (draws : List ℕ)
      → 0 < opts.n
      → length trends ≤ 100
      → top_of opts ≤ length trends
      → IsMarshalled (top_of opts) wanted (marshal fl opts trends wanted draws)
  unfolding marshal
  marshal-IsMarshalled opts wanted draws ring few fits =
      let top = top_of opts in
      let (s', e, good, size) =
        take_top_lem opts.n top (start opts) (start-IsPrefixed opts) refl (omega arith) in
      let z : 0 + top ≡ top = omega arith in
      let s'' : Marshalling Double = record s' { trend_flags = cleared fl s'.trend_flags; k = 0 } in
      let drawn =
        draw_all_lem opts.n (widened fl (of_float opts.r2) opts.p trends) wanted top draws s''
          (subst (λ k. IsPrefixed k s'.results) z good) in
      rw (not_zero opts.n ring, e, not_more (length trends) few, marshal, IsMarshalled)
        (IsFrom-IsMarshalled top wanted s'.results _ (size ∙ z) (
          subst
            (λ k. IsFrom top wanted k s'.results (
              draw_all fl opts.n (widened fl (of_float opts.r2) opts.p trends) wanted trends draws
                s''))
            (size ∙ z) drawn))

  -- If there are fewer trends, and `marshaler_n` is not 0, the first loop reads behind the last
  -- trend.
  pub marshal_out_of_range :
      (opts : MarshalerOptions Float) (wanted : ℕ) (draws : List ℕ)
      → 0 < opts.n
      → length trends < top_of opts
      → marshal fl opts trends wanted draws ≡ out_of_range
  unfolding marshal
  marshal_out_of_range opts wanted draws ring short = rw (
    not_zero opts.n ring,
    take_top_beyond opts.n (top_of opts) (start opts) (omega arith) (omega arith),
    marshal,
  )
