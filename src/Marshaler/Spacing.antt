-- ===== src/Marshaler/Spacing.antt =====
-- How far apart the choices of one category are.
use content_based.Base.{
  ℕ, zero, suc, ◌+◌, ◌*◌, ◌/◌, ◌%◌, ◌<◌, ◌≤◌, ◌≡◌, ◌≢◌, refl, sym, ap, ◌∙◌, inl, inr, Bool, true,
  false, Option, none, some, List, [], ◌∷◌, ◌++◌, arith, ltb, ℤ, length, get_elem?, set, replicate,
  All, get_elem?-set_self, get_elem?-set_ne, length-set, length-append, length-replicate,
  get_elem?-append_left, get_elem?-append_self, get_elem?-lt, Option-cases, Bool-cases, subst,
  ltb→lt, ltb→le, ◌==◌,
}
use native.Mathlib.Nat.{div-add-mod', mul-le-mul_right, mod-lt}
use content_based.Floats.{Floats}
use content_based.Marshaler.{
  MarshalerOptions, Marshalling, Outcome, done, Trends, take_top, pick, draw_once, draw_all,
  draw_copied, undefined, marshal, select_interesting, widened, cleared,
}
use content_based.Marshaler.Select.{select_interesting_lem}

-- Of the picks at two places that are at most `n` apart, none is the other.
abbrev pub IsSpaced : ℕ → List ℕ → Type 0
IsSpaced n picks =
    (i j x y : ℕ)
    → i < j
    → j ≤ i + n
    → get_elem? picks i ≡ some x
    → get_elem? picks j ≡ some y
    → x ≢ y

suc_mul : (q n : ℕ) → (q + 1) * n ≡ q * n + n
suc_mul q n = omega arith

-- A ring of `n` places does not put two numbers less than `n` apart at one place.
ring_places : (n i g : ℕ) → i < g → g < i + n → g % n ≢ i % n
ring_places n i g h k e =
    let a = div-add-mod' i n in
    let b = div-add-mod' g n in
    elim (Bool-cases (ltb (i / n) (g / n))) [
      | inl lt ↦
          let c : (i / n + 1) * n ≤ g / n * n =
            mul-le-mul_right n (omega (arith, ltb→lt (i / n) (g / n) lt)) in
          let d : (i / n + 1) * n ≡ i / n * n + n = suc_mul (i / n) n in omega arith
      | inr le ↦
          let c : g / n * n ≤ i / n * n = mul-le-mul_right n (ltb→le (i / n) (g / n) le) in
          omega arith
    ]

abbrev or_zero : Option ℕ → ℕ
or_zero none = 0
or_zero (some n) = n

some-inj : {x y : ℕ} → some x ≡ some y → x ≡ y
some-inj e = ap or_zero e

none_not_some {ℓ} : {A : Type ℓ} {a : A} → none ≡ some a → ⊥
none_not_some h = cc

abbrev or_self {ℓ} : {A : Type ℓ} → A → Option A → A
or_self a none = a
or_self a (some b) = b

same {ℓ} : {A : Type ℓ} {a b : A} → some a ≡ some b → a ≡ b
same {a} e = ap (or_self a) e

abbrev results_of : {D : Type 0} → Outcome D → List (ℤ × D)
results_of (done rs) = rs
results_of _ = []

abbrev is_done : {D : Type 0} → Outcome D → Bool
is_done (done rs) = true
is_done _ = false

not_done : {D : Type 0} {o : Outcome D} {rs : List (ℤ × D)} → is_done o ≡ false → o ≡ done rs → ⊥
not_done e h = cc (sym e ∙ ap is_done h)

All-get_elem? {ℓ} :
    (P : ℕ → Type ℓ) (xs : List ℕ) (i x : ℕ) → All P xs → get_elem? xs i ≡ some x → P x
All-get_elem? P [] i x h e = cc
All-get_elem? P (y ∷ ys) zero x (h, hs) e = subst P (some-inj e) h
All-get_elem? P (y ∷ ys) (suc i) x (h, hs) e = All-get_elem? P ys i x hs e

module _ (fl : Floats) (trends : Trends fl) where
  open fl use {Double, Float, of_float}

  -- The results are the trends at the picks.
  abbrev pub ArePicked : List ℕ → List (ℤ × Double) → Type 0
  ArePicked [] [] = Unit
  ArePicked (x ∷ xs) (r ∷ rs) = (get_elem? trends x ≡ some r) × ArePicked xs rs
  ArePicked _ _ = ⊥

  ArePicked-append :
      (xs : List ℕ) (rs : List (ℤ × Double)) (x : ℕ) (r : ℤ × Double)
      → ArePicked xs rs
      → get_elem? trends x ≡ some r
      → ArePicked (xs ++ x ∷ []) (rs ++ r ∷ [])
  ArePicked-append [] [] x r h e = (e, tt)
  ArePicked-append (y ∷ xs) (s ∷ rs) x r (h, hs) e = (h, ArePicked-append xs rs x r hs e)
  ArePicked-append [] (s ∷ rs) x r h e = absurd h
  ArePicked-append (y ∷ xs) [] x r h e = absurd h

  -- The mask is a ring of the last `n` picks.
  record IsRemembered (n : ℕ) (picks : List ℕ) (s : Marshalling Double) : Type 0 where
    picked : ArePicked picks s.results
    counted : length picks ≡ s.g
    ring : length s.mask ≡ n
    remembered : (i : ℕ) → i < s.g → s.g ≤ i + n → get_elem? s.mask (i % n) ≡ get_elem? picks i
    spaced : IsSpaced n picks

  -- A pick that the mask does not name keeps all this.
  IsRemembered-pick :
      (n x : ℕ) (r : ℤ × Double) (picks : List ℕ) (s s' : Marshalling Double)
      → 0 < n
      → IsRemembered n picks s
      → get_elem? trends x ≡ some r
      → ((i y : ℕ) → s.g ≤ i + n → get_elem? picks i ≡ some y → y ≢ x)
      → s'.results ≡ s.results ++ r ∷ []
      → s'.mask ≡ set s.mask (s.g % n) x
      → s'.g ≡ s.g + 1
      → IsRemembered n (picks ++ x ∷ []) s'
  IsRemembered-pick n x r picks s s' pos h e away results mask g = record {
    picked = rw results (ArePicked-append picks s.results x r h.picked e);
    counted = omega (arith, length-append picks (x ∷ []), h.counted, g);
    ring = ap length mask ∙ length-set s.mask (s.g % n) x ∙ h.ring;
    remembered =
        λ i a b. ap (λ m. get_elem? m (i % n)) mask ∙ place i (omega (arith, g)) (omega (arith, g));
    spaced = λ i j y z a b p q. apart i j y z a b p q (get_elem?-lt (picks ++ x ∷ []) j z q);
  }
    where
      place :
          (i : ℕ)
          → i ≤ s.g
          → s.g < i + n
          → get_elem? (set s.mask (s.g % n) x) (i % n) ≡ get_elem? (picks ++ x ∷ []) i
      place i a b = elim (Bool-cases (ltb i s.g)) [
        | inl lt ↦
            let before : i < s.g = ltb→lt i s.g lt in
            get_elem?-set_ne s.mask (s.g % n) (i % n) x (ring_places n i s.g before b)
            ∙ h.remembered i before (omega arith)
            ∙ sym (get_elem?-append_left picks (x ∷ []) i (omega (arith, h.counted)))
        | inr ge ↦
            let q : i ≡ s.g = omega (arith, ltb→le i s.g ge) in
            ap (λ z. get_elem? (set s.mask (s.g % n) x) (z % n)) q
            ∙ get_elem?-set_self s.mask (s.g % n) x (omega (arith, mod-lt s.g pos, h.ring))
            ∙ sym (get_elem?-append_self picks x i (q ∙ sym h.counted))
      ]

      apart :
          (i j y z : ℕ)
          → i < j
          → j ≤ i + n
          → get_elem? (picks ++ x ∷ []) i ≡ some y
          → get_elem? (picks ++ x ∷ []) j ≡ some z
          → j < length (picks ++ x ∷ [])
          → y ≢ z
      apart i j y z a b p q l =
          let last : j ≤ length picks = omega (arith, length-append picks (x ∷ [])) in
          let p' : get_elem? picks i ≡ some y =
            sym (get_elem?-append_left picks (x ∷ []) i (omega arith)) ∙ p in
          elim (Bool-cases (ltb j (length picks))) [
            | inl lt ↦
                h.spaced i j y z a b p'
                  (sym (get_elem?-append_left picks (x ∷ []) j (ltb→lt j (length picks) lt)) ∙ q)
            | inr ge ↦
                let e' : j ≡ length picks = omega (arith, ltb→le j (length picks) ge) in
                let is_x : x ≡ z = some-inj (sym (get_elem?-append_self picks x j e') ∙ q) in
                subst (λ w. y ≢ w) is_x (away i y (omega (arith, h.counted)) p')
          ]

  take_top-IsRemembered :
      (n left : ℕ) (picks : List ℕ) (s s' : Marshalling Double)
      → 0 < n
      → IsRemembered n picks s
      → s.k ≡ s.g
      → ((i y : ℕ) → get_elem? picks i ≡ some y → y < s.k)
      → take_top fl n left trends s ≡ some s'
      → (more : List ℕ) × IsRemembered n more s'
  unfolding take_top
  take_top-IsRemembered n zero picks s s' pos h e below =
      λ run. (picks, subst (IsRemembered n picks) (same run) h)
  take_top-IsRemembered n (suc left) picks s s' pos h e below =
      elim (Option-cases (get_elem? trends s.k)) [
        | inl out ↦ rw (out, take_top) λ run. absurd (none_not_some run)
        | inr (t, at) ↦
            rw (at, take_top)
              λ run.
                let next : Marshalling Double = record {
                  results = s.results ++ t ∷ [];
                  trend_flags = set s.trend_flags s.k true;
                  mask = set s.mask (s.g % n) s.k;
                  k = s.k + 1;
                  g = s.g + 1;
                } in
                let h' =
                  IsRemembered-pick n s.k t picks s next pos h at
                    (λ i y _ q. let b = below i y q in λ z. omega arith) refl refl refl in
                take_top-IsRemembered n left (picks ++ s.k ∷ []) next s' pos h' (omega arith)
                  (λ i y q. below_next picks s.k i y below q (omega (arith, h.counted))) run
      ]
    where
      below_next :
          (xs : List ℕ) (k i y : ℕ)
          → ((i y : ℕ) → get_elem? xs i ≡ some y → y < k)
          → get_elem? (xs ++ k ∷ []) i ≡ some y
          → length xs ≡ k
          → y < k + 1
      below_next xs k i y f q l =
          let bound = get_elem?-lt (xs ++ k ∷ []) i y q in
          elim (Bool-cases (ltb i (length xs))) [
            | inl lt ↦
                let b =
                  f i y (sym (get_elem?-append_left xs (k ∷ []) i (ltb→lt i (length xs) lt)) ∙ q) in
                omega arith
            | inr ge ↦
                let at_end : i ≡ length xs =
                  omega (arith, ltb→le i (length xs) ge, length-append xs (k ∷ [])) in
                let is_k : k ≡ y = some-inj (sym (get_elem?-append_self xs k i at_end) ∙ q) in
                omega arith
          ]

  -- What the mask does not name is away from the last `n` picks.
  IsRemembered-away :
      (n x : ℕ) (picks : List ℕ) (s : Marshalling Double)
      → IsRemembered n picks s
      → All (λ m. m ≢ x) s.mask
      → (i y : ℕ) → s.g ≤ i + n
      → get_elem? picks i ≡ some y
      → y ≢ x
  IsRemembered-away n x picks s h away i y late q =
      All-get_elem? (λ m. m ≢ x) s.mask (i % n) y away
        (h.remembered i (omega (arith, get_elem?-lt picks i y q, h.counted)) late ∙ q)

  draw_once-IsRemembered :
      (n p draw : ℕ) (picks : List ℕ) (s s' : Marshalling Double)
      → 0 < n
      → IsRemembered n picks s
      → draw_once fl n p trends draw s ≡ some s'
      → (more : List ℕ) × IsRemembered n more s'
  unfolding draw_once pick
  draw_once-IsRemembered n p draw picks s s' pos h =
      elim (Option-cases (select_interesting fl trends s.trend_flags s.mask draw)) [
        | inl e ↦
            rw (e, draw_once)
              λ run.
                let cleared_s : Marshalling Double = record s {
                  trend_flags = cleared fl s.trend_flags;
                } in
                (
                  picks,
                  subst (IsRemembered n picks) (same run) (record {
                    picked = h.picked;
                    counted = h.counted;
                    ring = h.ring;
                    remembered = h.remembered;
                    spaced = h.spaced;
                  }),
                )
        | inr (x, e) ↦
            let (_, _, away) = select_interesting_lem fl trends s.trend_flags s.mask draw x e in
            rw (e, draw_once)
              (elim (Option-cases (get_elem? trends x)) [
                | inl out ↦ rw out λ run. absurd (none_not_some run)
                | inr (t, at) ↦ rw at λ run. (
                  picks ++ x ∷ [],
                  subst (IsRemembered n (picks ++ x ∷ [])) (same run) (
                      IsRemembered-pick n x t picks s (pick fl n p trends x t s) pos h at
                        (IsRemembered-away n x picks s h away) refl refl refl),
                )
              ])
      ]

  stops :
      (n : ℕ) (picks : List ℕ) (s : Marshalling Double) (rs : List (ℤ × Double))
      → IsRemembered n picks s
      → done s.results ≡ done rs
      → (more : List ℕ) × ArePicked more rs × IsSpaced n more
  stops n picks s rs h e = (picks, subst (ArePicked picks) (ap results_of e) h.picked, h.spaced)

  draw_all-IsSpaced :
      (n p wanted : ℕ) (draws picks : List ℕ) (s : Marshalling Double) (rs : List (ℤ × Double))
      → 0 < n
      → IsRemembered n picks s
      → draw_all fl n p wanted trends draws s ≡ done rs
      → (more : List ℕ) × ArePicked more rs × IsSpaced n more
  unfolding draw_all
  draw_all-IsSpaced n p wanted [] picks s rs pos h =
      elim (Bool-cases (ltb (length s.results) wanted)) [
        | inl more ↦ rw more λ run. absurd (not_done refl run)
        | inr full ↦ rw full (stops n picks s rs h)
      ]
  draw_all-IsSpaced n p wanted (draw ∷ draws) picks s rs pos h =
      elim (Bool-cases (ltb (length s.results) wanted)) [
        | inl more ↦ rw more (elim (Option-cases (draw_once fl n p trends draw s)) [
          | inl out ↦ rw out λ run. absurd (not_done refl run)
          | inr (s', e) ↦
              let (picks', h') = draw_once-IsRemembered n p draw picks s s' pos h e in
              rw e (draw_all-IsSpaced n p wanted draws picks' s' rs pos h')
        ])
        | inr full ↦ rw full (stops n picks s rs h)
      ]

  draw_copied-IsSpaced :
      (n p wanted : ℕ) (draws picks : List ℕ) (s : Marshalling Double) (rs : List (ℤ × Double))
      → 0 < n
      → IsRemembered n picks s
      → draw_copied fl n p wanted trends draws s ≡ done rs
      → (picks' : List ℕ) × ArePicked picks' rs × IsSpaced n picks'
  draw_copied-IsSpaced n p wanted draws picks s rs pos h =
      elim (Bool-cases (ltb 100 (length trends))) [
        | inl many ↦ elim (Bool-cases (ltb (length s.results) wanted)) [
          | inl more ↦ rw (many, more) λ run. absurd (undefined_not_done run)
          | inr full ↦ rw (many, full) (stops n picks s rs h)
        ]
        | inr fits ↦ rw fits (draw_all-IsSpaced n p wanted draws picks s rs pos h)
      ]
    where
      undefined_not_done : undefined ≡ done rs → ⊥
      undefined_not_done e = cc

  -- If the results come, they are trends, and no trend is chosen again among the next `n`, where
  -- `n` is the option `marshaler_n`, which is not 0: of two results that are at most `n` places
  -- apart, the indices of their trends differ.
  pub marshal-IsSpaced :
      (opts : MarshalerOptions Float) (wanted : ℕ) (draws : List ℕ) (rs : List (ℤ × Double))
      → 0 < opts.n
      → marshal fl opts trends wanted draws ≡ done rs
      → (picks : List ℕ) × ArePicked picks rs × IsSpaced opts.n picks
  unfolding marshal
  marshal-IsSpaced opts wanted draws rs pos =
      let ring : (opts.n == 0) ≡ false = ground (arith, pos) in
      let topt = widened fl (of_float opts.r1) opts.topt trends in
      let p = widened fl (of_float opts.r2) opts.p trends in
      let start : Marshalling Double = record {
        results = [];
        trend_flags = replicate (length trends) false;
        mask = replicate opts.n 0;
        k = 0;
        g = 0;
      } in
      let first : IsRemembered opts.n [] start = record {
        picked = tt;
        counted = refl;
        ring = length-replicate opts.n 0;
        remembered = λ i a b. absurd (omega arith);
        spaced = λ i j x y a b q r. absurd (none_not_some q);
      } in
      elim (Option-cases (take_top fl opts.n topt trends start)) [
        | inl out ↦ rw (ring, out, marshal) λ run. absurd (not_done refl run)
        | inr (s, e) ↦
            let (picks, h) =
              take_top-IsRemembered opts.n topt [] start s pos first refl
                (λ i y q. absurd (none_not_some q)) e in
            rw (ring, e, marshal)
              (draw_copied-IsSpaced opts.n p wanted draws picks
                (record s { trend_flags = cleared fl s.trend_flags; k = 0 }) rs pos
                (record {
                  picked = h.picked;
                  counted = h.counted;
                  ring = h.ring;
                  remembered = h.remembered;
                  spaced = h.spaced;
                }))
      ]
