-- ===== src/Map/Order.antt =====
-- The keys of a map rise strictly: iteration visits each key once, in order.
use content_based.Base.{
  ◌≡◌, refl, sym, ◌∙◌, true, false, none, [], ◌∷◌, ◌++◌, arith, Bool-cases, Option-cases, inl, inr,
}
use content_based.Map.{Key, Map, find, place, insert, insert_all, assign}

module _ {ℓ} {K : Type ℓ} ⦃k : Key K⦄ where
  before_asym : (a c : K) → k.before a c ≡ true → k.before c a ≡ false
  before_asym a c h = elim (Bool-cases (k.before c a)) [
    | inl e ↦ absurd (
        true_not_false (sym ((k.same_iff a a).1 refl) ∙ k.before_ne a a (k.before_trans a c a h e)))
    | inr e ↦ e
  ]
    where
      true_not_false : true ≡ false → ⊥
      true_not_false e = cc

module _ {ℓ κ} {K : Type ℓ} {V : Type κ} ⦃k : Key K⦄ where
  -- Every key of the map comes after the given one.
  abbrev pub After : K → Map K V → Type 0
  After a [] = Unit
  After a ((b, w) ∷ m) = (k.before a b ≡ true) × After a m

  abbrev pub IsRising : Map K V → Type 0
  IsRising [] = Unit
  IsRising ((a, v) ∷ m) = After a m × IsRising m

  After-place :
      (a b : K) (v : V) (m : Map K V) → k.before b a ≡ true → After b m → After b (place a v m)
  unfolding place
  After-place a b v [] h r = (h, tt)
  After-place a b v ((c, w) ∷ m) h (r, rs) = ground (arith, After-place a b v m h rs)

  After-trans : (a b : K) (m : Map K V) → k.before a b ≡ true → After b m → After a m
  After-trans a b [] h r = tt
  After-trans a b ((c, w) ∷ m) h (r, rs) = (k.before_trans a b c h r, After-trans a b m h rs)

  place-IsRising :
      (a : K) (v : V) (m : Map K V) → find a m ≡ none → IsRising m → IsRising (place a v m)
  unfolding place find
  place-IsRising a v [] e r = (tt, tt)
  place-IsRising a v ((b, w) ∷ m) e (r, rs) = elim (Bool-cases (k.before a b)) [
    | inl h ↦ rw h ((h, After-trans a b m h r), (r, rs))
    | inr h ↦ rw h (
        ground (
          arith,
          k.before_total a b,
          k.same_iff a b,
          k.same_iff b a,
          After-place a b v m,
          place-IsRising a v m,
        ))
  ]

  pub insert-IsRising : (a : K) (v : V) (m : Map K V) → IsRising m → IsRising (insert a v m)
  unfolding insert
  insert-IsRising a v m r = elim (Option-cases (find a m)) [
    | inl e ↦ rw (e, insert) (place-IsRising a v m e r)
    | inr (w, e) ↦ rw (e, insert) r
  ]

  After-assign : (a b : K) (v : V) (m : Map K V) → After b m → After b (assign a v m)
  unfolding assign
  After-assign a b v [] r = tt
  After-assign a b v ((c, w) ∷ m) (r, rs) = ground (arith, After-assign a b v m rs)

  pub assign-IsRising : (a : K) (v : V) (m : Map K V) → IsRising m → IsRising (assign a v m)
  unfolding assign
  assign-IsRising a v [] r = tt
  assign-IsRising a v ((c, w) ∷ m) (r, rs) =
      ground (arith, After-assign a c v m r, assign-IsRising a v m rs)

  pub insert_all-IsRising : (m acc : Map K V) → IsRising acc → IsRising (insert_all m acc)
  unfolding insert_all
  insert_all-IsRising [] acc r = r
  insert_all-IsRising ((a, v) ∷ m) acc r =
      insert_all-IsRising m (insert a v acc) (insert-IsRising a v acc r)

  After-append :
      (a c : K) (v : V) (xs m : Map K V) → After a (xs ++ (c, v) ∷ m) → k.before a c ≡ true
  After-append a c v [] m r = r.0
  After-append a c v ((b, w) ∷ xs) m r = After-append a c v xs m r.1

  -- A map that is read entry by entry: the next key is not there, and goes to the end.
  find-rising : (c : K) (v : V) (xs m : Map K V) → IsRising (xs ++ (c, v) ∷ m) → find c xs ≡ none
  unfolding find
  find-rising c v [] m r = refl
  find-rising c v ((a, w) ∷ xs) m r =
      rw (k.before_ne a c (After-append a c v xs m r.0)) (find-rising c v xs m r.1)

  place-rising :
      (c : K) (v : V) (xs m : Map K V)
      → IsRising (xs ++ (c, v) ∷ m)
      → place c v xs ≡ xs ++ (c, v) ∷ []
  unfolding place
  place-rising c v [] m r = refl
  place-rising c v ((a, w) ∷ xs) m r =
      rw (before_asym a c (After-append a c v xs m r.0), place-rising c v xs m r.1) refl

  pub insert-rising :
      (c : K) (v : V) (xs m : Map K V)
      → IsRising (xs ++ (c, v) ∷ m)
      → (find c xs ≡ none) × (insert c v xs ≡ xs ++ (c, v) ∷ [])
  unfolding insert
  insert-rising c v xs m r =
      let e = find-rising c v xs m r in (e, rw (e, insert) (place-rising c v xs m r))
