-- ===== src/Map/Laws.antt =====
-- What lookups return after an insertion, an assignment or a sequence of them.
use content_based.Base.{
  ◌≡◌, refl, inl, inr, true, Option, none, some, [], ◌∷◌, arith, if◌then◌else◌, Option-cases,
}
use content_based.Map.{Key, Map, find, place, insert, insert_all, assign}

-- The second option where the first is empty.
abbrev pub or_else {ℓ} : {A : Type ℓ} → Option A → Option A → Option A
or_else none d = d
or_else (some a) d = some a

pub or_else-none {ℓ} : {A : Type ℓ} (o : Option A) → or_else o none ≡ o
or_else-none none = refl
or_else-none (some a) = refl

abbrev pub map_option {ℓ κ} : {A : Type ℓ} {B : Type κ} → (A → B) → Option A → Option B
map_option f none = none
map_option f (some a) = some (f a)

module _ {ℓ κ} {K : Type ℓ} {V : Type κ} ⦃k : Key K⦄ where
  pub find-same : (a b : K) (m : Map K V) → k.same a b ≡ true → find a m ≡ find b m
  unfolding find
  find-same a b m h = rw ((k.same_iff a b).0 h)

  pub find-place :
      (a b : K) (v : V) (m : Map K V)
      → find a m ≡ none
      → find b (place a v m) ≡ (if k.same a b then some v else find b m)
  unfolding find place
  find-place a b v [] h = refl
  find-place a b v ((c, w) ∷ m) h =
      ground (arith, find-place a b v m, k.same_iff a b, k.same_iff c a, k.same_iff c b)

  -- A key that is there keeps its value.
  pub find-insert :
      (a b : K) (v : V) (m : Map K V)
      → find b (insert a v m) ≡ or_else (find b m) (if k.same a b then some v else none)
  unfolding insert
  find-insert a b v m = elim (Option-cases (find a m)) [
    | inl e ↦
        rw (e, insert)
          (rw (find-place a b v m e) (ground (arith, e, k.same_iff a b, find-same a b m)))
    | inr (w, e) ↦ rw (e, insert) (ground (arith, e, k.same_iff a b, find-same a b m))
  ]

  pub find-assign :
      (a b : K) (v w : V) (m : Map K V)
      → find a m ≡ some w
      → find b (assign a v m) ≡ (if k.same a b then some v else find b m)
  unfolding find assign
  find-assign a b v w [] h = ground arith
  find-assign a b v w ((c, u) ∷ m) h =
      ground (arith, find-assign a b v w m, k.same_iff a b, k.same_iff c a, k.same_iff c b)

  pub find-insert_all :
      (b : K) (m acc : Map K V) → find b (insert_all m acc) ≡ or_else (find b acc) (find b m)
  unfolding find insert_all
  find-insert_all b [] acc = ground arith
  find-insert_all b ((a, v) ∷ m) acc =
      ground (arith, find-insert_all b m (insert a v acc), find-insert a b v acc)

-- The same map with other values, one for each value. Lookups and changes go through.
module _ {ℓ κ μ} {K : Type ℓ} {A : Type κ} {B : Type μ} ⦃k : Key K⦄ (f : A → B) where
  unfoldable pub map_values : Map K A → Map K B
  map_values [] = []
  map_values ((a, v) ∷ m) = (a, f v) ∷ map_values m

  pub find-map_values : (a : K) (m : Map K A) → find a (map_values m) ≡ map_option f (find a m)
  unfolding find map_values
  find-map_values a [] = refl
  find-map_values a ((b, v) ∷ m) = ground (arith, find-map_values a m)

  pub place-map_values :
      (a : K) (v : A) (m : Map K A) → place a (f v) (map_values m) ≡ map_values (place a v m)
  unfolding place map_values
  place-map_values a v [] = refl
  place-map_values a v ((b, w) ∷ m) = ground (arith, place-map_values a v m)

  pub assign-map_values :
      (a : K) (v : A) (m : Map K A) → assign a (f v) (map_values m) ≡ map_values (assign a v m)
  unfolding assign map_values
  assign-map_values a v [] = refl
  assign-map_values a v ((b, w) ∷ m) = ground (arith, assign-map_values a v m)

  pub insert-map_values :
      (a : K) (v : A) (m : Map K A) → insert a (f v) (map_values m) ≡ map_values (insert a v m)
  unfolding insert
  insert-map_values a v m = elim (Option-cases (find a m)) [
    | inl e ↦
        let absent : find a (map_values m) ≡ none = rw (find-map_values a m, e) in
        rw (absent, e, insert) (place-map_values a v m)
    | inr (w, e) ↦
        let present : find a (map_values m) ≡ some (f w) = rw (find-map_values a m, e) in
        rw (present, e, insert)
  ]
