-- ===== src/NewsTrends/Counts.antt =====
-- What the training map of the news trends stands for: how many clicks each category has.
use content_based.Base.{
  ◌≡◌, refl, ap, sym, ◌∙◌, Option, none, some, List, [], ◌∷◌, if◌then◌else◌, ℤ, ltb_ℤ, ℕ, zero, suc,
  ◌+◌, ◌≤◌, arith, Option-cases, Bool-cases, inl, inr, ◌==ℤ◌,
}
use content_based.Map.{Map, find, place, assign, int_key}
use content_based.Map.Laws.{find-place, find-assign, find-same}
use content_based.DistTable.Logging.{Event, clicked, listed}

abbrev pub Counts : Type 0
Counts = Map ℤ ℕ

-- One more click of a category.
unfoldable pub bump : ℤ → Counts → Counts
bump c m = elim (find c m) [ some n ↦ assign c (suc n) m | none ↦ place c 1 m ]

-- All the clicks of a map.
unfoldable pub total : Counts → ℕ
total [] = 0
total ((c, n) ∷ m) = n + total m

-- The clicks among the events that were published in time.
unfoldable pub counted : ℤ → List Event → Counts → Counts
counted expired [] m = m
counted expired (listed i ∷ es) m = counted expired es m
counted expired (clicked c ∷ es) m =
    counted expired es (if ltb_ℤ c.publish_time expired then m else bump c.category_id m)

-- How many clicks of one category, and of all of them, were published in time.
unfoldable pub clicks_of : ℤ → ℤ → List Event → ℕ
clicks_of b expired [] = 0
clicks_of b expired (listed i ∷ es) = clicks_of b expired es
clicks_of b expired (clicked c ∷ es) =
    (if ltb_ℤ c.publish_time expired then 0 else (if c.category_id ==ℤ b then 1 else 0))
    + clicks_of b expired es

unfoldable pub recent_clicks : ℤ → List Event → ℕ
recent_clicks expired [] = 0
recent_clicks expired (listed i ∷ es) = recent_clicks expired es
recent_clicks expired (clicked c ∷ es) =
    (if ltb_ℤ c.publish_time expired then 0 else 1) + recent_clicks expired es

-- A category has an entry once it has a click.
abbrev pub tally : ℕ → Option ℕ
tally zero = none
tally (suc n) = some (suc n)

tally-eq_none : (n : ℕ) → tally n ≡ none → n ≡ 0
tally-eq_none zero h = refl
tally-eq_none (suc n) h = cc

tally-eq_some : (n k : ℕ) → tally n ≡ some k → n ≡ k
tally-eq_some zero k h = cc
tally-eq_some (suc n) k h = cc

tally-one_add : (n k : ℕ) → n ≡ k → some (suc k) ≡ tally (1 + n)
tally-one_add n k h = let e : suc k ≡ 1 + n = omega arith in ap tally e

find-bump :
    (c b : ℤ) (n : ℕ) (m : Counts)
    → find b m ≡ tally n
    → find b (bump c m) ≡ tally ((if c ==ℤ b then 1 else 0) + n)
unfolding bump
find-bump c b n m h = elim (Option-cases (find c m)) [
  | inl e ↦
      rw (e, bump)
        (rw (find-place c b 1 m e) (elim (Bool-cases (c ==ℤ b)) [
          | inl same ↦
              rw same (tally-one_add n 0 (tally-eq_none n (sym h ∙ sym (find-same c b m same) ∙ e)))
          | inr differs ↦ rw differs (h ∙ ap tally (omega arith))
        ]))
  | inr (k, e) ↦
      rw (e, bump)
        (rw (find-assign c b (suc k) k m e) (elim (Bool-cases (c ==ℤ b)) [
          | inl same ↦
              rw same
                (tally-one_add n k (tally-eq_some n k (sym h ∙ sym (find-same c b m same) ∙ e)))
          | inr differs ↦ rw differs (h ∙ ap tally (omega arith))
        ]))
]

pub find-counted :
    (expired b : ℤ) (es : List Event) (n : ℕ) (m : Counts)
    → find b m ≡ tally n
    → find b (counted expired es m) ≡ tally (clicks_of b expired es + n)
unfolding counted clicks_of
find-counted expired b [] n m h = h ∙ ap tally (omega arith)
find-counted expired b (listed i ∷ es) n m h = find-counted expired b es n m h
find-counted expired b (clicked c ∷ es) n m h = elim (Bool-cases (ltb_ℤ c.publish_time expired)) [
  | inl e ↦ rw e (find-counted expired b es n m h ∙ ap tally (omega arith))
  | inr e ↦ rw e (
      find-counted expired b es ((if c.category_id ==ℤ b then 1 else 0) + n) (bump c.category_id m)
        (find-bump c.category_id b n m h)
      ∙ ap tally (ground arith))
]

total-place : (c : ℤ) (n : ℕ) (m : Counts) → total (place c n m) ≡ n + total m
unfolding total place
total-place c n [] = refl
total-place c n ((a, k) ∷ m) = ground (arith, total-place c n m)

total-assign :
    (c : ℤ) (n k : ℕ) (m : Counts) → find c m ≡ some k → total (assign c n m) + k ≡ total m + n
unfolding total assign find
total-assign c n k [] h = cc
total-assign c n k ((a, j) ∷ m) h = ground (arith, total-assign c n k m)

pub total-bump : (c : ℤ) (m : Counts) → total (bump c m) ≡ suc (total m)
unfolding bump
total-bump c m = elim (Option-cases (find c m)) [
  | inl e ↦ rw (e, bump) (omega (arith, total-place c 1 m))
  | inr (k, e) ↦ rw (e, bump) (omega (arith, total-assign c (suc k) k m e))
]

pub find-le-total : (c : ℤ) (n : ℕ) (m : Counts) → find c m ≡ some n → n ≤ total m
unfolding total find
find-le-total c n [] h = cc
find-le-total c n ((a, j) ∷ m) h = ground (arith, find-le-total c n m)

pub total-counted :
    (expired : ℤ) (es : List Event) (m : Counts)
    → total (counted expired es m) ≡ recent_clicks expired es + total m
unfolding counted recent_clicks
total-counted expired [] m = omega arith
total-counted expired (listed i ∷ es) m = total-counted expired es m
total-counted expired (clicked c ∷ es) m = ground (
  arith,
  total-counted expired es m,
  total-counted expired es (bump c.category_id m),
  total-bump c.category_id m,
)
