-- ===== src/UserInterests/Queries.antt =====
-- What the queries answer.
use content_based.Base.{
  ◌≡◌, refl, sym, ap, ◌∙◌, Option, none, some, List, [], ◌∷◌, map, ℕ, ℤ, pos, ==ℤ_iff, arith,
  if◌then◌else◌, Option-cases, inl, inr,
}
use content_based.Status.{Status}
use content_based.Floats.{Floats}
use content_based.Map.{Map, find, insert, int_key, nat_key}
use content_based.Map.Laws.{find-insert, find-insert_all, find-same, or_else, or_else-none}
use content_based.UserInterests.{
  UserInterests, InterestOptions, IsUserKey, query_user_interests, interests_of, sum_weights,
  interest, usable_total, query_user_current_interests,
}

module _ (fl : Floats) (opts : InterestOptions fl.Float) where
  open fl use {Double, Float, of_float, float_of_int, decimal, add, mul, div, le}

  -- The value that a table gives each of its keys.
  abbrev pub on_key {ℓ κ} : {N : Type ℓ} {D : Type κ} → D → Option N → Option D
  on_key d none = none
  on_key d (some name) = some d

  find-interests_of :
      {N : Type 0} (f : Option Double → Option Double → Double) (prior user : Map ℤ Double)
      (cats : Map ℤ N) (trends : Map ℤ Double) (c : ℤ)
      → find c (interests_of fl opts f prior user cats trends)
        ≡ or_else (find c trends) (on_key (f (find c prior) (find c user)) (find c cats))
  unfolding interests_of find
  find-interests_of f prior user [] trends c = sym (or_else-none (find c trends))
  find-interests_of f prior user ((a, name) ∷ cats) trends c = ground (
    arith,
    find-interests_of f prior user cats (insert a (f (find a prior) (find a user)) trends) c,
    find-insert a c (f (find a prior) (find a user)) trends,
    ==ℤ_iff a c,
    find-same a c prior,
    find-same a c user,
  )

  -- The weights of a map added up, from the first, or 1 where that is not positive.
  added_up : Double → List Double → Double
  added_up total [] = total
  added_up total (v ∷ vs) = added_up (add total v) vs

  abbrev zero_weight : Double
  zero_weight = decimal (pos 0) 1

  unfoldable pub total_or_one : Map ℤ Double → Double
  unfolding added_up
  total_or_one m =
      let total = added_up zero_weight (map (λ e. e.1) m) in
      if le total zero_weight then of_float (float_of_int (pos 1)) else total

  sum_weights-added_up :
      (total : Double) (m : Map ℤ Double)
      → sum_weights fl opts total m ≡ added_up total (map (λ e. e.1) m)
  unfolding sum_weights added_up
  sum_weights-added_up total [] = refl
  sum_weights-added_up total ((c, v) ∷ m) = sum_weights-added_up (add total v) m

  usable_total-total_or_one : (m : Map ℤ Double) → usable_total fl opts m ≡ total_or_one m
  unfolding usable_total total_or_one
  usable_total-total_or_one m =
      ap (λ t. if le t zero_weight then of_float (float_of_int (pos 1)) else t)
        (sum_weights-added_up zero_weight m)

  -- `(pu + G) / (sum(Nt) + G)`, where `pu` is 0 for a category that the user has not clicked, or
  -- that nobody has.
  unfoldable pub smoothed : Double → Double → Option Double → Option Double → Double
  smoothed nt all none user =
      div (mul (of_float opts.visual_clicks) (decimal (pos 10) 1))
        (add nt (of_float opts.visual_clicks))
  smoothed nt all (some p) none =
      div (mul (of_float opts.visual_clicks) (decimal (pos 10) 1))
        (add nt (of_float opts.visual_clicks))
  smoothed nt all (some p) (some v) =
      div
        (add
          (mul nt
            (div (div (mul v (decimal (pos 10) 1)) nt) (div (mul p (decimal (pos 10) 1)) all)))
          (of_float opts.visual_clicks))
        (add nt (of_float opts.visual_clicks))

  interest-smoothed :
      (nt all : Double) (prior user : Option Double)
      → interest fl opts nt all prior user ≡ smoothed nt all prior user
  unfolding interest smoothed
  interest-smoothed nt all none user = refl
  interest-smoothed nt all (some p) none = refl
  interest-smoothed nt all (some p) (some v) = refl

  -- What is to be answered for a category, given the clicks of the user, of all users, and what the
  -- table has for the category.
  unfoldable pub IsAnswered :
      {N : Type 0}
      → ℤ
      → Option (Map ℤ Double)
      → Map ℤ Double
      → Option N
      → Status × Map ℤ Double
      → Type 0
  IsAnswered c none prior listed r = r ≡ (Status.not_found, [])
  IsAnswered c (some m) prior listed r =
      (r.0 ≡ Status.ok)
      × (find c r.1
          ≡ on_key (smoothed (total_or_one m) (total_or_one prior) (find c prior) (find c m))
              listed)

  -- For a user other than 0 and 2^64 - 1: of one with current clicks, the answer holds every
  -- category of the table and no other, each with `(Nt * pt(c|click) / pt(c) + G) / (Nt + G)`, or
  -- `G / (Nt + G)` where the user has no click of it or nobody has; `Nt` is the sum of the weights
  -- of the user's clicks, `pt(c|click)` and `pt(c)` are the shares of the category in these and in
  -- those of all users, and a sum that is not positive counts as 1. Of another user it is
  -- `not_found`, with an empty map.
  pub find-query_user_current_interests :
      {N : Type 0} (u : ℕ) (cats : Map ℤ N) (s : UserInterests Double) (c : ℤ)
      → IsUserKey u
      → IsAnswered c
          (find u s.current_user_dist)
          s.current_dist
          (find c cats)
          (query_user_current_interests fl opts u cats s)
  unfolding query_user_current_interests IsAnswered find
  find-query_user_current_interests u cats s c user =
      elim (Option-cases (find u s.current_user_dist)) [
        | inl e ↦ rw (e, query_user_current_interests) refl
        | inr (m, e) ↦
            rw (e, query_user_current_interests)
              (
                refl,
                find-interests_of
                      (interest fl opts (usable_total fl opts m)
                        (usable_total fl opts s.current_dist))
                      s.current_dist m cats [] c
                    ∙ ap (λ d. on_key d (find c cats))
                        (ap
                            (λ t.
                              interest fl opts t (usable_total fl opts s.current_dist)
                                (find c s.current_dist) (find c m))
                            (usable_total-total_or_one m)
                          ∙ ap
                              (λ t.
                                interest fl opts (total_or_one m) t (find c s.current_dist)
                                  (find c m))
                              (usable_total-total_or_one s.current_dist)
                          ∙ interest-smoothed _ _ (find c s.current_dist) (find c m)),
              )
      ]

  -- The answer for long-term interests of a user for whom weights were loaded holds just these; for
  -- another user it is `not_found`, with an empty map.
  pub find-query_user_interests :
      (u : ℕ) (s : UserInterests Double) (c : ℤ)
      → ((find u s.user_dist ≡ none) → query_user_interests fl opts u s ≡ (Status.not_found, []))
        × ((m : Map ℤ Double)
            → find u s.user_dist ≡ some m
            → ((query_user_interests fl opts u s).0 ≡ Status.ok)
              × (find c (query_user_interests fl opts u s).1 ≡ find c m))
  unfolding query_user_interests find
  find-query_user_interests u s c = (
    λ e. rw (e, query_user_interests),
    λ m e. rw (e, query_user_interests) (refl, find-insert_all c m []),
  )
