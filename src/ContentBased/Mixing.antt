-- ===== src/ContentBased/Mixing.antt =====
-- What a prediction holds.
use content_based.Base.{
  ◌≡◌, refl, sym, ap, ◌∙◌, inl, inr, Option, none, some, List, [], ◌∷◌, map, arith, if◌then◌else◌,
  ℕ, ℤ, pos, ◌==ℤ◌, ==ℤ_iff, Bool-cases, Option-cases,
}
use content_based.Storage.{Bytes}
use content_based.Floats.{Floats}
use content_based.Map.{Map, find, int_key}
use content_based.Protocol.{ItemTag}
use content_based.NewsTrends.{tags_of, query_current_trends}
use content_based.UserInterests.{query_user_interests, query_user_current_interests}
use content_based.ContentBased.{ContentBased, Options}
use content_based.ContentBased.Predictions.{
  narrowed, mixed, tags_for, predict_mix, sum_floats, total_distribution, predict_distribution,
  long_term_id,
}

module _ (fl : Floats) where
  open fl use {
    Double, Float, of_float, to_float, float_of_int, decimal, add, mul, div, sub_float, le,
  }

  -- The power of the first tag with an id.
  unfoldable pub power_in : ℤ → List (ItemTag Float) → Option Float
  power_in c [] = none
  power_in c (t ∷ ts) =
      let rest = power_in c ts in if t.tag_id ==ℤ c then some t.tag_power else rest

  -- A value, where the table of categories has an entry.
  abbrev pub if_listed {ℓ} : {N : Type ℓ} → Option N → Option Float → Option Float
  if_listed none v = none
  if_listed (some name) v = v

  if_listed-none : (N : Option Bytes) → if_listed N none ≡ none
  if_listed-none none = refl
  if_listed-none (some name) = refl

  power_in-tags_for :
      (f : ℤ → Option Float) (cats : Map ℤ Bytes) (c : ℤ)
      → power_in c (tags_for fl f cats) ≡ if_listed (find c cats) (f c)
  unfolding power_in tags_for find
  power_in-tags_for f [] c = refl
  power_in-tags_for f ((a, name) ∷ cats) c = elim (Bool-cases (a ==ℤ c)) [
    | inl e ↦ elim (Option-cases (f a)) [
      | inl n ↦ rw (
        tags_for,
        n,
        e,
        power_in-tags_for f cats c,
        ap f (sym ((==ℤ_iff a c).0 e)),
        n,
        if_listed-none (find c cats),
      )
      | inr s ↦ rw (tags_for, s.1, e, ap f (sym ((==ℤ_iff a c).0 e)), s.1) refl
    ]
    | inr e ↦ elim (Option-cases (f a)) [
      | inl n ↦ rw (tags_for, n, e) (power_in-tags_for f cats c)
      | inr s ↦ rw (tags_for, s.1, e) (power_in-tags_for f cats c)
    ]
  ]

  pub power_in-tags_of :
      (m : Map ℤ Double) (c : ℤ) → power_in c (tags_of fl m) ≡ narrowed fl (find c m)
  unfolding power_in tags_of find
  power_in-tags_of [] c = refl
  power_in-tags_of ((a, v) ∷ m) c = ground (arith, power_in-tags_of m c)

  -- A `float` to which weights are added one after the other.
  added_up : Float → List Double → Float
  added_up total [] = total
  added_up total (v ∷ vs) = added_up (to_float (add (of_float total) v)) vs

  -- The sum of the weights, or 1 where that is not positive.
  unfoldable pub total_or_one : Map ℤ Double → Float
  unfolding added_up
  total_or_one m =
      let total = of_float (added_up (to_float (decimal (pos 0) 1)) (map (λ e. e.1) m)) in
      to_float (if le total (decimal (pos 0) 1) then decimal (pos 10) 1 else total)

  sum_floats-added_up :
      (t : Float) (m : Map ℤ Double) → sum_floats fl t m ≡ added_up t (map (λ e. e.1) m)
  unfolding sum_floats added_up
  sum_floats-added_up t [] = refl
  sum_floats-added_up t ((c, v) ∷ m) = sum_floats-added_up (to_float (add (of_float t) v)) m

  total_distribution-total_or_one : (m : Map ℤ Double) → total_distribution fl m ≡ total_or_one m
  unfolding total_distribution total_or_one
  total_distribution-total_or_one m =
      ap
        (λ f.
          let total = of_float f in
          to_float (if le total (decimal (pos 0) 1) then decimal (pos 10) 1 else total))
        (sum_floats-added_up (to_float (decimal (pos 0) 1)) m)

  -- `alpha * a / A + (1 - alpha) * b / B`, where both weights are there.
  unfoldable pub mixture : Float → Float → Float → Option Double → Option Double → Option Float
  mixture alpha all_long all_current (some a) (some b) = some (
      to_float (
        add (div (mul (of_float alpha) a) (of_float all_long))
          (div (mul (of_float (sub_float (float_of_int (pos 1)) alpha)) b) (of_float all_current))))
  mixture alpha all_long all_current none _ = none
  mixture alpha all_long all_current (some a) none = none

  mixed-mixture :
      (alpha a b : Float) (x y : Option Double) → mixed fl alpha a b x y ≡ mixture alpha a b x y
  unfolding mixed mixture
  mixed-mixture alpha a b none none = refl
  mixed-mixture alpha a b none (some y) = refl
  mixed-mixture alpha a b (some x) none = refl
  mixed-mixture alpha a b (some x) (some y) = refl

  -- What is to be predicted for a category.
  unfoldable pub expected_power :
      Float → Option Bytes → ℤ → Map ℤ Double → Map ℤ Double → Map ℤ Double → Option Float
  expected_power alpha listed c [] [] news = narrowed fl (find c news)
  expected_power alpha listed c [] (b ∷ current) news =
      if_listed listed (narrowed fl (find c (b ∷ current)))
  expected_power alpha listed c (a ∷ user) [] news =
      if_listed listed (narrowed fl (find c (a ∷ user)))
  expected_power alpha listed c (a ∷ user) (b ∷ current) news = if_listed listed (
      mixture alpha (total_or_one (a ∷ user)) (total_or_one (b ∷ current)) (find c (a ∷ user))
        (find c (b ∷ current)))

  power_in-predict_mix :
      (alpha : Float) (cats : Map ℤ Bytes) (user current news : Map ℤ Double) (c : ℤ)
      → power_in c (predict_mix fl alpha cats user current news)
        ≡ expected_power alpha (find c cats) c user current news
  unfolding predict_mix expected_power
  power_in-predict_mix alpha cats [] [] news c = power_in-tags_of news c
  power_in-predict_mix alpha cats [] (b ∷ current) news c = power_in-tags_for _ cats c
  power_in-predict_mix alpha cats (a ∷ user) [] news c = power_in-tags_for _ cats c
  power_in-predict_mix alpha cats (a ∷ user) (b ∷ current) news c =
      let x = find c (a ∷ user) in
      let y = find c (b ∷ current) in
      power_in-tags_for _ cats c
      ∙ ap (if_listed (find c cats)) (
          ap (λ t. mixed fl alpha t (total_distribution fl (b ∷ current)) x y)
            (total_distribution-total_or_one (a ∷ user))
          ∙ ap (λ t. mixed fl alpha (total_or_one (a ∷ user)) t x y)
              (total_distribution-total_or_one (b ∷ current))
          ∙ mixed-mixture alpha _ _ x y)

  module _ {U I C W : Type 0} (opts : Options Float) (u : ℕ) (s : ContentBased U I C W Double) where
    -- What a prediction holds for a category: without interests of the user, its news trend; with
    -- long-term or with current interests only, the weight that these give it, if the category
    -- table lists it; with both, `alpha` times its share in the long-term ones and `1 - alpha` times
    -- its share in the current ones, if both give it a weight and the table lists it; else nothing.
    -- A share is taken of the sum of the weights, or of 1 where that is not positive.
    pub power_in-predict_distribution :
        (c : ℤ)
        → power_in c (predict_distribution fl opts u s).1
          ≡ expected_power opts.mix_alpha
              (find c s.category)
              c
              (query_user_interests fl opts.interests (long_term_id fl u) s.interests.target).1
              (query_user_current_interests fl opts.interests u s.category s.interests.target).1
              (query_current_trends fl s.news.target).1
    unfolding predict_distribution
    power_in-predict_distribution c = power_in-predict_mix opts.mix_alpha s.category _ _ _ c
