-- ===== src/ContentBased/Ranking.antt =====
-- How the trends that are predicted are weighed and ordered.
use mathlib.Core.List.{Perm}
use mathlib.Core.List.Perm
use content_based.Base.{◌≡◌, true, false, List, [], ◌∷◌, map, if◌then◌else◌, ℤ, pos, ◌==ℤ◌, All}
use content_based.Floats.{Floats}
use content_based.Protocol.{ItemTag}
use content_based.Marshaler.{Trends}
use content_based.ContentBased.{ContentBased}
use content_based.ContentBased.Predictions.{Before, Sort, trends_sorter}

module _ (fl : Floats) where
  open fl use {
    Double, Float, of_float, to_float, decimal, mul, add_float, div_float, lt_float, le, max_float,
  }

  -- What `std::sort` requires of the comparison, for the elements of which `P` holds.
  pub record IsStrictWeak (P : ℤ × Double → Type 0) (before : Before fl) : Type 0 where
    pub irreflexive : (a : ℤ × Double) → P a → before a a ≡ false
    pub transitive :
        (a b c : ℤ × Double)
        → P a
        → P b
        → P c
        → before a b ≡ true
        → before b c ≡ true
        → before a c ≡ true
    pub cotransitive :
        (a b c : ℤ × Double)
        → P a
        → P b
        → P c
        → before a b ≡ false
        → before b c ≡ false
        → before a c ≡ false

  -- No element comes before one that stands in front of it.
  abbrev pub IsSorted : Before fl → Trends fl → Type 0
  IsSorted before [] = Unit
  IsSorted before (t ∷ ts) = All (λ u. before u t ≡ false) ts × IsSorted before ts

  -- What `std::sort` is documented to do.
  pub record IsSort (sort : Sort fl) : Type 1 where
    pub sorts :
        (P : ℤ × Double → Type 0) (before : Before fl) (ts : Trends fl)
        → IsStrictWeak P before
        → All P ts
        → Perm (sort before ts) ts × IsSorted before (sort before ts)

  -- The least of some powers.
  least_of : Float → List Float → Float
  least_of m [] = m
  least_of m (p ∷ ps) = least_of (if lt_float p m then p else m) ps

  added_up : Float → List Float → Float
  added_up total [] = total
  added_up total (p ∷ ps) = added_up (add_float total p) ps

  -- The power that counts for a tag: the least of all for the category 13, six tenths for 10.
  weighed : Float → ItemTag Float → Float
  weighed least t =
      if t.tag_id ==ℤ pos 13
      then least
      else if t.tag_id ==ℤ pos 10
      then to_float (mul (of_float t.tag_power) (decimal (pos 6) 1))
      else t.tag_power

  unfoldable pub whole : List Float → Float
  unfolding added_up
  whole ps =
      let total = added_up (to_float (decimal (pos 0) 1)) ps in
      if le (of_float total) (decimal (pos 0) 1) then to_float (decimal (pos 10) 1) else total

  abbrev share : Float → ℤ → Float → ℤ × Double
  share total c p = (c, of_float (div_float p total))

  -- Each tag with its share of the powers that count.
  unfoldable pub expected_trends : List (ItemTag Float) → Trends fl
  unfolding least_of weighed whole
  expected_trends tags =
      let least = least_of max_float (map (λ t. t.tag_power) tags) in
      map (λ t. share (whole (map (weighed least) tags)) t.tag_id (weighed least t)) tags

  -- What holds of trends that are predicted from tags.
  abbrev pub IsRanked : List (ItemTag Float) → Trends fl → Type 0
  IsRanked tags ts = Perm ts (expected_trends tags) × IsSorted (trends_sorter fl) ts
