-- ===== src/ContentBased/Predictions.antt =====
-- src/core/content_based.cpp: what the model predicts for a user, and the queries. None of these
-- methods changes the model. A list that the source appends to is an argument, or empty where the
-- caller has just made it.
use content_based.Base.{
  Bool, Option, none, some, List, [], ◌∷◌, ◌++◌, map, if◌then◌else◌, ℕ, ℤ, pos, ◌==◌, ◌==ℤ◌,
}
use content_based.Status.{Status, is_ok}
use content_based.Storage.{Bytes}
use content_based.Floats.{Floats}
use content_based.Map.{Map, find, insert, int_key}
use content_based.Protocol.{ItemTag}
use content_based.NewsTrends.{NewsTrends, tags_of}
use content_based.NewsTrends
use content_based.UserInterests.{UserInterests, query_user_interests, query_user_current_interests}
use content_based.UserInterests
use content_based.Marshaler.{
  Trends, MarshalerOptions, Outcome, done, out_of_range, still_drawing, undefined, marshal,
}
use content_based.ContentBased.{ContentBased, Databases, Options}

-- The bit fields of a `type_id_t`, and `IDTYPE_CATEGORY`; none of them is in the repository.
pub record TypeId : Type 0 where
  pub type_of : ℕ → ℕ
  pub id_of : ℕ → ℤ
  pub idtype_category : ℕ

-- `marshalUserInterests` reads through the end of a vector, draws on, or is undefined, where
-- `marshal` is.
pub data Answer : Type 0 where
  answered : Status → List ℤ → Answer
  reads_out_of_range : Answer
  keeps_drawing : Answer
  is_undefined : Answer

module _ (fl : Floats) where
  open fl use {
    Double, Float, of_int, of_float, to_float, float_of_int, decimal, max_float, add, mul, div, lt,
    le, add_float, sub_float, div_float, lt_float,
  }

  unfoldable pub sum_floats : Float → Map ℤ Double → Float
  sum_floats total [] = total
  sum_floats total ((c, v) ∷ m) = sum_floats (to_float (add (of_float total) v)) m

  unfoldable pub total_distribution : Map ℤ Double → Float
  total_distribution m =
      let total = of_float (sum_floats (to_float (decimal (pos 0) 1)) m) in
      to_float (if le total (decimal (pos 0) 1) then decimal (pos 10) 1 else total)

  -- The loops over the table of categories, with what each finds for one of them.
  unfoldable pub tags_for : (ℤ → Option Float) → Map ℤ Bytes → List (ItemTag Float)
  tags_for f [] = []
  tags_for f ((c, name) ∷ cats) = elim (f c) [
    | none ↦ tags_for f cats
    | some v ↦ record { tag_id = c; tag_power = v } ∷ tags_for f cats
  ]

  abbrev pub narrowed : Option Double → Option Float
  narrowed none = none
  narrowed (some v) = some (to_float v)

  unfoldable pub mixed : Float → Float → Float → Option Double → Option Double → Option Float
  mixed alpha total current_total none b = none
  mixed alpha total current_total (some a) none = none
  mixed alpha total current_total (some a) (some b) = some (
      to_float (
        add (div (mul (of_float alpha) a) (of_float total)) (
          div (mul (of_float (sub_float (float_of_int (pos 1)) alpha)) b)
            (of_float current_total))))

  -- The branches of `predictUserInterests`, given what the three queries answered.
  unfoldable pub predict_mix :
      Float → Map ℤ Bytes → Map ℤ Double → Map ℤ Double → Map ℤ Double → List (ItemTag Float)
  predict_mix alpha cats [] [] news = tags_of fl news
  predict_mix alpha cats [] (b ∷ current) news =
      tags_for (λ c. narrowed (find c (b ∷ current))) cats
  predict_mix alpha cats (a ∷ user) [] news = tags_for (λ c. narrowed (find c (a ∷ user))) cats
  predict_mix alpha cats (a ∷ user) (b ∷ current) news =
      let total = total_distribution (a ∷ user) in
      let current_total = total_distribution (b ∷ current) in
      tags_for (λ c. mixed alpha total current_total (find c (a ∷ user)) (find c (b ∷ current)))
        cats

  -- The first loop of the other `predictUserInterests`: the least power, and the tags after it.
  unfoldable pub min_power : Float → List (ItemTag Float) → Float
  min_power least [] = least
  min_power least (t ∷ ts) =
      min_power (if lt_float t.tag_power least then t.tag_power else least) ts

  unfoldable pub damped : ItemTag Float → ItemTag Float
  damped t =
      if t.tag_id ==ℤ pos 10
      then record t { tag_power = to_float (mul (of_float t.tag_power) (decimal (pos 6) 1)) }
      else t

  abbrev pub power_of : Float → ItemTag Float → Float
  power_of least t = if t.tag_id ==ℤ pos 13 then least else t.tag_power

  unfoldable pub total_power : Float → Float → List (ItemTag Float) → Float
  total_power least total [] = total
  total_power least total (t ∷ ts) = total_power least (add_float total (power_of least t)) ts

  abbrev pub Before : Type 0
  Before = ℤ × Double → ℤ × Double → Bool

  unfoldable pub trends_sorter : Before
  trends_sorter a b = lt b.1 a.1

  -- `std::sort`, by what comes before.
  abbrev pub Sort : Type 0
  Sort = Before → Trends fl → Trends fl

  unfoldable pub trends_of : Sort → List (ItemTag Float) → Trends fl
  trends_of sort tags =
      let least = min_power max_float tags in
      let ts = map damped tags in
      let total = total_power least (to_float (decimal (pos 0) 1)) ts in
      let total' =
        if le (of_float total) (decimal (pos 0) 1) then to_float (decimal (pos 10) 1) else total in
      sort trends_sorter (map (λ t. (t.tag_id, of_float (div_float (power_of least t) total'))) ts)

  -- What one item weighs: the most that any of its categories does.
  unfoldable pub max_power : TypeId → Map ℤ Double → Float → List ℕ → Float
  max_power ids dist most [] = most
  max_power ids dist most (key ∷ keys) =
      max_power ids dist
        (if ids.type_of key == ids.idtype_category
          then elim (find (ids.id_of key) dist) [
            | none ↦ most
            | some v ↦ if lt (of_float most) v then to_float v else most
          ]
          else most)
        keys

  unfoldable pub insert_trends : Trends fl → Map ℤ Double → Map ℤ Double
  insert_trends [] m = m
  insert_trends ((c, v) ∷ ts) m = insert_trends ts (insert c v m)

  -- Users with one id are given the long-term interests of another.
  abbrev pub long_term_id : ℕ → ℕ
  long_term_id u = if u == 310744 then 36706 else u

  abbrev pub nonempty_trends : Sort → List (ItemTag Float) → Status × Trends fl
  nonempty_trends sort [] = (Status.corruption, [])
  nonempty_trends sort (t ∷ ts) = (Status.ok, trends_of sort (t ∷ ts))

  abbrev pub answer_of : Outcome Double → Answer
  answer_of (done rs) = answered Status.ok (map (λ t. t.0) rs)
  answer_of out_of_range = reads_out_of_range
  answer_of still_drawing = keeps_drawing
  answer_of undefined = is_undefined

  -- The loop of `queryCategoryWeight` over the items of the candidate set: a power for
  -- each, and the total.
  unfoldable pub item_powers :
      {U I : Type 0}
      → Databases U I
      → TypeId
      → Map ℤ Double
      → I
      → List ℕ
      → Float
      → List Float × Float
  item_powers db ids dist i [] total = ([], total)
  item_powers db ids dist i (item ∷ items) total =
      let (e, keys) = db.fetch_item_belongs_to item i in
      let zero_power = to_float (decimal (pos 0) 1) in
      let most = max_power ids dist zero_power keys in
      let (powers, all) =
        item_powers db ids dist i items (if is_ok e then add_float total most else total) in
      ((if is_ok e then most else zero_power) ∷ powers, all)

  -- The queries for debugging: a map that was answered, as tags behind those that are there.
  unfoldable pub append_tags :
      List (ItemTag Float) → Status × Map ℤ Double → Status × List (ItemTag Float)
  append_tags dist (e, m) = if is_ok e then (Status.ok, dist ++ tags_of fl m) else (e, dist)

  module _ {U I C W : Type 0} (opts : Options Float) where
    unfoldable pub predict_distribution :
        ℕ → ContentBased U I C W Double → Status × List (ItemTag Float)
    predict_distribution u s = (
      Status.ok,
      predict_mix opts.mix_alpha s.category
          (query_user_interests fl opts.interests (long_term_id u) s.interests.target).1
          (query_user_current_interests fl opts.interests u s.category s.interests.target).1
          (NewsTrends.query_current_trends fl s.news.target).1,
    )

    unfoldable pub predict_user_interests :
        Sort → ℕ → ContentBased U I C W Double → Status × Trends fl
    predict_user_interests sort u s =
        let (e, tags) = predict_distribution u s in
        if is_ok e then nonempty_trends sort tags else (e, [])

    -- `draws` are the numbers that the marshaler draws.
    unfoldable pub marshal_user_interests :
        Sort → MarshalerOptions Float → ℕ → ℕ → List ℕ → ContentBased U I C W Double → Answer
    marshal_user_interests sort mo u request_num draws s =
        let (e, trends) = predict_user_interests sort u s in
        if is_ok e then answer_of (marshal fl mo trends request_num draws) else answered e []

    unfoldable pub query_category_weight :
        Sort
        → Databases U I
        → TypeId
        → ℕ
        → List ℕ
        → List Float
        → ContentBased U I C W Double
        → Status × List Float
    query_category_weight sort db ids u items power s =
        let (e, trends) = predict_user_interests sort u s in
        if is_ok e
        then (let dist = insert_trends trends [] in
            let (powers, total) =
              item_powers db ids dist s.item_db items (to_float (decimal (pos 0) 1)) in
            let total' =
              if le (of_float total) (decimal (pos 0) 1) then float_of_int (pos 1) else total in
            (Status.ok, map (λ p. div_float p total') (power ++ powers)))
        else (e, power)

    unfoldable pub query_news_trends :
        List (ItemTag Float) → ContentBased U I C W Double → Status × List (ItemTag Float)
    query_news_trends dist s = append_tags dist (NewsTrends.query_current_trends fl s.news.target)

    unfoldable pub query_current_trends :
        List (ItemTag Float) → ContentBased U I C W Double → Status × List (ItemTag Float)
    query_current_trends dist s =
        append_tags dist (UserInterests.query_current_trends fl opts.interests s.interests.target)

    unfoldable pub query_interests :
        ℕ → List (ItemTag Float) → ContentBased U I C W Double → Status × List (ItemTag Float)
    query_interests u dist s =
        append_tags dist (query_user_interests fl opts.interests u s.interests.target)

    unfoldable pub query_current_interests :
        ℕ → List (ItemTag Float) → ContentBased U I C W Double → Status × List (ItemTag Float)
    query_current_interests u dist s =
        append_tags dist
          (query_user_current_interests fl opts.interests u s.category s.interests.target)

-- `queryCategory`.
unfoldable pub query_category :
    {U I C W D : Type 0} → Map ℤ Bytes → ContentBased U I C W D → Status × Map ℤ Bytes
query_category pairs s = (Status.ok, pairs ++ s.category)
