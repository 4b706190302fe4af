-- ===== src/NewsTrends.antt =====
-- src/core/news_trends.{h,cpp}: how often each category was clicked lately. A number that the
-- source takes from `time(NULL)` is the argument `now`.
pub mod Counts
pub mod Counting
pub mod Reloading
use content_based.Base.{
  ◌≡◌, Bool, true, false, Option, none, some, List, [], ◌∷◌, if◌then◌else◌, ℤ, pos, ◌-ℤ◌, ◌*ℤ◌,
  ltb_ℤ, leb_ℤ, ◌+ℤ◌,
}
use content_based.Status.{Status, Run, succeed}
use content_based.Storage.{Bytes}
use content_based.Floats.{Floats}
use content_based.Map.{Map, find, insert, insert_all, assign, int_key}
use content_based.Protocol.{CategoryClick, CategoryDistribution, ItemTag, Protocol}
use content_based.DistTable.{DistTable}

abbrev pub seconds_per_hour : ℤ
seconds_per_hour = pos 3600

-- `D` is `double`.
pub record NewsTrends (D : Type 0) : Type 0 where
  pub click_expired : ℤ
  pub map_dist_training : Map ℤ D
  pub map_dist : Map ℤ D

module _ (fl : Floats) where
  open fl use {Double, Float, of_int, to_int, float_of_int, of_float, to_float, add, div}

  -- The constructor; `click_expired_` is set by the first `trainBefore`.
  pub new_news_trends : ℤ → NewsTrends Double
  new_news_trends expired = record {
    click_expired = expired;
    map_dist_training = [];
    map_dist = [];
  }

  unfoldable pub reload_before : Run (NewsTrends Double)
  reload_before s = (Status.ok, record s { map_dist_training = [] })

  -- `reloadCompleted` and `trainCompleted` swap the two maps.
  unfoldable pub swap_maps : Run (NewsTrends Double)
  swap_maps s =
      (Status.ok, record s { map_dist_training = s.map_dist; map_dist = s.map_dist_training })

  unfoldable pub load_tags : List (ItemTag Float) → Map ℤ Double → Map ℤ Double
  load_tags [] m = m
  load_tags (t ∷ ts) m = load_tags ts (insert t.tag_id (of_float t.tag_power) m)

  unfoldable pub load_distribution : CategoryDistribution Float → Run (NewsTrends Double)
  load_distribution d s =
      (Status.ok, record s { map_dist_training = load_tags d.distribution s.map_dist_training })

  -- `total_click`, an `int32_t` to which `double`s are added: each sum is converted back by `to_int`,
  -- of which nothing is known where an `int32_t` cannot hold it.
  unfoldable pub total_click : ℤ → Map ℤ Double → ℤ
  total_click total [] = total
  total_click total ((c, v) ∷ m) = total_click (to_int (add (of_int total) v)) m

  unfoldable pub divisor : ℤ → Double
  divisor total = of_float (float_of_int (if leb_ℤ total (pos 0) then pos 1 else total))

  unfoldable pub normalise : Double → Map ℤ Double → Map ℤ Double
  normalise total [] = []
  normalise total ((c, v) ∷ m) = (c, div v total) ∷ normalise total m

  unfoldable pub tags_of : Map ℤ Double → List (ItemTag Float)
  tags_of [] = []
  tags_of ((c, v) ∷ m) = record { tag_id = c; tag_power = to_float v } ∷ tags_of m

  unfoldable pub dump_table :
      {W : Type 0} → Protocol Float → (Bytes → W → Status × W) → Run (NewsTrends Double × W)
  dump_table pr write (s, w) =
      let m = normalise (divisor (total_click (pos 0) s.map_dist_training)) s.map_dist_training in
      let (e, w') =
        write (pr.encode_distribution (record { user_id = 0; distribution = tags_of m })) w in
      (e, (record s { map_dist_training = m }, w'))

  unfoldable pub train_before : ℤ → ℤ → Run (NewsTrends Double)
  train_before window now s = (
    Status.ok,
    record s { map_dist_training = []; click_expired = now -ℤ window *ℤ seconds_per_hour },
  )

  -- One more click of a category.
  unfoldable pub count_click : ℤ → Map ℤ Double → Map ℤ Double
  count_click c m = elim (find c m) [
    | some v ↦ assign c (add v (of_int (pos 1))) m
    | none ↦ insert c (of_int (pos 1)) m
  ]

  unfoldable pub train_click : CategoryClick → Run (NewsTrends Double)
  train_click c s = if ltb_ℤ c.publish_time s.click_expired then (Status.ok, s) else (
    Status.ok,
    record s { map_dist_training = count_click c.category_id s.map_dist_training },
  )

  unfoldable pub query_current_trends : NewsTrends Double → Status × Map ℤ Double
  query_current_trends s = (Status.ok, insert_all s.map_dist [])

  -- The second part is the value left in the argument `weight`.
  unfoldable pub query_category_weight : ℤ → Float → NewsTrends Double → Status × Float
  query_category_weight c weight s = elim (find c s.map_dist) [
    | some v ↦ (Status.ok, to_float v)
    | none ↦ (Status.not_found, weight)
  ]

  -- The class, with what it inherits from `DistTable`.
  unfoldable pub news_trends :
      {W : Type 0} → Protocol Float → ℤ → ℤ → DistTable W (NewsTrends Double) Float
  news_trends pr window now = record {
    time_window_size = window;
    need_eliminate = λ s last counter. false;
    reload_before = reload_before;
    reload_completed = swap_maps;
    train_before = train_before window now;
    train_completed = swap_maps;
    eliminate_before = succeed;
    eliminate_completed = succeed;
    recovery_click = λ c. succeed;
    recovery_item = λ i. succeed;
    train_click = train_click;
    train_item = λ i. succeed;
    eliminate_click = λ c. succeed;
    eliminate_item = λ i. succeed;
    dump_table = dump_table pr;
    load_distribution = load_distribution;
  }
