-- ===== src/Examples/Models.antt =====
-- The theorems on the model and its options.
use content_based.Base.{
  suc, ◌≡◌, refl, true, false, none, some, List, [], ◌∷◌, ℕ, ℤ, pos, ◌-ℤ◌, ◌*ℤ◌, arith,
}
use content_based.Status.{Status}
use content_based.Storage.{Bytes}
use content_based.Storage.Memory.{Disk, memory, memory-IsReliable, put}
use content_based.DistTable
use content_based.NewsTrends.{NewsTrends, seconds_per_hour}
use content_based.ModelOptions.{ModelOptions, Config, parsed, default_options, from_conf}
use content_based.ModelOptions.Reading.{from_conf-empty}
use content_based.ContentBased.{ContentBased, Databases, Options, Action, flush, train, news_table}
use content_based.ContentBased.Categories.{CategoryFile, parse_line, print_line}
use content_based.ContentBased.Flushing.{flush_lem, train_lem}
use content_based.ContentBased.Predictions.{TypeId}
use content_based.ContentBased.Predictions.{predict_distribution, long_term_id}
use content_based.Map.{Map, find, int_key, nat_key}
use content_based.NewsTrends.{query_current_trends}
use content_based.UserInterests.{query_user_interests, query_user_current_interests}
use content_based.ContentBased.Table.{IsKeptTable, fgets_lines, load_category-flush_category}
use content_based.ContentBased.{load_category, flush_category}
use content_based.ContentBased.Mixing.{power_in, expected_power, power_in-predict_distribution}
use content_based.ServiceGrpc.{GrpcCode, query_interests, query_interests-responds}
use content_based.ContentBased.Mixing.{power_in}
use content_based.ContentBased.Predictions.{narrowed}
use content_based.ContentBased.Updates.{ActionTypes, update_action}
use content_based.ContentBased.Actions.{IsLogged, category_clicks, update_action-IsLogged}
use content_based.Storage.{LogFile}
use content_based.Examples.{int_floats, listing, empty_disk}

-- Data bases that count their calls.
abbrev databases : Databases ℕ ℕ
databases = record {
  user_eliminate = λ u. (Status.ok, suc u);
  user_flush_table = λ u. (Status.ok, suc u);
  user_load_table = λ u. (Status.ok, u);
  find_user_readed = λ u i d. (false, pos 0);
  update_action = λ a u. (Status.ok, (a, suc u));
  item_eliminate = λ i. (Status.ok, suc i);
  item_flush_table = λ i. (Status.ok, suc i);
  item_load_table = λ i. (Status.ok, i);
  add_item = λ item i. (Status.ok, suc i);
  fetch_item_belongs_to = λ item i. (Status.ok, 3 ∷ []);
}

abbrev files : CategoryFile (List Bytes)
files = record {
  lines = λ c. some c;
  create_temporary = λ c. (true, c);
  write_temporary = λ b c. b ∷ c;
  rename_temporary = λ c. (true, c);
  create_lock = λ c. (Status.ok, c);
  lock = λ c. (Status.ok, c);
}

abbrev options : Options ℤ
options = record {
  news_time_window = pos 1;
  interests = record { time_window = pos 1; prior_prob_type = pos 0; visual_clicks = pos 10 };
  mix_alpha = pos 1;
}

abbrev model : ContentBased ℕ ℕ (List Bytes) Disk ℤ
model = record {
  is_init_model = true;
  is_category_modified = true;
  category = [];
  files = [];
  user_db = 0;
  item_db = 0;
  news = record {
    last_counter = pos 0;
    has_writer = true;
    disk = empty_disk;
    target = record { click_expired = pos 0; map_dist_training = []; map_dist = [] };
  };
  interests = record {
    last_counter = pos 0;
    has_writer = true;
    disk = empty_disk;
    target = record {
      current_day = pos 0;
      current_dist = [];
      current_user_dist = [];
      user_dist_bak = [];
      user_dist = [];
    };
  };
}

flush_lem_example :
    let r = flush int_floats databases files memory listing options (pos 100000) model in
    (Status.ok ≡ Status.ok → (r.0 ≡ Status.ok) × (r.1.item_db ≡ 0))
    × (true ≡ false → Status.ok ≡ Status.ok → (r.0 ≡ Status.ok) × (r.1.item_db ≡ 2))
flush_lem_example =
    flush_lem int_floats databases files memory listing options (pos 100000) model refl

train_lem_example : train int_floats databases files memory listing options (pos 100000) model ≡ (
  Status.ok,
  record model {
    news =
        (DistTable.train memory listing
          (news_table int_floats listing options (pos 100000))
          model.news).1;
    interests = record (model.interests) {
      target = record (model.interests.target) {
        current_day = pos 100000 -ℤ pos 1 *ℤ seconds_per_hour;
      };
    };
  },
)
unfolding DistTable.train content_based.NewsTrends.news_trends content_based.NewsTrends.train_before
    DistTable.train_periodic_log DistTable.dump content_based.NewsTrends.dump_table
    content_based.NewsTrends.swap_maps DistTable.replace_table
train_lem_example =
    train_lem int_floats databases files memory listing options (pos 100000) model refl

abbrev type_ids : TypeId
type_ids = record { type_of = λ k. 1; id_of = λ k. pos k; idtype_category = 1 }

abbrev action_types : ActionTypes
action_types = record {
  click = pos 1;
  like = pos 2;
  comment = pos 3;
  favorite = pos 4;
  share = pos 5;
}

abbrev action : Action
action = record { user_id = 7; item_id = 9; action = pos 2; click_time = pos 99000 }

-- The logs of both tables have a header.
abbrev logging : ContentBased ℕ ℕ (List Bytes) Disk ℤ
logging = record model {
  news = record (model.news) { disk = put LogFile.writing (some ((b'0' ∷ []) ∷ [])) empty_disk };
  interests = record (model.interests) {
    disk = put LogFile.writing (some ((b'4' ∷ []) ∷ [])) empty_disk;
  };
}

update_action-IsLogged_example :
    IsLogged int_floats databases type_ids action_types memory memory-IsReliable listing options
      (pos 100000)
      (category_clicks type_ids 7 (pos 99000) (3 ∷ []))
      ((b'0' ∷ []) ∷ [])
      ((b'4' ∷ []) ∷ [])
      (update_action int_floats databases type_ids action_types memory listing options
        (pos 100000)
        action
        logging).1
unfolding update_action content_based.ContentBased.Updates.record_action
    content_based.ContentBased.Updates.click_item content_based.ContentBased.Updates.add_clicks
    content_based.ContentBased.Updates.add_click DistTable.add_click DistTable.log_message
    content_based.PeriodicLog.write content_based.UserInterests.add_click
update_action-IsLogged_example =
    update_action-IsLogged int_floats databases type_ids action_types memory memory-IsReliable
      listing options (pos 100000) action logging ((b'0' ∷ []) ∷ []) ((b'4' ∷ []) ∷ []) refl refl
      refl refl refl

-- A configuration file without settings.
abbrev empty_config : Config ℤ
empty_config = record {
  lookup_int = λ k. none;
  lookup_float = λ k. none;
  lookup_string = λ k. none;
}

abbrev base_from_conf : ℕ → Status × ℕ
base_from_conf b = (Status.ok, suc b)

from_conf-empty_example :
    from_conf int_floats base_from_conf (parsed empty_config) (default_options int_floats 0) ≡ (
      Status.ok,
      record (default_options int_floats 1) {
        marshaler_r1 = int_floats.to_float (int_floats.decimal (pos 6) 1);
        marshaler_n = pos 3;
        user_interests_log_prefix = 24 ∷ [];
      },
    )
from_conf-empty_example =
    from_conf-empty int_floats base_from_conf empty_config 0 (λ k. refl) (λ k. refl) (λ k. refl)
      refl

abbrev defaults : ModelOptions ℤ ℕ
unfolding default_options
defaults = default_options int_floats 0

-- A model that knows three categories, the news trends of two, and one user.
abbrev known : ContentBased ℕ ℕ (List Bytes) Disk ℤ
known = record model {
  category = (pos 3, b'a' ∷ []) ∷ (pos 5, b'b' ∷ []) ∷ (pos 6, b'c' ∷ []) ∷ [];
  news = record (model.news) {
    target = record (model.news.target) { map_dist = (pos 3, pos 2) ∷ (pos 5, pos 7) ∷ [] };
  };
  interests = record (model.interests) {
    target = record (model.interests.target) {
      user_dist = (7, (pos 3, pos 4) ∷ (pos 6, pos 9) ∷ []) ∷ [];
    };
  };
}

power_in-predict_distribution_example :
    power_in int_floats (pos 6) (predict_distribution int_floats options 7 known).1
    ≡ expected_power int_floats
        (pos 1)
        (some (b'c' ∷ []))
        (pos 6)
        (query_user_interests int_floats options.interests
          (long_term_id int_floats 7)
          known.interests.target).1
        (query_user_current_interests int_floats options.interests 7 known.category
          known.interests.target).1
        (query_current_trends int_floats known.news.target).1
unfolding find
power_in-predict_distribution_example =
    power_in-predict_distribution int_floats options 7 known (pos 6)

query_interests-responds_example :
    ((find 7 known.interests.target.user_dist ≡ none)
      → query_interests int_floats options 7 [] known ≡ (GrpcCode.grpc_not_found, []))
    × ((m : Map ℤ ℤ)
        → find 7 known.interests.target.user_dist ≡ some m
        → ((query_interests int_floats options 7 [] known).0 ≡ GrpcCode.grpc_ok)
          × (power_in int_floats (pos 6) (query_interests int_floats options 7 [] known).1
              ≡ narrowed int_floats (find (pos 6) m)))
query_interests-responds_example = query_interests-responds int_floats options 7 known (pos 6)

-- A table file and its temporary file, in memory.
abbrev table_files : CategoryFile (Bytes × Bytes)
table_files = record {
  lines = λ c. some (fgets_lines 1021 [] c.0);
  create_temporary = λ c. (true, (c.0, []));
  write_temporary = λ b c. (c.0, b);
  rename_temporary = λ c. (true, (c.1, []));
  create_lock = λ c. (Status.ok, c);
  lock = λ c. (Status.ok, c);
}

table_files-IsKeptTable : IsKeptTable table_files
table_files-IsKeptTable = record { reads_back = λ b c zeros opened renamed. refl }

abbrev two_categories : ContentBased ℕ ℕ (Bytes × Bytes) Disk ℤ
two_categories = record {
  is_init_model = true;
  is_category_modified = true;
  category = (pos 3, b'a' ∷ []) ∷ (pos 15, b'b' ∷ b' ' ∷ b'c' ∷ []) ∷ [];
  files = ([], []);
  user_db = 0;
  item_db = 0;
  news = model.news;
  interests = model.interests;
}

load_category-flush_category_example :
    let flushed =
      (flush_category int_floats databases table_files memory listing options
        (pos 0)
        two_categories).1 in
    load_category int_floats databases table_files memory listing options
      (pos 0)
      (record flushed { category = [] })
    ≡ (Status.ok, flushed)
unfolding flush_category content_based.ContentBased.rename_category
    content_based.ContentBased.Categories.print_line content_based.PeriodicLog.Decimal.sprintf_d
    content_based.ContentBased.Categories.strip_end
load_category-flush_category_example =
    load_category-flush_category int_floats databases table_files table_files-IsKeptTable memory
      listing options (pos 0) two_categories ((refl, tt), (tt, tt))
      (
        record {
          id = 3;
          is_id = refl;
          stripped = refl;
          in_line = ((refl, refl), tt);
          short = omega arith;
        },
        (
          record {
            id = 15;
            is_id = refl;
            stripped = refl;
            in_line = ((refl, refl), ((refl, refl), ((refl, refl), tt)));
            short = omega arith;
          },
          tt,
        ),
      )
      refl
