-- ===== src/ModelOptions.antt =====
-- src/core/model_options.{h,cpp}: the options and how they are read from a configuration file. The
-- parser is libconfig, and the options of the data bases, the base class, have their own reader:
-- both are arguments.
pub mod Reading
use Prim.Native.String.{String}
use Prim.Native.Char.{code}
use content_based.Base.{ℕ, Option, none, some, List, [], ◌∷◌, ℤ, pos}
use content_based.Status.{Status, then_run}
use content_based.Storage.{Bytes}
use content_based.Floats.{Floats}

abbrev pub codes : String → Bytes
codes String.[] = []
codes (String.◌∷◌ c s) = code c ∷ codes s

-- `F` is `float`, and `B` the base class.
pub record ModelOptions (F B : Type 0) : Type 0 where
  pub base : B
  pub rpc_port : ℤ
  pub monitor_port : ℤ
  pub marshaler_r1 : F
  pub marshaler_r2 : F
  pub marshaler_topt : ℤ
  pub marshaler_p : ℤ
  pub marshaler_n : ℤ
  pub flush_timer : Bytes
  pub train_timer : Bytes
  pub rollover_timer : Bytes
  pub reload_timer : Bytes
  pub category_table_name : Bytes
  pub news_trends_table_name : Bytes
  pub news_trends_log_prefix : Bytes
  pub news_trends_time_window : ℤ
  pub user_interests_prior_prob_type : ℤ
  pub user_interests_visual_clicks : F
  pub user_interests_table_name : Bytes
  pub user_interests_log_prefix : Bytes
  pub user_interests_time_window : ℤ
  pub user_interests_mix_alpha : F

-- `lookupValue`, for the types of the settings: nothing where it returns false.
pub record Config (F : Type 0) : Type 0 where
  pub lookup_int : String → Option ℤ
  pub lookup_float : String → Option F
  pub lookup_string : String → Option Bytes

-- What `readFile` does: it may throw `FileIOException` or `ParseException`.
pub data ConfigFile (F : Type 0) : Type 0 where
  parsed : Config F → ConfigFile F
  file_io_exception : ConfigFile F
  parse_exception : ConfigFile F

abbrev pub or_default {ℓ} : {A : Type ℓ} → Option A → A → A
or_default none d = d
or_default (some a) d = a

-- `marshaler_r1` after its own setting and that of `marshaler_r2` have been looked up: where the
-- latter is missing, the former is assigned.
abbrev pub read_r1 : (fl : Floats) → Option fl.Float → Option fl.Float → fl.Float
read_r1 fl r1 (some r2) = or_default r1 (fl.to_float (fl.decimal (pos 4) 1))
read_r1 fl r1 none = fl.to_float (fl.decimal (pos 6) 1)

-- `user_interests_log_prefix` likewise; a missing time window assigns it the character 24.
abbrev pub read_log_prefix : Option Bytes → Option ℤ → Bytes
read_log_prefix prefix (some window) = or_default prefix (codes "user-interests")
read_log_prefix prefix none = 24 ∷ []

module _ (fl : Floats) {B : Type 0} where
  open fl use {Float, decimal, to_float}

  -- The constructor.
  unfoldable pub default_options : B → ModelOptions Float B
  default_options b = record {
    base = b;
    rpc_port = pos 6100;
    monitor_port = pos 16100;
    marshaler_r1 = to_float (decimal (pos 4) 1);
    marshaler_r2 = to_float (decimal (pos 6) 1);
    marshaler_topt = pos 3;
    marshaler_p = pos 4;
    marshaler_n = pos 2;
    flush_timer = codes "23/day";
    train_timer = codes "50/hour";
    rollover_timer = codes "30/hour";
    reload_timer = codes "23/day";
    category_table_name = codes "category.dat";
    news_trends_table_name = codes "news-trends.dat";
    news_trends_log_prefix = codes "news-trends";
    news_trends_time_window = pos 48;
    user_interests_prior_prob_type = pos 0;
    user_interests_visual_clicks = to_float (decimal (pos 10) 0);
    user_interests_table_name = codes "user-interests.dat";
    user_interests_log_prefix = codes "user-interests";
    user_interests_time_window = pos 24;
    user_interests_mix_alpha = to_float (decimal (pos 7) 1);
  }

  -- The lookups, in the order of the source where one setting touches two options.
  unfoldable pub read_settings : Config Float → ModelOptions Float B → ModelOptions Float B
  read_settings c o = record o {
    rpc_port = or_default (int "rpc_port") (pos 6100);
    monitor_port = or_default (int "monitor_port") (pos 16100);
    marshaler_r1 = read_r1 fl (float "marshaler_r1") (float "marshaler_r2");
    marshaler_r2 = or_default (float "marshaler_r2") o.marshaler_r2;
    marshaler_topt = or_default (int "marshaler_topt") (pos 3);
    marshaler_p = or_default (int "marshaler_p") (pos 4);
    marshaler_n = or_default (int "marshaler_n") (pos 3);
    flush_timer = or_default (text "flush_timer") (codes "23/day");
    train_timer = or_default (text "train_timer") (codes "50/hour");
    rollover_timer = or_default (text "rollover_timer") (codes "30/hour");
    reload_timer = or_default (text "reload_timer") (codes "23/day");
    category_table_name = or_default (text "category_table_name") (codes "category.dat");
    news_trends_table_name = or_default (text "news_trends_table_name") (codes "news-trends.dat");
    news_trends_log_prefix = or_default (text "news_trends_log_prefix") (codes "news-trends");
    news_trends_time_window = or_default (int "news_trends_time_window") (pos 48);
    user_interests_prior_prob_type = or_default (int "user_interests_prior_prob_type") (pos 0);
    user_interests_visual_clicks =
        or_default (float "user_interests_visual_clicks") (to_float (decimal (pos 10) 0));
    user_interests_table_name =
        or_default (text "user_interests_table_name") (codes "user-interests.dat");
    user_interests_log_prefix =
        read_log_prefix (text "user_interests_log_prefix") (int "user_interests_time_window");
    user_interests_time_window =
        or_default (int "user_interests_time_window") o.user_interests_time_window;
    user_interests_mix_alpha =
        or_default (float "user_interests_mix_alpha") (to_float (decimal (pos 7) 1));
  }
    where
      open c use {lookup_int as int, lookup_float as float, lookup_string as text}

  -- `fromConf`; `base_from_conf` is `Options::fromConf`, which changes the base class.
  unfoldable pub from_conf :
      (B → Status × B) → ConfigFile Float → ModelOptions Float B → Status × ModelOptions Float B
  from_conf base_from_conf file o =
      let (e, b) = base_from_conf o.base in
      then_run (e, record o { base = b })
        (λ q. elim file [
          | parsed c ↦ (Status.ok, read_settings c q)
          | file_io_exception ↦ (Status.io_error, q)
          | parse_exception ↦ (Status.corruption, q)
        ])
