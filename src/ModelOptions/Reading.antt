-- ===== src/ModelOptions/Reading.antt =====
-- What `fromConf` makes of files that leave settings out.
use Prim.Native.String.{String}
use content_based.Base.{◌≡◌, none, [], ◌∷◌, pos}
use content_based.Status.{Status}
use content_based.Floats.{Floats}
use content_based.ModelOptions.{Config, parsed, default_options, read_settings, from_conf}

module _ (fl : Floats) {B : Type 0} (base_from_conf : B → Status × B) where
  open fl use {Float, decimal, to_float}

  -- If the base class is read well, a file without any setting gives the options of the constructor, except for three: `marshaler_r1`
  -- becomes 0.6, `marshaler_n` 3, and the log prefix of the user interests the character 24.
  pub from_conf-empty :
      (c : Config Float) (b : B)
      → ((k : String) → c.lookup_int k ≡ none)
      → ((k : String) → c.lookup_float k ≡ none)
      → ((k : String) → c.lookup_string k ≡ none)
      → (base_from_conf b).0 ≡ Status.ok
      → from_conf fl base_from_conf (parsed c) (default_options fl b) ≡ (
        Status.ok,
        record (default_options fl ((base_from_conf b).1)) {
          marshaler_r1 = to_float (decimal (pos 6) 1);
          marshaler_n = pos 3;
          user_interests_log_prefix = 24 ∷ [];
        },
      )
  unfolding from_conf read_settings default_options
  from_conf-empty c b i f t e =
      rw (e, from_conf)
        (rw (
          i "rpc_port",
          i "monitor_port",
          f "marshaler_r1",
          f "marshaler_r2",
          i "marshaler_topt",
          i "marshaler_p",
          i "marshaler_n",
          t "flush_timer",
          t "train_timer",
          t "rollover_timer",
          t "reload_timer",
          t "category_table_name",
          t "news_trends_table_name",
          t "news_trends_log_prefix",
          i "news_trends_time_window",
          i "user_interests_prior_prob_type",
          f "user_interests_visual_clicks",
          t "user_interests_table_name",
          t "user_interests_log_prefix",
          i "user_interests_time_window",
          f "user_interests_mix_alpha",
        ))
