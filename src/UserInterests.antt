-- ===== src/UserInterests.antt =====
-- src/core/user_interests.{h,cpp}: what each user clicked, and how often each category occurs. The
-- locking of `mutex_` is left out: each method is one step.
pub mod Lifecycle
pub mod Queries
pub mod Changes
pub mod Weights
pub mod Reloading
use content_based.Base.{
  ◌≡◌, ◌≢◌, ◌-◌, ◌^◌, Bool, true, false, Option, none, some, List, [], ◌∷◌, if◌then◌else◌, ℕ, ℤ,
  pos, negsuc, ◌-ℤ◌, ◌*ℤ◌, ltb_ℤ, leb_ℤ, ◌==ℤ◌,
}
use content_based.Status.{Status, Run, succeed, ◌>>◌, then_run}
use content_based.Storage.{Bytes, Storage}
use content_based.Floats.{Floats}
use content_based.Map.{Map, find, insert, insert_all, assign, int_key, nat_key}
use content_based.Protocol.{CategoryClick, CategoryItem, CategoryDistribution, ItemTag, Protocol}
use content_based.PeriodicLog.{PeriodicLog}
use content_based.DistTable.{DistTable, on_table, train_periodic_log}
use content_based.DistTable
use content_based.NewsTrends.{load_tags, seconds_per_hour}

-- `D` is `double`. The maps are separate objects, so that pointers to them are not modelled.
pub record UserInterests (D : Type 0) : Type 0 where
  pub current_day : ℤ
  pub current_dist : Map ℤ D
  pub current_user_dist : Map ℕ (Map ℤ D)
  pub user_dist_bak : Map ℕ (Map ℤ D)
  pub user_dist : Map ℕ (Map ℤ D)

-- The options that the class reads; `F` is `float`.
pub record InterestOptions (F : Type 0) : Type 0 where
  pub time_window : ℤ
  pub prior_prob_type : ℤ
  pub visual_clicks : F

abbrev pub or_empty {ℓ κ} : {K : Type ℓ} {V : Type κ} → Option (Map K V) → Map K V
or_empty none = []
or_empty (some m) = m

-- What `set_empty_key` and `set_deleted_key` reserve in each of the maps by user: such a hash map
-- may not be asked for these keys, nor be given an entry for them. The maps here are those for other
-- users; nothing is defined of a call for a user that is not `IsUserKey`.
abbrev pub empty_key : ℕ
empty_key = 0

abbrev pub deleted_key : ℕ
deleted_key = 2 ^ 64 - 1

abbrev pub IsUserKey : ℕ → Type 0
IsUserKey u = (u ≢ empty_key) × (u ≢ deleted_key)

module _ (fl : Floats) where
  open fl use {
    Double, Float, of_int, of_float, to_float, float_of_int, decimal, add, mul, div, lt, le,
  }

  unfoldable pub new_user_interests : InterestOptions Float → ℤ → UserInterests Double
  new_user_interests opts now = record {
    current_day = now -ℤ opts.time_window *ℤ seconds_per_hour;
    current_dist = [];
    current_user_dist = [];
    user_dist_bak = [];
    user_dist = [];
  }

  -- Training.

  unfoldable pub train_category : ℤ → ℤ → UserInterests Double → UserInterests Double
  train_category c count s = elim (find c s.current_dist) [
    | some v ↦ record s { current_dist = assign c (add v (of_int count)) s.current_dist }
    | none ↦ record s { current_dist = insert c (of_int count) s.current_dist }
  ]

  -- The change of one user's map; no weight falls below 0.
  unfoldable pub train_weights : ℤ → ℤ → Map ℤ Double → Map ℤ Double
  train_weights c count m = elim (find c m) [
    | some v ↦
        let v' = add v (of_int count) in
        assign c (if lt v' (of_int (pos 0)) then of_int (pos 0) else v') m
    | none ↦ insert c (of_int (if ltb_ℤ count (pos 0) then pos 0 else count)) m
  ]

  unfoldable pub train_user_category : ℕ → ℤ → ℤ → UserInterests Double → UserInterests Double
  train_user_category u c count s =
      let users = insert u [] s.current_user_dist in
      record s {
        current_user_dist = assign u (train_weights c count (or_empty (find u users))) users;
      }

  module _ (opts : InterestOptions Float) where
    unfoldable pub train_click : CategoryClick → Run (UserInterests Double)
    train_click c s =
        if ltb_ℤ s.current_day c.publish_time
        then (
          Status.ok,
          train_user_category c.user_id c.category_id (pos 1) (
              if pos 0 ==ℤ opts.prior_prob_type then train_category c.category_id (pos 1) s else s),
        )
        else (Status.ok, s)

    unfoldable pub train_item : CategoryItem → Run (UserInterests Double)
    train_item i s =
        if ltb_ℤ s.current_day i.publish_time
        then (
          Status.ok,
          if pos 1 ==ℤ opts.prior_prob_type then train_category i.category_id (pos 1) s else s,
        )
        else (Status.ok, s)

    unfoldable pub eliminate_click : CategoryClick → Run (UserInterests Double)
    eliminate_click c s =
        if leb_ℤ c.publish_time s.current_day
        then (
          Status.ok,
          train_user_category c.user_id c.category_id (negsuc 0) (
              if pos 0 ==ℤ opts.prior_prob_type
              then train_category c.category_id (negsuc 0) s
              else s),
        )
        else (Status.ok, s)

    unfoldable pub eliminate_item : CategoryItem → Run (UserInterests Double)
    eliminate_item i s =
        if leb_ℤ i.publish_time s.current_day
        then (
          Status.ok,
          if pos 1 ==ℤ opts.prior_prob_type then train_category i.category_id (negsuc 0) s else s,
        )
        else (Status.ok, s)

    unfoldable pub train_before : Run (UserInterests Double)
    train_before s = (Status.ok, record s { current_dist = []; current_user_dist = [] })

    unfoldable pub eliminate_before : ℤ → Run (UserInterests Double)
    eliminate_before now s =
        (Status.ok, record s { current_day = now -ℤ opts.time_window *ℤ seconds_per_hour })

    unfoldable pub need_eliminate : ℤ → ℤ → Bool
    need_eliminate last counter = if ltb_ℤ (last -ℤ counter) opts.time_window then false else true

    -- Reloading.

    unfoldable pub reload_before : Run (UserInterests Double)
    reload_before s = (Status.ok, record s { user_dist_bak = [] })

    unfoldable pub reload_completed : Run (UserInterests Double)
    reload_completed s =
        (Status.ok, record s { user_dist = s.user_dist_bak; user_dist_bak = s.user_dist })

    unfoldable pub load_distribution : CategoryDistribution Float → Run (UserInterests Double)
    load_distribution d s = (
      Status.ok,
      record s {
        user_dist_bak = insert d.user_id (load_tags fl d.distribution []) s.user_dist_bak;
      },
    )

    -- Queries. An output argument that keeps its value is an argument of the model.

    unfoldable pub query_current_trends : UserInterests Double → Status × Map ℤ Double
    query_current_trends s = (Status.ok, insert_all s.current_dist [])

    unfoldable pub query_user_interests : ℕ → UserInterests Double → Status × Map ℤ Double
    query_user_interests u s = elim (find u s.user_dist) [
      | none ↦ (Status.not_found, [])
      | some m ↦ (Status.ok, insert_all m [])
    ]

    -- `none` where the source reads through the end of a map.
    unfoldable pub query_category_weight :
        ℕ → ℤ → Float → UserInterests Double → Option (Status × Float)
    query_category_weight u c weight s = elim (find u s.user_dist) [
      | none ↦ some (Status.not_found, weight)
      | some m ↦ elim (find c m) [ some v ↦ some (Status.not_found, weight) | none ↦ none ]
    ]

    unfoldable pub sum_weights : Double → Map ℤ Double → Double
    sum_weights total [] = total
    sum_weights total ((c, v) ∷ m) = sum_weights (add total v) m

    -- A total that is not positive is replaced by `1.0f`.
    unfoldable pub usable_total : Map ℤ Double → Double
    usable_total m =
        let total = sum_weights (decimal (pos 0) 1) m in
        if le total (decimal (pos 0) 1) then of_float (float_of_int (pos 1)) else total

    unfoldable pub interest : Double → Double → Option Double → Option Double → Double
    interest user_total prior_total prior user =
        let g = of_float opts.visual_clicks in
        let one = decimal (pos 10) 1 in
        let unknown = div (mul g one) (add user_total g) in
        elim prior [
          | none ↦ unknown
          | some p ↦ elim user [
            | none ↦ unknown
            | some v ↦
                let pt_c_click = div (mul v one) user_total in
                let pt_c = div (mul p one) prior_total in
                let pu = mul user_total (div pt_c_click pt_c) in div (add pu g) (add user_total g)
          ]
        ]

    -- The loop over the table of categories, whose names are of type `N`.
    unfoldable pub interests_of :
        {N : Type 0}
        → (Option Double → Option Double → Double)
        → Map ℤ Double
        → Map ℤ Double
        → Map ℤ N
        → Map ℤ Double
        → Map ℤ Double
    interests_of f prior user [] trends = trends
    interests_of f prior user ((c, name) ∷ cats) trends =
        interests_of f prior user cats (insert c (f (find c prior) (find c user)) trends)

    unfoldable pub query_user_current_interests :
        {N : Type 0} → ℕ → Map ℤ N → UserInterests Double → Status × Map ℤ Double
    query_user_current_interests u cats s = elim (find u s.current_user_dist) [
      | none ↦ (Status.not_found, [])
      | some m ↦ (
        Status.ok,
        interests_of (interest (usable_total m) (usable_total s.current_dist)) s.current_dist m cats
            [],
      )
    ]

    -- The class, with what it inherits from `DistTable`; `now` is what `time(NULL)` gives.
    unfoldable pub user_interests : {W : Type 0} → ℤ → DistTable W (UserInterests Double) Float
    user_interests now = record {
      time_window_size = opts.time_window;
      need_eliminate = λ s. need_eliminate;
      reload_before = reload_before;
      reload_completed = reload_completed;
      train_before = train_before;
      train_completed = succeed;
      eliminate_before = eliminate_before now;
      eliminate_completed = succeed;
      recovery_click = train_click;
      recovery_item = train_item;
      train_click = train_click;
      train_item = train_item;
      eliminate_click = eliminate_click;
      eliminate_item = eliminate_item;
      dump_table = λ write. succeed;
      load_distribution = load_distribution;
    }

    module _ {W : Type 0} (st : Storage W) (pr : Protocol Float) (now : ℤ) where
      abbrev Object : Type 0
      Object = PeriodicLog W (UserInterests Double)

      unfoldable pub train : Run Object
      train =
          on_table st pr (user_interests now) train_before
          >> train_periodic_log st pr (user_interests now)
          >> on_table st pr (user_interests now) succeed

      unfoldable pub init : Run Object
      init = DistTable.init st pr (user_interests now) >> train

      -- What `recoveryItem` and `recoveryClick` return is dropped.
      unfoldable pub add_item : CategoryItem → Run Object
      add_item i t =
          DistTable.add_item st pr (user_interests now) i
            (record t { target = (train_item i t.target).1 })

      unfoldable pub add_click : CategoryClick → Run Object
      add_click c t =
          DistTable.add_click st pr (user_interests now) c
            (record t { target = (train_click c t.target).1 })
