-- ===== src/ContentBased.antt =====
-- src/core/content_based.{h,cpp}: the model, which puts the parts together. Its state is here, with
-- the methods that change it as a whole; the table of categories, the predictions and the updates
-- are in the children. The data bases and the lock file are not in the repository: they are given
-- by their operations. Locking of `kCategoryLock` is left out, and the time is the argument `now`.
pub mod Categories
pub mod Predictions
pub mod Updates
pub mod Flushing
pub mod Actions
pub mod Lines
pub mod Mixing
pub mod Ranking
pub mod Table
use content_based.Base.{
  ◌≡◌, Bool, true, false, Option, none, some, List, [], ◌∷◌, if◌then◌else◌, ℕ, ℤ, pos,
}
use content_based.Status.{Status, Run, ◌>>◌, then_run, is_ok}
use content_based.Storage.{Bytes, Storage}
use content_based.Floats.{Floats}
use content_based.Map.{Map}
use content_based.Protocol.{Protocol}
use content_based.PeriodicLog.{PeriodicLog}
use content_based.DistTable.{DistTable}
use content_based.DistTable
use content_based.NewsTrends.{NewsTrends, news_trends}
use content_based.UserInterests.{UserInterests, InterestOptions, user_interests}
use content_based.UserInterests
use Categories.{CategoryFile, load_lines, print_categories}

-- The messages of the services, as far as they are read.
pub record Action : Type 0 where
  pub user_id : ℕ
  pub item_id : ℕ
  pub action : ℤ
  pub click_time : ℤ

pub record Item : Type 0 where
  pub item_id : ℕ
  pub publish_time : ℤ
  pub category : List ℤ

-- `UserDB` and `ItemDB`. `update_action` gets the action by reference. The keys that
-- `fetch_item_belongs_to` gives are those of a `RepeatedKeyPair`.
pub record Databases (U I : Type 0) : Type 0 where
  pub user_eliminate : Run U
  pub user_flush_table : Run U
  pub user_load_table : Run U
  pub find_user_readed : ℕ → ℕ → U → Bool × ℤ
  pub update_action : Action → U → Status × (Action × U)
  pub item_eliminate : Run I
  pub item_flush_table : Run I
  pub item_load_table : Run I
  pub add_item : Item → Run I
  pub fetch_item_belongs_to : ℕ → I → Status × List ℕ

-- The options that the methods here read; `F` is `float`.
pub record Options (F : Type 0) : Type 0 where
  pub news_time_window : ℤ
  pub interests : InterestOptions F
  pub mix_alpha : F

-- `kIsInitModel`, `kIsCategoryModified` and `kCategory` are global in the source. `C` is the state
-- of the table file of the categories and of the lock file. The two logs have different prefixes,
-- so each has its own disk.
pub record ContentBased (U I C W D : Type 0) : Type 0 where
  pub is_init_model : Bool
  pub is_category_modified : Bool
  pub category : Map ℤ Bytes
  pub files : C
  pub user_db : U
  pub item_db : I
  pub news : PeriodicLog W (NewsTrends D)
  pub interests : PeriodicLog W (UserInterests D)

module _ {U I C W D : Type 0} where
  -- A call of a method of one of the parts.
  abbrev pub on_user_db : Run U → Run (ContentBased U I C W D)
  on_user_db f s = let (e, u) = f s.user_db in (e, record s { user_db = u })

  abbrev pub on_item_db : Run I → Run (ContentBased U I C W D)
  on_item_db f s = let (e, i) = f s.item_db in (e, record s { item_db = i })

  abbrev pub on_files : Run C → Run (ContentBased U I C W D)
  on_files f s = let (e, c) = f s.files in (e, record s { files = c })

  abbrev pub on_news : Run (PeriodicLog W (NewsTrends D)) → Run (ContentBased U I C W D)
  on_news f s = let (e, t) = f s.news in (e, record s { news = t })

  abbrev pub on_interests : Run (PeriodicLog W (UserInterests D)) → Run (ContentBased U I C W D)
  on_interests f s = let (e, t) = f s.interests in (e, record s { interests = t })

-- The two tables that are trained.
module _ {W : Type 0} (fl : Floats) (pr : Protocol fl.Float) (opts : Options fl.Float)
    (now : ℤ) where
  open fl use {Double, Float}

  abbrev pub news_table : DistTable W (NewsTrends Double) Float
  news_table = news_trends fl pr opts.news_time_window now

  abbrev pub interests_table : DistTable W (UserInterests Double) Float
  interests_table = user_interests fl opts.interests now

module _ {U I C W : Type 0} (fl : Floats) (db : Databases U I) (cf : CategoryFile C)
    (st : Storage W) (pr : Protocol fl.Float) (opts : Options fl.Float) (now : ℤ) where
  open fl use {Double, Float}
  open db use {
    user_eliminate, user_flush_table, user_load_table, item_eliminate, item_flush_table,
    item_load_table,
  }

  abbrev Model : Type 0
  Model = ContentBased U I C W Double

  unfoldable pub load_category : Run Model
  load_category s = elim (cf.lines s.files) [
    | none ↦ (Status.io_error, s)
    | some ls ↦ (Status.ok, record s { category = load_lines ls s.category })
  ]

  unfoldable pub rename_category : Model → Status × Model
  rename_category s =
      let (done, c) = cf.rename_temporary s.files in
      (if done then Status.ok else Status.io_error, record s { files = c })

  unfoldable pub flush_category : Run Model
  flush_category s =
      let (opened, c) = cf.create_temporary s.files in
      if opened
      then rename_category (record s {
        files = cf.write_temporary (print_categories s.category) c;
        is_category_modified = false;
      })
      else (Status.io_error, record s { files = c })

  -- The end of `flush`: where flushing a table succeeds, the method returns.
  unfoldable pub flush_items : Run Model
  flush_items = on_item_db item_eliminate >> λ s. (Status.ok, (on_item_db item_flush_table s).1)

  unfoldable pub flush_users : Run Model
  flush_users s =
      let (e, s') = on_user_db user_flush_table s in if is_ok e then (e, s') else flush_items s'

  -- The status of `flushCategory` is only logged.
  unfoldable pub flush : Run Model
  flush s =
      (on_user_db user_eliminate >> flush_users)
        (if s.is_category_modified then (flush_category s).1 else s)

  unfoldable pub train : Run Model
  train =
      on_news (DistTable.train st pr (news_table fl pr opts now))
      >> on_interests (DistTable.eliminate st pr (interests_table fl pr opts now))

  unfoldable pub rollover : Run Model
  rollover =
      on_news (DistTable.rollover st pr (news_table fl pr opts now))
      >> on_interests (DistTable.rollover st pr (interests_table fl pr opts now))

  unfoldable pub init_model : Run Model
  init_model =
      on_user_db user_load_table
      >> on_item_db item_load_table
      >> load_category
      >> on_news (DistTable.init st pr (news_table fl pr opts now))
      >> on_interests (UserInterests.init fl opts.interests st pr now)
      >> on_news (DistTable.reload st pr (news_table fl pr opts now))
      >> (λ s. (Status.ok, record s { is_init_model = true }))

  unfoldable pub reload : Run Model
  reload s =
      then_run (if s.is_init_model then (Status.ok, s) else init_model s)
        (on_interests (DistTable.reload st pr (interests_table fl pr opts now)))

  -- `openModel`, on a model that the constructor made; `none` where it is deleted.
  unfoldable pub lock : Run Model
  lock = on_files cf.create_lock >> on_files cf.lock

  -- The destructor, which also frees the parts.
  unfoldable pub close_model : Model → Model
  close_model s = record s { is_init_model = false }

  unfoldable pub open_model : Model → Status × Option Model
  open_model s0 =
      let (e, s) = lock (record s0 { is_init_model = false }) in
      if is_ok e then (let (r, s') = reload s in (r, some s')) else (e, none)
