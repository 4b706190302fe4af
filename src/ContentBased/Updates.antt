-- ===== src/ContentBased/Updates.antt =====
-- src/core/content_based.cpp: what the model does with an action of a user and with a new item.
use content_based.Base.{
  Bool, ◌||◌, ◌&&◌, List, [], ◌∷◌, if◌then◌else◌, ℕ, ℤ, pos, ltb_ℤ, ◌==◌, ◌==ℤ◌,
}
use content_based.Status.{Status, Run, ◌>>◌, then_run, is_ok}
use content_based.Storage.{Storage}
use content_based.Floats.{Floats}
use content_based.Protocol.{CategoryClick, Protocol}
use content_based.DistTable
use content_based.UserInterests
use content_based.ContentBased.{
  ContentBased, Databases, Options, Action, Item, news_table, on_item_db, on_news, on_interests,
}
use content_based.ContentBased.Predictions.{TypeId}

-- The constants `ACTION_TYPE_CLICK` to `ACTION_TYPE_SHARE`, which are not in the repository.
pub record ActionTypes : Type 0 where
  pub click : ℤ
  pub like : ℤ
  pub comment : ℤ
  pub favorite : ℤ
  pub share : ℤ

abbrev pub is_counted : ActionTypes → ℤ → Bool
is_counted k a =
    (a ==ℤ k.click) || (a ==ℤ k.like) || (a ==ℤ k.comment) || (a ==ℤ k.favorite) || (a ==ℤ k.share)

-- The item has been read before.
abbrev pub is_readed : Bool × ℤ → Bool
is_readed (found, last_modified) = found && ltb_ℤ (pos 0) last_modified

module _ {U I C W : Type 0} (fl : Floats) (db : Databases U I) (ids : TypeId) (kinds : ActionTypes)
    (st : Storage W) (pr : Protocol fl.Float) (opts : Options fl.Float) (now : ℤ) where
  open fl use {Double, Float}

  unfoldable pub add_click : CategoryClick → Run (ContentBased U I C W Double)
  add_click click =
      on_news (DistTable.add_click st pr (news_table fl pr opts now) click)
      >> on_interests (UserInterests.add_click fl opts.interests st pr now click)

  -- The loop over the keys of the item.
  unfoldable pub add_clicks : ℕ → ℤ → List ℕ → Run (ContentBased U I C W Double)
  add_clicks u time [] s = (Status.ok, s)
  add_clicks u time (key ∷ keys) s =
      let click : CategoryClick = record {
        user_id = u;
        category_id = ids.id_of key;
        publish_time = time;
      } in
      then_run
        (if ids.type_of key == ids.idtype_category then add_click click s else (Status.ok, s))
        (add_clicks u time keys)

  -- From `fetchItemBelongsTo` on.
  unfoldable pub click_item : Action → Run (ContentBased U I C W Double)
  click_item action s =
      let (e, keys) = db.fetch_item_belongs_to action.item_id s.item_db in
      if is_ok e then add_clicks action.user_id action.click_time keys s else (e, s)

  unfoldable pub record_action : Action → Run (ContentBased U I C W Double)
  record_action action s =
      let (e, (action', u)) = db.update_action action s.user_db in
      then_run (e, record s { user_db = u }) (click_item action')

  unfoldable pub update_action : Action → Run (ContentBased U I C W Double)
  update_action action s =
      if is_counted kinds action.action
      then if is_readed (db.find_user_readed action.user_id action.item_id s.user_db)
        then (Status.ok, s)
        else record_action action s
      else (Status.ok, s)

  unfoldable pub add_items : ℕ → ℤ → List ℤ → Run (ContentBased U I C W Double)
  add_items item time [] s = (Status.ok, s)
  add_items item time (c ∷ cs) s =
      then_run
        (on_interests
          (UserInterests.add_item fl opts.interests st pr now
            (record { item_id = item; category_id = c; publish_time = time }))
          s)
        (add_items item time cs)

  unfoldable pub update_item : Item → Run (ContentBased U I C W Double)
  update_item item =
      on_item_db (db.add_item item) >> add_items item.item_id item.publish_time item.category
