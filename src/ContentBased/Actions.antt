-- ===== src/ContentBased/Actions.antt =====
-- Which actions of users the model takes in, and what becomes of them.
use mathlib.Core.List.{append-nil, append_assoc}
use content_based.Base.{
  ◌≡◌, refl, sym, ap, ◌∙◌, true, false, inl, inr, Option, none, some, List, [], ◌∷◌, ◌++◌,
  if◌then◌else◌, ℕ, ℤ, Bool-cases, ◌==◌,
}
use content_based.Status.{Status, is_ok, then_run-ok}
use content_based.Storage.{Bytes, Storage, LogFile, IsReliable}
use content_based.Floats.{Floats}
use content_based.Protocol.{Protocol, CategoryClick}
use content_based.DistTable.{log_type_click}
use content_based.DistTable
use content_based.DistTable.Logging.{Event, clicked, HoldAll, HoldAll-append, log_message-IsLogged}
use content_based.UserInterests
use content_based.ContentBased.{
  ContentBased, Databases, Options, Action, news_table, interests_table, on_news, on_interests,
}
use content_based.ContentBased.Predictions.{TypeId}
use content_based.ContentBased.Updates.{
  ActionTypes, is_counted, is_readed, update_action, record_action, click_item, add_clicks,
  add_click,
}

-- What the tables are to be told of an action: a click for each category among the keys.
unfoldable pub category_clicks : TypeId → ℕ → ℤ → List ℕ → List Event
category_clicks ids u time [] = []
category_clicks ids u time (key ∷ keys) =
    let rest = category_clicks ids u time keys in
    if ids.type_of key == ids.idtype_category
    then clicked (record { user_id = u; category_id = ids.id_of key; publish_time = time }) ∷ rest
    else rest

abbrev bytes_of : Option Bytes → Bytes
bytes_of none = []
bytes_of (some b) = b

module _ {U I C W : Type 0} (fl : Floats) (db : Databases U I) (ids : TypeId) (kinds : ActionTypes)
    (st : Storage W) (reliable : IsReliable st) (pr : Protocol fl.Float) (opts : Options fl.Float)
    (now : ℤ) where
  open fl use {Double, Float}
  open reliable use {records}

  -- Both tables have logged the same records, which hold the events.
  pub record IsLogged (es : List Event) (ns is : List Bytes) (s : ContentBased U I C W Double)
      : Type 0 where
    pub added : List Bytes
    pub held : HoldAll pr added es
    pub in_news : records LogFile.writing s.news.disk ≡ some (ns ++ added)
    pub in_interests : records LogFile.writing s.interests.disk ≡ some (is ++ added)

  add_click-IsLogged :
      (click : CategoryClick) (s : ContentBased U I C W Double) (ns is : List Bytes)
      → records LogFile.writing s.news.disk ≡ some ns
      → records LogFile.writing s.interests.disk ≡ some is
      → (add_click fl db ids kinds st pr opts now click s).0 ≡ Status.ok
      → IsLogged (clicked click ∷ []) ns is (add_click fl db ids kinds st pr opts now click s).1
  unfolding add_click DistTable.add_click UserInterests.add_click
  add_click-IsLogged click s ns is n i h =
      let news = DistTable.add_click st pr (news_table fl pr opts now) click in
      let interests = UserInterests.add_click fl opts.interests st pr now click in
      let (first, later) = then_run-ok (on_news news s) (on_interests interests) h in
      let second : (interests s.interests).0 ≡ Status.ok = sym (ap (λ r. r.0) later) ∙ h in
      let (b, m, w, _) =
        log_message-IsLogged st reliable pr (news_table fl pr opts now) log_type_click
          (pr.encode_click click) ns s.news n first in
      let (b', m', w', _) =
        log_message-IsLogged st reliable pr (interests_table fl pr opts now) log_type_click
          (pr.encode_click click) is _ i second in
      let same : b' ≡ b = ap bytes_of (sym m' ∙ m) in
      rw later (record {
        added = (log_type_click ∷ b) ∷ [];
        held = ((b, m, refl), tt);
        in_news = w;
        in_interests = w' ∙ ap (λ d. some (is ++ (log_type_click ∷ d) ∷ [])) same;
      })

  IsLogged-append :
      (es fs : List Event) (ns is : List Bytes) (s s' : ContentBased U I C W Double)
      → (one : IsLogged es ns is s) → IsLogged fs (ns ++ one.added) (is ++ one.added) s'
      → IsLogged (es ++ fs) ns is s'
  IsLogged-append es fs ns is s s' one two = record {
    added = one.added ++ two.added;
    held = HoldAll-append pr one.added two.added es fs one.held two.held;
    in_news = two.in_news ∙ ap some (append_assoc ns one.added two.added);
    in_interests = two.in_interests ∙ ap some (append_assoc is one.added two.added);
  }

  add_clicks-IsLogged :
      (u : ℕ) (time : ℤ) (keys : List ℕ) (s : ContentBased U I C W Double) (ns is : List Bytes)
      → records LogFile.writing s.news.disk ≡ some ns
      → records LogFile.writing s.interests.disk ≡ some is
      → (add_clicks fl db ids kinds st pr opts now u time keys s).0 ≡ Status.ok
      → IsLogged
          (category_clicks ids u time keys)
          ns
          is
          (add_clicks fl db ids kinds st pr opts now u time keys s).1
  unfolding add_clicks category_clicks
  add_clicks-IsLogged u time [] s ns is n i = λ h. record {
    added = [];
    held = tt;
    in_news = rw (append-nil ns) n;
    in_interests = rw (append-nil is) i;
  }
  add_clicks-IsLogged u time (key ∷ keys) s ns is n i =
      elim (Bool-cases (ids.type_of key == ids.idtype_category)) [
        | inl e ↦ rw e λ h.
            let click : CategoryClick = record {
              user_id = u;
              category_id = ids.id_of key;
              publish_time = time;
            } in
            let told = add_click fl db ids kinds st pr opts now click in
            let (first, later) =
              then_run-ok (told s) (add_clicks fl db ids kinds st pr opts now u time keys) h in
            let one = add_click-IsLogged click s ns is n i first in
            rw later (
              IsLogged-append (clicked click ∷ []) (category_clicks ids u time keys) ns is _ _ one (
                add_clicks-IsLogged u time keys (told s).1 (ns ++ one.added) (is ++ one.added)
                  one.in_news one.in_interests (sym (ap (λ r. r.0) later) ∙ h)))
        | inr e ↦ rw e (add_clicks-IsLogged u time keys s ns is n i)
      ]

  click_item-IsLogged :
      (a : Action) (s : ContentBased U I C W Double) (ns is : List Bytes)
      → records LogFile.writing s.news.disk ≡ some ns
      → records LogFile.writing s.interests.disk ≡ some is
      → (click_item fl db ids kinds st pr opts now a s).0 ≡ Status.ok
      → IsLogged
          (category_clicks ids a.user_id a.click_time
            (db.fetch_item_belongs_to a.item_id s.item_db).1)
          ns
          is
          (click_item fl db ids kinds st pr opts now a s).1
  unfolding click_item
  click_item-IsLogged a s ns is n i =
      elim (Bool-cases (is_ok (db.fetch_item_belongs_to a.item_id s.item_db).0)) [
        | inl found ↦ rw found λ ok. add_clicks-IsLogged a.user_id a.click_time _ s ns is n i ok
        | inr missing ↦ rw missing λ ok. absurd (not_ok missing ok)
      ]
    where
      not_ok : {e : Status} → is_ok e ≡ false → e ≡ Status.ok → ⊥
      not_ok f g = cc (ap is_ok g)

  -- An action of a kind that counts, on an item that the user has not read, for which
  -- `updateAction` succeeds, is logged in full: for each category of the item, and in the same
  -- order, the logs of the news trends and of the users' interests both end with a record of a
  -- click, the same in the two, and hold no other new record.
  pub update_action-IsLogged :
      (a : Action) (s : ContentBased U I C W Double) (ns is : List Bytes)
      → records LogFile.writing s.news.disk ≡ some ns
      → records LogFile.writing s.interests.disk ≡ some is
      → is_counted kinds a.action ≡ true
      → is_readed (db.find_user_readed a.user_id a.item_id s.user_db) ≡ false
      → (update_action fl db ids kinds st pr opts now a s).0 ≡ Status.ok
      → let a' = (db.update_action a s.user_db).1.0 in
        IsLogged
          (category_clicks ids a'.user_id a'.click_time
            (db.fetch_item_belongs_to a'.item_id s.item_db).1)
          ns
          is
          (update_action fl db ids kinds st pr opts now a s).1
  unfolding update_action record_action
  update_action-IsLogged a s ns is n i counted fresh =
      rw (counted, fresh, update_action)
        λ h.
          let (e, (a', u)) = db.update_action a s.user_db in
          let s' = record s { user_db = u } in
          let (_, later) = then_run-ok (e, s') (click_item fl db ids kinds st pr opts now a') h in
          rw later (click_item-IsLogged a' s' ns is n i (sym (ap (λ r. r.0) later) ∙ h))
