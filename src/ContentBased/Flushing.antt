-- ===== src/ContentBased/Flushing.antt =====
-- What the timers of the service set off: `flush` and `train`.
use content_based.Base.{arith, ◌≡◌, refl, ap, ◌∙◌, Bool, true, false, if◌then◌else◌, ℤ, ◌-ℤ◌, ◌*ℤ◌}
use content_based.Status.{Status, is_ok, then_run_goes_on}
use content_based.Storage.{Storage}
use content_based.Floats.{Floats}
use content_based.Protocol.{Protocol}
use content_based.DistTable
use content_based.NewsTrends.{seconds_per_hour}
use content_based.UserInterests.Lifecycle.{eliminate_only_sets_day}
use content_based.ContentBased.{
  ContentBased, Databases, Options, news_table, interests_table, on_user_db, on_news, on_interests,
  flush_category, rename_category, flush_items, flush_users, flush, train,
}
use content_based.ContentBased.Categories.{CategoryFile}

module _ {U I C W : Type 0} (fl : Floats) (db : Databases U I) (cf : CategoryFile C)
    (st : Storage W) (pr : Protocol fl.Float) (opts : Options fl.Float) (now : ℤ) where
  open fl use {Double, Float}

  -- Flushing the categories leaves the data bases alone.
  flush_category_keeps :
      (s : ContentBased U I C W Double)
      → let s' = (flush_category fl db cf st pr opts now s).1 in
        (s'.user_db ≡ s.user_db) × (s'.item_db ≡ s.item_db)
  unfolding flush_category rename_category
  flush_category_keeps s = ground arith

  -- The model when the data bases are flushed.
  abbrev after_categories : ContentBased U I C W Double → ContentBased U I C W Double
  after_categories s =
      if s.is_category_modified then (flush_category fl db cf st pr opts now s).1 else s

  after_categories_keeps :
      (s : ContentBased U I C W Double)
      → ((after_categories s).user_db ≡ s.user_db) × ((after_categories s).item_db ≡ s.item_db)
  after_categories_keeps s = kept s.is_category_modified
    where
      kept :
          (b : Bool)
          → let s' = (if b then (flush_category fl db cf st pr opts now s).1 else s) in
            (s'.user_db ≡ s.user_db) × (s'.item_db ≡ s.item_db)
      kept true = flush_category_keeps s
      kept false = (refl, refl)

  flush_users_ok :
      (s : ContentBased U I C W Double)
      → (db.user_flush_table s.user_db).0 ≡ Status.ok
      → let r = flush_users fl db cf st pr opts now s in
        (r.0 ≡ Status.ok) × (r.1.item_db ≡ s.item_db)
  unfolding flush_users
  flush_users_ok s h = rw (h, flush_users) (refl, refl)

  flush_users_failed :
      (s : ContentBased U I C W Double)
      → is_ok (db.user_flush_table s.user_db).0 ≡ false
      → (db.item_eliminate s.item_db).0 ≡ Status.ok
      → let r = flush_users fl db cf st pr opts now s in
        (r.0 ≡ Status.ok) × (r.1.item_db ≡ (db.item_flush_table (db.item_eliminate s.item_db).1).1)
  unfolding flush_users flush_items
  flush_users_failed s h e = rw (h, flush_users) (rw (e, flush_items) (refl, refl))

  -- If the elimination of the users' data base succeeds, then: where its table is flushed well,
  -- `flush` returns there with success, and the data base of the items is neither eliminated nor
  -- flushed; where that fails, the items are eliminated and flushed, and if the elimination
  -- succeeds, so does `flush`, which loses the failure, and that of the items' table too.
  pub flush_lem :
      (s : ContentBased U I C W Double)
      → (db.user_eliminate s.user_db).0 ≡ Status.ok
      → let u = (db.user_eliminate s.user_db).1 in
        let r = flush fl db cf st pr opts now s in
        ((db.user_flush_table u).0 ≡ Status.ok → (r.0 ≡ Status.ok) × (r.1.item_db ≡ s.item_db))
        × (is_ok (db.user_flush_table u).0 ≡ false
            → (db.item_eliminate s.item_db).0 ≡ Status.ok
            → (r.0 ≡ Status.ok)
              × (r.1.item_db ≡ (db.item_flush_table (db.item_eliminate s.item_db).1).1))
  unfolding flush
  flush_lem s h =
      let s' = after_categories s in
      let (same_users, same_items) = after_categories_keeps s in
      let u' = (db.user_eliminate s'.user_db).1 in
      let goes_on =
        then_run_goes_on (on_user_db db.user_eliminate s') (flush_users fl db cf st pr opts now)
          (ap (λ u. (db.user_eliminate u).0) same_users ∙ h) in
      rw goes_on (
        λ f.
            let (a, b) =
              flush_users_ok (record s' { user_db = u' })
                (ap (λ u. (db.user_flush_table (db.user_eliminate u).1).0) same_users ∙ f) in
            (a, b ∙ same_items),
        λ f e.
            let (a, b) =
              flush_users_failed (record s' { user_db = u' })
                (ap (λ u. is_ok (db.user_flush_table (db.user_eliminate u).1).0) same_users ∙ f)
                (ap (λ i. (db.item_eliminate i).0) same_items ∙ e) in
            (a, b ∙ ap (λ i. (db.item_flush_table (db.item_eliminate i).1).1) same_items),
      )

  -- If the news trends are trained well, `train` succeeds; of the users' interests it changes
  -- nothing but the day from which on clicks count.
  pub train_lem :
      (s : ContentBased U I C W Double)
      → let trained = DistTable.train st pr (news_table fl pr opts now) s.news in
        trained.0 ≡ Status.ok
        → train fl db cf st pr opts now s ≡ (
          Status.ok,
          record s {
            news = trained.1;
            interests = record (s.interests) {
              target = record (s.interests.target) {
                current_day = now -ℤ opts.interests.time_window *ℤ seconds_per_hour;
              };
            };
          },
        )
  unfolding train
  train_lem s h =
      then_run_goes_on (on_news (DistTable.train st pr (news_table fl pr opts now)) s)
        (on_interests (DistTable.eliminate st pr (interests_table fl pr opts now))) h
      ∙ ap
          (λ r. (
            r.0,
            record s {
              news = (DistTable.train st pr (news_table fl pr opts now) s.news).1;
              interests = r.1;
            },
          ))
          (eliminate_only_sets_day fl st pr opts.interests now s.interests)
