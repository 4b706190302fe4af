-- ===== src/UserInterests/Lifecycle.antt =====
-- Starting up and eliminating.
use content_based.Base.{◌≡◌, refl, ap, ◌∙◌, false, [], ℕ, zero, suc, ℤ, ◌-ℤ◌, ◌*ℤ◌, arith, pos_part}
use content_based.Status.{Status, then_run_goes_on}
use content_based.Storage.{Storage, LogFile}
use content_based.Floats.{Floats}
use content_based.Protocol.{Protocol}
use content_based.PeriodicLog.{PeriodicLog, Iterator, is_file_exist, get_iterator, next}
use content_based.DistTable.{DistTable, eliminate, train_file, train_files, train_periodic_log}
use content_based.DistTable
use content_based.DistTable.Elimination.{KeepsWindow, eliminate_periodic_log_idle}
use content_based.NewsTrends.{seconds_per_hour}
use content_based.UserInterests.{
  UserInterests, InterestOptions, user_interests, need_eliminate, eliminate_before, init, train,
  train_before,
}

module _ {W : Type 0} (fl : Floats) (st : Storage W) (pr : Protocol fl.Float)
    (opts : InterestOptions fl.Float) (now : ℤ) where
  abbrev table : DistTable W (UserInterests fl.Double) fl.Float
  table = user_interests fl opts now

  user_interests-KeepsWindow : KeepsWindow (user_interests fl opts {W = W} now)
  unfolding user_interests need_eliminate
  user_interests-KeepsWindow s last counter h = rw h

  -- `eliminate` takes no click and no item back and removes no log file: all that it does is to set
  -- the day from which on clicks count to the time window before now.
  pub eliminate_only_sets_day :
      (t : PeriodicLog W (UserInterests fl.Double))
      → eliminate st pr (user_interests fl opts now) t ≡ (
        Status.ok,
        record t {
          target = record (t.target) { current_day = now -ℤ opts.time_window *ℤ seconds_per_hour };
        },
      )
  unfolding eliminate user_interests eliminate_before
  eliminate_only_sets_day t = rw (
      eliminate_periodic_log_idle st pr (user_interests fl opts now) user_interests-KeepsWindow
        (record t {
          target = record (t.target) { current_day = now -ℤ opts.time_window *ℤ seconds_per_hour };
        }))

  -- Where there is no log file, training goes through none.
  train_files-none :
      (j : ℕ) (it : Iterator) (t : PeriodicLog W (UserInterests fl.Double))
      → ((n : ℤ) → st.file_exists (LogFile.numbered n) t.disk ≡ false)
      → train_files st pr (user_interests fl opts now) j it t ≡ t
  unfolding train_files train_file is_file_exist
  train_files-none zero it t h = refl
  train_files-none (suc j) it t h =
      rw (h it.counter) (ground (arith, train_files-none j (next it) t h))

  -- The object with its current interests cleared.
  abbrev cleared : PeriodicLog W (UserInterests fl.Double) → PeriodicLog W (UserInterests fl.Double)
  cleared t = record t { target = record (t.target) { current_dist = []; current_user_dist = [] } }

  train-none :
      (t : PeriodicLog W (UserInterests fl.Double))
      → ((n : ℤ) → st.file_exists (LogFile.numbered n) t.disk ≡ false)
      → train fl opts st pr now t ≡ (Status.ok, cleared t)
  unfolding train train_before train_periodic_log train_files user_interests get_iterator
  train-none t h = rw (train_files-none (pos_part opts.time_window) (get_iterator t) (cleared t) h)

  -- Opening the log hands what was logged since the last rollover to `recoveryClick` and
  -- `recoveryItem`, and the training that `init` does next throws it away: where that
  -- opening succeeds and there is no older log file, the object starts with no current interests at all, whatever its log held.
  pub init_forgets :
      (t : PeriodicLog W (UserInterests fl.Double))
      → let t1 = (DistTable.init st pr (user_interests fl opts now) t).1 in
        (DistTable.init st pr (user_interests fl opts now) t).0 ≡ Status.ok
        → ((n : ℤ) → st.file_exists (LogFile.numbered n) t1.disk ≡ false)
        → ((init fl opts st pr now t).0 ≡ Status.ok)
          × ((init fl opts st pr now t).1.target.current_user_dist ≡ [])
          × ((init fl opts st pr now t).1.target.current_dist ≡ [])
  unfolding init
  init_forgets t e h =
      let all =
        then_run_goes_on (DistTable.init st pr (user_interests fl opts now) t)
          (train fl opts st pr now) e
        ∙ train-none (DistTable.init st pr (user_interests fl opts now) t).1 h in
      (
        ap (λ r. r.0) all,
        ap (λ r. r.1.target.current_user_dist) all,
        ap (λ r. r.1.target.current_dist) all,
      )
