-- ===== src/Examples/Tables.antt =====
-- The theorems on the tables, with arithmetic on integers.
use content_based.Base.{
  arith, ◌≡◌, ◌≢◌, refl, Bool, true, false, Option, none, some, List, [], ◌∷◌, ◌<◌, ◌+◌, ◌^◌, ℕ, ℤ,
  pos, ◌-ℤ◌, ◌*ℤ◌, All, length, get_elem?,
}
use content_based.Status.{Status, succeed}
use content_based.Storage.{Bytes}
use content_based.Storage.Memory.{Disk, memory}
use content_based.Map.{Map, find, int_key, nat_key}
use content_based.Map.Laws.{map_option}
use content_based.PeriodicLog.{PeriodicLog}
use content_based.DistTable.{eliminate_periodic_log, eliminate}
use content_based.DistTable.Logging.{Event, clicked, replay}
use content_based.DistTable.Elimination.{eliminate_periodic_log_idle}
use content_based.DistTable
use content_based.NewsTrends.{NewsTrends, news_trends, train_before, dump_table, seconds_per_hour}
use content_based.NewsTrends
use content_based.NewsTrends.Counts.{clicks_of, tally, counted}
use content_based.NewsTrends.Counting.{of_count, shares, find-replay, dump_table-shares}
use content_based.UserInterests.{
  UserInterests, InterestOptions, query_user_current_interests, IsUserKey, new_user_interests, init,
}
use content_based.UserInterests.Queries.{
  IsAnswered, smoothed, total_or_one, find-query_user_current_interests,
}
use content_based.UserInterests.Lifecycle.{init_forgets}
use content_based.UserInterests.Weights.{
  Act, trains, eliminates, act_all, weight_of, expected_all, weight_of-act_all,
}
use content_based.Marshaler.{
  MarshalerOptions, Marshalling, marshal, out_of_range, still_drawing, draw_all, select_interesting,
}
use content_based.Marshaler.Select.{select_interesting_lem}
use content_based.Marshaler.Results.{
  IsMarshalled, top_of, marshal-IsMarshalled, marshal_out_of_range,
}
use content_based.Marshaler.Progress.{draw_all_stuck}
use content_based.Marshaler.Spacing.{IsSpaced, ArePicked, marshal-IsSpaced}
use content_based.Examples.{int_floats, int_floats-IsExact, listing, empty_disk, click}

-- The news trends, at 100000 seconds, with the window of one hour: the second click is too old.
abbrev no_trends : NewsTrends ℤ
no_trends = record { click_expired = pos 0; map_dist_training = []; map_dist = [] }

abbrev events : List Event
events =
    clicked (click (pos 3) (pos 99000))
    ∷ clicked (click (pos 5) (pos 10))
    ∷ clicked (click (pos 3) (pos 98000))
    ∷ []

abbrev trained : NewsTrends ℤ
trained =
    replay (NewsTrends.train_click int_floats) (λ i. succeed) events
      (train_before int_floats (pos 1) (pos 100000) no_trends).1

find-replay_example :
    find (pos 3) trained.map_dist_training
    ≡ map_option
        (of_count int_floats)
        (tally (clicks_of (pos 3) (pos 100000 -ℤ pos 1 *ℤ seconds_per_hour) events))
unfolding content_based.NewsTrends.Counts.recent_clicks train_before ◌-ℤ◌ ◌*ℤ◌
find-replay_example =
    find-replay int_floats int_floats-IsExact (pos 1) (pos 100000) (pos 3) events no_trends
      (omega arith)

-- The writer that keeps what it is given.
abbrev keep : Bytes → List Bytes → Status × List Bytes
keep d ds = (Status.ok, d ∷ ds)

abbrev dumped : Bytes
dumped = listing.encode_distribution (record {
  user_id = 0;
  distribution =
      shares int_floats int_floats-IsExact 2
        (counted (pos 100000 -ℤ pos 1 *ℤ seconds_per_hour) events []);
})

dump_table-shares_example :
    ((dump_table int_floats listing keep (trained, [])).0 ≡ Status.ok)
    × ((dump_table int_floats listing keep (trained, [])).1.1 ≡ dumped ∷ [])
unfolding content_based.NewsTrends.Counts.recent_clicks train_before ◌-ℤ◌ ◌*ℤ◌
dump_table-shares_example =
    dump_table-shares int_floats int_floats-IsExact listing keep [] (pos 1) (pos 100000) events
      no_trends (omega arith)

-- The interests of user 7.
abbrev options : InterestOptions ℤ
options = record { time_window = pos 1; prior_prob_type = pos 0; visual_clicks = pos 10 }

abbrev no_interests : UserInterests ℤ
no_interests = new_user_interests int_floats options (pos 100000)

abbrev interests : UserInterests ℤ
interests = record {
  current_day = pos 96400;
  current_dist = (pos 3, pos 2) ∷ [];
  current_user_dist = (7, (pos 3, pos 1) ∷ []) ∷ [];
  user_dist_bak = [];
  user_dist = (7, (pos 3, pos 5) ∷ []) ∷ [];
}

abbrev object : PeriodicLog Disk (UserInterests ℤ)
object = record { last_counter = pos 4; has_writer = true; disk = empty_disk; target = interests }

abbrev acts : List Act
acts =
    trains (click (pos 3) (pos 99000))
    ∷ eliminates (click (pos 3) (pos 10))
    ∷ eliminates (click (pos 3) (pos 20))
    ∷ trains (click (pos 3) (pos 99500))
    ∷ []

seven-IsUserKey : IsUserKey 7
seven-IsUserKey = (λ e. omega (arith, e), λ e. omega (arith, e))

weight_of-act_all_example :
    weight_of int_floats 7 (pos 3) (act_all int_floats options acts no_interests)
    ≡ pos (expected_all 7 (pos 3) no_interests.current_day acts 0)
unfolding new_user_interests
weight_of-act_all_example =
    weight_of-act_all int_floats int_floats-IsExact options acts 7 (pos 3) no_interests
      seven-IsUserKey (seven-IsUserKey, (seven-IsUserKey, (seven-IsUserKey, (seven-IsUserKey, tt))))
      (omega arith) refl

abbrev categories : Map ℤ Bytes
categories = (pos 3, b'a' ∷ []) ∷ (pos 5, b'b' ∷ []) ∷ []

find-query_user_current_interests_example :
    ((query_user_current_interests int_floats options 7 categories interests).0 ≡ Status.ok)
    × (find (pos 3) (query_user_current_interests int_floats options 7 categories interests).1
        ≡ some (pos 1))
unfolding IsAnswered smoothed total_or_one find content_based.Base.◌+ℤ◌ ◌*ℤ◌
find-query_user_current_interests_example =
    find-query_user_current_interests int_floats options 7 categories interests (pos 3)
      seven-IsUserKey

abbrev trends_object : PeriodicLog Disk (NewsTrends ℤ)
trends_object = record {
  last_counter = pos 4;
  has_writer = true;
  disk = empty_disk;
  target = no_trends;
}

eliminate_periodic_log_idle_example :
    eliminate_periodic_log memory listing
      (news_trends int_floats listing (pos 1) (pos 100000))
      trends_object
    ≡ (Status.ok, trends_object)
unfolding news_trends
eliminate_periodic_log_idle_example =
    eliminate_periodic_log_idle memory listing (news_trends int_floats listing (pos 1) (pos 100000))
      (λ s last counter h. refl) trends_object

init_forgets_example :
    ((init int_floats options memory listing (pos 100000) object).0 ≡ Status.ok)
    × ((init int_floats options memory listing (pos 100000) object).1.target.current_user_dist ≡ [])
    × ((init int_floats options memory listing (pos 100000) object).1.target.current_dist ≡ [])
unfolding DistTable.init content_based.PeriodicLog.open_periodic
    content_based.PeriodicLog.create_first
init_forgets_example =
    init_forgets int_floats memory listing options (pos 100000) object refl (λ n. refl)

-- Three trends, of which the marshaler takes the best and draws one more.
abbrev trends : List (ℤ × ℤ)
trends = (pos 3, pos 2) ∷ (pos 5, pos 1) ∷ (pos 6, pos 1) ∷ []

abbrev few : MarshalerOptions ℤ
few = record { topt = 1; p = 4; n = 2; r1 = pos 0; r2 = pos 0 }

abbrev many : MarshalerOptions ℤ
many = record { topt = 4; p = 4; n = 2; r1 = pos 0; r2 = pos 0 }

marshal-IsMarshalled_example :
    IsMarshalled int_floats trends
      (top_of int_floats trends few)
      2
      (marshal int_floats few trends 2 (50 ∷ 50 ∷ []))
unfolding content_based.Marshaler.widened content_based.Marshaler.passes content_based.Base.◌+ℤ◌
marshal-IsMarshalled_example =
    marshal-IsMarshalled int_floats trends few 2 (50 ∷ 50 ∷ []) (omega arith) (omega arith)
      (omega arith)

marshal_out_of_range_example : marshal int_floats many trends 2 (50 ∷ []) ≡ out_of_range
unfolding content_based.Marshaler.widened content_based.Marshaler.passes content_based.Base.◌+ℤ◌
marshal_out_of_range_example =
    marshal_out_of_range int_floats trends many 2 (50 ∷ []) (omega arith) (omega arith)

-- The best of three trends, and then the second for a draw of 50.
abbrev weighed : List (ℤ × ℤ)
weighed = (pos 3, pos 0) ∷ (pos 5, pos 1) ∷ (pos 6, pos 0) ∷ []

abbrev picked : List (ℤ × ℤ)
picked = (pos 3, pos 0) ∷ (pos 5, pos 1) ∷ []

marshal-IsSpaced_example :
    (picks : List ℕ) × ArePicked int_floats weighed picks picked × IsSpaced 2 picks
unfolding marshal content_based.Marshaler.take_top content_based.Marshaler.widened
    content_based.Marshaler.passes content_based.Base.◌+ℤ◌ draw_all
marshal-IsSpaced_example =
    marshal-IsSpaced int_floats weighed few 2 (50 ∷ 50 ∷ 50 ∷ []) picked (omega arith) refl

-- The first of these is masked, and the draw falls on the second.
abbrev weights : List (ℤ × ℤ)
weights = (pos 3, pos 0) ∷ (pos 5, pos 1) ∷ (pos 6, pos 0) ∷ []

abbrev no_flags : List Bool
no_flags = false ∷ false ∷ false ∷ []

abbrev first_masked : List ℕ
first_masked = 0 ∷ 0 ∷ []

select_interesting_lem_example :
    (1 < length weights) × (get_elem? no_flags 1 ≡ some false) × All (λ m. m ≢ 1) first_masked
unfolding select_interesting content_based.Marshaler.scan content_based.Marshaler.mask_all
    content_based.Marshaler.mask_one ◌*ℤ◌ content_based.Base.◌+ℤ◌ ◌-ℤ◌
    content_based.Marshaler.flagged_weight
select_interesting_lem_example =
    select_interesting_lem int_floats weights no_flags first_masked 50 1 refl

-- One trend, and a mask that names it.
abbrev stuck : Marshalling ℤ
stuck = record {
  results = (pos 3, pos 1) ∷ [];
  trend_flags = false ∷ [];
  mask = 0 ∷ 0 ∷ [];
  k = 0;
  g = 1;
}

draw_all_stuck_example :
    draw_all int_floats 2 1 2 ((pos 3, pos 1) ∷ []) (0 ∷ 99 ∷ []) stuck ≡ still_drawing
draw_all_stuck_example =
    draw_all_stuck int_floats ((pos 3, pos 1) ∷ []) 2 1 2 (0 ∷ 99 ∷ []) stuck
      (λ i h a. a.0 (omega arith)) (omega arith)
