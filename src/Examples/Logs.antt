-- ===== src/Examples/Logs.antt =====
-- The theorems on logs, on the disk in memory.
use content_based.Base.{
  Option, none, map, ℕ, ◌<◌, ap, pos_part, neg_part, sub_ℕ, arith, ◌≡◌, ◌≢◌, refl, true, some, List,
  [], ◌∷◌, ◌++◌, ℤ, pos, ◌+ℤ◌, All, take,
}
use content_based.Storage.{Bytes, LogFile}
use content_based.Storage.Memory.{Disk, memory, memory-IsReliable, put}
use content_based.PeriodicLog.{PeriodicLog, Iterator, rollover, open_periodic}
use content_based.PeriodicLog.Rollover.{rollover_lem}
use content_based.PeriodicLog.Recovery.{
  IsRecord, IsRecovered, open_periodic-IsRecovered, open_periodic_again-IsRecovered,
  open_periodic_failed,
}
use content_based.PeriodicLog.Restart.{restart_overwrites}
use content_based.DistTable.{DistTable, train_file}
use content_based.DistTable
use content_based.DistTable.Logging.{
  Event, clicked, listed, replay, add_events, train_file-add_events,
}
use content_based.DistTable.Window.{
  run_periods, newest_first, replay_files, train_periodic_log-run_periods,
}
use content_based.DistTable.{train_periodic_log}
use content_based.Status.{Status}
use content_based.NewsTrends.{NewsTrends, news_trends}
use content_based.NewsTrends.Reloading.{IsKeptTable, IsParsedBack, as_float, reload-train}
use content_based.Protocol.{ItemTag, CategoryDistribution, Protocol}
use content_based.Map.{find, int_key}
use content_based.UserInterests.{
  UserInterests, InterestOptions, IsUserKey, user_interests, query_user_interests,
}
use content_based.UserInterests.Reloading.{
  IsLongTerm, first_of, first_power, query_user_interests-reload,
}
use content_based.Map.Laws.{map_option}
use content_based.Examples.{int_floats, listing, listing-IsRoundTrip, empty_disk, click}

-- A visitor that keeps what it sees.
abbrev keep : Bytes → List Bytes → List Bytes
keep d ds = ds ++ d ∷ []

-- A log with the header 4 and two records.
abbrev header : Bytes
header = b'4' ∷ []

abbrev two_records : List Bytes
two_records = (67 ∷ 1 ∷ []) ∷ (67 ∷ 2 ∷ []) ∷ []

abbrev written : Disk
written = put LogFile.writing (some (header ∷ two_records)) empty_disk

abbrev interrupted : Disk
interrupted = put LogFile.recovering (some (header ∷ two_records)) empty_disk

abbrev full_disk : Disk
full_disk = record interrupted { full = true }

abbrev a_log : ℤ → Disk → PeriodicLog Disk (List Bytes)
a_log counter d = record { last_counter = counter; has_writer = true; disk = d; target = [] }

are_records : All IsRecord (header ∷ two_records)
are_records = (λ e. cc, (λ e. cc, (λ e. cc, tt)))

open_periodic-IsRecovered_example :
    IsRecovered memory memory-IsReliable keep header two_records []
      (open_periodic memory (pos 0) (some keep) (a_log (pos 0) written)).1
unfolding open_periodic content_based.PeriodicLog.start_recovery
    content_based.PeriodicLog.create_and_recover content_based.PeriodicLog.recovery
    content_based.PeriodicLog.recover content_based.PeriodicLog.finish_recovery
open_periodic-IsRecovered_example =
    open_periodic-IsRecovered memory memory-IsReliable keep (pos 0) header two_records
      (a_log (pos 0) written) are_records (λ w. refl) refl refl refl

open_periodic_again-IsRecovered_example :
    IsRecovered memory memory-IsReliable keep header two_records []
      (open_periodic memory (pos 0) (some keep) (a_log (pos 0) interrupted)).1
unfolding open_periodic content_based.PeriodicLog.create_and_recover
    content_based.PeriodicLog.recovery content_based.PeriodicLog.recover
    content_based.PeriodicLog.finish_recovery
open_periodic_again-IsRecovered_example =
    open_periodic_again-IsRecovered memory memory-IsReliable keep (pos 0) header two_records
      (a_log (pos 0) interrupted) are_records (λ w. refl) refl refl

open_periodic_failed_example :
    (open_periodic memory (pos 0) (some keep) (a_log (pos 0) full_disk)).1.disk.logs
      LogFile.recovering
    ≡ some (header ∷ two_records)
unfolding open_periodic content_based.PeriodicLog.create_and_recover
open_periodic_failed_example =
    open_periodic_failed memory memory-IsReliable keep (pos 0) (header ∷ two_records)
      (a_log (pos 0) full_disk) refl (λ e. cc)

rollover_lem_example :
    let q = (rollover memory (a_log (pos 4) written)).1 in
    (q.disk.logs (LogFile.numbered (pos 4)) ≡ some (header ∷ two_records))
    × (q.disk.logs LogFile.writing ≡ some (header ∷ []))
    × (q.last_counter ≡ pos 4 +ℤ pos 1)
    × ((f : LogFile)
        → f ≢ LogFile.writing
        → f ≢ LogFile.numbered (pos 4)
        → q.disk.logs f ≡ written.logs f)
unfolding rollover content_based.PeriodicLog.Decimal.sprintf_d
rollover_lem_example =
    rollover_lem memory memory-IsReliable (a_log (pos 4) written) (header ∷ two_records) refl refl

abbrev restarted : PeriodicLog Disk (List Bytes)
restarted = a_log (pos 0) (rollover memory (a_log (pos 4) written)).1.disk

restart_overwrites_example :
    let r = (open_periodic memory (pos 0) (some keep) restarted).1 in
    ((rollover memory (a_log (pos 4) written)).1.last_counter ≡ pos 4 +ℤ pos 1)
    × (restarted.disk.logs (LogFile.numbered (pos 4)) ≡ some (header ∷ two_records))
    × (r.last_counter ≡ pos 4)
    × ((rollover memory r).1.disk.logs (LogFile.numbered (pos 4)) ≡ some (header ∷ []))
unfolding rollover open_periodic content_based.PeriodicLog.start_recovery
    content_based.PeriodicLog.create_and_recover content_based.PeriodicLog.recovery
    content_based.PeriodicLog.recover content_based.PeriodicLog.Decimal.sprintf_d
    content_based.PeriodicLog.finish_recovery content_based.PeriodicLog.recover_record
restart_overwrites_example =
    restart_overwrites memory memory-IsReliable keep (a_log (pos 4) written) restarted 4
      (header ∷ two_records) (pos 0) refl refl refl (λ w. refl) refl refl refl refl

-- The news trends as a table, at 100000 seconds, with the window of one hour.
abbrev trends_table : DistTable Disk (NewsTrends ℤ) ℤ
trends_table = news_trends int_floats listing (pos 1) (pos 100000)

abbrev fresh_table : PeriodicLog Disk (NewsTrends ℤ)
fresh_table = record {
  last_counter = pos 4;
  has_writer = true;
  disk = put LogFile.writing (some (header ∷ [])) empty_disk;
  target = record { click_expired = pos 96400; map_dist_training = []; map_dist = [] };
}

abbrev two_events : List Event
two_events = clicked (click (pos 3) (pos 99000)) ∷ clicked (click (pos 5) (pos 10)) ∷ []

abbrev archived_table : PeriodicLog Disk (NewsTrends ℤ)
archived_table =
    (DistTable.rollover memory listing trends_table
      (add_events memory listing trends_table two_events fresh_table).1).1

abbrev fourth : Iterator
fourth = record { last_counter = pos 4; counter = pos 4 }

train_file-add_events_example :
    train_file memory listing trends_table fourth archived_table ≡ record archived_table {
      target =
          replay trends_table.train_click trends_table.train_item two_events archived_table.target;
    }
unfolding add_events content_based.DistTable.Logging.add_event DistTable.add_click
    DistTable.log_message content_based.PeriodicLog.write DistTable.rollover rollover
train_file-add_events_example =
    train_file-add_events memory memory-IsReliable listing trends_table listing-IsRoundTrip header
      fresh_table two_events fourth refl refl refl refl

-- Three periods, of which the window of one holds the last.
abbrev first_table : PeriodicLog Disk (NewsTrends ℤ)
first_table = record fresh_table { last_counter = pos 0 }

abbrev three_periods : List (List Event)
three_periods = two_events ∷ [] ∷ (clicked (click (pos 6) (pos 99500)) ∷ []) ∷ []

abbrev after_periods : PeriodicLog Disk (NewsTrends ℤ)
after_periods = (run_periods memory listing trends_table three_periods first_table).1

train_periodic_log-run_periods_example :
    train_periodic_log memory listing trends_table after_periods ≡ (
      Status.ok,
      record after_periods {
        target =
            replay_files trends_table.train_click trends_table.train_item
              (take 1 (newest_first three_periods []))
              after_periods.target;
      },
    )
unfolding run_periods content_based.DistTable.Window.run_period add_events
    content_based.DistTable.Logging.add_event DistTable.add_click DistTable.log_message
    content_based.PeriodicLog.write DistTable.rollover rollover newest_first news_trends
train_periodic_log-run_periods_example =
    train_periodic_log-run_periods memory memory-IsReliable listing trends_table listing-IsRoundTrip
      header three_periods first_table refl refl refl

-- A serialisation of distributions that is parsed back.
abbrev encode_tags : List (ItemTag ℤ) → Bytes
encode_tags [] = []
encode_tags (t ∷ ts) =
    pos_part t.tag_id
    ∷ neg_part t.tag_id
    ∷ pos_part t.tag_power
    ∷ neg_part t.tag_power
    ∷ encode_tags ts

abbrev parse_tags : Bytes → List (ItemTag ℤ)
parse_tags (a ∷ b ∷ c ∷ d ∷ bs) =
    record { tag_id = sub_ℕ a b; tag_power = sub_ℕ c d } ∷ parse_tags bs
parse_tags _ = []

abbrev parse_all : Bytes → Option (CategoryDistribution ℤ)
parse_all [] = none
parse_all (u ∷ bs) = some (record { user_id = u; distribution = parse_tags bs })

abbrev tagged : Protocol ℤ
tagged = record listing {
  encode_distribution = λ d. d.user_id ∷ encode_tags d.distribution;
  parse_distribution = parse_all;
}

sub_ℕ-parts : (z : ℤ) → sub_ℕ (pos_part z) (neg_part z) ≡ z
sub_ℕ-parts z = ground arith

parse_tags-encode_tags : (ts : List (ItemTag ℤ)) → parse_tags (encode_tags ts) ≡ ts
parse_tags-encode_tags [] = refl
parse_tags-encode_tags (t ∷ ts) =
    rw (sub_ℕ-parts t.tag_id, sub_ℕ-parts t.tag_power, parse_tags-encode_tags ts) refl

tagged-IsParsedBack : IsParsedBack tagged
tagged-IsParsedBack = record {
  parsed_back = λ d.
      ap (λ ts. some (record { user_id = d.user_id; distribution = ts }))
        (parse_tags-encode_tags d.distribution);
  not_empty = λ d e. absurd (cc e);
}

memory-IsKeptTable : IsKeptTable memory
memory-IsKeptTable = record {
  contents = λ d. d.table;
  temporary = λ d. d.temporary;
  created = λ w e. refl;
  written = λ b w e. refl;
  closed = λ w. refl;
  renamed = λ w e. refl;
  read_back = λ w e. refl;
}

abbrev tagged_table : DistTable Disk (NewsTrends ℤ) ℤ
tagged_table = news_trends int_floats tagged (pos 1) (pos 100000)

abbrev retrained : PeriodicLog Disk (NewsTrends ℤ)
retrained = (DistTable.train memory tagged tagged_table archived_table).1

reload-train_example :
    find (pos 3) (DistTable.reload memory tagged tagged_table retrained).1.target.map_dist
    ≡ map_option (as_float int_floats) (find (pos 3) retrained.target.map_dist)
unfolding DistTable.train news_trends content_based.NewsTrends.train_before train_periodic_log
    DistTable.dump content_based.NewsTrends.dump_table content_based.NewsTrends.swap_maps
    DistTable.replace_table DistTable.reload content_based.NewsTrends.reload_before
    DistTable.load_records
reload-train_example =
    reload-train int_floats memory memory-IsKeptTable tagged tagged-IsParsedBack (pos 1)
      (pos 100000) archived_table (pos 3) refl refl

-- The long-term interests of two users, one of them twice.
abbrev long_term : List (CategoryDistribution ℤ)
long_term =
    record {
      user_id = 7;
      distribution =
          record { tag_id = pos 3; tag_power = pos 2 }
          ∷ record { tag_id = pos 5; tag_power = pos 4 }
          ∷ [];
    }
    ∷ record { user_id = 8; distribution = record { tag_id = pos 3; tag_power = pos 1 } ∷ [] }
    ∷ record { user_id = 7; distribution = record { tag_id = pos 5; tag_power = pos 9 } ∷ [] }
    ∷ []

abbrev interest_options : InterestOptions ℤ
interest_options = record { time_window = pos 1; prior_prob_type = pos 0; visual_clicks = pos 10 }

abbrev interests_table : DistTable Disk (UserInterests ℤ) ℤ
interests_table = user_interests int_floats interest_options (pos 100000)

abbrev interests_object : PeriodicLog Disk (UserInterests ℤ)
interests_object = record {
  last_counter = pos 4;
  has_writer = true;
  disk = record empty_disk { table = map tagged.encode_distribution long_term };
  target = record {
    current_day = pos 96400;
    current_dist = [];
    current_user_dist = [];
    user_dist_bak = [];
    user_dist = (9, (pos 3, pos 5) ∷ []) ∷ [];
  };
}

is_user_key : (u : ℕ) → 0 < u → u < 100 → IsUserKey u
is_user_key u a b = (λ e. omega (arith, e), λ e. omega (arith, e))

query_user_interests-reload_example :
    let r =
      query_user_interests int_floats interest_options 7
        (DistTable.reload memory tagged interests_table interests_object).1.target in
    (r.0 ≡ Status.ok) × (find (pos 5) r.1 ≡ some (pos 4))
unfolding IsLongTerm first_of first_power DistTable.reload user_interests memory-IsKeptTable
    content_based.UserInterests.reload_before DistTable.load_records
    content_based.UserInterests.reload_completed
query_user_interests-reload_example =
    query_user_interests-reload int_floats interest_options memory memory-IsKeptTable tagged
      tagged-IsParsedBack (pos 100000) interests_object 7 (pos 5) long_term
      (is_user_key 7 (omega arith) (omega arith))
      (
        is_user_key 7 (omega arith) (omega arith),
        (
          is_user_key 8 (omega arith) (omega arith),
          (is_user_key 7 (omega arith) (omega arith), tt),
        ),
      )
      ((λ e. cc), ((λ e. cc), ((λ e. cc), tt))) refl refl
