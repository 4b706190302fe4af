-- ===== src/Examples/Framework.antt =====
-- The theorems on the framework, for a model that counts its calls.
use content_based.Base.{
  ◌≡◌, refl, ◌++◌, Option, List, Bool, true, false, none, some, [], ◌∷◌, if◌then◌else◌, ℕ, suc, ◌+◌,
  ◌-◌, ◌≤◌, ◌*◌, ℤ, pos, negsuc, arith,
}
use content_based.Storage.{Bytes}
use content_based.JsonParse.Messages.{empty_action, empty_item, an_action}
use content_based.JsonParse.Actions.{parse_action}
use content_based.JsonParse.Items.{parse_item}
use content_based.JsonParse.Requests.{parse_subscribe}
use content_based.FrameworkModule.{Wire, Interface, Content, packed}
use content_based.FrameworkModule.Kafka.{payload, kafka_turn}
use content_based.FrameworkModule.Network.{
  Request, Respond, Network, serve, frame, recv_request, network_turn,
}
use content_based.FrameworkModule.Timers.{FlagFile, Keeper, newest, train_turn}
use content_based.FrameworkModule.Delivery.{clicked, added, subscribed, kafka_turn-delivers}
use content_based.FrameworkModule.Replies.{IsNetwork, IsFrame, frame-IsFrame, network_turn-opened}
use content_based.FrameworkModule.Intervals.{
  CountsSaves, IsKeptFile, IsSettled, saves, saves-IsSpaced, train_turn-once,
}
use content_based.FrameworkModule.Connection.{
  RdKafka, UcKafka, new_kafka, set_offset, connect, disconnect,
}
use content_based.FrameworkModule.Released.{IsRdKafka, disconnect-connect}
use content_based.FrameworkCache.{Cached, CacheOptions, CacheTable, put}
use content_based.FrameworkCache.Serving.{IsKeptCache, Call, handed_out, get_all, get_all-put}
use content_based.Examples.Requests.{Node, part, object, value, number, a_text, reading}

abbrev wire : Wire
wire = record {
  User = ℕ;
  UserStatus = ℕ;
  Category = ℕ;
  AlgorithmCategory = ℕ;
  CandidateSet = ℕ;
  CandidateSetBase = ℕ;
  AlgorithmPower = ℕ;
}

abbrev counting : Interface ℤ wire ℕ
counting = record {
  update_action = λ a s. (pos 0, (a, suc s));
  update_item = λ i s. (pos 0, suc s);
  update_subscribe = λ b s. (pos 0, suc s);
  update_feedback = λ f s. (pos 0, suc s);
  query_algorithm = λ c s. (negsuc 998, (0, s));
  query_user_category = λ c s. (negsuc 998, (0, s));
  query_candidate_set = λ r s. (pos 0, (3, s));
  query_user_status = λ u s. (negsuc 998, (0, s));
  persistent_library = λ s. (pos 0, suc s);
  update_train = λ p s. (pos 0, suc s);
}

-- A click that has all its fields.
abbrev full_click : Node
full_click = object (
    ("type", value (number (pos 1)))
    ∷ ("clicktime", value (number (pos 99000)))
    ∷ ("userid", value (a_text (7 ∷ [])))
    ∷ ("docid", value (a_text (8 ∷ [])))
    ∷ ("action", value (number (pos 1)))
    ∷ [])

kafka_turn-delivers_example :
    ((pos 1 ≡ pos 1)
      → kafka_turn (reading full_click) counting (some (payload (65 ∷ []))) 100 (pos 0) ([], 4)
        ≡ clicked
            (reading full_click)
            counting
            (65 ∷ [])
            100
            (pos 0)
            []
            4
            full_click
            (part (value (number (pos 1))))
            refl
            (refl, tt)
            refl
            refl
            (parse_action (reading full_click) full_click empty_action))
    × (((pos 1 ≡ pos 2)
          → kafka_turn (reading full_click) counting (some (payload (65 ∷ []))) 100 (pos 0) ([], 4)
            ≡ added
                (reading full_click)
                counting
                (65 ∷ [])
                100
                (pos 0)
                []
                4
                full_click
                (part (value (number (pos 1))))
                refl
                (refl, tt)
                refl
                refl
                (parse_item (reading full_click) full_click (pos 0) (empty_item (pos 0))))
        × ((pos 1 ≡ pos 3)
            → kafka_turn
                (reading full_click)
                counting
                (some (payload (65 ∷ [])))
                100
                (pos 0)
                ([], 4)
              ≡ subscribed
                  (reading full_click)
                  counting
                  (65 ∷ [])
                  100
                  (pos 0)
                  []
                  4
                  full_click
                  (part (value (number (pos 1))))
                  refl
                  (refl, tt)
                  refl
                  refl
                  (parse_subscribe
                    (reading full_click)
                    full_click
                    (record { user_id = 0; srp_id = []; circle_id = [] }))))
kafka_turn-delivers_example =
    kafka_turn-delivers (reading full_click) counting (65 ∷ []) 100 (pos 0) [] 4 full_click
      (part (value (number (pos 1)))) refl (refl, tt) refl refl

-- A click in a request.
abbrev request : Request ℤ wire
request = record {
  main_protocol = pos 1;
  sub_protocol = pos 0;
  protocol = some (packed (an_action empty_action));
}

-- A network whose state is the number of open connections, on which every client sends the same;
-- nothing is no request, and all else is a click.
abbrev network : Bytes → Network ℤ wire ℕ
network sent = record {
  accept = λ k. (true, suc k);
  recv_length = λ k. (some (pos 1), k);
  recv_bytes = λ n k. (some sent, k);
  send = λ n b k. k;
  close = λ k. k - 1;
  parse_request = λ b. if◌then◌else◌ (is_click b) (some request) none;
  byte_size = λ t. 2;
  serialize = λ t n. some (1 ∷ 2 ∷ []);
}
  where
    is_click : Bytes → Bool
    is_click [] = false
    is_click (b ∷ bs) = true

network-IsNetwork : (sent : Bytes) → IsNetwork (network sent)
network-IsNetwork sent = record {
  opened = λ k. k;
  accept_opens = λ k. refl;
  recv_length_keeps = λ k. refl;
  recv_bytes_keeps = λ n k. refl;
  send_keeps = λ n b k. refl;
  close_closes = λ k. refl;
  serialized = λ t n b e. cc e;
}

abbrev answer : Respond ℤ wire
answer = (serve counting request 4).0

frame-IsFrame_example :
    IsFrame (network []) (network-IsNetwork []) counting 64 (frame (network []) counting 64 answer)
frame-IsFrame_example =
    frame-IsFrame (network []) (network-IsNetwork []) counting 64 (omega arith) answer

-- Of an empty request the connection stays open.
network_turn-opened_example : (network_turn (network []) counting 64 (0, 4)).0 ≡ 1 + 0
unfolding network_turn network-IsNetwork recv_request
network_turn-opened_example =
    network_turn-opened (network []) (network-IsNetwork []) counting 64 0 4

-- A flag file on a disk that is one number.
abbrev flag : FlagFile ℕ
flag = record { read_stamp = λ d. some d; write_stamp = λ n d. n }

flag-IsKeptFile : IsKeptFile flag
flag-IsKeptFile = record { opens = λ d. true; read_back = λ n d e. refl }

abbrev keeper : Keeper ℕ ℕ
keeper = record { time_stamp = 1000; model_state = 0; disk = 1000 }

counting_saves : (s : ℕ) → true ≡ false → suc s ≡ s
counting_saves s e = cc

abbrev counting-CountsSaves : CountsSaves counting
counting-CountsSaves = record { saved = λ s. s; succeeded = λ s e. refl; failed = counting_saves }

saves-IsSpaced_example : (1000 + 1 * 60 ≤ 1100) × ((1100 + 1 * 60 ≤ 1200) × Unit {0})
unfolding saves content_based.FrameworkModule.Timers.persistent_turn
    content_based.FrameworkModule.Timers.stamped
saves-IsSpaced_example =
    saves-IsSpaced flag flag-IsKeptFile counting counting-CountsSaves 1
      (1030 ∷ 1100 ∷ 1150 ∷ 1200 ∷ []) keeper
      (
        omega arith,
        omega arith,
        (omega arith, omega arith, (omega arith, omega arith, (omega arith, omega arith, tt))),
      )

train_turn-once_example :
    IsSettled flag flag-IsKeptFile counting
      (λ n. n ∷ [])
      (900 ∷ 1200 ∷ 1100 ∷ [])
      (train_turn flag counting (λ n. n ∷ []) (some (900 ∷ 1200 ∷ 1100 ∷ [])) keeper)
unfolding newest flag-IsKeptFile
train_turn-once_example =
    train_turn-once flag flag-IsKeptFile counting (λ n. n ∷ []) (900 ∷ 1200 ∷ 1100 ∷ []) keeper refl
      refl refl

-- A table for one user.
abbrev one_user : CacheTable (Option Cached)
one_user = record { pop_value = λ u k. (k, k); push_value = λ k. k; add = λ u c k. (pos 0, some c) }

one_user-IsKeptCache : IsKeptCache one_user
one_user-IsKeptCache = record { holds = λ u k. k; popped = λ u k. refl; added = λ u c k e. refl }

abbrev cache_options : CacheOptions
cache_options = record { cache_count = 50; flush_count = 2; flush_time = pos 600 }

abbrev documents : List ℕ
documents = 11 ∷ 12 ∷ 13 ∷ 14 ∷ 15 ∷ []

abbrev two_calls : List Call
two_calls =
    record { now = pos 1010; draw = 4; req_num = 8 }
    ∷ record { now = pos 1020; draw = 1; req_num = 1 }
    ∷ []

get_all-put_example :
    (k' : Option Cached) × (get_all one_user one_user-IsKeptCache cache_options 7 two_calls
        (some (record { search_time = pos 0; update_time = pos 1000; ids = documents }))
      ≡ some (11 ∷ 12 ∷ 13 ∷ 14 ∷ [], k'))
unfolding put content_based.Base.◌-ℤ◌ handed_out
get_all-put_example =
    get_all-put one_user one_user-IsKeptCache cache_options 7 (pos 1000) documents two_calls none
      (pos 0, some (record { search_time = pos 0; update_time = pos 1000; ids = documents }))
      (λ u c k. refl) refl (refl, (refl, tt))

-- A library that counts its objects, and has no topics.
abbrev rdkafka : RdKafka ℕ ℕ ℕ ℕ
rdkafka = record {
  create_global_conf = λ k. (some 1, k);
  create_topic_conf = λ k. (some 2, k);
  set_conf = λ c name v k. (true, k);
  create_consumer = λ c k. (some 3, suc k);
  create_topic = λ c name tc k. (none, k);
  start = λ c t p k. (true, k);
  stop = λ c t p k. k;
  poll = λ c ms k. k;
  delete_topic = λ t k. k - 1;
  delete_consumer = λ c k. k - 1;
  wait_destroyed = λ ms k. k;
  remove_file = λ f k. k;
  print_port = λ n. n ∷ [];
}

abbrev rdkafka-IsRdKafka : IsRdKafka rdkafka
rdkafka-IsRdKafka = record {
  alive = λ k. k;
  global_conf_keeps = λ k. refl;
  topic_conf_keeps = λ k. refl;
  set_keeps = λ c name v k. refl;
  consumer_created = λ c k. refl;
  topic_created = λ c name tc k. refl;
  start_keeps = λ c t p k. refl;
  stop_keeps = λ c t p k. refl;
  poll_keeps = λ c ms k. refl;
  topic_deleted = λ t k. refl;
  consumer_deleted = λ c k. refl;
  wait_keeps = λ ms k. refl;
  remove_keeps = λ f k. refl;
}

abbrev half_open : UcKafka ℕ ℕ ℕ ℕ
half_open = record {
  partition = pos 0;
  cfg_kafka = some 1;
  cfg_topic = some 2;
  consumer = some 3;
  topic = none;
  outside = 6;
}

disconnect-connect_example : (disconnect rdkafka half_open).outside ≡ 5
unfolding new_kafka connect set_offset
disconnect-connect_example =
    disconnect-connect rdkafka rdkafka-IsRdKafka (7 ∷ []) 9099 (8 ∷ []) (pos 0)
      (some (record { path = 9 ∷ []; is_init = true })) (new_kafka rdkafka 5) (negsuc 0, half_open)
      refl refl
