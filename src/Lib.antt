-- ===== src/Lib.antt =====
-- Verification of the content-based recommendation model (src/core), of the services that answer
-- for it (src/service) and of the framework that feeds it (src/framework).
--
-- The program keeps, for a news service, how often each category of news was clicked lately (the
-- news trends) and what each user clicked (the user interests). Clicks and new items are written
-- ahead to a log, which is rolled over every period; the tables are trained from the log files.
-- A prediction mixes the long-term and the current interests of a user, or falls back on the
-- trends, and the marshaler draws from it the categories that are shown. The framework takes clicks
-- and documents in JSON from a queue, answers clients over the network, and has the model saved and
-- trained from time to time.
--
-- Which file is about which code:
--   PeriodicLog      src/core/periodic_log.{h,cpp}: the record is the object, with the disk that it
--                    writes to and the value that the visitor changes; `open_periodic` is `open`,
--                    `rollover`, `write`, `recovery` and the iterator keep their names.
--                    Decimal is `sprintf("%d")` and `atoi`; Rollover, Recovery and Restart
--                    have the theorems.
--   DistTable        src/core/dist_table.{h,cpp}: the record holds the virtual methods; an object is
--                    a `PeriodicLog` whose target is the fields of the derived class. `dispatch` is
--                    `recoveryAheadLog` and the body of the loop of `readPeriodicLog`. Logging,
--                    Window and Elimination have the theorems.
--   NewsTrends       src/core/news_trends.{h,cpp}; Counts is the abstract view of the training map,
--                    a map of numbers, which Counting relates to the code; Reloading is on the
--                    table file.
--   UserInterests    src/core/user_interests.{h,cpp}; Changes is the abstract view, which Weights
--                    relates to the code; Queries, Lifecycle and Reloading are on the other
--                    methods.
--   Marshaler        src/core/marshaler.{h,cpp}; Select, Results, Spacing and Progress have
--                    the theorems.
--   ModelOptions     src/core/model_options.{h,cpp}; Reading has the theorems.
--   ContentBased     src/core/content_based.{h,cpp}: the model, with the parts above as fields;
--                    Categories is the text of the category table, Predictions the predictions and
--                    queries, Updates the actions and items; Lines, Actions, Mixing,
--                    Ranking, Table and Flushing have the theorems.
--   ServiceGlue      src/service/service_glue.{h,cpp}, on any model that has the four methods which
--                    the timers call; a step is one `if` of `persistent_library`. Schedule has
--                    the theorem.
--   ServiceGrpc      src/service/service_grpc.cpp: a method is the query of the model, and `respond`.
--   JsonParse        src/framework/CF_framework_jparse.h: a parser is a chain (`>>>`) of parts, each
--                    for one field or array; `required` and `optional` are the two forms of the
--                    test for NULL, `each` the loop over an array. Messages are the messages that
--                    are filled, Actions and Items the parsers of clicks and documents, Requests
--                    the others and `parse_json`. Missing and Arrays are on the codes, Keeping,
--                    ItemParts and Sizes on what a parsed document holds, Words on the check of
--                    the count of a word.
--   FrameworkModule  src/framework/CF_framework_module.h, on any model with the methods of
--                    src/framework/CF_framework_interface.h: `kafka_turn`, `network_turn`,
--                    `persistent_turn` and `train_turn` are one turn of the loop of the thread of
--                    that name (Kafka, Network, Timers), and Connection is the class `UC_Kafka` up
--                    to `message`; Delivery, Replies, Intervals and Released have the theorems.
--   FrameworkCache   src/framework/CF_framework_cache.h: `serve` is what `get` makes of a value of the
--                    table; Serving has the theorem.
--   Protocol         docs/supplement.proto, the messages and their serialisation.
--   Storage, Floats  the parameters: files and logs, and floating point numbers.
--   Status, Map      the outcomes of fallible calls, and maps that iterate in the order of keys.
--   Base             names and lemmas that all of them share. Examples has the theorems at small
--                    inputs.
--
-- How the parts interact: a method is a function from a state to a status and a state (`Run`), and
-- `>>` is the early return on a status that is not ok. The model calls the tables, a table calls its
-- log, the log calls the visitor, which is the table's `recovery_ahead_log`.
--
-- Parameters, as their code is not in the repository: the write-ahead log, the table file and the
-- system calls (`Storage`, with `IsReliable` and `IsKeptTable` for what calls that succeed have
-- done), serialisation (`Protocol`, with `IsRoundTrip` and `IsParsedBack`), the data bases
-- (`Databases`), the bits of a type id, the kinds of actions, the parser of the configuration,
-- `std::sort` (`Sort`, with `IsSort`), the library cJSON (`Json`, with `HasItems`), the sockets
-- (`Network`, with `IsNetwork`), the library rdkafka (`RdKafka`, with `IsRdKafka`), a flag file
-- (`FlagFile`, with `IsKeptFile`), the hash table of the cache (`CacheTable`, with
-- `IsKeptCache`), and the messages of the framework, of which only the setters are used. Floating
-- point numbers are a parameter too (`Floats`); `IsExact` says that integers up to 2^53 are added
-- and compared exactly, which bounds the numbers of clicks in the theorems. What `time(NULL)` and
-- the random numbers give are arguments.
--
-- Bounds: `int32_t` and `int` are integers without a bound, but for the conversion of a `double` to
-- `int32_t`, of which only numbers in range are known, and user ids natural numbers; the ids 0 and
-- 2^64 - 1 are reserved by the hash maps, and are excluded by `IsUserKey`. The
-- difference of two time stamps of the framework is taken modulo 2^64. Every
-- loop is a recursion over a list or over the number of rounds that the source's condition allows.
-- The loop of the marshaler runs over the list of draws, and says when that does not suffice. The
-- digits of a number are written with as much fuel as the number plus one, which `atoi-digits`
-- shows to be enough.
--
-- Not modelled: locking, since each method is one step; the messages of a status; logging to glog
-- and durations; the main program (src/main.cpp); of the framework the start (`init_framework`),
-- the thread that trims the cache and the configuration, and src/framework/CF_framework_center.h,
-- which nothing includes; generated code (src/proto), and the tools (src/tools).
pub mod Base
pub mod Status
pub mod Floats
pub mod JsonParse
pub mod FrameworkModule
pub mod FrameworkCache
pub mod Map
pub mod Storage
pub mod PeriodicLog
pub mod Protocol
pub mod DistTable
pub mod NewsTrends
pub mod UserInterests
pub mod Marshaler
pub mod ModelOptions
pub mod ContentBased
pub mod ServiceGlue
pub mod ServiceGrpc
pub mod Examples
