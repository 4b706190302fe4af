-- ===== src/FrameworkModule.antt =====
-- src/framework/CF_framework_module.h and CF_framework_interface.h: the framework that feeds a
-- model from a queue, answers requests over the network, and has the model saved and trained.
-- This file has the messages and the interface of a model; each thread has a module below it.
pub mod Kafka
pub mod Network
pub mod Timers
pub mod Connection
pub mod Released
pub mod Delivery
pub mod Replies
pub mod Intervals
use content_based.Base.{Bool, Option, none, some, List, ℕ, ℤ, pos, negsuc}
use content_based.Storage.{Bytes}
use content_based.JsonParse.Messages.{
  Action, Item, Subscribe, Recommend, Feedback, Packed, an_action, an_item, a_subscribe,
  a_recommend, a_feedback,
}

-- The messages of queries and their answers, whose declarations are not in the repository.
pub record Wire : Type 1 where
  pub User : Type 0
  pub UserStatus : Type 0
  pub Category : Type 0
  pub AlgorithmCategory : Type 0
  pub CandidateSet : Type 0
  pub CandidateSetBase : Type 0
  pub AlgorithmPower : Type 0

-- What the field `protocol` of a request or an answer can hold.
pub data Content (F : Type 0) (w : Wire) : Type 0 where
  packed : Packed F → Content F w
  a_user : w.User → Content F w
  a_user_status : w.UserStatus → Content F w
  a_category : w.Category → Content F w
  an_algorithm_category : w.AlgorithmCategory → Content F w
  a_candidate_set : w.CandidateSet → Content F w
  a_candidate_set_base : w.CandidateSetBase → Content F w
  an_algorithm_power : w.AlgorithmPower → Content F w

-- `UnpackTo`, which fails where the field is unset or holds another type of message.
module _ {F : Type 0} {w : Wire} where
  abbrev pub unpack_action : Option (Content F w) → Option Action
  unpack_action (some (packed (an_action a))) = some a
  unpack_action _ = none

  abbrev pub unpack_item : Option (Content F w) → Option (Item F)
  unpack_item (some (packed (an_item i))) = some i
  unpack_item _ = none

  abbrev pub unpack_subscribe : Option (Content F w) → Option Subscribe
  unpack_subscribe (some (packed (a_subscribe s))) = some s
  unpack_subscribe _ = none

  abbrev pub unpack_recommend : Option (Content F w) → Option Recommend
  unpack_recommend (some (packed (a_recommend r))) = some r
  unpack_recommend _ = none

  abbrev pub unpack_feedback : Option (Content F w) → Option Feedback
  unpack_feedback (some (packed (a_feedback f))) = some f
  unpack_feedback _ = none

  abbrev pub unpack_user : Option (Content F w) → Option w.User
  unpack_user (some (a_user u)) = some u
  unpack_user _ = none

  abbrev pub unpack_category : Option (Content F w) → Option w.Category
  unpack_category (some (a_category c)) = some c
  unpack_category _ = none

  abbrev pub unpack_candidate_set_base : Option (Content F w) → Option w.CandidateSetBase
  unpack_candidate_set_base (some (a_candidate_set_base c)) = some c
  unpack_candidate_set_base _ = none

-- A model: the methods of `CF_framework_interface` that the threads call, on its state `S`. Each
-- returns a code, 0 for success, and what it makes of a message that it is given to fill or change.
pub record Interface (F : Type 0) (w : Wire) (S : Type 0) : Type 0 where
  pub update_action : Action → S → ℤ × (Action × S)
  pub update_item : Item F → S → ℤ × S
  pub update_subscribe : Subscribe → S → ℤ × S
  pub update_feedback : Feedback → S → ℤ × S
  pub query_algorithm : w.CandidateSetBase → S → ℤ × (w.AlgorithmPower × S)
  pub query_user_category : w.Category → S → ℤ × (w.AlgorithmCategory × S)
  pub query_candidate_set : Recommend → S → ℤ × (w.CandidateSet × S)
  pub query_user_status : w.User → S → ℤ × (w.UserStatus × S)
  pub persistent_library : S → ℤ × S
  pub update_train : Bytes → S → ℤ × S
