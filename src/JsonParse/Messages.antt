-- ===== src/JsonParse/Messages.antt =====
-- The messages of the framework's protocol that src/framework/CF_framework_jparse.h fills. Their
-- declarations are not in the repository: a message has the fields that the parsers set, with the
-- values that the setters are given, and an unset field is empty or 0.
use content_based.Base.{Option, List, [], ℕ, ℤ, pos}
use content_based.Storage.{Bytes}

pub record Action : Type 0 where
  pub user_id : ℕ
  pub item_id : ℕ
  pub action : ℤ
  pub click_time : ℤ
  pub stay_time : ℤ
  pub location : Bytes
  pub srp_id : Bytes
  pub click_source : ℤ
  pub dislike : Bytes
  pub zone : Bytes

abbrev pub empty_action : Action
empty_action = record {
  user_id = 0;
  item_id = 0;
  action = pos 0;
  click_time = pos 0;
  stay_time = pos 0;
  location = [];
  srp_id = [];
  click_source = pos 0;
  dislike = [];
  zone = [];
}

pub record ItemTag (F : Type 0) : Type 0 where
  pub tag_name : Bytes
  pub tag_id : ℤ
  pub tag_power : F

pub record ItemWord : Type 0 where
  pub word : Bytes
  pub count : ℤ

pub record TopInfo : Type 0 where
  pub top_type : ℤ
  pub top_srp_id : List Bytes
  pub top_circle_id : List Bytes

pub record ItemSource : Type 0 where
  pub source_name : Bytes
  pub source_id : ℕ

pub record Item (F : Type 0) : Type 0 where
  pub item_id : ℕ
  pub publish_time : ℤ
  pub push_time : ℤ
  pub picture_num : ℤ
  pub power : F
  pub item_type : ℤ
  pub category : List (ItemTag F)
  pub word : List ItemWord
  pub srp : List (ItemTag F)
  pub circle : List (ItemTag F)
  pub top_info : TopInfo
  pub zone : List Bytes
  pub data_source : ItemSource
  pub tag : List (ItemTag F)

abbrev pub empty_item : {F : Type 0} → F → Item F
empty_item zero_float = record {
  item_id = 0;
  publish_time = pos 0;
  push_time = pos 0;
  picture_num = pos 0;
  power = zero_float;
  item_type = pos 0;
  category = [];
  word = [];
  srp = [];
  circle = [];
  top_info = record { top_type = pos 0; top_srp_id = []; top_circle_id = [] };
  zone = [];
  data_source = record { source_name = []; source_id = 0 };
  tag = [];
}

pub record Subscribe : Type 0 where
  pub user_id : ℕ
  pub srp_id : List Bytes
  pub circle_id : List Bytes

pub record Recommend : Type 0 where
  pub log : ℤ
  pub user_id : ℕ
  pub request_num : ℤ
  pub recommend_type : ℤ
  pub beg_time : ℤ
  pub end_time : ℤ
  pub zone : Bytes
  pub network : ℤ

abbrev pub empty_recommend : Recommend
empty_recommend = record {
  log = pos 0;
  user_id = 0;
  request_num = pos 0;
  recommend_type = pos 0;
  beg_time = pos 0;
  end_time = pos 0;
  zone = [];
  network = pos 0;
}

pub record HeartBeat : Type 0 where
  pub heartbeat : Bytes

pub record Feedback : Type 0 where
  pub user_id : ℕ
  pub item_id : List ℕ

-- What is packed into the field `protocol` of a request.
pub data Packed (F : Type 0) : Type 0 where
  an_action : Action → Packed F
  an_item : Item F → Packed F
  a_subscribe : Subscribe → Packed F
  a_recommend : Recommend → Packed F
  a_heartbeat : HeartBeat → Packed F
  a_feedback : Feedback → Packed F

pub record TransferRequest (F : Type 0) : Type 0 where
  pub main_protocol : ℤ
  pub protocol : Option (Packed F)
