-- ===== src/Protocol.antt =====
-- The messages of docs/supplement.proto, and their serialisation. The code that protoc generates
-- calls a library that is not in the repository, so serialisation is a parameter.
use content_based.Base.{◌≡◌, Option, some, List, ℕ, ℤ}
use content_based.Storage.{Bytes}

pub record CategoryClick : Type 0 where
  pub user_id : ℕ
  pub category_id : ℤ
  pub publish_time : ℤ

pub record CategoryItem : Type 0 where
  pub item_id : ℕ
  pub category_id : ℤ
  pub publish_time : ℤ

-- `F` is the type of a `float` field.
pub record ItemTag (F : Type 0) : Type 0 where
  pub tag_id : ℤ
  pub tag_power : F

pub record CategoryDistribution (F : Type 0) : Type 0 where
  pub user_id : ℕ
  pub distribution : List (ItemTag F)

-- `AppendToString`, which can fail, `ParseFromArray`, `SerializeAsString` and `ParseFromString`.
pub record Protocol (F : Type 0) : Type 0 where
  pub encode_click : CategoryClick → Option Bytes
  pub parse_click : Bytes → Option CategoryClick
  pub encode_item : CategoryItem → Option Bytes
  pub parse_item : Bytes → Option CategoryItem
  pub encode_distribution : CategoryDistribution F → Bytes
  pub parse_distribution : Bytes → Option (CategoryDistribution F)

-- A message that was serialised is parsed back.
pub record IsRoundTrip {F : Type 0} (pr : Protocol F) : Type 0 where
  pub click_back :
      (c : CategoryClick) (b : Bytes) → pr.encode_click c ≡ some b → pr.parse_click b ≡ some c
  pub item_back :
      (i : CategoryItem) (b : Bytes) → pr.encode_item i ≡ some b → pr.parse_item b ≡ some i
